-- ===== src/Execute/Attempts.antt =====
-- The whole retry loop: how many requests it sends, and how long it waits.
use u2u_sdk_js.Common.{
  ℕ, zero, suc, ◌+◌, ◌≤◌, ◌≡◌, refl, sym, ap, ◌∙◌, ◌⊎◌, inl, inr, Option, List, [], ◌∷◌, length,
  arith,
}
use mathlib.Core.Path.{subst}
use u2u_sdk_js.Network.State.{Network}
use u2u_sdk_js.Network.Readmit.Balance.{balance}
use u2u_sdk_js.Execute.{
  Limits, Attempt, Run, Round, stop, again, Outcome, round, follow, attempts, Client, Request,
  execute, attempts_allowed, or_else,
}
use u2u_sdk_js.Execute.Rounds.{Keeps, round-Keeps, Sends, final}

abbrev pub AllBelow : ℕ → List ℕ → Type 0
AllBelow high [] = Unit
AllBelow high (d ∷ ds) = (d ≤ high) × AllBelow high ds

-- What the whole loop keeps, from the run before it to the run after it.
record Bounded (left high : ℕ) (r t : Run) : Type 0 where
  same_balance : balance t.network ≡ balance r.network
  few_sent : length t.sent ≤ length r.sent + left
  short_delays : AllBelow high t.delays

delays_below :
    {high : ℕ} (ds es : List ℕ)
    → (es ≡ ds) ⊎ ((d : ℕ) × (es ≡ d ∷ ds) × (d ≤ high))
    → AllBelow high ds
    → AllBelow high es
delays_below {high} ds es (inl e) h = subst (AllBelow high) (sym e) h
delays_below {high} ds es (inr (d, e, l)) h = subst (AllBelow high) (sym e) (l, h)

round-Bounded :
    (limits : Limits) (attempt : ℕ) (a : Attempt) (r : Run) (o : Round)
    → AllBelow limits.high r.delays
    → Keeps limits.high r (final o)
    → Sends r.network.store a r (final o)
    → Bounded 1 limits.high r (final o)
round-Bounded limits attempt a r o h k s = record {
  same_balance = k.kept_balance;
  few_sent = ground arith;
  short_delays = delays_below r.delays (final o).delays k.kept_delays h;
}

follow-Bounded :
    (left high : ℕ) (r : Run) (o : Round) (rest : Run → Outcome × Run)
    → Bounded 1 high r (final o)
    → ((t : Run) → AllBelow high t.delays → Bounded left high t (rest t).1)
    → Bounded (suc left) high r (follow o rest).1
unfolding follow
follow-Bounded left high r (stop o t) rest b h = record {
  same_balance = b.same_balance;
  few_sent = omega arith;
  short_delays = b.short_delays;
}
follow-Bounded left high r (again t) rest b h =
    let k = h t b.short_delays in
    record {
      same_balance = k.same_balance ∙ b.same_balance;
      few_sent = omega arith;
      short_delays = k.short_delays;
    }

-- From a run whose waits are at most the maximal backoff, the loop sends at most one request for each
-- attempt that is left, waits at most the maximal backoff each time, and keeps the number of healthy
-- nodes plus the count of unhealthy ones.
attempts-Bounded :
    (limits : Limits) (env : ℕ → Attempt) (left attempt : ℕ) (r : Run)
    → AllBelow limits.high r.delays
    → Bounded left limits.high r (attempts limits env left attempt r).1
unfolding attempts
attempts-Bounded limits env zero attempt r h = record {
  same_balance = refl;
  few_sent = omega arith;
  short_delays = h;
}
attempts-Bounded limits env (suc left) attempt r h =
    let k = round-Keeps limits attempt (env attempt) r in
    follow-Bounded left limits.high r (round limits attempt (env attempt) r)
      (attempts limits env left (suc attempt))
      (round-Bounded limits attempt (env attempt) r (round limits attempt (env attempt) r) h k.0
        k.1)
      (attempts-Bounded limits env left (suc attempt))

few_sent_from_none :
    {left high : ℕ} (r t : Run) → r.sent ≡ [] → Bounded left high r t → length t.sent ≤ left
few_sent_from_none r t e b = let f : length r.sent ≡ 0 = ap length e in omega (arith, b.few_sent)

-- `execute` sends at most as many requests as it allows attempts, waits at most the maximal backoff each
-- time, and keeps the number of healthy nodes plus the count of unhealthy ones.
pub execute_bounds :
    (env : ℕ → Attempt) (now : ℕ) (limit : Option ℕ) (client : Client) (r : Request) (s : Network)
    → (length (execute env now limit client r s).1.sent ≤ attempts_allowed client r)
      × AllBelow
          (or_else r.max_backoff client.client_max_backoff)
          (execute env now limit client r s).1.delays
      × (balance (execute env now limit client r s).1.network ≡ balance s)
unfolding execute
execute_bounds env now limit client r s =
    let b = attempts-Bounded _ env (attempts_allowed client r) 1 _ tt in
    (few_sent_from_none _ _ refl b, b.short_delays, b.same_balance)
