-- ===== src/Execute/Rounds.antt =====
-- What one round of the retry loop, and the whole loop, do to the network and send to the nodes.
use Prim.Native.String.{String}
use u2u_sdk_js.Common.{
  ℕ, ◌≤◌, ◌≡◌, refl, ◌∙◌, ◌⊎◌, inl, inr, true, Option, ◌∷◌, if◌then◌else◌, arith, Bool-cases,
}
use mathlib.Core.Path.{subst}
use u2u_sdk_js.LockList
use u2u_sdk_js.Network.Node.{Node, get_channel, is_healthy}
use u2u_sdk_js.Network.State.{Network, update}
use u2u_sdk_js.Network.Readmit.{readmit_nodes}
use u2u_sdk_js.Network.Readmit.Balance.{balance, network_balance}
use u2u_sdk_js.Network.Choose.{Chosen, chosen, undefined, thrown, choose, get_node}
use u2u_sdk_js.Execute.{
  Limits, Attempt, Run, Round, stop, again, Reply, response, ExecutionState, finished, retry, error,
  on_response, on_failure, on_reply, on_node, on_choice, timed_out, key_of, round,
  delay_for_attempt, should_retry_exceptionally, list_of,
}

abbrev pub final : Round → Run
final (stop _ r) = r
final (again r) = r

-- How a run goes on: whom it sends to, with the delays and the count of nodes.
pub record Keeps (high : ℕ) (r t : Run) : Type 0 where
  pub kept_balance : balance t.network ≡ balance r.network
  pub kept_delays : (t.delays ≡ r.delays) ⊎ ((d : ℕ) × (t.delays ≡ d ∷ r.delays) × (d ≤ high))

on_response-Keeps :
    (limits : Limits) (attempt n : ℕ) (err : Option String) (state : ExecutionState) (r : Run)
    → Keeps limits.high r (final (on_response limits attempt n err state r))
      × ((final (on_response limits attempt n err state r)).sent ≡ r.sent)
unfolding on_response delay_for_attempt
on_response-Keeps limits attempt n err finished r =
    (record { kept_balance = (network_balance 0 n r.network).1; kept_delays = inl refl }, refl)
on_response-Keeps limits attempt n err error r =
    (record { kept_balance = (network_balance 0 n r.network).1; kept_delays = inl refl }, refl)
on_response-Keeps limits attempt n err retry r = (
  record {
    kept_balance = (network_balance 0 n r.network).1;
    kept_delays = inr (_, refl, omega arith);
  },
  refl,
)

on_failure-Keeps :
    (high : ℕ) (a : Attempt) (n : ℕ) (failure : Reply) (r : Run)
    → Keeps high r (final (on_failure a n failure r))
      × ((final (on_failure a n failure r)).sent ≡ r.sent)
unfolding on_failure
on_failure-Keeps high a n failure r = elim (Bool-cases (should_retry_exceptionally failure)) [
  | inl e ↦ rw e (
    record { kept_balance = (network_balance a.failing n r.network).0; kept_delays = inl refl },
    refl,
  )
  | inr e ↦ rw e (record { kept_balance = refl; kept_delays = inl refl }, refl)
]

on_reply-Keeps :
    (limits : Limits) (attempt : ℕ) (a : Attempt) (n : ℕ) (reply : Reply) (r : Run)
    → Keeps limits.high r (final (on_reply limits attempt a n reply r))
      × ((final (on_reply limits attempt a n reply r)).sent ≡ r.sent)
unfolding on_reply
on_reply-Keeps limits attempt a n (response err state) r =
    on_response-Keeps limits attempt n err state r
on_reply-Keeps limits attempt a n failure r = on_failure-Keeps limits.high a n failure r

-- A run sends nothing, or one request more, to a node whose readmit time has come.
abbrev pub Sends : (ℕ → Node) → Attempt → Run → Run → Type 0
Sends store a r t =
    (t.sent ≡ r.sent)
    ⊎ ((n : ℕ) × (t.sent ≡ (n, a.checking) ∷ r.sent) × (is_healthy a.checking (store n) ≡ true))

get_channel_healthy :
    (now n : ℕ) (store : ℕ → Node)
    → is_healthy now (update store n get_channel n) ≡ is_healthy now (store n)
unfolding is_healthy get_channel
get_channel_healthy now n store = ground arith

on_node-Keeps :
    (limits : Limits) (attempt : ℕ) (a : Attempt) (n : ℕ) (r : Run)
    → Keeps limits.high r (final (on_node limits attempt a n r))
      × Sends r.network.store a r (final (on_node limits attempt a n r))
unfolding on_node
on_node-Keeps limits attempt a n r = elim (Bool-cases (is_healthy a.checking (r.network.store n))) [
  | inl e ↦
      let t : Run = record r {
        network = record r.network { store = update r.network.store n get_channel };
        node_ids = (LockList.advance r.node_ids).1;
        sent = (n, a.checking) ∷ r.sent;
      } in
      let k = on_reply-Keeps limits attempt a n a.reply t in
      rw (get_channel_healthy a.checking n r.network.store, e)
        (record { kept_balance = k.0.kept_balance; kept_delays = k.0.kept_delays }, inr (n, k.1, e))
  | inr e ↦
      rw (get_channel_healthy a.checking n r.network.store, e)
        (record { kept_balance = refl; kept_delays = inl refl }, inl refl)
]

on_choice-Keeps :
    (limits : Limits) (attempt : ℕ) (a : Attempt) (r : Run) (network : Network) (c : Chosen)
    → balance network ≡ balance r.network
    → network.store ≡ r.network.store
    → Keeps limits.high r (final (on_choice limits attempt a r network c))
      × Sends r.network.store a r (final (on_choice limits attempt a r network c))
unfolding on_choice
on_choice-Keeps limits attempt a r network thrown b st =
    (record { kept_balance = b; kept_delays = inl refl }, inl refl)
on_choice-Keeps limits attempt a r network undefined b st =
    (record { kept_balance = b; kept_delays = inl refl }, inl refl)
on_choice-Keeps limits attempt a r network (chosen n) b st =
    let t : Run = record r {
      network = network;
      node_ids = if r.node_ids.locked then r.node_ids else list_of network n r.node_ids;
    } in
    let k = on_node-Keeps limits attempt a n t in
    (
      record { kept_balance = k.0.kept_balance ∙ b; kept_delays = k.0.kept_delays },
      subst (λ store. Sends store a r (final (on_node limits attempt a n t))) st k.1,
    )

readmit_nodes_store : (now : ℕ) (s : Network) → (readmit_nodes now s).store ≡ s.store
unfolding readmit_nodes
readmit_nodes_store now s = ground arith

pub round-Keeps :
    (limits : Limits) (attempt : ℕ) (a : Attempt) (r : Run)
    → Keeps limits.high r (final (round limits attempt a r))
      × Sends r.network.store a r (final (round limits attempt a r))
unfolding round get_node
round-Keeps limits attempt a r = elim (Bool-cases (timed_out limits a.start)) [
  | inl e ↦ rw e (record { kept_balance = refl; kept_delays = inl refl }, inl refl)
  | inr e ↦ rw e (
      on_choice-Keeps limits attempt a r (readmit_nodes a.choosing r.network)
        (choose a.random (key_of r) (readmit_nodes a.choosing r.network))
        (network_balance a.choosing 0 r.network).2 (readmit_nodes_store a.choosing r.network))
]

-- A round sends at most one request, and only to a node whose readmit time has come when its health
-- is checked.
pub round-Sends :
    (limits : Limits) (attempt : ℕ) (a : Attempt) (r : Run)
    → Sends r.network.store a r (final (round limits attempt a r))
round-Sends limits attempt a r = (round-Keeps limits attempt a r).1
