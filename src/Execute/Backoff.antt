-- ===== src/Execute/Backoff.antt =====
-- The backoffs of a request, and the errors that are retried.
use u2u_sdk_js.Common.{ℕ, suc, ◌+◌, ◌*◌, ◌≤◌, ◌≡◌, ◌↔◌, Option, none, some, Bool, true, leb, arith}
use native.Mathlib.Nat.{pow-suc}
use u2u_sdk_js.Network.Node.{ms}
use u2u_sdk_js.Execute.{Request, set_ok, set_min_backoff, set_max_backoff, delay_for_attempt}

-- A minimal and a maximal backoff, where both are set, are in order.
abbrev pub in_order : Option ℕ → Option ℕ → Bool
in_order none _ = true
in_order _ none = true
in_order (some low) (some high) = leb low high

-- A setter of a backoff succeeds exactly if the given value and the other backoff are in order, and
-- then it changes nothing but the backoff.
pub set_backoff_iff :
    (b : ℕ) (r r' : Request)
    → ((set_min_backoff (some b) r ≡ set_ok r')
        ↔ ((in_order (some b) r.max_backoff ≡ true) × (record r { min_backoff = some b } ≡ r')))
      × ((set_max_backoff (some b) r ≡ set_ok r')
          ↔ ((in_order r.min_backoff (some b) ≡ true) × (record r { max_backoff = some b } ≡ r')))
unfolding set_min_backoff set_max_backoff
set_backoff_iff b r r' = ((ground arith, ground arith), (ground arith, ground arith))

-- The wait after an attempt is at most the maximal backoff and at most a millisecond more than twice
-- the wait after the attempt before, and it does not get shorter from one attempt to the next.
pub delay_for_attempt_bounds :
    (attempt low high : ℕ)
    → (delay_for_attempt attempt low high ≤ high)
      × (delay_for_attempt attempt low high ≤ delay_for_attempt (suc attempt) low high)
      × (delay_for_attempt (suc attempt) low high ≤ 2 * delay_for_attempt attempt low high + ms)
unfolding delay_for_attempt
delay_for_attempt_bounds attempt low high =
    rw (pow-suc 2 attempt) (omega arith, omega arith, omega arith)
