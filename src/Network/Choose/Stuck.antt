-- ===== src/Network/Choose/Stuck.antt =====
-- The loop of `_getNumberOfMostHealthyNodes` need not end: a round that draws a node which has been
-- seen does not count.
use u2u_sdk_js.Common.{
  ℕ, zero, suc, ◌%◌, ◌<◌, ◌≡◌, refl, true, false, some, length, get_elem?, lt→ltb, arith,
}
use u2u_sdk_js.Network.State.{Network}
use u2u_sdk_js.Network.Readmit.{readmit_nodes}
use u2u_sdk_js.Network.Choose.{choose, get_node, Picked, enough, seen, out_of_fuel, pick_loop}

-- The node that each call draws.
abbrev pub Draws : (ℕ → ℕ) → (ℕ → ℕ) → Network → Type 0
Draws random pick s = (t : ℕ) → get_elem? s.healthy (random t % length s.healthy) ≡ some (pick t)

readmit_nodes_early :
    (now : ℕ) (s : Network) → now < s.earliest_readmit_time → readmit_nodes now s ≡ s
unfolding readmit_nodes
readmit_nodes_early now s h = ground arith

-- While no readmission is due, if there are nodes left to look at, the nodes picked so far are not
-- enough, and every node that is drawn has been seen, the loop does not end: no fuel is enough.
pub pick_loop_stuck :
    (clock random pick : ℕ → ℕ) (count fuel t i : ℕ) (v : Picked) (s : Network)
    → ((k : ℕ) → clock k < s.earliest_readmit_time)
    → Draws random pick s
    → ((k : ℕ) → seen v (s.store (pick k)) ≡ true)
    → i < length s.healthy
    → enough count v s ≡ false
    → pick_loop clock random count fuel t i v s ≡ out_of_fuel
unfolding pick_loop get_node choose
pick_loop_stuck clock random pick count zero t i v s early draws again room few = refl
pick_loop_stuck clock random pick count (suc fuel) t i v s early draws again room few = rw (
  readmit_nodes_early (clock t) s (early t),
  draws t,
  few,
  lt→ltb i (length s.healthy) room,
  readmit_nodes_early (clock t) s (early t),
  again t,
  pick_loop_stuck clock random pick count fuel (suc t) i v s early draws again room few,
)
