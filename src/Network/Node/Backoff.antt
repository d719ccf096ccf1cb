-- ===== src/Network/Node/Backoff.antt =====
-- The backoff of a node stays in its bounds, and doubles.
use Prim.Native.Nat.{min, max}
use u2u_sdk_js.Common.{
  ℕ, zero, suc, ◌+◌, ◌*◌, ◌^◌, ◌≤◌, ◌<◌, ◌≡◌, refl, sym, ap, ◌∙◌, true, arith, ◌↔◌,
}
use native.Mathlib.Nat.{pow-suc, le-mul_of_pos_right, mul-le-mul_right}
use native.Mathlib.Decide.{dec_le}
use u2u_sdk_js.Network.Node.{
  Node, new_node, clone_node, set_min_backoff, set_max_backoff, get_channel, is_healthy,
  increase_backoff, decrease_backoff, close,
}
use Prim.Native.String.{String}

pub record IsBounded (node : Node) : Type 0 where
  pub low : node.min_backoff ≤ node.current_backoff
  pub high : node.current_backoff ≤ node.max_backoff

-- A new node has its backoff between its bounds, and failing, succeeding, opening and closing a channel
-- keep it there. `setMinBackoff` keeps it there exactly for a bound that is not above the maximum,
-- `setMaxBackoff` exactly for a bound that is not below the backoff, and the clone of a node has it
-- between its bounds exactly if the node's backoff is not above its minimum.
pub node-IsBounded :
    (now : ℕ) (address key : String) (b : ℕ) {node : Node}
    → IsBounded node
    → IsBounded (new_node now address key)
      × IsBounded (increase_backoff now node)
      × IsBounded (decrease_backoff node)
      × IsBounded (get_channel node)
      × IsBounded (close node)
      × (IsBounded (set_min_backoff b node) ↔ b ≤ node.max_backoff)
      × (IsBounded (set_max_backoff b node) ↔ node.current_backoff ≤ b)
      × (IsBounded (clone_node address node) ↔ node.current_backoff ≤ node.min_backoff)
unfolding new_node increase_backoff decrease_backoff get_channel close set_min_backoff
    set_max_backoff clone_node
node-IsBounded now address key b v = (
  ground arith,
  ground arith,
  ground arith,
  ground arith,
  ground arith,
  (ground arith, ground arith),
  (ground arith, ground arith),
  (ground arith, ground arith),
)

abbrev pub increases : ℕ → ℕ → Node → Node
increases zero now node = node
increases (suc k) now node = increases k now (increase_backoff now node)

min-double_pos : (c m p : ℕ) → 0 < p → min (min (c * 2) m * p) m ≡ min (c * (p * 2)) m
min-double_pos c m p h = elim (dec_le (c * 2) m) [
  | yes q ↦ let e : min (c * 2) m ≡ c * 2 = omega arith in rw e (omega arith)
  | no q ↦
      let e : min (c * 2) m ≡ m = omega arith in
      rw e (
        omega
          (arith, le-mul_of_pos_right m h, mul-le-mul_right {m = m} {n = c * 2} p (omega arith)))
]

pow2_pos : (k : ℕ) → 0 < 2 ^ k
pow2_pos zero = omega arith
pow2_pos (suc k) = rw pow-suc (omega (arith, pow2_pos k))

-- After some failures in a row at a backoff within its maximum, the backoff is the first one doubled
-- once for each failure, or the maximum if that is less; and the bounds have not moved.
pub increases_backoff :
    (k now : ℕ) (node : Node)
    → node.current_backoff ≤ node.max_backoff
    → ((increases k now node).current_backoff ≡ min (node.current_backoff * 2 ^ k) node.max_backoff)
      × ((increases k now node).max_backoff ≡ node.max_backoff)
unfolding increase_backoff
increases_backoff zero now node h = (omega arith, refl)
increases_backoff (suc k) now node h =
    let ih = increases_backoff k now (increase_backoff now node) (omega arith) in
    (
      ih.0
          ∙ min-double_pos node.current_backoff node.max_backoff (2 ^ k) (pow2_pos k)
          ∙ ap (λ t. min (node.current_backoff * t) node.max_backoff) (sym (pow-suc 2 k)),
      ih.1,
    )

-- A node that fails is unhealthy before the time of the failure plus its new backoff, and healthy
-- from then on.
pub increase_backoff_healthy :
    (now later : ℕ) (node : Node)
    → (is_healthy later (increase_backoff now node) ≡ true)
      ↔ (now + (increase_backoff now node).current_backoff ≤ later)
unfolding is_healthy increase_backoff
increase_backoff_healthy now later node = (ground arith, ground arith)

-- With a backoff within the maximum, a success after a failure never leaves the backoff above the
-- one before the two, unless the minimum is above it.
pub decrease-increase :
    (now : ℕ) (node : Node)
    → node.current_backoff ≤ node.max_backoff
    → (decrease_backoff (increase_backoff now node)).current_backoff
      ≤ max node.current_backoff node.min_backoff
unfolding decrease_backoff increase_backoff
decrease-increase now node h = omega arith
