-- ===== src/Network/Choose/Healthy.antt =====
-- What is chosen is healthy, or stands under the key that is asked for.
use u2u_sdk_js.Common.{
  ℕ, zero, suc, ◌*◌, ◌%◌, ◌≤◌, ◌<◌, ◌≡◌, refl, ap, true, none, some, List, [], ◌∷◌, length,
  get_elem?, arith, ◌⊎◌, inl, inr, ℕ_discrete,
}
use native.Mathlib.Nat.{mod-lt}
use u2u_sdk_js.Common.Int.{pos}
use u2u_sdk_js.Network.State.{Network, elem}
use u2u_sdk_js.Network.Readmit.{readmit_nodes}
use u2u_sdk_js.Network.Choose.{
  chosen, thrown, found, choose, get_node, get_number_of_nodes_for_transaction,
}

get_elem?-some :
    (xs : List ℕ) (i : ℕ) → i < length xs → (n : ℕ) × (get_elem? xs i ≡ some n) × (elem n xs ≡ true)
get_elem?-some [] i h = elim h [ ]
get_elem?-some (x ∷ xs) zero h = (x, refl, ground arith)
get_elem?-some (x ∷ xs) (suc i) h =
    let (n, e, m) = get_elem?-some xs i (omega arith) in (n, e, ground arith)

found_none : (xs : List ℕ) (i : ℕ) → length xs ≡ 0 → found (get_elem? xs i) ≡ thrown
found_none [] i h = refl
found_none (x ∷ xs) i h = absurd (omega arith)

found_some :
    (xs : List ℕ) (i : ℕ)
    → i < length xs
    → (n : ℕ) × (found (get_elem? xs i) ≡ chosen n) × (elem n xs ≡ true)
found_some xs i h = let (n, e, m) = get_elem?-some xs i h in (n, ap found e, m)

-- With no key, `getNode` throws and no node is healthy after the readmission, or it returns one of the
-- nodes that are.
pub get_node_healthy :
    (now r : ℕ) (s : Network)
    → (((get_node now r none s).0 ≡ thrown) × (length (readmit_nodes now s).healthy ≡ 0))
      ⊎ ((n : ℕ) × ((get_node now r none s).0 ≡ chosen n)
          × (elem n (readmit_nodes now s).healthy ≡ true))
unfolding get_node choose
get_node_healthy now r s = elim (ℕ_discrete (length hs) 0) [
  | yes e ↦ inl (found_none hs (r % length hs) e, e)
  | no ne ↦ inr (found_some hs (r % length hs) (mod-lt r (omega arith)))
]
  where
    hs : List ℕ
    hs = (readmit_nodes now s).healthy

-- The number of nodes for a transaction is the limit if it is positive; without one it is at least a
-- third of the nodes and at most all of them.
pub number_of_nodes_bounds :
    (n : ℕ) (s : Network)
    → let k = get_number_of_nodes_for_transaction (pos 0) s in
      (get_number_of_nodes_for_transaction (pos (suc n)) s ≡ suc n)
      × (length s.nodes ≤ 3 * k)
      × (k ≤ length s.nodes)
unfolding get_number_of_nodes_for_transaction
number_of_nodes_bounds n s = (refl, ground arith, ground arith)
