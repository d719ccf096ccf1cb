-- ===== src/Network/Choose.antt =====
-- Choosing nodes: `getNode` and `_getNumberOfMostHealthyNodes` of src/client/ManagedNetwork.js, and
-- `getNumberOfNodesForTransaction` of src/client/Network.js. The clock and the numbers that
-- `Math.random` gives are functions of the number of the call; a number `r` picks `r % n` of `n`.
pub mod Healthy
pub mod Stuck
use Prim.Native.String.{String}
use text.Mathlib.Text.{◌==◌ as str_eq}
use u2u_sdk_js.Common.{
  ℕ, zero, suc, ◌+◌, ◌-◌, ◌/◌, ◌%◌, Bool, true, false, Option, none, some, List, [], ◌∷◌, ◌++◌, map,
  length, get_elem?, leb, ltb, ◌&&◌, ◌||◌, ◌==◌, if◌then◌else◌,
}
use u2u_sdk_js.Common.Int.{ℤ, pos, negsuc, ◌-ℤ◌}
use u2u_sdk_js.Network.Node.{Node, host}
use u2u_sdk_js.Network.State.{Network, map_get}
use u2u_sdk_js.Network.Readmit.{readmit_nodes}
use u2u_sdk_js.Network.Update.{has, remove_dead_nodes}

-- The result of `getNode`: a node, or undefined, or an exception.
pub data Chosen : Type 0 where
  chosen : ℕ → Chosen
  undefined thrown : Chosen

abbrev pub first : List ℕ → Chosen
first [] = undefined
first (n ∷ _) = chosen n

abbrev pub found : Option ℕ → Chosen
found none = thrown
found (some n) = chosen n

-- A random entry of the map; reading the first element of a missing entry throws.
unfoldable pub random_entry : ℕ → List (String × List ℕ) → Chosen
random_entry r m = elim (get_elem? m (r % length m)) [ none ↦ thrown | some e ↦ first e.1 ]

unfoldable pub choose : ℕ → Option String → Network → Chosen
choose r none s = found (get_elem? s.healthy (r % length s.healthy))
choose r (some key) s = elim (map_get key s.network) [
  | none ↦ random_entry r s.network
  | some ns ↦ first ns
]

unfoldable pub get_node : ℕ → ℕ → Option String → Network → Chosen × Network
get_node now r key s = let t = readmit_nodes now s in (choose r key t, t)

-- The variables of `_getNumberOfMostHealthyNodes`.
pub record Picked : Type 0 where
  pub nodes : List ℕ
  pub keys : List String
  pub addresses : List String

abbrev pub eq_ℤ : ℤ → ℤ → Bool
eq_ℤ (pos a) (pos b) = a == b
eq_ℤ (negsuc a) (negsuc b) = a == b
eq_ℤ _ _ = false

-- The test that ends the loop early.
unfoldable pub enough : ℕ → Picked → Network → Bool
enough count v s =
    eq_ℤ (pos (length v.nodes)) (pos count -ℤ s.unhealthy_count)
    && (if length v.nodes == 0 then false else true)

-- The key and the host of the node have both been seen; the port is not compared.
unfoldable pub seen : Picked → Node → Bool
seen v node = has node.key v.keys && has (host node.address) v.addresses

unfoldable pub add_picked : ℕ → Node → Picked → Picked
add_picked n node v = record {
  nodes = v.nodes ++ (n ∷ []);
  keys = node.key ∷ v.keys;
  addresses = host node.address ∷ v.addresses;
}

-- The results of the loop: the nodes, an exception, or more rounds than the fuel allows.
pub data Selection : Type 0 where
  selected : List ℕ → Selection
  failed out_of_fuel : Selection

module _ (clock random : ℕ → ℕ) (count : ℕ) where
  -- One round is the call `t` of `getNode`. Where the node has been seen, `i--` undoes the `i++` that
  -- follows.
  unfoldable pub pick_loop : ℕ → ℕ → ℕ → Picked → Network → Selection
  pick_loop zero t i v s = out_of_fuel
  pick_loop (suc fuel) t i v s =
      let (c, s') = get_node (clock t) (random t) none s in
      let next : Selection = elim c [
        | undefined ↦ failed
        | thrown ↦ failed
        | chosen n ↦
            let again = pick_loop fuel (suc t) i v s' in
            let more = pick_loop fuel (suc t) (suc i) (add_picked n (s'.store n) v) s' in
            if seen v (s'.store n) then again else more
      ] in
      if ltb i (length s.healthy)
      then if enough count v s then selected v.nodes else next
      else selected v.nodes

-- `_getNumberOfMostHealthyNodes`.
unfoldable pub get_number_of_most_healthy_nodes : (ℕ → ℕ) → (ℕ → ℕ) → ℕ → ℕ → Network → Selection
get_number_of_most_healthy_nodes clock random fuel count s = elim (remove_dead_nodes s) [
  | none ↦ failed
  | some t ↦
      pick_loop clock random count fuel 0 0 (record { nodes = []; keys = []; addresses = [] }) t
]

-- How many nodes a transaction is prepared for; a limit that is not positive is no limit.
unfoldable pub get_number_of_nodes_for_transaction : ℤ → Network → ℕ
get_number_of_nodes_for_transaction (pos (suc n)) s = suc n
get_number_of_nodes_for_transaction _ s =
    if leb (length s.nodes) 9 then length s.nodes else (length s.nodes + 3 - 1) / 3
