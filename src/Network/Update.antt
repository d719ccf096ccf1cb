-- ===== src/Network/Update.antt =====
-- Replacing the nodes of a network: `_closeNode`, `_removeNodeFromNetwork`, `_removeDeadNodes` and
-- `_setNetwork` of src/client/ManagedNetwork.js, `_getNodesToRemove` and `_createNodeFromNetworkEntry`
-- of src/client/Network.js, and `shuffle` of src/util.js. `none` is a TypeError.
pub mod Shuffle
pub mod Replace
use Prim.Native.String.{String}
use text.Mathlib.Text.{◌==◌ as str_eq}
use u2u_sdk_js.Common.{
  ℕ, zero, suc, ◌+◌, ◌-◌, ◌%◌, Bool, true, false, Option, none, some, List, [], ◌∷◌, ◌++◌, map,
  length, get_elem?, get_or, ltb, ◌&&◌, ◌||◌, ◌==◌, if◌then◌else◌,
}
use u2u_sdk_js.Common
use u2u_sdk_js.Common.Int.{ℤ, pos, ltb_ℤ}
use u2u_sdk_js.Network.Node.{Node, new_node, set_min_backoff, is_healthy, close}
use u2u_sdk_js.Network.State.{Network, update, map_get, map_set, map_delete}

-- The loop of `_removeNodeFromNetwork`: it drops the first reference to the node.
unfoldable pub remove_first : ℕ → List ℕ → List ℕ
remove_first n [] = []
remove_first n (x ∷ xs) = if x == n then xs else x ∷ remove_first n xs

abbrev pub is_empty : List ℕ → Bool
is_empty [] = true
is_empty (_ ∷ _) = false

unfoldable pub remove_node_from_network : ℕ → Network → Option Network
remove_node_from_network n s =
    let key = (s.store n).key in
    elim (map_get key s.network) [
      | none ↦ none
      | some ns ↦
          let left = remove_first n ns in
          some (record s {
            network =
                if is_empty left then map_delete key s.network else map_set key left s.network;
          })
    ]

-- `splice(i, 1)`.
unfoldable pub splice : ℕ → List ℕ → List ℕ
splice i [] = []
splice zero (x ∷ xs) = xs
splice (suc i) (x ∷ xs) = x ∷ splice i xs

unfoldable pub close_node : ℕ → Network → Option Network
close_node i s = elim (get_elem? s.nodes i) [
  | none ↦ none
  | some n ↦ elim (remove_node_from_network n (record s { store = update s.store n close })) [
    | none ↦ none
    | some t ↦ some (record t { nodes = splice i t.nodes })
  ]
]

-- The loop of `_removeDeadNodes`, downwards from the index before the given one.
unfoldable pub remove_dead_from : ℕ → Network → Option Network
remove_dead_from zero s = some s
remove_dead_from (suc i) s = elim (get_elem? s.nodes i) [
  | none ↦ none
  | some n ↦
      let keep = remove_dead_from i s in
      let drop : Option Network = elim (close_node i s) [
        | none ↦ none
        | some t ↦ remove_dead_from i t
      ] in
      if ltb_ℤ (pos (s.store n).bad_grpc_status_count) s.max_node_attempts then keep else drop
]

unfoldable pub remove_dead_nodes : Network → Option Network
remove_dead_nodes s =
    if ltb_ℤ (pos 0) s.max_node_attempts then remove_dead_from (length s.nodes) s else some s

-- The entries of the new network, from addresses to keys.
abbrev pub Entries : Type 0
Entries = List (String × String)

-- The node's address stands in the new network with the node's key.
unfoldable pub is_listed : Entries → Node → Bool
is_listed entries node = elim (map_get node.address entries) [
  | none ↦ false
  | some key ↦ str_eq key node.key
]

-- `_getNodesToRemove`, downwards from the index before the given one.
unfoldable pub nodes_to_remove : Entries → ℕ → Network → List ℕ
nodes_to_remove entries zero s = []
nodes_to_remove entries (suc i) s =
    let rest = nodes_to_remove entries i s in
    elim (get_elem? s.nodes i) [
      | none ↦ rest
      | some n ↦ if is_listed entries (s.store n) then rest else i ∷ rest
    ]

unfoldable pub close_nodes : List ℕ → Network → Option Network
close_nodes [] s = some s
close_nodes (i ∷ is) s = elim (close_node i s) [ none ↦ none | some t ↦ close_nodes is t ]

abbrev pub has : String → List String → Bool
has k [] = false
has k (j ∷ js) = str_eq j k || has k js

-- One round of the loop that adds the new nodes; `keys` and `addresses` are those of the nodes that
-- are kept.
unfoldable pub add_node : ℕ → List String → List String → String × String → Network → Network
add_node now keys addresses (address, key) s =
    if has key keys && has address addresses then s else record s {
      store = λ k.
          if k == s.next_id
          then set_min_backoff s.min_backoff (new_node now address key)
          else s.store k;
      next_id = s.next_id + 1;
      nodes = s.nodes ++ (s.next_id ∷ []);
    }

unfoldable pub add_nodes : ℕ → List String → List String → Entries → Network → Network
add_nodes now keys addresses [] s = s
add_nodes now keys addresses (e ∷ entries) s =
    add_nodes now keys addresses entries (add_node now keys addresses e s)

-- The exchange of two elements.
unfoldable pub swap : List ℕ → ℕ → ℕ → List ℕ
swap xs i j = Common.set (Common.set xs i (get_or xs j 0)) j (get_or xs i 0)

-- `util.shuffle`: `random i % i` is the number that `Math.floor(Math.random() * i)` picks below `i`.
unfoldable pub shuffle_from : (ℕ → ℕ) → ℕ → List ℕ → List ℕ
shuffle_from random zero xs = xs
shuffle_from random (suc i) xs = shuffle_from random i (swap xs i (random (suc i) % suc i))

unfoldable pub shuffle : (ℕ → ℕ) → List ℕ → List ℕ
shuffle random xs = shuffle_from random (length xs) xs

unfoldable pub or_empty : Option (List ℕ) → List ℕ
or_empty none = []
or_empty (some ns) = ns

-- One round of the loop that fills the list of healthy nodes and the map.
unfoldable pub list_if_healthy : ℕ → ℕ → Network → Network
list_if_healthy now n s =
    if is_healthy now (s.store n)
    then record s {
      healthy = s.healthy ++ (n ∷ []);
      network =
          map_set (s.store n).key (or_empty (map_get (s.store n).key s.network) ++ (n ∷ []))
            s.network;
    }
    else s

unfoldable pub list_healthy : ℕ → List ℕ → Network → Network
list_healthy now [] s = s
list_healthy now (n ∷ ns) s = list_healthy now ns (list_if_healthy now n s)

-- The part of `_setNetwork` that follows the removals.
unfoldable pub install : ℕ → (ℕ → ℕ) → Entries → Network → Network
install now random entries t =
    let keys = map (λ n. (t.store n).key) t.nodes in
    let addresses = map (λ n. (t.store n).address) t.nodes in
    let u = add_nodes now keys addresses entries t in
    let order = shuffle random u.nodes in
    list_healthy now order
      (record u { nodes = order; healthy = []; network = []; ledger_id = none })

unfoldable pub set_network : ℕ → (ℕ → ℕ) → Entries → Network → Option Network
set_network now random entries s =
    elim (close_nodes (nodes_to_remove entries (length s.nodes) s) s) [
      | none ↦ none
      | some t ↦ some (install now random entries t)
    ]
