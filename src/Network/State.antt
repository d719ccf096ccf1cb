-- ===== src/Network/State.antt =====
-- The state of a network of nodes, the class of src/client/ManagedNetwork.js. The node objects are
-- shared between the lists and the map, so they live in a store, and a list or the map holds the
-- numbers that stand for the objects; two references are `==` if their numbers are.
use Prim.Native.String.{String}
use text.Mathlib.Text.{◌==◌ as str_eq}
use u2u_sdk_js.Common.{
  ℕ, ◌+◌, ◌*◌, Bool, false, Option, none, some, List, [], ◌∷◌, ◌||◌, ◌==◌, if◌then◌else◌,
}
use u2u_sdk_js.Common.Int.{ℤ, pos, negsuc}
use u2u_sdk_js.Network.Node.{Node, ms, set_min_backoff, set_max_backoff, close}

-- `network` is the map from keys to nodes, in the order of insertion; `next_id` is free in the store.
pub record Network : Type 0 where
  pub store : ℕ → Node
  pub next_id : ℕ
  pub nodes : List ℕ
  pub healthy : List ℕ
  pub network : List (String × List ℕ)
  pub unhealthy_count : ℤ
  pub ledger_id : Option String
  pub min_backoff : ℕ
  pub max_backoff : ℕ
  pub max_node_attempts : ℤ
  pub min_readmit_period : ℕ
  pub max_readmit_period : ℕ
  pub earliest_readmit_time : ℕ

unfoldable pub new_network : ℕ → (ℕ → Node) → Network
new_network now store = record {
  store = store;
  next_id = 0;
  nodes = [];
  healthy = [];
  network = [];
  unhealthy_count = pos 0;
  ledger_id = none;
  min_backoff = 8000 * ms;
  max_backoff = 1000 * 60 * 60 * ms;
  max_node_attempts = negsuc 0;
  min_readmit_period = 8000 * ms;
  max_readmit_period = 1000 * 60 * 60 * ms;
  earliest_readmit_time = now + 8000 * ms;
}

abbrev pub elem : ℕ → List ℕ → Bool
elem n [] = false
elem n (x ∷ xs) = x == n || elem n xs

-- A call of a method of one object.
abbrev pub update : (ℕ → Node) → ℕ → (Node → Node) → ℕ → Node
update store n f k = if k == n then f (store k) else store k

-- A call of a method of each object of a list, in turn.
abbrev pub update_all : (ℕ → Node) → List ℕ → (Node → Node) → ℕ → Node
update_all store [] f = store
update_all store (n ∷ ns) f = update_all (update store n f) ns f

-- `Map.get`, `Map.set` and `Map.delete`.
module _ {V : Type 0} where
  unfoldable pub map_get : String → List (String × V) → Option V
  map_get k [] = none
  map_get k ((j, v) ∷ m) = if str_eq j k then some v else map_get k m

  unfoldable pub map_set : String → V → List (String × V) → List (String × V)
  map_set k v [] = (k, v) ∷ []
  map_set k v ((j, w) ∷ m) = if str_eq j k then (j, v) ∷ m else (j, w) ∷ map_set k v m

  unfoldable pub map_delete : String → List (String × V) → List (String × V)
  map_delete k [] = []
  map_delete k ((j, w) ∷ m) = if str_eq j k then m else (j, w) ∷ map_delete k m

unfoldable pub set_network_min_backoff : ℕ → Network → Network
set_network_min_backoff b s = record s {
  min_backoff = b;
  store = update_all s.store s.nodes (set_min_backoff b);
}

unfoldable pub set_network_max_backoff : ℕ → Network → Network
set_network_max_backoff b s = record s {
  max_backoff = b;
  store = update_all s.store s.nodes (set_max_backoff b);
}

unfoldable pub set_node_min_readmit_period : ℕ → ℕ → Network → Network
set_node_min_readmit_period now period s = record s {
  min_readmit_period = period;
  earliest_readmit_time = now + period;
}

unfoldable pub set_node_max_readmit_period : ℕ → Network → Network
set_node_max_readmit_period period s = record s { max_readmit_period = period }

unfoldable pub set_max_node_attempts : ℤ → Network → Network
set_max_node_attempts n s = record s { max_node_attempts = n }

-- `close` leaves the list of healthy nodes as it is.
unfoldable pub close_network : Network → Network
close_network s = record s { store = update_all s.store s.nodes close; network = []; nodes = [] }
