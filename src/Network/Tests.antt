-- ===== src/Network/Tests.antt =====
-- The theorems on nodes and networks at a network of two nodes, the second of which is unhealthy until
-- the time 500. Times are small here: they are numbers of ticks.
use u2u_sdk_js.Common.{
  ℕ, zero, suc, ◌+◌, ◌≤◌, ◌≡◌, ◌↔◌, refl, false, Option, none, some, [], ◌∷◌, leb, ◌&&◌, ◌||◌,
  arith,
}
use u2u_sdk_js.Common.Int.{pos, negsuc, ◌-ℤ◌}
use u2u_sdk_js.Network.Node.{
  Node, host, new_node, clone_node, set_max_backoff, set_min_backoff, increase_backoff,
  decrease_backoff, get_channel, close, is_healthy,
}
use u2u_sdk_js.Network.Node.Backoff.{IsBounded, node-IsBounded}
use u2u_sdk_js.Network.State.{Network, elem, map_get}
use u2u_sdk_js.Network.Readmit.{
  network_increase_backoff, network_decrease_backoff, readmit_nodes, remove_healthy,
}
use u2u_sdk_js.Network.Readmit.Members.{readmit_nodes-elem, failing_node_out}
use u2u_sdk_js.Network.Readmit.Balance.{balance, network_balance, readmit_nodes_due}
use u2u_sdk_js.Network.Choose.{
  Picked, pick_loop, get_node, choose, add_picked, enough, seen, out_of_fuel,
}
use u2u_sdk_js.Network.Choose.Stuck.{pick_loop_stuck}
use u2u_sdk_js.Network.Update.{
  set_network, Entries, close_nodes, nodes_to_remove, is_listed, close_node,
  remove_node_from_network,
}
use u2u_sdk_js.Network.Update.Replace.{set_network_healthy}

abbrev node_of : ℕ → Node
node_of zero = record {
  address = "a:50211";
  key = "0.0.3";
  open_channel = false;
  current_backoff = 8;
  last_used = 0;
  readmit_time = 0;
  use_count = 0;
  bad_grpc_status_count = 0;
  min_backoff = 8;
  max_backoff = 100;
}
node_of (suc _) = record {
  address = "b:50211";
  key = "0.0.4";
  open_channel = false;
  current_backoff = 16;
  last_used = 0;
  readmit_time = 500;
  use_count = 0;
  bad_grpc_status_count = 0;
  min_backoff = 8;
  max_backoff = 100;
}

abbrev two : Network
two = record {
  store = node_of;
  next_id = 2;
  nodes = 0 ∷ 1 ∷ [];
  healthy = 0 ∷ [];
  network = ("0.0.3", 0 ∷ []) ∷ ("0.0.4", 1 ∷ []) ∷ [];
  unhealthy_count = pos 1;
  ledger_id = none;
  min_backoff = 8;
  max_backoff = 100;
  max_node_attempts = negsuc 0;
  min_readmit_period = 10;
  max_readmit_period = 60;
  earliest_readmit_time = 400;
}

-- The index moves on over the element that follows a removed one.
remove_healthy_twice : remove_healthy 7 (7 ∷ 7 ∷ 3 ∷ []) ≡ (7 ∷ 3 ∷ [], 1)
unfolding remove_healthy
remove_healthy_twice = refl

readmit_nodes-elem_example : elem 1 (readmit_nodes 500 two).healthy ≡ (
    elem 1 two.healthy || leb 400 500 && (elem 1 two.nodes && leb (two.store 1).readmit_time 500))
readmit_nodes-elem_example = readmit_nodes-elem 500 1 two

failing_node_out_example :
    elem 0 (readmit_nodes 450 (network_increase_backoff 440 0 two)).healthy ≡ (
      leb two.earliest_readmit_time 450
      && (elem 0 two.nodes && leb (440 + (increase_backoff 440 (two.store 0)).current_backoff) 450))
failing_node_out_example = failing_node_out 440 450 0 two (refl, tt)

network_balance_example :
    (balance (network_increase_backoff 440 0 two) ≡ balance two)
    × (balance (network_decrease_backoff 0 two) ≡ balance two)
    × (balance (readmit_nodes 440 two) ≡ balance two)
network_balance_example = network_balance 440 0 two

readmit_nodes_due_example : (readmit_nodes 450 two).earliest_readmit_time ≤ 451
readmit_nodes_due_example = readmit_nodes_due 450 451 two (omega arith) (omega arith)

-- Both nodes are healthy, and two are wanted. The first draw gives the first node.
abbrev both_healthy : Network
both_healthy = record two { healthy = 0 ∷ 1 ∷ []; unhealthy_count = pos 0 }

abbrev one_seen : Picked
one_seen = record { nodes = 0 ∷ []; keys = "0.0.3" ∷ []; addresses = "a" ∷ [] }

-- The state after the first round is the one of the witness below.
first_pick :
    (fuel : ℕ)
    → pick_loop
        (λ k. 0)
        (λ k. 0)
        2
        (suc fuel)
        0
        0
        (record { nodes = []; keys = []; addresses = [] })
        both_healthy
      ≡ pick_loop (λ k. 0) (λ k. 0) 2 fuel 1 1 one_seen both_healthy
unfolding pick_loop get_node choose seen add_picked enough host readmit_nodes ◌-ℤ◌
first_pick fuel = refl

-- If the second draw and all that follow give the first node again, the loop does not end.
pick_loop_stuck_example : pick_loop (λ k. 0) (λ k. 0) 2 1000 1 1 one_seen both_healthy ≡ out_of_fuel
unfolding seen enough host ◌-ℤ◌
pick_loop_stuck_example =
    pick_loop_stuck (λ k. 0) (λ k. 0) (λ k. 0) 2 1000 1 1 one_seen both_healthy (λ k. omega arith)
      (λ k. refl) (λ k. refl) (omega arith) refl

abbrev new_entries : Entries
new_entries = ("a:50211", "0.0.3") ∷ ("c:50211", "0.0.5") ∷ []

abbrev value_or : Option Network → Network → Network
value_or none t = t
value_or (some s) t = s

abbrev replaced : Network
replaced = value_or (set_network 30 (λ i. 0) new_entries two) two

-- The second node is closed, and a new one is added.
replaced_nodes : set_network 30 (λ i. 0) new_entries two ≡ some replaced
unfolding set_network close_nodes nodes_to_remove is_listed map_get close_node
    remove_node_from_network close
replaced_nodes = refl

set_network_healthy_example :
    (elem 2 replaced.healthy ≡ (elem 2 replaced.nodes && is_healthy 30 (replaced.store 2)))
    × (replaced.unhealthy_count ≡ two.unhealthy_count)
set_network_healthy_example =
    set_network_healthy 30 2 (λ i. 0) new_entries two replaced replaced_nodes

IsBounded-zero : IsBounded (node_of 0)
IsBounded-zero = record { low = omega arith; high = omega arith }

node-IsBounded_example :
    IsBounded (new_node 5 "a:50211" "0.0.3")
    × IsBounded (increase_backoff 5 (node_of 0))
    × IsBounded (decrease_backoff (node_of 0))
    × IsBounded (get_channel (node_of 0))
    × IsBounded (close (node_of 0))
    × (IsBounded (set_min_backoff 50 (node_of 0)) ↔ 50 ≤ (node_of 0).max_backoff)
    × (IsBounded (set_max_backoff 50 (node_of 0)) ↔ (node_of 0).current_backoff ≤ 50)
    × (IsBounded (clone_node "a:50211" (node_of 0))
        ↔ (node_of 0).current_backoff ≤ (node_of 0).min_backoff)
node-IsBounded_example = node-IsBounded 5 "a:50211" "0.0.3" 50 IsBounded-zero
