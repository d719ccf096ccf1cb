-- ===== src/Network/Readmit/Balance.antt =====
-- The count of unhealthy nodes moves against the number of healthy nodes; and the time of the next
-- readmission is a period, not a time.
use u2u_sdk_js.Common.{
  ℕ, ◌+◌, ◌≤◌, ◌≡◌, refl, ◌∙◌, true, List, [], ◌∷◌, length, length-append, arith,
}
use u2u_sdk_js.Common.Int.{ℤ, pos, ◌+ℤ◌}
use u2u_sdk_js.Network.Node.{Node}
use u2u_sdk_js.Network.State.{Network}
use u2u_sdk_js.Network.Readmit.{
  Search, readmit_node, readmit_loop, readmit_nodes, remove_healthy, network_increase_backoff,
  network_decrease_backoff, max_safe_integer,
}

-- How many nodes are healthy or counted as unhealthy.
abbrev pub balance : Network → ℤ
balance s = pos (length s.healthy) +ℤ s.unhealthy_count

length-remove_healthy :
    (n : ℕ) (hs : List ℕ) → length (remove_healthy n hs).0 + (remove_healthy n hs).1 ≡ length hs
unfolding remove_healthy
length-remove_healthy n [] = omega arith
length-remove_healthy n (x ∷ []) = ground arith
length-remove_healthy n (x ∷ y ∷ hs) =
    ground (arith, length-remove_healthy n hs, length-remove_healthy n (y ∷ hs))

abbrev search_balance : Search → ℤ
search_balance v = pos (length v.healthy) +ℤ v.count

readmit_node_balance :
    (store : ℕ → Node) (now n : ℕ) (v : Search)
    → search_balance (readmit_node store now n v) ≡ search_balance v
unfolding readmit_node ◌+ℤ◌
readmit_node_balance store now n v = ground (arith, length-append v.healthy (n ∷ []))

readmit_loop_balance :
    (store : ℕ → Node) (now : ℕ) (ns : List ℕ) (v : Search)
    → search_balance (readmit_loop store now ns v) ≡ search_balance v
unfolding readmit_loop
readmit_loop_balance store now [] v = refl
readmit_loop_balance store now (n ∷ ns) v =
    readmit_loop_balance store now ns (readmit_node store now n v)
    ∙ readmit_node_balance store now n v

increase_balance : (a b : ℕ) (c : ℤ) (n : ℕ) → a + b ≡ n → pos a +ℤ (c +ℤ pos b) ≡ pos n +ℤ c
unfolding ◌+ℤ◌
increase_balance a b c n h = ground arith

-- A failure, a success and a readmission do not change the number of healthy nodes plus the count of
-- unhealthy nodes.
pub network_balance :
    (now n : ℕ) (s : Network)
    → (balance (network_increase_backoff now n s) ≡ balance s)
      × (balance (network_decrease_backoff n s) ≡ balance s)
      × (balance (readmit_nodes now s) ≡ balance s)
unfolding network_increase_backoff network_decrease_backoff readmit_nodes
network_balance now n s = (
  increase_balance (length (remove_healthy n s.healthy).0) (remove_healthy n s.healthy).1
      s.unhealthy_count (length s.healthy) (length-remove_healthy n s.healthy),
  refl,
  ground (
    arith,
    readmit_loop_balance s.store now s.nodes (record {
      next_time = max_safe_integer;
      search = true;
      count = s.unhealthy_count;
      healthy = s.healthy;
    }),
  ),
)

-- A readmission that is due sets the time of the next one to at most the maximal readmission period,
-- which is no time of the clock: at every later time that exceeds this period the next readmission is
-- due at once, whenever the nodes are to be readmitted.
pub readmit_nodes_due :
    (now later : ℕ) (s : Network)
    → s.earliest_readmit_time ≤ now
    → s.max_readmit_period ≤ later
    → (readmit_nodes now s).earliest_readmit_time ≤ later
unfolding readmit_nodes
readmit_nodes_due now later s due h = ground arith
