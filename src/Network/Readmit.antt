-- ===== src/Network/Readmit.antt =====
-- Taking a failing node out and putting it back: `increaseBackoff`, `decreaseBackoff` and
-- `_readmitNodes` of src/client/ManagedNetwork.js.
pub mod Members
pub mod Balance
use Prim.Native.Nat.{min, max}
use u2u_sdk_js.Common.{
  ℕ, suc, ◌+◌, ◌-◌, ◌*◌, ◌^◌, Bool, true, false, List, [], ◌∷◌, ◌++◌, leb, ltb, ◌&&◌, ◌==◌,
  if◌then◌else◌,
}
use u2u_sdk_js.Common.Int.{ℤ, pos, negsuc, ◌+ℤ◌}
use u2u_sdk_js.Network.Node.{Node, ms, increase_backoff, decrease_backoff}
use u2u_sdk_js.Network.State.{Network, elem, update}

-- The loop of `increaseBackoff` over the healthy nodes. After a removal the index moves on all the
-- same, so the element that has moved into the place is not looked at. The number counts the removals.
unfoldable pub remove_healthy : ℕ → List ℕ → List ℕ × ℕ
remove_healthy n [] = ([], 0)
remove_healthy n (x ∷ []) = if x == n then ([], 1) else (x ∷ [], 0)
remove_healthy n (x ∷ y ∷ xs) =
    let skip = remove_healthy n xs in
    let rest = remove_healthy n (y ∷ xs) in
    if x == n then (y ∷ skip.0, suc skip.1) else (x ∷ rest.0, rest.1)

unfoldable pub network_increase_backoff : ℕ → ℕ → Network → Network
network_increase_backoff now n s =
    let left = remove_healthy n s.healthy in
    record s {
      store = update s.store n (increase_backoff now);
      healthy = left.0;
      unhealthy_count = s.unhealthy_count +ℤ pos left.1;
    }

unfoldable pub network_decrease_backoff : ℕ → Network → Network
network_decrease_backoff n s = record s { store = update s.store n decrease_backoff }

-- The variables of `_readmitNodes`; `search` is `searchForNextEarliestReadmitTime`.
pub record Search : Type 0 where
  pub next_time : ℕ
  pub search : Bool
  pub count : ℤ
  pub healthy : List ℕ

module _ (store : ℕ → Node) (now : ℕ) where
  -- The inner loop, over the healthy nodes `hs`: the new `nextEarliestReadmitTime`, and whether
  -- `continue outer` is reached.
  unfoldable pub scan_healthy : ℕ → Bool → List ℕ → ℕ → ℕ × Bool
  scan_healthy n search [] next_time = (next_time, false)
  scan_healthy n search (h ∷ hs) next_time =
      let t =
        if search && ltb now (store n).readmit_time
        then min (store n).readmit_time next_time
        else next_time in
      let rest = scan_healthy n search hs t in if n == h then (t, true) else rest

  -- One round of the outer loop, for the node `n`.
  unfoldable pub readmit_node : ℕ → Search → Search
  readmit_node n v =
      let found = scan_healthy n v.search v.healthy v.next_time in
      if found.1
      then record v { next_time = found.0 }
      else if leb (store n).readmit_time now
      then record {
        next_time = found.0;
        search = false;
        count = v.count +ℤ negsuc 0;
        healthy = v.healthy ++ (n ∷ []);
      }
      else record v { next_time = found.0; search = false }

  unfoldable pub readmit_loop : List ℕ → Search → Search
  readmit_loop [] v = v
  readmit_loop (n ∷ ns) v = readmit_loop ns (readmit_node n v)

-- `Number.MAX_SAFE_INTEGER` milliseconds.
abbrev pub max_safe_integer : ℕ
max_safe_integer = (2 ^ 53 - 1) * ms

unfoldable pub readmit_nodes : ℕ → Network → Network
readmit_nodes now s =
    let v = readmit_loop s.store now s.nodes (record {
      next_time = max_safe_integer;
      search = true;
      count = s.unhealthy_count;
      healthy = s.healthy;
    }) in
    if leb s.earliest_readmit_time now
    then record s {
      unhealthy_count = v.count;
      healthy = v.healthy;
      earliest_readmit_time = min (max v.next_time s.min_readmit_period) s.max_readmit_period;
    }
    else s
