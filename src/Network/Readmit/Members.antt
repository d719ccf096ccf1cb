-- ===== src/Network/Readmit/Members.antt =====
-- Which nodes are handed out: a failing node is out until its readmit time has come.
use u2u_sdk_js.Common.{
  ℕ, ◌+◌, ◌≡◌, refl, ap, Bool, true, false, List, [], ◌∷◌, ◌++◌, leb, ltb, ◌&&◌, ◌||◌, ◌==◌,
  if◌then◌else◌, arith,
}
use u2u_sdk_js.Network.Node.{Node, increase_backoff}
use u2u_sdk_js.Network.State.{Network, elem}
use Prim.Native.Nat.{min}
use u2u_sdk_js.Network.Readmit.{
  max_safe_integer, Search, scan_healthy, readmit_node, readmit_loop, readmit_nodes, remove_healthy,
  network_increase_backoff,
}

pub elem-append : (n : ℕ) (xs ys : List ℕ) → elem n (xs ++ ys) ≡ (elem n xs || elem n ys)
elem-append n [] ys = refl
elem-append n (x ∷ xs) ys = ground (arith, elem-append n xs ys)

module _ (store : ℕ → Node) (now : ℕ) where
  scan_healthy-elem :
      (n : ℕ) (search : Bool) (hs : List ℕ) (t : ℕ)
      → (scan_healthy store now n search hs t).1 ≡ elem n hs
  unfolding scan_healthy
  scan_healthy-elem n search [] t = refl
  scan_healthy-elem n search (h ∷ hs) t = ground (
    arith,
    scan_healthy-elem n search hs
        (if search && ltb now (store n).readmit_time then min (store n).readmit_time t else t),
  )

  -- Due back at `now`.
  abbrev due : ℕ → Bool
  due n = leb (store n).readmit_time now

  readmit_node-elem :
      (n k : ℕ) (v : Search)
      → elem k (readmit_node store now n v).healthy ≡ (elem k v.healthy || n == k && due k)
  unfolding readmit_node
  readmit_node-elem n k v = ground (
    arith,
    scan_healthy-elem n v.search v.healthy v.next_time,
    elem-append k v.healthy (n ∷ []),
    ap (λ j. due j) {x = n} {y = k},
  )

  readmit_loop-elem :
      (k : ℕ) (ns : List ℕ) (v : Search)
      → elem k (readmit_loop store now ns v).healthy ≡ (elem k v.healthy || elem k ns && due k)
  unfolding readmit_loop
  readmit_loop-elem k [] v = ground arith
  readmit_loop-elem k (n ∷ ns) v =
      ground (arith, readmit_loop-elem k ns (readmit_node store now n v), readmit_node-elem n k v)

-- Once a readmission is due, it makes a node healthy exactly if it was healthy, or is one of the nodes
-- and its readmit time has come; before that nothing changes.
pub readmit_nodes-elem :
    (now k : ℕ) (s : Network)
    → elem k (readmit_nodes now s).healthy ≡ (
        elem k s.healthy
        || leb s.earliest_readmit_time now && (elem k s.nodes && leb (s.store k).readmit_time now))
unfolding readmit_nodes
readmit_nodes-elem now k s = ground (
  arith,
  readmit_loop-elem s.store now k s.nodes (record {
    next_time = max_safe_integer;
    search = true;
    count = s.unhealthy_count;
    healthy = s.healthy;
  }),
)

-- A list without repetitions.
abbrev pub Distinct : List ℕ → Type 0
Distinct [] = Unit
Distinct (x ∷ xs) = (elem x xs ≡ false) × Distinct xs

remove_healthy-elem :
    (n k : ℕ) (hs : List ℕ)
    → Distinct hs
    → elem k (remove_healthy n hs).0 ≡ (elem k hs && (if k == n then false else true))
unfolding remove_healthy
remove_healthy-elem n k [] h = refl
remove_healthy-elem n k (x ∷ []) h = ground arith
remove_healthy-elem n k (x ∷ y ∷ hs) h =
    ground (arith, remove_healthy-elem n k hs h.1.1, remove_healthy-elem n k (y ∷ hs) h.1)

-- After a node fails at `now`, in a network whose healthy nodes are distinct, a readmission has it among
-- the healthy nodes exactly if a readmission is due, the node is one of the nodes, and the time is
-- not before `now` plus its new backoff.
pub failing_node_out :
    (now later n : ℕ) (s : Network)
    → Distinct s.healthy
    → elem n (readmit_nodes later (network_increase_backoff now n s)).healthy ≡ (
        leb s.earliest_readmit_time later
        && (elem n s.nodes && leb (now + (increase_backoff now (s.store n)).current_backoff) later))
unfolding network_increase_backoff increase_backoff
failing_node_out now later n s h =
    let t = network_increase_backoff now n s in
    ground (arith, readmit_nodes-elem later n t, remove_healthy-elem n n s.healthy h)
