-- ===== src/Network/Update/Replace.antt =====
-- What replacing the nodes does to the healthy nodes and the counts, and when closing a node fails.
use Prim.Native.String.{String}
use mathlib.Core.Path.{subst, ap₂}
use u2u_sdk_js.Common.{
  sym, ℕ, ◌≡◌, refl, ap, ◌∙◌, none, some, List, [], ◌∷◌, map, length, get_elem?, ◌&&◌, ◌||◌, ◌==◌,
  arith, Option-cases, inl, inr,
}
use u2u_sdk_js.Network.Node.{is_healthy, close}
use u2u_sdk_js.Network.State.{Network, elem, map_get, update}
use u2u_sdk_js.Network.Update.{
  remove_node_from_network, close_node, Entries, close_nodes, nodes_to_remove, add_node,
  list_if_healthy, add_nodes, list_healthy, set_network, install, shuffle,
}
use u2u_sdk_js.Network.Readmit.Members.{elem-append}

list_if_healthy-elem :
    (now k n : ℕ) (s : Network)
    → elem k (list_if_healthy now n s).healthy
      ≡ (elem k s.healthy || n == k && is_healthy now (s.store k))
unfolding list_if_healthy
list_if_healthy-elem now k n s =
    ground (
      arith,
      elem-append k s.healthy (n ∷ []),
      ap (λ j. is_healthy now (s.store j)) {x = n} {y = k},
    )

list_if_healthy_rest :
    (now n : ℕ) (s : Network)
    → ((list_if_healthy now n s).nodes ≡ s.nodes)
      × ((list_if_healthy now n s).store ≡ s.store)
      × ((list_if_healthy now n s).unhealthy_count ≡ s.unhealthy_count)
unfolding list_if_healthy
list_if_healthy_rest now n s = (ground arith, ground arith, ground arith)

list_healthy_rest :
    (now : ℕ) (ns : List ℕ) (s : Network)
    → ((list_healthy now ns s).nodes ≡ s.nodes)
      × ((list_healthy now ns s).store ≡ s.store)
      × ((list_healthy now ns s).unhealthy_count ≡ s.unhealthy_count)
unfolding list_healthy
list_healthy_rest now [] s = (refl, refl, refl)
list_healthy_rest now (n ∷ ns) s =
    let ih = list_healthy_rest now ns (list_if_healthy now n s) in
    let step = list_if_healthy_rest now n s in (ih.0 ∙ step.0, ih.1 ∙ step.1, ih.2 ∙ step.2)

list_healthy-elem :
    (now k : ℕ) (ns : List ℕ) (s : Network)
    → elem k (list_healthy now ns s).healthy
      ≡ (elem k s.healthy || elem k ns && is_healthy now (s.store k))
unfolding list_healthy
list_healthy-elem now k [] s = ground arith
list_healthy-elem now k (n ∷ ns) s = ground (
  arith,
  list_healthy-elem now k ns (list_if_healthy now n s),
  list_if_healthy-elem now k n s,
  ap (λ f. is_healthy now (f k)) (list_if_healthy_rest now n s).1,
)

add_node_count :
    (now : ℕ) (keys addresses : List String) (e : String × String) (s : Network)
    → (add_node now keys addresses e s).unhealthy_count ≡ s.unhealthy_count
unfolding add_node
add_node_count now keys addresses (a, k) s = ground arith

add_nodes_count :
    (now : ℕ) (keys addresses : List String) (es : Entries) (s : Network)
    → (add_nodes now keys addresses es s).unhealthy_count ≡ s.unhealthy_count
unfolding add_nodes
add_nodes_count now keys addresses [] s = refl
add_nodes_count now keys addresses (e ∷ es) s =
    add_nodes_count now keys addresses es (add_node now keys addresses e s)
    ∙ add_node_count now keys addresses e s

-- Where closing a node succeeds, it changes neither the list of healthy nodes, from which the node is
-- not taken, nor the count of unhealthy nodes.
pub close_node_count :
    (i : ℕ) (s t : Network)
    → close_node i s ≡ some t
    → (t.unhealthy_count ≡ s.unhealthy_count) × (t.healthy ≡ s.healthy)
unfolding close_node remove_node_from_network
close_node_count i s t h = ground arith

close_nodes_count :
    (is : List ℕ) (s t : Network)
    → close_nodes is s ≡ some t
    → t.unhealthy_count ≡ s.unhealthy_count
unfolding close_nodes
close_nodes_count [] s t h = ground arith
close_nodes_count (i ∷ is) s t h = elim (Option-cases (close_node i s)) [
  | inl e ↦ absurd (cc (rw (e, close_nodes) at h))
  | inr (u, e) ↦ close_nodes_count is u t (rw (e, close_nodes) at h) ∙ (close_node_count i s u e).0
]

install_healthy :
    (now k : ℕ) (random : ℕ → ℕ) (entries : Entries) (u : Network)
    → let t = install now random entries u in
      (elem k t.healthy ≡ (elem k t.nodes && is_healthy now (t.store k)))
      × (t.unhealthy_count ≡ u.unhealthy_count)
unfolding install
install_healthy now k random entries u = (
  list_healthy-elem now k order v
      ∙ sym (
          ap₂ (λ ns store. elem k ns && is_healthy now (store k)) (list_healthy_rest now order v).0
            (list_healthy_rest now order v).1),
  (list_healthy_rest now order v).2 ∙ add_nodes_count now keys addresses entries u,
)
  where
    keys : List String
    keys = map (λ n. (u.store n).key) u.nodes

    addresses : List String
    addresses = map (λ n. (u.store n).address) u.nodes

    added : Network
    added = add_nodes now keys addresses entries u

    order : List ℕ
    order = shuffle random added.nodes

    v : Network
    v = record added { nodes = order; healthy = []; network = []; ledger_id = none }

-- After the nodes are replaced, the healthy nodes are exactly those nodes whose readmit time has come,
-- and the count of unhealthy nodes is the one from before.
pub set_network_healthy :
    (now k : ℕ) (random : ℕ → ℕ) (entries : Entries) (s t : Network)
    → set_network now random entries s ≡ some t
    → (elem k t.healthy ≡ (elem k t.nodes && is_healthy now (t.store k)))
      × (t.unhealthy_count ≡ s.unhealthy_count)
unfolding set_network
set_network_healthy now k random entries s t h = elim (Option-cases (close_nodes gone s)) [
  | inl e ↦ absurd (cc (rw (e, set_network) at h))
  | inr (u, e) ↦
      let same : some (install now random entries u) ≡ some t = rw (e, set_network) at h in
      let done : install now random entries u ≡ t = cc in
      subst
        (λ v.
          (elem k v.healthy ≡ (elem k v.nodes && is_healthy now (v.store k)))
          × (v.unhealthy_count ≡ s.unhealthy_count))
        done
        (
          (install_healthy now k random entries u).0,
          (install_healthy now k random entries u).1 ∙ close_nodes_count gone s u e,
        )
]
  where
    gone : List ℕ
    gone = nodes_to_remove entries (length s.nodes) s

-- A node whose key the map does not hold cannot be closed: closing it is a TypeError.
pub close_node_unlisted :
    (i n : ℕ) (s : Network)
    → get_elem? s.nodes i ≡ some n
    → map_get (s.store n).key s.network ≡ none
    → close_node i s ≡ none
unfolding close_node remove_node_from_network close
close_node_unlisted i n s e h =
    let key : (update s.store n close n).key ≡ (s.store n).key = ground arith in
    rw (e, close_node, key, h)
