-- ===== src/Transfer/Merge/Gain.antt =====
-- What the rounds of the loop of `_makeTransactionData` add to the groups.
use u2u_sdk_js.Common.{refl, ◌≡◌, sym, true, List, [], ◌∷◌, ◌++◌, Bool-cases, inl, inr}
use mathlib.Core.Path.{subst}
use mathlib.Core.List.{append-nil, Perm, append_assoc, perm_append_comm}
use mathlib.Core.List.Perm
use u2u_sdk_js.EntityId.Id.{EntityId, Comparison, less, same, greater, is_same, compare}
use u2u_sdk_js.Transfer.Types.{TokenTransfer, NftTransfer}
use u2u_sdk_js.Transfer.Merge.{
  Group, insert, sort, with_transfer, with_nft, token_group, nft_group, last_is, update_last,
  any_is, update_found, put_transfer, put_nft, Took, took_transfer, took_nft, took_both, by_order,
  take_round, is_greater,
}

module _ {A : Type 0} (order : A → A → Comparison) where
  insert-perm : (x : A) (ys : List A) → Perm (insert order x ys) (x ∷ ys)
  unfolding insert
  insert-perm x [] = Perm.refl (x ∷ [])
  insert-perm x (y ∷ ys) = elim (Bool-cases (is_greater (order x y))) [
    | inl e ↦ rw e (Perm.trans (Perm.cons y (insert-perm x ys)) (Perm.swap x y ys))
    | inr e ↦ rw e (Perm.refl (x ∷ y ∷ ys))
  ]

  pub sort-perm : (xs : List A) → Perm (sort order xs) xs
  unfolding sort
  sort-perm [] = Perm.refl []
  sort-perm (x ∷ xs) = Perm.trans (insert-perm x (sort order xs)) (Perm.cons x (sort-perm xs))

module _ {X : Type 0} (field : Group → List X) where
  -- What the groups hold of one kind.
  abbrev pub collect : List Group → List X
  collect [] = []
  collect (g ∷ gs) = field g ++ collect gs

  -- The new groups hold some elements more.
  abbrev pub Adds : List X → List Group → List Group → Type 0
  Adds extra gs hs = Perm (collect hs) (extra ++ collect gs)

  -- What two runs of rounds add, one after the other.
  pub Adds-trans :
      (xs ys : List X) (gs hs ks : List Group)
      → Adds xs gs hs
      → Adds ys hs ks
      → Adds (xs ++ ys) gs ks
  Adds-trans xs ys gs hs ks p q =
      subst (λ zs. Perm (collect ks) zs) (sym (append_assoc xs ys (collect gs)))
        (Perm.trans (Perm.trans q (Perm.append_left ys p)) (
          subst (λ zs. Perm zs (xs ++ (ys ++ collect gs))) (append_assoc ys xs (collect gs))
            (subst (λ zs. Perm ((ys ++ xs) ++ collect gs) zs) (append_assoc xs ys (collect gs))
              (Perm.append_right (collect gs) (perm_append_comm ys xs)))))

  -- The change of one group adds the elements to it.
  abbrev Extends : List X → (Group → Group) → Type 0
  Extends extra f = (g : Group) → field (f g) ≡ field g ++ extra

  extend_first :
      (extra : List X) (f : Group → Group) (g : Group) (gs : List Group)
      → Extends extra f
      → Adds extra (g ∷ gs) (f g ∷ gs)
  extend_first extra f g gs e =
      subst (λ xs. Perm (xs ++ collect gs) (extra ++ (field g ++ collect gs))) (sym (e g))
        (subst (λ xs. Perm ((field g ++ extra) ++ collect gs) xs)
          (append_assoc extra (field g) (collect gs))
          (Perm.append_right (collect gs) (perm_append_comm (field g) extra)))

  skip_first :
      (extra : List X) (g : Group) (gs hs : List Group)
      → Adds extra gs hs
      → Adds extra (g ∷ gs) (g ∷ hs)
  skip_first extra g gs hs p = Perm.trans (Perm.append_left (field g) p) (
      subst (λ xs. Perm xs (extra ++ (field g ++ collect gs)))
        (append_assoc (field g) extra (collect gs))
        (subst (λ xs. Perm ((field g ++ extra) ++ collect gs) xs)
          (append_assoc extra (field g) (collect gs))
          (Perm.append_right (collect gs) (perm_append_comm (field g) extra))))

  snoc-Adds : (g : Group) (gs : List Group) → Adds (field g) gs (gs ++ (g ∷ []))
  snoc-Adds g [] = Perm.refl (field g ++ [])
  snoc-Adds g (h ∷ gs) = skip_first (field g) h gs (gs ++ (g ∷ [])) (snoc-Adds g gs)

  update_last-Adds :
      (extra : List X) (f : Group → Group) (token : EntityId) (gs : List Group)
      → Extends extra f
      → last_is token gs ≡ true
      → Adds extra gs (update_last f gs)
  unfolding last_is update_last
  update_last-Adds extra f token [] e h = absurd (cc)
  update_last-Adds extra f token (g ∷ []) e h = extend_first extra f g [] e
  update_last-Adds extra f token (g ∷ k ∷ gs) e h =
      skip_first extra g (k ∷ gs) (update_last f (k ∷ gs))
        (update_last-Adds extra f token (k ∷ gs) e h)

  update_found-Adds :
      (extra : List X) (f : Group → Group) (token : EntityId) (gs : List Group)
      → Extends extra f
      → any_is token gs ≡ true
      → Adds extra gs (update_found token f gs)
  unfolding any_is update_found
  update_found-Adds extra f token [] e h = absurd (cc)
  update_found-Adds extra f token (g ∷ gs) e h = elim (Bool-cases (any_is token gs)) [
    | inl a ↦
        rw a
          (skip_first extra g gs (update_found token f gs) (update_found-Adds extra f token gs e a))
    | inr a ↦
        let s : is_same (compare g.token token) ≡ true = rw a at h in
        rw (a, s) (extend_first extra f g gs e)
  ]

abbrev pub all_transfers : List Group → List TokenTransfer
all_transfers = collect (λ g. g.transfers)

abbrev pub all_nfts : List Group → List NftTransfer
all_nfts = collect (λ g. g.nft_transfers)

-- The groups after some rounds hold the transfers of the groups before and those that were taken.
abbrev pub TookIn : List TokenTransfer → List NftTransfer → List Group → List Group → Type 0
TookIn ts ns gs hs = Adds (λ g. g.transfers) ts gs hs × Adds (λ g. g.nft_transfers) ns gs hs

with_transfer-Took :
    (t : TokenTransfer) (gs hs : List Group)
    → ((extra : List TokenTransfer)
        → Extends (λ g. g.transfers) extra (with_transfer t)
        → Adds (λ g. g.transfers) extra gs hs)
    → ((extra : List NftTransfer)
        → Extends (λ g. g.nft_transfers) extra (with_transfer t)
        → Adds (λ g. g.nft_transfers) extra gs hs)
    → TookIn (t ∷ []) [] gs hs
with_transfer-Took t gs hs a b =
    (a (t ∷ []) (λ g. refl), b [] (λ g. sym (append-nil g.nft_transfers)))

with_nft-Took :
    (n : NftTransfer) (gs hs : List Group)
    → ((extra : List TokenTransfer)
        → Extends (λ g. g.transfers) extra (with_nft n)
        → Adds (λ g. g.transfers) extra gs hs)
    → ((extra : List NftTransfer)
        → Extends (λ g. g.nft_transfers) extra (with_nft n)
        → Adds (λ g. g.nft_transfers) extra gs hs)
    → TookIn [] (n ∷ []) gs hs
with_nft-Took n gs hs a b = (a [] (λ g. sym (append-nil g.transfers)), b (n ∷ []) (λ g. refl))

pub put_transfer-Took :
    (t : TokenTransfer) (gs : List Group) → TookIn (t ∷ []) [] gs (put_transfer t gs)
unfolding put_transfer
put_transfer-Took t gs = elim (Bool-cases (any_is t.token_id gs)) [
  | inl e ↦ rw e (
      with_transfer-Took t gs (update_found t.token_id (with_transfer t) gs)
        (λ extra x. update_found-Adds (λ g. g.transfers) extra (with_transfer t) t.token_id gs x e)
        (λ extra x.
          update_found-Adds (λ g. g.nft_transfers) extra (with_transfer t) t.token_id gs x e))
  | inr e ↦ rw e (
    snoc-Adds (λ g. g.transfers) (token_group t []) gs,
    snoc-Adds (λ g. g.nft_transfers) (token_group t []) gs,
  )
]

pub put_nft-Took : (n : NftTransfer) (gs : List Group) → TookIn [] (n ∷ []) gs (put_nft n gs)
unfolding put_nft
put_nft-Took n gs = elim (Bool-cases (any_is n.nft_token_id gs)) [
  | inl e ↦ rw e (
      with_nft-Took n gs (update_found n.nft_token_id (with_nft n) gs)
        (λ extra x. update_found-Adds (λ g. g.transfers) extra (with_nft n) n.nft_token_id gs x e)
        (λ extra x.
          update_found-Adds (λ g. g.nft_transfers) extra (with_nft n) n.nft_token_id gs x e))
  | inr e ↦ rw e (
    snoc-Adds (λ g. g.transfers) (nft_group n) gs,
    snoc-Adds (λ g. g.nft_transfers) (nft_group n) gs,
  )
]

-- What a round takes is what its groups gain.
abbrev pub Gains : TokenTransfer → NftTransfer → List Group → Took → Type 0
Gains t n gs (took_transfer hs) = TookIn (t ∷ []) [] gs hs
Gains t n gs (took_nft hs) = TookIn [] (n ∷ []) gs hs
Gains t n gs (took_both hs) = TookIn (t ∷ []) (n ∷ []) gs hs

by_order-Gains :
    (t : TokenTransfer) (n : NftTransfer) (gs : List Group) (c : Comparison)
    → Gains t n gs (by_order t n gs c)
unfolding by_order
by_order-Gains t n gs same = (
  snoc-Adds (λ g. g.transfers) (token_group t (n ∷ [])) gs,
  snoc-Adds (λ g. g.nft_transfers) (token_group t (n ∷ [])) gs,
)
by_order-Gains t n gs less = (
  snoc-Adds (λ g. g.transfers) (token_group t []) gs,
  snoc-Adds (λ g. g.nft_transfers) (token_group t []) gs,
)
by_order-Gains t n gs greater = (
  snoc-Adds (λ g. g.transfers) (nft_group n) gs,
  snoc-Adds (λ g. g.nft_transfers) (nft_group n) gs,
)

pub take_round-Gains :
    (t : TokenTransfer) (n : NftTransfer) (gs : List Group) → Gains t n gs (take_round t n gs)
unfolding take_round
take_round-Gains t n gs = elim (Bool-cases (last_is t.token_id gs)) [
  | inl e ↦ rw e (
      with_transfer-Took t gs (update_last (with_transfer t) gs)
        (λ extra x. update_last-Adds (λ g. g.transfers) extra (with_transfer t) t.token_id gs x e)
        (λ extra x.
          update_last-Adds (λ g. g.nft_transfers) extra (with_transfer t) t.token_id gs x e))
  | inr e ↦ elim (Bool-cases (last_is n.nft_token_id gs)) [
    | inl k ↦
        rw (e, k)
          (with_nft-Took n gs (update_last (with_nft n) gs)
            (λ extra x.
              update_last-Adds (λ g. g.transfers) extra (with_nft n) n.nft_token_id gs x k)
            (λ extra x.
              update_last-Adds (λ g. g.nft_transfers) extra (with_nft n) n.nft_token_id gs x k))
    | inr k ↦ rw (e, k) (by_order-Gains t n gs (compare t.token_id n.nft_token_id))
  ]
]
