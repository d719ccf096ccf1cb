-- ===== src/Transfer/Merge/Pure.antt =====
-- Each list of the body holds transfers of its own token only.
use u2u_sdk_js.Common.{◌≡◌, refl, sym, true, List, [], ◌∷◌, ◌++◌, Bool-cases, inl, inr, arith}
use u2u_sdk_js.EntityId.Id.{EntityId, Comparison, less, same, greater, is_same, compare}
use u2u_sdk_js.EntityId.Id.Order.{compare_same}
use u2u_sdk_js.Transfer.Types.{TokenTransfer, NftTransfer, Transfers}
use u2u_sdk_js.Transfer.Merge.{
  Group, sort, with_transfer, with_nft, token_group, nft_group, last_is, update_last, any_is,
  update_found, put_transfer, put_nft, Took, took_transfer, took_nft, took_both, by_order,
  take_round, merge, make_token_transfer_lists, compare_token_transfer, compare_nft_transfer,
}

abbrev pub TransfersOf : EntityId → List TokenTransfer → Type 0
TransfersOf token [] = Unit
TransfersOf token (t ∷ ts) = (t.token_id ≡ token) × TransfersOf token ts

abbrev pub NftsOf : EntityId → List NftTransfer → Type 0
NftsOf token [] = Unit
NftsOf token (n ∷ ns) = (n.nft_token_id ≡ token) × NftsOf token ns

abbrev pub IsPure : List Group → Type 0
IsPure [] = Unit
IsPure (g ∷ gs) = TransfersOf g.token g.transfers × NftsOf g.token g.nft_transfers × IsPure gs

-- A change of a group of the token that keeps it pure.
abbrev KeepsPure : EntityId → (Group → Group) → Type 0
KeepsPure token f = (g : Group) → g.token ≡ token → IsPure (g ∷ []) → IsPure (f g ∷ [])

same_eq : (a b : EntityId) → is_same (compare a b) ≡ true → a ≡ b
same_eq a b h = (compare_same a b).0 (ground arith)

TransfersOf-snoc :
    (token : EntityId) (ts : List TokenTransfer) (t : TokenTransfer)
    → TransfersOf token ts
    → t.token_id ≡ token
    → TransfersOf token (ts ++ (t ∷ []))
TransfersOf-snoc token [] t h e = (e, tt)
TransfersOf-snoc token (u ∷ ts) t h e = (h.0, TransfersOf-snoc token ts t h.1 e)

NftsOf-snoc :
    (token : EntityId) (ns : List NftTransfer) (n : NftTransfer)
    → NftsOf token ns
    → n.nft_token_id ≡ token
    → NftsOf token (ns ++ (n ∷ []))
NftsOf-snoc token [] n h e = (e, tt)
NftsOf-snoc token (k ∷ ns) n h e = (h.0, NftsOf-snoc token ns n h.1 e)

with_transfer-KeepsPure : (t : TokenTransfer) → KeepsPure t.token_id (with_transfer t)
with_transfer-KeepsPure t g e p = (TransfersOf-snoc g.token g.transfers t p.0 (sym e), p.1, tt)

with_nft-KeepsPure : (n : NftTransfer) → KeepsPure n.nft_token_id (with_nft n)
with_nft-KeepsPure n g e p = (p.0, NftsOf-snoc g.token g.nft_transfers n p.1 (sym e), tt)

snoc-IsPure : (gs : List Group) (g : Group) → IsPure gs → IsPure (g ∷ []) → IsPure (gs ++ (g ∷ []))
snoc-IsPure [] g h p = p
snoc-IsPure (k ∷ gs) g h p = (h.0, h.1, snoc-IsPure gs g h.2 p)

update_last-IsPure :
    (token : EntityId) (f : Group → Group) (gs : List Group)
    → KeepsPure token f
    → last_is token gs ≡ true
    → IsPure gs
    → IsPure (update_last f gs)
unfolding last_is update_last
update_last-IsPure token f [] k h p = tt
update_last-IsPure token f (g ∷ []) k h p = k g (same_eq g.token token h) p
update_last-IsPure token f (g ∷ j ∷ gs) k h p =
    (p.0, p.1, update_last-IsPure token f (j ∷ gs) k h p.2)

update_found-IsPure :
    (token : EntityId) (f : Group → Group) (gs : List Group)
    → KeepsPure token f
    → any_is token gs ≡ true
    → IsPure gs
    → IsPure (update_found token f gs)
unfolding any_is update_found
update_found-IsPure token f [] k h p = tt
update_found-IsPure token f (g ∷ gs) k h p = elim (Bool-cases (any_is token gs)) [
  | inl a ↦ rw a (p.0, p.1, update_found-IsPure token f gs k a p.2)
  | inr a ↦
      let s : is_same (compare g.token token) ≡ true = rw a at h in
      let q = k g (same_eq g.token token s) (p.0, p.1, tt) in rw (a, s) (q.0, q.1, p.2)
]

put_transfer-IsPure : (t : TokenTransfer) (gs : List Group) → IsPure gs → IsPure (put_transfer t gs)
unfolding put_transfer
put_transfer-IsPure t gs p = elim (Bool-cases (any_is t.token_id gs)) [
  | inl e ↦
      rw e (update_found-IsPure t.token_id (with_transfer t) gs (with_transfer-KeepsPure t) e p)
  | inr e ↦ rw e (snoc-IsPure gs (token_group t []) p ((refl, tt), tt, tt))
]

put_nft-IsPure : (n : NftTransfer) (gs : List Group) → IsPure gs → IsPure (put_nft n gs)
unfolding put_nft
put_nft-IsPure n gs p = elim (Bool-cases (any_is n.nft_token_id gs)) [
  | inl e ↦ rw e (update_found-IsPure n.nft_token_id (with_nft n) gs (with_nft-KeepsPure n) e p)
  | inr e ↦ rw e (snoc-IsPure gs (nft_group n) p (tt, (refl, tt), tt))
]

abbrev groups_of : Took → List Group
groups_of (took_transfer hs) = hs
groups_of (took_nft hs) = hs
groups_of (took_both hs) = hs

by_order-IsPure :
    (t : TokenTransfer) (n : NftTransfer) (gs : List Group) (c : Comparison)
    → compare t.token_id n.nft_token_id ≡ c
    → IsPure gs
    → IsPure (groups_of (by_order t n gs c))
unfolding by_order
by_order-IsPure t n gs same e p =
    snoc-IsPure gs (token_group t (n ∷ [])) p
      ((refl, tt), (sym ((compare_same t.token_id n.nft_token_id).0 e), tt), tt)
by_order-IsPure t n gs less e p = snoc-IsPure gs (token_group t []) p ((refl, tt), tt, tt)
by_order-IsPure t n gs greater e p = snoc-IsPure gs (nft_group n) p (tt, (refl, tt), tt)

take_round-IsPure :
    (t : TokenTransfer) (n : NftTransfer) (gs : List Group)
    → IsPure gs
    → IsPure (groups_of (take_round t n gs))
unfolding take_round
take_round-IsPure t n gs p = elim (Bool-cases (last_is t.token_id gs)) [
  | inl e ↦
      rw e (update_last-IsPure t.token_id (with_transfer t) gs (with_transfer-KeepsPure t) e p)
  | inr e ↦ elim (Bool-cases (last_is n.nft_token_id gs)) [
    | inl k ↦
        rw (e, k) (update_last-IsPure n.nft_token_id (with_nft n) gs (with_nft-KeepsPure n) k p)
    | inr k ↦ rw (e, k) (by_order-IsPure t n gs (compare t.token_id n.nft_token_id) refl p)
  ]
]

after_round-IsPure :
    (t : TokenTransfer) (n : NftTransfer) (ts : List TokenTransfer) (ns : List NftTransfer)
    (o : Took)
    → IsPure (groups_of o)
    → ((hs : List Group) → IsPure hs → IsPure (merge ts (n ∷ ns) hs))
    → ((hs : List Group) → IsPure hs → IsPure (merge (t ∷ ts) ns hs))
    → ((hs : List Group) → IsPure hs → IsPure (merge ts ns hs))
    → IsPure (elim o [
      | took_transfer hs ↦ merge ts (n ∷ ns) hs
      | took_nft hs ↦ merge (t ∷ ts) ns hs
      | took_both hs ↦ merge ts ns hs
    ])
after_round-IsPure t n ts ns (took_transfer hs) p a b c = a hs p
after_round-IsPure t n ts ns (took_nft hs) p a b c = b hs p
after_round-IsPure t n ts ns (took_both hs) p a b c = c hs p

merge-IsPure :
    (ts : List TokenTransfer) (ns : List NftTransfer) (gs : List Group)
    → IsPure gs
    → IsPure (merge ts ns gs)
unfolding merge
merge-IsPure [] [] gs p = p
merge-IsPure [] (n ∷ ns) gs p = merge-IsPure [] ns (put_nft n gs) (put_nft-IsPure n gs p)
merge-IsPure (t ∷ ts) [] gs p = merge-IsPure ts [] (put_transfer t gs) (put_transfer-IsPure t gs p)
merge-IsPure (t ∷ ts) (n ∷ ns) gs p =
    after_round-IsPure t n ts ns (take_round t n gs) (take_round-IsPure t n gs p)
      (λ hs. merge-IsPure ts (n ∷ ns) hs) (λ hs. merge-IsPure (t ∷ ts) ns hs)
      (λ hs. merge-IsPure ts ns hs)

-- Every transfer of the body stands in a list of its own token.
pub make_lists-IsPure : (s : Transfers) → IsPure (make_token_transfer_lists s)
unfolding make_token_transfer_lists
make_lists-IsPure s =
    merge-IsPure (sort compare_token_transfer s.token_transfers)
      (sort compare_nft_transfer s.nft_transfers) [] tt
