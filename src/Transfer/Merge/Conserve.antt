-- ===== src/Transfer/Merge/Conserve.antt =====
-- The lists of the body hold every transfer exactly once.
use u2u_sdk_js.Common.{List, [], ◌∷◌, ◌++◌}
use mathlib.Core.Path.{subst}
use mathlib.Core.List.{Perm, append-nil}
use mathlib.Core.List.Perm
use u2u_sdk_js.Transfer.Types.{TokenTransfer, NftTransfer, Transfers}
use u2u_sdk_js.Transfer.Merge.{
  Group, sort, put_transfer, put_nft, Took, took_transfer, took_nft, took_both, take_round, merge,
  make_token_transfer_lists, compare_token_transfer, compare_nft_transfer,
}
use u2u_sdk_js.Transfer.Merge.Gain.{
  Adds-trans, all_transfers, all_nfts, TookIn, put_transfer-Took, put_nft-Took, Gains,
  take_round-Gains, sort-perm,
}

Took_trans :
    (ts us : List TokenTransfer) (ns ms : List NftTransfer) (gs hs ks : List Group)
    → TookIn ts ns gs hs
    → TookIn us ms hs ks
    → TookIn (ts ++ us) (ns ++ ms) gs ks
Took_trans ts us ns ms gs hs ks p q = (
  Adds-trans (λ g. g.transfers) ts us gs hs ks p.0 q.0,
  Adds-trans (λ g. g.nft_transfers) ns ms gs hs ks p.1 q.1,
)

-- The rounds after one that has taken from the fronts of both lists.
after_round :
    (t : TokenTransfer) (n : NftTransfer) (ts : List TokenTransfer) (ns : List NftTransfer)
    (gs : List Group) (o : Took)
    → Gains t n gs o
    → ((hs : List Group) → TookIn ts (n ∷ ns) hs (merge ts (n ∷ ns) hs))
    → ((hs : List Group) → TookIn (t ∷ ts) ns hs (merge (t ∷ ts) ns hs))
    → ((hs : List Group) → TookIn ts ns hs (merge ts ns hs))
    → TookIn (t ∷ ts) (n ∷ ns) gs (elim o [
      | took_transfer hs ↦ merge ts (n ∷ ns) hs
      | took_nft hs ↦ merge (t ∷ ts) ns hs
      | took_both hs ↦ merge ts ns hs
    ])
after_round t n ts ns gs (took_transfer hs) g a b c =
    Took_trans (t ∷ []) ts [] (n ∷ ns) gs hs (merge ts (n ∷ ns) hs) g (a hs)
after_round t n ts ns gs (took_nft hs) g a b c =
    Took_trans [] (t ∷ ts) (n ∷ []) ns gs hs (merge (t ∷ ts) ns hs) g (b hs)
after_round t n ts ns gs (took_both hs) g a b c =
    Took_trans (t ∷ []) ts (n ∷ []) ns gs hs (merge ts ns hs) g (c hs)

merge-Took :
    (ts : List TokenTransfer) (ns : List NftTransfer) (gs : List Group)
    → TookIn ts ns gs (merge ts ns gs)
unfolding merge
merge-Took [] [] gs = (Perm.refl _, Perm.refl _)
merge-Took [] (n ∷ ns) gs =
    Took_trans [] [] (n ∷ []) ns gs (put_nft n gs) (merge [] ns (put_nft n gs)) (put_nft-Took n gs)
      (merge-Took [] ns (put_nft n gs))
merge-Took (t ∷ ts) [] gs =
    Took_trans (t ∷ []) ts [] [] gs (put_transfer t gs) (merge ts [] (put_transfer t gs))
      (put_transfer-Took t gs) (merge-Took ts [] (put_transfer t gs))
merge-Took (t ∷ ts) (n ∷ ns) gs =
    after_round t n ts ns gs (take_round t n gs) (take_round-Gains t n gs)
      (λ hs. merge-Took ts (n ∷ ns) hs) (λ hs. merge-Took (t ∷ ts) ns hs)
      (λ hs. merge-Took ts ns hs)

-- The lists of the body together hold the token transfers and the transfers of NFTs of the
-- transaction, each as often as the transaction holds it, in some order.
pub make_lists-perm :
    (s : Transfers)
    → Perm (all_transfers (make_token_transfer_lists s)) s.token_transfers
      × Perm (all_nfts (make_token_transfer_lists s)) s.nft_transfers
unfolding make_token_transfer_lists
make_lists-perm s =
    let ts = sort compare_token_transfer s.token_transfers in
    let ns = sort compare_nft_transfer s.nft_transfers in
    let (a, b) = merge-Took ts ns [] in
    (
      Perm.trans (subst (λ xs. Perm (all_transfers (merge ts ns [])) xs) (append-nil ts) a)
          (sort-perm compare_token_transfer s.token_transfers),
      Perm.trans (subst (λ xs. Perm (all_nfts (merge ts ns [])) xs) (append-nil ns) b)
          (sort-perm compare_nft_transfer s.nft_transfers),
    )
