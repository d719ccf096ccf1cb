-- ===== src/Transfer/Merge.antt =====
-- The token transfers of the protobuf body: `_makeTransactionData` of
-- src/account/TransferTransaction.js. The entries are sorted and then collected into one list for each
-- token, with the fungible and the non-fungible transfers of the token.
pub mod Gain
pub mod Conserve
pub mod Pure
use u2u_sdk_js.Common.{ℕ, Bool, true, false, Option, none, some, List, [], ◌∷◌, ◌++◌, if◌then◌else◌}
use u2u_sdk_js.EntityId.Id.{
  EntityId, Comparison, less, same, greater, is_same, compare, compare_long,
}
use u2u_sdk_js.EntityId.Account.{compare_account}
use u2u_sdk_js.Transfer.Types.{TokenTransfer, U2uTransfer, NftTransfer, Transfers}

pub record Group : Type 0 where
  pub token : EntityId
  pub decimals : Option ℕ
  pub transfers : List TokenTransfer
  pub nft_transfers : List NftTransfer

-- The comparison functions of the three sorts.
unfoldable pub compare_token_transfer : TokenTransfer → TokenTransfer → Comparison
compare_token_transfer a b =
    if is_same (compare a.token_id b.token_id)
    then compare_account a.account_id b.account_id
    else compare a.token_id b.token_id

unfoldable pub compare_nft_transfer : NftTransfer → NftTransfer → Comparison
compare_nft_transfer a b =
    if is_same (compare_account a.sender b.sender)
    then if is_same (compare_account a.receiver b.receiver)
      then compare_long a.serial_number b.serial_number
      else compare_account a.receiver b.receiver
    else compare_account a.sender b.sender

unfoldable pub compare_u2u_transfer : U2uTransfer → U2uTransfer → Comparison
compare_u2u_transfer a b = compare_account a.u2u_account b.u2u_account

-- `Array.prototype.sort`, which is stable. Where the comparison is no order, as with account ids of
-- different kinds, the language leaves the result to the engine.
abbrev is_greater : Comparison → Bool
is_greater greater = true
is_greater _ = false

module _ {A : Type 0} (order : A → A → Comparison) where
  unfoldable pub insert : A → List A → List A
  insert x [] = x ∷ []
  insert x (y ∷ ys) = if is_greater (order x y) then y ∷ insert x ys else x ∷ y ∷ ys

  unfoldable pub sort : List A → List A
  sort [] = []
  sort (x ∷ xs) = insert x (sort xs)

-- What is pushed to a group, and the groups that are pushed.
abbrev pub with_transfer : TokenTransfer → Group → Group
with_transfer t g = record g { transfers = g.transfers ++ (t ∷ []) }

abbrev pub with_nft : NftTransfer → Group → Group
with_nft n g = record g { nft_transfers = g.nft_transfers ++ (n ∷ []) }

abbrev pub token_group : TokenTransfer → List NftTransfer → Group
token_group t ns = record {
  token = t.token_id;
  decimals = t.expected_decimals;
  transfers = t ∷ [];
  nft_transfers = ns;
}

abbrev pub nft_group : NftTransfer → Group
nft_group n = record {
  token = n.nft_token_id;
  decimals = none;
  transfers = [];
  nft_transfers = n ∷ [];
}

-- `last`, the last group, has the token.
unfoldable pub last_is : EntityId → List Group → Bool
last_is token [] = false
last_is token (g ∷ []) = is_same (compare g.token token)
last_is token (g ∷ h ∷ gs) = last_is token (h ∷ gs)

unfoldable pub update_last : (Group → Group) → List Group → List Group
update_last f [] = []
update_last f (g ∷ []) = f g ∷ []
update_last f (g ∷ h ∷ gs) = g ∷ update_last f (h ∷ gs)

-- The search of the last group of a token, where only one kind of transfers is left.
unfoldable pub any_is : EntityId → List Group → Bool
any_is token [] = false
any_is token (g ∷ gs) = if any_is token gs then true else is_same (compare g.token token)

unfoldable pub update_found : EntityId → (Group → Group) → List Group → List Group
update_found token f [] = []
update_found token f (g ∷ gs) =
    if any_is token gs
    then g ∷ update_found token f gs
    else if is_same (compare g.token token)
    then f g ∷ gs
    else g ∷ gs

-- The rounds of the loop when only token transfers, or only transfers of NFTs, are left.
unfoldable pub put_transfer : TokenTransfer → List Group → List Group
put_transfer t gs =
    if any_is t.token_id gs
    then update_found t.token_id (with_transfer t) gs
    else gs ++ (token_group t [] ∷ [])

unfoldable pub put_nft : NftTransfer → List Group → List Group
put_nft n gs =
    if any_is n.nft_token_id gs
    then update_found n.nft_token_id (with_nft n) gs
    else gs ++ (nft_group n ∷ [])

-- A round when both kinds are left: what is taken from the front of the lists, and the new groups.
pub data Took : Type 0 where
  took_transfer took_nft took_both : List Group → Took

unfoldable pub by_order : TokenTransfer → NftTransfer → List Group → Comparison → Took
by_order t n gs same = took_both (gs ++ (token_group t (n ∷ []) ∷ []))
by_order t n gs less = took_transfer (gs ++ (token_group t [] ∷ []))
by_order t n gs greater = took_nft (gs ++ (nft_group n ∷ []))

unfoldable pub take_round : TokenTransfer → NftTransfer → List Group → Took
take_round t n gs =
    if last_is t.token_id gs
    then took_transfer (update_last (with_transfer t) gs)
    else if last_is n.nft_token_id gs
    then took_nft (update_last (with_nft n) gs)
    else by_order t n gs (compare t.token_id n.nft_token_id)

-- The loop over the two lists from `i` and `j` on.
unfoldable pub merge : List TokenTransfer → List NftTransfer → List Group → List Group
merge [] [] gs = gs
merge [] (n ∷ ns) gs = merge [] ns (put_nft n gs)
merge (t ∷ ts) [] gs = merge ts [] (put_transfer t gs)
merge (t ∷ ts) (n ∷ ns) gs = elim (take_round t n gs) [
  | took_transfer hs ↦ merge ts (n ∷ ns) hs
  | took_nft hs ↦ merge (t ∷ ts) ns hs
  | took_both hs ↦ merge ts ns hs
]

-- The lists of the body, and the transaction with its entries sorted.
unfoldable pub make_token_transfer_lists : Transfers → List Group
make_token_transfer_lists s =
    merge (sort compare_token_transfer s.token_transfers)
      (sort compare_nft_transfer s.nft_transfers) []

unfoldable pub make_u2u_transfers : Transfers → List U2uTransfer
make_u2u_transfers s = sort compare_u2u_transfer s.u2u_transfers
