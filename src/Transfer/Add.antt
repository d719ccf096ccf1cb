-- ===== src/Transfer/Add.antt =====
-- Adding transfers: `_addTokenTransfer`, `addTokenTransferWithDecimals`, `_addU2UTransfer`,
-- `_addNftTransfer` and the setters of approvals of src/account/TransferTransaction.js. Arguments are
-- taken after they have been parsed; `none` is the error of a frozen transaction.
pub mod Total
pub mod Decimals
use u2u_sdk_js.Common.{
  ℕ, Bool, true, false, Option, none, some, List, [], ◌∷◌, ◌++◌, map, ◌&&◌, ◌||◌, ◌==◌,
  if◌then◌else◌,
}
use u2u_sdk_js.Common.Int.{ℤ}
use u2u_sdk_js.EntityId.Id.{EntityId, is_same, compare, compare_long}
use u2u_sdk_js.EntityId.Account.{Account, compare_account}
use u2u_sdk_js.Transfer.Types.{TokenTransfer, U2uTransfer, NftTransfer, Transfers}
use u2u_sdk_js.Transfer.Long.{add_long}

unfoldable pub same_token : EntityId → TokenTransfer → Bool
same_token token t = is_same (compare t.token_id token)

unfoldable pub same_account : Account → TokenTransfer → Bool
same_account account t = is_same (compare_account t.account_id account)

-- The loop and the push of `_addTokenTransfer`: the first entry of the token and the account takes
-- the amount and forgets the expected decimals; if there is none, an entry is pushed.
unfoldable pub put_token : TokenTransfer → List TokenTransfer → List TokenTransfer
put_token new [] = new ∷ []
put_token new (t ∷ ts) =
    if same_token new.token_id t && same_account new.account_id t
    then record t { amount = add_long t.amount new.amount; expected_decimals = none } ∷ ts
    else t ∷ put_token new ts

abbrev pub require_not_frozen : Transfers → Transfers → Option Transfers
require_not_frozen s t = if s.is_frozen then none else some t

unfoldable pub add_token_transfer : EntityId → Account → ℤ → Bool → Transfers → Option Transfers
add_token_transfer token account amount approved s = require_not_frozen s (record s {
  token_transfers =
      put_token
        (record {
          token_id = token;
          account_id = account;
          expected_decimals = none;
          amount = amount;
          is_approved = approved;
        })
        s.token_transfers;
})

-- `expectedDecimals != null && expectedDecimals !== decimals`.
abbrev pub mismatch : Option ℕ → ℕ → Bool
mismatch none d = false
mismatch (some e) d = if e == d then false else true

-- One entry of the token in the loop of `addTokenTransferWithDecimals`.
unfoldable pub set_decimals : Account → ℤ → ℕ → TokenTransfer → TokenTransfer
set_decimals account amount d t =
    if same_account account t
    then record t { expected_decimals = some d; amount = add_long t.amount amount }
    else record t { expected_decimals = some d }

-- The result of the loop: the entries, and whether an entry was found or the error was thrown. The
-- entries before the one that throws have been changed.
pub data Found : Type 0 where
  found absent decimals_mismatch : Found

abbrev pub was_found : Bool → Found → Found
was_found true absent = found
was_found _ f = f

unfoldable pub decimals_loop :
    EntityId → Account → ℤ → ℕ → List TokenTransfer → List TokenTransfer × Found
decimals_loop token account amount d [] = ([], absent)
decimals_loop token account amount d (t ∷ ts) =
    let rest = decimals_loop token account amount d ts in
    if same_token token t
    then if mismatch t.expected_decimals d
      then (t ∷ ts, decimals_mismatch)
      else (set_decimals account amount d t ∷ rest.0, was_found (same_account account t) rest.1)
    else (t ∷ rest.0, rest.1)

-- The results of the method: the new state, or an error with the state it leaves.
pub data WithDecimals : Type 0 where
  added : Transfers → WithDecimals
  frozen_error : WithDecimals
  mismatch_error : Transfers → WithDecimals

unfoldable pub finish_decimals :
    EntityId → Account → ℤ → ℕ → Transfers → List TokenTransfer → Found → WithDecimals
finish_decimals token account amount d s ts found = added (record s { token_transfers = ts })
finish_decimals token account amount d s ts decimals_mismatch =
    mismatch_error (record s { token_transfers = ts })
finish_decimals token account amount d s ts absent = added (record s {
  token_transfers =
      ts
      ++ (record {
        token_id = token;
        account_id = account;
        expected_decimals = some d;
        amount = amount;
        is_approved = false;
      }
          ∷ []);
})

unfoldable pub add_token_transfer_with_decimals :
    EntityId → Account → ℤ → ℕ → Transfers → WithDecimals
add_token_transfer_with_decimals token account amount d s =
    let looped = decimals_loop token account amount d s.token_transfers in
    if s.is_frozen then frozen_error else finish_decimals token account amount d s looped.0 looped.1

unfoldable pub put_u2u : U2uTransfer → List U2uTransfer → List U2uTransfer
put_u2u new [] = new ∷ []
put_u2u new (t ∷ ts) =
    if is_same (compare_account t.u2u_account new.u2u_account)
    then record t { u2u_amount = add_long t.u2u_amount new.u2u_amount } ∷ ts
    else t ∷ put_u2u new ts

unfoldable pub add_u2u_transfer : Account → ℤ → Bool → Transfers → Option Transfers
add_u2u_transfer account amount approved s = require_not_frozen s (record s {
  u2u_transfers =
      put_u2u (record { u2u_account = account; u2u_amount = amount; u2u_approved = approved })
        s.u2u_transfers;
})

unfoldable pub same_nft : EntityId → ℤ → NftTransfer → Bool
same_nft token serial t =
    is_same (compare t.nft_token_id token) && is_same (compare_long t.serial_number serial)

-- An entry of the same token and serial number gets the new sender and receiver.
unfoldable pub put_nft : NftTransfer → List NftTransfer → List NftTransfer
put_nft new [] = new ∷ []
put_nft new (t ∷ ts) =
    if same_nft new.nft_token_id new.serial_number t
    then record t { sender = new.sender; receiver = new.receiver } ∷ ts
    else t ∷ put_nft new ts

unfoldable pub add_nft_transfer : NftTransfer → Transfers → Option Transfers
add_nft_transfer new s =
    require_not_frozen s (record s { nft_transfers = put_nft new s.nft_transfers })

unfoldable pub set_u2u_transfer_approval : Account → Bool → Transfers → Transfers
set_u2u_transfer_approval account approved s = record s {
  u2u_transfers =
      map
        (λ t.
          if is_same (compare_account t.u2u_account account)
          then record t { u2u_approved = approved }
          else t)
        s.u2u_transfers;
}

unfoldable pub set_token_transfer_approval : EntityId → Account → Bool → Transfers → Transfers
set_token_transfer_approval token account approved s = record s {
  token_transfers =
      map
        (λ t.
          if same_token token t && same_account account t
          then record t { is_approved = approved }
          else t)
        s.token_transfers;
}

unfoldable pub set_nft_transfer_approval : EntityId → ℤ → Bool → Transfers → Transfers
set_nft_transfer_approval token serial approved s = record s {
  nft_transfers =
      map (λ t. if same_nft token serial t then record t { nft_approved = approved } else t)
        s.nft_transfers;
}
