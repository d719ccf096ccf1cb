-- ===== src/Transfer/Types.antt =====
-- The entries of the three lists: src/token/TokenTransfer.js, src/Transfer.js and
-- src/token/TokenNftTransfer.js.
use u2u_sdk_js.Common.{ℕ, Bool, Option, List}
use u2u_sdk_js.Common.Int.{ℤ}
use u2u_sdk_js.EntityId.Id.{EntityId}
use u2u_sdk_js.EntityId.Account.{Account}

pub record TokenTransfer : Type 0 where
  pub token_id : EntityId
  pub account_id : Account
  pub expected_decimals : Option ℕ
  pub amount : ℤ
  pub is_approved : Bool

pub record U2uTransfer : Type 0 where
  pub u2u_account : Account
  pub u2u_amount : ℤ
  pub u2u_approved : Bool

pub record NftTransfer : Type 0 where
  pub nft_token_id : EntityId
  pub serial_number : ℤ
  pub sender : Account
  pub receiver : Account
  pub nft_approved : Bool

pub record Transfers : Type 0 where
  pub is_frozen : Bool
  pub token_transfers : List TokenTransfer
  pub u2u_transfers : List U2uTransfer
  pub nft_transfers : List NftTransfer
