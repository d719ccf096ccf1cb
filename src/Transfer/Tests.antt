-- ===== src/Transfer/Tests.antt =====
-- The theorems on transfers at a transaction with two token transfers and a transfer of an NFT.
use u2u_sdk_js.Common.{true, ℕ, ◌≡◌, refl, false, none, [], ◌∷◌, map, Bool}
use u2u_sdk_js.Common.Int.{ℤ, pos, negsuc}
use mathlib.Core.List.{Perm}
use u2u_sdk_js.EntityId.Id.{EntityId, compare, compare_long}
use u2u_sdk_js.EntityId.Account.{Account, compare_account, compare_alias, compare_evm}
use u2u_sdk_js.Transfer.Types.{TokenTransfer, U2uTransfer, NftTransfer, Transfers}
use u2u_sdk_js.Transfer.Long.{add_long, signed}
use u2u_sdk_js.Transfer.Add.{
  decimals_loop, finish_decimals, set_decimals, same_account, same_token, put_u2u, WithDecimals,
  added, add_token_transfer_with_decimals,
}
use u2u_sdk_js.Transfer.Merge.{
  make_token_transfer_lists, merge, sort, insert, compare_nft_transfer, take_round, last_is,
  by_order, put_transfer, any_is,
}
use u2u_sdk_js.Transfer.Merge.Gain.{all_transfers, all_nfts}
use u2u_sdk_js.Transfer.Merge.Conserve.{make_lists-perm}
use u2u_sdk_js.Transfer.Merge.Pure.{IsPure, make_lists-IsPure}

abbrev token : ℕ → EntityId
token n = record { shard = pos 0; realm = pos 0; num = pos n }

abbrev account : ℕ → Account
account n = record {
  shard = pos 0;
  realm = pos 0;
  num = pos n;
  alias_key = none;
  evm_address = none;
}

abbrev transfer : ℕ → ℕ → ℤ → TokenTransfer
transfer t a amount = record {
  token_id = token t;
  account_id = account a;
  expected_decimals = none;
  amount = amount;
  is_approved = false;
}

abbrev nft : ℕ → ℕ → NftTransfer
nft t sender = record {
  nft_token_id = token t;
  serial_number = pos 1;
  sender = account sender;
  receiver = account 9;
  nft_approved = false;
}

abbrev transaction : Transfers
transaction = record {
  is_frozen = false;
  token_transfers = transfer 5 3 (pos 10) ∷ transfer 5 4 (negsuc 9) ∷ [];
  u2u_transfers = [];
  nft_transfers = nft 6 3 ∷ [];
}

make_lists-perm_example :
    Perm (all_transfers (make_token_transfer_lists transaction)) transaction.token_transfers
    × Perm (all_nfts (make_token_transfer_lists transaction)) transaction.nft_transfers
make_lists-perm_example = make_lists-perm transaction

make_lists-IsPure_example : IsPure (make_token_transfer_lists transaction)
make_lists-IsPure_example = make_lists-IsPure transaction

abbrev state_or : WithDecimals → Transfers → Transfers
state_or (added t) s = t
state_or _ s = s

abbrev with_decimals : Transfers
with_decimals =
    state_or (add_token_transfer_with_decimals (token 5) (account 4) (pos 7) 2 transaction)
      transaction

with_decimals_added :
    add_token_transfer_with_decimals (token 5) (account 4) (pos 7) 2 transaction
    ≡ added with_decimals
unfolding add_token_transfer_with_decimals decimals_loop set_decimals finish_decimals same_token
    same_account compare compare_long compare_account compare_alias compare_evm
with_decimals_added = refl

-- A second transfer of an account is added to the first, and the flag of the first is kept.
abbrev u2u : ℤ → Bool → U2uTransfer
u2u amount approved = record {
  u2u_account = account 3;
  u2u_amount = amount;
  u2u_approved = approved;
}

put_u2u_twice : put_u2u (u2u (pos 5) true) (u2u (pos 2) false ∷ []) ≡ u2u (pos 7) false ∷ []
unfolding put_u2u compare_account compare_long compare_alias compare_evm add_long signed
put_u2u_twice = refl

-- NFTs of the tokens 1, 2 and 1, whose senders are in this order, and a token transfer of the token 5:
-- the body has two lists of the token 1.
abbrev scattered : Transfers
scattered = record {
  is_frozen = false;
  token_transfers = transfer 5 3 (pos 1) ∷ [];
  u2u_transfers = [];
  nft_transfers = nft 1 3 ∷ nft 2 4 ∷ nft 1 5 ∷ [];
}

scattered_lists :
    map (λ g. g.token) (make_token_transfer_lists scattered)
    ≡ token 1 ∷ token 2 ∷ token 1 ∷ token 5 ∷ []
unfolding make_token_transfer_lists merge sort insert compare_nft_transfer compare_account
    compare_long compare_alias compare_evm take_round last_is by_order compare put_transfer any_is
scattered_lists = refl
