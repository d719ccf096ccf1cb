-- ===== src/Enums/RequestType/Code.antt =====
-- The codes of `RequestType` (src/RequestType.js): `valueOf` reads the number that the constant was built with, and
-- `_fromCode` is a switch over the numbers. Here the two are proved to be inverse to each other.
use u2u_sdk_js.Common.{ℕ, ◌≡◌, refl, ◌↔◌, true, Option, some, List, [], ◌∷◌}
use u2u_sdk_js.Enums.Switch.{agrees, switch, switch_sound}
use u2u_sdk_js.Enums.RequestType.{
  RequestType, none, crypto_transfer, crypto_update, crypto_delete, crypto_add_live_hash,
  crypto_delete_live_hash, contract_call, contract_create, contract_update, file_create,
  file_append, file_update, file_delete, crypto_get_account_balance, crypto_get_account_records,
  crypto_get_info, contract_call_local, contract_get_info, contract_get_bytecode,
  get_by_solidity_id, get_by_key, crypto_get_live_hash, crypto_get_stakers, file_get_contents,
  file_get_info, transaction_get_record, contract_get_records, crypto_create, system_delete,
  system_undelete, contract_delete, freeze, create_transaction_record, crypto_account_auto_renew,
  contract_auto_renew, get_version_info, transaction_get_receipt, consensus_create_topic,
  consensus_update_topic, consensus_delete_topic, consensus_get_topic_info,
  consensus_submit_message, unchecked_submit, token_create, token_get_info, token_freeze_account,
  token_unfreeze_account, token_grant_kyc_to_account, token_revoke_kyc_from_account, token_delete,
  token_update, token_mint, token_burn, token_account_wipe, token_associate_to_account,
  token_dissociate_from_account, schedule_create, schedule_delete, schedule_sign, schedule_get_info,
  token_get_account_nft_infos, token_get_nft_info, token_get_nft_infos, token_fee_schedule_update,
  network_get_execution_time, token_pause, token_unpause, crypto_approve_allowance,
  crypto_delete_allowance, get_account_details, ethereum_transaction, node_stake_update, prng,
}

-- `valueOf`: the argument of `new RequestType(…)`.
unfoldable pub code : RequestType → ℕ
code none = 0
code crypto_transfer = 1
code crypto_update = 2
code crypto_delete = 3
code crypto_add_live_hash = 4
code crypto_delete_live_hash = 5
code contract_call = 6
code contract_create = 7
code contract_update = 8
code file_create = 9
code file_append = 10
code file_update = 11
code file_delete = 12
code crypto_get_account_balance = 13
code crypto_get_account_records = 14
code crypto_get_info = 15
code contract_call_local = 16
code contract_get_info = 17
code contract_get_bytecode = 18
code get_by_solidity_id = 19
code get_by_key = 20
code crypto_get_live_hash = 21
code crypto_get_stakers = 22
code file_get_contents = 23
code file_get_info = 24
code transaction_get_record = 25
code contract_get_records = 26
code crypto_create = 27
code system_delete = 28
code system_undelete = 29
code contract_delete = 30
code freeze = 31
code create_transaction_record = 32
code crypto_account_auto_renew = 33
code contract_auto_renew = 34
code get_version_info = 35
code transaction_get_receipt = 36
code consensus_create_topic = 50
code consensus_update_topic = 51
code consensus_delete_topic = 52
code consensus_get_topic_info = 53
code consensus_submit_message = 54
code unchecked_submit = 55
code token_create = 56
code token_get_info = 58
code token_freeze_account = 59
code token_unfreeze_account = 60
code token_grant_kyc_to_account = 61
code token_revoke_kyc_from_account = 62
code token_delete = 63
code token_update = 64
code token_mint = 65
code token_burn = 66
code token_account_wipe = 67
code token_associate_to_account = 68
code token_dissociate_from_account = 69
code schedule_create = 70
code schedule_delete = 71
code schedule_sign = 72
code schedule_get_info = 73
code token_get_account_nft_infos = 74
code token_get_nft_info = 75
code token_get_nft_infos = 76
code token_fee_schedule_update = 77
code network_get_execution_time = 78
code token_pause = 79
code token_unpause = 80
code crypto_approve_allowance = 81
code crypto_delete_allowance = 82
code get_account_details = 83
code ethereum_transaction = 84
code node_stake_update = 85
code prng = 86

-- The cases of `_fromCode`, in the order of the source.
unfoldable pub cases : List (ℕ × RequestType)
cases =
    (0, none)
    ∷ (1, crypto_transfer)
    ∷ (2, crypto_update)
    ∷ (3, crypto_delete)
    ∷ (4, crypto_add_live_hash)
    ∷ (5, crypto_delete_live_hash)
    ∷ (6, contract_call)
    ∷ (7, contract_create)
    ∷ (8, contract_update)
    ∷ (9, file_create)
    ∷ (10, file_append)
    ∷ (11, file_update)
    ∷ (12, file_delete)
    ∷ (13, crypto_get_account_balance)
    ∷ (14, crypto_get_account_records)
    ∷ (15, crypto_get_info)
    ∷ (16, contract_call_local)
    ∷ (17, contract_get_info)
    ∷ (18, contract_get_bytecode)
    ∷ (19, get_by_solidity_id)
    ∷ (20, get_by_key)
    ∷ (21, crypto_get_live_hash)
    ∷ (22, crypto_get_stakers)
    ∷ (23, file_get_contents)
    ∷ (24, file_get_info)
    ∷ (25, transaction_get_record)
    ∷ (26, contract_get_records)
    ∷ (27, crypto_create)
    ∷ (28, system_delete)
    ∷ (29, system_undelete)
    ∷ (30, contract_delete)
    ∷ (31, freeze)
    ∷ (32, create_transaction_record)
    ∷ (33, crypto_account_auto_renew)
    ∷ (34, contract_auto_renew)
    ∷ (35, get_version_info)
    ∷ (36, transaction_get_receipt)
    ∷ (50, consensus_create_topic)
    ∷ (51, consensus_update_topic)
    ∷ (52, consensus_delete_topic)
    ∷ (53, consensus_get_topic_info)
    ∷ (54, consensus_submit_message)
    ∷ (55, unchecked_submit)
    ∷ (56, token_create)
    ∷ (58, token_get_info)
    ∷ (59, token_freeze_account)
    ∷ (60, token_unfreeze_account)
    ∷ (61, token_grant_kyc_to_account)
    ∷ (62, token_revoke_kyc_from_account)
    ∷ (63, token_delete)
    ∷ (64, token_update)
    ∷ (65, token_mint)
    ∷ (66, token_burn)
    ∷ (67, token_account_wipe)
    ∷ (68, token_associate_to_account)
    ∷ (69, token_dissociate_from_account)
    ∷ (70, schedule_create)
    ∷ (71, schedule_delete)
    ∷ (72, schedule_sign)
    ∷ (73, schedule_get_info)
    ∷ (74, token_get_account_nft_infos)
    ∷ (75, token_get_nft_info)
    ∷ (76, token_get_nft_infos)
    ∷ (77, token_fee_schedule_update)
    ∷ (78, network_get_execution_time)
    ∷ (79, token_pause)
    ∷ (80, token_unpause)
    ∷ (81, crypto_approve_allowance)
    ∷ (82, crypto_delete_allowance)
    ∷ (83, get_account_details)
    ∷ (84, ethereum_transaction)
    ∷ (85, node_stake_update)
    ∷ (86, prng)
    ∷ []

-- `none` is the error of the default case.
unfoldable pub from_code : ℕ → Option RequestType
unfolding cases
from_code c = switch c cases

cases_agree : agrees code cases ≡ true
unfolding cases code agrees
cases_agree = refl

from_code-code : (s : RequestType) → from_code (code s) ≡ some s
unfolding from_code code switch
from_code-code none = refl
from_code-code crypto_transfer = refl
from_code-code crypto_update = refl
from_code-code crypto_delete = refl
from_code-code crypto_add_live_hash = refl
from_code-code crypto_delete_live_hash = refl
from_code-code contract_call = refl
from_code-code contract_create = refl
from_code-code contract_update = refl
from_code-code file_create = refl
from_code-code file_append = refl
from_code-code file_update = refl
from_code-code file_delete = refl
from_code-code crypto_get_account_balance = refl
from_code-code crypto_get_account_records = refl
from_code-code crypto_get_info = refl
from_code-code contract_call_local = refl
from_code-code contract_get_info = refl
from_code-code contract_get_bytecode = refl
from_code-code get_by_solidity_id = refl
from_code-code get_by_key = refl
from_code-code crypto_get_live_hash = refl
from_code-code crypto_get_stakers = refl
from_code-code file_get_contents = refl
from_code-code file_get_info = refl
from_code-code transaction_get_record = refl
from_code-code contract_get_records = refl
from_code-code crypto_create = refl
from_code-code system_delete = refl
from_code-code system_undelete = refl
from_code-code contract_delete = refl
from_code-code freeze = refl
from_code-code create_transaction_record = refl
from_code-code crypto_account_auto_renew = refl
from_code-code contract_auto_renew = refl
from_code-code get_version_info = refl
from_code-code transaction_get_receipt = refl
from_code-code consensus_create_topic = refl
from_code-code consensus_update_topic = refl
from_code-code consensus_delete_topic = refl
from_code-code consensus_get_topic_info = refl
from_code-code consensus_submit_message = refl
from_code-code unchecked_submit = refl
from_code-code token_create = refl
from_code-code token_get_info = refl
from_code-code token_freeze_account = refl
from_code-code token_unfreeze_account = refl
from_code-code token_grant_kyc_to_account = refl
from_code-code token_revoke_kyc_from_account = refl
from_code-code token_delete = refl
from_code-code token_update = refl
from_code-code token_mint = refl
from_code-code token_burn = refl
from_code-code token_account_wipe = refl
from_code-code token_associate_to_account = refl
from_code-code token_dissociate_from_account = refl
from_code-code schedule_create = refl
from_code-code schedule_delete = refl
from_code-code schedule_sign = refl
from_code-code schedule_get_info = refl
from_code-code token_get_account_nft_infos = refl
from_code-code token_get_nft_info = refl
from_code-code token_get_nft_infos = refl
from_code-code token_fee_schedule_update = refl
from_code-code network_get_execution_time = refl
from_code-code token_pause = refl
from_code-code token_unpause = refl
from_code-code crypto_approve_allowance = refl
from_code-code crypto_delete_allowance = refl
from_code-code get_account_details = refl
from_code-code ethereum_transaction = refl
from_code-code node_stake_update = refl
from_code-code prng = refl

-- The switch of `_fromCode` returns a constant exactly for the number that the constant was built
-- with; so each constant is found by its code, and every other number is an error.
pub from_code_iff : (c : ℕ) (s : RequestType) → (from_code c ≡ some s) ↔ (code s ≡ c)
unfolding from_code
from_code_iff c s = (switch_sound code cases c s cases_agree, λ e. rw (← e) (from_code-code s))
