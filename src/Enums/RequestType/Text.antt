-- ===== src/Enums/RequestType/Text.antt =====
-- The texts of `RequestType` (src/RequestType.js, `toString`).
use Prim.Native.String.{String}
use u2u_sdk_js.Common.{◌≡◌, refl, sym, ap, ◌∙◌, some, List, [], ◌∷◌}
use u2u_sdk_js.Enums.Switch.{find_text, some-inj}
use u2u_sdk_js.Enums.RequestType.{
  RequestType, none, crypto_transfer, crypto_update, crypto_delete, crypto_add_live_hash,
  crypto_delete_live_hash, contract_call, contract_create, contract_update, file_create,
  file_append, file_update, file_delete, crypto_get_account_balance, crypto_get_account_records,
  crypto_get_info, contract_call_local, contract_get_info, contract_get_bytecode,
  get_by_solidity_id, get_by_key, crypto_get_live_hash, crypto_get_stakers, file_get_contents,
  file_get_info, transaction_get_record, contract_get_records, crypto_create, system_delete,
  system_undelete, contract_delete, freeze, create_transaction_record, crypto_account_auto_renew,
  contract_auto_renew, get_version_info, transaction_get_receipt, consensus_create_topic,
  consensus_update_topic, consensus_delete_topic, consensus_get_topic_info,
  consensus_submit_message, unchecked_submit, token_create, token_get_info, token_freeze_account,
  token_unfreeze_account, token_grant_kyc_to_account, token_revoke_kyc_from_account, token_delete,
  token_update, token_mint, token_burn, token_account_wipe, token_associate_to_account,
  token_dissociate_from_account, schedule_create, schedule_delete, schedule_sign, schedule_get_info,
  token_get_account_nft_infos, token_get_nft_info, token_get_nft_infos, token_fee_schedule_update,
  network_get_execution_time, token_pause, token_unpause, crypto_approve_allowance,
  crypto_delete_allowance, get_account_details, ethereum_transaction, node_stake_update, prng,
}

-- `toString`; every constant has a case of its own, so the default case is never taken.
unfoldable pub text : RequestType → String
text none = "NONE"
text crypto_transfer = "CryptoTransfer"
text crypto_update = "CryptoUpdate"
text crypto_delete = "CryptoDelete"
text crypto_add_live_hash = "CryptoAddLiveHash"
text crypto_delete_live_hash = "CryptoDeleteLiveHash"
text contract_call = "ContractCall"
text contract_create = "ContractCreate"
text contract_update = "ContractUpdate"
text file_create = "FileCreate"
text file_append = "FileAppend"
text file_update = "FileUpdate"
text file_delete = "FileDelete"
text crypto_get_account_balance = "CryptoGetAccountBalance"
text crypto_get_account_records = "CryptoGetAccountRecords"
text crypto_get_info = "CryptoGetInfo"
text contract_call_local = "ContractCallLocal"
text contract_get_info = "ContractGetInfo"
text contract_get_bytecode = "ContractGetBytecode"
text get_by_solidity_id = "GetBySolidityID"
text get_by_key = "GetByKey"
text crypto_get_live_hash = "CryptoGetLiveHash"
text crypto_get_stakers = "CryptoGetStakers"
text file_get_contents = "FileGetContents"
text file_get_info = "FileGetInfo"
text transaction_get_record = "TransactionGetRecord"
text contract_get_records = "ContractGetRecords"
text crypto_create = "CryptoCreate"
text system_delete = "SystemDelete"
text system_undelete = "SystemUndelete"
text contract_delete = "ContractDelete"
text freeze = "Freeze"
text create_transaction_record = "CreateTransactionRecord"
text crypto_account_auto_renew = "CryptoAccountAutoRenew"
text contract_auto_renew = "ContractAutoRenew"
text get_version_info = "GetVersionInfo"
text transaction_get_receipt = "TransactionGetReceipt"
text consensus_create_topic = "ConsensusCreateTopic"
text consensus_update_topic = "ConsensusUpdateTopic"
text consensus_delete_topic = "ConsensusDeleteTopic"
text consensus_get_topic_info = "ConsensusGetTopicInfo"
text consensus_submit_message = "ConsensusSubmitMessage"
text unchecked_submit = "UncheckedSubmit"
text token_create = "TokenCreate"
text token_get_info = "TokenGetInfo"
text token_freeze_account = "TokenFreezeAccount"
text token_unfreeze_account = "TokenUnfreezeAccount"
text token_grant_kyc_to_account = "TokenGrantKycToAccount"
text token_revoke_kyc_from_account = "TokenRevokeKycFromAccount"
text token_delete = "TokenDelete"
text token_update = "TokenUpdate"
text token_mint = "TokenMint"
text token_burn = "TokenBurn"
text token_account_wipe = "TokenAccountWipe"
text token_associate_to_account = "TokenAssociateToAccount"
text token_dissociate_from_account = "TokenDissociateFromAccount"
text schedule_create = "ScheduleCreate"
text schedule_delete = "ScheduleDelete"
text schedule_sign = "ScheduleSign"
text schedule_get_info = "ScheduleGetInfo"
text token_get_account_nft_infos = "TokenGetAccountNftInfos"
text token_get_nft_info = "TokenGetNftInfo"
text token_get_nft_infos = "TokenGetNftInfos"
text token_fee_schedule_update = "TokenFeeScheduleUpdate"
text network_get_execution_time = "NetworkGetExecutionTime"
text token_pause = "TokenPause"
text token_unpause = "TokenUnpause"
text crypto_approve_allowance = "CryptoApproveAllowance"
text crypto_delete_allowance = "CryptoDeleteAllowance"
text get_account_details = "GetAccountDetails"
text ethereum_transaction = "EthereumTransaction"
text node_stake_update = "NodeStakeUpdate"
text prng = "UtilPrng"

texts : List (String × RequestType)
texts =
    ("NONE", none)
    ∷ ("CryptoTransfer", crypto_transfer)
    ∷ ("CryptoUpdate", crypto_update)
    ∷ ("CryptoDelete", crypto_delete)
    ∷ ("CryptoAddLiveHash", crypto_add_live_hash)
    ∷ ("CryptoDeleteLiveHash", crypto_delete_live_hash)
    ∷ ("ContractCall", contract_call)
    ∷ ("ContractCreate", contract_create)
    ∷ ("ContractUpdate", contract_update)
    ∷ ("FileCreate", file_create)
    ∷ ("FileAppend", file_append)
    ∷ ("FileUpdate", file_update)
    ∷ ("FileDelete", file_delete)
    ∷ ("CryptoGetAccountBalance", crypto_get_account_balance)
    ∷ ("CryptoGetAccountRecords", crypto_get_account_records)
    ∷ ("CryptoGetInfo", crypto_get_info)
    ∷ ("ContractCallLocal", contract_call_local)
    ∷ ("ContractGetInfo", contract_get_info)
    ∷ ("ContractGetBytecode", contract_get_bytecode)
    ∷ ("GetBySolidityID", get_by_solidity_id)
    ∷ ("GetByKey", get_by_key)
    ∷ ("CryptoGetLiveHash", crypto_get_live_hash)
    ∷ ("CryptoGetStakers", crypto_get_stakers)
    ∷ ("FileGetContents", file_get_contents)
    ∷ ("FileGetInfo", file_get_info)
    ∷ ("TransactionGetRecord", transaction_get_record)
    ∷ ("ContractGetRecords", contract_get_records)
    ∷ ("CryptoCreate", crypto_create)
    ∷ ("SystemDelete", system_delete)
    ∷ ("SystemUndelete", system_undelete)
    ∷ ("ContractDelete", contract_delete)
    ∷ ("Freeze", freeze)
    ∷ ("CreateTransactionRecord", create_transaction_record)
    ∷ ("CryptoAccountAutoRenew", crypto_account_auto_renew)
    ∷ ("ContractAutoRenew", contract_auto_renew)
    ∷ ("GetVersionInfo", get_version_info)
    ∷ ("TransactionGetReceipt", transaction_get_receipt)
    ∷ ("ConsensusCreateTopic", consensus_create_topic)
    ∷ ("ConsensusUpdateTopic", consensus_update_topic)
    ∷ ("ConsensusDeleteTopic", consensus_delete_topic)
    ∷ ("ConsensusGetTopicInfo", consensus_get_topic_info)
    ∷ ("ConsensusSubmitMessage", consensus_submit_message)
    ∷ ("UncheckedSubmit", unchecked_submit)
    ∷ ("TokenCreate", token_create)
    ∷ ("TokenGetInfo", token_get_info)
    ∷ ("TokenFreezeAccount", token_freeze_account)
    ∷ ("TokenUnfreezeAccount", token_unfreeze_account)
    ∷ ("TokenGrantKycToAccount", token_grant_kyc_to_account)
    ∷ ("TokenRevokeKycFromAccount", token_revoke_kyc_from_account)
    ∷ ("TokenDelete", token_delete)
    ∷ ("TokenUpdate", token_update)
    ∷ ("TokenMint", token_mint)
    ∷ ("TokenBurn", token_burn)
    ∷ ("TokenAccountWipe", token_account_wipe)
    ∷ ("TokenAssociateToAccount", token_associate_to_account)
    ∷ ("TokenDissociateFromAccount", token_dissociate_from_account)
    ∷ ("ScheduleCreate", schedule_create)
    ∷ ("ScheduleDelete", schedule_delete)
    ∷ ("ScheduleSign", schedule_sign)
    ∷ ("ScheduleGetInfo", schedule_get_info)
    ∷ ("TokenGetAccountNftInfos", token_get_account_nft_infos)
    ∷ ("TokenGetNftInfo", token_get_nft_info)
    ∷ ("TokenGetNftInfos", token_get_nft_infos)
    ∷ ("TokenFeeScheduleUpdate", token_fee_schedule_update)
    ∷ ("NetworkGetExecutionTime", network_get_execution_time)
    ∷ ("TokenPause", token_pause)
    ∷ ("TokenUnpause", token_unpause)
    ∷ ("CryptoApproveAllowance", crypto_approve_allowance)
    ∷ ("CryptoDeleteAllowance", crypto_delete_allowance)
    ∷ ("GetAccountDetails", get_account_details)
    ∷ ("EthereumTransaction", ethereum_transaction)
    ∷ ("NodeStakeUpdate", node_stake_update)
    ∷ ("UtilPrng", prng)
    ∷ []

find_text-text : (s : RequestType) → find_text (text s) texts ≡ some s
unfolding find_text text texts
find_text-text none = refl
find_text-text crypto_transfer = refl
find_text-text crypto_update = refl
find_text-text crypto_delete = refl
find_text-text crypto_add_live_hash = refl
find_text-text crypto_delete_live_hash = refl
find_text-text contract_call = refl
find_text-text contract_create = refl
find_text-text contract_update = refl
find_text-text file_create = refl
find_text-text file_append = refl
find_text-text file_update = refl
find_text-text file_delete = refl
find_text-text crypto_get_account_balance = refl
find_text-text crypto_get_account_records = refl
find_text-text crypto_get_info = refl
find_text-text contract_call_local = refl
find_text-text contract_get_info = refl
find_text-text contract_get_bytecode = refl
find_text-text get_by_solidity_id = refl
find_text-text get_by_key = refl
find_text-text crypto_get_live_hash = refl
find_text-text crypto_get_stakers = refl
find_text-text file_get_contents = refl
find_text-text file_get_info = refl
find_text-text transaction_get_record = refl
find_text-text contract_get_records = refl
find_text-text crypto_create = refl
find_text-text system_delete = refl
find_text-text system_undelete = refl
find_text-text contract_delete = refl
find_text-text freeze = refl
find_text-text create_transaction_record = refl
find_text-text crypto_account_auto_renew = refl
find_text-text contract_auto_renew = refl
find_text-text get_version_info = refl
find_text-text transaction_get_receipt = refl
find_text-text consensus_create_topic = refl
find_text-text consensus_update_topic = refl
find_text-text consensus_delete_topic = refl
find_text-text consensus_get_topic_info = refl
find_text-text consensus_submit_message = refl
find_text-text unchecked_submit = refl
find_text-text token_create = refl
find_text-text token_get_info = refl
find_text-text token_freeze_account = refl
find_text-text token_unfreeze_account = refl
find_text-text token_grant_kyc_to_account = refl
find_text-text token_revoke_kyc_from_account = refl
find_text-text token_delete = refl
find_text-text token_update = refl
find_text-text token_mint = refl
find_text-text token_burn = refl
find_text-text token_account_wipe = refl
find_text-text token_associate_to_account = refl
find_text-text token_dissociate_from_account = refl
find_text-text schedule_create = refl
find_text-text schedule_delete = refl
find_text-text schedule_sign = refl
find_text-text schedule_get_info = refl
find_text-text token_get_account_nft_infos = refl
find_text-text token_get_nft_info = refl
find_text-text token_get_nft_infos = refl
find_text-text token_fee_schedule_update = refl
find_text-text network_get_execution_time = refl
find_text-text token_pause = refl
find_text-text token_unpause = refl
find_text-text crypto_approve_allowance = refl
find_text-text crypto_delete_allowance = refl
find_text-text get_account_details = refl
find_text-text ethereum_transaction = refl
find_text-text node_stake_update = refl
find_text-text prng = refl

-- Two constants with the same text are the same constant.
pub text-injective : (s t : RequestType) → text s ≡ text t → s ≡ t
text-injective s t e =
    some-inj (sym (find_text-text s) ∙ ap (λ k. find_text k texts) e ∙ find_text-text t)
