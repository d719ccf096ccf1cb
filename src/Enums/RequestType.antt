-- ===== src/Enums/RequestType.antt =====
-- The constants of the class `RequestType` of src/RequestType.js, one constructor for each static, and the
-- children `Code` (the numbers and the switch of `_fromCode`) and `Text` (the switch of `toString`).
pub mod Code
pub mod Text

pub data RequestType : Type 0 where
  none crypto_transfer crypto_update crypto_delete crypto_add_live_hash crypto_delete_live_hash
        contract_call contract_create contract_update file_create file_append file_update
        file_delete crypto_get_account_balance crypto_get_account_records crypto_get_info
        contract_call_local contract_get_info contract_get_bytecode get_by_solidity_id get_by_key
        crypto_get_live_hash crypto_get_stakers file_get_contents file_get_info
        transaction_get_record contract_get_records crypto_create system_delete system_undelete
        contract_delete freeze create_transaction_record crypto_account_auto_renew
        contract_auto_renew get_version_info transaction_get_receipt consensus_create_topic
        consensus_update_topic consensus_delete_topic consensus_get_topic_info
        consensus_submit_message unchecked_submit token_create token_get_info token_freeze_account
        token_unfreeze_account token_grant_kyc_to_account token_revoke_kyc_from_account token_delete
        token_update token_mint token_burn token_account_wipe token_associate_to_account
        token_dissociate_from_account schedule_create schedule_delete schedule_sign
        schedule_get_info token_get_account_nft_infos token_get_nft_info token_get_nft_infos
        token_fee_schedule_update network_get_execution_time token_pause token_unpause
        crypto_approve_allowance crypto_delete_allowance get_account_details ethereum_transaction
        node_stake_update prng :
      RequestType
