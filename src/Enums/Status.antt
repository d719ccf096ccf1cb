-- ===== src/Enums/Status.antt =====
-- The constants of the class `Status` of src/Status.js, one constructor for each static, and the
-- children `Code` (the numbers and the switch of `_fromCode`) and `Text` (the switch of `toString`).
pub mod Code
pub mod Text

pub data Status : Type 0 where
  ok invalid_transaction payer_account_not_found invalid_node_account transaction_expired
        invalid_transaction_start invalid_transaction_duration invalid_signature memo_too_long
        insufficient_tx_fee insufficient_payer_balance duplicate_transaction busy not_supported
        invalid_file_id invalid_account_id invalid_contract_id invalid_transaction_id
        receipt_not_found record_not_found invalid_solidity_id unknown success fail_invalid fail_fee
        fail_balance key_required bad_encoding insufficient_account_balance invalid_solidity_address
        insufficient_gas contract_size_limit_exceeded local_call_modification_exception
        contract_revert_executed contract_execution_exception invalid_receiving_node_account
        missing_query_header account_update_failed invalid_key_encoding null_solidity_address
        contract_update_failed invalid_query_header invalid_fee_submitted invalid_payer_signature
        key_not_provided invalid_expiration_time no_wacl_key file_content_empty
        invalid_account_amounts empty_transaction_body invalid_transaction_body
        invalid_signature_type_mismatching_key invalid_signature_count_mismatching_key
        empty_live_hash_body empty_live_hash empty_live_hash_keys invalid_live_hash_size
        empty_query_body empty_live_hash_query live_hash_not_found account_id_does_not_exist
        live_hash_already_exists invalid_file_wacl serialization_failed transaction_oversize
        transaction_too_many_layers contract_deleted platform_not_active key_prefix_mismatch
        platform_transaction_not_created invalid_renewal_period invalid_payer_account_id
        account_deleted file_deleted account_repeated_in_account_amounts
        setting_negative_account_balance obtainer_required obtainer_same_contract_id
        obtainer_does_not_exist modifying_immutable_contract file_system_exception
        autorenew_duration_not_in_range error_decoding_bytestring contract_file_empty
        contract_bytecode_empty invalid_initial_balance invalid_receive_record_threshold
        invalid_send_record_threshold account_is_not_genesis_account payer_account_unauthorized
        invalid_freeze_transaction_body freeze_transaction_body_not_found
        transfer_list_size_limit_exceeded result_size_limit_exceeded not_special_account
        contract_negative_gas contract_negative_value invalid_fee_file invalid_exchange_rate_file
        insufficient_local_call_gas entity_not_allowed_to_delete authorization_failed
        file_uploaded_proto_invalid file_uploaded_proto_not_saved_to_disk
        fee_schedule_file_part_uploaded exchange_rate_change_limit_exceeded
        max_contract_storage_exceeded transfer_account_same_as_delete_account
        total_ledger_balance_invalid expiration_reduction_not_allowed max_gas_limit_exceeded
        max_file_size_exceeded receiver_sig_required invalid_topic_id invalid_admin_key
        invalid_submit_key unauthorized invalid_topic_message invalid_autorenew_account
        autorenew_account_not_allowed topic_expired invalid_chunk_number
        invalid_chunk_transaction_id account_frozen_for_token tokens_per_account_limit_exceeded
        invalid_token_id invalid_token_decimals invalid_token_initial_supply
        invalid_treasury_account_for_token invalid_token_symbol token_has_no_freeze_key
        transfers_not_zero_sum_for_token missing_token_symbol token_symbol_too_long
        account_kyc_not_granted_for_token token_has_no_kyc_key insufficient_token_balance
        token_was_deleted token_has_no_supply_key token_has_no_wipe_key invalid_token_mint_amount
        invalid_token_burn_amount token_not_associated_to_account cannot_wipe_token_treasury_account
        invalid_kyc_key invalid_wipe_key invalid_freeze_key invalid_supply_key missing_token_name
        token_name_too_long invalid_wiping_amount token_is_immutable
        token_already_associated_to_account transaction_requires_zero_token_balances
        account_is_treasury token_id_repeated_in_token_list token_transfer_list_size_limit_exceeded
        empty_token_transfer_body empty_token_transfer_account_amounts invalid_schedule_id
        schedule_is_immutable invalid_schedule_payer_id invalid_schedule_account_id
        no_new_valid_signatures unresolvable_required_signers scheduled_transaction_not_in_whitelist
        some_signatures_were_invalid transaction_id_field_not_allowed
        identical_schedule_already_created invalid_zero_byte_in_string schedule_already_deleted
        schedule_already_executed message_size_too_large operation_repeated_in_bucket_groups
        bucket_capacity_overflow node_capacity_not_sufficient_for_operation
        bucket_has_no_throttle_groups throttle_group_has_zero_ops_per_sec
        success_but_missing_expected_operation unparseable_throttle_definitions
        invalid_throttle_definitions account_expired_and_pending_removal invalid_token_max_supply
        invalid_token_nft_serial_number invalid_nft_id metadata_too_long batch_size_limit_exceeded
        invalid_query_range fraction_divides_by_zero insufficient_payer_balance_for_custom_fee
        custom_fees_list_too_long invalid_custom_fee_collector invalid_token_id_in_custom_fees
        token_not_associated_to_fee_collector token_max_supply_reached
        sender_does_not_own_nft_serial_no custom_fee_not_fully_specified custom_fee_must_be_positive
        token_has_no_fee_schedule_key custom_fee_outside_numeric_range
        royalty_fraction_cannot_exceed_one fractional_fee_max_amount_less_than_min_amount
        custom_schedule_already_has_no_fees custom_fee_denomination_must_be_fungible_common
        custom_fractional_fee_only_allowed_for_fungible_common invalid_custom_fee_schedule_key
        invalid_token_mint_metadata invalid_token_burn_metadata current_treasury_still_owns_nfts
        account_still_owns_nfts treasury_must_own_burned_nft account_does_not_own_wiped_nft
        account_amount_transfers_only_allowed_for_fungible_common
        max_nfts_in_price_regime_have_been_minted payer_account_deleted
        custom_fee_charging_exceeded_max_recursion_depth
        custom_fee_charging_exceeded_max_account_amounts
        insufficient_sender_account_balance_for_custom_fee serial_number_limit_reached
        custom_royalty_fee_only_allowed_for_non_fungible_unique no_remaining_automatic_associations
        existing_automatic_associations_exceed_given_limit
        requested_num_automatic_associations_exceeds_association_limit token_is_paused
        token_has_no_pause_key invalid_pause_key freeze_update_file_does_not_exist
        freeze_update_file_hash_does_not_match no_upgrade_has_been_prepared no_freeze_is_scheduled
        update_file_hash_changed_since_prepare_upgrade freeze_start_time_must_be_future
        prepared_update_file_is_immutable freeze_already_scheduled freeze_upgrade_in_progress
        update_file_id_does_not_match_prepared update_file_hash_does_not_match_prepared
        consensus_gas_exhausted reverted_success max_storage_in_price_regime_has_been_used
        invalid_alias_key unexpected_token_decimals invalid_proxy_account_id
        invalid_transfer_account_id invalid_fee_collector_account_id alias_is_immutable
        spender_account_same_as_owner amount_exceeds_token_max_supply negative_allowance_amount
        cannot_approve_for_all_fungible_common spender_does_not_have_allowance
        amount_exceeds_allowance max_allowances_exceeded empty_allowances
        spender_account_repeated_in_allowances repeated_serial_nums_in_nft_allowances
        fungible_token_in_nft_allowances nft_in_fungible_token_allowances invalid_allowance_owner_id
        invalid_allowance_spender_id repeated_allowances_to_delete invalid_delegating_spender
        delegating_spender_cannot_grant_approve_for_all
        delegating_spender_does_not_have_approve_for_all schedule_expiration_time_too_far_in_future
        schedule_expiration_time_must_be_higher_than_consensus_time
        schedule_future_throttle_exceeded schedule_future_gas_limit_exceeded
        invalid_ethereum_transaction wrong_chain_id wrong_nonce access_list_unsupported
        schedule_pending_expiration contract_is_token_treasury contract_has_non_zero_token_balances
        contract_expired_and_pending_removal contract_has_no_auto_renew_account
        permanent_removal_requires_system_initiation proxy_account_id_field_is_deprecated
        self_staking_is_not_allowed invalid_staking_id staking_not_enabled invalid_prng_range
        max_entities_in_price_regime_have_been_created invalid_full_prefix_signature_for_precompile
        insufficient_balances_for_storage_rent max_child_records_exceeded
        insufficient_balances_for_renewal_fees transaction_has_unknown_fields account_is_immutable
        alias_already_assigned :
      Status
