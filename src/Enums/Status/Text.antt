-- ===== src/Enums/Status/Text.antt =====
-- The texts of `Status` (src/Status.js, `toString`).
use Prim.Native.String.{String}
use u2u_sdk_js.Common.{◌≡◌, refl, sym, ap, ◌∙◌, some, List, [], ◌∷◌}
use u2u_sdk_js.Enums.Switch.{find_text, some-inj}
use u2u_sdk_js.Enums.Status.{
  Status, ok, invalid_transaction, payer_account_not_found, invalid_node_account,
  transaction_expired, invalid_transaction_start, invalid_transaction_duration, invalid_signature,
  memo_too_long, insufficient_tx_fee, insufficient_payer_balance, duplicate_transaction, busy,
  not_supported, invalid_file_id, invalid_account_id, invalid_contract_id, invalid_transaction_id,
  receipt_not_found, record_not_found, invalid_solidity_id, unknown, success, fail_invalid,
  fail_fee, fail_balance, key_required, bad_encoding, insufficient_account_balance,
  invalid_solidity_address, insufficient_gas, contract_size_limit_exceeded,
  local_call_modification_exception, contract_revert_executed, contract_execution_exception,
  invalid_receiving_node_account, missing_query_header, account_update_failed, invalid_key_encoding,
  null_solidity_address, contract_update_failed, invalid_query_header, invalid_fee_submitted,
  invalid_payer_signature, key_not_provided, invalid_expiration_time, no_wacl_key,
  file_content_empty, invalid_account_amounts, empty_transaction_body, invalid_transaction_body,
  invalid_signature_type_mismatching_key, invalid_signature_count_mismatching_key,
  empty_live_hash_body, empty_live_hash, empty_live_hash_keys, invalid_live_hash_size,
  empty_query_body, empty_live_hash_query, live_hash_not_found, account_id_does_not_exist,
  live_hash_already_exists, invalid_file_wacl, serialization_failed, transaction_oversize,
  transaction_too_many_layers, contract_deleted, platform_not_active, key_prefix_mismatch,
  platform_transaction_not_created, invalid_renewal_period, invalid_payer_account_id,
  account_deleted, file_deleted, account_repeated_in_account_amounts,
  setting_negative_account_balance, obtainer_required, obtainer_same_contract_id,
  obtainer_does_not_exist, modifying_immutable_contract, file_system_exception,
  autorenew_duration_not_in_range, error_decoding_bytestring, contract_file_empty,
  contract_bytecode_empty, invalid_initial_balance, invalid_receive_record_threshold,
  invalid_send_record_threshold, account_is_not_genesis_account, payer_account_unauthorized,
  invalid_freeze_transaction_body, freeze_transaction_body_not_found,
  transfer_list_size_limit_exceeded, result_size_limit_exceeded, not_special_account,
  contract_negative_gas, contract_negative_value, invalid_fee_file, invalid_exchange_rate_file,
  insufficient_local_call_gas, entity_not_allowed_to_delete, authorization_failed,
  file_uploaded_proto_invalid, file_uploaded_proto_not_saved_to_disk,
  fee_schedule_file_part_uploaded, exchange_rate_change_limit_exceeded,
  max_contract_storage_exceeded, transfer_account_same_as_delete_account,
  total_ledger_balance_invalid, expiration_reduction_not_allowed, max_gas_limit_exceeded,
  max_file_size_exceeded, receiver_sig_required, invalid_topic_id, invalid_admin_key,
  invalid_submit_key, unauthorized, invalid_topic_message, invalid_autorenew_account,
  autorenew_account_not_allowed, topic_expired, invalid_chunk_number, invalid_chunk_transaction_id,
  account_frozen_for_token, tokens_per_account_limit_exceeded, invalid_token_id,
  invalid_token_decimals, invalid_token_initial_supply, invalid_treasury_account_for_token,
  invalid_token_symbol, token_has_no_freeze_key, transfers_not_zero_sum_for_token,
  missing_token_symbol, token_symbol_too_long, account_kyc_not_granted_for_token,
  token_has_no_kyc_key, insufficient_token_balance, token_was_deleted, token_has_no_supply_key,
  token_has_no_wipe_key, invalid_token_mint_amount, invalid_token_burn_amount,
  token_not_associated_to_account, cannot_wipe_token_treasury_account, invalid_kyc_key,
  invalid_wipe_key, invalid_freeze_key, invalid_supply_key, missing_token_name, token_name_too_long,
  invalid_wiping_amount, token_is_immutable, token_already_associated_to_account,
  transaction_requires_zero_token_balances, account_is_treasury, token_id_repeated_in_token_list,
  token_transfer_list_size_limit_exceeded, empty_token_transfer_body,
  empty_token_transfer_account_amounts, invalid_schedule_id, schedule_is_immutable,
  invalid_schedule_payer_id, invalid_schedule_account_id, no_new_valid_signatures,
  unresolvable_required_signers, scheduled_transaction_not_in_whitelist,
  some_signatures_were_invalid, transaction_id_field_not_allowed,
  identical_schedule_already_created, invalid_zero_byte_in_string, schedule_already_deleted,
  schedule_already_executed, message_size_too_large, operation_repeated_in_bucket_groups,
  bucket_capacity_overflow, node_capacity_not_sufficient_for_operation,
  bucket_has_no_throttle_groups, throttle_group_has_zero_ops_per_sec,
  success_but_missing_expected_operation, unparseable_throttle_definitions,
  invalid_throttle_definitions, account_expired_and_pending_removal, invalid_token_max_supply,
  invalid_token_nft_serial_number, invalid_nft_id, metadata_too_long, batch_size_limit_exceeded,
  invalid_query_range, fraction_divides_by_zero, insufficient_payer_balance_for_custom_fee,
  custom_fees_list_too_long, invalid_custom_fee_collector, invalid_token_id_in_custom_fees,
  token_not_associated_to_fee_collector, token_max_supply_reached,
  sender_does_not_own_nft_serial_no, custom_fee_not_fully_specified, custom_fee_must_be_positive,
  token_has_no_fee_schedule_key, custom_fee_outside_numeric_range,
  royalty_fraction_cannot_exceed_one, fractional_fee_max_amount_less_than_min_amount,
  custom_schedule_already_has_no_fees, custom_fee_denomination_must_be_fungible_common,
  custom_fractional_fee_only_allowed_for_fungible_common, invalid_custom_fee_schedule_key,
  invalid_token_mint_metadata, invalid_token_burn_metadata, current_treasury_still_owns_nfts,
  account_still_owns_nfts, treasury_must_own_burned_nft, account_does_not_own_wiped_nft,
  account_amount_transfers_only_allowed_for_fungible_common,
  max_nfts_in_price_regime_have_been_minted, payer_account_deleted,
  custom_fee_charging_exceeded_max_recursion_depth,
  custom_fee_charging_exceeded_max_account_amounts,
  insufficient_sender_account_balance_for_custom_fee, serial_number_limit_reached,
  custom_royalty_fee_only_allowed_for_non_fungible_unique, no_remaining_automatic_associations,
  existing_automatic_associations_exceed_given_limit,
  requested_num_automatic_associations_exceeds_association_limit, token_is_paused,
  token_has_no_pause_key, invalid_pause_key, freeze_update_file_does_not_exist,
  freeze_update_file_hash_does_not_match, no_upgrade_has_been_prepared, no_freeze_is_scheduled,
  update_file_hash_changed_since_prepare_upgrade, freeze_start_time_must_be_future,
  prepared_update_file_is_immutable, freeze_already_scheduled, freeze_upgrade_in_progress,
  update_file_id_does_not_match_prepared, update_file_hash_does_not_match_prepared,
  consensus_gas_exhausted, reverted_success, max_storage_in_price_regime_has_been_used,
  invalid_alias_key, unexpected_token_decimals, invalid_proxy_account_id,
  invalid_transfer_account_id, invalid_fee_collector_account_id, alias_is_immutable,
  spender_account_same_as_owner, amount_exceeds_token_max_supply, negative_allowance_amount,
  cannot_approve_for_all_fungible_common, spender_does_not_have_allowance, amount_exceeds_allowance,
  max_allowances_exceeded, empty_allowances, spender_account_repeated_in_allowances,
  repeated_serial_nums_in_nft_allowances, fungible_token_in_nft_allowances,
  nft_in_fungible_token_allowances, invalid_allowance_owner_id, invalid_allowance_spender_id,
  repeated_allowances_to_delete, invalid_delegating_spender,
  delegating_spender_cannot_grant_approve_for_all, delegating_spender_does_not_have_approve_for_all,
  schedule_expiration_time_too_far_in_future,
  schedule_expiration_time_must_be_higher_than_consensus_time, schedule_future_throttle_exceeded,
  schedule_future_gas_limit_exceeded, invalid_ethereum_transaction, wrong_chain_id, wrong_nonce,
  access_list_unsupported, schedule_pending_expiration, contract_is_token_treasury,
  contract_has_non_zero_token_balances, contract_expired_and_pending_removal,
  contract_has_no_auto_renew_account, permanent_removal_requires_system_initiation,
  proxy_account_id_field_is_deprecated, self_staking_is_not_allowed, invalid_staking_id,
  staking_not_enabled, invalid_prng_range, max_entities_in_price_regime_have_been_created,
  invalid_full_prefix_signature_for_precompile, insufficient_balances_for_storage_rent,
  max_child_records_exceeded, insufficient_balances_for_renewal_fees,
  transaction_has_unknown_fields, account_is_immutable, alias_already_assigned,
}

-- `toString`; every constant has a case of its own, so the default case is never taken.
unfoldable pub text : Status → String
text ok = "OK"
text invalid_transaction = "INVALID_TRANSACTION"
text payer_account_not_found = "PAYER_ACCOUNT_NOT_FOUND"
text invalid_node_account = "INVALID_NODE_ACCOUNT"
text transaction_expired = "TRANSACTION_EXPIRED"
text invalid_transaction_start = "INVALID_TRANSACTION_START"
text invalid_transaction_duration = "INVALID_TRANSACTION_DURATION"
text invalid_signature = "INVALID_SIGNATURE"
text memo_too_long = "MEMO_TOO_LONG"
text insufficient_tx_fee = "INSUFFICIENT_TX_FEE"
text insufficient_payer_balance = "INSUFFICIENT_PAYER_BALANCE"
text duplicate_transaction = "DUPLICATE_TRANSACTION"
text busy = "BUSY"
text not_supported = "NOT_SUPPORTED"
text invalid_file_id = "INVALID_FILE_ID"
text invalid_account_id = "INVALID_ACCOUNT_ID"
text invalid_contract_id = "INVALID_CONTRACT_ID"
text invalid_transaction_id = "INVALID_TRANSACTION_ID"
text receipt_not_found = "RECEIPT_NOT_FOUND"
text record_not_found = "RECORD_NOT_FOUND"
text invalid_solidity_id = "INVALID_SOLIDITY_ID"
text unknown = "UNKNOWN"
text success = "SUCCESS"
text fail_invalid = "FAIL_INVALID"
text fail_fee = "FAIL_FEE"
text fail_balance = "FAIL_BALANCE"
text key_required = "KEY_REQUIRED"
text bad_encoding = "BAD_ENCODING"
text insufficient_account_balance = "INSUFFICIENT_ACCOUNT_BALANCE"
text invalid_solidity_address = "INVALID_SOLIDITY_ADDRESS"
text insufficient_gas = "INSUFFICIENT_GAS"
text contract_size_limit_exceeded = "CONTRACT_SIZE_LIMIT_EXCEEDED"
text local_call_modification_exception = "LOCAL_CALL_MODIFICATION_EXCEPTION"
text contract_revert_executed = "CONTRACT_REVERT_EXECUTED"
text contract_execution_exception = "CONTRACT_EXECUTION_EXCEPTION"
text invalid_receiving_node_account = "INVALID_RECEIVING_NODE_ACCOUNT"
text missing_query_header = "MISSING_QUERY_HEADER"
text account_update_failed = "ACCOUNT_UPDATE_FAILED"
text invalid_key_encoding = "INVALID_KEY_ENCODING"
text null_solidity_address = "NULL_SOLIDITY_ADDRESS"
text contract_update_failed = "CONTRACT_UPDATE_FAILED"
text invalid_query_header = "INVALID_QUERY_HEADER"
text invalid_fee_submitted = "INVALID_FEE_SUBMITTED"
text invalid_payer_signature = "INVALID_PAYER_SIGNATURE"
text key_not_provided = "KEY_NOT_PROVIDED"
text invalid_expiration_time = "INVALID_EXPIRATION_TIME"
text no_wacl_key = "NO_WACL_KEY"
text file_content_empty = "FILE_CONTENT_EMPTY"
text invalid_account_amounts = "INVALID_ACCOUNT_AMOUNTS"
text empty_transaction_body = "EMPTY_TRANSACTION_BODY"
text invalid_transaction_body = "INVALID_TRANSACTION_BODY"
text invalid_signature_type_mismatching_key = "INVALID_SIGNATURE_TYPE_MISMATCHING_KEY"
text invalid_signature_count_mismatching_key = "INVALID_SIGNATURE_COUNT_MISMATCHING_KEY"
text empty_live_hash_body = "EMPTY_LIVE_HASH_BODY"
text empty_live_hash = "EMPTY_LIVE_HASH"
text empty_live_hash_keys = "EMPTY_LIVE_HASH_KEYS"
text invalid_live_hash_size = "INVALID_LIVE_HASH_SIZE"
text empty_query_body = "EMPTY_QUERY_BODY"
text empty_live_hash_query = "EMPTY_LIVE_HASH_QUERY"
text live_hash_not_found = "LIVE_HASH_NOT_FOUND"
text account_id_does_not_exist = "ACCOUNT_ID_DOES_NOT_EXIST"
text live_hash_already_exists = "LIVE_HASH_ALREADY_EXISTS"
text invalid_file_wacl = "INVALID_FILE_WACL"
text serialization_failed = "SERIALIZATION_FAILED"
text transaction_oversize = "TRANSACTION_OVERSIZE"
text transaction_too_many_layers = "TRANSACTION_TOO_MANY_LAYERS"
text contract_deleted = "CONTRACT_DELETED"
text platform_not_active = "PLATFORM_NOT_ACTIVE"
text key_prefix_mismatch = "KEY_PREFIX_MISMATCH"
text platform_transaction_not_created = "PLATFORM_TRANSACTION_NOT_CREATED"
text invalid_renewal_period = "INVALID_RENEWAL_PERIOD"
text invalid_payer_account_id = "INVALID_PAYER_ACCOUNT_ID"
text account_deleted = "ACCOUNT_DELETED"
text file_deleted = "FILE_DELETED"
text account_repeated_in_account_amounts = "ACCOUNT_REPEATED_IN_ACCOUNT_AMOUNTS"
text setting_negative_account_balance = "SETTING_NEGATIVE_ACCOUNT_BALANCE"
text obtainer_required = "OBTAINER_REQUIRED"
text obtainer_same_contract_id = "OBTAINER_SAME_CONTRACT_ID"
text obtainer_does_not_exist = "OBTAINER_DOES_NOT_EXIST"
text modifying_immutable_contract = "MODIFYING_IMMUTABLE_CONTRACT"
text file_system_exception = "FILE_SYSTEM_EXCEPTION"
text autorenew_duration_not_in_range = "AUTORENEW_DURATION_NOT_IN_RANGE"
text error_decoding_bytestring = "ERROR_DECODING_BYTESTRING"
text contract_file_empty = "CONTRACT_FILE_EMPTY"
text contract_bytecode_empty = "CONTRACT_BYTECODE_EMPTY"
text invalid_initial_balance = "INVALID_INITIAL_BALANCE"
text invalid_receive_record_threshold = "INVALID_RECEIVE_RECORD_THRESHOLD"
text invalid_send_record_threshold = "INVALID_SEND_RECORD_THRESHOLD"
text account_is_not_genesis_account = "ACCOUNT_IS_NOT_GENESIS_ACCOUNT"
text payer_account_unauthorized = "PAYER_ACCOUNT_UNAUTHORIZED"
text invalid_freeze_transaction_body = "INVALID_FREEZE_TRANSACTION_BODY"
text freeze_transaction_body_not_found = "FREEZE_TRANSACTION_BODY_NOT_FOUND"
text transfer_list_size_limit_exceeded = "TRANSFER_LIST_SIZE_LIMIT_EXCEEDED"
text result_size_limit_exceeded = "RESULT_SIZE_LIMIT_EXCEEDED"
text not_special_account = "NOT_SPECIAL_ACCOUNT"
text contract_negative_gas = "CONTRACT_NEGATIVE_GAS"
text contract_negative_value = "CONTRACT_NEGATIVE_VALUE"
text invalid_fee_file = "INVALID_FEE_FILE"
text invalid_exchange_rate_file = "INVALID_EXCHANGE_RATE_FILE"
text insufficient_local_call_gas = "INSUFFICIENT_LOCAL_CALL_GAS"
text entity_not_allowed_to_delete = "ENTITY_NOT_ALLOWED_TO_DELETE"
text authorization_failed = "AUTHORIZATION_FAILED"
text file_uploaded_proto_invalid = "FILE_UPLOADED_PROTO_INVALID"
text file_uploaded_proto_not_saved_to_disk = "FILE_UPLOADED_PROTO_NOT_SAVED_TO_DISK"
text fee_schedule_file_part_uploaded = "FEE_SCHEDULE_FILE_PART_UPLOADED"
text exchange_rate_change_limit_exceeded = "EXCHANGE_RATE_CHANGE_LIMIT_EXCEEDED"
text max_contract_storage_exceeded = "MAX_CONTRACT_STORAGE_EXCEEDED"
text transfer_account_same_as_delete_account = "TRANSFER_ACCOUNT_SAME_AS_DELETE_ACCOUNT"
text total_ledger_balance_invalid = "TOTAL_LEDGER_BALANCE_INVALID"
text expiration_reduction_not_allowed = "EXPIRATION_REDUCTION_NOT_ALLOWED"
text max_gas_limit_exceeded = "MAX_GAS_LIMIT_EXCEEDED"
text max_file_size_exceeded = "MAX_FILE_SIZE_EXCEEDED"
text receiver_sig_required = "RECEIVER_SIG_REQUIRED"
text invalid_topic_id = "INVALID_TOPIC_ID"
text invalid_admin_key = "INVALID_ADMIN_KEY"
text invalid_submit_key = "INVALID_SUBMIT_KEY"
text unauthorized = "UNAUTHORIZED"
text invalid_topic_message = "INVALID_TOPIC_MESSAGE"
text invalid_autorenew_account = "INVALID_AUTORENEW_ACCOUNT"
text autorenew_account_not_allowed = "AUTORENEW_ACCOUNT_NOT_ALLOWED"
text topic_expired = "TOPIC_EXPIRED"
text invalid_chunk_number = "INVALID_CHUNK_NUMBER"
text invalid_chunk_transaction_id = "INVALID_CHUNK_TRANSACTION_ID"
text account_frozen_for_token = "ACCOUNT_FROZEN_FOR_TOKEN"
text tokens_per_account_limit_exceeded = "TOKENS_PER_ACCOUNT_LIMIT_EXCEEDED"
text invalid_token_id = "INVALID_TOKEN_ID"
text invalid_token_decimals = "INVALID_TOKEN_DECIMALS"
text invalid_token_initial_supply = "INVALID_TOKEN_INITIAL_SUPPLY"
text invalid_treasury_account_for_token = "INVALID_TREASURY_ACCOUNT_FOR_TOKEN"
text invalid_token_symbol = "INVALID_TOKEN_SYMBOL"
text token_has_no_freeze_key = "TOKEN_HAS_NO_FREEZE_KEY"
text transfers_not_zero_sum_for_token = "TRANSFERS_NOT_ZERO_SUM_FOR_TOKEN"
text missing_token_symbol = "MISSING_TOKEN_SYMBOL"
text token_symbol_too_long = "TOKEN_SYMBOL_TOO_LONG"
text account_kyc_not_granted_for_token = "ACCOUNT_KYC_NOT_GRANTED_FOR_TOKEN"
text token_has_no_kyc_key = "TOKEN_HAS_NO_KYC_KEY"
text insufficient_token_balance = "INSUFFICIENT_TOKEN_BALANCE"
text token_was_deleted = "TOKEN_WAS_DELETED"
text token_has_no_supply_key = "TOKEN_HAS_NO_SUPPLY_KEY"
text token_has_no_wipe_key = "TOKEN_HAS_NO_WIPE_KEY"
text invalid_token_mint_amount = "INVALID_TOKEN_MINT_AMOUNT"
text invalid_token_burn_amount = "INVALID_TOKEN_BURN_AMOUNT"
text token_not_associated_to_account = "TOKEN_NOT_ASSOCIATED_TO_ACCOUNT"
text cannot_wipe_token_treasury_account = "CANNOT_WIPE_TOKEN_TREASURY_ACCOUNT"
text invalid_kyc_key = "INVALID_KYC_KEY"
text invalid_wipe_key = "INVALID_WIPE_KEY"
text invalid_freeze_key = "INVALID_FREEZE_KEY"
text invalid_supply_key = "INVALID_SUPPLY_KEY"
text missing_token_name = "MISSING_TOKEN_NAME"
text token_name_too_long = "TOKEN_NAME_TOO_LONG"
text invalid_wiping_amount = "INVALID_WIPING_AMOUNT"
text token_is_immutable = "TOKEN_IS_IMMUTABLE"
text token_already_associated_to_account = "TOKEN_ALREADY_ASSOCIATED_TO_ACCOUNT"
text transaction_requires_zero_token_balances = "TRANSACTION_REQUIRES_ZERO_TOKEN_BALANCES"
text account_is_treasury = "ACCOUNT_IS_TREASURY"
text token_id_repeated_in_token_list = "TOKEN_ID_REPEATED_IN_TOKEN_LIST"
text token_transfer_list_size_limit_exceeded = "TOKEN_TRANSFER_LIST_SIZE_LIMIT_EXCEEDED"
text empty_token_transfer_body = "EMPTY_TOKEN_TRANSFER_BODY"
text empty_token_transfer_account_amounts = "EMPTY_TOKEN_TRANSFER_ACCOUNT_AMOUNTS"
text invalid_schedule_id = "INVALID_SCHEDULE_ID"
text schedule_is_immutable = "SCHEDULE_IS_IMMUTABLE"
text invalid_schedule_payer_id = "INVALID_SCHEDULE_PAYER_ID"
text invalid_schedule_account_id = "INVALID_SCHEDULE_ACCOUNT_ID"
text no_new_valid_signatures = "NO_NEW_VALID_SIGNATURES"
text unresolvable_required_signers = "UNRESOLVABLE_REQUIRED_SIGNERS"
text scheduled_transaction_not_in_whitelist = "SCHEDULED_TRANSACTION_NOT_IN_WHITELIST"
text some_signatures_were_invalid = "SOME_SIGNATURES_WERE_INVALID"
text transaction_id_field_not_allowed = "TRANSACTION_ID_FIELD_NOT_ALLOWED"
text identical_schedule_already_created = "IDENTICAL_SCHEDULE_ALREADY_CREATED"
text invalid_zero_byte_in_string = "INVALID_ZERO_BYTE_IN_STRING"
text schedule_already_deleted = "SCHEDULE_ALREADY_DELETED"
text schedule_already_executed = "SCHEDULE_ALREADY_EXECUTED"
text message_size_too_large = "MESSAGE_SIZE_TOO_LARGE"
text operation_repeated_in_bucket_groups = "OPERATION_REPEATED_IN_BUCKET_GROUPS"
text bucket_capacity_overflow = "BUCKET_CAPACITY_OVERFLOW"
text node_capacity_not_sufficient_for_operation = "NODE_CAPACITY_NOT_SUFFICIENT_FOR_OPERATION"
text bucket_has_no_throttle_groups = "BUCKET_HAS_NO_THROTTLE_GROUPS"
text throttle_group_has_zero_ops_per_sec = "THROTTLE_GROUP_HAS_ZERO_OPS_PER_SEC"
text success_but_missing_expected_operation = "SUCCESS_BUT_MISSING_EXPECTED_OPERATION"
text unparseable_throttle_definitions = "UNPARSEABLE_THROTTLE_DEFINITIONS"
text invalid_throttle_definitions = "INVALID_THROTTLE_DEFINITIONS"
text account_expired_and_pending_removal = "ACCOUNT_EXPIRED_AND_PENDING_REMOVAL"
text invalid_token_max_supply = "INVALID_TOKEN_MAX_SUPPLY"
text invalid_token_nft_serial_number = "INVALID_TOKEN_NFT_SERIAL_NUMBER"
text invalid_nft_id = "INVALID_NFT_ID"
text metadata_too_long = "METADATA_TOO_LONG"
text batch_size_limit_exceeded = "BATCH_SIZE_LIMIT_EXCEEDED"
text invalid_query_range = "INVALID_QUERY_RANGE"
text fraction_divides_by_zero = "FRACTION_DIVIDES_BY_ZERO"
text insufficient_payer_balance_for_custom_fee = "INSUFFICIENT_PAYER_BALANCE_FOR_CUSTOM_FEE"
text custom_fees_list_too_long = "CUSTOM_FEES_LIST_TOO_LONG"
text invalid_custom_fee_collector = "INVALID_CUSTOM_FEE_COLLECTOR"
text invalid_token_id_in_custom_fees = "INVALID_TOKEN_ID_IN_CUSTOM_FEES"
text token_not_associated_to_fee_collector = "TOKEN_NOT_ASSOCIATED_TO_FEE_COLLECTOR"
text token_max_supply_reached = "TOKEN_MAX_SUPPLY_REACHED"
text sender_does_not_own_nft_serial_no = "SENDER_DOES_NOT_OWN_NFT_SERIAL_NO"
text custom_fee_not_fully_specified = "CUSTOM_FEE_NOT_FULLY_SPECIFIED"
text custom_fee_must_be_positive = "CUSTOM_FEE_MUST_BE_POSITIVE"
text token_has_no_fee_schedule_key = "TOKEN_HAS_NO_FEE_SCHEDULE_KEY"
text custom_fee_outside_numeric_range = "CUSTOM_FEE_OUTSIDE_NUMERIC_RANGE"
text royalty_fraction_cannot_exceed_one = "ROYALTY_FRACTION_CANNOT_EXCEED_ONE"
text fractional_fee_max_amount_less_than_min_amount =
    "FRACTIONAL_FEE_MAX_AMOUNT_LESS_THAN_MIN_AMOUNT"
text custom_schedule_already_has_no_fees = "CUSTOM_SCHEDULE_ALREADY_HAS_NO_FEES"
text custom_fee_denomination_must_be_fungible_common =
    "CUSTOM_FEE_DENOMINATION_MUST_BE_FUNGIBLE_COMMON"
text custom_fractional_fee_only_allowed_for_fungible_common =
    "CUSTOM_FRACTIONAL_FEE_ONLY_ALLOWED_FOR_FUNGIBLE_COMMON"
text invalid_custom_fee_schedule_key = "INVALID_CUSTOM_FEE_SCHEDULE_KEY"
text invalid_token_mint_metadata = "INVALID_TOKEN_MINT_METADATA"
text invalid_token_burn_metadata = "INVALID_TOKEN_BURN_METADATA"
text current_treasury_still_owns_nfts = "CURRENT_TREASURY_STILL_OWNS_NFTS"
text account_still_owns_nfts = "ACCOUNT_STILL_OWNS_NFTS"
text treasury_must_own_burned_nft = "TREASURY_MUST_OWN_BURNED_NFT"
text account_does_not_own_wiped_nft = "ACCOUNT_DOES_NOT_OWN_WIPED_NFT"
text account_amount_transfers_only_allowed_for_fungible_common =
    "ACCOUNT_AMOUNT_TRANSFERS_ONLY_ALLOWED_FOR_FUNGIBLE_COMMON"
text max_nfts_in_price_regime_have_been_minted = "MAX_NFTS_IN_PRICE_REGIME_HAVE_BEEN_MINTED"
text payer_account_deleted = "PAYER_ACCOUNT_DELETED"
text custom_fee_charging_exceeded_max_recursion_depth =
    "CUSTOM_FEE_CHARGING_EXCEEDED_MAX_RECURSION_DEPTH"
text custom_fee_charging_exceeded_max_account_amounts =
    "CUSTOM_FEE_CHARGING_EXCEEDED_MAX_ACCOUNT_AMOUNTS"
text insufficient_sender_account_balance_for_custom_fee =
    "INSUFFICIENT_SENDER_ACCOUNT_BALANCE_FOR_CUSTOM_FEE"
text serial_number_limit_reached = "SERIAL_NUMBER_LIMIT_REACHED"
text custom_royalty_fee_only_allowed_for_non_fungible_unique =
    "CUSTOM_ROYALTY_FEE_ONLY_ALLOWED_FOR_NON_FUNGIBLE_UNIQUE"
text no_remaining_automatic_associations = "NO_REMAINING_AUTOMATIC_ASSOCIATIONS"
text existing_automatic_associations_exceed_given_limit =
    "EXISTING_AUTOMATIC_ASSOCIATIONS_EXCEED_GIVEN_LIMIT"
text requested_num_automatic_associations_exceeds_association_limit =
    "REQUESTED_NUM_AUTOMATIC_ASSOCIATIONS_EXCEEDS_ASSOCIATION_LIMIT"
text token_is_paused = "TOKEN_IS_PAUSED"
text token_has_no_pause_key = "TOKEN_HAS_NO_PAUSE_KEY"
text invalid_pause_key = "INVALID_PAUSE_KEY"
text freeze_update_file_does_not_exist = "FREEZE_UPDATE_FILE_DOES_NOT_EXIST"
text freeze_update_file_hash_does_not_match = "FREEZE_UPDATE_FILE_HASH_DOES_NOT_MATCH"
text no_upgrade_has_been_prepared = "NO_UPGRADE_HAS_BEEN_PREPARED"
text no_freeze_is_scheduled = "NO_FREEZE_IS_SCHEDULED"
text update_file_hash_changed_since_prepare_upgrade =
    "UPDATE_FILE_HASH_CHANGED_SINCE_PREPARE_UPGRADE"
text freeze_start_time_must_be_future = "FREEZE_START_TIME_MUST_BE_FUTURE"
text prepared_update_file_is_immutable = "PREPARED_UPDATE_FILE_IS_IMMUTABLE"
text freeze_already_scheduled = "FREEZE_ALREADY_SCHEDULED"
text freeze_upgrade_in_progress = "FREEZE_UPGRADE_IN_PROGRESS"
text update_file_id_does_not_match_prepared = "UPDATE_FILE_ID_DOES_NOT_MATCH_PREPARED"
text update_file_hash_does_not_match_prepared = "UPDATE_FILE_HASH_DOES_NOT_MATCH_PREPARED"
text consensus_gas_exhausted = "CONSENSUS_GAS_EXHAUSTED"
text reverted_success = "REVERTED_SUCCESS"
text max_storage_in_price_regime_has_been_used = "MAX_STORAGE_IN_PRICE_REGIME_HAS_BEEN_USED"
text invalid_alias_key = "INVALID_ALIAS_KEY"
text unexpected_token_decimals = "UNEXPECTED_TOKEN_DECIMALS"
text invalid_proxy_account_id = "INVALID_PROXY_ACCOUNT_ID"
text invalid_transfer_account_id = "INVALID_TRANSFER_ACCOUNT_ID"
text invalid_fee_collector_account_id = "INVALID_FEE_COLLECTOR_ACCOUNT_ID"
text alias_is_immutable = "ALIAS_IS_IMMUTABLE"
text spender_account_same_as_owner = "SPENDER_ACCOUNT_SAME_AS_OWNER"
text amount_exceeds_token_max_supply = "AMOUNT_EXCEEDS_TOKEN_MAX_SUPPLY"
text negative_allowance_amount = "NEGATIVE_ALLOWANCE_AMOUNT"
text cannot_approve_for_all_fungible_common = "CANNOT_APPROVE_FOR_ALL_FUNGIBLE_COMMON"
text spender_does_not_have_allowance = "SPENDER_DOES_NOT_HAVE_ALLOWANCE"
text amount_exceeds_allowance = "AMOUNT_EXCEEDS_ALLOWANCE"
text max_allowances_exceeded = "MAX_ALLOWANCES_EXCEEDED"
text empty_allowances = "EMPTY_ALLOWANCES"
text spender_account_repeated_in_allowances = "SPENDER_ACCOUNT_REPEATED_IN_ALLOWANCES"
text repeated_serial_nums_in_nft_allowances = "REPEATED_SERIAL_NUMS_IN_NFT_ALLOWANCES"
text fungible_token_in_nft_allowances = "FUNGIBLE_TOKEN_IN_NFT_ALLOWANCES"
text nft_in_fungible_token_allowances = "NFT_IN_FUNGIBLE_TOKEN_ALLOWANCES"
text invalid_allowance_owner_id = "INVALID_ALLOWANCE_OWNER_ID"
text invalid_allowance_spender_id = "INVALID_ALLOWANCE_SPENDER_ID"
text repeated_allowances_to_delete = "REPEATED_ALLOWANCES_TO_DELETE"
text invalid_delegating_spender = "INVALID_DELEGATING_SPENDER"
text delegating_spender_cannot_grant_approve_for_all =
    "DELEGATING_SPENDER_CANNOT_GRANT_APPROVE_FOR_ALL"
text delegating_spender_does_not_have_approve_for_all =
    "DELEGATING_SPENDER_DOES_NOT_HAVE_APPROVE_FOR_ALL"
text schedule_expiration_time_too_far_in_future = "SCHEDULE_EXPIRATION_TIME_TOO_FAR_IN_FUTURE"
text schedule_expiration_time_must_be_higher_than_consensus_time =
    "SCHEDULE_EXPIRATION_TIME_MUST_BE_HIGHER_THAN_CONSENSUS_TIME"
text schedule_future_throttle_exceeded = "SCHEDULE_FUTURE_THROTTLE_EXCEEDED"
text schedule_future_gas_limit_exceeded = "SCHEDULE_FUTURE_GAS_LIMIT_EXCEEDED"
text invalid_ethereum_transaction = "INVALID_ETHEREUM_TRANSACTION"
text wrong_chain_id = "WRONG_CHAIN_ID"
text wrong_nonce = "WRONG_NONCE"
text access_list_unsupported = "ACCESS_LIST_UNSUPPORTED"
text schedule_pending_expiration = "SCHEDULE_PENDING_EXPIRATION"
text contract_is_token_treasury = "CONTRACT_IS_TOKEN_TREASURY"
text contract_has_non_zero_token_balances = "CONTRACT_HAS_NON_ZERO_TOKEN_BALANCES"
text contract_expired_and_pending_removal = "CONTRACT_EXPIRED_AND_PENDING_REMOVAL"
text contract_has_no_auto_renew_account = "CONTRACT_HAS_NO_AUTO_RENEW_ACCOUNT"
text permanent_removal_requires_system_initiation = "PERMANENT_REMOVAL_REQUIRES_SYSTEM_INITIATION"
text proxy_account_id_field_is_deprecated = "PROXY_ACCOUNT_ID_FIELD_IS_DEPRECATED"
text self_staking_is_not_allowed = "SELF_STAKING_IS_NOT_ALLOWED"
text invalid_staking_id = "INVALID_STAKING_ID"
text staking_not_enabled = "STAKING_NOT_ENABLED"
text invalid_prng_range = "INVALID_PRNG_RANGE"
text max_entities_in_price_regime_have_been_created =
    "MAX_ENTITIES_IN_PRICE_REGIME_HAVE_BEEN_CREATED"
text invalid_full_prefix_signature_for_precompile = "INVALID_FULL_PREFIX_SIGNATURE_FOR_PRECOMPILE"
text insufficient_balances_for_storage_rent = "INSUFFICIENT_BALANCES_FOR_STORAGE_RENT"
text max_child_records_exceeded = "MAX_CHILD_RECORDS_EXCEEDED"
text insufficient_balances_for_renewal_fees = "INSUFFICIENT_BALANCES_FOR_RENEWAL_FEES"
text transaction_has_unknown_fields = "TRANSACTION_HAS_UNKNOWN_FIELDS"
text account_is_immutable = "ACCOUNT_IS_IMMUTABLE"
text alias_already_assigned = "ALIAS_ALREADY_ASSIGNED"

texts : List (String × Status)
texts =
    ("OK", ok)
    ∷ ("INVALID_TRANSACTION", invalid_transaction)
    ∷ ("PAYER_ACCOUNT_NOT_FOUND", payer_account_not_found)
    ∷ ("INVALID_NODE_ACCOUNT", invalid_node_account)
    ∷ ("TRANSACTION_EXPIRED", transaction_expired)
    ∷ ("INVALID_TRANSACTION_START", invalid_transaction_start)
    ∷ ("INVALID_TRANSACTION_DURATION", invalid_transaction_duration)
    ∷ ("INVALID_SIGNATURE", invalid_signature)
    ∷ ("MEMO_TOO_LONG", memo_too_long)
    ∷ ("INSUFFICIENT_TX_FEE", insufficient_tx_fee)
    ∷ ("INSUFFICIENT_PAYER_BALANCE", insufficient_payer_balance)
    ∷ ("DUPLICATE_TRANSACTION", duplicate_transaction)
    ∷ ("BUSY", busy)
    ∷ ("NOT_SUPPORTED", not_supported)
    ∷ ("INVALID_FILE_ID", invalid_file_id)
    ∷ ("INVALID_ACCOUNT_ID", invalid_account_id)
    ∷ ("INVALID_CONTRACT_ID", invalid_contract_id)
    ∷ ("INVALID_TRANSACTION_ID", invalid_transaction_id)
    ∷ ("RECEIPT_NOT_FOUND", receipt_not_found)
    ∷ ("RECORD_NOT_FOUND", record_not_found)
    ∷ ("INVALID_SOLIDITY_ID", invalid_solidity_id)
    ∷ ("UNKNOWN", unknown)
    ∷ ("SUCCESS", success)
    ∷ ("FAIL_INVALID", fail_invalid)
    ∷ ("FAIL_FEE", fail_fee)
    ∷ ("FAIL_BALANCE", fail_balance)
    ∷ ("KEY_REQUIRED", key_required)
    ∷ ("BAD_ENCODING", bad_encoding)
    ∷ ("INSUFFICIENT_ACCOUNT_BALANCE", insufficient_account_balance)
    ∷ ("INVALID_SOLIDITY_ADDRESS", invalid_solidity_address)
    ∷ ("INSUFFICIENT_GAS", insufficient_gas)
    ∷ ("CONTRACT_SIZE_LIMIT_EXCEEDED", contract_size_limit_exceeded)
    ∷ ("LOCAL_CALL_MODIFICATION_EXCEPTION", local_call_modification_exception)
    ∷ ("CONTRACT_REVERT_EXECUTED", contract_revert_executed)
    ∷ ("CONTRACT_EXECUTION_EXCEPTION", contract_execution_exception)
    ∷ ("INVALID_RECEIVING_NODE_ACCOUNT", invalid_receiving_node_account)
    ∷ ("MISSING_QUERY_HEADER", missing_query_header)
    ∷ ("ACCOUNT_UPDATE_FAILED", account_update_failed)
    ∷ ("INVALID_KEY_ENCODING", invalid_key_encoding)
    ∷ ("NULL_SOLIDITY_ADDRESS", null_solidity_address)
    ∷ ("CONTRACT_UPDATE_FAILED", contract_update_failed)
    ∷ ("INVALID_QUERY_HEADER", invalid_query_header)
    ∷ ("INVALID_FEE_SUBMITTED", invalid_fee_submitted)
    ∷ ("INVALID_PAYER_SIGNATURE", invalid_payer_signature)
    ∷ ("KEY_NOT_PROVIDED", key_not_provided)
    ∷ ("INVALID_EXPIRATION_TIME", invalid_expiration_time)
    ∷ ("NO_WACL_KEY", no_wacl_key)
    ∷ ("FILE_CONTENT_EMPTY", file_content_empty)
    ∷ ("INVALID_ACCOUNT_AMOUNTS", invalid_account_amounts)
    ∷ ("EMPTY_TRANSACTION_BODY", empty_transaction_body)
    ∷ ("INVALID_TRANSACTION_BODY", invalid_transaction_body)
    ∷ ("INVALID_SIGNATURE_TYPE_MISMATCHING_KEY", invalid_signature_type_mismatching_key)
    ∷ ("INVALID_SIGNATURE_COUNT_MISMATCHING_KEY", invalid_signature_count_mismatching_key)
    ∷ ("EMPTY_LIVE_HASH_BODY", empty_live_hash_body)
    ∷ ("EMPTY_LIVE_HASH", empty_live_hash)
    ∷ ("EMPTY_LIVE_HASH_KEYS", empty_live_hash_keys)
    ∷ ("INVALID_LIVE_HASH_SIZE", invalid_live_hash_size)
    ∷ ("EMPTY_QUERY_BODY", empty_query_body)
    ∷ ("EMPTY_LIVE_HASH_QUERY", empty_live_hash_query)
    ∷ ("LIVE_HASH_NOT_FOUND", live_hash_not_found)
    ∷ ("ACCOUNT_ID_DOES_NOT_EXIST", account_id_does_not_exist)
    ∷ ("LIVE_HASH_ALREADY_EXISTS", live_hash_already_exists)
    ∷ ("INVALID_FILE_WACL", invalid_file_wacl)
    ∷ ("SERIALIZATION_FAILED", serialization_failed)
    ∷ ("TRANSACTION_OVERSIZE", transaction_oversize)
    ∷ ("TRANSACTION_TOO_MANY_LAYERS", transaction_too_many_layers)
    ∷ ("CONTRACT_DELETED", contract_deleted)
    ∷ ("PLATFORM_NOT_ACTIVE", platform_not_active)
    ∷ ("KEY_PREFIX_MISMATCH", key_prefix_mismatch)
    ∷ ("PLATFORM_TRANSACTION_NOT_CREATED", platform_transaction_not_created)
    ∷ ("INVALID_RENEWAL_PERIOD", invalid_renewal_period)
    ∷ ("INVALID_PAYER_ACCOUNT_ID", invalid_payer_account_id)
    ∷ ("ACCOUNT_DELETED", account_deleted)
    ∷ ("FILE_DELETED", file_deleted)
    ∷ ("ACCOUNT_REPEATED_IN_ACCOUNT_AMOUNTS", account_repeated_in_account_amounts)
    ∷ ("SETTING_NEGATIVE_ACCOUNT_BALANCE", setting_negative_account_balance)
    ∷ ("OBTAINER_REQUIRED", obtainer_required)
    ∷ ("OBTAINER_SAME_CONTRACT_ID", obtainer_same_contract_id)
    ∷ ("OBTAINER_DOES_NOT_EXIST", obtainer_does_not_exist)
    ∷ ("MODIFYING_IMMUTABLE_CONTRACT", modifying_immutable_contract)
    ∷ ("FILE_SYSTEM_EXCEPTION", file_system_exception)
    ∷ ("AUTORENEW_DURATION_NOT_IN_RANGE", autorenew_duration_not_in_range)
    ∷ ("ERROR_DECODING_BYTESTRING", error_decoding_bytestring)
    ∷ ("CONTRACT_FILE_EMPTY", contract_file_empty)
    ∷ ("CONTRACT_BYTECODE_EMPTY", contract_bytecode_empty)
    ∷ ("INVALID_INITIAL_BALANCE", invalid_initial_balance)
    ∷ ("INVALID_RECEIVE_RECORD_THRESHOLD", invalid_receive_record_threshold)
    ∷ ("INVALID_SEND_RECORD_THRESHOLD", invalid_send_record_threshold)
    ∷ ("ACCOUNT_IS_NOT_GENESIS_ACCOUNT", account_is_not_genesis_account)
    ∷ ("PAYER_ACCOUNT_UNAUTHORIZED", payer_account_unauthorized)
    ∷ ("INVALID_FREEZE_TRANSACTION_BODY", invalid_freeze_transaction_body)
    ∷ ("FREEZE_TRANSACTION_BODY_NOT_FOUND", freeze_transaction_body_not_found)
    ∷ ("TRANSFER_LIST_SIZE_LIMIT_EXCEEDED", transfer_list_size_limit_exceeded)
    ∷ ("RESULT_SIZE_LIMIT_EXCEEDED", result_size_limit_exceeded)
    ∷ ("NOT_SPECIAL_ACCOUNT", not_special_account)
    ∷ ("CONTRACT_NEGATIVE_GAS", contract_negative_gas)
    ∷ ("CONTRACT_NEGATIVE_VALUE", contract_negative_value)
    ∷ ("INVALID_FEE_FILE", invalid_fee_file)
    ∷ ("INVALID_EXCHANGE_RATE_FILE", invalid_exchange_rate_file)
    ∷ ("INSUFFICIENT_LOCAL_CALL_GAS", insufficient_local_call_gas)
    ∷ ("ENTITY_NOT_ALLOWED_TO_DELETE", entity_not_allowed_to_delete)
    ∷ ("AUTHORIZATION_FAILED", authorization_failed)
    ∷ ("FILE_UPLOADED_PROTO_INVALID", file_uploaded_proto_invalid)
    ∷ ("FILE_UPLOADED_PROTO_NOT_SAVED_TO_DISK", file_uploaded_proto_not_saved_to_disk)
    ∷ ("FEE_SCHEDULE_FILE_PART_UPLOADED", fee_schedule_file_part_uploaded)
    ∷ ("EXCHANGE_RATE_CHANGE_LIMIT_EXCEEDED", exchange_rate_change_limit_exceeded)
    ∷ ("MAX_CONTRACT_STORAGE_EXCEEDED", max_contract_storage_exceeded)
    ∷ ("TRANSFER_ACCOUNT_SAME_AS_DELETE_ACCOUNT", transfer_account_same_as_delete_account)
    ∷ ("TOTAL_LEDGER_BALANCE_INVALID", total_ledger_balance_invalid)
    ∷ ("EXPIRATION_REDUCTION_NOT_ALLOWED", expiration_reduction_not_allowed)
    ∷ ("MAX_GAS_LIMIT_EXCEEDED", max_gas_limit_exceeded)
    ∷ ("MAX_FILE_SIZE_EXCEEDED", max_file_size_exceeded)
    ∷ ("RECEIVER_SIG_REQUIRED", receiver_sig_required)
    ∷ ("INVALID_TOPIC_ID", invalid_topic_id)
    ∷ ("INVALID_ADMIN_KEY", invalid_admin_key)
    ∷ ("INVALID_SUBMIT_KEY", invalid_submit_key)
    ∷ ("UNAUTHORIZED", unauthorized)
    ∷ ("INVALID_TOPIC_MESSAGE", invalid_topic_message)
    ∷ ("INVALID_AUTORENEW_ACCOUNT", invalid_autorenew_account)
    ∷ ("AUTORENEW_ACCOUNT_NOT_ALLOWED", autorenew_account_not_allowed)
    ∷ ("TOPIC_EXPIRED", topic_expired)
    ∷ ("INVALID_CHUNK_NUMBER", invalid_chunk_number)
    ∷ ("INVALID_CHUNK_TRANSACTION_ID", invalid_chunk_transaction_id)
    ∷ ("ACCOUNT_FROZEN_FOR_TOKEN", account_frozen_for_token)
    ∷ ("TOKENS_PER_ACCOUNT_LIMIT_EXCEEDED", tokens_per_account_limit_exceeded)
    ∷ ("INVALID_TOKEN_ID", invalid_token_id)
    ∷ ("INVALID_TOKEN_DECIMALS", invalid_token_decimals)
    ∷ ("INVALID_TOKEN_INITIAL_SUPPLY", invalid_token_initial_supply)
    ∷ ("INVALID_TREASURY_ACCOUNT_FOR_TOKEN", invalid_treasury_account_for_token)
    ∷ ("INVALID_TOKEN_SYMBOL", invalid_token_symbol)
    ∷ ("TOKEN_HAS_NO_FREEZE_KEY", token_has_no_freeze_key)
    ∷ ("TRANSFERS_NOT_ZERO_SUM_FOR_TOKEN", transfers_not_zero_sum_for_token)
    ∷ ("MISSING_TOKEN_SYMBOL", missing_token_symbol)
    ∷ ("TOKEN_SYMBOL_TOO_LONG", token_symbol_too_long)
    ∷ ("ACCOUNT_KYC_NOT_GRANTED_FOR_TOKEN", account_kyc_not_granted_for_token)
    ∷ ("TOKEN_HAS_NO_KYC_KEY", token_has_no_kyc_key)
    ∷ ("INSUFFICIENT_TOKEN_BALANCE", insufficient_token_balance)
    ∷ ("TOKEN_WAS_DELETED", token_was_deleted)
    ∷ ("TOKEN_HAS_NO_SUPPLY_KEY", token_has_no_supply_key)
    ∷ ("TOKEN_HAS_NO_WIPE_KEY", token_has_no_wipe_key)
    ∷ ("INVALID_TOKEN_MINT_AMOUNT", invalid_token_mint_amount)
    ∷ ("INVALID_TOKEN_BURN_AMOUNT", invalid_token_burn_amount)
    ∷ ("TOKEN_NOT_ASSOCIATED_TO_ACCOUNT", token_not_associated_to_account)
    ∷ ("CANNOT_WIPE_TOKEN_TREASURY_ACCOUNT", cannot_wipe_token_treasury_account)
    ∷ ("INVALID_KYC_KEY", invalid_kyc_key)
    ∷ ("INVALID_WIPE_KEY", invalid_wipe_key)
    ∷ ("INVALID_FREEZE_KEY", invalid_freeze_key)
    ∷ ("INVALID_SUPPLY_KEY", invalid_supply_key)
    ∷ ("MISSING_TOKEN_NAME", missing_token_name)
    ∷ ("TOKEN_NAME_TOO_LONG", token_name_too_long)
    ∷ ("INVALID_WIPING_AMOUNT", invalid_wiping_amount)
    ∷ ("TOKEN_IS_IMMUTABLE", token_is_immutable)
    ∷ ("TOKEN_ALREADY_ASSOCIATED_TO_ACCOUNT", token_already_associated_to_account)
    ∷ ("TRANSACTION_REQUIRES_ZERO_TOKEN_BALANCES", transaction_requires_zero_token_balances)
    ∷ ("ACCOUNT_IS_TREASURY", account_is_treasury)
    ∷ ("TOKEN_ID_REPEATED_IN_TOKEN_LIST", token_id_repeated_in_token_list)
    ∷ ("TOKEN_TRANSFER_LIST_SIZE_LIMIT_EXCEEDED", token_transfer_list_size_limit_exceeded)
    ∷ ("EMPTY_TOKEN_TRANSFER_BODY", empty_token_transfer_body)
    ∷ ("EMPTY_TOKEN_TRANSFER_ACCOUNT_AMOUNTS", empty_token_transfer_account_amounts)
    ∷ ("INVALID_SCHEDULE_ID", invalid_schedule_id)
    ∷ ("SCHEDULE_IS_IMMUTABLE", schedule_is_immutable)
    ∷ ("INVALID_SCHEDULE_PAYER_ID", invalid_schedule_payer_id)
    ∷ ("INVALID_SCHEDULE_ACCOUNT_ID", invalid_schedule_account_id)
    ∷ ("NO_NEW_VALID_SIGNATURES", no_new_valid_signatures)
    ∷ ("UNRESOLVABLE_REQUIRED_SIGNERS", unresolvable_required_signers)
    ∷ ("SCHEDULED_TRANSACTION_NOT_IN_WHITELIST", scheduled_transaction_not_in_whitelist)
    ∷ ("SOME_SIGNATURES_WERE_INVALID", some_signatures_were_invalid)
    ∷ ("TRANSACTION_ID_FIELD_NOT_ALLOWED", transaction_id_field_not_allowed)
    ∷ ("IDENTICAL_SCHEDULE_ALREADY_CREATED", identical_schedule_already_created)
    ∷ ("INVALID_ZERO_BYTE_IN_STRING", invalid_zero_byte_in_string)
    ∷ ("SCHEDULE_ALREADY_DELETED", schedule_already_deleted)
    ∷ ("SCHEDULE_ALREADY_EXECUTED", schedule_already_executed)
    ∷ ("MESSAGE_SIZE_TOO_LARGE", message_size_too_large)
    ∷ ("OPERATION_REPEATED_IN_BUCKET_GROUPS", operation_repeated_in_bucket_groups)
    ∷ ("BUCKET_CAPACITY_OVERFLOW", bucket_capacity_overflow)
    ∷ ("NODE_CAPACITY_NOT_SUFFICIENT_FOR_OPERATION", node_capacity_not_sufficient_for_operation)
    ∷ ("BUCKET_HAS_NO_THROTTLE_GROUPS", bucket_has_no_throttle_groups)
    ∷ ("THROTTLE_GROUP_HAS_ZERO_OPS_PER_SEC", throttle_group_has_zero_ops_per_sec)
    ∷ ("SUCCESS_BUT_MISSING_EXPECTED_OPERATION", success_but_missing_expected_operation)
    ∷ ("UNPARSEABLE_THROTTLE_DEFINITIONS", unparseable_throttle_definitions)
    ∷ ("INVALID_THROTTLE_DEFINITIONS", invalid_throttle_definitions)
    ∷ ("ACCOUNT_EXPIRED_AND_PENDING_REMOVAL", account_expired_and_pending_removal)
    ∷ ("INVALID_TOKEN_MAX_SUPPLY", invalid_token_max_supply)
    ∷ ("INVALID_TOKEN_NFT_SERIAL_NUMBER", invalid_token_nft_serial_number)
    ∷ ("INVALID_NFT_ID", invalid_nft_id)
    ∷ ("METADATA_TOO_LONG", metadata_too_long)
    ∷ ("BATCH_SIZE_LIMIT_EXCEEDED", batch_size_limit_exceeded)
    ∷ ("INVALID_QUERY_RANGE", invalid_query_range)
    ∷ ("FRACTION_DIVIDES_BY_ZERO", fraction_divides_by_zero)
    ∷ ("INSUFFICIENT_PAYER_BALANCE_FOR_CUSTOM_FEE", insufficient_payer_balance_for_custom_fee)
    ∷ ("CUSTOM_FEES_LIST_TOO_LONG", custom_fees_list_too_long)
    ∷ ("INVALID_CUSTOM_FEE_COLLECTOR", invalid_custom_fee_collector)
    ∷ ("INVALID_TOKEN_ID_IN_CUSTOM_FEES", invalid_token_id_in_custom_fees)
    ∷ ("TOKEN_NOT_ASSOCIATED_TO_FEE_COLLECTOR", token_not_associated_to_fee_collector)
    ∷ ("TOKEN_MAX_SUPPLY_REACHED", token_max_supply_reached)
    ∷ ("SENDER_DOES_NOT_OWN_NFT_SERIAL_NO", sender_does_not_own_nft_serial_no)
    ∷ ("CUSTOM_FEE_NOT_FULLY_SPECIFIED", custom_fee_not_fully_specified)
    ∷ ("CUSTOM_FEE_MUST_BE_POSITIVE", custom_fee_must_be_positive)
    ∷ ("TOKEN_HAS_NO_FEE_SCHEDULE_KEY", token_has_no_fee_schedule_key)
    ∷ ("CUSTOM_FEE_OUTSIDE_NUMERIC_RANGE", custom_fee_outside_numeric_range)
    ∷ ("ROYALTY_FRACTION_CANNOT_EXCEED_ONE", royalty_fraction_cannot_exceed_one)
    ∷ (
      "FRACTIONAL_FEE_MAX_AMOUNT_LESS_THAN_MIN_AMOUNT",
      fractional_fee_max_amount_less_than_min_amount,
    )
    ∷ ("CUSTOM_SCHEDULE_ALREADY_HAS_NO_FEES", custom_schedule_already_has_no_fees)
    ∷ (
      "CUSTOM_FEE_DENOMINATION_MUST_BE_FUNGIBLE_COMMON",
      custom_fee_denomination_must_be_fungible_common,
    )
    ∷ (
      "CUSTOM_FRACTIONAL_FEE_ONLY_ALLOWED_FOR_FUNGIBLE_COMMON",
      custom_fractional_fee_only_allowed_for_fungible_common,
    )
    ∷ ("INVALID_CUSTOM_FEE_SCHEDULE_KEY", invalid_custom_fee_schedule_key)
    ∷ ("INVALID_TOKEN_MINT_METADATA", invalid_token_mint_metadata)
    ∷ ("INVALID_TOKEN_BURN_METADATA", invalid_token_burn_metadata)
    ∷ ("CURRENT_TREASURY_STILL_OWNS_NFTS", current_treasury_still_owns_nfts)
    ∷ ("ACCOUNT_STILL_OWNS_NFTS", account_still_owns_nfts)
    ∷ ("TREASURY_MUST_OWN_BURNED_NFT", treasury_must_own_burned_nft)
    ∷ ("ACCOUNT_DOES_NOT_OWN_WIPED_NFT", account_does_not_own_wiped_nft)
    ∷ (
      "ACCOUNT_AMOUNT_TRANSFERS_ONLY_ALLOWED_FOR_FUNGIBLE_COMMON",
      account_amount_transfers_only_allowed_for_fungible_common,
    )
    ∷ ("MAX_NFTS_IN_PRICE_REGIME_HAVE_BEEN_MINTED", max_nfts_in_price_regime_have_been_minted)
    ∷ ("PAYER_ACCOUNT_DELETED", payer_account_deleted)
    ∷ (
      "CUSTOM_FEE_CHARGING_EXCEEDED_MAX_RECURSION_DEPTH",
      custom_fee_charging_exceeded_max_recursion_depth,
    )
    ∷ (
      "CUSTOM_FEE_CHARGING_EXCEEDED_MAX_ACCOUNT_AMOUNTS",
      custom_fee_charging_exceeded_max_account_amounts,
    )
    ∷ (
      "INSUFFICIENT_SENDER_ACCOUNT_BALANCE_FOR_CUSTOM_FEE",
      insufficient_sender_account_balance_for_custom_fee,
    )
    ∷ ("SERIAL_NUMBER_LIMIT_REACHED", serial_number_limit_reached)
    ∷ (
      "CUSTOM_ROYALTY_FEE_ONLY_ALLOWED_FOR_NON_FUNGIBLE_UNIQUE",
      custom_royalty_fee_only_allowed_for_non_fungible_unique,
    )
    ∷ ("NO_REMAINING_AUTOMATIC_ASSOCIATIONS", no_remaining_automatic_associations)
    ∷ (
      "EXISTING_AUTOMATIC_ASSOCIATIONS_EXCEED_GIVEN_LIMIT",
      existing_automatic_associations_exceed_given_limit,
    )
    ∷ (
      "REQUESTED_NUM_AUTOMATIC_ASSOCIATIONS_EXCEEDS_ASSOCIATION_LIMIT",
      requested_num_automatic_associations_exceeds_association_limit,
    )
    ∷ ("TOKEN_IS_PAUSED", token_is_paused)
    ∷ ("TOKEN_HAS_NO_PAUSE_KEY", token_has_no_pause_key)
    ∷ ("INVALID_PAUSE_KEY", invalid_pause_key)
    ∷ ("FREEZE_UPDATE_FILE_DOES_NOT_EXIST", freeze_update_file_does_not_exist)
    ∷ ("FREEZE_UPDATE_FILE_HASH_DOES_NOT_MATCH", freeze_update_file_hash_does_not_match)
    ∷ ("NO_UPGRADE_HAS_BEEN_PREPARED", no_upgrade_has_been_prepared)
    ∷ ("NO_FREEZE_IS_SCHEDULED", no_freeze_is_scheduled)
    ∷ (
      "UPDATE_FILE_HASH_CHANGED_SINCE_PREPARE_UPGRADE",
      update_file_hash_changed_since_prepare_upgrade,
    )
    ∷ ("FREEZE_START_TIME_MUST_BE_FUTURE", freeze_start_time_must_be_future)
    ∷ ("PREPARED_UPDATE_FILE_IS_IMMUTABLE", prepared_update_file_is_immutable)
    ∷ ("FREEZE_ALREADY_SCHEDULED", freeze_already_scheduled)
    ∷ ("FREEZE_UPGRADE_IN_PROGRESS", freeze_upgrade_in_progress)
    ∷ ("UPDATE_FILE_ID_DOES_NOT_MATCH_PREPARED", update_file_id_does_not_match_prepared)
    ∷ ("UPDATE_FILE_HASH_DOES_NOT_MATCH_PREPARED", update_file_hash_does_not_match_prepared)
    ∷ ("CONSENSUS_GAS_EXHAUSTED", consensus_gas_exhausted)
    ∷ ("REVERTED_SUCCESS", reverted_success)
    ∷ ("MAX_STORAGE_IN_PRICE_REGIME_HAS_BEEN_USED", max_storage_in_price_regime_has_been_used)
    ∷ ("INVALID_ALIAS_KEY", invalid_alias_key)
    ∷ ("UNEXPECTED_TOKEN_DECIMALS", unexpected_token_decimals)
    ∷ ("INVALID_PROXY_ACCOUNT_ID", invalid_proxy_account_id)
    ∷ ("INVALID_TRANSFER_ACCOUNT_ID", invalid_transfer_account_id)
    ∷ ("INVALID_FEE_COLLECTOR_ACCOUNT_ID", invalid_fee_collector_account_id)
    ∷ ("ALIAS_IS_IMMUTABLE", alias_is_immutable)
    ∷ ("SPENDER_ACCOUNT_SAME_AS_OWNER", spender_account_same_as_owner)
    ∷ ("AMOUNT_EXCEEDS_TOKEN_MAX_SUPPLY", amount_exceeds_token_max_supply)
    ∷ ("NEGATIVE_ALLOWANCE_AMOUNT", negative_allowance_amount)
    ∷ ("CANNOT_APPROVE_FOR_ALL_FUNGIBLE_COMMON", cannot_approve_for_all_fungible_common)
    ∷ ("SPENDER_DOES_NOT_HAVE_ALLOWANCE", spender_does_not_have_allowance)
    ∷ ("AMOUNT_EXCEEDS_ALLOWANCE", amount_exceeds_allowance)
    ∷ ("MAX_ALLOWANCES_EXCEEDED", max_allowances_exceeded)
    ∷ ("EMPTY_ALLOWANCES", empty_allowances)
    ∷ ("SPENDER_ACCOUNT_REPEATED_IN_ALLOWANCES", spender_account_repeated_in_allowances)
    ∷ ("REPEATED_SERIAL_NUMS_IN_NFT_ALLOWANCES", repeated_serial_nums_in_nft_allowances)
    ∷ ("FUNGIBLE_TOKEN_IN_NFT_ALLOWANCES", fungible_token_in_nft_allowances)
    ∷ ("NFT_IN_FUNGIBLE_TOKEN_ALLOWANCES", nft_in_fungible_token_allowances)
    ∷ ("INVALID_ALLOWANCE_OWNER_ID", invalid_allowance_owner_id)
    ∷ ("INVALID_ALLOWANCE_SPENDER_ID", invalid_allowance_spender_id)
    ∷ ("REPEATED_ALLOWANCES_TO_DELETE", repeated_allowances_to_delete)
    ∷ ("INVALID_DELEGATING_SPENDER", invalid_delegating_spender)
    ∷ (
      "DELEGATING_SPENDER_CANNOT_GRANT_APPROVE_FOR_ALL",
      delegating_spender_cannot_grant_approve_for_all,
    )
    ∷ (
      "DELEGATING_SPENDER_DOES_NOT_HAVE_APPROVE_FOR_ALL",
      delegating_spender_does_not_have_approve_for_all,
    )
    ∷ ("SCHEDULE_EXPIRATION_TIME_TOO_FAR_IN_FUTURE", schedule_expiration_time_too_far_in_future)
    ∷ (
      "SCHEDULE_EXPIRATION_TIME_MUST_BE_HIGHER_THAN_CONSENSUS_TIME",
      schedule_expiration_time_must_be_higher_than_consensus_time,
    )
    ∷ ("SCHEDULE_FUTURE_THROTTLE_EXCEEDED", schedule_future_throttle_exceeded)
    ∷ ("SCHEDULE_FUTURE_GAS_LIMIT_EXCEEDED", schedule_future_gas_limit_exceeded)
    ∷ ("INVALID_ETHEREUM_TRANSACTION", invalid_ethereum_transaction)
    ∷ ("WRONG_CHAIN_ID", wrong_chain_id)
    ∷ ("WRONG_NONCE", wrong_nonce)
    ∷ ("ACCESS_LIST_UNSUPPORTED", access_list_unsupported)
    ∷ ("SCHEDULE_PENDING_EXPIRATION", schedule_pending_expiration)
    ∷ ("CONTRACT_IS_TOKEN_TREASURY", contract_is_token_treasury)
    ∷ ("CONTRACT_HAS_NON_ZERO_TOKEN_BALANCES", contract_has_non_zero_token_balances)
    ∷ ("CONTRACT_EXPIRED_AND_PENDING_REMOVAL", contract_expired_and_pending_removal)
    ∷ ("CONTRACT_HAS_NO_AUTO_RENEW_ACCOUNT", contract_has_no_auto_renew_account)
    ∷ ("PERMANENT_REMOVAL_REQUIRES_SYSTEM_INITIATION", permanent_removal_requires_system_initiation)
    ∷ ("PROXY_ACCOUNT_ID_FIELD_IS_DEPRECATED", proxy_account_id_field_is_deprecated)
    ∷ ("SELF_STAKING_IS_NOT_ALLOWED", self_staking_is_not_allowed)
    ∷ ("INVALID_STAKING_ID", invalid_staking_id)
    ∷ ("STAKING_NOT_ENABLED", staking_not_enabled)
    ∷ ("INVALID_PRNG_RANGE", invalid_prng_range)
    ∷ (
      "MAX_ENTITIES_IN_PRICE_REGIME_HAVE_BEEN_CREATED",
      max_entities_in_price_regime_have_been_created,
    )
    ∷ ("INVALID_FULL_PREFIX_SIGNATURE_FOR_PRECOMPILE", invalid_full_prefix_signature_for_precompile)
    ∷ ("INSUFFICIENT_BALANCES_FOR_STORAGE_RENT", insufficient_balances_for_storage_rent)
    ∷ ("MAX_CHILD_RECORDS_EXCEEDED", max_child_records_exceeded)
    ∷ ("INSUFFICIENT_BALANCES_FOR_RENEWAL_FEES", insufficient_balances_for_renewal_fees)
    ∷ ("TRANSACTION_HAS_UNKNOWN_FIELDS", transaction_has_unknown_fields)
    ∷ ("ACCOUNT_IS_IMMUTABLE", account_is_immutable)
    ∷ ("ALIAS_ALREADY_ASSIGNED", alias_already_assigned)
    ∷ []

find_text-text : (s : Status) → find_text (text s) texts ≡ some s
unfolding find_text text texts
find_text-text ok = refl
find_text-text invalid_transaction = refl
find_text-text payer_account_not_found = refl
find_text-text invalid_node_account = refl
find_text-text transaction_expired = refl
find_text-text invalid_transaction_start = refl
find_text-text invalid_transaction_duration = refl
find_text-text invalid_signature = refl
find_text-text memo_too_long = refl
find_text-text insufficient_tx_fee = refl
find_text-text insufficient_payer_balance = refl
find_text-text duplicate_transaction = refl
find_text-text busy = refl
find_text-text not_supported = refl
find_text-text invalid_file_id = refl
find_text-text invalid_account_id = refl
find_text-text invalid_contract_id = refl
find_text-text invalid_transaction_id = refl
find_text-text receipt_not_found = refl
find_text-text record_not_found = refl
find_text-text invalid_solidity_id = refl
find_text-text unknown = refl
find_text-text success = refl
find_text-text fail_invalid = refl
find_text-text fail_fee = refl
find_text-text fail_balance = refl
find_text-text key_required = refl
find_text-text bad_encoding = refl
find_text-text insufficient_account_balance = refl
find_text-text invalid_solidity_address = refl
find_text-text insufficient_gas = refl
find_text-text contract_size_limit_exceeded = refl
find_text-text local_call_modification_exception = refl
find_text-text contract_revert_executed = refl
find_text-text contract_execution_exception = refl
find_text-text invalid_receiving_node_account = refl
find_text-text missing_query_header = refl
find_text-text account_update_failed = refl
find_text-text invalid_key_encoding = refl
find_text-text null_solidity_address = refl
find_text-text contract_update_failed = refl
find_text-text invalid_query_header = refl
find_text-text invalid_fee_submitted = refl
find_text-text invalid_payer_signature = refl
find_text-text key_not_provided = refl
find_text-text invalid_expiration_time = refl
find_text-text no_wacl_key = refl
find_text-text file_content_empty = refl
find_text-text invalid_account_amounts = refl
find_text-text empty_transaction_body = refl
find_text-text invalid_transaction_body = refl
find_text-text invalid_signature_type_mismatching_key = refl
find_text-text invalid_signature_count_mismatching_key = refl
find_text-text empty_live_hash_body = refl
find_text-text empty_live_hash = refl
find_text-text empty_live_hash_keys = refl
find_text-text invalid_live_hash_size = refl
find_text-text empty_query_body = refl
find_text-text empty_live_hash_query = refl
find_text-text live_hash_not_found = refl
find_text-text account_id_does_not_exist = refl
find_text-text live_hash_already_exists = refl
find_text-text invalid_file_wacl = refl
find_text-text serialization_failed = refl
find_text-text transaction_oversize = refl
find_text-text transaction_too_many_layers = refl
find_text-text contract_deleted = refl
find_text-text platform_not_active = refl
find_text-text key_prefix_mismatch = refl
find_text-text platform_transaction_not_created = refl
find_text-text invalid_renewal_period = refl
find_text-text invalid_payer_account_id = refl
find_text-text account_deleted = refl
find_text-text file_deleted = refl
find_text-text account_repeated_in_account_amounts = refl
find_text-text setting_negative_account_balance = refl
find_text-text obtainer_required = refl
find_text-text obtainer_same_contract_id = refl
find_text-text obtainer_does_not_exist = refl
find_text-text modifying_immutable_contract = refl
find_text-text file_system_exception = refl
find_text-text autorenew_duration_not_in_range = refl
find_text-text error_decoding_bytestring = refl
find_text-text contract_file_empty = refl
find_text-text contract_bytecode_empty = refl
find_text-text invalid_initial_balance = refl
find_text-text invalid_receive_record_threshold = refl
find_text-text invalid_send_record_threshold = refl
find_text-text account_is_not_genesis_account = refl
find_text-text payer_account_unauthorized = refl
find_text-text invalid_freeze_transaction_body = refl
find_text-text freeze_transaction_body_not_found = refl
find_text-text transfer_list_size_limit_exceeded = refl
find_text-text result_size_limit_exceeded = refl
find_text-text not_special_account = refl
find_text-text contract_negative_gas = refl
find_text-text contract_negative_value = refl
find_text-text invalid_fee_file = refl
find_text-text invalid_exchange_rate_file = refl
find_text-text insufficient_local_call_gas = refl
find_text-text entity_not_allowed_to_delete = refl
find_text-text authorization_failed = refl
find_text-text file_uploaded_proto_invalid = refl
find_text-text file_uploaded_proto_not_saved_to_disk = refl
find_text-text fee_schedule_file_part_uploaded = refl
find_text-text exchange_rate_change_limit_exceeded = refl
find_text-text max_contract_storage_exceeded = refl
find_text-text transfer_account_same_as_delete_account = refl
find_text-text total_ledger_balance_invalid = refl
find_text-text expiration_reduction_not_allowed = refl
find_text-text max_gas_limit_exceeded = refl
find_text-text max_file_size_exceeded = refl
find_text-text receiver_sig_required = refl
find_text-text invalid_topic_id = refl
find_text-text invalid_admin_key = refl
find_text-text invalid_submit_key = refl
find_text-text unauthorized = refl
find_text-text invalid_topic_message = refl
find_text-text invalid_autorenew_account = refl
find_text-text autorenew_account_not_allowed = refl
find_text-text topic_expired = refl
find_text-text invalid_chunk_number = refl
find_text-text invalid_chunk_transaction_id = refl
find_text-text account_frozen_for_token = refl
find_text-text tokens_per_account_limit_exceeded = refl
find_text-text invalid_token_id = refl
find_text-text invalid_token_decimals = refl
find_text-text invalid_token_initial_supply = refl
find_text-text invalid_treasury_account_for_token = refl
find_text-text invalid_token_symbol = refl
find_text-text token_has_no_freeze_key = refl
find_text-text transfers_not_zero_sum_for_token = refl
find_text-text missing_token_symbol = refl
find_text-text token_symbol_too_long = refl
find_text-text account_kyc_not_granted_for_token = refl
find_text-text token_has_no_kyc_key = refl
find_text-text insufficient_token_balance = refl
find_text-text token_was_deleted = refl
find_text-text token_has_no_supply_key = refl
find_text-text token_has_no_wipe_key = refl
find_text-text invalid_token_mint_amount = refl
find_text-text invalid_token_burn_amount = refl
find_text-text token_not_associated_to_account = refl
find_text-text cannot_wipe_token_treasury_account = refl
find_text-text invalid_kyc_key = refl
find_text-text invalid_wipe_key = refl
find_text-text invalid_freeze_key = refl
find_text-text invalid_supply_key = refl
find_text-text missing_token_name = refl
find_text-text token_name_too_long = refl
find_text-text invalid_wiping_amount = refl
find_text-text token_is_immutable = refl
find_text-text token_already_associated_to_account = refl
find_text-text transaction_requires_zero_token_balances = refl
find_text-text account_is_treasury = refl
find_text-text token_id_repeated_in_token_list = refl
find_text-text token_transfer_list_size_limit_exceeded = refl
find_text-text empty_token_transfer_body = refl
find_text-text empty_token_transfer_account_amounts = refl
find_text-text invalid_schedule_id = refl
find_text-text schedule_is_immutable = refl
find_text-text invalid_schedule_payer_id = refl
find_text-text invalid_schedule_account_id = refl
find_text-text no_new_valid_signatures = refl
find_text-text unresolvable_required_signers = refl
find_text-text scheduled_transaction_not_in_whitelist = refl
find_text-text some_signatures_were_invalid = refl
find_text-text transaction_id_field_not_allowed = refl
find_text-text identical_schedule_already_created = refl
find_text-text invalid_zero_byte_in_string = refl
find_text-text schedule_already_deleted = refl
find_text-text schedule_already_executed = refl
find_text-text message_size_too_large = refl
find_text-text operation_repeated_in_bucket_groups = refl
find_text-text bucket_capacity_overflow = refl
find_text-text node_capacity_not_sufficient_for_operation = refl
find_text-text bucket_has_no_throttle_groups = refl
find_text-text throttle_group_has_zero_ops_per_sec = refl
find_text-text success_but_missing_expected_operation = refl
find_text-text unparseable_throttle_definitions = refl
find_text-text invalid_throttle_definitions = refl
find_text-text account_expired_and_pending_removal = refl
find_text-text invalid_token_max_supply = refl
find_text-text invalid_token_nft_serial_number = refl
find_text-text invalid_nft_id = refl
find_text-text metadata_too_long = refl
find_text-text batch_size_limit_exceeded = refl
find_text-text invalid_query_range = refl
find_text-text fraction_divides_by_zero = refl
find_text-text insufficient_payer_balance_for_custom_fee = refl
find_text-text custom_fees_list_too_long = refl
find_text-text invalid_custom_fee_collector = refl
find_text-text invalid_token_id_in_custom_fees = refl
find_text-text token_not_associated_to_fee_collector = refl
find_text-text token_max_supply_reached = refl
find_text-text sender_does_not_own_nft_serial_no = refl
find_text-text custom_fee_not_fully_specified = refl
find_text-text custom_fee_must_be_positive = refl
find_text-text token_has_no_fee_schedule_key = refl
find_text-text custom_fee_outside_numeric_range = refl
find_text-text royalty_fraction_cannot_exceed_one = refl
find_text-text fractional_fee_max_amount_less_than_min_amount = refl
find_text-text custom_schedule_already_has_no_fees = refl
find_text-text custom_fee_denomination_must_be_fungible_common = refl
find_text-text custom_fractional_fee_only_allowed_for_fungible_common = refl
find_text-text invalid_custom_fee_schedule_key = refl
find_text-text invalid_token_mint_metadata = refl
find_text-text invalid_token_burn_metadata = refl
find_text-text current_treasury_still_owns_nfts = refl
find_text-text account_still_owns_nfts = refl
find_text-text treasury_must_own_burned_nft = refl
find_text-text account_does_not_own_wiped_nft = refl
find_text-text account_amount_transfers_only_allowed_for_fungible_common = refl
find_text-text max_nfts_in_price_regime_have_been_minted = refl
find_text-text payer_account_deleted = refl
find_text-text custom_fee_charging_exceeded_max_recursion_depth = refl
find_text-text custom_fee_charging_exceeded_max_account_amounts = refl
find_text-text insufficient_sender_account_balance_for_custom_fee = refl
find_text-text serial_number_limit_reached = refl
find_text-text custom_royalty_fee_only_allowed_for_non_fungible_unique = refl
find_text-text no_remaining_automatic_associations = refl
find_text-text existing_automatic_associations_exceed_given_limit = refl
find_text-text requested_num_automatic_associations_exceeds_association_limit = refl
find_text-text token_is_paused = refl
find_text-text token_has_no_pause_key = refl
find_text-text invalid_pause_key = refl
find_text-text freeze_update_file_does_not_exist = refl
find_text-text freeze_update_file_hash_does_not_match = refl
find_text-text no_upgrade_has_been_prepared = refl
find_text-text no_freeze_is_scheduled = refl
find_text-text update_file_hash_changed_since_prepare_upgrade = refl
find_text-text freeze_start_time_must_be_future = refl
find_text-text prepared_update_file_is_immutable = refl
find_text-text freeze_already_scheduled = refl
find_text-text freeze_upgrade_in_progress = refl
find_text-text update_file_id_does_not_match_prepared = refl
find_text-text update_file_hash_does_not_match_prepared = refl
find_text-text consensus_gas_exhausted = refl
find_text-text reverted_success = refl
find_text-text max_storage_in_price_regime_has_been_used = refl
find_text-text invalid_alias_key = refl
find_text-text unexpected_token_decimals = refl
find_text-text invalid_proxy_account_id = refl
find_text-text invalid_transfer_account_id = refl
find_text-text invalid_fee_collector_account_id = refl
find_text-text alias_is_immutable = refl
find_text-text spender_account_same_as_owner = refl
find_text-text amount_exceeds_token_max_supply = refl
find_text-text negative_allowance_amount = refl
find_text-text cannot_approve_for_all_fungible_common = refl
find_text-text spender_does_not_have_allowance = refl
find_text-text amount_exceeds_allowance = refl
find_text-text max_allowances_exceeded = refl
find_text-text empty_allowances = refl
find_text-text spender_account_repeated_in_allowances = refl
find_text-text repeated_serial_nums_in_nft_allowances = refl
find_text-text fungible_token_in_nft_allowances = refl
find_text-text nft_in_fungible_token_allowances = refl
find_text-text invalid_allowance_owner_id = refl
find_text-text invalid_allowance_spender_id = refl
find_text-text repeated_allowances_to_delete = refl
find_text-text invalid_delegating_spender = refl
find_text-text delegating_spender_cannot_grant_approve_for_all = refl
find_text-text delegating_spender_does_not_have_approve_for_all = refl
find_text-text schedule_expiration_time_too_far_in_future = refl
find_text-text schedule_expiration_time_must_be_higher_than_consensus_time = refl
find_text-text schedule_future_throttle_exceeded = refl
find_text-text schedule_future_gas_limit_exceeded = refl
find_text-text invalid_ethereum_transaction = refl
find_text-text wrong_chain_id = refl
find_text-text wrong_nonce = refl
find_text-text access_list_unsupported = refl
find_text-text schedule_pending_expiration = refl
find_text-text contract_is_token_treasury = refl
find_text-text contract_has_non_zero_token_balances = refl
find_text-text contract_expired_and_pending_removal = refl
find_text-text contract_has_no_auto_renew_account = refl
find_text-text permanent_removal_requires_system_initiation = refl
find_text-text proxy_account_id_field_is_deprecated = refl
find_text-text self_staking_is_not_allowed = refl
find_text-text invalid_staking_id = refl
find_text-text staking_not_enabled = refl
find_text-text invalid_prng_range = refl
find_text-text max_entities_in_price_regime_have_been_created = refl
find_text-text invalid_full_prefix_signature_for_precompile = refl
find_text-text insufficient_balances_for_storage_rent = refl
find_text-text max_child_records_exceeded = refl
find_text-text insufficient_balances_for_renewal_fees = refl
find_text-text transaction_has_unknown_fields = refl
find_text-text account_is_immutable = refl
find_text-text alias_already_assigned = refl

-- Two constants with the same text are the same constant.
pub text-injective : (s t : Status) → text s ≡ text t → s ≡ t
text-injective s t e =
    some-inj (sym (find_text-text s) ∙ ap (λ k. find_text k texts) e ∙ find_text-text t)
