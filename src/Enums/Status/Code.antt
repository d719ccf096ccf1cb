-- ===== src/Enums/Status/Code.antt =====
-- The codes of `Status` (src/Status.js): `valueOf` reads the number that the constant was built with, and
-- `_fromCode` is a switch over the numbers. Here the two are proved to be inverse to each other.
use u2u_sdk_js.Common.{ℕ, ◌≡◌, refl, ◌↔◌, true, Option, some, List, [], ◌∷◌}
use u2u_sdk_js.Enums.Switch.{agrees, switch, switch_sound}
use u2u_sdk_js.Enums.Status.{
  Status, ok, invalid_transaction, payer_account_not_found, invalid_node_account,
  transaction_expired, invalid_transaction_start, invalid_transaction_duration, invalid_signature,
  memo_too_long, insufficient_tx_fee, insufficient_payer_balance, duplicate_transaction, busy,
  not_supported, invalid_file_id, invalid_account_id, invalid_contract_id, invalid_transaction_id,
  receipt_not_found, record_not_found, invalid_solidity_id, unknown, success, fail_invalid,
  fail_fee, fail_balance, key_required, bad_encoding, insufficient_account_balance,
  invalid_solidity_address, insufficient_gas, contract_size_limit_exceeded,
  local_call_modification_exception, contract_revert_executed, contract_execution_exception,
  invalid_receiving_node_account, missing_query_header, account_update_failed, invalid_key_encoding,
  null_solidity_address, contract_update_failed, invalid_query_header, invalid_fee_submitted,
  invalid_payer_signature, key_not_provided, invalid_expiration_time, no_wacl_key,
  file_content_empty, invalid_account_amounts, empty_transaction_body, invalid_transaction_body,
  invalid_signature_type_mismatching_key, invalid_signature_count_mismatching_key,
  empty_live_hash_body, empty_live_hash, empty_live_hash_keys, invalid_live_hash_size,
  empty_query_body, empty_live_hash_query, live_hash_not_found, account_id_does_not_exist,
  live_hash_already_exists, invalid_file_wacl, serialization_failed, transaction_oversize,
  transaction_too_many_layers, contract_deleted, platform_not_active, key_prefix_mismatch,
  platform_transaction_not_created, invalid_renewal_period, invalid_payer_account_id,
  account_deleted, file_deleted, account_repeated_in_account_amounts,
  setting_negative_account_balance, obtainer_required, obtainer_same_contract_id,
  obtainer_does_not_exist, modifying_immutable_contract, file_system_exception,
  autorenew_duration_not_in_range, error_decoding_bytestring, contract_file_empty,
  contract_bytecode_empty, invalid_initial_balance, invalid_receive_record_threshold,
  invalid_send_record_threshold, account_is_not_genesis_account, payer_account_unauthorized,
  invalid_freeze_transaction_body, freeze_transaction_body_not_found,
  transfer_list_size_limit_exceeded, result_size_limit_exceeded, not_special_account,
  contract_negative_gas, contract_negative_value, invalid_fee_file, invalid_exchange_rate_file,
  insufficient_local_call_gas, entity_not_allowed_to_delete, authorization_failed,
  file_uploaded_proto_invalid, file_uploaded_proto_not_saved_to_disk,
  fee_schedule_file_part_uploaded, exchange_rate_change_limit_exceeded,
  max_contract_storage_exceeded, transfer_account_same_as_delete_account,
  total_ledger_balance_invalid, expiration_reduction_not_allowed, max_gas_limit_exceeded,
  max_file_size_exceeded, receiver_sig_required, invalid_topic_id, invalid_admin_key,
  invalid_submit_key, unauthorized, invalid_topic_message, invalid_autorenew_account,
  autorenew_account_not_allowed, topic_expired, invalid_chunk_number, invalid_chunk_transaction_id,
  account_frozen_for_token, tokens_per_account_limit_exceeded, invalid_token_id,
  invalid_token_decimals, invalid_token_initial_supply, invalid_treasury_account_for_token,
  invalid_token_symbol, token_has_no_freeze_key, transfers_not_zero_sum_for_token,
  missing_token_symbol, token_symbol_too_long, account_kyc_not_granted_for_token,
  token_has_no_kyc_key, insufficient_token_balance, token_was_deleted, token_has_no_supply_key,
  token_has_no_wipe_key, invalid_token_mint_amount, invalid_token_burn_amount,
  token_not_associated_to_account, cannot_wipe_token_treasury_account, invalid_kyc_key,
  invalid_wipe_key, invalid_freeze_key, invalid_supply_key, missing_token_name, token_name_too_long,
  invalid_wiping_amount, token_is_immutable, token_already_associated_to_account,
  transaction_requires_zero_token_balances, account_is_treasury, token_id_repeated_in_token_list,
  token_transfer_list_size_limit_exceeded, empty_token_transfer_body,
  empty_token_transfer_account_amounts, invalid_schedule_id, schedule_is_immutable,
  invalid_schedule_payer_id, invalid_schedule_account_id, no_new_valid_signatures,
  unresolvable_required_signers, scheduled_transaction_not_in_whitelist,
  some_signatures_were_invalid, transaction_id_field_not_allowed,
  identical_schedule_already_created, invalid_zero_byte_in_string, schedule_already_deleted,
  schedule_already_executed, message_size_too_large, operation_repeated_in_bucket_groups,
  bucket_capacity_overflow, node_capacity_not_sufficient_for_operation,
  bucket_has_no_throttle_groups, throttle_group_has_zero_ops_per_sec,
  success_but_missing_expected_operation, unparseable_throttle_definitions,
  invalid_throttle_definitions, account_expired_and_pending_removal, invalid_token_max_supply,
  invalid_token_nft_serial_number, invalid_nft_id, metadata_too_long, batch_size_limit_exceeded,
  invalid_query_range, fraction_divides_by_zero, insufficient_payer_balance_for_custom_fee,
  custom_fees_list_too_long, invalid_custom_fee_collector, invalid_token_id_in_custom_fees,
  token_not_associated_to_fee_collector, token_max_supply_reached,
  sender_does_not_own_nft_serial_no, custom_fee_not_fully_specified, custom_fee_must_be_positive,
  token_has_no_fee_schedule_key, custom_fee_outside_numeric_range,
  royalty_fraction_cannot_exceed_one, fractional_fee_max_amount_less_than_min_amount,
  custom_schedule_already_has_no_fees, custom_fee_denomination_must_be_fungible_common,
  custom_fractional_fee_only_allowed_for_fungible_common, invalid_custom_fee_schedule_key,
  invalid_token_mint_metadata, invalid_token_burn_metadata, current_treasury_still_owns_nfts,
  account_still_owns_nfts, treasury_must_own_burned_nft, account_does_not_own_wiped_nft,
  account_amount_transfers_only_allowed_for_fungible_common,
  max_nfts_in_price_regime_have_been_minted, payer_account_deleted,
  custom_fee_charging_exceeded_max_recursion_depth,
  custom_fee_charging_exceeded_max_account_amounts,
  insufficient_sender_account_balance_for_custom_fee, serial_number_limit_reached,
  custom_royalty_fee_only_allowed_for_non_fungible_unique, no_remaining_automatic_associations,
  existing_automatic_associations_exceed_given_limit,
  requested_num_automatic_associations_exceeds_association_limit, token_is_paused,
  token_has_no_pause_key, invalid_pause_key, freeze_update_file_does_not_exist,
  freeze_update_file_hash_does_not_match, no_upgrade_has_been_prepared, no_freeze_is_scheduled,
  update_file_hash_changed_since_prepare_upgrade, freeze_start_time_must_be_future,
  prepared_update_file_is_immutable, freeze_already_scheduled, freeze_upgrade_in_progress,
  update_file_id_does_not_match_prepared, update_file_hash_does_not_match_prepared,
  consensus_gas_exhausted, reverted_success, max_storage_in_price_regime_has_been_used,
  invalid_alias_key, unexpected_token_decimals, invalid_proxy_account_id,
  invalid_transfer_account_id, invalid_fee_collector_account_id, alias_is_immutable,
  spender_account_same_as_owner, amount_exceeds_token_max_supply, negative_allowance_amount,
  cannot_approve_for_all_fungible_common, spender_does_not_have_allowance, amount_exceeds_allowance,
  max_allowances_exceeded, empty_allowances, spender_account_repeated_in_allowances,
  repeated_serial_nums_in_nft_allowances, fungible_token_in_nft_allowances,
  nft_in_fungible_token_allowances, invalid_allowance_owner_id, invalid_allowance_spender_id,
  repeated_allowances_to_delete, invalid_delegating_spender,
  delegating_spender_cannot_grant_approve_for_all, delegating_spender_does_not_have_approve_for_all,
  schedule_expiration_time_too_far_in_future,
  schedule_expiration_time_must_be_higher_than_consensus_time, schedule_future_throttle_exceeded,
  schedule_future_gas_limit_exceeded, invalid_ethereum_transaction, wrong_chain_id, wrong_nonce,
  access_list_unsupported, schedule_pending_expiration, contract_is_token_treasury,
  contract_has_non_zero_token_balances, contract_expired_and_pending_removal,
  contract_has_no_auto_renew_account, permanent_removal_requires_system_initiation,
  proxy_account_id_field_is_deprecated, self_staking_is_not_allowed, invalid_staking_id,
  staking_not_enabled, invalid_prng_range, max_entities_in_price_regime_have_been_created,
  invalid_full_prefix_signature_for_precompile, insufficient_balances_for_storage_rent,
  max_child_records_exceeded, insufficient_balances_for_renewal_fees,
  transaction_has_unknown_fields, account_is_immutable, alias_already_assigned,
}

-- `valueOf`: the argument of `new Status(…)`.
unfoldable pub code : Status → ℕ
code ok = 0
code invalid_transaction = 1
code payer_account_not_found = 2
code invalid_node_account = 3
code transaction_expired = 4
code invalid_transaction_start = 5
code invalid_transaction_duration = 6
code invalid_signature = 7
code memo_too_long = 8
code insufficient_tx_fee = 9
code insufficient_payer_balance = 10
code duplicate_transaction = 11
code busy = 12
code not_supported = 13
code invalid_file_id = 14
code invalid_account_id = 15
code invalid_contract_id = 16
code invalid_transaction_id = 17
code receipt_not_found = 18
code record_not_found = 19
code invalid_solidity_id = 20
code unknown = 21
code success = 22
code fail_invalid = 23
code fail_fee = 24
code fail_balance = 25
code key_required = 26
code bad_encoding = 27
code insufficient_account_balance = 28
code invalid_solidity_address = 29
code insufficient_gas = 30
code contract_size_limit_exceeded = 31
code local_call_modification_exception = 32
code contract_revert_executed = 33
code contract_execution_exception = 34
code invalid_receiving_node_account = 35
code missing_query_header = 36
code account_update_failed = 37
code invalid_key_encoding = 38
code null_solidity_address = 39
code contract_update_failed = 40
code invalid_query_header = 41
code invalid_fee_submitted = 42
code invalid_payer_signature = 43
code key_not_provided = 44
code invalid_expiration_time = 45
code no_wacl_key = 46
code file_content_empty = 47
code invalid_account_amounts = 48
code empty_transaction_body = 49
code invalid_transaction_body = 50
code invalid_signature_type_mismatching_key = 51
code invalid_signature_count_mismatching_key = 52
code empty_live_hash_body = 53
code empty_live_hash = 54
code empty_live_hash_keys = 55
code invalid_live_hash_size = 56
code empty_query_body = 57
code empty_live_hash_query = 58
code live_hash_not_found = 59
code account_id_does_not_exist = 60
code live_hash_already_exists = 61
code invalid_file_wacl = 62
code serialization_failed = 63
code transaction_oversize = 64
code transaction_too_many_layers = 65
code contract_deleted = 66
code platform_not_active = 67
code key_prefix_mismatch = 68
code platform_transaction_not_created = 69
code invalid_renewal_period = 70
code invalid_payer_account_id = 71
code account_deleted = 72
code file_deleted = 73
code account_repeated_in_account_amounts = 74
code setting_negative_account_balance = 75
code obtainer_required = 76
code obtainer_same_contract_id = 77
code obtainer_does_not_exist = 78
code modifying_immutable_contract = 79
code file_system_exception = 80
code autorenew_duration_not_in_range = 81
code error_decoding_bytestring = 82
code contract_file_empty = 83
code contract_bytecode_empty = 84
code invalid_initial_balance = 85
code invalid_receive_record_threshold = 86
code invalid_send_record_threshold = 87
code account_is_not_genesis_account = 88
code payer_account_unauthorized = 89
code invalid_freeze_transaction_body = 90
code freeze_transaction_body_not_found = 91
code transfer_list_size_limit_exceeded = 92
code result_size_limit_exceeded = 93
code not_special_account = 94
code contract_negative_gas = 95
code contract_negative_value = 96
code invalid_fee_file = 97
code invalid_exchange_rate_file = 98
code insufficient_local_call_gas = 99
code entity_not_allowed_to_delete = 100
code authorization_failed = 101
code file_uploaded_proto_invalid = 102
code file_uploaded_proto_not_saved_to_disk = 103
code fee_schedule_file_part_uploaded = 104
code exchange_rate_change_limit_exceeded = 105
code max_contract_storage_exceeded = 106
code transfer_account_same_as_delete_account = 107
code total_ledger_balance_invalid = 108
code expiration_reduction_not_allowed = 110
code max_gas_limit_exceeded = 111
code max_file_size_exceeded = 112
code receiver_sig_required = 113
code invalid_topic_id = 150
code invalid_admin_key = 155
code invalid_submit_key = 156
code unauthorized = 157
code invalid_topic_message = 158
code invalid_autorenew_account = 159
code autorenew_account_not_allowed = 160
code topic_expired = 162
code invalid_chunk_number = 163
code invalid_chunk_transaction_id = 164
code account_frozen_for_token = 165
code tokens_per_account_limit_exceeded = 166
code invalid_token_id = 167
code invalid_token_decimals = 168
code invalid_token_initial_supply = 169
code invalid_treasury_account_for_token = 170
code invalid_token_symbol = 171
code token_has_no_freeze_key = 172
code transfers_not_zero_sum_for_token = 173
code missing_token_symbol = 174
code token_symbol_too_long = 175
code account_kyc_not_granted_for_token = 176
code token_has_no_kyc_key = 177
code insufficient_token_balance = 178
code token_was_deleted = 179
code token_has_no_supply_key = 180
code token_has_no_wipe_key = 181
code invalid_token_mint_amount = 182
code invalid_token_burn_amount = 183
code token_not_associated_to_account = 184
code cannot_wipe_token_treasury_account = 185
code invalid_kyc_key = 186
code invalid_wipe_key = 187
code invalid_freeze_key = 188
code invalid_supply_key = 189
code missing_token_name = 190
code token_name_too_long = 191
code invalid_wiping_amount = 192
code token_is_immutable = 193
code token_already_associated_to_account = 194
code transaction_requires_zero_token_balances = 195
code account_is_treasury = 196
code token_id_repeated_in_token_list = 197
code token_transfer_list_size_limit_exceeded = 198
code empty_token_transfer_body = 199
code empty_token_transfer_account_amounts = 200
code invalid_schedule_id = 201
code schedule_is_immutable = 202
code invalid_schedule_payer_id = 203
code invalid_schedule_account_id = 204
code no_new_valid_signatures = 205
code unresolvable_required_signers = 206
code scheduled_transaction_not_in_whitelist = 207
code some_signatures_were_invalid = 208
code transaction_id_field_not_allowed = 209
code identical_schedule_already_created = 210
code invalid_zero_byte_in_string = 211
code schedule_already_deleted = 212
code schedule_already_executed = 213
code message_size_too_large = 214
code operation_repeated_in_bucket_groups = 215
code bucket_capacity_overflow = 216
code node_capacity_not_sufficient_for_operation = 217
code bucket_has_no_throttle_groups = 218
code throttle_group_has_zero_ops_per_sec = 219
code success_but_missing_expected_operation = 220
code unparseable_throttle_definitions = 221
code invalid_throttle_definitions = 222
code account_expired_and_pending_removal = 223
code invalid_token_max_supply = 224
code invalid_token_nft_serial_number = 225
code invalid_nft_id = 226
code metadata_too_long = 227
code batch_size_limit_exceeded = 228
code invalid_query_range = 229
code fraction_divides_by_zero = 230
code insufficient_payer_balance_for_custom_fee = 231
code custom_fees_list_too_long = 232
code invalid_custom_fee_collector = 233
code invalid_token_id_in_custom_fees = 234
code token_not_associated_to_fee_collector = 235
code token_max_supply_reached = 236
code sender_does_not_own_nft_serial_no = 237
code custom_fee_not_fully_specified = 238
code custom_fee_must_be_positive = 239
code token_has_no_fee_schedule_key = 240
code custom_fee_outside_numeric_range = 241
code royalty_fraction_cannot_exceed_one = 242
code fractional_fee_max_amount_less_than_min_amount = 243
code custom_schedule_already_has_no_fees = 244
code custom_fee_denomination_must_be_fungible_common = 245
code custom_fractional_fee_only_allowed_for_fungible_common = 246
code invalid_custom_fee_schedule_key = 247
code invalid_token_mint_metadata = 248
code invalid_token_burn_metadata = 249
code current_treasury_still_owns_nfts = 250
code account_still_owns_nfts = 251
code treasury_must_own_burned_nft = 252
code account_does_not_own_wiped_nft = 253
code account_amount_transfers_only_allowed_for_fungible_common = 254
code max_nfts_in_price_regime_have_been_minted = 255
code payer_account_deleted = 256
code custom_fee_charging_exceeded_max_recursion_depth = 257
code custom_fee_charging_exceeded_max_account_amounts = 258
code insufficient_sender_account_balance_for_custom_fee = 259
code serial_number_limit_reached = 260
code custom_royalty_fee_only_allowed_for_non_fungible_unique = 261
code no_remaining_automatic_associations = 262
code existing_automatic_associations_exceed_given_limit = 263
code requested_num_automatic_associations_exceeds_association_limit = 264
code token_is_paused = 265
code token_has_no_pause_key = 266
code invalid_pause_key = 267
code freeze_update_file_does_not_exist = 268
code freeze_update_file_hash_does_not_match = 269
code no_upgrade_has_been_prepared = 270
code no_freeze_is_scheduled = 271
code update_file_hash_changed_since_prepare_upgrade = 272
code freeze_start_time_must_be_future = 273
code prepared_update_file_is_immutable = 274
code freeze_already_scheduled = 275
code freeze_upgrade_in_progress = 276
code update_file_id_does_not_match_prepared = 277
code update_file_hash_does_not_match_prepared = 278
code consensus_gas_exhausted = 279
code reverted_success = 280
code max_storage_in_price_regime_has_been_used = 281
code invalid_alias_key = 282
code unexpected_token_decimals = 283
code invalid_proxy_account_id = 284
code invalid_transfer_account_id = 285
code invalid_fee_collector_account_id = 286
code alias_is_immutable = 287
code spender_account_same_as_owner = 288
code amount_exceeds_token_max_supply = 289
code negative_allowance_amount = 290
code cannot_approve_for_all_fungible_common = 291
code spender_does_not_have_allowance = 292
code amount_exceeds_allowance = 293
code max_allowances_exceeded = 294
code empty_allowances = 295
code spender_account_repeated_in_allowances = 296
code repeated_serial_nums_in_nft_allowances = 297
code fungible_token_in_nft_allowances = 298
code nft_in_fungible_token_allowances = 299
code invalid_allowance_owner_id = 300
code invalid_allowance_spender_id = 301
code repeated_allowances_to_delete = 302
code invalid_delegating_spender = 303
code delegating_spender_cannot_grant_approve_for_all = 304
code delegating_spender_does_not_have_approve_for_all = 305
code schedule_expiration_time_too_far_in_future = 306
code schedule_expiration_time_must_be_higher_than_consensus_time = 307
code schedule_future_throttle_exceeded = 308
code schedule_future_gas_limit_exceeded = 309
code invalid_ethereum_transaction = 310
code wrong_chain_id = 311
code wrong_nonce = 312
code access_list_unsupported = 313
code schedule_pending_expiration = 314
code contract_is_token_treasury = 315
code contract_has_non_zero_token_balances = 316
code contract_expired_and_pending_removal = 317
code contract_has_no_auto_renew_account = 318
code permanent_removal_requires_system_initiation = 319
code proxy_account_id_field_is_deprecated = 320
code self_staking_is_not_allowed = 321
code invalid_staking_id = 322
code staking_not_enabled = 323
code invalid_prng_range = 324
code max_entities_in_price_regime_have_been_created = 325
code invalid_full_prefix_signature_for_precompile = 326
code insufficient_balances_for_storage_rent = 327
code max_child_records_exceeded = 328
code insufficient_balances_for_renewal_fees = 329
code transaction_has_unknown_fields = 330
code account_is_immutable = 331
code alias_already_assigned = 332

-- The cases of `_fromCode`, in the order of the source.
unfoldable pub cases : List (ℕ × Status)
cases =
    (0, ok)
    ∷ (1, invalid_transaction)
    ∷ (2, payer_account_not_found)
    ∷ (3, invalid_node_account)
    ∷ (4, transaction_expired)
    ∷ (5, invalid_transaction_start)
    ∷ (6, invalid_transaction_duration)
    ∷ (7, invalid_signature)
    ∷ (8, memo_too_long)
    ∷ (9, insufficient_tx_fee)
    ∷ (10, insufficient_payer_balance)
    ∷ (11, duplicate_transaction)
    ∷ (12, busy)
    ∷ (13, not_supported)
    ∷ (14, invalid_file_id)
    ∷ (15, invalid_account_id)
    ∷ (16, invalid_contract_id)
    ∷ (17, invalid_transaction_id)
    ∷ (18, receipt_not_found)
    ∷ (19, record_not_found)
    ∷ (20, invalid_solidity_id)
    ∷ (21, unknown)
    ∷ (22, success)
    ∷ (23, fail_invalid)
    ∷ (24, fail_fee)
    ∷ (25, fail_balance)
    ∷ (26, key_required)
    ∷ (27, bad_encoding)
    ∷ (28, insufficient_account_balance)
    ∷ (29, invalid_solidity_address)
    ∷ (30, insufficient_gas)
    ∷ (31, contract_size_limit_exceeded)
    ∷ (32, local_call_modification_exception)
    ∷ (33, contract_revert_executed)
    ∷ (34, contract_execution_exception)
    ∷ (35, invalid_receiving_node_account)
    ∷ (36, missing_query_header)
    ∷ (37, account_update_failed)
    ∷ (38, invalid_key_encoding)
    ∷ (39, null_solidity_address)
    ∷ (40, contract_update_failed)
    ∷ (41, invalid_query_header)
    ∷ (42, invalid_fee_submitted)
    ∷ (43, invalid_payer_signature)
    ∷ (44, key_not_provided)
    ∷ (45, invalid_expiration_time)
    ∷ (46, no_wacl_key)
    ∷ (47, file_content_empty)
    ∷ (48, invalid_account_amounts)
    ∷ (49, empty_transaction_body)
    ∷ (50, invalid_transaction_body)
    ∷ (51, invalid_signature_type_mismatching_key)
    ∷ (52, invalid_signature_count_mismatching_key)
    ∷ (53, empty_live_hash_body)
    ∷ (54, empty_live_hash)
    ∷ (55, empty_live_hash_keys)
    ∷ (56, invalid_live_hash_size)
    ∷ (57, empty_query_body)
    ∷ (58, empty_live_hash_query)
    ∷ (59, live_hash_not_found)
    ∷ (60, account_id_does_not_exist)
    ∷ (61, live_hash_already_exists)
    ∷ (62, invalid_file_wacl)
    ∷ (63, serialization_failed)
    ∷ (64, transaction_oversize)
    ∷ (65, transaction_too_many_layers)
    ∷ (66, contract_deleted)
    ∷ (67, platform_not_active)
    ∷ (68, key_prefix_mismatch)
    ∷ (69, platform_transaction_not_created)
    ∷ (70, invalid_renewal_period)
    ∷ (71, invalid_payer_account_id)
    ∷ (72, account_deleted)
    ∷ (73, file_deleted)
    ∷ (74, account_repeated_in_account_amounts)
    ∷ (75, setting_negative_account_balance)
    ∷ (76, obtainer_required)
    ∷ (77, obtainer_same_contract_id)
    ∷ (78, obtainer_does_not_exist)
    ∷ (79, modifying_immutable_contract)
    ∷ (80, file_system_exception)
    ∷ (81, autorenew_duration_not_in_range)
    ∷ (82, error_decoding_bytestring)
    ∷ (83, contract_file_empty)
    ∷ (84, contract_bytecode_empty)
    ∷ (85, invalid_initial_balance)
    ∷ (86, invalid_receive_record_threshold)
    ∷ (87, invalid_send_record_threshold)
    ∷ (88, account_is_not_genesis_account)
    ∷ (89, payer_account_unauthorized)
    ∷ (90, invalid_freeze_transaction_body)
    ∷ (91, freeze_transaction_body_not_found)
    ∷ (92, transfer_list_size_limit_exceeded)
    ∷ (93, result_size_limit_exceeded)
    ∷ (94, not_special_account)
    ∷ (95, contract_negative_gas)
    ∷ (96, contract_negative_value)
    ∷ (97, invalid_fee_file)
    ∷ (98, invalid_exchange_rate_file)
    ∷ (99, insufficient_local_call_gas)
    ∷ (100, entity_not_allowed_to_delete)
    ∷ (101, authorization_failed)
    ∷ (102, file_uploaded_proto_invalid)
    ∷ (103, file_uploaded_proto_not_saved_to_disk)
    ∷ (104, fee_schedule_file_part_uploaded)
    ∷ (105, exchange_rate_change_limit_exceeded)
    ∷ (106, max_contract_storage_exceeded)
    ∷ (107, transfer_account_same_as_delete_account)
    ∷ (108, total_ledger_balance_invalid)
    ∷ (110, expiration_reduction_not_allowed)
    ∷ (111, max_gas_limit_exceeded)
    ∷ (112, max_file_size_exceeded)
    ∷ (113, receiver_sig_required)
    ∷ (150, invalid_topic_id)
    ∷ (155, invalid_admin_key)
    ∷ (156, invalid_submit_key)
    ∷ (157, unauthorized)
    ∷ (158, invalid_topic_message)
    ∷ (159, invalid_autorenew_account)
    ∷ (160, autorenew_account_not_allowed)
    ∷ (162, topic_expired)
    ∷ (163, invalid_chunk_number)
    ∷ (164, invalid_chunk_transaction_id)
    ∷ (165, account_frozen_for_token)
    ∷ (166, tokens_per_account_limit_exceeded)
    ∷ (167, invalid_token_id)
    ∷ (168, invalid_token_decimals)
    ∷ (169, invalid_token_initial_supply)
    ∷ (170, invalid_treasury_account_for_token)
    ∷ (171, invalid_token_symbol)
    ∷ (172, token_has_no_freeze_key)
    ∷ (173, transfers_not_zero_sum_for_token)
    ∷ (174, missing_token_symbol)
    ∷ (175, token_symbol_too_long)
    ∷ (176, account_kyc_not_granted_for_token)
    ∷ (177, token_has_no_kyc_key)
    ∷ (178, insufficient_token_balance)
    ∷ (179, token_was_deleted)
    ∷ (180, token_has_no_supply_key)
    ∷ (181, token_has_no_wipe_key)
    ∷ (182, invalid_token_mint_amount)
    ∷ (183, invalid_token_burn_amount)
    ∷ (184, token_not_associated_to_account)
    ∷ (185, cannot_wipe_token_treasury_account)
    ∷ (186, invalid_kyc_key)
    ∷ (187, invalid_wipe_key)
    ∷ (188, invalid_freeze_key)
    ∷ (189, invalid_supply_key)
    ∷ (190, missing_token_name)
    ∷ (191, token_name_too_long)
    ∷ (192, invalid_wiping_amount)
    ∷ (193, token_is_immutable)
    ∷ (194, token_already_associated_to_account)
    ∷ (195, transaction_requires_zero_token_balances)
    ∷ (196, account_is_treasury)
    ∷ (197, token_id_repeated_in_token_list)
    ∷ (198, token_transfer_list_size_limit_exceeded)
    ∷ (199, empty_token_transfer_body)
    ∷ (200, empty_token_transfer_account_amounts)
    ∷ (201, invalid_schedule_id)
    ∷ (202, schedule_is_immutable)
    ∷ (203, invalid_schedule_payer_id)
    ∷ (204, invalid_schedule_account_id)
    ∷ (205, no_new_valid_signatures)
    ∷ (206, unresolvable_required_signers)
    ∷ (207, scheduled_transaction_not_in_whitelist)
    ∷ (208, some_signatures_were_invalid)
    ∷ (209, transaction_id_field_not_allowed)
    ∷ (210, identical_schedule_already_created)
    ∷ (211, invalid_zero_byte_in_string)
    ∷ (212, schedule_already_deleted)
    ∷ (213, schedule_already_executed)
    ∷ (214, message_size_too_large)
    ∷ (215, operation_repeated_in_bucket_groups)
    ∷ (216, bucket_capacity_overflow)
    ∷ (217, node_capacity_not_sufficient_for_operation)
    ∷ (218, bucket_has_no_throttle_groups)
    ∷ (219, throttle_group_has_zero_ops_per_sec)
    ∷ (220, success_but_missing_expected_operation)
    ∷ (221, unparseable_throttle_definitions)
    ∷ (222, invalid_throttle_definitions)
    ∷ (223, account_expired_and_pending_removal)
    ∷ (224, invalid_token_max_supply)
    ∷ (225, invalid_token_nft_serial_number)
    ∷ (226, invalid_nft_id)
    ∷ (227, metadata_too_long)
    ∷ (228, batch_size_limit_exceeded)
    ∷ (229, invalid_query_range)
    ∷ (230, fraction_divides_by_zero)
    ∷ (231, insufficient_payer_balance_for_custom_fee)
    ∷ (232, custom_fees_list_too_long)
    ∷ (233, invalid_custom_fee_collector)
    ∷ (234, invalid_token_id_in_custom_fees)
    ∷ (235, token_not_associated_to_fee_collector)
    ∷ (236, token_max_supply_reached)
    ∷ (237, sender_does_not_own_nft_serial_no)
    ∷ (238, custom_fee_not_fully_specified)
    ∷ (239, custom_fee_must_be_positive)
    ∷ (240, token_has_no_fee_schedule_key)
    ∷ (241, custom_fee_outside_numeric_range)
    ∷ (242, royalty_fraction_cannot_exceed_one)
    ∷ (243, fractional_fee_max_amount_less_than_min_amount)
    ∷ (244, custom_schedule_already_has_no_fees)
    ∷ (245, custom_fee_denomination_must_be_fungible_common)
    ∷ (246, custom_fractional_fee_only_allowed_for_fungible_common)
    ∷ (247, invalid_custom_fee_schedule_key)
    ∷ (248, invalid_token_mint_metadata)
    ∷ (249, invalid_token_burn_metadata)
    ∷ (250, current_treasury_still_owns_nfts)
    ∷ (251, account_still_owns_nfts)
    ∷ (252, treasury_must_own_burned_nft)
    ∷ (253, account_does_not_own_wiped_nft)
    ∷ (254, account_amount_transfers_only_allowed_for_fungible_common)
    ∷ (255, max_nfts_in_price_regime_have_been_minted)
    ∷ (256, payer_account_deleted)
    ∷ (257, custom_fee_charging_exceeded_max_recursion_depth)
    ∷ (258, custom_fee_charging_exceeded_max_account_amounts)
    ∷ (259, insufficient_sender_account_balance_for_custom_fee)
    ∷ (260, serial_number_limit_reached)
    ∷ (261, custom_royalty_fee_only_allowed_for_non_fungible_unique)
    ∷ (262, no_remaining_automatic_associations)
    ∷ (263, existing_automatic_associations_exceed_given_limit)
    ∷ (264, requested_num_automatic_associations_exceeds_association_limit)
    ∷ (265, token_is_paused)
    ∷ (266, token_has_no_pause_key)
    ∷ (267, invalid_pause_key)
    ∷ (268, freeze_update_file_does_not_exist)
    ∷ (269, freeze_update_file_hash_does_not_match)
    ∷ (270, no_upgrade_has_been_prepared)
    ∷ (271, no_freeze_is_scheduled)
    ∷ (272, update_file_hash_changed_since_prepare_upgrade)
    ∷ (273, freeze_start_time_must_be_future)
    ∷ (274, prepared_update_file_is_immutable)
    ∷ (275, freeze_already_scheduled)
    ∷ (276, freeze_upgrade_in_progress)
    ∷ (277, update_file_id_does_not_match_prepared)
    ∷ (278, update_file_hash_does_not_match_prepared)
    ∷ (279, consensus_gas_exhausted)
    ∷ (280, reverted_success)
    ∷ (281, max_storage_in_price_regime_has_been_used)
    ∷ (282, invalid_alias_key)
    ∷ (283, unexpected_token_decimals)
    ∷ (284, invalid_proxy_account_id)
    ∷ (285, invalid_transfer_account_id)
    ∷ (286, invalid_fee_collector_account_id)
    ∷ (287, alias_is_immutable)
    ∷ (288, spender_account_same_as_owner)
    ∷ (289, amount_exceeds_token_max_supply)
    ∷ (290, negative_allowance_amount)
    ∷ (291, cannot_approve_for_all_fungible_common)
    ∷ (292, spender_does_not_have_allowance)
    ∷ (293, amount_exceeds_allowance)
    ∷ (294, max_allowances_exceeded)
    ∷ (295, empty_allowances)
    ∷ (296, spender_account_repeated_in_allowances)
    ∷ (297, repeated_serial_nums_in_nft_allowances)
    ∷ (298, fungible_token_in_nft_allowances)
    ∷ (299, nft_in_fungible_token_allowances)
    ∷ (300, invalid_allowance_owner_id)
    ∷ (301, invalid_allowance_spender_id)
    ∷ (302, repeated_allowances_to_delete)
    ∷ (303, invalid_delegating_spender)
    ∷ (304, delegating_spender_cannot_grant_approve_for_all)
    ∷ (305, delegating_spender_does_not_have_approve_for_all)
    ∷ (306, schedule_expiration_time_too_far_in_future)
    ∷ (307, schedule_expiration_time_must_be_higher_than_consensus_time)
    ∷ (308, schedule_future_throttle_exceeded)
    ∷ (309, schedule_future_gas_limit_exceeded)
    ∷ (310, invalid_ethereum_transaction)
    ∷ (311, wrong_chain_id)
    ∷ (312, wrong_nonce)
    ∷ (313, access_list_unsupported)
    ∷ (314, schedule_pending_expiration)
    ∷ (315, contract_is_token_treasury)
    ∷ (316, contract_has_non_zero_token_balances)
    ∷ (317, contract_expired_and_pending_removal)
    ∷ (318, contract_has_no_auto_renew_account)
    ∷ (319, permanent_removal_requires_system_initiation)
    ∷ (320, proxy_account_id_field_is_deprecated)
    ∷ (321, self_staking_is_not_allowed)
    ∷ (322, invalid_staking_id)
    ∷ (323, staking_not_enabled)
    ∷ (324, invalid_prng_range)
    ∷ (325, max_entities_in_price_regime_have_been_created)
    ∷ (326, invalid_full_prefix_signature_for_precompile)
    ∷ (327, insufficient_balances_for_storage_rent)
    ∷ (328, max_child_records_exceeded)
    ∷ (329, insufficient_balances_for_renewal_fees)
    ∷ (330, transaction_has_unknown_fields)
    ∷ (331, account_is_immutable)
    ∷ (332, alias_already_assigned)
    ∷ []

-- `none` is the error of the default case.
unfoldable pub from_code : ℕ → Option Status
unfolding cases
from_code c = switch c cases

cases_agree : agrees code cases ≡ true
unfolding cases code agrees
cases_agree = refl

from_code-code : (s : Status) → from_code (code s) ≡ some s
unfolding from_code code switch
from_code-code ok = refl
from_code-code invalid_transaction = refl
from_code-code payer_account_not_found = refl
from_code-code invalid_node_account = refl
from_code-code transaction_expired = refl
from_code-code invalid_transaction_start = refl
from_code-code invalid_transaction_duration = refl
from_code-code invalid_signature = refl
from_code-code memo_too_long = refl
from_code-code insufficient_tx_fee = refl
from_code-code insufficient_payer_balance = refl
from_code-code duplicate_transaction = refl
from_code-code busy = refl
from_code-code not_supported = refl
from_code-code invalid_file_id = refl
from_code-code invalid_account_id = refl
from_code-code invalid_contract_id = refl
from_code-code invalid_transaction_id = refl
from_code-code receipt_not_found = refl
from_code-code record_not_found = refl
from_code-code invalid_solidity_id = refl
from_code-code unknown = refl
from_code-code success = refl
from_code-code fail_invalid = refl
from_code-code fail_fee = refl
from_code-code fail_balance = refl
from_code-code key_required = refl
from_code-code bad_encoding = refl
from_code-code insufficient_account_balance = refl
from_code-code invalid_solidity_address = refl
from_code-code insufficient_gas = refl
from_code-code contract_size_limit_exceeded = refl
from_code-code local_call_modification_exception = refl
from_code-code contract_revert_executed = refl
from_code-code contract_execution_exception = refl
from_code-code invalid_receiving_node_account = refl
from_code-code missing_query_header = refl
from_code-code account_update_failed = refl
from_code-code invalid_key_encoding = refl
from_code-code null_solidity_address = refl
from_code-code contract_update_failed = refl
from_code-code invalid_query_header = refl
from_code-code invalid_fee_submitted = refl
from_code-code invalid_payer_signature = refl
from_code-code key_not_provided = refl
from_code-code invalid_expiration_time = refl
from_code-code no_wacl_key = refl
from_code-code file_content_empty = refl
from_code-code invalid_account_amounts = refl
from_code-code empty_transaction_body = refl
from_code-code invalid_transaction_body = refl
from_code-code invalid_signature_type_mismatching_key = refl
from_code-code invalid_signature_count_mismatching_key = refl
from_code-code empty_live_hash_body = refl
from_code-code empty_live_hash = refl
from_code-code empty_live_hash_keys = refl
from_code-code invalid_live_hash_size = refl
from_code-code empty_query_body = refl
from_code-code empty_live_hash_query = refl
from_code-code live_hash_not_found = refl
from_code-code account_id_does_not_exist = refl
from_code-code live_hash_already_exists = refl
from_code-code invalid_file_wacl = refl
from_code-code serialization_failed = refl
from_code-code transaction_oversize = refl
from_code-code transaction_too_many_layers = refl
from_code-code contract_deleted = refl
from_code-code platform_not_active = refl
from_code-code key_prefix_mismatch = refl
from_code-code platform_transaction_not_created = refl
from_code-code invalid_renewal_period = refl
from_code-code invalid_payer_account_id = refl
from_code-code account_deleted = refl
from_code-code file_deleted = refl
from_code-code account_repeated_in_account_amounts = refl
from_code-code setting_negative_account_balance = refl
from_code-code obtainer_required = refl
from_code-code obtainer_same_contract_id = refl
from_code-code obtainer_does_not_exist = refl
from_code-code modifying_immutable_contract = refl
from_code-code file_system_exception = refl
from_code-code autorenew_duration_not_in_range = refl
from_code-code error_decoding_bytestring = refl
from_code-code contract_file_empty = refl
from_code-code contract_bytecode_empty = refl
from_code-code invalid_initial_balance = refl
from_code-code invalid_receive_record_threshold = refl
from_code-code invalid_send_record_threshold = refl
from_code-code account_is_not_genesis_account = refl
from_code-code payer_account_unauthorized = refl
from_code-code invalid_freeze_transaction_body = refl
from_code-code freeze_transaction_body_not_found = refl
from_code-code transfer_list_size_limit_exceeded = refl
from_code-code result_size_limit_exceeded = refl
from_code-code not_special_account = refl
from_code-code contract_negative_gas = refl
from_code-code contract_negative_value = refl
from_code-code invalid_fee_file = refl
from_code-code invalid_exchange_rate_file = refl
from_code-code insufficient_local_call_gas = refl
from_code-code entity_not_allowed_to_delete = refl
from_code-code authorization_failed = refl
from_code-code file_uploaded_proto_invalid = refl
from_code-code file_uploaded_proto_not_saved_to_disk = refl
from_code-code fee_schedule_file_part_uploaded = refl
from_code-code exchange_rate_change_limit_exceeded = refl
from_code-code max_contract_storage_exceeded = refl
from_code-code transfer_account_same_as_delete_account = refl
from_code-code total_ledger_balance_invalid = refl
from_code-code expiration_reduction_not_allowed = refl
from_code-code max_gas_limit_exceeded = refl
from_code-code max_file_size_exceeded = refl
from_code-code receiver_sig_required = refl
from_code-code invalid_topic_id = refl
from_code-code invalid_admin_key = refl
from_code-code invalid_submit_key = refl
from_code-code unauthorized = refl
from_code-code invalid_topic_message = refl
from_code-code invalid_autorenew_account = refl
from_code-code autorenew_account_not_allowed = refl
from_code-code topic_expired = refl
from_code-code invalid_chunk_number = refl
from_code-code invalid_chunk_transaction_id = refl
from_code-code account_frozen_for_token = refl
from_code-code tokens_per_account_limit_exceeded = refl
from_code-code invalid_token_id = refl
from_code-code invalid_token_decimals = refl
from_code-code invalid_token_initial_supply = refl
from_code-code invalid_treasury_account_for_token = refl
from_code-code invalid_token_symbol = refl
from_code-code token_has_no_freeze_key = refl
from_code-code transfers_not_zero_sum_for_token = refl
from_code-code missing_token_symbol = refl
from_code-code token_symbol_too_long = refl
from_code-code account_kyc_not_granted_for_token = refl
from_code-code token_has_no_kyc_key = refl
from_code-code insufficient_token_balance = refl
from_code-code token_was_deleted = refl
from_code-code token_has_no_supply_key = refl
from_code-code token_has_no_wipe_key = refl
from_code-code invalid_token_mint_amount = refl
from_code-code invalid_token_burn_amount = refl
from_code-code token_not_associated_to_account = refl
from_code-code cannot_wipe_token_treasury_account = refl
from_code-code invalid_kyc_key = refl
from_code-code invalid_wipe_key = refl
from_code-code invalid_freeze_key = refl
from_code-code invalid_supply_key = refl
from_code-code missing_token_name = refl
from_code-code token_name_too_long = refl
from_code-code invalid_wiping_amount = refl
from_code-code token_is_immutable = refl
from_code-code token_already_associated_to_account = refl
from_code-code transaction_requires_zero_token_balances = refl
from_code-code account_is_treasury = refl
from_code-code token_id_repeated_in_token_list = refl
from_code-code token_transfer_list_size_limit_exceeded = refl
from_code-code empty_token_transfer_body = refl
from_code-code empty_token_transfer_account_amounts = refl
from_code-code invalid_schedule_id = refl
from_code-code schedule_is_immutable = refl
from_code-code invalid_schedule_payer_id = refl
from_code-code invalid_schedule_account_id = refl
from_code-code no_new_valid_signatures = refl
from_code-code unresolvable_required_signers = refl
from_code-code scheduled_transaction_not_in_whitelist = refl
from_code-code some_signatures_were_invalid = refl
from_code-code transaction_id_field_not_allowed = refl
from_code-code identical_schedule_already_created = refl
from_code-code invalid_zero_byte_in_string = refl
from_code-code schedule_already_deleted = refl
from_code-code schedule_already_executed = refl
from_code-code message_size_too_large = refl
from_code-code operation_repeated_in_bucket_groups = refl
from_code-code bucket_capacity_overflow = refl
from_code-code node_capacity_not_sufficient_for_operation = refl
from_code-code bucket_has_no_throttle_groups = refl
from_code-code throttle_group_has_zero_ops_per_sec = refl
from_code-code success_but_missing_expected_operation = refl
from_code-code unparseable_throttle_definitions = refl
from_code-code invalid_throttle_definitions = refl
from_code-code account_expired_and_pending_removal = refl
from_code-code invalid_token_max_supply = refl
from_code-code invalid_token_nft_serial_number = refl
from_code-code invalid_nft_id = refl
from_code-code metadata_too_long = refl
from_code-code batch_size_limit_exceeded = refl
from_code-code invalid_query_range = refl
from_code-code fraction_divides_by_zero = refl
from_code-code insufficient_payer_balance_for_custom_fee = refl
from_code-code custom_fees_list_too_long = refl
from_code-code invalid_custom_fee_collector = refl
from_code-code invalid_token_id_in_custom_fees = refl
from_code-code token_not_associated_to_fee_collector = refl
from_code-code token_max_supply_reached = refl
from_code-code sender_does_not_own_nft_serial_no = refl
from_code-code custom_fee_not_fully_specified = refl
from_code-code custom_fee_must_be_positive = refl
from_code-code token_has_no_fee_schedule_key = refl
from_code-code custom_fee_outside_numeric_range = refl
from_code-code royalty_fraction_cannot_exceed_one = refl
from_code-code fractional_fee_max_amount_less_than_min_amount = refl
from_code-code custom_schedule_already_has_no_fees = refl
from_code-code custom_fee_denomination_must_be_fungible_common = refl
from_code-code custom_fractional_fee_only_allowed_for_fungible_common = refl
from_code-code invalid_custom_fee_schedule_key = refl
from_code-code invalid_token_mint_metadata = refl
from_code-code invalid_token_burn_metadata = refl
from_code-code current_treasury_still_owns_nfts = refl
from_code-code account_still_owns_nfts = refl
from_code-code treasury_must_own_burned_nft = refl
from_code-code account_does_not_own_wiped_nft = refl
from_code-code account_amount_transfers_only_allowed_for_fungible_common = refl
from_code-code max_nfts_in_price_regime_have_been_minted = refl
from_code-code payer_account_deleted = refl
from_code-code custom_fee_charging_exceeded_max_recursion_depth = refl
from_code-code custom_fee_charging_exceeded_max_account_amounts = refl
from_code-code insufficient_sender_account_balance_for_custom_fee = refl
from_code-code serial_number_limit_reached = refl
from_code-code custom_royalty_fee_only_allowed_for_non_fungible_unique = refl
from_code-code no_remaining_automatic_associations = refl
from_code-code existing_automatic_associations_exceed_given_limit = refl
from_code-code requested_num_automatic_associations_exceeds_association_limit = refl
from_code-code token_is_paused = refl
from_code-code token_has_no_pause_key = refl
from_code-code invalid_pause_key = refl
from_code-code freeze_update_file_does_not_exist = refl
from_code-code freeze_update_file_hash_does_not_match = refl
from_code-code no_upgrade_has_been_prepared = refl
from_code-code no_freeze_is_scheduled = refl
from_code-code update_file_hash_changed_since_prepare_upgrade = refl
from_code-code freeze_start_time_must_be_future = refl
from_code-code prepared_update_file_is_immutable = refl
from_code-code freeze_already_scheduled = refl
from_code-code freeze_upgrade_in_progress = refl
from_code-code update_file_id_does_not_match_prepared = refl
from_code-code update_file_hash_does_not_match_prepared = refl
from_code-code consensus_gas_exhausted = refl
from_code-code reverted_success = refl
from_code-code max_storage_in_price_regime_has_been_used = refl
from_code-code invalid_alias_key = refl
from_code-code unexpected_token_decimals = refl
from_code-code invalid_proxy_account_id = refl
from_code-code invalid_transfer_account_id = refl
from_code-code invalid_fee_collector_account_id = refl
from_code-code alias_is_immutable = refl
from_code-code spender_account_same_as_owner = refl
from_code-code amount_exceeds_token_max_supply = refl
from_code-code negative_allowance_amount = refl
from_code-code cannot_approve_for_all_fungible_common = refl
from_code-code spender_does_not_have_allowance = refl
from_code-code amount_exceeds_allowance = refl
from_code-code max_allowances_exceeded = refl
from_code-code empty_allowances = refl
from_code-code spender_account_repeated_in_allowances = refl
from_code-code repeated_serial_nums_in_nft_allowances = refl
from_code-code fungible_token_in_nft_allowances = refl
from_code-code nft_in_fungible_token_allowances = refl
from_code-code invalid_allowance_owner_id = refl
from_code-code invalid_allowance_spender_id = refl
from_code-code repeated_allowances_to_delete = refl
from_code-code invalid_delegating_spender = refl
from_code-code delegating_spender_cannot_grant_approve_for_all = refl
from_code-code delegating_spender_does_not_have_approve_for_all = refl
from_code-code schedule_expiration_time_too_far_in_future = refl
from_code-code schedule_expiration_time_must_be_higher_than_consensus_time = refl
from_code-code schedule_future_throttle_exceeded = refl
from_code-code schedule_future_gas_limit_exceeded = refl
from_code-code invalid_ethereum_transaction = refl
from_code-code wrong_chain_id = refl
from_code-code wrong_nonce = refl
from_code-code access_list_unsupported = refl
from_code-code schedule_pending_expiration = refl
from_code-code contract_is_token_treasury = refl
from_code-code contract_has_non_zero_token_balances = refl
from_code-code contract_expired_and_pending_removal = refl
from_code-code contract_has_no_auto_renew_account = refl
from_code-code permanent_removal_requires_system_initiation = refl
from_code-code proxy_account_id_field_is_deprecated = refl
from_code-code self_staking_is_not_allowed = refl
from_code-code invalid_staking_id = refl
from_code-code staking_not_enabled = refl
from_code-code invalid_prng_range = refl
from_code-code max_entities_in_price_regime_have_been_created = refl
from_code-code invalid_full_prefix_signature_for_precompile = refl
from_code-code insufficient_balances_for_storage_rent = refl
from_code-code max_child_records_exceeded = refl
from_code-code insufficient_balances_for_renewal_fees = refl
from_code-code transaction_has_unknown_fields = refl
from_code-code account_is_immutable = refl
from_code-code alias_already_assigned = refl

-- The switch of `_fromCode` returns a constant exactly for the number that the constant was built
-- with; so each constant is found by its code, and every other number is an error.
pub from_code_iff : (c : ℕ) (s : Status) → (from_code c ≡ some s) ↔ (code s ≡ c)
unfolding from_code
from_code_iff c s = (switch_sound code cases c s cases_agree, λ e. rw (← e) (from_code-code s))
