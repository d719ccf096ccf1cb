-- ===== src/Query/Tests.antt =====
-- Tests and examples on concrete queries.
use Prim.Native.String.{String}
use u2u_sdk_js.Common.{
  ℕ, ◌≡◌, ◌↔◌, ◌+◌, ◌*◌, ◌/◌, ◌^◌, refl, true, false, none, some, [], ◌∷◌, ◌>>=◌, if◌then◌else◌,
  arith,
}
use u2u_sdk_js.Common.Int.{ℤ, pos, negsuc, ltb_ℤ}
use u2u_sdk_js.LockList
use u2u_sdk_js.Enums.Status.{ok, success, transaction_expired}
use u2u_sdk_js.Enums.Status.Code.{code, from_code}
use u2u_sdk_js.Execute.{finished, retry}
use u2u_sdk_js.Transaction.{TransactionId, Operator, Transaction, new_transaction}
use u2u_sdk_js.Transaction.Sign.{has_key, sign_with}
use u2u_sdk_js.Query.{
  QueryHooks, QueryClient, Query, ready, failed, max_query_payment_exceeded,
  make_payment_transaction, fill_nodes, check_cost, before_execute, request_payment,
}
use u2u_sdk_js.Query.Pay.{limit_of, identified, paid, before_execute-pays}
use u2u_sdk_js.Query.Header.{request_payment-current}
use u2u_sdk_js.Query.Limit.{low_word, check_cost_truncates}
use u2u_sdk_js.Query.Retry.{
  Response, precheck_status, query_should_retry, receipt_should_retry, record_should_retry,
  transaction_should_retry,
}
use u2u_sdk_js.Query.Retry.Final.{finished_iff}
use u2u_sdk_js.Query.Retry.Expired.{expired_same}

abbrev low_word_of : ℤ → ℤ
low_word_of (pos n) = low_word n
low_word_of (negsuc n) = negsuc n

abbrev with_margin : ℤ → ℤ
with_margin (pos n) = pos ((n * 11 + 5) / 10)
with_margin a = a

abbrev some_hooks : QueryHooks
some_hooks = record {
  is_payment_required = true;
  checksums_valid = true;
  encode_payment = λ b. b.valid_seconds ∷ [];
  encode_signed = λ s. s.body_bytes;
  to_int = low_word_of;
  margin = with_margin;
}

abbrev some_operator : Operator
some_operator = record {
  account_id = "0.0.2";
  public_key = 9 ∷ [];
  transaction_signer = λ bytes. 1 ∷ bytes;
}

abbrev some_client : QueryClient
some_client = record {
  auto_validate_checksums = false;
  nodes = "0.0.3" ∷ "0.0.4" ∷ [];
  client_operator = some some_operator;
  client_max_query_payment = pos 100;
}

abbrev new_query : Query
new_query = record {
  payment_transaction_id = none;
  payment_transactions = [];
  query_payment = none;
  max_query_payment = none;
  node_account_ids = LockList.new;
  operator = none;
}

abbrev ids : ℕ → String → TransactionId
ids n account = record {
  account = account;
  seconds = pos n;
  nanos = pos 0;
  scheduled = false;
  nonce = none;
}

abbrev filled : Query
filled = record new_query {
  node_account_ids = record {
    list = some "0.0.3" ∷ some "0.0.4" ∷ [];
    locked = false;
    index = some 0;
  };
}

-- The cost is 50, and 55 with its margin.
before_execute-pays_example :
    before_execute some_hooks some_client ids (λ _. some (pos 50)) new_query ≡ (
      if ltb_ℤ
        (some_hooks.to_int (limit_of some_client new_query))
        (some_hooks.to_int (some_hooks.margin (pos 50)))
      then failed
          (max_query_payment_exceeded (some_hooks.margin (pos 50)) (limit_of some_client new_query))
          (identified filled some_operator (ids 0 "0.0.2"))
      else ready (
          paid some_hooks filled some_operator
            (ids 0 "0.0.2")
            (some_hooks.margin (pos 50))
            ("0.0.3" ∷ "0.0.4" ∷ [])))
unfolding fill_nodes LockList.is_empty LockList.set_list
before_execute-pays_example =
    before_execute-pays some_hooks some_client ids (λ _. some (pos 50)) new_query filled
      some_operator (ids 0 "0.0.2") (pos 50) "0.0.3" ("0.0.4" ∷ []) refl refl refl refl refl refl
      refl refl refl

abbrev paid_query : Query
paid_query = paid some_hooks filled some_operator (ids 0 "0.0.2") (pos 55) ("0.0.3" ∷ "0.0.4" ∷ [])

abbrev at_second : Query
at_second = record paid_query {
  node_account_ids = record paid_query.node_account_ids { index = some 1 };
}

request_payment-current_example : request_payment some_hooks at_second ≡ (
    LockList.current at_second.node_account_ids >>= λ n.
    some (make_payment_transaction some_hooks (ids 0 "0.0.2") n (some some_operator) (pos 55)))
request_payment-current_example =
    request_payment-current some_hooks filled some_operator (ids 0 "0.0.2") (pos 55)
      ("0.0.3" ∷ "0.0.4" ∷ []) (some 1) refl refl

-- A cost of 4294967296 units under a limit of 100.
check_cost_truncates_example :
    check_cost some_hooks some_client (pos (1 * 2 ^ 32)) new_query
    ≡ ready (record new_query { query_payment = some (pos (1 * 2 ^ 32)) })
check_cost_truncates_example =
    check_cost_truncates some_hooks some_client 1 100 new_query (λ n. refl) refl (omega arith)

abbrev answered : Response
answered = record { precheck_code = some 0; is_cost_answer = false; receipt_status = some 22 }

finished_iff_example :
    (receipt_should_retry true answered ≡ some (success, finished)
      ↔ (precheck_status answered.precheck_code ≡ some ok)
        × ((answered.receipt_status >>= from_code) ≡ some success)
        × (success ≡ success))
    × (record_should_retry true (record answered { is_cost_answer = false })
          ≡ some (success, finished)
        ↔ (precheck_status answered.precheck_code ≡ some ok)
          × ((answered.receipt_status >>= from_code) ≡ some success)
          × (success ≡ success))
    × (record_should_retry true (record answered { is_cost_answer = true })
          ≡ some (success, finished)
        ↔ (precheck_status answered.precheck_code ≡ some ok) × (success ≡ ok))
    × (query_should_retry answered.precheck_code ≡ some (success, finished)
        ↔ (precheck_status answered.precheck_code ≡ some ok) × (success ≡ ok))
finished_iff_example = finished_iff answered success

abbrev frozen : Transaction
frozen = record new_transaction {
  signed_transactions = record {
    list = some (record { body_bytes = 1 ∷ []; sig_map = none }) ∷ [];
    locked = false;
    index = some 0;
  };
}

expired_same_example :
    (u : Transaction) × (sign_with (8 ∷ []) (λ bytes. bytes) frozen ≡ some u)
    × (transaction_should_retry (pos 7) (pos 0) (some (code transaction_expired)) u
        ≡ some ((transaction_expired, retry), u))
unfolding has_key
expired_same_example =
    expired_same (8 ∷ []) (λ bytes. bytes) frozen
      (record { body_bytes = 1 ∷ []; sig_map = none } ∷ []) (pos 7) (pos 0) refl (omega arith) refl
      refl refl
