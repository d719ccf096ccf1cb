-- ===== src/Query/Retry.antt =====
-- `_shouldRetry` of src/transaction/Transaction.js, src/query/Query.js,
-- src/transaction/TransactionReceiptQuery.js and src/transaction/TransactionRecordQuery.js. A code that
-- `Status._fromCode` does not know, and a receipt that is missing, make the code throw: `none`. The
-- constants of `Status` are different objects with different codes, so a case of a switch compares codes.
pub mod Final
pub mod Expired
use u2u_sdk_js.Common.{
  ℕ, Bool, true, false, Option, none, some, List, [], ◌∷◌, ◌==◌, ◌||◌, ◌>>=◌, ◌>>◌, guard,
  if◌then◌else◌,
}
use u2u_sdk_js.Common.Int.{ℤ}
use u2u_sdk_js.Enums.Status.{
  Status, ok, busy, unknown, success, receipt_not_found, record_not_found, platform_not_active,
  platform_transaction_not_created, transaction_expired,
}
use u2u_sdk_js.Enums.Status.Code.{code, from_code}
use u2u_sdk_js.Execute.{ExecutionState, finished, retry, error}
use u2u_sdk_js.Transaction.{Transaction}
use u2u_sdk_js.Transaction.Freeze.{build_new_transaction_id_list}

-- The cases of a switch.
unfoldable pub one_of : Status → List Status → Bool
unfolding code
one_of s [] = false
one_of s (t ∷ ts) = code s == code t || one_of s ts

-- `Status._fromCode(code != null ? code : OK)`.
unfoldable pub precheck_status : Option ℕ → Option Status
unfolding from_code
precheck_status none = from_code 0
precheck_status (some c) = from_code c

-- `Transaction._shouldRetry`.
abbrev pub regenerates : Option Bool → Bool
regenerates none = true
regenerates (some b) = b

unfoldable pub on_expired : ℤ → ℤ → Status → Transaction → (Status × ExecutionState) × Transaction
on_expired seconds nanos s t =
    if regenerates t.regenerate_transaction_id
    then ((s, retry), build_new_transaction_id_list seconds nanos t)
    else ((s, error), t)

unfoldable pub transaction_should_retry :
    ℤ → ℤ → Option ℕ → Transaction → Option ((Status × ExecutionState) × Transaction)
unfolding one_of precheck_status on_expired
transaction_should_retry seconds nanos c t = do
  s ← precheck_status c
  some (
      if one_of s (busy ∷ unknown ∷ platform_transaction_not_created ∷ platform_not_active ∷ [])
      then ((s, retry), t)
      else if one_of s (ok ∷ [])
      then ((s, finished), t)
      else if one_of s (transaction_expired ∷ [])
      then on_expired seconds nanos s t
      else ((s, error), t))

-- `Query._shouldRetry`.
unfoldable pub query_state : Status → ExecutionState
unfolding one_of
query_state s =
    if one_of s (busy ∷ unknown ∷ platform_transaction_not_created ∷ [])
    then retry
    else if one_of s (ok ∷ [])
    then finished
    else error

unfoldable pub query_should_retry : Option ℕ → Option (Status × ExecutionState)
unfolding precheck_status query_state
query_should_retry c = do s ← precheck_status c; some (s, query_state s)

-- What the two queries read of a response: the precheck code, whether it answers with a cost, and the
-- status of the receipt.
pub record Response : Type 0 where
  pub precheck_code : Option ℕ
  pub is_cost_answer : Bool
  pub receipt_status : Option ℕ

-- The default of the second switch, with `_validateStatus` or `_validateReceiptStatus`.
abbrev pub by_validation : Bool → ExecutionState
by_validation true = error
by_validation false = finished

unfoldable pub receipt_state : Bool → Status → ExecutionState
unfolding one_of
receipt_state validate s =
    if one_of s (busy ∷ unknown ∷ receipt_not_found ∷ [])
    then retry
    else if one_of s (success ∷ [])
    then finished
    else by_validation validate

unfoldable pub receipt_should_retry : Bool → Response → Option (Status × ExecutionState)
unfolding one_of precheck_status receipt_state
receipt_should_retry validate response = do
  s ← precheck_status response.precheck_code
  let from_receipt : Option (Status × ExecutionState) = do
    c ← response.receipt_status
    r ← from_code c
    some (r, receipt_state validate r)
  if one_of s (busy ∷ unknown ∷ receipt_not_found ∷ [])
      then some (s, retry)
      else if one_of s (ok ∷ [])
      then from_receipt
      else some (s, error)

unfoldable pub record_state : Bool → Status → ExecutionState
unfolding one_of
record_state validate s =
    if one_of s (ok ∷ busy ∷ unknown ∷ receipt_not_found ∷ record_not_found ∷ [])
    then retry
    else if one_of s (success ∷ [])
    then finished
    else by_validation validate

unfoldable pub record_should_retry : Bool → Response → Option (Status × ExecutionState)
unfolding one_of precheck_status record_state
record_should_retry validate response = do
  s ← precheck_status response.precheck_code
  let from_record : Option (Status × ExecutionState) = do
    c ← response.receipt_status
    r ← from_code c
    some (r, record_state validate r)
  if one_of s (busy ∷ unknown ∷ receipt_not_found ∷ record_not_found ∷ [])
      then some (s, retry)
      else if one_of s (ok ∷ [])
      then if response.is_cost_answer then some (s, finished) else from_record
      else some (s, error)
