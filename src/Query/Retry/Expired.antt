-- ===== src/Query/Retry/Expired.antt =====
-- A transaction that has expired: `_shouldRetry` and `_buildNewTransactionIdList` of
-- src/transaction/Transaction.js.
use u2u_sdk_js.Common.{
  ℕ, ◌≡◌, ◌<◌, refl, ap, ◌∙◌, true, false, Option, some, List, map, length, if◌then◌else◌,
}
use u2u_sdk_js.Common.Int.{ℤ}
use u2u_sdk_js.LockList
use u2u_sdk_js.Enums.Status.{Status, transaction_expired}
use u2u_sdk_js.Enums.Status.Code.{code, from_code}
use u2u_sdk_js.Execute.{ExecutionState, retry, error}
use u2u_sdk_js.Transaction.{Signed, Signer, Transaction}
use u2u_sdk_js.Transaction.Freeze.{build_new_transaction_id_list}
use u2u_sdk_js.Transaction.Freeze.Bodies.{build_new-locked}
use u2u_sdk_js.Transaction.Sign.{has_key, sign_with, lock_ids, begin_signing}
use u2u_sdk_js.Transaction.Submit.{sign_with-list}
use u2u_sdk_js.Query.Retry.{
  regenerates, on_expired, precheck_status, transaction_should_retry, one_of,
}

expired-locked :
    (seconds nanos : ℤ) (t : Transaction)
    → t.transaction_ids.locked ≡ true
    → regenerates t.regenerate_transaction_id ≡ true
    → transaction_should_retry seconds nanos (some (code transaction_expired)) t
      ≡ some ((transaction_expired, retry), t)
unfolding transaction_should_retry on_expired precheck_status from_code one_of code
    u2u_sdk_js.Enums.Switch.switch
expired-locked seconds nanos t l r =
    let answer : Transaction → Option ((Status × ExecutionState) × Transaction) =
      λ u. some ((transaction_expired, retry), u) in
    let whole : (Status × ExecutionState) × Transaction
        → Option ((Status × ExecutionState) × Transaction) =
      λ z. some z in
    ap
      (λ b. whole (
        if b
        then ((transaction_expired, retry), build_new_transaction_id_list seconds nanos t)
        else ((transaction_expired, error), t)))
      r
    ∙ ap answer (build_new-locked seconds nanos t l)

-- A frozen transaction that a new key has signed, without signing on demand, keeps its id when a node
-- answers that it has expired: the answer is to be retried, and the transaction that is sent again is
-- the same, although a new id is wanted.
pub expired_same :
    (key : List ℕ) (signer : Signer) (t : Transaction) (xs : List Signed) (seconds nanos : ℤ)
    → t.signed_transactions.list ≡ map some xs
    → 0 < length xs
    → t.sign_on_demand ≡ false
    → has_key key t.signer_public_keys ≡ false
    → regenerates t.regenerate_transaction_id ≡ true
    → (u : Transaction) × (sign_with key signer t ≡ some u)
      × (transaction_should_retry seconds nanos (some (code transaction_expired)) u
          ≡ some ((transaction_expired, retry), u))
unfolding lock_ids begin_signing LockList.set_locked
expired_same key signer t xs seconds nanos e l f h r =
    (_, sign_with-list key signer xs t e l f h, expired-locked seconds nanos _ refl r)
