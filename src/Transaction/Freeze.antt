-- ===== src/Transaction/Freeze.antt =====
-- `freezeWith` of src/transaction/Transaction.js, with the bodies that it makes.
pub mod Bodies
use Prim.Native.String.{String}
use u2u_sdk_js.Common.{
  ℕ, Bool, true, false, Option, none, some, List, [], ◌∷◌, map, map_all, ◌&&◌, ◌>>=◌, ◌>>◌, guard,
  if◌then◌else◌,
}
use u2u_sdk_js.Common.Int.{ℤ}
use u2u_sdk_js.LockList
use u2u_sdk_js.LockList.{LockList}
use u2u_sdk_js.Transaction.{
  TransactionId, Body, Signed, Hooks, Operator, Transaction, not, unlocked,
}

-- What the code reads of a client. `nodes` is the result of `getNodeAccountIdsForExecute`, and
-- `validates` says that `validateChecksum` of the account of an id does not throw.
pub record Client : Type 0 where
  pub client_sign_on_demand : Bool
  pub client_operator : Option Operator
  pub client_operator_account : Option String
  pub client_max_transaction_fee : Option ℕ
  pub default_regenerate : Bool
  pub nodes : List String
  pub validates : TransactionId → Bool

abbrev pub is_null {ℓ} : {A : Type ℓ} → Option A → Bool
is_null none = true
is_null (some _) = false

abbrev pub or_else {ℓ} : {A : Type ℓ} → Option A → Option A → Option A
or_else none b = b
or_else (some a) b = some a

module _ (hooks : Hooks) where
  open hooks use {make_data, encode_body}

  -- `_makeTransactionBody` and `_makeSignedTransaction`; with no current id the code throws.
  unfoldable pub make_transaction_body : Option String → Transaction → Option Body
  make_transaction_body node t = do
    id ← LockList.current t.transaction_ids
    some (record {
      content = make_data t.transaction_ids;
      transaction_fee = t.max_transaction_fee;
      memo = t.transaction_memo;
      transaction_id = id;
      node_account_id = node;
      valid_duration = t.transaction_valid_duration;
    })

  unfoldable pub make_signed_transaction : Option String → Transaction → Option Signed
  unfolding make_transaction_body
  make_signed_transaction node t = do
    body ← make_transaction_body node t
    some (record { body_bytes = encode_body body; sig_map = some (some []) })

  -- `_buildSignedTransactions`.
  unfoldable pub build_signed_transactions : Transaction → Option Transaction
  build_signed_transactions t =
      let build : Option Transaction = do
        made ← map_all (λ node. make_signed_transaction node t) t.node_account_ids.list
        l ← unlocked (LockList.set_list (map some made) t.signed_transactions)
        some (record t { signed_transactions = l })
      in if t.signed_transactions.locked then some t else build

-- `_setNodeAccountIds`, `_setTransactionId` and `_buildNewTransactionIdList`, with the id that is made
-- from the operator and the time.
unfoldable pub set_nodes_from : Option Client → Transaction → Option Transaction
set_nodes_from client t =
    let fill : Option Transaction = do
      c ← client
      l ← unlocked (LockList.set_list (map some c.nodes) t.node_account_ids)
      some (record t { node_account_ids = l })
    in if LockList.is_empty t.node_account_ids then fill else some t

unfoldable pub require_id : Transaction → Option (Unit {0})
require_id t = guard (not (is_null t.operator_account_id && LockList.is_empty t.transaction_ids))

-- A write at an index that is NaN changes no element.
unfoldable pub put_id : LockList TransactionId → TransactionId → Option ℕ → LockList TransactionId
put_id ids id none = ids
put_id ids id (some i) = LockList.set ids i (some id)

-- `TransactionId.withValidStart`.
abbrev pub with_valid_start : String → ℤ → ℤ → TransactionId
with_valid_start account seconds nanos = record {
  account = account;
  seconds = seconds;
  nanos = nanos;
  scheduled = false;
  nonce = none;
}

unfoldable pub build_new_transaction_id_list : ℤ → ℤ → Transaction → Transaction
build_new_transaction_id_list seconds nanos t = elim t.operator_account_id [
  | none ↦ t
  | some account ↦ if t.transaction_ids.locked then t else record t {
    transaction_ids =
        put_id t.transaction_ids (with_valid_start account seconds nanos) t.transaction_ids.index;
  }
]

-- The checksums of the ids; a hole of the list is a TypeError.
unfoldable pub validate_ids : Option Client → List (Option TransactionId) → Option (Unit {0})
validate_ids none ids = some tt
validate_ids (some c) [] = some tt
validate_ids (some c) (none ∷ ids) = none
validate_ids (some c) (some id ∷ ids) = do guard (c.validates id); validate_ids (some c) ids

-- The fields that `freezeWith` takes from the client first.
unfoldable pub take_client : Option Client → Transaction → Transaction
take_client none t = record t {
  sign_on_demand = false;
  operator = none;
  max_transaction_fee = or_else t.max_transaction_fee (some t.default_max_transaction_fee);
}
take_client (some c) t = record t {
  sign_on_demand = c.client_sign_on_demand;
  operator = c.client_operator;
  operator_account_id = or_else t.operator_account_id c.client_operator_account;
  max_transaction_fee =
      or_else t.max_transaction_fee
        (or_else c.client_max_transaction_fee (some t.default_max_transaction_fee));
  regenerate_transaction_id = or_else t.regenerate_transaction_id (some c.default_regenerate);
}

-- `freezeWith`; `seconds` and `nanos` are those of `Timestamp.generate()`.
unfoldable pub freeze_with : Hooks → ℤ → ℤ → Option Client → Transaction → Option Transaction
freeze_with hooks seconds nanos client t = do
  u ← set_nodes_from client (take_client client t)
  require_id u
  validate_ids client u.transaction_ids.list
  let v = build_new_transaction_id_list seconds nanos u
  if v.sign_on_demand then some v else build_signed_transactions hooks v
