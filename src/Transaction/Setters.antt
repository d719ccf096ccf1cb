-- ===== src/Transaction/Setters.antt =====
-- When the setters of src/transaction/Transaction.js throw.
use Prim.Native.String.{String}
use u2u_sdk_js.Common.{ℕ, ◌<◌, length, ◌≡◌, ◌↔◌, ◌⊎◌, Bool, true, none, List, arith}
use u2u_sdk_js.LockList
use u2u_sdk_js.Transaction.{
  TransactionId, Transaction, FeeAmount, to_u2u, is_frozen_inner, require_not_frozen,
  set_node_account_ids, set_transaction_valid_duration, set_max_transaction_fee,
  set_regenerate_transaction_id, set_transaction_memo, set_transaction_id,
}

-- Signing on demand, a signed transaction, or an encoded one.
abbrev pub IsFrozen : Transaction → Type 0
IsFrozen t =
    (t.sign_on_demand ≡ true)
    ⊎ (0 < length t.signed_transactions.list)
    ⊎ (0 < length t.transactions.list)

-- With signing on demand, with a signed transaction or with an encoded one, and in no other state, the
-- setters of the plain fields throw; the one of the fee throws also for an amount that `new U2U`
-- throws for, and a setter of a list also for a locked list.
pub setters_throw_iff :
    (t : Transaction) (nodes : List String) (id : TransactionId) (n : ℕ) (fee : FeeAmount)
    (b : Bool) (memo : String)
    → (set_transaction_valid_duration n t ≡ none ↔ IsFrozen t)
      × (set_max_transaction_fee fee t ≡ none ↔ IsFrozen t ⊎ (to_u2u fee ≡ none))
      × (set_regenerate_transaction_id b t ≡ none ↔ IsFrozen t)
      × (set_transaction_memo memo t ≡ none ↔ IsFrozen t)
      × (set_node_account_ids nodes t ≡ none ↔ IsFrozen t ⊎ (t.node_account_ids.locked ≡ true))
      × (set_transaction_id id t ≡ none ↔ IsFrozen t ⊎ (t.transaction_ids.locked ≡ true))
unfolding set_transaction_valid_duration set_max_transaction_fee set_regenerate_transaction_id
    set_transaction_memo set_node_account_ids set_transaction_id require_not_frozen is_frozen_inner
    LockList.set_list
setters_throw_iff t nodes id n fee b memo = ground arith
