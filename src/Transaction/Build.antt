-- ===== src/Transaction/Build.antt =====
-- The cache of encoded transactions: `_buildTransaction`, `_buildAllTransactions`, `toBytes` and
-- `_makeRequestAsync` of src/transaction/Transaction.js.
pub mod Cache
use u2u_sdk_js.Common.{
  ℕ, zero, suc, ◌+◌, ◌-◌, ◌*◌, Option, none, some, List, [], ◌∷◌, length, get_or, ◌==◌, ◌||◌, ◌>>=◌,
  ◌>>◌, if◌then◌else◌,
}
use u2u_sdk_js.LockList
use u2u_sdk_js.LockList.{LockList}
use u2u_sdk_js.Transaction.{
  Signed, Hooks, Signer, Transaction, unlocked, require_frozen, require_not_sign_on_demand,
}
use u2u_sdk_js.Transaction.Freeze.{make_signed_transaction}
use u2u_sdk_js.Transaction.Sign.{push_pair, lock_ids}

module _ (hooks : Hooks) where
  open hooks use {encode_signed}

  -- The first loop of `_buildTransaction`: nulls up to the index, one at a time.
  unfoldable pub pad : ℕ → LockList (List ℕ) → Option (LockList (List ℕ))
  pad zero l = some l
  pad (suc n) l = do m ← unlocked (LockList.push (none ∷ []) l); pad n m

  -- `setIfAbsent` is called with a function that throws if there is no signed transaction.
  unfoldable pub fill : ℕ → Option Signed → LockList (List ℕ) → Option (LockList (List ℕ))
  fill i (some s) l = some (LockList.set_if_absent l i (λ _. some (encode_signed s)))
  fill i none l =
      if i == length l.list || LockList.is_null (get_or l.list i none) then none else some l

  unfoldable pub build_transaction : ℕ → Transaction → Option Transaction
  build_transaction i t = do
    padded ← pad (i - length t.transactions.list) t.transactions
    l ← fill i (LockList.get t.signed_transactions i) padded
    some (record t { transactions = l })

  -- The loop of `_buildAllTransactions`, with the rounds that are left.
  unfoldable pub build_from : ℕ → ℕ → Transaction → Option Transaction
  build_from zero i t = some t
  build_from (suc left) i t = do u ← build_transaction i t; build_from left (suc i) u

  unfoldable pub build_all_transactions : Transaction → Option Transaction
  build_all_transactions t = build_from (length t.signed_transactions.list) 0 t

  -- `toBytes`: the list that is encoded.
  unfoldable pub to_bytes : Transaction → Option (List (Option (List ℕ)) × Transaction)
  to_bytes t = do
    require_frozen t
    require_not_sign_on_demand t
    u ← build_all_transactions (lock_ids t)
    some (u.transactions.list, u)

  -- `_signTransaction`: all signers that are not null sign a new body for the next node.
  unfoldable pub sign_for : List (List ℕ) → List (Option Signer) → Signed → Signed
  sign_for (key ∷ keys) (some signer ∷ signers) s =
      sign_for keys signers
        (push_pair (record { pub_key_prefix = key; signature = signer s.body_bytes }) s)
  sign_for (key ∷ keys) (none ∷ signers) s = sign_for keys signers s
  sign_for _ _ s = s

  unfoldable pub sign_transaction : Transaction → Option (Signed × Transaction)
  sign_transaction t =
      let (node, nodes) = LockList.next t.node_account_ids in
      do
        s ← make_signed_transaction hooks node (record t { node_account_ids = nodes })
        some (sign_for t.public_keys t.transaction_signers s, record t { node_account_ids = nodes })

  -- `_makeRequestAsync`, where an index that is NaN makes the code throw.
  unfoldable pub request_index : Transaction → Option ℕ
  request_index t = do
    i ← t.transaction_ids.index
    j ← t.node_account_ids.index
    some (i * length t.node_account_ids.list + j)

  unfoldable pub make_request : Transaction → Option (Option (List ℕ) × Transaction)
  make_request t =
      let cached : Option (Option (List ℕ) × Transaction) = do
        i ← request_index t
        u ← build_transaction i t
        some (LockList.get u.transactions i, u)
      in let made : Option (Option (List ℕ) × Transaction) = do
        r ← sign_transaction t
        some (some (encode_signed r.0), r.1)
        in if t.sign_on_demand then made else cached
