-- ===== src/Transaction.antt =====
-- The base class of transactions, src/transaction/Transaction.js: its state, the tests for frozen, and
-- the setters. An error that is thrown is `none`, null is `none` too, bytes are numbers, and a set of keys
-- is a list. What a subclass puts into a body, and the encoding of bodies and signed transactions in
-- protobuf, are parameters: the record `Hooks`.
pub mod Freeze
pub mod Sign
pub mod Build
pub mod Submit
pub mod Setters
mod Tests
use Prim.Native.String.{String}
use u2u_sdk_js.Common.{
  ℕ, ◌*◌, ◌/◌, ◌%◌, ◌^◌, Bool, true, false, Option, none, some, List, [], ◌∷◌, ◌++◌, length, map,
  map_all, ltb, ◌==◌, ◌<◌, ◌≡◌, arith, ◌||◌, ◌>>=◌, ◌>>◌, guard, if◌then◌else◌,
}
use u2u_sdk_js.Common.Int.{ℤ}
use u2u_sdk_js.EntityId.Parse.{list_eq}
use u2u_sdk_js.LockList
use u2u_sdk_js.LockList.{LockList, Locked, done, list_is_locked}

-- A transaction id; its account is the text of an account id.
pub record TransactionId : Type 0 where
  pub account : String
  pub seconds : ℤ
  pub nanos : ℤ
  pub scheduled : Bool
  pub nonce : Option ℤ

-- The object of `_makeTransactionBody`.
pub record Body : Type 0 where
  pub content : List ℕ
  pub transaction_fee : Option ℕ
  pub memo : String
  pub transaction_id : TransactionId
  pub node_account_id : Option String
  pub valid_duration : ℕ

-- A pair of the prefix of a key and a signature.
pub record SigPair : Type 0 where
  pub pub_key_prefix : List ℕ
  pub signature : List ℕ

-- A signed transaction: `sigMap` and its `sigPair` can be null.
pub record Signed : Type 0 where
  pub body_bytes : List ℕ
  pub sig_map : Option (Option (List SigPair))

pub record Hooks : Type 0 where
  pub make_data : LockList TransactionId → List ℕ
  pub encode_body : Body → List ℕ
  pub encode_signed : Signed → List ℕ

-- A function that signs bytes.
abbrev pub Signer : Type 0
Signer = List ℕ → List ℕ

pub record Operator : Type 0 where
  pub account_id : String
  pub public_key : List ℕ
  pub transaction_signer : Signer

pub record Transaction : Type 0 where
  pub transactions : LockList (List ℕ)
  pub signed_transactions : LockList Signed
  pub signer_public_keys : List (List ℕ)
  pub transaction_valid_duration : ℕ
  pub max_transaction_fee : Option ℕ
  pub default_max_transaction_fee : ℕ
  pub transaction_memo : String
  pub transaction_ids : LockList TransactionId
  pub node_account_ids : LockList String
  pub public_keys : List (List ℕ)
  pub transaction_signers : List (Option Signer)
  pub regenerate_transaction_id : Option Bool
  pub sign_on_demand : Bool
  pub operator : Option Operator
  pub operator_account_id : Option String

-- `DEFAULT_TRANSACTION_VALID_DURATION`.
abbrev pub default_transaction_valid_duration : ℕ
default_transaction_valid_duration = 120

-- The base class; subclasses have other default fees. Fees are in the smallest units.
abbrev pub new_transaction : Transaction
new_transaction = record {
  transactions = LockList.new;
  signed_transactions = LockList.new;
  signer_public_keys = [];
  transaction_valid_duration = default_transaction_valid_duration;
  max_transaction_fee = none;
  default_max_transaction_fee = 2 * 10 ^ 8;
  transaction_memo = "";
  transaction_ids = LockList.new;
  node_account_ids = LockList.new;
  public_keys = [];
  transaction_signers = [];
  regenerate_transaction_id = none;
  sign_on_demand = false;
  operator = none;
  operator_account_id = none;
}

-- `isFrozen` and `_isFrozen`.
unfoldable pub is_frozen : Transaction → Bool
is_frozen t = ltb 0 (length t.signed_transactions.list)

unfoldable pub is_frozen_inner : Transaction → Bool
is_frozen_inner t =
    t.sign_on_demand
    || ltb 0 (length t.signed_transactions.list)
    || ltb 0 (length t.transactions.list)

abbrev pub not : Bool → Bool
not true = false
not false = true

unfoldable pub require_not_frozen : Transaction → Option (Unit {0})
unfolding is_frozen_inner
require_not_frozen t = guard (not (is_frozen_inner t))

unfoldable pub require_frozen : Transaction → Option (Unit {0})
unfolding is_frozen_inner
require_frozen t = guard (is_frozen_inner t)

pub require_frozen-some :
    (t : Transaction) → 0 < length t.signed_transactions.list → require_frozen t ≡ some tt
unfolding require_frozen is_frozen_inner
require_frozen-some t l = ground (arith, l)

unfoldable pub require_not_sign_on_demand : Transaction → Option (Unit {0})
require_not_sign_on_demand t = guard (not t.sign_on_demand)

unfoldable pub require_one_node_account_id : Transaction → Option (Unit {0})
require_one_node_account_id t = guard (length t.node_account_ids.list == 1)

-- A list that a method that can throw returns.
abbrev pub unlocked {ℓ} : {A : Type ℓ} → Locked A → Option (LockList A)
unlocked (done l) = some l
unlocked list_is_locked = none

-- The setters.
unfoldable pub set_node_account_ids : List String → Transaction → Option Transaction
unfolding require_not_frozen
set_node_account_ids ids t = do
  require_not_frozen t
  l ← unlocked (LockList.set_list (map some ids) t.node_account_ids)
  some (record t { node_account_ids = LockList.set_locked l })

unfoldable pub set_transaction_valid_duration : ℕ → Transaction → Option Transaction
unfolding require_not_frozen
set_transaction_valid_duration d t = do
  require_not_frozen t
  some (record t { transaction_valid_duration = d })

-- The argument of `setMaxTransactionFee`, which is not negative: a U2U, in the smallest units; a number,
-- text, Long or BigNumber, as the decimal number `digits / 10 ^ places`; or what BigNumber makes NaN.
pub data FeeAmount : Type 0 where
  u2u : ℕ → FeeAmount
  decimal : ℕ → ℕ → FeeAmount
  nan : FeeAmount

-- `new U2U(amount)` where the amount is not a U2U: it throws unless the amount in the smallest units,
-- of which a U2U has 10^8, is an integer.
unfoldable pub to_u2u : FeeAmount → Option ℕ
to_u2u (u2u n) = some n
to_u2u (decimal digits places) =
    if digits * 10 ^ 8 % 10 ^ places == 0 then some (digits * 10 ^ 8 / 10 ^ places) else none
to_u2u nan = none

unfoldable pub set_max_transaction_fee : FeeAmount → Transaction → Option Transaction
unfolding require_not_frozen
set_max_transaction_fee amount t = do
  require_not_frozen t
  fee ← to_u2u amount
  some (record t { max_transaction_fee = some fee })

unfoldable pub set_regenerate_transaction_id : Bool → Transaction → Option Transaction
unfolding require_not_frozen
set_regenerate_transaction_id b t = do
  require_not_frozen t
  some (record t { regenerate_transaction_id = some b })

unfoldable pub set_transaction_memo : String → Transaction → Option Transaction
unfolding require_not_frozen
set_transaction_memo memo t = do require_not_frozen t; some (record t { transaction_memo = memo })

unfoldable pub set_transaction_id : TransactionId → Transaction → Option Transaction
unfolding require_not_frozen
set_transaction_id id t = do
  require_not_frozen t
  l ← unlocked (LockList.set_list (some id ∷ []) t.transaction_ids)
  some (record t { transaction_ids = LockList.set_locked l })

-- The getter of the transaction id, which locks the list, and `_getTransactionId`.
unfoldable pub transaction_id : Transaction → Option TransactionId × Transaction
transaction_id t = if LockList.is_empty t.transaction_ids then (none, t) else (
  LockList.current t.transaction_ids,
  record t { transaction_ids = LockList.set_locked t.transaction_ids },
)

unfoldable pub get_transaction_id : Transaction → Option (TransactionId × Transaction)
unfolding transaction_id
get_transaction_id t = do id ← (transaction_id t).0; some (id, (transaction_id t).1)
