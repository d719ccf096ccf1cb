-- ===== src/Query.antt =====
-- Queries and their payments: src/query/Query.js and src/query/CostQuery.js. Amounts are in the
-- smallest units and fit a Long. An account id is its text, and `U2U(1)` is 100000000 units. What a
-- subclass says, protobuf, and two functions of numbers that are not in the repository are the record
-- `QueryHooks`; the log is left out.
pub mod Pay
pub mod Retry
pub mod Limit
pub mod Header
mod Tests
use Prim.Native.String.{String}
use u2u_sdk_js.Common.{
  ℕ, ◌≡◌, Bool, true, false, Option, none, some, List, [], ◌∷◌, ◌++◌, ◌||◌, length, map, ltb, ◌==◌,
  ◌>>=◌, ◌>>◌, guard, get_or, if◌then◌else◌, ◌&&◌,
}
use u2u_sdk_js.Common.Int.{ℤ, pos, ◌-ℤ◌, ltb_ℤ}
use u2u_sdk_js.LockList
use u2u_sdk_js.LockList.{LockList}
use u2u_sdk_js.Transaction.{TransactionId, SigPair, Signed, Operator, unlocked, not}
use u2u_sdk_js.Transaction.Freeze.{or_else, is_null}

-- The body of a payment; the amounts are pairs of an account and an amount.
pub record PaymentBody : Type 0 where
  pub transaction_id : TransactionId
  pub node_account_id : String
  pub transaction_fee : ℤ
  pub valid_seconds : ℕ
  pub account_amounts : List (String × ℤ)

-- `to_int` is `Long.toInt`, and `margin` is `multipliedBy(1.1).toFixed(0)` of a BigNumber.
-- `checksums_valid` says that `_validateChecksums` does not throw.
pub record QueryHooks : Type 0 where
  pub is_payment_required : Bool
  pub checksums_valid : Bool
  pub encode_payment : PaymentBody → List ℕ
  pub encode_signed : Signed → List ℕ
  pub to_int : ℤ → ℤ
  pub margin : ℤ → ℤ

pub record QueryClient : Type 0 where
  pub auto_validate_checksums : Bool
  pub nodes : List String
  pub client_operator : Option Operator
  pub client_max_query_payment : ℤ

pub record Query : Type 0 where
  pub payment_transaction_id : Option TransactionId
  pub payment_transactions : List (List ℕ)
  pub query_payment : Option ℤ
  pub max_query_payment : Option ℤ
  pub node_account_ids : LockList String
  pub operator : Option Operator

pub data QueryError : Type 0 where
  no_operator bad_checksum list_is_locked cost_query_failed null_node : QueryError
  max_query_payment_exceeded : ℤ → ℤ → QueryError

-- The end of `_beforeExecute`; after an error the fields that were set before stay set.
pub data Prepared : Type 0 where
  ready : Query → Prepared
  failed : QueryError → Query → Prepared

abbrev pub negated : ℤ → ℤ
negated a = pos 0 -ℤ a

-- `_makePaymentTransaction`.
abbrev pub payer : Option Operator → String
payer none = "0.0.0"
payer (some o) = o.account_id

abbrev pub one_unit : ℤ
one_unit = pos 100000000

unfoldable pub payment_body : TransactionId → String → Option Operator → ℤ → PaymentBody
payment_body id node operator amount = record {
  transaction_id = id;
  node_account_id = node;
  transaction_fee = one_unit;
  valid_seconds = 120;
  account_amounts = (payer operator, negated amount) ∷ (node, amount) ∷ [];
}

abbrev pub payment_sig_map : Option Operator → List ℕ → Option (Option (List SigPair))
payment_sig_map none bytes = none
payment_sig_map (some o) bytes =
    some
      (some (record { pub_key_prefix = o.public_key; signature = o.transaction_signer bytes } ∷ []))

-- The node ids, where none are set.
unfoldable pub fill_nodes : QueryClient → Query → Option Query
fill_nodes client q =
    let filled : Option Query = do
      l ← unlocked (LockList.set_list (map some client.nodes) q.node_account_ids)
      some (record q { node_account_ids = l })
    in if LockList.is_empty q.node_account_ids then filled else some q

-- The steps of `_beforeExecute`.
abbrev pub and_then : Prepared → (Query → Prepared) → Prepared
and_then (ready q) f = f q
and_then (failed e q) f = failed e q

abbrev pub or_fail : QueryError → Query → Option Query → Prepared
or_fail e q none = failed e q
or_fail e q (some u) = ready u

-- A payment that the user set is taken as it is.
abbrev pub unless_set : Option ℤ → Query → Prepared → Prepared
unless_set (some c) q otherwise = ready q
unless_set none q otherwise = otherwise

module _ (hooks : QueryHooks) where
  open hooks use {
    is_payment_required, checksums_valid, encode_payment, encode_signed, to_int, margin,
  }

  unfoldable pub make_payment_transaction : TransactionId → String → Option Operator → ℤ → List ℕ
  unfolding payment_body
  make_payment_transaction id node operator amount =
      let bytes = encode_payment (payment_body id node operator amount) in
      encode_signed (record { body_bytes = bytes; sig_map = payment_sig_map operator bytes })

  -- `_beforeExecute` of `CostQuery`: the payment of its header, and the query; `ids n account` is the
  -- n-th id that is generated, for the account.
  unfoldable pub cost_before_execute :
      QueryClient → (ℕ → String → TransactionId) → Query → Option (List ℕ × Query)
  unfolding fill_nodes
  cost_before_execute client ids q = do
    operator ← or_else q.operator client.client_operator
    u ← fill_nodes client q
    some (
      make_payment_transaction (ids 2 "0.0.0") "0.0.0" (some operator) (pos 0),
      record u {
        payment_transaction_id =
            or_else u.payment_transaction_id (some (ids 1 operator.account_id));
      },
    )

  -- `getCost`; `answer` is the cost that the node answers to a request with this payment.
  unfoldable pub get_cost :
      QueryClient → (ℕ → String → TransactionId) → (List ℕ → Option ℤ) → Query → Option (ℤ × Query)
  unfolding fill_nodes cost_before_execute
  get_cost client ids answer q = do
    u ← fill_nodes client q
    v ← cost_before_execute client ids u
    cost ← answer v.0
    some (margin cost, v.1)

  unfoldable pub take_id : (ℕ → String → TransactionId) → Query → Option Query
  take_id ids q =
      let with_id : String → Option Query =
        λ account. some (record q { payment_transaction_id = some (ids 0 account) }) in
      elim q.payment_transaction_id [
        | some id ↦ some q
        | none ↦
            if is_payment_required
            then (q.operator >>= λ o. with_id o.account_id)
            else with_id "0.0.0"
      ]

  -- The cost, checked against the limit unless the payment was set by the user.
  unfoldable pub check_cost : QueryClient → ℤ → Query → Prepared
  check_cost client cost q =
      let limit : ℤ = elim q.max_query_payment [
        | none ↦ client.client_max_query_payment
        | some m ↦ m
      ] in
      if ltb_ℤ (to_int limit) (to_int cost)
      then failed (max_query_payment_exceeded cost limit) q
      else ready (record q { query_payment = some cost })

  unfoldable pub ask_cost :
      QueryClient → (ℕ → String → TransactionId) → (List ℕ → Option ℤ) → Query → Prepared
  unfolding get_cost check_cost
  ask_cost client ids answer q = elim (get_cost client ids answer q) [
    | none ↦ failed cost_query_failed q
    | some (cost, u) ↦ check_cost client cost u
  ]

  unfoldable pub take_cost :
      QueryClient → (ℕ → String → TransactionId) → (List ℕ → Option ℤ) → Query → Prepared
  unfolding ask_cost
  take_cost client ids answer q = unless_set q.query_payment q (
      if is_payment_required
      then ask_cost client ids answer q
      else ready (record q { query_payment = some (pos 0) }))

  -- The loop over the node ids, and whether it ends; a null is a TypeError.
  unfoldable pub payments_for :
      TransactionId → Option Operator → ℤ → List (Option String) → List (List ℕ) × Bool
  payments_for id operator amount [] = ([], true)
  payments_for id operator amount (none ∷ nodes) = ([], false)
  payments_for id operator amount (some node ∷ nodes) =
      let rest = payments_for id operator amount nodes in
      (make_payment_transaction id node operator amount ∷ rest.0, rest.1)

  unfoldable pub push_payments : TransactionId → ℤ → Query → Prepared
  unfolding payments_for
  push_payments id amount q =
      let made =
        payments_for id (if is_payment_required then q.operator else none) amount
          q.node_account_ids.list in
      let u : Query = record q { payment_transactions = q.payment_transactions ++ made.0 } in
      if made.1 then ready u else failed null_node u

  -- The loop, with the list locked before it. The id and the payment are set by then.
  unfoldable pub make_payments : Query → Prepared
  unfolding push_payments
  make_payments q =
      let u : Query = record q { node_account_ids = LockList.set_locked q.node_account_ids } in
      elim q.payment_transaction_id [
        | none ↦ failed no_operator u
        | some id ↦ elim q.query_payment [
          | none ↦ failed cost_query_failed u
          | some amount ↦ push_payments id amount u
        ]
      ]

  -- `_beforeExecute`, from its end: the cost and the payments, the operator and the id, the nodes, and
  -- the checksums.
  unfoldable pub pay :
      QueryClient → (ℕ → String → TransactionId) → (List ℕ → Option ℤ) → Query → Prepared
  unfolding take_cost make_payments
  pay client ids answer q = and_then (take_cost client ids answer q) make_payments

  unfoldable pub take_operator :
      QueryClient → (ℕ → String → TransactionId) → (List ℕ → Option ℤ) → Query → Prepared
  unfolding take_id pay
  take_operator client ids answer q =
      let u : Query = record q { operator = or_else q.operator client.client_operator } in
      and_then (or_fail no_operator u (take_id ids u)) (pay client ids answer)

  unfoldable pub choose_nodes :
      QueryClient → (ℕ → String → TransactionId) → (List ℕ → Option ℤ) → Query → Prepared
  unfolding fill_nodes take_operator
  choose_nodes client ids answer q =
      and_then (or_fail list_is_locked q (fill_nodes client q)) (take_operator client ids answer)

  unfoldable pub before_execute :
      QueryClient → (ℕ → String → TransactionId) → (List ℕ → Option ℤ) → Query → Prepared
  unfolding choose_nodes
  before_execute client ids answer q =
      if ltb 0 (length q.payment_transactions)
      then ready q
      else if not client.auto_validate_checksums || checksums_valid
      then choose_nodes client ids answer q
      else failed bad_checksum q

  -- The payment of the header of `_makeRequestAsync`; `none` is a header without payment, and an index
  -- out of range or NaN reads as undefined.
  abbrev pub payment_at : List (List ℕ) → Option ℕ → Option (List ℕ)
  payment_at payments none = none
  payment_at payments (some i) = get_or (map some payments) i none

  unfoldable pub request_payment : Query → Option (List ℕ)
  request_payment q =
      let now : Option (List ℕ) = do
        node ← LockList.current q.node_account_ids
        id ← q.payment_transaction_id
        amount ← q.query_payment
        some (make_payment_transaction id node q.operator amount)
      in if is_payment_required
        then if q.node_account_ids.locked
          then payment_at q.payment_transactions q.node_account_ids.index
          else now
        else none
