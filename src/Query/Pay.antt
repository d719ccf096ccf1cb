-- ===== src/Query/Pay.antt =====
-- What `_beforeExecute` of src/query/Query.js makes: the payments, and the limit on the cost.
use Prim.Native.String.{String}
use u2u_sdk_js.Common.{
  ℕ, ◌≡◌, refl, ap, ◌∙◌, Bool, true, false, Option, none, some, List, [], ◌∷◌, length, map, ltb,
  ◌>>=◌, if◌then◌else◌, ◌||◌, arith,
}
use u2u_sdk_js.Common.Int.{ℤ, pos, ltb_ℤ}
use u2u_sdk_js.LockList
use u2u_sdk_js.LockList.{LockList}
use u2u_sdk_js.Transaction.{TransactionId, Operator, not}
use u2u_sdk_js.Transaction.Freeze.{or_else}
use u2u_sdk_js.Query.{
  QueryHooks, QueryClient, Query, Prepared, ready, failed, and_then, or_fail, no_operator,
  list_is_locked, bad_checksum, max_query_payment_exceeded, make_payment_transaction, fill_nodes,
  cost_before_execute, get_cost, take_id, check_cost, ask_cost, unless_set, take_cost, pay,
  take_operator, choose_nodes, payments_for, push_payments, make_payments, before_execute,
}

-- The limit on the cost.
abbrev pub limit_of : QueryClient → Query → ℤ
limit_of client q = elim q.max_query_payment [ none ↦ client.client_max_query_payment | some m ↦ m ]

-- The query before the question of its cost.
abbrev pub identified : Query → Operator → TransactionId → Query
identified q o id = record q { operator = some o; payment_transaction_id = some id }

-- The query with one payment for each node.
abbrev pub paid : QueryHooks → Query → Operator → TransactionId → ℤ → List String → Query
paid hooks q o id cost nodes = record (identified q o id) {
  query_payment = some cost;
  node_account_ids = LockList.set_locked q.node_account_ids;
  payment_transactions = map (λ n. make_payment_transaction hooks id n (some o) cost) nodes;
}

payments_for-nodes :
    (hooks : QueryHooks) (id : TransactionId) (operator : Option Operator) (amount : ℤ)
    (nodes : List String)
    → payments_for hooks id operator amount (map some nodes)
      ≡ (map (λ n. make_payment_transaction hooks id n operator amount) nodes, true)
unfolding payments_for
payments_for-nodes hooks id operator amount [] = refl
payments_for-nodes hooks id operator amount (n ∷ nodes) =
    rw (payments_for-nodes hooks id operator amount nodes) refl

fill_nodes-given :
    (client : QueryClient) (q : Query)
    → LockList.is_empty q.node_account_ids ≡ false
    → fill_nodes client q ≡ some q
unfolding fill_nodes
fill_nodes-given client q e = rw e refl

fill_nodes-keeps :
    (client : QueryClient) (q r : Query)
    → fill_nodes client q ≡ some r
    → r ≡ record q { node_account_ids = r.node_account_ids }
unfolding fill_nodes LockList.set_list
fill_nodes-keeps client q r h = ground arith

cost_before_execute-given :
    (hooks : QueryHooks) (client : QueryClient) (ids : ℕ → String → TransactionId) (q : Query)
    (o : Operator) (id : TransactionId)
    → LockList.is_empty q.node_account_ids ≡ false
    → cost_before_execute hooks client ids (identified q o id)
      ≡ some (
        make_payment_transaction hooks (ids 2 "0.0.0") "0.0.0" (some o) (pos 0),
        identified q o id,
      )
unfolding cost_before_execute
cost_before_execute-given hooks client ids q o id e =
    rw (fill_nodes-given client (identified q o id) e) refl

get_cost-given :
    (hooks : QueryHooks) (client : QueryClient) (ids : ℕ → String → TransactionId)
    (answer : List ℕ → Option ℤ) (q : Query) (o : Operator) (id : TransactionId) (cost : ℤ)
    → LockList.is_empty q.node_account_ids ≡ false
    → answer (make_payment_transaction hooks (ids 2 "0.0.0") "0.0.0" (some o) (pos 0)) ≡ some cost
    → get_cost hooks client ids answer (identified q o id)
      ≡ some (hooks.margin cost, identified q o id)
unfolding get_cost
get_cost-given hooks client ids answer q o id cost e a =
    rw
      (
        fill_nodes-given client (identified q o id) e,
        cost_before_execute-given hooks client ids q o id e,
        a,
      )
      refl

make_payments-paid :
    (hooks : QueryHooks) (q : Query) (o : Operator) (id : TransactionId) (cost : ℤ)
    (nodes : List String)
    → hooks.is_payment_required ≡ true
    → q.payment_transactions ≡ []
    → q.node_account_ids.list ≡ map some nodes
    → make_payments hooks (record (identified q o id) { query_payment = some cost })
      ≡ ready (paid hooks q o id cost nodes)
unfolding make_payments push_payments LockList.set_locked
make_payments-paid hooks q o id cost nodes r n l =
    rw (l, n) (simp (r, payments_for-nodes hooks id (some o) cost nodes) refl)

take_cost-asked :
    (hooks : QueryHooks) (client : QueryClient) (ids : ℕ → String → TransactionId)
    (answer : List ℕ → Option ℤ) (q : Query) (o : Operator) (id : TransactionId) (cost : ℤ)
    → hooks.is_payment_required ≡ true
    → q.query_payment ≡ none
    → LockList.is_empty q.node_account_ids ≡ false
    → answer (make_payment_transaction hooks (ids 2 "0.0.0") "0.0.0" (some o) (pos 0)) ≡ some cost
    → take_cost hooks client ids answer (identified q o id)
      ≡ check_cost hooks client (hooks.margin cost) (identified q o id)
unfolding take_cost ask_cost
take_cost-asked hooks client ids answer q o id cost r p e a =
    let x = identified q o id in
    let asked : ask_cost hooks client ids answer x ≡ check_cost hooks client (hooks.margin cost) x =
      rw (ask_cost, get_cost-given hooks client ids answer q o id cost e a) refl in
    let zero_cost = ready (record x { query_payment = some (pos 0) }) in
    ap
      (λ z.
        unless_set z x
          (if hooks.is_payment_required then ask_cost hooks client ids answer x else zero_cost))
      p
    ∙ ap (λ b. if b then ask_cost hooks client ids answer x else zero_cost) r
    ∙ asked

and_then-if :
    (b : Bool) (p : Prepared) (q : Query) (f : Query → Prepared) {r : Prepared}
    → ((g : Query → Prepared) → and_then p g ≡ p)
    → f q ≡ r
    → and_then (if b then p else ready q) f ≡ (if b then p else r)
and_then-if true p q f h e = h f
and_then-if false p q f h e = e

-- The part that follows the choice of the nodes.
pay-paid :
    (hooks : QueryHooks) (client : QueryClient) (ids : ℕ → String → TransactionId)
    (answer : List ℕ → Option ℤ) (q : Query) (o : Operator) (id : TransactionId) (cost : ℤ)
    (node : String) (nodes : List String)
    → hooks.is_payment_required ≡ true
    → q.query_payment ≡ none
    → q.payment_transactions ≡ []
    → q.node_account_ids.list ≡ map some (node ∷ nodes)
    → answer (make_payment_transaction hooks (ids 2 "0.0.0") "0.0.0" (some o) (pos 0)) ≡ some cost
    → pay hooks client ids answer (identified q o id) ≡ (
        if ltb_ℤ (hooks.to_int (limit_of client q)) (hooks.to_int (hooks.margin cost))
        then failed
            (max_query_payment_exceeded (hooks.margin cost) (limit_of client q))
            (identified q o id)
        else ready (paid hooks q o id (hooks.margin cost) (node ∷ nodes)))
unfolding pay check_cost LockList.is_empty
pay-paid hooks client ids answer q o id cost node nodes r p n l a =
    let over = ltb_ℤ (hooks.to_int (limit_of client q)) (hooks.to_int (hooks.margin cost)) in
    rw (take_cost-asked hooks client ids answer q o id cost r p (ground (arith, l)) a) (
      and_then-if over _ _ _ (λ g. refl)
        (make_payments-paid hooks q o id (hooks.margin cost) (node ∷ nodes) r n l))

take_id-given :
    (hooks : QueryHooks) (ids : ℕ → String → TransactionId) (q : Query) (o : Operator)
    (m : Option TransactionId) (id : TransactionId)
    → hooks.is_payment_required ≡ true
    → or_else m (some (ids 0 o.account_id)) ≡ some id
    → take_id hooks ids (record q { operator = some o; payment_transaction_id = m })
      ≡ some (identified q o id)
unfolding take_id
take_id-given hooks ids q o none id r e = simp r (ap (λ i. i >>= λ j. some (identified q o j)) e)
take_id-given hooks ids q o (some m) id r e = ap (λ i. i >>= λ j. some (identified q o j)) e

take_operator-given :
    (hooks : QueryHooks) (client : QueryClient) (ids : ℕ → String → TransactionId)
    (answer : List ℕ → Option ℤ) (q : Query) (o : Operator) (id : TransactionId)
    → hooks.is_payment_required ≡ true
    → or_else q.operator client.client_operator ≡ some o
    → or_else q.payment_transaction_id (some (ids 0 o.account_id)) ≡ some id
    → take_operator hooks client ids answer q ≡ pay hooks client ids answer (identified q o id)
unfolding take_operator
take_operator-given hooks client ids answer q o id r op i =
    let start : Option Operator → Prepared = λ m.
      let u : Query = record q { operator = m } in
      and_then (or_fail no_operator u (take_id hooks ids u)) (pay hooks client ids answer) in
    ap start op ∙ rw (take_id-given hooks ids q o q.payment_transaction_id id r i) refl

-- Before a query that must be paid is executed with no payment set: let the checksums be right, let the
-- nodes be given by the query or else by the client, and let the operator and the node's answer to the
-- request for the cost be there. If the limit is below the cost with its margin, both taken by `toInt`,
-- then `_beforeExecute` fails with both amounts and has made no payment. Else it succeeds, the list of
-- nodes is locked, and there is one payment of the cost for each node, in order, from the operator and
-- with one transaction id.
pub before_execute-pays :
    (hooks : QueryHooks) (client : QueryClient) (ids : ℕ → String → TransactionId)
    (answer : List ℕ → Option ℤ) (q r : Query) (o : Operator) (id : TransactionId) (cost : ℤ)
    (node : String) (nodes : List String)
    → (not client.auto_validate_checksums || hooks.checksums_valid) ≡ true
    → hooks.is_payment_required ≡ true
    → q.query_payment ≡ none
    → q.payment_transactions ≡ []
    → fill_nodes client q ≡ some r
    → r.node_account_ids.list ≡ map some (node ∷ nodes)
    → or_else q.operator client.client_operator ≡ some o
    → or_else q.payment_transaction_id (some (ids 0 o.account_id)) ≡ some id
    → answer (make_payment_transaction hooks (ids 2 "0.0.0") "0.0.0" (some o) (pos 0)) ≡ some cost
    → before_execute hooks client ids answer q ≡ (
        if ltb_ℤ (hooks.to_int (limit_of client q)) (hooks.to_int (hooks.margin cost))
        then failed
            (max_query_payment_exceeded (hooks.margin cost) (limit_of client q))
            (identified r o id)
        else ready (paid hooks r o id (hooks.margin cost) (node ∷ nodes)))
unfolding before_execute choose_nodes
before_execute-pays hooks client ids answer q r o id cost node nodes v req p n f l op i a =
    let k = fill_nodes-keeps client q r f in
    let chosen : choose_nodes hooks client ids answer q ≡ take_operator hooks client ids answer r =
      ap (λ z. and_then (or_fail list_is_locked q z) (take_operator hooks client ids answer)) f in
    let result : ℤ → Prepared = λ limit.
      if ltb_ℤ (hooks.to_int limit) (hooks.to_int (hooks.margin cost))
      then failed (max_query_payment_exceeded (hooks.margin cost) limit) (identified r o id)
      else ready (paid hooks r o id (hooks.margin cost) (node ∷ nodes)) in
    ap
      (λ xs.
        if ltb 0 (length xs)
        then ready q
        else if not client.auto_validate_checksums || hooks.checksums_valid
        then choose_nodes hooks client ids answer q
        else failed bad_checksum q)
      n
    ∙ ap (λ b. if b then choose_nodes hooks client ids answer q else failed bad_checksum q) v
    ∙ chosen
    ∙ take_operator-given hooks client ids answer r o id req
        (ap (λ z. or_else z.operator client.client_operator) k ∙ op)
        (ap (λ z. or_else z.payment_transaction_id (some (ids 0 o.account_id))) k ∙ i)
    ∙ pay-paid hooks client ids answer r o id cost node nodes req (ap (λ z. z.query_payment) k ∙ p)
        (ap (λ z. z.payment_transactions) k ∙ n) l a
    ∙ ap result (ap (limit_of client) k)
