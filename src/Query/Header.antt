-- ===== src/Query/Header.antt =====
-- The payment in the header of a request of src/query/Query.js.
use Prim.Native.String.{String}
use u2u_sdk_js.Common.{
  ℕ, zero, suc, ◌≡◌, refl, sym, ap, ◌∙◌, true, Option, none, some, List, [], ◌∷◌, map, get_or,
  ◌>>=◌, if◌then◌else◌,
}
use u2u_sdk_js.Common.Int.{ℤ}
use u2u_sdk_js.LockList
use u2u_sdk_js.LockList.{LockList}
use u2u_sdk_js.Transaction.{TransactionId, Operator}
use u2u_sdk_js.Query.{QueryHooks, Query, make_payment_transaction, request_payment}
use u2u_sdk_js.Query.Pay.{paid}

get_or-map :
    (f : String → List ℕ) (nodes : List String) (i : ℕ)
    → get_or (map some (map f nodes)) i none ≡ (get_or (map some nodes) i none >>= λ n. some (f n))
get_or-map f [] i = refl
get_or-map f (n ∷ nodes) zero = refl
get_or-map f (n ∷ nodes) (suc i) = get_or-map f nodes i

-- Once the payments are made as by `before_execute-pays`, the header of a request carries, at every
-- index of the list of nodes, the payment that was made for the current node.
pub request_payment-current :
    (hooks : QueryHooks) (q : Query) (o : Operator) (id : TransactionId) (cost : ℤ)
    (nodes : List String) (index : Option ℕ)
    → hooks.is_payment_required ≡ true
    → q.node_account_ids.list ≡ map some nodes
    → let u = paid hooks q o id cost nodes in
      let v = record u { node_account_ids = record u.node_account_ids { index = index } } in
      request_payment hooks v ≡ (
        LockList.current v.node_account_ids >>= λ n.
        some (make_payment_transaction hooks id n (some o) cost))
unfolding request_payment LockList.current LockList.get LockList.set_locked
request_payment-current hooks q o id cost nodes none r l = simp r refl
request_payment-current hooks q o id cost nodes (some i) r l =
    let f : String → List ℕ = λ n. make_payment_transaction hooks id n (some o) cost in
    ap (λ b. if b then get_or (map some (map f nodes)) i none else none) r
    ∙ get_or-map f nodes i
    ∙ ap (λ ns. get_or ns i none >>= λ n. some (f n)) (sym l)
