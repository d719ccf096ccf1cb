-- ===== src/Query/Retry/Final.antt =====
-- Which responses end a request: src/query/Query.js, src/transaction/TransactionReceiptQuery.js and
-- src/transaction/TransactionRecordQuery.js.
use u2u_sdk_js.Common.{
  ℕ, ◌≡◌, ◌↔◌, refl, sym, ap, ◌∙◌, Bool, true, false, Option, none, some, List, [], ◌∷◌, ◌==◌, ◌||◌,
  ◌>>=◌, arith, if◌then◌else◌,
}
use u2u_sdk_js.Enums.Status.{
  Status, ok, busy, unknown, success, receipt_not_found, record_not_found,
}
use u2u_sdk_js.Enums.Status.Code.{code, from_code, from_code_iff}
use u2u_sdk_js.Execute.{ExecutionState, finished, retry, error}
use u2u_sdk_js.Query.Retry.{
  one_of, precheck_status, query_state, query_should_retry, Response, receipt_state,
  receipt_should_retry, record_state, record_should_retry,
}

code-injective : (s t : Status) → code s ≡ code t → s ≡ t
code-injective s t e =
    let p : from_code (code s) ≡ some s = (from_code_iff (code s) s).1 refl in
    let q : from_code (code s) ≡ some t = (from_code_iff (code s) t).1 (sym e) in
    ground (arith, sym p ∙ q)

eq_or_false : (m n : ℕ) → (m == n || false) ≡ true → m ≡ n
eq_or_false m n h = ground arith

one_of_self : (s t : Status) → one_of s (t ∷ []) ≡ true → s ≡ t
unfolding one_of
one_of_self s t h = code-injective s t (eq_or_false (code s) (code t) h)

-- The end of the switches, by the results of the tests.
finished_case :
    (a b : Bool) → (if a then retry else if b then finished else error) ≡ finished → b ≡ true
finished_case true b h = ground arith
finished_case false true h = refl
finished_case false false h = ground arith

query_state-finished : (s : Status) → query_state s ≡ finished ↔ s ≡ ok
unfolding query_state
query_state-finished s = (λ h. one_of_self s ok (finished_case _ _ h), λ e. rw e refl)

receipt_state-finished : (s : Status) → receipt_state true s ≡ finished ↔ s ≡ success
unfolding receipt_state
receipt_state-finished s = (λ h. one_of_self s success (finished_case _ _ h), λ e. rw e refl)

record_state-finished : (s : Status) → record_state true s ≡ finished ↔ s ≡ success
unfolding record_state
record_state-finished s = (λ h. one_of_self s success (finished_case _ _ h), λ e. rw e refl)

-- A response to the end, by the results of the tests of the first switch.
answer_case :
    (a b : Bool) (s : Status) (m : Option (Status × ExecutionState)) {r : Status}
    → (if a then some (s, retry) else if b then m else some (s, error)) ≡ some (r, finished)
    → (a ≡ false) × (b ≡ true) × (m ≡ some (r, finished))
answer_case true b s m h = ground arith
answer_case false true s m h = (refl, refl, h)
answer_case false false s m h = ground arith

abbrev with_state : (Status → ExecutionState) → Status → Option (Status × ExecutionState)
with_state state s = some (s, state s)

with_state-finished :
    (m : Option Status) (state : Status → ExecutionState) (t r : Status)
    → ((s : Status) → state s ≡ finished ↔ s ≡ t)
    → ((m >>= with_state state) ≡ some (r, finished)) ↔ (m ≡ some t) × (r ≡ t)
with_state-finished none state t r h = (λ e. ground arith, λ e. ground arith)
with_state-finished (some s) state t r h = (
  λ e.
      let p : s ≡ r = ground arith in
      let f : state s ≡ finished = ground arith in
      let g : s ≡ t = (h s).0 f in (ap some g, sym p ∙ g),
  λ e.
      let pair : Status × ExecutionState → Option (Status × ExecutionState) = λ z. some z in
      ap (λ o. o >>= with_state state) e.0
      ∙ ap (λ z. pair (t, z)) ((h t).1 refl)
      ∙ ap (λ z. pair (z, finished)) (sym e.1),
)

-- The status of a receipt, with the state for it.
from_status :
    (c : Option ℕ) (state : Status → ExecutionState) (r : Status)
    → ((s : Status) → state s ≡ finished ↔ s ≡ success)
    → ((c >>= λ k. from_code k >>= with_state state) ≡ some (r, finished))
      ↔ ((c >>= from_code) ≡ some success) × (r ≡ success)
from_status none state r h = (λ e. ground arith, λ e. ground arith)
from_status (some k) state r h = with_state-finished (from_code k) state success r h

ok_is_ok : one_of ok (ok ∷ []) ≡ true
unfolding one_of
ok_is_ok = refl

-- The first switch, by the status that it is given.
abbrev first_switch :
    List Status
    → (Status → Option (Status × ExecutionState))
    → Status
    → Option (Status × ExecutionState)
first_switch retries rest s =
    if one_of s retries
    then some (s, retry)
    else if one_of s (ok ∷ [])
    then rest s
    else some (s, error)

answered :
    (m : Option Status) (retries : List Status) (rest : Status → Option (Status × ExecutionState))
    (r : Status)
    → one_of ok retries ≡ false
    → ((m >>= first_switch retries rest) ≡ some (r, finished))
      ↔ (m ≡ some ok) × (rest ok ≡ some (r, finished))
answered none retries rest r o = (λ e. ground arith, λ e. ground arith)
answered (some s) retries rest r o = (
  λ e.
      let (_, b, q) = answer_case (one_of s retries) (one_of s (ok ∷ [])) s (rest s) e in
      let f : s ≡ ok = one_of_self s ok b in (ap some f, ap rest (sym f) ∙ q),
  λ e.
      let f : s ≡ ok = ground (arith, e.0) in
      ap (first_switch retries rest) f ∙ rw (o, ok_is_ok) e.1,
)

-- With the validation of receipts, a query for a receipt is answered exactly by a response whose
-- precheck code is OK and whose receipt has the status SUCCESS, which it returns; so is a query for a
-- record by a response that is no cost answer, and by a cost answer when the precheck code is OK. Any
-- other query is answered exactly by a precheck code OK.
pub finished_iff :
    (response : Response) (s : Status)
    → (receipt_should_retry true response ≡ some (s, finished)
        ↔ (precheck_status response.precheck_code ≡ some ok)
          × ((response.receipt_status >>= from_code) ≡ some success)
          × (s ≡ success))
      × (record_should_retry true (record response { is_cost_answer = false }) ≡ some (s, finished)
          ↔ (precheck_status response.precheck_code ≡ some ok)
            × ((response.receipt_status >>= from_code) ≡ some success)
            × (s ≡ success))
      × (record_should_retry true (record response { is_cost_answer = true }) ≡ some (s, finished)
          ↔ (precheck_status response.precheck_code ≡ some ok) × (s ≡ ok))
      × (query_should_retry response.precheck_code ≡ some (s, finished)
          ↔ (precheck_status response.precheck_code ≡ some ok) × (s ≡ ok))
unfolding receipt_should_retry record_should_retry query_should_retry one_of
finished_iff response s =
    let m = precheck_status response.precheck_code in
    let c = response.receipt_status in
    let receipt_rest = λ (_ : Status). c >>= λ k. from_code k >>= with_state (receipt_state true) in
    let record_rest = λ (_ : Status). c >>= λ k. from_code k >>= with_state (record_state true) in
    let receipt = answered m (busy ∷ unknown ∷ receipt_not_found ∷ []) receipt_rest s refl in
    let record_retries = busy ∷ unknown ∷ receipt_not_found ∷ record_not_found ∷ [] in
    let a_record = answered m record_retries record_rest s refl in
    let cost = answered m record_retries (λ t. some (t, finished)) s refl in
    let from_receipt = from_status c (receipt_state true) s receipt_state-finished in
    let from_record = from_status c (record_state true) s record_state-finished in
    (
      (
        λ h. let (p, q) = receipt.0 h in let (a, b) = from_receipt.0 q in (p, a, b),
        λ h. receipt.1 (h.0, from_receipt.1 (h.1, h.2)),
      ),
      (
        λ h. let (p, q) = a_record.0 h in let (a, b) = from_record.0 q in (p, a, b),
        λ h. a_record.1 (h.0, from_record.1 (h.1, h.2)),
      ),
      (
        λ h. let (p, q) = cost.0 h in (p, ground arith),
        λ h. cost.1 (h.0, ap (λ t. some (t, finished)) (sym h.1)),
      ),
      with_state-finished m query_state ok s query_state-finished,
    )
