-- ===== src/Chunks/Loop.antt =====
-- The signed transactions that the loops over the chunks and the nodes make.
use Prim.Native.String.{String}
use mathlib.Core.List.{append_assoc, append-nil}
use native.Mathlib.Nat.{mod-eq_of_lt}
use u2u_sdk_js.Common.{
  ℕ, zero, suc, ◌+◌, ◌-◌, ◌%◌, ◌<◌, ◌≡◌, refl, ap, ◌∙◌, sym, false, Option, none, some, List, [],
  ◌∷◌, ◌++◌, map, length, get_or, ltb, length-append, arith, ◌⊎◌, inl, inr, Bool-cases, ltb→lt,
}
use u2u_sdk_js.LockList
use u2u_sdk_js.LockList.{LockList, next_index, push, advance, clear}
use u2u_sdk_js.Transaction.{
  TransactionId, Signed, Hooks, Transaction, transaction_id, get_transaction_id,
}
use u2u_sdk_js.Transaction.Freeze.{make_transaction_body, make_signed_transaction}
use u2u_sdk_js.Chunks.{next_id, start_chunks, push_id, push_signed, chunk_loop, send_chunks}

-- The list of ids before round `k` of the loop.
pub record At {ℓ} {A : Type ℓ} (k : ℕ) (ids : LockList A) : Type ℓ where
  pub open_list : ids.locked ≡ false
  pub rounds : length ids.list ≡ k
  pub at_last : ids.index ≡ some (k - 1)

last_mod : (k : ℕ) → (k - 1 + 1) % (k + 1) ≡ k + 1 - 1
last_mod zero = refl
last_mod (suc k) =
    let e : suc k - 1 + 1 ≡ suc k = omega arith in
    let l : suc k < suc k + 1 = omega arith in
    let f : suc k ≡ suc k + 1 - 1 = omega arith in rw e (mod-eq_of_lt l ∙ f)

next_index_at :
    (k n : ℕ) (i : Option ℕ) → i ≡ some (k - 1) → n ≡ k + 1 → next_index i n ≡ some (k + 1 - 1)
next_index_at k n i h e = rw (h, e) (ground (arith, last_mod k))

get_or-snoc :
    (xs : List (Option TransactionId)) (x : Option TransactionId)
    → get_or (xs ++ (x ∷ [])) (length xs) none ≡ x
get_or-snoc [] x = refl
get_or-snoc (y ∷ xs) x = get_or-snoc xs x

-- A push of an id and an advance: the list of ids is before the next round, with the id as its current
-- one.
push_id-At :
    (k : ℕ) (id : TransactionId) (t : Transaction)
    → At k t.transaction_ids
    → (ids : LockList TransactionId) × (push_id id t ≡ some (record t { transaction_ids = ids }))
      × At (k + 1) ids
      × (LockList.current ids ≡ some id)
unfolding push_id push advance LockList.current LockList.get
push_id-At k id t a =
    let l = t.transaction_ids.list ++ (some id ∷ []) in
    let n : length l ≡ k + 1 =
      omega (arith, length-append t.transaction_ids.list (some id ∷ []), a.rounds) in
    let i : next_index t.transaction_ids.index (length l) ≡ some (k + 1 - 1) =
      next_index_at k _ _ a.at_last n in
    let e : k + 1 - 1 ≡ length t.transaction_ids.list = omega (arith, a.rounds) in
    (
      record { list = l; locked = false; index = next_index t.transaction_ids.index (length l) },
      rw a.open_list refl,
      record { open_list = refl; rounds = n; at_last = i },
      rw (i, e) (get_or-snoc t.transaction_ids.list (some id)),
    )

-- The transaction for a node, without a signature, with the given data and id; the other fields of the
-- body are those of the transaction that is frozen.
abbrev pub signed_for : Hooks → Transaction → TransactionId → List ℕ → Option String → Signed
signed_for hooks t id bytes node = record {
  body_bytes = hooks.encode_body (record {
    content = bytes;
    transaction_fee = t.max_transaction_fee;
    memo = t.transaction_memo;
    transaction_id = id;
    node_account_id = node;
    valid_duration = t.transaction_valid_duration;
  });
  sig_map = some (some []);
}

-- For the data of each chunk, one transaction for each node in turn; each chunk has its own id.
abbrev pub entries : Hooks → Transaction → TransactionId → List (List ℕ) → List (Option Signed)
entries hooks t id [] = []
entries hooks t id (bytes ∷ rest) =
    map (λ node. some (signed_for hooks t id bytes node)) t.node_account_ids.list
    ++ entries hooks t (next_id id) rest

-- `t` with these elements behind its signed transactions.
abbrev more : Transaction → List (Option Signed) → Transaction
more t xs = record t {
  signed_transactions = record t.signed_transactions { list = t.signed_transactions.list ++ xs };
}

push_signed_step :
    (hooks : Hooks) (to : Option String) (nodes : List (Option String)) (id : TransactionId)
    (t : Transaction)
    → LockList.current t.transaction_ids ≡ some id
    → t.signed_transactions.locked ≡ false
    → push_signed hooks (to ∷ nodes) t
      ≡ push_signed hooks nodes
          (more t (some (signed_for hooks t id (hooks.make_data t.transaction_ids) to) ∷ []))
unfolding push_signed make_signed_transaction make_transaction_body push
push_signed_step hooks to nodes id t c l = rw (c, l) refl

push_signed_lem :
    (hooks : Hooks) (nodes : List (Option String)) (id : TransactionId) (t : Transaction)
    → LockList.current t.transaction_ids ≡ some id
    → t.signed_transactions.locked ≡ false
    → push_signed hooks nodes t
      ≡ some (
          more t (
            map
              (λ node. some (signed_for hooks t id (hooks.make_data t.transaction_ids) node))
              nodes))
unfolding push_signed
push_signed_lem hooks [] id t c l =
    ap (λ xs. some (record t { signed_transactions = record t.signed_transactions { list = xs } }))
      (sym (append-nil t.signed_transactions.list))
push_signed_lem hooks (node ∷ nodes) id t c l =
    let s = signed_for hooks t id (hooks.make_data t.transaction_ids) node in
    push_signed_step hooks node nodes id t c l
    ∙ push_signed_lem hooks nodes id (more t (some s ∷ [])) c l
    ∙ ap
        (λ xs. some (record t { signed_transactions = record t.signed_transactions { list = xs } }))
        (append_assoc t.signed_transactions.list (some s ∷ []) _)

-- The data of the chunks from an index on.
abbrev pub datas : (ℕ → List ℕ) → ℕ → ℕ → List (List ℕ)
datas d k zero = []
datas d k (suc left) = d k ∷ datas d (k + 1) left

chunk_loop-entries :
    (hooks : Hooks) (make : ℕ → LockList TransactionId → List ℕ) (d : ℕ → List ℕ) (left k : ℕ)
    (id : TransactionId) (t : Transaction)
    → ((i : ℕ) (ids : LockList TransactionId) → At (i + 1) ids → make i ids ≡ d i)
    → At k t.transaction_ids
    → t.signed_transactions.locked ≡ false
    → (v : Transaction) × (chunk_loop hooks make left k id t ≡ some v)
      × (v.signed_transactions.list
          ≡ t.signed_transactions.list ++ entries hooks t id (datas d k left))
unfolding chunk_loop
chunk_loop-entries hooks make d zero k id t m a l =
    (t, refl, sym (append-nil t.signed_transactions.list))
chunk_loop-entries hooks make d (suc left) k id t m a l =
    let (ids, p, b, c) = push_id-At k id t a in
    let u = record t { transaction_ids = ids } in
    let h = record hooks { make_data = make k } in
    let new : List ℕ → List (Option Signed) =
      λ bytes. map (λ node. some (signed_for hooks t id bytes node)) t.node_account_ids.list in
    let s : push_signed h t.node_account_ids.list u ≡ some (more u (new (d k))) =
      push_signed_lem h t.node_account_ids.list id u c l
      ∙ ap (λ bytes. some (more u (new bytes))) (m k ids b) in
    let (v, q, e) =
      chunk_loop-entries hooks make d left (k + 1) (next_id id) (more u (new (d k))) m b l in
    (v, rw (p, s) q, e ∙ append_assoc t.signed_transactions.list (new (d k)) _)

get_transaction_id_lem :
    (t : Transaction) (id : TransactionId)
    → LockList.is_empty t.transaction_ids ≡ false
    → LockList.current t.transaction_ids ≡ some id
    → get_transaction_id t
      ≡ some (id, record t { transaction_ids = LockList.set_locked t.transaction_ids })
unfolding get_transaction_id transaction_id
get_transaction_id_lem t id e c = rw (e, c) refl

-- Both classes: too many chunks, or one transaction for each chunk and node.
pub send_chunks-entries :
    (hooks : Hooks) (make : TransactionId → ℕ → LockList TransactionId → List ℕ) (d : ℕ → List ℕ)
    (max_chunks chunks : ℕ) (id : TransactionId) (t : Transaction)
    → ((i : ℕ) (ids : LockList TransactionId) → At (i + 1) ids → make id i ids ≡ d i)
    → LockList.is_empty t.transaction_ids ≡ false
    → LockList.current t.transaction_ids ≡ some id
    → t.signed_transactions.locked ≡ false
    → ((send_chunks hooks make max_chunks chunks t ≡ none) × (max_chunks < chunks))
      ⊎ ((v : Transaction) × (send_chunks hooks make max_chunks chunks t ≡ some v)
          × (v.signed_transactions.list ≡ entries hooks t id (datas d 0 chunks)))
unfolding send_chunks start_chunks clear LockList.set_locked
send_chunks-entries hooks make d max_chunks chunks id t m e c l =
    elim (Bool-cases (ltb max_chunks chunks)) [
      | inl h ↦ rw h (inl (refl, ltb→lt max_chunks chunks h))
      | inr h ↦
          let u = record t { transaction_ids = LockList.set_locked t.transaction_ids } in
          let (v, p, q) =
            chunk_loop-entries hooks (make id) d chunks 0 id (start_chunks u) m
              (record { open_list = refl; rounds = refl; at_last = refl }) l in
          rw (h, get_transaction_id_lem t id e c)
            (inr (record v { transaction_ids = (advance v.transaction_ids).1 }, rw p refl, q))
    ]
