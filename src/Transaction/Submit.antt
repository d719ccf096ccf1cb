-- ===== src/Transaction/Submit.antt =====
-- From setting the fields to the bytes: freezing, signing with several keys, and `toBytes` of
-- src/transaction/Transaction.js, against a description of the bytes that does not go through a state.
use Prim.Native.String.{String}
use mathlib.Core.Path.{subst}
use mathlib.Core.List.{append-nil, append_assoc}
use u2u_sdk_js.Common.{
  ℕ, ◌≡◌, ◌<◌, refl, sym, ap, ◌∙◌, Bool, true, false, Option, some, List, [], ◌∷◌, ◌++◌, map,
  map_all, length, arith, ◌>>=◌, ◌&&◌, length-map,
}
use u2u_sdk_js.Common.Int.{ℤ}
use u2u_sdk_js.LockList
use u2u_sdk_js.LockList.{LockList}
use u2u_sdk_js.Transaction.{
  TransactionId, SigPair, Signed, Hooks, Signer, Transaction, not, require_frozen-some,
}
use u2u_sdk_js.Transaction.Freeze.{Client, validate_ids, take_client, freeze_with}
use u2u_sdk_js.Transaction.Freeze.Bodies.{
  body_for, unsigned, fresh, freeze_with-Bodies, take_client-keeps,
}
use u2u_sdk_js.Transaction.Sign.{
  has_key, push_pair, sign_one, begin_signing, sign_all, lock_ids, sign_with,
}
use u2u_sdk_js.Transaction.Build.{to_bytes}
use u2u_sdk_js.Transaction.Build.Cache.{Cached, IsCached, to_bytes-Encodes}

-- Signing with one key after another.
abbrev pub sign_each : List (List ℕ × Signer) → Transaction → Option Transaction
sign_each [] t = some t
sign_each ((key, signer) ∷ ks) t = sign_with key signer t >>= sign_each ks

-- No key is in the set, or comes twice.
abbrev pub all_new : List (List ℕ × Signer) → List (List ℕ) → Bool
all_new [] keys = true
all_new ((key, signer) ∷ ks) keys = not (has_key key keys) && all_new ks (keys ++ (key ∷ []))

-- A signed transaction with the signatures of the keys pushed, in order.
abbrev pub signed_by : List (List ℕ × Signer) → Signed → Signed
signed_by [] s = s
signed_by ((key, signer) ∷ ks) s =
    signed_by ks (push_pair (record { pub_key_prefix = key; signature = signer s.body_bytes }) s)

abbrev pub pair_of : List ℕ → List ℕ × Signer → SigPair
pair_of body k = record { pub_key_prefix = k.0; signature = k.1 body }

pub push_one : List ℕ → Signer → Signed → Signed
push_one key signer s =
    push_pair (record { pub_key_prefix = key; signature = signer s.body_bytes }) s

sign_list :
    (key : List ℕ) (signer : Signer) (xs : List Signed)
    → map_all (sign_one key signer) (map some xs) ≡ some (map some (map (push_one key signer) xs))
unfolding map_all sign_one push_one
sign_list key signer [] = refl
sign_list key signer (x ∷ xs) = rw (sign_list key signer xs) refl

pub sign_with-list :
    (key : List ℕ) (signer : Signer) (xs : List Signed) (t : Transaction)
    → t.signed_transactions.list ≡ map some xs
    → 0 < length xs
    → t.sign_on_demand ≡ false
    → has_key key t.signer_public_keys ≡ false
    → sign_with key signer t
      ≡ some (record (lock_ids (begin_signing key t)) {
        signed_transactions = record t.signed_transactions {
          list = map some (map (push_one key signer) xs);
        };
      })
unfolding sign_with sign_all begin_signing lock_ids
sign_with-list key signer xs t e l f h =
    let n : 0 < length t.signed_transactions.list =
      omega (arith, l, ap length e, length-map xs (λ (s : Signed). some s)) in
    rw (require_frozen-some t n, h, e, sign_list key signer xs) (simp f refl)

map-signed_by :
    (key : List ℕ) (signer : Signer) (ks : List (List ℕ × Signer)) (xs : List Signed)
    → map (signed_by ks) (map (push_one key signer) xs) ≡ map (signed_by ((key, signer) ∷ ks)) xs
unfolding push_one
map-signed_by key signer ks [] = refl
map-signed_by key signer ks (x ∷ xs) =
    ap (λ r. signed_by ((key, signer) ∷ ks) x ∷ r) (map-signed_by key signer ks xs)

-- An empty cache.
Cached-nil : (encode : Signed → List ℕ) (ss : List (Option Signed)) → Cached encode [] ss
Cached-nil encode ss = tt

-- The state after signing with all keys.
sign_each-list :
    (ks : List (List ℕ × Signer)) (xs : List Signed) (t : Transaction)
    → t.signed_transactions.list ≡ map some xs
    → 0 < length xs
    → t.sign_on_demand ≡ false
    → t.transactions.list ≡ []
    → all_new ks t.signer_public_keys ≡ true
    → (u : Transaction) × (sign_each ks t ≡ some u)
      × (u.signed_transactions.list ≡ map some (map (signed_by ks) xs))
      × (u.transactions.list ≡ [])
      × (u.sign_on_demand ≡ false)
unfolding lock_ids begin_signing LockList.clear
sign_each-list [] xs t e l f c a = (t, refl, e ∙ ap (map some) (sym (map-id xs)), c, f)
  where
    map-id : (ys : List Signed) → map (signed_by []) ys ≡ ys
    map-id [] = refl
    map-id (y ∷ ys) = ap (λ r. y ∷ r) (map-id ys)
sign_each-list ((key, signer) ∷ ks) xs t e l f c a =
    let v : Transaction = record (lock_ids (begin_signing key t)) {
      signed_transactions = record t.signed_transactions {
        list = map some (map (push_one key signer) xs);
      };
    } in
    let n : 0 < length (map (push_one key signer) xs) =
      omega (arith, l, length-map xs (push_one key signer)) in
    let h : has_key key t.signer_public_keys ≡ false = ground (arith, a) in
    let b : all_new ks v.signer_public_keys ≡ true = ground (arith, a) in
    let (u, p, q, r, s) = sign_each-list ks (map (push_one key signer) xs) v refl n f refl b in
    (
      u,
      rw (sign_with-list key signer xs t e l f h) p,
      q ∙ ap (map some) (map-signed_by key signer ks xs),
      r,
      s,
    )

signed_by-pairs :
    (ks : List (List ℕ × Signer)) (body : List ℕ) (ps : List SigPair)
    → signed_by ks (record { body_bytes = body; sig_map = some (some ps) })
      ≡ record { body_bytes = body; sig_map = some (some (ps ++ map (pair_of body) ks)) }
unfolding push_pair
signed_by-pairs [] body ps =
    ap (λ qs. record { body_bytes = body; sig_map = some (some qs) }) (sym (append-nil ps))
signed_by-pairs ((key, signer) ∷ ks) body ps =
    signed_by-pairs ks body (ps ++ (pair_of body (key, signer) ∷ []))
    ∙ ap (λ qs. record { body_bytes = body; sig_map = some (some qs) })
        (append_assoc ps (pair_of body (key, signer) ∷ []) (map (pair_of body) ks))

-- The entry for a node.
abbrev pub entry_for :
    Hooks → Transaction → TransactionId → List (List ℕ × Signer) → String → Option (List ℕ)
entry_for hooks t id ks node = some (
    hooks.encode_signed (record {
      body_bytes = hooks.encode_body (body_for hooks t id node);
      sig_map = some (some (map (pair_of (hooks.encode_body (body_for hooks t id node))) ks));
    }))

entries :
    (hooks : Hooks) (t : Transaction) (id : TransactionId) (ks : List (List ℕ × Signer))
    (nodes : List String)
    → map (λ x. some (hooks.encode_signed x)) (map (signed_by ks) (map (unsigned hooks t id) nodes))
      ≡ map (entry_for hooks t id ks) nodes
entries hooks t id ks [] = refl
entries hooks t id ks (node ∷ nodes) =
    rw
      (
        signed_by-pairs ks (hooks.encode_body (body_for hooks t id node)) [],
        entries hooks t id ks nodes,
      )
      refl

-- Freezing as in `freeze_with-Bodies` with an empty cache, signing with keys that are new and
-- different, and `toBytes` succeed; the list that is encoded has one entry for each node, in order: the
-- encoding of the body for the node with the signatures of this body by the keys, in their order.
pub submit_bytes :
    (hooks : Hooks) (seconds nanos : ℤ) (client : Option Client) (t : Transaction)
    (id : TransactionId) (node : String) (nodes : List String) (ks : List (List ℕ × Signer))
    → LockList.current t.transaction_ids ≡ some id
    → LockList.is_empty t.transaction_ids ≡ false
    → t.transaction_ids.locked ≡ true
    → t.node_account_ids.list ≡ map some (node ∷ nodes)
    → t.signed_transactions.locked ≡ false
    → validate_ids client t.transaction_ids.list ≡ some tt
    → (take_client client t).sign_on_demand ≡ false
    → t.transactions.list ≡ []
    → all_new ks t.signer_public_keys ≡ true
    → (u : Transaction) × ((freeze_with hooks seconds nanos client t
          >>= sign_each ks
          >>= to_bytes hooks)
        ≡ some (map (entry_for hooks (take_client client t) id ks) (node ∷ nodes), u))
submit_bytes hooks seconds nanos client t id node nodes ks h e l n s v d c a =
    let w = take_client client t in
    let ns = node ∷ nodes in
    let xs = map (unsigned hooks w id) ns in
    let f : Transaction = record w { signed_transactions = fresh xs } in
    let (_, _, _, tr, sp) = take_client-keeps client t in
    let (u, p, q, r, d') =
      sign_each-list ks xs f refl (omega arith) d (ap (λ z. z.list) tr ∙ c)
        (ap (all_new ks) sp ∙ a) in
    let cached : IsCached hooks u =
      subst (λ z. Cached hooks.encode_signed z u.signed_transactions.list) (sym r)
        (Cached-nil hooks.encode_signed u.signed_transactions.list) in
    let (u', p', _, _) =
      to_bytes-Encodes hooks (map (signed_by ks) xs) u q (omega arith) d' cached in
    (
      u',
      rw (freeze_with-Bodies hooks seconds nanos client t id node nodes h e l n s v d, p, p')
          (ap (λ z. some (z, u')) (entries hooks w id ks ns)),
    )
