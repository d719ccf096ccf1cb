-- ===== src/Transaction/Sign/Again.antt =====
-- Freezing a transaction again that has been signed.
use Prim.Native.String.{String}
use u2u_sdk_js.Common.{ℕ, ◌≡◌, refl, ap, ◌∙◌, true, false, Option, some, List, [], ◌∷◌, map, arith}
use u2u_sdk_js.Common.Int.{ℤ}
use u2u_sdk_js.LockList
use u2u_sdk_js.Transaction.{TransactionId, Hooks, Signer, Transaction, require_frozen-some}
use u2u_sdk_js.Transaction.Freeze.{Client, validate_ids, take_client, freeze_with}
use u2u_sdk_js.Transaction.Freeze.Bodies.{unsigned, fresh, freeze_with-Bodies, take_client-keeps}
use u2u_sdk_js.Transaction.Sign.{has_key, sign_with}
use u2u_sdk_js.Transaction.Sign.Signers.{AllSignedBy}

unsigned-AllSignedBy :
    (hooks : Hooks) (t : Transaction) (id : TransactionId) (nodes : List String)
    → AllSignedBy [] (map some (map (unsigned hooks t id) nodes))
unsigned-AllSignedBy hooks t id [] = tt
unsigned-AllSignedBy hooks t id (n ∷ nodes) = (refl, unsigned-AllSignedBy hooks t id nodes)

-- Freezing again a transaction that a key has signed already, as in `freeze_with-Bodies`, leaves signed
-- transactions without any signature, while the set of signers still holds the key, so that signing
-- again with this key changes nothing.
pub freeze_with-drops :
    (hooks : Hooks) (seconds nanos : ℤ) (client : Option Client) (t : Transaction)
    (id : TransactionId) (node : String) (nodes : List String) (key : List ℕ)
    → LockList.current t.transaction_ids ≡ some id
    → LockList.is_empty t.transaction_ids ≡ false
    → t.transaction_ids.locked ≡ true
    → t.node_account_ids.list ≡ map some (node ∷ nodes)
    → t.signed_transactions.locked ≡ false
    → validate_ids client t.transaction_ids.list ≡ some tt
    → (take_client client t).sign_on_demand ≡ false
    → has_key key t.signer_public_keys ≡ true
    → (u : Transaction) × (freeze_with hooks seconds nanos client t ≡ some u)
      × AllSignedBy [] u.signed_transactions.list
      × (has_key key u.signer_public_keys ≡ true)
      × ((signer : Signer) → sign_with key signer u ≡ some u)
unfolding sign_with
freeze_with-drops hooks seconds nanos client t id node nodes key h e l n s v d k =
    let w = take_client client t in
    let f : Transaction = record w {
      signed_transactions = fresh (map (unsigned hooks w id) (node ∷ nodes));
    } in
    let (_, _, _, _, sp) = take_client-keeps client t in
    let k' : has_key key f.signer_public_keys ≡ true = ap (has_key key) sp ∙ k in
    (
      f,
      freeze_with-Bodies hooks seconds nanos client t id node nodes h e l n s v d,
      unsigned-AllSignedBy hooks w id (node ∷ nodes),
      k',
      λ signer. rw (require_frozen-some f (omega arith), k') (simp d refl),
    )
