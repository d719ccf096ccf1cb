-- ===== src/Transaction/Freeze/Bodies.antt =====
-- What `freezeWith` makes: one signed transaction for each node, and no signature.
use Prim.Native.String.{String}
use u2u_sdk_js.Common.{
  ◌≡◌, refl, ap, ◌∙◌, true, false, Option, none, some, List, [], ◌∷◌, map, map_all, length, arith,
  ◌==◌, if◌then◌else◌,
}
use u2u_sdk_js.Common.Int.{ℤ}
use u2u_sdk_js.LockList
use u2u_sdk_js.LockList.{LockList}
use u2u_sdk_js.Transaction.{TransactionId, Body, Signed, Hooks, Transaction}
use u2u_sdk_js.Transaction.Freeze.{
  Client, make_transaction_body, make_signed_transaction, build_signed_transactions, set_nodes_from,
  require_id, validate_ids, build_new_transaction_id_list, take_client, freeze_with,
}

-- The body for a node, and the signed transaction for it without a signature.
abbrev pub body_for : Hooks → Transaction → TransactionId → String → Body
body_for hooks t id node = record {
  content = hooks.make_data t.transaction_ids;
  transaction_fee = t.max_transaction_fee;
  memo = t.transaction_memo;
  transaction_id = id;
  node_account_id = some node;
  valid_duration = t.transaction_valid_duration;
}

abbrev pub unsigned : Hooks → Transaction → TransactionId → String → Signed
unsigned hooks t id node = record {
  body_bytes = hooks.encode_body (body_for hooks t id node);
  sig_map = some (some []);
}

-- The list of the signed transactions, in the state that `setList` leaves.
abbrev pub fresh : List Signed → LockList Signed
fresh xs = record { list = map some xs; locked = false; index = some 0 }

made :
    (hooks : Hooks) (t : Transaction) (id : TransactionId) (nodes : List String)
    → LockList.current t.transaction_ids ≡ some id
    → map_all (λ node. make_signed_transaction hooks node t) (map some nodes)
      ≡ some (map (unsigned hooks t id) nodes)
unfolding map_all make_signed_transaction make_transaction_body
made hooks t id [] h = refl
made hooks t id (node ∷ nodes) h = rw (h, made hooks t id nodes h) refl

build_signed_transactions-fresh :
    (hooks : Hooks) (t : Transaction) (id : TransactionId) (nodes : List String)
    → LockList.current t.transaction_ids ≡ some id
    → t.node_account_ids.list ≡ map some nodes
    → t.signed_transactions.locked ≡ false
    → build_signed_transactions hooks t
      ≡ some (record t { signed_transactions = fresh (map (unsigned hooks t id) nodes) })
unfolding build_signed_transactions LockList.set_list
build_signed_transactions-fresh hooks t id nodes h n l = simp (l, n, made hooks t id nodes h) refl

set_nodes_from-given :
    (client : Option Client) (t : Transaction)
    → LockList.is_empty t.node_account_ids ≡ false
    → set_nodes_from client t ≡ some t
unfolding set_nodes_from
set_nodes_from-given client t e = rw e refl

require_id-given :
    (t : Transaction) → LockList.is_empty t.transaction_ids ≡ false → require_id t ≡ some tt
unfolding require_id
require_id-given t e = ground (arith, e)

pub build_new-locked :
    (seconds nanos : ℤ) (t : Transaction)
    → t.transaction_ids.locked ≡ true
    → build_new_transaction_id_list seconds nanos t ≡ t
unfolding build_new_transaction_id_list
build_new-locked seconds nanos t e = go t.operator_account_id refl
  where
    go :
        (o : Option String)
        → t.operator_account_id ≡ o
        → build_new_transaction_id_list seconds nanos t ≡ t
    go none p = rw p refl
    go (some a) p = rw p (rw e refl)

-- The fields that the client does not give.
pub take_client-keeps :
    (client : Option Client) (t : Transaction)
    → ((take_client client t).transaction_ids ≡ t.transaction_ids)
      × ((take_client client t).node_account_ids ≡ t.node_account_ids)
      × ((take_client client t).signed_transactions ≡ t.signed_transactions)
      × ((take_client client t).transactions ≡ t.transactions)
      × ((take_client client t).signer_public_keys ≡ t.signer_public_keys)
unfolding take_client
take_client-keeps none t = (refl, refl, refl, refl, refl)
take_client-keeps (some c) t = (refl, refl, refl, refl, refl)

-- Freezing with nodes and a transaction id that were set before, checksums that are right, a list of
-- signed transactions that is not locked and no signing on demand succeeds. It keeps the fields that
-- the setters set, and makes one signed transaction for each node, in order, without signatures, whose
-- body names the node and the id.
pub freeze_with-Bodies :
    (hooks : Hooks) (seconds nanos : ℤ) (client : Option Client) (t : Transaction)
    (id : TransactionId) (node : String) (nodes : List String)
    → LockList.current t.transaction_ids ≡ some id
    → LockList.is_empty t.transaction_ids ≡ false
    → t.transaction_ids.locked ≡ true
    → t.node_account_ids.list ≡ map some (node ∷ nodes)
    → t.signed_transactions.locked ≡ false
    → validate_ids client t.transaction_ids.list ≡ some tt
    → (take_client client t).sign_on_demand ≡ false
    → freeze_with hooks seconds nanos client t
      ≡ some (record (take_client client t) {
        signed_transactions = fresh (map (unsigned hooks (take_client client t) id) (node ∷ nodes));
      })
unfolding freeze_with LockList.is_empty
freeze_with-Bodies hooks seconds nanos client t id node nodes h e l n s v d =
    let w = take_client client t in
    let (p, q, r, _, _) = take_client-keeps client t in
    let empty : LockList.is_empty w.node_account_ids ≡ false =
      ap LockList.is_empty q ∙ ap (λ xs. length xs == 0) n ∙ ground arith in
    rw
      (
        set_nodes_from-given client w empty,
        require_id-given w (ap LockList.is_empty p ∙ e),
        ap (λ l. validate_ids client l.list) p ∙ v,
        build_new-locked seconds nanos w (ap (λ l. l.locked) p ∙ l),
      )
      (ap (λ b. if b then some w else build_signed_transactions hooks w) d
        ∙ build_signed_transactions-fresh hooks w id (node ∷ nodes) (ap LockList.current p ∙ h)
            (ap (λ l. l.list) q ∙ n) (ap (λ l. l.locked) r ∙ s))
