-- ===== src/Transaction/Sign.antt =====
-- `signWith` and `addSignature` of src/transaction/Transaction.js. The set of signers holds the
-- hexadecimal texts of keys in the source and the keys here. An array of signed transactions is
-- changed in place in the source.
pub mod Signers
pub mod Again
use u2u_sdk_js.Common.{
  ℕ, Bool, false, Option, none, some, List, [], ◌∷◌, ◌++◌, ◌||◌, ◌>>=◌, ◌>>◌, map_all,
  if◌then◌else◌,
}
use u2u_sdk_js.Common.Int.{ℤ}
use u2u_sdk_js.EntityId.Parse.{list_eq}
use u2u_sdk_js.LockList
use u2u_sdk_js.Transaction.{
  SigPair, Signed, Hooks, Signer, Transaction, is_frozen, require_frozen,
  require_one_node_account_id,
}
use u2u_sdk_js.Transaction.Freeze.{freeze_with}

-- `Set.has`.
unfoldable pub has_key : List ℕ → List (List ℕ) → Bool
has_key key [] = false
has_key key (k ∷ ks) = list_eq k key || has_key key ks

abbrev pub pairs_of : Option (Option (List SigPair)) → List SigPair
pairs_of (some (some pairs)) = pairs
pairs_of _ = []

-- The nulls are filled in, and the pair is pushed.
unfoldable pub push_pair : SigPair → Signed → Signed
push_pair pair s = record s { sig_map = some (some (pairs_of s.sig_map ++ (pair ∷ []))) }

-- One round of the loop over the signed transactions; a hole is a TypeError.
unfoldable pub sign_one : List ℕ → Signer → Option Signed → Option (Option Signed)
unfolding push_pair
sign_one key signer none = none
sign_one key signer (some s) =
    some (some (push_pair (record { pub_key_prefix = key; signature = signer s.body_bytes }) s))

-- What signing does to a transaction with a new key, up to the loop.
unfoldable pub begin_signing : List ℕ → Transaction → Transaction
begin_signing key t = record t {
  transactions = LockList.clear t.transactions;
  signer_public_keys = t.signer_public_keys ++ (key ∷ []);
}

unfoldable pub sign_all : List ℕ → Signer → Transaction → Option Transaction
sign_all key signer t = do
  signed ← map_all (sign_one key signer) t.signed_transactions.list
  some (record t { signed_transactions = record t.signed_transactions { list = signed } })

unfoldable pub lock_ids : Transaction → Transaction
lock_ids t = record t {
  transaction_ids = LockList.set_locked t.transaction_ids;
  node_account_ids = LockList.set_locked t.node_account_ids;
}

unfoldable pub sign_with : List ℕ → Signer → Transaction → Option Transaction
sign_with key signer t =
    let later = begin_signing key t in
    let demand : Option Transaction = some (record later {
      public_keys = later.public_keys ++ (key ∷ []);
      transaction_signers = later.transaction_signers ++ (some signer ∷ []);
    }) in
    let now = sign_all key signer (lock_ids later) in
    (if t.sign_on_demand then some tt else require_frozen t)
    >> (if has_key key t.signer_public_keys
        then some t
        else if t.sign_on_demand
        then demand
        else now)

-- `addSignature`: the transaction is frozen first if it is not, and the signature is given.
unfoldable pub add_to_frozen : List ℕ → List ℕ → Transaction → Option Transaction
add_to_frozen key signature t =
    let u = lock_ids (begin_signing key t) in
    let add : Option Transaction = do
      v ←
          sign_all key (λ _. signature)
            (record u { signed_transactions = LockList.set_locked u.signed_transactions })
      some (record v {
        public_keys = v.public_keys ++ (key ∷ []);
        transaction_signers = v.transaction_signers ++ (none ∷ []);
      })
    in if has_key key t.signer_public_keys then some t else add

unfoldable pub add_signature : Hooks → ℤ → ℤ → List ℕ → List ℕ → Transaction → Option Transaction
add_signature hooks seconds nanos key signature t = do
  require_one_node_account_id t
  u ← if is_frozen t then some t else freeze_with hooks seconds nanos none t
  add_to_frozen key signature u
