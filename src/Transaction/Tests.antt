-- ===== src/Transaction/Tests.antt =====
-- Tests and examples on concrete transactions.
use u2u_sdk_js.Common.{
  ℕ, ◌≡◌, ◌↔◌, ◌⊎◌, refl, true, false, none, some, List, [], ◌∷◌, ◌++◌, map, ◌>>=◌, arith,
}
use u2u_sdk_js.Common.Int.{pos}
use u2u_sdk_js.LockList
use u2u_sdk_js.LockList.{LockList}
use u2u_sdk_js.Transaction.{
  TransactionId, SigPair, Signed, Hooks, Signer, Transaction, new_transaction, set_node_account_ids,
  set_transaction_valid_duration, set_max_transaction_fee, decimal, to_u2u,
  set_regenerate_transaction_id, set_transaction_memo, set_transaction_id,
}
use u2u_sdk_js.Transaction.Freeze.{validate_ids, take_client, freeze_with}
use u2u_sdk_js.Transaction.Sign.{has_key, sign_with}
use u2u_sdk_js.Transaction.Sign.Signers.{AllSignedBy, IsSigned, sign_with-IsSigned}
use u2u_sdk_js.Transaction.Sign.Again.{freeze_with-drops}
use u2u_sdk_js.Transaction.Build.{to_bytes}
use u2u_sdk_js.Transaction.Build.Cache.{IsCached, to_bytes-Encodes}
use u2u_sdk_js.Transaction.Submit.{sign_each, entry_for, submit_bytes}
use u2u_sdk_js.Transaction.Setters.{IsFrozen, setters_throw_iff}

-- An encoding that keeps the duration, the content and the signatures.
abbrev signatures_of : List SigPair → List ℕ
signatures_of [] = []
signatures_of (p ∷ ps) = p.signature ++ signatures_of ps

abbrev bytes_of : Signed → List ℕ
bytes_of s = elim s.sig_map [ some (some ps) ↦ s.body_bytes ++ signatures_of ps | _ ↦ s.body_bytes ]

abbrev some_hooks : Hooks
some_hooks = record {
  make_data = λ _. 7 ∷ [];
  encode_body = λ b. b.valid_duration ∷ b.content;
  encode_signed = bytes_of;
}

abbrev some_id : TransactionId
some_id = record {
  account = "0.0.2";
  seconds = pos 100;
  nanos = pos 5;
  scheduled = false;
  nonce = none;
}

abbrev locked_list {ℓ} : {A : Type ℓ} → List A → LockList A
locked_list xs = record { list = map some xs; locked = true; index = some 0 }

-- A transaction with an id and two nodes.
abbrev given : Transaction
given = record new_transaction {
  transaction_ids = locked_list (some_id ∷ []);
  node_account_ids = locked_list ("0.0.3" ∷ "0.0.4" ∷ []);
}

abbrev first_signer : Signer
first_signer bytes = 1 ∷ bytes

abbrev second_signer : Signer
second_signer bytes = 2 ∷ []

abbrev two_keys : List (List ℕ × Signer)
two_keys = (9 ∷ [], first_signer) ∷ (8 ∷ [], second_signer) ∷ []

submit_bytes_example :
    (u : Transaction) × ((freeze_with some_hooks (pos 0) (pos 0) none given
        >>= sign_each two_keys
        >>= to_bytes some_hooks)
      ≡ some (
        map
            (entry_for some_hooks (take_client none given) some_id two_keys)
            ("0.0.3" ∷ "0.0.4" ∷ []),
        u,
      ))
unfolding LockList.current LockList.is_empty validate_ids take_client has_key LockList.get
submit_bytes_example =
    submit_bytes some_hooks (pos 0) (pos 0) none given some_id "0.0.3" ("0.0.4" ∷ []) two_keys refl
      refl refl refl refl refl refl refl refl

-- A frozen transaction with one node, which the first key has signed.
abbrev one_signed : Signed
one_signed = record {
  body_bytes = 120 ∷ 7 ∷ [];
  sig_map = some (some (record { pub_key_prefix = 9 ∷ []; signature = 5 ∷ [] } ∷ []));
}

abbrev signed_once : Transaction
signed_once = record given {
  node_account_ids = locked_list ("0.0.3" ∷ []);
  signed_transactions = record { list = some one_signed ∷ []; locked = false; index = some 0 };
  signer_public_keys = (9 ∷ []) ∷ [];
}

sign_with-IsSigned_example :
    (u : Transaction) × (sign_with (8 ∷ []) second_signer signed_once ≡ some u)
    × IsSigned u
    × (u.transactions.list ≡ [])
    × (u.signer_public_keys ≡ signed_once.signer_public_keys ++ ((8 ∷ []) ∷ []))
    × ((again : Signer) → sign_with (8 ∷ []) again u ≡ some u)
unfolding has_key
sign_with-IsSigned_example =
    sign_with-IsSigned (8 ∷ []) second_signer signed_once (omega arith) refl refl (refl, tt)

to_bytes-Encodes_example :
    (u : Transaction) × (to_bytes some_hooks signed_once
      ≡ some (map (λ s. some (some_hooks.encode_signed s)) (one_signed ∷ []), u))
    × IsCached some_hooks u
    × (u.signed_transactions ≡ signed_once.signed_transactions)
to_bytes-Encodes_example =
    to_bytes-Encodes some_hooks (one_signed ∷ []) signed_once refl (omega arith) refl tt

freeze_with-drops_example :
    (u : Transaction) × (freeze_with some_hooks (pos 0) (pos 0) none signed_once ≡ some u)
    × AllSignedBy [] u.signed_transactions.list
    × (has_key (9 ∷ []) u.signer_public_keys ≡ true)
    × ((signer : Signer) → sign_with (9 ∷ []) signer u ≡ some u)
unfolding LockList.current LockList.is_empty validate_ids take_client has_key LockList.get
freeze_with-drops_example =
    freeze_with-drops some_hooks (pos 0) (pos 0) none signed_once some_id "0.0.3" [] (9 ∷ []) refl
      refl refl refl refl refl refl refl

-- An amount of 1.5 of the smallest units.
to_u2u_throws : to_u2u (decimal 15 9) ≡ none
unfolding to_u2u
to_u2u_throws = refl

setters_throw_iff_example :
    (set_transaction_valid_duration 60 signed_once ≡ none ↔ IsFrozen signed_once)
    × (set_max_transaction_fee (decimal 15 1) signed_once ≡ none
        ↔ IsFrozen signed_once ⊎ (to_u2u (decimal 15 1) ≡ none))
    × (set_regenerate_transaction_id true signed_once ≡ none ↔ IsFrozen signed_once)
    × (set_transaction_memo "memo" signed_once ≡ none ↔ IsFrozen signed_once)
    × (set_node_account_ids [] signed_once ≡ none
        ↔ IsFrozen signed_once ⊎ (signed_once.node_account_ids.locked ≡ true))
    × (set_transaction_id some_id signed_once ≡ none
        ↔ IsFrozen signed_once ⊎ (signed_once.transaction_ids.locked ≡ true))
setters_throw_iff_example = setters_throw_iff signed_once [] some_id 60 (decimal 15 1) true "memo"
