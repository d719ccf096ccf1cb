-- ===== src/Chunks/Tests.antt =====
-- The theorems on chunks at contents of five bytes in chunks of two, for two nodes.
use u2u_sdk_js.Common.{
  ℕ, ◌<◌, ◌≡◌, ◌⊎◌, refl, true, false, Option, none, some, List, [], ◌∷◌, map, map_all, length,
  arith,
}
use u2u_sdk_js.Common.Int.{pos}
use u2u_sdk_js.LockList
use u2u_sdk_js.LockList.{LockList}
use u2u_sdk_js.Transaction.{
  TransactionId, Signed, Hooks, Transaction, new_transaction, transaction_id, get_transaction_id,
}
use u2u_sdk_js.Transaction.Freeze
use u2u_sdk_js.Transaction.Freeze.{validate_ids, take_client, freeze_with}
use u2u_sdk_js.Chunks.{
  file_contents, finish_file, send_chunks, chunk_loop, start_chunks, push_id, push_signed,
  number_of_chunks, FileAppend, new_file_append, make_file_data, freeze_file,
}
use u2u_sdk_js.Chunks.Pieces.{join}
use u2u_sdk_js.Chunks.Loop.{entries}
use u2u_sdk_js.Chunks.Join.{freeze_file-join}

abbrev five : List ℕ
five = 1 ∷ 2 ∷ 3 ∷ 4 ∷ 5 ∷ []

abbrev bytes_or_none : Option (List ℕ) → List ℕ
bytes_or_none none = []
bytes_or_none (some b) = b

abbrev some_hooks : Hooks
some_hooks = record {
  make_data = λ _. [];
  encode_body = λ b. b.content;
  encode_signed = λ s. s.body_bytes;
}

abbrev some_id : TransactionId
some_id = record {
  account = "0.0.2";
  seconds = pos 100;
  nanos = pos 5;
  scheduled = false;
  nonce = none;
}

abbrev five_append : FileAppend
five_append = record new_file_append {
  base = record new_file_append.base {
    transaction_ids = record { list = some some_id ∷ []; locked = true; index = some 0 };
    node_account_ids = record {
      list = some "0.0.3" ∷ some "0.0.4" ∷ [];
      locked = true;
      index = some 0;
    };
  };
  contents = some five;
  chunk_size = 2;
}

abbrev value_or : Option Transaction → Transaction
value_or none = new_transaction
value_or (some t) = t

-- What the base class makes of it first.
abbrev frozen : Transaction
frozen = value_or (
    freeze_with
      (record some_hooks { make_data = make_file_data bytes_or_none some_hooks 2 (some five) })
      (pos 0) (pos 0) none five_append.base)

freeze_file-join_example :
    ((freeze_file bytes_or_none some_hooks (pos 0) (pos 0) none five_append ≡ none)
      × (20 < number_of_chunks 2 five))
    ⊎ ((g : FileAppend) × (freeze_file bytes_or_none some_hooks (pos 0) (pos 0) none five_append
          ≡ some g)
        × (chunks : List (List ℕ)) × (join chunks ≡ five)
        × (length chunks ≡ number_of_chunks 2 five)
        × (g.base.signed_transactions.list
            ≡ entries some_hooks frozen some_id (map (λ c. bytes_or_none (some c)) chunks)))
unfolding freeze_with LockList.current LockList.is_empty validate_ids take_client LockList.get
    Freeze.set_nodes_from Freeze.require_id Freeze.build_new_transaction_id_list
    Freeze.build_signed_transactions Freeze.make_signed_transaction map_all LockList.set_list
freeze_file-join_example =
    freeze_file-join bytes_or_none some_hooks (pos 0) (pos 0) none five_append five frozen some_id
      refl (omega arith) refl refl refl refl

-- The bodies of a list of signed transactions.
abbrev bodies : List (Option Signed) → List (List ℕ)
bodies [] = []
bodies (none ∷ xs) = [] ∷ bodies xs
bodies (some s ∷ xs) = s.body_bytes ∷ bodies xs

abbrev bodies_of : Option FileAppend → List (List ℕ)
bodies_of none = []
bodies_of (some g) = bodies g.base.signed_transactions.list

-- Each chunk is there once for each node.
freeze_five :
    bodies_of (freeze_file bytes_or_none some_hooks (pos 0) (pos 0) none five_append)
    ≡ (1 ∷ 2 ∷ []) ∷ (1 ∷ 2 ∷ []) ∷ (3 ∷ 4 ∷ []) ∷ (3 ∷ 4 ∷ []) ∷ (5 ∷ []) ∷ (5 ∷ []) ∷ []
unfolding freeze_file finish_file send_chunks chunk_loop start_chunks push_id push_signed
    file_contents freeze_with LockList.current LockList.is_empty validate_ids take_client
    LockList.get Freeze.set_nodes_from Freeze.require_id Freeze.build_new_transaction_id_list
    Freeze.build_signed_transactions Freeze.make_signed_transaction Freeze.make_transaction_body
    map_all LockList.set_list LockList.push LockList.advance LockList.clear LockList.set_locked
    get_transaction_id transaction_id
freeze_five = refl
