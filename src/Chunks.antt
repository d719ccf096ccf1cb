-- ===== src/Chunks.antt =====
-- Contents that are sent in chunks: `freezeWith` and `_makeTransactionData` of
-- src/file/FileAppendTransaction.js and src/topic/TopicMessageSubmitTransaction.js, over the base class of
-- transactions. An error that is thrown is `none`. The encoding of the data of a body, with the id of
-- the file or of the topic, is a parameter. The chunk size is positive: for 0 the number of chunks is
-- infinite in the code.
pub mod Pieces
pub mod Loop
pub mod Join
mod Tests
use Prim.Native.Nat.{min}
use Prim.Native.String.{String}
use mathlib.Core.Option
use u2u_sdk_js.Common.{
  ℕ, zero, suc, ◌+◌, ◌-◌, ◌*◌, ◌/◌, ◌^◌, false, Option, none, some, List, [], ◌∷◌, length, take,
  drop, ltb, ◌>>=◌, ◌>>◌, guard, if◌then◌else◌,
}
use u2u_sdk_js.Common.Int.{ℤ, pos}
use u2u_sdk_js.LockList
use u2u_sdk_js.LockList.{LockList}
use u2u_sdk_js.Transaction.{
  TransactionId, Hooks, Transaction, new_transaction, not, unlocked, get_transaction_id,
}
use u2u_sdk_js.Transaction.Freeze.{Client, with_valid_start, make_signed_transaction, freeze_with}
use u2u_sdk_js.Transfer.Long.{add_long}

-- `contents.slice(start, end)` with indices that are not negative.
abbrev pub slice : ℕ → ℕ → List ℕ → List ℕ
slice start end xs = take (end - start) (drop start xs)

-- `Math.floor((length + (chunkSize - 1)) / chunkSize)`, for a positive size.
abbrev pub number_of_chunks : ℕ → List ℕ → ℕ
number_of_chunks size xs = (length xs + (size - 1)) / size

-- The id of the next chunk: a nanosecond later, not scheduled and without a nonce.
abbrev pub next_id : TransactionId → TransactionId
next_id id = with_valid_start id.account id.seconds (add_long id.nanos (pos 1))

-- What is done before the loop: the lists are cleared, and the one of the ids is unlocked.
unfoldable pub start_chunks : Transaction → Transaction
start_chunks t = record t {
  transaction_ids = LockList.clear (record t.transaction_ids { locked = false });
  transactions = LockList.clear t.transactions;
  signed_transactions = LockList.clear t.signed_transactions;
}

unfoldable pub push_id : TransactionId → Transaction → Option Transaction
push_id id t = do
  l ← unlocked (LockList.push (some id ∷ []) t.transaction_ids)
  some (record t { transaction_ids = (LockList.advance l).1 })

-- The loop over the node ids.
unfoldable pub push_signed : Hooks → List (Option String) → Transaction → Option Transaction
push_signed hooks [] t = some t
push_signed hooks (node ∷ nodes) t = do
  s ← make_signed_transaction hooks node t
  l ← unlocked (LockList.push (some s ∷ []) t.signed_transactions)
  push_signed hooks nodes (record t { signed_transactions = l })

-- The loop over the chunks: the number of chunks left, the index of the chunk and its id. The data of
-- a chunk are made of its index and the list of ids.
module _ (hooks : Hooks) where
  unfoldable pub chunk_loop :
      (ℕ → LockList TransactionId → List ℕ)
      → ℕ
      → ℕ
      → TransactionId
      → Transaction
      → Option Transaction
  chunk_loop make zero chunk id t = some t
  chunk_loop make (suc left) chunk id t = do
    u ← push_id id t
    v ← push_signed (record hooks { make_data = make chunk }) u.node_account_ids.list u
    chunk_loop make left (chunk + 1) (next_id id) v

  -- What follows `super.freezeWith` in both classes.
  unfoldable pub send_chunks :
      (TransactionId → ℕ → LockList TransactionId → List ℕ)
      → ℕ
      → ℕ
      → Transaction
      → Option Transaction
  send_chunks make max_chunks chunks t = do
    guard (not (ltb max_chunks chunks))
    p ← get_transaction_id t
    v ← chunk_loop (make p.0) chunks 0 p.0 (start_chunks p.1)
    some (record v { transaction_ids = (LockList.advance v.transaction_ids).1 })

pub record FileAppend : Type 0 where
  pub base : Transaction
  pub contents : Option (List ℕ)
  pub chunk_size : ℕ
  pub max_chunks : ℕ

abbrev pub new_file_append : FileAppend
new_file_append = record {
  base = record new_transaction { default_max_transaction_fee = 5 * 10 ^ 8 };
  contents = none;
  chunk_size = 4096;
  max_chunks = 20;
}

-- The contents of the file transaction, at the index of the list of ids; NaN is taken as 0 by `slice`.
unfoldable pub file_contents : ℕ → List ℕ → Option ℕ → List ℕ
file_contents size xs none = []
file_contents size xs (some i) = slice (i * size) (min (i * size + size) (length xs)) xs

module _ (encode_data : Option (List ℕ) → List ℕ) (hooks : Hooks) where
  -- `_makeTransactionData` of the file.
  abbrev pub make_file_data : ℕ → Option (List ℕ) → LockList TransactionId → List ℕ
  make_file_data size contents ids =
      encode_data (Option.map (λ xs. file_contents size xs ids.index) contents)

  -- `freezeWith` of the file, after the call of the base class, and as a whole.
  unfoldable pub finish_file :
      (LockList TransactionId → List ℕ)
      → FileAppend
      → Option (List ℕ)
      → Transaction
      → Option Transaction
  finish_file make f none t = some t
  finish_file make f (some xs) t = do
    v ← send_chunks hooks (λ _ _. make) f.max_chunks (number_of_chunks f.chunk_size xs) t
    some (record v { transaction_ids = LockList.set_locked v.transaction_ids })

  unfoldable pub freeze_file : ℤ → ℤ → Option Client → FileAppend → Option FileAppend
  freeze_file seconds nanos client f =
      let make = make_file_data f.chunk_size f.contents in
      do
        t ← freeze_with (record hooks { make_data = make }) seconds nanos client f.base
        v ← finish_file make f f.contents t
        some (record f { base = v })

pub record ChunkInfo : Type 0 where
  pub initial_transaction_id : TransactionId
  pub total : ℕ
  pub number : ℕ

pub record TopicMessage : Type 0 where
  pub topic_base : Transaction
  pub message : Option (List ℕ)
  pub topic_chunk_size : ℕ
  pub topic_max_chunks : ℕ

abbrev pub new_topic_message : TopicMessage
new_topic_message = record {
  topic_base = new_transaction;
  message = none;
  topic_chunk_size = 1024;
  topic_max_chunks = 20;
}

-- The message of the topic transaction, by the number of the chunk from 1 on.
unfoldable pub topic_message : ℕ → List ℕ → ℕ → List ℕ
topic_message size xs num =
    let start = (num - 1) * size in
    slice start (if ltb (length xs) (start + size) then length xs else start + size) xs

module _ (encode_message : Option (List ℕ) → Option ChunkInfo → List ℕ) (hooks : Hooks) where
  -- `_makeTransactionData` of the topic message, with the chunk info and without it.
  unfoldable pub make_topic_data : ℕ → List ℕ → ℕ → TransactionId → ℕ → List ℕ
  make_topic_data size xs chunks initial chunk =
      encode_message (some (topic_message size xs (chunk + 1)))
        (some (record { initial_transaction_id = initial; total = chunks; number = chunk + 1 }))

  -- `freezeWith` of the topic message, after the call of the base class, and as a whole; the chunk info
  -- is null before it.
  unfoldable pub finish_topic : TopicMessage → Option (List ℕ) → Transaction → Option Transaction
  finish_topic f none t = some t
  finish_topic f (some xs) t =
      let chunks = number_of_chunks f.topic_chunk_size xs in
      send_chunks hooks
        (λ initial chunk _. make_topic_data f.topic_chunk_size xs chunks initial chunk)
        f.topic_max_chunks chunks t

  unfoldable pub freeze_topic : ℤ → ℤ → Option Client → TopicMessage → Option TopicMessage
  freeze_topic seconds nanos client f =
      let whole = record hooks { make_data = λ _. encode_message f.message none } in
      do
        t ← freeze_with whole seconds nanos client f.topic_base
        v ← finish_topic f f.message t
        some (record f { topic_base = v })
