-- ===== src/Chunks/Join.antt =====
-- The chunks that are sent, joined, are the contents.
use u2u_sdk_js.Common.{
  ℕ, zero, suc, ◌+◌, ◌-◌, ◌*◌, ◌<◌, ◌≡◌, refl, ap, ◌∙◌, sym, false, Option, none, some, List, [],
  ◌∷◌, map, length, take, drop, ◌>>=◌, arith, ◌⊎◌, inl, inr,
}
use u2u_sdk_js.Common.Int.{ℤ}
use u2u_sdk_js.LockList
use u2u_sdk_js.LockList.{LockList}
use u2u_sdk_js.Transaction.{TransactionId, Hooks, Transaction}
use u2u_sdk_js.Transaction.Freeze.{Client, freeze_with}
use u2u_sdk_js.Chunks.{
  number_of_chunks, FileAppend, file_contents, make_file_data, finish_file, freeze_file, ChunkInfo,
  TopicMessage, topic_message, make_topic_data, finish_topic, freeze_topic,
}
use u2u_sdk_js.Chunks.Pieces.{join, slice_clip, clip_min, chunk_list, length-chunk_list, all_chunks}
use u2u_sdk_js.Chunks.Loop.{At, datas, entries, send_chunks-entries}

-- What is made of each chunk and its index.
abbrev pub indexed : (ℕ → List ℕ → List ℕ) → ℕ → List (List ℕ) → List (List ℕ)
indexed g k [] = []
indexed g k (c ∷ cs) = g k c ∷ indexed g (k + 1) cs

indexed-map : (g : List ℕ → List ℕ) (k : ℕ) (cs : List (List ℕ)) → indexed (λ _. g) k cs ≡ map g cs
indexed-map g k [] = refl
indexed-map g k (c ∷ cs) = ap (λ r. g c ∷ r) (indexed-map g (k + 1) cs)

datas-indexed :
    (g : ℕ → List ℕ → List ℕ) (size : ℕ) (xs : List ℕ) (left k : ℕ)
    → datas (λ i. g i (take size (drop (i * size) xs))) k left
      ≡ indexed g k (chunk_list size xs k left)
datas-indexed g size xs zero k = refl
datas-indexed g size xs (suc left) k =
    ap (λ r. g k (take size (drop (k * size) xs)) ∷ r) (datas-indexed g size xs left (k + 1))

topic_message-take :
    (k size : ℕ) (xs : List ℕ) → topic_message size xs (k + 1) ≡ take size (drop (k * size) xs)
unfolding topic_message
topic_message-take k size xs =
    let e : k + 1 - 1 ≡ k = omega arith in
    rw e (slice_clip (k * size) size _ xs (clip_min (length xs) (k * size + size)))

file_contents-take :
    (k size : ℕ) (xs : List ℕ) → file_contents size xs (some k) ≡ take size (drop (k * size) xs)
unfolding file_contents
file_contents-take k size xs = slice_clip (k * size) size _ xs refl

make_file_data-take :
    (encode_data : Option (List ℕ) → List ℕ) (hooks : Hooks) (size k : ℕ) (xs : List ℕ)
    (contents : Option (List ℕ)) (ids : LockList TransactionId)
    → contents ≡ some xs
    → At (k + 1) ids
    → make_file_data encode_data hooks size contents ids
      ≡ encode_data (some (take size (drop (k * size) xs)))
make_file_data-take encode_data hooks size k xs contents ids c a =
    let e : ids.index ≡ some k = a.at_last ∙ ap some (omega arith) in
    rw (c, e) (ap (λ b. encode_data (some b)) (file_contents-take k size xs))

freeze_file_lem :
    (encode_data : Option (List ℕ) → List ℕ) (hooks : Hooks) (seconds nanos : ℤ)
    (client : Option Client) (f : FileAppend) (t : Transaction) {o : Option Transaction}
    → freeze_with
        (record hooks { make_data = make_file_data encode_data hooks f.chunk_size f.contents })
        seconds
        nanos
        client
        f.base
      ≡ some t
    → finish_file encode_data hooks
        (make_file_data encode_data hooks f.chunk_size f.contents)
        f
        f.contents
        t
      ≡ o
    → freeze_file encode_data hooks seconds nanos client f
      ≡ (o >>= λ v. some (record f { base = v }))
unfolding freeze_file
freeze_file_lem encode_data hooks seconds nanos client f t s r = rw (s, r) refl

freeze_topic_lem :
    (encode_message : Option (List ℕ) → Option ChunkInfo → List ℕ) (hooks : Hooks)
    (seconds nanos : ℤ) (client : Option Client) (f : TopicMessage) (t : Transaction)
    {o : Option Transaction}
    → freeze_with
        (record hooks { make_data = λ _. encode_message f.message none })
        seconds
        nanos
        client
        f.topic_base
      ≡ some t
    → finish_topic encode_message hooks f f.message t ≡ o
    → freeze_topic encode_message hooks seconds nanos client f
      ≡ (o >>= λ v. some (record f { topic_base = v }))
unfolding freeze_topic
freeze_topic_lem encode_message hooks seconds nanos client f t s r = rw (s, r) refl

-- With a positive chunk size and contents that are not null, where `super.freezeWith` returns and leaves
-- a transaction id and a list of signed transactions that is not locked, the file is frozen unless its
-- contents take more chunks than are allowed. The signed transactions are then, for each chunk in turn,
-- one for each node in turn, with the data of this chunk and the id of this chunk, each a nanosecond
-- after the one before; and the chunks, joined, are the contents.
pub freeze_file-join :
    (encode_data : Option (List ℕ) → List ℕ) (hooks : Hooks) (seconds nanos : ℤ)
    (client : Option Client) (f : FileAppend) (xs : List ℕ) (t : Transaction) (id : TransactionId)
    → f.contents ≡ some xs
    → 0 < f.chunk_size
    → freeze_with
        (record hooks { make_data = make_file_data encode_data hooks f.chunk_size f.contents })
        seconds
        nanos
        client
        f.base
      ≡ some t
    → LockList.is_empty t.transaction_ids ≡ false
    → LockList.current t.transaction_ids ≡ some id
    → t.signed_transactions.locked ≡ false
    → ((freeze_file encode_data hooks seconds nanos client f ≡ none)
        × (f.max_chunks < number_of_chunks f.chunk_size xs))
      ⊎ ((g : FileAppend) × (freeze_file encode_data hooks seconds nanos client f ≡ some g)
          × (chunks : List (List ℕ)) × (join chunks ≡ xs)
          × (length chunks ≡ number_of_chunks f.chunk_size xs)
          × (g.base.signed_transactions.list
              ≡ entries hooks t id (map (λ c. encode_data (some c)) chunks)))
unfolding finish_file
freeze_file-join encode_data hooks seconds nanos client f xs t id c z s e i l =
    let make = make_file_data encode_data hooks f.chunk_size f.contents in
    let n = number_of_chunks f.chunk_size xs in
    let chunks = chunk_list f.chunk_size xs 0 n in
    let whole : List ℕ → List ℕ = λ b. encode_data (some b) in
    let finished = ap (λ o. finish_file encode_data hooks make f o t) c in
    let lock : Transaction → Option Transaction =
      λ v. some (record v { transaction_ids = LockList.set_locked v.transaction_ids }) in
    let sent =
      send_chunks-entries hooks (λ _ _. make)
        (λ k. whole (take f.chunk_size (drop (k * f.chunk_size) xs))) f.max_chunks n id t
        (λ k ids a. make_file_data-take encode_data hooks f.chunk_size k xs f.contents ids c a) e i
        l in
    elim sent [
      | inl (p, q) ↦ inl (
        freeze_file_lem encode_data hooks seconds nanos client f t s
            (finished ∙ ap (λ m. m >>= lock) p),
        q,
      )
      | inr (v, p, q) ↦ inr (
        _,
        freeze_file_lem encode_data hooks seconds nanos client f t s
            (finished ∙ ap (λ m. m >>= lock) p),
        chunks,
        all_chunks f.chunk_size xs z,
        length-chunk_list f.chunk_size xs n 0,
        q
            ∙ ap (entries hooks t id)
                (datas-indexed (λ _. whole) f.chunk_size xs n 0 ∙ indexed-map whole 0 chunks),
      )
    ]

-- With a positive chunk size and a message that is not null, where `super.freezeWith` returns and leaves
-- a transaction id and a list of signed transactions that is not locked, the message is frozen unless it
-- takes more chunks than are allowed. The signed transactions are then, for each chunk in turn, one for
-- each node in turn, with this chunk, its number and the number of all chunks; and the chunks, joined,
-- are the message.
pub freeze_topic-join :
    (encode_message : Option (List ℕ) → Option ChunkInfo → List ℕ) (hooks : Hooks)
    (seconds nanos : ℤ) (client : Option Client) (f : TopicMessage) (xs : List ℕ) (t : Transaction)
    (id : TransactionId)
    → f.message ≡ some xs
    → 0 < f.topic_chunk_size
    → freeze_with
        (record hooks { make_data = λ _. encode_message f.message none })
        seconds
        nanos
        client
        f.topic_base
      ≡ some t
    → LockList.is_empty t.transaction_ids ≡ false
    → LockList.current t.transaction_ids ≡ some id
    → t.signed_transactions.locked ≡ false
    → ((freeze_topic encode_message hooks seconds nanos client f ≡ none)
        × (f.topic_max_chunks < number_of_chunks f.topic_chunk_size xs))
      ⊎ ((g : TopicMessage) × (freeze_topic encode_message hooks seconds nanos client f ≡ some g)
          × (chunks : List (List ℕ)) × (join chunks ≡ xs)
          × (length chunks ≡ number_of_chunks f.topic_chunk_size xs)
          × (g.topic_base.signed_transactions.list
              ≡ entries hooks t id (
                  indexed
                    (λ k c. encode_message (some c) (
                      some (record {
                        initial_transaction_id = id;
                        total = length chunks;
                        number = k + 1;
                      })))
                    0
                    chunks)))
unfolding finish_topic make_topic_data
freeze_topic-join encode_message hooks seconds nanos client f xs t id c z s e i l =
    let size = f.topic_chunk_size in
    let n = number_of_chunks size xs in
    let chunks = chunk_list size xs 0 n in
    let one : ℕ → ℕ → List ℕ → List ℕ = λ total k b.
      encode_message (some b)
        (some (record { initial_transaction_id = id; total = total; number = k + 1 })) in
    let finished = ap (λ o. finish_topic encode_message hooks f o t) c in
    let sent =
      send_chunks-entries hooks
        (λ initial chunk _. make_topic_data encode_message hooks size xs n initial chunk)
        (λ k. one n k (take size (drop (k * size) xs))) f.topic_max_chunks n id t
        (λ k ids a. ap (λ b. one n k b) (topic_message-take k size xs)) e i l in
    elim sent [
      | inl (p, q) ↦
          inl (freeze_topic_lem encode_message hooks seconds nanos client f t s (finished ∙ p), q)
      | inr (v, p, q) ↦ inr (
        _,
        freeze_topic_lem encode_message hooks seconds nanos client f t s (finished ∙ p),
        chunks,
        all_chunks size xs z,
        length-chunk_list size xs n 0,
        q
            ∙ ap (entries hooks t id) (
                datas-indexed (one n) size xs n 0
                ∙ ap (λ m. indexed (one m) 0 chunks) (sym (length-chunk_list size xs n 0))),
      )
    ]
