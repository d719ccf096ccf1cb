-- ===== src/EntityId/Solidity/Bytes.antt =====
-- An address keeps the low 32 bits of each part of an id, and no more.
use u2u_sdk_js.Common.{ℕ, ◌/◌, ◌%◌, ◌^◌, ◌<◌, ◌++◌, ◌≡◌, ap, ◌∙◌, some, List, ◌∷◌, arith}
use u2u_sdk_js.Common.Int.{pos}
use u2u_sdk_js.Encoding.Hex.RoundTrip.{IsBytes, decode-encode, strip_prefix-encode}
use u2u_sdk_js.EntityId.Solidity.{
  LongBytes, to_double, set_uint32, address_bytes, to_solidity_address, from_bytes,
  from_solidity_address,
}

to_double_small : (n : ℕ) → n < 2 ^ 53 → to_double 11 1 n ≡ n
unfolding to_double
to_double_small n h = ground arith

abbrev words : ℕ → ℕ → ℕ → List ℕ
words s r n =
    set_uint32 (pos s)
    ++ (0 ∷ 0 ∷ 0 ∷ 0 ∷ (set_uint32 (pos r) ++ (0 ∷ 0 ∷ 0 ∷ 0 ∷ set_uint32 (pos n))))

words-IsBytes : (s r n : ℕ) → IsBytes (words s r n)
unfolding set_uint32
words-IsBytes s r n = omega arith

address_bytes-words :
    (s r n : ℕ)
    → s < 2 ^ 53
    → r < 2 ^ 53
    → n < 2 ^ 53
    → address_bytes (record { shard = pos s; realm = pos r; num = pos n }) ≡ words s r n
unfolding address_bytes
address_bytes-words s r n hs hr hn =
    λ i. words (to_double_small s hs i) (to_double_small r hr i) (to_double_small n hn i)

word_lem :
    (long : LongBytes) (n : ℕ)
    → long.from_bytes_be (0 ∷ 0 ∷ 0 ∷ 0 ∷ set_uint32 (pos n)) ≡ pos (n % 2 ^ 32)
unfolding set_uint32
word_lem long n =
    long.from_bytes_be_low (k / 2 ^ 24) (k / 2 ^ 16 % 256) (k / 2 ^ 8 % 256) (k % 256) (omega arith)
      (omega arith) (omega arith) (omega arith)
    ∙ ap pos (omega arith)
  where
    k : ℕ
    k = n % 2 ^ 32

from_bytes-words :
    (long : LongBytes) (s r n : ℕ)
    → from_bytes long (words s r n)
      ≡ some (record { shard = pos (s % 2 ^ 32); realm = pos (r % 2 ^ 32); num = pos (n % 2 ^ 32) })
unfolding from_bytes set_uint32
from_bytes-words long s r n = λ i.
    some (record { shard = word_lem long s i; realm = word_lem long r i; num = word_lem long n i })

-- For parts that are not negative and below 2^53, where numbers are exact, an address is read back as
-- the id whose parts are those of the given id modulo 2^32.
pub from-to_solidity_address :
    (long : LongBytes) (s r n : ℕ)
    → s < 2 ^ 53
    → r < 2 ^ 53
    → n < 2 ^ 53
    → from_solidity_address long
        (to_solidity_address (record { shard = pos s; realm = pos r; num = pos n }))
      ≡ some (record { shard = pos (s % 2 ^ 32); realm = pos (r % 2 ^ 32); num = pos (n % 2 ^ 32) })
unfolding from_solidity_address to_solidity_address
from-to_solidity_address long s r n hs hr hn =
    rw
      (
        address_bytes-words s r n hs hr hn,
        strip_prefix-encode (words s r n) (words-IsBytes s r n),
        decode-encode (words s r n) (words-IsBytes s r n),
      )
      (from_bytes-words long s r n)
