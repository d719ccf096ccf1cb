-- ===== src/EntityId/Solidity.antt =====
-- Solidity addresses: `fromSolidityAddress` and `toSolidityAddress` of src/EntityIdHelper.js, over the
-- hexadecimal text of `Encoding.Hex`.
pub mod Bytes
use u2u_sdk_js.Common.{
  ℕ, zero, suc, ltb, ◌&&◌, ◌||◌, ◌+◌, ◌-◌, ◌*◌, ◌/◌, ◌%◌, ◌^◌, ◌<◌, ◌≡◌, Option, none, some, List,
  [], ◌∷◌, ◌++◌, length, take, drop, replicate, ◌==◌, if◌then◌else◌,
}
use u2u_sdk_js.Common.Int.{ℤ, pos, negsuc, sub_ℕ}
use u2u_sdk_js.EntityId.Id.{EntityId}
use u2u_sdk_js.Encoding.Hex.{encode, decode, strip_prefix}

-- What the code asks of `Long.fromBytesBE`: eight bytes with the four high ones 0 are read in big
-- endian order.
pub record LongBytes : Type 0 where
  pub from_bytes_be : List ℕ → ℤ
  pub from_bytes_be_low :
      (a b c d : ℕ)
      → a < 256
      → b < 256
      → c < 256
      → d < 256
      → from_bytes_be (0 ∷ 0 ∷ 0 ∷ 0 ∷ a ∷ b ∷ c ∷ d ∷ [])
        ≡ pos (((a * 256 + b) * 256 + c) * 256 + d)

-- `n` rounded to a multiple of `unit`, ties to the even multiple.
abbrev pub round_to : ℕ → ℕ → ℕ
round_to unit n =
    let q = n / unit in
    let r = n % unit in
    if ltb (r * 2) unit || (r * 2 == unit && q % 2 == 0) then q * unit else (q + 1) * unit

-- The nearest double of a number below 2^64: it keeps 53 bits, so that the unit doubles with each bit
-- above these. The fuel is the number of those bits, at most 11.
unfoldable pub to_double : ℕ → ℕ → ℕ → ℕ
to_double zero unit n = round_to unit n
to_double (suc more) unit n =
    let next = to_double more (unit * 2) n in
    if ltb n (2 ^ 53 * unit) then round_to unit n else next

-- `convertToNumber` of a Long: `parseInt` of its decimal text is the nearest double.
unfoldable pub convert_to_number : ℤ → ℤ
unfolding to_double
convert_to_number (pos n) = pos (to_double 11 1 n)
convert_to_number (negsuc n) = sub_ℕ 0 (to_double 11 1 (suc n))

-- The number that `DataView.setUint32` stores of an integer: modulo 2^32.
abbrev pub to_uint32 : ℤ → ℕ
to_uint32 (pos n) = n % 2 ^ 32
to_uint32 (negsuc n) = 2 ^ 32 - 1 - n % 2 ^ 32

unfoldable pub set_uint32 : ℤ → List ℕ
set_uint32 i =
    let n = to_uint32 i in (n / 2 ^ 24) ∷ (n / 2 ^ 16 % 256) ∷ (n / 2 ^ 8 % 256) ∷ (n % 256) ∷ []

-- The twenty bytes: words at the offsets 0, 8 and 16, and zeros elsewhere.
unfoldable pub address_bytes : EntityId → List ℕ
unfolding set_uint32 convert_to_number
address_bytes i =
    let word : ℤ → List ℕ = λ n. set_uint32 (convert_to_number n) in
    word i.shard ++ (0 ∷ 0 ∷ 0 ∷ 0 ∷ (word i.realm ++ (0 ∷ 0 ∷ 0 ∷ 0 ∷ word i.num)))

unfoldable pub to_solidity_address : EntityId → List ℕ
to_solidity_address i = encode (address_bytes i)

module _ (long : LongBytes) where
  open long use {from_bytes_be}

  -- `none` is the error of a wrong length.
  unfoldable pub from_bytes : List ℕ → Option EntityId
  from_bytes addr =
      if length addr == 20
      then some (record {
        shard = from_bytes_be (0 ∷ 0 ∷ 0 ∷ 0 ∷ take 4 addr);
        realm = from_bytes_be (take 8 (drop 4 addr));
        num = from_bytes_be (take 8 (drop 12 addr));
      })
      else none

  unfoldable pub from_solidity_address : List ℕ → Option EntityId
  from_solidity_address address = from_bytes (decode (strip_prefix address))
