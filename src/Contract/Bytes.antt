-- ===== src/Contract/Bytes.antt =====
-- Typed arrays: `Uint8Array.set`, and `setUint32`, `getUint32` and `getInt32` of a DataView. What is out
-- of range throws: `none`.
pub mod Laws
use u2u_sdk_js.Common.{
  ℕ, zero, suc, ◌+◌, ◌-◌, ◌*◌, ◌/◌, ◌%◌, ◌^◌, Option, none, some, List, [], ◌∷◌, length, take, drop,
  leb, ltb, if◌then◌else◌,
}
use u2u_sdk_js.Common.Int.{ℤ, pos, negsuc}

-- The elements from an index on are replaced.
unfoldable pub splice : ℕ → List ℕ → List ℕ → List ℕ
splice zero [] buffer = buffer
splice zero (x ∷ xs) [] = []
splice zero (x ∷ xs) (b ∷ buffer) = x ∷ splice zero xs buffer
splice (suc at) xs [] = []
splice (suc at) xs (b ∷ buffer) = b ∷ splice at xs buffer

unfoldable pub set_bytes : List ℕ → ℕ → List ℕ → Option (List ℕ)
unfolding splice
set_bytes buffer at xs =
    if leb (at + length xs) (length buffer) then some (splice at xs buffer) else none

-- A number modulo 2^32 in big endian order.
unfoldable pub uint32_bytes : ℕ → List ℕ
uint32_bytes n = (n / 2 ^ 24 % 256) ∷ (n / 2 ^ 16 % 256) ∷ (n / 2 ^ 8 % 256) ∷ (n % 256) ∷ []

unfoldable pub set_uint32 : List ℕ → ℕ → ℕ → Option (List ℕ)
unfolding set_bytes uint32_bytes
set_uint32 buffer at n = set_bytes buffer at (uint32_bytes n)

unfoldable pub subarray : List ℕ → ℕ → ℕ → List ℕ
subarray buffer from to = take (to - from) (drop from buffer)

abbrev pub read_word : List ℕ → Option ℕ
read_word (a ∷ b ∷ c ∷ d ∷ _) = some (((a * 256 + b) * 256 + c) * 256 + d)
read_word _ = none

unfoldable pub get_uint32 : List ℕ → ℕ → Option ℕ
unfolding subarray
get_uint32 buffer at = read_word (subarray buffer at (at + 4))

abbrev pub signed32 : ℕ → ℤ
signed32 n = if ltb n (2 ^ 31) then pos n else negsuc (2 ^ 32 - 1 - n)
