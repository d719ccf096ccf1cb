-- ===== src/Contract/Result.antt =====
-- Reading a result: `getBytes`, `getBytes32`, `getBool`, `getInt8`, `getUint8`, `getInt32`, `getUint32` and
-- `getAddress` of src/contract/ContractFunctionResult.js, with the index given. A read out of range of a
-- DataView throws: `none`.
pub mod RoundTrip
pub mod Read
pub mod Called
use Prim.Native.Nat.{min}
use u2u_sdk_js.Common.{
  ℕ, zero, suc, ◌+◌, ◌-◌, ◌*◌, ◌^◌, Bool, true, false, Option, none, some, List, length, get_elem?,
  ltb, ◌==◌, ◌>>=◌, if◌then◌else◌,
}
use u2u_sdk_js.Common.Int.{ℤ, pos, negsuc, ◌+ℤ◌}
use u2u_sdk_js.Encoding.Hex.{encode}
use u2u_sdk_js.Contract.Bytes.{subarray, get_uint32, signed32}

unfoldable pub result_uint32 : List ℕ → ℕ → Option ℕ
unfolding get_uint32
result_uint32 bytes index = get_uint32 bytes (index * 32 + 28)

unfoldable pub result_int32 : List ℕ → ℕ → Option ℤ
unfolding get_uint32
result_int32 bytes index = do n ← get_uint32 bytes (index * 32 + 28); some (signed32 n)

-- `getInt32` at a position that may be negative.
unfoldable pub int32_at : List ℕ → ℤ → Option ℤ
unfolding get_uint32
int32_at bytes (pos n) = do w ← get_uint32 bytes n; some (signed32 w)
int32_at bytes (negsuc n) = none

-- `subarray`, where a negative index counts from the end.
abbrev pub to_index : ℕ → ℤ → ℕ
to_index n (pos i) = min i n
to_index n (negsuc i) = n - suc i

unfoldable pub subarray_of : List ℕ → ℤ → ℤ → List ℕ
unfolding subarray
subarray_of bytes from to =
    subarray bytes (to_index (length bytes) from) (to_index (length bytes) to)

unfoldable pub get_bytes : List ℕ → ℕ → Option (List ℕ)
unfolding result_int32 int32_at subarray_of
get_bytes bytes index = do
  offset ← result_int32 bytes index
  len ← int32_at bytes (offset +ℤ pos 28)
  some (subarray_of bytes (offset +ℤ pos 32) (offset +ℤ pos 32 +ℤ len))

unfoldable pub get_bytes32 : List ℕ → ℕ → List ℕ
unfolding subarray
get_bytes32 bytes index = subarray bytes (index * 32) (index * 32 + 32)

-- `undefined !== 0` holds.
abbrev pub differs_from_0 : Option ℕ → Bool
differs_from_0 none = true
differs_from_0 (some b) = if b == 0 then false else true

unfoldable pub get_bool : List ℕ → ℕ → Bool
get_bool bytes index = differs_from_0 (get_elem? bytes (index * 32 + 31))

unfoldable pub get_uint8 : List ℕ → ℕ → Option ℕ
get_uint8 bytes index = get_elem? bytes (index * 32 + 31)

unfoldable pub get_int8 : List ℕ → ℕ → Option ℤ
get_int8 bytes index = do
  b ← get_elem? bytes (index * 32 + 31)
  some (if ltb b (2 ^ 7) then pos b else negsuc (2 ^ 8 - 1 - b))

unfoldable pub get_address : List ℕ → ℕ → List ℕ
unfolding subarray
get_address bytes index = encode (subarray bytes (index * 32 + 12) (index * 32 + 32))
