-- ===== src/Encoding/Hex.antt =====
-- Hexadecimal text, as src/encoding/hex.browser.js writes and reads it. Texts are lists of character
-- codes (the code points of the `u` flag) and byte arrays are lists of numbers below 256. The child proves the round trips.
pub mod RoundTrip
mod Tests
use u2u_sdk_js.Common.{
  ℕ, zero, suc, ◌+◌, ◌-◌, ◌*◌, ◌/◌, ◌%◌, Bool, true, false, Option, none, some, List, [], ◌∷◌, ◌++◌,
  length, leb, ltb, ◌&&◌, ◌||◌, ◌==◌, if◌then◌else◌,
}

-- The digits of `HexCharacters`, and of `n.toString(16)` at `n < 16`.
unfoldable pub hex_char : ℕ → ℕ
hex_char n = if ltb n 10 then b'0' + n else b'a' + (n - 10)

-- An entry of the table `byteToHex`: two digits, padded with a zero.
unfoldable pub byte_to_hex : ℕ → List ℕ
unfolding hex_char
byte_to_hex n = hex_char (n / 16) ∷ hex_char (n % 16) ∷ []

unfoldable pub encode : List ℕ → List ℕ
unfolding byte_to_hex
encode [] = []
encode (b ∷ bytes) = byte_to_hex b ++ encode bytes

-- The value of a digit; `none` where `parseInt` stops.
unfoldable pub hex_value : ℕ → Option ℕ
hex_value c =
    if leb b'0' c && leb c b'9'
    then some (c - b'0')
    else if leb b'a' c && leb c b'f'
    then some (c - b'a' + 10)
    else if leb b'A' c && leb c b'F'
    then some (c - b'A' + 10)
    else none

-- `text.startsWith("0x") ? text.substring(2) : text`.
unfoldable pub strip_prefix : List ℕ → List ℕ
strip_prefix (a ∷ b ∷ text) = if a == b'0' && b == b'x' then text else a ∷ b ∷ text
strip_prefix text = text

-- The characters that `.` does not match.
unfoldable pub is_line_end : ℕ → Bool
is_line_end c = c == 10 || c == 13 || c == 0x2028 || c == 0x2029

-- The other characters that `parseInt` skips at the start.
unfoldable pub is_blank : ℕ → Bool
is_blank c =
    c == 9
    || c == 11
    || c == 12
    || c == 32
    || c == 0xa0
    || c == 0x1680
    || leb 0x2000 c && leb c 0x200a
    || c == 0x202f
    || c == 0x205f
    || c == 0x3000
    || c == 0xfeff

-- The byte that is stored for `parseInt(byte, 16)` of one character, and of two. NaN is stored as 0, a
-- negative number modulo 256, and what follows the digits is not read; "0x" is 0 either way.
unfoldable pub read_one : ℕ → ℕ
unfolding hex_value
read_one a = elim (hex_value a) [ none ↦ 0 | some x ↦ x ]

unfoldable pub read_two : ℕ → ℕ → ℕ
unfolding hex_value read_one is_blank
read_two a b = elim (hex_value a) [
  | some x ↦ elim (hex_value b) [ none ↦ x | some y ↦ 16 * x + y ]
  | none ↦
      if a == b'-'
      then (256 - read_one b) % 256
      else if a == b'+' || is_blank a
      then read_one b
      else 0
]

-- The bytes of the pieces of `.{1,2}`; the option is the first character of the piece that is being
-- read.
unfoldable pub read_pieces : Option ℕ → List ℕ → List ℕ
unfolding read_one read_two is_line_end
read_pieces none [] = []
read_pieces (some a) [] = read_one a ∷ []
read_pieces none (c ∷ text) = read_pieces (if is_line_end c then none else some c) text
read_pieces (some a) (c ∷ text) =
    (if is_line_end c then read_one a else read_two a c) ∷ read_pieces none text

unfoldable pub decode : List ℕ → List ℕ
unfolding strip_prefix read_pieces
decode text = read_pieces none (strip_prefix text)

-- The first loop of `hexZeroPadded`: `(v & 0xf0) >> 4` and `v & 0x0f` are the two digits of a byte.
unfoldable pub append_digits : List ℕ → List ℕ → List ℕ
unfolding byte_to_hex
append_digits result [] = result
append_digits result (v ∷ value) = append_digits (result ++ byte_to_hex v) value

-- `result.substring(2)`.
unfoldable pub substring2 : List ℕ → List ℕ
substring2 (_ ∷ _ ∷ text) = text
substring2 text = []

-- The `while` loop of `hexZeroPadded`, on fuel; `none` means that the fuel ran out.
unfoldable pub pad_loop : ℕ → ℕ → List ℕ → Option (List ℕ)
unfolding substring2
pad_loop zero len result = none
pad_loop (suc fuel) len result =
    let rest = pad_loop fuel len (b'0' ∷ b'x' ∷ b'0' ∷ substring2 result) in
    if ltb (length result) (2 * len + 2) then rest else some result

unfoldable pub hex_zero_padded : ℕ → List ℕ → ℕ → Option (List ℕ)
unfolding substring2
hex_zero_padded fuel value len = elim (pad_loop fuel len (append_digits (b'0' ∷ b'x' ∷ []) value)) [
  | none ↦ none
  | some result ↦ some (substring2 result)
]
