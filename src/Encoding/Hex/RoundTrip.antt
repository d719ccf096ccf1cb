-- ===== src/Encoding/Hex/RoundTrip.antt =====
-- Decoding gives back the bytes, and padding puts zeros before the digits.
use u2u_sdk_js.Common.{
  ℕ, zero, suc, ◌-◌, ◌*◌, ◌/◌, ◌%◌, ◌<◌, ◌≡◌, none, refl, sym, ap, ◌∙◌, some, List, [], ◌∷◌, ◌++◌,
  length, replicate, false, ◌==◌, arith,
}
use mathlib.Core.List.{append_assoc, append-nil}
use u2u_sdk_js.Encoding.Hex.{
  hex_char, byte_to_hex, encode, hex_value, strip_prefix, is_line_end, read_two, read_pieces,
  decode, append_digits, pad_loop, hex_zero_padded,
}

abbrev pub IsBytes : List ℕ → Type 0
IsBytes [] = Unit
IsBytes (b ∷ bytes) = (b < 256) × IsBytes bytes

hex_value-hex_char : (n : ℕ) → n < 16 → hex_value (hex_char n) ≡ some n
unfolding hex_value hex_char
hex_value-hex_char n h = ground arith

hex_char-is_line_end : (n : ℕ) → n < 16 → is_line_end (hex_char n) ≡ false
unfolding hex_char is_line_end
hex_char-is_line_end n h = ground arith

read_two-hex_char : (b : ℕ) → b < 256 → read_two (hex_char (b / 16)) (hex_char (b % 16)) ≡ b
unfolding read_two
read_two-hex_char b h = ground (arith, hex_value-hex_char (b / 16), hex_value-hex_char (b % 16))

read_pieces-encode : (bytes : List ℕ) → IsBytes bytes → read_pieces none (encode bytes) ≡ bytes
unfolding read_pieces encode
read_pieces-encode [] h = refl
read_pieces-encode (b ∷ bytes) h = ground (
  arith,
  hex_char-is_line_end (b / 16),
  hex_char-is_line_end (b % 16),
  read_two-hex_char b,
  read_pieces-encode bytes,
)

hex_char-ne : (n : ℕ) → n < 16 → (hex_char n == b'x') ≡ false
unfolding hex_char
hex_char-ne n h = ground arith

pub strip_prefix-encode :
    (bytes : List ℕ) → IsBytes bytes → strip_prefix (encode bytes) ≡ encode bytes
unfolding strip_prefix encode
strip_prefix-encode [] h = refl
strip_prefix-encode (b ∷ bytes) h = ground (arith, hex_char-ne (b % 16))

-- Decoding the text of an array of bytes gives the array back.
pub decode-encode : (bytes : List ℕ) → IsBytes bytes → decode (encode bytes) ≡ bytes
unfolding decode
decode-encode bytes h = rw (strip_prefix-encode bytes h) (read_pieces-encode bytes h)

pub length-encode : (bytes : List ℕ) → length (encode bytes) ≡ 2 * length bytes
unfolding encode
length-encode [] = refl
length-encode (b ∷ bytes) = omega (arith, length-encode bytes)

append_digits_lem : (result value : List ℕ) → append_digits result value ≡ result ++ encode value
unfolding append_digits encode
append_digits_lem result [] = sym (append-nil result)
append_digits_lem result (v ∷ value) =
    append_digits_lem (result ++ byte_to_hex v) value
    ∙ append_assoc result (byte_to_hex v) (encode value)

snoc_zeros :
    (k : ℕ) (text : List ℕ) → replicate k b'0' ++ (b'0' ∷ text) ≡ replicate (suc k) b'0' ++ text
snoc_zeros zero text = refl
snoc_zeros (suc k) text = ap (λ r. b'0' ∷ r) (snoc_zeros k text)

pad_loop_lem :
    (fuel k len : ℕ) (text : List ℕ)
    → k ≡ 2 * len - length text
    → k < fuel
    → pad_loop fuel len (b'0' ∷ b'x' ∷ text) ≡ some (b'0' ∷ b'x' ∷ replicate k b'0' ++ text)
unfolding pad_loop
pad_loop_lem zero k len text e h = absurd (omega arith)
pad_loop_lem (suc fuel) zero len text e h = ground arith
pad_loop_lem (suc fuel) (suc k) len text e h =
    ground (arith, pad_loop_lem fuel k len (b'0' ∷ text), snoc_zeros k text)

-- With more fuel than there are zeros to add, `hexZeroPadded` ends, and returns the digits of the
-- value behind as many zeros as fill it up to two for each byte of the length.
pub hex_zero_padded_lem :
    (fuel len : ℕ) (value : List ℕ)
    → 2 * len - 2 * length value < fuel
    → hex_zero_padded fuel value len
      ≡ some (replicate (2 * len - 2 * length value) b'0' ++ encode value)
unfolding hex_zero_padded
hex_zero_padded_lem fuel len value h = ground (
  arith,
  append_digits_lem (b'0' ∷ b'x' ∷ []) value,
  length-encode value,
  pad_loop_lem fuel (2 * len - 2 * length value) len (encode value),
)
