-- ===== src/Encoding/Hex/Tests.antt =====
-- The theorems on hexadecimal text at short arrays.
use u2u_sdk_js.Common.{◌≡◌, refl, some, [], ◌∷◌, arith}
use u2u_sdk_js.Encoding.Hex.{encode, decode, hex_zero_padded}
use u2u_sdk_js.Encoding.Hex.RoundTrip.{decode-encode, hex_zero_padded_lem}

decode_upper : decode (b'0' ∷ b'x' ∷ b'F' ∷ b'f' ∷ b'7' ∷ []) ≡ 255 ∷ 7 ∷ []
unfolding decode
decode_upper = refl

-- A sign, a character that is no digit at all, and a digit before one.
decode_other : decode (b'-' ∷ b'1' ∷ b'g' ∷ b'1' ∷ b'1' ∷ b'g' ∷ []) ≡ 255 ∷ 0 ∷ 1 ∷ []
unfolding decode
decode_other = refl

decode-encode_example : decode (encode (18 ∷ 255 ∷ [])) ≡ 18 ∷ 255 ∷ []
decode-encode_example = decode-encode (18 ∷ 255 ∷ []) (omega arith)

hex_zero_padded_lem_example :
    hex_zero_padded 5 (171 ∷ []) 2 ≡ some (b'0' ∷ b'0' ∷ encode (171 ∷ []))
hex_zero_padded_lem_example = hex_zero_padded_lem 5 2 (171 ∷ []) (omega arith)
