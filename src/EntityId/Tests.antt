-- ===== src/EntityId/Tests.antt =====
-- The theorems on entity ids at concrete ids, with a number written as its last digit and one mark for
-- each ten, and with four bytes read in big endian order.
use u2u_sdk_js.Common.{
  ℕ, zero, suc, ◌+◌, ◌-◌, ◌*◌, ◌/◌, ◌%◌, ◌^◌, ◌<◌, ◌≡◌, ◌≢◌, ◌↔◌, refl, ap, true, none, some, List,
  [], ◌∷◌, ◌++◌, length, replicate, arith,
}
use u2u_sdk_js.Common.Int.{ℤ, pos, negsuc}
use u2u_sdk_js.EntityId.Checksum.{is_digit, checksum}
use u2u_sdk_js.EntityId.Checksum.Detect.{checksum_substitution, checksum_transposition}
use u2u_sdk_js.EntityId.Parse.{
  LongText, full_parts, all, split, span, split_rest, match_realm, match_num, match_suffix,
  from_string, to_string, to_string_with_checksum, validate_checksum, valid, bad_entity_id,
}
use u2u_sdk_js.EntityId.Parse.Split.{split-Reads, Reads}
use u2u_sdk_js.EntityId.Parse.Mistype.{id_of, checked_round_trip, mistyped-bad_entity_id}
use u2u_sdk_js.EntityId.Solidity.{LongBytes, to_double, from_solidity_address, to_solidity_address}
use u2u_sdk_js.EntityId.Solidity.Bytes.{from-to_solidity_address}
use u2u_sdk_js.EntityId.Account.{Account}

-- The address of the test vectors of the checksum, `0.0.123` on the ledger 0.
abbrev zero_zero : List ℕ
zero_zero = b'0' ∷ b'.' ∷ b'0' ∷ b'.' ∷ []

checksum_123 :
    checksum (0 ∷ []) (zero_zero ++ (b'1' ∷ b'2' ∷ b'3' ∷ []))
    ≡ b'v' ∷ b'f' ∷ b'm' ∷ b'k' ∷ b'w' ∷ []
unfolding checksum
checksum_123 = refl

-- The evidence that a text of six characters is an address.
abbrev SixTrue : Type 0
SixTrue =
    (true ≡ true)
    × ((true ≡ true)
        × ((true ≡ true) × ((true ≡ true) × ((true ≡ true) × ((true ≡ true) × Unit {0})))))

abbrev six_chars : SixTrue
six_chars = (refl, (refl, (refl, (refl, (refl, (refl, tt))))))

checksum_substitution_example :
    checksum (0 ∷ []) (zero_zero ++ b'1' ∷ b'2' ∷ [])
    ≢ checksum (0 ∷ []) (zero_zero ++ b'3' ∷ b'2' ∷ [])
checksum_substitution_example =
    checksum_substitution (0 ∷ []) zero_zero (b'2' ∷ []) b'1' b'3' six_chars six_chars (omega arith)

checksum_transposition_example :
    checksum (0 ∷ []) (zero_zero ++ (b'1' ∷ b'2' ∷ []))
    ≢ checksum (0 ∷ []) (zero_zero ++ (b'2' ∷ b'1' ∷ []))
checksum_transposition_example =
    checksum_transposition (0 ∷ []) zero_zero [] b'1' b'2' six_chars six_chars (omega arith)

abbrev digit_text : ℕ → List ℕ
digit_text n = (b'0' + n % 10) ∷ replicate (n / 10) b'1'

abbrev text_of : ℤ → List ℕ
text_of (pos n) = digit_text n
text_of (negsuc n) = b'-' ∷ digit_text n

abbrev number_of : List ℕ → ℤ
number_of [] = pos 0
number_of (c ∷ cs) = pos ((c - b'0') + 10 * length cs)

length-ones : (n : ℕ) → length {A = ℕ} (replicate n b'1') ≡ n
length-ones zero = refl
length-ones (suc n) = ap suc (length-ones n)

all-ones : (n : ℕ) → all is_digit (replicate n b'1') ≡ true
all-ones zero = refl
all-ones (suc n) = all-ones n

number-digit_text : (n : ℕ) → n < 2 ^ 63 → number_of (digit_text n) ≡ pos n
number-digit_text n h = ap pos (ground (arith, length-ones (n / 10)))

all-digit_text : (n : ℕ) → all is_digit (digit_text n) ≡ true
all-digit_text n = ground (arith, all-ones (n / 10))

abbrev long_text : LongText
long_text = record {
  to_text = text_of;
  from_text = number_of;
  from_text-to_text = number-digit_text;
  to_text_digits = all-digit_text;
  to_text_not_empty = λ n. refl;
}

checked_round_trip_example :
    (text sum : List ℕ) × (to_string_with_checksum long_text
        (to_string long_text (id_of 0 0 12))
        (some (0 ∷ []))
      ≡ some text)
    × (from_string long_text text ≡ some (record { id = id_of 0 0 12; checksum = some sum }))
    × (validate_checksum long_text (id_of 0 0 12) (some sum) (some (0 ∷ [])) ≡ valid)
checked_round_trip_example =
    checked_round_trip long_text (0 ∷ []) 0 0 12 (omega arith) (omega arith) (omega arith)

mistyped-bad_entity_id_example :
    validate_checksum long_text
      (id_of 0 0 7)
      (some (checksum (0 ∷ []) (to_string long_text (id_of 0 0 5))))
      (some (0 ∷ []))
    ≡ bad_entity_id
        (id_of 0 0 7)
        (checksum (0 ∷ []) (to_string long_text (id_of 0 0 5)))
        (checksum (0 ∷ []) (to_string long_text (id_of 0 0 7)))
unfolding to_string
mistyped-bad_entity_id_example =
    mistyped-bad_entity_id long_text (0 ∷ []) zero_zero [] b'5' b'7' 0 0 5 0 0 7 refl refl
      (omega arith)

split-Reads_example :
    split (zero_zero ++ (b'9' ∷ [])) ≡ some (full_parts (b'0' ∷ []) (b'0' ∷ []) (b'9' ∷ []) none)
    ↔ Reads (zero_zero ++ (b'9' ∷ [])) (full_parts (b'0' ∷ []) (b'0' ∷ []) (b'9' ∷ []) none)
split-Reads_example =
    split-Reads (zero_zero ++ (b'9' ∷ [])) (full_parts (b'0' ∷ []) (b'0' ∷ []) (b'9' ∷ []) none)

-- A point with no number after it is not accepted.
split_short : split (b'0' ∷ b'.' ∷ b'0' ∷ b'.' ∷ []) ≡ none
unfolding split span split_rest match_realm match_num match_suffix
split_short = refl

abbrev read_bytes : ℕ → List ℕ → ℕ
read_bytes n [] = n
read_bytes n (b ∷ bs) = read_bytes (n * 256 + b) bs

abbrev long_bytes : LongBytes
long_bytes = record {
  from_bytes_be = λ bs. pos (read_bytes 0 bs);
  from_bytes_be_low = λ a b c d ha hb hc hd. ap pos (omega arith);
}

from-to_solidity_address_example :
    from_solidity_address long_bytes (to_solidity_address (id_of 1 2 4294967301))
    ≡ some (id_of 1 2 5)
from-to_solidity_address_example =
    from-to_solidity_address long_bytes 1 2 4294967301 (omega arith) (omega arith) (omega arith)

-- The nearest double of 2^53 + 1 is 2^53, and the one of 2^53 + 3 is 2^53 + 4.
to_double_ties : to_double 11 1 (2 ^ 53 + 1) + to_double 11 1 (2 ^ 53 + 3) ≡ 2 ^ 54 + 4
unfolding to_double
to_double_ties = refl

abbrev with_alias : Account
with_alias = record {
  shard = pos 0;
  realm = pos 0;
  num = pos 0;
  alias_key = some (b'k' ∷ []);
  evm_address = none;
}

abbrev plain : Account
plain = record { shard = pos 0; realm = pos 0; num = pos 5; alias_key = none; evm_address = none }
