-- ===== src/EntityId/Checksum.antt =====
-- The checksum of an entity id, `_checksum` of src/EntityIdHelper.js. Texts are lists of character
-- codes and the ledger id is a list of bytes. The children prove what the checksum detects and that
-- its arithmetic is exact in doubles.
pub mod Exact
pub mod Inject
pub mod Differ
pub mod Detect
use u2u_sdk_js.Common.{
  ℕ, zero, suc, ◌+◌, ◌-◌, ◌*◌, ◌/◌, ◌%◌, ◌^◌, Bool, Option, none, some, List, [], ◌∷◌, ◌++◌, length,
  replicate, leb, ◌&&◌, ◌==◌, if◌then◌else◌,
}

abbrev pub p3 : ℕ
p3 = 26 * 26 * 26

abbrev pub p5 : ℕ
p5 = 26 * 26 * 26 * 26 * 26

abbrev pub ascii_a : ℕ
ascii_a = 97

abbrev pub m : ℕ
m = 1000003

abbrev pub w : ℕ
w = 31

-- The loop variables `s`, `s0` and `s1`.
pub record Sums : Type 0 where
  pub s : ℕ
  pub s0 : ℕ
  pub s1 : ℕ

abbrev pub is_digit : ℕ → Bool
is_digit c = leb b'0' c && leb c b'9'

-- `addr[i] === "." ? 10 : parseInt(addr[i], 10)`, where `none` is NaN.
unfoldable pub digit : ℕ → Option ℕ
digit c = if c == b'.' then some 10 else if is_digit c then some (c - b'0') else none

-- The array `d`; a NaN in it makes `s`, and so the number `c`, NaN.
unfoldable pub digits : List ℕ → Option (List ℕ)
unfolding digit
digits [] = some []
digits (c ∷ cs) = elim (digit c) [
  | none ↦ none
  | some x ↦ elim (digits cs) [ none ↦ none | some d ↦ some (x ∷ d) ]
]

-- One round of the loop over `d`.
unfoldable pub add_digit : ℕ → ℕ → Sums → Sums
add_digit i x t = record {
  s = (w * t.s + x) % p3;
  s0 = if i % 2 == 0 then (t.s0 + x) % 11 else t.s0;
  s1 = if i % 2 == 0 then t.s1 else (t.s1 + x) % 11;
}

unfoldable pub sum_digits : ℕ → List ℕ → Sums → Sums
sum_digits i [] t = t
sum_digits i (x ∷ d) t = sum_digits (i + 1) d (add_digit i x t)

abbrev pub start : Sums
start = record { s = 0; s0 = 0; s1 = 0 }

-- The loop over `h`, the ledger id followed by six zeros.
unfoldable pub hash_from : ℕ → List ℕ → ℕ
hash_from sh [] = sh
hash_from sh (x ∷ h) = hash_from ((w * sh + x) % p5) h

unfoldable pub hash : List ℕ → ℕ
unfolding hash_from
hash ledger = hash_from 0 (ledger ++ replicate 6 0)

-- The number that is permuted, before and after it is.
abbrev pub weigh : ℕ → Sums → ℕ
weigh len t = ((len % 5 * 11 + t.s0) * 11 + t.s1) * p3 + t.s

unfoldable pub number : ℕ → Sums → ℕ → ℕ
number len t sh = (weigh len t + sh) % p5 * m % p5

-- The last loop. The source divides `c` without rounding, and `String.fromCharCode` drops the
-- fraction of `ascii_a + (c % 26)`; so it reads the digits of the quotient that is rounded down.
unfoldable pub letters : ℕ → ℕ → List ℕ → List ℕ
letters zero c answer = answer
letters (suc k) c answer = letters k (c / 26) ((ascii_a + c % 26) ∷ answer)

-- With NaN for `c` the code of each letter is NaN, which `String.fromCharCode` reads as 0.
unfoldable pub checksum : List ℕ → List ℕ → List ℕ
unfolding digits sum_digits add_digit hash number letters
checksum ledger addr = elim (digits addr) [
  | none ↦ replicate 5 0
  | some d ↦ letters 5 (number (length addr) (sum_digits 0 d start) (hash ledger)) []
]
