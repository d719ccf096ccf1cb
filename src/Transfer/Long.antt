-- ===== src/Transfer/Long.antt =====
-- Addition of Longs: signed 64-bit numbers in two's complement.
use u2u_sdk_js.Common.{ℕ, ◌+◌, ◌-◌, ◌%◌, ◌^◌, ◌<◌, ◌≡◌, ltb, if◌then◌else◌, arith}
use u2u_sdk_js.Common.Int.{ℤ, pos, negsuc}

-- The 64 bits of an integer, as a number.
abbrev pub word : ℤ → ℕ
word (pos n) = n % 2 ^ 64
word (negsuc n) = 2 ^ 64 - 1 - n % 2 ^ 64

unfoldable pub signed : ℕ → ℤ
signed w = if ltb w (2 ^ 63) then pos w else negsuc (2 ^ 64 - 1 - w)

-- `a.add(b)`.
unfoldable pub add_long : ℤ → ℤ → ℤ
add_long a b = signed ((word a + word b) % 2 ^ 64)

word-signed : (w : ℕ) → w < 2 ^ 64 → word (signed w) ≡ w
unfolding signed
word-signed w h = ground arith

-- The sum has the bits of the two numbers added modulo 2^64.
pub word-add_long : (a b : ℤ) → word (add_long a b) ≡ (word a + word b) % 2 ^ 64
unfolding add_long
word-add_long a b = word-signed ((word a + word b) % 2 ^ 64) (omega arith)

-- Where the integers' sum fits into a Long, it is the sum.
pub add_long_fits : (a b : ℕ) → a + b < 2 ^ 63 → add_long (pos a) (pos b) ≡ pos (a + b)
unfolding add_long signed
add_long_fits a b h = ground arith
