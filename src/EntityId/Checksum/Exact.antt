-- ===== src/EntityId/Checksum/Exact.antt =====
-- The sizes of the numbers in `_checksum`: a double holds every one of them exactly.
use u2u_sdk_js.Common.{ℕ, ◌+◌, ◌*◌, ◌%◌, ◌^◌, ◌≤◌, ◌<◌, List, [], ◌∷◌, arith}
use u2u_sdk_js.EntityId.Checksum.{
  p3, p5, m, w, Sums, add_digit, sum_digits, start, hash_from, weigh, number,
}

-- What holds of the sums after each round.
pub record IsReduced (t : Sums) : Type 0 where
  pub s_lt : t.s < p3
  pub s0_lt : t.s0 < 11
  pub s1_lt : t.s1 < 11

pub add_digit-IsReduced : (i x : ℕ) (t : Sums) → IsReduced t → IsReduced (add_digit i x t)
unfolding add_digit
add_digit-IsReduced i x t r = ground arith

pub sum_digits-IsReduced :
    (i : ℕ) (d : List ℕ) (t : Sums) → IsReduced t → IsReduced (sum_digits i d t)
unfolding sum_digits
sum_digits-IsReduced i [] t r = r
sum_digits-IsReduced i (x ∷ d) t r =
    sum_digits-IsReduced (i + 1) d (add_digit i x t) (add_digit-IsReduced i x t r)

pub start-IsReduced : IsReduced start
start-IsReduced = omega arith

pub hash_from-lt : (h : List ℕ) (sh : ℕ) → sh < p5 → hash_from sh h < p5
unfolding hash_from
hash_from-lt [] sh r = r
hash_from-lt (x ∷ h) sh r = hash_from-lt h ((w * sh + x) % p5) (omega arith)

pub weigh-lt : (len : ℕ) (t : Sums) → IsReduced t → weigh len t < p5
weigh-lt len t r = omega arith

-- With reduced sums, a hash below `p5`, a digit at most 10 and a byte, every number that `_checksum`
-- computes on the way stays below 2^53, where doubles are exact; and the result is below `p5`.
pub number_exact :
    (len : ℕ) (t : Sums) (sh x b : ℕ)
    → IsReduced t
    → sh < p5
    → x ≤ 10
    → b < 256
    → (w * t.s + x < 2 ^ 53)
      × (w * sh + b < 2 ^ 53)
      × (weigh len t + sh < 2 ^ 53)
      × ((weigh len t + sh) % p5 * m < 2 ^ 53)
      × (number len t sh < p5)
unfolding number
number_exact len t sh x b r hs hx hb = omega arith
