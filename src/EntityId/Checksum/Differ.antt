-- ===== src/EntityId/Checksum/Differ.antt =====
-- Sums that differ modulo 11: one digit, or the order of two, tells them apart.
use u2u_sdk_js.Common.{ℕ, ◌+◌, ◌%◌, ◌<◌, ◌≡◌, ◌≢◌, ◌⊎◌, List, [], ◌∷◌, ◌++◌, length, arith, ap, ◌∙◌}
use u2u_sdk_js.EntityId.Checksum.{sum_digits, Sums, add_digit, sum_digits}
use u2u_sdk_js.EntityId.Checksum.Exact.{IsReduced, add_digit-IsReduced}

-- Two states of the loop whose sums modulo 11 differ.
abbrev pub Differ : Sums → Sums → Type 0
Differ t u = (t.s0 ≢ u.s0) ⊎ (t.s1 ≢ u.s1)

sum-cancel : (a b x : ℕ) → a < 11 → b < 11 → (a + x) % 11 ≡ (b + x) % 11 → a ≡ b
sum-cancel a b x ha hb e = omega arith

add_digit-Differ :
    (i x : ℕ) (t u : Sums)
    → IsReduced t
    → IsReduced u
    → Differ t u
    → Differ (add_digit i x t) (add_digit i x u)
unfolding add_digit
add_digit-Differ i x t u rt ru d = ground (arith, sum-cancel t.s0 u.s0 x, sum-cancel t.s1 u.s1 x)

pub sum_digits-Differ :
    (i : ℕ) (d : List ℕ) (t u : Sums)
    → IsReduced t
    → IsReduced u
    → Differ t u
    → Differ (sum_digits i d t) (sum_digits i d u)
unfolding sum_digits
sum_digits-Differ i [] t u rt ru h = h
sum_digits-Differ i (x ∷ d) t u rt ru h =
    sum_digits-Differ (i + 1) d (add_digit i x t) (add_digit i x u) (add_digit-IsReduced i x t rt)
      (add_digit-IsReduced i x u ru) (add_digit-Differ i x t u rt ru h)

pub sum_digits-append :
    (i : ℕ) (xs ys : List ℕ) (t : Sums)
    → sum_digits i (xs ++ ys) t ≡ sum_digits (i + length xs) ys (sum_digits i xs t)
unfolding sum_digits
sum_digits-append i [] ys t = ap (λ k. sum_digits k ys t) (omega arith)
sum_digits-append i (x ∷ xs) ys t =
    sum_digits-append (i + 1) xs ys (add_digit i x t)
    ∙ ap (λ k. sum_digits k ys (sum_digits (i + 1) xs (add_digit i x t))) (omega arith)

pub substitute-Differ :
    (i x y : ℕ) (t : Sums)
    → IsReduced t
    → x < 11
    → y < 11
    → x ≢ y
    → Differ (add_digit i x t) (add_digit i y t)
unfolding add_digit
substitute-Differ i x y t r hx hy ne = ground arith

pub transpose-Differ :
    (i x y : ℕ) (t : Sums)
    → IsReduced t
    → x < 11
    → y < 11
    → x ≢ y
    → Differ (add_digit (i + 1) y (add_digit i x t)) (add_digit (i + 1) x (add_digit i y t))
unfolding add_digit
transpose-Differ i x y t r hx hy ne = ground arith
