-- ===== src/Network/Update/Shuffle.antt =====
-- `util.shuffle` only changes the order.
use u2u_sdk_js.Common.{
  ℕ, zero, suc, ◌+◌, ◌%◌, ◌≤◌, ◌<◌, ◌≡◌, refl, ap, ◌∙◌, List, [], ◌∷◌, length, length-set, get_or,
  arith, ◌==◌, if◌then◌else◌, Bool,
}
use u2u_sdk_js.Common
use u2u_sdk_js.Network.Update.{swap, shuffle_from, shuffle}

-- How often a number stands in a list.
abbrev pub count : ℕ → List ℕ → ℕ
count k [] = 0
count k (x ∷ xs) = (if x == k then 1 else 0) + count k xs

count-set :
    (k : ℕ) (xs : List ℕ) (i v : ℕ)
    → i < length xs
    → count k (Common.set xs i v) + (if get_or xs i 0 == k then 1 else 0)
      ≡ count k xs + (if v == k then 1 else 0)
count-set k [] i v h = elim h [ ]
count-set k (x ∷ xs) zero v h = omega arith
count-set k (x ∷ xs) (suc i) v h = omega (arith, count-set k xs i v (omega arith))

get_or-set :
    (xs : List ℕ) (i j v : ℕ)
    → i < length xs
    → get_or (Common.set xs i v) j 0 ≡ (if i == j then v else get_or xs j 0)
get_or-set [] i j v h = elim h [ ]
get_or-set (x ∷ xs) zero zero v h = refl
get_or-set (x ∷ xs) zero (suc j) v h = ground arith
get_or-set (x ∷ xs) (suc i) zero v h = ground arith
get_or-set (x ∷ xs) (suc i) (suc j) v h = ground (arith, get_or-set xs i j v)

length-swap : (xs : List ℕ) (i j : ℕ) → length (swap xs i j) ≡ length xs
unfolding swap
length-swap xs i j =
    length-set (Common.set xs i (get_or xs j 0)) j (get_or xs i 0) ∙ length-set xs i (get_or xs j 0)

count-swap :
    (k : ℕ) (xs : List ℕ) (i j : ℕ)
    → i < length xs
    → j < length xs
    → count k (swap xs i j) ≡ count k xs
unfolding swap
count-swap k xs i j hi hj = ground (
  arith,
  count-set k xs i (get_or xs j 0),
  length-set xs i (get_or xs j 0),
  count-set k (Common.set xs i (get_or xs j 0)) j (get_or xs i 0),
  get_or-set xs i j (get_or xs j 0),
)

count-shuffle_from :
    (k : ℕ) (random : ℕ → ℕ) (i : ℕ) (xs : List ℕ)
    → i ≤ length xs
    → count k (shuffle_from random i xs) ≡ count k xs
unfolding shuffle_from
count-shuffle_from k random zero xs h = refl
count-shuffle_from k random (suc i) xs h =
    count-shuffle_from k random i (swap xs i j) (omega (arith, length-swap xs i j))
    ∙ count-swap k xs i j h (omega arith)
  where
    j : ℕ
    j = random (suc i) % suc i

-- Whatever numbers are drawn, each element stands in the shuffled array as often as in the given one.
pub count-shuffle :
    (k : ℕ) (random : ℕ → ℕ) (xs : List ℕ) → count k (shuffle random xs) ≡ count k xs
unfolding shuffle
count-shuffle k random xs = count-shuffle_from k random (length xs) xs (omega arith)
