-- ===== src/EntityId/Checksum/Detect.antt =====
-- What the checksum of src/EntityIdHelper.js detects: a mistyped character and two neighbouring
-- characters in the wrong order.
use u2u_sdk_js.Common.{
  length-append, length-map, replicate, ℕ, ◌+◌, ◌-◌, ◌<◌, ◌≡◌, ◌≢◌, refl, some, List, [], ◌∷◌, ◌++◌,
  map, length, true, ◌==◌, if◌then◌else◌, arith, Bool, ◌||◌,
}
use u2u_sdk_js.EntityId.Checksum.Inject.{letters-injective, number-injective}
use mathlib.Core.List.{map-append}
use u2u_sdk_js.EntityId.Checksum.{
  p5, checksum, hash, number, letters, start, sum_digits, Sums, is_digit, digit, digits, sum_digits,
}
use u2u_sdk_js.EntityId.Checksum.Exact.{
  IsReduced, sum_digits-IsReduced, start-IsReduced, hash_from-lt, number_exact,
}
use u2u_sdk_js.EntityId.Checksum.Differ.{
  Differ, sum_digits-Differ, sum_digits-append, substitute-Differ, transpose-Differ,
}

-- The characters of `shard.realm.num`.
abbrev pub is_address_char : ℕ → Bool
is_address_char c = c == b'.' || is_digit c

abbrev pub IsAddress : List ℕ → Type 0
IsAddress [] = Unit
IsAddress (c ∷ cs) = (is_address_char c ≡ true) × IsAddress cs

pub value : ℕ → ℕ
value c = if c == b'.' then 10 else c - b'0'

digit-eq-value : (c : ℕ) → is_address_char c ≡ true → digit c ≡ some (value c)
unfolding digit value
digit-eq-value c h = ground arith

value-lt : (c : ℕ) → is_address_char c ≡ true → value c < 11
unfolding value
value-lt c h = ground arith

value-injective :
    (c d : ℕ) → is_address_char c ≡ true → is_address_char d ≡ true → value c ≡ value d → c ≡ d
unfolding value
value-injective c d hc hd e = ground arith

digits-eq-map : (cs : List ℕ) → IsAddress cs → digits cs ≡ some (map value cs)
unfolding digits
digits-eq-map [] h = refl
digits-eq-map (c ∷ cs) h = ground (arith, digit-eq-value c h.0, digits-eq-map cs h.1)

IsAddress-append : (xs ys : List ℕ) → IsAddress (xs ++ ys) → IsAddress xs × IsAddress ys
IsAddress-append [] ys h = (tt, h)
IsAddress-append (x ∷ xs) ys h =
    ((h.0, (IsAddress-append xs ys h.1).0), (IsAddress-append xs ys h.1).1)

-- The middle part of two addresses, read from any state, leaves sums that differ.
abbrev Separates : List ℕ → List ℕ → Type 0
Separates xs ys =
    (i : ℕ) (t : Sums)
    → IsReduced t
    → Differ (sum_digits i (map value xs) t) (sum_digits i (map value ys) t)

hash-lt : (ledger : List ℕ) → hash ledger < p5
unfolding hash
hash-lt ledger = hash_from-lt (ledger ++ replicate 6 0) 0 (omega arith)

pub checksum_of_IsAddress :
    (ledger addr : List ℕ)
    → IsAddress addr
    → checksum ledger addr
      ≡ letters 5 (number (length addr) (sum_digits 0 (map value addr) start) (hash ledger)) []
unfolding checksum
checksum_of_IsAddress ledger addr h = rw (digits-eq-map addr h, checksum)

number-Differ :
    (len : ℕ) (t u : Sums) (sh : ℕ)
    → IsReduced t
    → IsReduced u
    → sh < p5
    → Differ t u
    → letters 5 (number len t sh) [] ≢ letters 5 (number len u sh) []
number-Differ len t u sh rt ru hs d e =
    let same : number len t sh ≡ number len u sh =
      letters-injective (number len t sh) (number len u sh)
        (number_exact len t sh 0 0 rt hs (omega arith) (omega arith)).4
        (number_exact len u sh 0 0 ru hs (omega arith) (omega arith)).4 e in
    let equal = number-injective len t u sh rt ru same in ground arith

abbrev after : ℕ → List ℕ → Sums → Sums
after i xs t = sum_digits i (map value xs) t

after-append :
    (i : ℕ) (xs ys : List ℕ) (t : Sums)
    → after i (xs ++ ys) t ≡ after (i + length xs) ys (after i xs t)
after-append i xs ys t =
    rw (map-append, sum_digits-append i (map value xs) (map value ys) t, length-map xs value)

after-IsReduced : (xs : List ℕ) → IsReduced (after 0 xs start)
after-IsReduced xs = sum_digits-IsReduced 0 (map value xs) start start-IsReduced

Separates-append :
    (pre xs ys post : List ℕ)
    → length xs ≡ length ys
    → Separates xs ys
    → Differ (after 0 (pre ++ (xs ++ post)) start) (after 0 (pre ++ (ys ++ post)) start)
Separates-append pre xs ys post len sep =
    rw
      (
        after-append 0 pre (xs ++ post) start,
        after-append 0 pre (ys ++ post) start,
        after-append n xs post t,
        after-append n ys post t,
        ← len,
      )
      (sum_digits-Differ (n + length xs) (map value post) (after n xs t) (after n ys t)
        (sum_digits-IsReduced n (map value xs) t r) (sum_digits-IsReduced n (map value ys) t r)
        (sep n t r))
  where
    n : ℕ
    n = 0 + length pre

    t : Sums
    t = after 0 pre start

    r : IsReduced t
    r = after-IsReduced pre

length_middle :
    (pre xs ys post : List ℕ)
    → length xs ≡ length ys
    → length (pre ++ (xs ++ post)) ≡ length (pre ++ (ys ++ post))
length_middle pre xs ys post len = rw (
  length-append pre (xs ++ post),
  length-append pre (ys ++ post),
  length-append xs post,
  length-append ys post,
  len,
)

checksum-Separates :
    (ledger pre xs ys post : List ℕ)
    → length xs ≡ length ys
    → IsAddress (pre ++ (xs ++ post))
    → IsAddress (pre ++ (ys ++ post))
    → Separates xs ys
    → checksum ledger (pre ++ (xs ++ post)) ≢ checksum ledger (pre ++ (ys ++ post))
checksum-Separates ledger pre xs ys post len hx hy sep e =
    number-Differ (length (pre ++ (ys ++ post))) (after 0 (pre ++ (xs ++ post)) start)
      (after 0 (pre ++ (ys ++ post)) start) (hash ledger) (after-IsReduced (pre ++ (xs ++ post)))
      (after-IsReduced (pre ++ (ys ++ post))) (hash-lt ledger)
      (Separates-append pre xs ys post len sep)
      (rw
        (
          checksum_of_IsAddress ledger (pre ++ (xs ++ post)) hx,
          checksum_of_IsAddress ledger (pre ++ (ys ++ post)) hy,
          length_middle pre xs ys post len,
        )
        at e)

-- Two addresses that differ in one character, a digit or a point, have different checksums for
-- every ledger id.
pub checksum_substitution :
    (ledger pre post : List ℕ) (x y : ℕ)
    → IsAddress (pre ++ x ∷ post)
    → IsAddress (pre ++ y ∷ post)
    → x ≢ y
    → checksum ledger (pre ++ x ∷ post) ≢ checksum ledger (pre ++ y ∷ post)
unfolding sum_digits
checksum_substitution ledger pre post x y hx hy ne =
    let cx = (IsAddress-append pre (x ∷ post) hx).1.0 in
    let cy = (IsAddress-append pre (y ∷ post) hy).1.0 in
    checksum-Separates ledger pre (x ∷ []) (y ∷ []) post refl hx hy (λ i t r.
      substitute-Differ i (value x) (value y) t r (value-lt x cx) (value-lt y cy)
        (λ e. ne (value-injective x y cx cy e)))

-- Exchanging two neighbouring characters that differ changes the checksum, for every ledger id.
pub checksum_transposition :
    (ledger pre post : List ℕ) (x y : ℕ)
    → IsAddress (pre ++ (x ∷ y ∷ post))
    → IsAddress (pre ++ (y ∷ x ∷ post))
    → x ≢ y
    → checksum ledger (pre ++ (x ∷ y ∷ post)) ≢ checksum ledger (pre ++ (y ∷ x ∷ post))
unfolding sum_digits
checksum_transposition ledger pre post x y hx hy ne =
    let cx = (IsAddress-append pre (x ∷ y ∷ post) hx).1.0 in
    let cy = (IsAddress-append pre (y ∷ x ∷ post) hy).1.0 in
    checksum-Separates ledger pre (x ∷ y ∷ []) (y ∷ x ∷ []) post refl hx hy (λ i t r.
      transpose-Differ i (value x) (value y) t r (value-lt x cx) (value-lt y cy)
        (λ e. ne (value-injective x y cx cy e)))
