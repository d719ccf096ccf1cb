-- ===== src/Contract/Bytes/Laws.antt =====
-- Laws of writing and reading bytes.
use u2u_sdk_js.Common.{
  ℕ, ◌+◌, ◌-◌, ◌^◌, ◌<◌, ◌≡◌, refl, ap, ◌∙◌, true, some, List, [], ◌∷◌, ◌++◌, length, take, drop,
  leb, arith, length-append,
}
use u2u_sdk_js.Contract.Bytes.{splice, set_bytes, uint32_bytes, subarray, read_word, get_uint32}

splice-append : (z r xs : List ℕ) → length z ≡ length xs → splice 0 xs (z ++ r) ≡ xs ++ r
unfolding splice
splice-append [] r [] e = refl
splice-append [] r (x ∷ xs) e = absurd (omega arith)
splice-append (y ∷ z) r [] e = absurd (omega arith)
splice-append (y ∷ z) r (x ∷ xs) e = ap (λ t. x ∷ t) (splice-append z r xs (omega arith))

splice-at :
    (h z r xs : List ℕ)
    → length z ≡ length xs
    → splice (length h) xs (h ++ (z ++ r)) ≡ h ++ (xs ++ r)
unfolding splice
splice-at [] z r xs e = splice-append z r xs e
splice-at (y ∷ h) z r xs e = ap (λ t. y ∷ t) (splice-at h z r xs e)

-- A write in the middle of a buffer.
pub set_bytes-at :
    (h z r xs : List ℕ) (at : ℕ)
    → at ≡ length h
    → length z ≡ length xs
    → set_bytes (h ++ (z ++ r)) at xs ≡ some (h ++ (xs ++ r))
unfolding set_bytes
set_bytes-at h z r xs at a e =
    let fits : leb (at + length xs) (length (h ++ (z ++ r))) ≡ true =
      ground (arith, a, e, length-append h (z ++ r), length-append z r) in
    rw (fits, a) (ap some (splice-at h z r xs e))

drop-length : (h r : List ℕ) → drop (length h) (h ++ r) ≡ r
drop-length [] r = refl
drop-length (x ∷ h) r = drop-length h r

take-length : (h r : List ℕ) → take (length h) (h ++ r) ≡ h
take-length [] r = refl
take-length (x ∷ h) r = ap (λ t. x ∷ t) (take-length h r)

-- A stretch in the middle of a buffer.
pub subarray-at :
    (h xs r : List ℕ) (from to : ℕ)
    → from ≡ length h
    → to ≡ length h + length xs
    → subarray (h ++ (xs ++ r)) from to ≡ xs
unfolding subarray
subarray-at h xs r from to f t =
    let n : to - from ≡ length xs = omega arith in
    rw (n, f, drop-length h (xs ++ r), take-length xs r) refl

pub get_uint32-at :
    (h r : List ℕ) (n at : ℕ)
    → at ≡ length h
    → n < 2 ^ 32
    → get_uint32 (h ++ (uint32_bytes n ++ r)) at ≡ some n
unfolding get_uint32 uint32_bytes
get_uint32-at h r n at a l =
    let s = subarray-at h (uint32_bytes n) r at (at + 4) a (omega arith) in
    ap read_word s ∙ ap some (omega arith)
