-- ===== src/EntityId/Parse/Mistype.antt =====
-- Ids and their checksums end to end: what is printed is read back and accepted, and what is mistyped
-- is rejected.
use u2u_sdk_js.Common.{
  ℕ, ◌+◌, ◌/◌, ◌%◌, ◌^◌, ◌<◌, ◌≡◌, ◌≢◌, refl, sym, ap, ◌∙◌, Bool, true, Option, none, some, List,
  [], ◌∷◌, ◌++◌, arith, Bool-cases, inl, inr,
}
use mathlib.Core.Path.{subst}
use mathlib.Core.List.{append_assoc, append-nil}
use u2u_sdk_js.Common.Int.{pos}
use u2u_sdk_js.EntityId.Id.{EntityId}
use u2u_sdk_js.EntityId.Checksum.{is_digit, ascii_a, letters, checksum}
use u2u_sdk_js.EntityId.Checksum.Detect.{IsAddress, checksum_substitution, checksum_of_IsAddress}
use u2u_sdk_js.EntityId.Parse.{
  is_hex, is_lower, all, full_parts, split, LongText, valid, bad_entity_id, list_eq, from_string,
  to_string, to_string_with_checksum, validate_checksum,
}
use u2u_sdk_js.EntityId.Parse.Split.{IsChecksum, print_suffix, split-print}

list_eq_refl : (xs : List ℕ) → list_eq xs xs ≡ true
list_eq_refl [] = refl
list_eq_refl (x ∷ xs) = ground (arith, list_eq_refl xs)

list_eq→eq : (xs ys : List ℕ) → list_eq xs ys ≡ true → xs ≡ ys
list_eq→eq [] [] h = refl
list_eq→eq [] (y ∷ ys) h = cc
list_eq→eq (x ∷ xs) [] h = cc
list_eq→eq (x ∷ xs) (y ∷ ys) h = ground (arith, list_eq→eq xs ys)

-- `letters` writes small letters.
letter_low : (c : ℕ) → is_lower (ascii_a + c % 26) ≡ true
letter_low c = ground arith

letters-IsChecksum : (c : ℕ) → IsChecksum (some (letters 5 c []))
unfolding letters
letters-IsChecksum c = (
  refl,
  ground (
    arith,
    letter_low c,
    letter_low (c / 26),
    letter_low (c / 26 / 26),
    letter_low (c / 26 / 26 / 26),
    letter_low (c / 26 / 26 / 26 / 26),
  ),
)

checksum-IsChecksum :
    (ledger addr : List ℕ) → IsAddress addr → IsChecksum (some (checksum ledger addr))
checksum-IsChecksum ledger addr h =
    subst (λ t. IsChecksum (some t)) (sym (checksum_of_IsAddress ledger addr h))
      (letters-IsChecksum _)

all-is_hex : (xs : List ℕ) → all is_digit xs ≡ true → all is_hex xs ≡ true
all-is_hex [] h = refl
all-is_hex (x ∷ xs) h = ground (arith, all-is_hex xs)

all-IsAddress : (xs : List ℕ) → all is_digit xs ≡ true → IsAddress xs
all-IsAddress [] h = tt
all-IsAddress (x ∷ xs) h = (ground arith, all-IsAddress xs (ground arith))

join-IsAddress : (xs ys : List ℕ) → IsAddress xs → IsAddress ys → IsAddress (xs ++ ys)
join-IsAddress [] ys h k = k
join-IsAddress (x ∷ xs) ys h k = (h.0, join-IsAddress xs ys h.1 k)

abbrev pub id_of : ℕ → ℕ → ℕ → EntityId
id_of s r n = record { shard = pos s; realm = pos r; num = pos n }

module _ (long : LongText) (s r n : ℕ) where
  open long use {to_text, from_text, from_text-to_text, to_text_digits, to_text_not_empty}

  pub to_string-IsAddress : IsAddress (to_string long (id_of s r n))
  unfolding to_string
  to_string-IsAddress =
      join-IsAddress (to_text (pos s)) (b'.' ∷ (to_text (pos r) ++ (b'.' ∷ to_text (pos n))))
        (all-IsAddress _ (to_text_digits s))
        (
          refl,
          join-IsAddress (to_text (pos r)) (b'.' ∷ to_text (pos n))
              (all-IsAddress _ (to_text_digits r)) (refl, all-IsAddress _ (to_text_digits n)),
        )

  split-to_string :
      (sum : Option (List ℕ))
      → IsChecksum sum
      → split (to_string long (id_of s r n) ++ print_suffix sum)
        ≡ some (full_parts (to_text (pos s)) (to_text (pos r)) (to_text (pos n)) sum)
  unfolding to_string
  split-to_string sum h =
      ap split (
        append_assoc (to_text (pos s)) (b'.' ∷ (to_text (pos r) ++ (b'.' ∷ to_text (pos n))))
          (print_suffix sum)
        ∙ ap (λ t. to_text (pos s) ++ (b'.' ∷ t))
            (append_assoc (to_text (pos r)) (b'.' ∷ to_text (pos n)) (print_suffix sum)))
      ∙ split-print (to_text (pos s)) (to_text (pos r)) (to_text (pos n)) sum (to_text_digits s)
          (to_text_not_empty s) (to_text_digits r) (to_text_not_empty r)
          (all-is_hex (to_text (pos n)) (to_text_digits n)) (to_text_not_empty n) h

  from_string_suffix :
      (sum : Option (List ℕ))
      → s < 2 ^ 63
      → r < 2 ^ 63
      → n < 2 ^ 63
      → IsChecksum sum
      → from_string long (to_string long (id_of s r n) ++ print_suffix sum)
        ≡ some (record { id = id_of s r n; checksum = sum })
  unfolding from_string
  from_string_suffix sum hs hr hn h = rw (
    split-to_string sum h,
    from_string,
    from_text-to_text s hs,
    from_text-to_text r hr,
    from_text-to_text n hn,
  )

-- With numbers below 2^63, an id is read back from its text.
pub from_string-to_string :
    (long : LongText) (s r n : ℕ)
    → s < 2 ^ 63
    → r < 2 ^ 63
    → n < 2 ^ 63
    → from_string long (to_string long (id_of s r n))
      ≡ some (record { id = id_of s r n; checksum = none })
from_string-to_string long s r n hs hr hn =
    ap (from_string long) (sym (append-nil (to_string long (id_of s r n))))
    ∙ from_string_suffix long s r n none hs hr hn tt

-- With numbers below 2^63 and a ledger id, the text with the checksum is written, it is read back as
-- the id and a checksum, and that checksum is valid for the id and the same ledger.
pub checked_round_trip :
    (long : LongText) (ledger : List ℕ) (s r n : ℕ)
    → s < 2 ^ 63
    → r < 2 ^ 63
    → n < 2 ^ 63
    → (text sum : List ℕ) × (to_string_with_checksum long
          (to_string long (id_of s r n))
          (some ledger)
        ≡ some text)
      × (from_string long text ≡ some (record { id = id_of s r n; checksum = some sum }))
      × (validate_checksum long (id_of s r n) (some sum) (some ledger) ≡ valid)
unfolding to_string_with_checksum validate_checksum
checked_round_trip long ledger s r n hs hr hn = (
  to_string long (id_of s r n) ++ (b'-' ∷ sum),
  sum,
  refl,
  from_string_suffix long s r n (some sum) hs hr hn
      (checksum-IsChecksum ledger _ (to_string-IsAddress long s r n)),
  rw (list_eq_refl sum),
)
  where
    sum : List ℕ
    sum = checksum ledger (to_string long (id_of s r n))

-- If the texts of two ids differ in one character, the checksum of the one is refused for the other,
-- with the checksum of the other as the expected one.
pub mistyped-bad_entity_id :
    (long : LongText) (ledger pre post : List ℕ) (x y s r n s' r' n' : ℕ)
    → to_string long (id_of s r n) ≡ pre ++ x ∷ post
    → to_string long (id_of s' r' n') ≡ pre ++ y ∷ post
    → x ≢ y
    → validate_checksum long
        (id_of s' r' n')
        (some (checksum ledger (to_string long (id_of s r n))))
        (some ledger)
      ≡ bad_entity_id
          (id_of s' r' n')
          (checksum ledger (to_string long (id_of s r n)))
          (checksum ledger (to_string long (id_of s' r' n')))
unfolding validate_checksum
mistyped-bad_entity_id long ledger pre post x y s r n s' r' n' p q ne = elim (Bool-cases test) [
  | inl e ↦ absurd (
      checksum_substitution ledger pre post x y (subst IsAddress p (to_string-IsAddress long s r n))
        (subst IsAddress q (to_string-IsAddress long s' r' n')) ne
        (ap (checksum ledger) (sym p) ∙ list_eq→eq _ _ e ∙ ap (checksum ledger) q))
  | inr e ↦ rw e
]
  where
    test : Bool
    test =
        list_eq (checksum ledger (to_string long (id_of s r n)))
          (checksum ledger (to_string long (id_of s' r' n')))
