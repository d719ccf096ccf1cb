-- ===== src/EntityId/Parse/Split.antt =====
-- The splitter reads back what it is given, and accepts nothing else.
use u2u_sdk_js.Common.{
  ℕ, ◌≡◌, refl, ap, ◌∙◌, sym, ◌↔◌, ◌⊎◌, inl, inr, Bool, true, false, Option, none, some, List, [],
  ◌∷◌, ◌++◌, length, arith, Bool-cases,
}
use mathlib.Core.Path.{subst}
use mathlib.Core.Option
use u2u_sdk_js.EntityId.Checksum.{is_digit}
use u2u_sdk_js.EntityId.Parse.{
  is_hex, is_lower, span, all, not_empty, Parts, match_suffix, match_num, match_realm, split_rest,
  short_parts, full_parts, split,
}

-- The first character, if there is one, does not pass.
abbrev Stops : (ℕ → Bool) → List ℕ → Type 0
Stops p [] = Unit
Stops p (c ∷ cs) = p c ≡ false

span-append :
    (p : ℕ → Bool) (xs ys : List ℕ) → all p xs ≡ true → Stops p ys → span p (xs ++ ys) ≡ (xs, ys)
unfolding span
span-append p [] [] h k = refl
span-append p [] (y ∷ ys) h k = rw k
span-append p (x ∷ xs) ys h k = ground (arith, span-append p xs ys)

span_joins : (p : ℕ → Bool) (xs : List ℕ) → (span p xs).0 ++ (span p xs).1 ≡ xs
unfolding span
span_joins p [] = refl
span_joins p (x ∷ xs) = elim (Bool-cases (p x)) [
  | inl e ↦ rw e (ap (λ r. x ∷ r) (span_joins p xs))
  | inr e ↦ rw e
]

span-all : (p : ℕ → Bool) (xs : List ℕ) → all p (span p xs).0 ≡ true
unfolding span
span-all p [] = refl
span-all p (x ∷ xs) = ground (arith, span-all p xs)

-- The suffix of a text with the checksum, or without one.
abbrev pub print_suffix : Option (List ℕ) → List ℕ
print_suffix none = []
print_suffix (some sum) = b'-' ∷ sum

abbrev pub IsChecksum : Option (List ℕ) → Type 0
IsChecksum none = Unit
IsChecksum (some sum) = (length sum ≡ 5) × (all is_lower sum ≡ true)

match_suffix-print :
    (sum : Option (List ℕ)) → IsChecksum sum → match_suffix (print_suffix sum) ≡ some sum
unfolding match_suffix
match_suffix-print none h = refl
match_suffix-print (some sum) h = ground arith

match_suffix_inv :
    (text : List ℕ) (sum : Option (List ℕ))
    → match_suffix text ≡ some sum
    → (text ≡ print_suffix sum) × IsChecksum sum
unfolding match_suffix
match_suffix_inv [] none h = (refl, tt)
match_suffix_inv [] (some sum) h = cc
match_suffix_inv (c ∷ cs) none h = ground arith
match_suffix_inv (c ∷ cs) (some sum) h = ground arith

suffix-Stops : (p : ℕ → Bool) (sum : Option (List ℕ)) → p b'-' ≡ false → Stops p (print_suffix sum)
suffix-Stops p none h = tt
suffix-Stops p (some sum) h = h

abbrev pub print_full : List ℕ → List ℕ → List ℕ → Option (List ℕ) → List ℕ
print_full shard realm num sum = shard ++ (b'.' ∷ (realm ++ (b'.' ∷ (num ++ print_suffix sum))))

match_realm-print :
    (realm num : List ℕ) (sum : Option (List ℕ))
    → all is_digit realm ≡ true
    → not_empty realm ≡ true
    → all is_hex num ≡ true
    → not_empty num ≡ true
    → match_realm (b'.' ∷ (realm ++ (b'.' ∷ (num ++ print_suffix sum))))
      ≡ some (realm, num, print_suffix sum)
unfolding match_realm match_num
match_realm-print realm num sum hr er hn en = rw (
  span-append is_digit realm (b'.' ∷ (num ++ print_suffix sum)) hr refl,
  er,
  span-append is_hex num (print_suffix sum) hn (suffix-Stops is_hex sum refl),
  en,
  span-append is_digit realm (b'.' ∷ (num ++ print_suffix sum)) hr refl,
)

-- A shard and a realm of digits and a number of hexadecimal digits, none of them empty, are read back
-- from their text, with the checksum of five small letters if there is one.
pub split-print :
    (shard realm num : List ℕ) (sum : Option (List ℕ))
    → all is_digit shard ≡ true
    → not_empty shard ≡ true
    → all is_digit realm ≡ true
    → not_empty realm ≡ true
    → all is_hex num ≡ true
    → not_empty num ≡ true
    → IsChecksum sum
    → split (print_full shard realm num sum) ≡ some (full_parts shard realm num sum)
unfolding split split_rest
split-print shard realm num sum hs es hr er hn en hc = rw (
  span-append is_digit shard (b'.' ∷ (realm ++ (b'.' ∷ (num ++ print_suffix sum)))) hs refl,
  es,
  match_realm-print realm num sum hr er hn en,
  match_suffix-print sum hc,
)

-- A text that is one number is not read as a full form.
match_realm-print_suffix : (sum : Option (List ℕ)) → match_realm (print_suffix sum) ≡ none
unfolding match_realm
match_realm-print_suffix none = refl
match_realm-print_suffix (some sum) = refl

split-print_short :
    (num : List ℕ) (sum : Option (List ℕ))
    → all is_digit num ≡ true
    → not_empty num ≡ true
    → IsChecksum sum
    → split (num ++ print_suffix sum) ≡ some (short_parts num sum)
unfolding split split_rest
split-print_short num sum h e c = rw (
  span-append is_digit num (print_suffix sum) h (suffix-Stops is_digit sum refl),
  e,
  match_realm-print_suffix sum,
  match_suffix-print sum c,
)

-- A run of characters of a class that is not empty.
abbrev pub IsRun : (ℕ → Bool) → List ℕ → Type 0
IsRun p xs = (all p xs ≡ true) × (not_empty xs ≡ true)

match_num_inv :
    (text num rest : List ℕ)
    → match_num text ≡ some (num, rest)
    → (text ≡ b'.' ∷ (num ++ rest)) × IsRun is_hex num
unfolding match_num
match_num_inv [] num rest h = cc
match_num_inv (c ∷ cs) num rest h = ground (arith, span_joins is_hex cs, span-all is_hex cs)

match_realm_inv :
    (text realm num rest : List ℕ)
    → match_realm text ≡ some (realm, num, rest)
    → (text ≡ b'.' ∷ (realm ++ (b'.' ∷ (num ++ rest)))) × IsRun is_digit realm × IsRun is_hex num
unfolding match_realm
match_realm_inv [] realm num rest h = cc
match_realm_inv (c ∷ cs) realm num rest h = ground (
  arith,
  span_joins is_digit cs,
  span-all is_digit cs,
  match_num_inv (span is_digit cs).1 num rest,
)

-- The texts of the parts. The short form is one number, digits that are not none, whose shard and realm
-- are 0; the full form has digits for the shard and the realm and hexadecimal digits for the number.
-- Both may end in a dash and a checksum of five small letters.
abbrev pub Reads : List ℕ → Parts → Type 0
Reads text p =
    ((text ≡ p.num_or_hex ++ print_suffix p.checksum)
      × IsRun is_digit p.num_or_hex
      × IsChecksum p.checksum
      × (p.shard ≡ b'0' ∷ [])
      × (p.realm ≡ b'0' ∷ []))
    ⊎ ((text ≡ print_full p.shard p.realm p.num_or_hex p.checksum)
        × IsRun is_digit p.shard
        × IsRun is_digit p.realm
        × IsRun is_hex p.num_or_hex
        × IsChecksum p.checksum)

short-Reads :
    (a r : List ℕ) (p : Parts) (o : Option (Option (List ℕ)))
    → IsRun is_digit a
    → match_suffix r ≡ o
    → Option.map (short_parts a) o ≡ some p
    → Reads (a ++ r) p
short-Reads a r p none d q h = cc
short-Reads a r p (some sum) d q h =
    let e : short_parts a sum ≡ p = cc in
    let (m, c) = match_suffix_inv r sum q in
    subst (Reads (a ++ r)) e (inl (ap (λ t. a ++ t) m, d, c, refl, refl))

full-Reads :
    (a realm num r rest : List ℕ) (p : Parts) (o : Option (Option (List ℕ)))
    → IsRun is_digit a
    → match_realm r ≡ some (realm, num, rest)
    → match_suffix rest ≡ o
    → Option.map (full_parts a realm num) o ≡ some p
    → Reads (a ++ r) p
full-Reads a realm num r rest p none d m q h = cc
full-Reads a realm num r rest p (some sum) d m q h =
    let e : full_parts a realm num sum ≡ p = cc in
    let (f, dr, dn) = match_realm_inv r realm num rest m in
    let (g, c) = match_suffix_inv rest sum q in
    subst (Reads (a ++ r)) e
      (inr (ap (λ t. a ++ t) (f ∙ ap (λ t. b'.' ∷ (realm ++ (b'.' ∷ (num ++ t)))) g), d, dr, dn, c))

split_rest-Reads :
    (a r : List ℕ) (p : Parts) (o : Option (List ℕ × List ℕ × List ℕ))
    → IsRun is_digit a
    → match_realm r ≡ o
    → split_rest a r o ≡ some p
    → Reads (a ++ r) p
unfolding split_rest
split_rest-Reads a r p none d q h = short-Reads a r p (match_suffix r) d refl h
split_rest-Reads a r p (some (realm, num, rest)) d q h =
    full-Reads a realm num r rest p (match_suffix rest) d q refl h

split-some : (text : List ℕ) (p : Parts) → split text ≡ some p → Reads text p
unfolding split split_rest
split-some text p h = elim (Bool-cases (not_empty first)) [
  | inr e ↦ absurd (cc (rw e at h))
  | inl e ↦
      subst (λ t. Reads t p) (span_joins is_digit text)
        (split_rest-Reads first (span is_digit text).1 p (match_realm (span is_digit text).1)
          (span-all is_digit text, e) refl (rw e at h))
]
  where
    first : List ℕ
    first = (span is_digit text).0

Reads-split : (text : List ℕ) (p : Parts) → Reads text p → split text ≡ some p
Reads-split text p (inl (t, (d, e), c, s, r)) =
    rw (t, split-print_short p.num_or_hex p.checksum d e c)
      (λ i. some (record {
        shard = sym s i;
        realm = sym r i;
        num_or_hex = p.num_or_hex;
        checksum = p.checksum;
      }))
Reads-split text p (inr (t, (ds, es), (dr, er), (dn, en), c)) =
    ap split t ∙ split-print p.shard p.realm p.num_or_hex p.checksum ds es dr er dn en c

-- The splitter accepts a text and returns its parts exactly where the text reads so: as one number, whose
-- shard and realm are 0, or in the full form; digits for the shard, the realm and a number that stands
-- alone, hexadecimal digits for the number of the full form, none of them empty; and at the end nothing,
-- or a dash and a checksum of five small letters. In particular it refuses every other text.
pub split-Reads : (text : List ℕ) (p : Parts) → split text ≡ some p ↔ Reads text p
split-Reads text p = (split-some text p, Reads-split text p)
