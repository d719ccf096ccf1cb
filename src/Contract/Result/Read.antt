-- ===== src/Contract/Result/Read.antt =====
-- The arguments that `_build` of src/contract/ContractFunctionParameters.js wrote without a name are read by
-- `getBytes`, `getBytes32` and `getAddress` of src/contract/ContractFunctionResult.js.
use mathlib.Core.List.{append_assoc}
use u2u_sdk_js.Common.{
  ℕ, ◌+◌, ◌*◌, ◌^◌, ◌<◌, ◌≡◌, refl, sym, ap, ◌∙◌, true, false, Option, none, some, List, [], ◌∷◌,
  ◌++◌, length, length-append, arith, if◌then◌else◌,
}
use u2u_sdk_js.Contract.Bytes.{uint32_bytes, subarray, get_uint32}
use u2u_sdk_js.Contract.Bytes.Laws.{subarray-at, get_uint32-at}
use u2u_sdk_js.Contract.Parameters.{Argument, zeros, heap_length, dynamic_bytes}
use u2u_sdk_js.Contract.Parameters.Layout.{heads, tails, are_words}
use u2u_sdk_js.Contract.Result.{get_bytes}
use u2u_sdk_js.Contract.Result.RoundTrip.{
  padding, dynamic_bytes-layout, heads-around, tails-around, length-tails, length-heads,
  get_bytes-at,
}

-- The bytes of arguments.
abbrev pub encoded : List Argument → List ℕ
encoded args = heads (32 * length args) args ++ tails args

pub length-encoded :
    (args : List Argument)
    → are_words args ≡ true
    → length (encoded args) ≡ 32 * length args + heap_length args
length-encoded args w = omega (
  arith,
  length-append (heads (32 * length args) args) (tails args),
  length-heads (32 * length args) args w,
  length-tails args,
)

are_words-around :
    (before after : List Argument)
    → are_words (before ++ after) ≡ true
    → (are_words before ≡ true) × (are_words after ≡ true)
are_words-around [] after w = (refl, w)
are_words-around (b ∷ before) after w =
    let (p, q) = are_words-around before after (ground (arith, w)) in (ground (arith, p, w), q)

-- A word among the arguments, with the bytes before and after it.
pub word-encoded :
    (before after : List Argument) (a : Argument)
    → are_words (before ++ (a ∷ after)) ≡ true
    → a.dynamic ≡ false
    → (h r : List ℕ) × (length h ≡ length before * 32)
      × (length a.value ≡ 32)
      × (encoded (before ++ (a ∷ after)) ≡ h ++ (a.value ++ r))
word-encoded before after a w d =
    let args = before ++ (a ∷ after) in
    let offset = 32 * length args in
    let h = heads offset before in
    let place = offset + heap_length before in
    let (wb, wa) = are_words-around before (a ∷ after) w in
    let l : length a.value ≡ 32 = ground (arith, d, wa) in
    let r = heads place after ++ tails args in
    let word : heads place (a ∷ after) ≡ a.value ++ heads place after =
      ap
        (λ b.
          if b
          then zeros 28 ++ (uint32_bytes place ++ heads (place + length a.value) after)
          else a.value ++ heads place after)
        d in
    let e : encoded args ≡ h ++ (a.value ++ r) =
      ap (λ k. k ++ tails args) (heads-around offset before (a ∷ after) ∙ ap (λ k. h ++ k) word)
      ∙ append_assoc h (a.value ++ heads place after) (tails args)
      ∙ ap (λ k. h ++ k) (append_assoc a.value (heads place after) (tails args)) in
    (h, r, omega (arith, length-heads offset before wb), l, e)

-- The place of a dynamic value, which is read where its word is.
place-encoded :
    (before after : List Argument) (a : Argument)
    → are_words (before ++ (a ∷ after)) ≡ true
    → a.dynamic ≡ true
    → 32 * length (before ++ (a ∷ after)) + heap_length before < 2 ^ 32
    → get_uint32 (encoded (before ++ (a ∷ after))) (length before * 32 + 28)
      ≡ some (32 * length (before ++ (a ∷ after)) + heap_length before)
place-encoded before after a w d b =
    let args = before ++ (a ∷ after) in
    let offset = 32 * length args in
    let h = heads offset before in
    let place = offset + heap_length before in
    let u = uint32_bytes place in
    let x = heads (place + length a.value) after in
    let t = tails args in
    let word : heads place (a ∷ after) ≡ zeros 28 ++ (u ++ x) =
      ap (λ k. if k then zeros 28 ++ (u ++ x) else a.value ++ heads place after) d in
    let e : encoded args ≡ (h ++ zeros 28) ++ (u ++ (x ++ t)) =
      ap (λ k. k ++ t) (heads-around offset before (a ∷ after) ∙ ap (λ k. h ++ k) word)
      ∙ append_assoc h (zeros 28 ++ (u ++ x)) t
      ∙ ap (λ k. h ++ (zeros 28 ++ k)) (append_assoc u x t)
      ∙ sym (append_assoc h (zeros 28) (u ++ (x ++ t))) in
    let n = length-heads offset before (are_words-around before (a ∷ after) w).0 in
    ap (λ k. get_uint32 k (length before * 32 + 28)) e
    ∙ get_uint32-at (h ++ zeros 28) (x ++ t) place (length before * 32 + 28)
        (omega (arith, n, length-append h (zeros 28))) b

-- The value itself, in the heap.
value-encoded :
    (before after : List Argument) (a : Argument) (v : List ℕ)
    → a.dynamic ≡ true
    → a.value ≡ v
    → let args = before ++ (a ∷ after) in
      encoded args ≡ (heads (32 * length args) args ++ tails before) ++ (v ++ tails after)
value-encoded before after a v d e =
    let args = before ++ (a ∷ after) in
    let h = heads (32 * length args) args in
    let own : tails (a ∷ after) ≡ v ++ tails after =
      ap (λ k. if k then a.value ++ tails after else tails after) d
      ∙ ap (λ k. k ++ tails after) e in
    ap (λ k. h ++ k) (tails-around before (a ∷ after) ∙ ap (λ k. tails before ++ k) own)
    ∙ sym (append_assoc h (tails before) (v ++ tails after))

length_words : (p : List ℕ) (n : ℕ) → length ((p ++ zeros 28) ++ uint32_bytes n) ≡ length p + 32
unfolding uint32_bytes
length_words p n =
    omega (arith, length-append (p ++ zeros 28) (uint32_bytes n), length-append p (zeros 28))

length_value :
    (content pad r : List ℕ)
    → length ((zeros 28 ++ (uint32_bytes (length content) ++ (content ++ pad))) ++ r)
      ≡ 32 + length content + length pad + length r
unfolding uint32_bytes
length_value content pad r =
    omega (arith, length-append content pad, length-append (content ++ pad) r)

abbrev pub from_some : Option (List ℕ) → List ℕ
from_some none = []
from_some (some x) = x

-- The length and the bytes of a value in the middle of a buffer.
content-at :
    (p content pad r : List ℕ)
    → length content < 2 ^ 32
    → let buffer = p ++ ((zeros 28 ++ (uint32_bytes (length content) ++ (content ++ pad))) ++ r) in
      (get_uint32 buffer (length p + 28) ≡ some (length content))
      × (subarray buffer (length p + 32) (length p + 32 + length content) ≡ content)
content-at p content pad r l =
    let u = uint32_bytes (length content) in
    let buffer = p ++ ((zeros 28 ++ (u ++ (content ++ pad))) ++ r) in
    let e : buffer ≡ (p ++ zeros 28) ++ (u ++ ((content ++ pad) ++ r)) =
      ap (λ k. p ++ (zeros 28 ++ k)) (append_assoc u (content ++ pad) r)
      ∙ sym (append_assoc p (zeros 28) (u ++ ((content ++ pad) ++ r))) in
    let f : buffer ≡ ((p ++ zeros 28) ++ u) ++ (content ++ (pad ++ r)) =
      e
      ∙ ap (λ k. (p ++ zeros 28) ++ (u ++ k)) (append_assoc content pad r)
      ∙ sym (append_assoc (p ++ zeros 28) u (content ++ (pad ++ r))) in
    let n = length-append p (zeros 28) in
    let m : length ((p ++ zeros 28) ++ u) ≡ length p + 32 = length_words p (length content) in
    (
      ap (λ k. get_uint32 k (length p + 28)) e
          ∙ get_uint32-at (p ++ zeros 28) ((content ++ pad) ++ r) (length content) (length p + 28)
              (sym n) l,
      ap (λ k. subarray k (length p + 32) (length p + 32 + length content)) f
          ∙ subarray-at ((p ++ zeros 28) ++ u) content (pad ++ r) (length p + 32)
              (length p + 32 + length content) (sym m) (omega (arith, m)),
    )

-- A dynamic value among the arguments.
pub bytes-encoded :
    (before after : List Argument) (a : Argument) (content : List ℕ)
    → are_words (before ++ (a ∷ after)) ≡ true
    → a.dynamic ≡ true
    → dynamic_bytes content ≡ some a.value
    → length (encoded (before ++ (a ∷ after))) < 2 ^ 31
    → get_bytes (encoded (before ++ (a ∷ after))) (length before) ≡ some content
bytes-encoded before after a content w d y b =
    let args = before ++ (a ∷ after) in
    let place = 32 * length args + heap_length before in
    let p = heads (32 * length args) args ++ tails before in
    let pad = zeros (padding (length content)) in
    let v = zeros 28 ++ (uint32_bytes (length content) ++ (content ++ pad)) in
    let own : a.value ≡ v = ap from_some (sym y ∙ dynamic_bytes-layout content) in
    let e = value-encoded before after a v d own in
    let n : length p ≡ place = omega (
      arith,
      length-append (heads (32 * length args) args) (tails before),
      length-heads (32 * length args) args w,
      length-tails before,
    ) in
    let m = ap length e ∙ length-append p (v ++ tails after) in
    let k = length_value content pad (tails after) in
    let (x, z) = content-at p content pad (tails after) (omega (arith, b, m, k)) in
    get_bytes-at (encoded args) content (length before) place (length content)
      (place-encoded before after a w d (omega (arith, b, m, n)))
      (ap (λ i. get_uint32 (encoded args) (i + 28)) (sym n)
        ∙ ap (λ i. get_uint32 i (length p + 28)) e
        ∙ x)
      (omega (arith, m, n, k)) b
      (ap (λ i. subarray (encoded args) (i + 32) (i + 32 + length content)) (sym n)
        ∙ ap (λ i. subarray i (length p + 32) (length p + 32 + length content)) e
        ∙ z)
