-- ===== src/Contract/Result/RoundTrip.antt =====
-- What `_build` of src/contract/ContractFunctionParameters.js writes, the getters of
-- src/contract/ContractFunctionResult.js read.
use Prim.Native.Nat.{min}
use mathlib.Core.List.{append_assoc}
use u2u_sdk_js.Common.{
  ℕ, ◌+◌, ◌-◌, ◌*◌, ◌^◌, ◌≤◌, ◌<◌, ◌≡◌, refl, sym, ap, ◌∙◌, true, some, List, [], ◌∷◌, ◌++◌, length,
  length-append, length-replicate, arith, ◌>>=◌, Bool-cases, inl, inr,
}
use u2u_sdk_js.Common.Int.{pos, ◌+ℤ◌}
use u2u_sdk_js.Contract.Bytes.{set_bytes, set_uint32, uint32_bytes, subarray, get_uint32, signed32}
use u2u_sdk_js.Contract.Bytes.Laws.{set_bytes-at}
use u2u_sdk_js.Contract.Parameters.{Argument, zeros, heap_length, padded_length, dynamic_bytes}
use u2u_sdk_js.Contract.Parameters.Layout.{heads, tails, are_words, zeros-add}
use u2u_sdk_js.Contract.Result.{result_int32, int32_at, subarray_of, get_bytes}

abbrev pub padding : ℕ → ℕ
padding n = padded_length n - 32 - n

padded : (n : ℕ) → padded_length n ≡ 32 + (n + padding n)
unfolding padded_length
padded n = ground arith

-- A dynamic value: its length, the bytes, and zeros.
pub dynamic_bytes-layout :
    (par : List ℕ)
    → dynamic_bytes par
      ≡ some (zeros 28 ++ (uint32_bytes (length par) ++ (par ++ zeros (padding (length par)))))
unfolding dynamic_bytes set_uint32 uint32_bytes
dynamic_bytes-layout par =
    let n = length par in
    let p = zeros (padding n) in
    let s : padded_length n ≡ 32 + (n + padding n) = padded n in
    let z : zeros (padded_length n) ≡ zeros 32 ++ (zeros n ++ p) =
      ap zeros s
      ∙ zeros-add 32 (n + padding n)
      ∙ ap (λ k. zeros 32 ++ k) (zeros-add n (padding n)) in
    ap (λ k. set_bytes k 32 par >>= λ v. set_uint32 v 28 n) z
    ∙ ap (λ m. m >>= λ v. set_uint32 v 28 n)
        (set_bytes-at (zeros 32) (zeros n) p par 32 refl (length-replicate {A = ℕ} n 0))
    ∙ set_bytes-at (zeros 28) (zeros 4) (par ++ p) (uint32_bytes n) 28 refl refl

-- The words and the heap of arguments in two parts.
pub heads-around :
    (offset : ℕ) (before after : List Argument)
    → heads offset (before ++ after)
      ≡ heads offset before ++ heads (offset + heap_length before) after
heads-around offset [] after = ap (λ k. heads k after) (omega arith)
heads-around offset (b ∷ before) after =
    let next = offset + length b.value in
    elim (Bool-cases b.dynamic) [
      | inl e ↦
          let n : next + heap_length before ≡ offset + (length b.value + heap_length before) =
            omega arith in
          let x = heads next before in
          let w = uint32_bytes offset in
          rw e (
            ap (λ k. zeros 28 ++ (w ++ k)) (heads-around next before after)
            ∙ ap (λ k. zeros 28 ++ (w ++ (x ++ heads k after))) n
            ∙ ap (λ k. zeros 28 ++ k)
                (sym (
                  append_assoc w x (heads (offset + (length b.value + heap_length before)) after))))
      | inr e ↦
          let n : offset + heap_length before ≡ offset + (0 + heap_length before) = omega arith in
          let x = heads offset before in
          rw e (
            ap (λ k. b.value ++ k) (heads-around offset before after)
            ∙ ap (λ k. b.value ++ (x ++ heads k after)) n
            ∙ sym (append_assoc b.value x (heads (offset + (0 + heap_length before)) after)))
    ]

pub tails-around :
    (before after : List Argument) → tails (before ++ after) ≡ tails before ++ tails after
tails-around [] after = refl
tails-around (b ∷ before) after = elim (Bool-cases b.dynamic) [
  | inl e ↦
      rw (e, tails-around before after) (sym (append_assoc b.value (tails before) (tails after)))
  | inr e ↦ rw e (tails-around before after)
]

pub length-tails : (args : List Argument) → length (tails args) ≡ heap_length args
length-tails [] = refl
length-tails (a ∷ rest) = elim (Bool-cases a.dynamic) [
  | inl e ↦ rw e (omega (arith, length-append a.value (tails rest), length-tails rest))
  | inr e ↦ rw e (omega (arith, length-tails rest))
]

pub length-heads :
    (offset : ℕ) (args : List Argument)
    → are_words args ≡ true
    → length (heads offset args) ≡ 32 * length args
unfolding uint32_bytes
length-heads offset [] w = omega arith
length-heads offset (a ∷ rest) w = elim (Bool-cases a.dynamic) [
  | inl e ↦
      let n = length-heads (offset + length a.value) rest (ground (arith, e, w)) in
      rw e (omega (arith, n))
  | inr e ↦
      let v : length a.value ≡ 32 = ground (arith, e, w) in
      let n = length-heads offset rest (ground (arith, e, w)) in
      rw e (omega (arith, n, v, length-append a.value (heads offset rest)))
]

signed32-small : (n : ℕ) → n < 2 ^ 31 → signed32 n ≡ pos n
signed32-small n l = ground (arith, l)

+ℤ-pos : (m n : ℕ) → pos m +ℤ pos n ≡ pos (m + n)
unfolding ◌+ℤ◌
+ℤ-pos m n = ground arith

min_le : (m n : ℕ) → m ≤ n → min m n ≡ m
min_le m n l = omega arith

-- Reading bytes where the place, the length and the bytes are known.
pub get_bytes-at :
    (bytes content : List ℕ) (index place len : ℕ)
    → get_uint32 bytes (index * 32 + 28) ≡ some place
    → get_uint32 bytes (place + 28) ≡ some len
    → place + 32 + len ≤ length bytes
    → length bytes < 2 ^ 31
    → subarray bytes (place + 32) (place + 32 + len) ≡ content
    → get_bytes bytes index ≡ some content
unfolding get_bytes result_int32 int32_at subarray_of
get_bytes-at bytes content index place len p l f b c =
    let sp = signed32-small place (omega (arith, f, b)) in
    let sl = signed32-small len (omega (arith, f, b)) in
    let from = min_le (place + 32) (length bytes) (omega arith) in
    let to = min_le (place + 32 + len) (length bytes) f in
    rw (p, sp, +ℤ-pos place 28, l, sl, +ℤ-pos place 32, +ℤ-pos (place + 32) len, from, to)
      (ap some c)
