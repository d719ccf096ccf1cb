-- ===== src/Contract/Parameters/Layout.antt =====
-- The layout that `_build` writes in place: the selector, a word for each argument, and the heap.
use Prim.Native.String.{String}
use mathlib.Core.List.{append_assoc}
use u2u_sdk_js.Common.{
  ℕ, zero, suc, ◌+◌, ◌*◌, ◌%◌, ◌^◌, ◌≤◌, ◌<◌, ◌≡◌, refl, sym, ap, ◌∙◌, Bool, true, none, some, List,
  [], ◌∷◌, ◌++◌, length, take, length-take, take, length-take, length-append, length-replicate,
  arith, ◌==◌, ◌&&◌, ◌||◌, ◌>>=◌, if◌then◌else◌, Bool-cases, inl, inr,
}
use u2u_sdk_js.Contract.Bytes.{set_bytes, set_uint32, uint32_bytes}
use u2u_sdk_js.Contract.Bytes.Laws.{set_bytes-at}
use u2u_sdk_js.Contract.Types.{build_selector, selector_to_string}
use u2u_sdk_js.Contract.Parameters.{Argument, Parameters, zeros, heap_length, put_arguments, build}

-- A word for each argument: its value, or the place of its value in the heap.
abbrev pub heads : ℕ → List Argument → List ℕ
heads offset [] = []
heads offset (a ∷ rest) =
    if a.dynamic
    then zeros 28 ++ (uint32_bytes offset ++ heads (offset + length a.value) rest)
    else a.value ++ heads offset rest

abbrev pub tails : List Argument → List ℕ
tails [] = []
tails (a ∷ rest) = if a.dynamic then a.value ++ tails rest else tails rest

-- The values that are not in the heap are words.
abbrev pub are_words : List Argument → Bool
are_words [] = true
are_words (a ∷ rest) = (a.dynamic || length a.value == 32) && are_words rest

pub zeros-add : (a b : ℕ) → zeros (a + b) ≡ zeros a ++ zeros b
zeros-add zero b = ap zeros (omega arith)
zeros-add (suc a) b =
    let n : suc a + b ≡ suc (a + b) = omega arith in ap zeros n ∙ ap (λ t. 0 ∷ t) (zeros-add a b)

pub zeros-append : (a b : ℕ) (r : List ℕ) → zeros (a + b) ++ r ≡ zeros a ++ (zeros b ++ r)
zeros-append a b r = ap (λ k. k ++ r) (zeros-add a b) ∙ append_assoc (zeros a) (zeros b) r

-- A word that is written, in the buffer of a round.
static_round :
    (h t v r : List ℕ) (n at : ℕ)
    → at ≡ length h
    → length v ≡ 32
    → set_bytes (h ++ (zeros (32 * suc n) ++ (t ++ r))) at v
      ≡ some ((h ++ v) ++ (zeros (32 * n) ++ (t ++ r)))
static_round h t v r n at a l =
    let s : 32 * suc n ≡ 32 + 32 * n = omega arith in
    let z : zeros (32 * suc n) ++ (t ++ r) ≡ zeros 32 ++ (zeros (32 * n) ++ (t ++ r)) =
      ap (λ k. zeros k ++ (t ++ r)) s ∙ zeros-append 32 (32 * n) (t ++ r) in
    ap (λ k. set_bytes (h ++ k) at v) z
    ∙ set_bytes-at h (zeros 32) (zeros (32 * n) ++ (t ++ r)) v at a (sym l)
    ∙ ap some (sym (append_assoc h v (zeros (32 * n) ++ (t ++ r))))

-- An offset that is written.
offset_round :
    (h t r : List ℕ) (n at offset : ℕ)
    → at ≡ length h + 28
    → set_uint32 (h ++ (zeros (32 * suc n) ++ (t ++ r))) at offset
      ≡ some ((h ++ (zeros 28 ++ uint32_bytes offset)) ++ (zeros (32 * n) ++ (t ++ r)))
unfolding set_uint32 uint32_bytes
offset_round h t r n at offset a =
    let s : 32 * suc n ≡ 28 + (4 + 32 * n) = omega arith in
    let w = zeros (32 * n) ++ (t ++ r) in
    let y : zeros (32 * suc n) ++ (t ++ r) ≡ zeros 28 ++ (zeros 4 ++ w) =
      ap (λ k. zeros k ++ (t ++ r)) s
      ∙ zeros-append 28 (4 + 32 * n) (t ++ r)
      ∙ ap (λ k. zeros 28 ++ k) (zeros-append 4 (32 * n) (t ++ r)) in
    let z : h ++ (zeros (32 * suc n) ++ (t ++ r)) ≡ (h ++ zeros 28) ++ (zeros 4 ++ w) =
      ap (λ k. h ++ k) y ∙ sym (append_assoc h (zeros 28) (zeros 4 ++ w)) in
    let b = uint32_bytes offset in
    ap (λ k. set_bytes k at b) z
    ∙ set_bytes-at (h ++ zeros 28) (zeros 4) w b at (omega (arith, length-append h (zeros 28))) refl
    ∙ ap some
        (sym (append_assoc (h ++ zeros 28) b w) ∙ ap (λ k. k ++ w) (append_assoc h (zeros 28) b))

-- A value that is written to the heap.
heap_round :
    (h t v r : List ℕ) (n at : ℕ)
    → at ≡ length h + n + length t
    → set_bytes (h ++ (zeros n ++ (t ++ (zeros (length v) ++ r)))) at v
      ≡ some (h ++ (zeros n ++ ((t ++ v) ++ r)))
heap_round h t v r n at a =
    let g : (x : List ℕ) → h ++ (zeros n ++ (t ++ (x ++ r))) ≡ (h ++ (zeros n ++ t)) ++ (x ++ r) =
      λ x.
        ap (λ k. h ++ k) (sym (append_assoc (zeros n) t (x ++ r)))
        ∙ sym (append_assoc h (zeros n ++ t) (x ++ r)) in
    ap (λ k. set_bytes k at v) (g (zeros (length v)))
    ∙ set_bytes-at (h ++ (zeros n ++ t)) (zeros (length v)) r v at
        (omega (
          arith,
          length-append h (zeros n ++ t),
          length-append (zeros n) t,
          length-replicate {A = ℕ} n 0,
        ))
        (length-replicate {A = ℕ} (length v) 0)
    ∙ ap some (sym (g v) ∙ ap (λ k. h ++ (zeros n ++ k)) (sym (append_assoc t v r)))

length_word : (h : List ℕ) (n : ℕ) → length (h ++ (zeros 28 ++ uint32_bytes n)) ≡ length h + 32
unfolding uint32_bytes
length_word h n = length-append h (zeros 28 ++ uint32_bytes n)

regroup_static : (h v x y : List ℕ) → (h ++ v) ++ (x ++ y) ≡ h ++ ((v ++ x) ++ y)
regroup_static h v x y = append_assoc h v (x ++ y) ∙ ap (λ k. h ++ k) (sym (append_assoc v x y))

regroup_dynamic :
    (h : List ℕ) (n : ℕ) (x t v y : List ℕ)
    → (h ++ (zeros 28 ++ uint32_bytes n)) ++ (x ++ ((t ++ v) ++ y))
      ≡ h ++ ((zeros 28 ++ (uint32_bytes n ++ x)) ++ (t ++ (v ++ y)))
regroup_dynamic h n x t v y =
    let b = uint32_bytes n in
    let w = t ++ (v ++ y) in
    ap (λ k. (h ++ (zeros 28 ++ b)) ++ (x ++ k)) (append_assoc t v y)
    ∙ append_assoc h (zeros 28 ++ b) (x ++ w)
    ∙ ap (λ k. h ++ (zeros 28 ++ k)) (sym (append_assoc b x w))

-- The loop, from a state in which the words of the arguments before and their values in the heap are
-- written.
put_arguments-layout :
    (name_offset i offset : ℕ) (args : List Argument) (h t : List ℕ)
    → name_offset + i * 32 ≡ length h
    → offset + name_offset ≡ length h + 32 * length args + length t
    → offset + heap_length args < 2 ^ 32
    → are_words args ≡ true
    → put_arguments name_offset i offset args
        (h ++ (zeros (32 * length args) ++ (t ++ zeros (heap_length args))))
      ≡ some (h ++ (heads offset args ++ (t ++ tails args)))
unfolding put_arguments
put_arguments-layout name_offset i offset [] h t p q b w = refl
put_arguments-layout name_offset i offset (a ∷ rest) h t p q b w = elim (Bool-cases a.dynamic) [
  | inl e ↦
      let word = zeros 28 ++ uint32_bytes offset in
      let next = offset + length a.value in
      let l : length (h ++ word) ≡ length h + 32 = length_word h offset in
      let m : offset % 2 ^ 32 ≡ offset = ground (arith, e, b) in
      let ih =
        put_arguments-layout name_offset (suc i) next rest (h ++ word) (t ++ a.value)
          (omega (arith, l, p)) (omega (arith, l, q, length-append t a.value))
          (ground (arith, e, b)) (ground (arith, e, w)) in
      rw
        (
          e,
          zeros-add (length a.value) (heap_length rest),
          offset_round h t (zeros (length a.value) ++ zeros (heap_length rest)) (length rest)
              (name_offset + i * 32 + 28) offset (omega (arith, p)),
          m,
          heap_round (h ++ word) t a.value (zeros (heap_length rest)) (32 * length rest)
              (offset + name_offset) (omega (arith, l, q)),
        )
        (ih ∙ ap some (regroup_dynamic h offset (heads next rest) t a.value (tails rest)))
  | inr e ↦
      let z : 0 + heap_length rest ≡ heap_length rest = omega arith in
      let l : length a.value ≡ 32 = ground (arith, e, w) in
      let ih =
        put_arguments-layout name_offset (suc i) offset rest (h ++ a.value) t
          (omega (arith, p, l, length-append h a.value))
          (omega (arith, q, l, length-append h a.value)) (ground (arith, e, b))
          (ground (arith, e, w)) in
      rw
        (
          e,
          z,
          static_round h t a.value (zeros (heap_length rest)) (length rest) (name_offset + i * 32) p
              l,
        )
        (ih ∙ ap some (regroup_static h a.value (heads offset rest) (t ++ tails rest)))
]

-- The whole layout, after the bytes of a selector.
layout :
    (h : List ℕ) (args : List Argument)
    → 32 * length args + heap_length args < 2 ^ 32
    → are_words args ≡ true
    → put_arguments
        (length h)
        0
        (32 * length args)
        args
        (h ++ zeros (length args * 32 + heap_length args))
      ≡ some (h ++ (heads (32 * length args) args ++ tails args))
layout h args b w =
    let n : length args * 32 + heap_length args ≡ 32 * length args + heap_length args =
      omega arith in
    let z : zeros (length args * 32 + heap_length args)
        ≡ zeros (32 * length args) ++ ([] ++ zeros (heap_length args)) =
      ap zeros n ∙ zeros-add (32 * length args) (heap_length args) in
    ap (λ k. put_arguments (length h) 0 (32 * length args) args (h ++ k)) z
    ∙ put_arguments-layout (length h) 0 (32 * length args) args h [] (omega arith) (omega arith) b w

pub build-none :
    (keccak : String → List ℕ) (s : Parameters)
    → 32 * length s.arguments + heap_length s.arguments < 2 ^ 32
    → are_words s.arguments ≡ true
    → build keccak none s ≡ some (heads (32 * length s.arguments) s.arguments ++ tails s.arguments)
unfolding build
build-none keccak s b w =
    let args = s.arguments in
    let n : length args * 32 + heap_length args + 0 ≡ length args * 32 + heap_length args =
      omega arith in
    ap (λ m. put_arguments 0 0 (32 * length args) args (zeros m)) n ∙ layout [] args b w

-- For parameters whose values outside the heap are words, and whose words and heap have less than 2^32
-- bytes, `_build` succeeds with and without a name; it returns the first four bytes of the hash of the
-- signature, if there is a name, then a word for each argument, and then the values of the dynamic
-- arguments one after the other. The word of such an argument is the place of its value.
pub build-layout :
    (keccak : String → List ℕ) (name : String) (s : Parameters)
    → ((text : String) → 4 ≤ length (keccak text))
    → 32 * length s.arguments + heap_length s.arguments < 2 ^ 32
    → are_words s.arguments ≡ true
    → (build keccak none s
        ≡ some (heads (32 * length s.arguments) s.arguments ++ tails s.arguments))
      × (build keccak (some name) s
          ≡ some (
              take 4 (keccak (selector_to_string (record s.selector { name = some name })))
              ++ (heads (32 * length s.arguments) s.arguments ++ tails s.arguments)))
unfolding build build_selector
build-layout keccak name s k b w =
    let args = s.arguments in
    let text = selector_to_string (record s.selector { name = some name }) in
    let h = take 4 (keccak text) in
    let l : length h ≡ 4 = omega (arith, k text, length-take 4 (keccak text)) in
    let z : zeros (length args * 32 + heap_length args + 4)
        ≡ zeros 4 ++ zeros (length args * 32 + heap_length args) =
      ap zeros (omega arith) ∙ zeros-add 4 (length args * 32 + heap_length args) in
    (
      build-none keccak s b w,
      ap (λ m. set_bytes m 0 h >>= put_arguments 4 0 (32 * length args) args) z
          ∙ ap (λ m. m >>= put_arguments 4 0 (32 * length args) args)
              (set_bytes-at [] (zeros 4) (zeros (length args * 32 + heap_length args)) h 0 refl
                (sym l))
          ∙ ap
              (λ m.
                put_arguments m 0 (32 * length args) args
                  (h ++ zeros (length args * 32 + heap_length args)))
              (sym l)
          ∙ layout h args b w,
    )
