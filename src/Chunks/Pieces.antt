-- ===== src/Chunks/Pieces.antt =====
-- Contents cut into chunks: the chunks, joined, are the contents.
use Prim.Native.Nat.{min}
use native.Mathlib.Nat.{lt-div-mul-add}
use u2u_sdk_js.Common.{
  ℕ, zero, suc, ◌+◌, ◌-◌, ◌*◌, ◌≤◌, ◌<◌, ◌≡◌, refl, ap, ◌∙◌, sym, List, [], ◌∷◌, ◌++◌, length, take,
  drop, ltb, if◌then◌else◌, length-drop, take-append-drop, arith,
}
use u2u_sdk_js.Chunks.{number_of_chunks}

abbrev pub join : List (List ℕ) → List ℕ
join [] = []
join (xs ∷ xss) = xs ++ join xss

take_eq : {a b : ℕ} (xs : List ℕ) → a ≡ b → take a xs ≡ take b xs
take_eq xs e = ap (λ n. take n xs) e

drop_eq : {a b : ℕ} (xs : List ℕ) → a ≡ b → drop a xs ≡ drop b xs
drop_eq xs e = ap (λ n. drop n xs) e

take_clip : (c : ℕ) (xs : List ℕ) → take (min c (length xs)) xs ≡ take c xs
take_clip zero xs = take_eq {a = min 0 (length xs)} {b = 0} xs (omega arith)
take_clip (suc c) [] = take_eq {a = min (suc c) 0} {b = 0} [] (omega arith)
take_clip (suc c) (x ∷ xs) =
    take_eq {a = min (suc c) (suc (length xs))} {b = suc (min c (length xs))} (x ∷ xs) (omega arith)
    ∙ ap (λ r. x ∷ r) (take_clip c xs)

pub slice_clip :
    (a c e : ℕ) (xs : List ℕ)
    → e ≡ min (a + c) (length xs)
    → take (e - a) (drop a xs) ≡ take c (drop a xs)
slice_clip a c e xs h =
    take_eq {a = e - a} {b = min c (length (drop a xs))} (drop a xs)
      (omega (arith, length-drop a xs))
    ∙ take_clip c (drop a xs)

drop-drop : (a c : ℕ) (xs : List ℕ) → drop c (drop a xs) ≡ drop (a + c) xs
drop-drop zero c xs = drop_eq {a = c} {b = 0 + c} xs (omega arith)
drop-drop (suc a) zero [] = drop_eq {a = suc a} {b = suc a + 0} [] (omega arith)
drop-drop (suc a) (suc c) [] = drop_eq {a = suc (a + suc c)} {b = suc a + suc c} [] (omega arith)
drop-drop (suc a) c (x ∷ xs) =
    drop-drop a c xs ∙ drop_eq {a = suc (a + c)} {b = suc a + c} (x ∷ xs) (omega arith)

drop_all : (a : ℕ) (xs : List ℕ) → length xs ≤ a → drop a xs ≡ []
drop_all zero [] h = refl
drop_all (suc a) [] h = refl
drop_all zero (x ∷ xs) h = absurd (omega arith)
drop_all (suc a) (x ∷ xs) h = drop_all a xs (omega arith)

-- One chunk and what follows it.
chunk_step :
    (k size : ℕ) (xs rest : List ℕ)
    → rest ≡ drop ((k + 1) * size) xs
    → take size (drop (k * size) xs) ++ rest ≡ drop (k * size) xs
chunk_step k size xs rest h =
    ap (λ r. take size (drop (k * size) xs) ++ r)
      (h
        ∙ drop_eq {a = (k + 1) * size} {b = k * size + size} xs (grind arith)
        ∙ sym (drop-drop (k * size) size xs))
    ∙ take-append-drop size (drop (k * size) xs)

enough_chunks : (size : ℕ) (xs : List ℕ) → 0 < size → length xs ≤ number_of_chunks size xs * size
enough_chunks size xs h = omega (arith, lt-div-mul-add {a = length xs + (size - 1)} {b = size} h)

pub clip_min : (l m : ℕ) → (if ltb l m then l else m) ≡ min m l
clip_min l m = ground arith

-- `left` chunks from index `k` on.
abbrev pub chunk_list : ℕ → List ℕ → ℕ → ℕ → List (List ℕ)
chunk_list size xs k zero = []
chunk_list size xs k (suc left) = take size (drop (k * size) xs) ∷ chunk_list size xs (k + 1) left

chunk_list-join :
    (size : ℕ) (xs : List ℕ) (left k : ℕ)
    → length xs ≤ (k + left) * size
    → join (chunk_list size xs k left) ≡ drop (k * size) xs
chunk_list-join size xs zero k h = sym (drop_all (k * size) xs (grind arith))
chunk_list-join size xs (suc left) k h =
    chunk_step k size xs _ (chunk_list-join size xs left (k + 1) (grind arith))

pub length-chunk_list :
    (size : ℕ) (xs : List ℕ) (left k : ℕ) → length (chunk_list size xs k left) ≡ left
length-chunk_list size xs zero k = refl
length-chunk_list size xs (suc left) k = ap suc (length-chunk_list size xs left (k + 1))

-- All chunks together.
pub all_chunks :
    (size : ℕ) (xs : List ℕ)
    → 0 < size
    → join (chunk_list size xs 0 (number_of_chunks size xs)) ≡ xs
all_chunks size xs h =
    chunk_list-join size xs (number_of_chunks size xs) 0 (omega (arith, enough_chunks size xs h))
    ∙ drop_eq {a = 0 * size} {b = 0} xs (omega arith)
