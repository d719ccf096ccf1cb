-- ===== src/Enums/Switch.antt =====
-- A JavaScript switch over numbers with one `return` in each case, and the lookup of a text.
use Prim.Native.String.{String}
use text.Mathlib.Text.{◌==◌ as str_eq}
use u2u_sdk_js.Common.{
  ℕ, ◌≡◌, Bool, true, ◌&&◌, Option, none, some, List, [], ◌∷◌, arith, ◌==◌, if◌then◌else◌,
}

-- Each case's number is the code of the constant that it returns.
unfoldable pub agrees : {A : Type 0} → (A → ℕ) → List (ℕ × A) → Bool
agrees code [] = true
agrees code ((k, a) ∷ cases) = code a == k && agrees code cases

-- The first case with the number; `none` is the default case.
unfoldable pub switch : {A : Type 0} → ℕ → List (ℕ × A) → Option A
switch c [] = none
switch c ((k, a) ∷ cases) = if c == k then some a else switch c cases

pub switch_sound :
    {A : Type 0} (code : A → ℕ) (cases : List (ℕ × A)) (c : ℕ) (a : A)
    → agrees code cases ≡ true
    → switch c cases ≡ some a
    → code a ≡ c
unfolding agrees switch
switch_sound code [] c a h e = cc
switch_sound code ((k, b) ∷ cases) c a h e = ground (arith, switch_sound code cases c a)

unfoldable pub find_text : {A : Type 0} → String → List (String × A) → Option A
find_text t [] = none
find_text t ((k, a) ∷ rest) = if str_eq t k then some a else find_text t rest

pub some-inj : {A : Type 0} {a b : A} → some a ≡ some b → a ≡ b
some-inj e = cc
