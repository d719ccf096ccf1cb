-- ===== src/Enums/TokenType/Code.antt =====
-- The codes of `TokenType` (src/token/TokenType.js): `valueOf` reads the number that the constant was built with, and
-- `_fromCode` is a switch over the numbers. Here the two are proved to be inverse to each other.
use u2u_sdk_js.Common.{ℕ, ◌≡◌, refl, ◌↔◌, true, Option, some, List, [], ◌∷◌}
use u2u_sdk_js.Enums.Switch.{agrees, switch, switch_sound}
use u2u_sdk_js.Enums.TokenType.{TokenType, fungible_common, non_fungible_unique}

-- `valueOf`: the argument of `new TokenType(…)`.
unfoldable pub code : TokenType → ℕ
code fungible_common = 0
code non_fungible_unique = 1

-- The cases of `_fromCode`, in the order of the source.
unfoldable pub cases : List (ℕ × TokenType)
cases = (0, fungible_common) ∷ (1, non_fungible_unique) ∷ []

-- `none` is the error of the default case.
unfoldable pub from_code : ℕ → Option TokenType
unfolding cases
from_code c = switch c cases

cases_agree : agrees code cases ≡ true
unfolding cases code agrees
cases_agree = refl

from_code-code : (s : TokenType) → from_code (code s) ≡ some s
unfolding from_code code switch
from_code-code fungible_common = refl
from_code-code non_fungible_unique = refl

-- The switch of `_fromCode` returns a constant exactly for the number that the constant was built
-- with; so each constant is found by its code, and every other number is an error.
pub from_code_iff : (c : ℕ) (s : TokenType) → (from_code c ≡ some s) ↔ (code s ≡ c)
unfolding from_code
from_code_iff c s = (switch_sound code cases c s cases_agree, λ e. rw (← e) (from_code-code s))
