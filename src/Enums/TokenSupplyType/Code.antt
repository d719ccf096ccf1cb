-- ===== src/Enums/TokenSupplyType/Code.antt =====
-- The codes of `TokenSupplyType` (src/token/TokenSupplyType.js): `valueOf` reads the number that the constant was built with, and
-- `_fromCode` is a switch over the numbers. Here the two are proved to be inverse to each other.
use u2u_sdk_js.Common.{ℕ, ◌≡◌, refl, ◌↔◌, true, Option, some, List, [], ◌∷◌}
use u2u_sdk_js.Enums.Switch.{agrees, switch, switch_sound}
use u2u_sdk_js.Enums.TokenSupplyType.{TokenSupplyType, infinite, finite}

-- `valueOf`: the argument of `new TokenSupplyType(…)`.
unfoldable pub code : TokenSupplyType → ℕ
code infinite = 0
code finite = 1

-- The cases of `_fromCode`, in the order of the source.
unfoldable pub cases : List (ℕ × TokenSupplyType)
cases = (0, infinite) ∷ (1, finite) ∷ []

-- `none` is the error of the default case.
unfoldable pub from_code : ℕ → Option TokenSupplyType
unfolding cases
from_code c = switch c cases

cases_agree : agrees code cases ≡ true
unfolding cases code agrees
cases_agree = refl

from_code-code : (s : TokenSupplyType) → from_code (code s) ≡ some s
unfolding from_code code switch
from_code-code infinite = refl
from_code-code finite = refl

-- The switch of `_fromCode` returns a constant exactly for the number that the constant was built
-- with; so each constant is found by its code, and every other number is an error.
pub from_code_iff : (c : ℕ) (s : TokenSupplyType) → (from_code c ≡ some s) ↔ (code s ≡ c)
unfolding from_code
from_code_iff c s = (switch_sound code cases c s cases_agree, λ e. rw (← e) (from_code-code s))
