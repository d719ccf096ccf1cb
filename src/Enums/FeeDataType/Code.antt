-- ===== src/Enums/FeeDataType/Code.antt =====
-- The codes of `FeeDataType` (src/FeeDataType.js): `valueOf` reads the number that the constant was built with, and
-- `_fromCode` is a switch over the numbers. Here the two are proved to be inverse to each other.
use u2u_sdk_js.Common.{ℕ, ◌≡◌, refl, ◌↔◌, true, Option, some, List, [], ◌∷◌}
use u2u_sdk_js.Enums.Switch.{agrees, switch, switch_sound}
use u2u_sdk_js.Enums.FeeDataType.{
  FeeDataType, default, token_fungible_common, token_non_fungible_unique,
  token_fungible_common_with_custom_fees, token_non_fungible_unique_with_custom_fees,
  schedule_create_contract_call,
}

-- `valueOf`: the argument of `new FeeDataType(…)`.
unfoldable pub code : FeeDataType → ℕ
code default = 0
code token_fungible_common = 1
code token_non_fungible_unique = 2
code token_fungible_common_with_custom_fees = 3
code token_non_fungible_unique_with_custom_fees = 4
code schedule_create_contract_call = 5

-- The cases of `_fromCode`, in the order of the source.
unfoldable pub cases : List (ℕ × FeeDataType)
cases =
    (0, default)
    ∷ (1, token_fungible_common)
    ∷ (2, token_non_fungible_unique)
    ∷ (3, token_fungible_common_with_custom_fees)
    ∷ (4, token_non_fungible_unique_with_custom_fees)
    ∷ (5, schedule_create_contract_call)
    ∷ []

-- `none` is the error of the default case.
unfoldable pub from_code : ℕ → Option FeeDataType
unfolding cases
from_code c = switch c cases

cases_agree : agrees code cases ≡ true
unfolding cases code agrees
cases_agree = refl

from_code-code : (s : FeeDataType) → from_code (code s) ≡ some s
unfolding from_code code switch
from_code-code default = refl
from_code-code token_fungible_common = refl
from_code-code token_non_fungible_unique = refl
from_code-code token_fungible_common_with_custom_fees = refl
from_code-code token_non_fungible_unique_with_custom_fees = refl
from_code-code schedule_create_contract_call = refl

-- The switch of `_fromCode` returns a constant exactly for the number that the constant was built
-- with; so each constant is found by its code, and every other number is an error.
pub from_code_iff : (c : ℕ) (s : FeeDataType) → (from_code c ≡ some s) ↔ (code s ≡ c)
unfolding from_code
from_code_iff c s = (switch_sound code cases c s cases_agree, λ e. rw (← e) (from_code-code s))
