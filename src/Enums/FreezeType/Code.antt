-- ===== src/Enums/FreezeType/Code.antt =====
-- The codes of `FreezeType` (src/FreezeType.js): `valueOf` reads the number that the constant was built with, and
-- `_fromCode` is a switch over the numbers. Here the two are proved to be inverse to each other.
use u2u_sdk_js.Common.{ℕ, ◌≡◌, refl, ◌↔◌, true, Option, some, List, [], ◌∷◌}
use u2u_sdk_js.Enums.Switch.{agrees, switch, switch_sound}
use u2u_sdk_js.Enums.FreezeType.{
  FreezeType, unknown_freeze_type, freeze_only, prepare_upgrade, freeze_upgrade, freeze_abort,
  telemetry_upgrade,
}

-- `valueOf`: the argument of `new FreezeType(…)`.
unfoldable pub code : FreezeType → ℕ
code unknown_freeze_type = 0
code freeze_only = 1
code prepare_upgrade = 2
code freeze_upgrade = 3
code freeze_abort = 4
code telemetry_upgrade = 5

-- The cases of `_fromCode`, in the order of the source.
unfoldable pub cases : List (ℕ × FreezeType)
cases =
    (0, unknown_freeze_type)
    ∷ (1, freeze_only)
    ∷ (2, prepare_upgrade)
    ∷ (3, freeze_upgrade)
    ∷ (4, freeze_abort)
    ∷ (5, telemetry_upgrade)
    ∷ []

-- `none` is the error of the default case.
unfoldable pub from_code : ℕ → Option FreezeType
unfolding cases
from_code c = switch c cases

cases_agree : agrees code cases ≡ true
unfolding cases code agrees
cases_agree = refl

from_code-code : (s : FreezeType) → from_code (code s) ≡ some s
unfolding from_code code switch
from_code-code unknown_freeze_type = refl
from_code-code freeze_only = refl
from_code-code prepare_upgrade = refl
from_code-code freeze_upgrade = refl
from_code-code freeze_abort = refl
from_code-code telemetry_upgrade = refl

-- The switch of `_fromCode` returns a constant exactly for the number that the constant was built
-- with; so each constant is found by its code, and every other number is an error.
pub from_code_iff : (c : ℕ) (s : FreezeType) → (from_code c ≡ some s) ↔ (code s ≡ c)
unfolding from_code
from_code_iff c s = (switch_sound code cases c s cases_agree, λ e. rw (← e) (from_code-code s))
