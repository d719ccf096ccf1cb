-- ===== src/Enums/FreezeType/Text.antt =====
-- The texts of `FreezeType` (src/FreezeType.js, `toString`).
use Prim.Native.String.{String}
use u2u_sdk_js.Common.{◌≡◌, refl, sym, ap, ◌∙◌, some, List, [], ◌∷◌}
use u2u_sdk_js.Enums.Switch.{find_text, some-inj}
use u2u_sdk_js.Enums.FreezeType.{
  FreezeType, unknown_freeze_type, freeze_only, prepare_upgrade, freeze_upgrade, freeze_abort,
  telemetry_upgrade,
}

-- `toString`; every constant has a case of its own, so the default case is never taken.
unfoldable pub text : FreezeType → String
text unknown_freeze_type = "UNKNOWN_FREEZE_TYPE"
text freeze_only = "FREEZE_ONLY"
text prepare_upgrade = "PREPARE_UPGRADE"
text freeze_upgrade = "FREEZE_UPGRADE"
text freeze_abort = "FREEZE_ABORT"
text telemetry_upgrade = "TELEMETRY_UPGRADE"

texts : List (String × FreezeType)
texts =
    ("UNKNOWN_FREEZE_TYPE", unknown_freeze_type)
    ∷ ("FREEZE_ONLY", freeze_only)
    ∷ ("PREPARE_UPGRADE", prepare_upgrade)
    ∷ ("FREEZE_UPGRADE", freeze_upgrade)
    ∷ ("FREEZE_ABORT", freeze_abort)
    ∷ ("TELEMETRY_UPGRADE", telemetry_upgrade)
    ∷ []

find_text-text : (s : FreezeType) → find_text (text s) texts ≡ some s
unfolding find_text text texts
find_text-text unknown_freeze_type = refl
find_text-text freeze_only = refl
find_text-text prepare_upgrade = refl
find_text-text freeze_upgrade = refl
find_text-text freeze_abort = refl
find_text-text telemetry_upgrade = refl

-- Two constants with the same text are the same constant.
pub text-injective : (s t : FreezeType) → text s ≡ text t → s ≡ t
text-injective s t e =
    some-inj (sym (find_text-text s) ∙ ap (λ k. find_text k texts) e ∙ find_text-text t)
