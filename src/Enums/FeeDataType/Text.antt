-- ===== src/Enums/FeeDataType/Text.antt =====
-- The texts of `FeeDataType` (src/FeeDataType.js, `toString`).
use Prim.Native.String.{String}
use u2u_sdk_js.Common.{◌≡◌, refl, sym, ap, ◌∙◌, some, List, [], ◌∷◌}
use u2u_sdk_js.Enums.Switch.{find_text, some-inj}
use u2u_sdk_js.Enums.FeeDataType.{
  FeeDataType, default, token_fungible_common, token_non_fungible_unique,
  token_fungible_common_with_custom_fees, token_non_fungible_unique_with_custom_fees,
  schedule_create_contract_call,
}

-- `toString`; every constant has a case of its own, so the default case is never taken.
unfoldable pub text : FeeDataType → String
text default = "DEFAULT"
text token_fungible_common = "TOKEN_FUNGIBLE_COMMON"
text token_non_fungible_unique = "TOKEN_NON_FUNGIBLE_UNIQUE"
text token_fungible_common_with_custom_fees = "TOKEN_FUNGIBLE_COMMON_WITH_CUSTOM_FEES"
text token_non_fungible_unique_with_custom_fees = "TOKEN_NON_FUNGIBLE_UNIQUE_WITH_CUSTOM_FEES"
text schedule_create_contract_call = "SCHEDULE_CREATE_CONTRACT_CALL"

texts : List (String × FeeDataType)
texts =
    ("DEFAULT", default)
    ∷ ("TOKEN_FUNGIBLE_COMMON", token_fungible_common)
    ∷ ("TOKEN_NON_FUNGIBLE_UNIQUE", token_non_fungible_unique)
    ∷ ("TOKEN_FUNGIBLE_COMMON_WITH_CUSTOM_FEES", token_fungible_common_with_custom_fees)
    ∷ ("TOKEN_NON_FUNGIBLE_UNIQUE_WITH_CUSTOM_FEES", token_non_fungible_unique_with_custom_fees)
    ∷ ("SCHEDULE_CREATE_CONTRACT_CALL", schedule_create_contract_call)
    ∷ []

find_text-text : (s : FeeDataType) → find_text (text s) texts ≡ some s
unfolding find_text text texts
find_text-text default = refl
find_text-text token_fungible_common = refl
find_text-text token_non_fungible_unique = refl
find_text-text token_fungible_common_with_custom_fees = refl
find_text-text token_non_fungible_unique_with_custom_fees = refl
find_text-text schedule_create_contract_call = refl

-- Two constants with the same text are the same constant.
pub text-injective : (s t : FeeDataType) → text s ≡ text t → s ≡ t
text-injective s t e =
    some-inj (sym (find_text-text s) ∙ ap (λ k. find_text k texts) e ∙ find_text-text t)
