-- ===== src/Enums/TokenType/Text.antt =====
-- The texts of `TokenType` (src/token/TokenType.js, `toString`).
use Prim.Native.String.{String}
use u2u_sdk_js.Common.{◌≡◌, refl, sym, ap, ◌∙◌, some, List, [], ◌∷◌}
use u2u_sdk_js.Enums.Switch.{find_text, some-inj}
use u2u_sdk_js.Enums.TokenType.{TokenType, fungible_common, non_fungible_unique}

-- `toString`; every constant has a case of its own, so the default case is never taken.
unfoldable pub text : TokenType → String
text fungible_common = "FUNGIBLE_COMMON"
text non_fungible_unique = "NON_FUNGIBLE_UNIQUE"

texts : List (String × TokenType)
texts = ("FUNGIBLE_COMMON", fungible_common) ∷ ("NON_FUNGIBLE_UNIQUE", non_fungible_unique) ∷ []

find_text-text : (s : TokenType) → find_text (text s) texts ≡ some s
unfolding find_text text texts
find_text-text fungible_common = refl
find_text-text non_fungible_unique = refl

-- Two constants with the same text are the same constant.
pub text-injective : (s t : TokenType) → text s ≡ text t → s ≡ t
text-injective s t e =
    some-inj (sym (find_text-text s) ∙ ap (λ k. find_text k texts) e ∙ find_text-text t)
