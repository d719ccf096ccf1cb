-- ===== src/Enums/TokenSupplyType/Text.antt =====
-- The texts of `TokenSupplyType` (src/token/TokenSupplyType.js, `toString`).
use Prim.Native.String.{String}
use u2u_sdk_js.Common.{◌≡◌, refl, sym, ap, ◌∙◌, some, List, [], ◌∷◌}
use u2u_sdk_js.Enums.Switch.{find_text, some-inj}
use u2u_sdk_js.Enums.TokenSupplyType.{TokenSupplyType, infinite, finite}

-- `toString`; every constant has a case of its own, so the default case is never taken.
unfoldable pub text : TokenSupplyType → String
text infinite = "INFINITE"
text finite = "FINITE"

texts : List (String × TokenSupplyType)
texts = ("INFINITE", infinite) ∷ ("FINITE", finite) ∷ []

find_text-text : (s : TokenSupplyType) → find_text (text s) texts ≡ some s
unfolding find_text text texts
find_text-text infinite = refl
find_text-text finite = refl

-- Two constants with the same text are the same constant.
pub text-injective : (s t : TokenSupplyType) → text s ≡ text t → s ≡ t
text-injective s t e =
    some-inj (sym (find_text-text s) ∙ ap (λ k. find_text k texts) e ∙ find_text-text t)
