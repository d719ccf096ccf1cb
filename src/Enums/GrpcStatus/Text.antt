-- ===== src/Enums/GrpcStatus/Text.antt =====
-- The texts of `GrpcStatus` (src/grpc/GrpcStatus.js, `toString`).
use Prim.Native.String.{String}
use u2u_sdk_js.Common.{◌≡◌, refl, sym, ap, ◌∙◌, some, List, [], ◌∷◌}
use u2u_sdk_js.Enums.Switch.{find_text, some-inj}
use u2u_sdk_js.Enums.GrpcStatus.{
  GrpcStatus, ok, cancelled, unknown, invalid_argument, deadline_exceeded, not_found,
  already_exists, permission_denied, resource_exhausted, failed_precondition, aborted, out_of_range,
  unimplemented, internal, unavailable, data_loss, unauthenticated, timeout,
}

-- `toString`; every constant has a case of its own, so the default case is never taken.
unfoldable pub text : GrpcStatus → String
text ok = "OK"
text cancelled = "CANCELLED"
text unknown = "UNKNOWN"
text invalid_argument = "INVALID_ARGUMENT"
text deadline_exceeded = "DEADLINE_EXCEEDED"
text not_found = "NOT_FOUND"
text already_exists = "ALREADY_EXISTS"
text permission_denied = "PERMISSION_DENIED"
text resource_exhausted = "RESOURCE_EXHAUSTED"
text failed_precondition = "FAILED_PRECONDITION"
text aborted = "ABORTED"
text out_of_range = "OUT_OF_RANGE"
text unimplemented = "UNIMPLEMENTED"
text internal = "INTERNAL"
text unavailable = "UNAVAILABLE"
text data_loss = "DATA_LOSS"
text unauthenticated = "UNAUTHENTICATED"
text timeout = "TIMEOUT"

texts : List (String × GrpcStatus)
texts =
    ("OK", ok)
    ∷ ("CANCELLED", cancelled)
    ∷ ("UNKNOWN", unknown)
    ∷ ("INVALID_ARGUMENT", invalid_argument)
    ∷ ("DEADLINE_EXCEEDED", deadline_exceeded)
    ∷ ("NOT_FOUND", not_found)
    ∷ ("ALREADY_EXISTS", already_exists)
    ∷ ("PERMISSION_DENIED", permission_denied)
    ∷ ("RESOURCE_EXHAUSTED", resource_exhausted)
    ∷ ("FAILED_PRECONDITION", failed_precondition)
    ∷ ("ABORTED", aborted)
    ∷ ("OUT_OF_RANGE", out_of_range)
    ∷ ("UNIMPLEMENTED", unimplemented)
    ∷ ("INTERNAL", internal)
    ∷ ("UNAVAILABLE", unavailable)
    ∷ ("DATA_LOSS", data_loss)
    ∷ ("UNAUTHENTICATED", unauthenticated)
    ∷ ("TIMEOUT", timeout)
    ∷ []

find_text-text : (s : GrpcStatus) → find_text (text s) texts ≡ some s
unfolding find_text text texts
find_text-text ok = refl
find_text-text cancelled = refl
find_text-text unknown = refl
find_text-text invalid_argument = refl
find_text-text deadline_exceeded = refl
find_text-text not_found = refl
find_text-text already_exists = refl
find_text-text permission_denied = refl
find_text-text resource_exhausted = refl
find_text-text failed_precondition = refl
find_text-text aborted = refl
find_text-text out_of_range = refl
find_text-text unimplemented = refl
find_text-text internal = refl
find_text-text unavailable = refl
find_text-text data_loss = refl
find_text-text unauthenticated = refl
find_text-text timeout = refl

-- Two constants with the same text are the same constant.
pub text-injective : (s t : GrpcStatus) → text s ≡ text t → s ≡ t
text-injective s t e =
    some-inj (sym (find_text-text s) ∙ ap (λ k. find_text k texts) e ∙ find_text-text t)
