-- ===== src/Enums/GrpcStatus/Code.antt =====
-- The codes of `GrpcStatus` (src/grpc/GrpcStatus.js): `valueOf` reads the number that the constant was built with, and
-- `_fromValue` is a switch over the numbers. Here the two are proved to be inverse to each other.
use u2u_sdk_js.Common.{ℕ, ◌≡◌, refl, ◌↔◌, true, Option, some, List, [], ◌∷◌}
use u2u_sdk_js.Enums.Switch.{agrees, switch, switch_sound}
use u2u_sdk_js.Enums.GrpcStatus.{
  GrpcStatus, ok, cancelled, unknown, invalid_argument, deadline_exceeded, not_found,
  already_exists, permission_denied, resource_exhausted, failed_precondition, aborted, out_of_range,
  unimplemented, internal, unavailable, data_loss, unauthenticated, timeout,
}

-- `valueOf`: the argument of `new GrpcStatus(…)`.
unfoldable pub code : GrpcStatus → ℕ
code ok = 0
code cancelled = 1
code unknown = 2
code invalid_argument = 3
code deadline_exceeded = 4
code not_found = 5
code already_exists = 6
code permission_denied = 7
code resource_exhausted = 8
code failed_precondition = 9
code aborted = 10
code out_of_range = 11
code unimplemented = 12
code internal = 13
code unavailable = 14
code data_loss = 15
code unauthenticated = 16
code timeout = 17

-- The cases of `_fromValue`, in the order of the source.
unfoldable pub cases : List (ℕ × GrpcStatus)
cases =
    (0, ok)
    ∷ (1, cancelled)
    ∷ (2, unknown)
    ∷ (3, invalid_argument)
    ∷ (4, deadline_exceeded)
    ∷ (5, not_found)
    ∷ (6, already_exists)
    ∷ (7, permission_denied)
    ∷ (8, resource_exhausted)
    ∷ (9, failed_precondition)
    ∷ (10, aborted)
    ∷ (11, out_of_range)
    ∷ (12, unimplemented)
    ∷ (13, internal)
    ∷ (14, unavailable)
    ∷ (15, data_loss)
    ∷ (16, unauthenticated)
    ∷ (17, timeout)
    ∷ []

-- `none` is the error of the default case.
unfoldable pub from_value : ℕ → Option GrpcStatus
unfolding cases
from_value c = switch c cases

cases_agree : agrees code cases ≡ true
unfolding cases code agrees
cases_agree = refl

from_value-code : (s : GrpcStatus) → from_value (code s) ≡ some s
unfolding from_value code switch
from_value-code ok = refl
from_value-code cancelled = refl
from_value-code unknown = refl
from_value-code invalid_argument = refl
from_value-code deadline_exceeded = refl
from_value-code not_found = refl
from_value-code already_exists = refl
from_value-code permission_denied = refl
from_value-code resource_exhausted = refl
from_value-code failed_precondition = refl
from_value-code aborted = refl
from_value-code out_of_range = refl
from_value-code unimplemented = refl
from_value-code internal = refl
from_value-code unavailable = refl
from_value-code data_loss = refl
from_value-code unauthenticated = refl
from_value-code timeout = refl

-- The switch of `_fromValue` returns a constant exactly for the number that the constant was built
-- with; so each constant is found by its code, and every other number is an error.
pub from_value_iff : (c : ℕ) (s : GrpcStatus) → (from_value c ≡ some s) ↔ (code s ≡ c)
unfolding from_value
from_value_iff c s = (switch_sound code cases c s cases_agree, λ e. rw (← e) (from_value-code s))
