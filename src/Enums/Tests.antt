-- ===== src/Enums/Tests.antt =====
-- The theorems on the enumerations at one constant.
use u2u_sdk_js.Common.{◌≡◌, ◌↔◌, some}
use u2u_sdk_js.Enums.Status.{busy}
use u2u_sdk_js.Enums.Status.Code.{code, from_code, from_code_iff}

from_code_iff_example : (from_code 12 ≡ some busy) ↔ (code busy ≡ 12)
from_code_iff_example = from_code_iff 12 busy
