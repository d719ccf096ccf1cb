-- ===== src/LockList/Tests.antt =====
-- The theorems on the list at a list of three elements, which is at its second one.
use u2u_sdk_js.Common.{ℕ, false, some, [], ◌∷◌}
use u2u_sdk_js.LockList.{LockList}

abbrev three : LockList ℕ
three = record { list = some 7 ∷ some 8 ∷ some 9 ∷ []; locked = false; index = some 1 }
