-- ===== src/Enums/FreezeType.antt =====
-- The constants of the class `FreezeType` of src/FreezeType.js, one constructor for each static, and the
-- children `Code` (the numbers and the switch of `_fromCode`) and `Text` (the switch of `toString`).
pub mod Code
pub mod Text

pub data FreezeType : Type 0 where
  unknown_freeze_type freeze_only prepare_upgrade freeze_upgrade freeze_abort telemetry_upgrade :
      FreezeType
