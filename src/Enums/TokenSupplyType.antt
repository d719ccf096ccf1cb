-- ===== src/Enums/TokenSupplyType.antt =====
-- The constants of the class `TokenSupplyType` of src/token/TokenSupplyType.js, one constructor for each static, and the
-- children `Code` (the numbers and the switch of `_fromCode`) and `Text` (the switch of `toString`).
pub mod Code
pub mod Text

pub data TokenSupplyType : Type 0 where
  infinite finite : TokenSupplyType
