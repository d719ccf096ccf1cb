-- ===== src/Enums/TokenType.antt =====
-- The constants of the class `TokenType` of src/token/TokenType.js, one constructor for each static, and the
-- children `Code` (the numbers and the switch of `_fromCode`) and `Text` (the switch of `toString`).
pub mod Code
pub mod Text

pub data TokenType : Type 0 where
  fungible_common non_fungible_unique : TokenType
