-- ===== src/Enums/FeeDataType.antt =====
-- The constants of the class `FeeDataType` of src/FeeDataType.js, one constructor for each static, and the
-- children `Code` (the numbers and the switch of `_fromCode`) and `Text` (the switch of `toString`).
pub mod Code
pub mod Text

pub data FeeDataType : Type 0 where
  default token_fungible_common token_non_fungible_unique token_fungible_common_with_custom_fees
        token_non_fungible_unique_with_custom_fees schedule_create_contract_call :
      FeeDataType
