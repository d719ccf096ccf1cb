-- ===== src/Contract.antt =====
-- Calls of contracts: the encoding of parameters by src/contract/ContractFunctionParameters.js with the
-- types of src/contract/ContractFunctionSelector.js, and the reading of results by
-- src/contract/ContractFunctionResult.js.
pub mod Bytes
pub mod Types
pub mod Parameters
pub mod Result
mod Tests
