-- ===== src/Enums.antt =====
-- The enumeration classes: constants with a code and a text.
pub mod Switch
pub mod Status
pub mod RequestType
pub mod GrpcStatus
pub mod FreezeType
pub mod FeeDataType
pub mod TokenType
pub mod TokenSupplyType
mod Tests
