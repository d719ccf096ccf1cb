-- ===== src/Enums/GrpcStatus.antt =====
-- The constants of the class `GrpcStatus` of src/grpc/GrpcStatus.js, one constructor for each static, and the
-- children `Code` (the numbers and the switch of `_fromValue`) and `Text` (the switch of `toString`).
pub mod Code
pub mod Text

pub data GrpcStatus : Type 0 where
  ok cancelled unknown invalid_argument deadline_exceeded not_found already_exists permission_denied
        resource_exhausted failed_precondition aborted out_of_range unimplemented internal
        unavailable data_loss unauthenticated timeout :
      GrpcStatus
