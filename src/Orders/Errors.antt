-- ===== src/Orders/Errors.antt =====
-- src/domain/orders/errors.rs: why a command is refused.
use openoms.Base.{String}

pub data RejectionCode : Type 0 where
  order_already_exists order_not_found invalid_state_transition : RejectionCode
  invalid_quantity invalid_price command_not_allowed invalid_execution_report : RejectionCode

pub record CommandRejection : Type 0 where
  pub code : RejectionCode
  pub message : String

unfoldable pub new : RejectionCode → String → CommandRejection
new code message = record { code = code; message = message }
