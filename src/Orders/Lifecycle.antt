-- ===== src/Orders/Lifecycle.antt =====
-- src/domain/orders/lifecycle.rs: which command is allowed in which status.
pub mod Table
use openoms.Base.{
  Bool, true, false, not, ◌&&◌, ◌||◌, Option, none, some, Result, ok, err, if◌then◌else◌, List, [],
  ◌∷◌, String, ◌<>◌,
}
use openoms.Orders.State.{
  OrderStatus, submitted, routed, partially_filled, filled, rejected, canceled, expired, suspended,
  is_terminal, debug_status,
}
use openoms.Orders.Commands.{OrderCommand}
use openoms.Orders.Errors.{
  CommandRejection, new, order_not_found, order_already_exists, invalid_state_transition,
  command_not_allowed,
}

pub data CommandKind : Type 0 where
  submit_order route_order replace_order cancel_order : CommandKind
  suspend_order release_order receive_execution_report expire_order : CommandKind

unfoldable pub as_str : CommandKind → String
as_str submit_order = "submit_order"
as_str route_order = "route_order"
as_str replace_order = "replace_order"
as_str cancel_order = "cancel_order"
as_str suspend_order = "suspend_order"
as_str release_order = "release_order"
as_str receive_execution_report = "receive_execution_report"
as_str expire_order = "expire_order"

unfoldable pub kind : {F : Type 0} → OrderCommand F → CommandKind
kind (OrderCommand.submit_order _) = submit_order
kind (OrderCommand.route_order _) = route_order
kind (OrderCommand.replace_order _) = replace_order
kind (OrderCommand.cancel_order _) = cancel_order
kind (OrderCommand.suspend_order _) = suspend_order
kind (OrderCommand.release_order _) = release_order
kind (OrderCommand.receive_execution_report _) = receive_execution_report
kind (OrderCommand.expire_order _) = expire_order

unfoldable pub allowed_kinds_for_status : OrderStatus → List CommandKind
allowed_kinds_for_status submitted =
    route_order ∷ replace_order ∷ cancel_order ∷ suspend_order ∷ receive_execution_report
    ∷ expire_order ∷ []
allowed_kinds_for_status routed =
    replace_order ∷ cancel_order ∷ suspend_order ∷ receive_execution_report ∷ expire_order ∷ []
allowed_kinds_for_status partially_filled =
    replace_order ∷ cancel_order ∷ suspend_order ∷ receive_execution_report ∷ expire_order ∷ []
allowed_kinds_for_status suspended =
    cancel_order ∷ release_order ∷ receive_execution_report ∷ expire_order ∷ []
allowed_kinds_for_status _ = []

-- The derived `==` of kinds.
unfoldable pub kind_eq : CommandKind → CommandKind → Bool
kind_eq submit_order submit_order = true
kind_eq route_order route_order = true
kind_eq replace_order replace_order = true
kind_eq cancel_order cancel_order = true
kind_eq suspend_order suspend_order = true
kind_eq release_order release_order = true
kind_eq receive_execution_report receive_execution_report = true
kind_eq expire_order expire_order = true
kind_eq _ _ = false

unfoldable pub contains : List CommandKind → CommandKind → Bool
unfolding kind_eq
contains [] k = false
contains (x ∷ xs) k = kind_eq x k || contains xs k

unfoldable pub is_suspended : OrderStatus → Bool
is_suspended suspended = true
is_suspended _ = false

-- The last arm of `ensure_command_allowed`: an existing, live order.
unfoldable pub ensure_allowed_live : OrderStatus → CommandKind → Result (Unit {0}) CommandRejection
unfolding contains allowed_kinds_for_status is_suspended kind_eq new
ensure_allowed_live status kind =
    if kind_eq kind release_order && not (is_suspended status)
    then err (new command_not_allowed "release is only allowed when status is suspended")
    else (if kind_eq kind suspend_order && is_suspended status
        then err (new command_not_allowed "order is already suspended")
        else (if kind_eq kind replace_order && is_suspended status
            then err (new command_not_allowed "replace is not allowed while order is suspended")
            else (if not (contains (allowed_kinds_for_status status) kind)
                then err (
                    new command_not_allowed
                      (as_str kind <> (" is not allowed when status is " <> debug_status status)))
                else ok tt)))

unfoldable pub ensure_command_allowed :
    Option OrderStatus → CommandKind → Result (Unit {0}) CommandRejection
unfolding ensure_allowed_live is_terminal new
ensure_command_allowed none submit_order = ok tt
ensure_command_allowed none _ = err (new order_not_found "order stream does not exist")
ensure_command_allowed (some _) submit_order =
    err (new order_already_exists "submit is not allowed for an existing order stream")
ensure_command_allowed (some status) k =
    if is_terminal status
    then err (
        new invalid_state_transition
          (as_str k <> (" is not allowed for terminal status " <> debug_status status)))
    else ensure_allowed_live status k
