-- ===== src/Orders/Commands.antt =====
-- src/domain/orders/commands.rs: what a client, an operator or a venue asks of one order.
use openoms.Base.{String, Option}
use openoms.Orders.State.{OrderSide, OrderType, TimeInForce}

pub record SubmitOrder (F : Type 0) : Type 0 where
  pub order_id : String
  pub client_order_id : String
  pub portfolio_id : String
  pub account_id : String
  pub instrument_id : String
  pub side : OrderSide
  pub order_type : OrderType
  pub time_in_force : TimeInForce
  pub limit_price : Option F
  pub quantity : F

pub record ReplaceOrder (F : Type 0) : Type 0 where
  pub order_id : String
  pub new_limit_price : Option F
  pub new_quantity : Option F

pub record CancelOrder : Type 0 where
  pub order_id : String
  pub reason : Option String

pub record SuspendOrder : Type 0 where
  pub order_id : String
  pub reason : Option String

pub record ReleaseOrder : Type 0 where
  pub order_id : String

pub data ExecutionReport (F : Type 0) : Type 0 where
  fill : (execution_id : String) (fill_qty fill_price : F) (venue : String) → ExecutionReport F
  reject : (reason : String) (venue : Option String) → ExecutionReport F
  canceled : (reason venue : Option String) → ExecutionReport F

pub record ReceiveExecutionReport (F : Type 0) : Type 0 where
  pub order_id : String
  pub report : ExecutionReport F

pub record ExpireOrder : Type 0 where
  pub order_id : String
  pub reason : Option String

pub record RouteOrder : Type 0 where
  pub order_id : String
  pub venue : String
  pub external_order_id : String

pub data OrderCommand (F : Type 0) : Type 0 where
  submit_order : SubmitOrder F → OrderCommand F
  route_order : RouteOrder → OrderCommand F
  replace_order : ReplaceOrder F → OrderCommand F
  cancel_order : CancelOrder → OrderCommand F
  suspend_order : SuspendOrder → OrderCommand F
  release_order : ReleaseOrder → OrderCommand F
  receive_execution_report : ReceiveExecutionReport F → OrderCommand F
  expire_order : ExpireOrder → OrderCommand F
