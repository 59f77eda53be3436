-- ===== src/Orders/State.antt =====
-- src/domain/orders/state.rs: sides, types, statuses and the state of one order.
use openoms.Base.{ℕ, String, Bool, true, false, Option}

pub data OrderSide : Type 0 where
  buy sell : OrderSide

pub data OrderType : Type 0 where
  market limit : OrderType

pub data TimeInForce : Type 0 where
  day gtc ioc fok : TimeInForce

pub data OrderStatus : Type 0 where
  submitted routed partially_filled filled rejected canceled expired suspended : OrderStatus

pub OrderStatus-discrete : Discrete OrderStatus
OrderStatus-discrete = hlevel

unfoldable pub side_as_str : OrderSide → String
side_as_str buy = "buy"
side_as_str sell = "sell"

unfoldable pub order_type_as_str : OrderType → String
order_type_as_str market = "market"
order_type_as_str limit = "limit"

unfoldable pub time_in_force_as_str : TimeInForce → String
time_in_force_as_str day = "day"
time_in_force_as_str gtc = "gtc"
time_in_force_as_str ioc = "ioc"
time_in_force_as_str fok = "fok"

unfoldable pub status_as_str : OrderStatus → String
status_as_str submitted = "submitted"
status_as_str routed = "routed"
status_as_str partially_filled = "partially_filled"
status_as_str filled = "filled"
status_as_str rejected = "rejected"
status_as_str canceled = "canceled"
status_as_str expired = "expired"
status_as_str suspended = "suspended"

-- The derived `Debug`, which messages print.
unfoldable pub debug_status : OrderStatus → String
debug_status submitted = "Submitted"
debug_status routed = "Routed"
debug_status partially_filled = "PartiallyFilled"
debug_status filled = "Filled"
debug_status rejected = "Rejected"
debug_status canceled = "Canceled"
debug_status expired = "Expired"
debug_status suspended = "Suspended"

unfoldable pub is_terminal : OrderStatus → Bool
is_terminal filled = true
is_terminal rejected = true
is_terminal canceled = true
is_terminal expired = true
is_terminal _ = false

-- `version` is an i64, kept as its bit pattern below 2 ^ 64.
pub record OrderAggregateState (F : Type 0) : Type 0 where
  pub order_id : String
  pub client_order_id : String
  pub portfolio_id : String
  pub account_id : String
  pub instrument_id : String
  pub side : OrderSide
  pub order_type : OrderType
  pub time_in_force : TimeInForce
  pub limit_price : Option F
  pub original_qty : F
  pub leaves_qty : F
  pub cum_qty : F
  pub avg_px : Option F
  pub status : OrderStatus
  pub resume_to_status : Option OrderStatus
  pub version : ℕ
