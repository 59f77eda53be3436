-- ===== src/Orders/Events.antt =====
-- src/domain/orders/events.rs: the events of one order and their envelope.
use openoms.Base.{ℕ, String, Option}
use openoms.Orders.State.{OrderSide, OrderType, TimeInForce, OrderStatus}

pub data OrderEventType : Type 0 where
  order_submitted order_rejected order_routed order_amended : OrderEventType
  order_canceled cancel_rejected order_partially_filled order_filled : OrderEventType
  order_expired order_suspended order_released : OrderEventType

unfoldable pub as_str : OrderEventType → String
as_str order_submitted = "order_submitted"
as_str order_rejected = "order_rejected"
as_str order_routed = "order_routed"
as_str order_amended = "order_amended"
as_str order_canceled = "order_canceled"
as_str cancel_rejected = "cancel_rejected"
as_str order_partially_filled = "order_partially_filled"
as_str order_filled = "order_filled"
as_str order_expired = "order_expired"
as_str order_suspended = "order_suspended"
as_str order_released = "order_released"

-- The fields that a fill event carries, partial or final.
pub record FillFields (F : Type 0) : Type 0 where
  pub execution_id : String
  pub fill_qty : F
  pub fill_price : F
  pub cum_qty : F
  pub leaves_qty : F
  pub avg_px : F
  pub venue : String

pub record SubmittedFields (F : Type 0) : Type 0 where
  pub client_order_id : String
  pub portfolio_id : String
  pub account_id : String
  pub instrument_id : String
  pub side : OrderSide
  pub order_type : OrderType
  pub time_in_force : TimeInForce
  pub limit_price : Option F
  pub quantity : F

pub record AmendedFields (F : Type 0) : Type 0 where
  pub previous_limit_price : Option F
  pub new_limit_price : Option F
  pub previous_quantity : F
  pub new_quantity : F

pub data OrderEventPayload (F : Type 0) : Type 0 where
  order_submitted : SubmittedFields F → OrderEventPayload F
  order_rejected : (reason : String) → OrderEventPayload F
  order_routed : (venue external_order_id : String) → OrderEventPayload F
  order_amended : AmendedFields F → OrderEventPayload F
  order_canceled : (reason : Option String) → OrderEventPayload F
  cancel_rejected : (reason : String) → OrderEventPayload F
  order_partially_filled : FillFields F → OrderEventPayload F
  order_filled : FillFields F → OrderEventPayload F
  order_expired : (reason : Option String) → OrderEventPayload F
  order_suspended : (reason : Option String) (resume_to_status : OrderStatus) → OrderEventPayload F
  order_released : (resumed_to_status : OrderStatus) → OrderEventPayload F

-- `T` is the type of timestamps, chrono's `DateTime<Utc>`.
pub record OrderDomainEvent (F T : Type 0) : Type 0 where
  pub event_id : String
  pub event_type : OrderEventType
  pub order_id : String
  pub timestamp : T
  pub actor : String
  pub payload : OrderEventPayload F
  pub version : ℕ
  pub status_after : OrderStatus
