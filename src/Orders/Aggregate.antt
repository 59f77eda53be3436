-- ===== src/Orders/Aggregate.antt =====
-- src/domain/orders/aggregate.rs: an order's state, if any, folded from its events.
pub mod Decide
pub mod Apply
pub mod Effect
pub mod Commit
pub mod Run
pub mod Fill
pub mod Replay
pub mod Terminal
pub mod Suspension
pub mod Quantities
use openoms.Base.{String, Option, none, some}
use openoms.Orders.State.{OrderAggregateState}

-- `T` is the type of timestamps.
pub record EventMetadata (T : Type 0) : Type 0 where
  pub event_id : String
  pub timestamp : T
  pub actor : String

pub record OrderAggregate (F : Type 0) : Type 0 where
  pub state : Option (OrderAggregateState F)

module _ {F : Type 0} where
  unfoldable pub empty : OrderAggregate F
  empty = record { state = none }

  unfoldable pub from_state : OrderAggregateState F → OrderAggregate F
  from_state s = record { state = some s }
