-- ===== src/OrderEntry.antt =====
-- src/order_entry.rs: an order that the pre-trade checks refused is stored as submitted and rejected.
pub mod Cancel
pub mod Placing
pub mod Preflight
pub mod Rejection
pub mod Routing
pub mod Submit
use openoms.Base.{
  ℕ, String, ◌<>◌, Option, none, some, List, [], ◌∷◌, ◌++◌, Result, ok, err, ◌>>=◌, map_err,
  map_option, ok_or,
}
use openoms.Float.{Float64}
use openoms.Orders.State.{OrderAggregateState}
use openoms.Orders.Errors.{CommandRejection}
use openoms.Orders.Events.{OrderDomainEvent}
use openoms.Orders.Commands.{SubmitOrder, ExecutionReport, OrderCommand}
use openoms.Orders.Risk.{RiskRejection}
use openoms.Orders.Aggregate.{EventMetadata, OrderAggregate, empty}
use openoms.Orders.Aggregate.Decide.{decide}
use openoms.Orders.Aggregate.Apply.{apply_all}
use openoms.Handlers.{ApiError, internal, map_rejection_to_api_error}
use openoms.EventStore.{StoredEvent, append_events}
use openoms.Execution.{Store, set_at, receive}

-- The row of a new order, with its numbers as the NUMERIC columns give them back.
abbrev pub new_row : {F : Type 0} ⦃fl : Float64 F⦄ → OrderAggregateState F → OrderAggregateState F
new_row ⦃fl⦄ s = record s {
  limit_price = map_option fl.to_numeric s.limit_price;
  original_qty = fl.to_numeric s.original_qty;
  leaves_qty = fl.to_numeric s.leaves_qty;
  cum_qty = fl.to_numeric s.cum_qty;
  avg_px = map_option fl.to_numeric s.avg_px;
}

module _ {F T : Type 0} ⦃fl : Float64 F⦄ where
  -- The body of the loop over the two commands.
  unfoldable pub record_command :
      OrderAggregate F
      → OrderCommand F × EventMetadata T
      → Result (OrderAggregate F × List (OrderDomainEvent F T)) ApiError
  unfolding decide apply_all map_rejection_to_api_error
  record_command aggregate (command, metadata) = do
    decided ← map_err map_rejection_to_api_error (decide aggregate command metadata)
    next ← map_err (λ _. internal "failed to apply rejection") (apply_all aggregate decided)
    ok (next, decided)

  unfoldable pub record_commands :
      OrderAggregate F
      → List (OrderCommand F × EventMetadata T)
      → Result (OrderAggregate F × List (OrderDomainEvent F T)) ApiError
  unfolding record_command
  record_commands aggregate [] = ok (aggregate, [])
  record_commands aggregate (c ∷ cs) = do
    first ← record_command aggregate c
    rest ← record_commands first.0 cs
    ok (rest.0, first.1 ++ rest.1)

  -- The order's id is a primary key.
  unfoldable pub insert_order_state :
      Store F T → String → OrderAggregateState F → Result (Store F T) ApiError
  insert_order_state store order_id s = elim (store.rows order_id) [
    | some _ ↦ err (internal "failed to insert order state")
    | none ↦ ok (record store {
      rows = set_at store.rows order_id (some (new_row s));
      external_order_ids = set_at store.external_order_ids order_id none;
    })
  ]

  abbrev pub rejection_commands :
      String
      → SubmitOrder F
      → RiskRejection
      → EventMetadata T
      → EventMetadata T
      → List (OrderCommand F × EventMetadata T)
  rejection_commands order_id cmd rejection first second =
      (OrderCommand.submit_order cmd, first)
      ∷ (
        receive order_id
            (ExecutionReport.reject (rejection.code <> (": " <> rejection.message)) none),
        second,
      )
      ∷ []

  -- The transaction: the row, then the stream from version 0.
  unfoldable pub store_rejection :
      Store F T
      → String
      → OrderAggregateState F
      → List (OrderDomainEvent F T)
      → Result (Store F T) ApiError
  unfolding insert_order_state append_events
  store_rejection store order_id final_state events = do
    inserted ← insert_order_state store order_id final_state
    stream ←
        map_err (λ _. internal "failed to append rejection events")
          (append_events (store.streams order_id) 0 events)
    ok (record inserted { streams = set_at store.streams order_id stream })

  unfoldable pub record_rejection :
      Store F T
      → String
      → SubmitOrder F
      → RiskRejection
      → EventMetadata T
      → EventMetadata T
      → Result (Store F T) ApiError
  unfolding record_commands store_rejection empty
  record_rejection store order_id cmd rejection first second = do
    done ← record_commands empty (rejection_commands order_id cmd rejection first second)
    final_state ← ok_or done.0.state (internal "failed to record rejection")
    store_rejection store order_id final_state done.1
