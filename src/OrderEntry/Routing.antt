-- ===== src/OrderEntry/Routing.antt =====
-- src/order_entry.rs: what is stored when the venue took a submitted order.
pub mod Outcomes
pub mod Attempts
use openoms.Base.{
  ℕ, zero, suc, Bool, true, false, String, Option, none, some, List, Result, ok, err, ◌>>=◌,
  if◌then◌else◌, ◌==◌, map_err, or_option,
}
use openoms.Float.{Float64}
use openoms.Orders.State.{OrderStatus, OrderAggregateState, is_terminal}
use openoms.Orders.Errors.{CommandRejection}
use openoms.Orders.Events.{OrderDomainEvent}
use openoms.Orders.Commands.{OrderCommand}
use openoms.Orders.Aggregate.{EventMetadata, OrderAggregate, from_state}
use openoms.Orders.Aggregate.Decide.{decide}
use openoms.Orders.Aggregate.Apply.{apply_all}
use openoms.EventStore.{ConcurrencyError, append_events}
use openoms.Handlers.{ApiError, internal, map_rejection_to_api_error}
use openoms.Execution.{Store, set_at}

pub data RouteResult : Type 0 where
  routed : RouteResult
  terminal : OrderStatus → RouteResult
  not_submitted : RouteResult

-- How an attempt fails: another transaction was first, or an answer to the caller.
pub data AttemptError : Type 0 where
  concurrency : ConcurrencyError → AttemptError
  api : ApiError → AttemptError

unfoldable pub is_submitted : OrderStatus → Bool
is_submitted OrderStatus.submitted = true
is_submitted _ = false

abbrev pub route_command : {F : Type 0} → String → String → String → OrderCommand F
route_command order_id venue external_order_id =
    OrderCommand.route_order
      (record { order_id = order_id; venue = venue; external_order_id = external_order_id })

module _ {F : Type 0} where
  -- `UPDATE order_state SET status, version, external_order_id ... WHERE version = $6`: the row, and
  -- below its column `external_order_id`.
  unfoldable pub route_row :
      Option (OrderAggregateState F) → ℕ → OrderAggregateState F → Option (OrderAggregateState F)
  route_row none expected routed_state = none
  route_row (some row) expected routed_state =
      if row.version == expected
      then some (record row { status = routed_state.status; version = routed_state.version })
      else some row

  unfoldable pub route_id :
      Option (OrderAggregateState F) → ℕ → Option String → String → Option String
  route_id none expected stored external_order_id = stored
  route_id (some row) expected stored external_order_id =
      if row.version == expected then some external_order_id else stored

  -- `UPDATE order_state SET external_order_id = $2 ... AND external_order_id IS NULL`
  unfoldable pub record_id : Option (OrderAggregateState F) → Option String → String → Option String
  record_id none stored external_order_id = stored
  record_id (some row) stored external_order_id = or_option stored (some external_order_id)

module _ {F T : Type 0} ⦃fl : Float64 F⦄ where
  -- The transaction; an error rolls it back.
  unfoldable pub write_route :
      Store F T
      → String
      → String
      → ℕ
      → OrderAggregateState F
      → List (OrderDomainEvent F T)
      → Result (Store F T) AttemptError
  unfolding route_row route_id append_events
  write_route now order_id external_order_id expected_version routed_state events = do
    stream ← map_err concurrency (append_events (now.streams order_id) expected_version events)
    ok (record now {
      rows = set_at now.rows order_id (route_row (now.rows order_id) expected_version routed_state);
      external_order_ids = set_at now.external_order_ids order_id (
          route_id (now.rows order_id) expected_version (now.external_order_ids order_id)
            external_order_id);
      streams = set_at now.streams order_id stream;
    })

  -- What follows the events' application to the aggregate.
  unfoldable pub route_applied :
      Store F T
      → String
      → String
      → ℕ
      → List (OrderDomainEvent F T)
      → Result (OrderAggregate F) CommandRejection
      → Result (Store F T × RouteResult) AttemptError
  unfolding write_route
  route_applied now order_id external_order_id expected_version events (err _) =
      err (api (internal "failed to apply RouteOrder event"))
  route_applied now order_id external_order_id expected_version events (ok applied) =
      elim applied.state [
        | none ↦ err (api (internal "missing aggregate state after routing"))
        | some routed_state ↦
            write_route now order_id external_order_id expected_version routed_state events
            >>= λ next. ok (next, routed)
      ]

  -- What follows the decision.
  unfoldable pub route_decided :
      OrderAggregateState F
      → Store F T
      → String
      → String
      → Result (List (OrderDomainEvent F T)) CommandRejection
      → Result (Store F T × RouteResult) AttemptError
  unfolding apply_all route_applied map_rejection_to_api_error
  route_decided state now order_id external_order_id (err rejection) =
      err (api (map_rejection_to_api_error rejection))
  route_decided state now order_id external_order_id (ok events) =
      route_applied now order_id external_order_id state.version events
        (apply_all (from_state state) events)

  unfoldable pub route_state :
      OrderAggregateState F
      → Store F T
      → (order_id venue external_order_id : String) → EventMetadata T
      → Result (Store F T × RouteResult) AttemptError
  unfolding is_terminal is_submitted record_id decide route_decided
  route_state state now order_id venue external_order_id metadata =
      if is_terminal state.status
      then ok (now, terminal state.status)
      else (if is_submitted state.status
          then route_decided state now order_id external_order_id
              (decide (from_state state) (route_command order_id venue external_order_id) metadata)
          else ok (
            record now {
              external_order_ids = set_at now.external_order_ids order_id (
                  record_id (now.rows order_id) (now.external_order_ids order_id)
                    external_order_id);
            },
            not_submitted,
          ))

  -- One pass of the loop: the row is read from `before` and written to `now`.
  unfoldable pub route_once :
      Store F T
      → Store F T
      → (order_id venue external_order_id : String) → EventMetadata T
      → Result (Store F T × RouteResult) AttemptError
  unfolding route_state
  route_once before now order_id venue external_order_id metadata = elim (before.rows order_id) [
    | none ↦ err (api (internal "failed to re-read order state before routing"))
    | some state ↦ route_state state now order_id venue external_order_id metadata
  ]

  -- The loop over the attempts from one on, with so many left.
  unfoldable pub route_attempts :
      ℕ
      → ℕ
      → (ℕ → Store F T × Store F T)
      → (order_id venue external_order_id : String) → (ℕ → EventMetadata T)
      → Result (Store F T × RouteResult) ApiError
  unfolding route_once
  route_attempts zero attempt views order_id venue external_order_id metadata =
      ok ((views attempt).1, routed)
  route_attempts (suc left) attempt views order_id venue external_order_id metadata =
      let rest =
        route_attempts left (suc attempt) views order_id venue external_order_id metadata in
      elim (route_once (views attempt).0 (views attempt).1 order_id venue external_order_id
        (metadata attempt)) [
          | ok next ↦ ok next
          | err (concurrency e) ↦
              if left == 0
              then err (
                  internal
                    "failed to persist OrderRouted event: exhausted retries on a concurrent order update")
              else rest
          | err (api e) ↦ err e
        ]

  -- MAX_ROUTE_ATTEMPTS is 5; the waits between the attempts are left out.
  unfoldable pub persist_routed :
      (ℕ → Store F T × Store F T)
      → (order_id venue external_order_id : String) → (ℕ → EventMetadata T)
      → Result (Store F T × RouteResult) ApiError
  unfolding route_attempts
  persist_routed views order_id venue external_order_id metadata =
      route_attempts 5 1 views order_id venue external_order_id metadata
