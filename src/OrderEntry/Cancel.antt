-- ===== src/OrderEntry/Cancel.antt =====
-- src/order_entry.rs: an order's cancel, at its broker or, if none has it, in the store.
pub mod Outcomes
pub mod Requests
use openoms.Base.{
  ℕ, Bool, ◌||◌, String, ◌<>◌, str_eq, Option, none, some, List, Result, ok, err, ◌>>=◌, ◌>>◌,
  if◌then◌else◌, ◌==◌, map_err, ok_or, unwrap_or,
}
use openoms.Float.{Float64}
use openoms.Orders.State.{OrderAggregateState, status_as_str}
use openoms.Orders.Errors.{CommandRejection}
use openoms.Orders.Events.{OrderDomainEvent}
use openoms.Orders.Commands.{OrderCommand}
use openoms.Orders.Aggregate.{EventMetadata, OrderAggregate, from_state}
use openoms.Orders.Aggregate.Decide.{decide}
use openoms.Orders.Aggregate.Apply.{apply_all}
use openoms.EventStore.{append_events}
use openoms.Gateway.{BrokerError, error_text}
use openoms.Handlers.{StatusCode, ApiError, answer, internal, map_rejection_to_api_error}
use openoms.Execution.{Store, set_at}

pub data CancelOutcome : Type 0 where
  requested canceled : CancelOutcome

-- What a cancel at a broker looks up: the connection of an order, its broker and environment, the
-- adapter's cancel by the broker's id and symbol, and the symbol of an instrument at a broker.
pub record Brokers : Type 0 where
  pub connection_code : String → String
  pub connection : String → Option (String × String)
  pub adapter : String → String → Option (String → String → Result (Unit {0}) BrokerError)
  pub broker_symbol : String → String → Option String

unfoldable pub is_done : String → Bool
is_done status =
    str_eq status "filled"
    || (str_eq status "canceled" || (str_eq status "rejected" || str_eq status "expired"))

unfoldable pub request_cancel :
    {F : Type 0} → Brokers → String → OrderAggregateState F → String → Result (Unit {0}) ApiError
request_cancel brokers order_id row ext = do
  conn ←
      ok_or (brokers.connection (brokers.connection_code order_id))
        (internal "failed to load broker connection")
  cancel_order ← ok_or (brokers.adapter conn.0 conn.1) (
      answer StatusCode.service_unavailable
        ("no adapter configured for " <> (conn.0 <> ("/" <> conn.1))))
  map_err (λ e. answer StatusCode.bad_gateway ("broker rejected cancel: " <> error_text e))
      (cancel_order ext (unwrap_or (brokers.broker_symbol row.instrument_id conn.0) ""))

abbrev pub cancel_command : {F : Type 0} → String → Option String → OrderCommand F
cancel_command order_id reason =
    OrderCommand.cancel_order (record { order_id = order_id; reason = reason })

-- `UPDATE order_state SET status, resume_to_status, version ... WHERE version = $6`, which changes a
-- row or none.
unfoldable pub cancel_row :
    {F : Type 0}
    → Option (OrderAggregateState F)
    → ℕ
    → OrderAggregateState F
    → Option (OrderAggregateState F)
cancel_row none expected state = none
cancel_row (some row) expected state =
    if row.version == expected
    then some (record row {
      status = state.status;
      resume_to_status = state.resume_to_status;
      version = state.version;
    })
    else none

module _ {F T : Type 0} ⦃fl : Float64 F⦄ where
  -- The writes of the transaction; an error rolls them back.
  unfoldable pub write_cancel :
      Store F T
      → String
      → ℕ
      → OrderAggregateState F
      → List (OrderDomainEvent F T)
      → Result (Store F T × CancelOutcome) ApiError
  unfolding cancel_row append_events
  write_cancel now order_id expected_version state events = do
    updated ←
        ok_or (cancel_row (now.rows order_id) expected_version state)
          (answer StatusCode.conflict "order state version mismatch")
    stream ←
        map_err (λ _. internal "failed to append order audit event")
          (append_events (now.streams order_id) expected_version events)
    ok (
      record now {
        rows = set_at now.rows order_id (some updated);
        streams = set_at now.streams order_id stream;
      },
      canceled,
    )

  unfoldable pub cancel_applied :
      Store F T
      → String
      → ℕ
      → List (OrderDomainEvent F T)
      → Result (OrderAggregate F) CommandRejection
      → Result (Store F T × CancelOutcome) ApiError
  unfolding write_cancel
  cancel_applied now order_id expected_version events (err _) =
      err (internal "failed to apply domain event")
  cancel_applied now order_id expected_version events (ok applied) = elim applied.state [
    | none ↦ err (internal "missing aggregate state after cancel")
    | some state ↦ write_cancel now order_id expected_version state events
  ]

  unfoldable pub cancel_decided :
      OrderAggregateState F
      → Store F T
      → String
      → Result (List (OrderDomainEvent F T)) CommandRejection
      → Result (Store F T × CancelOutcome) ApiError
  unfolding map_rejection_to_api_error apply_all cancel_applied
  cancel_decided state now order_id (err rejection) = err (map_rejection_to_api_error rejection)
  cancel_decided state now order_id (ok events) =
      cancel_applied now order_id state.version events (apply_all (from_state state) events)

  unfoldable pub cancel_live :
      Brokers
      → Option String
      → OrderAggregateState F
      → Store F T
      → String
      → Option String
      → EventMetadata T
      → Result (Store F T × CancelOutcome) ApiError
  unfolding request_cancel decide cancel_decided
  cancel_live brokers (some ext) state now order_id reason metadata = do
    request_cancel brokers order_id state ext
    ok (now, requested)
  cancel_live brokers none state now order_id reason metadata =
      cancel_decided state now order_id
        (decide (from_state state) (cancel_command order_id reason) metadata)

  -- The row is read from `before` and written to `now`; the caller's grant is checked before.
  unfoldable pub cancel :
      Brokers
      → Store F T
      → Store F T
      → String
      → Option String
      → EventMetadata T
      → Result (Store F T × CancelOutcome) ApiError
  unfolding is_done status_as_str cancel_live
  cancel brokers before now order_id reason metadata = elim (before.rows order_id) [
    | none ↦ err (answer StatusCode.not_found "order does not exist")
    | some state ↦
        if is_done (status_as_str state.status)
        then err (
            answer StatusCode.unprocessable_entity
              ("order is already terminal (" <> (status_as_str state.status <> "); cannot cancel")))
        else cancel_live brokers (before.external_order_ids order_id) state now order_id reason
            metadata
  ]
