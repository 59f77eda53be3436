-- ===== src/Execution.antt =====
-- src/execution.rs: one report of a broker applied to the stored order, its stream and the positions.
pub mod Conflicts
pub mod Retries
use openoms.Base.{
  ℕ, zero, suc, Bool, ◌&&◌, String, str_eq, Option, none, some, List, [], ◌∷◌, Result, ok, err,
  ◌>>=◌, if◌then◌else◌, ◌==◌, map_err, map_option, ◌≡◌, refl, eq_iff,
}
use openoms.Float.{Float64}
use openoms.Orders.State.{OrderAggregateState, is_terminal}
use openoms.Orders.Errors.{CommandRejection}
use openoms.Orders.Events.{OrderDomainEvent}
use openoms.Orders.Commands.{ExecutionReport, OrderCommand}
use openoms.Orders.Aggregate.{EventMetadata, OrderAggregate, from_state}
use openoms.Orders.Aggregate.Decide.{decide}
use openoms.Orders.Aggregate.Apply.{apply_all}
use openoms.EventStore.{StoredEvent, ConcurrencyError, append_events}
use openoms.Positions.{KeyEq, Table, persist_fill, fill_of_payload}

-- What of the database the code reads and writes: the rows of `order_state`, their column
-- `external_order_id`, which the aggregate's state leaves out, the streams of `order_event` and the
-- table `position`. Orders are keyed by the text of their id.
pub record Store (F T : Type 0) : Type 0 where
  pub rows : String → Option (OrderAggregateState F)
  pub external_order_ids : String → Option String
  pub streams : String → List (StoredEvent F T)
  pub positions : Table (String × String) F

instance abbrev pub position_keys : KeyEq (String × String)
position_keys = record { same = λ a b. str_eq a.0 b.0 && str_eq a.1 b.1 }

-- A failure's message is cut to its fixed part.
pub data ApplyError : Type 0 where
  concurrency_retry : ConcurrencyError → ApplyError
  failed : String → ApplyError

-- One entry of a map changed.
abbrev pub set_at : {A : Type 0} → (String → A) → String → A → String → A
set_at f id a other = if str_eq other id then a else f other

pub set_at-same : {A : Type 0} (f : String → A) (id : String) (a : A) → set_at f id a id ≡ a
set_at-same f id a = rw ((eq_iff id id).1 refl) refl

abbrev pub receive : {F : Type 0} → String → ExecutionReport F → OrderCommand F
receive order_id report =
    OrderCommand.receive_execution_report (record { order_id = order_id; report = report })

module _ {F : Type 0} ⦃fl : Float64 F⦄ where
  -- `UPDATE order_state ... WHERE order_id = $1 AND version = $7`, which leaves the columns out that
  -- it does not name. Numbers are read back as the NUMERIC columns give them.
  unfoldable pub update_row :
      Option (OrderAggregateState F) → ℕ → OrderAggregateState F → Option (OrderAggregateState F)
  update_row none expected new_state = none
  update_row (some row) expected new_state =
      if row.version == expected
      then some (record row {
        status = new_state.status;
        leaves_qty = fl.to_numeric new_state.leaves_qty;
        cum_qty = fl.to_numeric new_state.cum_qty;
        avg_px = map_option fl.to_numeric new_state.avg_px;
        version = new_state.version;
      })
      else some row

  unfoldable pub persist_event :
      OrderAggregateState F → Option (F × F) → Table (String × String) F → Table (String × String) F
  unfolding persist_fill
  persist_event new_state none positions = positions
  persist_event new_state (some (fill_qty, fill_price)) positions =
      persist_fill positions (new_state.portfolio_id, new_state.instrument_id) new_state.side
        fill_qty fill_price

module _ {F T : Type 0} ⦃fl : Float64 F⦄ where
  unfoldable pub persist_fills :
      OrderAggregateState F
      → List (OrderDomainEvent F T)
      → Table (String × String) F
      → Table (String × String) F
  unfolding persist_event
  persist_fills new_state [] positions = positions
  persist_fills new_state (e ∷ es) positions =
      persist_fills new_state es (persist_event new_state (fill_of_payload e.payload) positions)

  -- The writes of the transaction; an error rolls them back.
  unfoldable pub write :
      Store F T
      → String
      → ℕ
      → OrderAggregateState F
      → List (OrderDomainEvent F T)
      → Result (Store F T) ApplyError
  unfolding update_row persist_fills append_events
  write now order_id expected_version new_state events = do
    stream ←
        map_err concurrency_retry (append_events (now.streams order_id) expected_version events)
    ok (record now {
      rows = set_at now.rows order_id (update_row (now.rows order_id) expected_version new_state);
      streams = set_at now.streams order_id stream;
      positions = persist_fills new_state events now.positions;
    })

  unfoldable pub write_applied :
      Store F T
      → String
      → ℕ
      → OrderAggregate F
      → List (OrderDomainEvent F T)
      → Result (Store F T) ApplyError
  unfolding write
  write_applied now order_id expected_version applied events = elim applied.state [
    | none ↦ err (failed "missing aggregate state after apply")
    | some new_state ↦ write now order_id expected_version new_state events
  ]

  -- What follows the events' application to the aggregate.
  unfoldable pub apply_events :
      Store F T
      → String
      → ℕ
      → List (OrderDomainEvent F T)
      → Result (OrderAggregate F) CommandRejection
      → Result (Store F T) ApplyError
  unfolding write_applied
  apply_events now order_id expected_version events (err _) = err (failed "apply failed")
  apply_events now order_id expected_version events (ok applied) =
      write_applied now order_id expected_version applied events

  -- What follows the decision; a refused report is passed over.
  unfoldable pub apply_decided :
      OrderAggregateState F
      → Store F T
      → String
      → Result (List (OrderDomainEvent F T)) CommandRejection
      → Result (Store F T) ApplyError
  unfolding apply_all apply_events
  apply_decided state now order_id (err _) = ok now
  apply_decided state now order_id (ok events) =
      apply_events now order_id state.version events (apply_all (from_state state) events)

  unfoldable pub apply_row :
      OrderAggregateState F
      → Store F T
      → String
      → ExecutionReport F
      → EventMetadata T
      → Result (Store F T) ApplyError
  unfolding is_terminal decide apply_decided
  apply_row state now order_id report metadata =
      if is_terminal state.status
      then ok now
      else apply_decided state now order_id
          (decide (from_state state) (receive order_id report) metadata)

  -- The order's row is read from `before`; other transactions may have committed when this one
  -- writes, to `now`.
  unfoldable pub apply_once :
      Store F T
      → Store F T
      → String
      → ExecutionReport F
      → EventMetadata T
      → Result (Store F T) ApplyError
  unfolding apply_row
  apply_once before now order_id report metadata = elim (before.rows order_id) [
    | none ↦ ok now
    | some state ↦ apply_row state now order_id report metadata
  ]

  -- The loop over the attempts from one on, with so many left. `views` gives what an attempt reads
  -- and what it writes to.
  unfoldable pub attempts :
      ℕ
      → ℕ
      → (ℕ → Store F T × Store F T)
      → String
      → ExecutionReport F
      → (ℕ → EventMetadata T)
      → Result (Store F T) ApplyError
  unfolding apply_once
  attempts zero attempt views order_id report metadata = err (failed "unreachable")
  attempts (suc left) attempt views order_id report metadata =
      let rest = attempts left (suc attempt) views order_id report metadata in
      elim (apply_once (views attempt).0 (views attempt).1 order_id report (metadata attempt)) [
        | ok next ↦ ok next
        | err (concurrency_retry e) ↦ if left == 0 then err (concurrency_retry e) else rest
        | err (failed message) ↦ err (failed message)
      ]

  -- MAX_ATTEMPTS is 5; the waits between the attempts are left out.
  unfoldable pub process_execution_report :
      (ℕ → Store F T × Store F T)
      → String
      → ExecutionReport F
      → (ℕ → EventMetadata T)
      → Result (Store F T) ApplyError
  unfolding attempts
  process_execution_report views order_id report metadata =
      attempts 5 1 views order_id report metadata
