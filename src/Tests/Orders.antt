-- ===== src/Tests/Orders.antt =====
-- The order domain at small inputs.
use openoms.Base.{ℕ, ◌≡◌, refl, Option, some, [], ◌∷◌, ok, true, false, arith, map_option}
use openoms.Float.Sample.{Sample, sample_float, Sample-IsIeee}
use openoms.Orders.State.{
  OrderSide, OrderType, TimeInForce, OrderStatus, OrderAggregateState, is_terminal,
}
use openoms.Orders.Events.{OrderEventType, OrderEventPayload, OrderDomainEvent}
use openoms.Orders.Commands.{OrderCommand}
use openoms.Orders.Lifecycle.{CommandKind, ensure_command_allowed}
use openoms.Orders.Errors.{RejectionCode}
use openoms.Orders.Lifecycle.Table.{verdict, is_working, ensure_command_allowed-expected}
use openoms.Orders.Aggregate.{OrderAggregate, empty, from_state}
use openoms.Orders.Aggregate.Decide.{decide, next_version, fill_event}
use openoms.Orders.Aggregate.Effect.{moved, after_fill}
use openoms.Orders.Aggregate.Apply.{rehydrate}
use openoms.Orders.Aggregate.Commit.{Accepted, decide-apply}
use openoms.Orders.Aggregate.Run.{run, step}
use openoms.Orders.Aggregate.Replay.{Leads, rehydrate-run, versions-run, versions}
use openoms.Orders.Aggregate.Terminal.{run_terminal}
use openoms.Orders.Aggregate.Suspension.{release-suspend, release_reachable, fill_suspended}
use openoms.Orders.Aggregate.Quantities.{IsBalanced, run-IsBalanced}
use openoms.Orders.Aggregate.Fill.{step_fill, fill_nan, fill_command}
use openoms.Tests.Data.{
  number, nan, meta, submit_ten, suspend_it, release_it, fill_of, part_filled, held, done,
  to_suspended, to_filled, to_part,
}

filled_run :
    map_option {B = OrderStatus × Sample × Option Sample × ℕ}
      (λ s. (s.status, s.cum_qty, s.avg_px, s.version))
      (run empty to_filled).0.state
    ≡ some (OrderStatus.filled, number 12, some (number 98), 4)
unfolding run empty
filled_run = refl

abbrev submitted_event : OrderDomainEvent Sample ℕ
submitted_event = record {
  event_id = "e";
  event_type = OrderEventType.order_submitted;
  order_id = "o-1";
  timestamp = 1;
  actor = "trader";
  payload = OrderEventPayload.order_submitted (record {
    client_order_id = "c-1";
    portfolio_id = "p-1";
    account_id = "a-1";
    instrument_id = "7";
    side = OrderSide.buy;
    order_type = OrderType.limit;
    time_in_force = TimeInForce.day;
    limit_price = some (number 100);
    quantity = number 10;
  });
  version = 1;
  status_after = OrderStatus.submitted;
}

decide-apply_example : Accepted empty (OrderCommand.submit_order submit_ten) (submitted_event ∷ [])
unfolding decide empty
decide-apply_example = decide-apply empty (OrderCommand.submit_order submit_ten) (meta 1) refl

rehydrate-run_example :
    (a : OrderAggregate Sample) × (rehydrate (run empty to_filled).1 ≡ ok a)
    × Leads empty to_filled a
rehydrate-run_example = rehydrate-run to_filled

versions-run_example : versions (run empty to_filled).1 ≡ 1 ∷ 2 ∷ 3 ∷ 4 ∷ []
unfolding run empty
versions-run_example = versions-run to_filled (omega arith)

ensure_command_allowed-expected_example :
    verdict (ensure_command_allowed (some OrderStatus.filled) CommandKind.cancel_order)
    ≡ some RejectionCode.invalid_state_transition
unfolding is_terminal
ensure_command_allowed-expected_example =
    ensure_command_allowed-expected (some OrderStatus.filled) CommandKind.cancel_order

run_terminal_example : run (from_state done) to_filled ≡ (from_state done, [])
unfolding is_terminal
run_terminal_example = run_terminal done to_filled refl

released :
    (run (from_state part_filled) (
      (OrderCommand.suspend_order suspend_it, meta 4)
      ∷ (OrderCommand.release_order release_it, meta 5)
      ∷ [])).0
    ≡ from_state (record part_filled { version = 5 })
unfolding next_version
released = release-suspend part_filled suspend_it release_it (meta 4) (meta 5) refl

release_reachable_example :
    (r : OrderStatus) × (is_working r ≡ true)
    × ((step (from_state held) (OrderCommand.release_order release_it, meta 4)).0
        ≡ from_state (moved held r))
unfolding run empty
release_reachable_example = release_reachable to_suspended held release_it (meta 4) refl refl

fill_suspended_example :
    (t : OrderAggregateState Sample) × ((step (from_state held) (fill_of 2 100, meta 4)).0
      ≡ from_state t)
    × (t.status ≡ OrderStatus.partially_filled)
    × (t.resume_to_status ≡ some OrderStatus.partially_filled)
fill_suspended_example =
    fill_suspended held "o-1" "x-1" "XNYS" (number 2) (number 100) (meta 4) refl refl refl refl refl

run-IsBalanced_example : IsBalanced part_filled
unfolding run empty
run-IsBalanced_example =
    run-IsBalanced Sample-IsIeee to_part part_filled (refl, (refl, (refl, tt))) refl

filled_once : step (from_state part_filled) (fill_of 6 105, meta 4) ≡ (
  from_state (after_fill part_filled (number 6) (number 105)),
  fill_event part_filled "o-1" "x-1" (number 6) (number 105) "XNYS" (meta 4) ∷ [],
)
unfolding is_terminal
filled_once =
    step_fill part_filled "o-1" "x-1" "XNYS" (number 6) (number 105) (meta 4) refl refl refl refl

fill_nan_example :
    (t : OrderAggregateState Sample) × ((step
        (from_state part_filled)
        (fill_command "o-1" "x-1" nan (number 100) "XNYS", meta 4)).0
      ≡ from_state t)
    × (t.status ≡ OrderStatus.filled)
    × (sample_float.le t.cum_qty t.cum_qty ≡ false)
unfolding is_terminal
fill_nan_example =
    fill_nan part_filled "o-1" "x-1" "XNYS" nan (number 100) (meta 4) Sample-IsIeee refl refl refl
