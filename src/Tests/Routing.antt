-- ===== src/Tests/Routing.antt =====
-- A submitted order that is routed, or canceled.
use openoms.Base.{
  ℕ, zero, suc, ◌≡◌, refl, ◌⊎◌, ◌<>◌, true, false, some, none, [], ◌∷◌, ok, err, arith,
}
use openoms.Float.Sample.{Sample, sample_float}
use openoms.Orders.State.{OrderStatus, OrderAggregateState, is_terminal, status_as_str}
use openoms.Orders.Aggregate.Decide.{fill_event}
use openoms.EventStore.{current_version}
use openoms.Handlers.{StatusCode, answer}
use openoms.Execution.{Store}
use openoms.Execution.Conflicts.{IsConsistent}
use openoms.Execution.Retries.{IsSound}
use openoms.OrderEntry.Routing.{RouteResult, route_once, persist_routed}
use openoms.OrderEntry.Routing.Outcomes.{Outcome, route_once-Outcome}
use openoms.OrderEntry.Routing.Attempts.{OnRecord, persist_routed-OnRecord}
use openoms.OrderEntry.Cancel.{Brokers, cancel}
use openoms.OrderEntry.Cancel.Outcomes.{cancel-Outcome}
use openoms.OrderEntry.Cancel.Outcomes as Canceling
use openoms.Tests.Data.{number, meta, part_filled}

abbrev new_order : OrderAggregateState Sample
new_order = record part_filled {
  leaves_qty = number 10;
  cum_qty = number 0;
  avg_px = none;
  status = OrderStatus.submitted;
  version = 1;
}

-- A submitted order, as its stream tells.
abbrev store : Store Sample ℕ
store = record {
  rows = λ _. some new_order;
  external_order_ids = λ _. none;
  streams = λ _.
      record {
        version = 1;
        event = fill_event new_order "o-1" "x-0" (number 4) (number 100) "XNYS" (meta 3);
      }
      ∷ [];
  positions = λ _. none;
}

store-IsConsistent : IsConsistent store "o-1"
unfolding current_version
store-IsConsistent = record { row = new_order; row_at = refl; version_at = refl }

route_once-Outcome_example :
    Outcome store "o-1" "v-1" new_order (route_once store store "o-1" "XNYS" "v-1" (meta 2))
route_once-Outcome_example =
    route_once-Outcome store store "o-1" "XNYS" "v-1" (meta 2) new_order store-IsConsistent refl
      (omega arith)

-- The first attempt reads an older row.
abbrev views : ℕ → Store Sample ℕ × Store Sample ℕ
views zero = (store, store)
views (suc zero) = (record store { rows = λ _. some (record new_order { version = 0 }) }, store)
views (suc (suc n)) = (store, store)

views-IsSound : (n : ℕ) → IsSound (views n) "o-1"
views-IsSound zero = record {
  state = new_order;
  state_at = refl;
  small = omega arith;
  consistent = store-IsConsistent;
}
views-IsSound (suc zero) = record {
  state = record new_order { version = 0 };
  state_at = refl;
  small = omega arith;
  consistent = store-IsConsistent;
}
views-IsSound (suc (suc n)) = record {
  state = new_order;
  state_at = refl;
  small = omega arith;
  consistent = store-IsConsistent;
}

persist_routed-OnRecord_example :
    (next : Store Sample ℕ) × (r : RouteResult) × (persist_routed views "o-1" "XNYS" "v-1" meta
      ≡ ok (next, r))
    × OnRecord "o-1" next r
persist_routed-OnRecord_example =
    persist_routed-OnRecord "o-1" "XNYS" "v-1" views meta views-IsSound 2 (omega arith)
      (omega arith) refl

abbrev no_brokers : Brokers
no_brokers = record {
  connection_code = λ _. "alpaca-paper";
  connection = λ _. some ("ALPACA", "paper");
  adapter = λ _ _. none;
  broker_symbol = λ _ _. none;
}

cancel-Outcome_example :
    ((is_terminal new_order.status ≡ true)
      × (cancel no_brokers store store "o-1" none (meta 2)
          ≡ err (
              answer StatusCode.unprocessable_entity (
                "order is already terminal ("
                <> (status_as_str new_order.status <> "); cannot cancel")))))
    ⊎ ((is_terminal new_order.status ≡ false)
        × Canceling.Outcome no_brokers none store "o-1" new_order new_order
            (cancel no_brokers store store "o-1" none (meta 2)))
unfolding store-IsConsistent
cancel-Outcome_example =
    cancel-Outcome no_brokers store store "o-1" none (meta 2) new_order store-IsConsistent refl
      (omega arith)
