-- ===== src/Tests/Execution.antt =====
-- Reports applied to a small store.
use openoms.Base.{ℕ, zero, suc, ◌≡◌, refl, none, some, [], ◌∷◌, ok, arith}
use openoms.Float.Sample.{Sample, sample_float}
use openoms.Orders.Commands.{ExecutionReport}
use openoms.Orders.Aggregate.Decide.{fill_event}
use openoms.EventStore.{current_version}
use openoms.Execution.{Store, apply_once, process_execution_report}
use openoms.Execution.Conflicts.{IsConsistent, Outcome, apply_once-Outcome}
use openoms.Execution.Retries.{IsSound, process_execution_report-ok}
use openoms.Tests.Data.{number, meta, part_filled}

abbrev report : ExecutionReport Sample
report = ExecutionReport.fill "x" (number 2) (number 100) "XNYS"

-- One order of version 3, as its stream tells.
abbrev store : Store Sample ℕ
store = record {
  rows = λ _. some part_filled;
  external_order_ids = λ _. none;
  streams = λ _.
      record {
        version = 3;
        event = fill_event part_filled "o-1" "x-0" (number 4) (number 100) "XNYS" (meta 3);
      }
      ∷ [];
  positions = λ _. none;
}

store-IsConsistent : IsConsistent store "o-1"
unfolding current_version
store-IsConsistent = record { row = part_filled; row_at = refl; version_at = refl }

-- A row of an older version, read before another report was booked.
abbrev stale : Store Sample ℕ
stale = record store { rows = λ _. some (record part_filled { version = 2 }) }

apply_once-Outcome_example :
    Outcome store "o-1"
      (record part_filled { version = 2 })
      (apply_once stale store "o-1" report (meta 4))
apply_once-Outcome_example =
    apply_once-Outcome stale store "o-1" report (meta 4) (record part_filled { version = 2 })
      store-IsConsistent refl (omega arith)

-- The first attempt reads the stale row, the others are undisturbed.
abbrev views : ℕ → Store Sample ℕ × Store Sample ℕ
views zero = (store, store)
views (suc zero) = (stale, store)
views (suc (suc n)) = (store, store)

views-IsSound : (n : ℕ) → IsSound (views n) "o-1"
views-IsSound zero = record {
  state = part_filled;
  state_at = refl;
  small = omega arith;
  consistent = store-IsConsistent;
}
views-IsSound (suc zero) = record {
  state = record part_filled { version = 2 };
  state_at = refl;
  small = omega arith;
  consistent = store-IsConsistent;
}
views-IsSound (suc (suc n)) = record {
  state = part_filled;
  state_at = refl;
  small = omega arith;
  consistent = store-IsConsistent;
}

process_execution_report-ok_example :
    (next : Store Sample ℕ) × (process_execution_report views "o-1" report meta ≡ ok next)
process_execution_report-ok_example =
    process_execution_report-ok "o-1" report views meta views-IsSound 2 (omega arith) (omega arith)
      refl
