-- ===== src/Tests/OrderEntry.antt =====
-- A refused order that is stored.
use openoms.Base.{ℕ, ◌≡◌, refl, none, some, [], ◌∷◌, ok, map}
use openoms.Float.Sample.{Sample, sample_float}
use openoms.Orders.State.{rejected}
use openoms.Orders.Invariants.{validate_submit}
use openoms.Orders.Risk.{RiskRejection}
use openoms.Orders.Aggregate.Effect.{opened, moved}
use openoms.Execution.{Store}
use openoms.OrderEntry.{new_row, record_rejection}
use openoms.OrderEntry.Rejection.{record_rejection-ok}
use openoms.Tests.Data.{meta, submit_ten}

abbrev no_orders : Store Sample ℕ
no_orders = record {
  rows = λ _. none;
  external_order_ids = λ _. none;
  streams = λ _. [];
  positions = λ _. none;
}

abbrev halted : RiskRejection
halted = record { code = "trading_halted"; message = "trading halted" }

record_rejection-ok_example :
    (next : Store Sample ℕ) × (record_rejection no_orders "o-1" submit_ten halted (meta 1) (meta 2)
      ≡ ok next)
    × (next.rows "o-1" ≡ some (new_row (moved (opened submit_ten) rejected)))
    × (map (λ e. e.version) (next.streams "o-1")
        ≡ 1 ∷ (moved (opened submit_ten) rejected).version ∷ [])
unfolding validate_submit
record_rejection-ok_example =
    record_rejection-ok no_orders "o-1" submit_ten halted (meta 1) (meta 2) refl refl refl
