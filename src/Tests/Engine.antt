-- ===== src/Tests/Engine.antt =====
-- A cumulative update booked on the store, and requests for a reconciliation.
use openoms.Base.{String, ℕ, ◌≡◌, refl, ◌++◌, false, map_option, none, some, List, [], ◌∷◌, arith}
use openoms.Float.Sample.{Sample, sample_float}
use openoms.Gateway.{Uuid, ExecSource, ExecKind, ExecEvent}
use openoms.Orders.State.{OrderAggregateState}
use openoms.Orders.Aggregate.{from_state}
use openoms.Orders.Aggregate.Decide.{fill_event}
use openoms.Orders.Aggregate.Run.{step}
use openoms.EventStore.{StoredEvent, current_version}
use openoms.Execution.{Store}
use openoms.Recon.{missing_qty}
use openoms.OrderEngine.{reports_for}
use openoms.OrderEngine.Slots.{SlotEvent, reconcile, pass_ended, dropped, reconciling}
use openoms.OrderEngine.Slots as Slots
use openoms.OrderEngine.Slots.Phases.{idle, busy, done, slots_of, run-phase}
use openoms.OrderEngine.Stored.{apply_exec}
use openoms.OrderEngine.Represents.{Represents, stored}
use openoms.OrderEngine.Refinement.{book_kept, apply_exec-book}
use openoms.Tests.Data.{number, meta, part_filled}

-- Texts stand for UUIDs.
instance abbrev text_ids : Uuid String
text_ids = record { to_text = λ s. s }

abbrev stream : List (StoredEvent Sample ℕ)
stream =
    record {
      version = 3;
      event = fill_event part_filled "o-1" "x-0" (number 4) (number 100) "XNYS" (meta 3);
    }
    ∷ []

abbrev store : Store Sample ℕ
store = record {
  rows = λ _. some part_filled;
  external_order_ids = λ _. none;
  streams = λ _. stream;
  positions = λ _. none;
}

abbrev running_total : ExecEvent Sample String
running_total = record {
  order_id = "o-1";
  venue = "OKX";
  actor = "okx";
  source = ExecSource.session;
  kind = ExecKind.cumulative (number 7) (number 103);
}

apply_exec-book_example :
    (t : OrderAggregateState Sample) × ((book_kept part_filled running_total (λ n _. meta n)).0
      ≡ from_state t)
    × Represents
        (apply_exec store running_total (λ n _. meta n))
        "o-1"
        t
        (stream ++ stored (book_kept part_filled running_total (λ n _. meta n)).1)
unfolding current_version reports_for missing_qty
apply_exec-book_example =
    apply_exec-book store running_total (λ n _. meta n) part_filled stream (refl, refl, refl, refl)
      refl (omega arith)

-- The column keeps two digits of the new average, 103.
rounded :
    map_option (λ s. s.avg_px) (book_kept part_filled running_total (λ n _. meta n)).0.state
    ≡ some (some (number 100))
unfolding reports_for missing_qty step from_state
rounded = refl

-- The first task is done, and a second is started before the first drops its slot again: the drop
-- frees the second's slot, so the request that came last is forgotten when the second ends its pass.
forgotten :
    Slots.run
      (slots_of idle)
      (reconcile ∷ pass_ended 0 ∷ reconcile ∷ reconcile ∷ dropped 0 ∷ pass_ended 0 ∷ [])
    ≡ slots_of done
unfolding Slots.run
forgotten = refl

-- The same drop lets a third request start a task beside the second.
two_at_once :
    Slots.run (slots_of idle) (reconcile ∷ pass_ended 0 ∷ reconcile ∷ dropped 0 ∷ reconcile ∷ [])
    ≡ record { running = some false; tasks = reconciling ∷ reconciling ∷ [] }
unfolding Slots.run
two_at_once = refl

abbrev in_time : List SlotEvent
in_time = reconcile ∷ reconcile ∷ pass_ended 0 ∷ pass_ended 0 ∷ dropped 0 ∷ reconcile ∷ []

run-phase_example : Slots.run (slots_of idle) in_time ≡ slots_of (busy false)
run-phase_example = run-phase idle in_time (refl, (refl, (refl, (refl, (refl, (refl, tt))))))
