-- ===== src/Tests/Recon.antt =====
-- Reconciliation and booking at small inputs.
use openoms.Base.{◌≡◌, refl, ◌↔◌, String, none, List, [], ◌∷◌, ok, All}
use openoms.Float.Sample.{Sample, sample_float, Sample-IsIeee}
use openoms.Gateway.{
  Uuid, ExecSource, ExecKind, ExecEvent, BrokerOpenOrder, BrokerOrderState, BrokerOrderOutcome,
  BrokerAdapter,
}
use openoms.Orders.State.{is_terminal}
use openoms.Recon.{OmsWorkingOrder, StuckOrder, plan_order_recon, reconcile_with, increment_price}
use openoms.Recon.Plan.{InStep, IsKnown, plan_order_recon-nil}
use openoms.Recon.Answers.{Backed, reconcile_with-Answered}
use openoms.OrderEngine.Booking.{book}
use openoms.OrderEngine.Closing.{ClosedAt, book_terminal}
use openoms.Tests.Data.{number, meta, part_filled}

-- Texts stand for UUIDs.
instance abbrev text_ids : Uuid String
text_ids = record { to_text = λ s. s }

abbrev working : List (OmsWorkingOrder Sample String)
working =
    record { order_id = "a"; symbol = "X"; ext_id = "1"; cum_qty = number 4; avg_px = none }
    ∷ record { order_id = "b"; symbol = "X"; ext_id = "2"; cum_qty = number 0; avg_px = none }
    ∷ []

abbrev snapshot : List (BrokerOpenOrder Sample)
snapshot =
    record { client_order_id = "a"; venue_order_id = "1"; symbol = "X"; executed_qty = number 4 }
    ∷ record { client_order_id = "s"; venue_order_id = "3"; symbol = "X"; executed_qty = number 0 }
    ∷ []

abbrev waiting : List (StuckOrder String)
waiting = record { order_id = "s"; symbol = "X" } ∷ record { order_id = "z"; symbol = "X" } ∷ []

abbrev final : BrokerOrderState Sample
final = record {
  outcome = BrokerOrderOutcome.canceled;
  executed_qty = number 7;
  avg_px = number 102;
}

abbrev adapter : BrokerAdapter Sample
adapter = record { open_orders = ok snapshot; order_status = λ _ _ _. ok final }

plan_order_recon-nil_example :
    (plan_order_recon working snapshot ≡ [])
    ↔ (All (InStep snapshot) working × All (IsKnown working) snapshot)
plan_order_recon-nil_example = plan_order_recon-nil working snapshot

reconcile_with-Answered_example :
    All (Backed adapter snapshot) (reconcile_with working waiting adapter "BINANCE" "binance")
reconcile_with-Answered_example =
    reconcile_with-Answered working waiting adapter "BINANCE" "binance" snapshot refl

abbrev running_total : ExecEvent Sample String
running_total = record {
  order_id = "o-1";
  venue = "OKX";
  actor = "okx";
  source = ExecSource.session;
  kind = ExecKind.cumulative (number 7) (number 103);
}

abbrev closed_event : ExecEvent Sample String
closed_event = record running_total { kind = ExecKind.terminal final; source = ExecSource.snapshot }

book_terminal_example : ClosedAt (book part_filled closed_event meta) (number 7)
unfolding increment_price is_terminal
book_terminal_example =
    book_terminal Sample-IsIeee part_filled closed_event meta final refl refl refl
      (λ _. (refl, refl, refl))
