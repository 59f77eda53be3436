-- ===== src/OrderEngine/Booking.antt =====
-- What the reports of an event do to the order that they are booked on.
use openoms.Base.{ℕ, suc, ◌≡◌, true, false, String, List, [], ◌∷◌, arith}
use openoms.Float.{Float64, IsIeee}
use openoms.Orders.State.{OrderAggregateState}
use openoms.Orders.Commands.{OrderCommand, ExecutionReport}
use openoms.Orders.Aggregate.{EventMetadata, OrderAggregate, from_state}
use openoms.Orders.Aggregate.Run.{run}
use openoms.Gateway.{Uuid, ExecEvent}
use openoms.Recon.{increment_price}
use openoms.OrderEngine.{reports_for}

module _ {F T : Type 0} where
  -- The commands of the reports, each with metadata of its own.
  abbrev pub report_commands :
      String
      → (ℕ → EventMetadata T)
      → ℕ
      → List (ExecutionReport F)
      → List (OrderCommand F × EventMetadata T)
  report_commands id metadata n [] = []
  report_commands id metadata n (report ∷ reports) =
      (
        OrderCommand.receive_execution_report (record { order_id = id; report = report }),
        metadata n,
      )
      ∷ report_commands id metadata (suc n) reports

module _ {F T Key : Type 0} ⦃fl : Float64 F⦄ ⦃uuid : Uuid Key⦄ where
  -- The last part of `apply_exec` on the aggregate alone, with exact numbers in between: every report
  -- that the event needs, given the order as booked.
  unfoldable pub book :
      OrderAggregateState F → ExecEvent F Key → (ℕ → EventMetadata T) → OrderAggregate F
  unfolding reports_for run
  book s ev metadata =
      (run (from_state s) (
        report_commands (uuid.to_text ev.order_id) metadata 0
          (reports_for ev s.cum_qty s.avg_px))).0

module _ {F : Type 0} ⦃fl : Float64 F⦄ where
  -- The price of what the order is missing of the venue's cumulative state.
  abbrev pub increment : OrderAggregateState F → F → F → F
  increment s cum px = increment_price s.cum_qty s.avg_px cum px

module _ {F : Type 0} ⦃fl : Float64 F⦄ (ieee : IsIeee F) where
  -- A quantity that counts as missing is not `<= 0`.
  pub missing_positive : (q : F) → fl.lt fl.eps_f64 q ≡ true → fl.le q fl.zero_f64 ≡ false
  missing_positive q h = ground (
    arith,
    ieee.zero_le_eps,
    ieee.not_le_of_lt fl.eps_f64 q h,
    ieee.le_trans q fl.zero_f64 fl.eps_f64,
  )
