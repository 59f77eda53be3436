-- ===== src/Orders/Aggregate/Fill.antt =====
-- A fill report for a live order.
use openoms.Base.{◌≡◌, ap, String, Bool, false, ◌&&◌, not, [], ◌∷◌, ok}
use openoms.Float.{Float64, IsIeee, le_nan, lt_nan}
use openoms.Orders.State.{OrderAggregateState, filled, is_terminal}
use openoms.Orders.Commands.{OrderCommand, ExecutionReport}
use openoms.Orders.Lifecycle.Table.{live-report}
use openoms.Orders.Aggregate.{EventMetadata, from_state}
use openoms.Orders.Aggregate.Decide.{decide, fill_event}
use openoms.Orders.Aggregate.Apply.{apply}
use openoms.Orders.Aggregate.Effect.{after_fill}
use openoms.Orders.Aggregate.Commit.{fill_event-applies}
use openoms.Orders.Aggregate.Run.{step, step_accepted}

abbrev pub fill_command :
    {F : Type 0} → (id x : String) (qty price : F) (venue : String) → OrderCommand F
fill_command id x qty price venue =
    OrderCommand.receive_execution_report
      (record { order_id = id; report = ExecutionReport.fill x qty price venue })

module _ {F : Type 0} ⦃fl : Float64 F⦄ where
  -- The guards of a fill.
  abbrev pub fits : OrderAggregateState F → F → F → Bool
  fits s qty price =
      not (fl.le qty fl.zero_f64)
      && (not (fl.le price fl.zero_f64) && not (fl.lt s.original_qty (fl.add s.cum_qty qty)))

module _ {F T : Type 0} ⦃fl : Float64 F⦄ (s : OrderAggregateState F) (id x venue : String)
    (qty price : F) (m : EventMetadata T) where
  decide_fill :
      is_terminal s.status ≡ false
      → fl.le qty fl.zero_f64 ≡ false
      → fl.le price fl.zero_f64 ≡ false
      → fl.lt s.original_qty (fl.add s.cum_qty qty) ≡ false
      → decide (from_state s) (fill_command id x qty price venue) m
        ≡ ok (fill_event s id x qty price venue m ∷ [])
  unfolding decide from_state
  decide_fill live q p room =
      rw (live-report s.status live, decide) (rw (q, decide) (rw (p, decide) (rw (room, decide))))

  -- A fill of a live order whose quantity and price are not `<= 0` and whose total does not exceed
  -- the order is booked: one event, and the state after the fill.
  pub step_fill :
      is_terminal s.status ≡ false
      → fl.le qty fl.zero_f64 ≡ false
      → fl.le price fl.zero_f64 ≡ false
      → fl.lt s.original_qty (fl.add s.cum_qty qty) ≡ false
      → step (from_state s) (fill_command id x qty price venue, m)
        ≡ (from_state (after_fill s qty price), fill_event s id x qty price venue m ∷ [])
  unfolding apply from_state
  step_fill live q p room =
      let (t, applied, _, _, _, same) = fill_event-applies s m id x venue qty price in
      step_accepted (from_state s) (from_state (after_fill s qty price)) _ m _
        (decide_fill live q p room) (rw (applied, apply) (rw same))

  -- A fill whose quantity is NaN passes every guard of a live order, if its price is not `<= 0`: the
  -- order is booked as filled and its filled quantity is NaN.
  pub fill_nan :
      IsIeee F
      → is_terminal s.status ≡ false
      → fl.le qty qty ≡ false
      → fl.le price fl.zero_f64 ≡ false
      → (t : OrderAggregateState F) × ((step
            (from_state s)
            (fill_command id x qty price venue, m)).0
          ≡ from_state t)
        × (t.status ≡ filled)
        × (fl.le t.cum_qty t.cum_qty ≡ false)
  fill_nan ieee live nan p =
      let sum = ieee.nan_add s.cum_qty qty nan in
      (
        after_fill s qty price,
        ap (λ r. r.0)
            (step_fill live (le_nan ieee fl.zero_f64 qty nan).1 p
              (lt_nan ieee s.original_qty _ sum).0),
        rw
            (lt_nan ieee fl.zero_f64 (fl.sub s.original_qty (fl.add s.cum_qty qty))
              (ieee.nan_sub _ _ sum)).0,
        sum,
      )
