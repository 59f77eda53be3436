-- ===== src/OrderEngine/Closing.antt =====
-- Terminal states of the venue: the missing fill is booked before the close.
use openoms.Base.{
  ℕ, ◌≡◌, refl, inl, inr, Bool, true, false, Option, [], ◌∷◌, if◌then◌else◌, Bool-cases, String,
  subst,
}
use openoms.Base.{ok, ◌∙◌, ap}
use openoms.Float.{Float64, IsIeee}
use openoms.Orders.State.{OrderAggregateState, is_terminal, rejected}
use openoms.Orders.Events.{OrderDomainEvent}
use openoms.Orders.Commands.{OrderCommand, ExecutionReport}
use openoms.Orders.Lifecycle.Table.{live-report}
use openoms.Orders.Aggregate.{EventMetadata, OrderAggregate, from_state}
use openoms.Orders.Aggregate.Commit.{decide-apply}
use openoms.Orders.Lifecycle.{kind}
use openoms.Orders.Aggregate.Decide.{decide, decide_command, decide_report}
use openoms.Orders.Aggregate.Apply.{apply_all}
use openoms.Orders.Aggregate.Effect.{after_fill, closed, moved}
use openoms.Orders.Aggregate.Fill.{step_fill}
use openoms.Orders.Aggregate.Run.{run, step, step_accepted, handle}
use openoms.Orders.Aggregate.Terminal.{step_terminal}
use openoms.Gateway.{Uuid, ExecKind, ExecEvent, BrokerOrderState, BrokerOrderOutcome}
use openoms.Recon.{missing_qty}
use openoms.OrderEngine.{reports_for, reports_for_kind, missing_fill, close_reports}
use openoms.OrderEngine.Booking.{book, increment, missing_positive}

abbrev pub close_command : {F : Type 0} → String → ExecutionReport F → OrderCommand F
close_command id report =
    OrderCommand.receive_execution_report (record { order_id = id; report = report })

module _ {F T : Type 0} ⦃fl : Float64 F⦄ (s : OrderAggregateState F) (id : String)
    (m : EventMetadata T) where
  step_canceled :
      (reason venue : Option String)
      → is_terminal s.status ≡ false
      → (step (from_state s) (close_command id (ExecutionReport.canceled reason venue), m)).0
        ≡ from_state (closed s)
  unfolding step handle decide apply_all from_state
  step_canceled reason venue live = rw (live-report s.status live, step) refl

  reject_reported :
      (reason : String) (venue : Option String)
      → is_terminal s.status ≡ false
      → decide (from_state s) (close_command id (ExecutionReport.reject reason venue)) m
        ≡ decide_report s id (ExecutionReport.reject reason venue) m
  unfolding decide decide_command kind from_state
  reject_reported reason venue live = rw (live-report s.status live, decide) refl

  reject_decided :
      (reason : String) (venue : Option String)
      → is_terminal s.status ≡ false
      → (e : OrderDomainEvent F T) × (decide
            (from_state s)
            (close_command id (ExecutionReport.reject reason venue))
            m
          ≡ ok (e ∷ []))
  unfolding decide_report
  reject_decided reason venue live = (_, reject_reported reason venue live)

  -- A reject of a live order adds one event.
  pub rejected_once :
      (reason : String) (venue : Option String)
      → is_terminal s.status ≡ false
      → (e : OrderDomainEvent F T) × (step
            (from_state s)
            (close_command id (ExecutionReport.reject reason venue), m)
          ≡ (from_state (moved s rejected), e ∷ []))
  unfolding from_state
  rejected_once reason venue live =
      let c = close_command id (ExecutionReport.reject reason venue) in
      let (_, h) = reject_decided reason venue live in
      let (e, t, single, applied, _, _, _, effect) = decide-apply (from_state s) c m h in
      (
        e,
        step_accepted (from_state s) (from_state t) c m e (h ∙ ap ok single) applied
            ∙ ap (λ t. (from_state t, e ∷ [])) effect,
      )

  step_rejected :
      (reason : String) (venue : Option String)
      → is_terminal s.status ≡ false
      → (step (from_state s) (close_command id (ExecutionReport.reject reason venue), m)).0
        ≡ from_state (moved s rejected)
  unfolding step handle decide apply_all from_state
  step_rejected reason venue live = rw (live-report s.status live, step) refl

abbrev is_close : {F : Type 0} → ExecutionReport F → Bool
is_close (ExecutionReport.fill _ _ _ _) = false
is_close _ = true

-- The order is closed, and its filled quantity is `cum`.
abbrev pub ClosedAt : {F : Type 0} → OrderAggregate F → F → Type 0
ClosedAt {F} a cum =
    (t : OrderAggregateState F) × (a ≡ from_state t)
    × (is_terminal t.status ≡ true)
    × (t.cum_qty ≡ cum)

module _ {F T : Type 0} ⦃fl : Float64 F⦄ where
  -- A closing report leaves any order closed, with the quantity that it had.
  step_close :
      (u : OrderAggregateState F) (id : String) (m : EventMetadata T) (report : ExecutionReport F)
      → is_close report ≡ true
      → ClosedAt (step (from_state u) (close_command id report, m)).0 u.cum_qty
  unfolding is_terminal
  step_close u id m report close = elim (Bool-cases (is_terminal u.status)) [
    | inl e ↦ (u, rw (step_terminal u (close_command id report) m e) refl, e, refl)
    | inr e ↦ close_live report close e
  ]
    where
      close_live :
          (report : ExecutionReport F)
          → is_close report ≡ true
          → is_terminal u.status ≡ false
          → ClosedAt (step (from_state u) (close_command id report, m)).0 u.cum_qty
      close_live (ExecutionReport.fill _ _ _ _) c e = absurd (cc)
      close_live (ExecutionReport.reject reason venue) c e =
          (moved u rejected, step_rejected u id m reason venue e, refl, refl)
      close_live (ExecutionReport.canceled reason venue) c e =
          (closed u, step_canceled u id m reason venue e, refl, refl)

abbrev closes : BrokerOrderOutcome → Bool
closes BrokerOrderOutcome.canceled = true
closes BrokerOrderOutcome.rejected = true
closes _ = false

-- The one report of a canceled or rejected outcome.
close_reports-one :
    {F : Type 0} (outcome : BrokerOrderOutcome) (venue : String)
    → closes outcome ≡ true
    → (report : ExecutionReport F) × (is_close report ≡ true)
      × (close_reports outcome venue ≡ report ∷ [])
unfolding close_reports
close_reports-one BrokerOrderOutcome.canceled venue h = (_, refl, refl)
close_reports-one BrokerOrderOutcome.rejected venue h = (_, refl, refl)
close_reports-one BrokerOrderOutcome.filled venue h = cc
close_reports-one BrokerOrderOutcome.working venue h = cc

module _ {F T Key : Type 0} ⦃fl : Float64 F⦄ ⦃uuid : Uuid Key⦄ where
  -- The order is canceled or rejected at the venue with `executed_qty` filled. If that is ahead of the
  -- live order by more than the tolerance, within its quantity and its increment is computed exactly
  -- and priced not `<= 0`, then the missing fill is booked before the close: the order ends closed
  -- with the venue's quantity. If it is not ahead, the order ends closed with the quantity it had.
  pub book_terminal :
      IsIeee F
      → (s : OrderAggregateState F) (ev : ExecEvent F Key) (metadata : ℕ → EventMetadata T)
        (st : BrokerOrderState F)
      → ev.kind ≡ ExecKind.terminal st
      → closes st.outcome ≡ true
      → is_terminal s.status ≡ false
      → (fl.lt fl.eps_f64 (fl.sub st.executed_qty s.cum_qty) ≡ true
          → (fl.add s.cum_qty (fl.sub st.executed_qty s.cum_qty) ≡ st.executed_qty)
            × (fl.lt s.original_qty st.executed_qty ≡ false)
            × (fl.le (increment s st.executed_qty st.avg_px) fl.zero_f64 ≡ false))
      → ClosedAt (book s ev metadata) (
          if fl.lt fl.eps_f64 (fl.sub st.executed_qty s.cum_qty)
          then st.executed_qty
          else s.cum_qty)
  unfolding book reports_for reports_for_kind missing_fill missing_qty run
  book_terminal ieee s ev metadata st kind close live fits =
      let missing = fl.sub st.executed_qty s.cum_qty in
      let (report, is_closing, one) = close_reports-one {F = F} st.outcome ev.venue close in
      elim (Bool-cases (fl.lt fl.eps_f64 missing)) [
        | inr e ↦
            rw (kind, book)
              (rw (e, book)
                (rw (one, book)
                  (step_close s (uuid.to_text ev.order_id) (metadata 0) report is_closing)))
        | inl e ↦
            let (exact, room, price) = fits e in
            rw (kind, book)
              (rw (e, book)
                (rw (one, book)
                  (rw
                    (
                      step_fill s _ _ _ missing (increment s st.executed_qty st.avg_px) (metadata 0)
                          live (missing_positive ieee missing e) price (rw exact room),
                      run,
                    )
                    (subst_close exact (
                      step_close (after_fill s missing (increment s st.executed_qty st.avg_px))
                        (uuid.to_text ev.order_id) (metadata 1) report is_closing)))))
      ]
    where
      subst_close : {a : OrderAggregate F} {x y : F} → x ≡ y → ClosedAt a x → ClosedAt a y
      subst_close {a = a} e h = subst (λ q. ClosedAt a q) e h
