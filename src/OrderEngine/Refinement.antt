-- ===== src/OrderEngine/Refinement.antt =====
-- The store refines the aggregate: what the engine writes is what the aggregate decides.
use openoms.Base.{
  ℕ, suc, ◌+◌, ◌^◌, ◌<◌, ◌≡◌, refl, sym, ◌∙◌, ap, true, false, String, none, some, List, [], ◌∷◌,
  ◌++◌, length, Bool, arith, subst,
}
use mathlib.Core.List.{append-nil, append_assoc}
use openoms.Float.{Float64}
use openoms.Orders.State.{OrderAggregateState}
use openoms.Orders.Events.{OrderDomainEvent}
use openoms.Orders.Commands.{ExecutionReport, OrderCommand}
use openoms.Orders.Aggregate.{EventMetadata, OrderAggregate, from_state}
use openoms.Orders.Aggregate.Run.{step}
use openoms.EventStore.{StoredEvent, current_version}
use openoms.Execution.{Store, receive}
use openoms.OrderEngine.Represents.{kept, stored, Represents, processed}
use openoms.Gateway.{Uuid, ExecKind, ExecEvent}
use openoms.OrderEngine.{needs_booked_state, reports_for, reports_for_kind}
use openoms.OrderEngine.Booking.{report_commands}
use openoms.OrderEngine.Stored.{oms_fill_state, apply_reports, apply_booked, apply_kind, apply_exec}

module _ {F T : Type 0} ⦃fl : Float64 F⦄ (id : String) (metadata : ℕ → ℕ → EventMetadata T) where
  -- The commands of the reports, with the metadata of their first attempts.
  abbrev pub commands : ℕ → List (ExecutionReport F) → List (OrderCommand F × EventMetadata T)
  commands n reports = report_commands id (λ n. metadata n 1) n reports

  -- The order as it is stored after the commands, where each finds what was stored after the one
  -- before it, and their events.
  abbrev pub run_kept :
      OrderAggregate F
      → List (OrderCommand F × EventMetadata T)
      → OrderAggregate F × List (OrderDomainEvent F T)
  run_kept a [] = (a, [])
  run_kept a (c ∷ cs) =
      let r = step a c in let (last, log) = run_kept (kept a r) cs in (last, r.1 ++ log)

  abbrev RunsTo :
      List (StoredEvent F T) → OrderAggregate F × List (OrderDomainEvent F T) → Store F T → Type 0
  RunsTo stream r next =
      (t : OrderAggregateState F) × (r.0 ≡ from_state t)
      × Represents next id t (stream ++ stored r.1)

  apply_reports-run :
      (store : Store F T) (s : OrderAggregateState F) (stream : List (StoredEvent F T))
      (reports : List (ExecutionReport F)) (n : ℕ)
      → Represents store id s stream
      → s.version + length reports < 2 ^ 62
      → RunsTo stream
          (run_kept (from_state s) (commands n reports))
          (apply_reports store id reports metadata n)
  unfolding apply_reports
  apply_reports-run store s stream [] n there small = (
    s,
    refl,
    (
      there.0,
      there.1 ∙ sym (append-nil stream),
      ap current_version (append-nil stream) ∙ there.2,
      there.3,
    ),
  )
  apply_reports-run store s stream (report ∷ reports) n there small =
      let (next, h, (t, state, represents, grows)) =
        processed store id s stream there (omega (arith, small)) report (metadata n) in
      let c : OrderCommand F × EventMetadata T = (receive id report, metadata n 1) in
      let r : OrderAggregate F × List (OrderDomainEvent F T) = step (from_state s) c in
      let rest = commands (suc n) reports in
      let (last, reached, after) =
        apply_reports-run next t (stream ++ stored r.1) reports (suc n) represents
          (omega (arith, small, grows)) in
      let stepped : apply_reports store id (report ∷ reports) metadata n
          ≡ apply_reports next id reports metadata (suc n) =
        rw (h, apply_reports) refl in
      (
        last,
        ap (λ a. (run_kept a rest).0) state ∙ reached,
        subst
            (λ x.
              Represents x id last
                (stream ++ stored (r.1 ++ (run_kept (kept (from_state s) r) rest).1)))
            (sym stepped)
            (subst (λ es. Represents (apply_reports next id reports metadata (suc n)) id last es)
              (regroup r.1 (run_kept (from_state t) rest).1
                ∙ ap (λ a. stream ++ stored (r.1 ++ (run_kept a rest).1)) (sym state))
              after),
      )
    where
      stored-append :
          (xs ys : List (OrderDomainEvent F T)) → stored (xs ++ ys) ≡ stored xs ++ stored ys
      stored-append [] ys = refl
      stored-append (x ∷ xs) ys =
          ap (λ l. record { version = x.version; event = x } ∷ l) (stored-append xs ys)

      regroup :
          (xs ys : List (OrderDomainEvent F T))
          → stream ++ stored xs ++ stored ys ≡ stream ++ stored (xs ++ ys)
      regroup xs ys =
          append_assoc stream (stored xs) (stored ys)
          ∙ ap (λ l. stream ++ l) (sym (stored-append xs ys))

abbrev pub is_ack : {F : Type 0} → ExecKind F → Bool
is_ack (ExecKind.ack _) = true
is_ack _ = false

module _ {F T Key : Type 0} ⦃fl : Float64 F⦄ ⦃uuid : Uuid Key⦄ (store : Store F T)
    (ev : ExecEvent F Key) (s : OrderAggregateState F)
    (there : store.rows (uuid.to_text ev.order_id) ≡ some s)
    (metadata : ℕ → ℕ → EventMetadata T) where
  abbrev booked_reports : Store F T
  booked_reports =
      apply_reports store (uuid.to_text ev.order_id) (reports_for ev s.cum_qty s.avg_px) metadata 0

  unread :
      (kind : ExecKind F)
      → reports_for_kind ev.venue (uuid.to_text ev.order_id) kind fl.zero_f64 none
        ≡ reports_for_kind ev.venue (uuid.to_text ev.order_id) kind s.cum_qty s.avg_px
      → ev.kind ≡ kind
      → apply_booked store ev (some (fl.zero_f64, none)) metadata ≡ booked_reports
  unfolding apply_booked reports_for
  unread kind same e =
      let id = uuid.to_text ev.order_id in
      ap (λ reports. apply_reports store id reports metadata 0)
        (ap (λ k. reports_for_kind ev.venue id k fl.zero_f64 none) e
          ∙ same
          ∙ sym (ap (λ k. reports_for_kind ev.venue id k s.cum_qty s.avg_px) e))

  booked : oms_fill_state store (uuid.to_text ev.order_id) ≡ some (s.cum_qty, s.avg_px)
  unfolding oms_fill_state
  booked = rw (there, oms_fill_state) refl

  apply_kind-reports :
      (kind : ExecKind F)
      → is_ack kind ≡ false
      → ev.kind ≡ kind
      → apply_kind store ev kind metadata ≡ booked_reports
  unfolding apply_kind needs_booked_state apply_booked reports_for_kind
  apply_kind-reports (ExecKind.ack _) h e = absurd (cc)
  apply_kind-reports (ExecKind.fill x q p) h e = unread (ExecKind.fill x q p) refl e
  apply_kind-reports (ExecKind.canceled r) h e = unread (ExecKind.canceled r) refl e
  apply_kind-reports (ExecKind.rejected r) h e = unread (ExecKind.rejected r) refl e
  apply_kind-reports (ExecKind.cumulative c p) h e =
      ap (λ b. apply_booked store ev b metadata) booked
  apply_kind-reports (ExecKind.terminal st) h e = ap (λ b. apply_booked store ev b metadata) booked

module _ {F T Key : Type 0} ⦃fl : Float64 F⦄ ⦃uuid : Uuid Key⦄ where
  -- The commands of an event's reports on the order as it is stored.
  abbrev pub book_kept :
      OrderAggregateState F
      → ExecEvent F Key
      → (ℕ → ℕ → EventMetadata T)
      → OrderAggregate F × List (OrderDomainEvent F T)
  book_kept s ev metadata =
      let id = uuid.to_text ev.order_id in
      run_kept id metadata (from_state s)
        (commands id metadata 0 (reports_for ev s.cum_qty s.avg_px))

  -- The engine's booking of an event, but for a venue's acknowledgement, refines the aggregate: while
  -- nothing else commits, each report of the event is decided and applied on the order as it is
  -- stored, and what it leads to is stored with its quantities and its price as the NUMERIC columns
  -- give them back; the row becomes the order after the last report, and the stream grows by exactly
  -- the events of all of them, with their versions and their exact numbers. The row, which has no
  -- status to resume, and the stream tell one version before, and the versions stay below 2^62.
  pub apply_exec-book :
      (store : Store F T) (ev : ExecEvent F Key) (metadata : ℕ → ℕ → EventMetadata T)
      (s : OrderAggregateState F) (stream : List (StoredEvent F T))
      → Represents store (uuid.to_text ev.order_id) s stream
      → is_ack ev.kind ≡ false
      → s.version + length (reports_for ev s.cum_qty s.avg_px) < 2 ^ 62
      → (t : OrderAggregateState F) × ((book_kept s ev metadata).0 ≡ from_state t)
        × Represents
            (apply_exec store ev metadata)
            (uuid.to_text ev.order_id)
            t
            (stream ++ stored (book_kept s ev metadata).1)
  unfolding apply_exec
  apply_exec-book store ev metadata s stream there kind small =
      let id = uuid.to_text ev.order_id in
      let reports = reports_for ev s.cum_qty s.avg_px in
      let (t, reached, after) =
        apply_reports-run id metadata store s stream reports 0 there small in
      (
        t,
        reached,
        subst (λ x. Represents x id t (stream ++ stored (book_kept s ev metadata).1))
            (sym (apply_kind-reports store ev s there.0 metadata ev.kind kind refl)) after,
      )
