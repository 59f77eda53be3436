-- ===== src/OrderEngine/Stored.antt =====
-- src/order_engine.rs: `apply_exec` on the store, while nothing else commits to it.
use openoms.Base.{ℕ, suc, String, Option, none, some, List, [], ◌∷◌, ok, err, if◌then◌else◌}
use openoms.Float.{Float64}
use openoms.Orders.Commands.{ExecutionReport}
use openoms.Orders.Aggregate.{EventMetadata}
use openoms.Gateway.{Uuid, ExecKind, ExecEvent}
use openoms.Execution.{Store, process_execution_report}
use openoms.OrderEntry.Routing.{persist_routed}
use openoms.OrderEngine.{needs_booked_state, reports_for}

module _ {F T : Type 0} where
  -- What is booked: the order's columns, or nothing for an order that the OMS does not have.
  unfoldable pub oms_fill_state : Store F T → String → Option (F × Option F)
  oms_fill_state store order_id = elim (store.rows order_id) [
    | none ↦ none
    | some row ↦ some (row.cum_qty, row.avg_px)
  ]

module _ {F T : Type 0} ⦃fl : Float64 F⦄ where
  -- A report that fails is logged, and the next one follows. Each report and each of its attempts has
  -- metadata of its own.
  unfoldable pub apply_reports :
      Store F T → String → List (ExecutionReport F) → (ℕ → ℕ → EventMetadata T) → ℕ → Store F T
  unfolding process_execution_report
  apply_reports store order_id [] metadata n = store
  apply_reports store order_id (report ∷ reports) metadata n =
      elim (process_execution_report (λ _. (store, store)) order_id report (metadata n)) [
        | ok next ↦ apply_reports next order_id reports metadata (suc n)
        | err _ ↦ apply_reports store order_id reports metadata (suc n)
      ]

module _ {F T Key : Type 0} ⦃fl : Float64 F⦄ ⦃uuid : Uuid Key⦄ where
  unfoldable pub apply_booked :
      Store F T → ExecEvent F Key → Option (F × Option F) → (ℕ → ℕ → EventMetadata T) → Store F T
  unfolding reports_for apply_reports
  apply_booked store ev none metadata = store
  apply_booked store ev (some (booked_cum, booked_avg)) metadata =
      apply_reports store (uuid.to_text ev.order_id) (reports_for ev booked_cum booked_avg) metadata
        0

  unfoldable pub apply_routed :
      Store F T → ExecEvent F Key → String → (ℕ → EventMetadata T) → Store F T
  unfolding persist_routed
  apply_routed store ev venue_order_id metadata =
      elim (persist_routed (λ _. (store, store)) (uuid.to_text ev.order_id) ev.venue venue_order_id
        metadata) [ ok (next, _) ↦ next | err _ ↦ store ]

  unfoldable pub apply_kind :
      Store F T → ExecEvent F Key → ExecKind F → (ℕ → ℕ → EventMetadata T) → Store F T
  unfolding apply_routed apply_booked oms_fill_state needs_booked_state
  apply_kind store ev (ExecKind.ack venue_order_id) metadata =
      apply_routed store ev venue_order_id (metadata 0)
  apply_kind store ev kind metadata =
      apply_booked store ev
        (if needs_booked_state kind
          then oms_fill_state store (uuid.to_text ev.order_id)
          else some (fl.zero_f64, none))
        metadata

  unfoldable pub apply_exec : Store F T → ExecEvent F Key → (ℕ → ℕ → EventMetadata T) → Store F T
  unfolding apply_kind
  apply_exec store ev metadata = apply_kind store ev ev.kind metadata
