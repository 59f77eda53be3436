-- ===== src/OrderEngine/Represents.antt =====
-- One report on the store and on the aggregate: the row and the stream follow the aggregate.
use openoms.Base.{
  ℕ, suc, ◌+◌, ◌^◌, ◌%◌, ◌<◌, ◌≡◌, refl, sym, ◌∙◌, ap, inl, inr, true, String, none, some, List, [],
  ◌∷◌, ◌++◌, map, Result, ok, err, ◌==◌, Bool-cases, arith, subst, map_option,
}
use mathlib.Core.List.{append-nil}
use openoms.Float.{Float64}
use openoms.Orders.State.{OrderAggregateState, is_terminal, rejected}
use openoms.Orders.Errors.{CommandRejection}
use openoms.Orders.Events.{OrderDomainEvent}
use openoms.Orders.Commands.{ExecutionReport}
use openoms.Orders.Aggregate.{EventMetadata, OrderAggregate, from_state}
use openoms.Orders.Aggregate.Decide.{decide, next_version}
use openoms.Orders.Aggregate.Apply.{apply, apply_all}
use openoms.Orders.Aggregate.Effect.{ReportEffect, moved, closed, after_fill}
use openoms.Orders.Aggregate.Commit.{decide-apply}
use openoms.Orders.Aggregate.Run.{handle, step}
use openoms.Orders.Aggregate.Terminal.{step_terminal}
use openoms.EventStore.{StoredEvent, current_version, number_events, append_events}
use openoms.Execution.{
  Store, ApplyError, set_at, set_at-same, receive, update_row, persist_fills, write, write_applied,
  apply_events, apply_decided, apply_row, apply_once, attempts, process_execution_report,
}
use openoms.Execution.Conflicts.{current_version-append}

-- The rows of the stream that an aggregate's events become.
abbrev pub stored : {F T : Type 0} → List (OrderDomainEvent F T) → List (StoredEvent F T)
stored es = map (λ e. record { version = e.version; event = e }) es

-- The row of an order whose event was stored: the columns that `update_row` writes are read back as
-- NUMERIC gives them.
abbrev pub written_row :
    {F : Type 0} ⦃fl : Float64 F⦄ → OrderAggregateState F → OrderAggregateState F
written_row ⦃fl⦄ t = record t {
  leaves_qty = fl.to_numeric t.leaves_qty;
  cum_qty = fl.to_numeric t.cum_qty;
  avg_px = map_option fl.to_numeric t.avg_px;
}

module _ {F T : Type 0} where
  -- The store has the aggregate's state as the order's row, and the events of a log as its stream.
  abbrev pub Represents :
      Store F T → String → OrderAggregateState F → List (StoredEvent F T) → Type 0
  Represents store id s stream =
      (store.rows id ≡ some s)
      × (store.streams id ≡ stream)
      × (current_version stream ≡ s.version)
      × (s.resume_to_status ≡ none)

  -- The order as it is stored after a step; a step without an event stores nothing.
  abbrev pub kept :
      ⦃fl : Float64 F⦄
      → OrderAggregate F
      → OrderAggregate F × List (OrderDomainEvent F T)
      → OrderAggregate F
  kept before (after, []) = before
  kept before (after, e ∷ es) = record { state = map_option written_row after.state }

  -- What a step gives: the stored state and the events that it adds.
  abbrev pub Refines :
      ⦃fl : Float64 F⦄
      → String
      → OrderAggregateState F
      → List (StoredEvent F T)
      → OrderAggregate F × List (OrderDomainEvent F T)
      → Store F T
      → Type 0
  Refines id s stream r next =
      (t : OrderAggregateState F) × (kept (from_state s) r ≡ from_state t)
      × Represents next id t (stream ++ stored r.1)
      × (t.version < s.version + 2)

module _ {F : Type 0} ⦃fl : Float64 F⦄ (s : OrderAggregateState F)
    (resume : s.resume_to_status ≡ none) where
  update_row-same :
      (t : OrderAggregateState F)
      → update_row (some s) s.version t
        ≡ some (record s {
          status = t.status;
          leaves_qty = fl.to_numeric t.leaves_qty;
          cum_qty = fl.to_numeric t.cum_qty;
          avg_px = map_option fl.to_numeric t.avg_px;
          version = t.version;
        })
  unfolding update_row
  update_row-same t = rw (itself) refl
    where
      itself : s.version == s.version ≡ true
      itself = ground arith

  abbrev Columns : OrderAggregateState F → Type 0
  Columns t = (t.resume_to_status ≡ none) × (update_row (some s) s.version t ≡ some (written_row t))

  -- A report changes nothing of the row but the columns that the update writes, if the order has no
  -- status to resume.
  effect-Columns :
      (t : OrderAggregateState F) (report : ExecutionReport F) → ReportEffect s report t → Columns t
  effect-Columns t (ExecutionReport.reject _ _) effect = subst Columns (sym effect) (
    refl,
    update_row-same (moved s rejected)
        ∙ ap (λ r. some (record (written_row (moved s rejected)) { resume_to_status = r })) resume,
  )
  effect-Columns t (ExecutionReport.canceled _ _) effect = subst Columns (sym effect) (
    refl,
    update_row-same (closed s)
        ∙ ap (λ r. some (record (written_row (closed s)) { resume_to_status = r })) resume,
  )
  effect-Columns t (ExecutionReport.fill _ qty price _) (_, _, _, effect) =
      subst Columns (sym effect) (resume, update_row-same (after_fill s qty price))

module _ {F T : Type 0} ⦃fl : Float64 F⦄ (store : Store F T) (id : String)
    (s : OrderAggregateState F) (stream : List (StoredEvent F T))
    (there : Represents store id s stream) (small : s.version < 2 ^ 62) where
  number_small : (s.version + 0 + 1) % 2 ^ 64 ≡ suc s.version
  number_small = omega (arith, small)

  next_small : next_version s.version ≡ suc s.version
  unfolding next_version
  next_small = omega (arith, small)

  unchanged :
      (r : OrderAggregate F × List (OrderDomainEvent F T))
      → r ≡ (from_state s, [])
      → Refines id s stream r store
  unchanged r h =
      subst (λ r. Refines id s stream r store) (sym h)
        (
          s,
          refl,
          (
            there.0,
            there.1 ∙ sym (append-nil stream),
            ap current_version (append-nil stream) ∙ there.2,
            there.3,
          ),
          omega arith,
        )

  -- The write of one event that the aggregate decided on.
  written :
      (t : OrderAggregateState F) (e : OrderDomainEvent F T)
      → t.version ≡ suc s.version
      → e.version ≡ suc s.version
      → t.resume_to_status ≡ none
      → update_row (some s) s.version t ≡ some (written_row t)
      → (next : Store F T) × (write store id s.version t (e ∷ []) ≡ ok next)
        × Represents next id
            (written_row t)
            (stream ++ (record { version = e.version; event = e } ∷ []))
  unfolding write append_events number_events
  written t e version e_version resume columns =
      let event : StoredEvent F T = record { version = suc s.version; event = e } in
      let grown = store.streams id ++ (event ∷ []) in
      (
        record store {
          rows = set_at store.rows id (update_row (store.rows id) s.version t);
          streams = set_at store.streams id grown;
          positions = persist_fills t (e ∷ []) store.positions;
        },
        rw (fresh, write) (rw number_small refl),
        (
          set_at-same store.rows id _ ∙ ap (λ r. update_row r s.version t) there.0 ∙ columns,
          set_at-same store.streams id grown ∙ ap (λ es. es ++ (event ∷ [])) there.1 ∙ same_event,
          ap current_version (sym same_event)
              ∙ current_version-append stream event (omega (arith, there.2))
              ∙ sym version,
          resume,
        ),
      )
    where
      fresh : current_version (store.streams id) == s.version ≡ true
      fresh = is_same (ap current_version there.1 ∙ there.2)
        where
          is_same : {a b : ℕ} → a ≡ b → a == b ≡ true
          is_same h = ground (arith, h)

      same_event :
          stream ++ (record { version = suc s.version; event = e } ∷ [])
          ≡ stream ++ (record { version = e.version; event = e } ∷ [])
      same_event = ap (λ v. stream ++ (record { version = v; event = e } ∷ [])) (sym e_version)

  abbrev pub After : ExecutionReport F → EventMetadata T → Result (Store F T) ApplyError → Type 0
  After report m result =
      (next : Store F T) × (result ≡ ok next)
      × Refines id s stream (step (from_state s) (receive id report, m)) next

  decided_event :
      (report : ExecutionReport F) (m : EventMetadata T) (e : OrderDomainEvent F T)
      (t : OrderAggregateState F)
      → decide (from_state s) (receive id report) m ≡ ok (e ∷ [])
      → apply (from_state s) e ≡ ok (from_state t)
      → t.version ≡ e.version
      → e.version ≡ next_version s.version
      → ReportEffect s report t
      → After report m (apply_decided s store id (ok (e ∷ [])))
  unfolding apply_decided apply_events apply_all write_applied from_state step handle
  decided_event report m e t h applied same next effect =
      let version = next ∙ next_small in
      let (resume, columns) = effect-Columns s there.3 t report effect in
      let (after, wrote, represents) = written t e (same ∙ version) version resume columns in
      let stepped : step (from_state s) (receive id report, m) ≡ (from_state t, e ∷ []) =
        rw (h, step, handle) (rw (applied, step, handle) refl) in
      (
        after,
        rw (applied, apply_decided) wrote,
        subst (λ r. Refines id s stream r after) (sym stepped)
            (written_row t, refl, represents, omega (arith, same, version)),
      )

  decided :
      (report : ExecutionReport F) (m : EventMetadata T)
      (decision : Result (List (OrderDomainEvent F T)) CommandRejection)
      → decide (from_state s) (receive id report) m ≡ decision
      → After report m (apply_decided s store id decision)
  unfolding apply_decided step handle from_state
  decided report m (err r) h = (store, refl, unchanged _ (rw (h, step, handle) refl))
  decided report m (ok events) h =
      let (e, t, single, applied, _, same, next, effect) =
        decide-apply (from_state s) (receive id report) m h in
      subst (λ es. After report m (apply_decided s store id (ok es))) (sym single)
        (decided_event report m e t (h ∙ ap ok single) applied same next effect)

  once :
      (report : ExecutionReport F) (m : EventMetadata T)
      → After report m (apply_once store store id report m)
  unfolding apply_once apply_row
  once report m = elim (Bool-cases (is_terminal s.status)) [
    | inl done ↦ (
      store,
      rw (there.0, apply_once) (rw (done, apply_row) refl),
      unchanged _ (step_terminal s (receive id report) m done),
    )
    | inr live ↦
        let (next, h, refines) = decided report m _ refl in
        (next, rw (there.0, apply_once) (rw (live, apply_row) h), refines)
  ]

  pub processed :
      (report : ExecutionReport F) (metadata : ℕ → EventMetadata T)
      → After report
          (metadata 1)
          (process_execution_report (λ _. (store, store)) id report metadata)
  unfolding process_execution_report attempts
  processed report metadata =
      let (next, h, refines) = once report (metadata 1) in (next, rw (h, attempts) refl, refines)
