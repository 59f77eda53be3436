-- ===== src/Execution/Conflicts.antt =====
-- Optimistic concurrency: a report that was decided on a stale row is not written.
use openoms.Base.{
  ℕ, suc, ◌+◌, ◌^◌, ◌%◌, ◌<◌, ◌≡◌, refl, sym, ◌∙◌, ap, ◌⊎◌, inl, inr, true, false, String, Option,
  some, List, [], ◌∷◌, ◌++◌, Result, ok, err, ◌==◌, Bool-cases, arith, map_option,
}
use openoms.Float.{Float64}
use openoms.Orders.State.{OrderAggregateState, is_terminal}
use openoms.Orders.Errors.{CommandRejection}
use openoms.Orders.Events.{OrderDomainEvent}
use openoms.Orders.Commands.{ExecutionReport}
use openoms.Orders.Aggregate.{EventMetadata, from_state}
use openoms.Orders.Aggregate.Decide.{decide, next_version}
use openoms.Orders.Aggregate.Apply.{apply_all}
use openoms.Orders.Aggregate.Commit.{decide-apply}
use openoms.EventStore.{
  StoredEvent, ConcurrencyError, current_version, number_events, append_events,
}
use openoms.Execution.{
  Store, ApplyError, concurrency_retry, set_at, set_at-same, receive, update_row, persist_fills,
  write, write_applied, apply_events, apply_decided, apply_row, apply_once,
}

pub current_version-append :
    {F T : Type 0} (es : List (StoredEvent F T)) (e : StoredEvent F T)
    → current_version es < e.version
    → current_version (es ++ (e ∷ [])) ≡ e.version
unfolding current_version
current_version-append [] e h = ground (arith, h)
current_version-append (x ∷ es) e h = ground (arith, h, current_version-append es e)

module _ {F T : Type 0} where
  -- The order's row and its stream tell the same version.
  pub record IsConsistent (store : Store F T) (id : String) : Type 0 where
    pub row : OrderAggregateState F
    pub row_at : store.rows id ≡ some row
    pub version_at : current_version (store.streams id) ≡ row.version

  -- A row that is read and written in one state of the store has the stream's version.
  pub fresh_read :
      (store : Store F T) (id : String) (c : IsConsistent store id) (state : OrderAggregateState F)
      → store.rows id ≡ some state
      → current_version (store.streams id) == state.version ≡ false
      → ⊥
  fresh_read store id c state read stale = conflict_of c.row stale c.version_at read c.row_at
    where
      conflict_of :
          (row : OrderAggregateState F) {version : ℕ} {found : Option (OrderAggregateState F)}
          → version == state.version ≡ false
          → version ≡ row.version
          → found ≡ some state
          → found ≡ some row
          → ⊥
      conflict_of row stale at read written = ground (arith, stale, at, read, written)

  -- The event is added to the stream with the next version, and the row follows it.
  abbrev pub Written : Store F T → String → OrderAggregateState F → Store F T → Type 0
  Written now id state next =
      (current_version (now.streams id) ≡ state.version)
      × IsConsistent next id
      × (e : OrderDomainEvent F T) × (next.streams id
          ≡ now.streams id ++ (record { version = suc state.version; event = e } ∷ []))

  -- What an attempt that decided on `state` may end in: nothing to do, a conflict because the stream
  -- has moved on, or a write.
  abbrev pub Outcome :
      Store F T → String → OrderAggregateState F → Result (Store F T) ApplyError → Type 0
  Outcome now id state result =
      (result ≡ ok now)
      ⊎ (((current_version (now.streams id) == state.version ≡ false)
            × (e : ConcurrencyError) × (result ≡ err (concurrency_retry e)))
          ⊎ ((next : Store F T) × (result ≡ ok next) × Written now id state next))

updated :
    {F : Type 0} ⦃fl : Float64 F⦄
    → OrderAggregateState F
    → OrderAggregateState F
    → OrderAggregateState F
updated ⦃fl⦄ row new_state = record row {
  status = new_state.status;
  leaves_qty = fl.to_numeric new_state.leaves_qty;
  cum_qty = fl.to_numeric new_state.cum_qty;
  avg_px = map_option fl.to_numeric new_state.avg_px;
  version = new_state.version;
}

update_row-same :
    {F : Type 0} ⦃fl : Float64 F⦄ (row new_state : OrderAggregateState F) (v : ℕ)
    → row.version ≡ v
    → update_row (some row) v new_state ≡ some (updated row new_state)
unfolding update_row updated
update_row-same row new_state v h = ground (arith, h)

module _ {F T : Type 0} ⦃fl : Float64 F⦄ (now : Store F T) (id : String) (c : IsConsistent now id)
    (state : OrderAggregateState F) (small : state.version < 2 ^ 62) where
  next_small : next_version state.version ≡ suc state.version
  unfolding next_version
  next_small = omega (arith, small)

  number_small : (state.version + 0 + 1) % 2 ^ 64 ≡ suc state.version
  number_small = omega (arith, small)

  write-Outcome :
      (t : OrderAggregateState F) (e : OrderDomainEvent F T)
      → t.version ≡ suc state.version
      → Outcome now id state (write now id state.version t (e ∷ []))
  unfolding write append_events number_events updated
  write-Outcome t e version =
      elim (Bool-cases (current_version (now.streams id) == state.version)) [
        | inr stale ↦ inr (
            inl (
              stale,
              record { expected = state.version; actual = current_version (now.streams id) },
              rw (stale, write) refl,
            ))
        | inl fresh ↦
            let current = the_version fresh in
            let stream =
              now.streams id ++ (record { version = suc state.version; event = e } ∷ []) in
            inr (
              inr (
                record now {
                  rows = set_at now.rows id (update_row (now.rows id) state.version t);
                  streams = set_at now.streams id stream;
                  positions = persist_fills t (e ∷ []) now.positions;
                },
                rw (fresh, write) (rw number_small refl),
                (
                  current,
                  record {
                    row = updated c.row t;
                    row_at =
                        set_at-same now.rows id (update_row (now.rows id) state.version t)
                        ∙ ap (λ r. update_row r state.version t) c.row_at
                        ∙ update_row-same c.row t state.version (sym c.version_at ∙ current);
                    version_at =
                        ap current_version (set_at-same now.streams id stream)
                        ∙ current_version-append (now.streams id) _ (omega (arith, current))
                        ∙ sym version;
                  },
                  e,
                  set_at-same now.streams id stream,
                ),
              ))
      ]
    where
      the_version :
          current_version (now.streams id) == state.version ≡ true
          → current_version (now.streams id) ≡ state.version
      the_version h = ground (arith, h)

  apply_decided-Outcome :
      (report : ExecutionReport F) (m : EventMetadata T)
      (decision : Result (List (OrderDomainEvent F T)) CommandRejection)
      → decide (from_state state) (receive id report) m ≡ decision
      → Outcome now id state (apply_decided state now id decision)
  unfolding apply_decided apply_events apply_all write_applied from_state
  apply_decided-Outcome report m (err r) h = inl refl
  apply_decided-Outcome report m (ok events) h =
      let (e, t, single, applied, _, same, next, _) =
        decide-apply (from_state state) (receive id report) m h in
      rw (single, apply_decided)
        (rw (applied, apply_decided) (write-Outcome t e (same ∙ next ∙ next_small)))

  apply_row-Outcome :
      (report : ExecutionReport F) (m : EventMetadata T)
      → Outcome now id state (apply_row state now id report m)
  unfolding apply_row
  apply_row-Outcome report m = elim (Bool-cases (is_terminal state.status)) [
    | inl done ↦ inl (rw (done, apply_row) refl)
    | inr live ↦ rw (live, apply_row) (apply_decided-Outcome report m _ refl)
  ]

module _ {F T : Type 0} ⦃fl : Float64 F⦄ where
  -- A report that is decided on a row read earlier, while others commit, never fails otherwise than
  -- by a conflict: nothing is to be done, or the stream has left the version read and the attempt is
  -- to be repeated, or the stream is still at that version and gets exactly one event, with the next
  -- version, which the row has then too. The version read is below 2^62, and row and stream tell the
  -- same version when the attempt writes.
  pub apply_once-Outcome :
      (before now : Store F T) (id : String) (report : ExecutionReport F) (m : EventMetadata T)
      (state : OrderAggregateState F)
      → IsConsistent now id
      → before.rows id ≡ some state
      → state.version < 2 ^ 62
      → Outcome now id state (apply_once before now id report m)
  unfolding apply_once
  apply_once-Outcome before now id report m state c h small =
      rw (h, apply_once) (apply_row-Outcome now id c state small report m)
