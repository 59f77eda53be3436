-- ===== src/OrderEntry/Cancel/Outcomes.antt =====
-- What a cancel may end in.
use openoms.Base.{
  ℕ, suc, ◌+◌, ◌^◌, ◌%◌, ◌<◌, ◌≡◌, refl, sym, ◌∙◌, ap, ◌⊎◌, inl, inr, true, false, String, Option,
  none, some, List, [], ◌∷◌, ◌++◌, Result, ok, err, ◌==◌, Bool-cases, arith, ◌<>◌,
}
use openoms.Float.{Float64}
use openoms.Orders.State.{
  OrderStatus, submitted, routed, partially_filled, filled, rejected, canceled, expired, suspended,
  OrderAggregateState, is_terminal, status_as_str,
}
use openoms.Orders.Errors.{CommandRejection}
use openoms.Orders.Events.{OrderDomainEvent}
use openoms.Orders.Lifecycle.{
  cancel_order, ensure_command_allowed, ensure_allowed_live, allowed_kinds_for_status, kind,
}
use openoms.Orders.Aggregate.{EventMetadata, from_state}
use openoms.Orders.Aggregate.Decide.{decide, decide_command, decide_cancel, next_version}
use openoms.Orders.Aggregate.Apply.{apply_all}
use openoms.Orders.Aggregate.Commit.{decide-apply}
use openoms.EventStore.{current_version, number_events, append_events}
use openoms.Handlers.{StatusCode, ApiError, answer}
use openoms.Execution.{Store, set_at, set_at-same}
use openoms.Execution.Conflicts.{IsConsistent, current_version-append}
use openoms.OrderEntry.Cancel.Requests.{BrokerOutcome, request-Outcome}
use openoms.OrderEntry.Cancel.{
  CancelOutcome, Brokers, is_done, cancel_command, cancel_row, write_cancel, cancel_applied,
  cancel_decided, cancel_live, cancel,
}

-- What the row becomes: the open quantity stays.
abbrev pub canceled_row : {F : Type 0} → OrderAggregateState F → ℕ → OrderAggregateState F
canceled_row row version = record row {
  status = canceled;
  resume_to_status = none;
  version = version;
}

module _ {F T : Type 0} where
  -- Canceled in the store: one event more, and the row follows it.
  abbrev pub CanceledHere : Store F T → String → OrderAggregateState F → ℕ → Store F T → Type 0
  CanceledHere now id row version next =
      (next.rows id ≡ some (canceled_row row version))
      × (current_version (next.streams id) ≡ version)
      × ((e : OrderDomainEvent F T) × (e.status_after ≡ canceled)
          × (next.streams id ≡ now.streams id ++ (record { version = version; event = e } ∷ [])))

  -- An order that no broker has: another transaction was first, or it is canceled.
  abbrev pub LocalOutcome :
      Store F T
      → String
      → OrderAggregateState F
      → OrderAggregateState F
      → Result (Store F T × CancelOutcome) ApiError
      → Type 0
  LocalOutcome now id row state result =
      ((row.version == state.version ≡ false)
        × (result ≡ err (answer StatusCode.conflict "order state version mismatch")))
      ⊎ ((row.version ≡ state.version)
          × ((next : Store F T) × (result ≡ ok (next, CancelOutcome.canceled))
              × CanceledHere now id row (suc state.version) next))

  abbrev pub Outcome :
      Brokers
      → Option String
      → Store F T
      → String
      → OrderAggregateState F
      → OrderAggregateState F
      → Result (Store F T × CancelOutcome) ApiError
      → Type 0
  Outcome brokers (some ext) now id row state result = BrokerOutcome brokers id ext state now result
  Outcome brokers none now id row state result = LocalOutcome now id row state result

-- The texts that end an order are those of the terminal statuses.
is_done-as_str : (s : OrderStatus) → is_done (status_as_str s) ≡ is_terminal s
unfolding is_done status_as_str is_terminal
is_done-as_str submitted = refl
is_done-as_str routed = refl
is_done-as_str partially_filled = refl
is_done-as_str filled = refl
is_done-as_str rejected = refl
is_done-as_str canceled = refl
is_done-as_str expired = refl
is_done-as_str suspended = refl

-- A live order may be canceled.
cancel_allowed :
    (s : OrderStatus) → is_terminal s ≡ false → ensure_command_allowed (some s) cancel_order ≡ ok tt
unfolding ensure_command_allowed ensure_allowed_live allowed_kinds_for_status
cancel_allowed submitted h = refl
cancel_allowed routed h = refl
cancel_allowed partially_filled h = refl
cancel_allowed suspended h = refl
cancel_allowed filled h = absurd (cc)
cancel_allowed rejected h = absurd (cc)
cancel_allowed canceled h = absurd (cc)
cancel_allowed expired h = absurd (cc)

cancel_row-same :
    {F : Type 0} (row t : OrderAggregateState F) (v : ℕ)
    → row.version == v ≡ true
    → t.status ≡ canceled
    → t.resume_to_status ≡ none
    → t.version ≡ suc v
    → cancel_row (some row) v t ≡ some (canceled_row row (suc v))
unfolding cancel_row
cancel_row-same row t v h status resume version =
    rw (h, cancel_row) (rw (status, resume, version) refl)

cancel_row-stale :
    {F : Type 0} (row t : OrderAggregateState F) (v : ℕ)
    → row.version == v ≡ false
    → cancel_row (some row) v t ≡ none
unfolding cancel_row
cancel_row-stale row t v h = rw (h, cancel_row) refl

module _ {F T : Type 0} ⦃fl : Float64 F⦄ (now : Store F T) (id : String) (reason : Option String)
    (c : IsConsistent now id) (state : OrderAggregateState F) (small : state.version < 2 ^ 62) where
  number_small : (state.version + 0 + 1) % 2 ^ 64 ≡ suc state.version
  number_small = omega (arith, small)

  next_small : next_version state.version ≡ suc state.version
  unfolding next_version
  next_small = omega (arith, small)

  write_cancel-Outcome :
      (t : OrderAggregateState F) (e : OrderDomainEvent F T)
      → t.version ≡ suc state.version
      → t.status ≡ canceled
      → t.resume_to_status ≡ none
      → e.status_after ≡ canceled
      → LocalOutcome now id c.row state (write_cancel now id state.version t (e ∷ []))
  unfolding write_cancel append_events number_events
  write_cancel-Outcome t e version status resume after =
      elim (Bool-cases (c.row.version == state.version)) [
        | inr stale ↦ inl (
          stale,
          rw (c.row_at, write_cancel)
              (rw (cancel_row-stale c.row t state.version stale, write_cancel) refl),
        )
        | inl fresh ↦
            let same = the_version fresh in
            let stream =
              now.streams id ++ (record { version = suc state.version; event = e } ∷ []) in
            inr (
              same,
              (
                record now {
                  rows = set_at now.rows id (some (canceled_row c.row (suc state.version)));
                  streams = set_at now.streams id stream;
                },
                rw (c.row_at, write_cancel)
                    (rw
                      (
                        cancel_row-same c.row t state.version fresh status resume version,
                        write_cancel,
                      )
                      (rw (c.version_at, write_cancel)
                        (rw (fresh, write_cancel) (rw number_small refl)))),
                (
                  set_at-same now.rows id _,
                  ap current_version (set_at-same now.streams id stream)
                      ∙ current_version-append (now.streams id) _
                          (omega (arith, c.version_at, same)),
                  (e, after, set_at-same now.streams id stream),
                ),
              ),
            )
      ]
    where
      the_version : c.row.version == state.version ≡ true → c.row.version ≡ state.version
      the_version h = ground (arith, h)

  decide-cancel :
      (m : EventMetadata T)
      → is_terminal state.status ≡ false
      → decide (from_state state) (cancel_command id reason) m
        ≡ decide_cancel state (record { order_id = id; reason = reason }) m
  unfolding decide decide_command kind from_state
  decide-cancel m h = rw (cancel_allowed state.status h, decide) refl

  decide-cancel_ok :
      (m : EventMetadata T)
      → is_terminal state.status ≡ false
      → (events : List (OrderDomainEvent F T)) × (decide
            (from_state state)
            (cancel_command id reason)
            m
          ≡ ok events)
  unfolding decide_cancel
  decide-cancel_ok m h = (_, decide-cancel m h)

  cancel_decided-Outcome :
      (m : EventMetadata T) (decision : Result (List (OrderDomainEvent F T)) CommandRejection)
      → decide (from_state state) (cancel_command id reason) m ≡ decision
      → is_terminal state.status ≡ false
      → LocalOutcome now id c.row state (cancel_decided state now id decision)
  unfolding cancel_decided cancel_applied apply_all from_state
  cancel_decided-Outcome m (err r) decided h = let (_, good) = decide-cancel_ok m h in absurd (cc)
  cancel_decided-Outcome m (ok events) decided h =
      let (e, t, single, applied, status, same, next, effect) =
        decide-apply (from_state state) (cancel_command id reason) m decided in
      let closed_status = ap (λ s. s.status) effect in
      rw (single, cancel_decided)
        (rw (applied, cancel_decided)
          (write_cancel-Outcome t e (same ∙ next ∙ next_small) closed_status
            (ap (λ s. s.resume_to_status) effect) (sym status ∙ closed_status)))

  cancel_live-Outcome :
      (brokers : Brokers) (ext : Option String) (m : EventMetadata T)
      → is_terminal state.status ≡ false
      → Outcome brokers ext now id c.row state (cancel_live brokers ext state now id reason m)
  unfolding cancel_live
  cancel_live-Outcome brokers (some ext) m h = request-Outcome now id state brokers ext
  cancel_live-Outcome brokers none m h = cancel_decided-Outcome m _ refl h

module _ {F T : Type 0} ⦃fl : Float64 F⦄ where
  -- The cancel of a stored order, which is read from `before` and written to `now` while others
  -- commit. A closed order is refused. For a live order that a broker has, the adapter of its connection
  -- is asked to cancel it, by the broker's id and its symbol there, or the empty text if there is none;
  -- the cancel counts as requested, and the store does not change, exactly if the adapter takes it, and
  -- a missing connection, a missing adapter and a failed request are errors. A live order that no broker has is refused
  -- with a conflict if its row has left the version read, and else it is canceled: its row gets the
  -- status canceled, no status to resume and the next version, and keeps the rest, its open quantity
  -- too, and its stream gets one event of that version and status. The version read is below 2^62,
  -- and row and stream tell the same version when the cancel writes.
  pub cancel-Outcome :
      (brokers : Brokers) (before now : Store F T) (id : String) (reason : Option String)
      (m : EventMetadata T) (state : OrderAggregateState F) (c : IsConsistent now id)
      → before.rows id ≡ some state
      → state.version < 2 ^ 62
      → ((is_terminal state.status ≡ true)
          × (cancel brokers before now id reason m
              ≡ err (
                  answer StatusCode.unprocessable_entity (
                    "order is already terminal ("
                    <> (status_as_str state.status <> "); cannot cancel")))))
        ⊎ ((is_terminal state.status ≡ false)
            × Outcome brokers
                (before.external_order_ids id)
                now
                id
                c.row
                state
                (cancel brokers before now id reason m))
  unfolding cancel
  cancel-Outcome brokers before now id reason m state c h small =
      elim (Bool-cases (is_terminal state.status)) [
        | inl closed ↦ inl (
          closed,
          rw (h, cancel) (rw (is_done-as_str state.status, cancel) (rw (closed, cancel) refl)),
        )
        | inr live ↦ inr (
          live,
          rw (h, cancel)
              (rw (is_done-as_str state.status, cancel)
                (rw (live, cancel)
                  (cancel_live-Outcome now id reason c state small brokers
                    (before.external_order_ids id) m live))),
        )
      ]
