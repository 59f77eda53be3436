-- ===== src/OrderEntry/Routing/Outcomes.antt =====
-- What one pass of the routing loop may end in.
use openoms.Base.{
  ℕ, suc, ◌+◌, ◌^◌, ◌%◌, ◌<◌, ◌≡◌, refl, sym, ◌∙◌, ap, ◌⊎◌, inl, inr, true, false, String, Option,
  none, some, List, [], ◌∷◌, ◌++◌, Result, ok, err, ◌>>=◌, ◌==◌, Bool-cases, arith, unwrap_or,
}
use openoms.Float.{Float64}
use openoms.Orders.State.{OrderStatus, OrderAggregateState, is_terminal}
use openoms.Orders.Errors.{CommandRejection}
use openoms.Orders.Events.{OrderDomainEvent}
use openoms.Orders.Lifecycle.{ensure_command_allowed, kind}
use openoms.Orders.Aggregate.{EventMetadata, from_state}
use openoms.Orders.Aggregate.Decide.{decide, decide_command, decide_route, next_version}
use openoms.Orders.Aggregate.Apply.{apply_all}
use openoms.Orders.Aggregate.Commit.{decide-apply}
use openoms.EventStore.{ConcurrencyError, current_version, number_events, append_events}
use openoms.Execution.{Store, set_at, set_at-same}
use openoms.Execution.Conflicts.{IsConsistent, current_version-append}
use openoms.OrderEntry.Routing.{
  RouteResult, routed, terminal, not_submitted, AttemptError, concurrency, is_submitted,
  route_command, route_row, route_id, record_id, write_route, route_applied, route_decided,
  route_state, route_once,
}

module _ {F T : Type 0} where
  -- The order is routed: one event more, the row follows it, and the venue's id is on record.
  abbrev pub Routed : Store F T → String → String → OrderAggregateState F → Store F T → Type 0
  Routed now id ext state next =
      (current_version (now.streams id) ≡ state.version)
      × (c : IsConsistent next id) × (c.row.status ≡ OrderStatus.routed)
      × (next.external_order_ids id ≡ some ext)
      × ((e : OrderDomainEvent F T) × (next.streams id
            ≡ now.streams id ++ (record { version = suc state.version; event = e } ∷ [])))

  -- The order had moved on while it was routed: only the venue's id is stored, if there is none.
  abbrev pub Kept : Store F T → String → String → Store F T → Type 0
  Kept now id ext next =
      (next.rows ≡ now.rows)
      × (next.streams ≡ now.streams)
      × (next.external_order_ids id ≡ some (unwrap_or (now.external_order_ids id) ext))

  abbrev pub SubmittedOutcome :
      Store F T
      → String
      → String
      → OrderAggregateState F
      → Result (Store F T × RouteResult) AttemptError
      → Type 0
  SubmittedOutcome now id ext state result =
      ((current_version (now.streams id) == state.version ≡ false)
        × ((e : ConcurrencyError) × (result ≡ err (concurrency e))))
      ⊎ ((next : Store F T) × (result ≡ ok (next, routed)) × Routed now id ext state next)

  abbrev pub Outcome :
      Store F T
      → String
      → String
      → OrderAggregateState F
      → Result (Store F T × RouteResult) AttemptError
      → Type 0
  Outcome now id ext state result =
      ((is_terminal state.status ≡ true) × (result ≡ ok (now, terminal state.status)))
      ⊎ (((is_terminal state.status ≡ false)
            × (is_submitted state.status ≡ false)
            × ((next : Store F T) × (result ≡ ok (next, not_submitted)) × Kept now id ext next))
          ⊎ ((is_submitted state.status ≡ true) × SubmittedOutcome now id ext state result))

route_row-same :
    {F : Type 0} (row t : OrderAggregateState F) (v : ℕ)
    → row.version ≡ v
    → route_row (some row) v t ≡ some (record row { status = t.status; version = t.version })
unfolding route_row
route_row-same row t v h = ground (arith, h)

route_id-same :
    {F : Type 0} (row : OrderAggregateState F) (v : ℕ) (stored : Option String) (ext : String)
    → row.version ≡ v
    → route_id (some row) v stored ext ≡ some ext
unfolding route_id
route_id-same row v stored ext h = ground (arith, h)

record_id-some :
    {F : Type 0} (row : OrderAggregateState F) (stored : Option String) (ext : String)
    → record_id (some row) stored ext ≡ some (unwrap_or stored ext)
unfolding record_id
record_id-some row none ext = refl
record_id-some row (some s) ext = refl

is_submitted-eq : (s : OrderStatus) → is_submitted s ≡ true → s ≡ OrderStatus.submitted
unfolding is_submitted
is_submitted-eq OrderStatus.submitted h = refl
is_submitted-eq OrderStatus.routed h = absurd (cc)
is_submitted-eq _ h = absurd (cc)

module _ {F T : Type 0} ⦃fl : Float64 F⦄ (now : Store F T) (id venue ext : String)
    (c : IsConsistent now id) (state : OrderAggregateState F) (small : state.version < 2 ^ 62) where
  number_small : (state.version + 0 + 1) % 2 ^ 64 ≡ suc state.version
  number_small = omega (arith, small)

  next_small : next_version state.version ≡ suc state.version
  unfolding next_version
  next_small = omega (arith, small)

  write_route-Routed :
      (t : OrderAggregateState F) (e : OrderDomainEvent F T)
      → t.version ≡ suc state.version
      → t.status ≡ OrderStatus.routed
      → current_version (now.streams id) ≡ state.version
      → current_version (now.streams id) == state.version ≡ true
      → (next : Store F T) × (write_route now id ext state.version t (e ∷ []) ≡ ok next)
        × Routed now id ext state next
  unfolding write_route append_events number_events
  write_route-Routed t e version status current fresh =
      let stream = now.streams id ++ (record { version = suc state.version; event = e } ∷ []) in
      (
        record now {
          rows = set_at now.rows id (route_row (now.rows id) state.version t);
          external_order_ids =
              set_at now.external_order_ids id
                (route_id (now.rows id) state.version (now.external_order_ids id) ext);
          streams = set_at now.streams id stream;
        },
        rw (fresh, write_route) (rw number_small refl),
        (
          current,
          record {
            row = record c.row { status = t.status; version = t.version };
            row_at =
                set_at-same now.rows id (route_row (now.rows id) state.version t)
                ∙ ap (λ r. route_row r state.version t) c.row_at
                ∙ route_row-same c.row t state.version (sym c.version_at ∙ current);
            version_at =
                ap current_version (set_at-same now.streams id stream)
                ∙ current_version-append (now.streams id) _ (omega (arith, current))
                ∙ sym version;
          },
          status,
          set_at-same now.external_order_ids id _
              ∙ ap (λ r. route_id r state.version (now.external_order_ids id) ext) c.row_at
              ∙ route_id-same c.row state.version _ ext (sym c.version_at ∙ current),
          (e, set_at-same now.streams id stream),
        ),
      )

  decide-route :
      (m : EventMetadata T)
      → is_submitted state.status ≡ true
      → decide (from_state state) (route_command id venue ext) m
        ≡ decide_route state (record { order_id = id; venue = venue; external_order_id = ext }) m
  unfolding decide decide_command ensure_command_allowed kind from_state
  decide-route m h = rw (is_submitted-eq state.status h, decide) refl

  write_route-Outcome :
      (t : OrderAggregateState F) (e : OrderDomainEvent F T)
      → t.version ≡ suc state.version
      → t.status ≡ OrderStatus.routed
      → SubmittedOutcome now id ext state
          (write_route now id ext state.version t (e ∷ []) >>= λ next. ok (next, routed))
  unfolding write_route append_events
  write_route-Outcome t e version status =
      elim (Bool-cases (current_version (now.streams id) == state.version)) [
        | inl fresh ↦
            let (next, h, done) = write_route-Routed t e version status (the_version fresh) fresh in
            inr (next, ap (λ r. r >>= λ s. ok (s, routed)) h, done)
        | inr stale ↦ inl (
          stale,
          (
            record { expected = state.version; actual = current_version (now.streams id) },
            rw (stale, write_route) refl,
          ),
        )
      ]
    where
      the_version :
          current_version (now.streams id) == state.version ≡ true
          → current_version (now.streams id) ≡ state.version
      the_version h = ground (arith, h)

  decide-route_ok :
      (m : EventMetadata T)
      → is_submitted state.status ≡ true
      → (events : List (OrderDomainEvent F T)) × (decide
            (from_state state)
            (route_command id venue ext)
            m
          ≡ ok events)
  unfolding decide_route
  decide-route_ok m h = (_, decide-route m h)

  route_decided-Outcome :
      (m : EventMetadata T) (decision : Result (List (OrderDomainEvent F T)) CommandRejection)
      → decide (from_state state) (route_command id venue ext) m ≡ decision
      → is_submitted state.status ≡ true
      → SubmittedOutcome now id ext state (route_decided state now id ext decision)
  unfolding route_decided route_applied apply_all from_state
  route_decided-Outcome m (err r) decided h = let (_, good) = decide-route_ok m h in absurd (cc)
  route_decided-Outcome m (ok events) decided h =
      let (e, t, single, applied, _, same, next, effect) =
        decide-apply (from_state state) (route_command id venue ext) m decided in
      rw (single, route_decided)
        (rw (applied, route_decided)
          (write_route-Outcome t e (same ∙ next ∙ next_small) (ap (λ s. s.status) effect)))

  route_state-Outcome :
      (m : EventMetadata T) → Outcome now id ext state (route_state state now id venue ext m)
  unfolding route_state
  route_state-Outcome m = elim (Bool-cases (is_terminal state.status)) [
    | inl done ↦ inl (done, rw (done, route_state) refl)
    | inr live ↦ elim (Bool-cases (is_submitted state.status)) [
      | inl new ↦ inr (inr (new, rw (live, new, route_state) (route_decided-Outcome m _ refl new)))
      | inr moved ↦ inr (
          inl (
            live,
            moved,
            (
              record now {
                external_order_ids =
                    set_at now.external_order_ids id
                      (record_id (now.rows id) (now.external_order_ids id) ext);
              },
              rw (live, moved, route_state) refl,
              (
                refl,
                refl,
                set_at-same now.external_order_ids id _
                    ∙ ap (λ r. record_id r (now.external_order_ids id) ext) c.row_at
                    ∙ record_id-some c.row (now.external_order_ids id) ext,
              ),
            ),
          ))
    ]
  ]

module _ {F T : Type 0} ⦃fl : Float64 F⦄ where
  -- One pass of the loop that records a route, which read the order from `before` and writes to `now`
  -- while others commit: a closed order is left as it is; an order past submitted keeps row and
  -- stream and gets the venue's id, if it has none; and for a submitted order there is a conflict,
  -- because the stream has left the version read, or it gets one event, the status routed and the
  -- venue's id, with row and stream at the same version. The version read is below 2^62, and row and
  -- stream tell the same version when the pass writes.
  pub route_once-Outcome :
      (before now : Store F T) (id venue ext : String) (m : EventMetadata T)
      (state : OrderAggregateState F)
      → IsConsistent now id
      → before.rows id ≡ some state
      → state.version < 2 ^ 62
      → Outcome now id ext state (route_once before now id venue ext m)
  unfolding route_once
  route_once-Outcome before now id venue ext m state c h small =
      rw (h, route_once) (route_state-Outcome now id venue ext c state small m)
