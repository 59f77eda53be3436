-- ===== src/Orders/Aggregate/Commit.antt =====
-- Deciding and applying together: what an accepted command does to the order.
use openoms.Base.{
  ok_or-eq-ok, subst, sym, ℕ, ◌≡◌, refl, inl, inr, Option, none, some, List, [], ◌∷◌, ok, check-ok,
  ◌||◌, unwrap_or, String, ok_or, OnOk, OnOk-guard, OnOk-bind, OnOk-ok, map_option, Bool-cases,
}
use openoms.Float.{Float64}
use openoms.Orders.State.{OrderAggregateState}
use openoms.Orders.Events.{OrderDomainEvent}
use openoms.Orders.Commands.{
  SubmitOrder, ReplaceOrder, CancelOrder, SuspendOrder, ReleaseOrder, RouteOrder, ExpireOrder,
  ReceiveExecutionReport, ExecutionReport, OrderCommand,
}
use openoms.Orders.Lifecycle.{kind, ensure_command_allowed}
use openoms.Orders.Invariants.{validate_submit}
use openoms.Orders.Aggregate.{EventMetadata, OrderAggregate, from_state}
use openoms.Orders.Aggregate.Decide.{
  next_version, fill_event, is_bad_price, decide_submit, decide_route, decide_replace,
  decide_cancel, decide_suspend, decide_release, decide_report, decide_expire, decide_command,
  decide,
}
use openoms.Orders.Aggregate.Effect.{Effect, ReportEffect, leaves_some, after_fill}
use openoms.Orders.Aggregate.Apply.{apply_payload, apply}

-- The version that the next event of an order has.
abbrev pub version_after : {F : Type 0} → Option (OrderAggregateState F) → ℕ
version_after none = 1
version_after (some s) = next_version s.version

module _ {F T : Type 0} ⦃fl : Float64 F⦄ where
  -- One event, which applies to the state, has the specified effect, and whose envelope tells the
  -- new status and version.
  abbrev pub Commits :
      Option (OrderAggregateState F) → OrderCommand F → List (OrderDomainEvent F T) → Type 0
  Commits state c events =
      (e : OrderDomainEvent F T) × (s : OrderAggregateState F) × (events ≡ e ∷ [])
      × (apply_payload state e.order_id e.version e.status_after e.payload ≡ ok s)
      × (s.status ≡ e.status_after)
      × (s.version ≡ e.version)
      × (e.version ≡ version_after state)
      × Effect state c s

  decide_submit-Commits :
      (c : SubmitOrder F) (m : EventMetadata T)
      → OnOk (Commits none (OrderCommand.submit_order c)) (decide_submit c m)
  unfolding decide_submit apply_payload
  decide_submit-Commits c m =
      OnOk-bind (validate_submit c.quantity c.order_type c.limit_price) _
        (λ _ h. OnOk-ok _ (_, _, refl, refl, refl, refl, refl, (h, refl)))

  module _ (s : OrderAggregateState F) (m : EventMetadata T) where
    decide_route-Commits :
        (c : RouteOrder) → OnOk (Commits (some s) (OrderCommand.route_order c)) (decide_route s c m)
    unfolding decide_route apply_payload
    decide_route-Commits c = OnOk-ok _ (_, _, refl, refl, refl, refl, refl, refl)

    decide_replace-Commits :
        (c : ReplaceOrder F)
        → OnOk (Commits (some s) (OrderCommand.replace_order c)) (decide_replace s c m)
    unfolding decide_replace apply_payload
    decide_replace-Commits c =
        let qty = unwrap_or c.new_quantity s.original_qty in
        OnOk-guard (fl.le qty fl.zero_f64 || fl.lt qty s.cum_qty) _ _ λ q.
          OnOk-guard (is_bad_price c.new_limit_price) _ _
            λ p. OnOk-ok _ (_, _, refl, refl, refl, refl, refl, (q, p, refl))

    decide_cancel-Commits :
        (c : CancelOrder)
        → OnOk (Commits (some s) (OrderCommand.cancel_order c)) (decide_cancel s c m)
    unfolding decide_cancel apply_payload
    decide_cancel-Commits c = OnOk-ok _ (_, _, refl, refl, refl, refl, refl, refl)

    decide_suspend-Commits :
        (c : SuspendOrder)
        → OnOk (Commits (some s) (OrderCommand.suspend_order c)) (decide_suspend s c m)
    unfolding decide_suspend apply_payload
    decide_suspend-Commits c = OnOk-ok _ (_, _, refl, refl, refl, refl, refl, refl)

    decide_release-Commits :
        (c : ReleaseOrder)
        → OnOk (Commits (some s) (OrderCommand.release_order c)) (decide_release s c m)
    unfolding decide_release apply_payload
    decide_release-Commits c = OnOk-bind (ok_or s.resume_to_status _) _ λ r h.
        OnOk-ok _
          (_, _, refl, refl, refl, refl, refl, (r, ok_or-eq-ok s.resume_to_status _ h, refl))

    decide_expire-Commits :
        (c : ExpireOrder)
        → OnOk (Commits (some s) (OrderCommand.expire_order c)) (decide_expire s c m)
    unfolding decide_expire apply_payload
    decide_expire-Commits c = OnOk-ok _ (_, _, refl, refl, refl, refl, refl, refl)

    -- What `Commits` says of a fill, but for the guards.
    pub fill_event-applies :
        (id x venue : String) (qty price : F)
        → let e = fill_event s id x qty price venue m in
          (t : OrderAggregateState F) × (apply_payload
              (some s)
              e.order_id
              e.version
              e.status_after
              e.payload
            ≡ ok t)
          × (t.status ≡ e.status_after)
          × (t.version ≡ e.version)
          × (e.version ≡ next_version s.version)
          × (t ≡ after_fill s qty price)
    unfolding fill_event apply_payload
    fill_event-applies id x venue qty price = elim (Bool-cases (leaves_some s qty)) [
      | inl part ↦ rw (part, fill_event) (_, refl, refl, refl, refl, refl)
      | inr all ↦ rw (all, fill_event) (_, refl, refl, refl, refl, refl)
    ]

    decide_report-Commits :
        (c : ReceiveExecutionReport F) (r : ExecutionReport F)
        → c.report ≡ r
        → OnOk
            (Commits (some s) (OrderCommand.receive_execution_report c))
            (decide_report s c.order_id r m)
    unfolding decide_report apply_payload
    decide_report-Commits c (ExecutionReport.reject reason venue) h =
        OnOk-ok _ (_, _, refl, refl, refl, refl, refl, rw h)
    decide_report-Commits c (ExecutionReport.canceled reason venue) h =
        OnOk-ok _ (_, _, refl, refl, refl, refl, refl, rw h)
    decide_report-Commits c (ExecutionReport.fill x qty price venue) h =
        OnOk-guard (fl.le qty fl.zero_f64) _ _ λ q. OnOk-guard (fl.le price fl.zero_f64) _ _ λ p.
          OnOk-guard (fl.lt s.original_qty (fl.add s.cum_qty qty)) _ _ λ room.
            let (t, applied, status, version, next, effect) =
              fill_event-applies c.order_id x venue qty price in
            OnOk-ok _ (
              _,
              t,
              refl,
              applied,
              status,
              version,
              next,
              subst (λ r. ReportEffect s r t) (sym h) (q, p, room, effect),
            )

  -- Only a missing order takes a submit, and only an existing one takes anything else.
  decide_command-Commits :
      (state : Option (OrderAggregateState F)) (c : OrderCommand F) (m : EventMetadata T)
      → ensure_command_allowed (map_option (λ s. s.status) state) (kind c) ≡ ok tt
      → OnOk (Commits state c) (decide_command state c m)
  unfolding decide_command ensure_command_allowed kind
  decide_command-Commits none (OrderCommand.submit_order c) m h = decide_submit-Commits c m
  decide_command-Commits none _ m h = absurd (cc)
  decide_command-Commits (some s) (OrderCommand.submit_order c) m h = absurd (cc)
  decide_command-Commits (some s) (OrderCommand.route_order c) m h = decide_route-Commits s m c
  decide_command-Commits (some s) (OrderCommand.replace_order c) m h = decide_replace-Commits s m c
  decide_command-Commits (some s) (OrderCommand.cancel_order c) m h = decide_cancel-Commits s m c
  decide_command-Commits (some s) (OrderCommand.suspend_order c) m h = decide_suspend-Commits s m c
  decide_command-Commits (some s) (OrderCommand.release_order c) m h = decide_release-Commits s m c
  decide_command-Commits (some s) (OrderCommand.receive_execution_report c) m h =
      decide_report-Commits s m c c.report refl
  decide_command-Commits (some s) (OrderCommand.expire_order c) m h = decide_expire-Commits s m c

  decide-Commits :
      (a : OrderAggregate F) (c : OrderCommand F) (m : EventMetadata T)
      → OnOk (Commits a.state c) (decide a c m)
  unfolding decide
  decide-Commits a c m =
      OnOk-bind (ensure_command_allowed (map_option (λ s. s.status) a.state) (kind c)) _
        λ b h. decide_command-Commits a.state c m h

  -- One event, and the state that applying it gives.
  abbrev pub Accepted : OrderAggregate F → OrderCommand F → List (OrderDomainEvent F T) → Type 0
  Accepted a c events =
      (e : OrderDomainEvent F T) × (s : OrderAggregateState F) × (events ≡ e ∷ [])
      × (apply a e ≡ ok (from_state s))
      × (s.status ≡ e.status_after)
      × (s.version ≡ e.version)
      × (e.version ≡ version_after a.state)
      × Effect a.state c s

  -- An accepted command yields exactly one event, which applies without error; the order then has
  -- the status and version of the event's envelope, that version is 1 for a new order and one more
  -- than the old version (as an i64) for an existing one, and the state is what `Effect` specifies
  -- for the command, whose guards hold.
  pub decide-apply :
      (a : OrderAggregate F) (c : OrderCommand F) (m : EventMetadata T)
      {events : List (OrderDomainEvent F T)}
      → decide a c m ≡ ok events
      → Accepted a c events
  unfolding apply from_state
  decide-apply a c m h =
      let (e, s, single, applied, status, version, next, effect) = (decide-Commits a c m).at _ h in
      (e, s, single, rw applied, status, version, next, effect)

  pub decide-allowed :
      (a : OrderAggregate F) (c : OrderCommand F) (m : EventMetadata T)
      {events : List (OrderDomainEvent F T)}
      → decide a c m ≡ ok events
      → ensure_command_allowed (map_option (λ s. s.status) a.state) (kind c) ≡ ok tt
  unfolding decide
  decide-allowed a c m h =
      check-ok (ensure_command_allowed (map_option (λ s. s.status) a.state) (kind c)) _ h
