-- ===== src/Orders/Aggregate/Run.antt =====
-- Commands one after the other, as `apply_once` of src/execution.rs handles each: decide, and on
-- success apply every event; a refused command changes nothing and leaves no event.
use openoms.Base.{
  ◌≡◌, refl, ◌⊎◌, inl, inr, List, [], ◌∷◌, ◌++◌, Result, ok, err, ◌>>=◌, Result-cases, ◌∙◌, ap,
  Option, some, map_option, All,
}
use openoms.Float.{Float64}
use openoms.Orders.State.{OrderAggregateState}
use openoms.Orders.Errors.{CommandRejection}
use openoms.Orders.Events.{OrderDomainEvent}
use openoms.Orders.Commands.{OrderCommand}
use openoms.Orders.Aggregate.{EventMetadata, OrderAggregate, from_state}
use openoms.Orders.Aggregate.Decide.{decide}
use openoms.Orders.Aggregate.Apply.{apply, apply_all}
use openoms.Orders.Aggregate.Effect.{Effect}
use openoms.Orders.Lifecycle.{kind, ensure_command_allowed}
use openoms.Orders.Aggregate.Commit.{decide-apply, decide-allowed, version_after}

module _ {F T : Type 0} ⦃fl : Float64 F⦄ where
  unfoldable pub handle :
      OrderAggregate F
      → OrderCommand F
      → EventMetadata T
      → Result (OrderAggregate F × List (OrderDomainEvent F T)) CommandRejection
  unfolding decide apply_all
  handle aggregate command metadata = do
    events ← decide aggregate command metadata
    applied ← apply_all aggregate events
    ok (applied, events)

  unfoldable pub step :
      OrderAggregate F
      → OrderCommand F × EventMetadata T
      → OrderAggregate F × List (OrderDomainEvent F T)
  unfolding handle
  step aggregate (command, metadata) = elim (handle aggregate command metadata) [
    | ok (next, events) ↦ (next, events)
    | err _ ↦ (aggregate, [])
  ]

  -- The aggregate after the commands, and the log of their events.
  unfoldable pub run :
      OrderAggregate F
      → List (OrderCommand F × EventMetadata T)
      → OrderAggregate F × List (OrderDomainEvent F T)
  unfolding step
  run aggregate [] = (aggregate, [])
  run aggregate (c ∷ cs) =
      let (next, events) = step aggregate c in
      let (last, log) = run next cs in (last, events ++ log)

  -- A refused command leaves the order alone; an accepted one, which is allowed in the order's
  -- status, adds one event, which applies and has the specified effect.
  abbrev pub Stepped :
      OrderAggregate F → OrderCommand F → OrderAggregate F × List (OrderDomainEvent F T) → Type 0
  Stepped a c r =
      (r ≡ (a, []))
      ⊎ ((e : OrderDomainEvent F T) × (s : OrderAggregateState F) × (r ≡ (from_state s, e ∷ []))
          × (apply a e ≡ ok (from_state s))
          × (s.version ≡ e.version)
          × (e.version ≡ version_after a.state)
          × (ensure_command_allowed (map_option (λ s. s.status) a.state) (kind c) ≡ ok tt)
          × Effect a.state c s)

  pub step_accepted :
      (a b : OrderAggregate F) (c : OrderCommand F) (m : EventMetadata T) (e : OrderDomainEvent F T)
      → decide a c m ≡ ok (e ∷ [])
      → apply a e ≡ ok b
      → step a (c, m) ≡ (b, e ∷ [])
  unfolding step handle apply_all
  step_accepted a b c m e decided applied = rw (decided, step) (rw (applied, step))

  pub step_refused :
      (a : OrderAggregate F) (c : OrderCommand F) (m : EventMetadata T) (r : CommandRejection)
      → decide a c m ≡ err r
      → step a (c, m) ≡ (a, [])
  unfolding step handle
  step_refused a c m r h = rw (h, step) refl

  pub step-Stepped :
      (a : OrderAggregate F) (c : OrderCommand F) (m : EventMetadata T)
      → Stepped a c (step a (c, m))
  unfolding step handle apply_all
  step-Stepped a c m = elim (Result-cases (decide a c m)) [
    | inr (e, h) ↦ rw (h, step) (inl refl)
    | inl (events, h) ↦
        let (e, s, single, applied, _, version, next, effect) = decide-apply a c m h in
        inr (
          e,
          s,
          step_accepted a _ c m e (h ∙ ap ok single) applied,
          applied,
          version,
          next,
          decide-allowed a c m h,
          effect,
        )
  ]

module _ {F T : Type 0} ⦃fl : Float64 F⦄ where
  -- The rule for invariants of an order: what every accepted command keeps holds after any run.
  pub run-keeps :
      (P : Option (OrderAggregateState F) → Type 0) (Given : OrderCommand F → Type 0)
      → ((state : Option (OrderAggregateState F)) (c : OrderCommand F) (t : OrderAggregateState F)
          → ensure_command_allowed (map_option (λ s. s.status) state) (kind c) ≡ ok tt
          → Effect state c t
          → Given c
          → P state
          → P (some t))
      → (a : OrderAggregate F) (cs : List (OrderCommand F × EventMetadata T))
      → All (λ c. Given c.0) cs
      → P a.state
      → P (run a cs).0.state
  unfolding run from_state
  run-keeps P Given keep a [] g p = p
  run-keeps P Given keep a ((c, m) ∷ cs) g p =
      run-keeps P Given keep (step a (c, m)).0 cs g.1 (elim (step-Stepped a c m) [
        | inl e ↦ rw e p
        | inr (e, s, shape, _, _, _, allowed, effect) ↦
            rw shape (keep a.state c s allowed effect g.0 p)
      ])
