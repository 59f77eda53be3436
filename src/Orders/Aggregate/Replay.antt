-- ===== src/Orders/Aggregate/Replay.antt =====
-- The event log against the live order: what `rehydrate` makes of it, and its version numbers.
use openoms.Base.{
  ℕ, zero, suc, ◌+◌, ◌^◌, ◌<◌, ◌≡◌, refl, ◌∙◌, inl, inr, List, [], ◌∷◌, ◌++◌, map, ok, ◌>>=◌, ap,
  >>=_assoc, arith, length, err, ◌⊎◌, Result-cases, subst, sym,
}
use openoms.Float.{Float64}
use openoms.Orders.Events.{OrderDomainEvent}
use openoms.Orders.Commands.{OrderCommand}
use openoms.Orders.Aggregate.{EventMetadata, OrderAggregate, empty, from_state}
use openoms.Orders.Aggregate.Decide.{decide, next_version}
use openoms.Orders.Aggregate.Apply.{apply, apply_all, rehydrate}
use openoms.Orders.Aggregate.Commit.{version_after, decide-apply}
use openoms.Orders.Aggregate.Run.{step, run, Stepped, step-Stepped, step_accepted, step_refused}
use openoms.Orders.Errors.{CommandRejection}
use openoms.Orders.State.{OrderAggregateState}
use openoms.Orders.Aggregate.Effect.{Effect}

module _ {F T : Type 0} ⦃fl : Float64 F⦄ where
  apply_all-append :
      (a : OrderAggregate F) (xs ys : List (OrderDomainEvent F T))
      → apply_all a (xs ++ ys) ≡ (apply_all a xs >>= λ b. apply_all b ys)
  unfolding apply_all
  apply_all-append a [] ys = refl
  apply_all-append a (e ∷ xs) ys = >>=_assoc (apply a e) _ _ _ (λ b. apply_all-append b xs ys)

  apply_all-step :
      (a : OrderAggregate F) (c : OrderCommand F)
      (r : OrderAggregate F × List (OrderDomainEvent F T))
      → Stepped a c r
      → apply_all a r.1 ≡ ok r.0
  unfolding apply_all
  apply_all-step a c r (inl e) = rw e
  apply_all-step a c r (inr (e, s, shape, applied, _, _, _, _)) = rw (shape, applied)

  -- From any order, applying the log of any commands gives the order that they led to.
  pub apply_all-run :
      (a : OrderAggregate F) (cs : List (OrderCommand F × EventMetadata T))
      → apply_all a (run a cs).1 ≡ ok (run a cs).0
  unfolding run
  apply_all-run a [] = unfold apply_all in refl
  apply_all-run a ((c, m) ∷ cs) =
      let r = step a (c, m) in
      apply_all-append a r.1 (run r.0 cs).1
      ∙ rw (apply_all-step a c r (step-Stepped a c m)) (apply_all-run r.0 cs)

  -- What commands make of an order by the specification, one after the other: a refused one nothing,
  -- an accepted one its `Effect`.
  abbrev pub Leads :
      OrderAggregate F → List (OrderCommand F × EventMetadata T) → OrderAggregate F → Type 0
  Leads a [] b = a ≡ b
  Leads a ((c, m) ∷ cs) b =
      ((r : CommandRejection) × (decide a c m ≡ err r) × Leads a cs b)
      ⊎ ((s : OrderAggregateState F) × Effect a.state c s × Leads (from_state s) cs b)

  run-Leads :
      (a : OrderAggregate F) (cs : List (OrderCommand F × EventMetadata T))
      → Leads a cs (run a cs).0
  unfolding run
  run-Leads a [] = refl
  run-Leads a ((c, m) ∷ cs) = elim (Result-cases (decide a c m)) [
    | inr (r, h) ↦ inl (
      r,
      h,
      subst (λ x. Leads a cs (run x.0 cs).0) (sym (step_refused a c m r h)) (run-Leads a cs),
    )
    | inl (events, h) ↦
        let (e, s, single, applied, _, _, _, effect) = decide-apply a c m h in
        let accepted = step_accepted a (from_state s) c m e (h ∙ ap ok single) applied in
        inr (
          s,
          effect,
          subst (λ x. Leads (from_state s) cs (run x.0 cs).0) (sym accepted)
              (run-Leads (from_state s) cs),
        )
  ]

  -- Rehydrating the log that any commands on a new order leave succeeds, and gives the order that
  -- the specification leads to: command by command, each is refused, by `decide` on the order that
  -- the ones before led to, and changes nothing, or passes the guards of its `Effect`, which says
  -- without events what the order then is.
  pub rehydrate-run :
      (cs : List (OrderCommand F × EventMetadata T))
      → (a : OrderAggregate F) × (rehydrate (run empty cs).1 ≡ ok a) × Leads empty cs a
  unfolding rehydrate
  rehydrate-run cs = ((run empty cs).0, apply_all-run empty cs, run-Leads empty cs)

abbrev pub versions : {F T : Type 0} → List (OrderDomainEvent F T) → List ℕ
versions = map (λ e. e.version)

abbrev pub count_from : ℕ → ℕ → List ℕ
count_from v zero = []
count_from v (suc n) = v ∷ count_from (suc v) n

module _ {F T : Type 0} ⦃fl : Float64 F⦄ where
  versions-step :
      (v n : ℕ) (a : OrderAggregate F) (c : OrderCommand F)
      (r : OrderAggregate F × List (OrderDomainEvent F T)) (log : List (OrderDomainEvent F T))
      → Stepped a c r
      → version_after a.state ≡ v
      → v + suc n < 2 ^ 63
      → ((w : ℕ)
          → version_after r.0.state ≡ w
          → w + n < 2 ^ 63
          → versions log ≡ count_from w (length log))
      → versions (r.1 ++ log) ≡ count_from v (length (r.1 ++ log))
  unfolding next_version from_state
  versions-step v n a c r log (inl e) h b rest = rw e (rest v (rw e h) (omega arith))
  versions-step v n a c r log (inr (e, s, shape, applied, same, next, _, _)) h b rest =
      rw (shape, next, h)
        (ap (◌∷◌ v)
          (rest (suc v) (rw (shape, from_state) (rw (same, next, h) (omega arith))) (omega arith)))

  versions-run_from :
      (v : ℕ) (a : OrderAggregate F) (cs : List (OrderCommand F × EventMetadata T))
      → version_after a.state ≡ v
      → v + length cs < 2 ^ 63
      → versions (run a cs).1 ≡ count_from v (length (run a cs).1)
  unfolding run
  versions-run_from v a [] h b = refl
  versions-run_from v a ((c, m) ∷ cs) h b =
      let r = step a (c, m) in
      versions-step v (length cs) a c r (run r.0 cs).1 (step-Stepped a c m) h b
        λ w. versions-run_from w r.0 cs

  -- The log of fewer than 2 ^ 62 commands on a new order numbers its events 1, 2, 3, … without
  -- gaps or repetitions, so the i64 version does not wrap.
  pub versions-run :
      (cs : List (OrderCommand F × EventMetadata T))
      → length cs < 2 ^ 62
      → versions (run empty cs).1 ≡ count_from 1 (length (run empty cs).1)
  versions-run cs h = versions-run_from 1 empty cs (unfold empty in refl) (omega arith)
