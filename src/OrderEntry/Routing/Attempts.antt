-- ===== src/OrderEntry/Routing/Attempts.antt =====
-- The routing loop ends, and the venue's id is on record unless the order is closed.
use openoms.Base.{
  ℕ, zero, suc, ◌+◌, ◌<◌, ◌≤◌, ◌≡◌, refl, sym, ◌∙◌, ap, ◌⊎◌, inl, inr, true, false, String, some,
  Result, ok, err, ◌==◌, arith, Bool-cases, subst,
}
use openoms.Float.{Float64}
use openoms.Orders.State.{OrderAggregateState, is_terminal}
use openoms.Orders.Aggregate.{EventMetadata}
use openoms.EventStore.{ConcurrencyError, current_version}
use openoms.Execution.{Store}
use openoms.Execution.Conflicts.{fresh_read}
use openoms.Execution.Retries.{IsSound}
use openoms.OrderEntry.Routing.{
  RouteResult, routed, terminal, not_submitted, AttemptError, concurrency, route_once,
  route_attempts, persist_routed,
}
use openoms.OrderEntry.Routing.Outcomes.{Outcome, route_once-Outcome}

module _ {F T : Type 0} where
  -- A closed order, or the venue's id on record.
  abbrev pub OnRecord : String → Store F T → RouteResult → Type 0
  OnRecord id next (terminal status) = is_terminal status ≡ true
  OnRecord id next _ = (ext : String) × (next.external_order_ids id ≡ some ext)

  abbrev Settled : String → Result (Store F T × RouteResult) AttemptError → Type 0
  Settled id result =
      (next : Store F T) × (r : RouteResult) × (result ≡ ok (next, r)) × OnRecord id next r

  -- Only a stale read makes a conflict.
  settled :
      (now : Store F T) (id ext : String) (state : OrderAggregateState F)
      (result : Result (Store F T × RouteResult) AttemptError)
      → Outcome now id ext state result
      → Settled id result
        ⊎ ((current_version (now.streams id) == state.version ≡ false)
            × ((e : ConcurrencyError) × (result ≡ err (concurrency e))))
  settled now id ext state result (inl (closed, h)) = inl (now, terminal state.status, h, closed)
  settled now id ext state result (inr (inl (live, moved, (next, h, (rows, streams, kept))))) =
      inl (next, not_submitted, h, (_, kept))
  settled now id ext state result (inr (inr (new, inl conflict))) = inr conflict
  settled now id ext state result (inr (inr (new, inr (next, h, (current, c, status, kept, _))))) =
      inl (next, routed, h, (ext, kept))

module _ {F T : Type 0} ⦃fl : Float64 F⦄ (id venue ext : String) (views : ℕ → Store F T × Store F T)
    (metadata : ℕ → EventMetadata T) (sound : (n : ℕ) → IsSound (views n) id) where
  abbrev one : ℕ → Result (Store F T × RouteResult) AttemptError
  one n = route_once (views n).0 (views n).1 id venue ext (metadata n)

  outcome : (n : ℕ) → Outcome (views n).1 id ext (sound n).state (one n)
  outcome n =
      let v = sound n in
      route_once-Outcome (views n).0 (views n).1 id venue ext (metadata n) v.state v.consistent
        v.state_at v.small

  undisturbed : (n : ℕ) → (views n).0 ≡ (views n).1 → Settled id (one n)
  undisturbed n same =
      let v = sound n in
      elim (settled (views n).1 id ext v.state (one n) (outcome n)) [
        | inl done ↦ done
        | inr (stale, _) ↦ absurd (
            fresh_read (views n).1 id v.consistent v.state
              (ap (λ s. s.rows id) (sym same) ∙ v.state_at) stale)
      ]

  attempts_end :
      (left attempt good : ℕ)
      → attempt ≤ good
      → good < attempt + left
      → (views good).0 ≡ (views good).1
      → (next : Store F T) × (r : RouteResult) × (route_attempts left attempt views id venue ext
            metadata
          ≡ ok (next, r))
        × OnRecord id next r
  unfolding route_attempts
  attempts_end zero attempt good low high same = absurd (omega (arith, low, high))
  attempts_end (suc left) attempt good low high same = elim (Bool-cases (attempt == good)) [
    | inl e ↦
        let (next, r, h, kept) = undisturbed attempt (moved_to (the_same e) same) in
        (next, r, rw (h, route_attempts) refl, kept)
    | inr e ↦
        elim (settled (views attempt).1 id ext (sound attempt).state (one attempt)
          (outcome attempt)) [
            | inl (next, r, h, kept) ↦ (next, r, rw (h, route_attempts) refl, kept)
            | inr (_, (conflict, h)) ↦
                let more = not_last e in
                let (next, r, rest, kept) =
                  attempts_end left (suc attempt) good (later e) (omega (arith, high)) same in
                (next, r, rw (h, route_attempts) (rw (more, route_attempts) rest), kept)
          ]
  ]
    where
      the_same : attempt == good ≡ true → attempt ≡ good
      the_same e = ground (arith, e)

      moved_to :
          attempt ≡ good → (views good).0 ≡ (views good).1 → (views attempt).0 ≡ (views attempt).1
      moved_to e = subst (λ n. (views n).0 ≡ (views n).1) (sym e)

      later : attempt == good ≡ false → suc attempt ≤ good
      later e = ground (arith, e, low)

      not_last : attempt == good ≡ false → left == 0 ≡ false
      not_last e = ground (arith, e, low, high)

  -- The route of an order is recorded without an error, if at one of the five attempts nothing else
  -- commits between its read and its write; and then the order is closed or a venue's id is on
  -- record for it. Every attempt reads a row of the order, of a version below 2^62, and writes where
  -- row and stream tell the same version.
  pub persist_routed-OnRecord :
      (good : ℕ)
      → 1 ≤ good
      → good ≤ 5
      → (views good).0 ≡ (views good).1
      → (next : Store F T) × (r : RouteResult) × (persist_routed views id venue ext metadata
          ≡ ok (next, r))
        × OnRecord id next r
  unfolding persist_routed
  persist_routed-OnRecord good low high same = attempts_end 5 1 good low (omega (arith, high)) same
