-- ===== src/MarkRouter/Ownership.antt =====
-- Who owns the mark of an instrument.
use openoms.Base.{
  ℕ, ◌+◌, ◌*◌, ◌^◌, ◌<◌, ◌≡◌, refl, ◌∙◌, ◌⊎◌, inl, inr, false, String, str_eq, Option, some, none,
  List, [], ◌∷◌, ◌==◌, leb, arith, Bool-cases, All, unwrap_or, sym, subst,
}
use openoms.Base.Int.{ℤ, ltb_ℤ}
use openoms.Float.{Float64}
use openoms.MarkRouter.{
  Quote, Active, Router, Policy, unranked, takes, is_usable, accept, apply_accepted, route_ranked,
  route_classed, route, run, quiet_for,
}

-- A quote of another source, not better ranked, received less than 10 seconds after the owner's.
pub record IsRival {F : Type 0} (owner : Active) (rank : ℤ) (q : Quote F) : Type 0 where
  pub other : str_eq owner.source q.source_code ≡ false
  pub not_better : ltb_ℤ rank owner.rank ≡ false
  pub in_time : q.ts_recv < owner.at + 10 * 10 ^ 9

takes-rival :
    {F : Type 0} (owner : Active) (rank : ℤ) (q : Quote F)
    → IsRival owner rank q
    → takes (some owner) q rank ≡ false
unfolding takes
takes-rival owner rank q rival = rw rival.other (rw rival.not_better (not_stale rival.in_time))
  where
    not_stale : q.ts_recv < owner.at + 10 * 10 ^ 9 → leb 10 (quiet_for q.ts_recv owner.at) ≡ false
    not_stale h = ground (arith, h)

module _ {F : Type 0} (policy : Policy) (i : ℕ) (class : String) (owner : Active) where
  abbrev pub rank_in_class : Quote F → ℤ
  rank_in_class q = unwrap_or (policy.rank_of q.source_code class) unranked

  -- A quote for another instrument, or a rival's.
  abbrev pub Harmless : Quote F × ℕ → Type 0
  Harmless (q, now) =
      (i == q.instrument_id ≡ false) ⊎ ((q.instrument_id ≡ i) × IsRival owner (rank_in_class q) q)

  -- The owner and the mark of the instrument.
  abbrev Same : Router F → Router F → Type 0
  Same before after = (after.active i ≡ before.active i) × (after.marks i ≡ before.marks i)

  route_ranked-other :
      (router : Router F) (q : Quote F) (now : ℕ) (rank : ℤ)
      → i == q.instrument_id ≡ false
      → Same router (route_ranked router q now rank)
  unfolding route_ranked accept apply_accepted
  route_ranked-other router q now rank h =
      elim (Bool-cases (takes (router.active q.instrument_id) q rank)) [
        | inl e ↦ rw e (rw h (refl, refl))
        | inr e ↦ rw e (refl, refl)
      ]

  route_ranked-rival :
      (router : Router F) (q : Quote F) (now : ℕ) (rank : ℤ)
      → router.active q.instrument_id ≡ some owner
      → IsRival owner rank q
      → Same router (route_ranked router q now rank)
  unfolding route_ranked accept
  route_ranked-rival router q now rank h rival =
      rw h (rw (takes-rival owner rank q rival) (refl, refl))

  route_classed-Same :
      (router : Router F) (q : Quote F) (now : ℕ) (found : Option String)
      → (q.instrument_id ≡ i → found ≡ some class)
      → router.active i ≡ some owner
      → Harmless (q, now)
      → Same router (route_classed policy router q now found)
  unfolding route_classed
  route_classed-Same router q now none known h harmless = (refl, refl)
  route_classed-Same router q now (some c) known h (inl other) =
      route_ranked-other router q now _ other
  route_classed-Same router q now (some c) known h (inr (same, rival)) =
      route_ranked-rival router q now _ (subst (λ j. router.active j ≡ some owner) (sym same) h) (
        subst (λ k. IsRival owner (unwrap_or (policy.rank_of q.source_code k) unranked) q)
          (class_same (known same)) rival)
    where
      class_same : ◌≡◌ {A = Option String} (some c) (some class) → class ≡ c
      class_same e = cc

module _ {F : Type 0} ⦃fl : Float64 F⦄ (policy : Policy) (i : ℕ) (class : String) (owner : Active)
    (known : policy.class_of i ≡ some class) where
  route-Same :
      (router : Router F) (q : Quote F × ℕ)
      → router.active i ≡ some owner
      → Harmless policy i class owner q
      → Same policy i class owner router (route policy router q)
  unfolding route
  route-Same router (q, now) h harmless = elim (Bool-cases (is_usable q.bid q.ask)) [
    | inl e ↦ rw e (
        route_classed-Same policy i class owner router q now (policy.class_of q.instrument_id)
          (λ same. subst (λ j. policy.class_of j ≡ some class) (sym same) known) h harmless)
    | inr e ↦ rw e (refl, refl)
  ]

  -- As long as every quote for an instrument comes from another source than its owner, with a rank
  -- that is not better and less than 10 seconds after the owner's last quote, the owner keeps the
  -- instrument and its mark stays as it is, whatever quotes for other instruments come in between.
  pub run-owner :
      (router : Router F) (qs : List (Quote F × ℕ))
      → router.active i ≡ some owner
      → All (Harmless policy i class owner) qs
      → ((run policy router qs).active i ≡ some owner)
        × ((run policy router qs).marks i ≡ router.marks i)
  unfolding run
  run-owner router [] h harmless = (h, refl)
  run-owner router (q ∷ qs) h harmless =
      let (active, marks) = route-Same router q h harmless.0 in
      let (a, m) = run-owner (route policy router q) qs (active ∙ h) harmless.1 in (a, m ∙ marks)
