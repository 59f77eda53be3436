-- ===== src/MarkRouter/Mirror.antt =====
-- The price lane mirrors the marks.
use openoms.Base.{
  ℕ, ◌≡◌, refl, Option, none, some, List, [], ◌∷◌, ◌++◌, if◌then◌else◌, ◌==◌, Bool-cases, inl, inr,
  map_option, String,
}
use openoms.Base.Int.{ℤ}
use openoms.Float.{Float64}
use openoms.MarkRouter.{
  Quote, Mark, MarkUpdate, Router, Policy, update_of, takes, is_usable, accept, apply_accepted,
  route_ranked, route_classed, route, run,
}

module _ {F : Type 0} where
  -- The last message on the lane for an instrument, with an earlier one given.
  abbrev pub last_update : List (MarkUpdate F) → ℕ → Option (F × F) → Option (F × F)
  last_update [] i earlier = earlier
  last_update (u ∷ us) i earlier =
      last_update us i (if i == u.instrument_id then some (u.bid, u.ask) else earlier)

  last_update-snoc :
      (us : List (MarkUpdate F)) (u : MarkUpdate F) (i : ℕ) (earlier : Option (F × F))
      → last_update (us ++ (u ∷ [])) i earlier
        ≡ (if i == u.instrument_id then some (u.bid, u.ask) else last_update us i earlier)
  last_update-snoc [] u i earlier = refl
  last_update-snoc (x ∷ us) u i earlier = last_update-snoc us u i _

  abbrev pub prices : Option (Mark F) → Option (F × F)
  prices = map_option (λ m. (m.bid, m.ask))

  -- Every mark has the prices of the last message for its instrument; without one there is no mark.
  abbrev pub IsMirrored : Router F → Type 0
  IsMirrored router = (i : ℕ) → prices (router.marks i) ≡ last_update router.lane i none

  apply_accepted-IsMirrored :
      (router : Router F) (q : Quote F) (now : ℕ)
      → IsMirrored router
      → IsMirrored (apply_accepted router q now)
  unfolding apply_accepted
  apply_accepted-IsMirrored router q now h i =
      rw (last_update-snoc router.lane (update_of q) i none)
        (elim (Bool-cases (i == q.instrument_id)) [ inl e ↦ rw e refl | inr e ↦ rw e (h i) ])

  route_ranked-IsMirrored :
      (router : Router F) (q : Quote F) (now : ℕ) (rank : ℤ)
      → IsMirrored router
      → IsMirrored (route_ranked router q now rank)
  unfolding route_ranked accept
  route_ranked-IsMirrored router q now rank h =
      elim (Bool-cases (takes (router.active q.instrument_id) q rank)) [
        | inl e ↦ rw e (apply_accepted-IsMirrored router q now h)
        | inr e ↦ rw e h
      ]

  route_classed-IsMirrored :
      (policy : Policy) (router : Router F) (q : Quote F) (now : ℕ) (class : Option String)
      → IsMirrored router
      → IsMirrored (route_classed policy router q now class)
  unfolding route_classed
  route_classed-IsMirrored policy router q now none h = h
  route_classed-IsMirrored policy router q now (some class) h =
      route_ranked-IsMirrored router q now _ h

module _ {F : Type 0} ⦃fl : Float64 F⦄ where
  route-IsMirrored :
      (policy : Policy) (router : Router F) (q : Quote F × ℕ)
      → IsMirrored router
      → IsMirrored (route policy router q)
  unfolding route
  route-IsMirrored policy router (q, now) h = elim (Bool-cases (is_usable q.bid q.ask)) [
    | inl e ↦ rw e (route_classed-IsMirrored policy router q now _ h)
    | inr e ↦ rw e h
  ]

  -- Whatever quotes come in, the price lane mirrors the marks: the mark of every instrument has the
  -- prices of the lane's last message for it, and an instrument without a message has no mark, if
  -- this was so before.
  pub run-IsMirrored :
      (policy : Policy) (router : Router F) (qs : List (Quote F × ℕ))
      → IsMirrored router
      → IsMirrored (run policy router qs)
  unfolding run
  run-IsMirrored policy router [] h = h
  run-IsMirrored policy router (q ∷ qs) h =
      run-IsMirrored policy (route policy router q) qs (route-IsMirrored policy router q h)
