-- ===== src/EventBus/Transfers.antt =====
-- A transfer announces every portfolio once.
use openoms.Base.{
  ℕ, suc, ◌+◌, ◌≡◌, refl, ◌∙◌, ap, Bool, false, ◌||◌, String, List, [], ◌∷◌, ◌++◌, map,
  if◌then◌else◌, arith, Bool-cases, inl, inr,
}
use openoms.Positions.{KeyEq}
use openoms.Positions.Replay.{IsEquality}
use openoms.EventBus.{OrderLaneEvent, has_seen, seen_after, publish_transfer}

abbrev pub once : Bool → ℕ
once b = if b then 1 else 0

module _ {K : Type 0} ⦃key : KeyEq K⦄ where
  abbrev pub count : K → List K → ℕ
  count k [] = 0
  count k (x ∷ xs) = if key.same x k then suc (count k xs) else count k xs

  -- How many messages announce the portfolio.
  abbrev pub announced : K → List (OrderLaneEvent K) → ℕ
  announced k [] = 0
  announced k (OrderLaneEvent.position_changed p _ ∷ es) =
      if key.same p k then suc (announced k es) else announced k es
  announced k (_ ∷ es) = announced k es

  count-append : (k : K) (xs ys : List K) → count k (xs ++ ys) ≡ count k xs + count k ys
  count-append k [] ys = omega arith
  count-append k (x ∷ xs) ys = ground (arith, count-append k xs ys)

  has_seen-append :
      (k : K) (xs ys : List K) → has_seen (xs ++ ys) k ≡ (has_seen xs k || has_seen ys k)
  unfolding has_seen
  has_seen-append k [] ys = refl
  has_seen-append k (x ∷ xs) ys = ground (arith, has_seen-append k xs ys)

  announced-map :
      (k : K) (instrument : String) (ks : List K)
      → announced k (map (λ p. OrderLaneEvent.position_changed p instrument) ks) ≡ count k ks
  announced-map k instrument [] = refl
  announced-map k instrument (x ∷ ks) = ground (arith, announced-map k instrument ks)

  abbrev Distinct : List K → Type 0
  Distinct seen = (k : K) → count k seen ≡ once (has_seen seen k)

module _ {K : Type 0} ⦃key : KeyEq K⦄ (laws : IsEquality K) where
  -- A portfolio that was not seen is added once.
  add-Distinct :
      (seen : List K) (p : K)
      → has_seen seen p ≡ false
      → Distinct seen
      → Distinct (seen ++ (p ∷ []))
  unfolding has_seen
  add-Distinct seen p new h k = elim (Bool-cases (key.same p k)) [
    | inl e ↦ ground (
      arith,
      e,
      h k,
      count-append k seen (p ∷ []),
      has_seen-append k seen (p ∷ []),
      new,
      ap (has_seen seen) (laws.eq_of_same p k e),
    )
    | inr e ↦ ground (arith, e, h k, count-append k seen (p ∷ []), has_seen-append k seen (p ∷ []))
  ]

  seen_after-once :
      (seen ps : List K) (k : K)
      → Distinct seen
      → count k (seen_after seen ps) ≡ once (has_seen seen k || has_seen ps k)
  unfolding seen_after has_seen
  seen_after-once seen [] k h = ground (arith, h k)
  seen_after-once seen (p ∷ ps) k h = elim (Bool-cases (has_seen seen p)) [
    | inl old ↦
        rw (old, seen_after)
          (seen_after-once seen ps k h ∙ elim (Bool-cases (key.same p k)) [
            | inl e ↦ ground (arith, e, old, ap (has_seen seen) (laws.eq_of_same p k e))
            | inr e ↦ ground (arith, e)
          ])
    | inr new ↦
        rw (new, seen_after)
          (seen_after-once (seen ++ (p ∷ [])) ps k (add-Distinct seen p new h)
            ∙ ground (arith, has_seen-append k seen (p ∷ [])))
  ]

  -- A transfer announces every portfolio that it touched, the source and the destinations, exactly
  -- once, however often it is a destination, and no other.
  pub publish_transfer-once :
      (from_portfolio : K) (to_portfolios : List K) (instrument_id : String) (k : K)
      → announced k (publish_transfer from_portfolio to_portfolios instrument_id)
        ≡ once (has_seen (from_portfolio ∷ to_portfolios) k)
  unfolding publish_transfer has_seen
  publish_transfer-once from_portfolio to_portfolios instrument_id k =
      announced-map k instrument_id (seen_after (from_portfolio ∷ []) to_portfolios)
      ∙ seen_after-once (from_portfolio ∷ []) to_portfolios k (λ j. ground arith)
      ∙ ground arith
