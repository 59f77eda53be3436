-- ===== src/Recon/Plan.antt =====
-- When the difference of the two order books is empty.
use openoms.Base.{
  ◌≡◌, ◌≢◌, refl, sym, ap, ◌∙◌, subst, ◌↔◌, ◌⊎◌, inl, inr, true, false, String, str_eq, eq_iff,
  Option, none, some, List, [], ◌∷◌, ◌++◌, arith, All, IsIn, Bool-cases, if◌then◌else◌,
}
use openoms.Float.{Float64}
use openoms.Gateway.{Uuid, BrokerOpenOrder}
use openoms.Recon.{
  OmsWorkingOrder, open_at, oms_action, is_tracked, orphans, oms_actions, plan_order_recon,
}

append-nil : {A : Type 0} (xs ys : List A) → (xs ++ ys ≡ []) ↔ ((xs ≡ []) × (ys ≡ []))
append-nil [] ys = ((λ h. (refl, h)), (λ p. p.1))
append-nil (x ∷ xs) ys = ((λ h. absurd (cc)), (λ p. absurd (cc)))

-- Of the orders that the broker lists under the id, `b` is the last.
abbrev pub Listed : {F : Type 0} → String → BrokerOpenOrder F → List (BrokerOpenOrder F) → Type 0
Listed id b [] = ⊥
Listed id b (x ∷ xs) =
    Listed id b xs ⊎ ((x ≡ b) × (x.client_order_id ≡ id) × All (λ y. y.client_order_id ≢ id) xs)

-- What the map holds for the id: the last order listed, or nothing if there is none.
abbrev Holds :
    {F : Type 0} → String → List (BrokerOpenOrder F) → Option (BrokerOpenOrder F) → Type 0
Holds id xs none = All (λ y. y.client_order_id ≢ id) xs
Holds id xs (some b) = Listed id b xs

open_at-Holds :
    {F : Type 0} (xs : List (BrokerOpenOrder F)) (id : String) → Holds id xs (open_at xs id)
unfolding open_at
open_at-Holds [] id = tt
open_at-Holds (x ∷ xs) id = one_more (open_at xs id) (open_at-Holds xs id)
  where
    one_more :
        (later : Option (BrokerOpenOrder _))
        → Holds id xs later
        → Holds id (x ∷ xs) (elim later [
          | some b ↦ some b
          | none ↦ if str_eq x.client_order_id id then some x else none
        ])
    one_more (some b) h = inl h
    one_more none h = elim (Bool-cases (str_eq x.client_order_id id)) [
      | inl e ↦ rw e (inr (refl, (eq_iff x.client_order_id id).0 e, h))
      | inr e ↦ rw e ((λ k. ground (arith, e, k, eq_iff x.client_order_id id)), h)
    ]

not-Listed :
    {F : Type 0} (xs : List (BrokerOpenOrder F)) (id : String) (b : BrokerOpenOrder F)
    → All (λ y. y.client_order_id ≢ id) xs
    → Listed id b xs
    → ⊥
not-Listed [] id b h l = l
not-Listed (x ∷ xs) id b h (inl later) = not-Listed xs id b h.1 later
not-Listed (x ∷ xs) id b h (inr (_, own, _)) = h.0 own

Listed-once :
    {F : Type 0} (xs : List (BrokerOpenOrder F)) (id : String) (a b : BrokerOpenOrder F)
    → Listed id a xs
    → Listed id b xs
    → a ≡ b
Listed-once [] id a b h k = absurd h
Listed-once (x ∷ xs) id a b (inl h) (inl k) = Listed-once xs id a b h k
Listed-once (x ∷ xs) id a b (inl h) (inr (_, _, k)) = absurd (not-Listed xs id a k h)
Listed-once (x ∷ xs) id a b (inr (_, _, h)) (inl k) = absurd (not-Listed xs id b h k)
Listed-once (x ∷ xs) id a b (inr (h, _, _)) (inr (k, _, _)) = sym h ∙ k

module _ {F Key : Type 0} ⦃fl : Float64 F⦄ ⦃uuid : Uuid Key⦄ where
  -- The broker lists the order as open and has filled no more of it than the OMS booked.
  abbrev pub InStep : List (BrokerOpenOrder F) → OmsWorkingOrder F Key → Type 0
  InStep broker_open o =
      (b : BrokerOpenOrder F) × Listed (uuid.to_text o.order_id) b broker_open
      × (fl.lt fl.eps_f64 (fl.sub b.executed_qty o.cum_qty) ≡ false)

  oms_action-nil :
      (o : OmsWorkingOrder F Key) (broker_open : List (BrokerOpenOrder F))
      (found : Option (BrokerOpenOrder F))
      → Holds (uuid.to_text o.order_id) broker_open found
      → (oms_action o found ≡ []) ↔ InStep broker_open o
  unfolding oms_action
  oms_action-nil o broker_open none h =
      ((λ k. absurd (cc)), (λ (b, l, _). absurd (not-Listed broker_open _ b h l)))
  oms_action-nil o broker_open (some b) h = (
    (λ k. (b, h, ground (arith, k))),
    (λ (c, l, k). ground (
      arith,
      subst (λ b. fl.lt fl.eps_f64 (fl.sub b.executed_qty o.cum_qty) ≡ false)
          (Listed-once broker_open _ c b l h) k,
    )),
  )

  oms_actions-nil :
      (oms : List (OmsWorkingOrder F Key)) (broker_open : List (BrokerOpenOrder F))
      → (oms_actions oms broker_open ≡ []) ↔ All (InStep broker_open) oms
  unfolding oms_actions
  oms_actions-nil [] broker_open = ((λ _. tt), (λ _. refl))
  oms_actions-nil (o ∷ os) broker_open =
      let (split, join) = append-nil (oms_action o _) (oms_actions os broker_open) in
      let (head, unhead) =
        oms_action-nil o broker_open _ (open_at-Holds broker_open (uuid.to_text o.order_id)) in
      let (tail, untail) = oms_actions-nil os broker_open in
      ((λ h. let (a, b) = split h in (head a, tail b)), (λ p. join (unhead p.0, untail p.1)))

module _ {F Key : Type 0} ⦃uuid : Uuid Key⦄ where
  -- One of the orders that the OMS works has the id under which the broker lists the order.
  abbrev pub IsKnown : List (OmsWorkingOrder F Key) → BrokerOpenOrder F → Type 0
  IsKnown oms b =
      (o : OmsWorkingOrder F Key) × IsIn o oms × (uuid.to_text o.order_id ≡ b.client_order_id)

  is_tracked-IsKnown :
      (oms : List (OmsWorkingOrder F Key)) (b : BrokerOpenOrder F)
      → (is_tracked oms b.client_order_id ≡ true) ↔ IsKnown oms b
  unfolding is_tracked
  is_tracked-IsKnown [] b = ((λ h. absurd (cc)), (λ (o, listed, _). absurd listed))
  is_tracked-IsKnown (x ∷ xs) b =
      let (known, tracked) = is_tracked-IsKnown xs b in
      (
        (λ h. elim (Bool-cases (str_eq (uuid.to_text x.order_id) b.client_order_id)) [
          | inl e ↦ (x, inl refl, (eq_iff (uuid.to_text x.order_id) b.client_order_id).0 e)
          | inr e ↦ let (o, listed, same) = known (rw e at h) in (o, inr listed, same)
        ]),
        tracked_one tracked,
      )
    where
      tracked_one :
          (IsKnown xs b → is_tracked xs b.client_order_id ≡ true)
          → IsKnown (x ∷ xs) b
          → is_tracked (x ∷ xs) b.client_order_id ≡ true
      tracked_one tracked (o, inl this, same) =
          let own =
            (eq_iff (uuid.to_text x.order_id) b.client_order_id).1
              (ap (λ o. uuid.to_text o.order_id) (sym this) ∙ same) in
          rw own refl
      tracked_one tracked (o, inr listed, same) =
          elim (Bool-cases (str_eq (uuid.to_text x.order_id) b.client_order_id)) [
            | inl e ↦ rw e refl
            | inr e ↦ rw e (tracked (o, listed, same))
          ]

  orphans-nil :
      (oms : List (OmsWorkingOrder F Key)) (broker_open : List (BrokerOpenOrder F))
      → (orphans oms broker_open ≡ []) ↔ All (IsKnown oms) broker_open
  unfolding orphans
  orphans-nil oms [] = ((λ _. tt), (λ _. refl))
  orphans-nil oms (b ∷ bs) =
      let (split, join) = append-nil _ (orphans oms bs) in
      let (tail, untail) = orphans-nil oms bs in
      let (known, tracked) = is_tracked-IsKnown oms b in
      (
        (λ h. let (a, c) = split h in (known (ground (arith, a)), tail c)),
        (λ p. join (ground (arith, tracked p.0), untail p.1)),
      )

module _ {F Key : Type 0} ⦃fl : Float64 F⦄ ⦃uuid : Uuid Key⦄ where
  -- The difference is empty exactly if the books agree: for every working order of the OMS, the
  -- broker lists an open order under its id, and of those it lists under that id the last is ahead of
  -- what the OMS booked by no more than the tolerance; and every order that the broker lists has the
  -- id of a working order of the OMS.
  pub plan_order_recon-nil :
      (oms : List (OmsWorkingOrder F Key)) (broker_open : List (BrokerOpenOrder F))
      → (plan_order_recon oms broker_open ≡ [])
        ↔ (All (InStep broker_open) oms × All (IsKnown oms) broker_open)
  unfolding plan_order_recon
  plan_order_recon-nil oms broker_open =
      let (split, join) = append-nil (oms_actions oms broker_open) (orphans oms broker_open) in
      let (a, una) = oms_actions-nil oms broker_open in
      let (b, unb) = orphans-nil oms broker_open in
      ((λ h. (a (split h).0, b (split h).1)), (λ p. join (una p.0, unb p.1)))
