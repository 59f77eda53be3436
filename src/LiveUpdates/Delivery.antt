-- ===== src/LiveUpdates/Delivery.antt =====
-- No change that the pump receives is lost: a notice that covers it goes out.
use openoms.Base.{
  ℕ, ◌≡◌, refl, ◌∙◌, inl, inr, Bool, true, false, ◌||◌, Option, none, some, List, [], ◌∷◌, ◌++◌,
  Result, ok, err, ◌==◌, if◌then◌else◌, Bool-cases, arith,
}
use openoms.EventBus.{OrderLaneEvent}
use openoms.MarkRouter.{MarkUpdate}
use openoms.LiveUpdates.{
  RecvError, lagged, closed, UiNotice, Conflator, insert_id, on_order, on_mark, take_fast,
  take_marks, marks_notice, to_list, Pump, Branch, order_received, price_received, fast_tick,
  slow_tick, heartbeat_tick, on_price, step, run,
}

-- What can change: a mark of an instrument, or what a subscriber of the order lane learns.
pub data Change : Type 0 where
  order position missed : Change
  mark : ℕ → Change

abbrev pub has : List ℕ → ℕ → Bool
has [] id = false
has (x ∷ xs) id = id == x || has xs id

-- A resync covers all of the order lane.
abbrev pub covers : Change → UiNotice → Bool
covers order UiNotice.orders = true
covers position UiNotice.positions = true
covers order UiNotice.resync = true
covers position UiNotice.resync = true
covers missed UiNotice.resync = true
covers (mark id) (UiNotice.marks ids) = has ids id
covers _ _ = false

abbrev pub announced : Change → List UiNotice → Bool
announced c [] = false
announced c (n ∷ ns) = covers c n || announced c ns

announced-append :
    (c : Change) (ns ms : List UiNotice)
    → announced c (ns ++ ms) ≡ (announced c ns || announced c ms)
announced-append c [] ms = refl
announced-append c (n ∷ ns) ms = ground (arith, announced-append c ns ms)

-- Which tick sends a change.
abbrev pub flush : {F K : Type 0} → Change → Branch F K
flush (mark _) = slow_tick
flush _ = fast_tick

-- The change that a branch brings, where its lane is open.
abbrev pub brings : {F K : Type 0} → Pump → Branch F K → Option Change
brings pump (order_received (ok (OrderLaneEvent.appended _ _ _))) =
    if pump.order_open then some order else none
brings pump (order_received (ok (OrderLaneEvent.position_changed _ _))) =
    if pump.order_open then some position else none
brings pump (order_received (err (lagged _))) = if pump.order_open then some missed else none
brings pump (price_received (ok m)) = if pump.price_open then some (mark m.instrument_id) else none
brings pump _ = none

abbrev pending : Change → Conflator → Bool
pending order c = c.orders || c.resync
pending position c = c.positions || c.resync
pending missed c = c.resync
pending (mark id) c = has c.marks id

has-insert_id : (ids : List ℕ) (id : ℕ) → has (insert_id ids id) id ≡ true
unfolding insert_id
has-insert_id [] id = ground arith
has-insert_id (x ∷ xs) id = ground (arith, has-insert_id xs id)

has-insert_id_other :
    (ids : List ℕ) (new id : ℕ) → has ids id ≡ true → has (insert_id ids new) id ≡ true
unfolding insert_id
has-insert_id_other [] new id h = absurd (cc)
has-insert_id_other (x ∷ xs) new id h = elim (Bool-cases (has xs id)) [
  | inl there ↦ ground (arith, has-insert_id_other xs new id there)
  | inr absent ↦ ground (arith, h, absent)
]

marks-flushed :
    (ids : List ℕ) (id : ℕ)
    → has ids id ≡ true
    → announced (mark id) (to_list (marks_notice ids)) ≡ true
marks-flushed [] id h = absurd (cc)
marks-flushed (x ∷ xs) id h = ground (arith, h)

order-kept :
    {K : Type 0} (c : Change) (k : Conflator) (r : Result (OrderLaneEvent K) RecvError)
    → pending c k ≡ true
    → pending c (on_order k r) ≡ true
unfolding on_order
order-kept order k (ok (OrderLaneEvent.appended _ _ _)) h = refl
order-kept order k (ok (OrderLaneEvent.position_changed _ _)) h = h
order-kept position k (ok (OrderLaneEvent.appended _ _ _)) h = h
order-kept position k (ok (OrderLaneEvent.position_changed _ _)) h = refl
order-kept missed k (ok (OrderLaneEvent.appended _ _ _)) h = h
order-kept missed k (ok (OrderLaneEvent.position_changed _ _)) h = h
order-kept (mark id) k (ok (OrderLaneEvent.appended _ _ _)) h = h
order-kept (mark id) k (ok (OrderLaneEvent.position_changed _ _)) h = h
order-kept order k (err (lagged _)) h = ground arith
order-kept position k (err (lagged _)) h = ground arith
order-kept missed k (err (lagged _)) h = refl
order-kept (mark id) k (err (lagged _)) h = h
order-kept c k (err closed) h = h

price-kept :
    {F : Type 0} (c : Change) (pump : Pump) (r : Result (MarkUpdate F) RecvError)
    → pending c pump.conflator ≡ true
    → pending c (on_price pump r).conflator ≡ true
unfolding on_price on_mark
price-kept (mark id) pump (ok m) h = has-insert_id_other pump.conflator.marks m.instrument_id id h
price-kept order pump (ok m) h = h
price-kept position pump (ok m) h = h
price-kept missed pump (ok m) h = h
price-kept c pump (err (lagged _)) h = h
price-kept c pump (err closed) h = h

module _ (F K : Type 0) where
  flush-announces :
      (c : Change) (pump : Pump)
      → pending c pump.conflator ≡ true
      → announced c (step {F = F} {K = K} pump (flush c)).1 ≡ true
  unfolding step take_fast take_marks
  flush-announces order pump h = ground (arith, h)
  flush-announces position pump h = ground (arith, h)
  flush-announces missed pump h = ground (arith, h)
  flush-announces (mark id) pump h = marks-flushed pump.conflator.marks id h

  -- A pending change stays pending, or a notice of it goes out.
  step-kept :
      (c : Change) (pump : Pump) (b : Branch F K)
      → pending c pump.conflator ≡ true
      → (pending c (step pump b).0.conflator || announced c (step pump b).1) ≡ true
  unfolding step take_fast take_marks
  step-kept c pump (order_received r) h = elim (Bool-cases pump.order_open) [
    | inl on ↦ rw (on, order-kept c pump.conflator r h) refl
    | inr off ↦ rw (off, h) refl
  ]
  step-kept c pump (price_received r) h = elim (Bool-cases pump.price_open) [
    | inl on ↦ simp (on, price-kept c pump r h)
    | inr off ↦ rw (off, h) refl
  ]
  step-kept (mark id) pump fast_tick h = rw h refl
  step-kept order pump fast_tick h = flush-announces order pump h
  step-kept position pump fast_tick h = flush-announces position pump h
  step-kept missed pump fast_tick h = flush-announces missed pump h
  step-kept (mark id) pump slow_tick h = flush-announces (mark id) pump h
  step-kept order pump slow_tick h = rw h refl
  step-kept position pump slow_tick h = rw h refl
  step-kept missed pump slow_tick h = rw h refl
  step-kept c pump heartbeat_tick h = rw h refl

  run-announces :
      (c : Change) (pump : Pump) (mid : List (Branch F K))
      → pending c pump.conflator ≡ true
      → announced c (run pump (mid ++ (flush c ∷ []))).1 ≡ true
  unfolding run
  run-announces c pump [] h =
      announced-append c (step {F = F} {K = K} pump (flush c)).1 []
      ∙ rw (flush-announces c pump h) refl
  run-announces c pump (b ∷ mid) h =
      let later = (run (step pump b).0 (mid ++ (flush c ∷ []))).1 in
      announced-append c (step pump b).1 later
      ∙ elim (Bool-cases (pending c (step pump b).0.conflator)) [
        | inl still ↦ grind (arith, run-announces c (step pump b).0 mid still)
        | inr sent ↦ grind (arith, step-kept c pump b h, sent)
      ]

  brought-pending :
      (c : Change) (pump : Pump) (b : Branch F K)
      → brings pump b ≡ some c
      → pending c (step pump b).0.conflator ≡ true
  unfolding step on_order on_price on_mark
  brought-pending c pump (order_received (ok (OrderLaneEvent.appended _ _ _))) h = grind (arith, h)
  brought-pending c pump (order_received (ok (OrderLaneEvent.position_changed _ _))) h =
      grind (arith, h)
  brought-pending c pump (order_received (err (lagged _))) h = grind (arith, h)
  brought-pending c pump (order_received (err closed)) h = absurd (cc)
  brought-pending c pump (price_received (ok m)) h =
      grind (arith, h, has-insert_id pump.conflator.marks m.instrument_id)
  brought-pending c pump (price_received (err e)) h = absurd (cc)
  brought-pending c pump fast_tick h = absurd (cc)
  brought-pending c pump slow_tick h = absurd (cc)
  brought-pending c pump heartbeat_tick h = absurd (cc)

module _ {F K : Type 0} where
  -- No change is lost: when the pump receives a change, on a lane that it still reads, then whatever
  -- it does next, by the next flush of the change's kind, which is the fast tick for the order lane
  -- and the slow tick for marks, a notice that covers the change has gone out. A resync covers every
  -- change of the order lane, and is what goes out if messages were missed.
  pub pump-announces :
      (c : Change) (pump : Pump) (b : Branch F K)
      → brings pump b ≡ some c
      → (next : List (Branch F K)) → announced c (run pump (b ∷ (next ++ (flush c ∷ [])))).1 ≡ true
  unfolding run
  pump-announces c pump b h next =
      announced-append c (step pump b).1 (run (step pump b).0 (next ++ (flush c ∷ []))).1
      ∙ grind (arith, run-announces F K c (step pump b).0 next (brought-pending F K c pump b h))
