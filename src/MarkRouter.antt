-- ===== src/MarkRouter.antt =====
-- src/mark_router.rs, with the store of src/marks.rs and the price lane of src/event_bus.rs: which
-- source's quotes set the mark of an instrument.
pub mod Mirror
pub mod Ownership
use openoms.Base.{
  ℕ, ◌-◌, ◌/◌, ◌^◌, Bool, true, false, ◌&&◌, String, str_eq, Option, none, some, List, [], ◌∷◌,
  ◌++◌, if◌then◌else◌, leb, ◌==◌, unwrap_or,
}
use openoms.Base.Int.{ℤ, pos, ltb_ℤ}
use openoms.Float.{Float64}

-- The part of a quote that the router reads. An instrument's id is an i64 by its bit pattern, a
-- time counts nanoseconds.
pub record Quote (F : Type 0) : Type 0 where
  pub instrument_id : ℕ
  pub bid : F
  pub ask : F
  pub ts_recv : ℕ
  pub source_code : String

pub record Active : Type 0 where
  pub source : String
  pub rank : ℤ
  pub at : ℕ

pub record Mark (F : Type 0) : Type 0 where
  pub bid : F
  pub ask : F
  pub ts : ℕ

pub record MarkUpdate (F : Type 0) : Type 0 where
  pub instrument_id : ℕ
  pub bid : F
  pub ask : F

abbrev pub stale_after_secs : ℕ
stale_after_secs = 10

abbrev pub unranked : ℤ
unranked = pos 1000

-- `HashMap::insert`
abbrev pub insert : {A : Type 0} → (ℕ → Option A) → ℕ → A → ℕ → Option A
insert table k a j = if j == k then some a else table j

-- Whole seconds from one time to a later one, 0 if it is not later.
abbrev pub quiet_for : ℕ → ℕ → ℕ
quiet_for now at = (now - at) / 10 ^ 9

-- The `match` of `accept`: whether the quote takes the mark.
unfoldable pub takes : {F : Type 0} → Option Active → Quote F → ℤ → Bool
takes none q rank = true
takes (some cur) q rank =
    if str_eq cur.source q.source_code
    then true
    else (if ltb_ℤ rank cur.rank then true else leb stale_after_secs (quiet_for q.ts_recv cur.at))

unfoldable pub accept :
    {F : Type 0} → (ℕ → Option Active) → Quote F → ℤ → (ℕ → Option Active) × Bool
unfolding takes
accept active q rank =
    if takes (active q.instrument_id) q rank
    then (
      insert active q.instrument_id
          (record { source = q.source_code; rank = rank; at = q.ts_recv }),
      true,
    )
    else (active, false)

-- What the router writes: the owners, the marks, and the messages on the price lane in order.
pub record Router (F : Type 0) : Type 0 where
  pub active : ℕ → Option Active
  pub marks : ℕ → Option (Mark F)
  pub lane : List (MarkUpdate F)

-- What it reads besides quotes: the loaded policy, empty if loading failed, and an instrument's
-- class.
pub record Policy : Type 0 where
  pub rank_of : String → String → Option ℤ
  pub class_of : ℕ → Option String

module _ {F : Type 0} ⦃fl : Float64 F⦄ where
  unfoldable pub is_usable : F → F → Bool
  is_usable bid ask = fl.lt fl.zero_f64 ask && (fl.le fl.zero_f64 bid && fl.le bid ask)

abbrev pub update_of : {F : Type 0} → Quote F → MarkUpdate F
update_of q = record { instrument_id = q.instrument_id; bid = q.bid; ask = q.ask }

module _ {F : Type 0} where
  unfoldable pub apply_accepted : Router F → Quote F → ℕ → Router F
  apply_accepted router q now = record router {
    marks = insert router.marks q.instrument_id (record { bid = q.bid; ask = q.ask; ts = now });
    lane = router.lane ++ (update_of q ∷ []);
  }

  -- A usable quote of a known class.
  unfoldable pub route_ranked : Router F → Quote F → ℕ → ℤ → Router F
  unfolding accept apply_accepted
  route_ranked router q now rank =
      let (active, accepted) = accept router.active q rank in
      if accepted then apply_accepted (record router { active = active }) q now else router

  unfoldable pub route_classed : Policy → Router F → Quote F → ℕ → Option String → Router F
  unfolding route_ranked
  route_classed policy router q now none = router
  route_classed policy router q now (some class) =
      route_ranked router q now (unwrap_or (policy.rank_of q.source_code class) unranked)

module _ {F : Type 0} ⦃fl : Float64 F⦄ where
  -- The body of the loop of `run`, with the time at which the mark is set.
  unfoldable pub route : Policy → Router F → Quote F × ℕ → Router F
  unfolding is_usable route_classed
  route policy router (q, now) =
      if is_usable q.bid q.ask
      then route_classed policy router q now (policy.class_of q.instrument_id)
      else router

  unfoldable pub run : Policy → Router F → List (Quote F × ℕ) → Router F
  unfolding route
  run policy router [] = router
  run policy router (q ∷ qs) = run policy (route policy router q) qs
