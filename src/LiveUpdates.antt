-- ===== src/LiveUpdates.antt =====
-- src/live_updates.rs: the notices of one open screen, conflated from both lanes of the bus.
pub mod Delivery
use openoms.Base.{
  ℕ, Bool, true, false, Option, none, some, List, [], ◌∷◌, ◌++◌, Result, ok, err, ◌==◌, ltb,
  if◌then◌else◌,
}
use openoms.EventBus.{OrderLaneEvent}
use openoms.MarkRouter.{MarkUpdate}

-- What a subscription of the bus can answer besides a message.
pub data RecvError : Type 0 where
  lagged : ℕ → RecvError
  closed : RecvError

pub data UiNotice : Type 0 where
  orders positions resync heartbeat : UiNotice
  marks : (instrument_ids : List ℕ) → UiNotice

-- The marks' ids ascend.
pub record Conflator : Type 0 where
  pub orders : Bool
  pub positions : Bool
  pub resync : Bool
  pub marks : List ℕ

abbrev pub nothing_changed : Conflator
nothing_changed = record { orders = false; positions = false; resync = false; marks = [] }

-- `BTreeSet::insert`
unfoldable pub insert_id : List ℕ → ℕ → List ℕ
insert_id [] id = id ∷ []
insert_id (x ∷ xs) id =
    let rest = insert_id xs id in
    if id == x then x ∷ xs else if ltb id x then id ∷ x ∷ xs else x ∷ rest

unfoldable pub on_order : {K : Type 0} → Conflator → Result (OrderLaneEvent K) RecvError → Conflator
on_order self (ok (OrderLaneEvent.appended _ _ _)) = record self { orders = true }
on_order self (ok (OrderLaneEvent.position_changed _ _)) = record self { positions = true }
on_order self (err (lagged _)) = record self { resync = true }
on_order self (err closed) = self

unfoldable pub on_mark : {F : Type 0} → Conflator → MarkUpdate F → Conflator
unfolding insert_id
on_mark self m = record self { marks = insert_id self.marks m.instrument_id }

unfoldable pub take_fast : Conflator → Conflator × List UiNotice
take_fast self = (
  record self { orders = false; positions = false; resync = false },
  if self.resync
      then UiNotice.resync ∷ []
      else (if self.orders then UiNotice.orders ∷ [] else [])
        ++ (if self.positions then UiNotice.positions ∷ [] else []),
)

abbrev pub marks_notice : List ℕ → Option UiNotice
marks_notice [] = none
marks_notice (id ∷ ids) = some (UiNotice.marks (id ∷ ids))

unfoldable pub take_marks : Conflator → Conflator × Option UiNotice
take_marks self = (record self { marks = [] }, marks_notice self.marks)

-- The variables of `pump`.
pub record Pump : Type 0 where
  pub conflator : Conflator
  pub order_open : Bool
  pub price_open : Bool

abbrev pub subscribed : Pump
subscribed = record { conflator = nothing_changed; order_open = true; price_open = true }

-- The branches of its `select!`, but for the one that ends it: the client's end closes the sequence.
pub data Branch (F K : Type 0) : Type 0 where
  order_received : Result (OrderLaneEvent K) RecvError → Branch F K
  price_received : Result (MarkUpdate F) RecvError → Branch F K
  fast_tick slow_tick heartbeat_tick : Branch F K

abbrev pub to_list : {A : Type 0} → Option A → List A
to_list none = []
to_list (some x) = x ∷ []

unfoldable pub on_price : {F : Type 0} → Pump → Result (MarkUpdate F) RecvError → Pump
unfolding on_mark
on_price pump (ok m) = record pump { conflator = on_mark pump.conflator m }
on_price pump (err (lagged _)) = pump
on_price pump (err closed) = record pump { price_open = false }

abbrev pub still_open : {K : Type 0} → Bool → Result (OrderLaneEvent K) RecvError → Bool
still_open order_open (err closed) = false
still_open order_open _ = order_open

module _ {F K : Type 0} where
  -- A branch whose guard fails is not taken.
  unfoldable pub step : Pump → Branch F K → Pump × List UiNotice
  unfolding on_order on_price take_fast take_marks
  step pump (order_received r) =
      if pump.order_open
      then (
        record pump {
          conflator = on_order pump.conflator r;
          order_open = still_open pump.order_open r;
        },
        [],
      )
      else (pump, [])
  step pump (price_received r) = if pump.price_open then (on_price pump r, []) else (pump, [])
  step pump fast_tick =
      let (next, notices) = take_fast pump.conflator in (record pump { conflator = next }, notices)
  step pump slow_tick =
      let (next, notice) = take_marks pump.conflator in
      (record pump { conflator = next }, to_list notice)
  step pump heartbeat_tick = (pump, UiNotice.heartbeat ∷ [])

  -- The loop, with what it sends.
  unfoldable pub run : Pump → List (Branch F K) → Pump × List UiNotice
  unfolding step
  run pump [] = (pump, [])
  run pump (b ∷ bs) =
      let (next, notices) = step pump b in
      let (last, later) = run next bs in (last, notices ++ later)
