-- ===== src/Recon.antt =====
-- src/recon_orders.rs: what a snapshot of the broker's open orders changes.
pub mod Plan
pub mod Answers
use openoms.Base.{
  Bool, true, false, not, ◌&&◌, ◌||◌, String, str_eq, Option, none, some, List, [], ◌∷◌, ◌++◌, map,
  Result, ok, err, if◌then◌else◌,
}
use openoms.Float.{Float64}
use openoms.Gateway.{
  Uuid, ExecSource, ExecKind, ExecEvent, BrokerOpenOrder, BrokerOrderOutcome, BrokerOrderState,
  BrokerError, BrokerAdapter,
}

pub record OmsWorkingOrder (F Key : Type 0) : Type 0 where
  pub order_id : Key
  pub symbol : String
  pub ext_id : String
  pub cum_qty : F
  pub avg_px : Option F

pub data ReconAction (F Key : Type 0) : Type 0 where
  resolve_terminal : (order_id : Key) (symbol ext_id : String) (oms_cum : F) → ReconAction F Key
  partial_drift : (order_id : Key) (oms_cum broker_executed : F) → ReconAction F Key
  orphan_at_broker : (client_order_id symbol : String) → ReconAction F Key

pub record StuckOrder (Key : Type 0) : Type 0 where
  pub order_id : Key
  pub symbol : String

pub data StuckAction (Key : Type 0) : Type 0 where
  route : (order_id : Key) (venue_order_id : String) → StuckAction Key
  ask_status : (order_id : Key) (symbol : String) → StuckAction Key

-- Reading the map that `plan_order_recon` collects: of two orders with one id, the later is kept.
unfoldable pub open_at :
    {F : Type 0} → List (BrokerOpenOrder F) → String → Option (BrokerOpenOrder F)
open_at [] id = none
open_at (b ∷ bs) id = elim (open_at bs id) [
  | some later ↦ some later
  | none ↦ if str_eq b.client_order_id id then some b else none
]

module _ {F Key : Type 0} ⦃fl : Float64 F⦄ where
  -- The action for an order of the OMS, given what the map holds for it.
  unfoldable pub oms_action :
      OmsWorkingOrder F Key → Option (BrokerOpenOrder F) → List (ReconAction F Key)
  oms_action o none = ReconAction.resolve_terminal o.order_id o.symbol o.ext_id o.cum_qty ∷ []
  oms_action o (some b) =
      if fl.lt fl.eps_f64 (fl.sub b.executed_qty o.cum_qty)
      then ReconAction.partial_drift o.order_id o.cum_qty b.executed_qty ∷ []
      else []

module _ {F Key : Type 0} ⦃uuid : Uuid Key⦄ where
  -- `oms_ids.contains(id)`
  unfoldable pub is_tracked : List (OmsWorkingOrder F Key) → String → Bool
  is_tracked [] id = false
  is_tracked (o ∷ os) id = str_eq (uuid.to_text o.order_id) id || is_tracked os id

  unfoldable pub orphans :
      List (OmsWorkingOrder F Key) → List (BrokerOpenOrder F) → List (ReconAction F Key)
  unfolding is_tracked
  orphans oms [] = []
  orphans oms (b ∷ bs) =
      (if is_tracked oms b.client_order_id
        then []
        else ReconAction.orphan_at_broker b.client_order_id b.symbol ∷ [])
      ++ orphans oms bs

module _ {F Key : Type 0} ⦃fl : Float64 F⦄ ⦃uuid : Uuid Key⦄ where
  unfoldable pub oms_actions :
      List (OmsWorkingOrder F Key) → List (BrokerOpenOrder F) → List (ReconAction F Key)
  unfolding oms_action open_at
  oms_actions [] broker_open = []
  oms_actions (o ∷ os) broker_open =
      oms_action o (open_at broker_open (uuid.to_text o.order_id)) ++ oms_actions os broker_open

  unfoldable pub plan_order_recon :
      List (OmsWorkingOrder F Key) → List (BrokerOpenOrder F) → List (ReconAction F Key)
  unfolding oms_actions orphans
  plan_order_recon oms broker_open = oms_actions oms broker_open ++ orphans oms broker_open

-- The first open order with the stuck order's id and an id of the venue.
unfoldable pub find_open :
    {F : Type 0} → List (BrokerOpenOrder F) → String → Option (BrokerOpenOrder F)
find_open [] id = none
find_open (b ∷ bs) id =
    if str_eq b.client_order_id id && not (str_eq b.venue_order_id "")
    then some b
    else find_open bs id

unfoldable pub stuck_action :
    {F Key : Type 0} → StuckOrder Key → Option (BrokerOpenOrder F) → StuckAction Key
stuck_action s (some b) = StuckAction.route s.order_id b.venue_order_id
stuck_action s none = StuckAction.ask_status s.order_id s.symbol

module _ {F Key : Type 0} ⦃uuid : Uuid Key⦄ where
  unfoldable pub plan_stuck :
      List (StuckOrder Key) → List (BrokerOpenOrder F) → List (StuckAction Key)
  unfolding stuck_action find_open
  plan_stuck stuck broker_open =
      map (λ s. stuck_action s (find_open broker_open (uuid.to_text s.order_id))) stuck

unfoldable pub stuck_kind :
    {F : Type 0} → BrokerOrderOutcome → BrokerOrderState F → Option (ExecKind F)
stuck_kind BrokerOrderOutcome.working state = none
stuck_kind BrokerOrderOutcome.filled state = some (ExecKind.terminal state)
stuck_kind BrokerOrderOutcome.canceled state = some (ExecKind.terminal state)
stuck_kind BrokerOrderOutcome.rejected state = some (ExecKind.terminal state)

unfoldable pub stuck_outcome :
    {F : Type 0} → Result (BrokerOrderState F) BrokerError → Option (ExecKind F)
unfolding stuck_kind
stuck_outcome (ok state) = stuck_kind state.outcome state
stuck_outcome (err (BrokerError.no_such_order _)) =
    some (ExecKind.rejected "never reached the broker")
stuck_outcome (err _) = none

module _ {F : Type 0} ⦃fl : Float64 F⦄ where
  -- What the OMS has not booked of the broker's cumulative quantity.
  unfoldable pub missing_qty : F → F → Option F
  missing_qty oms_cum broker_cum =
      if fl.lt fl.eps_f64 (fl.sub broker_cum oms_cum)
      then some (fl.sub broker_cum oms_cum)
      else none

  unfoldable pub increment_price : F → Option F → F → F → F
  increment_price oms_cum none broker_cum broker_avg = broker_avg
  increment_price oms_cum (some oms_avg) broker_cum broker_avg =
      let missing = fl.sub broker_cum oms_cum in
      let price = fl.div (fl.sub (fl.mul broker_avg broker_cum) (fl.mul oms_avg oms_cum)) missing in
      if fl.lt fl.eps_f64 oms_cum && fl.lt fl.eps_f64 missing
      then (if fl.is_finite price && fl.lt fl.zero_f64 price then price else broker_avg)
      else broker_avg

-- What one stuck order's action sends, if anything.
unfoldable pub settle_stuck :
    {F Key : Type 0} ⦃uuid : Uuid Key⦄
    → BrokerAdapter F
    → StuckAction Key
    → Option (Key × ExecKind F)
unfolding stuck_outcome
settle_stuck adapter (StuckAction.route order_id venue_order_id) =
    some (order_id, ExecKind.ack venue_order_id)
settle_stuck ⦃uuid⦄ adapter (StuckAction.ask_status order_id symbol) =
    elim (stuck_outcome (adapter.order_status (uuid.to_text order_id) "" symbol)) [
      | some kind ↦ some (order_id, kind)
      | none ↦ none
    ]

-- What one difference sends: only an order that the broker no longer lists is asked about.
unfoldable pub settle_action :
    {F Key : Type 0} ⦃uuid : Uuid Key⦄
    → BrokerAdapter F
    → ReconAction F Key
    → Option (Key × ExecKind F)
settle_action ⦃uuid⦄ adapter (ReconAction.resolve_terminal order_id symbol ext_id _) =
    elim (adapter.order_status (uuid.to_text order_id) ext_id symbol) [
      | ok st ↦ some (order_id, ExecKind.terminal st)
      | err _ ↦ none
    ]
settle_action adapter _ = none

abbrev pub snapshot_event : {F Key : Type 0} → String → String → Key × ExecKind F → ExecEvent F Key
snapshot_event broker_code actor (order_id, kind) = record {
  order_id = order_id;
  venue = broker_code;
  actor = actor;
  source = ExecSource.snapshot;
  kind = kind;
}

abbrev pub filter_map {ℓ κ} : {A : Type ℓ} {B : Type κ} → (A → Option B) → List A → List B
filter_map f [] = []
filter_map f (x ∷ xs) = elim (f x) [ none ↦ filter_map f xs | some y ↦ y ∷ filter_map f xs ]

unfoldable pub is_stuck : {Key : Type 0} ⦃uuid : Uuid Key⦄ → List (StuckOrder Key) → String → Bool
is_stuck [] id = false
is_stuck ⦃uuid⦄ (s ∷ ss) id = str_eq (uuid.to_text s.order_id) id || is_stuck ss id

module _ {F Key : Type 0} ⦃uuid : Uuid Key⦄ where
  unfoldable pub without_stuck :
      List (StuckOrder Key) → List (BrokerOpenOrder F) → List (BrokerOpenOrder F)
  unfolding is_stuck
  without_stuck stuck [] = []
  without_stuck stuck (b ∷ bs) =
      if is_stuck stuck b.client_order_id
      then without_stuck stuck bs
      else b ∷ without_stuck stuck bs

module _ {F Key : Type 0} ⦃fl : Float64 F⦄ ⦃uuid : Uuid Key⦄ where
  -- The events that the pass sends to the order engine once it has the snapshot, in order.
  unfoldable pub snapshot_events :
      List (OmsWorkingOrder F Key)
      → List (StuckOrder Key)
      → BrokerAdapter F
      → String
      → String
      → List (BrokerOpenOrder F)
      → List (ExecEvent F Key)
  unfolding plan_stuck settle_stuck plan_order_recon settle_action without_stuck
  snapshot_events oms stuck adapter broker_code actor broker_open =
      map (snapshot_event broker_code actor) (
        filter_map (settle_stuck adapter) (plan_stuck stuck broker_open)
        ++ filter_map (settle_action adapter)
            (plan_order_recon oms (without_stuck stuck broker_open)))

  unfoldable pub reconcile_with :
      List (OmsWorkingOrder F Key)
      → List (StuckOrder Key)
      → BrokerAdapter F
      → String
      → String
      → List (ExecEvent F Key)
  unfolding snapshot_events
  reconcile_with oms stuck adapter broker_code actor = elim adapter.open_orders [
    | err _ ↦ []
    | ok broker_open ↦ snapshot_events oms stuck adapter broker_code actor broker_open
  ]
