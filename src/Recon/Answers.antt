-- ===== src/Recon/Answers.antt =====
-- What reconciliation tells the order engine rests on the broker's answers.
use openoms.Base.{
  ◌≡◌, refl, String, Option, none, some, List, [], ◌∷◌, ◌++◌, map, Result, ok, err, All, IsIn,
  subst, sym, ◌≢◌, ◌&&◌, not, str_eq, eq_iff, Bool-cases, inl, inr, arith,
}
use mathlib.Core.Option.{some-injective}
use openoms.Float.{Float64}
use openoms.Gateway.{
  Uuid, ExecKind, ExecEvent, BrokerOpenOrder, BrokerOrderState, BrokerOrderOutcome, BrokerError,
  BrokerAdapter,
}
use openoms.Recon.{
  OmsWorkingOrder, ReconAction, StuckOrder, filter_map, find_open, stuck_action, stuck_kind,
  plan_stuck, stuck_outcome, settle_stuck, settle_action, plan_order_recon, reconcile_with,
  snapshot_event, snapshot_events, without_stuck,
}

All-append : {A : Type 0} (P : A → Type 0) (xs ys : List A) → All P xs → All P ys → All P (xs ++ ys)
All-append P [] ys h k = k
All-append P (x ∷ xs) ys h k = (h.0, All-append P xs ys h.1 k)

All-map :
    {A B : Type 0} (P : B → Type 0) (f : A → B) (xs : List A)
    → All (λ x. P (f x)) xs
    → All P (map f xs)
All-map P f [] h = tt
All-map P f (x ∷ xs) h = (h.0, All-map P f xs h.1)

abbrev OnSome : {A : Type 0} → (A → Type 0) → Option A → Type 0
OnSome P none = Unit
OnSome P (some a) = P a

All-keep :
    {B : Type 0} (P : B → Type 0) (y : Option B) (rest : List B)
    → OnSome P y
    → All P rest
    → All P (elim y [ none ↦ rest | some z ↦ z ∷ rest ])
All-keep P none rest p h = h
All-keep P (some z) rest p h = (p, h)

All-filter_map :
    {A B : Type 0} (P : B → Type 0) (f : A → Option B) (xs : List A)
    → All (λ x. OnSome P (f x)) xs
    → All P (filter_map f xs)
All-filter_map P f [] h = tt
All-filter_map P f (x ∷ xs) h = All-keep P (f x) (filter_map f xs) h.0 (All-filter_map P f xs h.1)

-- What the search finds stands in the list, with the id searched for and an id of the venue.
find_open-found :
    {F : Type 0} (bs : List (BrokerOpenOrder F)) (id : String) (b : BrokerOpenOrder F)
    → find_open bs id ≡ some b
    → IsIn b bs × (b.client_order_id ≡ id) × (b.venue_order_id ≢ "")
unfolding find_open
find_open-found [] id b h = absurd (cc)
find_open-found (x ∷ xs) id b h =
    elim (Bool-cases (str_eq x.client_order_id id && not (str_eq x.venue_order_id ""))) [
      | inr other ↦
          let (listed, own, named) = find_open-found xs id b (rw other at h) in
          (inr listed, own, named)
      | inl this ↦
          subst (λ b. IsIn b (x ∷ xs) × (b.client_order_id ≡ id) × (b.venue_order_id ≢ ""))
            (some-injective x b (rw this at h))
            (
              inl refl,
              ground (arith, this, eq_iff x.client_order_id id),
              λ e. ground (arith, this, e, eq_iff x.venue_order_id ""),
            )
    ]

module _ {F Key : Type 0} ⦃uuid : Uuid Key⦄ (adapter : BrokerAdapter F)
    (broker_open : List (BrokerOpenOrder F)) where
  -- What stands behind a message about an order: an open order that carries its id and the id that
  -- the venue gave it, which is not empty, the broker's answer on its state, or that it has no such order. Nothing stands behind a fill or a running total.
  abbrev pub Answered : Key → ExecKind F → Type 0
  Answered id (ExecKind.ack venue_id) =
      (b : BrokerOpenOrder F) × IsIn b broker_open
      × (b.client_order_id ≡ uuid.to_text id)
      × (b.venue_order_id ≡ venue_id)
      × (venue_id ≢ "")
  Answered id (ExecKind.terminal st) =
      (ext_id : String) × (symbol : String) × (adapter.order_status (uuid.to_text id) ext_id symbol
        ≡ ok st)
  Answered id (ExecKind.rejected reason) =
      (symbol : String) × (message : String) × (adapter.order_status (uuid.to_text id) "" symbol
        ≡ err (BrokerError.no_such_order message))
  Answered id _ = ⊥

  abbrev IsBacked : Key × ExecKind F → Type 0
  IsBacked (id, kind) = Answered id kind

  abbrev pub Backed : ExecEvent F Key → Type 0
  Backed ev = Answered ev.order_id ev.kind

  stuck_kind-Answered :
      (id : Key) (ext_id symbol : String) (outcome : BrokerOrderOutcome) (st : BrokerOrderState F)
      → adapter.order_status (uuid.to_text id) ext_id symbol ≡ ok st
      → OnSome (Answered id) (stuck_kind outcome st)
  unfolding stuck_kind
  stuck_kind-Answered id ext_id symbol BrokerOrderOutcome.working st h = tt
  stuck_kind-Answered id ext_id symbol BrokerOrderOutcome.filled st h = (ext_id, symbol, h)
  stuck_kind-Answered id ext_id symbol BrokerOrderOutcome.canceled st h = (ext_id, symbol, h)
  stuck_kind-Answered id ext_id symbol BrokerOrderOutcome.rejected st h = (ext_id, symbol, h)

  stuck_outcome-Answered :
      (id : Key) (symbol : String) (answer : Result (BrokerOrderState F) BrokerError)
      → adapter.order_status (uuid.to_text id) "" symbol ≡ answer
      → OnSome (Answered id) (stuck_outcome answer)
  unfolding stuck_outcome
  stuck_outcome-Answered id symbol (ok st) h = stuck_kind-Answered id "" symbol st.outcome st h
  stuck_outcome-Answered id symbol (err (BrokerError.no_such_order message)) h =
      (symbol, message, h)
  stuck_outcome-Answered id symbol (err (BrokerError.network _)) h = tt
  stuck_outcome-Answered id symbol (err (BrokerError.broker_rejected _)) h = tt
  stuck_outcome-Answered id symbol (err (BrokerError.not_configured _)) h = tt

  settle_stuck-Answered :
      (s : StuckOrder Key) (found : Option (BrokerOpenOrder F))
      → find_open broker_open (uuid.to_text s.order_id) ≡ found
      → OnSome IsBacked (settle_stuck adapter (stuck_action s found))
  unfolding settle_stuck stuck_action
  settle_stuck-Answered s (some b) h =
      let (listed, own, named) = find_open-found broker_open (uuid.to_text s.order_id) b h in
      (b, listed, own, refl, named)
  settle_stuck-Answered s none h =
      with_id (stuck_outcome _) (stuck_outcome-Answered s.order_id s.symbol _ refl)
    where
      with_id :
          (kind : Option (ExecKind F))
          → OnSome (Answered s.order_id) kind
          → OnSome IsBacked (elim kind [ some k ↦ some (s.order_id, k) | none ↦ none ])
      with_id none a = tt
      with_id (some k) a = a

  settle_action-Answered :
      (action : ReconAction F Key) → OnSome IsBacked (settle_action adapter action)
  unfolding settle_action
  settle_action-Answered (ReconAction.resolve_terminal id symbol ext_id cum) =
      with_answer (adapter.order_status (uuid.to_text id) ext_id symbol) refl
    where
      with_answer :
          (answer : Result (BrokerOrderState F) BrokerError)
          → adapter.order_status (uuid.to_text id) ext_id symbol ≡ answer
          → OnSome IsBacked (elim answer [ ok st ↦ some (id, ExecKind.terminal st) | err _ ↦ none ])
      with_answer (ok st) h = (ext_id, symbol, h)
      with_answer (err e) h = tt
  settle_action-Answered (ReconAction.partial_drift _ _ _) = tt
  settle_action-Answered (ReconAction.orphan_at_broker _ _) = tt

  plan_stuck-Answered :
      (stuck : List (StuckOrder Key))
      → All (λ a. OnSome IsBacked (settle_stuck adapter a)) (plan_stuck stuck broker_open)
  unfolding plan_stuck
  plan_stuck-Answered [] = tt
  plan_stuck-Answered (s ∷ ss) = (settle_stuck-Answered s _ refl, plan_stuck-Answered ss)

  actions-Answered :
      (actions : List (ReconAction F Key))
      → All (λ a. OnSome IsBacked (settle_action adapter a)) actions
  actions-Answered [] = tt
  actions-Answered (a ∷ rest) = (settle_action-Answered a, actions-Answered rest)

module _ {F Key : Type 0} ⦃fl : Float64 F⦄ ⦃uuid : Uuid Key⦄ where
  -- Everything that a pass over the broker's snapshot sends the order engine rests on the broker's
  -- answers: an acknowledgement on an open order of the snapshot that carries the order's id and the id
  -- acknowledged, which is not empty, a terminal message on the status that
  -- the broker gave, a rejection on its answer that there is no such order; a pass never sends a
  -- fill, a running total or a cancel of its own.
  pub reconcile_with-Answered :
      (oms : List (OmsWorkingOrder F Key)) (stuck : List (StuckOrder Key))
      (adapter : BrokerAdapter F) (broker_code actor : String)
      (broker_open : List (BrokerOpenOrder F))
      → adapter.open_orders ≡ ok broker_open
      → All
          (λ ev. Answered adapter broker_open ev.order_id ev.kind)
          (reconcile_with oms stuck adapter broker_code actor)
  unfolding reconcile_with snapshot_events
  reconcile_with-Answered oms stuck adapter broker_code actor broker_open h =
      subst
        (λ answer. All (Backed adapter broker_open) (elim answer [
          | err _ ↦ []
          | ok b ↦ snapshot_events oms stuck adapter broker_code actor b
        ]))
        (sym h)
        (All-map (Backed adapter broker_open) (snapshot_event broker_code actor) _ (
          All-append (IsBacked adapter broker_open) _ _
            (All-filter_map (IsBacked adapter broker_open) (settle_stuck adapter)
              (plan_stuck stuck broker_open) (plan_stuck-Answered adapter broker_open stuck))
            (All-filter_map (IsBacked adapter broker_open) (settle_action adapter)
              (plan_order_recon oms (without_stuck stuck broker_open))
              (actions-Answered adapter broker_open _))))
