-- ===== src/OrderEntry/Submit/Outcomes.antt =====
-- What the first transaction of a submit may end in.
use openoms.Base.{
  ℕ, ◌≡◌, refl, sym, ◌⊎◌, inl, inr, true, String, Option, none, some, List, [], ◌∷◌, map, Result,
  ok, err, Result-cases, Option-cases, Bool-cases, subst,
}
use openoms.Float.{Float64}
use openoms.Orders.State.{rejected}
use openoms.Orders.Errors.{CommandRejection}
use openoms.Orders.Events.{OrderDomainEvent}
use openoms.Orders.Commands.{SubmitOrder, OrderCommand}
use openoms.Orders.Invariants.{validate_submit}
use openoms.Orders.Risk.{RiskRejection}
use openoms.Orders.Aggregate.{EventMetadata, empty, from_state}
use openoms.Orders.Aggregate.Decide.{decide}
use openoms.Orders.Aggregate.Apply.{apply_all}
use openoms.Orders.Aggregate.Commit.{decide-apply}
use openoms.Orders.Aggregate.Effect.{opened, moved}
use openoms.EventStore.{append_events, current_version, number_events}
use openoms.RiskEngine.{RiskCheckError, RiskDataProvider}
use openoms.RiskEngine as Engine
use openoms.Handlers.{StatusCode, ApiError, answer, internal}
use openoms.Execution.{Store, set_at, set_at-same}
use openoms.OrderEntry.{record_rejection}
use openoms.OrderEntry.Preflight.{Preflight}
use openoms.OrderEntry.{new_row}
use openoms.OrderEntry.Rejection.{
  insert_order_state-ok, insert_order_state_taken, record_rejection-ok, record_rejection_invalid,
  record_rejection_taken,
}
use openoms.OrderEntry.Submit.Checks.{CheckedBy, pre_trade-CheckedBy}
use openoms.OrderEntry.Submit.{
  Submitter, pre_trade, store_applied, store_decided, store_submitted, risk_api_error, refuse_order,
  store_checked, accept_order,
}

module _ {F T : Type 0} ⦃fl : Float64 F⦄ where
  -- A new order with one event.
  abbrev pub Opened : Store F T → String → SubmitOrder F → Store F T → Type 0
  Opened store id cmd next =
      (store.rows id ≡ none)
      × (next.rows id ≡ some (new_row (opened cmd)))
      × ((e : OrderDomainEvent F T) × (next.streams id ≡ record { version = 1; event = e } ∷ []))

  -- A new order that is rejected by its second event.
  abbrev pub Refused : Store F T → String → SubmitOrder F → Store F T → Type 0
  Refused store id cmd next =
      (store.rows id ≡ none)
      × (next.rows id ≡ some (new_row (moved (opened cmd) rejected)))
      × (map (λ e. e.version) (next.streams id) ≡ 1 ∷ 2 ∷ [])

  -- The refusal of a rejection is stored, or nothing is.
  abbrev pub RefusedOutcome :
      Store F T
      → String
      → SubmitOrder F
      → RiskRejection
      → Store F T × Result (Unit {0}) ApiError
      → Type 0
  RefusedOutcome store id cmd r result =
      ((next : Store F T) × (result ≡ (next, err (risk_api_error r))) × Refused store id cmd next)
      ⊎ ((e : ApiError) × (result ≡ (store, err e)))

  abbrev StoredOutcome : Store F T → String → SubmitOrder F → Result (Store F T) ApiError → Type 0
  StoredOutcome store id cmd result =
      ((next : Store F T) × (result ≡ ok next) × Opened store id cmd next)
      ⊎ ((e : ApiError) × (result ≡ err e))

module _ {F E : Type 0} ⦃fl : Float64 F⦄ (provider : RiskDataProvider F E String)
    (who : Submitter F) (p : Preflight F) (mark : Result (Option F) RiskRejection) where
  -- The caller may trade, there is a mark where one is needed, and the checks pass.
  abbrev pub Passed : Type 0
  Passed =
      (who.can_trade ≡ true)
      × ((m : Option F) × (mark ≡ ok m)
          × (pre_trade provider who p m who.locked ≡ ok tt)
          × CheckedBy provider who p m who.locked)

  -- There is no mark for a reason, or a check refuses.
  abbrev pub IsRefusal : RiskRejection → Type 0
  IsRefusal r =
      (mark ≡ err r)
      ⊎ ((who.can_trade ≡ true)
          × ((m : Option F) × (mark ≡ ok m)
              × (pre_trade provider who p m who.locked ≡ err (Engine.rejected r))))

  abbrev pub Outcome :
      {T : Type 0} → Store F T → String → Store F T × Result (Unit {0}) ApiError → Type 0
  Outcome {T} store id result =
      (Passed × ((next : Store F T) × (result ≡ (next, ok tt)) × Opened store id p.cmd next))
      ⊎ (((r : RiskRejection) × IsRefusal r
            × ((next : Store F T) × (result ≡ (next, err (risk_api_error r)))
                × Refused store id p.cmd next))
          ⊎ ((e : ApiError) × (result ≡ (store, err e))))

module _ {F T : Type 0} ⦃fl : Float64 F⦄ (store : Store F T) (id : String)
    (new : store.rows id ≡ none → store.streams id ≡ []) where
  refuse_order-Outcome :
      (cmd : SubmitOrder F) (r : RiskRejection) (m : ℕ → EventMetadata T)
      → RefusedOutcome store id cmd r (refuse_order store id cmd r m)
  unfolding refuse_order
  refuse_order-Outcome cmd r m =
      elim (Result-cases (validate_submit cmd.quantity cmd.order_type cmd.limit_price)) [
        | inr (_, invalid) ↦ failed (record_rejection_invalid store id cmd r (m 0) (m 1) invalid)
        | inl (_, valid) ↦ elim (Option-cases (store.rows id)) [
          | inr (_, taken) ↦ failed (record_rejection_taken store id cmd r (m 0) (m 1) valid taken)
          | inl free ↦
              let (next, h, row, stream) =
                record_rejection-ok store id cmd r (m 0) (m 1) valid free (new free) in
              inl (next, rw (h, refuse_order) refl, (free, row, stream))
        ]
      ]
    where
      failed :
          ((e : ApiError) × (record_rejection store id cmd r (m 0) (m 1) ≡ err e))
          → RefusedOutcome store id cmd r (refuse_order store id cmd r m)
      failed (e, h) = inr (e, rw (h, refuse_order) refl)

  store_applied-Outcome :
      (cmd : SubmitOrder F) (e : OrderDomainEvent F T)
      → StoredOutcome store id cmd
          (store_applied store id (e ∷ []) (ok (record { state = some (opened cmd) })))
  unfolding store_applied append_events number_events current_version
  store_applied-Outcome cmd e = elim (Option-cases (store.rows id)) [
    | inr (there, taken) ↦ inr (
      internal "failed to insert order state",
      rw (insert_order_state_taken store id (opened cmd) taken, store_applied) refl,
    )
    | inl free ↦
        let stream = ◌∷◌ (record { version = 1; event = e }) [] in
        inl (
          record store {
            rows = set_at store.rows id (some (new_row (opened cmd)));
            external_order_ids = set_at store.external_order_ids id none;
            streams = set_at store.streams id stream;
          },
          rw (insert_order_state-ok store id free (new free) (opened cmd), store_applied)
              (rw (new free, store_applied) refl),
          (
            free,
            set_at-same store.rows id (some (new_row (opened cmd))),
            (e, set_at-same store.streams id stream),
          ),
        )
  ]

  store_decided-Outcome :
      (cmd : SubmitOrder F) (m : EventMetadata T)
      (decision : Result (List (OrderDomainEvent F T)) CommandRejection)
      → decide empty (OrderCommand.submit_order cmd) m ≡ decision
      → StoredOutcome store id cmd (store_decided store id decision)
  unfolding store_decided apply_all empty from_state
  store_decided-Outcome cmd m (err r) h = inr (_, refl)
  store_decided-Outcome cmd m (ok events) h =
      let (e, t, single, applied, _, _, _, effect) =
        decide-apply empty (OrderCommand.submit_order cmd) m h in
      rw (single, store_decided)
        (rw (applied, store_decided)
          (subst
            (λ t. StoredOutcome store id cmd (store_applied store id (e ∷ []) (ok (from_state t))))
            (sym effect.1) (store_applied-Outcome cmd e)))

module _ {F E T : Type 0} ⦃fl : Float64 F⦄ (provider : RiskDataProvider F E String)
    (who : Submitter F) (p : Preflight F) (store : Store F T) (id : String)
    (new : store.rows id ≡ none → store.streams id ≡ []) (metadata : ℕ → EventMetadata T) where
  refused-Outcome :
      (mark : Result (Option F) RiskRejection) (r : RiskRejection)
      → IsRefusal provider who p mark r
      → Outcome provider who p mark store id (refuse_order store id p.cmd r metadata)
  refused-Outcome mark r why = elim (refuse_order-Outcome store id new p.cmd r metadata) [
    | inl stored ↦ inr (inl (r, why, stored))
    | inr nothing ↦ inr (inr nothing)
  ]

  store_checked-Outcome :
      (m : Option F) (risk : Result (Unit {0}) (RiskCheckError E))
      → pre_trade provider who p m who.locked ≡ risk
      → who.can_trade ≡ true
      → Outcome provider who p (ok m) store id (store_checked store id p.cmd metadata risk)
  unfolding store_checked store_submitted
  store_checked-Outcome m (err (Engine.rejected r)) h granted =
      refused-Outcome (ok m) r (inr (granted, (m, refl, h)))
  store_checked-Outcome m (err (Engine.unavailable e)) h granted = inr (inr (_, refl))
  store_checked-Outcome m (ok u) h granted =
      elim (store_decided-Outcome store id new p.cmd (metadata 0) _ refl) [
        | inl (next, stored, opened_there) ↦ inl (
          (granted, (m, refl, h, pre_trade-CheckedBy provider who p m who.locked h)),
          (next, rw (stored, store_checked) refl, opened_there),
        )
        | inr (e, failed) ↦ inr (inr (e, rw (failed, store_checked) refl))
      ]

  checked :
      (m : Option F)
      → store.rows id ≡ none
      → who.can_trade ≡ true
      → accept_order provider who p (ok m) store id metadata
        ≡ store_checked store id p.cmd metadata (pre_trade provider who p m who.locked)
  unfolding accept_order
  checked m free granted = rw (free, accept_order) (rw (granted, accept_order) refl)

  -- The first transaction of a submit, with what its look-ups gave. The order is stored as
  -- submitted, with one event, if the caller may trade, a mark is there where one is needed and the
  -- checks pass, which are the risk engine's for a portfolio without a strategy, and else that the
  -- strategy is known, the caller its own principal, its session live for an order by FIX, and the
  -- strategy's checks; it is stored as submitted and rejected, with two events, and answered with the
  -- refusal, if there is no mark or a check refuses; in both cases its id was free. Or there is
  -- another error, and the store does not change. An id without a row has no stream.
  pub accept_order-Outcome :
      (mark : Result (Option F) RiskRejection)
      → Outcome provider who p mark store id (accept_order provider who p mark store id metadata)
  unfolding accept_order
  accept_order-Outcome (err r) = refused-Outcome (err r) r (inl refl)
  accept_order-Outcome (ok m) = elim (Option-cases (store.rows id)) [
    | inr (_, taken) ↦
        inr (inr (answer StatusCode.conflict "order already exists", rw (taken, accept_order) refl))
    | inl free ↦ elim (Bool-cases who.can_trade) [
      | inr denied ↦ inr (
          inr (
            answer StatusCode.forbidden "unauthorized",
            rw (free, accept_order) (rw (denied, accept_order) refl),
          ))
      | inl granted ↦
          subst (Outcome provider who p (ok m) store id) (sym (checked m free granted))
            (store_checked-Outcome m (pre_trade provider who p m who.locked) refl granted)
    ]
  ]
