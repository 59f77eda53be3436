-- ===== src/Orders/Aggregate/Apply.antt =====
-- `OrderAggregate::apply` and `rehydrate`: folding events into the state of an order.
use openoms.Base.{
  ℕ, String, Bool, true, false, Option, none, some, List, [], ◌∷◌, Result, ok, ◌>>=◌, if◌then◌else◌,
  ok_or,
}
use openoms.Float.{Float64}
use openoms.Orders.State.{OrderStatus, OrderAggregateState}
use openoms.Orders.Errors.{CommandRejection, new, order_not_found}
use openoms.Orders.Events.{
  OrderEventPayload, OrderDomainEvent, FillFields, SubmittedFields, AmendedFields,
}
use openoms.Orders.Lifecycle.{is_suspended}
use openoms.Orders.Aggregate.{OrderAggregate, empty}

module _ {F : Type 0} ⦃fl : Float64 F⦄ where
  unfoldable pub apply_submitted :
      String → SubmittedFields F → ℕ → OrderStatus → OrderAggregateState F
  apply_submitted order_id p version status_after = record {
    order_id = order_id;
    client_order_id = p.client_order_id;
    portfolio_id = p.portfolio_id;
    account_id = p.account_id;
    instrument_id = p.instrument_id;
    side = p.side;
    order_type = p.order_type;
    time_in_force = p.time_in_force;
    limit_price = p.limit_price;
    original_qty = p.quantity;
    leaves_qty = p.quantity;
    cum_qty = fl.zero_f64;
    avg_px = none;
    status = status_after;
    resume_to_status = none;
    version = version;
  }

  unfoldable pub apply_amended :
      OrderAggregateState F → AmendedFields F → ℕ → OrderStatus → OrderAggregateState F
  apply_amended state p version status_after = record state {
    limit_price = p.new_limit_price;
    original_qty = p.new_quantity;
    leaves_qty = fl.sub p.new_quantity state.cum_qty;
    status = status_after;
    version = version;
  }

  unfoldable pub apply_fill_fields :
      OrderAggregateState F → FillFields F → ℕ → OrderStatus → OrderAggregateState F
  apply_fill_fields state p version status_after = record state {
    cum_qty = p.cum_qty;
    leaves_qty = p.leaves_qty;
    avg_px = some p.avg_px;
    status = status_after;
    version = version;
  }

  -- Rejected, canceled, expired, routed and cancel-rejected: only a cancel takes the leaves to 0.
  unfoldable pub apply_lifecycle :
      OrderAggregateState F → (is_canceled : Bool) → ℕ → OrderStatus → OrderAggregateState F
  unfolding is_suspended
  apply_lifecycle state is_canceled version status_after = record state {
    leaves_qty = if is_canceled then fl.zero_f64 else state.leaves_qty;
    status = status_after;
    resume_to_status = if is_suspended status_after then state.resume_to_status else none;
    version = version;
  }

-- The three texts of `ok_or_else`.
unfoldable pub existing {ℓ} : {A : Type ℓ} → Option A → String → Result A CommandRejection
unfolding new
existing state message = ok_or state (new order_not_found message)

abbrev pub before_lifecycle : String
before_lifecycle = "cannot apply lifecycle event before submit"

module _ {F : Type 0} ⦃fl : Float64 F⦄ where
  -- The `match` of `apply`, on the state and the payload of the event.
  unfoldable pub apply_payload :
      Option (OrderAggregateState F)
      → String
      → ℕ
      → OrderStatus
      → OrderEventPayload F
      → Result (OrderAggregateState F) CommandRejection
  unfolding apply_submitted apply_amended apply_fill_fields apply_lifecycle existing
  apply_payload state order_id version after (OrderEventPayload.order_submitted p) =
      ok (apply_submitted order_id p version after)
  apply_payload state order_id version after (OrderEventPayload.order_amended p) = do
    s ← existing state "cannot amend state before submit"
    ok (apply_amended s p version after)
  apply_payload state order_id version after (OrderEventPayload.order_partially_filled p) = do
    s ← existing state "cannot fill state before submit"
    ok (apply_fill_fields s p version after)
  apply_payload state order_id version after (OrderEventPayload.order_filled p) = do
    s ← existing state "cannot fill state before submit"
    ok (apply_fill_fields s p version after)
  apply_payload state order_id version after
        (OrderEventPayload.order_suspended _ resume_to_status) =
      do
        s ← existing state before_lifecycle
        ok (record s {
          status = after;
          resume_to_status = some resume_to_status;
          version = version;
        })
  apply_payload state order_id version after (OrderEventPayload.order_released resumed_to_status) =
      do
        s ← existing state before_lifecycle
        ok (record s { status = resumed_to_status; resume_to_status = none; version = version })
  apply_payload state order_id version after (OrderEventPayload.order_canceled _) = do
    s ← existing state before_lifecycle
    ok (apply_lifecycle s true version after)
  apply_payload state order_id version after (OrderEventPayload.order_rejected _) = do
    s ← existing state before_lifecycle
    ok (apply_lifecycle s false version after)
  apply_payload state order_id version after (OrderEventPayload.order_expired _) = do
    s ← existing state before_lifecycle
    ok (apply_lifecycle s false version after)
  apply_payload state order_id version after (OrderEventPayload.order_routed _ _) = do
    s ← existing state before_lifecycle
    ok (apply_lifecycle s false version after)
  apply_payload state order_id version after (OrderEventPayload.cancel_rejected _) = do
    s ← existing state before_lifecycle
    ok (apply_lifecycle s false version after)

module _ {F T : Type 0} ⦃fl : Float64 F⦄ where
  unfoldable pub apply :
      OrderAggregate F → OrderDomainEvent F T → Result (OrderAggregate F) CommandRejection
  unfolding apply_payload
  apply aggregate event = do
    s ← apply_payload aggregate.state event.order_id event.version event.status_after event.payload
    ok (record { state = some s })

  -- The loop of `rehydrate`, from any aggregate.
  unfoldable pub apply_all :
      OrderAggregate F → List (OrderDomainEvent F T) → Result (OrderAggregate F) CommandRejection
  unfolding apply
  apply_all aggregate [] = ok aggregate
  apply_all aggregate (event ∷ events) = apply aggregate event >>= λ next. apply_all next events

  unfoldable pub rehydrate :
      List (OrderDomainEvent F T) → Result (OrderAggregate F) CommandRejection
  unfolding apply_all empty
  rehydrate events = apply_all empty events
