-- ===== src/Orders/Aggregate/Decide.antt =====
-- `OrderAggregate::decide`: the events that a command leads to, or why it is refused.
use openoms.Base.{
  ℕ, ◌+◌, ◌%◌, ◌^◌, String, Bool, false, ◌||◌, Option, none, some, List, [], ◌∷◌, Result, ok, err,
  ◌>>=◌, ◌>>◌, if◌then◌else◌, ok_or, unwrap_or, or_option, map_option,
}
use openoms.Float.{Float64}
use openoms.Orders.State.{OrderStatus, OrderAggregateState}
use openoms.Orders.Errors.{
  CommandRejection, new, invalid_quantity, invalid_price, invalid_state_transition,
  invalid_execution_report,
}
use openoms.Orders.Events.{OrderEventType, OrderEventPayload, OrderDomainEvent}
use openoms.Orders.Commands.{
  SubmitOrder, ReplaceOrder, CancelOrder, SuspendOrder, ReleaseOrder, RouteOrder, ExpireOrder,
  ExecutionReport, OrderCommand,
}
use openoms.Orders.Invariants.{validate_submit, require_existing_order}
use openoms.Orders.Lifecycle.{kind, ensure_command_allowed}
use openoms.Orders.Aggregate.{EventMetadata, OrderAggregate}

-- `state.version + 1` on i64, which wraps.
unfoldable pub next_version : ℕ → ℕ
next_version v = (v + 1) % 2 ^ 64

module _ {F T : Type 0} where
  -- The fields of the envelope that every event takes from the metadata.
  unfoldable pub envelope :
      EventMetadata T
      → String
      → OrderEventType
      → OrderEventPayload F
      → ℕ
      → OrderStatus
      → OrderDomainEvent F T
  envelope metadata order_id event_type payload version status_after = record {
    event_id = metadata.event_id;
    event_type = event_type;
    order_id = order_id;
    timestamp = metadata.timestamp;
    actor = metadata.actor;
    payload = payload;
    version = version;
    status_after = status_after;
  }

abbrev pub Decision : Type 0 → Type 0 → Type 0
Decision F T = Result (List (OrderDomainEvent F T)) CommandRejection

-- `px` is refused only if it is a number `<= 0`.
unfoldable pub is_bad_price : {F : Type 0} ⦃fl : Float64 F⦄ → Option F → Bool
is_bad_price none = false
is_bad_price ⦃fl⦄ (some px) = fl.le px fl.zero_f64

module _ {F T : Type 0} ⦃fl : Float64 F⦄ where
  unfoldable pub decide_submit : SubmitOrder F → EventMetadata T → Decision F T
  unfolding envelope validate_submit
  decide_submit cmd metadata = do
    validate_submit cmd.quantity cmd.order_type cmd.limit_price
    ok (
        envelope metadata cmd.order_id OrderEventType.order_submitted
          (OrderEventPayload.order_submitted (record {
            client_order_id = cmd.client_order_id;
            portfolio_id = cmd.portfolio_id;
            account_id = cmd.account_id;
            instrument_id = cmd.instrument_id;
            side = cmd.side;
            order_type = cmd.order_type;
            time_in_force = cmd.time_in_force;
            limit_price = cmd.limit_price;
            quantity = cmd.quantity;
          }))
          1 OrderStatus.submitted
        ∷ [])

  unfoldable pub decide_route : OrderAggregateState F → RouteOrder → EventMetadata T → Decision F T
  unfolding envelope next_version
  decide_route state cmd metadata = ok (
      envelope metadata cmd.order_id OrderEventType.order_routed
        (OrderEventPayload.order_routed cmd.venue cmd.external_order_id)
        (next_version state.version) OrderStatus.routed
      ∷ [])

  unfoldable pub decide_replace :
      OrderAggregateState F → ReplaceOrder F → EventMetadata T → Decision F T
  unfolding envelope next_version is_bad_price new
  decide_replace state cmd metadata =
      let new_quantity = unwrap_or cmd.new_quantity state.original_qty in
      if fl.le new_quantity fl.zero_f64 || fl.lt new_quantity state.cum_qty
      then err (
          new invalid_quantity
            "new quantity must be positive and cannot be less than cumulative fill")
      else (if is_bad_price cmd.new_limit_price
          then err (new invalid_price "new limit price must be positive")
          else ok (
              envelope metadata cmd.order_id OrderEventType.order_amended
                (OrderEventPayload.order_amended (record {
                  previous_limit_price = state.limit_price;
                  new_limit_price = or_option cmd.new_limit_price state.limit_price;
                  previous_quantity = state.original_qty;
                  new_quantity = new_quantity;
                }))
                (next_version state.version) state.status
              ∷ []))

  unfoldable pub decide_cancel :
      OrderAggregateState F → CancelOrder → EventMetadata T → Decision F T
  unfolding envelope next_version
  decide_cancel state cmd metadata = ok (
      envelope metadata cmd.order_id OrderEventType.order_canceled
        (OrderEventPayload.order_canceled cmd.reason) (next_version state.version)
        OrderStatus.canceled
      ∷ [])

  unfoldable pub decide_suspend :
      OrderAggregateState F → SuspendOrder → EventMetadata T → Decision F T
  unfolding envelope next_version
  decide_suspend state cmd metadata = ok (
      envelope metadata cmd.order_id OrderEventType.order_suspended
        (OrderEventPayload.order_suspended cmd.reason state.status) (next_version state.version)
        OrderStatus.suspended
      ∷ [])

  unfoldable pub decide_release :
      OrderAggregateState F → ReleaseOrder → EventMetadata T → Decision F T
  unfolding envelope next_version new
  decide_release state cmd metadata = do
    resumed_to_status ←
        ok_or state.resume_to_status
          (new invalid_state_transition "release requires stored pre-suspend status")
    ok (
        envelope metadata cmd.order_id OrderEventType.order_released
          (OrderEventPayload.order_released resumed_to_status) (next_version state.version)
          resumed_to_status
        ∷ [])

  -- The event of a fill that passed the guards.
  unfoldable pub fill_event :
      OrderAggregateState F
      → String
      → (execution_id : String) (fill_qty fill_price : F) (venue : String) → EventMetadata T
      → OrderDomainEvent F T
  unfolding envelope next_version
  fill_event state order_id execution_id fill_qty fill_price venue metadata =
      let next_cum = fl.add state.cum_qty fill_qty in
      let next_leaves = fl.sub state.original_qty next_cum in
      let prev_notional = fl.mul state.cum_qty (unwrap_or state.avg_px fl.zero_f64) in
      let next_avg = fl.div (fl.add prev_notional (fl.mul fill_qty fill_price)) next_cum in
      let version = next_version state.version in
      if fl.lt fl.zero_f64 next_leaves
      then envelope metadata order_id OrderEventType.order_partially_filled
          (OrderEventPayload.order_partially_filled (record {
            execution_id = execution_id;
            fill_qty = fill_qty;
            fill_price = fill_price;
            cum_qty = next_cum;
            leaves_qty = next_leaves;
            avg_px = next_avg;
            venue = venue;
          }))
          version OrderStatus.partially_filled
      else envelope metadata order_id OrderEventType.order_filled
          (OrderEventPayload.order_filled (record {
            execution_id = execution_id;
            fill_qty = fill_qty;
            fill_price = fill_price;
            cum_qty = next_cum;
            leaves_qty = fl.zero_f64;
            avg_px = next_avg;
            venue = venue;
          }))
          version OrderStatus.filled

  unfoldable pub decide_report :
      OrderAggregateState F → String → ExecutionReport F → EventMetadata T → Decision F T
  unfolding envelope next_version fill_event new
  decide_report state order_id (ExecutionReport.reject reason _) metadata = ok (
      envelope metadata order_id OrderEventType.order_rejected
        (OrderEventPayload.order_rejected reason) (next_version state.version) OrderStatus.rejected
      ∷ [])
  decide_report state order_id (ExecutionReport.canceled reason _) metadata = ok (
      envelope metadata order_id OrderEventType.order_canceled
        (OrderEventPayload.order_canceled reason) (next_version state.version) OrderStatus.canceled
      ∷ [])
  decide_report state order_id (ExecutionReport.fill execution_id fill_qty fill_price venue)
        metadata =
      if fl.le fill_qty fl.zero_f64
      then err (new invalid_execution_report "fill quantity must be greater than zero")
      else (if fl.le fill_price fl.zero_f64
          then err (new invalid_execution_report "fill price must be greater than zero")
          else (if fl.lt state.original_qty (fl.add state.cum_qty fill_qty)
              then err (new invalid_execution_report "fill quantity exceeds remaining quantity")
              else ok
                  (fill_event state order_id execution_id fill_qty fill_price venue metadata ∷ [])))

  unfoldable pub decide_expire :
      OrderAggregateState F → ExpireOrder → EventMetadata T → Decision F T
  unfolding envelope next_version
  decide_expire state cmd metadata = ok (
      envelope metadata cmd.order_id OrderEventType.order_expired
        (OrderEventPayload.order_expired cmd.reason) (next_version state.version)
        OrderStatus.expired
      ∷ [])

  -- The `match command` of `decide`.
  unfoldable pub decide_command :
      Option (OrderAggregateState F) → OrderCommand F → EventMetadata T → Decision F T
  unfolding decide_submit decide_route decide_replace decide_cancel decide_suspend decide_release
      decide_report decide_expire require_existing_order
  decide_command state (OrderCommand.submit_order cmd) metadata = decide_submit cmd metadata
  decide_command state (OrderCommand.route_order cmd) metadata = do
    s ← require_existing_order state
    decide_route s cmd metadata
  decide_command state (OrderCommand.replace_order cmd) metadata = do
    s ← require_existing_order state
    decide_replace s cmd metadata
  decide_command state (OrderCommand.cancel_order cmd) metadata = do
    s ← require_existing_order state
    decide_cancel s cmd metadata
  decide_command state (OrderCommand.suspend_order cmd) metadata = do
    s ← require_existing_order state
    decide_suspend s cmd metadata
  decide_command state (OrderCommand.release_order cmd) metadata = do
    s ← require_existing_order state
    decide_release s cmd metadata
  decide_command state (OrderCommand.receive_execution_report cmd) metadata = do
    s ← require_existing_order state
    decide_report s cmd.order_id cmd.report metadata
  decide_command state (OrderCommand.expire_order cmd) metadata = do
    s ← require_existing_order state
    decide_expire s cmd metadata

  unfoldable pub decide : OrderAggregate F → OrderCommand F → EventMetadata T → Decision F T
  unfolding decide_command ensure_command_allowed kind
  decide aggregate command metadata = do
    ensure_command_allowed (map_option (λ s. s.status) aggregate.state) (kind command)
    decide_command aggregate.state command metadata
