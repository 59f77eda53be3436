-- ===== src/Orders/Aggregate/Effect.antt =====
-- The specification of the write model, without events: what an accepted command makes of the
-- state of an order, and the guards that it has passed.
use openoms.Base.{
  ◌≡◌, Bool, false, ◌||◌, Option, none, some, ok, if◌then◌else◌, unwrap_or, or_option,
}
use openoms.Float.{Float64}
use openoms.Orders.State.{
  OrderStatus, submitted, routed, partially_filled, filled, rejected, canceled, expired, suspended,
  OrderAggregateState,
}
use openoms.Orders.Commands.{SubmitOrder, ReplaceOrder, ExecutionReport, OrderCommand}
use openoms.Orders.Invariants.{validate_submit}
use openoms.Orders.Aggregate.Decide.{next_version, is_bad_price}

module _ {F : Type 0} ⦃fl : Float64 F⦄ where
  abbrev pub opened : SubmitOrder F → OrderAggregateState F
  opened c = record {
    order_id = c.order_id;
    client_order_id = c.client_order_id;
    portfolio_id = c.portfolio_id;
    account_id = c.account_id;
    instrument_id = c.instrument_id;
    side = c.side;
    order_type = c.order_type;
    time_in_force = c.time_in_force;
    limit_price = c.limit_price;
    original_qty = c.quantity;
    leaves_qty = c.quantity;
    cum_qty = fl.zero_f64;
    avg_px = none;
    status = submitted;
    resume_to_status = none;
    version = 1;
  }

  -- A new status that ends any suspension.
  abbrev pub moved : OrderAggregateState F → OrderStatus → OrderAggregateState F
  moved s status = record s {
    status = status;
    resume_to_status = none;
    version = next_version s.version;
  }

  abbrev pub closed : OrderAggregateState F → OrderAggregateState F
  closed s = record s {
    leaves_qty = fl.zero_f64;
    status = canceled;
    resume_to_status = none;
    version = next_version s.version;
  }

  abbrev pub new_quantity : OrderAggregateState F → ReplaceOrder F → F
  new_quantity s c = unwrap_or c.new_quantity s.original_qty

  abbrev pub amended : OrderAggregateState F → ReplaceOrder F → OrderAggregateState F
  amended s c = record s {
    limit_price = or_option c.new_limit_price s.limit_price;
    original_qty = new_quantity s c;
    leaves_qty = fl.sub (new_quantity s c) s.cum_qty;
    version = next_version s.version;
  }

  -- Whether a fill leaves something open.
  abbrev pub leaves_some : OrderAggregateState F → F → Bool
  leaves_some s qty = fl.lt fl.zero_f64 (fl.sub s.original_qty (fl.add s.cum_qty qty))

  abbrev pub average : OrderAggregateState F → F → F → F
  average s qty price =
      fl.div (fl.add (fl.mul s.cum_qty (unwrap_or s.avg_px fl.zero_f64)) (fl.mul qty price))
        (fl.add s.cum_qty qty)

  abbrev pub after_fill : OrderAggregateState F → F → F → OrderAggregateState F
  after_fill s qty price = record s {
    cum_qty = fl.add s.cum_qty qty;
    leaves_qty =
        if leaves_some s qty then fl.sub s.original_qty (fl.add s.cum_qty qty) else fl.zero_f64;
    avg_px = some (average s qty price);
    status = if leaves_some s qty then partially_filled else filled;
    version = next_version s.version;
  }

  abbrev pub ReportEffect :
      OrderAggregateState F → ExecutionReport F → OrderAggregateState F → Type 0
  ReportEffect s (ExecutionReport.reject _ _) t = t ≡ moved s rejected
  ReportEffect s (ExecutionReport.canceled _ _) t = t ≡ closed s
  ReportEffect s (ExecutionReport.fill _ qty price _) t =
      (fl.le qty fl.zero_f64 ≡ false)
      × (fl.le price fl.zero_f64 ≡ false)
      × (fl.lt s.original_qty (fl.add s.cum_qty qty) ≡ false)
      × (t ≡ after_fill s qty price)

  abbrev pub Effect :
      Option (OrderAggregateState F) → OrderCommand F → OrderAggregateState F → Type 0
  Effect none (OrderCommand.submit_order c) t =
      (validate_submit c.quantity c.order_type c.limit_price ≡ ok tt) × (t ≡ opened c)
  Effect none _ t = ⊥
  Effect (some s) (OrderCommand.submit_order c) t = ⊥
  Effect (some s) (OrderCommand.route_order c) t = t ≡ moved s routed
  Effect (some s) (OrderCommand.replace_order c) t =
      (fl.le (new_quantity s c) fl.zero_f64 || fl.lt (new_quantity s c) s.cum_qty ≡ false)
      × (is_bad_price c.new_limit_price ≡ false)
      × (t ≡ amended s c)
  Effect (some s) (OrderCommand.cancel_order c) t = t ≡ closed s
  Effect (some s) (OrderCommand.suspend_order c) t = t ≡ record s {
    status = suspended;
    resume_to_status = some s.status;
    version = next_version s.version;
  }
  Effect (some s) (OrderCommand.release_order c) t =
      (resumed : OrderStatus) × (s.resume_to_status ≡ some resumed) × (t ≡ moved s resumed)
  Effect (some s) (OrderCommand.receive_execution_report c) t = ReportEffect s c.report t
  Effect (some s) (OrderCommand.expire_order c) t = t ≡ moved s expired
