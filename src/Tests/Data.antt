-- ===== src/Tests/Data.antt =====
-- Orders, commands and events over the sample numbers.
use openoms.Base.{ℕ, none, some, List, [], ◌∷◌}
use openoms.Base.Int.{pos}
use openoms.Float.Sample.{Sample, sample_float}
use openoms.Orders.State.{OrderSide, OrderType, TimeInForce, OrderStatus, OrderAggregateState}
use openoms.Orders.Commands.{
  SubmitOrder, ReplaceOrder, CancelOrder, SuspendOrder, ReleaseOrder, OrderCommand,
}
use openoms.Orders.Aggregate.{EventMetadata}
use openoms.Orders.Aggregate.Fill.{fill_command}

abbrev pub number : ℕ → Sample
number n = some (pos n)

abbrev pub nan : Sample
nan = none

abbrev pub meta : ℕ → EventMetadata ℕ
meta n = record { event_id = "e"; timestamp = n; actor = "trader" }

abbrev pub submit_ten : SubmitOrder Sample
submit_ten = record {
  order_id = "o-1";
  client_order_id = "c-1";
  portfolio_id = "p-1";
  account_id = "a-1";
  instrument_id = "7";
  side = OrderSide.buy;
  order_type = OrderType.limit;
  time_in_force = TimeInForce.day;
  limit_price = some (number 100);
  quantity = number 10;
}

abbrev pub suspend_it : SuspendOrder
suspend_it = record { order_id = "o-1"; reason = none }

abbrev pub release_it : ReleaseOrder
release_it = record { order_id = "o-1" }

abbrev pub cancel_it : CancelOrder
cancel_it = record { order_id = "o-1"; reason = none }

abbrev pub fill_of : ℕ → ℕ → OrderCommand Sample
fill_of qty price = fill_command "o-1" "x-1" (number qty) (number price) "XNYS"

abbrev pub replace_with : ℕ → ReplaceOrder Sample
replace_with qty = record {
  order_id = "o-1";
  new_limit_price = none;
  new_quantity = some (number qty);
}

-- A routed order for 10 of which 4 are filled at 100.
abbrev pub part_filled : OrderAggregateState Sample
part_filled = record {
  order_id = "o-1";
  client_order_id = "c-1";
  portfolio_id = "p-1";
  account_id = "a-1";
  instrument_id = "7";
  side = OrderSide.buy;
  order_type = OrderType.limit;
  time_in_force = TimeInForce.day;
  limit_price = some (number 100);
  original_qty = number 10;
  leaves_qty = number 6;
  cum_qty = number 4;
  avg_px = some (number 100);
  status = OrderStatus.partially_filled;
  resume_to_status = none;
  version = 3;
}

abbrev pub held : OrderAggregateState Sample
held = record part_filled {
  status = OrderStatus.suspended;
  resume_to_status = some OrderStatus.partially_filled;
}

abbrev pub done : OrderAggregateState Sample
done = record part_filled { status = OrderStatus.canceled; leaves_qty = number 0 }

abbrev pub to_suspended : List (OrderCommand Sample × EventMetadata ℕ)
to_suspended =
    (OrderCommand.submit_order submit_ten, meta 1)
    ∷ (fill_of 4 100, meta 2)
    ∷ (OrderCommand.suspend_order suspend_it, meta 3)
    ∷ []

abbrev pub to_filled : List (OrderCommand Sample × EventMetadata ℕ)
to_filled =
    (OrderCommand.submit_order submit_ten, meta 1)
    ∷ (OrderCommand.replace_order (replace_with 12), meta 2)
    ∷ (fill_of 4 100, meta 3)
    ∷ (fill_of 20 100, meta 4)
    ∷ (fill_of 8 97, meta 5)
    ∷ []

-- Submitted, routed and filled in part.
abbrev pub to_part : List (OrderCommand Sample × EventMetadata ℕ)
to_part =
    (OrderCommand.submit_order submit_ten, meta 1)
    ∷ (
      OrderCommand.route_order
          (record { order_id = "o-1"; venue = "XNYS"; external_order_id = "v-1" }),
      meta 2,
    )
    ∷ (fill_of 4 100, meta 3)
    ∷ []
