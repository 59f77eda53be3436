-- ===== src/Tests/LiveUpdates.antt =====
-- A screen's notices over a burst of changes.
use openoms.Base.{◌≡◌, refl, true, String, List, [], ◌∷◌, ◌++◌, ok, err}
use openoms.Float.Sample.{Sample}
use openoms.EventBus.{OrderLaneEvent}
use openoms.LiveUpdates.{
  closed, UiNotice, subscribed, Branch, order_received, price_received, fast_tick, slow_tick,
  heartbeat_tick, run,
}
use openoms.LiveUpdates.Delivery.{Change, announced, flush, pump-announces}
use openoms.Tests.Data.{number}

abbrev tick : Branch Sample String
tick = price_received (ok (record { instrument_id = 7; bid = number 99; ask = number 101 }))

abbrev older_tick : Branch Sample String
older_tick = price_received (ok (record { instrument_id = 3; bid = number 9; ask = number 10 }))

abbrev fill : Branch Sample String
fill = order_received (ok (OrderLaneEvent.appended "o-1" 12 "OrderFilled"))

abbrev moved_position : Branch Sample String
moved_position = order_received (ok (OrderLaneEvent.position_changed "p-1" "7"))

-- Three fills are one notice, the marks' ids ascend, and nothing is sent twice.
conflated :
    (run subscribed (
      fill ∷ tick ∷ fill ∷ older_tick ∷ moved_position ∷ tick ∷ fill ∷ fast_tick ∷ slow_tick
      ∷ fast_tick ∷ slow_tick ∷ [])).1
    ≡ UiNotice.orders ∷ UiNotice.positions ∷ UiNotice.marks (3 ∷ 7 ∷ []) ∷ []
unfolding run
conflated = refl

-- The lane closes, and a heartbeat goes out, before the tick.
abbrev between : List (Branch Sample String)
between = order_received (err closed) ∷ heartbeat_tick ∷ slow_tick ∷ []

pump-announces_example :
    announced Change.order (run subscribed (fill ∷ (between ++ (flush Change.order ∷ [])))).1 ≡ true
pump-announces_example = pump-announces Change.order subscribed fill refl between
