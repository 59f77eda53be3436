-- ===== src/Tests/Positions.antt =====
-- Positions at small inputs.
use openoms.Base.{ℕ, ◌≡◌, refl, none, some, List, [], ◌∷◌, ◌==◌, inl, arith}
use openoms.Float.Sample.{Sample, sample_float}
use openoms.Orders.State.{side_as_str, OrderSide}
use openoms.Orders.Events.{OrderEventPayload}
use openoms.Positions.{
  PositionMath, KeyEq, LogRow, apply_fill, rebuild_positions, signed_qty, realized, parse_side,
  row_fill, flat,
}
use openoms.Positions.Net.{IsSymmetric, apply_fill_net}
use openoms.Positions.Replay.{IsEquality, rebuild_positions-replay}
use openoms.Tests.Data.{number}

Sample-IsSymmetric : IsSymmetric Sample
Sample-IsSymmetric = ground arith

abbrev long_ten : PositionMath Sample
long_ten = record { net_qty = number 10; avg_cost = number 100; realized_pnl = number 7 }

-- A sale of 15 flips the position and realizes 10 * (110 - 100).
apply_fill_net_example :
    ((apply_fill long_ten OrderSide.sell (number 15) (number 110)).net_qty
      ≡ sample_float.sub (number 10) (number 15))
    × ((apply_fill long_ten OrderSide.sell (number 15) (number 110)).realized_pnl ≡ number 107)
unfolding signed_qty realized
apply_fill_net_example =
    apply_fill_net Sample-IsSymmetric long_ten OrderSide.sell (number 15) (number 110) refl
      (inl refl)

instance abbrev number_keys : KeyEq ℕ
number_keys = record { same = ◌==◌ }

numbers-IsEquality : IsEquality ℕ
numbers-IsEquality = ground arith

abbrev fill_row : ℕ → ℕ → ℕ → LogRow ℕ Sample
fill_row k qty price = record {
  payload = some (
      OrderEventPayload.order_filled (record {
        execution_id = "x";
        fill_qty = number qty;
        fill_price = number price;
        cum_qty = number qty;
        leaves_qty = number 0;
        avg_px = number price;
        venue = "XNYS";
      }));
  key = k;
  side = "buy";
}

abbrev log : List (LogRow ℕ Sample)
log =
    fill_row 1 10 100
    ∷ fill_row 2 5 50
    ∷ (record { payload = none; key = 1; side = "buy" })
    ∷ fill_row 1 10 110
    ∷ []

-- The average is 105, of which the column keeps two digits.
rebuild_positions-replay_example :
    rebuild_positions (λ _. some long_ten) log 1
    ≡ some (record { net_qty = number 20; avg_cost = number 100; realized_pnl = number 0 })
unfolding apply_fill parse_side row_fill flat side_as_str
rebuild_positions-replay_example =
    rebuild_positions-replay numbers-IsEquality (λ _. some long_ten) log 1
