-- ===== src/Tests/ColoRisk.antt =====
-- A co-located strategy's book at small inputs.
use openoms.Base.{◌+◌, ◌^◌, ◌≡◌, refl, none, some, true, List, [], ◌∷◌, arith}
use openoms.Float.Sample.{Sample, sample_float}
use openoms.ColoRisk.{Limits, OrderIntent, book_new, check}
use openoms.ColoRisk.Rate.{BookCall, Paced, calls, calls-Paced, check_call, halt_call, resume_call}
use openoms.Tests.Data.{number}

abbrev two_per_second : Limits Sample
two_per_second = record {
  max_order_qty = some (number 5);
  max_order_notional = none;
  max_position_qty = none;
  max_position_notional = none;
  price_band_pct = some (number 10);
  max_orders_per_sec = some 2;
}

abbrev intent : OrderIntent Sample
intent = record {
  symbol = "BTCUSDT";
  quote_currency = "USDT";
  buy = true;
  qty = number 1;
  price = number 100;
}

abbrev orders : List (BookCall Sample)
orders =
    check_call intent (number 100) 1
    ∷ check_call intent (number 100) 2
    ∷ check_call intent (number 100) 3
    ∷ halt_call
    ∷ check_call intent (number 100) (10 ^ 9)
    ∷ resume_call
    ∷ check_call intent (number 100) (10 ^ 9 + 1)
    ∷ []

-- The third is over the cap, the fourth is halted, and the fifth is a second after the first.
orders_passed :
    (calls (λ _. "2") (book_new two_per_second 1, []) orders).1 ≡ 1000000001 ∷ 2 ∷ 1 ∷ []
unfolding check
orders_passed = refl

calls-Paced_example : Paced 2 (calls (λ _. "2") (book_new two_per_second 1, []) orders).1
calls-Paced_example =
    calls-Paced (λ _. "2") 2 two_per_second 1 orders refl
      (omega arith, (omega arith, (omega arith, (omega arith, (omega arith, tt)))))
