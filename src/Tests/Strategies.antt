-- ===== src/Tests/Strategies.antt =====
-- A strategy, its order's checks and its session.
use openoms.Base.{ℕ, ◌≡◌, refl, inl, true, false, String, none, some, List, [], ◌∷◌, ok}
use openoms.Float.Sample.{Sample, sample_float}
use openoms.Orders.Risk.{RiskLimits, Exposure, TradingState, check_trading_state, signed}
use openoms.RiskEngine.{RiskDataProvider}
use openoms.RiskEngine.Submit.{refusal}
use openoms.Strategies.{Strategy, Mode, check, default_notional, est_price_of, flatten_order}
use openoms.Strategies.Guard.{check-refusal, flatten_order-reduces}
use openoms.Strategies.Sessions.{SessionKey, Inbound, logon, logout, no_sessions, run}
use openoms.Tests.Data.{number, submit_ten}

abbrev own_limits : RiskLimits Sample
own_limits = record {
  max_order_quantity = some (number 20);
  max_order_notional = none;
  max_position_quantity = some (number 12);
  max_position_notional = none;
}

abbrev strategy : Strategy Sample
strategy = record {
  code = "xarb";
  portfolio_id = "p-1";
  principal_id = "u-1";
  sender_comp_id = "xarb";
  target_comp_id = "OMS";
  fix_password_hash = none;
  allowed_addresses = [];
  state = TradingState.active;
  rest_enabled = true;
  limits = own_limits;
  price_band_pct = none;
  connections = [];
  mode = Mode.via_oms;
  follow_environment = none;
  dead_man_secs = 5;
  max_orders_per_sec = none;
  kill_when_unmonitored = false;
  limits_version = 1;
}

abbrev exposure : Exposure Sample
exposure = record { position_qty = number 5; working_qty = number 0 }

abbrev provider : RiskDataProvider Sample ℕ String
provider = record { risk_config = λ _. ok none; exposure = λ _. ok exposure }

-- Ten more would be fifteen, over the strategy's own limit of twelve.
check-refusal_example :
    refusal (check provider strategy submit_ten "EUR" (some (number 100)) (number 1))
    ≡ some "max_position_quantity"
unfolding default_notional signed est_price_of
check-refusal_example =
    check-refusal provider strategy submit_ten "EUR" (some (number 100)) (number 1) none exposure
      refl refl

flatten_reduces :
    check_trading_state TradingState.reducing
      (flatten_order (number 5) (number 100) (number 2)).0
      (number 5)
    ≡ ok tt
flatten_reduces = flatten_order-reduces (number 5) (number 100) (number 2) (inl refl)

-- Every strategy's sender is its code.
abbrev owner : String → SessionKey
owner code = record { sender_comp_id = code; target_comp_id = "OMS" }

abbrev events : List (List (Strategy Sample) × Inbound)
events =
    (strategy ∷ [], logon (owner "xarb"))
    ∷ ([], logout (owner "xarb"))
    ∷ (strategy ∷ [], logon (owner "xarb"))
    ∷ []

live_again : (run no_sessions events).live "xarb" ≡ true
unfolding run
live_again = refl
