-- ===== src/Tests/Risk.antt =====
-- Pre-trade risk at small inputs.
use openoms.Base.{ℕ, ◌≡◌, refl, none, some, ok}
use openoms.Float.Sample.{Sample, sample_float}
use openoms.Orders.State.{OrderSide}
use openoms.Orders.Risk.{RiskLimits, Exposure, TradingState, check_limit, signed, reduces}
use openoms.Orders.Risk.Limits.{code_of, check_limit-first_broken}
use openoms.RiskEngine.{RiskConfig, RiskDataProvider, check_submit}
use openoms.RiskEngine.Submit.{refusal, check_submit-refusal}
use openoms.Tests.Data.{number, submit_ten}

abbrev some_limits : RiskLimits Sample
some_limits = record {
  max_order_quantity = some (number 20);
  max_order_notional = none;
  max_position_quantity = some (number 12);
  max_position_notional = some (number 500);
}

abbrev some_exposure : Exposure Sample
some_exposure = record { position_qty = number 5; working_qty = number 0 }

abbrev some_config : RiskConfig Sample
some_config = record { trading_state = TradingState.active; limits = some_limits }

abbrev provider : RiskDataProvider Sample ℕ ℕ
provider = record { risk_config = λ _. ok (some some_config); exposure = λ _. ok some_exposure }

-- Two limits are broken; the first decides.
check_limit-first_broken_example :
    code_of (check_limit OrderSide.buy (number 10) (some (number 100)) some_limits some_exposure)
    ≡ some "max_position_quantity"
unfolding signed
check_limit-first_broken_example =
    check_limit-first_broken OrderSide.buy (number 10) (some (number 100)) some_limits some_exposure

check_submit-refusal_example :
    refusal (check_submit provider 1 submit_ten (number 1)) ≡ some "max_position_quantity"
unfolding signed reduces
check_submit-refusal_example =
    check_submit-refusal provider 1 submit_ten (number 1) some_config some_exposure refl refl
