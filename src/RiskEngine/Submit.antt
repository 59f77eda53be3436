-- ===== src/RiskEngine/Submit.antt =====
-- Which orders the risk engine lets pass.
use openoms.Base.{
  ◌∙◌, ◌≡◌, refl, String, Option, none, some, Result, ok, err, ◌>>◌, if◌then◌else◌, arith, map_err,
  map_option,
}
use openoms.Float.{Float64}
use openoms.Orders.State.{OrderSide}
use openoms.Orders.Commands.{SubmitOrder}
use openoms.Orders.Risk.{
  TradingState, Exposure, RiskRejection, active, reducing, halted, check_trading_state, reduces,
}
use openoms.Orders.Risk.Limits.{code_of, first_broken, limit_tests, check_limit-first_broken}
use openoms.RiskEngine.{
  RiskConfig, RiskCheckError, RiskDataProvider, rejected, check_submit, check_configured, scope_of,
}

-- The code of a risk refusal; a failure to load the data has none.
abbrev pub refusal : {E : Type 0} → Result (Unit {0}) (RiskCheckError E) → Option String
refusal (err (rejected r)) = some r.code
refusal _ = none

abbrev pub or_code : Option String → Option String → Option String
or_code none c = c
or_code (some c) _ = some c

module _ {F : Type 0} ⦃fl : Float64 F⦄ where
  -- The trading state's gate: only a buy reduces what is below zero, and only a sell what is above.
  abbrev pub gate : TradingState → OrderSide → F → Option String
  gate active side position = none
  gate halted side position = some "trading_halted"
  gate reducing OrderSide.buy position =
      if fl.lt position fl.zero_f64 then none else some "trading_reducing"
  gate reducing OrderSide.sell position =
      if fl.lt fl.zero_f64 position then none else some "trading_reducing"

  pub check_trading_state-gate :
      (state : TradingState) (side : OrderSide) (position : F)
      → code_of (check_trading_state state side position) ≡ gate state side position
  unfolding check_trading_state reduces
  check_trading_state-gate active side position = refl
  check_trading_state-gate halted side position = refl
  check_trading_state-gate reducing OrderSide.buy position = ground arith
  check_trading_state-gate reducing OrderSide.sell position = ground arith

pub code_of-chain :
    (check rest : Result (Unit {0}) RiskRejection) (c d : Option String)
    → code_of check ≡ c
    → code_of rest ≡ d
    → code_of (check >> rest) ≡ or_code c d
code_of-chain (ok u) rest c d h k = ground (arith, h, k)
code_of-chain (err r) rest c d h k = ground (arith, h, k)

pub refusal-map_err :
    (E : Type 0) (r : Result (Unit {0}) RiskRejection)
    → refusal {E = E} (map_err rejected r) ≡ code_of r
refusal-map_err E (ok u) = refl
refusal-map_err E (err r) = refl

module _ {F E Key : Type 0} ⦃fl : Float64 F⦄ where
  -- Where configuration and exposure can be loaded, a submit is refused with the first code of: the
  -- halted or reducing trading state (reducing lets only a buy pass at a position below zero and only a sell above it), then
  -- the limits in their order at the limit price times the contract size; it passes if there is none.
  pub check_submit-refusal :
      (provider : RiskDataProvider F E Key) (portfolio_id : Key) (cmd : SubmitOrder F)
      (contract_size : F) (config : RiskConfig F) (exposure : Exposure F)
      → provider.risk_config (scope_of portfolio_id cmd) ≡ ok (some config)
      → provider.exposure (scope_of portfolio_id cmd) ≡ ok exposure
      → refusal (check_submit provider portfolio_id cmd contract_size)
        ≡ or_code (gate config.trading_state cmd.side exposure.position_qty) (
            first_broken (
              limit_tests cmd.side cmd.quantity
                (map_option (λ p. fl.mul p contract_size) cmd.limit_price)
                config.limits
                exposure))
  unfolding check_submit
  check_submit-refusal provider id cmd size config x c e =
      rw (c, check_submit)
        (rw (e, check_submit)
          (refusal-map_err E (check_configured config x cmd size)
            ∙ code_of-chain _ _ _ _
                (check_trading_state-gate config.trading_state cmd.side x.position_qty)
                (check_limit-first_broken cmd.side cmd.quantity _ config.limits x)))
