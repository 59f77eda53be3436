-- ===== src/RiskEngine.antt =====
-- src/risk_engine.rs: the pre-trade check of a submit command over a data provider.
pub mod Submit
use openoms.Base.{String, Option, none, some, Result, ok, err, ◌>>=◌, ◌>>◌, map_err, map_option}
use openoms.Float.{Float64}
use openoms.Orders.Commands.{SubmitOrder}
use openoms.Orders.Risk.{
  TradingState, RiskLimits, Exposure, RiskRejection, check_trading_state, check_limit, active,
  reducing, halted,
}
use openoms.Base.{Bool, str_eq, if◌then◌else◌}

pub record RiskScope (Key : Type 0) : Type 0 where
  pub portfolio_id : Key
  pub instrument_id : String

pub record RiskConfig (F : Type 0) : Type 0 where
  pub trading_state : TradingState
  pub limits : RiskLimits F

-- `E` is the database driver's error.
pub data RiskCheckError (E : Type 0) : Type 0 where
  rejected : RiskRejection → RiskCheckError E
  unavailable : E → RiskCheckError E

-- The port that sources configuration and exposure. `Key` is the type of UUIDs.
pub record RiskDataProvider (F E Key : Type 0) : Type 0 where
  pub risk_config : RiskScope Key → Result (Option (RiskConfig F)) E
  pub exposure : RiskScope Key → Result (Exposure F) E

module _ {F : Type 0} ⦃fl : Float64 F⦄ where
  -- What is checked once the configuration and the exposure are there.
  unfoldable pub check_configured :
      RiskConfig F → Exposure F → SubmitOrder F → F → Result (Unit {0}) RiskRejection
  unfolding check_trading_state check_limit
  check_configured config exposure cmd contract_size = do
    check_trading_state config.trading_state cmd.side exposure.position_qty
    let est_price = map_option (λ p. fl.mul p contract_size) cmd.limit_price
    check_limit cmd.side cmd.quantity est_price config.limits exposure

abbrev pub scope_of : {F Key : Type 0} → Key → SubmitOrder F → RiskScope Key
scope_of portfolio_id cmd = record {
  portfolio_id = portfolio_id;
  instrument_id = cmd.instrument_id;
}

module _ {F E Key : Type 0} ⦃fl : Float64 F⦄ where
  unfoldable pub check_with_config :
      RiskDataProvider F E Key
      → RiskScope Key
      → Option (RiskConfig F)
      → SubmitOrder F
      → F
      → Result (Unit {0}) (RiskCheckError E)
  unfolding check_configured
  check_with_config provider scope none cmd contract_size = ok tt
  check_with_config provider scope (some config) cmd contract_size = do
    exposure ← map_err unavailable (provider.exposure scope)
    map_err rejected (check_configured config exposure cmd contract_size)

  unfoldable pub check_submit :
      RiskDataProvider F E Key → Key → SubmitOrder F → F → Result (Unit {0}) (RiskCheckError E)
  unfolding check_with_config
  check_submit provider portfolio_id cmd contract_size =
      let scope = scope_of portfolio_id cmd in
      map_err unavailable (provider.risk_config scope) >>= λ config.
      check_with_config provider scope config cmd contract_size

unfoldable pub parse_trading_state : String → Result TradingState String
parse_trading_state value =
    if str_eq value "ACTIVE"
    then ok active
    else (if str_eq value "REDUCING"
        then ok reducing
        else (if str_eq value "HALTED" then ok halted else err value))
