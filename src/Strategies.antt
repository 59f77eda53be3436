-- ===== src/Strategies.antt =====
-- src/strategies: a registered strategy, the checks of its orders, its FIX sessions and controls.
pub mod Guard
pub mod Sessions
use openoms.Base.{
  ℕ, Bool, true, false, ◌&&◌, ◌||◌, not, String, ◌<>◌, str_eq, Option, none, some, List, Result, ok,
  err, ◌>>=◌, ◌>>◌, if◌then◌else◌, map_err, map_option, unwrap_or, or_option,
}
use openoms.Float.{Float64}
use openoms.Orders.State.{OrderSide, buy, sell}
use openoms.Orders.Commands.{SubmitOrder}
use openoms.Orders.Risk.{
  TradingState, RiskLimits, Exposure, RiskRejection, check_trading_state, check_limit,
}
use openoms.RiskEngine.{
  RiskConfig, RiskScope, RiskCheckError, RiskDataProvider, rejected, unavailable, scope_of,
}
use openoms.Handlers.{StatusCode, ApiError, answer}

pub data Mode : Type 0 where
  via_oms colocated : Mode

-- UUIDs are texts; an order's accounts by broker are pairs.
pub record Strategy (F : Type 0) : Type 0 where
  pub code : String
  pub portfolio_id : String
  pub principal_id : String
  pub sender_comp_id : String
  pub target_comp_id : String
  pub fix_password_hash : Option String
  pub allowed_addresses : List String
  pub state : TradingState
  pub rest_enabled : Bool
  pub limits : RiskLimits F
  pub price_band_pct : Option F
  pub connections : List (String × String)
  pub mode : Mode
  pub follow_environment : Option String
  pub dead_man_secs : ℕ
  pub max_orders_per_sec : Option ℕ
  pub kill_when_unmonitored : Bool
  pub limits_version : ℕ

-- Where an order came from.
pub data Origin : Type 0 where
  api flatten external : Origin
  fix : (cl_ord_id : String) → Origin

abbrev pub reject : {A : Type 0} → String → String → Result A RiskRejection
reject code message = err (record { code = code; message = message })

unfoldable pub session_gate : Origin → Bool → Result (Unit {0}) RiskRejection
session_gate (Origin.fix _) live =
    if not live then reject "fix_session_ended" "FIX session ended" else ok tt
session_gate _ live = ok tt

-- `USD_LIKE.contains`
unfoldable pub is_usd_like : String → Bool
is_usd_like c = str_eq c "USD" || (str_eq c "USDT" || str_eq c "USDC")

module _ {F : Type 0} where
  unfoldable pub may_trade : Strategy F → String → Result (Unit {0}) RiskRejection
  may_trade strategy principal_id =
      if str_eq principal_id strategy.principal_id
      then ok tt
      else reject "strategy_portfolio" ("portfolio is traded by strategy " <> strategy.code)

  -- Whether a limit of the row is left out that the strategy has.
  unfoldable pub falls_back : Option F → Option F → Bool
  falls_back none (some _) = true
  falls_back _ _ = false

  abbrev pub no_limits : RiskLimits F
  no_limits = record {
    max_order_quantity = none;
    max_order_notional = none;
    max_position_quantity = none;
    max_position_notional = none;
  }

  abbrev pub or_limits : RiskLimits F → RiskLimits F → RiskLimits F
  or_limits o d = record {
    max_order_quantity = or_option o.max_order_quantity d.max_order_quantity;
    max_order_notional = or_option o.max_order_notional d.max_order_notional;
    max_position_quantity = or_option o.max_position_quantity d.max_position_quantity;
    max_position_notional = or_option o.max_position_notional d.max_position_notional;
  }

  unfoldable pub default_notional : RiskLimits F → RiskLimits F → Bool
  unfolding falls_back
  default_notional o d =
      falls_back o.max_order_notional d.max_order_notional
      || falls_back o.max_position_notional d.max_position_notional

  unfoldable pub effective_limits :
      Strategy F → Option (RiskLimits F) → String → Result (RiskLimits F) RiskRejection
  unfolding default_notional is_usd_like
  effective_limits strategy override_row quote_currency =
      let o = unwrap_or override_row no_limits in
      if default_notional o strategy.limits && not (is_usd_like quote_currency)
      then reject "no_notional_limit" ("no notional limit for quote currency " <> quote_currency)
      else ok (or_limits o strategy.limits)

module _ {F : Type 0} ⦃fl : Float64 F⦄ where
  unfoldable pub check_price_band : Option F → F → F → Result (Unit {0}) RiskRejection
  check_price_band none mid band_pct = ok tt
  check_price_band (some px) mid band_pct =
      let off = fl.mul (fl.div (fl.abs (fl.sub px mid)) mid) fl.hundred_f64 in
      if fl.lt (fl.mul band_pct (fl.add fl.one_f64 fl.eps_f64)) off
      then reject "price_band" (
          "limit "
          <> (fl.display px
              <> (" is "
                  <> (fl.display_two off
                      <> ("% from mark "
                          <> (fl.display mid <> (" (band " <> (fl.display band_pct <> "%)"))))))))
      else ok tt

  -- The order's price against the mark's, if both the mark and the band are there.
  unfoldable pub check_mark : Option F → Option F → Option F → Result (Unit {0}) RiskRejection
  unfolding check_price_band
  check_mark limit_price (some mid) (some band) = check_price_band limit_price mid band
  check_mark limit_price _ _ = ok tt

  -- The price that the notional limits are checked at. `mark` is the mark's mid.
  unfoldable pub est_price_of : Option F → Option F → F → Option F
  est_price_of limit_price (some mid) contract_size =
      some (fl.mul (unwrap_or limit_price mid) contract_size)
  est_price_of limit_price none contract_size = map_option (λ p. fl.mul p contract_size) limit_price

  unfoldable pub check_row : Option (RiskConfig F) → OrderSide → F → Result (Unit {0}) RiskRejection
  unfolding check_trading_state
  check_row none side position_qty = ok tt
  check_row (some row) side position_qty = check_trading_state row.trading_state side position_qty

  -- The checks on what was loaded.
  unfoldable pub check_loaded :
      Strategy F
      → SubmitOrder F
      → String
      → Option F
      → F
      → Option (RiskConfig F)
      → Exposure F
      → Result (Unit {0}) RiskRejection
  unfolding check_trading_state check_row effective_limits check_mark est_price_of check_limit
  check_loaded strategy cmd quote_currency mark contract_size row exposure = do
    check_trading_state strategy.state cmd.side exposure.position_qty
    check_row row cmd.side exposure.position_qty
    limits ← effective_limits strategy (map_option (λ r. r.limits) row) quote_currency
    check_mark cmd.limit_price mark strategy.price_band_pct
    check_limit cmd.side cmd.quantity (est_price_of cmd.limit_price mark contract_size) limits
        exposure

  -- The closing order of `control.rs`: its side, quantity and price.
  unfoldable pub flatten_order : F → F → F → OrderSide × (F × F)
  flatten_order net_qty mid band_pct =
      if fl.lt fl.zero_f64 net_qty
      then (sell, (net_qty, fl.div (fl.mul mid (fl.sub fl.hundred_f64 band_pct)) fl.hundred_f64))
      else (
        buy,
        (fl.neg net_qty, fl.div (fl.mul mid (fl.add fl.hundred_f64 band_pct)) fl.hundred_f64),
      )

module _ {F E : Type 0} ⦃fl : Float64 F⦄ where
  unfoldable pub check :
      RiskDataProvider F E String
      → Strategy F
      → SubmitOrder F
      → String
      → Option F
      → F
      → Result (Unit {0}) (RiskCheckError E)
  unfolding check_loaded
  check provider strategy cmd quote_currency mark contract_size = do
    row ← map_err unavailable (provider.risk_config (scope_of strategy.portfolio_id cmd))
    exposure ← map_err unavailable (provider.exposure (scope_of strategy.portfolio_id cmd))
    map_err rejected (check_loaded strategy cmd quote_currency mark contract_size row exposure)

-- Co-located strategies have neither the automatic cancels nor Flatten.
unfoldable pub phase7_cancels_apply : Mode → Bool
phase7_cancels_apply Mode.via_oms = true
phase7_cancels_apply Mode.colocated = false

unfoldable pub flatten_allowed : Mode → Result (Unit {0}) ApiError
flatten_allowed Mode.via_oms = ok tt
flatten_allowed Mode.colocated =
    err (answer StatusCode.bad_request "co-located strategies have no Flatten")
