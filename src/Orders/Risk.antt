-- ===== src/Orders/Risk.antt =====
-- src/domain/orders/risk.rs: the pure risk decisions before an order is submitted.
pub mod Limits
use openoms.Base.{
  Bool, true, false, String, ◌<>◌, Option, none, some, Result, ok, err, if◌then◌else◌, ◌>>◌, ◌>>=◌,
}
use openoms.Float.{Float64}
use openoms.Orders.State.{OrderSide, buy, sell, side_as_str}

pub data TradingState : Type 0 where
  active reducing halted : TradingState

pub record RiskLimits (F : Type 0) : Type 0 where
  pub max_order_quantity : Option F
  pub max_order_notional : Option F
  pub max_position_quantity : Option F
  pub max_position_notional : Option F

pub record Exposure (F : Type 0) : Type 0 where
  pub position_qty : F
  pub working_qty : F

pub record RiskRejection : Type 0 where
  pub code : String
  pub message : String

abbrev refuse : String → String → Result (Unit {0}) RiskRejection
refuse code message = err (record { code = code; message = message })

module _ {F : Type 0} ⦃fl : Float64 F⦄ where
  -- Whether an order on this side shrinks the position.
  unfoldable pub reduces : OrderSide → F → Bool
  reduces buy position_qty = fl.lt position_qty fl.zero_f64
  reduces sell position_qty = fl.lt fl.zero_f64 position_qty

  unfoldable pub check_trading_state :
      TradingState → OrderSide → F → Result (Unit {0}) RiskRejection
  unfolding reduces side_as_str
  check_trading_state active side position_qty = ok tt
  check_trading_state halted side position_qty = refuse "trading_halted" "trading halted"
  check_trading_state reducing side position_qty =
      if reduces side position_qty
      then ok tt
      else refuse "trading_reducing" (
          "trading state reducing; order "
          <> (side_as_str side <> " does not reduce the current position"))

  unfoldable pub signed : OrderSide → F → F
  signed buy quantity = quantity
  signed sell quantity = fl.neg quantity

  unfoldable pub check_order_quantity : Option F → F → Result (Unit {0}) RiskRejection
  check_order_quantity none quantity = ok tt
  check_order_quantity (some max) quantity =
      if fl.lt max quantity
      then refuse "max_order_qty"
          ("order qty " <> (fl.display quantity <> (" exceeds max " <> fl.display max)))
      else ok tt

  unfoldable pub check_order_notional : Option F → Option F → F → Result (Unit {0}) RiskRejection
  check_order_notional (some max) (some px) quantity =
      if fl.lt max (fl.mul quantity px)
      then refuse "max_order_notional" (
          "order notional exceeds "
          <> (fl.display max <> (" < " <> fl.display (fl.mul quantity px))))
      else ok tt
  check_order_notional _ _ quantity = ok tt

  unfoldable pub check_position_quantity : Option F → F → Result (Unit {0}) RiskRejection
  check_position_quantity none projected_qty = ok tt
  check_position_quantity (some max) projected_qty =
      if fl.lt max (fl.abs projected_qty)
      then refuse "max_position_quantity"
          ("order qty exceeds max position quantity " <> fl.display max)
      else ok tt

  unfoldable pub check_position_notional : Option F → Option F → F → Result (Unit {0}) RiskRejection
  check_position_notional (some max) (some px) projected_qty =
      if fl.lt max (fl.mul (fl.abs projected_qty) px)
      then refuse "max_position_notional" (
          "projected positional notional "
          <> (fl.display (fl.mul (fl.abs projected_qty) px) <> (" exceeds max " <> fl.display max)))
      else ok tt
  check_position_notional _ _ projected_qty = ok tt

  unfoldable pub check_limit :
      OrderSide → F → Option F → RiskLimits F → Exposure F → Result (Unit {0}) RiskRejection
  unfolding signed check_order_quantity check_order_notional check_position_quantity
      check_position_notional
  check_limit side quantity est_price limits exposure = do
    check_order_quantity limits.max_order_quantity quantity
    check_order_notional limits.max_order_notional est_price quantity
    let projected_qty =
        fl.add (fl.add exposure.position_qty exposure.working_qty) (signed side quantity)
    check_position_quantity limits.max_position_quantity projected_qty
    check_position_notional limits.max_position_notional est_price projected_qty
