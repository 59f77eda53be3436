-- ===== src/Orders/Invariants.antt =====
-- src/domain/orders/invariants.rs: what a command has to satisfy before an event is emitted.
use openoms.Base.{
  Bool, true, false, not, ◌&&◌, Option, none, some, Result, ok, err, if◌then◌else◌, ok_or,
}
use openoms.Float.{Float64}
use openoms.Orders.State.{OrderType, market, limit}
use openoms.Orders.Errors.{CommandRejection, new, invalid_quantity, invalid_price, order_not_found}

unfoldable pub is_limit : OrderType → Bool
is_limit limit = true
is_limit market = false

module _ {F : Type 0} ⦃fl : Float64 F⦄ where
  -- `x > 0.0 && x.is_finite()`
  unfoldable pub is_positive_finite : F → Bool
  is_positive_finite x = fl.lt fl.zero_f64 x && fl.is_finite x

  -- `limit_price.is_some_and(…)`
  unfoldable pub has_positive_price : Option F → Bool
  unfolding is_positive_finite
  has_positive_price none = false
  has_positive_price (some p) = is_positive_finite p

  unfoldable pub validate_submit : F → OrderType → Option F → Result (Unit {0}) CommandRejection
  unfolding is_positive_finite has_positive_price is_limit new
  validate_submit quantity order_type limit_price =
      if not (is_positive_finite quantity)
      then err (new invalid_quantity "order quantity must be greater than zero")
      else (if is_limit order_type && not (has_positive_price limit_price)
          then err (new invalid_price "limit orders require a positive limit_price")
          else ok tt)

unfoldable pub require_existing_order {ℓ} : {A : Type ℓ} → Option A → Result A CommandRejection
unfolding new
require_existing_order state = ok_or state (new order_not_found "order stream does not exist")
