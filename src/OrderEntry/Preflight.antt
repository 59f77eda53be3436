-- ===== src/OrderEntry/Preflight.antt =====
-- src/order_entry.rs: the look-ups of `submit`, before anything is stored.
pub mod Sound
use openoms.Base.{
  Bool, true, false, ◌&&◌, not, String, ◌<>◌, str_eq, Option, none, some, Result, ok, err, ◌>>=◌,
  ◌>>◌, if◌then◌else◌, ok_or, filter_option,
}
use openoms.Float.{Float64}
use openoms.Orders.State.{TimeInForce, day}
use openoms.Orders.Commands.{SubmitOrder}
use openoms.Handlers.{StatusCode, ApiError, answer}

-- An account joined with its broker connection, the connection's status, and the portfolio that
-- owns the account.
pub record AccountRow : Type 0 where
  pub connection_status : String
  pub broker_code : String
  pub environment : String
  pub broker_connection_code : String
  pub external_account_ref : String
  pub portfolio_id : Option String

pub record InstrumentRow (F : Type 0) : Type 0 where
  pub instrument_class : String
  pub status : String
  pub currency : String
  pub contract_size : F

pub record BrokerInstrumentRow (F : Type 0) : Type 0 where
  pub is_tradeable : Bool
  pub broker_symbol : String
  pub native_id : Option String
  pub min_quantity : Option F

-- The reference data that an order is checked against: rows by their keys, of which the queries
-- take some.
pub record Catalog (F : Type 0) : Type 0 where
  pub default_account : String → Option String
  pub account : String → Option AccountRow
  pub instrument : String → Option (InstrumentRow F)
  pub broker_instrument : String → String → Option (BrokerInstrumentRow F)

-- What the look-ups give.
pub record Preflight (F : Type 0) : Type 0 where
  pub cmd : SubmitOrder F
  pub account : AccountRow
  pub instrument : InstrumentRow F
  pub mapping : BrokerInstrumentRow F

unfoldable pub same_portfolio : Option String → String → Bool
same_portfolio none portfolio_id = false
same_portfolio (some other) portfolio_id = str_eq other portfolio_id

-- An account that is named must belong to the portfolio; a default one must not belong to another.
unfoldable pub check_owner : Bool → Option String → String → Result (Unit {0}) ApiError
unfolding same_portfolio
check_owner true owner portfolio_id =
    if same_portfolio owner portfolio_id
    then ok tt
    else err (answer StatusCode.bad_request "account does not belong to this portfolio")
check_owner false none portfolio_id = ok tt
check_owner false (some other) portfolio_id =
    if str_eq other portfolio_id
    then ok tt
    else err (
        answer StatusCode.bad_request
          "portfolio's default account belongs to a different portfolio")

abbrev pub is_day : TimeInForce → Bool
is_day day = true
is_day _ = false

unfoldable pub is_explicit : Option String → Bool
is_explicit none = false
is_explicit (some _) = true

module _ {F : Type 0} where
  -- `... WHERE a.id = $1 AND bc.status = 'ACTIVE'`
  unfoldable pub active_account : Catalog F → String → Option AccountRow
  active_account catalog account_id =
      filter_option (λ row. str_eq row.connection_status "ACTIVE") (catalog.account account_id)

  -- `... WHERE instrument_id = $1 AND broker_code = $2 AND is_tradeable = true`
  unfoldable pub tradeable_mapping : Catalog F → String → String → Option (BrokerInstrumentRow F)
  tradeable_mapping catalog instrument_id broker_code =
      filter_option (λ row. row.is_tradeable) (catalog.broker_instrument instrument_id broker_code)

  unfoldable pub resolve_account : Catalog F → String → Option String → Result String ApiError
  resolve_account catalog portfolio_id (some account_id) = ok account_id
  resolve_account catalog portfolio_id none =
      ok_or (catalog.default_account portfolio_id)
        (answer StatusCode.bad_request "no account_id given and portfolio has no default account")

  unfoldable pub check_instrument : InstrumentRow F → TimeInForce → Result (Unit {0}) ApiError
  check_instrument row time_in_force =
      if not (str_eq row.status "ACTIVE")
      then err (answer StatusCode.unprocessable_entity "instrument not active")
      else (if str_eq row.instrument_class "OPTION" && not (is_day time_in_force)
          then err
              (answer StatusCode.unprocessable_entity "option orders require time_in_force=day")
          else ok tt)

module _ {F : Type 0} ⦃fl : Float64 F⦄ where
  unfoldable pub check_minimum : Option F → F → Result (Unit {0}) ApiError
  check_minimum none quantity = ok tt
  check_minimum (some min) quantity =
      if fl.lt quantity min
      then err (
          answer StatusCode.unprocessable_entity
            ("quantity " <> (fl.display quantity <> (" below broker minimum " <> fl.display min))))
      else ok tt

  -- `explicit` is the account that the request or the strategy's route names, and `cmd` the request
  -- but for its account.
  unfoldable pub preflight :
      Catalog F → Option String → SubmitOrder F → Result (Preflight F) ApiError
  unfolding active_account tradeable_mapping resolve_account is_explicit check_owner
      check_instrument check_minimum
  preflight catalog explicit cmd = do
    account_id ← resolve_account catalog cmd.portfolio_id explicit
    account ←
        ok_or (active_account catalog account_id)
          (answer StatusCode.bad_request "account not found or its broker connection is not active")
    check_owner (is_explicit explicit) account.portfolio_id cmd.portfolio_id
    instrument ←
        ok_or (catalog.instrument cmd.instrument_id)
          (answer StatusCode.unprocessable_entity "instrument not found")
    check_instrument instrument cmd.time_in_force
    mapping ← ok_or (tradeable_mapping catalog cmd.instrument_id account.broker_code) (
        answer StatusCode.unprocessable_entity
          ("no tradeable mapping for instrument on broker " <> account.broker_code))
    check_minimum mapping.min_quantity cmd.quantity
    ok (record {
      cmd = record cmd { account_id = account_id };
      account = account;
      instrument = instrument;
      mapping = mapping;
    })
