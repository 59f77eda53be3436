-- ===== src/Handlers.antt =====
-- src/handlers.rs: the errors of the API, and the columns of an order's row read back.
pub mod Columns
use openoms.Base.{String, ◌<>◌, str_eq, Result, ok, err, if◌then◌else◌}
use openoms.Orders.State.{
  OrderSide, buy, sell, OrderType, market, limit, TimeInForce, day, gtc, ioc, fok, OrderStatus,
  submitted, routed, partially_filled, filled, rejected, canceled, expired, suspended,
}
use openoms.Orders.Errors.{RejectionCode, CommandRejection}

-- The codes of http that the modelled handlers answer with.
pub data StatusCode : Type 0 where
  bad_request forbidden not_found conflict unprocessable_entity : StatusCode
  internal_server_error bad_gateway service_unavailable : StatusCode

-- Where a message prints an error of a library, it is cut to its fixed part.
pub record ApiError : Type 0 where
  pub status : StatusCode
  pub message : String

abbrev pub answer : StatusCode → String → ApiError
answer status message = record { status = status; message = message }

abbrev pub internal : String → ApiError
internal message = answer StatusCode.internal_server_error message

unfoldable pub rejection_status : RejectionCode → StatusCode
rejection_status RejectionCode.order_already_exists = StatusCode.conflict
rejection_status _ = StatusCode.bad_request

unfoldable pub map_rejection_to_api_error : CommandRejection → ApiError
unfolding rejection_status
map_rejection_to_api_error rejection = answer (rejection_status rejection.code) rejection.message

unfoldable pub parse_order_side : String → Result OrderSide ApiError
parse_order_side value =
    if str_eq value "buy"
    then ok buy
    else (if str_eq value "sell"
        then ok sell
        else err (internal ("invalid order_state side: " <> value)))

unfoldable pub parse_order_type : String → Result OrderType ApiError
parse_order_type value =
    if str_eq value "market"
    then ok market
    else (if str_eq value "limit"
        then ok limit
        else err (internal ("invalid order_state order_type: " <> value)))

unfoldable pub parse_time_in_force : String → Result TimeInForce ApiError
parse_time_in_force value =
    if str_eq value "day"
    then ok day
    else (if str_eq value "gtc"
        then ok gtc
        else (if str_eq value "ioc"
            then ok ioc
            else (if str_eq value "fok"
                then ok fok
                else err (internal ("invalid order_state time_in_force: " <> value)))))

unfoldable pub parse_order_status : String → Result OrderStatus ApiError
parse_order_status value =
    if str_eq value "submitted"
    then ok submitted
    else (if str_eq value "routed"
        then ok routed
        else (if str_eq value "partially_filled"
            then ok partially_filled
            else (if str_eq value "filled"
                then ok filled
                else (if str_eq value "rejected"
                    then ok rejected
                    else (if str_eq value "canceled"
                        then ok canceled
                        else (if str_eq value "expired"
                            then ok expired
                            else (if str_eq value "suspended"
                                then ok suspended
                                else err (internal ("invalid order_state status: " <> value)))))))))
