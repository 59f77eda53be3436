-- ===== src/Handlers/Columns.antt =====
-- The text columns of `order_state` hold exactly the texts that the code writes.
use openoms.Base.{◌≡◌, refl, ap, ◌∙◌, ◌↔◌, String, eq_iff, Result, ok, arith}
use openoms.Orders.State.{
  OrderSide, buy, sell, OrderType, market, limit, TimeInForce, day, gtc, ioc, fok, OrderStatus,
  submitted, routed, partially_filled, filled, rejected, canceled, expired, suspended, side_as_str,
  order_type_as_str, time_in_force_as_str, status_as_str,
}
use openoms.Handlers.{
  ApiError, parse_order_side, parse_order_type, parse_time_in_force, parse_order_status,
}

-- A text is read as a value exactly if it is the one that the value is written as.
abbrev pub Reads : {A : Type 0} → (String → Result A ApiError) → (A → String) → Type 0
Reads {A} parse as_str = (value : String) (a : A) → (parse value ≡ ok a) ↔ (value ≡ as_str a)

reads :
    {A : Type 0} (parse : String → Result A ApiError) (as_str : A → String)
    → ((a : A) → parse (as_str a) ≡ ok a)
    → ((value : String) (a : A) → parse value ≡ ok a → value ≡ as_str a)
    → Reads parse as_str
reads parse as_str forth back value a = (back value a, λ h. ap parse h ∙ forth a)

side_forth : (s : OrderSide) → parse_order_side (side_as_str s) ≡ ok s
unfolding parse_order_side side_as_str
side_forth buy = refl
side_forth sell = refl

side_back : (v : String) (s : OrderSide) → parse_order_side v ≡ ok s → v ≡ side_as_str s
unfolding parse_order_side side_as_str
side_back v buy h = ground (arith, eq_iff v "buy", eq_iff v "sell", h)
side_back v sell h = ground (arith, eq_iff v "buy", eq_iff v "sell", h)

type_forth : (s : OrderType) → parse_order_type (order_type_as_str s) ≡ ok s
unfolding parse_order_type order_type_as_str
type_forth market = refl
type_forth limit = refl

type_back : (v : String) (s : OrderType) → parse_order_type v ≡ ok s → v ≡ order_type_as_str s
unfolding parse_order_type order_type_as_str
type_back v market h = ground (arith, eq_iff v "market", eq_iff v "limit", h)
type_back v limit h = ground (arith, eq_iff v "market", eq_iff v "limit", h)

time_forth : (s : TimeInForce) → parse_time_in_force (time_in_force_as_str s) ≡ ok s
unfolding parse_time_in_force time_in_force_as_str
time_forth day = refl
time_forth gtc = refl
time_forth ioc = refl
time_forth fok = refl

time_back :
    (v : String) (s : TimeInForce) → parse_time_in_force v ≡ ok s → v ≡ time_in_force_as_str s
unfolding parse_time_in_force time_in_force_as_str
time_back v day h =
    ground (arith, eq_iff v "day", eq_iff v "gtc", eq_iff v "ioc", eq_iff v "fok", h)
time_back v _ h = ground (arith, eq_iff v "day", eq_iff v "gtc", eq_iff v "ioc", eq_iff v "fok", h)

status_forth : (s : OrderStatus) → parse_order_status (status_as_str s) ≡ ok s
unfolding parse_order_status status_as_str
status_forth submitted = refl
status_forth routed = refl
status_forth partially_filled = refl
status_forth filled = refl
status_forth rejected = refl
status_forth canceled = refl
status_forth expired = refl
status_forth suspended = refl

status_back : (v : String) (s : OrderStatus) → parse_order_status v ≡ ok s → v ≡ status_as_str s
unfolding parse_order_status status_as_str
status_back v submitted h = ground (
  arith,
  eq_iff v "submitted",
  eq_iff v "routed",
  eq_iff v "partially_filled",
  eq_iff v "filled",
  eq_iff v "rejected",
  eq_iff v "canceled",
  eq_iff v "expired",
  eq_iff v "suspended",
  h,
)
status_back v _ h = ground (
  arith,
  eq_iff v "submitted",
  eq_iff v "routed",
  eq_iff v "partially_filled",
  eq_iff v "filled",
  eq_iff v "rejected",
  eq_iff v "canceled",
  eq_iff v "expired",
  eq_iff v "suspended",
  h,
)

-- Each of the columns side, order type, time in force and status is read back as the value that was
-- written, and no other text is read as that value.
pub columns-Reads :
    Reads parse_order_side side_as_str
    × Reads parse_order_type order_type_as_str
    × Reads parse_time_in_force time_in_force_as_str
    × Reads parse_order_status status_as_str
columns-Reads = (
  reads parse_order_side side_as_str side_forth side_back,
  reads parse_order_type order_type_as_str type_forth type_back,
  reads parse_time_in_force time_in_force_as_str time_forth time_back,
  reads parse_order_status status_as_str status_forth status_back,
)
