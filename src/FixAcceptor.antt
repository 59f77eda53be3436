-- ===== src/FixAcceptor.antt =====
-- crates/gateway/src/fix_acceptor: the requests of a strategy's FIX session and their messages.
pub mod Decoding
use openoms.Base.{
  ℕ, Bool, true, false, ◌&&◌, not, String, ◌<>◌, str_eq, Option, none, some, List, [], ◌∷◌, Result,
  ok, err, ◌>>=◌, if◌then◌else◌, ok_or, unwrap_or, map_option,
}
use openoms.Float.{Float64}

-- What decoding reads of a message of the FIX library: its header's and its body's fields by tag.
pub record FixMessage (M : Type 0) : Type 0 where
  pub get_header : M → ℕ → Option String
  pub get_field : M → ℕ → Option String

-- `str::parse::<f64>`, and a tag printed.
pub record Texts (F : Type 0) : Type 0 where
  pub parse_f64 : String → Option F
  pub show_tag : ℕ → String

pub data Side : Type 0 where
  buy sell : Side

pub data OrdType : Type 0 where
  market limit : OrdType

pub data Tif : Type 0 where
  day gtc ioc : Tif

pub record NewOrder (F : Type 0) : Type 0 where
  pub cl_ord_id : String
  pub symbol : String
  pub ex_destination : String
  pub side : Side
  pub qty : F
  pub ord_type : OrdType
  pub price : Option F
  pub tif : Tif

pub data ClientRequest (F : Type 0) : Type 0 where
  new_order : NewOrder F → ClientRequest F
  cancel : (cl_ord_id orig_cl_ord_id : String) → ClientRequest F
  status : (cl_ord_id : String) → ClientRequest F
  security_list : (req_id : String) → ClientRequest F

-- A Business Message Reject, the only report that decoding makes.
pub record Reject : Type 0 where
  pub ref_msg_type : String
  pub text : String

abbrev pub reject : String → String → Reject
reject ref_msg_type text = record { ref_msg_type = ref_msg_type; text = text }

-- `Option::filter`
abbrev pub filter {ℓ} : {A : Type ℓ} → (A → Bool) → Option A → Option A
filter p none = none
filter p (some a) = if p a then some a else none

unfoldable pub side_of : String → String → Result Side Reject
side_of t v =
    if str_eq v "1"
    then ok Side.buy
    else (if str_eq v "2"
        then ok Side.sell
        else err (reject t ("side " <> (v <> " is not supported"))))

unfoldable pub ord_type_of : String → String → Result OrdType Reject
ord_type_of t v =
    if str_eq v "1"
    then ok OrdType.market
    else (if str_eq v "2"
        then ok OrdType.limit
        else err (reject t ("order type " <> (v <> " is not supported"))))

unfoldable pub tif_of : String → String → Result Tif Reject
tif_of t v =
    if str_eq v "0"
    then ok Tif.day
    else (if str_eq v "1"
        then ok Tif.gtc
        else (if str_eq v "3"
            then ok Tif.ioc
            else err (reject t ("time in force " <> (v <> " is not supported")))))

module _ {M : Type 0} (fix : FixMessage M) where
  unfoldable pub msg_type : M → String
  msg_type m = unwrap_or (fix.get_header m 35) ""

module _ {M F : Type 0} (fix : FixMessage M) (texts : Texts F) where
  unfoldable pub required : M → ℕ → String → Result String Reject
  required m tag t =
      ok_or (filter (λ v. not (str_eq v "")) (fix.get_field m tag))
        (reject t ("tag " <> (texts.show_tag tag <> " is required")))

module _ {M F : Type 0} ⦃fl : Float64 F⦄ (fix : FixMessage M) (texts : Texts F) where
  unfoldable pub number : M → ℕ → String → Result F Reject
  unfolding required
  number m tag t = required fix texts m tag t >>= λ v.
      ok_or (filter fl.is_finite (texts.parse_f64 v))
        (reject t ("tag " <> (texts.show_tag tag <> " is not a number")))

  -- A limit order's price; a market order has none.
  unfoldable pub price_of : M → String → OrdType → Result (Option F) Reject
  unfolding number
  price_of m t OrdType.market = ok none
  price_of m t OrdType.limit = number m 44 t >>= λ price. ok (some price)

  unfoldable pub decode_new_order : M → String → Result (ClientRequest F) Reject
  unfolding required number side_of ord_type_of tif_of price_of
  decode_new_order m t = do
    side_text ← required fix texts m 54 t
    side ← side_of t side_text
    type_text ← required fix texts m 40 t
    ord_type ← ord_type_of t type_text
    tif ← tif_of t (unwrap_or (fix.get_field m 59) "0")
    price ← price_of m t ord_type
    cl_ord_id ← required fix texts m 11 t
    symbol ← required fix texts m 55 t
    ex_destination ← required fix texts m 100 t
    qty ← number m 38 t
    ok (
        new_order (record {
          cl_ord_id = cl_ord_id;
          symbol = symbol;
          ex_destination = ex_destination;
          side = side;
          qty = qty;
          ord_type = ord_type;
          price = price;
          tif = tif;
        }))

  unfoldable pub decode_cancel : M → String → Result (ClientRequest F) Reject
  unfolding required
  decode_cancel m t = do
    cl_ord_id ← required fix texts m 11 t
    orig_cl_ord_id ← required fix texts m 41 t
    ok (cancel cl_ord_id orig_cl_ord_id)

  unfoldable pub decode_as : M → String → Result (ClientRequest F) Reject
  unfolding required decode_new_order decode_cancel
  decode_as m t =
      if str_eq t "D"
      then decode_new_order m t
      else (if str_eq t "F"
          then decode_cancel m t
          else (if str_eq t "H"
              then (required fix texts m 11 t >>= λ v. ok (status v))
              else (if str_eq t "x"
                  then (required fix texts m 320 t >>= λ v. ok (security_list v))
                  else err (reject t ("message type " <> (t <> " is not supported"))))))

  unfoldable pub decode : M → Result (ClientRequest F) Reject
  unfolding msg_type decode_as
  decode m = decode_as m (msg_type fix m)
