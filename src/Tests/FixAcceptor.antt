-- ===== src/Tests/FixAcceptor.antt =====
-- A limit order as a message.
use openoms.Base.{ℕ, ◌==◌, ◌≡◌, refl, ◌↔◌, String, str_eq, Option, none, some, ok, if◌then◌else◌}
use openoms.Float.Sample.{Sample, sample_float}
use openoms.FixAcceptor.{
  FixMessage, Texts, Side, OrdType, Tif, ClientRequest, new_order, msg_type, decode,
}
use openoms.FixAcceptor.Decoding.{Carries, decode-Carries}
use openoms.Tests.Data.{number}

-- A message is a function from its tags.
abbrev by_tag : FixMessage (ℕ → Option String)
by_tag = record { get_header = λ m tag. m tag; get_field = λ m tag. m tag }

abbrev numbers : Texts Sample
numbers = record {
  parse_f64 = λ v. if str_eq v "10" then some (number 10) else none;
  show_tag = λ _. "?";
}

abbrev limit_order : ℕ → Option String
limit_order tag =
    if tag == 35
    then some "D"
    else (if tag == 54
        then some "1"
        else (if tag == 40
            then some "2"
            else (if tag == 44
                then some "10"
                else (if tag == 38 then some "10" else (if tag == 59 then none else some "a")))))

abbrev as_order : ClientRequest Sample
as_order = new_order (record {
  cl_ord_id = "a";
  symbol = "a";
  ex_destination = "a";
  side = Side.buy;
  qty = number 10;
  ord_type = OrdType.limit;
  price = some (number 10);
  tif = Tif.day;
})

decoded : decode by_tag numbers limit_order ≡ ok as_order
unfolding decode
decoded = refl

decode-Carries_example :
    (decode by_tag numbers limit_order ≡ ok as_order)
    ↔ Carries by_tag numbers limit_order (msg_type by_tag limit_order) as_order
decode-Carries_example = decode-Carries by_tag numbers limit_order as_order
