-- ===== src/Orders/Risk/Limits.antt =====
-- The limits as a list of tests in order of precedence.
use openoms.Base.{
  ◌≡◌, refl, Bool, true, false, String, Option, none, some, List, [], ◌∷◌, Result, ok, err,
  if◌then◌else◌, arith, ◌>>◌,
}
use openoms.Float.{Float64}
use openoms.Orders.State.{OrderSide}
use openoms.Orders.Risk.{
  RiskLimits, Exposure, RiskRejection, signed, check_limit, check_order_quantity,
  check_order_notional, check_position_quantity, check_position_notional,
}

abbrev pub code_of : Result (Unit {0}) RiskRejection → Option String
code_of (ok _) = none
code_of (err r) = some r.code

-- The first code whose test fails.
abbrev pub first_broken : List (String × Bool) → Option String
first_broken [] = none
first_broken ((code, broken) ∷ rest) = if broken then some code else first_broken rest

code-then :
    (check rest : Result (Unit {0}) RiskRejection) (code : String) (broken : Bool)
    (more : Option String)
    → code_of check ≡ (if broken then some code else none)
    → code_of rest ≡ more
    → code_of (check >> rest) ≡ (if broken then some code else more)
code-then (ok u) rest code true more h k = absurd (cc)
code-then (ok u) rest code false more h k = k
code-then (err r) rest code true more h k = h
code-then (err r) rest code false more h k = absurd (cc)

module _ {F : Type 0} ⦃fl : Float64 F⦄ where
  -- A limit that is set and exceeded; one that is not set cannot be.
  abbrev pub exceeds : Option F → F → Bool
  exceeds none x = false
  exceeds (some max) x = fl.lt max x

  -- A notional limit, which needs a price to be exceeded.
  abbrev pub exceeds_at : Option F → Option F → F → Bool
  exceeds_at max none x = false
  exceeds_at max (some px) x = exceeds max (fl.mul x px)

  -- The position once the order is filled: a buy adds to it, and a sell takes from it.
  abbrev pub projected : OrderSide → F → Exposure F → F
  projected OrderSide.buy quantity exposure =
      fl.add (fl.add exposure.position_qty exposure.working_qty) quantity
  projected OrderSide.sell quantity exposure =
      fl.add (fl.add exposure.position_qty exposure.working_qty) (fl.neg quantity)

  abbrev pub limit_tests :
      OrderSide → F → Option F → RiskLimits F → Exposure F → List (String × Bool)
  limit_tests side quantity est_price limits exposure =
      ("max_order_qty", exceeds limits.max_order_quantity quantity)
      ∷ ("max_order_notional", exceeds_at limits.max_order_notional est_price quantity)
      ∷ (
        "max_position_quantity",
        exceeds limits.max_position_quantity (fl.abs (projected side quantity exposure)),
      )
      ∷ (
        "max_position_notional",
        exceeds_at limits.max_position_notional est_price
            (fl.abs (projected side quantity exposure)),
      )
      ∷ []

  order_quantity-code :
      (max : Option F) (q : F)
      → code_of (check_order_quantity max q)
        ≡ (if exceeds max q then some "max_order_qty" else none)
  unfolding check_order_quantity
  order_quantity-code none q = refl
  order_quantity-code (some m) q = ground arith

  order_notional-code :
      (max px : Option F) (q : F)
      → code_of (check_order_notional max px q)
        ≡ (if exceeds_at max px q then some "max_order_notional" else none)
  unfolding check_order_notional
  order_notional-code none none q = refl
  order_notional-code none (some p) q = refl
  order_notional-code (some m) none q = refl
  order_notional-code (some m) (some p) q = ground arith

  position_quantity-code :
      (max : Option F) (q : F)
      → code_of (check_position_quantity max q)
        ≡ (if exceeds max (fl.abs q) then some "max_position_quantity" else none)
  unfolding check_position_quantity
  position_quantity-code none q = refl
  position_quantity-code (some m) q = ground arith

  position_notional-code :
      (max px : Option F) (q : F)
      → code_of (check_position_notional max px q)
        ≡ (if exceeds_at max px (fl.abs q) then some "max_position_notional" else none)
  unfolding check_position_notional
  position_notional-code none none q = refl
  position_notional-code none (some p) q = refl
  position_notional-code (some m) none q = refl
  position_notional-code (some m) (some p) q = ground arith

  -- The limit check refuses an order with the code of the first limit that it breaks, in the order
  -- order quantity, order notional, resulting position, resulting position's notional, and passes
  -- it if it breaks none; a limit that is not set, or a notional one without a price, is not broken.
  pub check_limit-first_broken :
      (side : OrderSide) (quantity : F) (est_price : Option F) (limits : RiskLimits F)
      (exposure : Exposure F)
      → code_of (check_limit side quantity est_price limits exposure)
        ≡ first_broken (limit_tests side quantity est_price limits exposure)
  unfolding check_limit signed
  check_limit-first_broken OrderSide.buy q px l x =
      let p = projected OrderSide.buy q x in
      code-then _ _ _ _ _ (order_quantity-code l.max_order_quantity q) (
        code-then _ _ _ _ _ (order_notional-code l.max_order_notional px q) (
          code-then _ _ _ _ _ (position_quantity-code l.max_position_quantity p)
            (position_notional-code l.max_position_notional px p)))
  check_limit-first_broken OrderSide.sell q px l x =
      let p = projected OrderSide.sell q x in
      code-then _ _ _ _ _ (order_quantity-code l.max_order_quantity q) (
        code-then _ _ _ _ _ (order_notional-code l.max_order_notional px q) (
          code-then _ _ _ _ _ (position_quantity-code l.max_position_quantity p)
            (position_notional-code l.max_position_notional px p)))
