-- ===== src/ColoRisk.antt =====
-- crates/colo-risk/src/lib.rs: the checks that a co-located strategy runs before every order.
pub mod Rate
use openoms.Base.{
  ℕ, ◌-◌, ◌^◌, Bool, true, false, not, ◌&&◌, ◌||◌, String, str_eq, ◌<>◌, Option, none, some, List,
  [], ◌∷◌, ◌++◌, Result, ok, err, ◌>>=◌, ◌>>◌, if◌then◌else◌, leb, length, unwrap_or,
}
use openoms.Float.{Float64}

pub record Limits (F : Type 0) : Type 0 where
  pub max_order_qty : Option F
  pub max_order_notional : Option F
  pub max_position_qty : Option F
  pub max_position_notional : Option F
  pub price_band_pct : Option F
  pub max_orders_per_sec : Option ℕ

pub record OrderIntent (F : Type 0) : Type 0 where
  pub symbol : String
  pub quote_currency : String
  pub buy : Bool
  pub qty : F
  pub price : F

pub record Reject : Type 0 where
  pub code : String
  pub message : String

-- An instant counts nanoseconds; the window begins with the oldest.
pub record RiskBook (F : Type 0) : Type 0 where
  pub limits : Limits F
  pub version : ℕ
  pub positions : String → Option F
  pub halted : Bool
  pub window : List ℕ

abbrev pub Checked : Type 0
Checked = Result (Unit {0}) Reject

abbrev pub reject : String → String → Checked
reject code message = err (record { code = code; message = message })

-- `USD_LIKE.contains`
abbrev pub is_usd_like : String → Bool
is_usd_like c = str_eq c "USD" || (str_eq c "USDT" || str_eq c "USDC")

abbrev pub is_some : {A : Type 0} → Option A → Bool
is_some none = false
is_some (some _) = true

module _ {F : Type 0} where
  abbrev pub book_new : Limits F → ℕ → RiskBook F
  book_new limits version = record {
    limits = limits;
    version = version;
    positions = λ _. none;
    halted = false;
    window = [];
  }

  abbrev pub set_limits : RiskBook F → Limits F → ℕ → RiskBook F
  set_limits book limits version = record book { limits = limits; version = version }

  -- Collecting pairs into a map: of two for a symbol, the later is kept.
  abbrev pub collect : List (String × F) → String → Option F
  collect [] symbol = none
  collect ((s, p) ∷ rest) symbol = elim (collect rest symbol) [
    | some later ↦ some later
    | none ↦ if str_eq s symbol then some p else none
  ]

  abbrev pub set_positions : RiskBook F → List (String × F) → RiskBook F
  set_positions book positions = record book { positions = collect positions }

  abbrev pub halt : RiskBook F → RiskBook F
  halt book = record book { halted = true }

  abbrev pub resume : RiskBook F → RiskBook F
  resume book = record book { halted = false }

module _ {F : Type 0} ⦃fl : Float64 F⦄ where
  abbrev pub signed_fill : Bool → F → F
  signed_fill buy qty = if buy then qty else fl.neg qty

  unfoldable pub on_fill : RiskBook F → String → Bool → F → RiskBook F
  on_fill book symbol buy qty = record book {
    positions = λ s.
        if str_eq s symbol
        then some (fl.add (unwrap_or (book.positions symbol) fl.zero_f64) (signed_fill buy qty))
        else book.positions s;
  }

  unfoldable pub check_max : Option F → String → F → String → Checked
  check_max none code x what = ok tt
  check_max (some max) code x what =
      if fl.lt max x then reject code (what <> (" > " <> fl.display max)) else ok tt

  unfoldable pub check_quote : Limits F → OrderIntent F → Checked
  check_quote l o =
      if (is_some l.max_order_notional || is_some l.max_position_notional)
        && not (is_usd_like o.quote_currency)
      then reject "no_notional_limit" ("no notional limit for quote currency " <> o.quote_currency)
      else ok tt

  unfoldable pub check_band : Option F → OrderIntent F → F → Checked
  check_band none o reference = ok tt
  check_band (some band) o reference =
      let off = fl.mul (fl.div (fl.abs (fl.sub o.price reference)) reference) fl.hundred_f64 in
      if fl.lt (fl.mul band (fl.add fl.one_f64 fl.eps_f64)) off
      then reject "price_band" (
          "price "
          <> (fl.display o.price
              <> (" is "
                  <> (fl.display_two off
                      <> ("% from "
                          <> (fl.display reference <> (" (band " <> (fl.display band <> "%)"))))))))
      else ok tt

  -- Everything before the rate.
  unfoldable pub check_order : RiskBook F → OrderIntent F → F → Checked
  unfolding check_max check_quote check_band
  check_order book o reference = if book.halted then reject "halted" "trading is halted" else do
    let l = book.limits
    check_max l.max_order_qty "max_order_qty" o.qty ("order qty " <> fl.display o.qty)
    check_quote l o
    let notional = fl.mul o.qty o.price
    check_max l.max_order_notional "max_order_notional" notional
        ("order notional " <> fl.display notional)
    let projected =
        fl.add (unwrap_or (book.positions o.symbol) fl.zero_f64) (signed_fill o.buy o.qty)
    check_max l.max_position_qty "max_position_qty" (fl.abs projected)
        ("projected position " <> fl.display projected)
    let held = fl.mul (fl.abs projected) o.price
    check_max l.max_position_notional "max_position_notional" held
        ("projected position notional " <> fl.display held)
    check_band l.price_band_pct o reference

-- The loop that drops what is a second old or older.
unfoldable pub drop_old : ℕ → List ℕ → List ℕ
drop_old now [] = []
drop_old now (t ∷ ts) = if leb (10 ^ 9) (now - t) then drop_old now ts else t ∷ ts

-- The window after the order, and the verdict. `display` writes the cap.
unfoldable pub check_rate : (display : ℕ → String) → Option ℕ → List ℕ → ℕ → List ℕ × Checked
unfolding drop_old
check_rate display none window now = (window, ok tt)
check_rate display (some cap) window now =
    let recent = drop_old now window in
    if leb cap (length recent)
    then (
      recent,
      reject "order_rate" ("more than " <> (display cap <> " orders in the last second")),
    )
    else (recent ++ (now ∷ []), ok tt)

module _ {F : Type 0} ⦃fl : Float64 F⦄ (display : ℕ → String) where
  -- What follows the verdict on the order itself.
  unfoldable pub check_then_rate : RiskBook F → ℕ → Checked → RiskBook F × Checked
  unfolding check_rate
  check_then_rate book now (err r) = (book, err r)
  check_then_rate book now (ok _) =
      let (window, verdict) = check_rate display book.limits.max_orders_per_sec book.window now in
      (record book { window = window }, verdict)

  unfoldable pub check : RiskBook F → OrderIntent F → F → ℕ → RiskBook F × Checked
  unfolding check_order check_then_rate
  check book o reference now = check_then_rate book now (check_order book o reference)
