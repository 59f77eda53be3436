-- ===== src/Strategies/Guard.antt =====
-- Which orders of a strategy pass its checks.
use openoms.Base.{
  ◌∙◌, ◌≡◌, refl, true, ◌&&◌, not, String, Option, none, some, Result, ok, ◌>>=◌, if◌then◌else◌,
  arith, map_option, unwrap_or, Bool-cases, inl, inr, ◌⊎◌, Bool, false, ◌||◌, str_eq, or_option, ap,
}
use openoms.Float.{Float64}
use openoms.Orders.State.{OrderSide}
use openoms.Orders.Commands.{SubmitOrder}
use openoms.Orders.Risk.{
  RiskLimits, Exposure, RiskRejection, TradingState, check_trading_state, reduces,
}
use openoms.Orders.Risk.Limits.{code_of, first_broken, limit_tests, check_limit-first_broken}
use openoms.RiskEngine.{RiskConfig, RiskDataProvider, scope_of}
use openoms.RiskEngine.Submit.{
  refusal, or_code, gate, check_trading_state-gate, code_of-chain, refusal-map_err,
}
use openoms.Strategies.{
  Strategy, falls_back, is_usd_like, no_limits, or_limits, default_notional, effective_limits,
  check_price_band, check_mark, est_price_of, check_row, check_loaded, check, flatten_order,
}

-- A limit that only the strategy sets.
abbrev pub only_default : {F : Type 0} → Option F → Option F → Bool
only_default none (some _) = true
only_default _ _ = false

-- Whether a notional limit in force is the strategy's own, because the row has none.
abbrev pub takes_notional : {F : Type 0} → Option (RiskConfig F) → Strategy F → Bool
takes_notional none s =
    only_default none s.limits.max_order_notional
    || only_default none s.limits.max_position_notional
takes_notional (some row) s =
    only_default row.limits.max_order_notional s.limits.max_order_notional
    || only_default row.limits.max_position_notional s.limits.max_position_notional

abbrev pub counts_as_usd : String → Bool
counts_as_usd quote = str_eq quote "USD" || (str_eq quote "USDT" || str_eq quote "USDC")

abbrev pub first_set : {F : Type 0} → Option F → Option F → Option F
first_set (some own) default = some own
first_set none default = default

-- The limits in force: each the row's, or else the strategy's.
abbrev pub limits_for : {F : Type 0} → Option (RiskConfig F) → Strategy F → RiskLimits F
limits_for none s = s.limits
limits_for (some row) s = record {
  max_order_quantity = first_set row.limits.max_order_quantity s.limits.max_order_quantity;
  max_order_notional = first_set row.limits.max_order_notional s.limits.max_order_notional;
  max_position_quantity = first_set row.limits.max_position_quantity s.limits.max_position_quantity;
  max_position_notional = first_set row.limits.max_position_notional s.limits.max_position_notional;
}

module _ {F : Type 0} ⦃fl : Float64 F⦄ where
  -- The value of one contract: at the limit price, or else at the mark, if there is one.
  abbrev pub contract_value : Option F → Option F → F → Option F
  contract_value (some px) mark size = some (fl.mul px size)
  contract_value none (some mid) size = some (fl.mul mid size)
  contract_value none none size = none

  est_price_of-value :
      (px mark : Option F) (size : F) → est_price_of px mark size ≡ contract_value px mark size
  unfolding est_price_of
  est_price_of-value (some px) (some mid) size = refl
  est_price_of-value (some px) none size = refl
  est_price_of-value none (some mid) size = refl
  est_price_of-value none none size = refl

module _ {F : Type 0} where
  or_option-first : (a b : Option F) → or_option a b ≡ first_set a b
  or_option-first none b = refl
  or_option-first (some a) b = refl

  falls_back-only : (a b : Option F) → falls_back a b ≡ only_default a b
  unfolding falls_back
  falls_back-only none none = refl
  falls_back-only none (some b) = refl
  falls_back-only (some a) b = refl

  abbrev own : Option (RiskConfig F) → RiskLimits F
  own row = unwrap_or (map_option (λ r. r.limits) row) no_limits

  or_limits-limits_for :
      (row : Option (RiskConfig F)) (s : Strategy F)
      → or_limits (own row) s.limits ≡ limits_for row s
  or_limits-limits_for none s = refl
  or_limits-limits_for (some row) s =
      rw
        (
          or_option-first row.limits.max_order_quantity s.limits.max_order_quantity,
          or_option-first row.limits.max_order_notional s.limits.max_order_notional,
          or_option-first row.limits.max_position_quantity s.limits.max_position_quantity,
          or_option-first row.limits.max_position_notional s.limits.max_position_notional,
        )
        refl

  default_notional-takes :
      (row : Option (RiskConfig F)) (s : Strategy F)
      → default_notional (own row) s.limits ≡ takes_notional row s
  unfolding default_notional
  default_notional-takes none s =
      rw
        (
          falls_back-only none s.limits.max_order_notional,
          falls_back-only none s.limits.max_position_notional,
        )
        refl
  default_notional-takes (some row) s =
      rw
        (
          falls_back-only row.limits.max_order_notional s.limits.max_order_notional,
          falls_back-only row.limits.max_position_notional s.limits.max_position_notional,
        )
        refl

module _ {F : Type 0} ⦃fl : Float64 F⦄ where
  abbrev pub row_gate : Option (RiskConfig F) → OrderSide → F → Option String
  row_gate none side position = none
  row_gate (some row) side position = gate row.trading_state side position

  -- A default notional limit is only known in a currency like USD.
  abbrev pub notional_gate : Strategy F → Option (RiskConfig F) → String → Option String
  notional_gate s row quote =
      if takes_notional row s && not (counts_as_usd quote) then some "no_notional_limit" else none

  -- The distance from the mark in percent, against the band and a rounding error.
  abbrev pub band_gate : Option F → Option F → Option F → Option String
  band_gate (some px) (some mid) (some band) =
      if fl.lt (fl.mul band (fl.add fl.one_f64 fl.eps_f64))
        (fl.mul (fl.div (fl.abs (fl.sub px mid)) mid) fl.hundred_f64)
      then some "price_band"
      else none
  band_gate _ _ _ = none

  check_row-gate :
      (row : Option (RiskConfig F)) (side : OrderSide) (position : F)
      → code_of (check_row row side position) ≡ row_gate row side position
  unfolding check_row
  check_row-gate none side position = refl
  check_row-gate (some row) side position = check_trading_state-gate row.trading_state side position

  check_mark-gate :
      (px mid band : Option F) → code_of (check_mark px mid band) ≡ band_gate px mid band
  unfolding check_mark check_price_band
  check_mark-gate none none band = refl
  check_mark-gate none (some mid) none = refl
  check_mark-gate none (some mid) (some band) = refl
  check_mark-gate (some px) none band = refl
  check_mark-gate (some px) (some mid) none = refl
  check_mark-gate (some px) (some mid) (some band) = ground arith

  effective_limits-chain :
      (s : Strategy F) (row : Option (RiskConfig F)) (quote : String)
      (rest : RiskLimits F → Result (Unit {0}) RiskRejection) (c : Option String)
      → code_of (rest (limits_for row s)) ≡ c
      → code_of (effective_limits s (map_option (λ r. r.limits) row) quote >>= rest)
        ≡ or_code (notional_gate s row quote) c
  unfolding effective_limits is_usd_like
  effective_limits-chain s row quote rest c h =
      elim (Bool-cases (takes_notional row s && not (counts_as_usd quote))) [
        | inl e ↦ rw (default_notional-takes row s, e, effective_limits) refl
        | inr e ↦
            rw (default_notional-takes row s, e, effective_limits)
              (rw (or_limits-limits_for row s) h)
      ]

module _ {F E : Type 0} ⦃fl : Float64 F⦄ where
  -- Where the limits' row and the exposure can be loaded, an order of a strategy is refused with the
  -- first code of: the gate of the strategy's trading state, that of the row's, a notional limit that
  -- only the strategy sets with a quote currency other than USD, USDT and USDC, the price band around
  -- the mark, and the limits in their order, each the row's or else the strategy's, at the limit
  -- price, or the mark without one, times the contract size; it passes if there is none.
  pub check-refusal :
      (provider : RiskDataProvider F E String) (s : Strategy F) (cmd : SubmitOrder F)
      (quote : String) (mark : Option F) (size : F) (row : Option (RiskConfig F))
      (exposure : Exposure F)
      → provider.risk_config (scope_of s.portfolio_id cmd) ≡ ok row
      → provider.exposure (scope_of s.portfolio_id cmd) ≡ ok exposure
      → refusal (check provider s cmd quote mark size)
        ≡ or_code (gate s.state cmd.side exposure.position_qty) (
            or_code (row_gate row cmd.side exposure.position_qty) (
              or_code (notional_gate s row quote) (
                or_code (band_gate cmd.limit_price mark s.price_band_pct) (
                  first_broken (
                    limit_tests cmd.side cmd.quantity
                      (contract_value cmd.limit_price mark size)
                      (limits_for row s)
                      exposure)))))
  unfolding check check_loaded
  check-refusal provider s cmd quote mark size row x c e =
      rw (c, check)
        (rw (e, check)
          (refusal-map_err E (check_loaded s cmd quote mark size row x)
            ∙ code_of-chain _ _ _ _ (check_trading_state-gate s.state cmd.side x.position_qty) (
                code_of-chain _ _ _ _ (check_row-gate row cmd.side x.position_qty) (
                  effective_limits-chain s row quote _ _ (
                    code_of-chain _ _ _ _ (check_mark-gate cmd.limit_price mark s.price_band_pct) (
                      check_limit-first_broken cmd.side cmd.quantity
                        (est_price_of cmd.limit_price mark size) (limits_for row s) x
                      ∙ ap
                          (λ px.
                            first_broken
                              (limit_tests cmd.side cmd.quantity px (limits_for row s) x))
                          (est_price_of-value cmd.limit_price mark size)))))))

module _ {F : Type 0} ⦃fl : Float64 F⦄ where
  -- Flatten sets a strategy to reducing, which its own closing orders pass: for a position that is
  -- above or below zero, the order is on the side that reduces it.
  pub flatten_order-reduces :
      (net_qty mid band : F)
      → (fl.lt fl.zero_f64 net_qty ≡ true) ⊎ (fl.lt net_qty fl.zero_f64 ≡ true)
      → check_trading_state TradingState.reducing (flatten_order net_qty mid band).0 net_qty ≡ ok tt
  unfolding check_trading_state reduces flatten_order
  flatten_order-reduces net_qty mid band (inl above) = ground (arith, above)
  flatten_order-reduces net_qty mid band (inr below) = ground (arith, below)
