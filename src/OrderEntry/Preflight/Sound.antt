-- ===== src/OrderEntry/Preflight/Sound.antt =====
-- What the look-ups of a submit have checked.
use openoms.Base.{
  ◌≡◌, refl, ap, ◌∙◌, ◌⊎◌, inl, inr, true, false, String, eq_iff, Option, none, some, ok,
  ok_or-eq-ok, OnOk, OnOk-bind, OnOk-ok, arith, ok_or, filter_option-some,
}
use openoms.Float.{Float64}
use openoms.Orders.State.{TimeInForce, day, gtc, ioc, fok}
use openoms.Orders.Commands.{SubmitOrder}
use openoms.OrderEntry.Preflight.{
  AccountRow, InstrumentRow, BrokerInstrumentRow, active_account, tradeable_mapping, Catalog,
  Preflight, same_portfolio, check_owner, is_day, resolve_account, is_explicit, check_instrument,
  check_minimum, preflight,
}

-- The account is named and the portfolio's, or the portfolio's default and not another's.
abbrev pub Owned : {F : Type 0} → Catalog F → Option String → String → String → AccountRow → Type 0
Owned catalog (some named) portfolio account_id row =
    (account_id ≡ named) × (row.portfolio_id ≡ some portfolio)
Owned catalog none portfolio account_id row =
    (catalog.default_account portfolio ≡ some account_id)
    × ((row.portfolio_id ≡ none) ⊎ (row.portfolio_id ≡ some portfolio))

abbrev pub AboveMinimum : {F : Type 0} ⦃fl : Float64 F⦄ → Option F → F → Type 0
AboveMinimum none quantity = Unit
AboveMinimum ⦃fl⦄ (some min) quantity = fl.lt quantity min ≡ false

module _ {F : Type 0} ⦃fl : Float64 F⦄ where
  abbrev pub IsChecked : Catalog F → Option String → SubmitOrder F → Preflight F → Type 0
  IsChecked catalog explicit cmd p =
      (p.cmd ≡ record cmd { account_id = p.cmd.account_id })
      × Owned catalog explicit cmd.portfolio_id p.cmd.account_id p.account
      × (catalog.account p.cmd.account_id ≡ some p.account)
      × (p.account.connection_status ≡ "ACTIVE")
      × (catalog.instrument cmd.instrument_id ≡ some p.instrument)
      × (p.instrument.status ≡ "ACTIVE")
      × (p.instrument.instrument_class ≡ "OPTION" → cmd.time_in_force ≡ day)
      × (catalog.broker_instrument cmd.instrument_id p.account.broker_code ≡ some p.mapping)
      × (p.mapping.is_tradeable ≡ true)
      × AboveMinimum p.mapping.min_quantity cmd.quantity

is_day-eq : (t : TimeInForce) → is_day t ≡ true → t ≡ day
is_day-eq day h = refl
is_day-eq gtc h = absurd (cc)
is_day-eq ioc h = absurd (cc)
is_day-eq fok h = absurd (cc)

module _ {F : Type 0} ⦃fl : Float64 F⦄ where
  owned :
      (catalog : Catalog F) (explicit : Option String) (portfolio account_id : String)
      (row : AccountRow) (owner : Option String)
      → row.portfolio_id ≡ owner
      → resolve_account catalog portfolio explicit ≡ ok account_id
      → check_owner (is_explicit explicit) owner portfolio ≡ ok tt
      → Owned catalog explicit portfolio account_id row
  unfolding resolve_account check_owner is_explicit same_portfolio
  owned catalog (some named) portfolio account_id row none at h k = absurd (cc)
  owned catalog (some named) portfolio account_id row (some o) at h k =
      (ground (arith, h), at ∙ ap some (ground (arith, k, eq_iff o portfolio)))
  owned catalog none portfolio account_id row none at h k =
      (ok_or-eq-ok (catalog.default_account portfolio) _ h, inl at)
  owned catalog none portfolio account_id row (some o) at h k = (
    ok_or-eq-ok (catalog.default_account portfolio) _ h,
    inr (at ∙ ap some (ground (arith, k, eq_iff o portfolio))),
  )

  active :
      (row : InstrumentRow F) (t : TimeInForce)
      → check_instrument row t ≡ ok tt
      → (row.status ≡ "ACTIVE") × (row.instrument_class ≡ "OPTION" → t ≡ day)
  unfolding check_instrument
  active row t h = (
    ground (arith, h, eq_iff row.status "ACTIVE"),
    λ option. is_day-eq t (ground (arith, h, option, eq_iff row.instrument_class "OPTION")),
  )

  -- What the queries' filters leave.
  connected :
      (catalog : Catalog F) (account_id : String) (row : AccountRow)
      → active_account catalog account_id ≡ some row
      → (catalog.account account_id ≡ some row) × (row.connection_status ≡ "ACTIVE")
  unfolding active_account
  connected catalog account_id row h =
      let (there, active) = filter_option-some _ (catalog.account account_id) row h in
      (there, (eq_iff row.connection_status "ACTIVE").0 active)

  traded_at :
      (catalog : Catalog F) (instrument_id broker_code : String) (row : BrokerInstrumentRow F)
      → tradeable_mapping catalog instrument_id broker_code ≡ some row
      → (catalog.broker_instrument instrument_id broker_code ≡ some row) × (row.is_tradeable ≡ true)
  unfolding tradeable_mapping
  traded_at catalog instrument_id broker_code row h =
      filter_option-some _ (catalog.broker_instrument instrument_id broker_code) row h

  minimum :
      (min : Option F) (quantity : F)
      → check_minimum min quantity ≡ ok tt
      → AboveMinimum min quantity
  unfolding check_minimum
  minimum none quantity h = tt
  minimum (some min) quantity h = ground (arith, h)

  preflight-OnOk :
      (catalog : Catalog F) (explicit : Option String) (cmd : SubmitOrder F)
      → OnOk (IsChecked catalog explicit cmd) (preflight catalog explicit cmd)
  unfolding preflight
  preflight-OnOk catalog explicit cmd =
      OnOk-bind (resolve_account catalog cmd.portfolio_id explicit) _ λ account_id resolved.
        OnOk-bind (ok_or (active_account catalog account_id) _) _ λ account found.
          OnOk-bind (check_owner (is_explicit explicit) account.portfolio_id cmd.portfolio_id) _
            λ _ owner.
              OnOk-bind (ok_or (catalog.instrument cmd.instrument_id) _) _ λ instrument there.
                OnOk-bind (check_instrument instrument cmd.time_in_force) _ λ _ active_there.
                  OnOk-bind
                    (ok_or (tradeable_mapping catalog cmd.instrument_id account.broker_code) _) _
                    λ mapping mapped.
                      OnOk-bind (check_minimum mapping.min_quantity cmd.quantity) _ λ _ enough.
                        OnOk-ok _ (
                          refl,
                          owned catalog explicit cmd.portfolio_id account_id account
                              account.portfolio_id refl resolved owner,
                          (connected catalog account_id account
                              (ok_or-eq-ok (active_account catalog account_id) _ found)).0,
                          (connected catalog account_id account
                              (ok_or-eq-ok (active_account catalog account_id) _ found)).1,
                          ok_or-eq-ok (catalog.instrument cmd.instrument_id) _ there,
                          (active instrument cmd.time_in_force active_there).0,
                          (active instrument cmd.time_in_force active_there).1,
                          (traded_at catalog cmd.instrument_id account.broker_code mapping (
                              ok_or-eq-ok
                                (tradeable_mapping catalog cmd.instrument_id account.broker_code) _
                                mapped)).0,
                          (traded_at catalog cmd.instrument_id account.broker_code mapping (
                              ok_or-eq-ok
                                (tradeable_mapping catalog cmd.instrument_id account.broker_code) _
                                mapped)).1,
                          minimum mapping.min_quantity cmd.quantity enough,
                        )

  -- The look-ups of a submit pass only if: the account is the one named, which then belongs to the
  -- portfolio, or the portfolio's default, which then belongs to no other; the account's connection is
  -- active;
  -- the instrument is active and, if it is an option, the order is for the day; the broker trades it;
  -- and the quantity is not below the broker's minimum. Nothing but the account's id is added to the
  -- order.
  pub preflight-IsChecked :
      (catalog : Catalog F) (explicit : Option String) (cmd : SubmitOrder F) (p : Preflight F)
      → preflight catalog explicit cmd ≡ ok p
      → IsChecked catalog explicit cmd p
  preflight-IsChecked catalog explicit cmd p = (preflight-OnOk catalog explicit cmd).at p
