-- ===== src/OrderEntry/Submit/Checks.antt =====
-- What an order has passed that the pre-trade checks let through.
use openoms.Base.{
  ◌≡◌, refl, Bool, true, String, eq_iff, Option, none, some, Result, ok, err, ◌>>◌, map_err,
  Bool-cases, inl, inr, arith,
}
use openoms.Float.{Float64}
use openoms.Orders.Risk.{RiskRejection}
use openoms.RiskEngine.{RiskDataProvider, rejected, check_submit}
use openoms.OrderEntry.Preflight.{Preflight}
use openoms.OrderEntry.Submit.{Submitter, gates, pre_trade}
use openoms.Strategies.{Strategy, Origin, may_trade, session_gate}
use openoms.Strategies as Guard

-- An order that comes by a FIX session comes while the session is live.
abbrev pub InSession : Origin → Bool → Type 0
InSession (Origin.fix _) live = live ≡ true
InSession _ live = Unit

both_ok : {E : Type 0} (a b : Result (Unit {0}) E) → (a >> b) ≡ ok tt → (a ≡ ok tt) × (b ≡ ok tt)
both_ok (ok tt) b h = (refl, h)
both_ok (err e) b h = cc

map_err-ok :
    {E E' : Type 0} (f : E → E') (r : Result (Unit {0}) E) → map_err f r ≡ ok tt → r ≡ ok tt
map_err-ok f (ok tt) h = refl
map_err-ok f (err e) h = cc

session_gate-InSession :
    (origin : Origin) (live : Bool) → session_gate origin live ≡ ok tt → InSession origin live
unfolding session_gate
session_gate-InSession Origin.api live h = tt
session_gate-InSession Origin.flatten live h = tt
session_gate-InSession Origin.external live h = tt
session_gate-InSession (Origin.fix _) live h = ground (arith, h)

module _ {F : Type 0} (who : Submitter F) (locked : Strategy F) where
  -- The caller is the strategy's own principal, the registry knows the strategy, and its session is
  -- live if the order comes by FIX.
  abbrev pub IsOwn : Type 0
  IsOwn =
      (who.known ≡ true) × (who.principal_id ≡ locked.principal_id) × InSession who.origin who.live

  own_principal : may_trade locked who.principal_id ≡ ok tt → who.principal_id ≡ locked.principal_id
  unfolding may_trade
  own_principal h = ground (arith, h, eq_iff who.principal_id locked.principal_id)

  gates-IsOwn : gates who locked ≡ ok tt → IsOwn
  unfolding gates
  gates-IsOwn h = elim (Bool-cases who.known) [
    | inr unknown ↦ absurd (refused (rw unknown at h))
    | inl known ↦
        let (own, live) =
          both_ok (may_trade locked who.principal_id) (session_gate who.origin who.live)
            (rw known at h) in
        (known, own_principal own, session_gate-InSession who.origin who.live live)
  ]
    where
      refused : {r : RiskRejection} → ◌≡◌ {A = Result (Unit {0}) RiskRejection} (err r) (ok tt) → ⊥
      refused e = cc

module _ {F E : Type 0} ⦃fl : Float64 F⦄ (provider : RiskDataProvider F E String)
    (who : Submitter F) (p : Preflight F) (m : Option F) where
  -- Without a strategy, the risk engine's check; with one, what makes the order its own, and the
  -- strategy's checks.
  abbrev pub CheckedBy : Option (Strategy F) → Type 0
  CheckedBy none = check_submit provider p.cmd.portfolio_id p.cmd p.instrument.contract_size ≡ ok tt
  CheckedBy (some locked) =
      IsOwn who locked
      × (Guard.check provider locked p.cmd p.instrument.currency m p.instrument.contract_size
          ≡ ok tt)

  pub pre_trade-CheckedBy :
      (locked : Option (Strategy F)) → pre_trade provider who p m locked ≡ ok tt → CheckedBy locked
  unfolding pre_trade
  pre_trade-CheckedBy none h = h
  pre_trade-CheckedBy (some locked) h =
      let (own, checked) = both_ok (map_err rejected (gates who locked)) _ h in
      (gates-IsOwn who locked (map_err-ok rejected (gates who locked) own), checked)
