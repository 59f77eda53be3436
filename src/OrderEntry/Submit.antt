-- ===== src/OrderEntry/Submit.antt =====
-- src/order_entry.rs: an order's checks and the row that is stored for it.
pub mod Checks
pub mod Outcomes
use openoms.Base.{
  ℕ, Bool, true, false, ◌&&◌, not, String, ◌<>◌, str_eq, Option, none, some, List, Result, ok, err,
  ◌>>=◌, ◌>>◌, if◌then◌else◌, map_err, ok_or,
}
use openoms.Float.{Float64}
use openoms.Orders.Errors.{CommandRejection}
use openoms.Orders.Events.{OrderDomainEvent}
use openoms.Orders.Commands.{SubmitOrder, OrderCommand}
use openoms.Orders.Risk.{RiskRejection}
use openoms.Orders.Aggregate.{EventMetadata, OrderAggregate, empty}
use openoms.Orders.Aggregate.Decide.{decide}
use openoms.Orders.Aggregate.Apply.{apply_all}
use openoms.EventStore.{append_events}
use openoms.RiskEngine.{RiskCheckError, RiskDataProvider, rejected, unavailable, check_submit}
use openoms.Handlers.{StatusCode, ApiError, answer, internal, map_rejection_to_api_error}
use openoms.Execution.{Store, set_at}
use openoms.OrderEntry.{insert_order_state, record_rejection}
use openoms.OrderEntry.Preflight.{Preflight}
use openoms.Strategies.{Strategy, Origin, may_trade, session_gate, reject}
use openoms.Strategies as Guard

-- Who submits, and what is known of the portfolio's strategy: in the registry, as its row is locked
-- in the transaction, and whether its session is live.
pub record Submitter (F : Type 0) : Type 0 where
  pub principal_id : String
  pub can_trade : Bool
  pub origin : Origin
  pub known : Bool
  pub locked : Option (Strategy F)
  pub live : Bool

module _ {F : Type 0} where
  unfoldable pub gates : Submitter F → Strategy F → Result (Unit {0}) RiskRejection
  unfolding may_trade session_gate
  gates who locked =
      if not who.known
      then reject "strategy_registry" "the strategy registry is not loaded; retry"
      else may_trade locked who.principal_id >> session_gate who.origin who.live

module _ {F E : Type 0} ⦃fl : Float64 F⦄ where
  -- The checks of a strategy's order, or the risk engine's.
  unfoldable pub pre_trade :
      RiskDataProvider F E String
      → Submitter F
      → Preflight F
      → Option F
      → Option (Strategy F)
      → Result (Unit {0}) (RiskCheckError E)
  unfolding gates check_submit Guard.check
  pre_trade provider who p mark none =
      check_submit provider p.cmd.portfolio_id p.cmd p.instrument.contract_size
  pre_trade provider who p mark (some locked) =
      map_err rejected (gates who locked)
      >> Guard.check provider locked p.cmd p.instrument.currency mark p.instrument.contract_size

unfoldable pub risk_api_error : RiskRejection → ApiError
risk_api_error r =
    answer StatusCode.unprocessable_entity
      ("risk check failed [" <> (r.code <> ("]: " <> r.message)))

module _ {F T : Type 0} ⦃fl : Float64 F⦄ where
  unfoldable pub store_applied :
      Store F T
      → String
      → List (OrderDomainEvent F T)
      → Result (OrderAggregate F) CommandRejection
      → Result (Store F T) ApiError
  unfolding insert_order_state append_events
  store_applied store order_id events (err _) = err (internal "failed to apply domain event")
  store_applied store order_id events (ok applied) = elim applied.state [
    | none ↦ err (internal "missing aggregate state after submit")
    | some state ↦ insert_order_state store order_id state >>= λ inserted.
        map_err (λ _. internal "failed to append order audit event")
          (append_events (store.streams order_id) 0 events)
        >>= λ stream. ok (record inserted { streams = set_at store.streams order_id stream })
  ]

  unfoldable pub store_decided :
      Store F T
      → String
      → Result (List (OrderDomainEvent F T)) CommandRejection
      → Result (Store F T) ApiError
  unfolding map_rejection_to_api_error apply_all empty store_applied
  store_decided store order_id (err rejection) = err (map_rejection_to_api_error rejection)
  store_decided store order_id (ok events) =
      store_applied store order_id events (apply_all empty events)

  unfoldable pub store_submitted :
      Store F T → String → SubmitOrder F → EventMetadata T → Result (Store F T) ApiError
  unfolding decide empty store_decided
  store_submitted store order_id cmd metadata =
      store_decided store order_id (decide empty (OrderCommand.submit_order cmd) metadata)

  -- A refusal is stored, unless that fails.
  unfoldable pub refuse_order :
      Store F T
      → String
      → SubmitOrder F
      → RiskRejection
      → (ℕ → EventMetadata T)
      → Store F T × Result (Unit {0}) ApiError
  unfolding record_rejection risk_api_error
  refuse_order store order_id cmd rejection metadata =
      elim (record_rejection store order_id cmd rejection (metadata 0) (metadata 1)) [
        | ok next ↦ (next, err (risk_api_error rejection))
        | err e ↦ (store, err e)
      ]

  unfoldable pub store_checked :
      {E : Type 0}
      → Store F T
      → String
      → SubmitOrder F
      → (ℕ → EventMetadata T)
      → Result (Unit {0}) (RiskCheckError E)
      → Store F T × Result (Unit {0}) ApiError
  unfolding refuse_order store_submitted
  store_checked store order_id cmd metadata (err (rejected rejection)) =
      refuse_order store order_id cmd rejection metadata
  store_checked store order_id cmd metadata (err (unavailable _)) =
      (store, err (internal "failed to evaluate pre-trade risk"))
  store_checked store order_id cmd metadata (ok _) =
      elim (store_submitted store order_id cmd (metadata 0)) [
        | ok next ↦ (next, ok tt)
        | err e ↦ (store, err e)
      ]

  -- From the look-up of the mark on to the commit of the first transaction: the store, and the
  -- answer if there is one already. `mark` is the reference price or why there is none.
  unfoldable pub accept_order :
      {E : Type 0}
      → RiskDataProvider F E String
      → Submitter F
      → Preflight F
      → Result (Option F) RiskRejection
      → Store F T
      → String
      → (ℕ → EventMetadata T)
      → Store F T × Result (Unit {0}) ApiError
  unfolding refuse_order pre_trade store_checked
  accept_order provider who p (err rejection) store order_id metadata =
      refuse_order store order_id p.cmd rejection metadata
  accept_order provider who p (ok mark) store order_id metadata = elim (store.rows order_id) [
    | some _ ↦ (store, err (answer StatusCode.conflict "order already exists"))
    | none ↦
        if not who.can_trade
        then (store, err (answer StatusCode.forbidden "unauthorized"))
        else store_checked store order_id p.cmd metadata (pre_trade provider who p mark who.locked)
  ]
