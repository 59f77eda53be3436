-- ===== src/OrderEntry/Placing.antt =====
-- src/order_entry.rs: a stored order placed at its broker, and what the broker's answer leads to.
pub mod Outcomes
use openoms.Base.{ℕ, String, ◌<>◌, Option, none, some, List, [], ◌∷◌, Result, ok, err, map_option}
use openoms.Float.{Float64}
use openoms.Orders.State.{
  OrderStatus, OrderAggregateState, side_as_str, order_type_as_str, time_in_force_as_str,
}
use openoms.Orders.Aggregate.{EventMetadata}
use openoms.Gateway.{Uuid, ExecSource, ExecKind, ExecEvent, BrokerError, error_text}
use openoms.Handlers.{StatusCode, ApiError, answer}
use openoms.Execution.{Store}
use openoms.OrderEngine.Stored.{apply_exec}
use openoms.OrderEntry.Routing.{RouteResult, terminal, persist_routed}
use openoms.OrderEntry.Preflight.{Preflight}

pub record BrokerOrderRequest (F : Type 0) : Type 0 where
  pub order_id : String
  pub symbol : String
  pub native_id : Option String
  pub quantity : F
  pub side : String
  pub order_type : String
  pub time_in_force : String
  pub limit_price : Option F
  pub external_account_ref : String

-- What a failed broker call means for a stored order.
pub data RouteFailure : Type 0 where
  rejected : String → RouteFailure
  unknown : RouteFailure

unfoldable pub route_failure : BrokerError → RouteFailure
route_failure (BrokerError.broker_rejected reason) = rejected reason
route_failure _ = unknown

-- The store, the answer, and the cancels sent to the broker: the venue's id and the symbol.
pub record Placed (F T : Type 0) : Type 0 where
  pub store : Store F T
  pub answered : Result (Unit {0}) ApiError
  pub cancels : List (String × String)

abbrev pub failed_with : {F T : Type 0} → Store F T → ApiError → Placed F T
failed_with store e = record { store = store; answered = err e; cancels = [] }

-- An order that was canceled while it was routed is canceled at the broker too.
unfoldable pub cancels_of : String → String → RouteResult → List (String × String)
cancels_of ext symbol (terminal OrderStatus.canceled) = (ext, symbol) ∷ []
cancels_of ext symbol _ = []

unfoldable pub after_route :
    {F T : Type 0}
    → Store F T
    → String
    → String
    → Result (Store F T × RouteResult) ApiError
    → Placed F T
unfolding cancels_of
after_route store ext symbol (err e) = failed_with store e
after_route store ext symbol (ok (next, result)) = record {
  store = next;
  answered = ok tt;
  cancels = cancels_of ext symbol result;
}

module _ {F : Type 0} where
  abbrev pub no_adapter : Preflight F → String
  no_adapter p =
      "no adapter configured for " <> (p.account.broker_code <> ("/" <> p.account.environment))

  unfoldable pub request_of : String → Preflight F → OrderAggregateState F → BrokerOrderRequest F
  unfolding side_as_str order_type_as_str time_in_force_as_str
  request_of order_id p s = record {
    order_id = order_id;
    symbol = p.mapping.broker_symbol;
    native_id = p.mapping.native_id;
    quantity = s.original_qty;
    side = side_as_str s.side;
    order_type = order_type_as_str s.order_type;
    time_in_force = time_in_force_as_str s.time_in_force;
    limit_price = s.limit_price;
    external_account_ref = p.account.external_account_ref;
  }

abbrev pub reject_event : {F Key : Type 0} → Key → String → String → ExecEvent F Key
reject_event order_id broker_code reason = record {
  order_id = order_id;
  venue = broker_code;
  actor = "oms";
  source = ExecSource.session;
  kind = ExecKind.rejected reason;
}

module _ {F T Key : Type 0} ⦃fl : Float64 F⦄ ⦃uuid : Uuid Key⦄ where
  -- The engine books the reject.
  unfoldable pub book_reject :
      Store F T → Key → String → String → (ℕ → ℕ → EventMetadata T) → Store F T
  unfolding apply_exec
  book_reject store order_id broker_code reason metadata =
      apply_exec store (reject_event order_id broker_code reason) metadata

  unfoldable pub after_failure :
      Store F T → Key → String → (ℕ → ℕ → EventMetadata T) → BrokerError → RouteFailure → Placed F T
  unfolding book_reject
  after_failure store order_id broker_code metadata e (rejected reason) =
      failed_with (book_reject store order_id broker_code reason metadata)
        (answer StatusCode.bad_gateway ("broker rejected order: " <> reason))
  after_failure store order_id broker_code metadata e unknown = failed_with store (
      answer StatusCode.bad_gateway
        ("failed to route order to " <> (broker_code <> (": " <> error_text e))))

  -- From the adapter's answer on, or from its absence; nothing else commits from then.
  unfoldable pub after_reply :
      Store F T
      → Key
      → Preflight F
      → (ℕ → ℕ → EventMetadata T)
      → Option (Result String BrokerError)
      → Placed F T
  unfolding book_reject after_failure route_failure persist_routed after_route
  after_reply store order_id p metadata none =
      failed_with (book_reject store order_id p.account.broker_code (no_adapter p) metadata)
        (answer StatusCode.service_unavailable (no_adapter p))
  after_reply store order_id p metadata (some (err e)) =
      after_failure store order_id p.account.broker_code metadata e (route_failure e)
  after_reply store order_id p metadata (some (ok ext)) =
      after_route store ext p.mapping.broker_symbol (
        persist_routed (λ _. (store, store)) (uuid.to_text order_id) p.account.broker_code ext
          (metadata 0))

  -- `submit_order` is the adapter's call, if there is an adapter. `state` is the order as it was
  -- stored, and `store` what is there when the broker answers.
  unfoldable pub place_order :
      Option (BrokerOrderRequest F → Result String BrokerError)
      → OrderAggregateState F
      → Store F T
      → Key
      → Preflight F
      → (ℕ → ℕ → EventMetadata T)
      → Placed F T
  unfolding request_of after_reply
  place_order submit_order state store order_id p metadata =
      after_reply store order_id p metadata
        (map_option (λ call. call (request_of (uuid.to_text order_id) p state)) submit_order)
