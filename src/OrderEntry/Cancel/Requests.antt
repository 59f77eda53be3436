-- ===== src/OrderEntry/Cancel/Requests.antt =====
-- A cancel that is asked for at the broker.
use openoms.Base.{
  ◌≡◌, refl, ◌⊎◌, inl, inr, String, ◌<>◌, Option, none, some, Result, ok, err, ◌>>=◌, map_err,
  unwrap_or, Option-cases,
}
use openoms.Orders.State.{OrderAggregateState}
use openoms.Gateway.{BrokerError, error_text}
use openoms.Handlers.{StatusCode, ApiError, answer, internal}
use openoms.Execution.{Store}
use openoms.OrderEntry.Cancel.{CancelOutcome, requested, Brokers, request_cancel}

-- The symbol under which the venue knows an instrument, or none.
abbrev pub symbol_at : Option String → String
symbol_at none = ""
symbol_at (some symbol) = symbol

symbol-at : (found : Option String) → unwrap_or found "" ≡ symbol_at found
symbol-at none = refl
symbol-at (some s) = refl

module _ {F T : Type 0} where
  -- The answer of an adapter that was asked to cancel.
  abbrev pub Replied :
      Result (Unit {0}) BrokerError
      → Store F T
      → Result (Store F T × CancelOutcome) ApiError
      → Type 0
  Replied (ok _) now result = result ≡ ok (now, requested)
  Replied (err e) now result =
      result ≡ err (answer StatusCode.bad_gateway ("broker rejected cancel: " <> error_text e))

  -- An order that a broker has, under `ext`: its connection is not found, or has no adapter, or the
  -- adapter is asked, and its answer is the outcome.
  abbrev pub BrokerOutcome :
      Brokers
      → String
      → String
      → OrderAggregateState F
      → Store F T
      → Result (Store F T × CancelOutcome) ApiError
      → Type 0
  BrokerOutcome brokers id ext state now result =
      ((brokers.connection (brokers.connection_code id) ≡ none)
        × (result ≡ err (internal "failed to load broker connection")))
      ⊎ ((broker : String) × (environment : String) × (brokers.connection
              (brokers.connection_code id)
            ≡ some (broker, environment))
          × (((brokers.adapter broker environment ≡ none)
                × (result
                    ≡ err (
                        answer StatusCode.service_unavailable
                          ("no adapter configured for " <> (broker <> ("/" <> environment))))))
              ⊎ ((ask : String → String → Result (Unit {0}) BrokerError) × (brokers.adapter broker
                      environment
                    ≡ some ask)
                  × Replied (ask ext (symbol_at (brokers.broker_symbol state.instrument_id broker)))
                      now result)))

module _ {F T : Type 0} (now : Store F T) (id : String) (state : OrderAggregateState F) where
  replied :
      (reply : Result (Unit {0}) BrokerError)
      → Replied reply now (
          map_err
            (λ e. answer StatusCode.bad_gateway ("broker rejected cancel: " <> error_text e))
            reply
          >>= λ _. ok (now, requested))
  replied (ok _) = refl
  replied (err e) = refl

  pub request-Outcome :
      (brokers : Brokers) (ext : String)
      → BrokerOutcome brokers id ext state now
          (request_cancel brokers id state ext >>= λ _. ok (now, requested))
  unfolding request_cancel
  request-Outcome brokers ext =
      elim (Option-cases (brokers.connection (brokers.connection_code id))) [
        | inl none_there ↦ inl (none_there, rw (none_there, request_cancel) refl)
        | inr ((broker, environment), there) ↦ inr (
          broker,
          environment,
          there,
          elim (Option-cases (brokers.adapter broker environment)) [
            | inl missing ↦
                inl (missing, rw (there, request_cancel) (rw (missing, request_cancel) refl))
            | inr (ask, found) ↦ inr (
              ask,
              found,
              rw (there, request_cancel)
                  (rw (found, request_cancel)
                    (rw (symbol-at (brokers.broker_symbol state.instrument_id broker))
                      (replied _))),
            )
          ],
        )
      ]
