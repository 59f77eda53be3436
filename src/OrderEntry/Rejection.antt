-- ===== src/OrderEntry/Rejection.antt =====
-- What is stored of an order that the pre-trade checks refused.
use openoms.Base.{◌≡◌, refl, String, none, some, [], ◌∷◌, ok, map, ap, err}
use openoms.Float.{Float64}
use openoms.Orders.State.{OrderAggregateState, rejected}
use openoms.Orders.Commands.{SubmitOrder}
use openoms.Orders.Events.{OrderDomainEvent}
use openoms.Orders.Invariants.{validate_submit}
use openoms.Orders.Errors.{CommandRejection}
use openoms.Handlers.{ApiError, internal, map_rejection_to_api_error}
use openoms.Orders.Risk.{RiskRejection}
use openoms.Orders.Aggregate.{EventMetadata}
use openoms.Orders.Aggregate.Decide.{decide, next_version}
use openoms.Orders.Aggregate.Apply.{apply_all}
use openoms.Orders.Aggregate.Effect.{opened, moved}
use openoms.EventStore.{current_version, append_events, number_events}
use openoms.Execution.{Store, set_at, set_at-same}
use openoms.OrderEntry.{
  record_command, record_commands, new_row, insert_order_state, store_rejection, record_rejection,
}

module _ {F T : Type 0} ⦃fl : Float64 F⦄ (store : Store F T) (id : String)
    (fresh : store.rows id ≡ none) (new : store.streams id ≡ []) where
  pub insert_order_state-ok :
      (s : OrderAggregateState F)
      → insert_order_state store id s
        ≡ ok (record store {
          rows = set_at store.rows id (some (new_row s));
          external_order_ids = set_at store.external_order_ids id none;
        })
  unfolding insert_order_state
  insert_order_state-ok s = rw (fresh, insert_order_state) refl

  -- Two events on a new stream.
  pub append_events-ok :
      (a b : OrderDomainEvent F T)
      → append_events (store.streams id) 0 (a ∷ b ∷ [])
        ≡ ok (record { version = 1; event = a } ∷ record { version = 2; event = b } ∷ [])
  unfolding append_events number_events current_version
  append_events-ok a b = rw (new, append_events) refl

  store_rejection-ok :
      (s : OrderAggregateState F) (a b : OrderDomainEvent F T)
      → (next : Store F T) × (store_rejection store id s (a ∷ b ∷ []) ≡ ok next)
        × (next.rows id ≡ some (new_row s))
        × (map (λ e. e.version) (next.streams id) ≡ 1 ∷ 2 ∷ [])
  unfolding store_rejection
  store_rejection-ok s a b = (
    record store {
      rows = set_at store.rows id (some (new_row s));
      external_order_ids = set_at store.external_order_ids id none;
      streams =
          set_at store.streams id
            (record { version = 1; event = a } ∷ record { version = 2; event = b } ∷ []);
    },
    rw (insert_order_state-ok s, store_rejection) (rw (append_events-ok a b, store_rejection) refl),
    set_at-same store.rows id (some (new_row s)),
    ap (map (λ e. e.version)) (set_at-same store.streams id _),
  )

module _ {F T : Type 0} ⦃fl : Float64 F⦄ (store : Store F T) (id : String)
    (s : OrderAggregateState F) {there : OrderAggregateState F}
    (taken : store.rows id ≡ some there) where
  pub insert_order_state_taken :
      insert_order_state store id s ≡ err (internal "failed to insert order state")
  unfolding insert_order_state
  insert_order_state_taken = rw (taken, insert_order_state) refl

  store_rejection_taken :
      (a b : OrderDomainEvent F T)
      → store_rejection store id s (a ∷ b ∷ []) ≡ err (internal "failed to insert order state")
  unfolding store_rejection
  store_rejection_taken a b = rw (insert_order_state_taken, store_rejection) refl

module _ {F T : Type 0} ⦃fl : Float64 F⦄ (store : Store F T) (id : String) (cmd : SubmitOrder F)
    (rejection : RiskRejection) (first second : EventMetadata T) where
  -- A refused order that is valid and whose id is new is stored: its row is the submitted order moved
  -- to rejected, with its numbers as the columns give them back, and its stream has two events, of the versions 1 and 2, where 2 is the row's version.
  pub record_rejection-ok :
      validate_submit cmd.quantity cmd.order_type cmd.limit_price ≡ ok tt
      → store.rows id ≡ none
      → store.streams id ≡ []
      → (next : Store F T) × (record_rejection store id cmd rejection first second ≡ ok next)
        × (next.rows id ≡ some (new_row (moved (opened cmd) rejected)))
        × (map (λ e. e.version) (next.streams id) ≡ 1 ∷ (moved (opened cmd) rejected).version ∷ [])
  unfolding record_rejection record_commands record_command decide apply_all next_version
  record_rejection-ok valid fresh new =
      rw (valid, record_rejection)
        (store_rejection-ok store id fresh new (moved (opened cmd) rejected) _ _)

  -- An order that is not valid, or whose id is taken, is not stored.
  pub record_rejection_invalid :
      {r : CommandRejection}
      → validate_submit cmd.quantity cmd.order_type cmd.limit_price ≡ err r
      → (e : ApiError) × (record_rejection store id cmd rejection first second ≡ err e)
  unfolding record_rejection record_commands record_command decide
  record_rejection_invalid {r} h = (map_rejection_to_api_error r, rw (h, record_rejection) refl)

  pub record_rejection_taken :
      {s : OrderAggregateState F}
      → validate_submit cmd.quantity cmd.order_type cmd.limit_price ≡ ok tt
      → store.rows id ≡ some s
      → (e : ApiError) × (record_rejection store id cmd rejection first second ≡ err e)
  unfolding record_rejection record_commands record_command decide apply_all
  record_rejection_taken valid taken = (
    internal "failed to insert order state",
    rw (valid, record_rejection)
        (store_rejection_taken store id (moved (opened cmd) rejected) taken _ _),
  )
