-- ===== src/OrderEntry/Placing/Outcomes.antt =====
-- What becomes of an order that was sent to its broker.
use openoms.Base.{
  ℕ, ◌+◌, ◌^◌, ◌<◌, ◌≡◌, refl, sym, ◌∙◌, ap, ◌⊎◌, inl, inr, Bool, true, false, String, Option, none,
  some, List, [], ◌∷◌, Result, ok, err, Bool-cases, if◌then◌else◌, arith, map_option,
}
use openoms.Float.{Float64}
use openoms.Orders.State.{
  OrderStatus, submitted, routed, partially_filled, filled, canceled, expired, suspended,
  OrderAggregateState, is_terminal,
}
use openoms.Orders.State as State
use openoms.Orders.Commands.{ExecutionReport}
use openoms.Orders.Aggregate.{EventMetadata, from_state}
use openoms.Orders.Aggregate.Effect.{moved}
use openoms.Orders.Aggregate.Terminal.{step_terminal}
use openoms.EventStore.{StoredEvent, current_version}
use openoms.Gateway.{Uuid, BrokerError}
use openoms.Handlers.{ApiError}
use openoms.Execution.{Store, receive}
use openoms.Execution.Conflicts.{IsConsistent, fresh_read}
use openoms.OrderEngine.{reports_for, reports_for_kind}
use openoms.OrderEngine.Closing.{rejected_once}
use openoms.OrderEngine.Represents.{Represents, written_row, kept}
use openoms.OrderEngine.Refinement.{book_kept, apply_exec-book}
use openoms.OrderEntry.Routing.{
  RouteResult, terminal, not_submitted, route_once, route_attempts, persist_routed,
}
use openoms.OrderEntry.Routing as Routing
use openoms.OrderEntry.Routing.Outcomes.{route_once-Outcome}
use openoms.OrderEntry.Preflight.{Preflight}
use openoms.OrderEntry.Placing.{
  BrokerOrderRequest, route_failure, Placed, cancels_of, after_route, request_of, no_adapter,
  reject_event, book_reject, after_failure, after_reply, place_order,
}

abbrev pub is_canceled : OrderStatus → Bool
is_canceled canceled = true
is_canceled _ = false

cancels_of-terminal :
    (ext symbol : String) (s : OrderStatus)
    → cancels_of ext symbol (terminal s) ≡ (if is_canceled s then (ext, symbol) ∷ [] else [])
unfolding cancels_of
cancels_of-terminal ext symbol submitted = refl
cancels_of-terminal ext symbol routed = refl
cancels_of-terminal ext symbol partially_filled = refl
cancels_of-terminal ext symbol filled = refl
cancels_of-terminal ext symbol State.rejected = refl
cancels_of-terminal ext symbol canceled = refl
cancels_of-terminal ext symbol expired = refl
cancels_of-terminal ext symbol suspended = refl

submitted_live : (s : OrderStatus) → Routing.is_submitted s ≡ true → is_terminal s ≡ false
unfolding Routing.is_submitted is_terminal
submitted_live submitted h = refl
submitted_live routed h = absurd (cc)
submitted_live _ h = absurd (cc)

module _ {F T Key : Type 0} ⦃fl : Float64 F⦄ ⦃uuid : Uuid Key⦄ (store : Store F T) (key : Key)
    (s : OrderAggregateState F) (stream : List (StoredEvent F T))
    (there : Represents store (uuid.to_text key) s stream) (small : s.version + 1 < 2 ^ 62)
    (metadata : ℕ → ℕ → EventMetadata T) where
  abbrev id : String
  id = uuid.to_text key

  -- A live order becomes rejected, with its quantities and price as the columns give them back; a
  -- closed one stays as it is.
  abbrev pub rejected_row : OrderAggregateState F
  rejected_row = if is_terminal s.status then s else written_row (moved s State.rejected)

  book_rejected :
      (venue reason : String)
      → (book_kept s (reject_event key venue reason) metadata).0 ≡ from_state rejected_row
  unfolding reports_for reports_for_kind from_state
  book_rejected venue reason = elim (Bool-cases (is_terminal s.status)) [
    | inl done ↦ rw done (
        ap (λ r. kept (from_state s) r)
          (step_terminal s (receive id (ExecutionReport.reject reason (some venue))) (metadata 0 1)
            done))
    | inr live ↦
        let (e, h) = rejected_once s id (metadata 0 1) reason (some venue) live in
        rw live (ap (λ r. kept (from_state s) r) h)
  ]

  book_reject-row :
      (venue reason : String)
      → (book_reject store key venue reason metadata).rows id ≡ some rejected_row
  unfolding book_reject from_state reports_for reports_for_kind
  book_reject-row venue reason =
      let (t, reached, after) =
        apply_exec-book store (reject_event key venue reason) metadata s stream there refl small in
      after.0 ∙ ap (λ a. a.state) (sym reached ∙ book_rejected venue reason)

  -- The row follows the reject, and nothing is canceled at the broker.
  abbrev pub IsRejected : Placed F T → Type 0
  IsRejected placed =
      (placed.store.rows id ≡ some rejected_row)
      × (placed.cancels ≡ [])
      × ((e : ApiError) × (placed.answered ≡ err e))

  abbrev pub IsLeft : Placed F T → Type 0
  IsLeft placed =
      (placed.store ≡ store) × (placed.cancels ≡ []) × ((e : ApiError) × (placed.answered ≡ err e))

  -- The venue has the order as `ext`.
  abbrev pub IsTaken : String → String → Placed F T → Type 0
  IsTaken ext symbol placed =
      (placed.answered ≡ ok tt)
      × (((is_terminal s.status ≡ true)
            × (placed.store ≡ store)
            × (placed.cancels ≡ (if is_canceled s.status then (ext, symbol) ∷ [] else [])))
          ⊎ ((is_terminal s.status ≡ false)
              × ((known : String) × (placed.store.external_order_ids id ≡ some known))
              × (placed.cancels ≡ [])))

  abbrev pub Outcome : Preflight F → Option (Result String BrokerError) → Placed F T → Type 0
  Outcome p none placed = IsRejected placed
  Outcome p (some (err (BrokerError.broker_rejected _))) placed = IsRejected placed
  Outcome p (some (err _)) placed = IsLeft placed
  Outcome p (some (ok ext)) placed = IsTaken ext p.mapping.broker_symbol placed

  consistent : IsConsistent store id
  consistent = record {
    row = s;
    row_at = there.0;
    version_at = ap current_version there.1 ∙ there.2;
  }

  after_route-IsTaken :
      (venue ext symbol : String)
      → IsTaken ext symbol (
          after_route store ext symbol
            (persist_routed (λ _. (store, store)) id venue ext (metadata 0)))
  unfolding after_route persist_routed route_attempts cancels_of
  after_route-IsTaken venue ext symbol =
      elim (route_once-Outcome store store id venue ext (metadata 0 1) s consistent there.0
        (omega (arith, small))) [
          | inl (closed, h) ↦
              rw (h, route_attempts)
                (refl, inl (closed, refl, cancels_of-terminal ext symbol s.status))
          | inr (inl (live, moved_on, (next, h, (rows, streams, kept)))) ↦
              rw (h, route_attempts) (refl, inr (live, (_, kept), refl))
          | inr (inr (new, inl (stale, _))) ↦
              absurd (fresh_read store id consistent s there.0 stale)
          | inr (inr (new, inr (next, h, (current, c, status, kept, _)))) ↦
              rw (h, route_attempts) (refl, inr (submitted_live s.status new, (_, kept), refl))
        ]

  after_reply-Outcome :
      (p : Preflight F) (reply : Option (Result String BrokerError))
      → Outcome p reply (after_reply store key p metadata reply)
  unfolding after_reply after_failure route_failure
  after_reply-Outcome p none =
      (book_reject-row p.account.broker_code (no_adapter p), refl, (_, refl))
  after_reply-Outcome p (some (err (BrokerError.broker_rejected reason))) =
      (book_reject-row p.account.broker_code reason, refl, (_, refl))
  after_reply-Outcome p (some (err (BrokerError.network _))) = (refl, refl, (_, refl))
  after_reply-Outcome p (some (err (BrokerError.not_configured _))) = (refl, refl, (_, refl))
  after_reply-Outcome p (some (err (BrokerError.no_such_order _))) = (refl, refl, (_, refl))
  after_reply-Outcome p (some (ok ext)) =
      after_route-IsTaken p.account.broker_code ext p.mapping.broker_symbol

  -- A stored order that is sent to its broker, by what the adapter answers, with the order as it is
  -- then. Without an adapter, or if the broker rejects it, a live order becomes rejected, with its
  -- quantities and its price as the columns give them back, and a closed one stays as it is; after any other failure the store does not change; in these cases the answer
  -- is an error and nothing is canceled. If the venue takes it, the answer is a success, and a live
  -- order has a venue's id on record, while a closed one does not change and is canceled at the venue
  -- if it was canceled here, and only then. Row and stream are those of an aggregate without a status
  -- to resume, the version is below 2^62 - 1, and nothing else commits after the answer.
  pub place_order-Outcome :
      (submit_order : Option (BrokerOrderRequest F → Result String BrokerError))
      (state : OrderAggregateState F) (p : Preflight F)
      → Outcome p
          (map_option (λ call. call (request_of id p state)) submit_order)
          (place_order submit_order state store key p metadata)
  unfolding place_order
  place_order-Outcome submit_order state p =
      after_reply-Outcome p (map_option (λ call. call (request_of id p state)) submit_order)
