-- ===== src/EventBus.antt =====
-- src/event_bus.rs: what is announced on the order lane. A sender without subscribers loses its
-- messages, which is no error; the models give the messages sent.
pub mod Transfers
use openoms.Base.{ℕ, Bool, true, false, ◌||◌, String, List, [], ◌∷◌, ◌++◌, map, if◌then◌else◌}
use openoms.Positions.{KeyEq}

pub data OrderLaneEvent (K : Type 0) : Type 0 where
  appended : (order_id : K) (global_position : ℕ) (event_type : String) → OrderLaneEvent K
  position_changed : (portfolio_id : K) (instrument_id : String) → OrderLaneEvent K

-- `events.iter().zip(&result.global_positions)`, of the events' types.
abbrev pub publish_appended : {K : Type 0} → K → List String → List ℕ → List (OrderLaneEvent K)
publish_appended order_id (e ∷ es) (p ∷ ps) =
    OrderLaneEvent.appended order_id p e ∷ publish_appended order_id es ps
publish_appended order_id _ _ = []

module _ {K : Type 0} ⦃key : KeyEq K⦄ where
  -- `seen.contains`
  unfoldable pub has_seen : List K → K → Bool
  has_seen [] k = false
  has_seen (x ∷ xs) k = key.same x k || has_seen xs k

  -- The loop over the portfolios.
  unfoldable pub seen_after : List K → List K → List K
  unfolding has_seen
  seen_after seen [] = seen
  seen_after seen (p ∷ ps) = seen_after (if has_seen seen p then seen else seen ++ (p ∷ [])) ps

  unfoldable pub publish_transfer : K → List K → String → List (OrderLaneEvent K)
  unfolding seen_after
  publish_transfer from_portfolio to_portfolios instrument_id =
      map (λ k. OrderLaneEvent.position_changed k instrument_id)
        (seen_after (from_portfolio ∷ []) to_portfolios)
