-- ===== src/Orders/Aggregate/Terminal.antt =====
-- Orders in a terminal status.
use openoms.Base.{◌≡◌, refl, true, List, [], ◌∷◌}
use openoms.Float.{Float64}
use openoms.Orders.State.{OrderAggregateState, is_terminal}
use openoms.Orders.Commands.{OrderCommand}
use openoms.Orders.Lifecycle.{kind}
use openoms.Orders.Lifecycle.Table.{terminal_refused}
use openoms.Orders.Aggregate.{EventMetadata, from_state}
use openoms.Orders.Aggregate.Decide.{decide}
use openoms.Orders.Aggregate.Run.{handle, step, run}

module _ {F T : Type 0} ⦃fl : Float64 F⦄ where
  pub step_terminal :
      (s : OrderAggregateState F) (c : OrderCommand F) (m : EventMetadata T)
      → is_terminal s.status ≡ true
      → step (from_state s) (c, m) ≡ (from_state s, [])
  unfolding step handle decide from_state
  step_terminal s c m t =
      let (r, e) = terminal_refused s.status (kind c) t in rw (e, decide, handle, step)

  -- A filled, rejected, canceled or expired order is final: whatever commands follow, it stays as it
  -- is and no event is added.
  pub run_terminal :
      (s : OrderAggregateState F) (cs : List (OrderCommand F × EventMetadata T))
      → is_terminal s.status ≡ true
      → run (from_state s) cs ≡ (from_state s, [])
  unfolding run
  run_terminal s [] t = refl
  run_terminal s ((c, m) ∷ cs) t = rw (step_terminal s c m t) (rw (run_terminal s cs t))
