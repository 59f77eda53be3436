-- ===== src/Orders/Aggregate/Suspension.antt =====
-- Suspending and releasing an order.
use openoms.Base.{
  ◌≡◌, refl, Bool, true, false, not, Option, some, none, List, [], ◌∷◌, ok, if◌then◌else◌,
  map_option, ap, subst, String, All-Unit,
}
use openoms.Float.{Float64}
use openoms.Orders.State.{
  OrderStatus, OrderAggregateState, suspended, partially_filled, filled, is_terminal,
}
use openoms.Orders.Commands.{OrderCommand, SuspendOrder, ReleaseOrder, ExecutionReport}
use openoms.Orders.Lifecycle.{kind, ensure_command_allowed}
use openoms.Orders.Lifecycle.Table.{
  is_working, is_held, suspend-is_working, is_working-is_held, is_working-suspend,
  suspended-release,
}
use openoms.Orders.Aggregate.{EventMetadata, empty, from_state}
use openoms.Orders.Aggregate.Decide.{next_version, decide}
use openoms.Orders.Aggregate.Apply.{apply_all}
use openoms.Orders.Aggregate.Effect.{Effect, ReportEffect, moved, leaves_some, after_fill}
use openoms.Orders.Aggregate.Fill.{fill_command, step_fill}
use openoms.Orders.Aggregate.Run.{handle, step, run, run-keeps}

-- A suspended order knows where to resume, and where to resume is always a working status.
abbrev pub can_resume : Option OrderStatus → OrderStatus → Bool
can_resume none status = not (is_held status)
can_resume (some r) status = is_working r

can_resume-fill :
    (o : Option OrderStatus) (status : OrderStatus) (part : Bool)
    → can_resume o status ≡ true
    → can_resume o (if part then partially_filled else filled) ≡ true
can_resume-fill none status true h = refl
can_resume-fill none status false h = refl
can_resume-fill (some r) status part h = h

module _ {F : Type 0} ⦃fl : Float64 F⦄ where
  abbrev pub IsResumable : Option (OrderAggregateState F) → Type 0
  IsResumable none = Unit
  IsResumable (some s) = can_resume s.resume_to_status s.status ≡ true

  ReportEffect-can_resume :
      (s : OrderAggregateState F) (r : ExecutionReport F) (t : OrderAggregateState F)
      → ReportEffect s r t
      → can_resume s.resume_to_status s.status ≡ true
      → can_resume t.resume_to_status t.status ≡ true
  ReportEffect-can_resume s (ExecutionReport.reject _ _) t e p = rw e
  ReportEffect-can_resume s (ExecutionReport.canceled _ _) t e p = rw e
  ReportEffect-can_resume s (ExecutionReport.fill _ qty _ _) t (_, _, _, e) p =
      rw e (can_resume-fill s.resume_to_status s.status (leaves_some s qty) p)

  pub Effect-IsResumable :
      (state : Option (OrderAggregateState F)) (c : OrderCommand F) (t : OrderAggregateState F)
      → ensure_command_allowed (map_option (λ s. s.status) state) (kind c) ≡ ok tt
      → Effect state c t
      → Unit {0}
      → IsResumable state
      → can_resume t.resume_to_status t.status ≡ true
  unfolding ensure_command_allowed kind is_terminal
  Effect-IsResumable none (OrderCommand.submit_order c) t h (_, e) g p = rw e
  Effect-IsResumable none _ t h e g p = absurd e
  Effect-IsResumable (some s) (OrderCommand.submit_order c) t h e g p = absurd e
  Effect-IsResumable (some s) (OrderCommand.route_order c) t h e g p = rw e
  Effect-IsResumable (some s) (OrderCommand.replace_order c) t h (_, _, e) g p = rw e p
  Effect-IsResumable (some s) (OrderCommand.cancel_order c) t h e g p = rw e
  Effect-IsResumable (some s) (OrderCommand.suspend_order c) t h e g p =
      rw e (suspend-is_working s.status h)
  Effect-IsResumable (some s) (OrderCommand.release_order c) t h (r, q, e) g p =
      rw e (is_working-is_held r (rw q at p))
  Effect-IsResumable (some s) (OrderCommand.receive_execution_report c) t h e g p =
      ReportEffect-can_resume s c.report t e p
  Effect-IsResumable (some s) (OrderCommand.expire_order c) t h e g p = rw e

  -- After any commands on a new order, a suspended order has a working status to resume to.
  run-IsResumable :
      {T : Type 0} (cs : List (OrderCommand F × EventMetadata T))
      → IsResumable (run empty cs).0.state
  unfolding empty
  run-IsResumable cs =
      run-keeps IsResumable (λ _. Unit) Effect-IsResumable empty cs (All-Unit cs) tt

module _ {F T : Type 0} ⦃fl : Float64 F⦄ where
  step_suspend :
      (s : OrderAggregateState F) (c : SuspendOrder) (m : EventMetadata T)
      → is_working s.status ≡ true
      → (step (from_state s) (OrderCommand.suspend_order c, m)).0
        ≡ from_state (record s {
          status = suspended;
          resume_to_status = some s.status;
          version = next_version s.version;
        })
  unfolding step handle decide apply_all from_state
  step_suspend s c m w = rw (is_working-suspend s.status w, decide, handle, step)

  step_release :
      (s : OrderAggregateState F) (r : OrderStatus) (c : ReleaseOrder) (m : EventMetadata T)
      → s.status ≡ suspended
      → s.resume_to_status ≡ some r
      → (step (from_state s) (OrderCommand.release_order c, m)).0 ≡ from_state (moved s r)
  unfolding step handle decide apply_all from_state
  step_release s r c m h q =
      rw (suspended-release s.status h, decide, handle, step) (rw (q, handle, step))

  -- Suspending a working order and then releasing it gives the order back as it was, but for two
  -- more versions and no status to resume to.
  pub release-suspend :
      (s : OrderAggregateState F) (c : SuspendOrder) (d : ReleaseOrder) (m n : EventMetadata T)
      → is_working s.status ≡ true
      → (run
          (from_state s)
          ((OrderCommand.suspend_order c, m) ∷ (OrderCommand.release_order d, n) ∷ [])).0
        ≡ from_state
            (record s { resume_to_status = none; version = next_version (next_version s.version) })
  unfolding run
  release-suspend s c d m n w = rw (step_suspend s c m w) (
      step_release
        (record s {
          status = suspended;
          resume_to_status = some s.status;
          version = next_version s.version;
        })
        s.status d n refl refl)

  release_from :
      (s : OrderAggregateState F) (o : Option OrderStatus) (d : ReleaseOrder) (m : EventMetadata T)
      → s.resume_to_status ≡ o
      → can_resume o s.status ≡ true
      → s.status ≡ suspended
      → (r : OrderStatus) × (is_working r ≡ true)
        × ((step (from_state s) (OrderCommand.release_order d, m)).0 ≡ from_state (moved s r))
  release_from s none d m q p h = absurd (cc)
  release_from s (some r) d m q p h = (r, p, step_release s r d m h q)

  -- A suspended order that any commands on a new order led to can always be released, and then has
  -- a working status again.
  pub release_reachable :
      (cs : List (OrderCommand F × EventMetadata T)) (s : OrderAggregateState F) (d : ReleaseOrder)
      (m : EventMetadata T)
      → (run empty cs).0.state ≡ some s
      → s.status ≡ suspended
      → (r : OrderStatus) × (is_working r ≡ true)
        × ((step (from_state s) (OrderCommand.release_order d, m)).0 ≡ from_state (moved s r))
  release_reachable cs s d m e h =
      release_from s s.resume_to_status d m refl (subst IsResumable e (run-IsResumable cs)) h

  -- A fill of a suspended order that passes the guards and leaves something open takes the order to
  -- `partially_filled`, without a release, and keeps the status to resume to.
  pub fill_suspended :
      (s : OrderAggregateState F) (id x venue : String) (qty price : F) (m : EventMetadata T)
      → s.status ≡ suspended
      → fl.le qty fl.zero_f64 ≡ false
      → fl.le price fl.zero_f64 ≡ false
      → fl.lt s.original_qty (fl.add s.cum_qty qty) ≡ false
      → leaves_some s qty ≡ true
      → (t : OrderAggregateState F) × ((step
            (from_state s)
            (fill_command id x qty price venue, m)).0
          ≡ from_state t)
        × (t.status ≡ partially_filled)
        × (t.resume_to_status ≡ s.resume_to_status)
  unfolding is_terminal
  fill_suspended s id x venue qty price m h q p room part = (
    after_fill s qty price,
    ap (λ r. r.0) (step_fill s id x venue qty price m (rw h) q p room),
    rw part,
    refl,
  )
