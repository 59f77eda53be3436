-- ===== src/OrderEngine/Slots.antt =====
-- src/order_engine.rs: the reconcile slot of one connection, which `run` takes and its tasks free.
pub mod Phases
use openoms.Base.{ℕ, zero, suc, Bool, true, false, Option, none, some, List, [], ◌∷◌, ◌++◌}

-- A spawned task reconciles, or has left its loop with `Reconciling` not yet dropped.
pub data Task : Type 0 where
  reconciling leaving : Task

-- The entry of `reconciling` at the connection's key, and the tasks spawned for it. The entry's
-- value is whether to run again.
pub record Slots : Type 0 where
  pub running : Option Bool
  pub tasks : List Task

-- What happens, each under the lock: a message `Reconcile`, and of a task, by its place, the end of
-- a pass, a panic in a pass, and the drop of `Reconciling`.
pub data SlotEvent : Type 0 where
  reconcile : SlotEvent
  pass_ended panicked dropped : (task : ℕ) → SlotEvent

abbrev pub task_at : List Task → ℕ → Option Task
task_at [] n = none
task_at (t ∷ ts) zero = some t
task_at (t ∷ ts) (suc n) = task_at ts n

abbrev pub set_task : List Task → ℕ → List Task → List Task
set_task [] n new = []
set_task (t ∷ ts) zero new = new ++ ts
set_task (t ∷ ts) (suc n) new = t ∷ set_task ts n new

-- A message `Reconcile`.
abbrev pub requested : Slots → Option Bool → Slots
requested s (some _) = record s { running = some true }
requested s none = record { running = some false; tasks = s.tasks ++ (reconciling ∷ []) }

-- The end of a pass. A task of another kind, or none, does not do this; so for the other two.
abbrev pub ended : Slots → ℕ → Option Task → Option Bool → Slots
ended s n (some reconciling) (some true) = record s { running = some false }
ended s n (some reconciling) _ = record {
  running = none;
  tasks = set_task s.tasks n (leaving ∷ []);
}
ended s n _ _ = s

abbrev pub unwound : Slots → ℕ → Option Task → Slots
unwound s n (some reconciling) = record s { tasks = set_task s.tasks n (leaving ∷ []) }
unwound s n _ = s

abbrev pub freed : Slots → ℕ → Option Task → Slots
freed s n (some leaving) = record { running = none; tasks = set_task s.tasks n [] }
freed s n _ = s

unfoldable pub step : Slots → SlotEvent → Slots
step s reconcile = requested s s.running
step s (pass_ended n) = ended s n (task_at s.tasks n) s.running
step s (panicked n) = unwound s n (task_at s.tasks n)
step s (dropped n) = freed s n (task_at s.tasks n)

unfoldable pub run : Slots → List SlotEvent → Slots
unfolding step
run s [] = s
run s (e ∷ es) = run (step s e) es
