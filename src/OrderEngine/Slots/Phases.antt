-- ===== src/OrderEngine/Slots/Phases.antt =====
-- A connection's slot as a machine with four phases.
use openoms.Base.{zero, suc, ◌≡◌, refl, ◌∙◌, ap, Bool, true, false, none, some, List, [], ◌∷◌}
use openoms.OrderEngine.Slots.{
  reconciling, leaving, Slots, SlotEvent, reconcile, pass_ended, panicked, dropped, step, run,
}

-- No task, one that reconciles and will run again or not, one that gave its slot back, and one
-- that panicked and has it still.
pub data Phase : Type 0 where
  idle : Phase
  busy : (again : Bool) → Phase
  done : Phase
  unwinding : (again : Bool) → Phase

abbrev pub slots_of : Phase → Slots
slots_of idle = record { running = none; tasks = [] }
slots_of (busy again) = record { running = some again; tasks = reconciling ∷ [] }
slots_of done = record { running = none; tasks = leaving ∷ [] }
slots_of (unwinding again) = record { running = some again; tasks = leaving ∷ [] }

abbrev pub next_phase : Phase → SlotEvent → Phase
next_phase idle reconcile = busy false
next_phase (busy _) reconcile = busy true
next_phase (unwinding _) reconcile = unwinding true
next_phase (busy true) (pass_ended zero) = busy false
next_phase (busy false) (pass_ended zero) = done
next_phase (busy again) (panicked zero) = unwinding again
next_phase done (dropped zero) = idle
next_phase (unwinding _) (dropped zero) = idle
next_phase p _ = p

abbrev pub phase_after : Phase → List SlotEvent → Phase
phase_after p [] = p
phase_after p (e ∷ es) = phase_after (next_phase p e) es

-- No request arrives while a task that gave its slot back has not dropped it yet.
abbrev pub is_late : Phase → SlotEvent → Bool
is_late done reconcile = true
is_late _ _ = false

abbrev pub IsTimely : Phase → List SlotEvent → Type 0
IsTimely p [] = Unit
IsTimely p (e ∷ es) = (is_late p e ≡ false) × IsTimely (next_phase p e) es

step-phase :
    (p : Phase) (e : SlotEvent)
    → is_late p e ≡ false
    → step (slots_of p) e ≡ slots_of (next_phase p e)
unfolding step
step-phase idle reconcile h = refl
step-phase (busy again) reconcile h = refl
step-phase done reconcile h = absurd (cc)
step-phase (unwinding again) reconcile h = refl
step-phase idle (pass_ended n) h = refl
step-phase (busy true) (pass_ended zero) h = refl
step-phase (busy false) (pass_ended zero) h = refl
step-phase (busy true) (pass_ended (suc n)) h = refl
step-phase (busy false) (pass_ended (suc n)) h = refl
step-phase done (pass_ended zero) h = refl
step-phase done (pass_ended (suc n)) h = refl
step-phase (unwinding again) (pass_ended zero) h = refl
step-phase (unwinding again) (pass_ended (suc n)) h = refl
step-phase idle (panicked n) h = refl
step-phase (busy again) (panicked zero) h = refl
step-phase (busy again) (panicked (suc n)) h = refl
step-phase done (panicked zero) h = refl
step-phase done (panicked (suc n)) h = refl
step-phase (unwinding again) (panicked zero) h = refl
step-phase (unwinding again) (panicked (suc n)) h = refl
step-phase idle (dropped n) h = refl
step-phase (busy again) (dropped zero) h = refl
step-phase (busy again) (dropped (suc n)) h = refl
step-phase done (dropped zero) h = refl
step-phase done (dropped (suc n)) h = refl
step-phase (unwinding again) (dropped zero) h = refl
step-phase (unwinding again) (dropped (suc n)) h = refl

-- As long as no request arrives between a task's last look at its slot and the drop that frees it,
-- the slot and its tasks are those of a machine with at most one task: a request while there is no
-- task starts one, and a request while it reconciles makes it run once more when its pass ends, but
-- a panic in that pass loses the request, as it does one that comes before the drop.
pub run-phase :
    (p : Phase) (es : List SlotEvent)
    → IsTimely p es
    → run (slots_of p) es ≡ slots_of (phase_after p es)
unfolding run
run-phase p [] timely = refl
run-phase p (e ∷ es) timely =
    ap (λ s. run s es) (step-phase p e timely.0) ∙ run-phase (next_phase p e) es timely.1
