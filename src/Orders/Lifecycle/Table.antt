-- ===== src/Orders/Lifecycle/Table.antt =====
-- The code's table against the transition matrix of src/domain/orders/README.md, from which it
-- departs for routing a submitted order and for submitting an order that is closed.
use openoms.Base.{
  ◌≡◌, refl, Bool, true, false, not, ◌||◌, Option, none, some, Result, ok, err, if◌then◌else◌,
}
use openoms.Orders.State.{
  OrderStatus, submitted, routed, partially_filled, filled, rejected, canceled, expired, suspended,
  is_terminal,
}
use openoms.Orders.Errors.{
  RejectionCode, CommandRejection, order_not_found, order_already_exists, invalid_state_transition,
  command_not_allowed,
}
use openoms.Orders.Lifecycle.{
  CommandKind, submit_order, route_order, replace_order, suspend_order, release_order,
  receive_execution_report, cancel_order, expire_order, ensure_command_allowed,
}

-- `none` for an accepted command, and else the code of its refusal.
abbrev pub verdict : Result (Unit {0}) CommandRejection → Option RejectionCode
verdict (ok _) = none
verdict (err r) = some r.code

-- Commands in the statuses where the venue may still fill the order.
abbrev pub is_working : OrderStatus → Bool
is_working submitted = true
is_working routed = true
is_working partially_filled = true
is_working _ = false

abbrev pub is_held : OrderStatus → Bool
is_held suspended = true
is_held _ = false

-- What the README lists for submitted, routed and partially filled orders alike.
abbrev pub is_listed : CommandKind → Bool
is_listed replace_order = true
is_listed cancel_order = true
is_listed suspend_order = true
is_listed receive_execution_report = true
is_listed expire_order = true
is_listed _ = false

-- The matrix of the README, a row for each status: the commands that it lists as allowed.
abbrev pub documented : OrderStatus → CommandKind → Bool
documented submitted k = is_listed k
documented routed k = is_listed k
documented partially_filled k = is_listed k
documented suspended cancel_order = true
documented suspended release_order = true
documented suspended receive_execution_report = true
documented suspended expire_order = true
documented _ _ = false

-- Where the code departs from the matrix: it routes submitted orders too.
abbrev pub is_added : OrderStatus → CommandKind → Bool
is_added submitted route_order = true
is_added _ _ = false

abbrev pub expected : CommandKind → Option OrderStatus → Option RejectionCode
expected submit_order none = none
expected submit_order (some s) = some order_already_exists
expected k none = some order_not_found
expected k (some s) =
    if is_terminal s
    then some invalid_state_transition
    else (if documented s k || is_added s k then none else some command_not_allowed)

-- For every command and every status, a missing order included, the command is accepted or refused
-- with the expected code: a submit needs that there is no order, and is refused for an existing one
-- of any status with its own code, a terminal one included; everything else needs that there is one;
-- a terminal status refuses it, and a live status accepts exactly what the README's matrix lists for
-- it and, what the matrix does not list, the routing of a submitted order.
pub ensure_command_allowed-expected :
    (status : Option OrderStatus) (k : CommandKind)
    → verdict (ensure_command_allowed status k) ≡ expected k status
unfolding ensure_command_allowed is_terminal
ensure_command_allowed-expected none submit_order = refl
ensure_command_allowed-expected none _ = refl
ensure_command_allowed-expected (some submitted) submit_order = refl
ensure_command_allowed-expected (some submitted) _ = refl
ensure_command_allowed-expected (some _) submit_order = refl
ensure_command_allowed-expected (some _) _ = refl

-- What acceptance says, for the commands that need it.
pub suspend-is_working :
    (s : OrderStatus) → ensure_command_allowed (some s) suspend_order ≡ ok tt → is_working s ≡ true
unfolding ensure_command_allowed is_terminal
suspend-is_working submitted h = refl
suspend-is_working routed h = refl
suspend-is_working partially_filled h = refl
suspend-is_working _ h = cc

pub is_working-is_held : (s : OrderStatus) → is_working s ≡ true → not (is_held s) ≡ true
is_working-is_held suspended h = h
is_working-is_held _ h = cc

pub terminal_refused :
    (s : OrderStatus) (k : CommandKind)
    → is_terminal s ≡ true
    → (r : CommandRejection) × (ensure_command_allowed (some s) k ≡ err r)
unfolding ensure_command_allowed is_terminal
terminal_refused filled submit_order t = (_, refl)
terminal_refused filled _ t = (_, refl)
terminal_refused rejected submit_order t = (_, refl)
terminal_refused rejected _ t = (_, refl)
terminal_refused canceled submit_order t = (_, refl)
terminal_refused canceled _ t = (_, refl)
terminal_refused expired submit_order t = (_, refl)
terminal_refused expired _ t = (_, refl)
terminal_refused _ _ t = absurd (cc)

pub is_working-suspend :
    (s : OrderStatus) → is_working s ≡ true → ensure_command_allowed (some s) suspend_order ≡ ok tt
unfolding ensure_command_allowed is_terminal
is_working-suspend submitted h = refl
is_working-suspend routed h = refl
is_working-suspend partially_filled h = refl
is_working-suspend _ h = cc

pub suspended-release :
    (s : OrderStatus) → s ≡ suspended → ensure_command_allowed (some s) release_order ≡ ok tt
unfolding ensure_command_allowed is_terminal
suspended-release s h = rw h

pub live-report :
    (s : OrderStatus)
    → is_terminal s ≡ false
    → ensure_command_allowed (some s) receive_execution_report ≡ ok tt
unfolding ensure_command_allowed is_terminal
live-report submitted h = refl
live-report routed h = refl
live-report partially_filled h = refl
live-report suspended h = refl
live-report _ h = cc

-- An accepted command finds a live order.
pub allowed-live :
    (s : OrderStatus) (k : CommandKind)
    → ensure_command_allowed (some s) k ≡ ok tt
    → is_terminal s ≡ false
unfolding ensure_command_allowed is_terminal
allowed-live filled submit_order h = cc
allowed-live filled _ h = cc
allowed-live rejected submit_order h = cc
allowed-live rejected _ h = cc
allowed-live canceled submit_order h = cc
allowed-live canceled _ h = cc
allowed-live expired submit_order h = cc
allowed-live expired _ h = cc
allowed-live _ _ h = refl
