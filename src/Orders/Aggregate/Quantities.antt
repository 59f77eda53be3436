-- ===== src/Orders/Aggregate/Quantities.antt =====
-- The quantities of an order, over floats with rounding.
use openoms.Base.{
  ap, ◌∙◌, subst, unwrap_or, or-false, ◌≡◌, refl, sym, Bool, true, false, Option, some, none, List,
  ok, if◌then◌else◌, map_option, arith, All,
}
use openoms.Float.{Float64, IsIeee}
use openoms.Orders.State.{
  OrderStatus, OrderAggregateState, submitted, routed, partially_filled, filled, rejected, canceled,
  expired, suspended, is_terminal,
}
use openoms.Orders.Commands.{OrderCommand, ReplaceOrder, SubmitOrder, ExecutionReport}
use openoms.Orders.Invariants.{validate_submit}
use openoms.Orders.Lifecycle.{kind, ensure_command_allowed}
use openoms.Orders.Lifecycle.Table.{allowed-live, is_working}
use openoms.Orders.Aggregate.{EventMetadata, empty}
use openoms.Orders.Aggregate.Effect.{
  Effect, ReportEffect, opened, moved, closed, amended, new_quantity, leaves_some, after_fill,
}
use openoms.Orders.Aggregate.Suspension.{can_resume, IsResumable, Effect-IsResumable}
use openoms.Orders.Aggregate.Run.{run, run-keeps}

-- Statuses whose leaves are what the order still has open, or had when it ended.
abbrev pub keeps_leaves : OrderStatus → Bool
keeps_leaves filled = false
keeps_leaves canceled = false
keeps_leaves _ = true

live-keeps_leaves : (s : OrderStatus) → is_terminal s ≡ false → keeps_leaves s ≡ true
unfolding is_terminal
live-keeps_leaves submitted h = refl
live-keeps_leaves routed h = refl
live-keeps_leaves partially_filled h = refl
live-keeps_leaves suspended h = refl
live-keeps_leaves _ h = cc

working-keeps_leaves : (s : OrderStatus) → is_working s ≡ true → keeps_leaves s ≡ true
working-keeps_leaves submitted h = refl
working-keeps_leaves routed h = refl
working-keeps_leaves partially_filled h = refl
working-keeps_leaves _ h = cc

module _ {F : Type 0} ⦃fl : Float64 F⦄ where
  -- What has been filled lies between zero and the order's quantity; what is left is the difference
  -- or, once the order is filled or canceled, zero; a filled order is filled in full.
  pub record IsBalanced (s : OrderAggregateState F) : Type 0 where
    pub original_finite : fl.is_finite s.original_qty ≡ true
    pub cum_finite : fl.is_finite s.cum_qty ≡ true
    pub zero-le-cum : fl.le fl.zero_f64 s.cum_qty ≡ true
    pub cum-le-original : fl.le s.cum_qty s.original_qty ≡ true
    pub open_leaves : keeps_leaves s.status ≡ true → s.leaves_qty ≡ fl.sub s.original_qty s.cum_qty
    pub closed_leaves : keeps_leaves s.status ≡ false → s.leaves_qty ≡ fl.zero_f64
    pub filled_full : s.status ≡ filled → fl.le s.original_qty s.cum_qty ≡ true

  -- The numbers that a command brings are finite where the code does not check that they are.
  abbrev pub finite_option : Option F → Bool
  finite_option none = true
  finite_option (some x) = fl.is_finite x

  abbrev pub finite_report : ExecutionReport F → Bool
  finite_report (ExecutionReport.fill _ qty _ _) = fl.is_finite qty
  finite_report _ = true

  abbrev pub finite_command : OrderCommand F → Bool
  finite_command (OrderCommand.replace_order c) = finite_option c.new_quantity
  finite_command (OrderCommand.receive_execution_report c) = finite_report c.report
  finite_command _ = true

  validate_submit-positive :
      (c : SubmitOrder F)
      → validate_submit c.quantity c.order_type c.limit_price ≡ ok tt
      → (fl.lt fl.zero_f64 c.quantity ≡ true) × (fl.is_finite c.quantity ≡ true)
  unfolding validate_submit
  validate_submit-positive c h = ground arith

  -- A status change between statuses that keep their leaves.
  same-IsBalanced :
      (s t : OrderAggregateState F)
      → t.original_qty ≡ s.original_qty
      → t.cum_qty ≡ s.cum_qty
      → t.leaves_qty ≡ s.leaves_qty
      → keeps_leaves s.status ≡ true
      → keeps_leaves t.status ≡ true
      → IsBalanced s
      → IsBalanced t
  same-IsBalanced s t o c l k j b = record {
    original_finite = rw o b.original_finite;
    cum_finite = rw c b.cum_finite;
    zero-le-cum = rw c b.zero-le-cum;
    cum-le-original = rw (o, c) b.cum-le-original;
    open_leaves = λ _. rw (l, o, c) (b.open_leaves k);
    closed_leaves = λ z. absurd (cc);
    filled_full = λ z. absurd (cc (ap keeps_leaves z));
  }

  closed-IsBalanced : (s : OrderAggregateState F) → IsBalanced s → IsBalanced (closed s)
  closed-IsBalanced s b = record {
    original_finite = b.original_finite;
    cum_finite = b.cum_finite;
    zero-le-cum = b.zero-le-cum;
    cum-le-original = b.cum-le-original;
    open_leaves = λ z. absurd (cc);
    closed_leaves = λ _. refl;
    filled_full = λ z. absurd (cc);
  }

  module _ (ieee : IsIeee F) where
    opened-IsBalanced :
        (c : SubmitOrder F)
        → validate_submit c.quantity c.order_type c.limit_price ≡ ok tt
        → IsBalanced (opened c)
    opened-IsBalanced c h =
        let (pos, fin) = validate_submit-positive c h in
        record {
          original_finite = fin;
          cum_finite = ieee.zero_finite;
          zero-le-cum = ieee.finite_refl _ ieee.zero_finite;
          cum-le-original = ieee.lt-le _ _ pos;
          open_leaves = λ _. sym (ieee.sub_zero c.quantity fin);
          closed_leaves = λ z. absurd (cc);
          filled_full = λ z. absurd (cc);
        }

    amended-IsBalanced :
        (s : OrderAggregateState F) (c : ReplaceOrder F)
        → fl.is_finite (new_quantity s c) ≡ true
        → fl.lt (new_quantity s c) s.cum_qty ≡ false
        → keeps_leaves s.status ≡ true
        → IsBalanced s
        → IsBalanced (amended s c)
    amended-IsBalanced s c fin room k b = record {
      original_finite = fin;
      cum_finite = b.cum_finite;
      zero-le-cum = b.zero-le-cum;
      cum-le-original =
          ieee.le_of_not_lt _ _ (ieee.finite_refl _ fin) (ieee.finite_refl _ b.cum_finite) room;
      open_leaves = λ _. refl;
      closed_leaves = λ z. absurd (cc);
      filled_full = λ z. absurd (cc);
    }

    after_fill-IsBalanced :
        (s : OrderAggregateState F) (qty price : F)
        → fl.is_finite qty ≡ true
        → fl.le qty fl.zero_f64 ≡ false
        → fl.lt s.original_qty (fl.add s.cum_qty qty) ≡ false
        → IsBalanced s
        → IsBalanced (after_fill s qty price)
    after_fill-IsBalanced s qty price fin pos room b =
        let zero_ok = ieee.finite_refl _ ieee.zero_finite in
        let more =
          ieee.le-add_pos s.cum_qty qty b.cum_finite
            (ieee.lt_of_not_le _ _ (ieee.finite_refl _ fin) zero_ok pos) in
        let fits =
          ieee.le_of_not_lt _ _ (ieee.finite_refl _ b.original_finite) (ieee.refl_of_le _ _ more).1
            room in
        let cum_fin = ieee.finite_between _ _ _ b.cum_finite b.original_finite more fits in
        let upper : fl.lt (fl.add s.cum_qty qty) s.original_qty ≡ false
            → fl.le s.original_qty (fl.add s.cum_qty qty) ≡ true =
          ieee.le_of_not_lt _ _ (ieee.refl_of_le _ _ more).1
            (ieee.finite_refl _ b.original_finite) in
        record {
          original_finite = b.original_finite;
          cum_finite = cum_fin;
          zero-le-cum = ieee.le_trans _ _ _ b.zero-le-cum more;
          cum-le-original = fits;
          open_leaves = fill_open (leaves_some s qty);
          closed_leaves = fill_closed (leaves_some s qty);
          filled_full = λ z. upper (
              sym (ieee.sub_pos _ _ b.original_finite cum_fin) ∙ fill_filled (leaves_some s qty) z);
        }
      where
        fill_open :
            (part : Bool)
            → keeps_leaves (if part then partially_filled else filled) ≡ true
            → (if part then fl.sub s.original_qty (fl.add s.cum_qty qty) else fl.zero_f64)
              ≡ fl.sub s.original_qty (fl.add s.cum_qty qty)
        fill_open true k = refl
        fill_open false k = absurd (cc)

        fill_closed :
            (part : Bool)
            → keeps_leaves (if part then partially_filled else filled) ≡ false
            → (if part then fl.sub s.original_qty (fl.add s.cum_qty qty) else fl.zero_f64)
              ≡ fl.zero_f64
        fill_closed true k = absurd (cc)
        fill_closed false k = refl

        fill_filled :
            (part : Bool) → (if part then partially_filled else filled) ≡ filled → part ≡ false
        fill_filled true z = absurd (cc)
        fill_filled false z = refl

  abbrev pub IsSound : Option (OrderAggregateState F) → Type 0
  IsSound none = Unit
  IsSound (some s) = IsResumable (some s) × IsBalanced s

  resumable : (state : Option (OrderAggregateState F)) → IsSound state → IsResumable state
  resumable none p = tt
  resumable (some s) p = p.0

  new_quantity_finite :
      (o : Option F) (d : F)
      → finite_option o ≡ true
      → fl.is_finite d ≡ true
      → fl.is_finite (unwrap_or o d) ≡ true
  new_quantity_finite none d h k = k
  new_quantity_finite (some x) d h k = h

  module _ (ieee : IsIeee F) where
    ReportEffect-IsBalanced :
        (s : OrderAggregateState F) (r : ExecutionReport F) (t : OrderAggregateState F)
        → ReportEffect s r t
        → finite_report r ≡ true
        → keeps_leaves s.status ≡ true
        → IsBalanced s
        → IsBalanced t
    ReportEffect-IsBalanced s (ExecutionReport.reject _ _) t e g k b =
        rw e (same-IsBalanced s (moved s rejected) refl refl refl k refl b)
    ReportEffect-IsBalanced s (ExecutionReport.canceled _ _) t e g k b =
        rw e (closed-IsBalanced s b)
    ReportEffect-IsBalanced s (ExecutionReport.fill _ qty price _) t (q, p, room, e) g k b =
        rw e (after_fill-IsBalanced ieee s qty price g q room b)

    Effect-IsBalanced :
        (s : OrderAggregateState F) (c : OrderCommand F) (t : OrderAggregateState F)
        → Effect (some s) c t
        → finite_command c ≡ true
        → keeps_leaves s.status ≡ true
        → IsSound (some s)
        → IsBalanced t
    Effect-IsBalanced s (OrderCommand.submit_order c) t e g k p = absurd e
    Effect-IsBalanced s (OrderCommand.route_order c) t e g k p =
        rw e (same-IsBalanced s (moved s routed) refl refl refl k refl p.1)
    Effect-IsBalanced s (OrderCommand.replace_order c) t (q, _, e) g k p = rw e (
        amended-IsBalanced ieee s c (new_quantity_finite c.new_quantity _ g p.1.original_finite)
          (or-false (fl.le (new_quantity s c) fl.zero_f64) _ q) k p.1)
    Effect-IsBalanced s (OrderCommand.cancel_order c) t e g k p = rw e (closed-IsBalanced s p.1)
    Effect-IsBalanced s (OrderCommand.suspend_order c) t e g k p =
        rw e (same-IsBalanced s _ refl refl refl k refl p.1)
    Effect-IsBalanced s (OrderCommand.release_order c) t (r, q, e) g k p = rw e (
        same-IsBalanced s (moved s r) refl refl refl k
          (working-keeps_leaves r (subst (λ o. can_resume o s.status ≡ true) q p.0)) p.1)
    Effect-IsBalanced s (OrderCommand.receive_execution_report c) t e g k p =
        ReportEffect-IsBalanced s c.report t e g k p.1
    Effect-IsBalanced s (OrderCommand.expire_order c) t e g k p =
        rw e (same-IsBalanced s (moved s expired) refl refl refl k refl p.1)

    Effect-IsSound :
        (state : Option (OrderAggregateState F)) (c : OrderCommand F) (t : OrderAggregateState F)
        → ensure_command_allowed (map_option (λ s. s.status) state) (kind c) ≡ ok tt
        → Effect state c t
        → finite_command c ≡ true
        → IsSound state
        → IsSound (some t)
    Effect-IsSound none (OrderCommand.submit_order c) t h e g p = (
      Effect-IsResumable none (OrderCommand.submit_order c) t h e tt tt,
      rw e.1 (opened-IsBalanced ieee c e.0),
    )
    Effect-IsSound none _ t h e g p = absurd e
    Effect-IsSound (some s) c t h e g p = (
      Effect-IsResumable (some s) c t h e tt p.0,
      Effect-IsBalanced s c t e g (live-keeps_leaves s.status (allowed-live s.status _ h)) p,
    )

    -- After any commands on a new order whose replaced and filled quantities are finite, the
    -- quantities balance: the filled quantity is between zero and the order's, the leaves are the
    -- difference, or zero once the order is filled or canceled, and a filled order is filled in full.
    pub run-IsBalanced :
        {T : Type 0} (cs : List (OrderCommand F × EventMetadata T)) (s : OrderAggregateState F)
        → All (λ c. finite_command c.0 ≡ true) cs
        → (run empty cs).0.state ≡ some s
        → IsBalanced s
    unfolding empty
    run-IsBalanced cs s g e =
        let sound = run-keeps IsSound (λ c. finite_command c ≡ true) Effect-IsSound empty cs g tt in
        (subst IsSound e sound).1
