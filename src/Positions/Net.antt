-- ===== src/Positions/Net.antt =====
-- The net quantity and the realized result of a fill.
use openoms.Base.{
  ◌≡◌, refl, ◌⊎◌, inl, inr, Bool, true, false, not, if◌then◌else◌, arith, Bool-cases,
}
use openoms.Float.{Float64}
use openoms.Orders.State.{OrderSide, buy, sell}
use openoms.Positions.{
  PositionMath, signed_qty, increase, decrease, realized, apply_fill, same_sign,
}

-- Facts of IEEE 754 on signs. NaN payloads and the sign of a zero sum are not told apart.
pub record IsSymmetric (F : Type 0) ⦃fl : Float64 F⦄ : Type 0 where
  pub refl_of_lt : (a b : F) → fl.lt a b ≡ true → (fl.le a a ≡ true) × (fl.le b b ≡ true)
  pub ne_of_lt : (a b : F) → fl.lt a b ≡ true → (fl.eq a b ≡ false) × (fl.eq b a ≡ false)
  pub lt-neg : (a : F) → fl.lt fl.zero_f64 (fl.neg a) ≡ fl.lt a fl.zero_f64
  pub lt_asymm : (a b : F) → fl.lt a b ≡ true → fl.lt b a ≡ false
  pub lt_of_not_le :
      (a b : F) → fl.le a a ≡ true → fl.le b b ≡ true → fl.le a b ≡ false → fl.lt b a ≡ true
  pub abs_pos : (a : F) → fl.lt fl.zero_f64 a ≡ true → fl.abs a ≡ a
  pub abs_neg : (a : F) → fl.lt a fl.zero_f64 ≡ true → fl.abs a ≡ fl.neg a
  pub add-neg : (a b : F) → fl.add a (fl.neg b) ≡ fl.sub a b
  pub sub-neg : (a b : F) → fl.sub a (fl.neg b) ≡ fl.add b a
  pub neg-sub : (a b : F) → fl.lt b a ≡ true → fl.neg (fl.sub a b) ≡ fl.sub b a

module _ {F : Type 0} ⦃fl : Float64 F⦄ where
  -- Whether the fill goes against the open position.
  abbrev pub is_against : F → OrderSide → Bool
  is_against net buy = fl.lt net fl.zero_f64
  is_against net sell = fl.lt fl.zero_f64 net

  decrease_net :
      IsSymmetric F
      → (p : PositionMath F) (side : OrderSide) (qty price : F) → fl.lt fl.zero_f64 qty ≡ true
      → is_against p.net_qty side ≡ true
      → (decrease p (signed_qty side qty) qty price).net_qty
        ≡ fl.add p.net_qty (signed_qty side qty)
  unfolding decrease signed_qty
  decrease_net ieee p buy qty price pos against =
      ground (arith, ieee.abs_neg p.net_qty against, ieee.sub-neg qty p.net_qty)
  decrease_net ieee p sell qty price pos against = ground (
    arith,
    ieee.abs_pos p.net_qty against,
    ieee.refl_of_lt fl.zero_f64 p.net_qty against,
    ieee.refl_of_lt fl.zero_f64 qty pos,
    ieee.add-neg p.net_qty qty,
    ieee.lt-neg qty,
    ieee.lt_asymm fl.zero_f64 qty pos,
    ieee.lt_of_not_le qty p.net_qty,
    ieee.neg-sub qty p.net_qty,
  )

  decrease-realized :
      (p : PositionMath F) (signed qty price : F)
      → (decrease p signed qty price).realized_pnl ≡ realized p qty price
  unfolding decrease
  decrease-realized p signed qty price = ground arith

  not_flat :
      IsSymmetric F
      → (net : F) → (fl.lt fl.zero_f64 net ≡ true) ⊎ (fl.lt net fl.zero_f64 ≡ true)
      → fl.eq net fl.zero_f64 ≡ false
  not_flat ieee net (inl h) = (ieee.ne_of_lt fl.zero_f64 net h).1
  not_flat ieee net (inr h) = (ieee.ne_of_lt net fl.zero_f64 h).0

  -- The direction test of the code, for a fill of a positive quantity.
  direction :
      IsSymmetric F
      → (net : F) (side : OrderSide) (qty : F) → fl.lt fl.zero_f64 qty ≡ true
      → (fl.lt fl.zero_f64 net ≡ true) ⊎ (fl.lt net fl.zero_f64 ≡ true)
      → same_sign (fl.lt fl.zero_f64 net) (fl.lt fl.zero_f64 (signed_qty side qty))
        ≡ not (is_against net side)
  unfolding signed_qty
  direction ieee net buy qty pos h =
      ground (arith, ieee.lt_asymm fl.zero_f64 net, ieee.lt_asymm net fl.zero_f64)
  direction ieee net sell qty pos h = ground (
    arith,
    ieee.lt-neg qty,
    ieee.lt_asymm fl.zero_f64 qty pos,
    ieee.lt_asymm fl.zero_f64 net,
    ieee.lt_asymm net fl.zero_f64,
  )

  -- A fill of a positive quantity on an open position, long or short, changes the net quantity by
  -- exactly the signed quantity, whether it increases, reduces, closes or flips the position; and
  -- the realized result changes only if the fill goes against the position.
  pub apply_fill_net :
      IsSymmetric F
      → (p : PositionMath F) (side : OrderSide) (qty price : F) → fl.lt fl.zero_f64 qty ≡ true
      → (fl.lt fl.zero_f64 p.net_qty ≡ true) ⊎ (fl.lt p.net_qty fl.zero_f64 ≡ true)
      → ((apply_fill p side qty price).net_qty ≡ fl.add p.net_qty (signed_qty side qty))
        × ((apply_fill p side qty price).realized_pnl
            ≡ (if is_against p.net_qty side then realized p qty price else p.realized_pnl))
  unfolding apply_fill increase
  apply_fill_net ieee p side qty price pos h =
      let turn = direction ieee p.net_qty side qty pos h in
      let full = not_flat ieee p.net_qty h in
      elim (Bool-cases (is_against p.net_qty side)) [
        | inl e ↦
            rw (full, turn, e)
              (
                decrease_net ieee p side qty price pos e,
                decrease-realized p (signed_qty side qty) qty price,
              )
        | inr e ↦ rw (full, turn, e) (refl, refl)
      ]
