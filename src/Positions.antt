-- ===== src/Positions.antt =====
-- src/positions.rs: average-cost positions, their valuation, and the position table.
pub mod Net
pub mod Replay
use openoms.Base.{
  Bool, true, false, String, str_eq, Option, none, some, List, [], ◌∷◌, if◌then◌else◌, unwrap_or,
  map_option, Result, ok, err,
}
use openoms.Float.{Float64}
use openoms.Orders.State.{OrderSide, buy, sell}
use openoms.Orders.Events.{OrderEventPayload}

pub record PositionMath (F : Type 0) : Type 0 where
  pub net_qty : F
  pub avg_cost : F
  pub realized_pnl : F

pub record Valuation (F : Type 0) : Type 0 where
  pub market_value : F
  pub unrealized_pnl : F

-- `==` on Booleans.
abbrev pub same_sign : Bool → Bool → Bool
same_sign true b = b
same_sign false true = false
same_sign false false = true

module _ {F : Type 0} ⦃fl : Float64 F⦄ where
  unfoldable pub flat : PositionMath F
  flat = record { net_qty = fl.zero_f64; avg_cost = fl.zero_f64; realized_pnl = fl.zero_f64 }

  unfoldable pub signed_qty : OrderSide → F → F
  signed_qty buy qty = qty
  signed_qty sell qty = fl.neg qty

  -- The fill has the position's sign: blend the cost.
  unfoldable pub increase : PositionMath F → F → F → F → PositionMath F
  increase self signed qty price =
      let n = fl.abs self.net_qty in
      record self {
        net_qty = fl.add self.net_qty signed;
        avg_cost = fl.div (fl.add (fl.mul n self.avg_cost) (fl.mul qty price)) (fl.add n qty);
      }

  unfoldable pub sign_of : F → F
  sign_of n = if fl.lt fl.zero_f64 n then fl.one_f64 else fl.neg fl.one_f64

  -- Realized by the fill: what it closes, at the difference of the prices.
  unfoldable pub realized : PositionMath F → F → F → F
  unfolding sign_of
  realized self qty price = fl.add self.realized_pnl (
      fl.mul (fl.mul (fl.min_f64 qty (fl.abs self.net_qty)) (fl.sub price self.avg_cost))
        (sign_of self.net_qty))

  -- The fill is opposite to the position: reduce, close or flip.
  unfoldable pub decrease : PositionMath F → F → F → F → PositionMath F
  unfolding realized
  decrease self signed qty price =
      let net_qty = fl.add self.net_qty signed in
      let remainder = fl.sub qty (fl.abs self.net_qty) in
      if fl.le qty (fl.abs self.net_qty)
      then record {
        net_qty = net_qty;
        avg_cost = if fl.eq net_qty fl.zero_f64 then fl.zero_f64 else self.avg_cost;
        realized_pnl = realized self qty price;
      }
      else record {
        net_qty = if fl.lt fl.zero_f64 signed then remainder else fl.neg remainder;
        avg_cost = price;
        realized_pnl = realized self qty price;
      }

  unfoldable pub apply_fill : PositionMath F → OrderSide → F → F → PositionMath F
  unfolding signed_qty increase decrease
  apply_fill self side qty price =
      let signed = signed_qty side qty in
      if fl.eq self.net_qty fl.zero_f64
      then record self { net_qty = signed; avg_cost = price }
      else (if same_sign (fl.lt fl.zero_f64 self.net_qty) (fl.lt fl.zero_f64 signed)
          then increase self signed qty price
          else decrease self signed qty price)

  unfoldable pub reduce_at_cost : PositionMath F → F → PositionMath F
  reduce_at_cost self qty =
      let sign_n = if fl.le fl.zero_f64 self.net_qty then fl.one_f64 else fl.neg fl.one_f64 in
      let net_qty = fl.sub self.net_qty (fl.mul sign_n qty) in
      record {
        net_qty = net_qty;
        avg_cost = if fl.eq net_qty fl.zero_f64 then fl.zero_f64 else self.avg_cost;
        realized_pnl = self.realized_pnl;
      }

  unfoldable pub value : F → F → F → F → Valuation F
  value net_qty avg_cost contract_size mid = record {
    market_value = fl.mul (fl.mul net_qty mid) contract_size;
    unrealized_pnl = fl.mul (fl.mul (fl.sub mid avg_cost) net_qty) contract_size;
  }

-- Equality of the table's keys, a portfolio and an instrument.
pub record KeyEq (K : Type 0) : Type 0 where
  pub same : K → K → Bool

-- The position table: at most one row for each key.
abbrev pub Table : Type 0 → Type 0 → Type 0
Table K F = K → Option (PositionMath F)

-- A position's numbers as the NUMERIC columns of the table give them back.
abbrev pub position_row : {F : Type 0} ⦃fl : Float64 F⦄ → PositionMath F → PositionMath F
position_row ⦃fl⦄ p = record {
  net_qty = fl.to_numeric p.net_qty;
  avg_cost = fl.to_numeric p.avg_cost;
  realized_pnl = fl.to_numeric p.realized_pnl;
}

module _ {K F : Type 0} ⦃key : KeyEq K⦄ ⦃fl : Float64 F⦄ where
  unfoldable pub load : Table K F → K → PositionMath F
  unfolding flat
  load table k = unwrap_or (table k) flat

  -- One entry of a map changed.
  abbrev pub put : Table K F → K → PositionMath F → Table K F
  put table k p j = if key.same k j then some p else table j

  unfoldable pub upsert : Table K F → K → PositionMath F → Table K F
  upsert table k p = put table k (position_row p)

  unfoldable pub persist_fill : Table K F → K → OrderSide → F → F → Table K F
  unfolding load upsert apply_fill
  persist_fill table k side fill_qty fill_price =
      upsert table k (apply_fill (load table k) side fill_qty fill_price)

  unfoldable pub persist_transfer : Table K F → K → K → OrderSide → F → F → Table K F
  unfolding load upsert apply_fill reduce_at_cost
  persist_transfer table from to side qty price =
      let reduced = upsert table from (reduce_at_cost (load table from) qty) in
      upsert reduced to (apply_fill (load reduced to) side qty price)

-- A row of the query of `rebuild_positions`: what serde reads from the event's payload, if it can,
-- and the order's key and side.
pub record LogRow (K F : Type 0) : Type 0 where
  pub payload : Option (OrderEventPayload F)
  pub key : K
  pub side : String

abbrev pub fill_of_payload : {F : Type 0} → OrderEventPayload F → Option (F × F)
fill_of_payload (OrderEventPayload.order_partially_filled p) = some (p.fill_qty, p.fill_price)
fill_of_payload (OrderEventPayload.order_filled p) = some (p.fill_qty, p.fill_price)
fill_of_payload _ = none

unfoldable pub parse_side : String → OrderSide
parse_side s = if str_eq s "buy" then buy else sell

-- The fill of a row; other rows are passed over.
unfoldable pub row_fill : {K F : Type 0} → LogRow K F → Option (F × F)
row_fill row = elim row.payload [ none ↦ none | some p ↦ fill_of_payload p ]

module _ {K F : Type 0} ⦃key : KeyEq K⦄ ⦃fl : Float64 F⦄ where
  -- The body of the loop of `rebuild_positions`, on its map of positions.
  unfoldable pub accumulate_fill : Table K F → LogRow K F → Option (F × F) → Table K F
  unfolding load apply_fill parse_side
  accumulate_fill acc row none = acc
  accumulate_fill acc row (some (fill_qty, fill_price)) =
      put acc row.key (apply_fill (load acc row.key) (parse_side row.side) fill_qty fill_price)

  unfoldable pub accumulate : Table K F → List (LogRow K F) → Table K F
  unfolding accumulate_fill row_fill
  accumulate acc [] = acc
  accumulate acc (row ∷ rows) = accumulate (accumulate_fill acc row (row_fill row)) rows

  -- The old table is deleted and the map's positions inserted.
  unfoldable pub rebuild_positions : Table K F → List (LogRow K F) → Table K F
  unfolding accumulate
  rebuild_positions old rows k = map_option position_row (accumulate (λ _. none) rows k)
