-- ===== src/Positions/Replay.antt =====
-- What `rebuild_positions` computes, position by position.
use openoms.Base.{
  ◌≡◌, refl, sym, ◌∙◌, ap, Bool, true, false, String, str_eq, Option, none, some, List, [], ◌∷◌,
  Bool-cases, inl, inr, if◌then◌else◌, map_option, unwrap_or,
}
use openoms.Float.{Float64}
use openoms.Orders.State.{OrderSide, buy, sell, side_as_str}
use openoms.Orders.Events.{OrderEventPayload}
use openoms.Positions.{
  PositionMath, KeyEq, Table, LogRow, flat, load, apply_fill, parse_side, row_fill, accumulate_fill,
  accumulate, rebuild_positions, position_row,
}

-- What is assumed of the equality of keys.
pub record IsEquality (K : Type 0) ⦃key : KeyEq K⦄ : Type 0 where
  pub same_refl : (a : K) → key.same a a ≡ true
  pub eq_of_same : (a b : K) → key.same a b ≡ true → a ≡ b

module _ {F : Type 0} ⦃fl : Float64 F⦄ where
  -- The fills of one position, one after the other, where none is no position yet.
  abbrev pub replay : Option (PositionMath F) → List (OrderSide × F × F) → Option (PositionMath F)
  replay p [] = p
  replay none ((side, qty, price) ∷ fills) = replay (some (apply_fill flat side qty price)) fills
  replay (some p) ((side, qty, price) ∷ fills) = replay (some (apply_fill p side qty price)) fills

-- What a row of the log traded: the quantity and the price of a fill, of a part or of all, on the
-- side that the order's column tells.
abbrev pub traded : {F : Type 0} → OrderEventPayload F → Option (F × F)
traded (OrderEventPayload.order_filled fill) = some (fill.fill_qty, fill.fill_price)
traded (OrderEventPayload.order_partially_filled fill) = some (fill.fill_qty, fill.fill_price)
traded _ = none

abbrev pub side_of : String → OrderSide
side_of column = if str_eq column (side_as_str buy) then buy else sell

abbrev pub own_fill :
    {F : Type 0}
    → Bool
    → String
    → Option (OrderEventPayload F)
    → List (OrderSide × F × F)
    → List (OrderSide × F × F)
own_fill false column payload rest = rest
own_fill true column none rest = rest
own_fill true column (some payload) rest = elim (traded payload) [
  | none ↦ rest
  | some (qty, price) ↦ (side_of column, qty, price) ∷ rest
]

-- The fills of the key `k` in a log.
abbrev pub own_fills :
    {K F : Type 0} ⦃key : KeyEq K⦄ → K → List (LogRow K F) → List (OrderSide × F × F)
own_fills k [] = []
own_fills ⦃key⦄ k (row ∷ rows) =
    own_fill (key.same row.key k) row.side row.payload (own_fills k rows)

-- The fills that the code finds in a row.
found_fill :
    {K F : Type 0}
    → LogRow K F
    → Bool
    → Option (F × F)
    → List (OrderSide × F × F)
    → List (OrderSide × F × F)
found_fill row false fill rest = rest
found_fill row true none rest = rest
found_fill row true (some (qty, price)) rest = (parse_side row.side, qty, price) ∷ rest

found_fill-own :
    {K F : Type 0} (key : K) (side : String) (same : Bool) (payload : Option (OrderEventPayload F))
    (rest : List (OrderSide × F × F))
    → let row : LogRow K F = record { payload = payload; key = key; side = side } in
      found_fill row same (row_fill row) rest ≡ own_fill same side payload rest
unfolding row_fill found_fill parse_side side_as_str
found_fill-own key side false none rest = refl
found_fill-own key side true none rest = refl
found_fill-own key side false (some p) rest = refl
found_fill-own key side true (some (OrderEventPayload.order_filled _)) rest = refl
found_fill-own key side true (some (OrderEventPayload.order_partially_filled _)) rest = refl
found_fill-own key side true (some _) rest = refl

module _ {K F : Type 0} ⦃key : KeyEq K⦄ ⦃fl : Float64 F⦄ (laws : IsEquality K) where
  replay-one :
      (p : Option (PositionMath F)) (side : OrderSide) (qty price : F)
      (rest : List (OrderSide × F × F))
      → replay p ((side, qty, price) ∷ rest)
        ≡ replay (some (apply_fill (unwrap_or p flat) side qty price)) rest
  replay-one none side qty price rest = refl
  replay-one (some p) side qty price rest = refl

  accumulate_fill-replay :
      (acc : Table K F) (row : LogRow K F) (fill : Option (F × F)) (k : K)
      (rest : List (OrderSide × F × F))
      → replay (accumulate_fill acc row fill k) rest
        ≡ replay (acc k) (found_fill row (key.same row.key k) fill rest)
  unfolding accumulate_fill load found_fill
  accumulate_fill-replay acc row none k rest = elim (Bool-cases (key.same row.key k)) [
    | inl e ↦ rw e
    | inr e ↦ rw e
  ]
  accumulate_fill-replay acc row (some (qty, price)) k rest =
      elim (Bool-cases (key.same row.key k)) [
        | inl e ↦ rw e (
            ap
              (λ j.
                replay (some (apply_fill (unwrap_or (acc j) flat) (parse_side row.side) qty price))
                  rest)
              (laws.eq_of_same row.key k e)
            ∙ sym (replay-one (acc k) (parse_side row.side) qty price rest))
        | inr e ↦ rw e
      ]

  accumulate-replay :
      (acc : Table K F) (rows : List (LogRow K F)) (k : K)
      → accumulate acc rows k ≡ replay (acc k) (own_fills k rows)
  unfolding accumulate
  accumulate-replay acc [] k = refl
  accumulate-replay acc (row ∷ rows) k =
      accumulate-replay (accumulate_fill acc row (row_fill row)) rows k
      ∙ accumulate_fill-replay acc row (row_fill row) k (own_fills k rows)
      ∙ ap (replay (acc k))
          (found_fill-own row.key row.side (key.same row.key k) row.payload (own_fills k rows))

  -- Rebuilding stores for every key the replay, from flat, of exactly its own fills in the order of
  -- the log, the partial ones and the last ones alike, with its numbers as the NUMERIC columns give
  -- them back, and nothing for a key without a fill, whatever the table held before and whatever lies
  -- in the log between them.
  pub rebuild_positions-replay :
      (old : Table K F) (rows : List (LogRow K F)) (k : K)
      → rebuild_positions old rows k ≡ map_option position_row (replay none (own_fills k rows))
  unfolding rebuild_positions
  rebuild_positions-replay old rows k =
      ap (map_option position_row) (accumulate-replay (λ _. none) rows k)
