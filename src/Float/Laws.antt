-- ===== src/Float/Laws.antt =====
-- The operations of `f64` that the program uses, its passage through the database, and the laws of IEEE 754 that proofs assume.
use openoms.Base.{Bool, true, false, String, ◌≡◌, arith}

-- Comparisons are the language's operators: false as soon as one side is NaN. `a > b` is `lt b a`.
pub record Float64 (F : Type 0) : Type 0 where
  pub zero_f64 : F
  pub one_f64 : F
  -- The literal 1e-9.
  pub eps_f64 : F
  pub hundred_f64 : F
  pub add : F → F → F
  pub sub : F → F → F
  pub mul : F → F → F
  pub div : F → F → F
  pub neg : F → F
  pub abs : F → F
  pub min_f64 : F → F → F
  pub lt : F → F → Bool
  pub le : F → F → Bool
  pub eq : F → F → Bool
  pub is_finite : F → Bool
  pub display : F → String
  -- With two decimals.
  pub display_two : F → String
  -- What a NUMERIC column gives back of a number that is bound as f64 and read as double precision.
  -- The database rounds it, to 15 digits; nothing is assumed of how.
  pub to_numeric : F → F

-- Facts of IEEE 754 binary64 that hold with rounding. NaN is what is not `<=` itself.
pub record IsIeee (F : Type 0) ⦃fl : Float64 F⦄ : Type 0 where
  pub zero_finite : fl.is_finite fl.zero_f64 ≡ true
  pub zero_le_eps : fl.le fl.zero_f64 fl.eps_f64 ≡ true
  pub lt-le : (a b : F) → fl.lt a b ≡ true → fl.le a b ≡ true
  pub not_le_of_lt : (a b : F) → fl.lt a b ≡ true → fl.le b a ≡ false
  pub refl_of_le : (a b : F) → fl.le a b ≡ true → (fl.le a a ≡ true) × (fl.le b b ≡ true)
  pub le_trans : (a b c : F) → fl.le a b ≡ true → fl.le b c ≡ true → fl.le a c ≡ true
  pub le_of_not_lt :
      (a b : F) → fl.le a a ≡ true → fl.le b b ≡ true → fl.lt a b ≡ false → fl.le b a ≡ true
  pub lt_of_not_le :
      (a b : F) → fl.le a a ≡ true → fl.le b b ≡ true → fl.le a b ≡ false → fl.lt b a ≡ true
  pub finite_refl : (a : F) → fl.is_finite a ≡ true → fl.le a a ≡ true
  pub finite_between :
      (a b c : F)
      → fl.is_finite a ≡ true
      → fl.is_finite c ≡ true
      → fl.le a b ≡ true
      → fl.le b c ≡ true
      → fl.is_finite b ≡ true
  -- Rounding is monotone: adding a positive number does not make a sum smaller.
  pub le-add_pos :
      (a b : F) → fl.is_finite a ≡ true → fl.lt fl.zero_f64 b ≡ true → fl.le a (fl.add a b) ≡ true
  -- Underflow is gradual: a difference is positive exactly if the numbers are so ordered.
  pub sub_pos :
      (a b : F)
      → fl.is_finite a ≡ true
      → fl.is_finite b ≡ true
      → fl.lt fl.zero_f64 (fl.sub a b) ≡ fl.lt b a
  pub sub_zero : (a : F) → fl.is_finite a ≡ true → fl.sub a fl.zero_f64 ≡ a
  -- NaN propagates.
  pub nan_add : (a b : F) → fl.le b b ≡ false → fl.le (fl.add a b) (fl.add a b) ≡ false
  pub nan_sub : (a b : F) → fl.le b b ≡ false → fl.le (fl.sub a b) (fl.sub a b) ≡ false

module _ {F : Type 0} ⦃fl : Float64 F⦄ (ieee : IsIeee F) where
  -- No comparison with NaN holds.
  pub le_nan : (a b : F) → fl.le b b ≡ false → (fl.le a b ≡ false) × (fl.le b a ≡ false)
  le_nan a b n = ground (arith, ieee.refl_of_le a b, ieee.refl_of_le b a)

  pub lt_nan : (a b : F) → fl.le b b ≡ false → (fl.lt a b ≡ false) × (fl.lt b a ≡ false)
  lt_nan a b n = ground (arith, ieee.lt-le a b, ieee.lt-le b a, le_nan a b n)
