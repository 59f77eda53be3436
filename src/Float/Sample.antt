-- ===== src/Float/Sample.antt =====
-- A type with the operations and laws of `f64`: integers, and `none` for NaN.
-- Fractions are cut off, so that the literal 1e-9 is 0.
use openoms.Base.{Bool, true, false, Option, none, some, arith, if◌then◌else◌}
use openoms.Base.Int.{ℤ, pos, ◌+ℤ◌, ◌-ℤ◌, ◌*ℤ◌, div_ℤ, ltb_ℤ, leb_ℤ, eqb_ℤ}
use openoms.Float.Laws.{Float64, IsIeee}

abbrev pub Sample : Type 0
Sample = Option ℤ

abbrev pub lift_one : (ℤ → ℤ) → Sample → Sample
lift_one f (some a) = some (f a)
lift_one f none = none

abbrev pub lift_two : (ℤ → ℤ → ℤ) → Sample → Sample → Sample
lift_two f (some a) (some b) = some (f a b)
lift_two f _ _ = none

abbrev pub test_two : (ℤ → ℤ → Bool) → Sample → Sample → Bool
test_two f (some a) (some b) = f a b
test_two f _ _ = false

abbrev pub is_number : Sample → Bool
is_number (some _) = true
is_number none = false

-- The smaller number; of NaN and a number, the number.
abbrev pub min_sample : Sample → Sample → Sample
min_sample (some a) (some b) = some (if leb_ℤ a b then a else b)
min_sample none b = b
min_sample a none = a

-- A column of two digits: what is above 99 loses its last digit.
abbrev pub to_column : Sample → Sample
to_column (some a) = some (if leb_ℤ a (pos 99) then a else div_ℤ a (pos 10) *ℤ pos 10)
to_column none = none

instance abbrev pub sample_float : Float64 Sample
sample_float = record {
  zero_f64 = some (pos 0);
  one_f64 = some (pos 1);
  eps_f64 = some (pos 0);
  hundred_f64 = some (pos 100);
  add = lift_two ◌+ℤ◌;
  sub = lift_two ◌-ℤ◌;
  mul = lift_two ◌*ℤ◌;
  div = lift_two div_ℤ;
  neg = lift_one (◌-ℤ◌ (pos 0));
  abs = lift_one (λ a. if ltb_ℤ a (pos 0) then pos 0 -ℤ a else a);
  min_f64 = min_sample;
  lt = test_two ltb_ℤ;
  le = test_two leb_ℤ;
  eq = test_two eqb_ℤ;
  is_finite = is_number;
  display = λ _. "a number";
  display_two = λ _. "a number";
  to_numeric = to_column;
}

pub Sample-IsIeee : IsIeee Sample
Sample-IsIeee = ground arith
