-- ===== src/Base/Results.antt =====
-- Booleans, tests on native numbers, and Rust's `Result` with its `?`.
use Prim.Native.Nat.{ℕ, compare, Ordering}
use mathlib.Core.Path.{◌≡◌, refl, subst, ap}
use mathlib.Core.Logic.{◌⊎◌, inl, inr}
use mathlib.Core.Bool.{Bool, true, false, ◌||◌}
use mathlib.Core.Option.{Option, none, some, some-injective}

infix 1 if◌then◌else◌
abbrev pub if◌then◌else◌ {ℓ} : {A : Type ℓ} → Bool → A → A → A
if true then x else y = x
if false then x else y = y

abbrev pub ltb : ℕ → ℕ → Bool
ltb a b = elim (compare a b) [ Ordering.lt ↦ true | _ ↦ false ]

abbrev pub leb : ℕ → ℕ → Bool
leb a b = elim (compare a b) [ Ordering.gt ↦ false | _ ↦ true ]

infix 50 ◌==◌
abbrev pub ◌==◌ : ℕ → ℕ → Bool
a == b = elim (compare a b) [ Ordering.eq ↦ true | _ ↦ false ]

pub Bool-cases : (b : Bool) → (b ≡ true) ⊎ (b ≡ false)
Bool-cases true = inl refl
Bool-cases false = inr refl

pub Option-cases {ℓ} : {A : Type ℓ} (o : Option A) → (o ≡ none) ⊎ ((a : A) × (o ≡ some a))
Option-cases none = inl refl
Option-cases (some a) = inr (a, refl)

pub data Result {ℓ κ} (A : Type ℓ) (E : Type κ) : Type (ℓ ⊔ κ) where
  ok : A → Result A E
  err : E → Result A E

-- The operator `?`.
infixl 5 ◌>>=◌ ◌>>◌
abbrev pub ◌>>=◌ {ℓ κ μ} :
    {A : Type ℓ} {B : Type κ} {E : Type μ} → Result A E → (A → Result B E) → Result B E
err e >>= rest = err e
ok a >>= rest = rest a

abbrev pub ◌>>◌ {κ μ} : {B : Type κ} {E : Type μ} → Result (Unit {0}) E → Result B E → Result B E
check >> rest = check >>= λ _. rest

abbrev pub ok_or {ℓ μ} : {A : Type ℓ} {E : Type μ} → Option A → E → Result A E
ok_or none e = err e
ok_or (some a) e = ok a

pub ok_or-eq-ok {ℓ μ} :
    {A : Type ℓ} {E : Type μ} (o : Option A) (e : E) {a : A} → ok_or o e ≡ ok a → o ≡ some a
ok_or-eq-ok none e h = cc
ok_or-eq-ok (some b) e h = cc

abbrev pub map_err {ℓ κ μ} :
    {A : Type ℓ} {E : Type κ} {F : Type μ} → (E → F) → Result A E → Result A F
map_err f (ok a) = ok a
map_err f (err e) = err (f e)

pub Result-cases {ℓ κ} :
    {A : Type ℓ} {E : Type κ} (r : Result A E) → ((a : A) × (r ≡ ok a)) ⊎ ((e : E) × (r ≡ err e))
Result-cases (ok a) = inl (a, refl)
Result-cases (err e) = inr (e, refl)

-- If a chain succeeds, so does the check that it begins with.
pub check-ok {κ μ} :
    {B : Type κ} {E : Type μ} (check : Result (Unit {0}) E) (rest : Unit {0} → Result B E) {b : B}
    → (check >>= rest) ≡ ok b
    → check ≡ ok tt
check-ok (err e) rest h = cc
check-ok (ok tt) rest h = refl

abbrev pub unwrap_or {ℓ} : {A : Type ℓ} → Option A → A → A
unwrap_or none d = d
unwrap_or (some a) d = a

-- `Option::or`
abbrev pub or_option {ℓ} : {A : Type ℓ} → Option A → Option A → Option A
or_option none b = b
or_option (some a) b = some a

-- `Option::map`
abbrev pub map_option {ℓ κ} : {A : Type ℓ} {B : Type κ} → (A → B) → Option A → Option B
map_option f none = none
map_option f (some a) = some (f a)

-- What holds of a result if it is a success.
pub record OnOk {ℓ κ μ} {A : Type ℓ} {E : Type κ} (P : A → Type μ) (r : Result A E)
    : Type (ℓ ⊔ κ ⊔ μ) where
  pub at : (a : A) → r ≡ ok a → P a

module _ {ℓ κ μ} {A : Type ℓ} {E : Type κ} {P : A → Type μ} where
  pub OnOk-ok : (a : A) → P a → OnOk {A = A} {E = E} P (ok a)
  OnOk-ok a h = record { at = λ b e. subst P (ok_inj e) h }
    where
      ok_inj : {b : A} → ◌≡◌ {A = Result A E} (ok a) (ok b) → a ≡ b
      ok_inj e = cc

  pub OnOk-err : (e : E) → OnOk {A = A} {E = E} P (err e)
  OnOk-err e = record { at = λ b q. absurd (cc) }

  pub OnOk-guard :
      (b : Bool) (e : E) (r : Result A E) → (b ≡ false → OnOk P r) → OnOk P (if b then err e else r)
  OnOk-guard true e r h = OnOk-err e
  OnOk-guard false e r h = h refl

  pub OnOk-bind {ν} :
      {B : Type ν} (m : Result B E) (f : B → Result A E)
      → ((b : B) → m ≡ ok b → OnOk P (f b))
      → OnOk P (m >>= f)
  OnOk-bind (ok b) f h = h b refl
  OnOk-bind (err e) f h = OnOk-err e

-- Associativity of `?`, with the rest given pointwise.
pub >>=_assoc {ℓ κ μ ν} :
    {A : Type ℓ} {B : Type κ} {C : Type μ} {E : Type ν} (r : Result A E) (f : A → Result C E)
    (g : A → Result B E) (h : B → Result C E)
    → ((a : A) → f a ≡ (g a >>= h))
    → (r >>= f) ≡ (r >>= g >>= h)
>>=_assoc (ok a) f g h p = p a
>>=_assoc (err e) f g h p = refl

pub or-false : (a b : Bool) → (a || b) ≡ false → b ≡ false
or-false true b h = cc
or-false false b h = h

-- `Option::filter`
abbrev pub filter_option {ℓ} : {A : Type ℓ} → (A → Bool) → Option A → Option A
filter_option test none = none
filter_option test (some a) = if test a then some a else none

pub filter_option-some {ℓ} :
    {A : Type ℓ} (test : A → Bool) (o : Option A) (a : A)
    → filter_option test o ≡ some a
    → (o ≡ some a) × (test a ≡ true)
filter_option-some test none a h = absurd (cc)
filter_option-some test (some x) a h = elim (Bool-cases (test x)) [
  | inl e ↦
      let same = some-injective x a (rw e at h) in (ap some same, subst (λ x. test x ≡ true) same e)
  | inr e ↦ absurd (not_some (rw e at h))
]
  where
    not_some : none ≡ some a → ⊥
    not_some k = cc
