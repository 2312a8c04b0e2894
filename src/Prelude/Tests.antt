-- ===== src/Prelude/Tests.antt =====
-- Boolean tests on the native numbers, the conditional, and the class of types with a Boolean
-- equality: thread ids (int) and names (std::string).
use Prim.Native.Nat.{ℕ, compare, Ordering}
use Prim.Native.String.{String}
use mathlib.Core.Path.{◌≡◌, refl}
use mathlib.Core.Logic.{◌↔◌, ◌⊎◌, inl, inr}
use mathlib.Core.Bool.{Bool, true, false}
use mathlib.Core.Option.{Option, none, some}
use native.Mathlib.Omega.{arith}
use text.Mathlib.Text.{◌==◌ as str_eq}
use text.Mathlib.TextEquality.{eq_iff}

abbrev pub ltb : ℕ → ℕ → Bool
ltb a b = elim (compare a b) [ Ordering.lt ↦ true | _ ↦ false ]

abbrev pub leb : ℕ → ℕ → Bool
leb a b = elim (compare a b) [ Ordering.gt ↦ false | _ ↦ true ]

abbrev nat_beq : ℕ → ℕ → Bool
nat_beq a b = elim (compare a b) [ Ordering.eq ↦ true | _ ↦ false ]

infix 1 if◌then◌else◌
abbrev pub if◌then◌else◌ {ℓ} : {A : Type ℓ} → Bool → A → A → A
if true then x else y = x
if false then x else y = y

pub nat_beq_iff : (a b : ℕ) → (nat_beq a b ≡ true) ↔ (a ≡ b)
nat_beq_iff a b = ground arith

-- types with a Boolean test of equality
pub record EqTest {ℓ} (T : Type ℓ) : Type ℓ where
  pub test : T → T → Bool
  pub test_iff : (x y : T) → (test x y ≡ true) ↔ (x ≡ y)

-- the names of registers and locations
instance abbrev pub string_eq : EqTest String
string_eq = record { test_iff = eq_iff; test = str_eq }

-- the ids of threads
instance abbrev pub nat_eq : EqTest ℕ
nat_eq = record { test_iff = nat_beq_iff; test = nat_beq }

-- operator== of the keys
abbrev pub ◌==◌ {ℓ} : {T : Type ℓ} ⦃eq : EqTest T⦄ → T → T → Bool
◌==◌ ⦃eq⦄ = eq.test

infix 50 ◌==◌
-- To split on a computed value and keep the equation.
pub Bool-cases : (b : Bool) → (b ≡ true) ⊎ (b ≡ false)
Bool-cases true = inl refl
Bool-cases false = inr refl

pub Option-cases {ℓ} : {A : Type ℓ} (o : Option A) → (o ≡ none) ⊎ ((a : A) × (o ≡ some a))
Option-cases none = inl refl
Option-cases (some a) = inr (a, refl)

module _ {ℓ} {A : Type ℓ} where
  -- the value of `o`, or else of `p`
  abbrev pub or_else : Option A → Option A → Option A
  or_else (some a) p = some a
  or_else none p = p

  abbrev pub get_or_default : Option A → A → A
  get_or_default (some a) d = a
  get_or_default none d = d

  -- std::map::count
  abbrev pub is_some : Option A → Bool
  is_some (some a) = true
  is_some none = false
