-- ===== src/Base.antt =====
-- The names that the components share: the libraries' names, passed on, Boolean tests on the
-- native numbers, and the interface of a type with a decidable equality test.
pub mod Dict
pub mod Json
pub mod Lists
pub mod Sort
pub mod Text
pub use Prim.Native.Nat.{ℕ, zero, suc, ◌+◌, ◌-◌, ◌*◌, ◌/◌, ◌%◌, ◌≤◌, ◌<◌, min, max}
pub use Prim.Native.String.{String}
pub use mathlib.Core.Path.{◌≡◌, refl, sym, ap, ◌∙◌}
pub use mathlib.Core.Logic.{◌≢◌, ◌↔◌, ◌⊎◌, inl, inr}
pub use mathlib.Core.Bool.{Bool, true, false, not, ◌&&◌, ◌||◌}
pub use mathlib.Core.Option.{Option, none, some}
pub use mathlib.Core.List.{List, [], ◌∷◌, ◌++◌, map}
pub use native.Mathlib.Omega.{arith}
pub use text.Mathlib.Text.{◌==◌ as str_eq}
pub use text.Mathlib.TextEquality.{eq_iff}
use Prim.Native.Nat.{compare, Ordering}

abbrev pub ltb : ℕ → ℕ → Bool
ltb a b = elim (compare a b) [ Ordering.lt ↦ true | _ ↦ false ]

abbrev pub leb : ℕ → ℕ → Bool
leb a b = elim (compare a b) [ Ordering.gt ↦ false | _ ↦ true ]

abbrev pub nat_beq : ℕ → ℕ → Bool
nat_beq a b = elim (compare a b) [ Ordering.eq ↦ true | _ ↦ false ]

infix 1 if◌then◌else◌
abbrev pub if◌then◌else◌ {ℓ} : {A : Type ℓ} → Bool → A → A → A
if true then x else y = x
if false then x else y = y

pub nat_beq_iff : (a b : ℕ) → (nat_beq a b ≡ true) ↔ (a ≡ b)
nat_beq_iff a b = ground arith

pub Bool-cases : (b : Bool) → (b ≡ true) ⊎ (b ≡ false)
Bool-cases true = inl refl
Bool-cases false = inr refl

pub Option-cases {ℓ} : {A : Type ℓ} (o : Option A) → (o ≡ none) ⊎ ((a : A) × (o ≡ some a))
Option-cases none = inl refl
Option-cases (some a) = inr (a, refl)

abbrev pub is_some {ℓ} : {A : Type ℓ} → Option A → Bool
is_some none = false
is_some (some a) = true

-- what a type has whose values the program compares
pub record Equatable {κ} (B : Type κ) : Type κ where
  pub equals : B → B → Bool
  pub equals_iff : (x y : B) → (equals x y ≡ true) ↔ (x ≡ y)

module _ {κ} {B : Type κ} ⦃c : Equatable B⦄ where
  -- Python's `==`
  infix 50 ◌==◌
  abbrev pub ◌==◌ : B → B → Bool
  x == y = c.equals x y

  pub beq_refl : (x : B) → (x == x) ≡ true
  beq_refl x = (c.equals_iff x x).1 refl

  pub beq_ne : (x y : B) → x ≢ y → (x == y) ≡ false
  beq_ne x y apart = elim (Bool-cases (x == y)) [
    | inl same ↦ absurd (apart ((c.equals_iff x y).0 same))
    | inr other ↦ other
  ]

instance abbrev pub string_eq : Equatable String
string_eq = record { equals = str_eq; equals_iff = eq_iff }

instance abbrev pub nat_eq : Equatable ℕ
nat_eq = record { equals = nat_beq; equals_iff = nat_beq_iff }
