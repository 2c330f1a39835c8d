-- ===== src/Common/Tests.antt =====
-- Boolean tests on the native numbers, the conditional, and equality as an interface.
use Prim.Native.Nat.{ℕ, compare, Ordering}
use mathlib.Core.Path.{◌≡◌, refl}
use mathlib.Core.Logic.{◌↔◌, ◌⊎◌, inl, inr}
use mathlib.Core.Bool.{Bool, true, false, ◌&&◌}
use mathlib.Core.Option.{Option, none, some}
use mathlib.Core.List.{List, [], ◌∷◌}
use native.Mathlib.Omega.{arith}

abbrev pub ltb : ℕ → ℕ → Bool
ltb a b = elim (compare a b) [ Ordering.lt ↦ true | _ ↦ false ]

abbrev pub leb : ℕ → ℕ → Bool
leb a b = elim (compare a b) [ Ordering.gt ↦ false | _ ↦ true ]

abbrev pub nat_beq : ℕ → ℕ → Bool
nat_beq a b = elim (compare a b) [ Ordering.eq ↦ true | _ ↦ false ]

infix 1 if◌then◌else◌
abbrev pub if◌then◌else◌ {ℓ} : {A : Type ℓ} → Bool → A → A → A
if true then x else y = x
if false then x else y = y

pub nat_beq_iff : (a b : ℕ) → (nat_beq a b ≡ true) ↔ (a ≡ b)
nat_beq_iff a b = ground arith

pub Bool-cases : (b : Bool) → (b ≡ true) ⊎ (b ≡ false)
Bool-cases true = inl refl
Bool-cases false = inr refl

pub Option-cases {ℓ} : {A : Type ℓ} (o : Option A) → (o ≡ none) ⊎ ((a : A) × (o ≡ some a))
Option-cases none = inl refl
Option-cases (some a) = inr (a, refl)

-- A type whose values the program compares with `==`: the test, and that it decides equality.
pub record Comparable {ℓ} (V : Type ℓ) : Type ℓ where
  pub same : V → V → Bool
  pub decides : (x y : V) → (same x y ≡ true) ↔ (x ≡ y)

module _ {ℓ} {V : Type ℓ} ⦃c : Comparable V⦄ where
  infix 50 ◌==◌
  abbrev pub ◌==◌ : V → V → Bool
  x == y = c.same x y

  pub ==_iff : (x y : V) → ((x == y) ≡ true) ↔ (x ≡ y)
  ==_iff = c.decides

  pub ==_refl : (x : V) → (x == x) ≡ true
  ==_refl x = (c.decides x x).1 refl

-- texts and other lists are compared item by item
module _ {ℓ} {V : Type ℓ} (same : V → V → Bool) where
  abbrev pub same_list : List V → List V → Bool
  same_list [] [] = true
  same_list (x ∷ xs) (y ∷ ys) = same x y && same_list xs ys
  same_list _ _ = false

  pub same_list_iff :
      ((x y : V) → (same x y ≡ true) ↔ (x ≡ y))
      → (xs ys : List V) → (same_list xs ys ≡ true) ↔ (xs ≡ ys)
  same_list_iff h [] [] = ground arith
  same_list_iff h [] (y ∷ ys) = ground arith
  same_list_iff h (x ∷ xs) [] = ground arith
  same_list_iff h (x ∷ xs) (y ∷ ys) = ground (arith, h x y, same_list_iff h xs ys)

instance abbrev pub list_eq {ℓ} : {V : Type ℓ} ⦃c : Comparable V⦄ → Comparable (List V)
list_eq ⦃c⦄ = record { same = same_list c.same; decides = same_list_iff c.same c.decides }

instance abbrev pub nat_eq : Comparable ℕ
nat_eq = record { same = nat_beq; decides = nat_beq_iff }
