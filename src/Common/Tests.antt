-- ===== src/Common/Tests.antt =====
-- Boolean tests, the conditional, and equality as an interface.
use Prim.Native.Nat.{ℕ, compare, Ordering}
use mathlib.Core.Path.{◌≡◌, refl, sym}
use mathlib.Core.Logic.{◌≢◌, ◌⊎◌, inl, inr}
use mathlib.Core.Bool.{Bool, true, false}
use mathlib.Core.Option.{Option, none, some}
use mathlib.Core.List.{List, [], ◌∷◌, nil≢cons, head-eq_of_cons-eq, tail-eq_of_cons-eq}
use native.Mathlib.Omega.{arith}
use native.Mathlib.Decide.{ℕ_discrete}

abbrev pub ltb : ℕ → ℕ → Bool
ltb a b = elim (compare a b) [ Ordering.lt ↦ true | _ ↦ false ]

abbrev pub leb : ℕ → ℕ → Bool
leb a b = elim (compare a b) [ Ordering.gt ↦ false | _ ↦ true ]

infix 1 if◌then◌else◌
abbrev pub if◌then◌else◌ {ℓ} : {A : Type ℓ} → Bool → A → A → A
if true then x else y = x
if false then x else y = y

-- The test that a decision gives.
abbrev pub holds {ℓ} : {P : Type ℓ} → Dec P → Bool
holds (yes _) = true
holds (no _) = false

-- `==` of the program: a type whose equality is decided.
pub record Eq {ℓ} (A : Type ℓ) : Type ℓ where
  pub dec : Discrete A

infix 50 ◌==◌
abbrev pub ◌==◌ {ℓ} : {A : Type ℓ} ⦃e : Eq A⦄ → A → A → Bool
◌==◌ ⦃e⦄ a b = holds (e.dec a b)

cons-discrete {ℓ} :
    {A : Type ℓ} {x y : A} {xs ys : List A}
    → Dec (x ≡ y)
    → Dec (xs ≡ ys)
    → Dec ((x ∷ xs) ≡ (y ∷ ys))
cons-discrete (yes p) (yes q) = yes (cc)
cons-discrete (yes p) (no q) = no (λ e. q (tail-eq_of_cons-eq e))
cons-discrete (no p) _ = no (λ e. p (head-eq_of_cons-eq e))

unfoldable pub List-discrete {ℓ} : {A : Type ℓ} → Discrete A → Discrete (List A)
unfolding cons-discrete
List-discrete d [] [] = yes refl
List-discrete d [] (y ∷ ys) = no nil≢cons
List-discrete d (x ∷ xs) [] = no (λ e. nil≢cons (sym e))
List-discrete d (x ∷ xs) (y ∷ ys) = cons-discrete (d x y) (List-discrete d xs ys)

instance abbrev pub nat_eq : Eq ℕ
nat_eq = record { dec = ℕ_discrete }

instance abbrev pub list_eq {ℓ} : {A : Type ℓ} ⦃e : Eq A⦄ → Eq (List A)
list_eq ⦃e⦄ = record { dec = List-discrete e.dec }

module _ {ℓ} {A : Type ℓ} ⦃e : Eq A⦄ where
  pub ==_eq : {a b : A} → (a == b) ≡ true → a ≡ b
  ==_eq {a} {b} h = ground arith

  pub ==_self : (a : A) → (a == a) ≡ true
  ==_self a = ground arith

  pub ==_ne : {a b : A} → (a == b) ≡ false → a ≢ b
  ==_ne {a} {b} h = ground arith

-- To split on a computed value and keep the equation.
pub Bool-cases : (b : Bool) → (b ≡ true) ⊎ (b ≡ false)
Bool-cases true = inl refl
Bool-cases false = inr refl

pub Option-cases {ℓ} : {A : Type ℓ} (o : Option A) → (o ≡ none) ⊎ ((a : A) × (o ≡ some a))
Option-cases none = inl refl
Option-cases (some a) = inr (a, refl)
