-- ===== src/Common/Tests.antt =====
-- Boolean tests on the native numbers, the conditional, and splits that keep their equation.
use Prim.Native.Nat.{ℕ, compare, Ordering}
use mathlib.Core.Path.{◌≡◌, refl}
use mathlib.Core.Logic.{◌⊎◌, inl, inr}
use mathlib.Core.Bool.{Bool, true, false}
use mathlib.Core.Option.{Option, none, some}

abbrev pub ltb : ℕ → ℕ → Bool
ltb a b = elim (compare a b) [ Ordering.lt ↦ true | _ ↦ false ]

abbrev pub leb : ℕ → ℕ → Bool
leb a b = elim (compare a b) [ Ordering.gt ↦ false | _ ↦ true ]

abbrev pub nat_eq : ℕ → ℕ → Bool
nat_eq a b = elim (compare a b) [ Ordering.eq ↦ true | _ ↦ false ]

infix 1 if◌then◌else◌
abbrev pub if◌then◌else◌ {ℓ} : {A : Type ℓ} → Bool → A → A → A
if true then x else y = x
if false then x else y = y

pub Bool-cases : (b : Bool) → (b ≡ true) ⊎ (b ≡ false)
Bool-cases true = inl refl
Bool-cases false = inr refl

pub Option-cases {ℓ} : {A : Type ℓ} (o : Option A) → (o ≡ none) ⊎ ((a : A) × (o ≡ some a))
Option-cases none = inl refl
Option-cases (some a) = inr (a, refl)

-- `err == nil`, and `err != nil`.
abbrev pub is_none {ℓ} : {A : Type ℓ} → Option A → Bool
is_none none = true
is_none (some _) = false

abbrev pub is_some {ℓ} : {A : Type ℓ} → Option A → Bool
is_some none = false
is_some (some _) = true

-- The first of two errors: what `if err == nil { err = f() }` leaves.
abbrev pub or_else {ℓ} : {A : Type ℓ} → Option A → Option A → Option A
or_else none b = b
or_else (some a) b = some a

-- What holds of both branches of a test, or of both cases of an option, holds of the whole.
pub if_cases {ℓ κ} :
    {A : Type ℓ} (P : A → Type κ) (b : Bool) (x y : A)
    → (b ≡ true → P x)
    → (b ≡ false → P y)
    → P (if b then x else y)
if_cases P true x y hx hy = hx refl
if_cases P false x y hx hy = hy refl

pub option_cases {ℓ κ η} :
    {A : Type ℓ} {B : Type κ} (P : B → Type η) (o : Option A) (x : A → B) (y : B)
    → ((a : A) → o ≡ some a → P (x a))
    → (o ≡ none → P y)
    → P (elim o as (λ _. B) [ none ↦ y | some a ↦ x a ])
option_cases P (some a) x y hx hy = hx a refl
option_cases P none x y hx hy = hy refl

-- Two tests that agree, with a relation between their branches.
pub if_both {ℓ κ η} :
    {A : Type ℓ} {B : Type κ} (P : A → B → Type η) (b c : Bool) (x x' : A) (y y' : B)
    → b ≡ c
    → P x y
    → P x' y'
    → P (if b then x else x') (if c then y else y')
if_both P true true x x' y y' same hx hy = hx
if_both P false false x x' y y' same hx hy = hy
if_both P true false x x' y y' same hx hy = cc
if_both P false true x x' y y' same hx hy = cc
