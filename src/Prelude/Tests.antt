-- ===== src/Prelude/Tests.antt =====
-- Boolean tests on the native numbers, the conditional, and splits on computed values.
use Prim.Native.Nat.{ℕ, ◌≤◌, ◌<◌, compare, Ordering}
use mathlib.Core.Path.{◌≡◌, refl}
use mathlib.Core.Logic.{◌↔◌, ◌⊎◌, inl, inr}
use mathlib.Core.Bool.{Bool, true, false}
use mathlib.Core.Option.{Option, none, some}
use native.Mathlib.Omega.{arith}

abbrev pub ltb : ℕ → ℕ → Bool
ltb a b = elim (compare a b) [ Ordering.lt ↦ true | _ ↦ false ]

abbrev pub leb : ℕ → ℕ → Bool
leb a b = elim (compare a b) [ Ordering.gt ↦ false | _ ↦ true ]

infix 50 ◌==◌
abbrev pub ◌==◌ : ℕ → ℕ → Bool
a == b = elim (compare a b) [ Ordering.eq ↦ true | _ ↦ false ]

infix 1 if◌then◌else◌
abbrev pub if◌then◌else◌ {ℓ} : {A : Type ℓ} → Bool → A → A → A
if true then x else y = x
if false then x else y = y

pub ltb→lt : (a b : ℕ) → ltb a b ≡ true → a < b
ltb→lt a b h = ground arith

pub leb→le : (a b : ℕ) → leb a b ≡ true → a ≤ b
leb→le a b h = ground arith

pub ==_iff : (a b : ℕ) → ((a == b) ≡ true) ↔ (a ≡ b)
==_iff a b = ground arith

pub ==_refl : (a : ℕ) → (a == a) ≡ true
==_refl a = ground arith

pub Bool-cases : (b : Bool) → (b ≡ true) ⊎ (b ≡ false)
Bool-cases true = inl refl
Bool-cases false = inr refl

pub Option-cases {ℓ} : {A : Type ℓ} (o : Option A) → (o ≡ none) ⊎ ((a : A) × (o ≡ some a))
Option-cases none = inl refl
Option-cases (some a) = inr (a, refl)

-- Equality of values, as a dataclass or a pydantic model compares them: field by field.
pub record Equality (A : Type 0) : Type 0 where
  pub decide : Discrete A

unfoldable pub same : {A : Type 0} ⦃e : Equality A⦄ → A → A → Bool
same ⦃e⦄ a b = elim (e.decide a b) [ yes _ ↦ true | no _ ↦ false ]

pub same→eq : {A : Type 0} ⦃e : Equality A⦄ (a b : A) → same a b ≡ true → a ≡ b
unfolding same
same→eq ⦃e⦄ a b h =
    elim (e.decide a b)
        as (λ d. elim d as (λ _. Bool) [ yes _ ↦ true | no _ ↦ false ] ≡ true → a ≡ b) [
          | yes p ↦ λ _. p
          | no _ ↦ λ k. absurd (ground arith)
        ]
      h

pub same_refl : {A : Type 0} ⦃e : Equality A⦄ (a : A) → same a a ≡ true
unfolding same
same_refl ⦃e⦄ a =
    elim (e.decide a a) as (λ d. elim d as (λ _. Bool) [ yes _ ↦ true | no _ ↦ false ] ≡ true) [
      | yes _ ↦ refl
      | no differs ↦ absurd (differs refl)
    ]
