-- ===== src/Prelude/Equality.antt =====
-- Boolean equality as an interface, with its instances for numbers and texts.
use Prim.Native.Nat.{ℕ}
use Prim.Native.String.{String}
use mathlib.Core.Bool.{Bool, true, false}
use mathlib.Core.Logic.{◌↔◌, ◌≢◌, ◌⊎◌, inl, inr}
use mathlib.Core.Path.{◌≡◌, refl}
use native.Mathlib.Omega.{arith}
use text.Mathlib.Text.{◌==◌ as str_eq}
use text.Mathlib.TextEquality.{eq_iff}
use pipelinex.Prelude.Tests.{==_iff, ◌==◌ as nat_beq}

pub record Eq {ℓ} (A : Type ℓ) : Type ℓ where
  pub beq : A → A → Bool
  pub beq_iff : (a b : A) → (beq a b ≡ true) ↔ (a ≡ b)

infix 50 ◌=?◌
abbrev pub ◌=?◌ {ℓ} : {A : Type ℓ} ⦃e : Eq A⦄ → A → A → Bool
◌=?◌ ⦃e⦄ = e.beq

instance abbrev pub nat_eq : Eq ℕ
nat_eq = record { beq = nat_beq; beq_iff = ==_iff }

instance abbrev pub string_eq : Eq String
string_eq = record { beq = str_eq; beq_iff = eq_iff }

module _ {ℓ} {A : Type ℓ} ⦃e : Eq A⦄ where
  pub =?-self : (a : A) → (a =? a) ≡ true
  =?-self a = (e.beq_iff a a).1 refl

  pub =?-ne : (a b : A) → a ≢ b → (a =? b) ≡ false
  =?-ne a b h = ground (arith, e.beq_iff a b)

  -- A split on whether two keys are equal, with the test's value.
  pub =?-cases : (a b : A) → ((a ≡ b) × ((a =? b) ≡ true)) ⊎ ((a ≢ b) × ((a =? b) ≡ false))
  =?-cases a b = go (a =? b) refl
    where
      go :
          (t : Bool) → (a =? b) ≡ t → ((a ≡ b) × ((a =? b) ≡ true)) ⊎ ((a ≢ b) × ((a =? b) ≡ false))
      go true h = inl ((e.beq_iff a b).0 h, h)
      go false h = inr (ground (arith, e.beq_iff a b), h)
