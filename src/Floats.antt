-- ===== src/Floats.antt =====
-- Python's floats as an interface: the operations that the detectors use, and what they rely on.
-- `total` stands for `sum`, `root` for `** 0.5`, `to_ℕ` for `int()` of a value that is not negative.
pub mod Sorted
use pipelinex.Prelude.{[], ◌∷◌, ℕ, ◌≡◌, Bool, true, false, List, ◌↔◌}
use pipelinex.Prelude.Tests.{if◌then◌else◌}
use pipelinex.Prelude.Int.{ℤ}

pub record Floats : Type 1 where
  pub Carrier : Type 0
  pub zero : Carrier
  pub quarter : Carrier
  pub three_quarters : Carrier
  pub tiny : Carrier
  pub of_int : ℤ → Carrier
  pub of_ℕ : ℕ → Carrier
  pub to_ℕ : Carrier → ℕ
  pub add : Carrier → Carrier → Carrier
  pub sub : Carrier → Carrier → Carrier
  pub mul : Carrier → Carrier → Carrier
  pub div : Carrier → Carrier → Carrier
  pub square : Carrier → Carrier
  pub sqrt : Carrier → Carrier
  pub root : Carrier → Carrier
  pub abs : Carrier → Carrier
  pub total : List Carrier → Carrier
  pub lt : Carrier → Carrier → Bool
  pub le : Carrier → Carrier → Bool
  pub eq : Carrier → Carrier → Bool

-- `max(a, b)`
abbrev pub max_of : (o : Floats) → o.Carrier → o.Carrier → o.Carrier
max_of o a b = if o.lt a b then b else a

-- `bisect.insort`: after the values that are not larger.
abbrev pub insort : (o : Floats) → o.Carrier → List o.Carrier → List o.Carrier
insort o x [] = x ∷ []
insort o x (y ∷ ys) = if o.lt x y then x ∷ y ∷ ys else y ∷ insort o x ys

-- The comparisons are those of a total order: the values hold no NaN, and zero has one sign.
pub record IsOrder (o : Floats) : Type 0 where
  pub lt_asym : (a b : o.Carrier) → o.lt a b ≡ true → o.lt b a ≡ false
  pub lt_irrefl : (a : o.Carrier) → o.lt a a ≡ false
  pub le_trans : (a b c : o.Carrier) → o.lt b a ≡ false → o.lt c b ≡ false → o.lt c a ≡ false
  pub le_antisym : (a b : o.Carrier) → o.lt a b ≡ false → o.lt b a ≡ false → a ≡ b
  pub eq_iff : (a b : o.Carrier) → (o.eq a b ≡ true) ↔ (a ≡ b)
  pub le_iff : (a b : o.Carrier) → (o.le a b ≡ true) ↔ (o.lt b a ≡ false)
