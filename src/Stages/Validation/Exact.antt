-- ===== src/Stages/Validation/Exact.antt =====
-- What exact arithmetic and a steady clock mean for the limiter of
-- src/pipelinex/stages/validation/rate_limit_validator.py, and the count of accepted records.
use pipelinex.Prelude.{ℕ, suc, ◌*◌, ◌≡◌, Bool, true, false, List, [], ◌∷◌}
use pipelinex.Prelude.Tests.{if◌then◌else◌}
use pipelinex.Prelude.Int.{ℤ, pos, ◌+ℤ◌, ◌-ℤ◌, ◌≤ℤ◌}
use pipelinex.Floats.{Floats, max_of}
use pipelinex.Models.{LogRecord}

module _ (o : Floats) where
  abbrev pub refill : o.Carrier → o.Carrier → o.Carrier → o.Carrier
  refill rate last now = o.mul (max_of o o.zero (o.sub now last)) rate

  -- All values are whole multiples of one unit, and no result is rounded. `gain` is what the rate
  -- has paid up to an instant.
  pub record IsExact (rate : o.Carrier) : Type 0 where
    pub worth : o.Carrier → ℤ
    pub unit : ℕ
    pub gain : o.Carrier → ℤ
    pub worth_of_ℕ : (n : ℕ) → worth (o.of_ℕ n) ≡ pos (n * unit)
    pub worth_add : (a b : o.Carrier) → worth (o.add a b) ≡ worth a +ℤ worth b
    pub worth_sub : (a b : o.Carrier) → worth (o.sub a b) ≡ worth a -ℤ worth b
    pub worth_lt : (a b : o.Carrier) → o.lt a b ≡ true → worth a ≤ℤ worth b
    pub worth_not_lt : (a b : o.Carrier) → o.lt a b ≡ false → worth b ≤ℤ worth a
    pub worth_le : (a b : o.Carrier) → o.le a b ≡ true → worth a ≤ℤ worth b
    pub refill_exact :
        (last now : o.Carrier)
        → o.lt now last ≡ false
        → worth (refill rate last now) ≡ gain now -ℤ gain last
    pub refill_nonneg : (last now : o.Carrier) → pos 0 ≤ℤ worth (refill rate last now)

  -- Each reading is not before the last one.
  abbrev pub Steady : o.Carrier → List (o.Carrier × o.Carrier × LogRecord o.Carrier) → Type 0
  Steady last [] = Unit
  Steady last ((now, later, r) ∷ calls) = (o.lt now last ≡ false) × Steady now calls

  abbrev pub end_of : o.Carrier → List (o.Carrier × o.Carrier × LogRecord o.Carrier) → o.Carrier
  end_of last [] = last
  end_of last ((now, later, r) ∷ calls) = end_of now calls

  abbrev pub accepted : List (LogRecord o.Carrier × Bool) → ℕ
  accepted [] = 0
  accepted ((r, ok) ∷ answers) = if ok then suc (accepted answers) else accepted answers
