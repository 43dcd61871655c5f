-- ===== src/Stages/Validation/Tests.antt =====
-- Witness of the rate limiter's theorem: two sources that share a limiter.
use pipelinex.Prelude.{refl, arith, ℕ, ◌+◌, ◌-◌, ◌*◌, ◌/◌, String, List, [], ◌∷◌, none}
use pipelinex.Prelude.Tests.{ltb, leb, ◌==◌}
use pipelinex.Prelude.Int.{pos_part}
use pipelinex.Prelude.Int.{ℤ, pos, ◌+ℤ◌, ◌≤ℤ◌, -ℤ_parts, eq_of_parts}
use pipelinex.Floats.{Floats}
use pipelinex.Detectors.Tests.{hundredths, signed, differ, is_negative, size_of}
use pipelinex.Stages.Validation.Bound.{accepted-capacity}
use pipelinex.Stages.Validation.Exact.{IsExact, accepted}
use pipelinex.Models.{Severity, LogRecord}
use pipelinex.Stages.Validation.RateLimit.{Limiter, run, answers_of}

-- Whole numbers that stop at zero.
abbrev wholes : Floats
wholes = record {
  Carrier = ℕ;
  zero = 0;
  quarter = 0;
  three_quarters = 1;
  tiny = 1;
  of_int = pos_part;
  of_ℕ = λ n. n;
  to_ℕ = λ n. n;
  add = ◌+◌;
  sub = ◌-◌;
  mul = ◌*◌;
  div = λ a b. a / (b + 1);
  square = λ a. a * a;
  sqrt = λ a. a;
  root = λ a. a;
  abs = λ a. a;
  total = sum_of;
  lt = ltb;
  le = leb;
  eq = ◌==◌;
}
  where
    sum_of : List ℕ → ℕ
    sum_of [] = 0
    sum_of (x ∷ xs) = x + sum_of xs

abbrev sample : String → LogRecord ℕ
sample source = record {
  id = 5;
  pipeline_run_id = none;
  timestamp = none;
  source = source;
  severity = Severity.info;
  message = "m";
  raw_payload = [];
  enrichment = [];
  stage_history = [];
}

abbrev limiter : Limiter wholes
limiter = record { capacity = 1; refill_per_sec = 1; buckets = [] }

abbrev calls : List (ℕ × ℕ × LogRecord ℕ)
calls =
    (0, 0, sample "a")
    ∷ (0, 0, sample "b")
    ∷ (0, 0, sample "a")
    ∷ (1, 1, sample "")
    ∷ (1, 1, sample "a")
    ∷ []

-- Whole numbers with a sign: no result is rounded.
abbrev integers : Floats
integers = record hundredths {
  of_ℕ = pos;
  mul = λ a b. signed (differ (is_negative a) (is_negative b)) (size_of a * size_of b);
}

integers-IsExact : IsExact integers (pos 1)
integers-IsExact = record {
  worth = λ a. a;
  unit = 1;
  gain = λ a. a;
  worth_of_ℕ = λ n. ground arith;
  worth_add = λ a b. refl;
  worth_sub = λ a b. refl;
  worth_lt = λ a b h. ground arith;
  worth_not_lt = λ a b h. ground arith;
  worth_le = λ a b h. ground arith;
  refill_exact = λ last now h. eq_of_parts _ _ (ground (arith, -ℤ_parts now last));
  refill_nonneg = λ last now. ground (arith, -ℤ_parts now last);
}

abbrev exact_limiter : Limiter integers
exact_limiter = record { capacity = 1; refill_per_sec = pos 1; buckets = [] }

abbrev signed_sample : String → LogRecord ℤ
signed_sample source = record {
  id = 5;
  pipeline_run_id = none;
  timestamp = none;
  source = source;
  severity = Severity.info;
  message = "m";
  raw_payload = [];
  enrichment = [];
  stage_history = [];
}

abbrev exact_calls : List (ℤ × ℤ × LogRecord ℤ)
exact_calls =
    (pos 0, pos 0, signed_sample "a")
    ∷ (pos 0, pos 0, signed_sample "b")
    ∷ (pos 0, pos 0, signed_sample "a")
    ∷ (pos 2, pos 2, signed_sample "a")
    ∷ []

accepted-capacity_example :
    pos (
        accepted integers (answers_of integers "a" ((run integers exact_limiter exact_calls).1))
        * 1)
      +ℤ pos 0
    ≤ℤ pos (1 * 1) +ℤ pos 2
unfolding integers-IsExact
accepted-capacity_example =
    accepted-capacity integers exact_limiter integers-IsExact "a" exact_calls (pos 0) (pos 0)
      (signed_sample "a")
      ((pos 0, pos 0, signed_sample "a") ∷ (pos 2, pos 2, signed_sample "a") ∷ []) refl
      (refl, (refl, tt)) refl
