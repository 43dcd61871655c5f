-- ===== src/Stages/Tests.antt =====
-- Witnesses of the stages' theorems, on a small record.
use pipelinex.Prelude.{ℕ, suc, ◌+◌, ◌≡◌, ◌⊎◌, refl, String, List, [], ◌∷◌, none, some}
use pipelinex.Prelude.Tests.{◌==◌, ltb, if◌then◌else◌}
use pipelinex.Exceptions.{ErrorKind}
use pipelinex.Models.{Severity, Value, LogRecord}
use pipelinex.Stages.{Outcome, Stage}
use pipelinex.Stages.Retry
use pipelinex.Prelude.Int.{ℤ, pos}
use pipelinex.Stages.Validation
use pipelinex.Stages.Parsing

abbrev sample : String → LogRecord ℕ
sample source = record {
  id = 5;
  pipeline_run_id = some 1;
  timestamp = none;
  source = source;
  severity = Severity.info;
  message = "m";
  raw_payload = ("raw", Value.text "line") ∷ [];
  enrichment = ("host", Value.text "h") ∷ [];
  stage_history = "parse" ∷ [];
}

-- A stage that fails twice before it returns, and counts its calls.
abbrev flaky : Stage ℕ ℕ
flaky calls r = (
  suc calls,
  if ltb calls 2 then Outcome.raised ErrorKind.transient_stage_error r else Outcome.returned r,
)

third_time :
    Retry.process (λ n. n) flaky 3 0 (sample "a")
    ≡ some (3, Outcome.returned (sample "a"), 1 ∷ 2 ∷ [])
unfolding Retry.process
third_time = refl

process-StopsAt_example :
    (k : ℕ) × Retry.StopsAt (λ n. n) flaky 3 3 k 0 (sample "a")
    × (Retry.process (λ n. n) flaky 3 0 (sample "a")
        ≡ some (
          (Retry.attempt_at (λ n. n) flaky 3 k 0 (sample "a")).0,
          (Retry.attempt_at (λ n. n) flaky 3 k 0 (sample "a")).1,
          Retry.sleeps_from (λ n. n) 0 k,
        ))
process-StopsAt_example = Retry.process-StopsAt (λ n. n) flaky 3 0 (sample "a")

-- A validator that counts its calls, and one that refuses.
abbrev counts : Validation.Validator ℕ ℕ
counts n r = (suc n, Validation.passed "counts")

abbrev refuses : Validation.Validator ℕ ℕ
refuses n r = (n + 10, Validation.refused "no" "refuses")

abbrev chain : List (Validation.Validator ℕ ℕ)
chain = counts ∷ refuses ∷ counts ∷ []

process_lem_example :
    (Validation.AllPass chain 0 (sample "a")
      × (Validation.process chain 0 (sample "a")
          ≡ (Validation.all_run chain 0 (sample "a"), Outcome.returned (sample "a"))))
    ⊎ ((st : Validation.StopsIn chain 0 (sample "a")) × (Validation.process chain 0 (sample "a") ≡ (
      (st.at (Validation.all_run st.before 0 (sample "a")) (sample "a")).0,
      Outcome.raised ErrorKind.validation_error (sample "a"),
    )))
process_lem_example = Validation.process_lem chain 0 (sample "a")

abbrev parser : String → Parsing.Parsed ℕ
parser raw = Parsing.Parsed.parses (record (sample "parsed") { id = 9; enrichment = [] })

process-Handles_example : Parsing.Handles parser (sample "a") (Parsing.process parser (sample "a"))
process-Handles_example = Parsing.process-Handles parser (sample "a")

-- A stage of timed calls that raises at the second.
abbrev second_raises : Stage ℕ ℤ
second_raises calls r =
    (suc calls, if calls == 1 then Outcome.raised ErrorKind.other r else Outcome.returned r)

abbrev timed : LogRecord ℤ
timed = record {
  id = 1;
  pipeline_run_id = none;
  timestamp = none;
  source = "s";
  severity = Severity.info;
  message = "m";
  raw_payload = [];
  enrichment = [];
  stage_history = [];
}

abbrev timed_calls : List (ℤ × LogRecord ℤ)
timed_calls = (pos 3, timed) ∷ (pos 4, timed) ∷ []
