-- ===== src/Evaluation/Bgl/Tests.antt =====
-- The evaluation of the point detectors on a log of five lines.
use pipelinex.Prelude.{ℕ, zero, suc, String, true, List, [], ◌∷◌, none, some, ◌≡◌, refl, arith}
use pipelinex.Prelude.Tests.{if◌then◌else◌}
use pipelinex.Prelude.Equality.{◌=?◌, nat_eq, string_eq}
use pipelinex.Prelude.Int.{ℤ}
use pipelinex.Exceptions.{ErrorKind}
use pipelinex.Models.{Severity, Value, LogRecord}
use pipelinex.Stages.Parsing.{Parsed}
use pipelinex.Evaluation.Bgl.{Aggregate, no_windows, window_start, aggregate}
use pipelinex.Evaluation.Bgl.Bins.{sightings, IsTally, aggregate-IsTally}

abbrev stamped_record : ℕ → String → LogRecord ℤ
stamped_record ts label = record {
  id = 1;
  pipeline_run_id = none;
  timestamp = some ts;
  source = "";
  severity = Severity.info;
  message = "";
  raw_payload = [];
  enrichment = ("bgl_label", Value.text label) ∷ [];
  stage_history = [];
}

-- Lines of three kinds, one that does not parse stands_in them.
abbrev parse_any : String → Parsed ℤ
parse_any raw =
    if raw =? "bad"
    then Parsed.rejects ErrorKind.parser_error
    else if raw =? "alert"
    then Parsed.parses (stamped_record 125000007 "KERNEL")
    else Parsed.parses (stamped_record 61000000 "-")

abbrev lines : List String
lines = "fine\n" ∷ "bad\n" ∷ "\n" ∷ "alert\n" ∷ "fine" ∷ []

-- Windows of 45 seconds: one from the minute's start, and one of 15 seconds.
short_windows : (window_start 45 125000007 ≡ 120000000) × (window_start 45 110000000 ≡ 105000000)
unfolding window_start
short_windows = (refl, refl)

-- A window of two hours is one of an hour.
long_windows : window_start 7200 7500000000 ≡ 7200000000
unfolding window_start
long_windows = refl

aggregate-IsTally_example :
    (s : Aggregate) × (aggregate parse_any 60 (some 5) 0 lines no_windows ≡ some s)
    × IsTally s (sightings parse_any 60 (some 5) 0 lines)
aggregate-IsTally_example = aggregate-IsTally parse_any 60 (some 5) lines (omega arith)

counted :
    aggregate parse_any 60 none 0 lines no_windows
    ≡ some (record {
      bins = (60000000, 2) ∷ (120000000, 1) ∷ [];
      labels = (120000000, true) ∷ [];
      n_skipped = 1;
    })
unfolding aggregate window_start
counted = refl

-- A text for each instant.
abbrev ticks : ℕ → String
ticks zero = ""
ticks (suc n) = String.◌∷◌ "x" (ticks n)
