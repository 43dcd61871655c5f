-- ===== src/Evaluation/Tests.antt =====
-- Witnesses of the theorems on training and evaluation, on a log of three blocks.
use pipelinex.Prelude.{◌≡◌, refl, String, List, [], ◌∷◌, Option, none, some, arith}
use pipelinex.Prelude.Tests.{if◌then◌else◌}
use pipelinex.Prelude.Dict.{Dict}
use pipelinex.Prelude.Equality.{string_eq, ◌=?◌}
use pipelinex.Prelude.Int.{ℤ, pos}
use pipelinex.Exceptions.{ErrorKind}
use pipelinex.Models.{Severity, Value, AnomalyEvent, BlockTrace}
use pipelinex.Stages.Parsing.{Parsed}
use pipelinex.Detectors.Tests.{shares_kept, shares_kept-HasShares, unordered}
use pipelinex.Detectors.Sequence.{detect_trace, ngrams}
use pipelinex.Templates.{compile_templates, split_wildcards, match_pattern, match_rest}
use pipelinex.Prelude.Text.{expect}
use pipelinex.Training.{no_events, parse_log, train}
use pipelinex.Evaluation.{collect, evaluate}
use pipelinex.Evaluation.NoFalseAlarm.{HasTwoLabels, evaluate-collect}

abbrev block_labels : Dict String String
block_labels = ("a", "Normal") ∷ ("b", "Anomaly") ∷ ("d", "Normal") ∷ []

abbrev block_events : Dict String (List String)
block_events =
    ("a", "E1" ∷ "E2" ∷ "E3" ∷ []) ∷ ("b", "E1" ∷ "E3" ∷ []) ∷ ("c", "E3" ∷ "E1" ∷ []) ∷ []

abbrev detector : BlockTrace → Option (AnomalyEvent ℤ)
detector =
    detect_trace shares_kept unordered (train (pos 2) block_labels block_events) (pos 0) 1 2 5

-- The anomaly is found, the other block is passed, and the block without a label is left out.
counted :
    evaluate detector 4 5 block_labels block_events ≡ (record { tp = 1; fp = 0; tn = 1; fn = 0 }, 2)
unfolding evaluate detect_trace ngrams
counted = refl

-- A parser that takes a line for the message of block a.
abbrev parse_any : String → Parsed ℤ
parse_any raw =
    if raw =? "bad"
    then Parsed.rejects ErrorKind.parser_error
    else Parsed.parses (record {
      id = 0;
      pipeline_run_id = none;
      timestamp = none;
      source = "";
      severity = Severity.info;
      message = raw;
      raw_payload = [];
      enrichment = ("block_id", Value.text "a") ∷ [];
      stage_history = [];
    })

abbrev lines : List String
lines = "Got 1\n" ∷ "\n" ∷ "bad\n" ∷ "Sent 2\n" ∷ "Got 3" ∷ []

abbrev patterns : List (String × List String)
patterns = compile_templates ((some "E1", some "Got <*>") ∷ (some "E2", some "Sent <*>") ∷ [])

learned_two : HasTwoLabels (("a", "Normal") ∷ [])
learned_two b lab h = ground (arith, h)

evaluate-collect_example :
    (evaluate
      (detect_trace shares_kept unordered
        (train
          (pos 2)
          (("a", "Normal") ∷ [])
          ((parse_log parse_any patterns (some 4) 0 lines no_events).block_events))
        (pos 0)
        1
        2
        5)
      4
      5
      (("a", "Normal") ∷ [])
      (collect parse_any patterns (some 4) 0 lines [])).0.fp
    ≡ 0
evaluate-collect_example =
    evaluate-collect shares_kept unordered shares_kept-HasShares (pos 2) 1 2 4 5 parse_any patterns
      (some 4) lines (("a", "Normal") ∷ []) learned_two

collected : collect parse_any patterns (some 4) 0 lines [] ≡ ("a", "E1" ∷ "E2" ∷ []) ∷ []
unfolding split_wildcards match_pattern match_rest expect
collected = refl
