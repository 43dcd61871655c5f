-- ===== src/Evaluation.antt =====
-- scripts/evaluate_hdfs_sequence.py and scripts/_eval_common.py. A set is a list without
-- repetition. The verdict on a trace is an argument, and so are the identifier and the instant of
-- the thin traces.
pub mod Counts
pub mod Scored
pub mod NoFalseAlarm
pub mod Log
pub mod Bgl
mod Tests
use pipelinex.Prelude.{
  ℕ, suc, ◌+◌, String, Bool, true, false, not, List, [], ◌∷◌, ◌++◌, Option, none, some,
}
use pipelinex.Prelude.Tests.{if◌then◌else◌, leb, ◌==◌}
use pipelinex.Prelude.Lists.{length, keep_if}
use pipelinex.Prelude.Dict.{Dict, lookup, contains}
use pipelinex.Prelude.Equality.{◌=?◌, string_eq}
use pipelinex.Floats.{Floats}
use pipelinex.Models.{LogRecord, AnomalyEvent, BlockTrace, ClosedReason}
use pipelinex.Stages.Parsing.{Parsed}
use pipelinex.Templates.{match_event_id}
use pipelinex.Training.{text_at, rstrip_feed, append_event, capped}

abbrev pub has : List String → String → Bool
has [] x = false
has (y ∷ ys) x = if x =? y then true else has ys x

-- `s.add(x)`
abbrev pub add_once : String → List String → List String
add_once x xs = if has xs x then xs else x ∷ xs

pub record ConfusionMatrix : Type 0 where
  pub tp : ℕ
  pub fp : ℕ
  pub tn : ℕ
  pub fn : ℕ

abbrev pub without : List String → List String → List String
without xs ys = keep_if (λ x. not (has ys x)) xs

abbrev pub confusion : List String → List String → List String → ConfusionMatrix
confusion predicted actual universe = record {
  tp = length (keep_if (has actual) predicted);
  fp = length (without predicted actual);
  tn = length (without (without universe predicted) actual);
  fn = length (without actual predicted);
}

module _ (o : Floats) where
  abbrev pub precision : ConfusionMatrix → o.Carrier
  precision m =
      let denom = m.tp + m.fp in if denom == 0 then o.zero else o.div (o.of_ℕ m.tp) (o.of_ℕ denom)

  abbrev pub recall : ConfusionMatrix → o.Carrier
  recall m =
      let denom = m.tp + m.fn in if denom == 0 then o.zero else o.div (o.of_ℕ m.tp) (o.of_ℕ denom)

  abbrev pub f1 : ConfusionMatrix → o.Carrier
  f1 m =
      let p = precision m in
      let r = recall m in
      if o.eq (o.add p r) o.zero then o.zero else o.div (o.mul (o.mul (o.of_ℕ 2) p) r) (o.add p r)

-- The parsing loop: the events of each block.
abbrev pub collect_event :
    Option String → Option String → Dict String (List String) → Dict String (List String)
collect_event (some block_id) (some event_id) d = append_event block_id event_id d
collect_event (some block_id) none d = d
collect_event none event_id d = d

module _ {F : Type 0} where
  abbrev pub collect_parsed :
      List (String × List String) → Parsed F → Dict String (List String) → Dict String (List String)
  collect_parsed patterns (Parsed.rejects kind) d = d
  collect_parsed patterns (Parsed.parses r) d =
      collect_event (text_at "block_id" r) (match_event_id patterns r.message) d

  abbrev pub collect_line :
      (String → Parsed F)
      → List (String × List String)
      → String
      → Dict String (List String)
      → Dict String (List String)
  collect_line parse patterns line d =
      let raw = rstrip_feed line in if raw =? "" then d else collect_parsed patterns (parse raw) d

  abbrev pub collect :
      (String → Parsed F)
      → List (String × List String)
      → Option ℕ
      → ℕ
      → List String
      → Dict String (List String)
      → Dict String (List String)
  collect parse patterns max_lines i [] d = d
  collect parse patterns max_lines i (line ∷ lines) d =
      let rest =
        collect parse patterns max_lines (suc i) lines (collect_line parse patterns line d) in
      if capped max_lines i then d else rest

-- The trace that a block is scored by.
abbrev pub thin_trace : ℕ → ℕ → String → List String → BlockTrace
thin_trace run_id now block_id events = record {
  block_id = block_id;
  event_sequence = events;
  record_ids = [];
  first_timestamp = now;
  last_timestamp = now;
  record_count = length events;
  pipeline_run_id = run_id;
  closed_reason = ClosedReason.terminal;
}

pub record Scores : Type 0 where
  pub predicted : List String
  pub universe : List String

abbrev pub no_scores : Scores
no_scores = record { predicted = []; universe = [] }

module _ {F : Type 0} (detect : BlockTrace → Option (AnomalyEvent F)) (run_id now : ℕ) where
  abbrev pub score_block : Dict String String → String → List String → Scores → Scores
  score_block labels block_id events s =
      if contains block_id labels
      then record {
        predicted = elim (detect (thin_trace run_id now block_id events)) [
          | none ↦ s.predicted
          | some anomaly ↦ add_once block_id s.predicted
        ];
        universe = add_once block_id s.universe;
      }
      else s

  abbrev pub score : Dict String String → Dict String (List String) → Scores → Scores
  score labels [] s = s
  score labels ((block_id, events) ∷ blocks) s =
      score labels blocks (score_block labels block_id events s)

-- The blocks of the universe that are labelled anomalies.
abbrev pub actual : Dict String String → List String → List String
actual [] universe = []
actual ((b, lab) ∷ labels) universe =
    let more = actual labels universe in
    if lab =? "Anomaly" then if has universe b then b ∷ more else more else more

module _ {F : Type 0} (detect : BlockTrace → Option (AnomalyEvent F)) (run_id now : ℕ) where
  -- The confusion matrix of a log, with the number of blocks scored.
  unfoldable pub evaluate : Dict String String → Dict String (List String) → ConfusionMatrix × ℕ
  evaluate labels block_events =
      let s = score detect run_id now labels block_events no_scores in
      (confusion s.predicted (actual labels s.universe) s.universe, length s.universe)
