-- ===== src/Evaluation/NoFalseAlarm.antt =====
-- A model evaluated on the log that it was trained on, at the default threshold.
use pipelinex.Prelude.{
  ℕ, ◌≡◌, ◌⊎◌, refl, ◌∙◌, ap, String, true, List, [], ◌∷◌, Option, none, some, arith, inl, inr,
}
use pipelinex.Prelude.Tests.{Option-cases}
use pipelinex.Prelude.Lists.{length, All, All-weaken}
use pipelinex.Prelude.Dict.{Dict, lookup, contains}
use pipelinex.Prelude.Equality.{string_eq, =?-cases, =?-self}
use pipelinex.Prelude.Int.{ℤ}
use pipelinex.Floats.{Floats}
use pipelinex.Models.{AnomalyEvent, BlockTrace}
use pipelinex.Detectors.Sequence.{detect_trace}
use pipelinex.Detectors.Sequence.Novelty.{HasShares, ngrams-IsNormal, detect_trace_iff}
use pipelinex.Training.{no_events, parse_log, train}
use pipelinex.Stages.Parsing.{Parsed}
use pipelinex.Evaluation.Log.{collect-parse_log}
use pipelinex.Training.Normal.{Known, train-Known}
use pipelinex.Evaluation.{
  collect, has, without, thin_trace, Scores, no_scores, score_block, score, actual, evaluate,
}
use pipelinex.Evaluation.Counts.{Within}
use pipelinex.Evaluation.Scored.{All-add_once, score-IsScored, no_scores-IsScored}

-- A label is one of the two that the data set has.
abbrev pub HasTwoLabels : Dict String String → Type 0
HasTwoLabels labels =
    (b lab : String) → lookup b labels ≡ some lab → (lab ≡ "Normal") ⊎ (lab ≡ "Anomaly")

has-actual :
    (b : String) (labels : Dict String String) (universe : List String)
    → lookup b labels ≡ some "Anomaly"
    → has universe b ≡ true
    → has (actual labels universe) b ≡ true
has-actual b [] universe h scored = cc
has-actual b ((c, lab) ∷ labels) universe h scored = elim (=?-cases b c) [
  | inl (same, hit) ↦
      let label : lab ≡ "Anomaly" = ground (arith, h, hit) in
      let here : has universe c ≡ true = rw (← same) scored in
      rw (label, same, actual, here) (rw (has, =?-self c) refl)
  | inr (_, miss) ↦
      ground (arith, has-actual b labels universe (ground (arith, h, miss)) scored, miss)
]

without_none : (xs ys : List String) → All (λ x. has ys x ≡ true) xs → length (without xs ys) ≡ 0
without_none [] ys h = refl
without_none (x ∷ xs) ys h = ground (arith, h.0, without_none xs ys h.1)

module _ {F : Type 0} (detect : BlockTrace → Option (AnomalyEvent F)) (run_id now : ℕ)
    (labels : Dict String String) (two : HasTwoLabels labels) where
  -- A normal block is not flagged.
  abbrev pub Quiet : String × List String → Type 0
  Quiet (b, events) =
      lookup b labels ≡ some "Normal" → detect (thin_trace run_id now b events) ≡ none

  abbrev pub IsAlarm : String → Type 0
  IsAlarm b = lookup b labels ≡ some "Anomaly"

  score_block-alarms :
      (b : String) (events : List String) (s : Scores)
      → Quiet (b, events)
      → All IsAlarm s.predicted
      → All IsAlarm ((score_block detect run_id now labels b events s).predicted)
  score_block-alarms b events s quiet h = elim (Option-cases (lookup b labels)) [
    | inl unlabelled ↦ rw (score_block, contains, unlabelled) h
    | inr (lab, labelled) ↦ elim (Option-cases (detect (thin_trace run_id now b events))) [
      | inl silent ↦ rw (score_block, contains, labelled, silent) h
      | inr (anomaly, flagged) ↦ elim (two b lab labelled) [
        | inl normal ↦ let silent = quiet (labelled ∙ ap some normal) in cc
        | inr alarm ↦
            rw (score_block, contains, labelled, flagged)
              (All-add_once IsAlarm b s.predicted (labelled ∙ ap some alarm) h)
      ]
    ]
  ]

  score-alarms :
      (blocks : Dict String (List String)) (s : Scores)
      → All Quiet blocks
      → All IsAlarm s.predicted
      → All IsAlarm ((score detect run_id now labels blocks s).predicted)
  score-alarms [] s quiet h = h
  score-alarms ((b, events) ∷ blocks) s quiet h =
      score-alarms blocks (score_block detect run_id now labels b events s) quiet.1
        (score_block-alarms b events s quiet.0 h)

  alarms-actual :
      (universe xs : List String)
      → All IsAlarm xs
      → Within universe xs
      → All (λ x. has (actual labels universe) x ≡ true) xs
  alarms-actual universe [] alarm scored = tt
  alarms-actual universe (x ∷ xs) alarm scored =
      (has-actual x labels universe alarm.0 scored.0, alarms-actual universe xs alarm.1 scored.1)

  evaluate-Quiet :
      (blocks : Dict String (List String))
      → All Quiet blocks
      → (evaluate detect run_id now labels blocks).0.fp ≡ 0
  unfolding evaluate
  evaluate-Quiet blocks quiet =
      let s = score detect run_id now labels blocks no_scores in
      let h = score-IsScored detect run_id now labels blocks no_scores no_scores-IsScored in
      without_none s.predicted (actual labels s.universe) (
        alarms-actual s.universe s.predicted (score-alarms blocks no_scores quiet tt)
          h.predicted_scored)

evaluate-train :
    (o : Floats) (in_order : List (List String) → List (List String)) (shares : HasShares o) (n : ℤ)
    (uid fresh run_id now : ℕ) (labels : Dict String String)
    (block_events : Dict String (List String))
    → HasTwoLabels labels
    → (evaluate
        (detect_trace o in_order (train n labels block_events) o.zero uid fresh now)
        run_id
        now
        labels
        block_events).0.fp
      ≡ 0
evaluate-train o in_order shares n uid fresh run_id now labels block_events two =
    let model = train n labels block_events in
    let detect = detect_trace o in_order model o.zero uid fresh now in
    evaluate-Quiet detect run_id now labels two block_events (
      All-weaken (Known n labels model.normal_ngrams) (Quiet detect run_id now labels two)
        block_events
        (λ (b, events) known normal.
          let trace = thin_trace run_id now b events in
          (detect_trace_iff o in_order shares model uid fresh now trace).1
            ((ngrams-IsNormal model trace).0 (known normal)))
        (train-Known n labels block_events))

-- Trained on a log and evaluated on the same log and labels at threshold zero, a model raises no
-- false alarm, where each label is Normal or Anomaly and a share of a set is zero only for nothing.
pub evaluate-collect :
    (o : Floats) (in_order : List (List String) → List (List String)) (shares : HasShares o) (n : ℤ)
    (uid fresh run_id now : ℕ) (parse : String → Parsed o.Carrier)
    (patterns : List (String × List String)) (max_lines : Option ℕ) (lines : List String)
    (labels : Dict String String)
    → HasTwoLabels labels
    → let learned = (parse_log parse patterns max_lines 0 lines no_events).block_events in
      let scored = collect parse patterns max_lines 0 lines [] in
      (evaluate
        (detect_trace o in_order (train n labels learned) o.zero uid fresh now)
        run_id
        now
        labels
        scored).0.fp
      ≡ 0
evaluate-collect o in_order shares n uid fresh run_id now parse patterns max_lines lines labels
      two =
    rw (collect-parse_log parse patterns max_lines lines) (
      evaluate-train o in_order shares n uid fresh run_id now labels
        ((parse_log parse patterns max_lines 0 lines no_events).block_events) two)
