-- ===== src/Evaluation/Scored.antt =====
-- The sets that the scoring builds, and what an evaluation reports of them.
use pipelinex.Prelude.{
  ℕ, ◌+◌, ◌≡◌, refl, ap, String, true, false, List, [], ◌∷◌, Option, none, arith, inl, inr,
}
use pipelinex.Prelude.Tests.{◌==◌, if◌then◌else◌, Bool-cases, Option-cases}
use pipelinex.Prelude.Lists.{length, All, All-weaken}
use pipelinex.Prelude.Dict.{Dict, lookup, contains, Distinct}
use pipelinex.Prelude.Equality.{string_eq, =?-self}
use pipelinex.Floats.{Floats}
use pipelinex.Models.{AnomalyEvent, BlockTrace}
use pipelinex.Evaluation.{
  precision, recall, has, add_once, thin_trace, Scores, no_scores, score_block, score, actual,
  evaluate,
}
use pipelinex.Evaluation.Counts.{NoRepeat, Within, confusion-SharesOut}

-- The sets that the scoring builds.
pub record IsScored (s : Scores) : Type 0 where
  pub each_predicted_once : NoRepeat s.predicted
  pub each_scored_once : NoRepeat s.universe
  pub predicted_scored : Within s.universe s.predicted

pub no_scores-IsScored : IsScored no_scores
no_scores-IsScored = record {
  each_predicted_once = tt;
  each_scored_once = tt;
  predicted_scored = tt;
}

pub add_once-NoRepeat : (x : String) (xs : List String) → NoRepeat xs → NoRepeat (add_once x xs)
add_once-NoRepeat x xs h = elim (Bool-cases (has xs x)) [
  | inl there ↦ rw (add_once, there) h
  | inr new ↦ rw (add_once, new) (new, h)
]

has-add_once :
    (x : String) (xs : List String) (y : String) → has xs y ≡ true → has (add_once x xs) y ≡ true
has-add_once x xs y h = elim (Bool-cases (has xs x)) [
  | inl there ↦ rw (add_once, there) h
  | inr new ↦ rw (add_once, new) (ground (arith, h))
]

has-add_once_self : (x : String) (xs : List String) → has (add_once x xs) x ≡ true
has-add_once_self x xs = elim (Bool-cases (has xs x)) [
  | inl there ↦ rw (add_once, there) there
  | inr new ↦ rw (add_once, new) (rw (has, =?-self x) refl)
]

Within-add_once :
    (x : String) (universe xs : List String) → Within universe xs → Within (add_once x universe) xs
Within-add_once x universe xs h =
    All-weaken (λ y. has universe y ≡ true) _ xs (λ y here. has-add_once x universe y here) h

-- One more member, for any property of the members.
pub All-add_once :
    (P : String → Type 0) (x : String) (xs : List String) → P x → All P xs → All P (add_once x xs)
All-add_once P x xs here h = elim (Bool-cases (has xs x)) [
  | inl there ↦ rw (add_once, there) h
  | inr new ↦ rw (add_once, new) (here, h)
]

module _ {F : Type 0} (detect : BlockTrace → Option (AnomalyEvent F)) (run_id now : ℕ)
    (labels : Dict String String) where
  score_block-IsScored :
      (b : String) (events : List String) (s : Scores)
      → IsScored s
      → IsScored (score_block detect run_id now labels b events s)
  score_block-IsScored b events s h = elim (Bool-cases (contains b labels)) [
    | inr unlabelled ↦ rw (score_block, unlabelled) h
    | inl labelled ↦ elim (Option-cases (detect (thin_trace run_id now b events))) [
      | inl quiet ↦
          rw (score_block, labelled, quiet)
            (record {
              each_predicted_once = h.each_predicted_once;
              each_scored_once = add_once-NoRepeat b s.universe h.each_scored_once;
              predicted_scored = Within-add_once b s.universe s.predicted h.predicted_scored;
            })
      | inr (anomaly, flagged) ↦
          rw (score_block, labelled, flagged)
            (record {
              each_predicted_once = add_once-NoRepeat b s.predicted h.each_predicted_once;
              each_scored_once = add_once-NoRepeat b s.universe h.each_scored_once;
              predicted_scored =
                  All-add_once (λ y. has (add_once b s.universe) y ≡ true) b s.predicted
                    (has-add_once_self b s.universe)
                    (Within-add_once b s.universe s.predicted h.predicted_scored);
            })
    ]
  ]

  pub score-IsScored :
      (blocks : Dict String (List String)) (s : Scores)
      → IsScored s
      → IsScored (score detect run_id now labels blocks s)
  score-IsScored [] s h = h
  score-IsScored ((b, events) ∷ blocks) s h =
      score-IsScored blocks (score_block detect run_id now labels b events s)
        (score_block-IsScored b events s h)

actual-Within :
    (labels : Dict String String) (universe : List String)
    → Within universe (actual labels universe)
actual-Within [] universe = tt
actual-Within ((b, lab) ∷ labels) universe = ground (arith, actual-Within labels universe)

has-actual_absent :
    (b : String) (labels : Dict String String) (universe : List String)
    → lookup b labels ≡ none
    → has (actual labels universe) b ≡ false
has-actual_absent b [] universe h = refl
has-actual_absent b ((c, lab) ∷ labels) universe h =
    ground (arith, has-actual_absent b labels universe)

actual-NoRepeat :
    (labels : Dict String String) (universe : List String)
    → Distinct labels
    → NoRepeat (actual labels universe)
actual-NoRepeat [] universe h = tt
actual-NoRepeat ((b, lab) ∷ labels) universe h =
    ground (arith, actual-NoRepeat labels universe h.1, has-actual_absent b labels universe h.0)

-- A share of a number, which is zero of nothing.
abbrev pub share : (o : Floats) → ℕ → ℕ → o.Carrier
share o part whole = if whole == 0 then o.zero else o.div (o.of_ℕ part) (o.of_ℕ whole)

-- The four counts of an evaluation add up to the number of blocks scored, precision is the share of
-- the true alarms in the alarms, and recall their share in the anomalies that were scored, where no
-- block has two labels.
evaluate_total :
    (o : Floats) {F : Type 0} (detect : BlockTrace → Option (AnomalyEvent F)) (run_id now : ℕ)
    (labels : Dict String String) (block_events : Dict String (List String))
    → Distinct labels
    → let s = score detect run_id now labels block_events no_scores in
      let (m, blocks_scored) = evaluate detect run_id now labels block_events in
      (m.tp + m.fp + m.tn + m.fn ≡ blocks_scored)
      × (precision o m ≡ share o m.tp (length s.predicted))
      × (recall o m ≡ share o m.tp (length (actual labels s.universe)))
unfolding evaluate
evaluate_total o detect run_id now labels block_events once =
    let s = score detect run_id now labels block_events no_scores in
    let h = score-IsScored detect run_id now labels block_events no_scores no_scores-IsScored in
    let (total, found, alarms) =
      confusion-SharesOut s.predicted (actual labels s.universe) s.universe h.each_predicted_once
        (actual-NoRepeat labels s.universe once) h.each_scored_once h.predicted_scored
        (actual-Within labels s.universe) in
    (total, ap (share o _) alarms, ap (share o _) found)
