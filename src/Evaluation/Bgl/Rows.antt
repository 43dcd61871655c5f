-- ===== src/Evaluation/Bgl/Rows.antt =====
-- The rows that scripts/evaluate_bgl_point.py reports for a log.
use pipelinex.Prelude.{ℕ, ◌+◌, String, not, List, [], ◌∷◌, Option, ◌≡◌}
use pipelinex.Prelude.Tests.{◌==◌}
use pipelinex.Prelude.Lists.{length, keep_if, total}
use pipelinex.Prelude.Equality.{nat_eq}
use pipelinex.Floats.{Floats}
use pipelinex.Evaluation.Bgl.{DetectorRow, z_score_setup, iqr_setup, cusum_setup}
use pipelinex.Detectors.ZScore
use pipelinex.Detectors.Iqr
use pipelinex.Detectors.Cusum
use pipelinex.Models.{LogRecord, AnomalyEvent}
use pipelinex.Evaluation.Bgl.Bins.{Sighting, in_window, alert_in}
use pipelinex.Evaluation.Bgl.Alarms.{stands_in, Once}
use pipelinex.Evaluation.Bgl.Flagged.{flagged}

-- The windows of a list of lines, each once.
pub record AreWindows (keys : List ℕ) (xs : List Sighting) : Type 0 where
  pub each_once : Once keys
  pub with_lines : (k : ℕ) → stands_in k keys ≡ not (total (in_window k) xs == 0)

-- The rate of a window is the number of its lines.
abbrev pub rates : List ℕ → List Sighting → List (ℕ × ℕ)
rates [] xs = []
rates (k ∷ keys) xs = (k, total (in_window k) xs) ∷ rates keys xs

-- The row of a detector: its name; its counts share out the windows, the anomalies are the windows
-- with an alert, and the alarms those that the detector flags in a run over the rates.
abbrev pub IsRow :
    (o : Floats) {S : Type 0}
    → (S → LogRecord o.Carrier → S × Option (AnomalyEvent o.Carrier))
    → S
    → String
    → List ℕ
    → List Sighting
    → DetectorRow
    → Type 0
IsRow o detect s name keys xs row =
    (row.detector ≡ name)
    × (row.window_count ≡ length keys)
    × (row.matrix.tp + row.matrix.fp + row.matrix.tn + row.matrix.fn ≡ length keys)
    × (row.matrix.tp + row.matrix.fn ≡ length (keep_if (λ k. alert_in k xs) keys))
    × (row.matrix.tp + row.matrix.fp ≡ length (flagged o detect 0 s (rates keys xs)))

-- The rows are those of the three detectors with the settings of the script, each from its start.
abbrev pub AreRows : (o : Floats) → ℕ → ℕ → List ℕ → List Sighting → List DetectorRow → Type 0
AreRows o uid now keys xs (z ∷ i ∷ c ∷ []) =
    IsRow o (λ s r. ZScore.detect o (z_score_setup o) s uid now r) [] "z_score" keys xs z
    × IsRow o (λ s r. Iqr.detect o (iqr_setup o) s uid now r) (record { window = []; sorted = [] })
        "iqr" keys xs i
    × IsRow o (λ s r. Cusum.detect o (cusum_setup o) s uid now r) (Cusum.init o) "cusum" keys xs c
AreRows o uid now keys xs _ = ⊥
