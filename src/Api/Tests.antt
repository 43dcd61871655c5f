-- ===== src/Api/Tests.antt =====
-- Witness of the listing's theorem: three anomalies of two detectors.
use pipelinex.Prelude.{ℕ, ◌≡◌, String, Bool, List, [], ◌∷◌, some}
use pipelinex.Prelude.Lists.{take}
use pipelinex.Models.{AnomalyEvent}
use pipelinex.MemoryRepo.{Repository}
use pipelinex.Api.{IsNewestFirst, count, of_detector, list_anomalies, list_anomalies_lem}

abbrev anomaly : ℕ → String → ℕ → AnomalyEvent ℕ
anomaly n detector at = record {
  id = n;
  log_record_id = n;
  detector_name = detector;
  severity_score = n;
  detected_at = at;
  metadata = [];
}

abbrev stored : Repository ℕ
stored = record {
  records = [];
  traces = [];
  anomalies = anomaly 1 "iqr" 10 ∷ anomaly 2 "cusum" 20 ∷ anomaly 3 "iqr" 30 ∷ [];
}

list_anomalies_lem_example :
    (ordered : List (AnomalyEvent ℕ)) × IsNewestFirst ℕ ordered
    × ((p : AnomalyEvent ℕ → Bool)
        → count ℕ p ordered ≡ count ℕ p (of_detector ℕ (some "iqr") stored.anomalies))
    × (list_anomalies ℕ stored (some "iqr") 1 ≡ take 1 ordered)
list_anomalies_lem_example = list_anomalies_lem ℕ stored (some "iqr") 1
