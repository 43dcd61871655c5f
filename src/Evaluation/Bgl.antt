-- ===== src/Evaluation/Bgl.antt =====
-- scripts/evaluate_bgl_point.py: the windows of `_aggregate`, and the loop of `amain` over the
-- detectors. An instant is in microseconds since the epoch, in UTC. `--window-seconds` is a natural
-- number: a window of no seconds raises ZeroDivisionError, which is `none`.
pub mod Windows
pub mod Bins
pub mod Alarms
pub mod Flagged
pub mod Rows
mod Tests
use pipelinex.Prelude.{
  ℕ, suc, ◌+◌, ◌-◌, ◌*◌, ◌/◌, ◌%◌, String, Bool, true, false, not, List, [], ◌∷◌, Option, none,
  some, map,
}
use pipelinex.Prelude.Tests.{if◌then◌else◌, leb, ◌==◌}
use pipelinex.Prelude.Lists.{length, keep_if}
use pipelinex.Prelude.Dict.{Dict, lookup, insert}
use pipelinex.Prelude.Equality.{◌=?◌, nat_eq, string_eq}
use pipelinex.Prelude.Text.{◌>>=◌}
use pipelinex.Floats.{Floats}
use pipelinex.Models.{Severity, Value, LogRecord, AnomalyEvent, add_enrichment}
use pipelinex.Stages.Parsing.{Parsed}
use pipelinex.Training.{text_at, rstrip_feed, capped}
use pipelinex.Evaluation.{add_once, ConfusionMatrix, confusion}
use pipelinex.Detectors.ZScore
use pipelinex.Detectors.Iqr
use pipelinex.Detectors.Cusum

-- The fields of an instant.
abbrev pub second_of : ℕ → ℕ
second_of ts = ts / 1000000 % 60

abbrev pub minute_of : ℕ → ℕ
minute_of ts = ts / 60000000 % 60

-- `ts.replace(second=k, microsecond=0)`
abbrev pub replace_second : ℕ → ℕ → ℕ
replace_second k ts = ts - ts % 60000000 + k * 1000000

-- `ts.replace(minute=k)`
abbrev pub replace_minute : ℕ → ℕ → ℕ
replace_minute k ts = ts - ts % 3600000000 + k * 60000000 + ts % 60000000

-- The start of the window that an instant is in, for a window of one second or more.
unfoldable pub window_start : ℕ → ℕ → ℕ
window_start window_seconds ts =
    let window = replace_second (second_of ts / window_seconds * window_seconds) ts in
    let minutes = window_seconds / 60 in
    if leb 60 window_seconds
    then replace_minute (minute_of ts / minutes * minutes) (replace_second 0 window)
    else window

abbrev pub window_of : ℕ → ℕ → Option ℕ
window_of window_seconds ts =
    if window_seconds == 0 then none else some (window_start window_seconds ts)

pub record Aggregate : Type 0 where
  pub bins : Dict ℕ ℕ
  pub labels : Dict ℕ Bool
  pub n_skipped : ℕ

abbrev pub no_windows : Aggregate
no_windows = record { bins = []; labels = []; n_skipped = 0 }

-- `bins[window]` of a `defaultdict(int)`
abbrev pub rate_of : Option ℕ → ℕ
rate_of none = 0
rate_of (some rate) = rate

abbrev pub add_sighting : ℕ → Bool → Aggregate → Aggregate
add_sighting window alert s = record s {
  bins = insert window (rate_of (lookup window s.bins) + 1) s.bins;
  labels = if alert then insert window true s.labels else s.labels;
}

module _ {F : Type 0} where
  abbrev pub is_alert : LogRecord F → Bool
  is_alert r = elim (text_at "bgl_label" r) [ none ↦ false | some label ↦ not (label =? "-") ]

  abbrev pub aggregate_stamped : ℕ → Option ℕ → LogRecord F → Aggregate → Option Aggregate
  aggregate_stamped window_seconds none r s = some s
  aggregate_stamped window_seconds (some ts) r s =
      window_of window_seconds ts >>= (λ window. some (add_sighting window (is_alert r) s))

  abbrev pub aggregate_parsed : ℕ → Parsed F → Aggregate → Option Aggregate
  aggregate_parsed window_seconds (Parsed.rejects kind) s =
      some (record s { n_skipped = s.n_skipped + 1 })
  aggregate_parsed window_seconds (Parsed.parses r) s =
      aggregate_stamped window_seconds r.timestamp r s

  abbrev pub aggregate_line : (String → Parsed F) → ℕ → String → Aggregate → Option Aggregate
  aggregate_line parse window_seconds line s =
      let raw = rstrip_feed line in
      if raw =? "" then some s else aggregate_parsed window_seconds (parse raw) s

  unfoldable pub aggregate :
      (String → Parsed F) → ℕ → Option ℕ → ℕ → List String → Aggregate → Option Aggregate
  aggregate parse window_seconds max_lines i [] s = some s
  aggregate parse window_seconds max_lines i (line ∷ lines) s =
      let rest =
        aggregate_line parse window_seconds line s
        >>= (λ s'. aggregate parse window_seconds max_lines (suc i) lines s') in
      if capped max_lines i then some s else rest

-- `sorted(bins.keys())`
abbrev pub put_key : ℕ → List ℕ → List ℕ
put_key x [] = x ∷ []
put_key x (y ∷ ys) = if leb x y then x ∷ y ∷ ys else y ∷ put_key x ys

abbrev pub sorted_keys : Dict ℕ ℕ → List ℕ
sorted_keys [] = []
sorted_keys ((k, _) ∷ bins) = put_key k (sorted_keys bins)

-- `rate_series`
abbrev pub rate_series : Dict ℕ ℕ → List ℕ → List (ℕ × ℕ)
rate_series bins [] = []
rate_series bins (k ∷ keys) = (k, rate_of (lookup k bins)) ∷ rate_series bins keys

-- `{str(t.timestamp()) for t in ...}`: `stamp` is the text of an instant.
abbrev pub stamps_of : (ℕ → String) → List ℕ → List String
stamps_of stamp [] = []
stamps_of stamp (t ∷ ts) = add_once (stamp t) (stamps_of stamp ts)

-- `labels.get(ts, False)`
abbrev pub is_labelled : Dict ℕ Bool → ℕ → Bool
is_labelled labels ts = elim (lookup ts labels) [ none ↦ false | some label ↦ label ]

-- A row of the report.
pub record DetectorRow : Type 0 where
  pub detector : String
  pub matrix : ConfusionMatrix
  pub window_count : ℕ

module _ (o : Floats) where
  abbrev pub window_record : ℕ → ℕ → ℕ → LogRecord o.Carrier
  window_record uid ts rate =
      add_enrichment
        (record {
          id = uid;
          pipeline_run_id = none;
          timestamp = some ts;
          source = "";
          severity = Severity.info;
          message = "";
          raw_payload = [];
          enrichment = [];
          stage_history = [];
        })
        "metric" (Value.float (o.of_ℕ rate))

  -- One detector over the series: the stamps of the windows that it flags. Its `detect` takes its
  -- state and a record; the records' identifiers are counted up.
  module _ {S : Type 0} (detect : S → LogRecord o.Carrier → S × Option (AnomalyEvent o.Carrier))
      (stamp : ℕ → String) where
    abbrev pub note_alarm : Option (AnomalyEvent o.Carrier) → ℕ → List String → List String
    note_alarm none ts predicted = predicted
    note_alarm (some anomaly) ts predicted = add_once (stamp ts) predicted

    abbrev pub predict : ℕ → S → List (ℕ × ℕ) → List String → List String
    predict uid s [] predicted = predicted
    predict uid s ((ts, rate) ∷ series) predicted =
        let (s', anomaly) = detect s (window_record uid ts rate) in
        predict (suc uid) s' series (note_alarm anomaly ts predicted)

    -- One detector's row.
    unfoldable pub evaluate_windows : String → S → Dict ℕ ℕ → Dict ℕ Bool → DetectorRow
    evaluate_windows name s bins labels =
        let keys = sorted_keys bins in
        let predicted = predict 0 s (rate_series bins keys) [] in
        let actual = stamps_of stamp (keep_if (is_labelled labels) keys) in
        record {
          detector = name;
          matrix = confusion predicted actual (stamps_of stamp keys);
          window_count = length keys;
        }

  -- The detectors, as the script sets them up. Identifiers and instants of the events come from
  -- outside; 0.5 is two quarters.
  abbrev pub z_score_setup : ZScore.Config o
  z_score_setup = record {
    metric_key = "metric";
    threshold = o.of_ℕ 3;
    window_size = 200;
    min_samples = 50;
    from_enrichment = true;
  }

  abbrev pub iqr_setup : Iqr.Config o
  iqr_setup = record {
    metric_key = "metric";
    k = o.of_ℕ 3;
    window_size = 200;
    min_samples = 50;
    from_enrichment = true;
  }

  abbrev pub cusum_setup : Cusum.Config o
  cusum_setup = record {
    metric_key = "metric";
    threshold = o.of_ℕ 5;
    slack = o.add o.quarter o.quarter;
    warmup_samples = 50;
    from_enrichment = true;
  }

  module _ (uid now : ℕ) (stamp : ℕ → String) where
    unfoldable pub evaluate_all : Dict ℕ ℕ → Dict ℕ Bool → List DetectorRow
    evaluate_all bins labels =
        evaluate_windows (λ s r. ZScore.detect o z_score_setup s uid now r) stamp "z_score" [] bins
          labels
        ∷ evaluate_windows (λ s r. Iqr.detect o iqr_setup s uid now r) stamp "iqr"
            (record { window = []; sorted = [] }) bins labels
        ∷ evaluate_windows (λ s r. Cusum.detect o cusum_setup s uid now r) stamp "cusum"
            (Cusum.init o) bins labels
        ∷ []

    -- A run over a log that can be read.
    unfoldable pub evaluate_log :
        (String → Parsed o.Carrier) → ℕ → Option ℕ → List String → Option (List DetectorRow)
    evaluate_log parse window_seconds max_lines lines =
        aggregate parse window_seconds max_lines 0 lines no_windows
        >>= (λ s. some (evaluate_all s.bins s.labels))
