-- ===== src/Listeners/Tests.antt =====
-- The listeners' theorem on an anomaly, a closed trace and a second anomaly.
use pipelinex.Prelude.{◌≡◌, ℕ, String, List, [], ◌∷◌}
use pipelinex.Prelude.Text.{◌<>◌}
use pipelinex.Prelude.Lists.{length, keep_if}
use pipelinex.Prelude.Int.{ℤ, pos}
use pipelinex.Models.{reason_text, AnomalyEvent, BlockTrace, ClosedReason}
use pipelinex.Detectors.Tests.{hundredths}
use pipelinex.Metrics.{count_of}
use pipelinex.Listeners.{Event, publish_all}
use pipelinex.Listeners.Delivered.{
  wired, is_anomaly_of, is_closed_as, anomalies_of, nothing_yet, publish_all_lem,
}

abbrev anomaly : ℕ → String → AnomalyEvent ℤ
anomaly n detector_name = record {
  id = n;
  log_record_id = n;
  detector_name = detector_name;
  severity_score = pos 300;
  detected_at = n;
  metadata = [];
}

abbrev trace : BlockTrace
trace = record {
  block_id = "a";
  event_sequence = "E1" ∷ [];
  record_ids = 1 ∷ [];
  first_timestamp = 1;
  last_timestamp = 1;
  record_count = 1;
  pipeline_run_id = 9;
  closed_reason = ClosedReason.timeout;
}

abbrev history : List (Event ℤ)
history =
    Event.anomaly_published (anomaly 1 "zscore")
    ∷ Event.trace_closed trace
    ∷ Event.anomaly_published (anomaly 2 "iqr")
    ∷ []

publish_all_lem_example :
    ((publish_all hundredths wired history (nothing_yet hundredths)).alerts ≡ anomalies_of history)
    × ((publish_all hundredths wired history (nothing_yet hundredths)).collected ≡ history)
    × (count_of hundredths
          ((publish_all hundredths wired history (nothing_yet hundredths)).registry)
          ("anomalies." <> "iqr")
        ≡ pos (length (keep_if (is_anomaly_of "iqr") history)))
    × (count_of hundredths
          ((publish_all hundredths wired history (nothing_yet hundredths)).registry)
          ("traces.closed." <> reason_text ClosedReason.timeout)
        ≡ pos (length (keep_if (is_closed_as ClosedReason.timeout) history)))
publish_all_lem_example = publish_all_lem hundredths history "iqr" ClosedReason.timeout
