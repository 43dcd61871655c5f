-- ===== src/Postgres/Rows.antt =====
-- What the mappers of src/pipelinex/persistence/postgres_repo.py keep.
use pipelinex.Prelude.{ℕ, ◌≡◌, refl, [], some}
use pipelinex.Models.{Severity, severity_text, LogRecord, AnomalyEvent, BlockTrace}
use pipelinex.Postgres.{
  as_utc, row_severity, record_to_row, row_to_record, trace_to_row, row_to_trace, anomaly_to_row,
  row_to_anomaly,
}

pub row_severity-severity_text : (s : Severity) → row_severity (some (severity_text s)) ≡ some s
row_severity-severity_text Severity.debug = refl
row_severity-severity_text Severity.info = refl
row_severity-severity_text Severity.warning = refl
row_severity-severity_text Severity.error = refl
row_severity-severity_text Severity.critical = refl

-- A record with an instant.
abbrev pub dated : {F : Type 0} → ℕ → LogRecord F → LogRecord F
dated now r = record r { timestamp = some (as_utc now r.timestamp) }

-- A row read back is the record, with the clock for a missing instant; the trace, less its record
-- identifiers; and the anomaly.
pub row-to_row :
    {F : Type 0} (now : ℕ) (r : LogRecord F) (t : BlockTrace) (a : AnomalyEvent F)
    → (row_to_record now (record_to_row r) ≡ some (dated now r))
      × (row_to_trace now (trace_to_row t) ≡ record t { record_ids = [] })
      × (row_to_anomaly now (anomaly_to_row a) ≡ a)
row-to_row now r t a = (rw (row_to_record, row_severity-severity_text r.severity) refl, refl, refl)
