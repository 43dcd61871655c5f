-- ===== src/Postgres.antt =====
-- src/pipelinex/persistence/postgres_repo.py over a database server, which is an argument: it
-- inserts rows, or refuses them all, and selects rows by a predicate. none stands for
-- `SQLAlchemyError`, and `now` for the clock. JSON columns hold dicts.
pub mod Rows
pub mod Holds
pub mod Clauses
pub mod Liskov
mod Tests
use pipelinex.Prelude.{
  ℕ, String, Bool, true, false, not, List, [], ◌∷◌, ◌++◌, Option, none, some, map,
}
use pipelinex.Prelude.Tests.{if◌then◌else◌, leb, ◌==◌}
use pipelinex.Prelude.Text.{◌>>=◌}
use pipelinex.Prelude.Dict.{Dict}
use pipelinex.Prelude.Equality.{◌=?◌, string_eq}
use pipelinex.Prelude.Int.{ℤ, pos}
use pipelinex.Exceptions.{ErrorKind, Result}
use pipelinex.Models.{
  Severity, severity_text, Value, LogRecord, AnomalyEvent, BlockTrace, ClosedReason,
}
use pipelinex.MemoryRepo.{QueryFilters, Aggregation, row_of}

pub record RecordRow (F : Type 0) : Type 0 where
  pub id : ℕ
  pub pipeline_run_id : Option ℕ
  pub timestamp : Option ℕ
  pub source : Option String
  pub severity : Option String
  pub message : Option String
  pub raw_payload : Option (Dict String (Value F))
  pub enrichment : Option (Dict String (Value F))
  pub stage_history : Option (List String)

-- The text of a reason stands for the reason.
pub record TraceRow : Type 0 where
  pub block_id : String
  pub pipeline_run_id : ℕ
  pub first_timestamp : Option ℕ
  pub last_timestamp : Option ℕ
  pub record_count : ℕ
  pub event_sequence : Option (List String)
  pub closed_reason : ClosedReason

pub record AnomalyRow (F : Type 0) : Type 0 where
  pub id : ℕ
  pub log_record_id : ℕ
  pub detector_name : String
  pub severity_score : F
  pub detected_at : Option ℕ
  pub metadata : Option (Dict String (Value F))

-- The tables, as the repository reaches them.
pub record Server (F : Type 0) : Type 1 where
  pub State : Type 0
  pub insert_records : List (RecordRow F) → State → Option State
  pub insert_traces : List TraceRow → State → Option State
  pub insert_anomalies : List (AnomalyRow F) → State → Option State
  pub select_records : (RecordRow F → Bool) → ℤ → State → Option (List (RecordRow F))
  pub select_traces : State → Option (List TraceRow)
  pub select_anomalies : State → Option (List (AnomalyRow F))
  pub count_by : (RecordRow F → Option String) → State → Option (List (String × ℕ))
  pub delete_all : State → State

-- `value or default`; an empty value is the default itself.
abbrev pub or_else {ℓ} : {A : Type ℓ} → Option A → A → A
or_else none default = default
or_else (some value) default = value

-- `Severity(text)`; none stands for `ValueError`.
abbrev pub severity_of_text : String → Option Severity
severity_of_text text =
    if text =? "DEBUG"
    then some Severity.debug
    else if text =? "INFO"
    then some Severity.info
    else if text =? "WARNING"
    then some Severity.warning
    else if text =? "ERROR"
    then some Severity.error
    else if text =? "CRITICAL"
    then some Severity.critical
    else none

-- `_as_utc`; an instant has its time zone.
abbrev pub as_utc : ℕ → Option ℕ → ℕ
as_utc now none = now
as_utc now (some at) = at

abbrev pub row_severity : Option String → Option Severity
row_severity none = some Severity.info
row_severity (some text) = if text =? "" then some Severity.info else severity_of_text text

abbrev pub trace_to_row : BlockTrace → TraceRow
trace_to_row t = record {
  block_id = t.block_id;
  pipeline_run_id = t.pipeline_run_id;
  first_timestamp = some t.first_timestamp;
  last_timestamp = some t.last_timestamp;
  record_count = t.record_count;
  event_sequence = some t.event_sequence;
  closed_reason = t.closed_reason;
}

abbrev pub row_to_trace : ℕ → TraceRow → BlockTrace
row_to_trace now row = record {
  block_id = row.block_id;
  event_sequence = or_else row.event_sequence [];
  record_ids = [];
  first_timestamp = as_utc now row.first_timestamp;
  last_timestamp = as_utc now row.last_timestamp;
  record_count = row.record_count;
  pipeline_run_id = row.pipeline_run_id;
  closed_reason = row.closed_reason;
}

-- A list of which one member raises raises.
abbrev pub all_some {ℓ} : {A : Type ℓ} → List (Option A) → Option (List A)
all_some [] = some []
all_some (none ∷ xs) = none
all_some (some a ∷ xs) = all_some xs >>= (λ more. some (a ∷ more))

module _ {F : Type 0} where
  abbrev pub record_to_row : LogRecord F → RecordRow F
  record_to_row r = record {
    id = r.id;
    pipeline_run_id = r.pipeline_run_id;
    timestamp = r.timestamp;
    source = some r.source;
    severity = some (severity_text r.severity);
    message = some r.message;
    raw_payload = some r.raw_payload;
    enrichment = some r.enrichment;
    stage_history = some r.stage_history;
  }

  abbrev pub row_to_record : ℕ → RecordRow F → Option (LogRecord F)
  row_to_record now row = elim (row_severity row.severity) [
    | none ↦ none
    | some severity ↦ some (record {
      id = row.id;
      pipeline_run_id = row.pipeline_run_id;
      timestamp = some (as_utc now row.timestamp);
      source = or_else row.source "";
      severity = severity;
      message = or_else row.message "";
      raw_payload = or_else row.raw_payload [];
      enrichment = or_else row.enrichment [];
      stage_history = or_else row.stage_history [];
    })
  ]

  abbrev pub anomaly_to_row : AnomalyEvent F → AnomalyRow F
  anomaly_to_row a = record {
    id = a.id;
    log_record_id = a.log_record_id;
    detector_name = a.detector_name;
    severity_score = a.severity_score;
    detected_at = some a.detected_at;
    metadata = some a.metadata;
  }

  abbrev pub row_to_anomaly : ℕ → AnomalyRow F → AnomalyEvent F
  row_to_anomaly now row = record {
    id = row.id;
    log_record_id = row.log_record_id;
    detector_name = row.detector_name;
    severity_score = row.severity_score;
    detected_at = as_utc now row.detected_at;
    metadata = or_else row.metadata [];
  }

-- A comparison with NULL is not true. A filter that is absent adds no clause.
abbrev pub column_is : Option String → Option String → Bool
column_is none column = true
column_is (some wanted) none = false
column_is (some wanted) (some column) = column =? wanted

abbrev pub run_is : Option ℕ → Option ℕ → Bool
run_is none column = true
run_is (some wanted) none = false
run_is (some wanted) (some column) = column == wanted

abbrev pub at_least : Option ℕ → Option ℕ → Bool
at_least none column = true
at_least (some bound) none = false
at_least (some bound) (some column) = leb bound column

abbrev pub at_most : Option ℕ → Option ℕ → Bool
at_most none column = true
at_most (some bound) none = false
at_most (some bound) (some column) = leb column bound

module _ {F : Type 0} where
  abbrev pub where_clause : QueryFilters → Option ℕ → RecordRow F → Bool
  where_clause f run_id row =
      if not (column_is f.severity row.severity)
      then false
      else if not (column_is f.source row.source)
      then false
      else if not (run_is run_id row.pipeline_run_id)
      then false
      else if not (at_least f.after row.timestamp)
      then false
      else at_most f.before row.timestamp

-- `UUID(filters.pipeline_run_id)`, where it is given; none stands for `ValueError`.
abbrev pub wanted_run : (String → Option ℕ) → Option String → Option (Option ℕ)
wanted_run parse_uuid none = some none
wanted_run parse_uuid (some text) = parse_uuid text >>= (λ run_id. some (some run_id))

module _ {F : Type 0} (srv : Server F) where
  abbrev pub inserted : srv.State → Option srv.State → srv.State × Option ErrorKind
  inserted st none = (st, some ErrorKind.repository_error)
  inserted st (some st') = (st', none)

  unfoldable pub save_batch : List (LogRecord F) → srv.State → srv.State × Option ErrorKind
  save_batch [] st = (st, none)
  save_batch (r ∷ records) st =
      inserted st (srv.insert_records (map record_to_row (r ∷ records)) st)

  abbrev pub save : LogRecord F → srv.State → srv.State × Option ErrorKind
  save r st = save_batch (r ∷ []) st

  unfoldable pub save_trace_batch : List BlockTrace → srv.State → srv.State × Option ErrorKind
  save_trace_batch [] st = (st, none)
  save_trace_batch (t ∷ traces) st =
      inserted st (srv.insert_traces (map trace_to_row (t ∷ traces)) st)

  abbrev pub save_trace : BlockTrace → srv.State → srv.State × Option ErrorKind
  save_trace t st = save_trace_batch (t ∷ []) st

  unfoldable pub save_anomaly : AnomalyEvent F → srv.State → srv.State × Option ErrorKind
  save_anomaly a st = inserted st (srv.insert_anomalies (anomaly_to_row a ∷ []) st)

  abbrev pub read_rows : ℕ → Option (List (RecordRow F)) → Result (List (LogRecord F))
  read_rows now none = Result.raises ErrorKind.repository_error
  read_rows now (some rows) = elim (all_some (map (row_to_record now) rows)) [
    | none ↦ Result.raises ErrorKind.other
    | some records ↦ Result.returns records
  ]

  unfoldable pub query :
      (String → Option ℕ) → ℕ → QueryFilters → srv.State → Result (List (LogRecord F))
  query parse_uuid now f st = elim (wanted_run parse_uuid f.pipeline_run_id) [
    | none ↦ Result.raises ErrorKind.other
    | some run_id ↦ read_rows now (srv.select_records (where_clause f run_id) f.limit st)
  ]

  abbrev pub counted : String → Option (List (String × ℕ)) → Result (List (Dict String (Value F)))
  counted group_by none = Result.raises ErrorKind.repository_error
  counted group_by (some groups) = Result.returns (map (row_of F group_by) groups)

  -- `NotImplementedError` is no error of the package.
  unfoldable pub aggregate : Aggregation → srv.State → Result (List (Dict String (Value F)))
  aggregate agg st =
      if not (agg.metric =? "count")
      then Result.raises ErrorKind.other
      else if agg.group_by =? "severity"
      then counted agg.group_by (srv.count_by (λ row. row.severity) st)
      else if agg.group_by =? "source"
      then counted agg.group_by (srv.count_by (λ row. row.source) st)
      else Result.raises ErrorKind.other

  unfoldable pub all_records : (String → Option ℕ) → ℕ → srv.State → Result (List (LogRecord F))
  all_records parse_uuid now st =
      query parse_uuid now
        (record {
          severity = none;
          source = none;
          pipeline_run_id = none;
          after = none;
          before = none;
          limit = pos 1000000;
        })
        st

  unfoldable pub all_traces : ℕ → srv.State → Result (List BlockTrace)
  all_traces now st = elim (srv.select_traces st) [
    | none ↦ Result.raises ErrorKind.repository_error
    | some rows ↦ Result.returns (map (row_to_trace now) rows)
  ]

  unfoldable pub all_anomalies : ℕ → srv.State → Result (List (AnomalyEvent F))
  all_anomalies now st = elim (srv.select_anomalies st) [
    | none ↦ Result.raises ErrorKind.repository_error
    | some rows ↦ Result.returns (map (row_to_anomaly now) rows)
  ]

  abbrev pub truncate_all : srv.State → srv.State
  truncate_all st = srv.delete_all st
