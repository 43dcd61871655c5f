-- ===== src/Postgres/Holds.antt =====
-- Rows that hold records, and what the database server and the texts of identifiers are relied on
-- for.
use pipelinex.Prelude.{ℕ, ◌≡◌, refl, String, Bool, List, [], ◌∷◌, ◌++◌, map, Option, some}
use mathlib.Core.List.{Permᴰ}
use pipelinex.Prelude.Lists.{take, keep_if}
use pipelinex.Prelude.Pairwise.{Pairwise}
use pipelinex.Prelude.Dict.{Dict, lookup}
use pipelinex.Prelude.Equality.{string_eq}
use pipelinex.Prelude.Int.{ℤ, pos_part}
use pipelinex.Models.{severity_text, Value, LogRecord}
use pipelinex.Postgres.{RecordRow, Server, or_else, as_utc, all_some, record_to_row, row_to_record}
use pipelinex.Postgres.Rows.{row_severity-severity_text}

module _ {F : Type 0} where
  abbrev pub SameEntries : Dict String (Value F) → Dict String (Value F) → Type 0
  SameEntries d e = (key : String) → lookup key d ≡ lookup key e

  -- A row that holds a record. JSON objects keep their entries, but not their order.
  pub record Holds (row : RecordRow F) (r : LogRecord F) : Type 0 where
    pub same_id : row.id ≡ r.id
    pub same_run : row.pipeline_run_id ≡ r.pipeline_run_id
    pub same_timestamp : row.timestamp ≡ r.timestamp
    pub same_source : row.source ≡ some r.source
    pub same_severity : row.severity ≡ some (severity_text r.severity)
    pub same_message : row.message ≡ some r.message
    pub same_payload : SameEntries (or_else row.raw_payload []) r.raw_payload
    pub same_enrichment : SameEntries (or_else row.enrichment []) r.enrichment
    pub same_history : row.stage_history ≡ some r.stage_history

  -- A record as it is read back.
  pub record ReadsAs (now : ℕ) (q r : LogRecord F) : Type 0 where
    pub id_kept : q.id ≡ r.id
    pub run_kept : q.pipeline_run_id ≡ r.pipeline_run_id
    pub timestamp_kept : q.timestamp ≡ some (as_utc now r.timestamp)
    pub source_kept : q.source ≡ r.source
    pub severity_kept : q.severity ≡ r.severity
    pub message_kept : q.message ≡ r.message
    pub payload_kept : SameEntries q.raw_payload r.raw_payload
    pub enrichment_kept : SameEntries q.enrichment r.enrichment
    pub history_kept : q.stage_history ≡ r.stage_history

  pub read_back :
      (now : ℕ) (row : RecordRow F) (r : LogRecord F)
      → Holds row r
      → (q : LogRecord F) × (row_to_record now row ≡ some q) × ReadsAs now q r
  read_back now row r h = (
    record {
      id = row.id;
      pipeline_run_id = row.pipeline_run_id;
      timestamp = some (as_utc now row.timestamp);
      source = or_else row.source "";
      severity = r.severity;
      message = or_else row.message "";
      raw_payload = or_else row.raw_payload [];
      enrichment = or_else row.enrichment [];
      stage_history = or_else row.stage_history [];
    },
    rw (row_to_record, h.same_severity, row_severity-severity_text r.severity) refl,
    record {
      id_kept = h.same_id;
      run_kept = h.same_run;
      timestamp_kept = rw h.same_timestamp refl;
      source_kept = rw h.same_source refl;
      severity_kept = refl;
      message_kept = rw h.same_message refl;
      payload_kept = h.same_payload;
      enrichment_kept = h.same_enrichment;
      history_kept = rw h.same_history refl;
    },
  )

  pub all_read_back :
      (now : ℕ) (rows : List (RecordRow F)) (rs : List (LogRecord F))
      → Pairwise Holds rows rs
      → (qs : List (LogRecord F)) × (all_some (map (row_to_record now) rows) ≡ some qs)
        × Pairwise (ReadsAs now) qs rs
  all_read_back now [] [] h = ([], refl, tt)
  all_read_back now [] (r ∷ rs) h = absurd h
  all_read_back now (row ∷ rows) [] h = absurd h
  all_read_back now (row ∷ rows) (r ∷ rs) h =
      let (q, one, same) = read_back now row r h.0 in
      let (qs, more, others) = all_read_back now rows rs h.1 in
      (q ∷ qs, rw (one, all_some, more) refl, (same, others))

-- How identifiers of runs are written and read.
pub record IsUuidText (run_id_text : Option ℕ → String) (parse_uuid : String → Option ℕ)
    : Type 0 where
  pub read_written : (u : ℕ) → parse_uuid (run_id_text (some u)) ≡ some u
  pub text_injective : (a b : Option ℕ) → run_id_text a ≡ run_id_text b → a ≡ b

-- What the server does: `held` are the rows of the table of records, and a selection takes, in an
-- order of its own, as many of the rows that satisfy the clause as the limit says.
pub record IsServer {F : Type 0} (srv : Server F) (held : srv.State → List (RecordRow F))
    : Type 0 where
  pub selected :
      (p : RecordRow F → Bool) (limit : ℤ) (st : srv.State) {rows : List (RecordRow F)}
      → srv.select_records p limit st ≡ some rows
      → (order : List (RecordRow F)) × Permᴰ order (held st)
        × (rows ≡ take (pos_part limit) (keep_if p order))
  pub stored :
      (r : LogRecord F) (records : List (LogRecord F)) (st : srv.State) {st' : srv.State}
      → srv.insert_records (map record_to_row (r ∷ records)) st ≡ some st'
      → (new : List (RecordRow F)) × (held st' ≡ held st ++ new) × Pairwise Holds new (r ∷ records)
