-- ===== src/Postgres/Tests.antt =====
-- Witnesses of the theorems on the database repository, with a server that keeps rows in the order
-- of their insertion and refuses a key that is there.
use pipelinex.Prelude.{
  ℕ, zero, suc, ◌-◌, ◌≡◌, refl, ap, String, Bool, true, false, List, [], ◌∷◌, ◌++◌, map, Option,
  none, some, arith, inl, inr,
}
use mathlib.Core.List.Permᴰ
use pipelinex.Prelude.Tests.{if◌then◌else◌, ◌==◌, Bool-cases}
use pipelinex.Prelude.Text.{◌<>◌, size, some_inv}
use pipelinex.Prelude.Lists.{take, keep_if}
use pipelinex.Prelude.Pairwise.{Pairwise}
use pipelinex.Prelude.Int.{pos, pos_part}
use pipelinex.Models.{Severity, LogRecord, AnomalyEvent, BlockTrace, ClosedReason}
use pipelinex.MemoryRepo.{QueryFilters, init}
use pipelinex.Postgres.{
  RecordRow, Server, record_to_row, row_to_record, trace_to_row, row_to_trace, anomaly_to_row,
  row_to_anomaly,
}
use pipelinex.Postgres.Rows.{dated, row-to_row}
use pipelinex.Postgres.Holds.{Holds, IsUuidText, IsServer}
use pipelinex.Postgres.Liskov.{save_all, Answers, query-save_all}

abbrev key_taken : ℕ → List (RecordRow ℕ) → Bool
key_taken id [] = false
key_taken id (row ∷ rows) = if row.id == id then true else key_taken id rows

abbrev clash : List (RecordRow ℕ) → List (RecordRow ℕ) → Bool
clash [] rows = false
clash (row ∷ more) rows = if key_taken row.id rows then true else clash more rows

abbrev table : Server ℕ
table = record {
  State = List (RecordRow ℕ);
  insert_records = λ new rows. if clash new rows then none else some (rows ++ new);
  insert_traces = λ new rows. some rows;
  insert_anomalies = λ new rows. some rows;
  select_records = λ p limit rows. some (take (pos_part limit) (keep_if p rows));
  select_traces = λ rows. some [];
  select_anomalies = λ rows. some [];
  count_by = λ column rows. some [];
  delete_all = λ rows. [];
}

record_to_row-Holds : (r : LogRecord ℕ) → Holds (record_to_row r) r
record_to_row-Holds r = record {
  same_id = refl;
  same_run = refl;
  same_timestamp = refl;
  same_source = refl;
  same_severity = refl;
  same_message = refl;
  same_payload = λ key. refl;
  same_enrichment = λ key. refl;
  same_history = refl;
}

rows-Holds : (rs : List (LogRecord ℕ)) → Pairwise Holds (map record_to_row rs) rs
rows-Holds [] = tt
rows-Holds (r ∷ rs) = (record_to_row-Holds r, rows-Holds rs)

table-IsServer : IsServer table (λ rows. rows)
table-IsServer = record {
  selected = λ p limit rows h. (rows, Permᴰ.refl rows, some_inv h);
  stored = λ r records rows h. elim (Bool-cases (clash (map record_to_row (r ∷ records)) rows)) [
    | inl hit ↦ absurd (ground (arith, h, hit))
    | inr free ↦ (
      map record_to_row (r ∷ records),
      some_inv (rw (free, if◌then◌else◌) at h),
      rows-Holds (r ∷ records),
    )
  ];
}

abbrev ones : ℕ → String
ones zero = "a"
ones (suc n) = "a" <> ones n

abbrev run_text : Option ℕ → String
run_text none = ""
run_text (some n) = ones n

abbrev read_run : String → Option ℕ
read_run text = some (size text - 1)

size-ones : (n : ℕ) → size (ones n) ≡ suc n
size-ones zero = refl
size-ones (suc n) = ap suc (size-ones n)

run_text-IsUuidText : IsUuidText run_text read_run
run_text-IsUuidText = record {
  read_written = λ u. rw (size-ones u) (ap some (omega arith));
  text_injective = injective;
}
  where
    injective : (a b : Option ℕ) → run_text a ≡ run_text b → a ≡ b
    injective none none e = refl
    injective none (some n) e = absurd (omega (arith, ap size e, size-ones n))
    injective (some n) none e = absurd (omega (arith, ap size e, size-ones n))
    injective (some n) (some m) e =
        let same : n ≡ m = omega (arith, ap size e, size-ones n, size-ones m) in ap some same

abbrev stored_record : ℕ → LogRecord ℕ
stored_record id = record {
  id = id;
  pipeline_run_id = some 2;
  timestamp = none;
  source = "s";
  severity = Severity.error;
  message = "m";
  raw_payload = [];
  enrichment = [];
  stage_history = "parse" ∷ [];
}

abbrev filters : QueryFilters
filters = record {
  severity = some "ERROR";
  source = none;
  pipeline_run_id = some "aaa";
  after = none;
  before = none;
  limit = pos 5;
}

-- The second batch clashes with the first, and is refused.
abbrev batches : List (List (LogRecord ℕ))
batches =
    (stored_record 1 ∷ []) ∷ (stored_record 3 ∷ stored_record 1 ∷ []) ∷ (stored_record 4 ∷ []) ∷ []

query-save_all_example :
    Answers table
      (λ rows. rows)
      table-IsServer
      run_text
      read_run
      9
      filters
      (save_all table (λ rows. rows) table-IsServer ([], init ℕ) batches)
query-save_all_example =
    query-save_all table (λ rows. rows) table-IsServer run_text read_run run_text-IsUuidText 9
      filters (some 2) [] batches refl (omega arith) (2, refl, refl)

abbrev a_trace : BlockTrace
a_trace = record {
  block_id = "b";
  event_sequence = "E1" ∷ [];
  record_ids = 7 ∷ [];
  first_timestamp = 1;
  last_timestamp = 2;
  record_count = 1;
  pipeline_run_id = 3;
  closed_reason = ClosedReason.terminal;
}

abbrev an_anomaly : AnomalyEvent ℕ
an_anomaly = record {
  id = 1;
  log_record_id = 7;
  detector_name = "zscore";
  severity_score = 5;
  detected_at = 6;
  metadata = [];
}

row-to_row_example :
    (row_to_record 9 (record_to_row (stored_record 1)) ≡ some (dated 9 (stored_record 1)))
    × (row_to_trace 9 (trace_to_row a_trace) ≡ record a_trace { record_ids = [] })
    × (row_to_anomaly 9 (anomaly_to_row an_anomaly) ≡ an_anomaly)
row-to_row_example = row-to_row 9 (stored_record 1) a_trace an_anomaly
