-- ===== src/Parsers/Csv.antt =====
-- src/pipelinex/stages/parsing/hdfs_structured_csv_parser.py. `csv_row` stands for the first row of
-- `csv.reader`, and the new record's identifier comes from outside.
pub mod Oracle
use pipelinex.Prelude.{ℕ, String, Bool, true, false, List, [], ◌∷◌, Option, none, some}
use Prim.Native.Char.{Char, code}
use pipelinex.Prelude.Tests.{if◌then◌else◌, ◌==◌}
use pipelinex.Prelude.Text.{◌<>◌, ◌>>=◌}
use pipelinex.Prelude.Equality.{◌=?◌, string_eq}
use pipelinex.Exceptions.{ErrorKind}
use pipelinex.Models.{Value, LogRecord, add_enrichment}
use pipelinex.Stages.Parsing.{Parsed}
use pipelinex.Parsers.{Python, uncons, level_map, severity_of, add_block, add_warning}

-- `next(csv.reader(StringIO(raw)))`: a row, `StopIteration`, or `csv.Error`.
pub data CsvRow : Type 0 where
  fields : List String → CsvRow
  exhausted : CsvRow
  malformed : CsvRow

-- `row[:9]`, less the template.
pub record Row : Type 0 where
  pub line_id : String
  pub date : String
  pub time : String
  pub pid : String
  pub level : String
  pub component : String
  pub content : String
  pub event_id : String

-- The row, when it has nine fields or more.
unfoldable pub first_nine : List String → Option Row
first_nine row = uncons row >>= (λ (line_id, r1). uncons r1 >>= (λ (date, r2).
    uncons r2 >>= (λ (time, r3). uncons r3 >>= (λ (pid, r4). uncons r4 >>= (λ (level, r5).
      uncons r5 >>= (λ (component, r6). uncons r6 >>= (λ (content, r7).
        uncons r7 >>= (λ (event_id, r8). uncons r8 >>= (λ (_, _). some (record {
          line_id = line_id;
          date = date;
          time = time;
          pid = pid;
          level = level;
          component = component;
          content = content;
          event_id = event_id;
        }))))))))))

abbrev pub reconstruct_raw : String → String → String → String → String → String → String
reconstruct_raw date time pid level component content =
    date <> " " <> time <> " " <> pid <> " " <> level <> " " <> component <> ": " <> content

-- The part in front of the first comma.
abbrev pub before_comma : String → String
before_comma String.[] = ""
before_comma (String.◌∷◌ c s) =
    let rest = before_comma s in if code c == b',' then "" else String.◌∷◌ c rest

abbrev pub can_parse : Python → String → Bool
can_parse py raw = py.isdigit (before_comma raw)

module _ {F : Type 0} (py : Python) where
  abbrev pub row_record : ℕ → Row → ℕ → LogRecord F
  row_record uid row timestamp = record {
    id = uid;
    pipeline_run_id = none;
    timestamp = some timestamp;
    source = row.component;
    severity = severity_of level_map row.level;
    message = row.content;
    raw_payload =
        ("pid", Value.text row.pid)
        ∷ ("level_raw", Value.text row.level)
        ∷ ("line_id", Value.text row.line_id)
        ∷ (
          "raw",
          Value.text
              (reconstruct_raw row.date row.time row.pid row.level row.component row.content),
        )
        ∷ [];
    enrichment = [];
    stage_history = [];
  }

  abbrev pub add_event_id : String → LogRecord F → LogRecord F
  add_event_id event_id r =
      if event_id =? "" then r else add_enrichment r "event_id" (Value.text event_id)

  unfoldable pub of_row : ℕ → Row → Parsed F
  of_row uid row = elim (py.strptime "%y%m%d%H%M%S" (row.date <> row.time)) [
    | none ↦ Parsed.rejects ErrorKind.parser_error
    | some timestamp ↦ Parsed.parses (
        add_warning level_map row.level
          (add_event_id row.event_id (add_block py row.content (row_record uid row timestamp))))
  ]

  -- `parse`; an error of the csv module passes.
  unfoldable pub parse : (String → CsvRow) → ℕ → String → Parsed F
  parse csv_row uid raw = elim (csv_row raw) [
    | CsvRow.exhausted ↦ Parsed.rejects ErrorKind.parser_error
    | CsvRow.malformed ↦ Parsed.rejects ErrorKind.other
    | CsvRow.fields row ↦ elim (first_nine row) [
      | none ↦ Parsed.rejects ErrorKind.parser_error
      | some nine ↦ of_row uid nine
    ]
  ]
