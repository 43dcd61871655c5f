-- ===== src/Parsers/Csv/Oracle.antt =====
-- The two parsers of HDFS on the same line: as a line, and as a row of the structured CSV.
use pipelinex.Prelude.{
  sym, ap, inl, inr, ℕ, ◌≡◌, refl, String, Bool, true, false, List, ◌∷◌, Option, none, some,
}
use pipelinex.Prelude.Tests.{if◌then◌else◌, Option-cases}
use pipelinex.Prelude.Text.{◌<>◌, <>-nil}
use pipelinex.Prelude.Equality.{◌=?◌, string_eq}
use pipelinex.Prelude.Dict.{remove, lookup}
use pipelinex.Models.{Severity, Value, LogRecord, add_enrichment}
use pipelinex.Stages.Parsing.{Parsed}
use pipelinex.Parsers.{Python, IsPython, level_map, with_block, with_warning, search_block}
use pipelinex.Parsers.Hdfs.{Line, match_line, plain_record, of_line}
use pipelinex.Parsers.Hdfs.{parse as parse_line}
use pipelinex.Parsers.Hdfs.Lines.{IsLine, line_text, match_line_iff}
use pipelinex.Parsers.Csv.{CsvRow, Row, first_nine, row_record, of_row, parse}

-- The cells of a line.
abbrev pub cells : String → String → String → List String → Line → List String
cells line_id event_id template more l =
    line_id ∷ l.date ∷ l.time ∷ l.pid ∷ l.level ∷ l.component ∷ l.content ∷ event_id ∷ template
    ∷ more

abbrev pub row_of : String → String → Line → Row
row_of line_id event_id l = record {
  line_id = line_id;
  date = l.date;
  time = l.time;
  pid = l.pid;
  level = l.level;
  component = l.component;
  content = l.content;
  event_id = event_id;
}

module _ {F : Type 0} where
  -- A record without what only the CSV tells.
  abbrev pub forget : LogRecord F → LogRecord F
  forget r = record r {
    raw_payload = remove "line_id" r.raw_payload;
    enrichment = remove "event_id" r.enrichment;
  }

  abbrev pub map_parsed : (LogRecord F → LogRecord F) → Parsed F → Parsed F
  map_parsed f (Parsed.parses r) = Parsed.parses (f r)
  map_parsed f (Parsed.rejects kind) = Parsed.rejects kind

first_nine-cells :
    (line_id event_id template : String) (more : List String) (l : Line)
    → first_nine (cells line_id event_id template more l) ≡ some (row_of line_id event_id l)
unfolding first_nine
first_nine-cells line_id event_id template more l = refl

module _ {F : Type 0} (py : Python) where
  -- The enrichment steps give the same, but for the event.
  forget-steps :
      (block : Option String) (known : Option Severity) (no_event : Bool) (uid timestamp : ℕ)
      (line_id event_id : String) (l : Line)
      → forget {F = F} (
          with_warning known l.level (
            if no_event
            then with_block block (row_record py uid (row_of line_id event_id l) timestamp)
            else add_enrichment
                (with_block block (row_record py uid (row_of line_id event_id l) timestamp))
                "event_id"
                (Value.text event_id)))
        ≡ with_warning known l.level
            (with_block block (plain_record py uid (line_text l) l timestamp))
  unfolding add_enrichment
  forget-steps none none true uid timestamp line_id event_id l = refl
  forget-steps none none false uid timestamp line_id event_id l = refl
  forget-steps none (some s) true uid timestamp line_id event_id l = refl
  forget-steps none (some s) false uid timestamp line_id event_id l = refl
  forget-steps (some g) none true uid timestamp line_id event_id l = refl
  forget-steps (some g) none false uid timestamp line_id event_id l = refl
  forget-steps (some g) (some s) true uid timestamp line_id event_id l = refl
  forget-steps (some g) (some s) false uid timestamp line_id event_id l = refl

  forget-of_row :
      (uid : ℕ) (line_id event_id : String) (l : Line)
      → map_parsed forget (of_row {F = F} py uid (row_of line_id event_id l))
        ≡ of_line py uid (line_text l) l
  unfolding of_row of_line
  forget-of_row uid line_id event_id l =
      elim (Option-cases (py.strptime "%y%m%d%H%M%S" (l.date <> l.time))) [
        | inl bad ↦ rw (of_row, of_line, bad) refl
        | inr (timestamp, ok) ↦
            rw (of_row, of_line, ok)
              (ap Parsed.parses (
                forget-steps (search_block py l.content) (lookup l.level level_map) (event_id =? "")
                  uid timestamp line_id event_id l))
      ]

  -- On the text of a line and on a row of its cells the two parsers give the same, errors included,
  -- once the record of the CSV is rid of its entries line_id and event_id. The character classes hold
  -- no separator.
  pub parse-parse :
      (laws : IsPython py) (csv_row : String → CsvRow) (uid : ℕ) (raw : String)
      (line_id event_id template : String) (more : List String) (l : Line)
      → IsLine py l
      → csv_row raw ≡ CsvRow.fields (cells line_id event_id template more l)
      → map_parsed forget (parse {F = F} py csv_row uid raw) ≡ parse_line py uid (line_text l)
  unfolding parse parse_line
  parse-parse laws csv_row uid raw line_id event_id template more l is_line read =
      let whole : match_line py (line_text l) ≡ some l =
        (match_line_iff py laws (line_text l) l).1
          (is_line, ("", inl refl, sym (<>-nil (line_text l)))) in
      rw (parse, parse_line, read, first_nine-cells line_id event_id template more l, whole)
        (forget-of_row uid line_id event_id l)
