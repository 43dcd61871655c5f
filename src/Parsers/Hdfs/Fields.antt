-- ===== src/Parsers/Hdfs/Fields.antt =====
-- The fields of the record that src/pipelinex/stages/parsing/hdfs_parser.py makes of a line.
use pipelinex.Prelude.{ℕ, ◌≡◌, ◌⊎◌, refl, String, [], ◌∷◌, ◌++◌, Option, none, some, inl, inr}
use pipelinex.Prelude.Text.{◌<>◌}
use pipelinex.Prelude.Tests.{Option-cases}
use pipelinex.Prelude.Dict.{Dict, lookup}
use pipelinex.Prelude.Equality.{string_eq}
use pipelinex.Exceptions.{ErrorKind}
use pipelinex.Models.{Severity, Value, LogRecord, add_enrichment}
use pipelinex.Stages.Parsing.{Parsed}
use pipelinex.Parsers.{Python, search_block, level_map, severity_of, with_block, with_warning}
use pipelinex.Parsers.Hdfs.{Line, plain_record, of_line}

abbrev pub known_or_info : Option Severity → Severity
known_or_info none = Severity.info
known_or_info (some s) = s

module _ {F : Type 0} where
  -- The entry for a block that the content names.
  abbrev pub block_entry : Option String → Dict String (Value F)
  block_entry none = []
  block_entry (some group) = ("block_id", Value.text ("blk_" <> group)) ∷ []

  -- The entry for a level that is in no entry of the table.
  abbrev pub warning_entry : Option Severity → String → Dict String (Value F)
  warning_entry (some s) level = []
  warning_entry none level = ("parse_warning", Value.text ("unknown level: " <> level)) ∷ []

  -- Each part of a line and what is found in it, in its field.
  pub record IsOfLine (py : Python) (uid : ℕ) (raw : String) (l : Line) (ts : ℕ) (q : LogRecord F)
      : Type 0 where
    pub fresh : (q.id ≡ uid) × (q.pipeline_run_id ≡ none) × (q.stage_history ≡ [])
    pub at_instant : q.timestamp ≡ some ts
    pub from_component : q.source ≡ l.component
    pub with_content : q.message ≡ l.content
    pub of_level : q.severity ≡ known_or_info (lookup l.level level_map)
    pub raw_pid : lookup "pid" q.raw_payload ≡ some (Value.text l.pid)
    pub raw_level : lookup "level_raw" q.raw_payload ≡ some (Value.text l.level)
    pub raw_line : lookup "raw" q.raw_payload ≡ some (Value.text raw)
    pub enriched :
        q.enrichment
        ≡ block_entry (search_block py l.content)
          ++ warning_entry (lookup l.level level_map) l.level

  enriched_IsOfLine :
      (py : Python) (uid : ℕ) (raw : String) (l : Line) (ts : ℕ) (block : Option String)
      (level : Option Severity)
      → search_block py l.content ≡ block
      → lookup l.level level_map ≡ level
      → IsOfLine py uid raw l ts
          (with_warning level l.level (with_block block (plain_record py uid raw l ts)))
  unfolding add_enrichment
  enriched_IsOfLine py uid raw l ts none none b v = record {
    fresh = (refl, refl, refl);
    at_instant = refl;
    from_component = refl;
    with_content = refl;
    of_level = rw (severity_of, v) refl;
    raw_pid = refl;
    raw_level = refl;
    raw_line = refl;
    enriched = rw (b, v) refl;
  }
  enriched_IsOfLine py uid raw l ts none (some s) b v = record {
    fresh = (refl, refl, refl);
    at_instant = refl;
    from_component = refl;
    with_content = refl;
    of_level = rw (severity_of, v) refl;
    raw_pid = refl;
    raw_level = refl;
    raw_line = refl;
    enriched = rw (b, v) refl;
  }
  enriched_IsOfLine py uid raw l ts (some g) none b v = record {
    fresh = (refl, refl, refl);
    at_instant = refl;
    from_component = refl;
    with_content = refl;
    of_level = rw (severity_of, v) refl;
    raw_pid = refl;
    raw_level = refl;
    raw_line = refl;
    enriched = rw (b, v) refl;
  }
  enriched_IsOfLine py uid raw l ts (some g) (some s) b v = record {
    fresh = (refl, refl, refl);
    at_instant = refl;
    from_component = refl;
    with_content = refl;
    of_level = rw (severity_of, v) refl;
    raw_pid = refl;
    raw_level = refl;
    raw_line = refl;
    enriched = rw (b, v) refl;
  }

  -- What becomes of a line: a parser error if its time cannot be read, or else its record.
  abbrev pub BecomesRecord : Python → ℕ → String → Line → Parsed F → Type 0
  BecomesRecord py uid raw l result =
      ((py.strptime "%y%m%d%H%M%S" (l.date <> l.time) ≡ none)
        × (result ≡ Parsed.rejects ErrorKind.parser_error))
      ⊎ ((ts : ℕ) × (q : LogRecord F) × (py.strptime "%y%m%d%H%M%S" (l.date <> l.time) ≡ some ts)
          × (result ≡ Parsed.parses q)
          × IsOfLine py uid raw l ts q)

  pub of_line-BecomesRecord :
      (py : Python) (uid : ℕ) (raw : String) (l : Line)
      → BecomesRecord py uid raw l (of_line py uid raw l)
  unfolding of_line
  of_line-BecomesRecord py uid raw l =
      elim (Option-cases (py.strptime "%y%m%d%H%M%S" (l.date <> l.time))) [
        | inl unread ↦ inl (unread, rw (of_line, unread) refl)
        | inr (ts, read) ↦ inr (
          ts,
          _,
          read,
          rw (of_line, read) refl,
          enriched_IsOfLine py uid raw l ts (search_block py l.content) (lookup l.level level_map)
              refl refl,
        )
      ]
