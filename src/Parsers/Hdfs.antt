-- ===== src/Parsers/Hdfs.antt =====
-- src/pipelinex/stages/parsing/hdfs_parser.py. The new record's identifier comes from outside.
pub mod Lines
pub mod Fields
use pipelinex.Prelude.{ℕ, String, Bool, true, false, List, [], ◌∷◌, Option, none, some}
use pipelinex.Prelude.Tests.{if◌then◌else◌}
use pipelinex.Prelude.Text.{◌<>◌, span, many1, exactly, expect, ◌>>=◌}
use pipelinex.Prelude.Equality.{◌=?◌, string_eq}
use pipelinex.Exceptions.{ErrorKind}
use pipelinex.Models.{Value, LogRecord, add_enrichment}
use pipelinex.Stages.Parsing.{Parsed}
use pipelinex.Parsers.{Python, is_name, is_inline, level_map, severity_of, add_block, add_warning}

-- The groups of `_LINE_RE`.
pub record Line : Type 0 where
  pub date : String
  pub time : String
  pub pid : String
  pub level : String
  pub component : String
  pub content : String

-- `$` matches at the end, and before a line feed at the end.
abbrev pub at_end : String → Bool
at_end s = if s =? "" then true else s =? "\n"

module _ (py : Python) where
  -- `_LINE_RE.match`
  unfoldable pub match_line : String → Option Line
  match_line raw = exactly 6 py.is_digit raw >>= (λ (date, s1). expect " " s1 >>= (λ s2.
      exactly 6 py.is_digit s2 >>= (λ (time, s3). expect " " s3 >>= (λ s4.
        many1 py.is_digit s4 >>= (λ (pid, s5). expect " " s5 >>= (λ s6.
          many1 py.is_word s6 >>= (λ (level, s7). expect " " s7 >>= (λ s8.
            many1 (is_name py) s8 >>= (λ (component, s9). expect ": " s9 >>= (λ s10.
              if at_end ((span is_inline s10).1)
              then some (record {
                date = date;
                time = time;
                pid = pid;
                level = level;
                component = component;
                content = (span is_inline s10).0;
              })
              else none))))))))))

  -- `_SHAPE_RE.match`
  unfoldable pub can_parse : String → Bool
  can_parse raw =
      let shape = exactly 6 py.is_digit raw >>= (λ (_, s1). expect " " s1 >>= (λ s2.
        exactly 6 py.is_digit s2 >>= (λ (_, s3).
          expect " " s3 >>= (λ s4. many1 py.is_digit s4 >>= (λ (_, s5). expect " " s5))))) in
      elim shape [ none ↦ false | some _ ↦ true ]

module _ {F : Type 0} (py : Python) where
  -- The record of a line, before the enrichment.
  abbrev pub plain_record : ℕ → String → Line → ℕ → LogRecord F
  plain_record uid raw l timestamp = record {
    id = uid;
    pipeline_run_id = none;
    timestamp = some timestamp;
    source = l.component;
    severity = severity_of level_map l.level;
    message = l.content;
    raw_payload =
        ("pid", Value.text l.pid)
        ∷ ("level_raw", Value.text l.level)
        ∷ ("raw", Value.text raw)
        ∷ [];
    enrichment = [];
    stage_history = [];
  }

  unfoldable pub of_line : ℕ → String → Line → Parsed F
  of_line uid raw l = elim (py.strptime "%y%m%d%H%M%S" (l.date <> l.time)) [
    | none ↦ Parsed.rejects ErrorKind.parser_error
    | some timestamp ↦
        Parsed.parses (
          add_warning level_map l.level (add_block py l.content (plain_record uid raw l timestamp)))
  ]

  unfoldable pub parse : ℕ → String → Parsed F
  parse uid raw = elim (match_line py raw) [
    | none ↦ Parsed.rejects ErrorKind.parser_error
    | some l ↦ of_line uid raw l
  ]
