-- ===== src/Parsers/Bgl.antt =====
-- src/pipelinex/stages/parsing/bgl_parser.py. The new record's identifier comes from outside.
pub mod Words
pub mod Reads
use pipelinex.Prelude.{
  ℕ, zero, suc, String, Bool, true, false, not, List, [], ◌∷◌, Option, none, some,
}
use pipelinex.Prelude.Tests.{if◌then◌else◌}
use pipelinex.Prelude.Text.{span, ◌>>=◌}
use pipelinex.Prelude.Dict.{Dict}
use pipelinex.Prelude.Equality.{◌=?◌, string_eq}
use pipelinex.Exceptions.{ErrorKind}
use pipelinex.Models.{Severity, Value, LogRecord, add_enrichment}
use pipelinex.Stages.Parsing.{Parsed}
use pipelinex.Parsers.{Python, uncons, severity_of, add_warning}

-- `_LEVEL_MAP`
abbrev pub bgl_level_map : Dict String Severity
bgl_level_map =
    ("DEBUG", Severity.debug)
    ∷ ("INFO", Severity.info)
    ∷ ("WARN", Severity.warning)
    ∷ ("WARNING", Severity.warning)
    ∷ ("ERROR", Severity.error)
    ∷ ("FATAL", Severity.critical)
    ∷ ("SEVERE", Severity.critical)
    ∷ ("FAILURE", Severity.critical)
    ∷ []

-- The fields that the record takes.
pub record BglLine : Type 0 where
  pub label : String
  pub node : String
  pub time_str : String
  pub node_repeat : String
  pub log_type : String
  pub component : String
  pub level : String
  pub content : String

-- The fields of a list that has ten or more.
unfoldable pub ten_fields : List String → Option BglLine
ten_fields parts = uncons parts >>= (λ (label, r1). uncons r1 >>= (λ (_, r2).
    uncons r2 >>= (λ (_, r3). uncons r3 >>= (λ (node, r4). uncons r4 >>= (λ (time_str, r5).
      uncons r5 >>= (λ (node_repeat, r6). uncons r6 >>= (λ (log_type, r7).
        uncons r7 >>= (λ (component, r8). uncons r8 >>= (λ (level, r9).
          uncons r9 >>= (λ (content, _). some (record {
            label = label;
            node = node;
            time_str = time_str;
            node_repeat = node_repeat;
            log_type = log_type;
            component = component;
            level = level;
            content = content;
          })))))))))))

module _ (py : Python) where
  abbrev pub is_solid : ℕ → Bool
  is_solid c = not (py.is_space c)

  abbrev pub lstrip : String → String
  lstrip s = (span py.is_space s).1

  -- `s.split(maxsplit=n)`: after n splits the rest is one part, with the white space at its end.
  unfoldable pub split_max : ℕ → String → List String
  split_max zero s = let t = lstrip s in if t =? "" then [] else t ∷ []
  split_max (suc n) s =
      let t = lstrip s in
      let more = split_max n ((span is_solid t).1) in
      if t =? "" then [] else (span is_solid t).0 ∷ more

  unfoldable pub can_parse : String → Bool
  can_parse raw = elim (split_max 1 raw) [
    | [] ↦ false
    | first ∷ _ ↦
        if first =? "-" then true else if py.isupper first then py.isalpha first else false
  ]

module _ {F : Type 0} (py : Python) where
  abbrev pub bgl_record : ℕ → String → BglLine → ℕ → LogRecord F
  bgl_record uid raw l timestamp = record {
    id = uid;
    pipeline_run_id = none;
    timestamp = some timestamp;
    source = l.component;
    severity = severity_of bgl_level_map l.level;
    message = l.content;
    raw_payload =
        ("type", Value.text l.log_type)
        ∷ ("level_raw", Value.text l.level)
        ∷ ("node_repeat", Value.text l.node_repeat)
        ∷ ("raw", Value.text raw)
        ∷ [];
    enrichment = [];
    stage_history = [];
  }

  abbrev pub labelled : ℕ → String → BglLine → ℕ → LogRecord F
  labelled uid raw l timestamp =
      add_enrichment
        (add_enrichment (bgl_record uid raw l timestamp) "bgl_label" (Value.text l.label)) "node"
        (Value.text l.node)

  unfoldable pub of_fields : ℕ → String → BglLine → Parsed F
  of_fields uid raw l = elim (py.strptime "%Y-%m-%d-%H.%M.%S.%f" l.time_str) [
    | none ↦ Parsed.rejects ErrorKind.parser_error
    | some timestamp ↦
        Parsed.parses (add_warning bgl_level_map l.level (labelled uid raw l timestamp))
  ]

  unfoldable pub parse : ℕ → String → Parsed F
  parse uid raw = elim (ten_fields (split_max py 9 raw)) [
    | none ↦ Parsed.rejects ErrorKind.parser_error
    | some l ↦ of_fields uid raw l
  ]
