-- ===== src/Stages/Parsing.antt =====
-- `ParserStage` and `ParserFactory`: src/pipelinex/stages/parsing/parser_stage.py and factory.py.
use pipelinex.Prelude.{◌≡◌, refl, String, [], ◌∷◌, Option, none, some, arith, ◌⊎◌, inl, inr}
use pipelinex.Prelude.Tests.{Option-cases, if◌then◌else◌, Bool-cases}
use pipelinex.Prelude.Dict.{Dict, lookup, contains, insert, lookup-insert}
use pipelinex.Prelude.Equality.{◌=?◌, string_eq}
use pipelinex.Exceptions.{ErrorKind, is_parser_error}
use pipelinex.Models.{Value, LogRecord}
use pipelinex.Stages.{Outcome}

-- `parse` of a parser: a new record, or an exception.
pub data Parsed (F : Type 0) : Type 0 where
  parses : LogRecord F → Parsed F
  rejects : ErrorKind → Parsed F

module _ {F : Type 0} where
  -- `setdefault` for each entry of a dict.
  abbrev pub set_defaults : Dict String (Value F) → Dict String (Value F) → Dict String (Value F)
  set_defaults d [] = d
  set_defaults d ((k, v) ∷ more) = set_defaults (if contains k d then d else insert k v d) more

  -- The parsed record takes over the identity, and the enrichment that it does not have itself.
  unfoldable pub carry_over : LogRecord F → LogRecord F → LogRecord F
  carry_over r parsed = record parsed {
    id = r.id;
    pipeline_run_id = r.pipeline_run_id;
    stage_history = r.stage_history;
    enrichment = set_defaults parsed.enrichment r.enrichment;
  }

  abbrev pub after_parse : LogRecord F → Parsed F → Outcome F
  after_parse r (Parsed.parses parsed) = Outcome.returned (carry_over r parsed)
  after_parse r (Parsed.rejects kind) =
      if is_parser_error kind
      then Outcome.raised ErrorKind.fatal_stage_error r
      else Outcome.raised kind r

  -- `isinstance(raw, str)`
  unfoldable pub raw_text : LogRecord F → Option String
  raw_text r = elim (lookup "raw" r.raw_payload) [ some (Value.text raw) ↦ some raw | _ ↦ none ]

  unfoldable pub process : (String → Parsed F) → LogRecord F → Outcome F
  process parse r = elim (raw_text r) [
    | none ↦ Outcome.raised ErrorKind.fatal_stage_error r
    | some raw ↦ after_parse r (parse raw)
  ]

  -- An entry of its own wins over the one carried over.
  abbrev pub first_of : Option (Value F) → Option (Value F) → Option (Value F)
  first_of (some v) other = some v
  first_of none other = other

  lookup-set_default :
      (key k : String) (v : Value F) (d : Dict String (Value F))
      → lookup key (if contains k d then d else insert k v d)
        ≡ first_of (lookup key d) (if key =? k then some v else none)
  lookup-set_default key k v d = ground (arith, lookup-insert k key v d, string_eq.beq_iff key k)

  lookup-set_defaults :
      (key : String) (d more : Dict String (Value F))
      → lookup key (set_defaults d more) ≡ first_of (lookup key d) (lookup key more)
  lookup-set_defaults key d [] = ground arith
  lookup-set_defaults key d ((k, v) ∷ more) =
      let ih = lookup-set_defaults key (if contains k d then d else insert k v d) more in
      ground (arith, ih, lookup-set_default key k v d)

  -- What the stage hands on of a record and of what its parser made of it.
  pub record IsCarried (r parsed q : LogRecord F) : Type 0 where
    pub same_id : q.id ≡ r.id
    pub same_run : q.pipeline_run_id ≡ r.pipeline_run_id
    pub same_history : q.stage_history ≡ r.stage_history
    pub fields_of_parser :
        (q.message ≡ parsed.message)
        × (q.source ≡ parsed.source)
        × (q.severity ≡ parsed.severity)
        × (q.timestamp ≡ parsed.timestamp)
        × (q.raw_payload ≡ parsed.raw_payload)
    pub enriched :
        (key : String)
        → lookup key q.enrichment
          ≡ first_of (lookup key parsed.enrichment) (lookup key r.enrichment)

  -- What the stage does with a record: no text to parse and a parser error are fatal, another
  -- exception passes, and a parsed record keeps the identity and the earlier enrichment.
  abbrev pub Handles : (String → Parsed F) → LogRecord F → Outcome F → Type 0
  Handles parse r (Outcome.returned q) =
      (raw : String) × (parsed : LogRecord F) × (raw_text r ≡ some raw)
      × (parse raw ≡ Parsed.parses parsed)
      × IsCarried r parsed q
  Handles parse r (Outcome.raised kind q) =
      (q ≡ r)
      × (((raw_text r ≡ none) × (kind ≡ ErrorKind.fatal_stage_error))
          ⊎ ((raw : String) × (why : ErrorKind) × (raw_text r ≡ some raw)
              × (parse raw ≡ Parsed.rejects why)
              × (kind ≡ (if is_parser_error why then ErrorKind.fatal_stage_error else why))))

  carry_over-IsCarried : (r parsed : LogRecord F) → IsCarried r parsed (carry_over r parsed)
  unfolding carry_over
  carry_over-IsCarried r parsed = record {
    same_id = refl;
    same_run = refl;
    same_history = refl;
    fields_of_parser = (refl, refl, refl, refl, refl);
    enriched = λ key. lookup-set_defaults key parsed.enrichment r.enrichment;
  }

  handled :
      (parse : String → Parsed F) (r : LogRecord F) (raw : String) (result : Parsed F)
      → raw_text r ≡ some raw
      → parse raw ≡ result
      → Handles parse r (after_parse r result)
  handled parse r raw (Parsed.parses parsed) there made =
      (raw, parsed, there, made, carry_over-IsCarried r parsed)
  handled parse r raw (Parsed.rejects why) there made = elim (Bool-cases (is_parser_error why)) [
    | inl own ↦ rw (own, after_parse) (refl, inr (raw, why, there, made, rw own refl))
    | inr not_own ↦ rw (not_own, after_parse) (refl, inr (raw, why, there, made, rw not_own refl))
  ]

  process_no_text :
      (parse : String → Parsed F) (r : LogRecord F)
      → raw_text r ≡ none
      → process parse r ≡ Outcome.raised ErrorKind.fatal_stage_error r
  unfolding process
  process_no_text parse r absent = rw (process, absent) refl

  process_text :
      (parse : String → Parsed F) (r : LogRecord F) (raw : String)
      → raw_text r ≡ some raw
      → process parse r ≡ after_parse r (parse raw)
  unfolding process
  process_text parse r raw there = rw (process, there) refl

  -- The stage returns a record only when it holds a text that the parser parses, with the identity
  -- of the input and its enrichment where the parser set none; otherwise it leaves the record as it
  -- was and raises a fatal error, or the exception of the parser that is no parser error.
  pub process-Handles :
      (parse : String → Parsed F) (r : LogRecord F) → Handles parse r (process parse r)
  process-Handles parse r = elim (Option-cases (raw_text r)) [
    | inl absent ↦ rw (process_no_text parse r absent) (refl, inl (absent, refl))
    | inr (raw, there) ↦
        rw (process_text parse r raw there) (handled parse r raw (parse raw) there refl)
  ]
