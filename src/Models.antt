-- ===== src/Models.antt =====
-- The domain models of src/pipelinex/core/models.py. `F` stands for Python's float. Identifiers
-- (UUID) and instants (datetime, in whole microseconds since the epoch) are numbers: the program
-- only compares them. `Value` is what an entry of a `dict[str, Any]` holds.
use pipelinex.Prelude.{ℕ, String, Bool, true, false, List, [], ◌∷◌, ◌++◌, Option, some}
use pipelinex.Prelude.Dict.{Dict, insert}
use pipelinex.Prelude.Equality.{string_eq}
use pipelinex.Prelude.Int.{ℤ}

pub data Severity : Type 0 where
  debug info warning error critical : Severity

-- The text of a `StrEnum` member.
abbrev pub severity_text : Severity → String
severity_text Severity.debug = "DEBUG"
severity_text Severity.info = "INFO"
severity_text Severity.warning = "WARNING"
severity_text Severity.error = "ERROR"
severity_text Severity.critical = "CRITICAL"

-- `other` is any value that is none of the rest; the flag says whether it is hashable, as None is
-- and a dict is not.
pub data Value (F : Type 0) : Type 0 where
  text : String → Value F
  int : ℤ → Value F
  float : F → Value F
  boolean : Bool → Value F
  text_lists : List (List String) → Value F
  other : Bool → Value F

-- Whether `hash(value)` returns; None stands for an entry that is missing.
abbrev pub is_hashable : {F : Type 0} → Option (Value F) → Bool
is_hashable (some (Value.text_lists gs)) = false
is_hashable (some (Value.other hashable)) = hashable
is_hashable _ = true

pub record LogRecord (F : Type 0) : Type 0 where
  pub id : ℕ
  pub pipeline_run_id : Option ℕ
  pub timestamp : Option ℕ
  pub source : String
  pub severity : Severity
  pub message : String
  pub raw_payload : Dict String (Value F)
  pub enrichment : Dict String (Value F)
  pub stage_history : List String

module _ {F : Type 0} where
  unfoldable pub add_enrichment : LogRecord F → String → Value F → LogRecord F
  add_enrichment r key value = record r { enrichment = insert key value r.enrichment }

  unfoldable pub mark_stage : LogRecord F → String → LogRecord F
  mark_stage r stage_name = record r { stage_history = r.stage_history ++ stage_name ∷ [] }

pub record AnomalyEvent (F : Type 0) : Type 0 where
  pub id : ℕ
  pub log_record_id : ℕ
  pub detector_name : String
  pub severity_score : F
  pub detected_at : ℕ
  pub metadata : Dict String (Value F)

pub data ClosedReason : Type 0 where
  terminal timeout shutdown evicted : ClosedReason

abbrev pub reason_text : ClosedReason → String
reason_text ClosedReason.terminal = "terminal"
reason_text ClosedReason.timeout = "timeout"
reason_text ClosedReason.shutdown = "shutdown"
reason_text ClosedReason.evicted = "evicted"

pub record BlockTrace : Type 0 where
  pub block_id : String
  pub event_sequence : List String
  pub record_ids : List ℕ
  pub first_timestamp : ℕ
  pub last_timestamp : ℕ
  pub record_count : ℕ
  pub pipeline_run_id : ℕ
  pub closed_reason : ClosedReason
