-- ===== src/Configuration.antt =====
-- The schemas of src/pipelinex/core/config.py, with the checks that they add to the types. `positive`
-- stands for a float above zero.
use pipelinex.Prelude.{ℕ, String, Bool, true, false, List, Option, none, some}
use pipelinex.Prelude.Tests.{if◌then◌else◌, leb}
use pipelinex.Prelude.Dict.{Dict}
use pipelinex.Prelude.Equality.{◌=?◌, string_eq}
use pipelinex.Exceptions.{ErrorKind, Result}
use pipelinex.Prelude.Int.{ℤ}
use pipelinex.Models.{Value}

pub data SourceKind : Type 0 where
  file stdin iterable : SourceKind

pub data ValidatorKind : Type 0 where
  schema size rate_limit : ValidatorKind

pub data RepositoryKind : Type 0 where
  memory postgres : RepositoryKind

pub record SourceConfig (F : Type 0) : Type 0 where
  pub kind : SourceKind
  pub path : Option String
  pub encoding : String
  pub throttle_rps : Option F

-- The entries beside the kind are what `model_dump(exclude={"kind"})` yields.
pub record ValidatorConfig (F : Type 0) : Type 0 where
  pub kind : ValidatorKind
  pub entries : Dict String (Value F)

pub record DetectorConfig (F : Type 0) : Type 0 where
  pub kind : String
  pub entries : Dict String (Value F)

pub record SequenceDetectorConfig (F : Type 0) : Type 0 where
  pub kind : String
  pub model_path : Option String
  pub threshold : F

pub record SessionizerConfig (F : Type 0) : Type 0 where
  pub enabled : Bool
  pub idle_window_s : F
  pub max_records_per_trace : ℤ
  pub max_open_traces : ℤ
  pub flush_interval_s : F

pub record TemplateMatcherConfig : Type 0 where
  pub enabled : Bool
  pub templates_path : String

pub record RepositoryConfig : Type 0 where
  pub kind : RepositoryKind
  pub dsn : Option String

pub record RuntimeConfig (F : Type 0) : Type 0 where
  pub num_workers : ℕ
  pub queue_size : ℕ
  pub batch_size : ℕ
  pub flush_interval_s : F

pub record PipelineConfig (F : Type 0) : Type 0 where
  pub source : SourceConfig F
  pub parser_kind : String
  pub validation : List (ValidatorConfig F)
  pub template_matcher : TemplateMatcherConfig
  pub sessionizer : SessionizerConfig F
  pub detectors : List (DetectorConfig F)
  pub sequence_detector : Option (SequenceDetectorConfig F)
  pub repository : RepositoryConfig
  pub runtime : RuntimeConfig F

-- A text that is there and not empty.
abbrev pub is_given : Option String → Bool
is_given none = false
is_given (some text) = if text =? "" then false else true

-- `_dsn_required_for_postgres`
abbrev pub has_dsn : RepositoryConfig → Bool
has_dsn c = elim c.kind [ RepositoryKind.postgres ↦ is_given c.dsn | _ ↦ true ]

module _ {F : Type 0} where
  -- `_path_required_for_file`
  abbrev pub has_path : SourceConfig F → Bool
  has_path c = elim c.kind [ SourceKind.file ↦ is_given c.path | _ ↦ true ]

  -- The bounds of the fields.
  abbrev pub in_bounds : (F → Bool) → RuntimeConfig F → Bool
  in_bounds positive c =
      if leb 1 c.num_workers
      then if leb c.num_workers 64
        then if leb 1 c.queue_size
          then if leb 1 c.batch_size then positive c.flush_interval_s else false
          else false
        else false
      else false

  -- `parse_config`, of a dict whose fields have their types.
  unfoldable pub parse_config : (F → Bool) → PipelineConfig F → Result (PipelineConfig F)
  parse_config positive c =
      if has_path c.source
      then if has_dsn c.repository
        then if in_bounds positive c.runtime
          then Result.returns c
          else Result.raises ErrorKind.configuration_error
        else Result.raises ErrorKind.configuration_error
      else Result.raises ErrorKind.configuration_error
