-- ===== src/Builder.antt =====
-- src/pipelinex/core/builder.py. The classes of the components are arguments, with constructors that
-- may raise; a validation, template, sessionizing or detector stage is data over them.
pub mod Built
pub mod Tests
use pipelinex.Prelude.{ℕ, String, Bool, true, false, List, [], ◌∷◌, ◌++◌, Option, none, some, map}
use pipelinex.Prelude.Tests.{if◌then◌else◌, leb}
use pipelinex.Prelude.Int.{ℤ, pos, negsuc}
use pipelinex.Prelude.Text.{◌<>◌}
use pipelinex.Prelude.Dict.{Dict}
use pipelinex.Exceptions.{ErrorKind, Result, and_then}
use pipelinex.Models.{Value}
use pipelinex.Factories.{create}
use pipelinex.Executor.{Config}
use pipelinex.Configuration.{
  SourceKind, ValidatorKind, RepositoryKind, SourceConfig, ValidatorConfig, DetectorConfig,
  SequenceDetectorConfig, SessionizerConfig, TemplateMatcherConfig, RepositoryConfig, RuntimeConfig,
  PipelineConfig, is_given,
}

-- The classes that the builder constructs, and the registries of the factories.
pub record Classes (F : Type 0) : Type 1 where
  pub Parser : Type 0
  pub Validator : Type 0
  pub Templates : Type 0
  pub Detector : Type 0
  pub SequenceDetector : Type 0
  pub parser_name : Parser → String
  pub validator_name : Validator → String
  pub detector_name : Detector → String
  pub parsers : Dict String Parser
  pub schema_validator : Dict String (Value F) → Result Validator
  pub size_validator : Dict String (Value F) → Result Validator
  pub rate_limit_validator : Dict String (Value F) → Result Validator
  pub template_matcher : String → Result Templates
  pub numeric : Dict String (Dict String (Value F) → Result Detector)
  pub sequence : Dict String (F → Result SequenceDetector)
  pub has_model : SequenceDetector → Bool
  pub load_model : String → SequenceDetector → Result SequenceDetector
  pub is_os_error : ErrorKind → Bool
  pub log_source : String → Result String
  pub is_at_most_zero : F → Bool

pub data Source (F : Type 0) : Type 0 where
  file : String → String → Option F → Source F
  stdin : Source F
  no_lines : Source F

pub data Repository : Type 0 where
  in_memory : Repository
  postgres_at : String → Repository

module _ {F : Type 0} (k : Classes F) where
  pub data Stage : Type 0 where
    parse : k.Parser → Stage
    validate : List k.Validator → Stage
    match_templates : k.Templates → Stage
    sessionize : SessionizerConfig F → Stage
    detect : k.Detector → Stage

  -- `",".join(...)`
  abbrev pub joined : List String → String
  joined [] = ""
  joined (s ∷ []) = s
  joined (s ∷ t ∷ ss) = s <> "," <> joined (t ∷ ss)

  abbrev pub stage_name : Stage → String
  stage_name (parse p) = "parse:" <> k.parser_name p
  stage_name (validate vs) = "validate:" <> joined (map k.validator_name vs)
  stage_name (match_templates t) = "enrich:template_match"
  stage_name (sessionize c) = "sessionize:block"
  stage_name (detect d) = "detect:" <> k.detector_name d

  -- A missing kind is a `ConfigurationError`.
  abbrev pub from_factory : {A : Type 0} → Option A → Result A
  from_factory none = Result.raises ErrorKind.configuration_error
  from_factory (some a) = Result.returns a

  -- The assertions on a path and a dsn raise an `AssertionError`.
  abbrev pub build_source : SourceConfig F → Result (Source F)
  build_source c = elim c.kind [
    | SourceKind.file ↦ elim c.path [
      | none ↦ Result.raises ErrorKind.other
      | some path ↦
          and_then (k.log_source path)
            (λ found. Result.returns (Source.file found c.encoding c.throttle_rps))
    ]
    | SourceKind.stdin ↦ Result.returns Source.stdin
    | SourceKind.iterable ↦ Result.returns Source.no_lines
  ]

  abbrev pub build_repository : RepositoryConfig → Result Repository
  build_repository c = elim c.kind [
    | RepositoryKind.memory ↦ Result.returns Repository.in_memory
    | RepositoryKind.postgres ↦ elim c.dsn [
      | none ↦ Result.raises ErrorKind.other
      | some dsn ↦ Result.returns (Repository.postgres_at dsn)
    ]
  ]

  abbrev pub build_parser_stage : String → Result Stage
  build_parser_stage kind =
      and_then (from_factory (create k.parsers kind)) (λ parser. Result.returns (parse parser))

  -- One after the other, up to the first that raises.
  abbrev pub build_each : {A B : Type 0} → (A → Result B) → List A → Result (List B)
  build_each build [] = Result.returns []
  build_each build (c ∷ cs) =
      and_then (build c) (λ b. and_then (build_each build cs) (λ bs. Result.returns (b ∷ bs)))

  abbrev pub build_validator : ValidatorConfig F → Result k.Validator
  build_validator c = elim c.kind [
    | ValidatorKind.schema ↦ k.schema_validator c.entries
    | ValidatorKind.size ↦ k.size_validator c.entries
    | ValidatorKind.rate_limit ↦ k.rate_limit_validator c.entries
  ]

  -- An optional stage is a list of one or none.
  abbrev pub build_validation_stage : List (ValidatorConfig F) → Result (List Stage)
  build_validation_stage [] = Result.returns []
  build_validation_stage (c ∷ cs) =
      and_then (build_each build_validator (c ∷ cs)) (λ vs. Result.returns (validate vs ∷ []))

  abbrev pub build_template_stage : TemplateMatcherConfig → Result (List Stage)
  build_template_stage c =
      if c.enabled
      then and_then (k.template_matcher c.templates_path)
          (λ t. Result.returns (match_templates t ∷ []))
      else Result.returns []

  abbrev pub is_positive : ℤ → Bool
  is_positive (pos n) = leb 1 n
  is_positive (negsuc n) = false

  -- The checks of `BlockSessionizerStage.__init__`.
  abbrev pub accepts_settings : SessionizerConfig F → Bool
  accepts_settings c =
      if k.is_at_most_zero c.idle_window_s
      then false
      else if is_positive c.max_records_per_trace
      then is_positive c.max_open_traces
      else false

  -- The constructor raises a `ValueError` for settings that it does not accept.
  abbrev pub build_sessionizer : SessionizerConfig F → Result (List Stage)
  build_sessionizer c =
      if c.enabled
      then if accepts_settings c
        then Result.returns (sessionize c ∷ [])
        else Result.raises ErrorKind.other
      else Result.returns []

  abbrev pub build_detector_stage : DetectorConfig F → Result Stage
  build_detector_stage c =
      and_then (from_factory (create k.numeric c.kind))
        (λ make. and_then (make c.entries) (λ d. Result.returns (detect d)))

  -- The detector takes its model from the file, or starts without one where that cannot be read.
  abbrev pub with_model : k.SequenceDetector → Result k.SequenceDetector → Result k.SequenceDetector
  with_model detector (Result.returns loaded) = Result.returns loaded
  with_model detector (Result.raises kind) =
      if k.is_os_error kind then Result.returns detector else Result.raises kind

  abbrev pub set_model : k.SequenceDetector → Option String → Result k.SequenceDetector
  set_model detector model_path =
      if k.has_model detector
      then if is_given model_path
        then with_model detector (k.load_model (path_text model_path) detector)
        else Result.returns detector
      else Result.returns detector
    where
      path_text : Option String → String
      path_text none = ""
      path_text (some path) = path

  abbrev pub build_sequence_detector :
      Option (SequenceDetectorConfig F) → Result (Option k.SequenceDetector)
  build_sequence_detector none = Result.returns none
  build_sequence_detector (some c) = and_then (from_factory (create k.sequence c.kind)) (λ make.
      and_then (make c.threshold)
        (λ detector. and_then (set_model detector c.model_path) (λ d. Result.returns (some d))))

  -- What the bus calls for a closed trace.
  abbrev pub on_trace_closed : {T A : Type 0} → (T → Option A) → (A → Result Unit) → T → Result Unit
  on_trace_closed detect_trace save_anomaly trace = elim (detect_trace trace) [
    | none ↦ Result.returns tt
    | some anomaly ↦ save_anomaly anomaly
  ]

  pub record BuiltPipeline : Type 0 where
    pub source : Source F
    pub stages : List Stage
    pub repository : Repository
    pub runtime : RuntimeConfig F
    pub sessionizer : Option (SessionizerConfig F)
    pub sequence_detector : Option k.SequenceDetector

  -- The parts, in the order of their construction, put together.
  abbrev pub assemble :
      PipelineConfig F
      → Result Repository
      → Result (Source F)
      → Result Stage
      → Result (List Stage)
      → Result (List Stage)
      → Result (List Stage)
      → Result (List Stage)
      → Result (Option k.SequenceDetector)
      → Result BuiltPipeline
  assemble c repository_r source_r parser_r validator_r template_r sessionizer_r detectors_r
        sequence_r =
      and_then repository_r (λ repository. and_then source_r (λ source.
        and_then parser_r (λ parser_stage. and_then validator_r (λ validator_stage.
          and_then template_r (λ template_stage. and_then sessionizer_r (λ sessionizer_stage.
            and_then detectors_r (λ detector_stages. and_then sequence_r (λ sequence_detector.
              Result.returns (record {
                source = source;
                stages =
                    parser_stage ∷ validator_stage
                    ++ template_stage
                    ++ sessionizer_stage
                    ++ detector_stages;
                repository = repository;
                runtime = c.runtime;
                sessionizer = if c.sessionizer.enabled then some c.sessionizer else none;
                sequence_detector = sequence_detector;
              })))))))))

  unfoldable pub build_pipeline : PipelineConfig F → Result BuiltPipeline
  build_pipeline c =
      assemble c (build_repository c.repository) (build_source c.source)
        (build_parser_stage c.parser_kind) (build_validation_stage c.validation)
        (build_template_stage c.template_matcher) (build_sessionizer c.sessionizer)
        (build_each build_detector_stage c.detectors) (build_sequence_detector c.sequence_detector)

  -- The settings that the executor gets; its run id comes from outside.
  abbrev pub executor_config : ℕ → BuiltPipeline → Config
  executor_config run_id b = record {
    run_id = run_id;
    num_workers = b.runtime.num_workers;
    queue_size = b.runtime.queue_size;
    batch_size = b.runtime.batch_size;
    stage_names = map stage_name b.stages;
  }
