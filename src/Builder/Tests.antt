-- ===== src/Builder/Tests.antt =====
-- Witnesses of the theorem on the builder, with components that are their names.
use pipelinex.Prelude.{ℕ, ◌≡◌, refl, String, true, [], ◌∷◌, none, some, map}
use pipelinex.Prelude.Equality.{string_eq}
use pipelinex.Prelude.Tests.{◌==◌}
use pipelinex.Prelude.Int.{pos}
use pipelinex.Exceptions.{ErrorKind, Result}
use pipelinex.Factories.{create}
use pipelinex.Configuration.{
  SourceKind, ValidatorKind, RepositoryKind, PipelineConfig, parse_config,
}
use pipelinex.Builder.{
  Classes, Source, Repository, Stage, BuiltPipeline, build_pipeline, stage_name,
}
use pipelinex.Builder.Built.{IsSound, build_pipeline-IsSound}

abbrev pub named : Classes ℕ
named = record {
  Parser = String;
  Validator = String;
  Templates = String;
  Detector = String;
  SequenceDetector = String;
  parser_name = λ p. p;
  validator_name = λ v. v;
  detector_name = λ d. d;
  parsers = ("hdfs", "hdfs") ∷ [];
  schema_validator = λ entries. Result.returns "schema";
  size_validator = λ entries. Result.returns "size";
  rate_limit_validator = λ entries. Result.returns "rate_limit";
  template_matcher = λ path. Result.returns path;
  numeric = ("iqr", λ entries. Result.returns "iqr") ∷ [];
  sequence = ("sequence_ngram", λ threshold. Result.returns "ngram") ∷ [];
  has_model = λ d. true;
  load_model = λ path d. Result.raises ErrorKind.other;
  is_os_error = λ kind. true;
  log_source = λ path. Result.returns path;
  is_at_most_zero = λ f. f == 0;
}

abbrev pub pipeline : PipelineConfig ℕ
pipeline = record {
  source = record {
    kind = SourceKind.file;
    path = some "a.log";
    encoding = "utf-8";
    throttle_rps = none;
  };
  parser_kind = "hdfs";
  validation = record { kind = ValidatorKind.size; entries = [] } ∷ [];
  template_matcher = record { enabled = true; templates_path = "t.csv" };
  sessionizer = record {
    enabled = true;
    idle_window_s = 30;
    max_records_per_trace = pos 10;
    max_open_traces = pos 10;
    flush_interval_s = 5;
  };
  detectors = record { kind = "iqr"; entries = [] } ∷ record { kind = "iqr"; entries = [] } ∷ [];
  sequence_detector =
      some (record { kind = "sequence_ngram"; model_path = some "m.json"; threshold = 0 });
  repository = record { kind = RepositoryKind.memory; dsn = none };
  runtime = record { num_workers = 4; queue_size = 10; batch_size = 5; flush_interval_s = 1 };
}

abbrev pub expected : BuiltPipeline named
expected = record {
  source = Source.file "a.log" "utf-8" none;
  stages =
      Stage.parse "hdfs"
      ∷ Stage.validate ("size" ∷ [])
      ∷ Stage.match_templates "t.csv"
      ∷ Stage.sessionize pipeline.sessionizer
      ∷ Stage.detect "iqr"
      ∷ Stage.detect "iqr"
      ∷ [];
  repository = Repository.in_memory;
  runtime = pipeline.runtime;
  sessionizer = some pipeline.sessionizer;
  sequence_detector = some "ngram";
}

pub accepted : parse_config (λ f. true) pipeline ≡ Result.returns pipeline
unfolding parse_config
accepted = refl

-- The model cannot be read, so that the sequence detector starts without one.
built : build_pipeline named pipeline ≡ Result.returns expected
unfolding build_pipeline create
built = refl

build_pipeline-IsSound_example : IsSound named pipeline expected
build_pipeline-IsSound_example =
    build_pipeline-IsSound named (λ f. true) pipeline pipeline expected accepted built

names :
    map (stage_name named) expected.stages
    ≡ "parse:hdfs" ∷ "validate:size" ∷ "enrich:template_match" ∷ "sessionize:block" ∷ "detect:iqr"
      ∷ "detect:iqr" ∷ []
names = refl

-- A cap of no records is accepted by the schema, and refused by the stage.
refused :
    build_pipeline named (record pipeline {
      sessionizer = record pipeline.sessionizer { max_records_per_trace = pos 0 };
    })
    ≡ Result.raises ErrorKind.other
unfolding build_pipeline create
refused = refl
