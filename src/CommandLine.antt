-- ===== src/CommandLine.antt =====
-- src/pipelinex/cli.py. What the parts of a run do is an argument: how the sessionizer starts and
-- stops, how the executor's run ends, and how many anomalies the repository has then. A number of
-- workers below zero starts none, and stands as 0.
pub mod Cleanup
pub mod Overrides
mod Tests
use pipelinex.Prelude.{ℕ, String, Bool, true, false, List, [], ◌∷◌, ◌++◌, Option, none, some}
use pipelinex.Prelude.Tests.{if◌then◌else◌, ◌==◌, leb}
use pipelinex.Exceptions.{ErrorKind, Result}
use pipelinex.Configuration.{SourceKind, PipelineConfig}
use pipelinex.Builder.{Classes, BuiltPipeline, build_pipeline}

-- The options of `pipelinex run`.
pub record RunArgs : Type 0 where
  pub source_path : Option String
  pub workers : Option ℕ

module _ {F : Type 0} where
  abbrev pub override_source : Option String → PipelineConfig F → PipelineConfig F
  override_source none c = c
  override_source (some path) c = record c {
    source = record c.source { path = some path; kind = SourceKind.file };
  }

  abbrev pub override_workers : Option ℕ → PipelineConfig F → PipelineConfig F
  override_workers none c = c
  override_workers (some workers) c = record c {
    runtime = record c.runtime { num_workers = workers };
  }

  abbrev pub overridden : RunArgs → PipelineConfig F → PipelineConfig F
  overridden args c = override_workers args.workers (override_source args.source_path c)

pub record Outcomes : Type 0 where
  pub started : Result Unit
  pub execute : Result Unit
  pub stopped : Result Unit
  -- `all_anomalies`, where the repository has it.
  pub anomalies : Option (Result ℕ)

-- What a run does, in order.
pub data Step : Type 0 where
  starts runs stops reports : Step
  counts : ℕ → Step

-- The `finally` clause: an exception of `stop` takes the place of the run's.
abbrev pub finally_stop : Outcomes → Bool → List Step → Result Unit → List Step × Result Unit
finally_stop o false steps ended = (steps, ended)
finally_stop o true steps ended = (
  steps ++ Step.stops ∷ [],
  elim o.stopped [ Result.returns _ ↦ ended | Result.raises kind ↦ Result.raises kind ],
)

abbrev pub count_anomalies : Option (Result ℕ) → List Step → List Step × Result ℕ
count_anomalies none steps = (steps, Result.returns 0)
count_anomalies (some (Result.raises kind)) steps = (steps, Result.raises kind)
count_anomalies (some (Result.returns n)) steps =
    (if n == 0 then steps else steps ++ Step.counts n ∷ [], Result.returns 0)

abbrev pub summarise : Outcomes → List Step × Result Unit → List Step × Result ℕ
summarise o (steps, Result.raises kind) = (steps, Result.raises kind)
summarise o (steps, Result.returns _) = count_anomalies o.anomalies (steps ++ Step.reports ∷ [])

-- `_run` once the pipeline is built; the flag says that it has a sessionizer.
unfoldable pub run_built : Outcomes → Bool → List Step × Result ℕ
run_built o false = summarise o (finally_stop o false (Step.runs ∷ []) o.execute)
run_built o true = elim o.started [
  | Result.raises kind ↦ (Step.starts ∷ [], Result.raises kind)
  | Result.returns _ ↦ summarise o (finally_stop o true (Step.starts ∷ Step.runs ∷ []) o.execute)
]

abbrev pub is_some : {A : Type 0} → Option A → Bool
is_some none = false
is_some (some a) = true

module _ {F : Type 0} (k : Classes F) where
  abbrev pub run_pipeline : Outcomes → Result (BuiltPipeline k) → List Step × Result ℕ
  run_pipeline o (Result.raises kind) = ([], Result.raises kind)
  run_pipeline o (Result.returns b) = run_built o (is_some b.sessionizer)

  -- `_run`, from what `load_config` returns.
  unfoldable pub run_command : Outcomes → RunArgs → Result (PipelineConfig F) → List Step × Result ℕ
  run_command o args (Result.raises kind) = ([], Result.raises kind)
  run_command o args (Result.returns c) = run_pipeline o (build_pipeline k (overridden args c))

-- `_serve`, where uvicorn may be missing, and `_info`.
abbrev pub serve : Bool → ℕ
serve has_uvicorn = if has_uvicorn then 0 else 2

abbrev pub info : ℕ
info = 0

pub data Command : Type 0 where
  run_with serve_api show_info unknown : Command

-- `main`, with the outcome of `_run`.
abbrev pub main : Command → Result ℕ → Bool → Result ℕ
main Command.run_with ran has_uvicorn = ran
main Command.serve_api ran has_uvicorn = Result.returns (serve has_uvicorn)
main Command.show_info ran has_uvicorn = Result.returns info
main Command.unknown ran has_uvicorn = Result.returns 2

-- The level of `_configure_logging`.
abbrev pub logging_level : ℕ → String
logging_level verbose =
    if verbose == 1 then "INFO" else if leb 2 verbose then "DEBUG" else "WARNING"
