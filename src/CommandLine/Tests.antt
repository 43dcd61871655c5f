-- ===== src/CommandLine/Tests.antt =====
-- Runs of `pipelinex run` on the pipeline of Builder/Tests.
use pipelinex.Prelude.{ℕ, ◌<◌, true, [], ◌∷◌, none, some, ◌≡◌, refl, map, ◌⊎◌}
use pipelinex.Exceptions.{ErrorKind, Result}
use pipelinex.Executor.{Main, Executor, produce, wrap_line, init}
use pipelinex.Executor.Actions.{Action, step, run}
use pipelinex.Executor.Progress.{CanFinish}
use pipelinex.Factories.{create}
use pipelinex.Builder.{BuiltPipeline, build_pipeline, executor_config}
use pipelinex.Builder.Tests.{named, pipeline, expected, accepted}
use pipelinex.CommandLine.{
  RunArgs, overridden, Outcomes, Step, run_built, run_command, logging_level,
}
use pipelinex.CommandLine.Cleanup.{IsClean, run_built_lem}
use pipelinex.CommandLine.Overrides.{workers_of, build_pipeline-overridden}

-- `--workers 0`
abbrev args : RunArgs
args = record { source_path = none; workers = some 0 }

abbrev idle : BuiltPipeline named
idle = record expected { runtime = record expected.runtime { num_workers = 0 } }

idle_built : build_pipeline named (overridden args pipeline) ≡ Result.returns idle
unfolding build_pipeline create
idle_built = refl

abbrev fresh : Executor ℕ
fresh = init (executor_config named 1 idle) ("a" ∷ "b" ∷ [])

-- A line in the queue.
abbrev queued : Executor ℕ
queued = record fresh { lines = "b" ∷ []; queue = wrap_line 1 7 "a" ∷ []; unfinished = 1 }

ran : run (Action.produces 7 ∷ []) fresh ≡ some queued
unfolding run step produce wrap_line init
ran = refl

build_pipeline-overridden_example :
    ((0 < workers_of named args pipeline) × CanFinish queued)
    ⊎ ((workers_of named args pipeline ≡ 0) × (queued.main ≡ Main.joining))
build_pipeline-overridden_example =
    build_pipeline-overridden named (λ f. true) pipeline pipeline args idle 1 "a" ("b" ∷ [])
      (Action.produces 7 ∷ []) queued accepted idle_built ran

abbrev source_raises : Outcomes
source_raises = record {
  started = Result.returns tt;
  execute = Result.raises ErrorKind.source_error;
  stopped = Result.returns tt;
  anomalies = some (Result.returns 3);
}

run_built_lem_example : IsClean source_raises true (run_built source_raises true)
run_built_lem_example = run_built_lem source_raises true

-- The sessionizer is stopped, and the exception goes on.
source_failed :
    run_command named source_raises args (Result.returns pipeline)
    ≡ (Step.starts ∷ Step.runs ∷ Step.stops ∷ [], Result.raises ErrorKind.source_error)
unfolding run_command run_built build_pipeline create
source_failed = refl

levels : map logging_level (0 ∷ 1 ∷ 2 ∷ 3 ∷ []) ≡ "WARNING" ∷ "INFO" ∷ "DEBUG" ∷ "DEBUG" ∷ []
levels = refl
