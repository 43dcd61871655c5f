-- ===== src/CommandLine/Overrides.antt =====
-- The options of `pipelinex run` in src/pipelinex/cli.py, which are not checked again.
use pipelinex.Prelude.{
  ℕ, zero, suc, ◌<◌, inl, inr, String, Bool, List, ◌∷◌, Option, none, some, ◌≡◌, refl, ap, ◌∙◌,
  arith, ◌⊎◌,
}
use pipelinex.Exceptions.{Result}
use pipelinex.Executor.{Main, Executor}
use pipelinex.Executor.{init as init_executor}
use pipelinex.Executor.Actions.{Action}
use pipelinex.Executor.Actions.{run as run_executor}
use pipelinex.Executor.Progress.{CanFinish, run-CanFinish}
use pipelinex.Executor.Stalled.{run_no_workers}
use pipelinex.Configuration.{PipelineConfig, parse_config}
use pipelinex.Builder.{Classes, BuiltPipeline, build_pipeline, executor_config}
use pipelinex.Builder.Built.{ordered, bounds_of}
use pipelinex.CommandLine.{RunArgs, override_source, override_workers, overridden}

zero_or_more : (n : ℕ) → (0 < n) ⊎ (n ≡ 0)
zero_or_more zero = inr refl
zero_or_more (suc n) = inl (omega arith)

module _ {F : Type 0} (k : Classes F) where
  -- The number of workers that a run asks for.
  abbrev pub workers_of : RunArgs → PipelineConfig F → ℕ
  workers_of args c = elim args.workers [ none ↦ c.runtime.num_workers | some workers ↦ workers ]

  overridden_runtime :
      (args : RunArgs) (c : PipelineConfig F)
      → ((overridden args c).runtime.num_workers ≡ workers_of args c)
        × ((overridden args c).runtime.batch_size ≡ c.runtime.batch_size)
  overridden_runtime args c = go args.source_path args.workers
    where
      go :
          (path : Option String) (workers : Option ℕ)
          → ((override_workers workers (override_source path c)).runtime.num_workers
              ≡ elim workers [ none ↦ c.runtime.num_workers | some n ↦ n ])
            × ((override_workers workers (override_source path c)).runtime.batch_size
                ≡ c.runtime.batch_size)
      go none none = (refl, refl)
      go none (some n) = (refl, refl)
      go (some path) none = (refl, refl)
      go (some path) (some n) = (refl, refl)

  -- With a configuration that is accepted, a run whose pipeline is built can always finish if it is
  -- left at least one worker; with no worker it waits after any schedule, if the source has a line.
  pub build_pipeline-overridden :
      (positive : F → Bool) (c valid : PipelineConfig F) (args : RunArgs) (b : BuiltPipeline k)
      (run_id : ℕ) (line : String) (lines : List String) (schedule : List (Action F))
      (s : Executor F)
      → parse_config positive c ≡ Result.returns valid
      → build_pipeline k (overridden args valid) ≡ Result.returns b
      → run_executor schedule (init_executor (executor_config k run_id b) (line ∷ lines)) ≡ some s
      → ((0 < workers_of args valid) × CanFinish s)
        ⊎ ((workers_of args valid ≡ 0) × (s.main ≡ Main.joining))
  build_pipeline-overridden positive c valid args b run_id line lines schedule s accepted built
        ran =
      let (_, settings, _) = ordered k (overridden args valid) b built in
      let (_, some_batch) = bounds_of k positive c valid accepted in
      let (workers, batch) = overridden_runtime args valid in
      let here : b.runtime.num_workers ≡ workers_of args valid =
        ap (λ r. r.num_workers) settings ∙ workers in
      let there : b.runtime.batch_size ≡ valid.runtime.batch_size =
        ap (λ r. r.batch_size) settings ∙ batch in
      elim (zero_or_more (workers_of args valid)) [
        | inl some_worker ↦ inl (
          some_worker,
          run-CanFinish (executor_config k run_id b) (line ∷ lines) schedule (rw here some_worker)
              (rw there some_batch) ran,
        )
        | inr no_worker ↦ inr (
          no_worker,
          run_no_workers (executor_config k run_id b) line lines schedule s (here ∙ no_worker) ran,
        )
      ]
