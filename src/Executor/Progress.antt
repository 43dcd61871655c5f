-- ===== src/Executor/Progress.antt =====
-- How a run is brought to its end.
use pipelinex.Prelude.{
  zero, suc, ℕ, ◌≤◌, ◌<◌, ◌≡◌, refl, String, List, [], ◌∷◌, some, inl, inr, arith,
}
use pipelinex.Prelude.Tests.{Option-cases}
use pipelinex.Prelude.Lists.{length}
use pipelinex.Executor.Actions.{Action, step, run}
use pipelinex.Executor.{Config, Main, Executor, init}
use pipelinex.Executor.Accounting.{IsValid, step-IsValid, run-init-IsValid}
use pipelinex.Executor.Alive.{IsAliveAt, step-IsAliveAt, init-IsAliveAt, run-IsAliveAt}
use pipelinex.Executor.Advance.{work_left, advances}

module _ {F : Type 0} where
  -- A schedule that ends the run, no longer than what is left to do.
  abbrev pub CanFinish : Executor F → Type 0
  CanFinish s =
      (schedule : List (Action F)) × (s' : Executor F) × (run schedule s ≡ some s')
      × (s'.main ≡ Main.returned)
      × (length schedule ≤ work_left s)

  one_more_action :
      (a : Action F) (s s' : Executor F)
      → step a s ≡ some s'
      → work_left s' < work_left s
      → CanFinish s'
      → CanFinish s
  unfolding run
  one_more_action a s s' e less (schedule, last, ran, done, short) =
      (a ∷ schedule, last, rw (run, e) ran, done, omega (arith, less, short))

  finishes_within :
      (k n : ℕ) (s : Executor F) → IsValid n s → IsAliveAt s → work_left s ≤ k → CanFinish s
  unfolding run
  finishes_within zero n s valid v bound = elim (advances n s valid v) [
    | inl done ↦ ([], s, refl, done, omega arith)
    | inr (a, lower) ↦ elim (Option-cases (step a s)) [
      | inl stuck ↦ absurd (rw stuck at lower)
      | inr (s', e) ↦
          let less : work_left s' < work_left s = rw e at lower in
          absurd (omega (arith, less, bound))
    ]
  ]
  finishes_within (suc k) n s valid v bound = elim (advances n s valid v) [
    | inl done ↦ ([], s, refl, done, omega arith)
    | inr (a, lower) ↦ elim (Option-cases (step a s)) [
      | inl stuck ↦ absurd (rw stuck at lower)
      | inr (s', e) ↦
          let less : work_left s' < work_left s = rw e at lower in
          one_more_action a s s' e less (
            finishes_within k n s' (rw e at (step-IsValid n a s valid))
              (rw e at (step-IsAliveAt s v a)) (omega (arith, less, bound)))
    ]
  ]

-- Whatever the tasks have done so far, `run` is never stuck: there is a schedule that brings it to
-- its end, if saves store and stages return, with no more actions than are left to do. There is at
-- least one worker, and the batch size is not 0.
pub run-CanFinish :
    {F : Type 0} (c : Config) (lines : List String) (schedule : List (Action F)) {s : Executor F}
    → 0 < c.num_workers
    → 0 < c.batch_size
    → run schedule (init c lines) ≡ some s
    → CanFinish s
run-CanFinish c lines schedule {s} some_worker some_batch ran =
    let valid = run-init-IsValid c lines schedule some_batch ran in
    let start = run-IsAliveAt schedule (init c lines) (init-IsAliveAt c lines some_worker) in
    finishes_within (work_left s) (length lines) s valid (rw ran at start) (omega arith)
