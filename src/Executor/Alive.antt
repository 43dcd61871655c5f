-- ===== src/Executor/Alive.antt =====
-- The workers before the shutdown, and the flag after it.
use pipelinex.Prelude.{◌<◌, ◌≡◌, String, true, List, [], ◌∷◌, inl, inr, arith}
use pipelinex.Prelude.Tests.{Option-cases}
use pipelinex.Prelude.Lists.{length, length-set, length-replicate}
use pipelinex.Executor.Actions.{
  Action, produces, takes, returns, raises, buffers, saves, wakes, flushes, shuts_down, drains,
  finishes, step, run,
}
use pipelinex.Executor.{
  Config, Worker, Main, Executor, init, produce, take_record, stage_returns, stage_raises,
  buffer_record, worker_saved, flusher_wakes, flusher_saved, shut_down, final_flush, final_saved,
  settle,
}
use pipelinex.Executor.Accounting.{After}

module _ {F : Type 0} where
  -- The workers stay until the shutdown, which is set from then on.
  abbrev pub IsAlive : Main F → Executor F → Type 0
  IsAlive Main.joining s = 0 < length s.workers
  IsAlive Main.stopping s = s.shutdown ≡ true
  IsAlive (Main.draining batch) s = Unit
  IsAlive Main.returned s = Unit

  pub record IsAliveAt (s : Executor F) : Type 0 where
    pub alive : IsAlive s.main s

  module _ (s : Executor F) (v : IsAliveAt s) where
    pub step-IsAliveAt : (a : Action F) → After IsAliveAt (step a s)
    unfolding step produce take_record stage_returns stage_raises buffer_record worker_saved
        flusher_wakes flusher_saved shut_down final_flush final_saved settle
    step-IsAliveAt (produces uuid) = grind arith
    step-IsAliveAt (takes i) = grind (arith, length-set {A = Worker F})
    step-IsAliveAt (returns i r) = grind (arith, length-set {A = Worker F})
    step-IsAliveAt (raises i kind) = grind (arith, length-set {A = Worker F})
    step-IsAliveAt (buffers i) = grind (arith, length-set {A = Worker F})
    step-IsAliveAt (saves i outcome) = grind (arith, length-set {A = Worker F})
    step-IsAliveAt wakes = grind arith
    step-IsAliveAt (flushes outcome) = grind arith
    step-IsAliveAt shuts_down = grind arith
    step-IsAliveAt drains = grind arith
    step-IsAliveAt (finishes outcome) = grind arith

  pub init-IsAliveAt :
      (c : Config) (lines : List String) → 0 < c.num_workers → IsAliveAt (init {F = F} c lines)
  unfolding init
  init-IsAliveAt c lines some_worker = record {
    alive =
        omega (arith, length-replicate {A = Worker F} c.num_workers Worker.waiting, some_worker);
  }

  pub run-IsAliveAt :
      (schedule : List (Action F)) (s : Executor F) → IsAliveAt s → After IsAliveAt (run schedule s)
  unfolding run
  run-IsAliveAt [] s v = v
  run-IsAliveAt (a ∷ schedule) s v = elim (Option-cases (step a s)) [
    | inl stuck ↦ rw (stuck, run) tt
    | inr (s', e) ↦ rw (e, run) (run-IsAliveAt schedule s' (rw e at (step-IsAliveAt s v a)))
  ]
