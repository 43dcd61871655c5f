-- ===== src/Executor/Result.antt =====
-- The result of a finished run: what its counters say about the lines and about the repository.
use mathlib.Core.Path.{subst}
use pipelinex.Prelude.{ap, ℕ, ◌+◌, ◌<◌, ◌≡◌, String, List, [], ◌∷◌, some, inl, inr, arith}
use pipelinex.Prelude.Tests.{Option-cases}
use pipelinex.Prelude.Lists.{length, total}
use pipelinex.Prelude.Int.{pos, ◌+ℤ◌, int_laws}
use pipelinex.Executor.{
  Config, Flusher, Main, Executor, init, produce, take_record, stage_returns, stage_raises,
  buffer_record, worker_saved, flusher_wakes, flusher_saved, shut_down, final_flush, final_saved,
}
use pipelinex.Executor.Actions.{
  Action, produces, takes, returns, raises, buffers, saves, wakes, flushes, shuts_down, drains,
  finishes, step, run, held, flusher_held, lost_in, blamed_in,
}
use pipelinex.Executor.Accounting.{
  busy, IsValid, After, init-IsValid, step-IsValid, run-init-IsValid,
}
use pipelinex.Executor.Storage.{saver, main_held, IsStored, init-IsStored, run-IsStored}

module _ {F : Type 0} where
  -- After the shutdown nothing is left to read or to work on; after the last drain nothing is left
  -- to save.
  abbrev IsQuiet : Main F → Executor F → Type 0
  IsQuiet Main.joining s = Unit
  IsQuiet Main.stopping s = (s.lines ≡ []) × (s.queue ≡ []) × (s.workers ≡ [])
  IsQuiet (Main.draining batch) s =
      (s.lines ≡ [])
      × (s.queue ≡ [])
      × (s.workers ≡ [])
      × (s.buffer ≡ [])
      × (s.flusher ≡ Flusher.ended)
  IsQuiet Main.returned s =
      (s.lines ≡ [])
      × (s.queue ≡ [])
      × (s.workers ≡ [])
      × (s.buffer ≡ [])
      × (s.flusher ≡ Flusher.ended)

  pub record IsQuietAt (s : Executor F) : Type 0 where
    pub quiet : IsQuiet s.main s

  module _ (n : ℕ) (s : Executor F) (valid : IsValid n s) (v : IsQuietAt s) where
    step-IsQuietAt : (a : Action F) → After IsQuietAt (step a s)
    unfolding step produce take_record stage_returns stage_raises buffer_record worker_saved
        flusher_wakes flusher_saved shut_down final_flush final_saved
    step-IsQuietAt (produces uuid) = grind arith
    step-IsQuietAt (takes i) = grind arith
    step-IsQuietAt (returns i r) = grind arith
    step-IsQuietAt (raises i kind) = grind arith
    step-IsQuietAt (buffers i) = grind arith
    step-IsQuietAt (saves i outcome) = grind arith
    step-IsQuietAt wakes = grind arith
    step-IsQuietAt (flushes outcome) = grind arith
    step-IsQuietAt shuts_down = grind arith
    step-IsQuietAt drains = grind arith
    step-IsQuietAt (finishes outcome) = grind arith

  run-IsQuietAt :
      (n : ℕ) (schedule : List (Action F)) (s : Executor F)
      → IsValid n s
      → IsQuietAt s
      → After IsQuietAt (run schedule s)
  unfolding run
  run-IsQuietAt n [] s valid v = v
  run-IsQuietAt n (a ∷ schedule) s valid v = elim (Option-cases (step a s)) [
    | inl stuck ↦ rw (stuck, run) tt
    | inr (s', e) ↦
        rw (e, run)
          (run-IsQuietAt n schedule s' (rw e at (step-IsValid n a s valid))
            (rw e at (step-IsQuietAt n s valid v a)))
  ]

  init-IsQuietAt : (c : Config) (lines : List String) → IsQuietAt (init {F = F} c lines)
  unfolding init
  init-IsQuietAt c lines = record { quiet = tt }

  module _ (c : Config) (lines : List String) (schedule : List (Action F)) {s : Executor F}
      (positive : 0 < c.batch_size) (ran : run schedule (init c lines) ≡ some s)
      (done : s.main ≡ Main.returned) where
    finished_quiet :
        (s.lines ≡ [])
        × (s.queue ≡ [])
        × (s.workers ≡ [])
        × (s.buffer ≡ [])
        × (s.flusher ≡ Flusher.ended)
    finished_quiet =
        let q : IsQuietAt s = rw ran at (
          run-IsQuietAt (length lines) schedule (init c lines) (init-IsValid c lines positive)
            (init-IsQuietAt c lines)) in
        subst (λ m. IsQuiet m s) done q.quiet

    -- Under every interleaving, when `run` returns its two counters add up to the number of lines
    -- that the source yielded: each line was processed or failed, and none was counted twice. The
    -- batch size is not 0.
    pub result_counts_lines : s.processed +ℤ pos s.failed ≡ pos (length lines)
    result_counts_lines =
        let valid = run-init-IsValid c lines schedule positive ran in
        let (a, b, d, _, _) = finished_quiet in
        omega (int_laws, ap length a, ap length b, ap (total busy) d, valid.accounted)

    -- Under every interleaving, when `run` returns `records_processed` is the number of records in
    -- the repository, plus the records of every batch whose save ended by an exception other than
    -- `RepositoryError`, less one for each such save that a worker awaited. So it is exactly what
    -- was saved if every failing save raises `RepositoryError`, and too large otherwise. The batch
    -- size is not 0.
    pub result_counts_saved :
        s.processed +ℤ pos (blamed_in schedule)
        ≡ pos (length s.repository + lost_in schedule (init c lines))
    result_counts_saved =
        let kept : IsStored (lost_in schedule (init c lines) + 0) (blamed_in schedule + 0) s =
          rw ran at (
            run-IsStored (length lines) 0 0 schedule (init c lines) (init-IsValid c lines positive)
              (init-IsStored c lines)) in
        let (_, _, d, e, f) = finished_quiet in
        omega (
          int_laws,
          ap length e,
          ap (total held) d,
          ap (total saver) d,
          ap flusher_held f,
          ap main_held done,
          kept.balance,
        )
