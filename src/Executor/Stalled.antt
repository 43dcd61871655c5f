-- ===== src/Executor/Stalled.antt =====
-- A run of the executor (src/pipelinex/core/pipeline.py) that starts no worker.
use pipelinex.Prelude.{ℕ, ◌+◌, ◌<◌, String, List, [], ◌∷◌, none, some, ◌≡◌, refl, arith, inl, inr}
use pipelinex.Prelude.Text.{some_inv}
use pipelinex.Prelude.Tests.{Option-cases}
use pipelinex.Prelude.Lists.{length}
use pipelinex.Exceptions.{ErrorKind}
use pipelinex.Models.{LogRecord}
use pipelinex.Executor.{
  Config, Main, SaveOutcome, Executor, init, produce, take_record, stage_returns, stage_raises,
  buffer_record, worker_saved, flusher_wakes, flusher_saved, shut_down, final_flush, final_saved,
  settle,
}
use pipelinex.Executor.Actions.{Action, step, run}

-- No worker is there to take what is left, and `run` waits for it.
record IsStalled {F : Type 0} (s : Executor F) : Type 0 where
  no_workers : s.workers ≡ []
  joins : s.main ≡ Main.joining
  waits : 0 < length s.lines + s.unfinished

module _ {F : Type 0} where
  produce-IsStalled :
      (uuid : ℕ) (s s' : Executor F) → IsStalled s → produce uuid s ≡ some s' → IsStalled s'
  unfolding produce
  produce-IsStalled uuid s s' h e = ground (arith, e, h.no_workers, h.joins)

  flusher_wakes-IsStalled :
      (s s' : Executor F) → IsStalled s → flusher_wakes s ≡ some s' → IsStalled s'
  unfolding flusher_wakes
  flusher_wakes-IsStalled s s' h e = ground (arith, e, h.no_workers, h.joins)

  flusher_saved-IsStalled :
      (outcome : SaveOutcome) (s s' : Executor F)
      → IsStalled s
      → flusher_saved outcome s ≡ some s'
      → IsStalled s'
  unfolding flusher_saved settle
  flusher_saved-IsStalled outcome s s' h e = ground (arith, e, h.no_workers, h.joins)

  take_record_stalled : (i : ℕ) (s : Executor F) → IsStalled s → take_record i s ≡ none
  unfolding take_record
  take_record_stalled i s h = rw (take_record, h.no_workers) refl

  stage_returns_stalled :
      (i : ℕ) (r : LogRecord F) (s : Executor F) → IsStalled s → stage_returns i r s ≡ none
  unfolding stage_returns
  stage_returns_stalled i r s h = rw (stage_returns, h.no_workers) refl

  stage_raises_stalled :
      (i : ℕ) (kind : ErrorKind) (s : Executor F) → IsStalled s → stage_raises i kind s ≡ none
  unfolding stage_raises
  stage_raises_stalled i kind s h = rw (stage_raises, h.no_workers) refl

  buffer_record_stalled : (i : ℕ) (s : Executor F) → IsStalled s → buffer_record i s ≡ none
  unfolding buffer_record
  buffer_record_stalled i s h = rw (buffer_record, h.no_workers) refl

  worker_saved_stalled :
      (i : ℕ) (outcome : SaveOutcome) (s : Executor F)
      → IsStalled s
      → worker_saved i outcome s ≡ none
  unfolding worker_saved
  worker_saved_stalled i outcome s h = rw (worker_saved, h.no_workers) refl

  shut_down_stalled : (s : Executor F) → IsStalled s → shut_down s ≡ none
  unfolding shut_down
  shut_down_stalled s h = ground (arith, h.joins)

  final_flush_stalled : (s : Executor F) → IsStalled s → final_flush s ≡ none
  unfolding final_flush
  final_flush_stalled s h = rw (final_flush, h.joins) refl

  final_saved_stalled :
      (outcome : SaveOutcome) (s : Executor F) → IsStalled s → final_saved outcome s ≡ none
  unfolding final_saved
  final_saved_stalled outcome s h = rw (final_saved, h.joins) refl

  step-IsStalled :
      (a : Action F) (s s' : Executor F) → IsStalled s → step a s ≡ some s' → IsStalled s'
  unfolding step
  step-IsStalled (Action.produces uuid) s s' h e = produce-IsStalled uuid s s' h e
  step-IsStalled (Action.takes i) s s' h e = absurd (cc (e, take_record_stalled i s h))
  step-IsStalled (Action.returns i r) s s' h e = absurd (cc (e, stage_returns_stalled i r s h))
  step-IsStalled (Action.raises i kind) s s' h e = absurd (cc (e, stage_raises_stalled i kind s h))
  step-IsStalled (Action.buffers i) s s' h e = absurd (cc (e, buffer_record_stalled i s h))
  step-IsStalled (Action.saves i outcome) s s' h e =
      absurd (cc (e, worker_saved_stalled i outcome s h))
  step-IsStalled Action.wakes s s' h e = flusher_wakes-IsStalled s s' h e
  step-IsStalled (Action.flushes outcome) s s' h e = flusher_saved-IsStalled outcome s s' h e
  step-IsStalled Action.shuts_down s s' h e = absurd (cc (e, shut_down_stalled s h))
  step-IsStalled Action.drains s s' h e = absurd (cc (e, final_flush_stalled s h))
  step-IsStalled (Action.finishes outcome) s s' h e =
      absurd (cc (e, final_saved_stalled outcome s h))

  run-IsStalled :
      (schedule : List (Action F)) (s s' : Executor F)
      → IsStalled s
      → run schedule s ≡ some s'
      → IsStalled s'
  unfolding run
  run-IsStalled [] s s' h e = rw (some_inv e) h
  run-IsStalled (a ∷ schedule) s s' h e = elim (Option-cases (step a s)) [
    | inl stuck ↦ absurd (cc (rw (run, stuck) at e))
    | inr (next, stepped) ↦
        run-IsStalled schedule next s' (step-IsStalled a s next h stepped) (rw (run, stepped) at e)
  ]

  -- Without workers, `run` still waits after any schedule, if the source has a line.
  pub run_no_workers :
      (c : Config) (line : String) (lines : List String) (schedule : List (Action F))
      (s : Executor F)
      → c.num_workers ≡ 0
      → run schedule (init c (line ∷ lines)) ≡ some s
      → s.main ≡ Main.joining
  unfolding init
  run_no_workers c line lines schedule s none_set ran =
      (run-IsStalled schedule (init c (line ∷ lines)) s
        (record { no_workers = rw none_set refl; joins = refl; waits = omega arith }) ran).joins
