-- ===== src/Executor/Accounting.antt =====
-- The executor's invariant: every line is waiting, queued, in a worker's hands, or counted as
-- processed or failed; the queue and the buffer stay within their bounds.
use native.Mathlib.Nat.{mul-zero}
use pipelinex.Prelude.{
  ◌∙◌, ℕ, ◌+◌, ◌≤◌, ◌<◌, ◌≡◌, refl, ◌⊎◌, String, List, [], ◌∷◌, ◌++◌, Option, none, some, inl, inr,
  arith,
}
use pipelinex.Prelude.Tests.{Option-cases}
use pipelinex.Prelude.Lists.{
  length, length-append, get_elem?, replicate, total, total-set, total-replicate, List-cases,
}
use pipelinex.Prelude.Int.{pos_part, neg_part, ◌+ℤ◌, ◌-ℤ◌}
use pipelinex.Exceptions.{ErrorKind}
use pipelinex.Models.{LogRecord, mark_stage}
use pipelinex.Executor.Actions.{
  Action, produces, takes, returns, raises, buffers, saves, wakes, flushes, shuts_down, drains,
  finishes, step, run,
}
use pipelinex.Executor.{
  Config, Worker, SaveOutcome, Executor, init, produce, take_record, stage_returns, stage_raises,
  buffer_record, worker_saved, flusher_wakes, flusher_saved, shut_down, final_flush, final_saved,
}

module _ {F : Type 0} where
  -- A worker that holds a record.
  abbrev pub busy : Worker F → ℕ
  busy Worker.waiting = 0
  busy (Worker.running r names) = 1
  busy (Worker.saving batch) = 1

  pub record IsValid (lines : ℕ) (s : Executor F) : Type 0 where
    pub counted : s.unfinished ≡ length s.queue + total busy s.workers
    pub queue_bounded : 0 < s.queue_size → length s.queue ≤ s.queue_size
    pub buffer_bounded : length s.buffer < s.batch_size
    pub accounted :
        length s.lines + length s.queue + total busy s.workers + s.failed + pos_part s.processed
        ≡ lines + neg_part s.processed

  pub Worker-cases :
      (o : Option (Worker F))
      → (o ≡ none)
        ⊎ (o ≡ some Worker.waiting)
        ⊎ ((r : LogRecord F) × (names : List String) × (o ≡ some (Worker.running r names)))
        ⊎ ((batch : List (LogRecord F)) × (o ≡ some (Worker.saving batch)))
  Worker-cases none = inl refl
  Worker-cases (some Worker.waiting) = inr (inl refl)
  Worker-cases (some (Worker.running r names)) = inr (inr (inl (r, names, refl)))
  Worker-cases (some (Worker.saving batch)) = inr (inr (inr (batch, refl)))

  -- A property of the next state, where there is one.
  abbrev pub After {κ} : (Executor F → Type κ) → Option (Executor F) → Type κ
  After P none = Unit
  After P (some s) = P s

  produce-IsValid : (n uuid : ℕ) (s : Executor F) → IsValid n s → After (IsValid n) (produce uuid s)
  unfolding produce
  produce-IsValid n uuid s v = grind (arith, length-append {A = LogRecord F})

  take_record-IsValid :
      (n i : ℕ) (s : Executor F) → IsValid n s → After (IsValid n) (take_record i s)
  unfolding take_record
  take_record-IsValid n i s v = elim (Worker-cases (get_elem? s.workers i)) [
    | inl e ↦ ground arith
    | inr (inl e) ↦ elim (List-cases s.queue) [
      | inl empty ↦ ground arith
      | inr (r, rest, some_queued) ↦
          ground (arith, total-set busy s.workers i (Worker.running r s.stage_names) e)
    ]
    | inr (inr (inl (r, names, e))) ↦ ground arith
    | inr (inr (inr (batch, e))) ↦ ground arith
  ]

  stage_returns-IsValid :
      (n i : ℕ) (r : LogRecord F) (s : Executor F)
      → IsValid n s
      → After (IsValid n) (stage_returns i r s)
  unfolding stage_returns
  stage_returns-IsValid n i r' s v = elim (Worker-cases (get_elem? s.workers i)) [
    | inl e ↦ ground arith
    | inr (inl e) ↦ ground arith
    | inr (inr (inl (r, names, e))) ↦ elim (List-cases names) [
      | inl done ↦ ground arith
      | inr (name, rest, more) ↦
          ground (arith, total-set busy s.workers i (Worker.running (mark_stage r' name) rest) e)
    ]
    | inr (inr (inr (batch, e))) ↦ ground arith
  ]

  stage_raises-IsValid :
      (n i : ℕ) (kind : ErrorKind) (s : Executor F)
      → IsValid n s
      → After (IsValid n) (stage_raises i kind s)
  unfolding stage_raises
  stage_raises-IsValid n i kind s v = elim (Worker-cases (get_elem? s.workers i)) [
    | inl e ↦ ground arith
    | inr (inl e) ↦ ground arith
    | inr (inr (inl (r, names, e))) ↦ ground (arith, total-set busy s.workers i Worker.waiting e)
    | inr (inr (inr (batch, e))) ↦ ground arith
  ]

  buffer_record-IsValid :
      (n i : ℕ) (s : Executor F) → IsValid n s → After (IsValid n) (buffer_record i s)
  unfolding buffer_record ◌+ℤ◌
  buffer_record-IsValid n i s v = elim (Worker-cases (get_elem? s.workers i)) [
    | inl e ↦ ground arith
    | inr (inl e) ↦ ground arith
    | inr (inr (inl (r, names, e))) ↦ grind (
      arith,
      total-set busy s.workers i Worker.waiting e,
      total-set busy s.workers i (Worker.saving (s.buffer ++ r ∷ [])) e,
    )
    | inr (inr (inr (batch, e))) ↦ ground arith
  ]

  worker_saved-IsValid :
      (n i : ℕ) (outcome : SaveOutcome) (s : Executor F)
      → IsValid n s
      → After (IsValid n) (worker_saved i outcome s)
  unfolding worker_saved ◌+ℤ◌ ◌-ℤ◌
  worker_saved-IsValid n i outcome s v = elim (Worker-cases (get_elem? s.workers i)) [
    | inl e ↦ ground arith
    | inr (inl e) ↦ ground arith
    | inr (inr (inl (r, names, e))) ↦ ground arith
    | inr (inr (inr (batch, e))) ↦ ground (arith, total-set busy s.workers i Worker.waiting e)
  ]

  flusher_wakes-IsValid :
      (n : ℕ) (s : Executor F) → IsValid n s → After (IsValid n) (flusher_wakes s)
  unfolding flusher_wakes
  flusher_wakes-IsValid n s v = grind arith

  flusher_saved-IsValid :
      (n : ℕ) (outcome : SaveOutcome) (s : Executor F)
      → IsValid n s
      → After (IsValid n) (flusher_saved outcome s)
  unfolding flusher_saved ◌-ℤ◌
  flusher_saved-IsValid n outcome s v = grind arith

  shut_down-IsValid : (n : ℕ) (s : Executor F) → IsValid n s → After (IsValid n) (shut_down s)
  unfolding shut_down
  shut_down-IsValid n s v = grind arith

  final_flush-IsValid : (n : ℕ) (s : Executor F) → IsValid n s → After (IsValid n) (final_flush s)
  unfolding final_flush
  final_flush-IsValid n s v = grind arith

  final_saved-IsValid :
      (n : ℕ) (outcome : SaveOutcome) (s : Executor F)
      → IsValid n s
      → After (IsValid n) (final_saved outcome s)
  unfolding final_saved ◌-ℤ◌
  final_saved-IsValid n outcome s v = grind arith

  pub init-IsValid :
      (c : Config) (lines : List String)
      → 0 < c.batch_size
      → IsValid (length lines) (init {F = F} c lines)
  unfolding init
  init-IsValid c lines h =
      let idle : total busy (replicate c.num_workers Worker.waiting) ≡ 0 =
        total-replicate busy c.num_workers Worker.waiting ∙ mul-zero c.num_workers in
      record {
        counted = omega (arith, idle);
        queue_bounded = λ _. omega arith;
        buffer_bounded = h;
        accounted = omega (arith, idle);
      }

  -- Every stretch of every task keeps the invariant.
  pub step-IsValid :
      (n : ℕ) (a : Action F) (s : Executor F) → IsValid n s → After (IsValid n) (step a s)
  unfolding step
  step-IsValid n (produces uuid) s v = produce-IsValid n uuid s v
  step-IsValid n (takes i) s v = take_record-IsValid n i s v
  step-IsValid n (returns i r) s v = stage_returns-IsValid n i r s v
  step-IsValid n (raises i kind) s v = stage_raises-IsValid n i kind s v
  step-IsValid n (buffers i) s v = buffer_record-IsValid n i s v
  step-IsValid n (saves i outcome) s v = worker_saved-IsValid n i outcome s v
  step-IsValid n wakes s v = flusher_wakes-IsValid n s v
  step-IsValid n (flushes outcome) s v = flusher_saved-IsValid n outcome s v
  step-IsValid n shuts_down s v = shut_down-IsValid n s v
  step-IsValid n drains s v = final_flush-IsValid n s v
  step-IsValid n (finishes outcome) s v = final_saved-IsValid n outcome s v

  pub run-IsValid :
      (n : ℕ) (schedule : List (Action F)) (s : Executor F)
      → IsValid n s
      → After (IsValid n) (run schedule s)
  unfolding run
  run-IsValid n [] s v = v
  run-IsValid n (a ∷ schedule) s v = elim (Option-cases (step a s)) [
    | inl stuck ↦ rw (stuck, run) tt
    | inr (s', e) ↦ rw (e, run) (run-IsValid n schedule s' (rw e at (step-IsValid n a s v)))
  ]

  -- Under every interleaving of the producer, the workers, the flusher and `run`, and whatever the
  -- stages and the saves do: a line is still at the source, in the queue, in a worker's hands, or
  -- counted once, as failed or as processed (less what was counted back); the queue holds no more
  -- than its size, if that is not 0, and the buffer less than a batch. The batch size is not 0.
  pub run-init-IsValid :
      (c : Config) (lines : List String) (schedule : List (Action F)) {s : Executor F}
      → 0 < c.batch_size
      → run schedule (init c lines) ≡ some s
      → IsValid (length lines) s
  run-init-IsValid c lines schedule h e =
      rw e at (run-IsValid (length lines) schedule (init c lines) (init-IsValid c lines h))
