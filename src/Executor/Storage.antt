-- ===== src/Executor/Storage.antt =====
-- What has been counted as processed against what the repository holds.
use pipelinex.Prelude.{
  ℕ, ◌+◌, ◌≡◌, refl, String, List, [], ◌∷◌, ◌++◌, Option, none, some, inl, inr, arith, ◌∙◌,
}
use native.Mathlib.Nat.{mul-zero, zero-add}
use pipelinex.Prelude.Tests.{Option-cases}
use pipelinex.Prelude.Lists.{
  length, length-append, get_elem?, replicate, total, total-set, total-replicate, List-cases,
}
use pipelinex.Prelude.Int.{pos_part, neg_part, ◌+ℤ◌, ◌-ℤ◌}
use pipelinex.Exceptions.{ErrorKind}
use pipelinex.Models.{LogRecord, mark_stage}
use pipelinex.Executor.Actions.{
  Action, produces, takes, returns, raises, buffers, saves, wakes, flushes, shuts_down, drains,
  finishes, step, run, held, flusher_held, lost_by, blamed_by, lost_in, blamed_in,
}
use pipelinex.Executor.Accounting.{busy, IsValid, After, Worker-cases, step-IsValid}
use pipelinex.Executor.{
  Config, Worker, Main, SaveOutcome, Executor, init, produce, take_record, stage_returns,
  stage_raises, buffer_record, worker_saved, flusher_wakes, flusher_saved, shut_down, final_flush,
  final_saved,
}

module _ {F : Type 0} where
  -- A worker whose record is in a batch and is not counted yet.
  abbrev pub saver : Worker F → ℕ
  saver Worker.waiting = 0
  saver (Worker.running r names) = 0
  saver (Worker.saving batch) = 1

  abbrev pub main_held : Main F → ℕ
  main_held Main.joining = 0
  main_held Main.stopping = 0
  main_held (Main.draining batch) = length batch
  main_held Main.returned = 0

  -- The records in the repository, the buffer and the batches under way, and those lost, are the
  -- ones counted as processed, the savers' and those blamed.
  pub record IsStored (lost blamed : ℕ) (s : Executor F) : Type 0 where
    pub balance :
        length s.repository
          + length s.buffer
          + total held s.workers
          + flusher_held s.flusher
          + main_held s.main
          + lost
          + neg_part s.processed
        ≡ pos_part s.processed + total saver s.workers + blamed

  -- Only a busy worker holds anything.
  idle_holds_nothing :
      (ws : List (Worker F)) → total busy ws ≡ 0 → (total held ws ≡ 0) × (total saver ws ≡ 0)
  idle_holds_nothing [] h = (refl, refl)
  idle_holds_nothing (Worker.waiting ∷ ws) h =
      let (a, b) = idle_holds_nothing ws (omega arith) in (omega arith, omega arith)
  idle_holds_nothing (Worker.running r names ∷ ws) h = absurd (omega arith)
  idle_holds_nothing (Worker.saving batch ∷ ws) h = absurd (omega arith)

  unchanged :
      (l b : ℕ) (r : Option (Executor F))
      → After (IsStored l b) r
      → After (IsStored (0 + l) (0 + b)) r
  unchanged l b r h = rw (zero-add l, zero-add b) h

  module _ (n l b : ℕ) (s : Executor F) (valid : IsValid n s) (v : IsStored l b s) where
    take_record-IsStored : (i : ℕ) → After (IsStored l b) (take_record i s)
    unfolding take_record
    take_record-IsStored i = elim (Worker-cases (get_elem? s.workers i)) [
      | inl e ↦ ground arith
      | inr (inl e) ↦ elim (List-cases s.queue) [
        | inl empty ↦ ground arith
        | inr (r, rest, some_queued) ↦ ground (
          arith,
          total-set held s.workers i (Worker.running r s.stage_names) e,
          total-set saver s.workers i (Worker.running r s.stage_names) e,
        )
      ]
      | inr (inr (inl (r, names, e))) ↦ ground arith
      | inr (inr (inr (batch, e))) ↦ ground arith
    ]

    stage_returns-IsStored :
        (i : ℕ) (r' : LogRecord F) → After (IsStored l b) (stage_returns i r' s)
    unfolding stage_returns
    stage_returns-IsStored i r' = elim (Worker-cases (get_elem? s.workers i)) [
      | inl e ↦ ground arith
      | inr (inl e) ↦ ground arith
      | inr (inr (inl (r, names, e))) ↦ elim (List-cases names) [
        | inl done ↦ ground arith
        | inr (name, rest, more) ↦ ground (
          arith,
          total-set held s.workers i (Worker.running (mark_stage r' name) rest) e,
          total-set saver s.workers i (Worker.running (mark_stage r' name) rest) e,
        )
      ]
      | inr (inr (inr (batch, e))) ↦ ground arith
    ]

    stage_raises-IsStored :
        (i : ℕ) (kind : ErrorKind) → After (IsStored l b) (stage_raises i kind s)
    unfolding stage_raises
    stage_raises-IsStored i kind = elim (Worker-cases (get_elem? s.workers i)) [
      | inl e ↦ ground arith
      | inr (inl e) ↦ ground arith
      | inr (inr (inl (r, names, e))) ↦ ground (
        arith,
        total-set held s.workers i Worker.waiting e,
        total-set saver s.workers i Worker.waiting e,
      )
      | inr (inr (inr (batch, e))) ↦ ground arith
    ]

    buffer_record-IsStored : (i : ℕ) → After (IsStored l b) (buffer_record i s)
    unfolding buffer_record ◌+ℤ◌
    buffer_record-IsStored i = elim (Worker-cases (get_elem? s.workers i)) [
      | inl e ↦ ground arith
      | inr (inl e) ↦ ground arith
      | inr (inr (inl (r, names, e))) ↦ ground (
        arith,
        total-set held s.workers i Worker.waiting e,
        total-set saver s.workers i Worker.waiting e,
        total-set held s.workers i (Worker.saving (s.buffer ++ r ∷ [])) e,
        total-set saver s.workers i (Worker.saving (s.buffer ++ r ∷ [])) e,
        length-append s.buffer (r ∷ []),
      )
      | inr (inr (inr (batch, e))) ↦ ground arith
    ]

    worker_saved-IsStored :
        (i : ℕ) (outcome : SaveOutcome)
        → After
            (IsStored (lost_by (saves i outcome) s + l) (blamed_by {F = F} (saves i outcome) + b))
            (worker_saved i outcome s)
    unfolding worker_saved ◌+ℤ◌ ◌-ℤ◌
    worker_saved-IsStored i outcome = elim (Worker-cases (get_elem? s.workers i)) [
      | inl e ↦ ground arith
      | inr (inl e) ↦ ground arith
      | inr (inr (inl (r, names, e))) ↦ ground arith
      | inr (inr (inr (batch, e))) ↦ ground (
        arith,
        total-set held s.workers i Worker.waiting e,
        total-set saver s.workers i Worker.waiting e,
        length-append s.repository batch,
      )
    ]

    flusher_saved-IsStored :
        (outcome : SaveOutcome)
        → After (IsStored (lost_by (flushes outcome) s + l) b) (flusher_saved outcome s)
    unfolding flusher_saved ◌-ℤ◌
    flusher_saved-IsStored outcome = grind (arith, length-append {A = LogRecord F} s.repository)

    final_saved-IsStored : (outcome : SaveOutcome) → After (IsStored l b) (final_saved outcome s)
    unfolding final_saved ◌-ℤ◌
    final_saved-IsStored outcome = grind (arith, length-append {A = LogRecord F} s.repository)

    shut_down-IsStored : After (IsStored l b) (shut_down s)
    unfolding shut_down
    shut_down-IsStored = ground (arith, idle_holds_nothing s.workers)

    -- Every stretch of every task keeps the balance, and moves the two tallies as stated.
    step-IsStored : (a : Action F) → After (IsStored (lost_by a s + l) (blamed_by a + b)) (step a s)
    unfolding step produce flusher_wakes final_flush
    step-IsStored (produces uuid) = grind arith
    step-IsStored (takes i) = unchanged l b (take_record i s) (take_record-IsStored i)
    step-IsStored (returns i r) = unchanged l b (stage_returns i r s) (stage_returns-IsStored i r)
    step-IsStored (raises i kind) =
        unchanged l b (stage_raises i kind s) (stage_raises-IsStored i kind)
    step-IsStored (buffers i) = unchanged l b (buffer_record i s) (buffer_record-IsStored i)
    step-IsStored (saves i outcome) = worker_saved-IsStored i outcome
    step-IsStored wakes = grind arith
    step-IsStored (flushes outcome) = rw (zero-add b) (flusher_saved-IsStored outcome)
    step-IsStored shuts_down = unchanged l b (shut_down s) shut_down-IsStored
    step-IsStored drains = grind arith
    step-IsStored (finishes outcome) =
        unchanged l b (final_saved outcome s) (final_saved-IsStored outcome)

  pub init-IsStored : (c : Config) (lines : List String) → IsStored 0 0 (init {F = F} c lines)
  unfolding init
  init-IsStored c lines =
      let idle : total busy (replicate {A = Worker F} c.num_workers Worker.waiting) ≡ 0 =
        total-replicate busy c.num_workers Worker.waiting ∙ mul-zero c.num_workers in
      let (a, b) = idle_holds_nothing (replicate c.num_workers Worker.waiting) idle in
      record { balance = omega (arith, a, b) }

  pub run-IsStored :
      (n l b : ℕ) (schedule : List (Action F)) (s : Executor F)
      → IsValid n s
      → IsStored l b s
      → After (IsStored (lost_in schedule s + l) (blamed_in schedule + b)) (run schedule s)
  unfolding run
  run-IsStored n l b [] s valid v = rw (zero-add l, zero-add b) v
  run-IsStored n l b (a ∷ schedule) s valid v = elim (Option-cases (step a s)) [
    | inl stuck ↦ rw (stuck, run) tt
    | inr (s', e) ↦
        let valid' : IsValid n s' = rw e at (step-IsValid n a s valid) in
        let v' : IsStored (lost_by a s + l) (blamed_by a + b) s' =
          rw e at (step-IsStored n l b s valid v a) in
        let later = run-IsStored n (lost_by a s + l) (blamed_by a + b) schedule s' valid' v' in
        rw (e, run)
          (regroup (lost_in schedule s') (lost_by a s) l (blamed_in schedule) (blamed_by a) b
            (run schedule s') later)
  ]
    where
      regroup :
          (l1 l2 l3 b1 b2 b3 : ℕ) (r : Option (Executor F))
          → After (IsStored (l1 + (l2 + l3)) (b1 + (b2 + b3))) r
          → After (IsStored (l2 + l1 + l3) (b2 + b1 + b3)) r
      regroup l1 l2 l3 b1 b2 b3 none h = tt
      regroup l1 l2 l3 b1 b2 b3 (some t) h = omega arith
