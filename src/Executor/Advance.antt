-- ===== src/Executor/Advance.antt =====
-- What the executor still has to do, and the actions that do a part of it.
use pipelinex.Prelude.{
  suc, ℕ, ◌+◌, ◌<◌, ◌≡◌, refl, ◌⊎◌, true, List, [], ◌∷◌, ◌++◌, Option, none, some, inl, inr, arith,
}
use pipelinex.Prelude.Lists.{length, get_elem?, total, total-set, List-cases}
use pipelinex.Models.{LogRecord, mark_stage}
use pipelinex.Executor.Actions.{
  Action, produces, takes, returns, buffers, saves, wakes, flushes, shuts_down, drains, finishes,
  step,
}
use pipelinex.Executor.{
  Worker, Flusher, Main, SaveOutcome, Executor, produce, take_record, stage_returns, buffer_record,
  worker_saved, flusher_wakes, flusher_saved, shut_down, final_flush, final_saved, settle,
}
use pipelinex.Executor.Accounting.{busy, IsValid}
use pipelinex.Executor.Alive.{IsAlive, IsAliveAt}

module _ {F : Type 0} where
  -- What is still to be done, counted in actions: a line is produced, taken, run through the stages,
  -- and put into the buffer or saved.
  abbrev load : Worker F → ℕ
  load Worker.waiting = 0
  load (Worker.running r names) = length names + 2
  load (Worker.saving batch) = 1

  abbrev flusher_load : Flusher F → ℕ
  flusher_load Flusher.asleep = 2
  flusher_load (Flusher.flushing batch) = 1
  flusher_load Flusher.ended = 0

  abbrev main_load : Main F → ℕ
  main_load Main.joining = 3
  main_load Main.stopping = 2
  main_load (Main.draining batch) = 1
  main_load Main.returned = 0

  abbrev pub work_left : Executor F → ℕ
  work_left s =
      total (λ line. length s.stage_names + 4) s.lines
      + total (λ r. length s.stage_names + 3) s.queue
      + total load s.workers
      + flusher_load s.flusher
      + main_load s.main

  -- The action can be taken, and leaves less to do.
  abbrev pub Lowers : Executor F → Option (Executor F) → Type 0
  Lowers s none = ⊥
  Lowers s (some s') = work_left s' < work_left s

  abbrev pub Advances : Executor F → Type 0
  Advances s = (a : Action F) × Lowers s (step a s)

  module _ (n : ℕ) (s : Executor F) (valid : IsValid n s) where
    worker-Advances :
        (i : ℕ) (w : Worker F) → get_elem? s.workers i ≡ some w → 0 < busy w → Advances s
    unfolding step stage_returns buffer_record worker_saved settle
    worker-Advances i Worker.waiting e h = absurd (omega (arith, h))
    worker-Advances i (Worker.running r (name ∷ names)) e h = (
      returns i r,
      ground (arith, total-set load s.workers i (Worker.running (mark_stage r name) names) e),
    )
    worker-Advances i (Worker.running r []) e h = (
      buffers i,
      ground (
        arith,
        valid.counted,
        total-set busy s.workers i Worker.waiting e,
        total-set load s.workers i Worker.waiting e,
        total-set load s.workers i (Worker.saving (s.buffer ++ r ∷ [])) e,
      ),
    )
    worker-Advances i (Worker.saving batch) e h = (
      saves i SaveOutcome.stored,
      ground (
        arith,
        valid.counted,
        total-set busy s.workers i Worker.waiting e,
        total-set load s.workers i Worker.waiting e,
      ),
    )

  -- A worker with a record, or none.
  busy_worker :
      (ws : List (Worker F))
      → (total busy ws ≡ 0) ⊎ ((i : ℕ) × (w : Worker F) × (get_elem? ws i ≡ some w) × (0 < busy w))
  busy_worker [] = inl refl
  busy_worker (Worker.running r names ∷ ws) = inr (0, Worker.running r names, refl, omega arith)
  busy_worker (Worker.saving batch ∷ ws) = inr (0, Worker.saving batch, refl, omega arith)
  busy_worker (Worker.waiting ∷ ws) = elim (busy_worker ws) [
    | inl idle ↦ inl (omega (arith, idle))
    | inr (i, w, e, h) ↦ inr (suc i, w, e, h)
  ]

  idle_worker :
      (ws : List (Worker F))
      → 0 < length ws
      → total busy ws ≡ 0
      → get_elem? ws 0 ≡ some Worker.waiting
  idle_worker [] some_worker idle = absurd (omega (arith, some_worker))
  idle_worker (Worker.waiting ∷ ws) some_worker idle = refl
  idle_worker (Worker.running r names ∷ ws) some_worker idle = absurd (omega (arith, idle))
  idle_worker (Worker.saving batch ∷ ws) some_worker idle = absurd (omega (arith, idle))

  Main-cases :
      (m : Main F)
      → (m ≡ Main.joining)
        ⊎ (m ≡ Main.stopping)
        ⊎ ((batch : List (LogRecord F)) × (m ≡ Main.draining batch))
        ⊎ (m ≡ Main.returned)
  Main-cases Main.joining = inl refl
  Main-cases Main.stopping = inr (inl refl)
  Main-cases (Main.draining batch) = inr (inr (inl (batch, refl)))
  Main-cases Main.returned = inr (inr (inr refl))

  Flusher-cases :
      (f : Flusher F)
      → (f ≡ Flusher.asleep)
        ⊎ ((batch : List (LogRecord F)) × (f ≡ Flusher.flushing batch))
        ⊎ (f ≡ Flusher.ended)
  Flusher-cases Flusher.asleep = inl refl
  Flusher-cases (Flusher.flushing batch) = inr (inl (batch, refl))
  Flusher-cases Flusher.ended = inr (inr refl)

  module _ (n : ℕ) (s : Executor F) (valid : IsValid n s) (v : IsAliveAt s) where
    joining-Advances : s.main ≡ Main.joining → Advances s
    unfolding step produce take_record shut_down
    joining-Advances here = elim (busy_worker s.workers) [
      | inr (i, w, e, h) ↦ worker-Advances n s valid i w e h
      | inl idle ↦
          let staffed : 0 < length s.workers = rw (here, IsAlive) at v.alive in
          let free = idle_worker s.workers staffed idle in
          elim (List-cases s.queue) [
            | inr (r, rest, queued) ↦ (
              takes 0,
              ground (arith, total-set load s.workers 0 (Worker.running r s.stage_names) free),
            )
            | inl empty ↦ elim (List-cases s.lines) [
              | inr (line, lines, more) ↦ (produces 0, ground arith)
              | inl exhausted ↦ (shuts_down, ground (arith, valid.counted))
            ]
          ]
    ]

    stopping-Advances : s.main ≡ Main.stopping → Advances s
    unfolding step flusher_wakes flusher_saved final_flush settle
    stopping-Advances here =
        let over : s.shutdown ≡ true = rw (here, IsAlive) at v.alive in
        elim (Flusher-cases s.flusher) [
          | inl asleep ↦ (wakes, ground arith)
          | inr (inl (batch, saving)) ↦ (flushes SaveOutcome.stored, ground arith)
          | inr (inr ended) ↦ (drains, ground arith)
        ]

    -- A state from which `run` has not returned can go on, towards its end.
    pub advances : (s.main ≡ Main.returned) ⊎ Advances s
    unfolding step final_saved settle
    advances = elim (Main-cases s.main) [
      | inl here ↦ inr (joining-Advances here)
      | inr (inl here) ↦ inr (stopping-Advances here)
      | inr (inr (inl (batch, here))) ↦ inr (finishes SaveOutcome.stored, ground arith)
      | inr (inr (inr done)) ↦ inl done
    ]
