-- ===== src/Executor/Actions.antt =====
-- Interleavings of the executor's tasks (src/pipelinex/core/pipeline.py): an action is one stretch
-- of one task, and a schedule is a list of actions.
use pipelinex.Prelude.{ℕ, ◌+◌, List, [], ◌∷◌, Option, none, some}
use pipelinex.Prelude.Lists.{length, get_elem?}
use pipelinex.Exceptions.{ErrorKind}
use pipelinex.Models.{LogRecord}
use pipelinex.Executor.{
  Worker, Flusher, SaveOutcome, Executor, produce, take_record, stage_returns, stage_raises,
  buffer_record, worker_saved, flusher_wakes, flusher_saved, shut_down, final_flush, final_saved,
}

pub data Action (F : Type 0) : Type 0 where
  produces : ℕ → Action F
  takes : ℕ → Action F
  returns : ℕ → LogRecord F → Action F
  raises : ℕ → ErrorKind → Action F
  buffers : ℕ → Action F
  saves : ℕ → SaveOutcome → Action F
  wakes : Action F
  flushes : SaveOutcome → Action F
  shuts_down : Action F
  drains : Action F
  finishes : SaveOutcome → Action F

-- A save that ends by an exception which `_flush_batch` does not handle.
abbrev pub is_unhandled : SaveOutcome → ℕ
is_unhandled SaveOutcome.stored = 0
is_unhandled (SaveOutcome.failed_with ErrorKind.repository_error) = 0
is_unhandled (SaveOutcome.failed_with _) = 1

module _ {F : Type 0} where
  unfoldable pub step : Action F → Executor F → Option (Executor F)
  unfolding produce take_record stage_returns stage_raises buffer_record worker_saved flusher_wakes
      flusher_saved shut_down final_flush final_saved
  step (produces uuid) s = produce uuid s
  step (takes i) s = take_record i s
  step (returns i r) s = stage_returns i r s
  step (raises i kind) s = stage_raises i kind s
  step (buffers i) s = buffer_record i s
  step (saves i outcome) s = worker_saved i outcome s
  step wakes s = flusher_wakes s
  step (flushes outcome) s = flusher_saved outcome s
  step shuts_down s = shut_down s
  step drains s = final_flush s
  step (finishes outcome) s = final_saved outcome s

  -- `none`: the schedule asks a task to go on where it cannot.
  unfoldable pub run : List (Action F) → Executor F → Option (Executor F)
  run [] s = some s
  run (a ∷ schedule) s = elim (step a s) [ none ↦ none | some s' ↦ run schedule s' ]

  abbrev pub held : Worker F → ℕ
  held Worker.waiting = 0
  held (Worker.running r names) = 0
  held (Worker.saving batch) = length batch

  abbrev pub flusher_held : Flusher F → ℕ
  flusher_held Flusher.asleep = 0
  flusher_held (Flusher.flushing batch) = length batch
  flusher_held Flusher.ended = 0

  abbrev pub held_at : Option (Worker F) → ℕ
  held_at none = 0
  held_at (some w) = held w

  -- The records of the batch that an action loses in this way.
  abbrev pub lost_by : Action F → Executor F → ℕ
  lost_by (saves i SaveOutcome.stored) s = 0
  lost_by (saves i (SaveOutcome.failed_with ErrorKind.repository_error)) s = 0
  lost_by (saves i (SaveOutcome.failed_with _)) s = held_at (get_elem? s.workers i)
  lost_by (flushes SaveOutcome.stored) s = 0
  lost_by (flushes (SaveOutcome.failed_with ErrorKind.repository_error)) s = 0
  lost_by (flushes (SaveOutcome.failed_with _)) s = flusher_held s.flusher
  lost_by _ s = 0

  -- The failures that workers count for such a save, one for each.
  abbrev pub blamed_by : Action F → ℕ
  blamed_by (saves i outcome) = is_unhandled outcome
  blamed_by _ = 0

  abbrev pub lost_in : List (Action F) → Executor F → ℕ
  lost_in [] s = 0
  lost_in (a ∷ schedule) s =
      lost_by a s + elim (step a s) [ none ↦ 0 | some s' ↦ lost_in schedule s' ]

  abbrev pub blamed_in : List (Action F) → ℕ
  blamed_in [] = 0
  blamed_in (a ∷ schedule) = blamed_by a + blamed_in schedule
