-- ===== src/Executor.antt =====
-- `PipelineExecutor` of src/pipelinex/core/pipeline.py: the state that the producer, the workers,
-- the flusher and `run` share, and one function for each stretch of code between two suspension
-- points of asyncio. A function returns `none` where its task cannot go on from that state. What
-- the environment decides (a stage's outcome, a save's outcome, a new uuid) is an argument. The
-- batch lock is never held across a suspension, so a locked block is part of one stretch.
pub mod Actions
pub mod Accounting
pub mod Storage
pub mod Result
pub mod Alive
pub mod Advance
pub mod Progress
pub mod Stalled
mod Tests
use pipelinex.Prelude.{
  ℕ, zero, suc, ◌+◌, String, Bool, true, false, List, [], ◌∷◌, ◌++◌, Option, none, some,
}
use pipelinex.Prelude.Tests.{leb, if◌then◌else◌}
use pipelinex.Prelude.Lists.{length, get_elem?, set, replicate}
use pipelinex.Prelude.Int.{ℤ, pos, ◌+ℤ◌, ◌-ℤ◌}
use pipelinex.Exceptions.{ErrorKind}
use pipelinex.Models.{Value, Severity, LogRecord, mark_stage}

pub record Config : Type 0 where
  pub run_id : ℕ
  pub num_workers : ℕ
  pub queue_size : ℕ
  pub batch_size : ℕ
  pub stage_names : List String

-- A worker waits at the queue, runs a record through the stages that are left, or awaits the save
-- of a batch that its record filled.
pub data Worker (F : Type 0) : Type 0 where
  waiting : Worker F
  running : LogRecord F → List String → Worker F
  saving : List (LogRecord F) → Worker F

-- The flusher sleeps, awaits a save, or has ended: after the shutdown, or by an exception.
pub data Flusher (F : Type 0) : Type 0 where
  asleep : Flusher F
  flushing : List (LogRecord F) → Flusher F
  ended : Flusher F

-- `run` awaits the producer and the queue, then the tasks that it stops, then the last save.
pub data Main (F : Type 0) : Type 0 where
  joining : Main F
  stopping : Main F
  draining : List (LogRecord F) → Main F
  returned : Main F

-- How `save_batch` ends.
pub data SaveOutcome : Type 0 where
  stored : SaveOutcome
  failed_with : ErrorKind → SaveOutcome

pub record Executor (F : Type 0) : Type 0 where
  pub config : Config
  pub open config use *
  pub lines : List String
  pub queue : List (LogRecord F)
  pub unfinished : ℕ
  pub workers : List (Worker F)
  pub flusher : Flusher F
  pub main : Main F
  pub buffer : List (LogRecord F)
  pub repository : List (LogRecord F)
  pub processed : ℤ
  pub failed : ℕ
  pub shutdown : Bool

module _ {F : Type 0} where
  -- `__init__` and the start of `run`, over the lines that the source will yield.
  unfoldable pub init : Config → List String → Executor F
  init c lines = record {
    config = c;
    lines = lines;
    queue = [];
    unfinished = 0;
    workers = replicate c.num_workers Worker.waiting;
    flusher = Flusher.asleep;
    main = Main.joining;
    buffer = [];
    repository = [];
    processed = pos 0;
    failed = 0;
    shutdown = false;
  }

  -- The record that `_produce` makes of a line.
  unfoldable pub wrap_line : ℕ → ℕ → String → LogRecord F
  wrap_line run_id uuid line = record {
    id = uuid;
    pipeline_run_id = some run_id;
    timestamp = none;
    source = "";
    severity = Severity.info;
    message = "";
    raw_payload = ("raw", Value.text line) ∷ [];
    enrichment = [];
    stage_history = [];
  }

  -- `asyncio.Queue.full`: a `maxsize` of 0 means no bound.
  abbrev pub is_full : ℕ → List (LogRecord F) → Bool
  is_full maxsize q = if leb maxsize 0 then false else leb maxsize (length q)

  -- One round of `_produce`; `put` waits while the queue is full.
  unfoldable pub produce : ℕ → Executor F → Option (Executor F)
  unfolding wrap_line
  produce uuid s = elim s.lines [
    | [] ↦ none
    | line ∷ rest ↦
        if is_full s.queue_size s.queue
        then none
        else some (record s {
          lines = rest;
          queue = s.queue ++ wrap_line s.run_id uuid line ∷ [];
          unfinished = s.unfinished + 1;
        })
  ]

  -- `queue.task_done()`, and worker `i` back at the queue.
  abbrev pub task_done : ℕ → Executor F → Option (Executor F)
  task_done i s = elim s.unfinished [
    | zero ↦ none
    | suc n ↦ some (record s { unfinished = n; workers = set s.workers i Worker.waiting })
  ]

  -- `queue.get()` in `_consume`
  unfoldable pub take_record : ℕ → Executor F → Option (Executor F)
  take_record i s = elim (get_elem? s.workers i) [
    | some Worker.waiting ↦ elim s.queue [
      | [] ↦ none
      | r ∷ rest ↦
          some
            (record s { queue = rest; workers = set s.workers i (Worker.running r s.stage_names) })
    ]
    | _ ↦ none
  ]

  -- A stage returns a record, which is marked with the stage's name.
  unfoldable pub stage_returns : ℕ → LogRecord F → Executor F → Option (Executor F)
  unfolding mark_stage
  stage_returns i r' s = elim (get_elem? s.workers i) [
    | some (Worker.running r (name ∷ names)) ↦
        some (record s { workers = set s.workers i (Worker.running (mark_stage r' name) names) })
    | _ ↦ none
  ]

  -- A stage raises: each of the three handlers counts a failure.
  unfoldable pub stage_raises : ℕ → ErrorKind → Executor F → Option (Executor F)
  stage_raises i kind s = elim (get_elem? s.workers i) [
    | some (Worker.running r (name ∷ names)) ↦ task_done i (record s { failed = s.failed + 1 })
    | _ ↦ none
  ]

  -- The stages are done: `_buffer_for_batch` up to the save that a full buffer starts, or to the
  -- end of the round.
  unfoldable pub buffer_record : ℕ → Executor F → Option (Executor F)
  buffer_record i s = elim (get_elem? s.workers i) [
    | some (Worker.running r []) ↦
        let batch = s.buffer ++ r ∷ [] in
        if leb s.batch_size (length batch)
        then some (record s { buffer = []; workers = set s.workers i (Worker.saving batch) })
        else task_done i (record s { buffer = batch; processed = s.processed +ℤ pos 1 })
    | _ ↦ none
  ]

  -- The end of `_flush_batch` for a save that stored the batch or raised a `RepositoryError`, and
  -- `none` where the exception goes on to the caller.
  unfoldable pub settle : List (LogRecord F) → SaveOutcome → Executor F → Option (Executor F)
  settle batch SaveOutcome.stored s = some (record s { repository = s.repository ++ batch })
  settle batch (SaveOutcome.failed_with ErrorKind.repository_error) s =
      some (record s {
        failed = s.failed + length batch;
        processed = s.processed -ℤ pos (length batch);
      })
  settle batch (SaveOutcome.failed_with _) s = none

  -- A worker's save ends. An exception that `_flush_batch` lets through is one failure.
  unfoldable pub worker_saved : ℕ → SaveOutcome → Executor F → Option (Executor F)
  unfolding settle
  worker_saved i outcome s = elim (get_elem? s.workers i) [
    | some (Worker.saving batch) ↦ elim (settle batch outcome s) [
      | some s' ↦ task_done i (record s' { processed = s'.processed +ℤ pos 1 })
      | none ↦ task_done i (record s { failed = s.failed + 1 })
    ]
    | _ ↦ none
  ]

  -- The flusher wakes and takes the buffer; it ends with its loop, or sleeps on.
  unfoldable pub flusher_wakes : Executor F → Option (Executor F)
  flusher_wakes s = elim s.flusher [
    | Flusher.asleep ↦ elim s.buffer [
      | [] ↦ some (record s { flusher = if s.shutdown then Flusher.ended else Flusher.asleep })
      | r ∷ rest ↦ some (record s { buffer = []; flusher = Flusher.flushing (r ∷ rest) })
    ]
    | _ ↦ none
  ]

  -- The flusher's save ends. An exception that `_flush_batch` lets through ends the task.
  unfoldable pub flusher_saved : SaveOutcome → Executor F → Option (Executor F)
  unfolding settle
  flusher_saved outcome s = elim s.flusher [
    | Flusher.flushing batch ↦ elim (settle batch outcome s) [
      | some s' ↦
          some (record s' { flusher = if s'.shutdown then Flusher.ended else Flusher.asleep })
      | none ↦ some (record s { flusher = Flusher.ended })
    ]
    | _ ↦ none
  ]

  -- The source is exhausted and `queue.join()` returns: the shutdown is set, the workers cancelled.
  unfoldable pub shut_down : Executor F → Option (Executor F)
  shut_down s = elim s.main [
    | Main.joining ↦ elim s.lines [
      | [] ↦ elim s.unfinished [
        | zero ↦ some (record s { shutdown = true; main = Main.stopping; workers = [] })
        | suc _ ↦ none
      ]
      | _ ∷ _ ↦ none
    ]
    | _ ↦ none
  ]

  -- `gather` returns once the flusher has ended; then the last `_flush_batch`.
  unfoldable pub final_flush : Executor F → Option (Executor F)
  final_flush s = elim s.main [
    | Main.stopping ↦ elim s.flusher [
      | Flusher.ended ↦ elim s.buffer [
        | [] ↦ some (record s { main = Main.returned })
        | r ∷ rest ↦ some (record s { buffer = []; main = Main.draining (r ∷ rest) })
      ]
      | _ ↦ none
    ]
    | _ ↦ none
  ]

  -- The last save ends. An exception that `_flush_batch` lets through leaves `run` with no result.
  unfoldable pub final_saved : SaveOutcome → Executor F → Option (Executor F)
  unfolding settle
  final_saved outcome s = elim s.main [
    | Main.draining batch ↦ elim (settle batch outcome s) [
      | some s' ↦ some (record s' { main = Main.returned })
      | none ↦ none
    ]
    | _ ↦ none
  ]
