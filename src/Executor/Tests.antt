-- ===== src/Executor/Tests.antt =====
-- The executor (src/pipelinex/core/pipeline.py) under concrete schedules.
use pipelinex.Prelude.{ℕ, ◌≡◌, refl, String, true, false, List, [], ◌∷◌, Option, none, some, arith}
use pipelinex.Prelude.Lists.{length}
use pipelinex.Prelude.Int.{ℤ, pos, ◌+ℤ◌}
use pipelinex.Exceptions.{ErrorKind}
use pipelinex.Models.{LogRecord}
use pipelinex.Executor.{Worker, Config, SaveOutcome, Main, Flusher, Executor, init, wrap_line}
use pipelinex.Executor.Actions.{
  Action, produces, takes, returns, raises, buffers, saves, wakes, shuts_down, drains, step, run,
}
use pipelinex.Executor.Accounting.{IsValid, run-init-IsValid}
use pipelinex.Executor.Progress.{CanFinish, run-CanFinish}
use pipelinex.Executor.Result.{result_counts_lines, result_counts_saved}

abbrev config : Config
config = record {
  run_id = 7;
  num_workers = 2;
  queue_size = 2;
  batch_size = 2;
  stage_names = "parse" ∷ [];
}

abbrev lines : List String
lines = "x" ∷ "y" ∷ "z" ∷ []

line_record : ℕ → String → LogRecord ℕ
unfolding wrap_line
line_record uuid line = wrap_line 7 uuid line

-- Two workers; the second record fails in its stage, and the batch of the other two fills.
abbrev schedule : SaveOutcome → List (Action ℕ)
schedule outcome =
    produces 1
    ∷ produces 2
    ∷ takes 0
    ∷ takes 1
    ∷ produces 3
    ∷ raises 1 ErrorKind.fatal_stage_error
    ∷ returns 0 (line_record 1 "x")
    ∷ buffers 0
    ∷ takes 1
    ∷ returns 1 (line_record 3 "z")
    ∷ buffers 1
    ∷ saves 1 outcome
    ∷ shuts_down
    ∷ wakes
    ∷ drains
    ∷ []

abbrev counters : Option (Executor ℕ) → Option (ℤ × ℕ × ℕ)
counters none = none
counters (some s) = some (s.processed, s.failed, length s.repository)

schedule_stores :
    counters (run (schedule SaveOutcome.stored) (init config lines)) ≡ some (pos 2, 1, 2)
unfolding run step init ◌+ℤ◌
schedule_stores = refl

-- The save of the batch ends by an exception that is no `RepositoryError`: two records are gone,
-- one is counted as failed for it, and one still counts as processed.
schedule_loses :
    counters (run (schedule (SaveOutcome.failed_with ErrorKind.other)) (init config lines))
    ≡ some (pos 1, 2, 0)
unfolding run step init ◌+ℤ◌
schedule_loses = refl

abbrev finished : Executor ℕ
finished = record {
  config = config;
  lines = [];
  queue = [];
  unfinished = 0;
  workers = [];
  flusher = Flusher.ended;
  main = Main.returned;
  buffer = [];
  repository = [];
  processed = pos 1;
  failed = 2;
  shutdown = true;
}

schedule_finishes :
    run (schedule (SaveOutcome.failed_with ErrorKind.other)) (init config lines) ≡ some finished
unfolding run step init ◌+ℤ◌
schedule_finishes = refl

run-init-IsValid_example : IsValid 3 finished
run-init-IsValid_example =
    run-init-IsValid config lines (schedule (SaveOutcome.failed_with ErrorKind.other)) (omega arith)
      schedule_finishes

result_counts_lines_example : pos 1 +ℤ pos 2 ≡ pos 3
result_counts_lines_example =
    result_counts_lines config lines (schedule (SaveOutcome.failed_with ErrorKind.other))
      (omega arith) schedule_finishes refl

result_counts_saved_example : pos 1 +ℤ pos 1 ≡ pos 2
unfolding step init
result_counts_saved_example =
    result_counts_saved config lines (schedule (SaveOutcome.failed_with ErrorKind.other))
      (omega arith) schedule_finishes refl

-- One record in the hands of a worker, two lines at the source.
abbrev midway : Executor ℕ
midway = record {
  config = config;
  lines = "y" ∷ "z" ∷ [];
  queue = [];
  unfinished = 1;
  workers = Worker.running (line_record 1 "x") ("parse" ∷ []) ∷ Worker.waiting ∷ [];
  flusher = Flusher.asleep;
  main = Main.joining;
  buffer = [];
  repository = [];
  processed = pos 0;
  failed = 0;
  shutdown = false;
}

schedule_starts : run (produces 1 ∷ takes 0 ∷ []) (init config lines) ≡ some midway
unfolding run step init line_record
schedule_starts = refl

run-CanFinish_example : CanFinish midway
run-CanFinish_example =
    run-CanFinish config lines (produces 1 ∷ takes 0 ∷ []) (omega arith) (omega arith)
      schedule_starts
