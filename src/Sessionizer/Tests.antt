-- ===== src/Sessionizer/Tests.antt =====
-- The sessionizer (src/pipelinex/stages/sessionizing/block_sessionizer.py) at concrete inputs.
use pipelinex.Prelude.{
  ℕ, ◌+◌, ◌≡◌, refl, String, Bool, false, List, [], ◌∷◌, ◌++◌, Option, none, some, arith, map,
}
use pipelinex.Models.{Value, Severity, LogRecord, BlockTrace, ClosedReason}
use pipelinex.Sessionizer.{Config, Sessionizer, init}
use pipelinex.Sessionizer.Traces.{OpenTrace}
use pipelinex.Sessionizer.Closing.{
  verdict, to_close, step, Call, processes, ticks, starts, stops, run, count_raised,
}
use pipelinex.Sessionizer.Invariant.{IsValid}
use pipelinex.Sessionizer.Runs.{unhashable_calls, run-IsValid}
use pipelinex.Sessionizer.Complete.{
  by_record, by_event, Shows, run-stops-record_ids, run-stops-events,
}

abbrev config : Config
config = record {
  run_id = 7;
  idle_window = 30;
  max_per_trace = 3;
  max_open = 2;
  terminal = "E9" ∷ "E21" ∷ [];
  block_id_key = "block_id";
  event_id_key = "event_id";
}

abbrev fresh : Sessionizer
fresh = record {
  config = config;
  opened = [];
  latest_log_ts = none;
  traces_emitted = 0;
  janitor_running = false;
}

abbrev log_line : ℕ → String → String → ℕ → LogRecord ℕ
log_line id block event ts = record {
  id = id;
  pipeline_run_id = some 7;
  timestamp = some ts;
  source = "dfs.DataNode";
  severity = Severity.info;
  message = "";
  raw_payload = [];
  enrichment = ("block_id", Value.text block) ∷ ("event_id", Value.text event) ∷ [];
  stage_history = [];
}

abbrev at_noon : LogRecord ℕ → Call ℕ
at_noon r = processes (0, 0) r

-- Block a closes at its terminal event, b is evicted when c and d arrive, and the rest at the end.
abbrev calls : List (Call ℕ)
calls =
    starts
    ∷ at_noon (log_line 1 "a" "E5" 10)
    ∷ at_noon (log_line 2 "b" "E5" 11)
    ∷ at_noon (log_line 3 "a" "E9" 12)
    ∷ ticks
    ∷ at_noon (log_line 4 "c" "E5" 13)
    ∷ at_noon (log_line 5 "d" "E5" 14)
    ∷ at_noon (log_line 6 "a" "E5" 15)
    ∷ at_noon (log_line 7 "b" "" 16)
    ∷ []

abbrev ids_and_reasons :
    Option (Sessionizer × List BlockTrace) → List (String × List ℕ × ClosedReason)
ids_and_reasons none = []
ids_and_reasons (some (_, out)) = map (λ t. (t.block_id, t.record_ids, t.closed_reason)) out

calls_publish :
    ids_and_reasons (run (calls ++ stops ∷ []) fresh)
    ≡ ("a", 1 ∷ 3 ∷ [], ClosedReason.terminal)
      ∷ ("b", 2 ∷ [], ClosedReason.evicted)
      ∷ ("c", 4 ∷ [], ClosedReason.evicted)
      ∷ ("d", 5 ∷ [], ClosedReason.evicted)
      ∷ ("a", 6 ∷ [], ClosedReason.shutdown)
      ∷ ("b", 7 ∷ [], ClosedReason.shutdown)
      ∷ []
unfolding run step to_close verdict
calls_publish = refl

run-stops-record_ids_example :
    Shows by_record "a" (1 ∷ 3 ∷ 6 ∷ []) (run (calls ++ stops ∷ []) fresh)
unfolding init
run-stops-record_ids_example = run-stops-record_ids "a" config calls refl

run-stops-events_example : Shows by_event "b" ("E5" ∷ []) (run (calls ++ stops ∷ []) fresh)
unfolding init
run-stops-events_example = run-stops-events "b" config calls refl

fresh-IsValid : IsValid 0 fresh
fresh-IsValid = record { some_room = omega arith; distinct = tt; entries = tt; few = omega arith }

-- Two blocks with an event id that is no text and not hashable, over the limit of two.
abbrev odd_line : ℕ → String → LogRecord ℕ
odd_line id block = record (log_line id block "" 20) {
  enrichment = ("block_id", Value.text block) ∷ ("event_id", Value.text_lists []) ∷ [];
}

abbrev odd_calls : List (Call ℕ)
odd_calls = calls ++ at_noon (odd_line 8 "x") ∷ at_noon (odd_line 9 "y") ∷ []

run-IsValid_example :
    (s' : Sessionizer) × (out : List BlockTrace) × (run odd_calls fresh ≡ some (s', out))
    × IsValid (0 + unhashable_calls config odd_calls) s'
    × (count_raised odd_calls fresh ≡ unhashable_calls config odd_calls)
run-IsValid_example = run-IsValid 0 odd_calls fresh fresh-IsValid

two_raise : unhashable_calls config odd_calls ≡ 2
two_raise = refl

abbrev idle_trace : String → ℕ → Bool → OpenTrace
idle_trace block ts seen = record {
  block_id = block;
  events = "E5" ∷ [];
  record_ids = 1 ∷ [];
  first_ts = ts;
  last_ts = ts;
  terminal_seen = seen;
}

abbrev waiting : Sessionizer
waiting = record fresh {
  opened = ("a", idle_trace "a" 5 false) ∷ ("b", idle_trace "b" 50 false) ∷ [];
  latest_log_ts = some 50;
}
