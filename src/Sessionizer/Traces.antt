-- ===== src/Sessionizer/Traces.antt =====
-- `_OpenTrace` of src/pipelinex/stages/sessionizing/block_sessionizer.py: the scratch pad of a
-- block in flight, with the flag that `process` sets on it, and the trace that `_emit` makes of it.
use pipelinex.Prelude.{ℕ, String, Bool, true, false, List, [], ◌∷◌, ◌++◌, Option, none, some}
use pipelinex.Prelude.Tests.{ltb, if◌then◌else◌}
use pipelinex.Prelude.Lists.{length}
use pipelinex.Prelude.Equality.{◌=?◌, string_eq}
use pipelinex.Models.{BlockTrace, ClosedReason}

pub record OpenTrace : Type 0 where
  pub block_id : String
  pub events : List String
  pub record_ids : List ℕ
  pub first_ts : ℕ
  pub last_ts : ℕ
  pub terminal_seen : Bool

-- `_OpenTrace(block_id, first_ts, last_ts)`
unfoldable pub new_trace : String → ℕ → ℕ → OpenTrace
new_trace block_id first_ts last_ts = record {
  block_id = block_id;
  events = [];
  record_ids = [];
  first_ts = first_ts;
  last_ts = last_ts;
  terminal_seen = false;
}

-- What `if event_id: self.events.append(event_id)` appends: nothing for None and for "".
abbrev pub event_added : Option String → List String
event_added none = []
event_added (some e) = if e =? "" then [] else e ∷ []

widen : Option ℕ → OpenTrace → OpenTrace
widen none t = t
widen (some ts) t = record t {
  first_ts = if ltb ts t.first_ts then ts else t.first_ts;
  last_ts = if ltb t.last_ts ts then ts else t.last_ts;
}

-- `_OpenTrace.add`
unfoldable pub add : OpenTrace → Option String → ℕ → Option ℕ → OpenTrace
unfolding widen
add t event_id rid ts =
    widen ts (record t {
      events = t.events ++ event_added event_id;
      record_ids = t.record_ids ++ rid ∷ [];
    })

abbrev pub mem : String → List String → Bool
mem e [] = false
mem e (x ∷ xs) = if e =? x then true else mem e xs

-- `event_id in self._terminal`
abbrev pub is_terminal : List String → Option String → Bool
is_terminal events none = false
is_terminal events (some e) = mem e events

-- `if event_id in self._terminal: trace.terminal_seen = True`
unfoldable pub note_terminal : List String → Option String → OpenTrace → OpenTrace
note_terminal terminal event_id t =
    if is_terminal terminal event_id then record t { terminal_seen = true } else t

-- The `BlockTrace` that `_emit` builds.
unfoldable pub close_trace : ℕ → OpenTrace → ClosedReason → BlockTrace
close_trace run_id t reason = record {
  block_id = t.block_id;
  event_sequence = t.events;
  record_ids = t.record_ids;
  first_timestamp = t.first_ts;
  last_timestamp = t.last_ts;
  record_count = length t.record_ids;
  pipeline_run_id = run_id;
  closed_reason = reason;
}
