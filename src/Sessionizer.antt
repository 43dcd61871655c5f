-- ===== src/Sessionizer.antt =====
-- `BlockSessionizerStage` of src/pipelinex/stages/sessionizing/block_sessionizer.py. Each method
-- body runs under the stage's lock, so a call is one step. A call returns the new state and the
-- traces that it publishes, in order. Time is in whole microseconds; the wall clock that `_utcnow`
-- reads is an argument.
pub mod Traces
pub mod Closing
pub mod Invariant
pub mod Sweep
pub mod Runs
pub mod History
pub mod Complete
mod Tests
use pipelinex.Prelude.{ℕ, ◌+◌, String, Bool, true, false, List, [], ◌∷◌, ◌++◌, Option, none, some}
use pipelinex.Prelude.Tests.{ltb, leb, if◌then◌else◌}
use pipelinex.Prelude.Lists.{length}
use pipelinex.Prelude.Dict.{Dict, lookup, insert, remove}
use pipelinex.Prelude.Equality.{◌=?◌, string_eq}
use pipelinex.Models.{is_hashable, Value, LogRecord, BlockTrace, ClosedReason}
use Traces.{OpenTrace, new_trace, add, note_terminal, close_trace}

pub record Config : Type 0 where
  pub run_id : ℕ
  pub idle_window : ℕ
  pub max_per_trace : ℕ
  pub max_open : ℕ
  pub terminal : List String
  pub block_id_key : String
  pub event_id_key : String

pub record Sessionizer : Type 0 where
  pub config : Config
  pub open config use *
  pub opened : Dict String OpenTrace
  pub latest_log_ts : Option ℕ
  pub traces_emitted : ℕ
  pub janitor_running : Bool

-- `__init__`; `none` is a ValueError.
unfoldable pub init : Config → Option Sessionizer
init c =
    if leb c.idle_window 0
    then none
    else if leb c.max_per_trace 0
    then none
    else if leb c.max_open 0
    then none
    else some (record {
      config = c;
      opened = [];
      latest_log_ts = none;
      traces_emitted = 0;
      janitor_running = Bool.false;
    })

-- `_emit`, on the trace already taken off the table.
unfoldable pub emit : Sessionizer → OpenTrace → ClosedReason → Sessionizer × BlockTrace
unfolding close_trace
emit s t reason =
    (record s { traces_emitted = s.traces_emitted + 1 }, close_trace s.run_id t reason)

abbrev pub as_text : {F : Type 0} → Option (Value F) → Option String
as_text (some (Value.text x)) = some x
as_text _ = none

-- `ts is not None and (latest is None or ts > latest)`
unfoldable pub newest : Option ℕ → Option ℕ → Option ℕ
newest none latest = latest
newest (some ts) none = some ts
newest (some ts) (some latest) = if ltb latest ts then some ts else some latest

-- `ts or _utcnow()`
abbrev pub or_now : Option ℕ → ℕ → ℕ
or_now none now = now
or_now (some ts) now = ts

-- The open trace of a block and the table with the block at its end: a new trace, or the present
-- one, moved.
unfoldable pub fetch :
    String → Option ℕ → ℕ × ℕ → Dict String OpenTrace → OpenTrace × Dict String OpenTrace
unfolding new_trace
fetch b ts (now, now') opened = elim (lookup b opened) [
  | none ↦ let t = new_trace b (or_now ts now) (or_now ts now') in (t, insert b t opened)
  | some t ↦ (t, remove b opened ++ (b, t) ∷ [])
]

-- `popitem(last=False)` and `_emit(victim, "evicted")`
unfoldable pub evict_oldest : Dict String OpenTrace → Sessionizer → Sessionizer × List BlockTrace
unfolding emit
evict_oldest [] s = (s, [])
evict_oldest ((k, victim) ∷ rest) s =
    let (s', bt) = emit (record s { opened = rest }) victim ClosedReason.evicted in (s', bt ∷ [])

-- The hard cap, then the limit on open traces.
unfoldable pub enforce_limits : String → OpenTrace → Sessionizer → Sessionizer × List BlockTrace
unfolding emit evict_oldest
enforce_limits b t s =
    if leb s.max_per_trace (length t.events)
    then (let (s', bt) = emit (record s { opened = remove b s.opened }) t ClosedReason.evicted in
        (s', bt ∷ []))
    else if ltb s.max_open (length s.opened)
    then evict_oldest s.opened s
    else (s, [])

-- The body of `process` under the lock, for a record that carries a block id.
unfoldable pub observe :
    Sessionizer → ℕ × ℕ → String → Option String → ℕ → Option ℕ → Sessionizer × List BlockTrace
unfolding fetch add note_terminal newest enforce_limits
observe s now b event_id rid ts =
    let (t, table) = fetch b ts now s.opened in
    let t' = note_terminal s.terminal event_id (add t event_id rid ts) in
    enforce_limits b t'
      (record s { opened = insert b t' table; latest_log_ts = newest ts s.latest_log_ts })

-- The same for an event id that is not hashable: `event_id in self._terminal` raises a `TypeError`
-- when the trace is already extended, so that the limits are not enforced.
unfoldable pub observe_unhashable : Sessionizer → ℕ × ℕ → String → ℕ → Option ℕ → Sessionizer
unfolding fetch add newest
observe_unhashable s now b rid ts =
    let (t, table) = fetch b ts now s.opened in
    record s {
      opened = insert b (add t none rid ts) table;
      latest_log_ts = newest ts s.latest_log_ts;
    }

-- `isinstance(block_id, str) and block_id`
abbrev pub block_of : {F : Type 0} → Config → LogRecord F → Option String
block_of c r = elim (as_text (lookup c.block_id_key r.enrichment)) [
  | none ↦ none
  | some b ↦ if b =? "" then none else some b
]

abbrev pub event_of : {F : Type 0} → Config → LogRecord F → Option String
event_of c r = as_text (lookup c.event_id_key r.enrichment)

-- `process`, with whether it raises; if not, the record goes on downstream as it came.
unfoldable pub process :
    {F : Type 0}
    → Sessionizer
    → ℕ × ℕ
    → LogRecord F
    → LogRecord F × Sessionizer × List BlockTrace × Bool
unfolding observe observe_unhashable
process s now r = elim (block_of s.config r) [
  | none ↦ (r, s, [], false)
  | some b ↦ elim (is_hashable (lookup s.event_id_key r.enrichment)) [
    | true ↦
        let (s', out) = observe s now b (event_of s.config r) r.id r.timestamp in
        (r, s', out, false)
    | false ↦ (r, observe_unhashable s now b r.id r.timestamp, [], true)
  ]
]
