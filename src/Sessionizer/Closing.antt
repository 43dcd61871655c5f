-- ===== src/Sessionizer/Closing.antt =====
-- The closing paths of `BlockSessionizerStage` (src/pipelinex/stages/sessionizing/
-- block_sessionizer.py): the janitor's pass, `start`, `stop`, and a run of calls. A call holds the
-- lock from start to end; a pass that `stop` cancels half-way is not modelled.
use pipelinex.Prelude.{ℕ, ◌+◌, String, true, false, List, [], ◌∷◌, ◌++◌, Option, none, some}
use pipelinex.Prelude.Tests.{ltb, if◌then◌else◌}
use pipelinex.Prelude.Dict.{Dict, lookup, remove}
use pipelinex.Prelude.Equality.{string_eq}
use pipelinex.Models.{LogRecord, BlockTrace, ClosedReason}
use pipelinex.Sessionizer.{Sessionizer, emit, process}
use pipelinex.Sessionizer.Traces.{OpenTrace}

-- Why the pass closes a trace, if it does. The code compares `last_ts < latest - idle_window`; the
-- window stands on the left, since the difference may be negative.
unfoldable pub verdict : ℕ → ℕ → OpenTrace → Option ClosedReason
verdict idle latest t =
    if t.terminal_seen
    then some ClosedReason.terminal
    else if ltb (t.last_ts + idle) latest
    then some ClosedReason.timeout
    else none

abbrev pub Closing : Type 0
Closing = List (String × OpenTrace × ClosedReason)

-- `to_close`
unfoldable pub to_close : ℕ → ℕ → Dict String OpenTrace → Closing
to_close idle latest [] = []
to_close idle latest ((b, t) ∷ d) = elim (verdict idle latest t) [
  | none ↦ to_close idle latest d
  | some reason ↦ (b, t, reason) ∷ to_close idle latest d
]

-- The loop over `to_close`.
unfoldable pub close_all : Closing → Sessionizer → Sessionizer × List BlockTrace
unfolding emit
close_all [] s = (s, [])
close_all ((b, t, reason) ∷ rest) s =
    let (s', bt) = emit (record s { opened = remove b s.opened }) t reason in
    let (s'', out) = close_all rest s' in (s'', bt ∷ out)

-- `_janitor_pass`
unfoldable pub janitor_pass : Sessionizer → Sessionizer × List BlockTrace
unfolding close_all
janitor_pass s = elim s.opened [
  | [] ↦ (s, [])
  | _ ∷ _ ↦ elim s.latest_log_ts [
    | none ↦ (s, [])
    | some latest ↦ close_all (to_close s.idle_window latest s.opened) s
  ]
]

-- `start`: the janitor runs from now on, if it does not yet.
unfoldable pub start : Sessionizer → Sessionizer
start s = if s.janitor_running then s else record s { janitor_running = true }

abbrev pub keys : Dict String OpenTrace → List String
keys [] = []
keys ((b, _) ∷ d) = b ∷ keys d

-- The loop of `stop` over the keys; `none` is the KeyError of `pop`.
unfoldable pub flush_keys : List String → Sessionizer → Option (Sessionizer × List BlockTrace)
unfolding emit
flush_keys [] s = some (s, [])
flush_keys (k ∷ ks) s = elim (lookup k s.opened) [
  | none ↦ none
  | some t ↦
      let (s', bt) = emit (record s { opened = remove k s.opened }) t ClosedReason.shutdown in
      elim (flush_keys ks s') [ none ↦ none | some (s'', out) ↦ some (s'', bt ∷ out) ]
]

-- `stop`
unfoldable pub stop : Sessionizer → Option (Sessionizer × List BlockTrace)
unfolding flush_keys
stop s = flush_keys (keys s.opened) (record s { janitor_running = false })

-- What callers do with the stage. A record comes with the two readings of the wall clock.
pub data Call (F : Type 0) : Type 0 where
  processes : ℕ × ℕ → LogRecord F → Call F
  ticks : Call F
  starts : Call F
  stops : Call F

module _ {F : Type 0} where
  -- A `process` that raises publishes nothing, and the caller goes on with the next record.
  unfoldable pub step : Sessionizer → Call F → Option (Sessionizer × List BlockTrace)
  unfolding process janitor_pass start stop
  step s (processes now r) = let (_, s', out, _) = process s now r in some (s', out)
  step s ticks = some (janitor_pass s)
  step s starts = some (start s, [])
  step s stops = stop s

  -- A run of calls, with all the traces published.
  unfoldable pub run : List (Call F) → Sessionizer → Option (Sessionizer × List BlockTrace)
  run [] s = some (s, [])
  run (c ∷ cs) s = elim (step s c) [
    | none ↦ none
    | some (s', out) ↦ elim (run cs s') [ none ↦ none | some (s'', out') ↦ some (s'', out ++ out') ]
  ]

  -- How many calls raise.
  unfoldable pub raises : Sessionizer → Call F → ℕ
  unfolding process
  raises s (processes now r) = if (process s now r).3 then 1 else 0
  raises s _ = 0

  unfoldable pub count_raised : List (Call F) → Sessionizer → ℕ
  unfolding step raises
  count_raised [] s = 0
  count_raised (c ∷ cs) s =
      raises s c + elim (step s c) [ none ↦ 0 | some (s', out) ↦ count_raised cs s' ]
