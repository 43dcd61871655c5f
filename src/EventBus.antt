-- ===== src/EventBus.antt =====
-- `EventBus` of src/pipelinex/events/bus.py. Event types and handlers are numbers, as the bus only
-- compares them. `gather` makes a task of each handler and starts the tasks in order; each runs to
-- its first suspension point. What follows is interleaved by a schedule, which names the task that
-- runs on to its next suspension point, so that any order in which the loop resumes them is one.
pub mod Subscriptions
pub mod Finishing
mod Tests
use pipelinex.Prelude.{ℕ, zero, suc, Bool, true, false, List, [], ◌∷◌, ◌++◌, Option, none, some}
use pipelinex.Prelude.Tests.{if◌then◌else◌}
use pipelinex.Prelude.Lists.{length}
use pipelinex.Prelude.Dict.{Dict, lookup, insert}
use pipelinex.Prelude.Equality.{◌=?◌, nat_eq}

pub record Bus : Type 0 where
  pub handlers : Dict ℕ (List ℕ)

abbrev pub init : Bus
init = record { handlers = [] }

-- `self._handlers.get(event_type, [])`
abbrev pub handlers_of : Bus → ℕ → List ℕ
handlers_of b event_type = elim (lookup event_type b.handlers) [ none ↦ [] | some hs ↦ hs ]

abbrev pub member : ℕ → List ℕ → Bool
member h [] = false
member h (k ∷ ks) = if h =? k then true else member h ks

-- `list.remove`
abbrev pub remove_first : ℕ → List ℕ → List ℕ
remove_first h [] = []
remove_first h (k ∷ ks) = if h =? k then ks else k ∷ remove_first h ks

unfoldable pub subscribe : Bus → ℕ → ℕ → Bus
subscribe b event_type handler = record {
  handlers = insert event_type (handlers_of b event_type ++ handler ∷ []) b.handlers;
}

unfoldable pub unsubscribe : Bus → ℕ → ℕ → Bus
unsubscribe b event_type handler =
    if member handler (handlers_of b event_type)
    then record {
      handlers = insert event_type (remove_first handler (handlers_of b event_type)) b.handlers;
    }
    else b

unfoldable pub listener_count : Bus → ℕ → ℕ
listener_count b event_type = length (handlers_of b event_type)

-- The rest of a handler at a suspension point, which reads and writes a world `W`. A task that is
-- done has returned, or raised an exception; one that is suspended has a next stretch, and what
-- is left after it.
pub data Task (W : Type 0) : Type 0 where
  done : Bool → Task W
  suspended : (W → W) → (W → Task W) → Task W

-- `call` runs a handler up to its first suspension point.
module _ {W E : Type 0} (call : ℕ → E → W → W × Task W) where
  abbrev pub start_all : List ℕ → E → W → W × List (Task W)
  start_all [] event w = (w, [])
  start_all (h ∷ hs) event w =
      let (w', t) = call h event w in let (w'', ts) = start_all hs event w' in (w'', t ∷ ts)

module _ {W : Type 0} where
  -- A task that is done is not resumed.
  abbrev pub resume_task : Task W → W → W × Task W
  resume_task (Task.done raised) w = (w, done raised)
  resume_task (Task.suspended write next) w = (write w, next w)

  abbrev pub resume : ℕ → List (Task W) → W → W × List (Task W)
  resume i [] w = (w, [])
  resume zero (t ∷ ts) w = let (w', t') = resume_task t w in (w', t' ∷ ts)
  resume (suc i) (t ∷ ts) w = let (w', ts') = resume i ts w in (w', t ∷ ts')

  abbrev pub resume_each : List ℕ → List (Task W) → W → W × List (Task W)
  resume_each [] ts w = (w, ts)
  resume_each (i ∷ schedule) ts w = let (w', ts') = resume i ts w in resume_each schedule ts' w'

  -- `gather(..., return_exceptions=True)` returns when every task is done, with what each raised.
  abbrev pub gathered : List (Task W) → Option (List Bool)
  gathered [] = some []
  gathered (Task.done raised ∷ ts) = elim (gathered ts) [
    | none ↦ none
    | some failures ↦ some (raised ∷ failures)
  ]
  gathered (Task.suspended write next ∷ ts) = none

module _ {W E : Type 0} (call : ℕ → E → W → W × Task W) where
  -- The world and the tasks after a schedule. `publish` returns when the tasks are gathered: the
  -- failures are logged, and no exception leaves.
  unfoldable pub publish : Bus → ℕ → E → List ℕ → W → W × List (Task W)
  publish b event_type event schedule w =
      let (w', tasks) = start_all call (handlers_of b event_type) event w in
      resume_each schedule tasks w'
