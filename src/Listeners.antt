-- ===== src/Listeners.antt =====
-- The events of src/pipelinex/events/events.py and the listeners of src/pipelinex/events/listeners.py
-- as handlers on the bus of EventBus, over the registry of Metrics. A log message is its anomaly.
-- No handler suspends, since the lock of the registry is free where none is suspended.
pub mod Delivered
mod Tests
use pipelinex.Prelude.{ℕ, zero, suc, String, Bool, true, false, List, [], ◌∷◌, ◌++◌}
use mathlib.Core.List.{foldl}
use pipelinex.Prelude.Text.{◌<>◌}
use pipelinex.Prelude.Int.{pos}
use pipelinex.Models.{reason_text, AnomalyEvent, BlockTrace, ClosedReason}
use pipelinex.Floats.{Floats}
use pipelinex.Metrics.{Registry, inc}
use pipelinex.EventBus.{Bus, Task, publish}

-- `AnomalyEventPublished` and `BlockTraceClosed`
pub data Event (F : Type 0) : Type 0 where
  anomaly_published : AnomalyEvent F → Event F
  trace_closed : BlockTrace → Event F

-- `type(event)`, as the bus compares it.
abbrev pub type_of : {F : Type 0} → Event F → ℕ
type_of (Event.anomaly_published a) = 0
type_of (Event.trace_closed t) = 1

module _ (o : Floats) where
  -- What the listeners write to: the log, `CollectingListener.events` and the registry.
  pub record World : Type 0 where
    pub alerts : List (AnomalyEvent o.Carrier)
    pub collected : List (Event o.Carrier)
    pub registry : Registry o

  -- The handlers; an event without the attribute that one reads makes it raise.
  abbrev pub log_alert : Event o.Carrier → World → World × Task World
  log_alert (Event.anomaly_published a) w =
      (record w { alerts = w.alerts ++ a ∷ [] }, Task.done false)
  log_alert (Event.trace_closed t) w = (w, Task.done true)

  abbrev pub keep_event : Event o.Carrier → World → World × Task World
  keep_event event w = (record w { collected = w.collected ++ event ∷ [] }, Task.done false)

  abbrev pub count_anomaly : Event o.Carrier → World → World × Task World
  count_anomaly (Event.anomaly_published a) w = (
    record w { registry = inc o w.registry ("anomalies." <> a.detector_name) (pos 1) },
    Task.done false,
  )
  count_anomaly (Event.trace_closed t) w = (w, Task.done true)

  abbrev pub count_trace : Event o.Carrier → World → World × Task World
  count_trace (Event.anomaly_published a) w = (w, Task.done true)
  count_trace (Event.trace_closed t) w = (
    record w {
      registry = inc o w.registry ("traces.closed." <> reason_text t.closed_reason) (pos 1);
    },
    Task.done false,
  )

  -- The handlers by their numbers on the bus.
  abbrev pub handle : ℕ → Event o.Carrier → World → World × Task World
  handle h event w = elim h [
    | zero ↦ log_alert event w
    | suc k ↦ elim k [
      | zero ↦ keep_event event w
      | suc l ↦ elim l [ zero ↦ count_anomaly event w | suc _ ↦ count_trace event w ]
    ]
  ]

  abbrev pub publish_all : Bus → List (Event o.Carrier) → World → World
  publish_all b events w =
      foldl (λ v event. (publish handle b (type_of event) event [] v).0) w events
