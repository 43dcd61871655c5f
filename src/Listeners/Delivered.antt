-- ===== src/Listeners/Delivered.antt =====
-- What the listeners of src/pipelinex/events/listeners.py have after any sequence of events.
use pipelinex.Prelude.{
  ap, ◌∙◌, sym, inl, inr, ◌≡◌, refl, String, Bool, true, false, List, [], ◌∷◌, ◌++◌, arith,
  append_assoc, append-nil,
}
use pipelinex.Prelude.Tests.{if◌then◌else◌, ◌==◌}
use Prim.Native.Char.{code}
use pipelinex.Prelude.Text.{◌<>◌}
use pipelinex.Prelude.Lists.{length, keep_if}
use pipelinex.Prelude.Equality.{◌=?◌, =?-cases, string_eq}
use pipelinex.Prelude.Int.{ℤ, pos, ◌+ℤ◌, +ℤ_parts, eq_of_parts}
use pipelinex.Models.{reason_text, AnomalyEvent, ClosedReason}
use pipelinex.Floats.{Floats}
use pipelinex.Metrics.{init, inc, count_of}
use pipelinex.Metrics.Recorded.{Write, incs, run, counted, run-count_from, zero_plus}
use pipelinex.EventBus.{Bus, subscribe, publish}
use pipelinex.EventBus.Subscriptions.{Action}
use pipelinex.EventBus.Subscriptions
use pipelinex.Listeners.{Event, World, publish_all}

-- The console, the collecting and the metrics listener, subscribed to what each handles.
abbrev pub wired : Bus
wired = pipelinex.EventBus.Subscriptions.run pipelinex.EventBus.init (
    Action.subscribes 0 0
    ∷ Action.subscribes 0 1
    ∷ Action.subscribes 0 2
    ∷ Action.subscribes 1 1
    ∷ Action.subscribes 1 3
    ∷ [])

abbrev pub is_anomaly_of : {F : Type 0} → String → Event F → Bool
is_anomaly_of name (Event.anomaly_published a) = name =? a.detector_name
is_anomaly_of name (Event.trace_closed t) = false

abbrev pub is_closed_as : {F : Type 0} → ClosedReason → Event F → Bool
is_closed_as reason (Event.anomaly_published a) = false
is_closed_as reason (Event.trace_closed t) = reason_text reason =? reason_text t.closed_reason

abbrev pub anomalies_of : {F : Type 0} → List (Event F) → List (AnomalyEvent F)
anomalies_of [] = []
anomalies_of (Event.anomaly_published a ∷ events) = a ∷ anomalies_of events
anomalies_of (Event.trace_closed t ∷ events) = anomalies_of events

module _ (o : Floats) where
  abbrev pub nothing_yet : World o
  nothing_yet = record { alerts = []; collected = []; registry = init o }

  -- The writes to the registry.
  abbrev writes_of : List (Event o.Carrier) → List (Write o)
  writes_of [] = []
  writes_of (Event.anomaly_published a ∷ events) =
      incs ("anomalies." <> a.detector_name) (pos 1) ∷ writes_of events
  writes_of (Event.trace_closed t ∷ events) =
      incs ("traces.closed." <> reason_text t.closed_reason) (pos 1) ∷ writes_of events

  publish_all-wired :
      (events : List (Event o.Carrier)) (w : World o)
      → publish_all o wired events w ≡ record {
        alerts = w.alerts ++ anomalies_of events;
        collected = w.collected ++ events;
        registry = run o w.registry (writes_of events);
      }
  unfolding publish subscribe
  publish_all-wired [] w = rw (append-nil, append-nil) refl
  publish_all-wired (Event.anomaly_published a ∷ events) w =
      publish_all-wired events (record {
        alerts = w.alerts ++ a ∷ [];
        collected = w.collected ++ Event.anomaly_published a ∷ [];
        registry = inc o w.registry ("anomalies." <> a.detector_name) (pos 1);
      })
      ∙ rw (append_assoc, append_assoc) refl
  publish_all-wired (Event.trace_closed t ∷ events) w =
      publish_all-wired events (record {
        alerts = w.alerts;
        collected = w.collected ++ Event.trace_closed t ∷ [];
        registry = inc o w.registry ("traces.closed." <> reason_text t.closed_reason) (pos 1);
      })
      ∙ rw append_assoc refl

abbrev tail_of : String → String
tail_of String.[] = ""
tail_of (String.◌∷◌ c s) = s

same_rest : (p a b : String) → p <> a ≡ p <> b → a ≡ b
same_rest String.[] a b h = h
same_rest (String.◌∷◌ c p) a b h = same_rest p a b (ap tail_of h)

prefix-=? : (p a b : String) → (p <> a =? p <> b) ≡ (a =? b)
prefix-=? p a b = elim (=?-cases a b) [
  | inl (same, hit) ↦ (string_eq.beq_iff _ _).1 (ap (p <>◌) same) ∙ sym hit
  | inr (other, miss) ↦ elim (=?-cases (p <> a) (p <> b)) [
    | inl (same, _) ↦ absurd (other (same_rest p a b same))
    | inr (_, still) ↦ still ∙ sym miss
  ]
]

abbrev starts_as_anomaly : String → Bool
starts_as_anomaly String.[] = false
starts_as_anomaly (String.◌∷◌ c s) = code c == 97

no_trace : (a b : String) → ("anomalies." <> a =? "traces.closed." <> b) ≡ false
no_trace a b = elim (=?-cases ("anomalies." <> a) ("traces.closed." <> b)) [
  | inl (same, _) ↦ absurd (let clash : true ≡ false = ap starts_as_anomaly same in cc)
  | inr (_, miss) ↦ miss
]

no_anomaly : (a b : String) → ("traces.closed." <> b =? "anomalies." <> a) ≡ false
no_anomaly a b = elim (=?-cases ("traces.closed." <> b) ("anomalies." <> a)) [
  | inl (same, _) ↦ absurd (let clash : false ≡ true = ap starts_as_anomaly same in cc)
  | inr (_, miss) ↦ miss
]

-- One more increment, and one more member.
count_if :
    {A : Type 0} (b : Bool) (x : A) (kept : List A) (n : ℤ)
    → n ≡ pos (length kept)
    → (if b then pos 1 +ℤ n else n) ≡ pos (length (if b then x ∷ kept else kept))
count_if true x kept n h =
    rw h (eq_of_parts _ _ (omega (arith, +ℤ_parts (pos 1) (pos (length kept)))))
count_if false x kept n h = h

module _ (o : Floats) where
  counted-anomaly :
      (name : String) (events : List (Event o.Carrier))
      → counted o ("anomalies." <> name) (writes_of o events)
        ≡ pos (length (keep_if (is_anomaly_of name) events))
  counted-anomaly name [] = refl
  counted-anomaly name (Event.anomaly_published a ∷ events) =
      rw (writes_of, counted, prefix-=? "anomalies." name a.detector_name)
        (count_if (name =? a.detector_name) (Event.anomaly_published a) _ _
          (counted-anomaly name events))
  counted-anomaly name (Event.trace_closed t ∷ events) =
      rw (writes_of, counted, no_trace name (reason_text t.closed_reason))
        (counted-anomaly name events)

  counted-closed :
      (reason : ClosedReason) (events : List (Event o.Carrier))
      → counted o ("traces.closed." <> reason_text reason) (writes_of o events)
        ≡ pos (length (keep_if (is_closed_as reason) events))
  counted-closed reason [] = refl
  counted-closed reason (Event.anomaly_published a ∷ events) =
      rw (writes_of, counted, no_anomaly a.detector_name (reason_text reason))
        (counted-closed reason events)
  counted-closed reason (Event.trace_closed t ∷ events) =
      rw
        (
          writes_of,
          counted,
          prefix-=? "traces.closed." (reason_text reason) (reason_text t.closed_reason),
        )
        (count_if (reason_text reason =? reason_text t.closed_reason) (Event.trace_closed t) _ _
          (counted-closed reason events))

  -- After any sequence of events published to the three listeners, the console has logged the
  -- anomalies and the collecting listener has kept the events, both in order; each counter of the
  -- registry is the number of the anomalies of its detector, or of the traces closed for its reason.
  pub publish_all_lem :
      (events : List (Event o.Carrier)) (name : String) (reason : ClosedReason)
      → let w = publish_all o wired events (nothing_yet o) in
        (w.alerts ≡ anomalies_of events)
        × (w.collected ≡ events)
        × (count_of o w.registry ("anomalies." <> name)
            ≡ pos (length (keep_if (is_anomaly_of name) events)))
        × (count_of o w.registry ("traces.closed." <> reason_text reason)
            ≡ pos (length (keep_if (is_closed_as reason) events)))
  publish_all_lem events name reason =
      let after = publish_all-wired o events (nothing_yet o) in
      let key = "anomalies." <> name in
      let other_key = "traces.closed." <> reason_text reason in
      let writes = writes_of o events in
      (
        rw after refl,
        rw after refl,
        rw after (
            run-count_from o key (init o) writes
            ∙ zero_plus (counted o key writes)
            ∙ counted-anomaly name events),
        rw after (
            run-count_from o other_key (init o) writes
            ∙ zero_plus (counted o other_key writes)
            ∙ counted-closed reason events),
      )
