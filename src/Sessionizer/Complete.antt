-- ===== src/Sessionizer/Complete.antt =====
-- A whole run of the stage, up to and with `stop`: the published traces of a block show exactly the
-- record ids, and exactly the event ids, of the records of that block, in order of arrival.
use pipelinex.Prelude.{
  ℕ, ◌+◌, ◌≡◌, refl, sym, ap, ◌∙◌, String, List, [], ◌∷◌, ◌++◌, Option, none, some, arith,
  append-nil,
}
use pipelinex.Models.{BlockTrace, ClosedReason}
use pipelinex.Sessionizer.{Config, Sessionizer, init}
use pipelinex.Sessionizer.Traces.{
  OpenTrace, event_added, new_trace, add, note_terminal, close_trace,
}
use pipelinex.Sessionizer.Closing.{Call, stops, step, run}
use pipelinex.Sessionizer.Invariant.{IsValid}
use pipelinex.Sessionizer.Sweep.{stop_lem}
use pipelinex.Sessionizer.Runs.{unhashable, init-IsValid, step-IsValid}
use pipelinex.Sessionizer.History.{
  Aspect, published, pending, call_brings, calls_bring, Accounts, run-Accounts,
}

pub ids_grown :
    (terminal : List String) (t : OpenTrace) (event_id : Option String) (rid : ℕ) (ts : Option ℕ)
    → (note_terminal terminal event_id (add t event_id rid ts)).record_ids
      ≡ t.record_ids ++ rid ∷ []
unfolding note_terminal add
ids_grown terminal t event_id rid none = ground arith
ids_grown terminal t event_id rid (some ts) = ground arith

pub events_grown :
    (terminal : List String) (t : OpenTrace) (event_id : Option String) (rid : ℕ) (ts : Option ℕ)
    → (note_terminal terminal event_id (add t event_id rid ts)).events
      ≡ t.events ++ event_added event_id
unfolding note_terminal add
events_grown terminal t event_id rid none = ground arith
events_grown terminal t event_id rid (some ts) = ground arith

pub ids_new : (b : String) (first last : ℕ) → (new_trace b first last).record_ids ≡ []
unfolding new_trace
ids_new b first last = refl

pub ids_closed :
    (run_id : ℕ) (t : OpenTrace) (reason : ClosedReason)
    → (close_trace run_id t reason).record_ids ≡ t.record_ids
unfolding close_trace
ids_closed run_id t reason = refl

pub events_new : (b : String) (first last : ℕ) → (new_trace b first last).events ≡ []
unfolding new_trace
events_new b first last = refl

pub events_closed :
    (run_id : ℕ) (t : OpenTrace) (reason : ClosedReason)
    → (close_trace run_id t reason).event_sequence ≡ t.events
unfolding close_trace
events_closed run_id t reason = refl

-- The ids of the records of a trace.
abbrev pub by_record : Aspect ℕ
by_record = record {
  held = λ t. t.record_ids;
  shown = λ t. t.record_ids;
  brought = λ _ rid. rid ∷ [];
  held_new = ids_new;
  held_grown = ids_grown;
  shown_closed = ids_closed;
}

-- The event ids of a trace.
abbrev pub by_event : Aspect String
by_event = record {
  held = λ t. t.events;
  shown = λ t. t.event_sequence;
  brought = λ event_id _. event_added event_id;
  held_new = events_new;
  held_grown = events_grown;
  shown_closed = events_closed;
}

abbrev IsEmptied : Option (Sessionizer × List BlockTrace) → Type 0
IsEmptied none = ⊥
IsEmptied (some (s, out)) = s.opened ≡ []

IsEmptied-after :
    (r : Option (Sessionizer × List BlockTrace)) (out : List BlockTrace)
    → IsEmptied r
    → IsEmptied (elim r [ none ↦ none | some (s', out') ↦ some (s', out ++ out') ])
IsEmptied-after none out h = h
IsEmptied-after (some r) out h = h

run-stops-IsEmptied :
    {F : Type 0} (cs : List (Call F)) (raised : ℕ) (s : Sessionizer)
    → IsValid raised s
    → IsEmptied (run (cs ++ stops ∷ []) s)
unfolding run step
run-stops-IsEmptied [] raised s valid = ground (arith, stop_lem s)
run-stops-IsEmptied (c ∷ cs) raised s valid =
    let (s1, out, e, valid1, _, _) = step-IsValid raised s c valid in
    rw (e, run)
      (IsEmptied-after (run (cs ++ stops ∷ []) s1) out
        (run-stops-IsEmptied cs (raised + unhashable s.config c) s1 valid1))

-- The run gets to its end, leaves no trace open, and shows `xs` of the block.
abbrev pub Shows :
    {A : Type 0} → Aspect A → String → List A → Option (Sessionizer × List BlockTrace) → Type 0
Shows v b xs none = ⊥
Shows v b xs (some (s, out)) = (s.opened ≡ []) × (published v b out ≡ xs)

module _ {A : Type 0} (v : Aspect A) (b : String) where
  calls_bring-stops :
      {F : Type 0} (c : Config) (cs : List (Call F))
      → calls_bring v b c (cs ++ stops ∷ []) ≡ calls_bring v b c cs
  calls_bring-stops c [] = refl
  calls_bring-stops c (x ∷ xs) = ap (◌++◌ (call_brings v b c x)) (calls_bring-stops c xs)

  Shows-run :
      (s : Sessionizer) (xs : List A) (r : Option (Sessionizer × List BlockTrace))
      → s.opened ≡ []
      → Accounts v b s xs r
      → IsEmptied r
      → Shows v b xs r
  Shows-run s xs none fresh h e = h
  Shows-run s xs (some (s', out)) fresh h e = (e, shown)
    where
      shown : published v b out ≡ xs
      shown =
          sym (append-nil (published v b out))
          ∙ ap (λ d. published v b out ++ pending v b d) (sym e)
          ∙ h.2
          ∙ ap (λ d. pending v b d ++ xs) fresh

  run-stops-Shows :
      {F : Type 0} (c : Config) {s : Sessionizer} (cs : List (Call F))
      → init c ≡ some s
      → Shows v b (calls_bring v b c cs) (run (cs ++ stops ∷ []) s)
  run-stops-Shows c {s} cs made =
      let (valid, fresh, same) = init-IsValid c made in
      let kept = run-Accounts v b 0 (cs ++ stops ∷ []) s valid in
      rw (← calls_bring-stops c cs, ← same)
        (Shows-run s (calls_bring v b s.config (cs ++ stops ∷ [])) (run (cs ++ stops ∷ []) s) fresh
          kept (run-stops-IsEmptied cs 0 s valid))

-- A fresh stage that is run and then stopped gets to its end, with no open trace. For every block,
-- and also where calls raise for an event id that is not hashable, the published traces show the
-- ids of exactly the records with that block id, each once, in order of arrival: none is lost,
-- repeated, or filed under another block.
pub run-stops-record_ids :
    {F : Type 0} (b : String) (c : Config) {s : Sessionizer} (cs : List (Call F))
    → init c ≡ some s
    → Shows by_record b (calls_bring by_record b c cs) (run (cs ++ stops ∷ []) s)
run-stops-record_ids b = run-stops-Shows by_record b

-- The same run shows the event ids of the block's records in order of arrival, without the records
-- that carry no event id or an empty one.
pub run-stops-events :
    {F : Type 0} (b : String) (c : Config) {s : Sessionizer} (cs : List (Call F))
    → init c ≡ some s
    → Shows by_event b (calls_bring by_event b c cs) (run (cs ++ stops ∷ []) s)
run-stops-events b = run-stops-Shows by_event b
