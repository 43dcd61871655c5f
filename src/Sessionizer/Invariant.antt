-- ===== src/Sessionizer/Invariant.antt =====
-- The table of open traces stays well formed: one trace to a block, under its own name, below the
-- cap on events, and no more of them than `max_open_traces` and the calls that have raised.
use pipelinex.Prelude.{
  ℕ, ◌+◌, ◌≤◌, ◌<◌, ◌≡◌, String, [], ◌∷◌, ◌++◌, append-nil, Option, none, some, inl, inr, arith,
}
use pipelinex.Prelude.Tests.{ltb, leb, Bool-cases, Option-cases}
use pipelinex.Prelude.Lists.{length, length-append, All, All-append}
use pipelinex.Prelude.Dict.{
  Dict, lookup, insert, remove, Distinct, lookup-remove_self, remove-Distinct, remove_absent,
  insert_absent, insert_last, remove_last, append-Distinct, length-remove-le, All-remove,
  All-lookup,
}
use pipelinex.Prelude.Equality.{string_eq}
use pipelinex.Sessionizer.{
  Sessionizer, newest, or_now, fetch, evict_oldest, enforce_limits, observe, observe_unhashable,
}
use pipelinex.Sessionizer.Traces.{OpenTrace, new_trace, add, note_terminal}

abbrev pub Entry : Type 0
Entry = String × OpenTrace

abbrev pub IsEntry : ℕ → Entry → Type 0
IsEntry cap (b, t) = (t.block_id ≡ b) × (length t.events < cap)

pub record IsValid (raised : ℕ) (s : Sessionizer) : Type 0 where
  pub some_room : 0 < s.max_per_trace
  pub distinct : Distinct s.opened
  pub entries : All (IsEntry s.max_per_trace) s.opened
  pub few : length s.opened ≤ s.max_open + raised

-- The trace that a record of block `b` is added to.
abbrev pub base : String → Option ℕ → ℕ × ℕ → Dict String OpenTrace → OpenTrace
base b ts (now, now') opened = elim (lookup b opened) [
  | none ↦ new_trace b (or_now ts now) (or_now ts now')
  | some t ↦ t
]

pub fetch-base :
    (b : String) (ts : Option ℕ) (now : ℕ × ℕ) (opened : Dict String OpenTrace)
    → (fetch b ts now opened).0 ≡ base b ts now opened
unfolding fetch
fetch-base b ts now opened = ground arith

-- Whatever the block's trace was, it now stands last, and no other entry has changed.
pub insert-fetch :
    (b : String) (t : OpenTrace) (ts : Option ℕ) (now : ℕ × ℕ) (opened : Dict String OpenTrace)
    → Distinct opened
    → insert b t (fetch b ts now opened).1 ≡ remove b opened ++ (b, t) ∷ []
unfolding fetch
insert-fetch b t ts now opened h = elim (Option-cases (lookup b opened)) [
  | inl new ↦
      let t0 = new_trace b (or_now ts now.0) (or_now ts now.1) in
      rw (new, fetch)
        (rw (insert_absent b t0 opened new, insert_last b t t0 opened new)
          (rw (remove_absent b opened new)))
  | inr (t0, old) ↦
      rw (old, fetch) (insert_last b t t0 (remove b opened) (lookup-remove_self b opened h))
]

-- The trace after the record, and the table with it at the end.
abbrev pub grown : Sessionizer → ℕ × ℕ → String → Option String → ℕ → Option ℕ → OpenTrace
grown s now b event_id rid ts =
    note_terminal s.terminal event_id (add (base b ts now s.opened) event_id rid ts)

abbrev pub table : Sessionizer → String → OpenTrace → Dict String OpenTrace
table s b t = remove b s.opened ++ (b, t) ∷ []

pub observe_lem :
    (s : Sessionizer) (now : ℕ × ℕ) (b : String) (event_id : Option String) (rid : ℕ)
    (ts : Option ℕ)
    → Distinct s.opened
    → let t = grown s now b event_id rid ts in
      observe s now b event_id rid ts
      ≡ enforce_limits b t
          (record s { opened = table s b t; latest_log_ts = newest ts s.latest_log_ts })
unfolding observe
observe_lem s now b event_id rid ts h =
    rw (fetch-base b ts now s.opened)
      (rw (insert-fetch b (grown s now b event_id rid ts) ts now s.opened h))

pub grown-block_id :
    (s : Sessionizer) (now : ℕ × ℕ) (b : String) (event_id : Option String) (rid : ℕ)
    (ts : Option ℕ)
    → All (IsEntry s.max_per_trace) s.opened
    → (grown s now b event_id rid ts).block_id ≡ b
unfolding add note_terminal new_trace
grown-block_id s now b event_id rid ts h = elim (Option-cases (lookup b s.opened)) [
  | inl new ↦ ground arith
  | inr (t, old) ↦
      let named = All-lookup (IsEntry s.max_per_trace) b s.opened h old in ground (arith, named.0)
]

evict_oldest-IsValid :
    (raised : ℕ) (s : Sessionizer) (d : Dict String OpenTrace)
    → 0 < s.max_per_trace
    → Distinct d
    → All (IsEntry s.max_per_trace) d
    → length d ≤ s.max_open + raised + 1
    → IsValid raised (evict_oldest d (record s { opened = d })).0
unfolding evict_oldest
evict_oldest-IsValid raised s [] room h es n = record {
  some_room = room;
  distinct = tt;
  entries = tt;
  few = omega arith;
}
evict_oldest-IsValid raised s ((k, t) ∷ d) room h es n = record {
  some_room = room;
  distinct = h.1;
  entries = es.1;
  few = omega arith;
}

-- The limits restore the invariant that the new or grown trace, put last, may have broken.
enforce_limits-IsValid :
    (raised : ℕ) (s : Sessionizer) (b : String) (t : OpenTrace) (d : Dict String OpenTrace)
    → 0 < s.max_per_trace
    → Distinct d
    → lookup b d ≡ none
    → All (IsEntry s.max_per_trace) d
    → length d ≤ s.max_open + raised
    → t.block_id ≡ b
    → IsValid raised (enforce_limits b t (record s { opened = d ++ (b, t) ∷ [] })).0
unfolding enforce_limits
enforce_limits-IsValid raised s b t d some_room h a es n named =
    elim (Bool-cases (leb s.max_per_trace (length t.events))) [
      | inl full ↦
          rw (full, remove_last b t d a)
            (record { some_room = some_room; distinct = h; entries = es; few = n })
      | inr room ↦ elim (Bool-cases (ltb s.max_open (length (d ++ (b, t) ∷ [])))) [
        | inl over ↦
            rw (room, over)
              (evict_oldest-IsValid raised s (d ++ (b, t) ∷ []) some_room grown_distinct
                (grown_entries (ground arith)) (omega (arith, size)))
        | inr fits ↦
            rw (room, fits)
              (record {
                some_room = some_room;
                distinct = grown_distinct;
                entries = grown_entries (ground arith);
                few = ground arith;
              })
      ]
    ]
  where
    size : length (d ++ (b, t) ∷ []) ≡ length d + 1
    size = omega (arith, length-append d ((b, t) ∷ []))

    grown_distinct : Distinct (d ++ (b, t) ∷ [])
    grown_distinct = append-Distinct b t d h a

    grown_entries :
        length t.events < s.max_per_trace → All (IsEntry s.max_per_trace) (d ++ (b, t) ∷ [])
    grown_entries short =
        All-append (IsEntry s.max_per_trace) d ((b, t) ∷ []) es ((named, short), tt)

pub observe-IsValid :
    (raised : ℕ) (s : Sessionizer) (now : ℕ × ℕ) (b : String) (event_id : Option String) (rid : ℕ)
    (ts : Option ℕ)
    → IsValid raised s
    → IsValid raised (observe s now b event_id rid ts).0
observe-IsValid raised s now b event_id rid ts v =
    rw (observe_lem s now b event_id rid ts v.distinct) (
      enforce_limits-IsValid raised (record s { latest_log_ts = newest ts s.latest_log_ts }) b
        (grown s now b event_id rid ts) (remove b s.opened) v.some_room
        (remove-Distinct b s.opened v.distinct) (lookup-remove_self b s.opened v.distinct)
        (All-remove (IsEntry s.max_per_trace) b s.opened v.entries)
        (omega (arith, v.few, length-remove-le b s.opened))
        (grown-block_id s now b event_id rid ts v.entries))

-- The call that raises leaves the table with the trace extended, as a hashable id that is no text.
pub observe_unhashable_lem :
    (s : Sessionizer) (now : ℕ × ℕ) (b : String) (rid : ℕ) (ts : Option ℕ)
    → Distinct s.opened
    → observe_unhashable s now b rid ts ≡ record s {
      opened = table s b (grown s now b none rid ts);
      latest_log_ts = newest ts s.latest_log_ts;
    }
unfolding observe_unhashable note_terminal
observe_unhashable_lem s now b rid ts h =
    rw (fetch-base b ts now s.opened)
      (rw (insert-fetch b (grown s now b none rid ts) ts now s.opened h))

-- A trace to which no event is added has as many as before.
base-short :
    (s : Sessionizer) (now : ℕ × ℕ) (b : String) (ts : Option ℕ)
    → 0 < s.max_per_trace
    → All (IsEntry s.max_per_trace) s.opened
    → length (base b ts now s.opened).events < s.max_per_trace
unfolding new_trace
base-short s now b ts some_room h = elim (Option-cases (lookup b s.opened)) [
  | inl new ↦ ground arith
  | inr (t, old) ↦
      let short = All-lookup (IsEntry s.max_per_trace) b s.opened h old in ground (arith, short.1)
]

grown-events :
    (s : Sessionizer) (now : ℕ × ℕ) (b : String) (rid : ℕ) (ts : Option ℕ)
    → (grown s now b none rid ts).events ≡ (base b ts now s.opened).events
unfolding note_terminal add
grown-events s now b rid none = append-nil _
grown-events s now b rid (some ts) = append-nil _

pub observe_unhashable-IsValid :
    (raised : ℕ) (s : Sessionizer) (now : ℕ × ℕ) (b : String) (rid : ℕ) (ts : Option ℕ)
    → IsValid raised s
    → IsValid (raised + 1) (observe_unhashable s now b rid ts)
observe_unhashable-IsValid raised s now b rid ts v =
    let t = grown s now b none rid ts in
    let short : length t.events < s.max_per_trace =
      rw (grown-events s now b rid ts) (base-short s now b ts v.some_room v.entries) in
    rw (observe_unhashable_lem s now b rid ts v.distinct) (record {
      some_room = v.some_room;
      distinct =
          append-Distinct b t (remove b s.opened) (remove-Distinct b s.opened v.distinct)
            (lookup-remove_self b s.opened v.distinct);
      entries =
          All-append (IsEntry s.max_per_trace) (remove b s.opened) ((b, t) ∷ [])
            (All-remove (IsEntry s.max_per_trace) b s.opened v.entries)
            ((grown-block_id s now b none rid ts v.entries, short), tt);
      few = omega (
        arith,
        v.few,
        length-remove-le b s.opened,
        length-append (remove b s.opened) ((b, t) ∷ []),
      );
    })
