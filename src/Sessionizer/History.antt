-- ===== src/Sessionizer/History.antt =====
-- Nothing that reaches the stage is lost, repeated or reordered: for each block, the published
-- traces followed by the open one hold exactly what its records brought, in order of arrival.
use mathlib.Core.Path.{subst}
use pipelinex.Prelude.{
  ℕ, ◌≡◌, refl, sym, ap, ◌∙◌, String, false, List, [], ◌∷◌, ◌++◌, Option, none, some, inl, inr,
  arith, append-nil, append_assoc,
}
use pipelinex.Prelude.Tests.{leb, ltb, if◌then◌else◌, Bool-cases, Option-cases}
use pipelinex.Prelude.Lists.{length, All, All-append, All-weaken}
use pipelinex.Prelude.Dict.{
  Dict, lookup, remove, Distinct, lookup-remove_self, lookup-remove_ne, lookup-append, remove_last,
  All-remove, append-Distinct, remove-Distinct,
}
use pipelinex.Prelude.Equality.{string_eq, ◌=?◌, =?-cases}
use pipelinex.Models.{is_hashable, Value, LogRecord, BlockTrace, ClosedReason}
use pipelinex.Sessionizer.{
  Config, Sessionizer, newest, or_now, evict_oldest, enforce_limits, observe, observe_unhashable,
  block_of, as_text, event_of, process,
}
use pipelinex.Sessionizer.Traces.{OpenTrace, new_trace, add, note_terminal, close_trace}
use pipelinex.Sessionizer.Closing.{start, Call, processes, ticks, starts, stops, step, run}
use pipelinex.Sessionizer.Invariant.{
  IsEntry, IsValid, base, grown, table, observe_lem, observe_unhashable_lem, grown-block_id,
}
use pipelinex.Sessionizer.Sweep.{
  survivors, swept, closed_as, after_pass, janitor_pass_lem, stop_lem,
}
use pipelinex.Sessionizer.Runs.{
  lookup-survivors, after_pass-IsValid, process-IsValid, process-config,
}

-- One aspect of a trace: what an open trace holds of it, what a published one shows, and what a
-- record adds.
pub record Aspect (A : Type 0) : Type 0 where
  pub held : OpenTrace → List A
  pub shown : BlockTrace → List A
  pub brought : Option String → ℕ → List A
  pub held_new : (b : String) (first last : ℕ) → held (new_trace b first last) ≡ []
  pub held_grown :
      (terminal : List String) (t : OpenTrace) (event_id : Option String) (rid : ℕ) (ts : Option ℕ)
      → held (note_terminal terminal event_id (add t event_id rid ts))
        ≡ held t ++ brought event_id rid
  pub shown_closed :
      (run_id : ℕ) (t : OpenTrace) (reason : ClosedReason)
      → shown (close_trace run_id t reason) ≡ held t

-- A value that is not hashable is no text.
as_text-unhashable :
    {F : Type 0} (value : Option (Value F)) → is_hashable value ≡ false → as_text value ≡ none
as_text-unhashable none h = refl
as_text-unhashable (some (Value.text s)) h = cc
as_text-unhashable (some (Value.int n)) h = refl
as_text-unhashable (some (Value.float x)) h = refl
as_text-unhashable (some (Value.boolean x)) h = refl
as_text-unhashable (some (Value.text_lists gs)) h = refl
as_text-unhashable (some (Value.other hashable)) h = refl

close_trace-block_id :
    (run_id : ℕ) (t : OpenTrace) (reason : ClosedReason)
    → (close_trace run_id t reason).block_id ≡ t.block_id
unfolding close_trace
close_trace-block_id run_id t reason = refl

module _ {A : Type 0} (v : Aspect A) (b : String) where
  -- What the published traces of block `b` show.
  abbrev pub published : List BlockTrace → List A
  published [] = []
  published (t ∷ ts) = (if t.block_id =? b then v.shown t else []) ++ published ts

  -- What the open trace of block `b` holds.
  abbrev pub pending : Dict String OpenTrace → List A
  pending d = elim (lookup b d) [ none ↦ [] | some t ↦ v.held t ]

  published-append : (ts us : List BlockTrace) → published (ts ++ us) ≡ published ts ++ published us
  published-append [] us = refl
  published-append (t ∷ ts) us =
      rw (published-append ts us)
        (sym (append_assoc (if t.block_id =? b then v.shown t else []) _ _))

  pending-absent : (d : Dict String OpenTrace) → lookup b d ≡ none → pending d ≡ []
  pending-absent d h = rw (h, pending)

  published-closed_as :
      (run_id cap : ℕ) (reason : ClosedReason) (d : Dict String OpenTrace)
      → Distinct d
      → All (IsEntry cap) d
      → published (closed_as run_id reason d) ≡ pending d
  published-closed_as run_id cap reason [] h es = refl
  published-closed_as run_id cap reason ((k, t) ∷ d) h es = grind (
    arith,
    published-closed_as run_id cap reason d h.1 es.1,
    close_trace-block_id run_id t reason,
    v.shown_closed run_id t reason,
    string_eq.beq_iff b k,
    string_eq.beq_iff k b,
    append-nil (v.held t),
  )

  published-swept_absent :
      (run_id idle latest cap : ℕ) (d : Dict String OpenTrace)
      → lookup b d ≡ none
      → All (IsEntry cap) d
      → published (swept run_id idle latest d) ≡ []
  published-swept_absent run_id idle latest cap [] h es = refl
  published-swept_absent run_id idle latest cap ((k, t) ∷ d) h es = grind (
    arith,
    published-swept_absent run_id idle latest cap d,
    close_trace-block_id,
    string_eq.beq_iff b k,
    string_eq.beq_iff k b,
  )

  -- A pass moves what it closes from the table to the published traces.
  published-swept :
      (run_id idle latest cap : ℕ) (d : Dict String OpenTrace)
      → Distinct d
      → All (IsEntry cap) d
      → published (swept run_id idle latest d) ++ pending (survivors idle latest d) ≡ pending d
  published-swept run_id idle latest cap [] h es = refl
  published-swept run_id idle latest cap ((k, t) ∷ d) h es = grind (
    arith,
    published-swept run_id idle latest cap d h.1 es.1,
    published-swept_absent run_id idle latest cap d,
    lookup-survivors idle latest b d,
    close_trace-block_id,
    v.shown_closed,
    string_eq.beq_iff b k,
    string_eq.beq_iff k b,
    append-nil (v.held t),
    append_assoc,
  )

  evict_oldest-keeps :
      (s : Sessionizer) (d : Dict String OpenTrace)
      → Distinct d
      → All (λ e. e.1.block_id ≡ e.0) d
      → let (s', out) = evict_oldest d (record s { opened = d }) in
        published out ++ pending s'.opened ≡ pending d
  unfolding evict_oldest
  evict_oldest-keeps s [] h es = refl
  evict_oldest-keeps s ((k, t) ∷ d) h es = grind (
    arith,
    close_trace-block_id,
    v.shown_closed,
    string_eq.beq_iff b k,
    string_eq.beq_iff k b,
    append-nil (v.held t),
  )

  -- The limits move traces from the table to the published ones, and change nothing else.
  enforce_limits-keeps :
      (s : Sessionizer) (k : String) (t : OpenTrace) (d : Dict String OpenTrace)
      → Distinct d
      → lookup k d ≡ none
      → All (λ e. e.1.block_id ≡ e.0) d
      → t.block_id ≡ k
      → let (s', out) = enforce_limits k t (record s { opened = d ++ (k, t) ∷ [] }) in
        published out ++ pending s'.opened ≡ pending (d ++ (k, t) ∷ [])
  unfolding enforce_limits
  enforce_limits-keeps s k t d h a es named =
      elim (Bool-cases (leb s.max_per_trace (length t.events))) [
        | inl full ↦
            rw (full, remove_last k t d a)
              (grind (
                arith,
                close_trace-block_id,
                v.shown_closed,
                string_eq.beq_iff b k,
                string_eq.beq_iff k b,
                append-nil (v.held t),
                lookup-append b d ((k, t) ∷ []),
              ))
        | inr room ↦ elim (Bool-cases (ltb s.max_open (length (d ++ (k, t) ∷ [])))) [
          | inl over ↦
              rw (room, over)
                (evict_oldest-keeps s (d ++ (k, t) ∷ []) (append-Distinct k t d h a)
                  (All-append (λ e. e.1.block_id ≡ e.0) d ((k, t) ∷ []) es (named, tt)))
          | inr fits ↦ rw (room, fits)
        ]
      ]

  pending-table :
      (s : Sessionizer) (now : ℕ × ℕ) (k : String) (event_id : Option String) (rid : ℕ)
      (ts : Option ℕ)
      → Distinct s.opened
      → pending (table s k (grown s now k event_id rid ts))
        ≡ pending s.opened ++ (if k =? b then v.brought event_id rid else [])
  pending-table s now k event_id rid ts h = elim (=?-cases k b) [
    | inl (same, hit) ↦ elim (Option-cases (lookup k s.opened)) [
      | inl new ↦ grind (
        arith,
        hit,
        lookup-remove_self k s.opened h,
        lookup-append k (remove k s.opened) ((k, grown s now k event_id rid ts) ∷ []),
        v.held_grown s.terminal (base k ts now s.opened) event_id rid ts,
        v.held_new k (or_now ts now.0) (or_now ts now.1),
        string_eq.beq_iff k k,
      )
      | inr (t, old) ↦ grind (
        arith,
        hit,
        lookup-remove_self k s.opened h,
        lookup-append k (remove k s.opened) ((k, grown s now k event_id rid ts) ∷ []),
        v.held_grown s.terminal (base k ts now s.opened) event_id rid ts,
        string_eq.beq_iff k k,
      )
    ]
    | inr (other, miss) ↦ grind (
      arith,
      miss,
      lookup-remove_ne k b s.opened,
      lookup-append b (remove k s.opened) ((k, grown s now k event_id rid ts) ∷ []),
      string_eq.beq_iff b k,
      append-nil (pending s.opened),
    )
  ]

  observe-keeps :
      {raised : ℕ} (s : Sessionizer) (now : ℕ × ℕ) (k : String) (event_id : Option String) (rid : ℕ)
      (ts : Option ℕ)
      → IsValid raised s
      → let (s', out) = observe s now k event_id rid ts in
        published out ++ pending s'.opened
        ≡ pending s.opened ++ (if k =? b then v.brought event_id rid else [])
  observe-keeps s now k event_id rid ts valid =
      rw (observe_lem s now k event_id rid ts valid.distinct) (
        enforce_limits-keeps (record s { latest_log_ts = newest ts s.latest_log_ts }) k
          (grown s now k event_id rid ts) (remove k s.opened)
          (remove-Distinct k s.opened valid.distinct) (lookup-remove_self k s.opened valid.distinct)
          (All-remove (λ e. e.1.block_id ≡ e.0) k s.opened
            (All-weaken (IsEntry s.max_per_trace) (λ e. e.1.block_id ≡ e.0) s.opened (λ e h. h.0)
              valid.entries))
          (grown-block_id s now k event_id rid ts valid.entries)
        ∙ pending-table s now k event_id rid ts valid.distinct)

  observe_unhashable-keeps :
      {raised : ℕ} (s : Sessionizer) (now : ℕ × ℕ) (k : String) (rid : ℕ) (ts : Option ℕ)
      → IsValid raised s
      → pending (observe_unhashable s now k rid ts).opened
        ≡ pending s.opened ++ (if k =? b then v.brought none rid else [])
  observe_unhashable-keeps s now k rid ts valid =
      rw (observe_unhashable_lem s now k rid ts valid.distinct)
        (pending-table s now k none rid ts valid.distinct)

  -- The outcome of a call from `s`: no key is missing, and it accounts for what it was brought.
  abbrev pub Accounts : Sessionizer → List A → Option (Sessionizer × List BlockTrace) → Type 0
  Accounts s brings none = ⊥
  Accounts s brings (some (s', out)) =
      ((raised : ℕ) × IsValid raised s')
      × (s'.config ≡ s.config)
      × (published out ++ pending s'.opened ≡ pending s.opened ++ brings)

  after_pass-keeps :
      {raised : ℕ} (latest : Option ℕ) (s : Sessionizer)
      → IsValid raised s
      → let (s', out) = after_pass latest s in
        (s'.config ≡ s.config) × (published out ++ pending s'.opened ≡ pending s.opened)
  after_pass-keeps none s valid = (refl, refl)
  after_pass-keeps (some l) s valid = (
    refl,
    published-swept s.run_id s.idle_window l s.max_per_trace s.opened valid.distinct valid.entries,
  )

  -- A later run, after the traces that a call published.
  abbrev then_run :
      List BlockTrace
      → Option (Sessionizer × List BlockTrace)
      → Option (Sessionizer × List BlockTrace)
  then_run out none = none
  then_run out (some (s', out')) = some (s', out ++ out')

  Accounts-then_run :
      (s s1 : Sessionizer) (out : List BlockTrace) (xs ys : List A)
      (r : Option (Sessionizer × List BlockTrace))
      → Accounts s xs (some (s1, out))
      → Accounts s1 ys r
      → Accounts s (xs ++ ys) (then_run out r)
  Accounts-then_run s s1 out xs ys none first later = later
  Accounts-then_run s s1 out xs ys (some (s2, out')) first later =
      (later.0, later.1 ∙ first.1, joined)
    where
      joined : published (out ++ out') ++ pending s2.opened ≡ pending s.opened ++ (xs ++ ys)
      joined = cc (
        published-append out out',
        append_assoc (published out) (published out') (pending s2.opened),
        append_assoc (published out) (pending s1.opened) ys,
        append_assoc (pending s.opened) xs ys,
        first.2,
        later.2,
      )

  module _ {F : Type 0} where
    -- What a call brings to block `b`.
    abbrev pub call_brings : Config → Call F → List A
    call_brings c (processes now r) = elim (block_of c r) [
      | none ↦ []
      | some k ↦ if k =? b then v.brought (event_of c r) r.id else []
    ]
    call_brings c ticks = []
    call_brings c starts = []
    call_brings c stops = []

    abbrev pub calls_bring : Config → List (Call F) → List A
    calls_bring c [] = []
    calls_bring c (x ∷ xs) = call_brings c x ++ calls_bring c xs

    process-keeps :
        {raised : ℕ} (s : Sessionizer) (now : ℕ × ℕ) (r : LogRecord F)
        → IsValid raised s
        → let (_, s', out, _) = process s now r in
          published out ++ pending s'.opened
          ≡ pending s.opened ++ call_brings s.config (processes now r)
    unfolding process
    process-keeps s now r valid = elim (Option-cases (block_of s.config r)) [
      | inl e ↦ rw (e, process, call_brings) (sym (append-nil _))
      | inr (k, e) ↦ elim (Bool-cases (is_hashable (lookup s.event_id_key r.enrichment))) [
        | inl good ↦
            rw (e, process, call_brings, good)
              (observe-keeps s now k (event_of s.config r) r.id r.timestamp valid)
        | inr bad ↦
            rw
              (
                e,
                process,
                call_brings,
                bad,
                as_text-unhashable (lookup s.event_id_key r.enrichment) bad,
              )
              (observe_unhashable-keeps s now k r.id r.timestamp valid)
      ]
    ]

    step-Accounts :
        (raised : ℕ) (s : Sessionizer) (c : Call F)
        → IsValid raised s
        → Accounts s (call_brings s.config c) (step s c)
    unfolding step start
    step-Accounts raised s (processes now r) valid = (
      (_, (process-IsValid raised s now r valid).0),
      process-config s now r,
      process-keeps s now r valid,
    )
    step-Accounts raised s ticks valid = rw (janitor_pass_lem s valid.distinct) (
        let (c, k) = after_pass-keeps s.latest_log_ts s valid in
        ((raised, after_pass-IsValid raised s.latest_log_ts s valid), c, k ∙ sym (append-nil _)))
    step-Accounts raised s starts valid =
        ((raised, ground arith), ground arith, ground (arith, append-nil (pending s.opened)))
    step-Accounts raised s stops valid = rw (stop_lem s) (
      (
        raised,
        record { some_room = valid.some_room; distinct = tt; entries = tt; few = omega arith },
      ),
      refl,
      ap (λ l. l ++ [])
          (published-closed_as s.run_id s.max_per_trace ClosedReason.shutdown s.opened
            valid.distinct valid.entries),
    )

    -- From a valid stage no run of calls misses a key, and for block `b` what is published, followed by
    -- what is still open, is what was open before followed by all that the calls brought to it.
    pub run-Accounts :
        (raised : ℕ) (cs : List (Call F)) (s : Sessionizer)
        → IsValid raised s
        → Accounts s (calls_bring s.config cs) (run cs s)
    unfolding run
    run-Accounts raised [] s valid = ((raised, valid), refl, sym (append-nil _))
    run-Accounts raised (c ∷ cs) s valid = elim (Option-cases (step s c)) [
      | inl e ↦ absurd (rw e at (step-Accounts raised s c valid))
      | inr ((s1, out1), e) ↦
          let first = rw e at (step-Accounts raised s c valid) in
          let later : Accounts s1 (calls_bring s.config cs) (run cs s1) =
            subst (λ k. Accounts s1 (calls_bring k cs) (run cs s1)) first.1
              (run-Accounts first.0.0 cs s1 first.0.1) in
          rw (e, run)
            (Accounts-then_run s s1 out1 (call_brings s.config c) (calls_bring s.config cs)
              (run cs s1) first later)
    ]
