-- ===== src/Sessionizer/Runs.antt =====
-- Every call of the stage keeps its table well formed, and which calls raise.
use mathlib.Core.Path.{subst}
use pipelinex.Prelude.{
  ℕ, ◌+◌, ◌≡◌, refl, ap, not, String, Bool, false, List, [], ◌∷◌, ◌++◌, Option, none, some, inl,
  inr, arith,
}
use pipelinex.Prelude.Tests.{Option-cases, Bool-cases, if◌then◌else◌}
use pipelinex.Prelude.Lists.{length, All}
use pipelinex.Prelude.Dict.{Dict, lookup, Distinct}
use pipelinex.Prelude.Equality.{string_eq}
use pipelinex.Models.{is_hashable, LogRecord, BlockTrace, ClosedReason}
use pipelinex.Sessionizer.{
  Config, Sessionizer, init, evict_oldest, observe, observe_unhashable, block_of, event_of, process,
}
use pipelinex.Sessionizer.Traces.{OpenTrace}
use pipelinex.Sessionizer.Closing.{
  janitor_pass, start, Call, processes, ticks, starts, stops, step, run, raises, count_raised,
}
use pipelinex.Sessionizer.Invariant.{IsEntry, IsValid, observe-IsValid, observe_unhashable-IsValid}
use pipelinex.Sessionizer.Sweep.{
  survivors, swept, closed_as, stopped, after_pass, janitor_pass_lem, stop_lem,
}

-- The constructor makes a valid, empty stage whose limits are positive, or raises.
pub init-IsValid :
    (c : Config) {s : Sessionizer}
    → init c ≡ some s
    → IsValid 0 s × (s.opened ≡ []) × (s.config ≡ c)
unfolding init
init-IsValid c e = ground arith

IsValid-eq : (m n : ℕ) (s : Sessionizer) → m ≡ n → IsValid m s → IsValid n s
IsValid-eq m n s e v = subst (λ k. IsValid k s) e v

-- The calls that raise are those on a record with a block id and an event id that is not hashable.
abbrev pub is_unhashable : {F : Type 0} → Config → LogRecord F → Bool
is_unhashable c r = elim (block_of c r) [
  | none ↦ false
  | some b ↦ not (is_hashable (lookup c.event_id_key r.enrichment))
]

abbrev pub as_count : Bool → ℕ
as_count b = if b then 1 else 0

pub process-IsValid :
    {F : Type 0} (raised : ℕ) (s : Sessionizer) (now : ℕ × ℕ) (r : LogRecord F)
    → IsValid raised s
    → IsValid (raised + as_count (is_unhashable s.config r)) (process s now r).1
      × ((process s now r).3 ≡ is_unhashable s.config r)
unfolding process
process-IsValid raised s now r v = elim (Option-cases (block_of s.config r)) [
  | inl other ↦
      rw (other, process, is_unhashable) (IsValid-eq raised (raised + 0) s (omega arith) v, refl)
  | inr (b, e) ↦ elim (Bool-cases (is_hashable (lookup s.event_id_key r.enrichment))) [
    | inl good ↦
        rw (e, process, is_unhashable, good)
          (
            IsValid-eq raised (raised + 0) _ (omega arith)
                (observe-IsValid raised s now b (event_of s.config r) r.id r.timestamp v),
            refl,
          )
    | inr bad ↦
        rw (e, process, is_unhashable, bad)
          (observe_unhashable-IsValid raised s now b r.id r.timestamp v, refl)
  ]
]

pub lookup-survivors :
    (idle latest : ℕ) (k : String) (d : Dict String OpenTrace)
    → lookup k d ≡ none
    → lookup k (survivors idle latest d) ≡ none
lookup-survivors idle latest k [] h = h
lookup-survivors idle latest k ((b, t) ∷ d) h = ground (arith, lookup-survivors idle latest k d)

survivors-Distinct :
    (idle latest : ℕ) (d : Dict String OpenTrace) → Distinct d → Distinct (survivors idle latest d)
survivors-Distinct idle latest [] h = h
survivors-Distinct idle latest ((b, t) ∷ d) h =
    ground (arith, lookup-survivors idle latest b d, survivors-Distinct idle latest d h.1)

survivors-IsEntry :
    (idle latest cap : ℕ) (d : Dict String OpenTrace)
    → All (IsEntry cap) d
    → All (IsEntry cap) (survivors idle latest d)
survivors-IsEntry idle latest cap [] h = h
survivors-IsEntry idle latest cap ((b, t) ∷ d) h =
    ground (arith, survivors-IsEntry idle latest cap d h.1)

length-survivors :
    (run_id idle latest : ℕ) (d : Dict String OpenTrace)
    → length (survivors idle latest d) + length (swept run_id idle latest d) ≡ length d
length-survivors run_id idle latest [] = omega arith
length-survivors run_id idle latest ((b, t) ∷ d) =
    ground (arith, length-survivors run_id idle latest d)

pub after_pass-IsValid :
    (raised : ℕ) (latest : Option ℕ) (s : Sessionizer)
    → IsValid raised s
    → IsValid raised (after_pass latest s).0
after_pass-IsValid raised none s v = v
after_pass-IsValid raised (some l) s v = record {
  some_room = v.some_room;
  distinct = survivors-Distinct s.idle_window l s.opened v.distinct;
  entries = survivors-IsEntry s.idle_window l s.max_per_trace s.opened v.entries;
  few = omega (arith, v.few, length-survivors s.run_id s.idle_window l s.opened);
}

pub janitor_pass-IsValid :
    (raised : ℕ) (s : Sessionizer) → IsValid raised s → IsValid raised (janitor_pass s).0
janitor_pass-IsValid raised s v =
    rw (janitor_pass_lem s v.distinct) (after_pass-IsValid raised s.latest_log_ts s v)

evict_oldest-config :
    (d : Dict String OpenTrace) (s : Sessionizer) → (evict_oldest d s).0.config ≡ s.config
unfolding evict_oldest
evict_oldest-config [] s = refl
evict_oldest-config ((k, t) ∷ d) s = refl

observe-config :
    (s : Sessionizer) (now : ℕ × ℕ) (b : String) (event_id : Option String) (rid : ℕ)
    (ts : Option ℕ)
    → (observe s now b event_id rid ts).0.config ≡ s.config
unfolding observe
observe-config s now b event_id rid ts = grind (arith, evict_oldest-config)

after_pass-config :
    (latest : Option ℕ) (s : Sessionizer) → (after_pass latest s).0.config ≡ s.config
after_pass-config none s = refl
after_pass-config (some l) s = refl

observe_unhashable-config :
    (s : Sessionizer) (now : ℕ × ℕ) (b : String) (rid : ℕ) (ts : Option ℕ)
    → (observe_unhashable s now b rid ts).config ≡ s.config
unfolding observe_unhashable
observe_unhashable-config s now b rid ts = refl

pub process-config :
    {F : Type 0} (s : Sessionizer) (now : ℕ × ℕ) (r : LogRecord F)
    → (process s now r).1.config ≡ s.config
unfolding process
process-config s now r = elim (Option-cases (block_of s.config r)) [
  | inl other ↦ rw (other, process)
  | inr (b, e) ↦ elim (Bool-cases (is_hashable (lookup s.event_id_key r.enrichment))) [
    | inl good ↦
        rw (e, process, good) (observe-config s now b (event_of s.config r) r.id r.timestamp)
    | inr bad ↦ rw (e, process, bad) (observe_unhashable-config s now b r.id r.timestamp)
  ]
]

module _ {F : Type 0} where
  abbrev pub unhashable : Config → Call F → ℕ
  unhashable c (processes now r) = as_count (is_unhashable c r)
  unhashable c _ = 0

  abbrev pub unhashable_calls : Config → List (Call F) → ℕ
  unhashable_calls c [] = 0
  unhashable_calls c (x ∷ xs) = unhashable c x + unhashable_calls c xs

  -- One call succeeds in keeping the stage valid and its configuration fixed, and raises exactly
  -- for an event id that is not hashable.
  pub step-IsValid :
      (raised : ℕ) (s : Sessionizer) (c : Call F)
      → IsValid raised s
      → (s' : Sessionizer) × (out : List BlockTrace) × (step s c ≡ some (s', out))
        × IsValid (raised + unhashable s.config c) s'
        × (s'.config ≡ s.config)
        × (raises s c ≡ unhashable s.config c)
  unfolding step start raises
  step-IsValid raised s (processes now r) v =
      let (valid, same) = process-IsValid raised s now r v in
      (
        (process s now r).1,
        (process s now r).2,
        refl,
        valid,
        process-config s now r,
        ap as_count same,
      )
  step-IsValid raised s ticks v = (
    (janitor_pass s).0,
    (janitor_pass s).1,
    refl,
    IsValid-eq raised (raised + 0) _ (omega arith) (janitor_pass-IsValid raised s v),
    rw (janitor_pass_lem s v.distinct) (after_pass-config s.latest_log_ts s),
    refl,
  )
  step-IsValid raised s starts v = (
    start s,
    [],
    refl,
    IsValid-eq raised (raised + 0) (start s) (omega arith) (ground arith),
    ground arith,
    refl,
  )
  step-IsValid raised s stops v = (
    stopped s,
    closed_as s.run_id ClosedReason.shutdown s.opened,
    stop_lem s,
    record { some_room = v.some_room; distinct = tt; entries = tt; few = omega arith },
    refl,
    refl,
  )

  -- From a valid stage a run of calls keeps the stage valid: one open trace to a block, each below
  -- the cap on events, and never more than `max_open_traces` and one for each call that has raised.
  -- The calls that raise are those on a record with a block id and an event id that is not
  -- hashable; no other call raises, not even `stop`.
  pub run-IsValid :
      (raised : ℕ) (cs : List (Call F)) (s : Sessionizer)
      → IsValid raised s
      → (s' : Sessionizer) × (out : List BlockTrace) × (run cs s ≡ some (s', out))
        × IsValid (raised + unhashable_calls s.config cs) s'
        × (count_raised cs s ≡ unhashable_calls s.config cs)
  unfolding run count_raised
  run-IsValid raised [] s v = (s, [], refl, IsValid-eq raised (raised + 0) s (omega arith) v, refl)
  run-IsValid raised (c ∷ cs) s v =
      let (s1, out1, e1, v1, same, count1) = step-IsValid raised s c v in
      let (s2, out2, e2, v2, count2) = run-IsValid (raised + unhashable s.config c) cs s1 v1 in
      let here = unhashable s.config c in
      let valid = subst (λ k. IsValid (raised + here + unhashable_calls k cs) s2) same v2 in
      let count = subst (λ k. count_raised cs s1 ≡ unhashable_calls k cs) same count2 in
      (
        s2,
        out1 ++ out2,
        rw (e1, run) (rw e2),
        IsValid-eq _ _ s2 (omega arith) valid,
        rw (count_raised, e1) (omega (arith, count1, count)),
      )
