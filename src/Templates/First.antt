-- ===== src/Templates/First.antt =====
-- Which template an event comes from.
use pipelinex.Prelude.{◌≡◌, ◌⊎◌, inl, inr, refl, String, List, [], ◌∷◌, ◌++◌, none, some, arith}
use pipelinex.Prelude.Tests.{Bool-cases, Option-cases}
use pipelinex.Prelude.Lists.{All}
use pipelinex.Models.{Value, LogRecord, add_enrichment}
use pipelinex.Templates.{match_pattern, match_event_id, process}
use pipelinex.Templates.Wildcards.{Covers, match_pattern_iff}

abbrev pub Missed : String → String × List String → Type 0
Missed message (eid, parts) = ¬ Covers parts message

-- The event is that of the first pattern which covers the message.
abbrev pub IsFirst : List (String × List String) → String → String → Type 0
IsFirst patterns message eid =
    (before : List (String × List String)) × (parts : List String) × (after : List
      (String × List String))
    × (patterns ≡ before ++ (eid, parts) ∷ after)
    × Covers parts message
    × All (Missed message) before

skip-IsFirst :
    {patterns : List (String × List String)} {message eid : String} (p : String × List String)
    → Missed message p
    → IsFirst patterns message eid
    → IsFirst (p ∷ patterns) message eid
skip-IsFirst p miss (before, parts, after, e, covers, missed) =
    (p ∷ before, parts, after, rw e refl, covers, (miss, missed))

match_event_id-none :
    (patterns : List (String × List String)) (message : String)
    → match_event_id patterns message ≡ none
    → All (Missed message) patterns
match_event_id-none [] message h = tt
match_event_id-none ((eid, parts) ∷ patterns) message h =
    elim (Bool-cases (match_pattern parts message)) [
      | inl hit ↦ absurd (ground (arith, h, hit))
      | inr miss ↦
          let iff = match_pattern_iff parts message in
          (
            λ covers. ground (arith, miss, iff.1 covers),
            match_event_id-none patterns message (ground (arith, h, miss)),
          )
    ]

match_event_id-some :
    (patterns : List (String × List String)) (message : String) {eid : String}
    → match_event_id patterns message ≡ some eid
    → IsFirst patterns message eid
match_event_id-some [] message h = cc
match_event_id-some ((first, parts) ∷ patterns) message {eid} h =
    let iff = match_pattern_iff parts message in
    elim (Bool-cases (match_pattern parts message)) [
      | inl hit ↦
          let same : first ≡ eid = ground (arith, h, hit) in
          rw same ([], parts, patterns, refl, iff.0 hit, tt)
      | inr miss ↦
          skip-IsFirst (first, parts) (λ covers. ground (arith, miss, iff.1 covers))
            (match_event_id-some patterns message (ground (arith, h, miss)))
    ]

-- The stage enriches a record with the event of the first pattern that covers its message, and
-- leaves a record of which no pattern covers the message as it was.
process-IsFirst :
    {F : Type 0} (enrichment_key : String) (patterns : List (String × List String))
    (r : LogRecord F)
    → ((eid : String) × IsFirst patterns r.message eid
        × (process enrichment_key patterns r ≡ add_enrichment r enrichment_key (Value.text eid)))
      ⊎ (All (Missed r.message) patterns × (process enrichment_key patterns r ≡ r))
unfolding process
process-IsFirst enrichment_key patterns r =
    elim (Option-cases (match_event_id patterns r.message)) [
      | inl nothing ↦
          inr (match_event_id-none patterns r.message nothing, rw (process, nothing) refl)
      | inr (eid, found) ↦
          inl (eid, match_event_id-some patterns r.message found, rw (process, found) refl)
    ]
