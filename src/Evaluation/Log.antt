-- ===== src/Evaluation/Log.antt =====
-- The two loops over a log, of training and of evaluation.
use pipelinex.Prelude.{ℕ, suc, ◌≡◌, refl, sym, String, List, [], ◌∷◌, Option, none, some, inl, inr}
use pipelinex.Prelude.Tests.{Bool-cases}
use pipelinex.Prelude.Equality.{◌=?◌, string_eq}
use pipelinex.Stages.Parsing.{Parsed}
use pipelinex.Templates.{match_event_id}
use pipelinex.Training.{
  Parsing, no_events, text_at, rstrip_feed, capped, note_event, note_parsed, note_line, parse_log,
}
use pipelinex.Evaluation.{collect_event, collect_parsed, collect_line, collect}

note_event-events :
    (block event : Option String) (s : Parsing)
    → (note_event block event s).block_events ≡ collect_event block event s.block_events
note_event-events (some b) (some e) s = refl
note_event-events (some b) none s = refl
note_event-events none e s = refl

module _ {F : Type 0} (parse : String → Parsed F) (patterns : List (String × List String)) where
  note_parsed-events :
      (result : Parsed F) (s : Parsing)
      → (note_parsed patterns result s).block_events ≡ collect_parsed patterns result s.block_events
  note_parsed-events (Parsed.rejects kind) s = refl
  note_parsed-events (Parsed.parses r) s =
      note_event-events (text_at "block_id" r) (match_event_id patterns r.message) _

  note_line-events :
      (line : String) (s : Parsing)
      → (note_line parse patterns line s).block_events
        ≡ collect_line parse patterns line s.block_events
  note_line-events line s = elim (Bool-cases (rstrip_feed line =? "")) [
    | inl blank ↦ rw (note_line, collect_line, blank) refl
    | inr text ↦
        rw (note_line, collect_line, text) (note_parsed-events (parse (rstrip_feed line)) s)
  ]

  parse_log-events :
      (max_lines : Option ℕ) (i : ℕ) (lines : List String) (s : Parsing)
      → (parse_log parse patterns max_lines i lines s).block_events
        ≡ collect parse patterns max_lines i lines s.block_events
  parse_log-events max_lines i [] s = refl
  parse_log-events max_lines i (line ∷ lines) s = elim (Bool-cases (capped max_lines i)) [
    | inl end ↦ rw (parse_log, collect, end) refl
    | inr on ↦
        rw (parse_log, collect, on, ← note_line-events line s)
          (parse_log-events max_lines (suc i) lines (note_line parse patterns line s))
  ]

  -- The evaluation collects the same events of each block as the training, in the same order.
  pub collect-parse_log :
      (max_lines : Option ℕ) (lines : List String)
      → collect parse patterns max_lines 0 lines []
        ≡ (parse_log parse patterns max_lines 0 lines no_events).block_events
  collect-parse_log max_lines lines = sym (parse_log-events max_lines 0 lines no_events)
