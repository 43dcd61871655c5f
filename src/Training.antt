-- ===== src/Training.antt =====
-- scripts/train_sequence_model.py: the loop over the log, the labels and the model. The parser of
-- the lines is an argument; a set is a list of which only membership is used.
pub mod Normal
use pipelinex.Prelude.{
  ℕ, suc, ◌+◌, String, Bool, true, false, List, [], ◌∷◌, ◌++◌, Option, none, some,
}
use Prim.Native.Char.{Char, code}
use pipelinex.Prelude.Tests.{if◌then◌else◌, ◌==◌, leb}
use pipelinex.Prelude.Dict.{Dict, lookup, insert}
use pipelinex.Prelude.Equality.{◌=?◌, string_eq}
use pipelinex.Prelude.Int.{ℤ}
use pipelinex.Models.{Value, LogRecord}
use pipelinex.Stages.Parsing.{Parsed}
use pipelinex.Templates.{match_event_id, given}
use pipelinex.Detectors.Sequence.{SequenceModel, ngrams}

-- `_load_labels`: the entries BlockId and Label of each row, where both are there.
abbrev pub add_label : Option String → Option String → Dict String String → Dict String String
add_label (some block_id) (some label) labels = insert block_id label labels
add_label (some block_id) none labels = labels
add_label none label labels = labels

abbrev pub load_labels :
    Dict String String → List (Option String × Option String) → Dict String String
load_labels labels [] = labels
load_labels labels ((block_id, label) ∷ rows) =
    load_labels (add_label (given block_id) (given label) labels) rows

-- `rstrip("\n")`
abbrev pub rstrip_feed : String → String
rstrip_feed String.[] = ""
rstrip_feed (String.◌∷◌ c s) =
    let rest = rstrip_feed s in
    if rest =? "" then if code c == 10 then "" else String.◌∷◌ c "" else String.◌∷◌ c rest

-- `block_events[block_id].append(event_id)` on a `defaultdict(list)`
abbrev pub append_event : String → String → Dict String (List String) → Dict String (List String)
append_event block_id event_id d = elim (lookup block_id d) [
  | none ↦ insert block_id (event_id ∷ []) d
  | some events ↦ insert block_id (events ++ event_id ∷ []) d
]

pub record Parsing : Type 0 where
  pub block_events : Dict String (List String)
  pub n_parsed : ℕ
  pub n_matched : ℕ
  pub n_skipped : ℕ

abbrev pub no_events : Parsing
no_events = record { block_events = []; n_parsed = 0; n_matched = 0; n_skipped = 0 }

-- The lines that `--max-lines` leaves.
abbrev pub capped : Option ℕ → ℕ → Bool
capped none i = false
capped (some max_lines) i = leb max_lines i

abbrev pub note_event : Option String → Option String → Parsing → Parsing
note_event (some block_id) (some event_id) s = record s {
  n_matched = s.n_matched + 1;
  block_events = append_event block_id event_id s.block_events;
}
note_event (some block_id) none s = s
note_event none event_id s = s

module _ {F : Type 0} where
  -- The text under a key.
  abbrev pub text_at : String → LogRecord F → Option String
  text_at key r = elim (lookup key r.enrichment) [ some (Value.text b) ↦ some b | _ ↦ none ]

  abbrev pub note_parsed : List (String × List String) → Parsed F → Parsing → Parsing
  note_parsed patterns (Parsed.rejects kind) s = record s { n_skipped = s.n_skipped + 1 }
  note_parsed patterns (Parsed.parses r) s =
      note_event (text_at "block_id" r) (match_event_id patterns r.message)
        (record s { n_parsed = s.n_parsed + 1 })

  abbrev pub note_line :
      (String → Parsed F) → List (String × List String) → String → Parsing → Parsing
  note_line parse patterns line s =
      let raw = rstrip_feed line in if raw =? "" then s else note_parsed patterns (parse raw) s

  -- The loop from line `i` on.
  abbrev pub parse_log :
      (String → Parsed F)
      → List (String × List String)
      → Option ℕ
      → ℕ
      → List String
      → Parsing
      → Parsing
  parse_log parse patterns max_lines i [] s = s
  parse_log parse patterns max_lines i (line ∷ lines) s =
      let rest =
        parse_log parse patterns max_lines (suc i) lines (note_line parse patterns line s) in
      if capped max_lines i then s else rest

-- What the labelled blocks add up to.
pub record Learned : Type 0 where
  pub normal_grams : List (List String)
  pub vocabulary : List String
  pub n_normal_used : ℕ
  pub n_unlabeled : ℕ

abbrev pub nothing_learned : Learned
nothing_learned = record { normal_grams = []; vocabulary = []; n_normal_used = 0; n_unlabeled = 0 }

abbrev pub learn_block : ℤ → Option String → List String → Learned → Learned
learn_block n none events s = record s { n_unlabeled = s.n_unlabeled + 1 }
learn_block n (some label) events s =
    let known = record s { vocabulary = s.vocabulary ++ events } in
    if label =? "Normal"
    then record known {
      normal_grams = s.normal_grams ++ ngrams events n;
      n_normal_used = s.n_normal_used + 1;
    }
    else known

abbrev pub learn : ℤ → Dict String String → Dict String (List String) → Learned → Learned
learn n labels [] s = s
learn n labels ((block_id, events) ∷ blocks) s =
    learn n labels blocks (learn_block n (lookup block_id labels) events s)

-- The model that is written out.
abbrev pub train : ℤ → Dict String String → Dict String (List String) → SequenceModel
train n labels block_events =
    let s = learn n labels block_events nothing_learned in
    record { n = n; normal_ngrams = s.normal_grams; vocabulary = s.vocabulary }
