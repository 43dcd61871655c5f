-- ===== src/Templates.antt =====
-- src/pipelinex/stages/enrichment/template_matcher.py. The rows of the templates file are those of
-- `csv.DictReader`: the entries EventId and EventTemplate of each. A compiled pattern is the list of
-- its literal parts, with `.*?` between them.
pub mod Wildcards
pub mod First
mod Tests
use pipelinex.Prelude.{String, Bool, true, false, List, [], ◌∷◌, Option, none, some}
use Prim.Native.Char.{Char, code}
use pipelinex.Prelude.Tests.{if◌then◌else◌, ◌==◌}
use pipelinex.Prelude.Text.{expect}
use pipelinex.Prelude.Equality.{◌=?◌, string_eq}
use pipelinex.Models.{Value, LogRecord, add_enrichment}

-- `_WILDCARD` at three code points: `<*>` or `[*]`.
abbrev pub is_wildcard : Char → Char → Char → Bool
is_wildcard a b c =
    if code b == b'*'
    then if code a == b'<' then code c == b'>' else if code a == b'[' then code c == b']' else false
    else false

-- A code point goes in front of the first part.
abbrev pub push_char : Char → List String → List String
push_char c [] = String.◌∷◌ c "" ∷ []
push_char c (part ∷ parts) = String.◌∷◌ c part ∷ parts

-- `_WILDCARD.split`
unfoldable pub split_wildcards : String → List String
split_wildcards String.[] = "" ∷ []
split_wildcards (String.◌∷◌ a String.[]) = String.◌∷◌ a "" ∷ []
split_wildcards (String.◌∷◌ a (String.◌∷◌ b String.[])) = String.◌∷◌ a (String.◌∷◌ b "") ∷ []
split_wildcards (String.◌∷◌ a (String.◌∷◌ b (String.◌∷◌ c s))) =
    let after = split_wildcards s in
    let later = split_wildcards (String.◌∷◌ b (String.◌∷◌ c s)) in
    if is_wildcard a b c then "" ∷ after else push_char a later

-- A literal part somewhere in a text, with what follows it accepted by the rest of the pattern.
abbrev pub search_part : (String → Bool) → String → String → Bool
search_part next part String.[] = elim (expect part "") [ none ↦ false | some rest ↦ next rest ]
search_part next part (String.◌∷◌ c s) =
    let later = search_part next part s in
    elim (expect part (String.◌∷◌ c s)) [
      | none ↦ later
      | some rest ↦ if next rest then true else later
    ]

-- `.*?` and the rest of a pattern; the end of the text is free.
unfoldable pub match_rest : List String → String → Bool
match_rest [] s = true
match_rest (part ∷ parts) s = search_part (match_rest parts) part s

-- `pat.match`
unfoldable pub match_pattern : List String → String → Bool
match_pattern [] s = true
match_pattern (part ∷ parts) s = elim (expect part s) [
  | none ↦ false
  | some rest ↦ match_rest parts rest
]

-- `_compile_templates`; a row without an event or a template is left out.
abbrev pub given : Option String → Option String
given none = none
given (some s) = if s =? "" then none else some s

abbrev pub compile_templates : List (Option String × Option String) → List (String × List String)
compile_templates [] = []
compile_templates ((event_id, template) ∷ rows) =
    let more = compile_templates rows in
    elim (given event_id) [
      | none ↦ more
      | some eid ↦ elim (given template) [ none ↦ more | some t ↦ (eid, split_wildcards t) ∷ more ]
    ]

-- The event of the first pattern that matches, also `_match_event_id` of the training script.
abbrev pub match_event_id : List (String × List String) → String → Option String
match_event_id [] message = none
match_event_id ((eid, pattern_parts) ∷ patterns) message =
    let later = match_event_id patterns message in
    if match_pattern pattern_parts message then some eid else later

module _ {F : Type 0} where
  unfoldable pub process : String → List (String × List String) → LogRecord F → LogRecord F
  process enrichment_key patterns r = elim (match_event_id patterns r.message) [
    | none ↦ r
    | some eid ↦ add_enrichment r enrichment_key (Value.text eid)
  ]
