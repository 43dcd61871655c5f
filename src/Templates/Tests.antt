-- ===== src/Templates/Tests.antt =====
-- Witnesses of the theorems on templates.
use pipelinex.Prelude.{ℕ, ◌≡◌, refl, String, List, [], ◌∷◌, none, some}
use pipelinex.Prelude.Text.{expect}
use pipelinex.Models.{Severity, Value, LogRecord, add_enrichment}
use pipelinex.Templates.{split_wildcards, match_pattern, match_rest, compile_templates, process}

wildcards_split : split_wildcards "Served block <*> to [*]" ≡ "Served block " ∷ " to " ∷ "" ∷ []
unfolding split_wildcards
wildcards_split = refl

abbrev served : LogRecord ℕ
served = record {
  id = 5;
  pipeline_run_id = none;
  timestamp = none;
  source = "s";
  severity = Severity.info;
  message = "Served block 5 to a";
  raw_payload = [];
  enrichment = [];
  stage_history = [];
}

abbrev patterns : List (String × List String)
patterns =
    compile_templates
      ((some "E1", some "Got <*>") ∷ (none, some "x") ∷ (some "E2", some "Served <*>") ∷ [])

event_found :
    process "event_id" patterns served ≡ add_enrichment served "event_id" (Value.text "E2")
unfolding process split_wildcards match_pattern match_rest expect
event_found = refl
