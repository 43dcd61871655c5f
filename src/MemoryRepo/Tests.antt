-- ===== src/MemoryRepo/Tests.antt =====
-- Witnesses of the repository's theorems: three records, one of them an error.
use pipelinex.Prelude.{ℕ, ◌*◌, ◌≡◌, refl, String, List, [], ◌∷◌, Option, none, some, map, inl}
use pipelinex.Prelude.Lists.{take, keep_if}
use pipelinex.Prelude.Int.{ℤ, pos}
use pipelinex.Models.{Severity, LogRecord}
use pipelinex.MemoryRepo.{
  Repository, QueryFilters, Aggregation, init, save, save_batch, matches, query, key_of, row_of,
  aggregate,
}
use pipelinex.MemoryRepo.Query.{query_lem}
use pipelinex.MemoryRepo.Counts.{IsGroupCount, aggregate_lem}

abbrev run_id_text : Option ℕ → String
run_id_text none = "None"
run_id_text (some n) = "run"

abbrev sample : ℕ → Severity → LogRecord ℕ
sample n severity = record {
  id = n;
  pipeline_run_id = none;
  timestamp = some (100 * n);
  source = "app";
  severity = severity;
  message = "m";
  raw_payload = [];
  enrichment = [];
  stage_history = [];
}

abbrev stored : Repository ℕ
stored =
    save ℕ (save_batch ℕ (init ℕ) (sample 1 Severity.info ∷ sample 2 Severity.error ∷ []))
      (sample 3 Severity.info)

abbrev infos : ℤ → QueryFilters
infos limit = record {
  severity = some "INFO";
  source = none;
  pipeline_run_id = none;
  after = none;
  before = some 300;
  limit = limit;
}

-- Even with a limit of 0 a query returns a record.
zero_limit : query ℕ run_id_text stored (infos (pos 0)) ≡ sample 1 Severity.info ∷ []
unfolding query save save_batch
zero_limit = refl

query_lem_example :
    query ℕ run_id_text stored (infos (pos 5))
    ≡ take 5 (keep_if (matches ℕ run_id_text (infos (pos 5))) stored.records)
query_lem_example = query_lem ℕ run_id_text stored (infos (pos 5))

abbrev by_severity : Aggregation
by_severity = record { group_by = "severity"; metric = "count" }

aggregate_lem_example :
    (rows : List (String × ℕ)) × IsGroupCount (map (key_of ℕ "severity") stored.records) rows
    × (aggregate ℕ stored by_severity ≡ some (map (row_of ℕ "severity") rows))
aggregate_lem_example = aggregate_lem ℕ stored by_severity refl (inl refl)
