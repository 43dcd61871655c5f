-- ===== src/Postgres/Clauses.antt =====
-- The WHERE clause of a query against the guards of the in-memory query.
use pipelinex.Prelude.{ℕ, ◌≡◌, inl, inr, refl, ◌∙◌, String, false, Option, none, some, arith}
use pipelinex.Prelude.Tests.{◌==◌, Bool-cases}
use pipelinex.Prelude.Equality.{◌=?◌, string_eq, =?-self, =?-ne}
use pipelinex.Models.{severity_text, LogRecord}
use pipelinex.MemoryRepo.{QueryFilters, matches, equals, not_before, not_after}
use pipelinex.Postgres.{RecordRow, where_clause, wanted_run, column_is, run_is, at_least, at_most}
use pipelinex.Postgres.Holds.{Holds, IsUuidText}

same_after : (bound at : Option ℕ) → at_least bound at ≡ not_before bound at
same_after none at = refl
same_after (some bound) none = refl
same_after (some bound) (some at) = ground arith

same_before : (bound at : Option ℕ) → at_most bound at ≡ not_after bound at
same_before none at = refl
same_before (some bound) none = refl
same_before (some bound) (some at) = ground arith

same_column :
    (wanted : Option String) (actual : String)
    → column_is wanted (some actual) ≡ equals wanted actual
same_column none actual = refl
same_column (some wanted) actual = refl

-- A filter on the run is the text of an identifier.
abbrev pub IsCanonical : (Option ℕ → String) → Option String → Option ℕ → Type 0
IsCanonical run_id_text none wanted = wanted ≡ none
IsCanonical run_id_text (some text) wanted =
    (u : ℕ) × (text ≡ run_id_text (some u)) × (wanted ≡ some u)

module _ (run_id_text : Option ℕ → String) (parse_uuid : String → Option ℕ)
    (uuids : IsUuidText run_id_text parse_uuid) where
  same_run_filter :
      (filter : Option String) (wanted run : Option ℕ)
      → IsCanonical run_id_text filter wanted
      → run_is wanted run ≡ equals filter (run_id_text run)
  same_run_filter none wanted run h = rw h refl
  same_run_filter (some text) wanted none (u, written, same) =
      let other : (run_id_text none =? text) ≡ false =
        =?-ne _ _ (λ e.
          let clash : none ≡ some u = uuids.text_injective none (some u) (e ∙ written) in cc) in
      rw (same, other) refl
  same_run_filter (some text) wanted (some v) (u, written, same) = elim (Bool-cases (v == u)) [
    | inl hit ↦
        let one : v ≡ u = ground (arith, hit) in
        rw (same, hit, written, one, =?-self (run_id_text (some u))) refl
    | inr miss ↦
        let other : (run_id_text (some v) =? text) ≡ false = =?-ne _ _ (λ e.
          let clash : some v ≡ some u = uuids.text_injective (some v) (some u) (e ∙ written) in
          let one : v ≡ u = cc in ground (arith, miss, one)) in
        rw (same, miss, other) refl
  ]

  -- The clause of the statement and the guards of the loop agree.
  pub where_clause-matches :
      {F : Type 0} (f : QueryFilters) (wanted : Option ℕ) (row : RecordRow F) (r : LogRecord F)
      → IsCanonical run_id_text f.pipeline_run_id wanted
      → Holds row r
      → where_clause f wanted row ≡ matches F run_id_text f r
  where_clause-matches {F} f wanted row r canonical h =
      rw
        (
          where_clause,
          matches,
          h.same_severity,
          h.same_source,
          h.same_run,
          h.same_timestamp,
          same_column f.severity (severity_text r.severity),
          same_column f.source r.source,
          same_run_filter f.pipeline_run_id wanted r.pipeline_run_id canonical,
          same_after f.after r.timestamp,
          same_before f.before r.timestamp,
        )
        refl

  pub wanted_run-IsCanonical :
      (filter : Option String) (wanted : Option ℕ)
      → IsCanonical run_id_text filter wanted
      → wanted_run parse_uuid filter ≡ some wanted
  wanted_run-IsCanonical none wanted h = rw h refl
  wanted_run-IsCanonical (some text) wanted (u, written, same) =
      rw (written, wanted_run, uuids.read_written u, same) refl
