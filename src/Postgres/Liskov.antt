-- ===== src/Postgres/Liskov.antt =====
-- The query of the database repository against the in-memory one.
use pipelinex.Prelude.{
  ℕ, ◌≤◌, ◌≡◌, ◌⊎◌, inl, inr, refl, String, List, [], ◌∷◌, map, append-nil, Option, none, some,
  arith, max,
}
use mathlib.Core.List.{Permᴰ}
use pipelinex.Prelude.Tests.{Option-cases}
use pipelinex.Prelude.Pairwise.{
  Pairwise, Pairwise-permute, Pairwise-keep_if, Pairwise-take, Pairwise-append,
}
use pipelinex.Prelude.Equality.{string_eq}
use pipelinex.Prelude.Int.{pos_part}
use pipelinex.Models.{LogRecord}
use pipelinex.MemoryRepo.{init, QueryFilters, Repository, matches}
use pipelinex.MemoryRepo.{query as memory_query, save_batch as memory_save}
use pipelinex.Exceptions.{ErrorKind, Result}
use pipelinex.MemoryRepo.Query.{query_lem}
use pipelinex.Postgres.{
  RecordRow, Server, record_to_row, where_clause, read_rows, query, save_batch,
}
use pipelinex.Postgres.Holds.{Holds, ReadsAs, all_read_back, IsUuidText, IsServer}
use pipelinex.Postgres.Clauses.{IsCanonical, where_clause-matches, wanted_run-IsCanonical}

module _ {F : Type 0} (srv : Server F) (held : srv.State → List (RecordRow F))
    (laws : IsServer srv held) where
  -- A batch goes to both repositories, to the one in memory where the database takes it.
  abbrev pub save_both : srv.State × Repository F → List (LogRecord F) → srv.State × Repository F
  save_both (st, memory) batch =
      let (st', error) = save_batch srv batch st in
      (st', elim error [ none ↦ memory_save F memory batch | some kind ↦ memory ])

  abbrev pub save_all :
      srv.State × Repository F → List (List (LogRecord F)) → srv.State × Repository F
  save_all both [] = both
  save_all both (batch ∷ batches) = save_all (save_both both batch) batches

  abbrev pub SameRecords : srv.State × Repository F → Type 0
  SameRecords (st, memory) = Pairwise Holds (held st) memory.records

  save_both-SameRecords :
      (both : srv.State × Repository F) (batch : List (LogRecord F))
      → SameRecords both
      → SameRecords (save_both both batch)
  unfolding save_batch memory_save
  save_both-SameRecords (st, memory) [] h = rw append-nil h
  save_both-SameRecords (st, memory) (r ∷ batch) h =
      elim (Option-cases (srv.insert_records (map record_to_row (r ∷ batch)) st)) [
        | inl refused ↦ rw (save_both, save_batch, refused) h
        | inr (st', taken) ↦
            let (new, grown, same) = laws.stored r batch st taken in
            rw (save_both, save_batch, taken, grown)
              (Pairwise-append Holds (held st) new memory.records (r ∷ batch) h same)
      ]

  save_all-SameRecords :
      (both : srv.State × Repository F) (batches : List (List (LogRecord F)))
      → SameRecords both
      → SameRecords (save_all both batches)
  save_all-SameRecords both [] h = h
  save_all-SameRecords both (batch ∷ batches) h =
      save_all-SameRecords (save_both both batch) batches (save_both-SameRecords both batch h)

  -- What a query of the database yields: it fails, or yields the records of the in-memory query on
  -- the same records in some order, as they are read back.
  abbrev pub Answers :
      (Option ℕ → String)
      → (String → Option ℕ)
      → ℕ
      → QueryFilters
      → srv.State × Repository F
      → Type 0
  Answers run_id_text parse_uuid now f both =
      (query srv parse_uuid now f both.0 ≡ Result.raises ErrorKind.repository_error)
      ⊎ ((qs : List (LogRecord F)) × (order : List (LogRecord F)) × (query srv parse_uuid now f
              both.0
            ≡ Result.returns qs)
          × Permᴰ order both.1.records
          × Pairwise (ReadsAs now) qs
              (memory_query F run_id_text (record (both.1) { records = order }) f))

  module _ (run_id_text : Option ℕ → String) (parse_uuid : String → Option ℕ)
      (uuids : IsUuidText run_id_text parse_uuid) where
    query-Answers :
        (now : ℕ) (f : QueryFilters) (wanted : Option ℕ) (both : srv.State × Repository F)
        → 1 ≤ pos_part f.limit
        → IsCanonical run_id_text f.pipeline_run_id wanted
        → SameRecords both
        → Answers run_id_text parse_uuid now f both
    unfolding query
    query-Answers now f wanted (st, memory) some_limit canonical same =
        let run =
          wanted_run-IsCanonical run_id_text parse_uuid uuids f.pipeline_run_id wanted canonical in
        let clause = where_clause {F = F} f wanted in
        elim (Option-cases (srv.select_records clause f.limit st)) [
          | inl refused ↦ inl (rw (query, run, refused) refl)
          | inr (rows, found) ↦
              let (order, p, taken) = laws.selected clause f.limit st found in
              let (records, q, alike) = Pairwise-permute Holds memory.records p same in
              let kept =
                Pairwise-keep_if Holds clause (matches F run_id_text f) order records
                  (λ row r h.
                    where_clause-matches run_id_text parse_uuid uuids f wanted row r canonical h)
                  alike in
              let cut = Pairwise-take Holds (pos_part f.limit) _ _ kept in
              let (qs, read, back) = all_read_back now _ _ cut in
              let limit : max 1 (pos_part f.limit) ≡ pos_part f.limit = omega (arith, some_limit) in
              inr (
                qs,
                records,
                rw (query, run, found, taken, read_rows, read) refl,
                q,
                rw (query_lem F run_id_text (record memory { records = records }) f, limit) back,
              )
        ]

    -- From an empty table and after any batches, with those that the database refuses left out, a
    -- query of the database fails or yields what the in-memory query yields on the same records in
    -- some order, as they are read back. The limit is positive, and a filter on the run is the text
    -- of an identifier; the server and the texts of identifiers are as IsServer and IsUuidText say.
    pub query-save_all :
        (now : ℕ) (f : QueryFilters) (wanted : Option ℕ) (st : srv.State)
        (batches : List (List (LogRecord F)))
        → held st ≡ []
        → 1 ≤ pos_part f.limit
        → IsCanonical run_id_text f.pipeline_run_id wanted
        → Answers run_id_text parse_uuid now f (save_all (st, init F) batches)
    query-save_all now f wanted st batches empty some_limit canonical =
        query-Answers now f wanted (save_all (st, init F) batches) some_limit canonical
          (save_all-SameRecords (st, init F) batches (rw empty tt))
