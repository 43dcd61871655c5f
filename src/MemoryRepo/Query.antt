-- ===== src/MemoryRepo/Query.antt =====
-- The query of src/pipelinex/persistence/memory_repo.py as a filter and a prefix.
use pipelinex.Prelude.{
  true, false, sym, ℕ, suc, ◌+◌, ◌-◌, ◌≡◌, refl, String, List, [], ◌∷◌, ◌++◌, Option, arith, inl,
  inr, max, append-nil, append_assoc,
}
use pipelinex.Prelude.Tests.{Bool-cases}
use pipelinex.Prelude.Lists.{length, length-append, take, keep_if}
use pipelinex.Prelude.Int.{ℤ, pos_part}
use pipelinex.Models.{LogRecord}
use pipelinex.MemoryRepo.{Repository, QueryFilters, matches, reached, collect, query}

-- With room for more, the limit is reached exactly when there is none left.
reached_full :
    (limit : ℤ) (n room : ℕ)
    → reached limit (suc n) ≡ true
    → suc n + room ≡ max 1 (pos_part limit)
    → room ≡ 0
reached_full limit n room full h = ground arith

reached_open :
    (limit : ℤ) (n room : ℕ)
    → reached limit (suc n) ≡ false
    → suc n + room ≡ max 1 (pos_part limit)
    → room ≡ suc (room - 1)
reached_open limit n room below h = ground arith

module _ (F : Type 0) (run_id_text : Option ℕ → String) where
  -- The records that match are added until there are as many as the limit, but at least one.
  collect_lem :
      (f : QueryFilters) (found rs : List (LogRecord F)) (room : ℕ)
      → length found + suc room ≡ max 1 (pos_part f.limit)
      → collect F run_id_text f found rs
        ≡ found ++ take (suc room) (keep_if (matches F run_id_text f) rs)
  collect_lem f found [] room h = rw append-nil refl
  collect_lem f found (r ∷ rs) room h = elim (Bool-cases (matches F run_id_text f r)) [
    | inr miss ↦ rw (collect, keep_if, miss, collect_lem f found rs room h) refl
    | inl hit ↦
        let one_more : length (found ++ r ∷ []) ≡ suc (length found) =
          omega (arith, length-append found (r ∷ [])) in
        elim (Bool-cases (reached f.limit (length (found ++ r ∷ [])))) [
          | inl full ↦
              let last : room ≡ 0 =
                reached_full f.limit (length found) room (rw (sym one_more) full) (omega arith) in
              rw (collect, keep_if, hit, full, last) refl
          | inr below ↦
              let left : room ≡ suc (room - 1) =
                reached_open f.limit (length found) room (rw (sym one_more) below) (omega arith) in
              let ih = collect_lem f (found ++ r ∷ []) rs (room - 1) (omega arith) in
              rw (collect, keep_if, hit, below, ih, append_assoc, ← left) refl
        ]
  ]

  -- A query returns the first of the records that match, as many as the limit says, but at least
  -- one where one matches.
  pub query_lem :
      (s : Repository F) (f : QueryFilters)
      → query F run_id_text s f
        ≡ take (max 1 (pos_part f.limit)) (keep_if (matches F run_id_text f) s.records)
  unfolding query
  query_lem s f =
      let room : max 1 (pos_part f.limit) ≡ suc (max 1 (pos_part f.limit) - 1) = omega arith in
      rw room (collect_lem f [] s.records (max 1 (pos_part f.limit) - 1) (omega arith))
