-- ===== src/MemoryRepo.antt =====
-- src/pipelinex/persistence/memory_repo.py, with the filters of core/interfaces.py: three lists, a
-- filtered query with a limit, and a grouped count. `run_id_text` stands for `str(pipeline_run_id)`.
-- Every method runs under one lock, so a call is one step.
pub mod Query
pub mod Counts
mod Tests
use pipelinex.Prelude.{
  ℕ, suc, ◌+◌, ◌≤◌, String, Bool, true, false, List, [], ◌∷◌, ◌++◌, Option, none, some, map, not,
}
use pipelinex.Prelude.Tests.{if◌then◌else◌, leb, ltb}
use pipelinex.Prelude.Lists.{length}
use pipelinex.Prelude.Dict.{Dict, lookup, insert}
use pipelinex.Prelude.Equality.{◌=?◌, string_eq}
use pipelinex.Prelude.Int.{ℤ, pos_part, neg_part}
use pipelinex.Models.{severity_text, Value, LogRecord, AnomalyEvent, BlockTrace}

pub record QueryFilters : Type 0 where
  pub severity : Option String
  pub source : Option String
  pub pipeline_run_id : Option String
  pub after : Option ℕ
  pub before : Option ℕ
  pub limit : ℤ

pub record Aggregation : Type 0 where
  pub group_by : String
  pub metric : String

-- A filter that is absent passes; one that is given must be equal.
abbrev pub equals : Option String → String → Bool
equals none actual = true
equals (some wanted) actual = actual =? wanted

abbrev pub not_before : Option ℕ → Option ℕ → Bool
not_before none actual = true
not_before (some bound) none = false
not_before (some bound) (some at) = not (ltb at bound)

abbrev pub not_after : Option ℕ → Option ℕ → Bool
not_after none actual = true
not_after (some bound) none = false
not_after (some bound) (some at) = not (ltb bound at)

-- `len(results) >= limit`
abbrev pub reached : ℤ → ℕ → Bool
reached limit n = leb (pos_part limit) (n + neg_part limit)

module _ (F : Type 0) where
  pub record Repository : Type 0 where
    pub records : List (LogRecord F)
    pub traces : List BlockTrace
    pub anomalies : List (AnomalyEvent F)

  abbrev pub init : Repository
  init = record { records = []; traces = []; anomalies = [] }

  unfoldable pub save : Repository → LogRecord F → Repository
  save s r = record s { records = s.records ++ r ∷ [] }

  unfoldable pub save_batch : Repository → List (LogRecord F) → Repository
  save_batch s rs = record s { records = s.records ++ rs }

  unfoldable pub save_trace : Repository → BlockTrace → Repository
  save_trace s t = record s { traces = s.traces ++ t ∷ [] }

  unfoldable pub save_trace_batch : Repository → List BlockTrace → Repository
  save_trace_batch s ts = record s { traces = s.traces ++ ts }

  unfoldable pub save_anomaly : Repository → AnomalyEvent F → Repository
  save_anomaly s a = record s { anomalies = s.anomalies ++ a ∷ [] }

  unfoldable pub clear : Repository → Repository
  clear s = record { records = []; traces = []; anomalies = [] }

  -- The five guards of the loop, each of which may `continue`.
  abbrev pub matches : (Option ℕ → String) → QueryFilters → LogRecord F → Bool
  matches run_id_text f r =
      if not (equals f.severity (severity_text r.severity))
      then false
      else if not (equals f.source r.source)
      then false
      else if not (equals f.pipeline_run_id (run_id_text r.pipeline_run_id))
      then false
      else if not (not_before f.after r.timestamp)
      then false
      else not_after f.before r.timestamp

  -- The loop over the records, with what is found so far.
  abbrev pub collect :
      (Option ℕ → String)
      → QueryFilters
      → List (LogRecord F)
      → List (LogRecord F)
      → List (LogRecord F)
  collect run_id_text f found [] = found
  collect run_id_text f found (r ∷ rs) =
      let found' = found ++ r ∷ [] in
      let skipped = collect run_id_text f found rs in
      let more = collect run_id_text f found' rs in
      if not (matches run_id_text f r)
      then skipped
      else if reached f.limit (length found')
      then found'
      else more

  unfoldable pub query : (Option ℕ → String) → Repository → QueryFilters → List (LogRecord F)
  query run_id_text s f = collect run_id_text f [] s.records

  -- `str(r.severity) if group_by == "severity" else r.source`
  abbrev pub key_of : String → LogRecord F → String
  key_of group_by r = if group_by =? "severity" then severity_text r.severity else r.source

-- `buckets[key] += 1`, where a missing key counts 0.
abbrev pub count_one : Dict String ℕ → String → Dict String ℕ
count_one buckets key = insert key (elim (lookup key buckets) [ none ↦ 1 | some n ↦ suc n ]) buckets

abbrev pub tally : Dict String ℕ → List String → Dict String ℕ
tally buckets [] = buckets
tally buckets (key ∷ keys) = tally (count_one buckets key) keys

-- `Counter.most_common()`: by falling count, equal ones in the order of the dict.
abbrev pub place : String × ℕ → List (String × ℕ) → List (String × ℕ)
place x [] = x ∷ []
place x (y ∷ ys) = if leb (y.1) (x.1) then x ∷ y ∷ ys else y ∷ place x ys

abbrev pub most_common : Dict String ℕ → List (String × ℕ)
most_common [] = []
most_common (x ∷ xs) = place x (most_common xs)

-- A row of the result: `{group_by: key, "count": count}`.
abbrev pub row_of : (F : Type 0) → String → String × ℕ → Dict String (Value F)
row_of F group_by (key, count) =
    (group_by, Value.text key) ∷ ("count", Value.int (ℤ.pos count)) ∷ []

-- The result is none where the source raises `NotImplementedError`.
module _ (F : Type 0) where
  unfoldable pub aggregate : Repository F → Aggregation → Option (List (Dict String (Value F)))
  aggregate s agg =
      let buckets = tally [] (map (key_of F agg.group_by) s.records) in
      let rows = map (row_of F agg.group_by) (most_common buckets) in
      if not (agg.metric =? "count")
      then none
      else if not (if agg.group_by =? "severity" then true else agg.group_by =? "source")
      then none
      else some rows
