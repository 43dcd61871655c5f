-- ===== src/MemoryRepo/Counts.antt =====
-- The grouped count of src/pipelinex/persistence/memory_repo.py: each key once, with the number of
-- its records, by falling count.
use pipelinex.Prelude.{
  ℕ, suc, ◌+◌, ◌≤◌, ◌≡◌, ◌⊎◌, refl, String, List, [], ◌∷◌, none, some, map, arith, inl, inr,
}
use pipelinex.Prelude.Tests.{if◌then◌else◌, Bool-cases, leb, leb→le}
use pipelinex.Prelude.Lists.{length, keep_if, All, All-weaken}
use pipelinex.Prelude.Dict.{Dict, lookup, Distinct, lookup-insert, insert-Distinct}
use pipelinex.Prelude.Equality.{◌=?◌, string_eq}
use pipelinex.MemoryRepo.{
  Repository, Aggregation, key_of, count_one, tally, place, most_common, row_of, aggregate,
}

-- How often a key stands in a list.
abbrev pub occurrences : String → List String → ℕ
occurrences key keys = length (keep_if (λ k. key =? k) keys)

abbrev pub count_at : String → Dict String ℕ → ℕ
count_at key rows = elim (lookup key rows) [ none ↦ 0 | some n ↦ n ]

abbrev pub Descending : List (String × ℕ) → Type 0
Descending [] = Unit
Descending (x ∷ xs) = All (λ y. (y.1) ≤ (x.1)) xs × Descending xs

abbrev pub IsGroupCount : List String → List (String × ℕ) → Type 0
IsGroupCount keys rows =
    Distinct rows × Descending rows × ((key : String) → count_at key rows ≡ occurrences key keys)

lookup-place :
    (k j : String) (n : ℕ) (d : List (String × ℕ))
    → lookup j d ≡ none
    → lookup k (place (j, n) d) ≡ (if k =? j then some n else lookup k d)
lookup-place k j n [] h = refl
lookup-place k j n ((i, m) ∷ d) h = ground (
  arith,
  string_eq.beq_iff k j,
  string_eq.beq_iff k i,
  string_eq.beq_iff j i,
  lookup-place k j n d,
)

place-Distinct :
    (j : String) (n : ℕ) (d : List (String × ℕ))
    → lookup j d ≡ none
    → Distinct d
    → Distinct (place (j, n) d)
place-Distinct j n [] h hd = (refl, tt)
place-Distinct j n ((i, m) ∷ d) h hd = ground (
  arith,
  string_eq.beq_iff j i,
  string_eq.beq_iff i j,
  lookup-place i j n d,
  place-Distinct j n d,
)

All-place :
    (n : ℕ) (x : String × ℕ) (d : List (String × ℕ))
    → (x.1) ≤ n
    → All (λ y. (y.1) ≤ n) d
    → All (λ y. (y.1) ≤ n) (place x d)
All-place n x [] h hd = (h, tt)
All-place n x (y ∷ d) h hd = ground (arith, All-place n x d h hd.1, hd)

place-Descending : (x : String × ℕ) (d : List (String × ℕ)) → Descending d → Descending (place x d)
place-Descending x [] h = (tt, tt)
place-Descending x (y ∷ d) h = elim (Bool-cases (leb (y.1) (x.1))) [
  | inl first ↦
      let lower : (y.1) ≤ (x.1) = leb→le _ _ first in
      rw (place, first) ((lower, All-weaken _ _ d (λ z hz. omega (arith, hz, lower)) h.0), h)
  | inr later ↦ rw (place, later) (All-place (y.1) x d (ground arith) h.0, place-Descending x d h.1)
]

lookup-most_common :
    (k : String) (d : Dict String ℕ) → Distinct d → lookup k (most_common d) ≡ lookup k d
lookup-most_common k [] h = refl
lookup-most_common k ((j, n) ∷ d) h = ground (
  arith,
  lookup-most_common k d h.1,
  lookup-most_common j d h.1,
  lookup-place k j n (most_common d),
)

most_common-Distinct : (d : Dict String ℕ) → Distinct d → Distinct (most_common d)
most_common-Distinct [] h = tt
most_common-Distinct ((j, n) ∷ d) h = ground (
  arith,
  lookup-most_common j d h.1,
  most_common-Distinct d h.1,
  place-Distinct j n (most_common d),
)

most_common-Descending : (d : Dict String ℕ) → Descending (most_common d)
most_common-Descending [] = tt
most_common-Descending (x ∷ d) = place-Descending x (most_common d) (most_common-Descending d)

tally-Distinct : (b : Dict String ℕ) (keys : List String) → Distinct b → Distinct (tally b keys)
tally-Distinct b [] h = h
tally-Distinct b (key ∷ keys) h = tally-Distinct (count_one b key) keys (insert-Distinct key _ b h)

count_at-count_one :
    (k : String) (b : Dict String ℕ) (key : String)
    → count_at k (count_one b key) ≡ count_at k b + (if k =? key then 1 else 0)
count_at-count_one k b key =
    let written = lookup-insert key k (elim (lookup key b) [ none ↦ 1 | some n ↦ suc n ]) b in
    ground (arith, string_eq.beq_iff k key, written)

count_at-tally :
    (k : String) (b : Dict String ℕ) (keys : List String)
    → count_at k (tally b keys) ≡ count_at k b + occurrences k keys
count_at-tally k b [] = omega arith
count_at-tally k b (key ∷ keys) =
    let ih = count_at-tally k (count_one b key) keys in
    let one = count_at-count_one k b key in ground (arith, ih, one)

most_common-tally-IsGroupCount :
    (keys : List String) → IsGroupCount keys (most_common (tally [] keys))
most_common-tally-IsGroupCount keys =
    let once = tally-Distinct [] keys tt in
    (
      most_common-Distinct (tally [] keys) once,
      most_common-Descending (tally [] keys),
      λ k. ground (arith, lookup-most_common k (tally [] keys) once, count_at-tally k [] keys),
    )

-- An aggregation returns rows for a count by severity or by source: each key once, with
-- the number of the records that have it, by falling count.
pub aggregate_lem :
    (F : Type 0) (s : Repository F) (agg : Aggregation)
    → (agg.metric ≡ "count")
    → (agg.group_by ≡ "severity") ⊎ (agg.group_by ≡ "source")
    → (rows : List (String × ℕ)) × IsGroupCount (map (key_of F agg.group_by) s.records) rows
      × (aggregate F s agg ≡ some (map (row_of F agg.group_by) rows))
unfolding aggregate
aggregate_lem F s agg metric (inl severity) = (
  _,
  most_common-tally-IsGroupCount (map (key_of F agg.group_by) s.records),
  rw (metric, severity) refl,
)
aggregate_lem F s agg metric (inr source) = (
  _,
  most_common-tally-IsGroupCount (map (key_of F agg.group_by) s.records),
  rw (metric, source) refl,
)
