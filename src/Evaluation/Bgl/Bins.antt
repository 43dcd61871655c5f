-- ===== src/Evaluation/Bgl/Bins.antt =====
-- What `_aggregate` of scripts/evaluate_bgl_point.py counts.
use pipelinex.Prelude.{
  ℕ, suc, ◌+◌, ◌<◌, String, Bool, true, false, List, [], ◌∷◌, Option, none, some, ◌≡◌, refl, arith,
  inl, inr,
}
use pipelinex.Prelude.Tests.{if◌then◌else◌, ◌==◌, Bool-cases, Option-cases}
use pipelinex.Prelude.Lists.{total}
use pipelinex.Prelude.Dict.{lookup, lookup-insert, Distinct, insert-Distinct}
use pipelinex.Prelude.Equality.{◌=?◌, nat_eq, string_eq, =?-cases}
use pipelinex.Models.{LogRecord}
use pipelinex.Stages.Parsing.{Parsed}
use pipelinex.Training.{rstrip_feed, capped}
use pipelinex.Evaluation.Bgl.{
  window_start, window_of, Aggregate, no_windows, rate_of, add_sighting, is_alert,
  aggregate_stamped, aggregate_parsed, aggregate_line, aggregate,
}

-- A line that is read, as the counts see it: its window, with whether it is an alert, or nothing.
pub data Sighting : Type 0 where
  nothing skipped : Sighting
  seen : ℕ → Bool → Sighting

module _ {F : Type 0} (parse : String → Parsed F) (w : ℕ) where
  abbrev stamped : Option ℕ → LogRecord F → Sighting
  stamped none r = Sighting.nothing
  stamped (some ts) r = Sighting.seen (window_start w ts) (is_alert r)

  abbrev parsed : Parsed F → Sighting
  parsed (Parsed.rejects kind) = Sighting.skipped
  parsed (Parsed.parses r) = stamped r.timestamp r

  abbrev pub sighting : String → Sighting
  sighting line =
      let raw = rstrip_feed line in if raw =? "" then Sighting.nothing else parsed (parse raw)

  -- The lines before the cap.
  abbrev pub sightings : Option ℕ → ℕ → List String → List Sighting
  sightings max_lines i [] = []
  sightings max_lines i (line ∷ lines) =
      let rest = sighting line ∷ sightings max_lines (suc i) lines in
      if capped max_lines i then [] else rest

-- The number of lines in a window, and whether one of them is an alert.
abbrev pub in_window : ℕ → Sighting → ℕ
in_window k (Sighting.seen window alert) = if k =? window then 1 else 0
in_window k _ = 0

abbrev pub alert_in : ℕ → List Sighting → Bool
alert_in k [] = false
alert_in k (Sighting.seen window alert ∷ rest) =
    if k =? window then if alert then true else alert_in k rest else alert_in k rest
alert_in k (Sighting.nothing ∷ rest) = alert_in k rest
alert_in k (Sighting.skipped ∷ rest) = alert_in k rest

abbrev pub is_skipped : Sighting → ℕ
is_skipped Sighting.skipped = 1
is_skipped _ = 0

abbrev pub is_seen : Sighting → ℕ
is_seen (Sighting.seen window alert) = 1
is_seen _ = 0

abbrev note : Sighting → Aggregate → Aggregate
note Sighting.nothing s = s
note Sighting.skipped s = record s { n_skipped = s.n_skipped + 1 }
note (Sighting.seen window alert) s = add_sighting window alert s

abbrev note_all : List Sighting → Aggregate → Aggregate
note_all [] s = s
note_all (x ∷ rest) s = note_all rest (note x s)

module _ {F : Type 0} (parse : String → Parsed F) (w : ℕ) (positive : (w == 0) ≡ false) where
  aggregate_stamped-note :
      (t : Option ℕ) (r : LogRecord F) (s : Aggregate)
      → aggregate_stamped w t r s ≡ some (note (stamped parse w t r) s)
  aggregate_stamped-note none r s = refl
  aggregate_stamped-note (some ts) r s = rw (aggregate_stamped, window_of, positive) refl

  aggregate_line-note :
      (line : String) (s : Aggregate)
      → aggregate_line parse w line s ≡ some (note (sighting parse w line) s)
  aggregate_line-note line s = elim (Bool-cases (rstrip_feed line =? "")) [
    | inl empty ↦ rw (aggregate_line, sighting, empty) refl
    | inr text ↦ rw (aggregate_line, sighting, text) (go (parse (rstrip_feed line)))
  ]
    where
      go : (p : Parsed F) → aggregate_parsed w p s ≡ some (note (parsed parse w p) s)
      go (Parsed.rejects kind) = refl
      go (Parsed.parses r) = aggregate_stamped-note r.timestamp r s

  aggregate-note_all :
      (max_lines : Option ℕ) (i : ℕ) (lines : List String) (s : Aggregate)
      → aggregate parse w max_lines i lines s
        ≡ some (note_all (sightings parse w max_lines i lines) s)
  unfolding aggregate
  aggregate-note_all max_lines i [] s = refl
  aggregate-note_all max_lines i (line ∷ lines) s = elim (Bool-cases (capped max_lines i)) [
    | inl over ↦ rw (over, sightings) refl
    | inr under ↦
        rw (under, sightings, aggregate_line-note line s)
          (aggregate-note_all max_lines (suc i) lines (note (sighting parse w line) s))
  ]

-- A count that is not there stands for none.
abbrev pub some_of : ℕ → Option ℕ
some_of n = if n == 0 then none else some n

-- A count with more behind it.
abbrev more_of : Option ℕ → ℕ → Option ℕ
more_of none n = some_of n
more_of (some a) n = some (a + n)

note_all-bins :
    (k : ℕ) (xs : List Sighting) (s : Aggregate)
    → lookup k (note_all xs s).bins ≡ more_of (lookup k s.bins) (total (in_window k) xs)
note_all-bins k [] s = ground arith
note_all-bins k (Sighting.nothing ∷ xs) s = ground (arith, note_all-bins k xs s)
note_all-bins k (Sighting.skipped ∷ xs) s =
    ground (arith, note_all-bins k xs (note Sighting.skipped s))
note_all-bins k (Sighting.seen window alert ∷ xs) s =
    let rate = rate_of (lookup window s.bins) + 1 in
    let ih = note_all-bins k xs (add_sighting window alert s) in
    let here = lookup-insert window k rate s.bins in
    elim (=?-cases k window) [
      | inl (same, hit) ↦ elim (Option-cases (lookup window s.bins)) [
        | inl absent ↦
            let absent' : lookup k s.bins ≡ none = rw same absent in
            ground (arith, ih, here, hit, absent, absent')
        | inr (n, there) ↦
            let there' : lookup k s.bins ≡ some n = rw same there in
            ground (arith, ih, here, hit, there, there')
      ]
      | inr (other, miss) ↦ ground (arith, ih, here, miss)
    ]

note_all-labels :
    (k : ℕ) (xs : List Sighting) (s : Aggregate)
    → lookup k (note_all xs s).labels ≡ (if alert_in k xs then some true else lookup k s.labels)
note_all-labels k [] s = refl
note_all-labels k (Sighting.nothing ∷ xs) s = note_all-labels k xs s
note_all-labels k (Sighting.skipped ∷ xs) s = note_all-labels k xs (note Sighting.skipped s)
note_all-labels k (Sighting.seen window alert ∷ xs) s = ground (
  arith,
  note_all-labels k xs (add_sighting window alert s),
  lookup-insert window k true s.labels,
)

note_all-n_skipped :
    (xs : List Sighting) (s : Aggregate)
    → (note_all xs s).n_skipped ≡ s.n_skipped + total is_skipped xs
note_all-n_skipped [] s = omega arith
note_all-n_skipped (Sighting.nothing ∷ xs) s = omega (arith, note_all-n_skipped xs s)
note_all-n_skipped (Sighting.skipped ∷ xs) s =
    omega (arith, note_all-n_skipped xs (note Sighting.skipped s))
note_all-n_skipped (Sighting.seen window alert ∷ xs) s =
    omega (arith, note_all-n_skipped xs (add_sighting window alert s))

note_all-Distinct :
    (xs : List Sighting) (s : Aggregate) → Distinct s.bins → Distinct (note_all xs s).bins
note_all-Distinct [] s h = h
note_all-Distinct (Sighting.nothing ∷ xs) s h = note_all-Distinct xs s h
note_all-Distinct (Sighting.skipped ∷ xs) s h = note_all-Distinct xs (note Sighting.skipped s) h
note_all-Distinct (Sighting.seen window alert ∷ xs) s h =
    note_all-Distinct xs (add_sighting window alert s)
      (insert-Distinct window (rate_of (lookup window s.bins) + 1) s.bins h)

-- The counts of a list of lines.
pub record IsTally (s : Aggregate) (xs : List Sighting) : Type 0 where
  pub counts : (k : ℕ) → lookup k s.bins ≡ some_of (total (in_window k) xs)
  pub alerts : (k : ℕ) → lookup k s.labels ≡ (if alert_in k xs then some true else none)
  pub skips : s.n_skipped ≡ total is_skipped xs
  pub each_once : Distinct s.bins

-- A log is aggregated, and the counts are those of the lines before the cap: a window is in the
-- bins with the number of its lines if it has any, it is labelled exactly if one of them is an
-- alert, and the lines that do not parse are counted, where a window is at least one second.
pub aggregate-IsTally :
    {F : Type 0} (parse : String → Parsed F) (w : ℕ) (max_lines : Option ℕ) (lines : List String)
    → 0 < w
    → (s : Aggregate) × (aggregate parse w max_lines 0 lines no_windows ≡ some s)
      × IsTally s (sightings parse w max_lines 0 lines)
aggregate-IsTally parse w max_lines lines h =
    let xs = sightings parse w max_lines 0 lines in
    (
      note_all xs no_windows,
      aggregate-note_all parse w (ground arith) max_lines 0 lines no_windows,
      record {
        counts = λ k. note_all-bins k xs no_windows;
        alerts = λ k. note_all-labels k xs no_windows;
        skips = omega (arith, note_all-n_skipped xs no_windows);
        each_once = note_all-Distinct xs no_windows tt;
      },
    )
