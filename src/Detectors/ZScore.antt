-- ===== src/Detectors/ZScore.antt =====
-- src/pipelinex/detectors/zscore.py: a value is scored against the window of the values before it.
use pipelinex.Prelude.{
  ℕ, suc, ◌-◌, ◌<◌, ◌≡◌, refl, String, Bool, true, false, List, [], ◌∷◌, ◌++◌, Option, none, some,
  arith, inl, inr,
}
use pipelinex.Prelude.Tests.{lt→ltb, Option-cases, if◌then◌else◌, leb, ltb}
use pipelinex.Prelude.Lists.{All, length, length-append}
use pipelinex.Floats.{Floats}
use pipelinex.Prelude.{min, map, append-nil, append_assoc}
use pipelinex.Prelude.Int.{ℤ}
use pipelinex.Models.{Value, LogRecord, AnomalyEvent}
use pipelinex.Detectors.{metric_of, push, last_entries, push-last_entries, length-drop, drop-nil}

module _ (o : Floats) where
  pub record Config : Type 0 where
    pub metric_key : String
    pub threshold : o.Carrier
    pub window_size : ℕ
    pub min_samples : ℕ
    pub from_enrichment : Bool

  -- The guards of the constructor.
  abbrev pub accepts : Config → Bool
  accepts c =
      if leb c.window_size 1
      then false
      else if o.le c.threshold o.zero
      then false
      else leb 2 c.min_samples

  -- `detect` builds an event from the record, the score, the value and the size of the window
  -- after the push; its identifier and its instant come from outside.
  abbrev pub event :
      Config → ℕ → ℕ → LogRecord o.Carrier → o.Carrier → o.Carrier → ℕ → AnomalyEvent o.Carrier
  event c uid now r score value size = record {
    id = uid;
    log_record_id = r.id;
    detector_name = "z_score";
    severity_score = o.abs score;
    detected_at = now;
    metadata =
        ("metric_key", Value.text c.metric_key)
        ∷ ("value", Value.float value)
        ∷ ("z_score", Value.float score)
        ∷ ("window_size", Value.int (ℤ.pos size))
        ∷ ("threshold", Value.float c.threshold)
        ∷ [];
  }

  abbrev pub mean_of : List o.Carrier → o.Carrier
  mean_of w = o.div (o.total w) (o.of_ℕ (length w))

  abbrev pub variance_of : List o.Carrier → o.Carrier
  variance_of w =
      let mean = mean_of w in
      o.div (o.total (map (λ x. o.square (o.sub x mean)) w)) (o.of_ℕ (length w))

  unfoldable pub z_score : Config → List o.Carrier → o.Carrier → Option o.Carrier
  z_score c w value =
      if ltb (length w) c.min_samples
      then none
      else let sigma = o.sqrt (variance_of w) in
        if o.eq sigma o.zero then none else some (o.div (o.sub value (mean_of w)) sigma)

  -- What `detect` returns for a value, from the score and the size of the window.
  unfoldable pub flag :
      Config
      → ℕ
      → ℕ
      → LogRecord o.Carrier
      → o.Carrier
      → ℕ
      → Option o.Carrier
      → Option (AnomalyEvent o.Carrier)
  flag c uid now r value size none = none
  flag c uid now r value size (some score) =
      if o.le (o.abs score) c.threshold then none else some (event c uid now r score value size)

  -- The state is the window.
  unfoldable pub detect :
      Config
      → List o.Carrier
      → ℕ
      → ℕ
      → LogRecord o.Carrier
      → List o.Carrier × Option (AnomalyEvent o.Carrier)
  detect c w uid now r = elim (metric_of o c.from_enrichment c.metric_key r) [
    | none ↦ (w, none)
    | some value ↦
        let w' = push c.window_size w value in
        (w', flag c uid now r value (length w') (z_score c w value))
  ]

  -- A run over records, each with the identifier and the instant of its event.
  abbrev pub run :
      Config
      → List o.Carrier
      → List (ℕ × ℕ × LogRecord o.Carrier)
      → List o.Carrier × List (Option (AnomalyEvent o.Carrier))
  run c w [] = (w, [])
  run c w ((uid, now, r) ∷ rs) =
      let step = detect c w uid now r in let rest = run c step.0 rs in (rest.0, step.1 ∷ rest.1)

  -- The metric values of a list of records, in order.
  abbrev pub metrics : Config → List (ℕ × ℕ × LogRecord o.Carrier) → List o.Carrier
  metrics c [] = []
  metrics c ((_, _, r) ∷ rs) = elim (metric_of o c.from_enrichment c.metric_key r) [
    | none ↦ metrics c rs
    | some value ↦ value ∷ metrics c rs
  ]

  -- The same answers with no state: each from the values of all the records before.
  abbrev pub answers :
      Config
      → List o.Carrier
      → List (ℕ × ℕ × LogRecord o.Carrier)
      → List (Option (AnomalyEvent o.Carrier))
  answers c before [] = []
  answers c before ((uid, now, r) ∷ rs) = elim (metric_of o c.from_enrichment c.metric_key r) [
    | none ↦ none ∷ answers c before rs
    | some value ↦
        let size = min c.window_size (suc (length before)) in
        flag c uid now r value size (z_score c (last_entries c.window_size before) value)
        ∷ answers c (before ++ value ∷ []) rs
  ]

  pub run-detect :
      (c : Config) (n : ℕ)
      → c.window_size ≡ suc n
      → (before : List o.Carrier) (rs : List (ℕ × ℕ × LogRecord o.Carrier))
      → run c (last_entries c.window_size before) rs
        ≡ (last_entries c.window_size (before ++ metrics c rs), answers c before rs)
  unfolding detect
  run-detect c n size before [] = rw append-nil refl
  run-detect c n size before ((uid, now, r) ∷ rs) =
      elim (Option-cases (metric_of o c.from_enrichment c.metric_key r)) [
        | inl absent ↦
            rw (run, detect, metrics, answers, absent, run-detect c n size before rs) refl
        | inr (value, found) ↦
            let ih = run-detect c n size (before ++ value ∷ []) rs in
            let pushed : push c.window_size (last_entries c.window_size before) value
                ≡ last_entries c.window_size (before ++ value ∷ []) =
              rw size (push-last_entries n before value) in
            let held : length (last_entries c.window_size (before ++ value ∷ []))
                ≡ min c.window_size (suc (length before)) =
              omega (
                arith,
                length-drop (length (before ++ value ∷ []) - c.window_size) (before ++ value ∷ []),
                length-append before (value ∷ []),
              ) in
            rw (run, detect, metrics, answers, found, pushed, held, ih, append_assoc) refl
      ]

  -- Once the constructor accepts the parameters, the detector answers each record as its definition
  -- says, from the values of all the records before it, and its window is the last of them.
  pub run-init :
      (c : Config)
      → accepts c ≡ true
      → (rs : List (ℕ × ℕ × LogRecord o.Carrier))
      → run c [] rs ≡ (last_entries c.window_size (metrics c rs), answers c [] rs)
  run-init c ok rs =
      let some_size : c.window_size ≡ suc (c.window_size - 1) = ground arith in
      let none_yet : last_entries {A = o.Carrier} c.window_size [] ≡ [] = drop-nil _ in
      ground (arith, none_yet, run-detect c (c.window_size - 1) some_size [] rs)

  short_window :
      (c : Config)
      → c.window_size < c.min_samples
      → (before : List o.Carrier) (value : o.Carrier)
      → z_score c (last_entries c.window_size before) value ≡ none
  unfolding z_score
  short_window c h before value =
      let short : ltb (length (last_entries c.window_size before)) c.min_samples ≡ true =
        lt→ltb _ _ (omega (arith, length-drop (length before - c.window_size) before)) in
      rw short refl

  never :
      (c : Config)
      → c.window_size < c.min_samples
      → (before : List o.Carrier) (rs : List (ℕ × ℕ × LogRecord o.Carrier))
      → All (λ e. e ≡ none) (answers c before rs)
  unfolding flag
  never c h before [] = tt
  never c h before ((uid, now, r) ∷ rs) =
      elim (Option-cases (metric_of o c.from_enrichment c.metric_key r)) [
        | inl absent ↦ rw (answers, absent) (refl, never c h before rs)
        | inr (value, found) ↦
            rw (answers, found, short_window c h before value)
              (refl, never c h (before ++ value ∷ []) rs)
      ]

  -- A detector that the constructor accepts with more `min_samples` than the window holds never
  -- flags a record.
  run-never :
      (c : Config)
      → accepts c ≡ true
      → c.window_size < c.min_samples
      → (rs : List (ℕ × ℕ × LogRecord o.Carrier)) → All (λ e. e ≡ none) ((run c [] rs).1)
  run-never c ok h rs = rw (run-init c ok rs) (never c h [] rs)
