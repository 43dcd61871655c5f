-- ===== src/Detectors/Iqr/Runs.antt =====
-- Runs of the detector of src/pipelinex/detectors/iqr.py, against answers that need no state.
use pipelinex.Prelude.{
  ℕ, suc, ◌-◌, ◌≡◌, refl, true, List, [], ◌∷◌, ◌++◌, Option, none, some, arith, inl, inr, min,
  append-nil, append_assoc,
}
use pipelinex.Prelude.Tests.{Option-cases}
use pipelinex.Prelude.Lists.{length, length-append}
use pipelinex.Floats.{Floats, IsOrder}
use pipelinex.Models.{LogRecord, AnomalyEvent}
use pipelinex.Detectors.{metric_of, last_entries, push-last_entries, length-drop, drop-nil}
use pipelinex.Detectors.Iqr.{Config, State, accepts, add, bounds, flag, detect, reset}
use pipelinex.Detectors.Iqr.Sorted.{add_views}
use pipelinex.Floats.Sorted.{in_order}

module _ (o : Floats) where
  -- A run over records, each with the identifier and the instant of its event.
  abbrev pub run :
      Config o
      → State o
      → List (ℕ × ℕ × LogRecord o.Carrier)
      → State o × List (Option (AnomalyEvent o.Carrier))
  run c s [] = (s, [])
  run c s ((uid, now, r) ∷ rs) =
      let step = detect o c s uid now r in let rest = run c step.0 rs in (rest.0, step.1 ∷ rest.1)

  -- The metric values of a list of records, in order.
  abbrev pub metrics : Config o → List (ℕ × ℕ × LogRecord o.Carrier) → List o.Carrier
  metrics c [] = []
  metrics c ((_, _, r) ∷ rs) = elim (metric_of o c.from_enrichment c.metric_key r) [
    | none ↦ metrics c rs
    | some value ↦ value ∷ metrics c rs
  ]

module _ (o : Floats) (ord : IsOrder o) where
  -- The window with its values in order.
  abbrev pub views : List o.Carrier → State o
  views w = record { window = w; sorted = in_order o w }

  -- The answers with no state: the fences come from the last values before, put in order.
  abbrev pub answers :
      Config o
      → List o.Carrier
      → List (ℕ × ℕ × LogRecord o.Carrier)
      → List (Option (AnomalyEvent o.Carrier))
  answers c before [] = []
  answers c before ((uid, now, r) ∷ rs) = elim (metric_of o c.from_enrichment c.metric_key r) [
    | none ↦ none ∷ answers c before rs
    | some value ↦
        let size = min c.window_size (suc (length before)) in
        let fences = bounds o c (in_order o (last_entries c.window_size before)) in
        flag o c uid now r value size fences ∷ answers c (before ++ value ∷ []) rs
  ]

  run-detect :
      (c : Config o) (n : ℕ)
      → c.window_size ≡ suc n
      → (before : List o.Carrier) (rs : List (ℕ × ℕ × LogRecord o.Carrier))
      → run o c (views (last_entries c.window_size before)) rs
        ≡ (views (last_entries c.window_size (before ++ metrics o c rs)), answers c before rs)
  unfolding detect
  run-detect c n size before [] = rw append-nil refl
  run-detect c n size before ((uid, now, r) ∷ rs) =
      elim (Option-cases (metric_of o c.from_enrichment c.metric_key r)) [
        | inl absent ↦
            rw (run, detect, metrics, answers, absent, run-detect c n size before rs) refl
        | inr (value, found) ↦
            let after = before ++ value ∷ [] in
            let pushed : add o c.window_size (views (last_entries c.window_size before)) value
                ≡ views (last_entries c.window_size after) =
              rw size (rw (add_views o ord n _ value, push-last_entries n before value) refl) in
            let held : length (last_entries c.window_size after)
                ≡ min c.window_size (suc (length before)) =
              omega (
                arith,
                length-drop (length after - c.window_size) after,
                length-append before (value ∷ []),
              ) in
            let ih = run-detect c n size after rs in
            rw (run, detect, metrics, answers, found, pushed, held, ih, append_assoc) refl
      ]

  -- Where the comparisons are those of a total order and the constructor accepts the parameters,
  -- the sorted view is the window in order after any records, the window is the last of the
  -- values, and each record is answered from the values of all the records before it.
  pub run-reset :
      (c : Config o)
      → accepts o c ≡ true
      → (s : State o) (rs : List (ℕ × ℕ × LogRecord o.Carrier))
      → run o c (reset o s) rs
        ≡ (views (last_entries c.window_size (metrics o c rs)), answers c [] rs)
  run-reset c ok s rs =
      let some_size : c.window_size ≡ suc (c.window_size - 1) = ground arith in
      let none_yet : last_entries {A = o.Carrier} c.window_size [] ≡ [] = drop-nil _ in
      let from_nothing = run-detect c (c.window_size - 1) some_size [] rs in cc
