-- ===== src/Detectors/Stage.antt =====
-- `DetectorStage` of src/pipelinex/detectors/detector_stage.py, over any detector and any
-- repository. `detect` keeps its state in `S`; a save in `R` may raise.
use pipelinex.Prelude.{
  ℕ, suc, ◌+◌, ◌≡◌, refl, String, List, [], ◌∷◌, Option, none, some, arith, inl, inr,
}
use Prim.Native.String.{◌++◌ as join}
use pipelinex.Prelude.Tests.{Option-cases}
use pipelinex.Exceptions.{ErrorKind}
use pipelinex.Models.{Value, LogRecord, AnomalyEvent, add_enrichment}
use pipelinex.Stages.{Outcome}

module _ {S R F : Type 0} (detect : S → LogRecord F → S × Option (AnomalyEvent F))
    (save : R → AnomalyEvent F → R × Option ErrorKind) (name : String) where
  pub record State : Type 0 where
    pub detector : S
    pub repository : R
    pub anomaly_count : ℕ

  -- After the save of an anomaly, which may have raised.
  abbrev pub after_save :
      State → LogRecord F → AnomalyEvent F → R → Option ErrorKind → State × Outcome F
  after_save s r a repository (some kind) =
      (record s { repository = repository }, Outcome.raised kind r)
  after_save s r a repository none = (
    record s { repository = repository; anomaly_count = suc s.anomaly_count },
    Outcome.returned (add_enrichment r (join "anomaly:" name) (Value.float a.severity_score)),
  )

  unfoldable pub process : State → LogRecord F → State × Outcome F
  process s r =
      let (detector, anomaly) = detect s.detector r in
      elim anomaly [
        | none ↦ (record s { detector = detector }, Outcome.returned r)
        | some a ↦
            let (repository, error) = save s.repository a in
            after_save (record s { detector = detector }) r a repository error
      ]

  abbrev pub run : State → List (LogRecord F) → State
  run s [] = s
  run s (r ∷ rs) = run ((process s r).0) rs

  -- The anomalies of the detector alone, and its state.
  abbrev pub events : S → List (LogRecord F) → List (AnomalyEvent F)
  events d [] = []
  events d (r ∷ rs) = elim ((detect d r).1) [
    | none ↦ events ((detect d r).0) rs
    | some a ↦ a ∷ events ((detect d r).0) rs
  ]

  abbrev pub run_alone : S → List (LogRecord F) → S
  run_alone d [] = d
  run_alone d (r ∷ rs) = run_alone ((detect d r).0) rs

  -- Saving events one after the other, with the number of saves that do not raise.
  abbrev pub save_all : R → List (AnomalyEvent F) → R
  save_all repository [] = repository
  save_all repository (a ∷ more) = save_all ((save repository a).0) more

  abbrev pub one_if_none : Option ErrorKind → ℕ
  one_if_none none = 1
  one_if_none (some kind) = 0

  abbrev pub saves : R → List (AnomalyEvent F) → ℕ
  saves repository [] = 0
  saves repository (a ∷ more) =
      one_if_none ((save repository a).1) + saves ((save repository a).0) more

  process_quiet :
      (s : State) (r : LogRecord F)
      → (detect s.detector r).1 ≡ none
      → (process s r).0 ≡ record s { detector = (detect s.detector r).0 }
  unfolding process
  process_quiet s r h = rw (process, h) refl

  process_fires :
      (s : State) (r : LogRecord F) (a : AnomalyEvent F)
      → (detect s.detector r).1 ≡ some a
      → (process s r).0 ≡ record {
        detector = (detect s.detector r).0;
        repository = (save s.repository a).0;
        anomaly_count = one_if_none ((save s.repository a).1) + s.anomaly_count;
      }
  unfolding process
  process_fires s r a h = elim (Option-cases ((save s.repository a).1)) [
    | inl saved ↦ rw (process, h, saved) (ground arith)
    | inr (kind, failed) ↦ rw (process, h, failed) (ground arith)
  ]

  -- The stage saves each anomaly of its detector, in order, goes on after a save that raises, and
  -- counts the saves that do not.
  pub run_stored :
      (s : State) (rs : List (LogRecord F))
      → run s rs ≡ record {
        detector = run_alone s.detector rs;
        repository = save_all s.repository (events s.detector rs);
        anomaly_count = s.anomaly_count + saves s.repository (events s.detector rs);
      }
  run_stored s [] = ground arith
  run_stored s (r ∷ rs) = elim (Option-cases ((detect s.detector r).1)) [
    | inl quiet ↦
        rw (run, process_quiet s r quiet, events, quiet)
          (run_stored (record s { detector = (detect s.detector r).0 }) rs)
    | inr (a, fires) ↦
        let next : State = record {
          detector = (detect s.detector r).0;
          repository = (save s.repository a).0;
          anomaly_count = one_if_none ((save s.repository a).1) + s.anomaly_count;
        } in
        let ih = run_stored next rs in
        rw (run, process_fires s r a fires, events, fires) (grind (arith, ih))
  ]
