-- ===== src/Detectors/Cusum/Sums.antt =====
-- The sums of src/pipelinex/detectors/cusum.py stay between zero and the threshold.
use pipelinex.Prelude.{ℕ, ◌≡◌, true, false, List, [], ◌∷◌, Option, none, some, arith, inl, inr}
use pipelinex.Prelude.Tests.{Option-cases, Bool-cases}
use pipelinex.Floats.{Floats, IsOrder, max_of}
use pipelinex.Models.{LogRecord}
use pipelinex.Detectors.{metric_of}
use pipelinex.Detectors.Cusum.{
  Config, State, accepts, init, calibrate, sums, alarm, accumulate, detect_value, detect, run,
}

module _ (o : Floats) where
  abbrev pub Between : o.Carrier → o.Carrier → o.Carrier → Type 0
  Between low high x = (o.lt x low ≡ false) × (o.lt high x ≡ false)

  abbrev pub IsBounded : Config o → State o → Type 0
  IsBounded c s = Between o.zero c.threshold s.s_high × Between o.zero c.threshold s.s_low

module _ (o : Floats) (ord : IsOrder o) where
  not_below : (x : o.Carrier) → o.lt (max_of o o.zero x) o.zero ≡ false
  not_below x = ground (arith, ord.lt_asym o.zero x, ord.lt_irrefl o.zero)

  zero_Between : (c : Config o) → accepts o c ≡ true → Between o o.zero c.threshold o.zero
  zero_Between c ok = (
    ord.lt_irrefl o.zero,
    ground (arith, ord.le_iff c.threshold o.zero, ord.lt_asym o.zero c.threshold),
  )

  accumulate-IsBounded :
      (c : Config o)
      → accepts o c ≡ true
      → (s : State o) (uid now : ℕ) (r : LogRecord o.Carrier) (value target sigma : o.Carrier)
      → IsBounded o c ((accumulate o c s uid now r value target sigma).0)
  unfolding accumulate
  accumulate-IsBounded c ok s uid now r value target sigma =
      elim (Bool-cases (alarm o c (sums o c s target sigma value))) [
        | inl high ↦ rw high (zero_Between c ok, zero_Between c ok)
        | inr low ↦ rw low ((not_below _, ground arith), (not_below _, ground arith))
      ]

  calibrate-IsBounded :
      (c : Config o) (s : State o) (value : o.Carrier)
      → IsBounded o c s
      → IsBounded o c (calibrate o c s value)
  unfolding calibrate
  calibrate-IsBounded c s value h = ground (arith, h)

  detect_value-IsBounded :
      (c : Config o)
      → accepts o c ≡ true
      → (s : State o) (uid now : ℕ) (r : LogRecord o.Carrier) (value : o.Carrier)
      → (target sigma : Option o.Carrier) → IsBounded o c s
      → IsBounded o c ((detect_value o c s uid now r value target sigma).0)
  unfolding detect_value
  detect_value-IsBounded c ok s uid now r value (some t) (some d) h =
      accumulate-IsBounded c ok s uid now r value t d
  detect_value-IsBounded c ok s uid now r value (some t) none h = calibrate-IsBounded c s value h
  detect_value-IsBounded c ok s uid now r value none d h = calibrate-IsBounded c s value h

  run-IsBounded_from :
      (c : Config o)
      → accepts o c ≡ true
      → (s : State o) (rs : List (ℕ × ℕ × LogRecord o.Carrier)) → IsBounded o c s
      → IsBounded o c ((run o c s rs).0)
  unfolding detect
  run-IsBounded_from c ok s [] h = h
  run-IsBounded_from c ok s ((uid, now, r) ∷ rs) h =
      elim (Option-cases (metric_of o c.from_enrichment c.metric_key r)) [
        | inl absent ↦ rw (run, detect, absent) (run-IsBounded_from c ok s rs h)
        | inr (value, found) ↦
            rw (run, detect, found)
              (run-IsBounded_from c ok ((detect_value o c s uid now r value s.target s.sigma).0) rs
                (detect_value-IsBounded c ok s uid now r value s.target s.sigma h))
      ]

  -- Where the comparisons are those of a total order and the constructor accepts the parameters,
  -- after any records both sums are neither below zero nor above the threshold.
  pub run-IsBounded :
      (c : Config o)
      → accepts o c ≡ true
      → (rs : List (ℕ × ℕ × LogRecord o.Carrier)) → IsBounded o c ((run o c (init o) rs).0)
  run-IsBounded c ok rs = run-IsBounded_from c ok (init o) rs (zero_Between c ok, zero_Between c ok)
