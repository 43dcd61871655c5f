-- ===== src/Detectors/Cusum/Warmup.antt =====
-- The warm-up of src/pipelinex/detectors/cusum.py: what it fixes, and that it stays fixed.
use pipelinex.Prelude.{
  ap, sym, ◌∙◌, ℕ, suc, ◌<◌, ◌≡◌, refl, true, false, List, [], ◌∷◌, ◌++◌, Option, none, some, arith,
  inl, inr, append-nil, append_assoc,
}
use pipelinex.Prelude.Tests.{Option-cases, if◌then◌else◌, ltb}
use pipelinex.Prelude.Lists.{length, length-append, take}
use pipelinex.Floats.{Floats}
use pipelinex.Models.{LogRecord}
use pipelinex.Detectors.{metric_of, push, few_or_many}
use pipelinex.Detectors.Cusum.{
  Config, State, accepts, init, mean_of, sigma_of, calibrate, accumulate, detect_value, detect, run,
  metrics,
}

take-append_length {ℓ} : {A : Type ℓ} (xs ys : List A) → take (length xs) (xs ++ ys) ≡ xs
take-append_length [] ys = refl
take-append_length (x ∷ xs) ys = ap (λ l. x ∷ l) (take-append_length xs ys)

module _ (o : Floats) where
  -- The target and sigma of a state.
  abbrev pub fixed : State o → Option o.Carrier × Option o.Carrier
  fixed s = (s.target, s.sigma)

  accumulate-fixed :
      (c : Config o) (s : State o) (uid now : ℕ) (r : LogRecord o.Carrier)
      → (value target sigma : o.Carrier)
      → fixed ((accumulate o c s uid now r value target sigma).0) ≡ fixed s
  unfolding accumulate
  accumulate-fixed c s uid now r value target sigma = ground arith

  -- A fixed target and sigma stay.
  run-fixed :
      (c : Config o) (s : State o) (rs : List (ℕ × ℕ × LogRecord o.Carrier)) (t d : o.Carrier)
      → fixed s ≡ (some t, some d)
      → fixed ((run o c s rs).0) ≡ (some t, some d)
  unfolding detect detect_value
  run-fixed c s [] t d h = h
  run-fixed c s ((uid, now, r) ∷ rs) t d h =
      let target : s.target ≡ some t = ap (λ p. p.0) h in
      let sigma : s.sigma ≡ some d = ap (λ p. p.1) h in
      elim (Option-cases (metric_of o c.from_enrichment c.metric_key r)) [
        | inl absent ↦ rw (run, detect, absent) (run-fixed c s rs t d h)
        | inr (value, found) ↦
            rw (run, detect, found, target, sigma, detect_value)
              (run-fixed c ((accumulate o c s uid now r value t d).0) rs t d
                (accumulate-fixed c s uid now r value t d ∙ h))
      ]

  -- The state in the warm-up.
  abbrev pub warming : List o.Carrier → State o
  warming w = record (init o) { warmup = w }

  -- What the first `n` of all the values fix, once there are as many.
  abbrev pub fixed_by : ℕ → List o.Carrier → Option o.Carrier × Option o.Carrier
  fixed_by n values =
      if ltb (length values) n
      then (none, none)
      else (some (mean_of o (take n values)), some (sigma_of o (take n values)))

  fixed_by-append :
      (w rest : List o.Carrier)
      → fixed_by (length w) (w ++ rest) ≡ (some (mean_of o w), some (sigma_of o w))
  fixed_by-append w rest =
      let enough : ltb (length (w ++ rest)) (length w) ≡ false =
        ground (arith, length-append w rest) in
      rw (enough, take-append_length w rest) refl

  calibrate_short :
      (c : Config o) (w : List o.Carrier) (value : o.Carrier)
      → suc (length w) < c.warmup_samples
      → calibrate o c (warming w) value ≡ warming (w ++ value ∷ [])
  unfolding calibrate push
  calibrate_short c w value h = ground (arith, length-append w (value ∷ []))

  calibrate_full :
      (c : Config o) (w : List o.Carrier) (value : o.Carrier)
      → c.warmup_samples ≡ suc (length w)
      → fixed (calibrate o c (warming w) value)
        ≡ (some (mean_of o (w ++ value ∷ [])), some (sigma_of o (w ++ value ∷ [])))
  unfolding calibrate push
  calibrate_full c w value h = ground (arith, length-append w (value ∷ []))

  run-warming :
      (c : Config o) (w : List o.Carrier) (rs : List (ℕ × ℕ × LogRecord o.Carrier))
      → length w < c.warmup_samples
      → fixed ((run o c (warming w) rs).0) ≡ fixed_by c.warmup_samples (w ++ metrics o c rs)
  unfolding detect detect_value
  run-warming c w [] h = rw append-nil (ground arith)
  run-warming c w ((uid, now, r) ∷ rs) h =
      elim (Option-cases (metric_of o c.from_enrichment c.metric_key r)) [
        | inl absent ↦ rw (run, detect, metrics, absent) (run-warming c w rs h)
        | inr (value, found) ↦
            let w' = w ++ value ∷ [] in
            let one_more : length w' ≡ suc (length w) =
              omega (arith, length-append w (value ∷ [])) in
            let there : w ++ value ∷ metrics o c rs ≡ w' ++ metrics o c rs =
              sym (append_assoc w (value ∷ []) (metrics o c rs)) in
            elim (few_or_many c.warmup_samples (suc (length w))) [
              | inl last ↦
                  let size : c.warmup_samples ≡ suc (length w) = omega arith in
                  let now_fixed = calibrate_full c w value size in
                  rw (run, detect, metrics, found, detect_value, there)
                    (run-fixed c (calibrate o c (warming w) value) rs _ _ now_fixed
                      ∙ sym (rw (size ∙ sym one_more) (fixed_by-append w' (metrics o c rs))))
              | inr more ↦
                  rw
                    (
                      run,
                      detect,
                      metrics,
                      found,
                      detect_value,
                      there,
                      calibrate_short c w value more,
                    )
                    (run-warming c w' rs (omega arith))
            ]
      ]

  -- Once the constructor accepts the parameters, the target and sigma after any records are the
  -- mean and the deviation of the first `warmup_samples` values, and none before there are as many.
  run-warmup :
      (c : Config o)
      → accepts o c ≡ true
      → (rs : List (ℕ × ℕ × LogRecord o.Carrier))
      → fixed ((run o c (init o) rs).0) ≡ fixed_by c.warmup_samples (metrics o c rs)
  run-warmup c ok rs = run-warming c [] rs (ground arith)
