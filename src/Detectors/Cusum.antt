-- ===== src/Detectors/Cusum.antt =====
-- src/pipelinex/detectors/cusum.py: a warm-up that fixes the target, then two cumulative sums.
pub mod Warmup
pub mod Sums
use pipelinex.Prelude.{ℕ, String, Bool, true, false, List, [], ◌∷◌, Option, none, some, map}
use pipelinex.Prelude.Tests.{if◌then◌else◌, leb, ltb}
use pipelinex.Prelude.Lists.{length}
use pipelinex.Floats.{Floats, max_of}
use pipelinex.Models.{Value, LogRecord, AnomalyEvent}
use pipelinex.Detectors.{metric_of, push}

module _ (o : Floats) where
  pub record Config : Type 0 where
    pub metric_key : String
    pub threshold : o.Carrier
    pub slack : o.Carrier
    pub warmup_samples : ℕ
    pub from_enrichment : Bool

  -- The guards of the constructor.
  abbrev pub accepts : Config → Bool
  accepts c =
      if o.le c.threshold o.zero
      then false
      else if o.lt c.slack o.zero
      then false
      else leb 2 c.warmup_samples

  pub record State : Type 0 where
    pub warmup : List o.Carrier
    pub target : Option o.Carrier
    pub sigma : Option o.Carrier
    pub s_high : o.Carrier
    pub s_low : o.Carrier

  abbrev pub init : State
  init = record { warmup = []; target = none; sigma = none; s_high = o.zero; s_low = o.zero }

  abbrev pub reset : State → State
  reset s = record { warmup = []; target = none; sigma = none; s_high = o.zero; s_low = o.zero }

  abbrev pub mean_of : List o.Carrier → o.Carrier
  mean_of w = o.div (o.total w) (o.of_ℕ (length w))

  -- `max(variance ** 0.5, 1e-12)`
  abbrev pub sigma_of : List o.Carrier → o.Carrier
  sigma_of w =
      let mean = mean_of w in
      let variance = o.div (o.total (map (λ x. o.square (o.sub x mean)) w)) (o.of_ℕ (length w)) in
      max_of o (o.root variance) o.tiny

  -- A sample of the warm-up; the last one fixes the target and sigma.
  unfoldable pub calibrate : Config → State → o.Carrier → State
  calibrate c s value =
      let w = push c.warmup_samples s.warmup value in
      if ltb (length w) c.warmup_samples
      then record s { warmup = w }
      else record s { warmup = w; target = some (mean_of w); sigma = some (sigma_of w) }

  -- Both sums after a value, the upper one first.
  abbrev pub sums : Config → State → o.Carrier → o.Carrier → o.Carrier → o.Carrier × o.Carrier
  sums c s target sigma value =
      let deviation = o.div (o.sub value target) sigma in
      (
        max_of o o.zero (o.sub (o.add s.s_high deviation) c.slack),
        max_of o o.zero (o.sub (o.sub s.s_low deviation) c.slack),
      )

  abbrev pub alarm : Config → o.Carrier × o.Carrier → Bool
  alarm c (high, low) = if o.lt c.threshold high then true else o.lt c.threshold low

  -- The event's identifier and its instant come from outside.
  abbrev pub event :
      Config
      → ℕ
      → ℕ
      → LogRecord o.Carrier
      → o.Carrier
      → o.Carrier
      → o.Carrier
      → o.Carrier × o.Carrier
      → AnomalyEvent o.Carrier
  event c uid now r value target sigma (high, low) = record {
    id = uid;
    log_record_id = r.id;
    detector_name = "cusum";
    severity_score = max_of o high low;
    detected_at = now;
    metadata =
        ("metric_key", Value.text c.metric_key)
        ∷ ("value", Value.float value)
        ∷ ("target", Value.float target)
        ∷ ("sigma", Value.float sigma)
        ∷ ("s_high", Value.float high)
        ∷ ("s_low", Value.float low)
        ∷ ("direction", Value.text (if o.lt c.threshold high then "up" else "down"))
        ∷ ("threshold", Value.float c.threshold)
        ∷ [];
  }

  -- A value after the warm-up: an alarm sets both sums back.
  unfoldable pub accumulate :
      Config
      → State
      → ℕ
      → ℕ
      → LogRecord o.Carrier
      → o.Carrier
      → o.Carrier
      → o.Carrier
      → State × Option (AnomalyEvent o.Carrier)
  accumulate c s uid now r value target sigma =
      let both = sums c s target sigma value in
      if alarm c both
      then (
        record s { s_high = o.zero; s_low = o.zero },
        some (event c uid now r value target sigma both),
      )
      else (record s { s_high = both.0; s_low = both.1 }, none)

  -- What `detect` does with a value.
  unfoldable pub detect_value :
      Config
      → State
      → ℕ
      → ℕ
      → LogRecord o.Carrier
      → o.Carrier
      → Option o.Carrier
      → Option o.Carrier
      → State × Option (AnomalyEvent o.Carrier)
  detect_value c s uid now r value (some target) (some sigma) =
      accumulate c s uid now r value target sigma
  detect_value c s uid now r value _ _ = (calibrate c s value, none)

  unfoldable pub detect :
      Config → State → ℕ → ℕ → LogRecord o.Carrier → State × Option (AnomalyEvent o.Carrier)
  detect c s uid now r = elim (metric_of o c.from_enrichment c.metric_key r) [
    | none ↦ (s, none)
    | some value ↦ detect_value c s uid now r value s.target s.sigma
  ]

  -- A run over records, each with the identifier and the instant of its event.
  abbrev pub run :
      Config
      → State
      → List (ℕ × ℕ × LogRecord o.Carrier)
      → State × List (Option (AnomalyEvent o.Carrier))
  run c s [] = (s, [])
  run c s ((uid, now, r) ∷ rs) =
      let step = detect c s uid now r in let rest = run c step.0 rs in (rest.0, step.1 ∷ rest.1)

  -- The metric values of a list of records, in order.
  abbrev pub metrics : Config → List (ℕ × ℕ × LogRecord o.Carrier) → List o.Carrier
  metrics c [] = []
  metrics c ((_, _, r) ∷ rs) = elim (metric_of o c.from_enrichment c.metric_key r) [
    | none ↦ metrics c rs
    | some value ↦ value ∷ metrics c rs
  ]
