-- ===== src/Detectors/Iqr.antt =====
-- src/pipelinex/detectors/iqr.py: a window in arrival order and the same values in order of size.
-- `bisect` is a linear scan: on a sorted list it finds the same place.
pub mod Sorted
pub mod Runs
use pipelinex.Prelude.{
  ℕ, zero, suc, ◌+◌, ◌-◌, ◌≤◌, ◌<◌, ◌≡◌, refl, String, Bool, true, false, List, [], ◌∷◌, ◌++◌,
  Option, none, some, arith, inl, inr, min, ◌&&◌,
}
use pipelinex.Prelude.Tests.{if◌then◌else◌, leb, ltb, ◌==◌, Option-cases}
use pipelinex.Prelude.Lists.{length, length-append, drop, get_or}
use pipelinex.Prelude.Int.{ℤ}
use pipelinex.Floats.{Floats, insort}
use pipelinex.Models.{Value, LogRecord, AnomalyEvent}
use pipelinex.Detectors.{metric_of, push}

module _ (o : Floats) where
  pub record Config : Type 0 where
    pub metric_key : String
    pub k : o.Carrier
    pub window_size : ℕ
    pub min_samples : ℕ
    pub from_enrichment : Bool

  -- The guards of the constructor.
  abbrev pub accepts : Config → Bool
  accepts c =
      if leb c.window_size 1 then false else if o.le c.k o.zero then false else leb 4 c.min_samples

  pub record State : Type 0 where
    pub window : List o.Carrier
    pub sorted : List o.Carrier

  -- `bisect_left`, then `del` where the value found is the one sought.
  abbrev pub discard : o.Carrier → List o.Carrier → List o.Carrier
  discard x [] = []
  discard x (y ∷ ys) =
      let rest = discard x ys in if o.lt y x then y ∷ rest else if o.eq y x then ys else y ∷ ys

  -- `if len(window) == maxlen`: the oldest value leaves the sorted view.
  abbrev pub evicted : ℕ → List o.Carrier → List o.Carrier → List o.Carrier
  evicted maxlen [] sorted = sorted
  evicted maxlen (old ∷ w) sorted =
      if length (old ∷ w) == maxlen then discard old sorted else sorted

  unfoldable pub add : ℕ → State → o.Carrier → State
  add maxlen s value = record {
    window = push maxlen s.window value;
    sorted = insort o value (evicted maxlen s.window s.sorted);
  }

  -- Linear interpolation at the rank `p * (n - 1)`, which is at most n - 1.
  abbrev pub percentile : List o.Carrier → o.Carrier → o.Carrier
  percentile xs p =
      let n = length xs in
      let rank = o.mul p (o.of_ℕ (n - 1)) in
      let lo = o.to_ℕ rank in
      let hi = min (lo + 1) (n - 1) in
      let low = get_or xs lo o.zero in
      if n == 1
      then get_or xs 0 o.zero
      else o.add low (o.mul (o.sub rank (o.of_ℕ lo)) (o.sub (get_or xs hi o.zero) low))

  unfoldable pub bounds : Config → List o.Carrier → Option (o.Carrier × o.Carrier)
  bounds c sorted =
      let q1 = percentile sorted o.quarter in
      let q3 = percentile sorted o.three_quarters in
      let iqr = o.sub q3 q1 in
      if ltb (length sorted) c.min_samples
      then none
      else if o.eq iqr o.zero
      then none
      else some (o.sub q1 (o.mul c.k iqr), o.add q3 (o.mul c.k iqr))

  -- `detect` builds an event from the fences, the value and the size of the window after `_add`.
  abbrev pub event :
      Config
      → ℕ
      → ℕ
      → LogRecord o.Carrier
      → o.Carrier
      → ℕ
      → o.Carrier
      → o.Carrier
      → AnomalyEvent o.Carrier
  event c uid now r value size lower upper =
      let below = o.lt value lower in
      record {
        id = uid;
        log_record_id = r.id;
        detector_name = "iqr";
        severity_score = if below then o.sub lower value else o.sub value upper;
        detected_at = now;
        metadata =
            ("metric_key", Value.text c.metric_key)
            ∷ ("value", Value.float value)
            ∷ ("lower_fence", Value.float lower)
            ∷ ("upper_fence", Value.float upper)
            ∷ ("side", Value.text (if below then "below" else "above"))
            ∷ ("window_size", Value.int (ℤ.pos size))
            ∷ [];
      }

  unfoldable pub flag :
      Config
      → ℕ
      → ℕ
      → LogRecord o.Carrier
      → o.Carrier
      → ℕ
      → Option (o.Carrier × o.Carrier)
      → Option (AnomalyEvent o.Carrier)
  flag c uid now r value size none = none
  flag c uid now r value size (some (lower, upper)) =
      if o.le lower value && o.le value upper
      then none
      else some (event c uid now r value size lower upper)

  unfoldable pub detect :
      Config → State → ℕ → ℕ → LogRecord o.Carrier → State × Option (AnomalyEvent o.Carrier)
  detect c s uid now r = elim (metric_of o c.from_enrichment c.metric_key r) [
    | none ↦ (s, none)
    | some value ↦
        let s' = add c.window_size s value in
        (s', flag c uid now r value (length s'.window) (bounds c s.sorted))
  ]

  abbrev pub reset : State → State
  reset s = record { window = []; sorted = [] }
