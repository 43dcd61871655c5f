-- ===== src/Metrics.antt =====
-- `MetricsRegistry` of src/pipelinex/observability/metrics.py: counters, gauges, and timers that
-- keep their samples in order. Its writers run under one lock.
pub mod Recorded
mod Tests
use pipelinex.Prelude.{ℕ, ◌-◌, String, List, [], ◌∷◌, Option, none, some, min, max, map}
use pipelinex.Prelude.Lists.{length, get_or}
use pipelinex.Prelude.Dict.{Dict, lookup, insert}
use pipelinex.Prelude.Equality.{string_eq}
use pipelinex.Prelude.Int.{ℤ, pos, ◌+ℤ◌}
use pipelinex.Floats.{Floats, insort}
use pipelinex.Floats.Sorted.{in_order}

module _ (o : Floats) where
  pub record Registry : Type 0 where
    pub counters : Dict String ℤ
    pub gauges : Dict String o.Carrier
    pub timers : Dict String (List o.Carrier)

  abbrev pub init : Registry
  init = record { counters = []; gauges = []; timers = [] }

  abbrev pub reset : Registry → Registry
  reset s = record { counters = []; gauges = []; timers = [] }

  -- `self._counters.get(name, 0)`
  abbrev pub count_of : Registry → String → ℤ
  count_of s name = elim (lookup name s.counters) [ none ↦ pos 0 | some n ↦ n ]

  -- The samples of a timer, none where there is no timer.
  abbrev pub samples_of : Registry → String → List o.Carrier
  samples_of s name = elim (lookup name s.timers) [ none ↦ [] | some xs ↦ xs ]

  unfoldable pub inc : Registry → String → ℤ → Registry
  inc s name by = record s { counters = insert name (count_of s name +ℤ by) s.counters }

  unfoldable pub gauge : Registry → String → o.Carrier → Registry
  gauge s name value = record s { gauges = insert name value s.gauges }

  unfoldable pub timing : Registry → String → o.Carrier → Registry
  timing s name seconds = record s {
    timers = insert name (insort o seconds (samples_of s name)) s.timers;
  }

  -- The sample at a share of the list, where the index is cut to the list.
  abbrev pub at_share : o.Carrier → List o.Carrier → o.Carrier
  at_share p xs =
      let index = max 0 (min (length xs - 1) (o.to_ℕ (o.mul p (o.of_ℕ (length xs))))) in
      get_or xs index o.zero

  unfoldable pub percentile : List o.Carrier → o.Carrier → o.Carrier
  percentile [] p = o.zero
  percentile (x ∷ xs) p = at_share p (in_order o (x ∷ xs))

  pub record TimerEntry : Type 0 where
    pub count : o.Carrier
    pub total_s : o.Carrier
    pub p50_s : o.Carrier
    pub p95_s : o.Carrier
    pub p99_s : o.Carrier

  pub record Snapshot : Type 0 where
    pub counters : Dict String ℤ
    pub gauges : Dict String o.Carrier
    pub timers : Dict String TimerEntry

  -- The three shares are 0.5, 0.95 and 0.99.
  unfoldable pub timer_entry : o.Carrier × o.Carrier × o.Carrier → List o.Carrier → TimerEntry
  unfolding percentile
  timer_entry (half, most, nearly_all) samples = record {
    count = o.of_ℕ (length samples);
    total_s = o.total samples;
    p50_s = percentile samples half;
    p95_s = percentile samples most;
    p99_s = percentile samples nearly_all;
  }

  unfoldable pub snapshot : o.Carrier × o.Carrier × o.Carrier → Registry → Snapshot
  snapshot shares s = record {
    counters = s.counters;
    gauges = s.gauges;
    timers = map (λ entry. (entry.0, timer_entry shares (entry.1))) s.timers;
  }
