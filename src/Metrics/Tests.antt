-- ===== src/Metrics/Tests.antt =====
-- Witness of the registry's theorem: three timings and two increments.
use pipelinex.Prelude.{◌≡◌, List, [], ◌∷◌}
use pipelinex.Prelude.Int.{ℤ, pos}
use pipelinex.Floats.Sorted.{in_order}
use pipelinex.Detectors.Tests.{hundredths, hundredths-IsOrder}
use pipelinex.Metrics.{init, count_of, samples_of, percentile}
use pipelinex.Metrics.Recorded.{Write, run, recorded, counted, run-init_lem}

abbrev history : List (Write hundredths)
history =
    Write.times "parse" (pos 30)
    ∷ Write.incs "parse" (pos 1)
    ∷ Write.times "other" (pos 5)
    ∷ Write.times "parse" (pos 20)
    ∷ Write.incs "parse" (pos 2)
    ∷ []

run-init_lem_example :
    (count_of hundredths (run hundredths (init hundredths) history) "parse"
      ≡ counted hundredths "parse" history)
    × (samples_of hundredths (run hundredths (init hundredths) history) "parse"
        ≡ in_order hundredths (recorded hundredths "parse" history))
    × ((p : ℤ)
        → percentile hundredths
            (samples_of hundredths (run hundredths (init hundredths) history) "parse")
            p
          ≡ percentile hundredths (recorded hundredths "parse" history) p)
run-init_lem_example = run-init_lem hundredths hundredths-IsOrder history "parse"
