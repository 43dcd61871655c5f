-- ===== src/Stages/Timing.antt =====
-- `TimingDecorator` of src/pipelinex/stages/decorators/timing.py. The elapsed time of a call comes
-- from outside. The state is the registry and that of the inner stage.
use pipelinex.Prelude.{ap, ◌≡◌, refl, String, List, [], ◌∷◌}
use Prim.Native.String.{◌++◌ as join}
use pipelinex.Prelude.Int.{pos}
use pipelinex.Floats.{Floats}
use pipelinex.Metrics.{Registry, inc, timing}
use pipelinex.Metrics.Recorded.{Write, write}
use pipelinex.Metrics.Recorded
use pipelinex.Models.{LogRecord}
use pipelinex.Stages.{Outcome, Stage}

module _ (o : Floats) {S : Type 0} (inner : Stage S o.Carrier) (inner_name : String) where
  -- The `finally` block runs whether the inner stage returns or raises.
  unfoldable pub process :
      o.Carrier → Registry o × S → LogRecord o.Carrier → (Registry o × S) × Outcome o.Carrier
  process elapsed (registry, s) r =
      let (s', outcome) = inner s r in
      let timed = timing o registry (join (join "stage." inner_name) ".duration_s") elapsed in
      let counted = inc o timed (join (join "stage." inner_name) ".invocations") (pos 1) in
      ((counted, s'), outcome)

  abbrev pub run :
      Registry o × S
      → List (o.Carrier × LogRecord o.Carrier)
      → (Registry o × S) × List (Outcome o.Carrier)
  run state [] = (state, [])
  run state ((elapsed, r) ∷ calls) =
      let step = process elapsed state r in let rest = run step.0 calls in (rest.0, step.1 ∷ rest.1)

  -- The same calls of the inner stage.
  abbrev pub run_inner : S → List (o.Carrier × LogRecord o.Carrier) → S × List (Outcome o.Carrier)
  run_inner s [] = (s, [])
  run_inner s ((elapsed, r) ∷ calls) =
      let step = inner s r in let rest = run_inner step.0 calls in (rest.0, step.1 ∷ rest.1)

  -- What a call writes: its duration and one invocation.
  abbrev pub writes : List (o.Carrier × LogRecord o.Carrier) → List (Write o)
  writes [] = []
  writes ((elapsed, r) ∷ calls) =
      Write.times (join (join "stage." inner_name) ".duration_s") elapsed
      ∷ Write.incs (join (join "stage." inner_name) ".invocations") (pos 1)
      ∷ writes calls

  -- The decorator changes neither the outcomes nor the state of the inner stage, and writes one
  -- duration and one invocation to the registry for each call, also for a call that raises.
  run_transparent :
      (registry : Registry o) (s : S) (calls : List (o.Carrier × LogRecord o.Carrier))
      → run (registry, s) calls
        ≡ ((Recorded.run o registry (writes calls), (run_inner s calls).0), (run_inner s calls).1)
  unfolding process
  run_transparent registry s [] = refl
  run_transparent registry s ((elapsed, r) ∷ calls) =
      ap (λ rest. (rest.0, (inner s r).1 ∷ rest.1))
        (run_transparent ((process elapsed (registry, s) r).0.0) ((inner s r).0) calls)
