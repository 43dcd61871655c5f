-- ===== src/CommandLine/Cleanup.antt =====
-- What a run of src/pipelinex/cli.py does in the end, whatever raises.
use pipelinex.Prelude.{
  ℕ, suc, Bool, true, false, List, [], ◌∷◌, ◌++◌, Option, none, some, ◌≡◌, refl, ap, inl, inr,
}
use pipelinex.Prelude.Tests.{if◌then◌else◌, ◌==◌, Bool-cases}
use pipelinex.Exceptions.{Result}
use pipelinex.CommandLine.{Outcomes, Step, count_anomalies, run_built}

abbrev pub is_ok : {A : Type 0} → Result A → Bool
is_ok (Result.returns a) = true
is_ok (Result.raises kind) = false

-- How often a step is done.
abbrev pub times_run : List Step → ℕ
times_run [] = 0
times_run (Step.runs ∷ steps) = suc (times_run steps)
times_run (_ ∷ steps) = times_run steps

abbrev pub times_stopped : List Step → ℕ
times_stopped [] = 0
times_stopped (Step.stops ∷ steps) = suc (times_stopped steps)
times_stopped (_ ∷ steps) = times_stopped steps

abbrev pub ready : Outcomes → Bool → Bool
ready o has_sessionizer = if has_sessionizer then is_ok o.started else true

abbrev pub finishes : Outcomes → Bool → Bool
finishes o has_sessionizer =
    if ready o has_sessionizer
    then if is_ok o.execute then if has_sessionizer then is_ok o.stopped else true else false
    else false

abbrev pub counted : Option (Result ℕ) → Bool
counted none = true
counted (some r) = is_ok r

abbrev pub returns_zero : Result ℕ → Bool
returns_zero (Result.returns code) = code == 0
returns_zero (Result.raises kind) = false

abbrev pub IsClean : Outcomes → Bool → List Step × Result ℕ → Type 0
IsClean o has_sessionizer ran =
    (times_run ran.0 ≡ (if ready o has_sessionizer then 1 else 0))
    × (times_stopped ran.0 ≡ (if has_sessionizer then if is_ok o.started then 1 else 0 else 0))
    × (returns_zero ran.1 ≡ (if finishes o has_sessionizer then counted o.anomalies else false))
    × (is_ok ran.1 ≡ returns_zero ran.1)

abbrev outcomes : Result Unit → Result Unit → Result Unit → Option (Result ℕ) → Outcomes
outcomes start execute stop anomalies = record {
  started = start;
  execute = execute;
  stopped = stop;
  anomalies = anomalies;
}

times_run_end :
    (n : ℕ) (steps : List Step) → times_run (steps ++ Step.counts n ∷ []) ≡ times_run steps
times_run_end n [] = refl
times_run_end n (Step.runs ∷ steps) = ap suc (times_run_end n steps)
times_run_end n (Step.starts ∷ steps) = times_run_end n steps
times_run_end n (Step.stops ∷ steps) = times_run_end n steps
times_run_end n (Step.reports ∷ steps) = times_run_end n steps
times_run_end n (Step.counts m ∷ steps) = times_run_end n steps

times_stopped_end :
    (n : ℕ) (steps : List Step) → times_stopped (steps ++ Step.counts n ∷ []) ≡ times_stopped steps
times_stopped_end n [] = refl
times_stopped_end n (Step.stops ∷ steps) = ap suc (times_stopped_end n steps)
times_stopped_end n (Step.starts ∷ steps) = times_stopped_end n steps
times_stopped_end n (Step.runs ∷ steps) = times_stopped_end n steps
times_stopped_end n (Step.reports ∷ steps) = times_stopped_end n steps
times_stopped_end n (Step.counts m ∷ steps) = times_stopped_end n steps

-- The count at the end runs and stops nothing more.
count_anomalies_lem :
    (anomalies : Option (Result ℕ)) (steps : List Step)
    → let ran = count_anomalies anomalies steps in
      (times_run ran.0 ≡ times_run steps)
      × (times_stopped ran.0 ≡ times_stopped steps)
      × (returns_zero ran.1 ≡ counted anomalies)
      × (is_ok ran.1 ≡ returns_zero ran.1)
count_anomalies_lem none steps = (refl, refl, refl, refl)
count_anomalies_lem (some (Result.raises kind)) steps = (refl, refl, refl, refl)
count_anomalies_lem (some (Result.returns n)) steps = elim (Bool-cases (n == 0)) [
  | inl nothing ↦ rw nothing (refl, refl, refl, refl)
  | inr more ↦ rw more (times_run_end n steps, times_stopped_end n steps, refl, refl)
]

run_built_cases :
    (start execute stop : Result Unit) (anomalies : Option (Result ℕ)) (has_sessionizer : Bool)
    → IsClean
        (outcomes start execute stop anomalies)
        has_sessionizer
        (run_built (outcomes start execute stop anomalies) has_sessionizer)
unfolding run_built
run_built_cases start (Result.raises kind) stop anomalies false = (refl, refl, refl, refl)
run_built_cases start (Result.returns _) stop anomalies false =
    count_anomalies_lem anomalies (Step.runs ∷ Step.reports ∷ [])
run_built_cases (Result.raises kind) execute stop anomalies true = (refl, refl, refl, refl)
run_built_cases (Result.returns _) (Result.raises kind) (Result.raises late) anomalies true =
    (refl, refl, refl, refl)
run_built_cases (Result.returns _) (Result.raises kind) (Result.returns _) anomalies true =
    (refl, refl, refl, refl)
run_built_cases (Result.returns _) (Result.returns _) (Result.raises late) anomalies true =
    (refl, refl, refl, refl)
run_built_cases (Result.returns _) (Result.returns _) (Result.returns _) anomalies true =
    count_anomalies_lem anomalies (Step.starts ∷ Step.runs ∷ Step.stops ∷ Step.reports ∷ [])

-- The executor runs once if the sessionizer could be started or there is none; a sessionizer that
-- was started is stopped once, whether or not the run raised; and the command returns 0 if nothing
-- raised, and else raises.
pub run_built_lem :
    (o : Outcomes) (has_sessionizer : Bool)
    → IsClean o has_sessionizer (run_built o has_sessionizer)
run_built_lem o has_sessionizer =
    run_built_cases o.started o.execute o.stopped o.anomalies has_sessionizer
