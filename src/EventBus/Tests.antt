-- ===== src/EventBus/Tests.antt =====
-- Witness of the bus's theorem: a slow handler, one that raises and one that suspends once.
use pipelinex.Prelude.{ℕ, ◌≡◌, refl, true, false, List, [], ◌∷◌, ◌++◌, none, some, arith}
use pipelinex.Prelude.Tests.{◌==◌, if◌then◌else◌}
use pipelinex.Prelude.Lists.{length}
use pipelinex.EventBus.{init, Task, start_all, resume_each, gathered, publish}
use pipelinex.EventBus.Subscriptions.{Action, run, list_after_all}
use pipelinex.EventBus.Finishing.{IsDoneAt, publish-run}

-- A handler notes itself. Handler 2 raises, handler 4 suspends and notes itself again, and handler
-- 1 suspends twice.
abbrev ends_with_note : ℕ → Task (List ℕ)
ends_with_note h = Task.suspended (λ noted. noted ++ h ∷ []) (λ noted. Task.done false)

abbrev note : ℕ → ℕ → List ℕ → List ℕ × Task (List ℕ)
note h event noted = (
  noted ++ h ∷ [],
  if h == 2
      then Task.done true
      else if h == 4
      then ends_with_note 4
      else Task.suspended (λ noted. noted) (λ noted. ends_with_note 1),
)

abbrev history : List Action
history =
    Action.subscribes 7 1
    ∷ Action.subscribes 7 2
    ∷ Action.subscribes 8 3
    ∷ Action.subscribes 7 4
    ∷ []

-- The last handler ends before the first.
overtaken : (publish note (run init history) 7 50 (2 ∷ 0 ∷ 0 ∷ []) []).0 ≡ 1 ∷ 2 ∷ 4 ∷ 4 ∷ 1 ∷ []
unfolding publish pipelinex.EventBus.subscribe
overtaken = refl

outcomes :
    gathered ((publish note (run init history) 7 50 (2 ∷ 0 ∷ 0 ∷ []) []).1)
    ≡ some (false ∷ true ∷ false ∷ [])
unfolding publish pipelinex.EventBus.subscribe
outcomes = refl

still_waiting : gathered ((publish note (run init history) 7 50 (2 ∷ 0 ∷ []) []).1) ≡ none
unfolding publish pipelinex.EventBus.subscribe
still_waiting = refl

publish-run_example :
    (publish note (run init history) 7 50 (2 ∷ []) []
      ≡ resume_each
          (2 ∷ [])
          ((start_all note (list_after_all 7 [] history) 50 []).1)
          ((start_all note (list_after_all 7 [] history) 50 []).0))
    × (length ((publish note (run init history) 7 50 (2 ∷ []) []).1)
        ≡ length (list_after_all 7 [] history))
    × IsDoneAt 2 ((publish note (run init history) 7 50 (2 ∷ []) []).1)
publish-run_example = publish-run note history 7 50 (2 ∷ []) [] 1 2 4 refl (λ v w. tt) (omega arith)
