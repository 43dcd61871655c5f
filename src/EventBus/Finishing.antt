-- ===== src/EventBus/Finishing.antt =====
-- When the handlers that src/pipelinex/events/bus.py gathers are done, whatever the order in which
-- their tasks are resumed.
use pipelinex.Prelude.{
  ℕ, zero, suc, ◌-◌, ◌≤◌, ◌≡◌, ◌≢◌, refl, ap, ◌∙◌, Bool, List, [], ◌∷◌, some, arith, inl, inr,
}
use mathlib.Core.Path.{subst}
use pipelinex.Prelude.Tests.{if◌then◌else◌}
use pipelinex.Prelude.Lists.{length, get_elem?}
use pipelinex.Prelude.Equality.{◌=?◌, =?-cases, nat_eq}
use pipelinex.EventBus.{init, Task, start_all, resume_task, resume, resume_each, publish}
use pipelinex.EventBus.Subscriptions.{Action, list_after_all, run, handlers_of-run}

-- How often a task is resumed.
abbrev pub times : ℕ → List ℕ → ℕ
times i [] = 0
times i (j ∷ schedule) = if i =? j then suc (times i schedule) else times i schedule

module _ {W : Type 0} where
  -- A task that is done after at most n stretches, whatever other tasks do to the world between.
  abbrev pub DoneWithin : ℕ → Task W → Type 0
  DoneWithin n (Task.done raised) = Unit
  DoneWithin zero (Task.suspended write next) = ⊥
  DoneWithin (suc n) (Task.suspended write next) = (w : W) → DoneWithin n (next w)

  -- The task at a place is done within n stretches.
  abbrev WithinAt : ℕ → ℕ → List (Task W) → Type 0
  WithinAt n i [] = ⊥
  WithinAt n zero (t ∷ ts) = DoneWithin n t
  WithinAt n (suc i) (t ∷ ts) = WithinAt n i ts

  abbrev pub IsDoneAt : ℕ → List (Task W) → Type 0
  IsDoneAt i ts = (raised : Bool) × (get_elem? ts i ≡ some (Task.done raised))

  resume_task-DoneWithin :
      (n : ℕ) (t : Task W) (w : W) → DoneWithin n t → DoneWithin (n - 1) ((resume_task t w).1)
  resume_task-DoneWithin n (Task.done raised) w h = tt
  resume_task-DoneWithin zero (Task.suspended write next) w h = absurd h
  resume_task-DoneWithin (suc n) (Task.suspended write next) w h =
      subst (λ m. DoneWithin m (next w)) (one_less n) (h w)
    where
      one_less : (m : ℕ) → m ≡ suc m - 1
      one_less m = omega arith

  resume-same :
      (n i : ℕ) (ts : List (Task W)) (w : W)
      → WithinAt n i ts
      → WithinAt (n - 1) i ((resume i ts w).1)
  resume-same n i [] w h = h
  resume-same n zero (t ∷ ts) w h = resume_task-DoneWithin n t w h
  resume-same n (suc i) (t ∷ ts) w h = resume-same n i ts w h

  resume-other :
      (n i j : ℕ) (ts : List (Task W)) (w : W)
      → i ≢ j
      → WithinAt n i ts
      → WithinAt n i ((resume j ts w).1)
  resume-other n i j [] w other h = h
  resume-other n zero zero (t ∷ ts) w other h = absurd (other refl)
  resume-other n zero (suc j) (t ∷ ts) w other h = h
  resume-other n (suc i) zero (t ∷ ts) w other h = h
  resume-other n (suc i) (suc j) (t ∷ ts) w other h =
      resume-other n i j ts w (λ same. other (ap suc same)) h

  resume_each-WithinAt :
      (schedule : List ℕ) (n i : ℕ) (ts : List (Task W)) (w : W)
      → WithinAt n i ts
      → WithinAt (n - times i schedule) i ((resume_each schedule ts w).1)
  resume_each-WithinAt [] n i ts w h = subst (λ m. WithinAt m i ts) (omega arith) h
  resume_each-WithinAt (j ∷ schedule) n i ts w h =
      let step = resume j ts w in
      elim (=?-cases i j) [
        | inl (same, hit) ↦
            let one = resume-same n i ts w h in
            let moved = subst (λ k. WithinAt (n - 1) i ((resume k ts w).1)) same one in
            subst (λ m. WithinAt m i ((resume_each schedule step.1 step.0).1))
              (rw (times, hit) (omega arith))
              (resume_each-WithinAt schedule (n - 1) i step.1 step.0 moved)
        | inr (other, miss) ↦
            subst (λ m. WithinAt m i ((resume_each schedule step.1 step.0).1))
              (rw (times, miss) refl)
              (resume_each-WithinAt schedule n i step.1 step.0 (resume-other n i j ts w other h))
      ]

  done_at : (i : ℕ) (ts : List (Task W)) → WithinAt 0 i ts → IsDoneAt i ts
  done_at i [] h = absurd h
  done_at zero (Task.done raised ∷ ts) h = (raised, refl)
  done_at zero (Task.suspended write next ∷ ts) h = absurd h
  done_at (suc i) (t ∷ ts) h = done_at i ts h

  length-resume : (j : ℕ) (ts : List (Task W)) (w : W) → length ((resume j ts w).1) ≡ length ts
  length-resume j [] w = refl
  length-resume zero (t ∷ ts) w = refl
  length-resume (suc j) (t ∷ ts) w = ap suc (length-resume j ts w)

  length-resume_each :
      (schedule : List ℕ) (ts : List (Task W)) (w : W)
      → length ((resume_each schedule ts w).1) ≡ length ts
  length-resume_each [] ts w = refl
  length-resume_each (j ∷ schedule) ts w =
      let step = resume j ts w in length-resume_each schedule step.1 step.0 ∙ length-resume j ts w

module _ {W E : Type 0} (call : ℕ → E → W → W × Task W) where
  start_all-WithinAt :
      (n i h : ℕ) (hs : List ℕ) (event : E) (w : W)
      → get_elem? hs i ≡ some h
      → ((v : W) → DoneWithin n ((call h event v).1))
      → WithinAt n i ((start_all call hs event w).1)
  start_all-WithinAt n i h [] event w found ends = cc
  start_all-WithinAt n zero h (k ∷ hs) event w found ends =
      let same : h ≡ k = cc in subst (λ m. DoneWithin n ((call m event w).1)) same (ends w)
  start_all-WithinAt n (suc i) h (k ∷ hs) event w found ends =
      start_all-WithinAt n i h hs event ((call k event w).0) found ends

  length-start_all :
      (hs : List ℕ) (event : E) (w : W) → length ((start_all call hs event w).1) ≡ length hs
  length-start_all [] event w = refl
  length-start_all (k ∷ hs) event w = ap suc (length-start_all hs event ((call k event w).0))

  -- After any history of subscriptions, an event starts a task for each handler that the history
  -- leaves for its exact type, in the order of their subscription, and then runs any schedule of
  -- the tasks. A handler that is done within n stretches after its first is done when its own task
  -- has been resumed n times, however slow the others are, and whether or not they raise.
  pub publish-run :
      (actions : List Action) (event_type : ℕ) (event : E) (schedule : List ℕ) (w : W) (n i h : ℕ)
      → get_elem? (list_after_all event_type [] actions) i ≡ some h
      → ((v : W) → DoneWithin n ((call h event v).1))
      → n ≤ times i schedule
      → let published = publish call (run init actions) event_type event schedule w in
        let started = start_all call (list_after_all event_type [] actions) event w in
        (published ≡ resume_each schedule started.1 started.0)
        × (length published.1 ≡ length (list_after_all event_type [] actions))
        × IsDoneAt i published.1
  unfolding publish
  publish-run actions event_type event schedule w n i h found ends enough =
      let hs = list_after_all event_type [] actions in
      let started = start_all call hs event w in
      rw (handlers_of-run event_type init actions) (
        refl,
        length-resume_each schedule started.1 started.0 ∙ length-start_all hs event w,
        done_at i _ (
            subst (λ m. WithinAt m i ((resume_each schedule started.1 started.0).1))
              (omega (arith, enough))
              (resume_each-WithinAt schedule n i started.1 started.0
                (start_all-WithinAt n i h hs event w found ends))),
      )
