-- ===== src/Stages/Retry.antt =====
-- `RetryDecorator` of src/pipelinex/stages/decorators/retry.py. `delay` stands for the length of
-- the sleep before an attempt; the sleeps are collected.
use pipelinex.Prelude.{
  ℕ, zero, suc, ◌+◌, ◌≤◌, ◌<◌, ◌≡◌, refl, Bool, true, false, List, [], ◌∷◌, ◌++◌, Option, none,
  some, arith, ◌⊎◌, inl, inr, append-nil, append_assoc, ap,
}
use pipelinex.Prelude.Tests.{if◌then◌else◌, ltb, Bool-cases}
use pipelinex.Exceptions.{is_transient}
use pipelinex.Models.{LogRecord}
use pipelinex.Stages.{Outcome, Stage}

-- The record after an attempt, for the next one.
abbrev pub record_of : {F : Type 0} → Outcome F → LogRecord F
record_of (Outcome.returned r) = r
record_of (Outcome.raised kind r) = r

-- Whether the handler `except TransientStageError` takes the outcome.
abbrev pub is_retried : {F : Type 0} → Outcome F → Bool
is_retried (Outcome.returned r) = false
is_retried (Outcome.raised kind r) = is_transient kind

-- The sleeps after the failures number n + 1, n + 2, ...
abbrev pub sleeps_from : {D : Type 0} → (ℕ → D) → ℕ → ℕ → List D
sleeps_from delay n zero = []
sleeps_from delay n (suc k) = delay (suc n) ∷ sleeps_from delay (suc n) k

module _ {S F D : Type 0} (delay : ℕ → D) (inner : Stage S F) (max_retries : ℕ) where
  -- The loop, from the number of failed attempts, with the sleeps so far.
  abbrev pub loop : ℕ → ℕ → List D → S → LogRecord F → Option (S × Outcome F × List D)
  loop zero attempt sleeps s r = none
  loop (suc fuel) attempt sleeps s r =
      let (s', outcome) = inner s r in
      let again =
        loop fuel (suc attempt) (sleeps ++ delay (suc attempt) ∷ []) s' (record_of outcome) in
      if is_retried outcome
      then if ltb max_retries (suc attempt) then some (s', outcome, sleeps) else again
      else some (s', outcome, sleeps)

  unfoldable pub process : S → LogRecord F → Option (S × Outcome F × List D)
  process s r = loop (suc max_retries) 0 [] s r

  -- What stands before attempt number n, when all before it were retried.
  abbrev pub before_attempt : ℕ → S × LogRecord F → S × LogRecord F
  before_attempt zero p = p
  before_attempt (suc n) (s, r) =
      let (s', outcome) = inner s r in before_attempt n (s', record_of outcome)

  abbrev pub attempt_at : ℕ → S → LogRecord F → S × Outcome F
  attempt_at n s r = let (s', r') = before_attempt n (s, r) in inner s' r'

  -- The last attempt is number k: those before were retried, and it is not, or is one too many.
  pub record StopsAt (allowed k : ℕ) (s : S) (r : LogRecord F) : Type 0 where
    pub within : k ≤ allowed
    pub all_retried : (i : ℕ) → i < k → is_retried ((attempt_at i s r).1) ≡ true
    pub at_end : (is_retried ((attempt_at k s r).1) ≡ false) ⊎ (k ≡ allowed)

  ends_first :
      (allowed : ℕ) (s : S) (r : LogRecord F)
      → (is_retried ((inner s r).1) ≡ false) ⊎ (0 ≡ allowed)
      → StopsAt allowed 0 s r
  ends_first allowed s r h = record {
    within = omega arith;
    all_retried = λ i below. absurd (omega (arith, below));
    at_end = h;
  }

  ends_later :
      (allowed k : ℕ) (s : S) (r : LogRecord F)
      → is_retried ((inner s r).1) ≡ true
      → StopsAt allowed k ((inner s r).0) (record_of ((inner s r).1))
      → StopsAt (suc allowed) (suc k) s r
  ends_later allowed k s r first later = record {
    within = omega (arith, later.within);
    all_retried = retried;
    at_end = elim later.at_end [ inl e ↦ inl e | inr e ↦ inr (ap suc e) ];
  }
    where
      retried : (i : ℕ) → i < suc k → is_retried ((attempt_at i s r).1) ≡ true
      retried zero below = first
      retried (suc i) below = later.all_retried i (omega arith)

  loop_lem :
      (allowed attempt : ℕ) (sleeps : List D) (s : S) (r : LogRecord F)
      → attempt + allowed ≡ max_retries
      → (k : ℕ) × StopsAt allowed k s r
        × (loop (suc allowed) attempt sleeps s r
            ≡ some
                ((attempt_at k s r).0, (attempt_at k s r).1, sleeps ++ sleeps_from delay attempt k))
  loop_lem zero attempt sleeps s r h = elim (Bool-cases (is_retried ((inner s r).1))) [
    | inr over ↦ (0, ends_first 0 s r (inl over), rw (loop, over, append-nil) refl)
    | inl again ↦
        let last : ltb max_retries (suc attempt) ≡ true = ground arith in
        (0, ends_first 0 s r (inr refl), rw (loop, again, last, append-nil) refl)
  ]
  loop_lem (suc allowed) attempt sleeps s r h = elim (Bool-cases (is_retried ((inner s r).1))) [
    | inr over ↦ (0, ends_first (suc allowed) s r (inl over), rw (loop, over, append-nil) refl)
    | inl again ↦
        let more : ltb max_retries (suc attempt) ≡ false = ground arith in
        let (k, stops, ends) =
          loop_lem allowed (suc attempt) (sleeps ++ delay (suc attempt) ∷ []) ((inner s r).0)
            (record_of ((inner s r).1)) (omega arith) in
        (
          suc k,
          ends_later allowed k s r again stops,
          rw (loop, again, more, ends, append_assoc) refl,
        )
  ]

  -- The loop ends, after at most `max_retries` retries: with the outcome of the first attempt that
  -- is no transient failure, or of the last one allowed, and it slept before each retry.
  pub process-StopsAt :
      (s : S) (r : LogRecord F)
      → (k : ℕ) × StopsAt max_retries k s r
        × (process s r ≡ some ((attempt_at k s r).0, (attempt_at k s r).1, sleeps_from delay 0 k))
  unfolding process
  process-StopsAt s r = loop_lem max_retries 0 [] s r (omega arith)
