-- ===== src/Stages/Validation.antt =====
-- src/pipelinex/stages/validation/: the chain of validators, and the three validators. A validator
-- keeps its state in `S`, as the chain's members may share one.
pub mod RateLimit
pub mod Checks
pub mod Exact
pub mod Bound
mod Tests
use pipelinex.Prelude.{
  ap, ◌⊎◌, ℕ, ◌≡◌, refl, String, Bool, true, false, not, List, [], ◌∷◌, ◌++◌, Option, none, some,
  arith, inl, inr, ◌&&◌,
}
use pipelinex.Prelude.Tests.{if◌then◌else◌, ltb, Bool-cases, Option-cases}
use pipelinex.Prelude.Equality.{◌=?◌, nat_eq, string_eq}
use pipelinex.Exceptions.{ErrorKind}
use pipelinex.Models.{Severity, LogRecord}
use pipelinex.Stages.{Outcome, Stage}

pub record ValidationResult : Type 0 where
  pub valid : Bool
  pub reason : String
  pub validator_name : String

abbrev pub Validator : Type 0 → Type 0 → Type 0
Validator S F = S → LogRecord F → S × ValidationResult

abbrev pub passed : String → ValidationResult
passed name = record { valid = true; reason = ""; validator_name = name }

abbrev pub refused : String → String → ValidationResult
refused reason name = record { valid = false; reason = reason; validator_name = name }

module _ {S F : Type 0} where
  -- The validators in order, up to the first that refuses the record.
  unfoldable pub process : List (Validator S F) → Stage S F
  process [] s r = (s, Outcome.returned r)
  process (v ∷ vs) s r =
      let (s', result) = v s r in
      let rest = process vs s' r in
      if result.valid then rest else (s', Outcome.raised ErrorKind.validation_error r)

  -- The constructor refuses an empty chain.
  abbrev pub stage : List (Validator S F) → Option (Stage S F)
  stage [] = none
  stage (v ∷ vs) = some (process (v ∷ vs))

  -- The state after all of some validators, and whether all of them pass.
  abbrev pub all_run : List (Validator S F) → S → LogRecord F → S
  all_run [] s r = s
  all_run (v ∷ vs) s r = all_run vs ((v s r).0) r

  abbrev pub AllPass : List (Validator S F) → S → LogRecord F → Type 0
  AllPass [] s r = Unit
  AllPass (v ∷ vs) s r = ((v s r).1.valid ≡ true) × AllPass vs ((v s r).0) r

  -- A chain splits at its first refusal: those before pass, those after are not run.
  pub record StopsIn (vs : List (Validator S F)) (s : S) (r : LogRecord F) : Type 0 where
    pub before : List (Validator S F)
    pub at : Validator S F
    pub after : List (Validator S F)
    pub whole : vs ≡ before ++ at ∷ after
    pub pass : AllPass before s r
    pub refuses : (at (all_run before s r) r).1.valid ≡ false

  abbrev StopsIn_later :
      (v : Validator S F) (vs : List (Validator S F)) (s : S) (r : LogRecord F)
      → (v s r).1.valid ≡ true
      → StopsIn vs ((v s r).0) r
      → StopsIn (v ∷ vs) s r
  StopsIn_later v vs s r ok st = record {
    before = v ∷ st.before;
    at = st.at;
    after = st.after;
    whole = ap (λ l. v ∷ l) st.whole;
    pass = (ok, st.pass);
    refuses = st.refuses;
  }

  -- The chain either runs all validators, which all pass, and returns the record as it was; or it
  -- raises a validation error at the first that refuses, and those after it are not run.
  pub process_lem :
      (vs : List (Validator S F)) (s : S) (r : LogRecord F)
      → (AllPass vs s r × (process vs s r ≡ (all_run vs s r, Outcome.returned r)))
        ⊎ ((st : StopsIn vs s r) × (process vs s r
              ≡ ((st.at (all_run st.before s r) r).0, Outcome.raised ErrorKind.validation_error r)))
  unfolding process
  process_lem [] s r = inl (tt, refl)
  process_lem (v ∷ vs) s r = elim (Bool-cases ((v s r).1.valid)) [
    | inr halt ↦ inr (
      record { before = []; at = v; after = vs; whole = refl; pass = tt; refuses = halt },
      rw (halt, process) refl,
    )
    | inl ok ↦ elim (process_lem vs ((v s r).0) r) [
      | inl (pass, ends) ↦ inl ((ok, pass), rw (ok, process, ends) refl)
      | inr (st, ends) ↦ inr (StopsIn_later v vs s r ok st, rw (ok, process, ends) refl)
    ]
  ]
