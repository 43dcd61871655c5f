-- ===== src/Stages/Validation/RateLimit.antt =====
-- `RateLimitValidator` of src/pipelinex/stages/validation/rate_limit_validator.py: a bucket of
-- tokens for each source. The two clock readings of a call are arguments: `now` in `validate`, and
-- the later one where `defaultdict` makes a new bucket.
use pipelinex.Prelude.{
  sym, ℕ, ◌≡◌, refl, String, Bool, false, List, [], ◌∷◌, none, some, arith, inl, inr,
}
use Prim.Native.String.{◌++◌ as join}
use pipelinex.Prelude.Tests.{if◌then◌else◌}
use pipelinex.Prelude.Dict.{Dict, lookup, insert, lookup-insert}
use pipelinex.Prelude.Equality.{◌=?◌, =?-cases, string_eq}
use pipelinex.Floats.{Floats, max_of}
use pipelinex.Models.{LogRecord}
use pipelinex.Stages.Validation.{ValidationResult, passed, refused}

module _ (o : Floats) where
  pub record Limiter : Type 0 where
    pub capacity : ℕ
    pub refill_per_sec : o.Carrier
    pub buckets : Dict String (o.Carrier × o.Carrier)

  -- `min(a, b)`
  abbrev pub min_of : o.Carrier → o.Carrier → o.Carrier
  min_of a b = if o.lt b a then b else a

  abbrev pub key_of : LogRecord o.Carrier → String
  key_of r = if r.source =? "" then "<unknown>" else r.source

  -- The tokens after a refill.
  abbrev pub refilled : Limiter → o.Carrier → o.Carrier × o.Carrier → o.Carrier
  refilled s now (tokens, last) =
      let elapsed = max_of o o.zero (o.sub now last) in
      min_of (o.of_ℕ s.capacity) (o.add tokens (o.mul elapsed s.refill_per_sec))

  abbrev pub bucket_of : Limiter → String → o.Carrier → o.Carrier × o.Carrier
  bucket_of s key later = elim (lookup key s.buckets) [
    | none ↦ (o.of_ℕ s.capacity, later)
    | some b ↦ b
  ]

  unfoldable pub validate :
      Limiter → o.Carrier → o.Carrier → LogRecord o.Carrier → Limiter × ValidationResult
  validate s now later r =
      let key = key_of r in
      let tokens = refilled s now (bucket_of s key later) in
      if o.le (o.of_ℕ 1) tokens
      then (
        record s { buckets = insert key (o.sub tokens (o.of_ℕ 1), now) s.buckets },
        passed "rate_limit",
      )
      else (
        record s { buckets = insert key (tokens, now) s.buckets },
        refused (join "rate limit exceeded for " key) "rate_limit",
      )

  -- A run of calls, each with its clock readings and its record.
  abbrev pub run :
      Limiter
      → List (o.Carrier × o.Carrier × LogRecord o.Carrier)
      → Limiter × List (LogRecord o.Carrier × Bool)
  run s [] = (s, [])
  run s ((now, later, r) ∷ calls) =
      let step = validate s now later r in
      let rest = run step.0 calls in (rest.0, (r, step.1.valid) ∷ rest.1)

  -- The calls, or the answers, for records of one source.
  abbrev pub calls_of :
      String
      → List (o.Carrier × o.Carrier × LogRecord o.Carrier)
      → List (o.Carrier × o.Carrier × LogRecord o.Carrier)
  calls_of key [] = []
  calls_of key ((now, later, r) ∷ calls) =
      if key =? key_of r then (now, later, r) ∷ calls_of key calls else calls_of key calls

  abbrev pub answers_of :
      String → List (LogRecord o.Carrier × Bool) → List (LogRecord o.Carrier × Bool)
  answers_of key [] = []
  answers_of key ((r, ok) ∷ answers) =
      if key =? key_of r then (r, ok) ∷ answers_of key answers else answers_of key answers

  -- Two limiters with the same limits and the same bucket for a source.
  abbrev pub Agree : String → Limiter → Limiter → Type 0
  Agree key s t =
      (s.capacity ≡ t.capacity)
      × (s.refill_per_sec ≡ t.refill_per_sec)
      × (lookup key s.buckets ≡ lookup key t.buckets)

  validate_other :
      (key : String) (s t : Limiter) (now later : o.Carrier) (r : LogRecord o.Carrier)
      → (key =? key_of r) ≡ false
      → Agree key s t
      → Agree key ((validate s now later r).0) t
  unfolding validate
  validate_other key s t now later r other h = grind (arith, h, other, lookup-insert)

  validate_own :
      (s t : Limiter) (now later : o.Carrier) (r : LogRecord o.Carrier)
      → Agree (key_of r) s t
      → ((validate s now later r).1 ≡ (validate t now later r).1)
        × Agree (key_of r) ((validate s now later r).0) ((validate t now later r).0)
  unfolding validate
  validate_own s t now later r h = grind (arith, h, lookup-insert)

  run-Agree :
      (key : String) (s t : Limiter) (calls : List (o.Carrier × o.Carrier × LogRecord o.Carrier))
      → Agree key s t
      → (answers_of key ((run s calls).1) ≡ (run t (calls_of key calls)).1)
        × Agree key ((run s calls).0) ((run t (calls_of key calls)).0)
  run-Agree key s t [] h = (refl, h)
  run-Agree key s t ((now, later, r) ∷ calls) h = elim (=?-cases key (key_of r)) [
    | inr (_, other) ↦
        rw (run, answers_of, calls_of, other)
          (run-Agree key ((validate s now later r).0) t calls
            (validate_other key s t now later r other h))
    | inl (own, hit) ↦
        let step = validate_own s t now later r (rw (sym own) h) in
        let rest =
          run-Agree key ((validate s now later r).0) ((validate t now later r).0) calls
            (rw own (step.1)) in
        rw (run, answers_of, calls_of, hit) (ground (arith, step.0, rest))
  ]

  -- The records of a source get the same answers, whatever records of other sources come between.
  pub run_isolated :
      (key : String) (s : Limiter) (calls : List (o.Carrier × o.Carrier × LogRecord o.Carrier))
      → answers_of key ((run s calls).1) ≡ (run s (calls_of key calls)).1
  run_isolated key s calls = (run-Agree key s s calls (refl, refl, refl)).0
