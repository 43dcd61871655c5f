-- ===== src/Stages/Validation/Bound.antt =====
-- How many records of a source the limiter of
-- src/pipelinex/stages/validation/rate_limit_validator.py accepts, where the arithmetic is exact.
use pipelinex.Prelude.{
  ap, sym, ◌∙◌, ◌+◌, ◌*◌, ◌≡◌, refl, String, Bool, true, false, List, [], ◌∷◌, none, some, arith,
  inl, inr,
}
use pipelinex.Prelude.Tests.{if◌then◌else◌, Bool-cases}
use pipelinex.Prelude.Dict.{lookup, lookup-insert}
use pipelinex.Prelude.Equality.{string_eq, =?-self, =?-cases}
use pipelinex.Prelude.Int.{pos, ◌+ℤ◌, ◌≤ℤ◌, +ℤ_parts, -ℤ_parts, eq_of_parts}
use pipelinex.Floats.{Floats}
use pipelinex.Models.{LogRecord}
use pipelinex.Stages.Validation.Exact.{refill, IsExact, Steady, end_of, accepted}
use pipelinex.Stages.Validation.RateLimit.{
  Limiter, key_of, refilled, bucket_of, validate, run, calls_of, answers_of, run_isolated,
}

module _ (o : Floats) (s0 : Limiter o) (exact : IsExact o s0.refill_per_sec) where
  -- The tokens after a call, from those after the refill.
  abbrev left : o.Carrier → o.Carrier
  left tokens = if o.le (o.of_ℕ 1) tokens then o.sub tokens (o.of_ℕ 1) else tokens

  validate_bucket :
      (s : Limiter o) (now later : o.Carrier) (r : LogRecord o.Carrier) (b : o.Carrier × o.Carrier)
      → bucket_of o s (key_of o r) later ≡ b
      → ((validate o s now later r).1.valid ≡ o.le (o.of_ℕ 1) (refilled o s now b))
        × (lookup (key_of o r) ((validate o s now later r).0.buckets)
            ≡ some (left (refilled o s now b), now))
        × ((validate o s now later r).0.capacity ≡ s.capacity)
        × ((validate o s now later r).0.refill_per_sec ≡ s.refill_per_sec)
  unfolding validate
  validate_bucket s now later r b h =
      let key = key_of o r in
      let tokens = refilled o s now b in
      elim (Bool-cases (o.le (o.of_ℕ 1) tokens)) [
        | inl enough ↦
            let written = lookup-insert key key (o.sub tokens (o.of_ℕ 1), now) s.buckets in
            rw (validate, h, enough) (refl, ground (arith, written, =?-self key), refl, refl)
        | inr short ↦
            let written = lookup-insert key key (tokens, now) s.buckets in
            rw (validate, h, short) (refl, ground (arith, written, =?-self key), refl, refl)
      ]

  refilled_worth :
      (now tokens last : o.Carrier)
      → o.lt now last ≡ false
      → pos 0 ≤ℤ exact.worth tokens
      → (exact.worth (refilled o s0 now (tokens, last)) +ℤ exact.gain last
          ≤ℤ exact.worth tokens +ℤ exact.gain now)
        × (pos 0 ≤ℤ exact.worth (refilled o s0 now (tokens, last)))
  refilled_worth now tokens last h nonneg =
      let paid = refill o s0.refill_per_sec last now in
      let sum = o.add tokens paid in
      let cap = o.of_ℕ s0.capacity in
      let of_sum = exact.worth_add tokens paid in
      let of_paid = exact.refill_exact last now h in
      let paid_nonneg = exact.refill_nonneg last now in
      let of_cap = exact.worth_of_ℕ s0.capacity in
      let parts_sum = +ℤ_parts (exact.worth tokens) (exact.worth paid) in
      let parts_paid = -ℤ_parts (exact.gain now) (exact.gain last) in
      let parts_after = +ℤ_parts (exact.worth tokens) (exact.gain now) in
      elim (Bool-cases (o.lt sum cap)) [
        | inl less ↦
            let parts = +ℤ_parts (exact.worth sum) (exact.gain last) in
            rw (refilled, less) (ground arith, ground arith)
        | inr not_less ↦
            let parts = +ℤ_parts (exact.worth cap) (exact.gain last) in
            let lower = exact.worth_not_lt sum cap not_less in
            rw (refilled, not_less) (ground arith, ground arith)
      ]

  -- A refilled bucket holds at most the capacity, and is not in debt.
  refilled_cap :
      (now tokens last : o.Carrier)
      → pos 0 ≤ℤ exact.worth tokens
      → (exact.worth (refilled o s0 now (tokens, last)) ≤ℤ pos (s0.capacity * exact.unit))
        × (pos 0 ≤ℤ exact.worth (refilled o s0 now (tokens, last)))
  refilled_cap now tokens last nonneg =
      let paid = refill o s0.refill_per_sec last now in
      let sum = o.add tokens paid in
      let cap = o.of_ℕ s0.capacity in
      let of_sum = exact.worth_add tokens paid in
      let paid_nonneg = exact.refill_nonneg last now in
      let of_cap = exact.worth_of_ℕ s0.capacity in
      let parts_sum = +ℤ_parts (exact.worth tokens) (exact.worth paid) in
      elim (Bool-cases (o.lt sum cap)) [
        | inl less ↦
            let upper = exact.worth_lt sum cap less in
            rw (refilled, less) (ground arith, ground arith)
        | inr not_less ↦ rw (refilled, not_less) (ground arith, ground arith)
      ]

  -- An accepted record costs one token, and a bucket is never in debt.
  left_worth :
      (tokens : o.Carrier)
      → pos 0 ≤ℤ exact.worth tokens
      → (pos 0 ≤ℤ exact.worth (left tokens))
        × (exact.worth (left tokens) +ℤ pos (if o.le (o.of_ℕ 1) tokens then exact.unit else 0)
            ≡ exact.worth tokens)
  left_worth tokens nonneg =
      let one = exact.worth_of_ℕ 1 in
      let less = exact.worth_sub tokens (o.of_ℕ 1) in
      let parts_less = -ℤ_parts (exact.worth tokens) (exact.worth (o.of_ℕ 1)) in
      elim (Bool-cases (o.le (o.of_ℕ 1) tokens)) [
        | inl enough ↦
            let covers = exact.worth_le (o.of_ℕ 1) tokens enough in
            let parts = +ℤ_parts (exact.worth (o.sub tokens (o.of_ℕ 1))) (pos exact.unit) in
            rw (left, enough) (ground arith, eq_of_parts _ _ (ground arith))
        | inr short ↦
            let parts = +ℤ_parts (exact.worth tokens) (pos 0) in
            rw (left, short) (ground arith, eq_of_parts _ _ (ground arith))
      ]

  -- Two limiters with the limits of `s0`.
  abbrev Limited : Limiter o → Type 0
  Limited s = (s.capacity ≡ s0.capacity) × (s.refill_per_sec ≡ s0.refill_per_sec)

  abbrev OwnCalls : String → List (o.Carrier × o.Carrier × LogRecord o.Carrier) → Type 0
  OwnCalls key [] = Unit
  OwnCalls key ((now, later, r) ∷ calls) = (key_of o r ≡ key) × OwnCalls key calls

  accepted_cost :
      (r : LogRecord o.Carrier) (ok : Bool) (answers : List (LogRecord o.Carrier × Bool))
      → accepted o ((r, ok) ∷ answers) * exact.unit
        ≡ (if ok then exact.unit else 0) + accepted o answers * exact.unit
  accepted_cost r true answers = grind arith
  accepted_cost r false answers = omega arith

  one_call :
      (s : Limiter o) (key : String) (now later : o.Carrier) (r : LogRecord o.Carrier)
      → (b : o.Carrier × o.Carrier) → Limited s
      → key_of o r ≡ key
      → bucket_of o s key later ≡ b
      → ((validate o s now later r).1.valid ≡ o.le (o.of_ℕ 1) (refilled o s0 now b))
        × (lookup key ((validate o s now later r).0.buckets)
            ≡ some (left (refilled o s0 now b), now))
        × Limited ((validate o s now later r).0)
  one_call s key now later r b lim own there =
      let call = validate_bucket s now later r b (rw own there) in
      let same : refilled o s now b ≡ refilled o s0 now b = rw (refilled, lim.0, lim.1) refl in
      (
        call.0 ∙ ap (λ t. o.le (o.of_ℕ 1) t) same,
        rw (sym own, sym same) (call.1),
        (call.2 ∙ lim.0, call.3 ∙ lim.1),
      )

  run-spends :
      (key : String) (calls : List (o.Carrier × o.Carrier × LogRecord o.Carrier))
      → (s : Limiter o) (tokens last : o.Carrier) → Limited s
      → lookup key s.buckets ≡ some (tokens, last)
      → OwnCalls key calls
      → Steady o last calls
      → pos 0 ≤ℤ exact.worth tokens
      → pos (accepted o ((run o s calls).1) * exact.unit) +ℤ exact.gain last
        ≤ℤ exact.worth tokens +ℤ exact.gain (end_of o last calls)
  run-spends key [] s tokens last lim there own steady nonneg =
      let parts = +ℤ_parts (pos (0 * exact.unit)) (exact.gain last) in
      let parts' = +ℤ_parts (exact.worth tokens) (exact.gain last) in ground arith
  run-spends key ((now, later, r) ∷ calls) s tokens last lim there own steady nonneg =
      let tokens' = refilled o s0 now (tokens, last) in
      let bucket : bucket_of o s key later ≡ (tokens, last) = rw (bucket_of, there) refl in
      let call = one_call s key now later r (tokens, last) lim own.0 bucket in
      let refilling = refilled_worth now tokens last steady.0 nonneg in
      let spending = left_worth tokens' refilling.1 in
      let s' = (validate o s now later r).0 in
      let answers = (run o s' calls).1 in
      let ih = run-spends key calls s' (left tokens') now call.2 call.1 own.1 steady.1 spending.0 in
      let ok = o.le (o.of_ℕ 1) tokens' in
      let paid = accepted_cost r ok answers in
      let parts_ih = +ℤ_parts (pos (accepted o answers * exact.unit)) (exact.gain now) in
      let parts_left = +ℤ_parts (exact.worth (left tokens')) (exact.gain (end_of o now calls)) in
      let parts_cost = +ℤ_parts (exact.worth (left tokens')) (pos (if ok then exact.unit else 0)) in
      let parts_refill = +ℤ_parts (exact.worth tokens') (exact.gain last) in
      let parts_before = +ℤ_parts (exact.worth tokens) (exact.gain now) in
      let parts_end = +ℤ_parts (exact.worth tokens) (exact.gain (end_of o now calls)) in
      let parts_start =
        +ℤ_parts (pos (accepted o ((r, ok) ∷ answers) * exact.unit)) (exact.gain last) in
      rw (run, call.0) (ground arith)

  calls_of_own :
      (key : String) (calls : List (o.Carrier × o.Carrier × LogRecord o.Carrier))
      → OwnCalls key (calls_of o key calls)
  calls_of_own key [] = tt
  calls_of_own key ((now, later, r) ∷ calls) = elim (=?-cases key (key_of o r)) [
    | inl (own, hit) ↦ rw (calls_of, hit) (sym own, calls_of_own key calls)
    | inr (_, miss) ↦ rw (calls_of, miss) (calls_of_own key calls)
  ]

  first_spends :
      (key : String) (now later : o.Carrier) (r : LogRecord o.Carrier)
      → (more : List (o.Carrier × o.Carrier × LogRecord o.Carrier))
      → OwnCalls key ((now, later, r) ∷ more)
      → Steady o now more
      → lookup key s0.buckets ≡ none
      → pos (accepted o ((run o s0 ((now, later, r) ∷ more)).1) * exact.unit) +ℤ exact.gain now
        ≤ℤ pos (s0.capacity * exact.unit) +ℤ exact.gain (end_of o now more)
  first_spends key now later r more own steady absent =
      let full : o.Carrier × o.Carrier = (o.of_ℕ s0.capacity, later) in
      let tokens' = refilled o s0 now full in
      let bucket : bucket_of o s0 key later ≡ full = rw (bucket_of, absent) refl in
      let call = one_call s0 key now later r full (refl, refl) own.0 bucket in
      let of_cap = exact.worth_of_ℕ s0.capacity in
      let refilling = refilled_cap now (o.of_ℕ s0.capacity) later (rw of_cap (omega arith)) in
      let spending = left_worth tokens' refilling.1 in
      let s' = (validate o s0 now later r).0 in
      let answers = (run o s' more).1 in
      let ih = run-spends key more s' (left tokens') now call.2 call.1 own.1 steady spending.0 in
      let ok = o.le (o.of_ℕ 1) tokens' in
      let paid = accepted_cost r ok answers in
      let parts_ih = +ℤ_parts (pos (accepted o answers * exact.unit)) (exact.gain now) in
      let parts_left = +ℤ_parts (exact.worth (left tokens')) (exact.gain (end_of o now more)) in
      let parts_cost = +ℤ_parts (exact.worth (left tokens')) (pos (if ok then exact.unit else 0)) in
      let parts_end = +ℤ_parts (pos (s0.capacity * exact.unit)) (exact.gain (end_of o now more)) in
      let parts_start =
        +ℤ_parts (pos (accepted o ((r, ok) ∷ answers) * exact.unit)) (exact.gain now) in
      rw (run, call.0) (ground arith)

  -- In exact arithmetic, and with a clock that does not go back, a source without a bucket has at
  -- most as many records accepted as the capacity and what the rate pays from its first record to
  -- its last one, whatever records of other sources come between.
  pub accepted-capacity :
      (key : String) (calls : List (o.Carrier × o.Carrier × LogRecord o.Carrier))
      → (now later : o.Carrier) (r : LogRecord o.Carrier)
      → (more : List (o.Carrier × o.Carrier × LogRecord o.Carrier))
      → calls_of o key calls ≡ (now, later, r) ∷ more
      → Steady o now more
      → lookup key s0.buckets ≡ none
      → pos (accepted o (answers_of o key ((run o s0 calls).1)) * exact.unit) +ℤ exact.gain now
        ≤ℤ pos (s0.capacity * exact.unit) +ℤ exact.gain (end_of o now more)
  accepted-capacity key calls now later r more own steady absent =
      let mine : OwnCalls key ((now, later, r) ∷ more) = rw own at (calls_of_own key calls) in
      rw (run_isolated o key s0 calls, own) (first_spends key now later r more mine steady absent)
