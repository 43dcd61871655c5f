-- ===== src/Detectors.antt =====
-- What the numeric detectors of src/pipelinex/detectors/ share: the metric that they read off a
-- record, and the bounded window (`deque(maxlen=n)`).
pub mod ZScore
pub mod Iqr
pub mod Cusum
pub mod Sequence
pub mod Stage
pub mod Tests
use pipelinex.Prelude.{
  ◌⊎◌, ◌<◌, ℕ, zero, suc, ◌+◌, ◌-◌, ◌≤◌, ◌≡◌, refl, String, Bool, true, false, List, [], ◌∷◌, ◌++◌,
  Option, none, some, arith, inl, inr,
}
use pipelinex.Prelude.Tests.{◌==◌, if◌then◌else◌, ==_iff, Bool-cases}
use pipelinex.Prelude.Lists.{length, length-append, drop}
use pipelinex.Prelude.Dict.{lookup}
use pipelinex.Prelude.Equality.{string_eq}
use pipelinex.Floats.{Floats}
use pipelinex.Models.{Value, LogRecord}

-- `isinstance(raw, (int, float)) and not isinstance(raw, bool)`, then `float(raw)`.
abbrev pub to_float : (o : Floats) → Option (Value o.Carrier) → Option o.Carrier
to_float o (some (Value.int z)) = some (o.of_int z)
to_float o (some (Value.float x)) = some x
to_float o _ = none

-- The metric of a record, from `enrichment` or from `raw_payload`.
abbrev pub metric_of : (o : Floats) → Bool → String → LogRecord o.Carrier → Option o.Carrier
metric_of o from_enrichment key r =
    to_float o (lookup key (if from_enrichment then r.enrichment else r.raw_payload))

pub few_or_many : (m n : ℕ) → (m ≤ n) ⊎ (n < m)
few_or_many m n = ground arith

module _ {ℓ} {A : Type ℓ} where
  -- `append` to a deque with `maxlen`: the oldest entry leaves when it is full.
  unfoldable pub push : ℕ → List A → A → List A
  push maxlen w x = if length w == maxlen then drop 1 w ++ x ∷ [] else w ++ x ∷ []

  -- The last `n` entries.
  abbrev pub last_entries : ℕ → List A → List A
  last_entries n xs = drop (length xs - n) xs

  pub drop-nil : (n : ℕ) → drop {A = A} n [] ≡ []
  drop-nil zero = refl
  drop-nil (suc n) = refl

  pub drop-append : (n : ℕ) (xs ys : List A) → n ≤ length xs → drop n (xs ++ ys) ≡ drop n xs ++ ys
  drop-append zero xs ys h = refl
  drop-append (suc n) [] ys h = absurd (omega arith)
  drop-append (suc n) (x ∷ xs) ys h = drop-append n xs ys (omega arith)

  pub drop-suc : (n : ℕ) (xs : List A) → drop 1 (drop n xs) ≡ drop (suc n) xs
  drop-suc zero xs = refl
  drop-suc (suc n) [] = refl
  drop-suc (suc n) (x ∷ xs) = drop-suc n xs

  pub length-drop : (n : ℕ) (xs : List A) → length (drop n xs) ≡ length xs - n
  length-drop zero xs = omega arith
  length-drop (suc n) [] = omega arith
  length-drop (suc n) (x ∷ xs) = omega (arith, length-drop n xs)

  -- Pushing keeps the window at the last `n` entries of all that were pushed.
  pub push-last_entries :
      (n : ℕ) (xs : List A) (x : A)
      → push (suc n) (last_entries (suc n) xs) x ≡ last_entries (suc n) (xs ++ x ∷ [])
  unfolding push
  push-last_entries n xs x = elim (few_or_many (length xs) n) [
    | inl few ↦
        let at_once : length xs - suc n ≡ 0 = omega arith in
        let after : length (xs ++ x ∷ []) - suc n ≡ 0 = omega (arith, length-append xs (x ∷ [])) in
        rw (at_once, after) (ground arith)
    | inr many ↦
        let one_more : length (xs ++ x ∷ []) - suc n ≡ suc (length xs - suc n) =
          omega (arith, length-append xs (x ∷ [])) in
        let full : length (drop (length xs - suc n) xs) ≡ suc n =
          omega (arith, length-drop (length xs - suc n) xs) in
        let fits : suc (length xs - suc n) ≤ length xs = omega arith in
        rw (one_more, full)
          (ground (
            arith,
            drop-append (suc (length xs - suc n)) xs (x ∷ []),
            drop-suc (length xs - suc n) xs,
          ))
  ]
