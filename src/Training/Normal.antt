-- ===== src/Training/Normal.antt =====
-- What a trained model has learned of the normal blocks.
use pipelinex.Prelude.{
  ◌≡◌, refl, String, true, List, [], ◌∷◌, ◌++◌, append-nil, Option, none, some, arith,
}
use pipelinex.Prelude.Lists.{All, All-weaken}
use pipelinex.Prelude.Dict.{Dict, lookup}
use pipelinex.Prelude.Equality.{string_eq}
use pipelinex.Prelude.Int.{ℤ}
use pipelinex.Detectors.Sequence.{member, ngrams}
use pipelinex.Detectors.Sequence.Novelty.{AllNormal}
use pipelinex.Training.{Learned, learn_block, learn, nothing_learned, train}

member-append_left :
    (g : List String) (xs ys : List (List String)) → member g xs ≡ true → member g (xs ++ ys) ≡ true
member-append_left g [] ys h = absurd (ground (arith, h))
member-append_left g (x ∷ xs) ys h = ground (arith, member-append_left g xs ys)

member-append_right :
    (g : List String) (xs ys : List (List String)) → member g ys ≡ true → member g (xs ++ ys) ≡ true
member-append_right g [] ys h = h
member-append_right g (x ∷ xs) ys h = ground (arith, member-append_right g xs ys h)

same_ngram_self : (g : List String) → member g (g ∷ []) ≡ true
same_ngram_self [] = refl
same_ngram_self (x ∷ g) = ground (arith, string_eq.beq_iff x x, same_ngram_self g)

AllNormal-self : (gs more : List (List String)) → AllNormal (gs ++ more) gs
AllNormal-self [] more = tt
AllNormal-self (g ∷ gs) more = (
  member-append_left g (g ∷ []) (gs ++ more) (same_ngram_self g),
  All-weaken (λ k. member k (gs ++ more) ≡ true) _ gs
      (λ k h. member-append_right k (g ∷ []) (gs ++ more) h) (AllNormal-self gs more),
)

module _ (n : ℤ) (labels : Dict String String) where
  learn_block-member :
      (g : List String) (label : Option String) (events : List String) (s : Learned)
      → member g s.normal_grams ≡ true
      → member g ((learn_block n label events s).normal_grams) ≡ true
  learn_block-member g none events s h = h
  learn_block-member g (some label) events s h =
      ground (arith, member-append_left g s.normal_grams (ngrams events n) h)

  learn-member :
      (g : List String) (blocks : Dict String (List String)) (s : Learned)
      → member g s.normal_grams ≡ true
      → member g ((learn n labels blocks s).normal_grams) ≡ true
  learn-member g [] s h = h
  learn-member g ((b, events) ∷ blocks) s h =
      learn-member g blocks (learn_block n (lookup b labels) events s)
        (learn_block-member g (lookup b labels) events s h)

  learn_block-Normal :
      (events : List String) (s : Learned)
      → AllNormal ((learn_block n (some "Normal") events s).normal_grams) (ngrams events n)
  learn_block-Normal events s =
      All-weaken (λ k. member k (ngrams events n ++ []) ≡ true) _ (ngrams events n)
        (λ k h.
          member-append_right k s.normal_grams (ngrams events n)
            (rw (append-nil (ngrams events n)) at h))
        (AllNormal-self (ngrams events n) [])

  -- A normal block, with its windows in a list of n-grams.
  abbrev pub Known : List (List String) → String × List String → Type 0
  Known grams (block_id, events) =
      lookup block_id labels ≡ some "Normal" → AllNormal grams (ngrams events n)

  learn-Known :
      (blocks : Dict String (List String)) (s : Learned)
      → All (Known ((learn n labels blocks s).normal_grams)) blocks
  learn-Known [] s = tt
  learn-Known ((b, events) ∷ blocks) s =
      let s' = learn_block n (lookup b labels) events s in
      (
        λ normal.
            All-weaken (λ g. member g s'.normal_grams ≡ true) _ (ngrams events n)
              (λ g h. learn-member g blocks s' h) (rw normal (learn_block-Normal events s)),
        learn-Known blocks s',
      )

  -- The model of a log knows every window of each block that is labelled normal.
  pub train-Known :
      (blocks : Dict String (List String))
      → All (Known ((train n labels blocks).normal_ngrams)) blocks
  train-Known blocks = learn-Known blocks nothing_learned
