-- ===== src/Detectors/Sequence/Novelty.antt =====
-- When src/pipelinex/detectors/sequence.py flags a trace: its windows against the model.
use pipelinex.Prelude.{
  ℕ, zero, suc, ◌+◌, ◌-◌, ◌≤◌, ◌<◌, ◌≡◌, ◌↔◌, String, true, false, List, [], ◌∷◌, none, arith, inl,
  inr,
}
use pipelinex.Prelude.Tests.{leb, ltb, Bool-cases}
use pipelinex.Prelude.Lists.{length, take, drop, All}
use pipelinex.Prelude.Equality.{string_eq}
use pipelinex.Prelude.Int.{pos_part}
use pipelinex.Detectors.{few_or_many}
use pipelinex.Floats.{Floats}
use pipelinex.Models.{BlockTrace}
use pipelinex.Detectors.Sequence.{
  SequenceModel, windows, ngrams, same_ngram, member, distinct, minus, judge, detect_trace,
}

-- A trace of which a model has seen every window of n events.
abbrev pub IsNormal : SequenceModel → BlockTrace → Type 0
IsNormal model trace =
    (i : ℕ)
    → 0 < pos_part model.n
    → i + pos_part model.n ≤ length trace.event_sequence
    → member (take (pos_part model.n) (drop i trace.event_sequence)) model.normal_ngrams ≡ true

-- What `detect_trace` needs of division: a share of a set that is not empty is positive, unless it
-- is the share of nothing.
pub record HasShares (o : Floats) : Type 0 where
  pub share_iff : (a b : ℕ) → (o.le (o.div (o.of_ℕ a) (o.of_ℕ (suc b))) o.zero ≡ true) ↔ (a ≡ 0)

same_ngram_iff : (g h : List String) → (same_ngram g h ≡ true) ↔ (g ≡ h)
same_ngram_iff [] [] = ground arith
same_ngram_iff [] (y ∷ ys) = ground arith
same_ngram_iff (x ∷ xs) [] = ground arith
same_ngram_iff (x ∷ xs) (y ∷ ys) = ground (arith, string_eq.beq_iff x y, same_ngram_iff xs ys)

abbrev pub AllNormal : List (List String) → List (List String) → Type 0
AllNormal normal gs = All (λ g. member g normal ≡ true) gs

-- A member of a set stands in the list that the set is made of.
seen_normal :
    (normal : List (List String)) (g : List String) (gs : List (List String))
    → member g (distinct gs) ≡ true
    → AllNormal normal gs
    → member g normal ≡ true
seen_normal normal g [] h all = ground arith
seen_normal normal g (k ∷ gs) h all =
    let same = same_ngram_iff g k in
    let later = seen_normal normal g gs in grind (arith, same, later, all.0, all.1)

-- No n-gram is novel exactly when all that were observed are normal.
minus_empty :
    (normal gs : List (List String))
    → (length (minus (distinct gs) normal) ≡ 0) ↔ AllNormal normal gs
minus_empty normal [] = ground arith
minus_empty normal (g ∷ gs) = ground (arith, minus_empty normal gs, seen_normal normal g gs)

windows_normal :
    (normal : List (List String)) (seq : List String) (n i count : ℕ)
    → AllNormal normal (windows seq n i count)
    → (j : ℕ) → i ≤ j
    → j < i + count
    → member (take n (drop j seq)) normal ≡ true
windows_normal normal seq n i zero all j low high = absurd (omega (arith, low, high))
windows_normal normal seq n i (suc count) all j low high = elim (few_or_many j i) [
  | inl first ↦ let here : j ≡ i = omega arith in rw here all.0
  | inr later ↦ windows_normal normal seq n (suc i) count all.1 j (omega arith) (omega arith)
]

normal_windows :
    (normal : List (List String)) (seq : List String) (n i count : ℕ)
    → ((j : ℕ) → i ≤ j → j < i + count → member (take n (drop j seq)) normal ≡ true)
    → AllNormal normal (windows seq n i count)
normal_windows normal seq n i zero h = tt
normal_windows normal seq n i (suc count) h = (
  h i (omega arith) (omega arith),
  normal_windows normal seq n (suc i) count (λ j low high. h j (omega arith) (omega arith)),
)

pub ngrams-IsNormal :
    (model : SequenceModel) (trace : BlockTrace)
    → AllNormal model.normal_ngrams (ngrams trace.event_sequence model.n) ↔ IsNormal model trace
unfolding ngrams
ngrams-IsNormal model trace = (forth, back)
  where
    forth :
        AllNormal model.normal_ngrams (ngrams trace.event_sequence model.n) → IsNormal model trace
    forth all i some_size fits =
        let first : leb (pos_part model.n) 0 ≡ false = ground arith in
        let second : ltb (length trace.event_sequence) (pos_part model.n) ≡ false = ground arith in
        let count = length trace.event_sequence - pos_part model.n + 1 in
        let in_windows : AllNormal model.normal_ngrams
            (windows trace.event_sequence (pos_part model.n) 0 count) =
          rw (first, second) at all in
        windows_normal model.normal_ngrams trace.event_sequence (pos_part model.n) 0 count
          in_windows i (omega arith) (omega arith)

    back :
        IsNormal model trace → AllNormal model.normal_ngrams (ngrams trace.event_sequence model.n)
    back normal = elim (Bool-cases (leb (pos_part model.n) 0)) [
      | inl none_at_all ↦ rw none_at_all tt
      | inr some_size ↦ elim (Bool-cases (ltb (length trace.event_sequence) (pos_part model.n))) [
        | inl short ↦ rw (some_size, short) tt
        | inr fits ↦
            rw (some_size, fits)
              (normal_windows model.normal_ngrams trace.event_sequence (pos_part model.n) 0 _
                (λ j low high. normal j (ground arith) (ground arith)))
      ]
    ]

distinct_some :
    (g : List String) (gs : List (List String))
    → length (distinct (g ∷ gs)) ≡ suc (length (distinct (g ∷ gs)) - 1)
distinct_some g [] = ground arith
distinct_some g (k ∷ gs) = ground (arith, distinct_some k gs)

module _ (o : Floats) (in_order : List (List String) → List (List String)) (shares : HasShares o)
    (model : SequenceModel) (uid fresh now : ℕ) (trace : BlockTrace) where
  judge_iff :
      (gs : List (List String))
      → (judge o in_order model o.zero uid fresh now trace gs ≡ none)
        ↔ AllNormal model.normal_ngrams gs
  judge_iff [] = ground arith
  judge_iff (g ∷ gs) =
      let novel = length (minus (distinct (g ∷ gs)) model.normal_ngrams) in
      let observed = length (distinct (g ∷ gs)) in
      let size : observed ≡ suc (observed - 1) = distinct_some g gs in
      let share : (o.le (o.div (o.of_ℕ novel) (o.of_ℕ observed)) o.zero ≡ true) ↔ (novel ≡ 0) =
        rw size (shares.share_iff novel (observed - 1)) in
      ground (arith, share, minus_empty model.normal_ngrams (g ∷ gs))

  -- At the default threshold of zero a closed trace is flagged unless every window of n events of
  -- it stands in the model.
  pub detect_trace_iff :
      (detect_trace o in_order model o.zero uid fresh now trace ≡ none) ↔ IsNormal model trace
  unfolding detect_trace
  detect_trace_iff =
      let verdict = judge_iff (ngrams trace.event_sequence model.n) in
      let normal = ngrams-IsNormal model trace in
      (λ h. normal.0 (verdict.0 h), λ h. verdict.1 (normal.1 h))
