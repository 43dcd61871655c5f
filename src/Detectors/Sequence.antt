-- ===== src/Detectors/Sequence.antt =====
-- src/pipelinex/detectors/sequence.py: the n-grams of a closed trace against those of a model. A
-- frozenset is a list of which only membership is used. `in_order` stands for `sorted` on n-grams.
pub mod Novelty
pub mod Json
use pipelinex.Prelude.{
  sym, ℕ, zero, suc, ◌+◌, ◌-◌, ◌≤◌, ◌<◌, ◌≡◌, ◌≢◌, ◌↔◌, ◌⊎◌, refl, String, Bool, true, false, not,
  List, [], ◌∷◌, ◌++◌, Option, none, some, map, arith, inl, inr,
}
use pipelinex.Prelude.Tests.{if◌then◌else◌, leb, ltb, Bool-cases}
use pipelinex.Prelude.Lists.{length, take, drop, keep_if, All}
use pipelinex.Prelude.Equality.{Eq, ◌=?◌, string_eq}
use pipelinex.Prelude.Dict.{Dict, lookup}
use pipelinex.Prelude.Int.{ℤ, pos, pos_part}
use pipelinex.Detectors.{few_or_many}
use pipelinex.Floats.{Floats}
use pipelinex.Models.{reason_text, Value, AnomalyEvent, BlockTrace, ClosedReason}

pub record SequenceModel : Type 0 where
  pub n : ℤ
  pub normal_ngrams : List (List String)
  pub vocabulary : List String

abbrev pub empty : ℤ → SequenceModel
empty n = record { n = n; normal_ngrams = []; vocabulary = [] }

-- `seq[i : i + n]` for each i of a range that starts at `i` and has `count` members.
abbrev pub windows : List String → ℕ → ℕ → ℕ → List (List String)
windows seq n i zero = []
windows seq n i (suc count) = take n (drop i seq) ∷ windows seq n (suc i) count

unfoldable pub ngrams : List String → ℤ → List (List String)
ngrams seq n =
    let size = pos_part n in
    if leb size 0
    then []
    else if ltb (length seq) size
    then []
    else windows seq size 0 (length seq - size + 1)

-- `==` on tuples of texts.
abbrev pub same_ngram : List String → List String → Bool
same_ngram [] [] = true
same_ngram [] (y ∷ ys) = false
same_ngram (x ∷ xs) [] = false
same_ngram (x ∷ xs) (y ∷ ys) = if x =? y then same_ngram xs ys else false

abbrev pub member : List String → List (List String) → Bool
member g [] = false
member g (h ∷ hs) = if same_ngram g h then true else member g hs

-- `set(...)`: each n-gram once.
abbrev pub distinct : List (List String) → List (List String)
distinct [] = []
distinct (g ∷ gs) = let rest = distinct gs in if member g rest then rest else g ∷ rest

-- `observed - normal`
abbrev pub minus : List (List String) → List (List String) → List (List String)
minus observed normal = keep_if (λ g. not (member g normal)) observed

module _ (o : Floats) (in_order : List (List String) → List (List String)) where
  -- `log_record_id` is the first record of the trace, or else a fresh identifier.
  abbrev pub event :
      SequenceModel
      → o.Carrier
      → ℕ
      → ℕ
      → ℕ
      → BlockTrace
      → List (List String)
      → ℕ
      → AnomalyEvent o.Carrier
  event model ratio uid fresh now trace novel observed_count = record {
    id = uid;
    log_record_id = elim trace.record_ids [ [] ↦ fresh | anchor ∷ _ ↦ anchor ];
    detector_name = "sequence_ngram";
    severity_score = ratio;
    detected_at = now;
    metadata =
        ("block_id", Value.text trace.block_id)
        ∷ ("n", Value.int model.n)
        ∷ ("novel_ngrams", Value.text_lists (take 20 (in_order novel)))
        ∷ ("observed_count", Value.int (pos observed_count))
        ∷ ("novel_count", Value.int (pos (length novel)))
        ∷ ("event_sequence_length", Value.int (pos (length trace.event_sequence)))
        ∷ ("closed_reason", Value.text (reason_text trace.closed_reason))
        ∷ [];
  }

  -- The verdict on the n-grams of a trace.
  abbrev pub judge :
      SequenceModel
      → o.Carrier
      → ℕ
      → ℕ
      → ℕ
      → BlockTrace
      → List (List String)
      → Option (AnomalyEvent o.Carrier)
  judge model threshold uid fresh now trace [] = none
  judge model threshold uid fresh now trace (g ∷ gs) =
      let observed = distinct (g ∷ gs) in
      let novel = minus observed model.normal_ngrams in
      let ratio = o.div (o.of_ℕ (length novel)) (o.of_ℕ (length observed)) in
      if o.le ratio threshold
      then none
      else some (event model ratio uid fresh now trace novel (length observed))

  unfoldable pub detect_trace :
      SequenceModel → o.Carrier → ℕ → ℕ → ℕ → BlockTrace → Option (AnomalyEvent o.Carrier)
  detect_trace model threshold uid fresh now trace =
      judge model threshold uid fresh now trace (ngrams trace.event_sequence model.n)
