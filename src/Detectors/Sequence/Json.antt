-- ===== src/Detectors/Sequence/Json.antt =====
-- `from_dict` and `to_dict` of `SequenceModel` in src/pipelinex/detectors/sequence.py. `to_text`
-- stands for `str`, `listed` for the order in which a frozenset yields its members, and `sorted_of`
-- for `sorted` on a set of texts. none stands for `ValueError` and `TypeError`.
use pipelinex.Prelude.{
  ℕ, ◌≡◌, ◌↔◌, ◌∙◌, sym, refl, String, Bool, true, false, List, [], ◌∷◌, Option, none, some,
}
use pipelinex.Prelude.Text.{◌>>=◌}
use pipelinex.Prelude.Dict.{Dict, lookup}
use pipelinex.Prelude.Equality.{string_eq}
use pipelinex.Prelude.Int.{ℤ, pos}
use pipelinex.Models.{BlockTrace}
use pipelinex.Floats.{Floats}
use pipelinex.Detectors.Sequence.{SequenceModel, member, detect_trace}
use pipelinex.Detectors.Sequence.Novelty.{HasShares, detect_trace_iff}

-- A value of JSON, and a sequence of values. `keys` are those of an object, which are all that the
-- code would read of one.
mutual
  pub data Json : Type 0 where
    null : Json
    boolean : Bool → Json
    int : ℤ → Json
    float : Json
    text : String → Json
    array : JsonList → Json
    object : List String → Json

  pub data JsonList : Type 0 where
    end : JsonList
    item : Json → JsonList → JsonList

-- The texts of the characters of a text.
abbrev pub characters : String → List String
characters String.[] = []
characters (String.◌∷◌ c s) = String.◌∷◌ c "" ∷ characters s

module _ (to_text : Json → String) where
  abbrev pub texts_of : JsonList → List String
  texts_of JsonList.end = []
  texts_of (JsonList.item v vs) = to_text v ∷ texts_of vs

  -- `tuple(str(t) for t in g)`
  abbrev pub ngram_of : Json → Option (List String)
  ngram_of (Json.array vs) = some (texts_of vs)
  ngram_of (Json.text s) = some (characters s)
  ngram_of (Json.object keys) = some keys
  ngram_of _ = none

  abbrev pub ngrams_of : JsonList → Option (List (List String))
  ngrams_of JsonList.end = some []
  ngrams_of (JsonList.item g gs) =
      ngram_of g >>= (λ first. ngrams_of gs >>= (λ more. some (first ∷ more)))

  -- `data.get("n", DEFAULT_N)`, which must be an `int`; a `bool` is one.
  abbrev pub number_of : Option Json → Option ℤ
  number_of none = some (pos 2)
  number_of (some (Json.int n)) = some n
  number_of (some (Json.boolean true)) = some (pos 1)
  number_of (some (Json.boolean false)) = some (pos 0)
  number_of (some _) = none

  -- A field that must be a list, which is empty where it is missing.
  abbrev pub list_of : Option Json → Option JsonList
  list_of none = some JsonList.end
  list_of (some (Json.array vs)) = some vs
  list_of (some _) = none

  unfoldable pub from_dict : Dict String Json → Option SequenceModel
  from_dict data_ = number_of (lookup "n" data_) >>= (λ n.
      list_of (lookup "normal_ngrams" data_) >>= (λ ngrams_field.
        list_of (lookup "vocabulary" data_) >>= (λ vocab_field.
          ngrams_of ngrams_field >>= (λ normal.
            some (record { n = n; normal_ngrams = normal; vocabulary = texts_of vocab_field })))))

abbrev pub json_texts : List String → JsonList
json_texts [] = JsonList.end
json_texts (s ∷ ss) = JsonList.item (Json.text s) (json_texts ss)

abbrev pub json_ngrams : List (List String) → JsonList
json_ngrams [] = JsonList.end
json_ngrams (g ∷ gs) = JsonList.item (Json.array (json_texts g)) (json_ngrams gs)

module _ (listed : List (List String) → List (List String))
    (sorted_of : List String → List String) where
  unfoldable pub to_dict : SequenceModel → Dict String Json
  to_dict m =
      ("n", Json.int m.n)
      ∷ ("normal_ngrams", Json.array (json_ngrams (listed m.normal_ngrams)))
      ∷ ("vocabulary", Json.array (json_texts (sorted_of m.vocabulary)))
      ∷ []

-- What is relied on: `str` of a text is the text, and a set yields its members.
pub record IsListing (to_text : Json → String) (listed : List (List String) → List (List String))
    : Type 0 where
  pub text_kept : (s : String) → to_text (Json.text s) ≡ s
  pub members_kept :
      (g : List String) (gs : List (List String)) → member g (listed gs) ≡ member g gs

module _ (to_text : Json → String) (listed : List (List String) → List (List String))
    (sorted_of : List String → List String) (laws : IsListing to_text listed) where
  texts_of-json_texts : (ss : List String) → texts_of to_text (json_texts ss) ≡ ss
  texts_of-json_texts [] = refl
  texts_of-json_texts (s ∷ ss) = rw (laws.text_kept s, texts_of-json_texts ss) refl

  ngrams_of-json_ngrams : (gs : List (List String)) → ngrams_of to_text (json_ngrams gs) ≡ some gs
  ngrams_of-json_ngrams [] = refl
  ngrams_of-json_ngrams (g ∷ gs) = rw (texts_of-json_texts g, ngrams_of-json_ngrams gs) refl

  -- The model that is read back.
  abbrev pub reloaded : SequenceModel → SequenceModel
  reloaded m = record {
    n = m.n;
    normal_ngrams = listed m.normal_ngrams;
    vocabulary = sorted_of m.vocabulary;
  }

  from_dict-to_dict_model :
      (m : SequenceModel) → from_dict to_text (to_dict listed sorted_of m) ≡ some (reloaded m)
  unfolding from_dict to_dict
  from_dict-to_dict_model m =
      rw
        (
          from_dict,
          to_dict,
          ngrams_of-json_ngrams (listed m.normal_ngrams),
          texts_of-json_texts (sorted_of m.vocabulary),
        )
        refl

  -- A model that is written as a dict is read back with its n-grams and its vocabulary in the order
  -- written, and flags the same traces at threshold zero. A set yields its members, `str` keeps a
  -- text, and a share of a set is zero only for nothing.
  pub from_dict-to_dict :
      (o : Floats) (in_order : List (List String) → List (List String)) (shares : HasShares o)
      (uid fresh now : ℕ) (m : SequenceModel) (trace : BlockTrace)
      → (from_dict to_text (to_dict listed sorted_of m) ≡ some (reloaded m))
        × ((detect_trace o in_order (reloaded m) o.zero uid fresh now trace ≡ none)
            ↔ (detect_trace o in_order m o.zero uid fresh now trace ≡ none))
  from_dict-to_dict o in_order shares uid fresh now m trace =
      let before = detect_trace_iff o in_order shares m uid fresh now trace in
      let after = detect_trace_iff o in_order shares (reloaded m) uid fresh now trace in
      (
        from_dict-to_dict_model m,
        (
          λ h. before.1 (λ i some_size fits.
              sym (laws.members_kept _ m.normal_ngrams) ∙ after.0 h i some_size fits),
          λ h. after.1 (λ i some_size fits.
              laws.members_kept _ m.normal_ngrams ∙ before.0 h i some_size fits),
        ),
      )
