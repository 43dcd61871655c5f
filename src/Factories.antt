-- ===== src/Factories.antt =====
-- The registries of src/pipelinex/stages/parsing/factory.py and src/pipelinex/detectors/factory.py:
-- constructors by kind. The result none stands for `ConfigurationError`, or `ParserError` where no
-- parser claims a line.
mod Tests
use pipelinex.Prelude.{
  ap, sym, append-nil, ◌≡◌, ◌≢◌, ◌⊎◌, refl, String, Bool, true, false, List, [], ◌∷◌, ◌++◌, Option,
  none, some, arith, inl, inr, append_assoc,
}
use pipelinex.Prelude.Tests.{if◌then◌else◌, Option-cases, Bool-cases}
use pipelinex.Prelude.Dict.{Dict, lookup, contains, insert, insert_absent, lookup-append, Distinct}
use pipelinex.Prelude.Equality.{◌=?◌, string_eq}

module _ {A : Type 0} where
  -- `register`, and `register_numeric`, `register_sequence`: a kind that is there is refused.
  unfoldable pub register : Dict String A → String → A → Option (Dict String A)
  register registry kind ctor =
      if contains kind registry then none else some (insert kind ctor registry)

  -- `create`, and `create_numeric`, `create_sequence`: the constructor of a kind.
  unfoldable pub create : Dict String A → String → Option A
  create registry kind = lookup kind registry

  -- `detect`: the first that claims a line.
  unfoldable pub detect : (A → Bool) → Dict String A → Option A
  detect claims [] = none
  detect claims ((kind, ctor) ∷ more) = if claims ctor then some ctor else detect claims more

  -- One registration after the other, as `default_factory` does.
  abbrev pub register_all : Dict String A → List (String × A) → Option (Dict String A)
  register_all registry [] = some registry
  register_all registry ((kind, ctor) ∷ more) = elim (register registry kind ctor) [
    | none ↦ none
    | some registry' ↦ register_all registry' more
  ]

-- Parsers, and the two flavours of detectors.
pub record DetectorFactory (N Q : Type 0) : Type 0 where
  pub numeric : Dict String N
  pub sequence : Dict String Q

-- `default_factory` of each module, from the constructors.
abbrev pub default_parsers : {A : Type 0} → A → A → A → Option (Dict String A)
default_parsers hdfs csv bgl =
    register_all [] (("hdfs", hdfs) ∷ ("hdfs_structured_csv", csv) ∷ ("bgl", bgl) ∷ [])

abbrev pub default_detectors : {N Q : Type 0} → N → N → N → Q → Option (DetectorFactory N Q)
default_detectors z_score iqr cusum ngram =
    elim (register_all [] (("z_score", z_score) ∷ ("iqr", iqr) ∷ ("cusum", cusum) ∷ [])) [
      | none ↦ none
      | some numeric ↦ elim (register_all [] (("sequence_ngram", ngram) ∷ [])) [
        | none ↦ none
        | some sequence ↦ some (record { numeric = numeric; sequence = sequence })
      ]
    ]

module _ {A : Type 0} where
  -- None of some entries has a kind that a registry has.
  abbrev pub Fresh : Dict String A → List (String × A) → Type 0
  Fresh registry [] = Unit
  Fresh registry ((kind, ctor) ∷ more) =
      (lookup kind registry ≡ none) × Fresh (registry ++ (kind, ctor) ∷ []) more

  register_fresh :
      (registry : Dict String A) (kind : String) (ctor : A)
      → lookup kind registry ≡ none
      → register registry kind ctor ≡ some (registry ++ (kind, ctor) ∷ [])
  unfolding register
  register_fresh registry kind ctor h = ground (arith, h, insert_absent kind ctor registry h)

  register_taken :
      (registry : Dict String A) (kind : String) (ctor other : A)
      → lookup kind registry ≡ some other
      → register registry kind ctor ≡ none
  unfolding register
  register_taken registry kind ctor other h = ground (arith, h)

  -- Registrations are refused when a kind comes twice; otherwise the registry holds all entries in
  -- the order of their registration.
  pub register_all_lem :
      (registry : Dict String A) (entries : List (String × A))
      → (Fresh registry entries × (register_all registry entries ≡ some (registry ++ entries)))
        ⊎ (¬ (Fresh registry entries) × (register_all registry entries ≡ none))
  register_all_lem registry [] = inl (tt, ap some (sym (append-nil registry)))
  register_all_lem registry ((kind, ctor) ∷ more) = elim (Option-cases (lookup kind registry)) [
    | inr (other, taken) ↦ inr (
      (λ fresh. ground (arith, fresh.0, taken)),
      rw (register_all, register_taken registry kind ctor other taken) refl,
    )
    | inl free ↦ elim (register_all_lem (registry ++ (kind, ctor) ∷ []) more) [
      | inl (fresh, ends) ↦ inl (
        (free, fresh),
        rw (register_all, register_fresh registry kind ctor free, ends, append_assoc) refl,
      )
      | inr (stale, ends) ↦ inr (
        (λ fresh. stale fresh.1),
        rw (register_all, register_fresh registry kind ctor free, ends) refl,
      )
    ]
  ]
