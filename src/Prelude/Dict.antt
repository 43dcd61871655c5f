-- ===== src/Prelude/Dict.antt =====
-- A Python dict (and `OrderedDict`): an association list in insertion order.
use mathlib.Core.Bool.{Bool, true, false}
use mathlib.Core.List.{List, [], ◌∷◌, ◌++◌}
use Prim.Native.Nat.{◌+◌, ◌≤◌}
use mathlib.Core.Logic.{◌≢◌, inl, inr}
use mathlib.Core.Option.{Option, none, some}
use mathlib.Core.Path.{◌≡◌, refl}
use native.Mathlib.Omega.{arith}
use pipelinex.Prelude.Lists.{length, All}
use pipelinex.Prelude.Tests.{if◌then◌else◌}
use pipelinex.Prelude.Equality.{Eq, ◌=?◌, =?-cases}

abbrev pub Dict {ℓ} : Type ℓ → Type ℓ → Type ℓ
Dict K V = List (K × V)

module _ {ℓ} {K V : Type ℓ} ⦃e : Eq K⦄ where
  -- `d.get(k)`
  abbrev pub lookup : K → Dict K V → Option V
  lookup k [] = none
  lookup k ((j, v) ∷ d) = if k =? j then some v else lookup k d

  -- `k in d`
  abbrev pub contains : K → Dict K V → Bool
  contains k d = elim (lookup k d) [ none ↦ false | some _ ↦ true ]

  -- `d[k] = v`: in its place, or at the end.
  abbrev pub insert : K → V → Dict K V → Dict K V
  insert k v [] = (k, v) ∷ []
  insert k v ((j, w) ∷ d) = if k =? j then (j, v) ∷ d else (j, w) ∷ insert k v d

  -- `d.pop(k, None)`
  abbrev pub remove : K → Dict K V → Dict K V
  remove k [] = []
  remove k ((j, w) ∷ d) = if k =? j then d else (j, w) ∷ remove k d

  -- No key stands twice.
  abbrev pub Distinct : Dict K V → Type ℓ
  Distinct [] = Unit
  Distinct ((j, w) ∷ d) = (lookup j d ≡ none) × Distinct d

  pub lookup-insert :
      (k j : K) (v : V) (d : Dict K V)
      → lookup j (insert k v d) ≡ (if j =? k then some v else lookup j d)
  lookup-insert k j v [] = refl
  lookup-insert k j v ((i, w) ∷ d) =
      ground (arith, e.beq_iff j k, e.beq_iff k i, e.beq_iff j i, lookup-insert k j v d)

  pub lookup-remove_ne : (k j : K) (d : Dict K V) → j ≢ k → lookup j (remove k d) ≡ lookup j d
  lookup-remove_ne k j [] h = refl
  lookup-remove_ne k j ((i, w) ∷ d) h =
      ground (arith, e.beq_iff k i, e.beq_iff j i, lookup-remove_ne k j d h)

  pub lookup-remove_self : (k : K) (d : Dict K V) → Distinct d → lookup k (remove k d) ≡ none
  lookup-remove_self k [] h = refl
  lookup-remove_self k ((i, w) ∷ d) h = ground (arith, e.beq_iff k i, lookup-remove_self k d h.1)

  pub lookup-append :
      (k : K) (d d' : Dict K V)
      → lookup k (d ++ d') ≡ elim (lookup k d) [ none ↦ lookup k d' | some v ↦ some v ]
  lookup-append k [] d' = refl
  lookup-append k ((i, w) ∷ d) d' = ground (arith, lookup-append k d d')

  pub insert-Distinct : (k : K) (v : V) (d : Dict K V) → Distinct d → Distinct (insert k v d)
  insert-Distinct k v [] h = (refl, tt)
  insert-Distinct k v ((i, w) ∷ d) h =
      ground (arith, e.beq_iff k i, e.beq_iff i k, lookup-insert k i v d, insert-Distinct k v d h.1)

  pub remove-Distinct : (k : K) (d : Dict K V) → Distinct d → Distinct (remove k d)
  remove-Distinct k [] h = h
  remove-Distinct k ((i, w) ∷ d) h =
      ground (arith, e.beq_iff k i, e.beq_iff i k, lookup-remove_ne k i d, remove-Distinct k d h.1)

  -- An absent key: nothing to remove, and a write goes to the end.
  pub remove_absent : (k : K) (d : Dict K V) → lookup k d ≡ none → remove k d ≡ d
  remove_absent k [] h = refl
  remove_absent k ((i, w) ∷ d) h = ground (arith, remove_absent k d)

  pub insert_absent :
      (k : K) (v : V) (d : Dict K V) → lookup k d ≡ none → insert k v d ≡ d ++ (k, v) ∷ []
  insert_absent k v [] h = refl
  insert_absent k v ((i, w) ∷ d) h = ground (arith, insert_absent k v d)

  pub insert_last :
      (k : K) (v w : V) (d : Dict K V)
      → lookup k d ≡ none
      → insert k v (d ++ (k, w) ∷ []) ≡ d ++ (k, v) ∷ []
  insert_last k v w [] h = ground (arith, e.beq_iff k k)
  insert_last k v w ((i, x) ∷ d) h = ground (arith, insert_last k v w d)

  pub remove_last :
      (k : K) (v : V) (d : Dict K V) → lookup k d ≡ none → remove k (d ++ (k, v) ∷ []) ≡ d
  remove_last k v [] h = ground (arith, e.beq_iff k k)
  remove_last k v ((i, x) ∷ d) h = ground (arith, remove_last k v d)

  pub append-Distinct :
      (k : K) (v : V) (d : Dict K V) → Distinct d → lookup k d ≡ none → Distinct (d ++ (k, v) ∷ [])
  append-Distinct k v [] h a = (refl, tt)
  append-Distinct k v ((i, w) ∷ d) h a = ground (
    arith,
    e.beq_iff k i,
    e.beq_iff i k,
    lookup-append i d ((k, v) ∷ []),
    append-Distinct k v d h.1,
  )

  pub length-remove-le : (k : K) (d : Dict K V) → length (remove k d) ≤ length d
  length-remove-le k [] = omega arith
  length-remove-le k ((i, w) ∷ d) = ground (arith, length-remove-le k d)

  pub length-remove :
      (k : K) (v : V) (d : Dict K V) → lookup k d ≡ some v → length (remove k d) + 1 ≡ length d
  length-remove k v [] h = cc
  length-remove k v ((i, w) ∷ d) h = ground (arith, length-remove k v d)

  pub All-remove {κ} : (P : K × V → Type κ) (k : K) (d : Dict K V) → All P d → All P (remove k d)
  All-remove P k [] h = h
  All-remove P k ((i, w) ∷ d) h = elim (=?-cases k i) [
    | inl (_, hit) ↦ rw (hit, remove) h.1
    | inr (_, miss) ↦ rw (miss, remove) (h.0, All-remove P k d h.1)
  ]

  pub All-lookup {κ} :
      (P : K × V → Type κ) (k : K) {v : V} (d : Dict K V) → All P d → lookup k d ≡ some v → P (k, v)
  All-lookup P k [] h found = cc
  All-lookup P k {v} ((i, w) ∷ d) h found = elim (=?-cases k i) [
    | inl (same, hit) ↦ let there : w ≡ v = ground arith in rw (same, ← there) h.0
    | inr (_, miss) ↦ All-lookup P k d h.1 (ground arith)
  ]
