-- ===== src/Evaluation/Bgl/Alarms.antt =====
-- The sets of windows that scripts/evaluate_bgl_point.py compares, as texts of their instants.
use pipelinex.Prelude.{
  ℕ, suc, String, Bool, true, false, List, [], ◌∷◌, ◌≡◌, refl, ap, ◌∙◌, arith, inl, inr,
}
use pipelinex.Prelude.Tests.{if◌then◌else◌, Bool-cases}
use pipelinex.Prelude.Lists.{length, keep_if, All, All-weaken}
use pipelinex.Prelude.Dict.{Dict, contains, Distinct}
use pipelinex.Prelude.Equality.{◌=?◌, nat_eq, string_eq, =?-cases, =?-self}
use pipelinex.Evaluation.{has, add_once}
use pipelinex.Evaluation.Counts.{NoRepeat}
use pipelinex.Evaluation.Scored.{add_once-NoRepeat, All-add_once}
use pipelinex.Evaluation.Bgl.{put_key, sorted_keys, stamps_of}

abbrev pub stands_in : ℕ → List ℕ → Bool
stands_in x [] = false
stands_in x (y ∷ ys) = if x =? y then true else stands_in x ys

abbrev pub Once : List ℕ → Type 0
Once [] = Unit
Once (x ∷ xs) = (stands_in x xs ≡ false) × Once xs

pub among_self : (xs : List ℕ) → All (λ x. stands_in x xs ≡ true) xs
among_self [] = tt
among_self (x ∷ xs) = (
  ground (arith, =?-self x),
  All-weaken (λ y. stands_in y xs ≡ true) _ xs (λ y h. ground arith) (among_self xs),
)

pub All-keep_if : (P : ℕ → Type 0) (p : ℕ → Bool) (xs : List ℕ) → All P xs → All P (keep_if p xs)
All-keep_if P p [] h = tt
All-keep_if P p (x ∷ xs) h = elim (Bool-cases (p x)) [
  | inl kept ↦ rw (keep_if, kept) (h.0, All-keep_if P p xs h.1)
  | inr left_out ↦ rw (keep_if, left_out) (All-keep_if P p xs h.1)
]

stands_in-keep_if :
    (p : ℕ → Bool) (x : ℕ) (xs : List ℕ)
    → stands_in x xs ≡ false
    → stands_in x (keep_if p xs) ≡ false
stands_in-keep_if p x [] h = refl
stands_in-keep_if p x (y ∷ xs) h = ground (arith, stands_in-keep_if p x xs)

pub keep_if-Once : (p : ℕ → Bool) (xs : List ℕ) → Once xs → Once (keep_if p xs)
keep_if-Once p [] h = tt
keep_if-Once p (x ∷ xs) h = ground (arith, stands_in-keep_if p x xs h.0, keep_if-Once p xs h.1)

-- The keys in order are those of the dict, each once.
stands_in-put_key :
    (y x : ℕ) (xs : List ℕ) → stands_in y (put_key x xs) ≡ (if y =? x then true else stands_in y xs)
stands_in-put_key y x [] = refl
stands_in-put_key y x (z ∷ xs) = ground (arith, stands_in-put_key y x xs)

put_key-Once : (x : ℕ) (xs : List ℕ) → stands_in x xs ≡ false → Once xs → Once (put_key x xs)
put_key-Once x [] new h = (refl, tt)
put_key-Once x (y ∷ xs) new h = ground (arith, put_key-Once x xs, stands_in-put_key y x xs)

pub stands_in-sorted_keys :
    (k : ℕ) (bins : Dict ℕ ℕ) → stands_in k (sorted_keys bins) ≡ contains k bins
stands_in-sorted_keys k [] = refl
stands_in-sorted_keys k ((j, n) ∷ bins) =
    ground (arith, stands_in-put_key k j (sorted_keys bins), stands_in-sorted_keys k bins)

pub sorted_keys-Once : (bins : Dict ℕ ℕ) → Distinct bins → Once (sorted_keys bins)
sorted_keys-Once [] h = tt
sorted_keys-Once ((j, n) ∷ bins) h =
    put_key-Once j (sorted_keys bins) (stands_in-sorted_keys j bins ∙ ground (arith, h.0))
      (sorted_keys-Once bins h.1)

pub has-add_once_eq :
    (x y : String) (xs : List String) → has (add_once x xs) y ≡ (if y =? x then true else has xs y)
has-add_once_eq x y xs = elim (Bool-cases (has xs x)) [
  | inr new ↦ rw (add_once, new) refl
  | inl there ↦ elim (=?-cases y x) [
    | inl (same, hit) ↦ rw (add_once, there, hit) (rw same there)
    | inr (other, miss) ↦ rw (add_once, there, miss) refl
  ]
]

pub length-add_once :
    (x : String) (xs : List String) → has xs x ≡ false → length (add_once x xs) ≡ suc (length xs)
length-add_once x xs new = rw (add_once, new) refl

-- Different instants have different texts.
module _ (stamp : ℕ → String) (injective : (s t : ℕ) → stamp s ≡ stamp t → s ≡ t) where
  pub stamp_eq : (s t : ℕ) → (stamp s =? stamp t) ≡ (s =? t)
  stamp_eq s t = elim (=?-cases s t) [
    | inl (same, hit) ↦ rw (hit, same) (=?-self (stamp t))
    | inr (other, miss) ↦ elim (=?-cases (stamp s) (stamp t)) [
      | inl (clash, hit) ↦ absurd (other (injective s t clash))
      | inr (_, miss') ↦ rw (miss, miss') refl
    ]
  ]

  pub has-stamps_of : (t : ℕ) (ts : List ℕ) → has (stamps_of stamp ts) (stamp t) ≡ stands_in t ts
  has-stamps_of t [] = refl
  has-stamps_of t (s ∷ ts) =
      rw
        (has-add_once_eq (stamp s) (stamp t) (stamps_of stamp ts), stamp_eq t s, has-stamps_of t ts)
        refl

  pub length-stamps_of : (ts : List ℕ) → Once ts → length (stamps_of stamp ts) ≡ length ts
  length-stamps_of [] h = refl
  length-stamps_of (t ∷ ts) h =
      length-add_once (stamp t) (stamps_of stamp ts) (has-stamps_of t ts ∙ h.0)
      ∙ ap suc (length-stamps_of ts h.1)

pub stamps_of-NoRepeat : (stamp : ℕ → String) (ts : List ℕ) → NoRepeat (stamps_of stamp ts)
stamps_of-NoRepeat stamp [] = tt
stamps_of-NoRepeat stamp (t ∷ ts) =
    add_once-NoRepeat (stamp t) (stamps_of stamp ts) (stamps_of-NoRepeat stamp ts)

pub All-stamps_of :
    (stamp : ℕ → String) (P : String → Type 0) (ts : List ℕ)
    → All (λ t. P (stamp t)) ts
    → All P (stamps_of stamp ts)
All-stamps_of stamp P [] h = tt
All-stamps_of stamp P (t ∷ ts) h =
    All-add_once P (stamp t) (stamps_of stamp ts) h.0 (All-stamps_of stamp P ts h.1)
