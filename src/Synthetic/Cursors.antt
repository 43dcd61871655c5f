-- ===== src/Synthetic/Cursors.antt =====
-- Cursors into lists, for the round-robin of scripts/generate_synthetic_logs.py.
use native.Mathlib.Nat.{mod-lt}
use pipelinex.Prelude.{
  ℕ, zero, suc, ◌+◌, ◌-◌, ◌%◌, ◌≤◌, ◌<◌, List, [], ◌∷◌, some, ◌≡◌, ◌≢◌, refl, ap, arith, inl, inr,
  ◌⊎◌,
}
use pipelinex.Prelude.Tests.{ltb, ltb→lt, Bool-cases}
use pipelinex.Prelude.Lists.{length, drop, get_elem?, get_or, set}
use pipelinex.Synthetic.{choice, active_from}

pub List-cases {ℓ} :
    {A : Type ℓ} (xs : List A) → (xs ≡ []) ⊎ ((y : A) × (ys : List A) × (xs ≡ y ∷ ys))
List-cases [] = inl refl
List-cases (y ∷ ys) = inr (y, ys, refl)

module _ {ℓ} {A : Type ℓ} where
  pub get_elem?-lt :
      (xs : List A) (i : ℕ) (d : A) → i < length xs → get_elem? xs i ≡ some (get_or xs i d)
  get_elem?-lt [] i d h = absurd (omega arith)
  get_elem?-lt (x ∷ xs) zero d h = refl
  get_elem?-lt (x ∷ xs) (suc i) d h = get_elem?-lt xs i d (omega arith)

  pub get_or-get_elem? :
      (xs : List A) (i : ℕ) (d : A) {x : A} → get_elem? xs i ≡ some x → get_or xs i d ≡ x
  get_or-get_elem? [] i d h = cc
  get_or-get_elem? (x ∷ xs) zero d h = cc
  get_or-get_elem? (x ∷ xs) (suc i) d h = get_or-get_elem? xs i d h

  pub drop_next :
      (xs : List A) (i : ℕ) {x : A} → get_elem? xs i ≡ some x → drop i xs ≡ x ∷ drop (suc i) xs
  drop_next [] i h = cc
  drop_next (y ∷ xs) zero h = cc
  drop_next (y ∷ xs) (suc i) h = drop_next xs i h

  drop_nil : (i : ℕ) → drop {A = A} i [] ≡ []
  drop_nil zero = refl
  drop_nil (suc i) = refl

  pub drop_end : (i : ℕ) (xs : List A) → length xs ≤ i → drop i xs ≡ []
  drop_end i [] h = drop_nil i
  drop_end zero (x ∷ xs) h = absurd (omega arith)
  drop_end (suc i) (x ∷ xs) h = drop_end i xs (omega arith)

  pub choice_member :
      (x : A) (xs : List A) (n : ℕ)
      → get_elem? (x ∷ xs) (n % length (x ∷ xs)) ≡ some (choice x xs n)
  choice_member x xs n = get_elem?-lt (x ∷ xs) (n % length (x ∷ xs)) x (mod-lt n (omega arith))

  -- The events that are left.
  abbrev pub left : List (List A) → List ℕ → ℕ
  left [] cursors = 0
  left (q ∷ sequences) [] = 0
  left (q ∷ sequences) (c ∷ cursors) = (length q - c) + left sequences cursors

  -- A sequence that is active has an event at its cursor.
  pub record IsActive (sequences : List (List A)) (cursors : List ℕ) (i : ℕ) : Type ℓ where
    pub sequence : List A
    pub cursor : ℕ
    pub has_sequence : get_elem? sequences i ≡ some sequence
    pub has_cursor : get_elem? cursors i ≡ some cursor
    pub unfinished : cursor < length sequence

  IsActive-cons :
      (q : List A) (sequences : List (List A)) (c : ℕ) (cursors : List ℕ) (i : ℕ)
      → IsActive sequences cursors i
      → IsActive (q ∷ sequences) (c ∷ cursors) (suc i)
  IsActive-cons q sequences c cursors i a = record {
    sequence = a.sequence;
    cursor = a.cursor;
    has_sequence = a.has_sequence;
    has_cursor = a.has_cursor;
    unfinished = a.unfinished;
  }

  pub active_from-IsActive :
      (k : ℕ) (sequences : List (List A)) (cursors : List ℕ) (j : ℕ) {idx : ℕ}
      → get_elem? (active_from k sequences cursors) j ≡ some idx
      → (i : ℕ) × (idx ≡ k + i) × IsActive sequences cursors i
  active_from-IsActive k [] cursors j h = cc
  active_from-IsActive k (q ∷ sequences) [] j h = cc
  active_from-IsActive k (q ∷ sequences) (c ∷ cursors) j {idx} h =
      elim (Bool-cases (ltb c (length q))) [
        | inr done ↦
            let later : get_elem? (active_from (suc k) sequences cursors) j ≡ some idx =
              rw (active_from, done) at h in
            let (i, e, a) = active_from-IsActive (suc k) sequences cursors j later in
            (suc i, omega (arith, e), IsActive-cons q sequences c cursors i a)
        | inl on ↦
            let here : get_elem? (k ∷ active_from (suc k) sequences cursors) j ≡ some idx =
              rw (active_from, on) at h in
            first_or j here (ltb→lt c (length q) on)
              (λ j' later. active_from-IsActive (suc k) sequences cursors j' later)
      ]
    where
      first_or :
          (j : ℕ)
          → get_elem? (k ∷ active_from (suc k) sequences cursors) j ≡ some idx
          → c < length q
          → ((j' : ℕ)
              → get_elem? (active_from (suc k) sequences cursors) j' ≡ some idx
              → (i : ℕ) × (idx ≡ suc k + i) × IsActive sequences cursors i)
          → (i : ℕ) × (idx ≡ k + i) × IsActive (q ∷ sequences) (c ∷ cursors) i
      first_or zero here below ih = (
        0,
        ground (arith, here),
        record {
          sequence = q;
          cursor = c;
          has_sequence = refl;
          has_cursor = refl;
          unfinished = below;
        },
      )
      first_or (suc j) here below ih =
          let (i, e, a) = ih j here in
          (suc i, omega (arith, e), IsActive-cons q sequences c cursors i a)

  pub left-set :
      (sequences : List (List A)) (cursors : List ℕ) (i : ℕ) (q : List A) (c : ℕ)
      → get_elem? sequences i ≡ some q
      → get_elem? cursors i ≡ some c
      → c < length q
      → left sequences (set cursors i (c + 1)) + 1 ≡ left sequences cursors
  left-set [] cursors i q c hq hc l = cc
  left-set (q' ∷ sequences) [] i q c hq hc l = cc
  left-set (q' ∷ sequences) (c' ∷ cursors) zero q c hq hc l =
      let same_q : q' ≡ q = cc in let same_c : c' ≡ c = cc in rw (same_q, same_c) (omega arith)
  left-set (q' ∷ sequences) (c' ∷ cursors) (suc i) q c hq hc l =
      omega (arith, left-set sequences cursors i q c hq hc l)

  -- None is active: nothing is left.
  pub none_active :
      (k : ℕ) (sequences : List (List A)) (cursors : List ℕ)
      → length cursors ≡ length sequences
      → active_from k sequences cursors ≡ []
      → (left sequences cursors ≡ 0)
        × ((i : ℕ) → drop (get_or cursors i 0) (get_or sequences i []) ≡ [])
  none_active k [] cursors h e = (refl, λ i. drop_nil (get_or cursors i 0))
  none_active k (q ∷ sequences) [] h e = absurd (omega arith)
  none_active k (q ∷ sequences) (c ∷ cursors) h e = elim (Bool-cases (ltb c (length q))) [
    | inl on ↦ absurd (cc (rw (active_from, on) at e))
    | inr done ↦
        let (nothing, rest) =
          none_active (suc k) sequences cursors (omega arith) (rw (active_from, done) at e) in
        let over : length q ≤ c = ground (arith, done) in
        (omega (arith, nothing), λ i. at i over rest)
  ]
    where
      at :
          (i : ℕ)
          → length q ≤ c
          → ((i : ℕ) → drop (get_or cursors i 0) (get_or sequences i []) ≡ [])
          → drop (get_or (c ∷ cursors) i 0) (get_or (q ∷ sequences) i []) ≡ []
      at zero over rest = drop_end c q over
      at (suc i) over rest = rest i

  pub set_self :
      (xs : List A) (i : ℕ) (v d : A) {x : A}
      → get_elem? xs i ≡ some x
      → get_or (set xs i v) i d ≡ v
  set_self [] i v d h = cc
  set_self (x ∷ xs) zero v d h = refl
  set_self (x ∷ xs) (suc i) v d h = set_self xs i v d h

  pub set_other :
      (xs : List A) (i j : ℕ) (v d : A) → i ≢ j → get_or (set xs i v) j d ≡ get_or xs j d
  set_other [] i j v d h = refl
  set_other (x ∷ xs) zero zero v d h = absurd (h refl)
  set_other (x ∷ xs) zero (suc j) v d h = refl
  set_other (x ∷ xs) (suc i) zero v d h = refl
  set_other (x ∷ xs) (suc i) (suc j) v d h = set_other xs i j v d (λ e. h (ap suc e))
