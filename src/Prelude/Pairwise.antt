-- ===== src/Prelude/Pairwise.antt =====
-- Two lists whose members are related one by one.
use Prim.Native.Nat.{ℕ, zero, suc}
use mathlib.Core.Bool.{Bool}
use mathlib.Core.List.{List, [], ◌∷◌, ◌++◌, Permᴰ}
use mathlib.Core.Logic.{inl, inr}
use mathlib.Core.Path.{◌≡◌, refl}
use pipelinex.Prelude.Tests.{Bool-cases}
use pipelinex.Prelude.Lists.{take, keep_if}

-- Member by member.
abbrev pub Pairwise {ℓ κ} : {A : Type ℓ} {B : Type κ} → (A → B → Type 0) → List A → List B → Type 0
Pairwise R [] [] = Unit
Pairwise R [] (y ∷ ys) = ⊥
Pairwise R (x ∷ xs) [] = ⊥
Pairwise R (x ∷ xs) (y ∷ ys) = R x y × Pairwise R xs ys

module _ {ℓ κ} {A : Type ℓ} {B : Type κ} (R : A → B → Type 0) where
  -- A permutation of one list is one of the other.
  pub Pairwise-permute :
      {xs zs : List A} (ys : List B)
      → Permᴰ xs zs
      → Pairwise R zs ys
      → (order : List B) × Permᴰ order ys × Pairwise R xs order
  Pairwise-permute [] Permᴰ.nil h = ([], Permᴰ.nil, tt)
  Pairwise-permute (y ∷ ys) Permᴰ.nil h = absurd h
  Pairwise-permute [] (Permᴰ.cons e p) h = absurd h
  Pairwise-permute (y ∷ ys) (Permᴰ.cons e p) h =
      let (order, q, more) = Pairwise-permute ys p h.1 in
      (y ∷ order, Permᴰ.cons refl q, (rw e h.0, more))
  Pairwise-permute [] (Permᴰ.swap e d) h = absurd h
  Pairwise-permute (y ∷ []) (Permᴰ.swap e d) h = absurd h.1
  Pairwise-permute (y ∷ z ∷ ys) (Permᴰ.swap e d) h =
      (z ∷ y ∷ ys, Permᴰ.swap refl refl, (rw e h.1.0, (rw d h.0, h.1.1)))
  Pairwise-permute ys (Permᴰ.trans p q) h =
      let (middle, q', h') = Pairwise-permute ys q h in
      let (order, p', h'') = Pairwise-permute middle p h' in (order, Permᴰ.trans p' q', h'')

  pub Pairwise-keep_if :
      (p : A → Bool) (q : B → Bool) (xs : List A) (ys : List B)
      → ((x : A) (y : B) → R x y → p x ≡ q y)
      → Pairwise R xs ys
      → Pairwise R (keep_if p xs) (keep_if q ys)
  Pairwise-keep_if p q [] [] same h = tt
  Pairwise-keep_if p q [] (y ∷ ys) same h = absurd h
  Pairwise-keep_if p q (x ∷ xs) [] same h = absurd h
  Pairwise-keep_if p q (x ∷ xs) (y ∷ ys) same h =
      let rest = Pairwise-keep_if p q xs ys same h.1 in
      elim (Bool-cases (q y)) [
        | inl hit ↦ rw (keep_if, same x y h.0, hit) (h.0, rest)
        | inr miss ↦ rw (keep_if, same x y h.0, miss) rest
      ]

  pub Pairwise-take :
      (n : ℕ) (xs : List A) (ys : List B) → Pairwise R xs ys → Pairwise R (take n xs) (take n ys)
  Pairwise-take zero xs ys h = tt
  Pairwise-take (suc n) [] [] h = tt
  Pairwise-take (suc n) [] (y ∷ ys) h = absurd h
  Pairwise-take (suc n) (x ∷ xs) [] h = absurd h
  Pairwise-take (suc n) (x ∷ xs) (y ∷ ys) h = (h.0, Pairwise-take n xs ys h.1)

  pub Pairwise-append :
      (xs xs' : List A) (ys ys' : List B)
      → Pairwise R xs ys
      → Pairwise R xs' ys'
      → Pairwise R (xs ++ xs') (ys ++ ys')
  Pairwise-append [] xs' [] ys' h h' = h'
  Pairwise-append [] xs' (y ∷ ys) ys' h h' = absurd h
  Pairwise-append (x ∷ xs) xs' [] ys' h h' = absurd h
  Pairwise-append (x ∷ xs) xs' (y ∷ ys) ys' h h' = (h.0, Pairwise-append xs xs' ys ys' h.1 h')
