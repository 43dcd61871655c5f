-- ===== src/Floats/Sorted.antt =====
-- Sorted lists of floats, under a total order of them.
use pipelinex.Prelude.{◌≡◌, refl, true, false, List, [], ◌∷◌, ◌++◌, arith, inl, inr}
use pipelinex.Prelude.Tests.{Bool-cases}
use pipelinex.Prelude.Lists.{All, All-weaken}
use pipelinex.Floats.{Floats, IsOrder, insort}

module _ (o : Floats) where
  -- The values in order of size: one is inserted after the other.
  abbrev pub in_order : List o.Carrier → List o.Carrier
  in_order [] = []
  in_order (x ∷ xs) = insort o x (in_order xs)

  -- No value is smaller than one before it.
  abbrev pub Sorted : List o.Carrier → Type 0
  Sorted [] = Unit
  Sorted (x ∷ xs) = All (λ y. o.lt y x ≡ false) xs × Sorted xs

  All-insort :
      (a x : o.Carrier) (xs : List o.Carrier)
      → o.lt x a ≡ false
      → All (λ y. o.lt y a ≡ false) xs
      → All (λ y. o.lt y a ≡ false) (insort o x xs)
  All-insort a x [] h hs = (h, tt)
  All-insort a x (y ∷ ys) h hs = elim (Bool-cases (o.lt x y)) [
    | inl less ↦ rw (less, insort) (h, hs)
    | inr not_less ↦ rw (not_less, insort) (hs.0, All-insort a x ys h hs.1)
  ]

module _ (o : Floats) (ord : IsOrder o) where
  -- What is not smaller than `y` is not smaller than an `x` smaller than `y`.
  smaller_still :
      (x y : o.Carrier) (ys : List o.Carrier)
      → o.lt x y ≡ true
      → All (λ z. o.lt z y ≡ false) ys
      → All (λ z. o.lt z x ≡ false) ys
  smaller_still x y ys h hs =
      All-weaken _ _ ys (λ z hz. ord.le_trans x y z (ord.lt_asym x y h) hz) hs

  insort-Sorted : (x : o.Carrier) (xs : List o.Carrier) → Sorted o xs → Sorted o (insort o x xs)
  insort-Sorted x [] h = (tt, tt)
  insort-Sorted x (y ∷ ys) h = elim (Bool-cases (o.lt x y)) [
    | inl less ↦ rw (less, insort) ((ord.lt_asym x y less, smaller_still x y ys less h.0), h)
    | inr not_less ↦
        rw (not_less, insort) (All-insort o y x ys not_less h.0, insort-Sorted x ys h.1)
  ]

  pub in_order-Sorted : (w : List o.Carrier) → Sorted o (in_order o w)
  in_order-Sorted [] = tt
  in_order-Sorted (x ∷ xs) = insort-Sorted x (in_order o xs) (in_order-Sorted xs)

  insort_comm :
      (a b : o.Carrier) (xs : List o.Carrier)
      → insort o a (insort o b xs) ≡ insort o b (insort o a xs)
  insort_comm a b [] = ground (arith, ord.lt_asym a b, ord.le_antisym a b)
  insort_comm a b (x ∷ xs) = ground (
    arith,
    insort_comm a b xs,
    ord.lt_asym a b,
    ord.le_antisym a b,
    ord.le_trans a b x,
    ord.le_trans b a x,
    ord.le_trans x a b,
    ord.le_trans x b a,
    ord.lt_asym a x,
    ord.lt_asym b x,
  )

  pub in_order-append :
      (w : List o.Carrier) (x : o.Carrier) → in_order o (w ++ x ∷ []) ≡ insort o x (in_order o w)
  in_order-append [] x = refl
  in_order-append (y ∷ w) x = grind (arith, in_order-append w x, insort_comm x y (in_order o w))

  -- A smallest value goes to the front.
  pub insort_first :
      (x : o.Carrier) (xs : List o.Carrier)
      → All (λ y. o.lt y x ≡ false) xs
      → Sorted o xs
      → insort o x xs ≡ x ∷ xs
  insort_first x [] h s = refl
  insort_first x (y ∷ ys) h s =
      let ih = insort_first x ys h.1 s.1 in ground (arith, ih, h.0, ord.le_antisym x y)

  in_order_same : (xs : List o.Carrier) → Sorted o xs → in_order o xs ≡ xs
  in_order_same [] h = refl
  in_order_same (x ∷ xs) h = rw (in_order, in_order_same xs h.1) (insort_first x xs h.0 h.1)

  -- Values that are in order stay where they are.
  pub in_order-in_order : (w : List o.Carrier) → in_order o (in_order o w) ≡ in_order o w
  in_order-in_order w = in_order_same (in_order o w) (in_order-Sorted w)
