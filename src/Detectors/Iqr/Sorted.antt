-- ===== src/Detectors/Iqr/Sorted.antt =====
-- The two views of the window of src/pipelinex/detectors/iqr.py against each other.
use pipelinex.Prelude.{ℕ, suc, ◌≡◌, refl, List, [], ◌∷◌, arith, inl, inr}
use pipelinex.Prelude.Tests.{◌==◌, Bool-cases}
use pipelinex.Prelude.Lists.{length}
use pipelinex.Floats.{Floats, IsOrder, insort}
use pipelinex.Floats.Sorted.{in_order, in_order-Sorted, in_order-append, insort_first, Sorted}
use pipelinex.Detectors.{push}
use pipelinex.Detectors.Iqr.{discard, evicted, add}

module _ (o : Floats) (ord : IsOrder o) where
  discard-insort :
      (x : o.Carrier) (xs : List o.Carrier) → Sorted o xs → discard o x (insort o x xs) ≡ xs
  discard-insort x [] h = ground (arith, ord.lt_irrefl x, ord.eq_iff x x)
  discard-insort x (y ∷ ys) h = ground (
    arith,
    discard-insort x ys h.1,
    ord.lt_irrefl x,
    ord.eq_iff x x,
    ord.eq_iff y x,
    ord.le_antisym x y,
    insort_first o ord y ys h.0 h.1,
  )

  -- Both views after `_add`, where the sorted one held the values of the window in order.
  pub add_views :
      (n : ℕ) (w : List o.Carrier) (x : o.Carrier)
      → add o (suc n) (record { window = w; sorted = in_order o w }) x
        ≡ record { window = push (suc n) w x; sorted = in_order o (push (suc n) w x) }
  unfolding add push
  add_views n [] x = ground arith
  add_views n (y ∷ w) x = elim (Bool-cases (length (y ∷ w) == suc n)) [
    | inl full ↦
        rw
          (
            full,
            evicted,
            discard-insort y (in_order o w) (in_order-Sorted o ord w),
            in_order-append o ord w x,
          )
          refl
    | inr room ↦ rw (room, evicted, in_order-append o ord (y ∷ w) x) refl
  ]
