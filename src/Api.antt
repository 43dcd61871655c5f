-- ===== src/Api.antt =====
-- The anomaly listing of src/pipelinex/api/routes.py, over the in-memory repository. The framework
-- keeps the limit between 1 and 10000 and writes the result as JSON.
mod Tests
use pipelinex.Prelude.{
  ℕ, ◌≤◌, ◌≡◌, refl, String, Bool, List, [], ◌∷◌, Option, none, some, arith, inl, inr,
}
use pipelinex.Prelude.Tests.{if◌then◌else◌, leb, leb→le, Bool-cases}
use pipelinex.Prelude.Lists.{length, take, keep_if, All, All-weaken}
use pipelinex.Prelude.Equality.{◌=?◌, string_eq}
use pipelinex.Models.{AnomalyEvent}
use pipelinex.MemoryRepo.{Repository}

module _ (F : Type 0) where
  -- `[a for a in anomalies if a.detector_name == detector]`, where a detector is given.
  abbrev pub of_detector : Option String → List (AnomalyEvent F) → List (AnomalyEvent F)
  of_detector none anomalies = anomalies
  of_detector (some detector) anomalies = keep_if (λ a. a.detector_name =? detector) anomalies

  -- `sort(key=detected_at, reverse=True)`: a stable sort, so that equal ones keep their order.
  abbrev pub place : AnomalyEvent F → List (AnomalyEvent F) → List (AnomalyEvent F)
  place a [] = a ∷ []
  place a (b ∷ bs) = if leb b.detected_at a.detected_at then a ∷ b ∷ bs else b ∷ place a bs

  abbrev pub newest_first : List (AnomalyEvent F) → List (AnomalyEvent F)
  newest_first [] = []
  newest_first (a ∷ anomalies) = place a (newest_first anomalies)

  unfoldable pub list_anomalies : Repository F → Option String → ℕ → List (AnomalyEvent F)
  list_anomalies repository detector limit =
      take limit (newest_first (of_detector detector repository.anomalies))

  -- No anomaly is newer than one before it.
  abbrev pub IsNewestFirst : List (AnomalyEvent F) → Type 0
  IsNewestFirst [] = Unit
  IsNewestFirst (a ∷ anomalies) =
      All (λ b. b.detected_at ≤ a.detected_at) anomalies × IsNewestFirst anomalies

  All-place :
      (n : ℕ) (a : AnomalyEvent F) (bs : List (AnomalyEvent F))
      → a.detected_at ≤ n
      → All (λ b. b.detected_at ≤ n) bs
      → All (λ b. b.detected_at ≤ n) (place a bs)
  All-place n a [] h hs = (h, tt)
  All-place n a (b ∷ bs) h hs = ground (arith, All-place n a bs h hs.1, hs)

  place-IsNewestFirst :
      (a : AnomalyEvent F) (bs : List (AnomalyEvent F))
      → IsNewestFirst bs
      → IsNewestFirst (place a bs)
  place-IsNewestFirst a [] h = (tt, tt)
  place-IsNewestFirst a (b ∷ bs) h = elim (Bool-cases (leb b.detected_at a.detected_at)) [
    | inl first ↦
        let older : b.detected_at ≤ a.detected_at = leb→le _ _ first in
        rw (place, first) ((older, All-weaken _ _ bs (λ c hc. omega (arith, hc, older)) h.0), h)
    | inr later ↦
        rw (place, later)
          (All-place b.detected_at a bs (ground arith) h.0, place-IsNewestFirst a bs h.1)
  ]

  newest_first-IsNewestFirst :
      (anomalies : List (AnomalyEvent F)) → IsNewestFirst (newest_first anomalies)
  newest_first-IsNewestFirst [] = tt
  newest_first-IsNewestFirst (a ∷ anomalies) =
      place-IsNewestFirst a (newest_first anomalies) (newest_first-IsNewestFirst anomalies)

  -- How many anomalies pass a test.
  abbrev pub count : (AnomalyEvent F → Bool) → List (AnomalyEvent F) → ℕ
  count p anomalies = length (keep_if p anomalies)

  count-place :
      (p : AnomalyEvent F → Bool) (a : AnomalyEvent F) (bs : List (AnomalyEvent F))
      → count p (place a bs) ≡ count p (a ∷ bs)
  count-place p a [] = refl
  count-place p a (b ∷ bs) = ground (arith, count-place p a bs)

  count-newest_first :
      (p : AnomalyEvent F → Bool) (anomalies : List (AnomalyEvent F))
      → count p (newest_first anomalies) ≡ count p anomalies
  count-newest_first p [] = refl
  count-newest_first p (a ∷ anomalies) =
      ground (arith, count-place p a (newest_first anomalies), count-newest_first p anomalies)

  -- The listing is the first part, as long as the limit, of an order of the detector's anomalies,
  -- which holds the same ones as often, newest first.
  pub list_anomalies_lem :
      (repository : Repository F) (detector : Option String) (limit : ℕ)
      → (ordered : List (AnomalyEvent F)) × IsNewestFirst ordered
        × ((p : AnomalyEvent F → Bool)
            → count p ordered ≡ count p (of_detector detector repository.anomalies))
        × (list_anomalies repository detector limit ≡ take limit ordered)
  unfolding list_anomalies
  list_anomalies_lem repository detector limit =
      let chosen = of_detector detector repository.anomalies in
      (
        newest_first chosen,
        newest_first-IsNewestFirst chosen,
        λ p. count-newest_first p chosen,
        refl,
      )
