-- ===== src/Synthetic/Anomalies.antt =====
-- The anomalies of `_inject_hdfs_anomaly` in scripts/generate_synthetic_logs.py.
use pipelinex.Prelude.{
  ℕ, zero, suc, ◌-◌, max, ◌%◌, ◌≤◌, ◌<◌, String, Bool, true, false, not, List, [], ◌∷◌, ◌≡◌, ◌≢◌,
  refl, sym, ap, arith, ◌&&◌, inl, inr,
}
use pipelinex.Prelude.Tests.{if◌then◌else◌, leb, Bool-cases}
use pipelinex.Prelude.Lists.{length, take, get_or, All}
use pipelinex.Prelude.Equality.{◌=?◌, string_eq, =?-self}
use pipelinex.Synthetic.{
  exception_events, choice, randint, swap_at, insert_at, normal_lifecycle, AnomalyDraw,
  inject_anomaly,
}

same_events : List String → List String → Bool
same_events [] [] = true
same_events [] (y ∷ ys) = false
same_events (x ∷ xs) [] = false
same_events (x ∷ xs) (y ∷ ys) = if x =? y then same_events xs ys else false

same_events_self : (xs : List String) → same_events xs xs ≡ true
unfolding same_events
same_events_self [] = refl
same_events_self (x ∷ xs) = ground (arith, =?-self x, same_events_self xs)

-- A test of every number below a bound.
all_below : ℕ → (ℕ → Bool) → Bool
all_below zero p = true
all_below (suc n) p = p n && all_below n p

below-all_below : (n : ℕ) (p : ℕ → Bool) (x : ℕ) → all_below n p ≡ true → x < n → p x ≡ true
unfolding all_below
below-all_below zero p x all l = absurd (omega arith)
below-all_below (suc n) p x all l = ground (arith, below-all_below n p x)

abbrev drawn : ℕ → ℕ → ℕ → AnomalyDraw
drawn s p e = record { strategy = s; place = p; event = e }

abbrev visible : List String → Bool
visible events =
    not (same_events events normal_lifecycle) && (leb 2 (length events) && leb (length events) 7)

-- The draws repeat: three strategies, four or five places, three events.
inject_anomaly_mod :
    (s p e : ℕ)
    → inject_anomaly (drawn s p e) normal_lifecycle
      ≡ inject_anomaly (drawn (s % 3) (p % 20) (e % 3)) normal_lifecycle
unfolding inject_anomaly
inject_anomaly_mod s p e =
    let twice_s : s % 3 % 3 ≡ s % 3 = omega arith in
    let twice_p : p % 20 % 4 ≡ p % 4 = omega arith in
    let twice_q : p % 20 % 5 ≡ p % 5 = omega arith in
    let twice_e : e % 3 % 3 ≡ e % 3 = omega arith in rw (twice_s, twice_p, twice_q, twice_e) refl

all_visible :
    all_below 3 (λ s.
      all_below 20
        (λ p. all_below 3 (λ e. visible (inject_anomaly (drawn s p e) normal_lifecycle))))
    ≡ true
unfolding all_below inject_anomaly same_events
all_visible = refl

differs : (events : List String) → visible events ≡ true → events ≢ normal_lifecycle
differs events seen same =
    absurd (ground (arith, seen, ap (same_events events) (sym same), same_events_self events))

-- An anomaly that is injected into a normal lifecycle changes it, and leaves two to seven events.
pub inject_anomaly_lem :
    (d : AnomalyDraw)
    → (inject_anomaly d normal_lifecycle ≢ normal_lifecycle)
      × (2 ≤ length (inject_anomaly d normal_lifecycle))
      × (length (inject_anomaly d normal_lifecycle) ≤ 7)
inject_anomaly_lem d =
    let s : ℕ = d.strategy % 3 in
    let p : ℕ = d.place % 20 in
    let e : ℕ = d.event % 3 in
    let events = inject_anomaly (drawn s p e) normal_lifecycle in
    let h3 =
      below-all_below 20 _ p (below-all_below 3 _ s all_visible (omega arith)) (omega arith) in
    let seen : visible events ≡ true =
      below-all_below 3 (λ e. visible (inject_anomaly (drawn s p e) normal_lifecycle)) e h3
        (omega arith) in
    rw (inject_anomaly_mod d.strategy d.place d.event)
      (differs events seen, ground (arith, seen), ground (arith, seen))

-- What holds of all events, those that may be injected included, holds after an injection.
module _ (P : String → Type 0) where
  take-All : (n : ℕ) (xs : List String) → All P xs → All P (take n xs)
  take-All zero xs h = tt
  take-All (suc n) [] h = tt
  take-All (suc n) (x ∷ xs) h = (h.0, take-All n xs h.1)

  swap_at-All : (i : ℕ) (xs : List String) → All P xs → All P (swap_at i xs)
  swap_at-All i [] h = tt
  swap_at-All i (x ∷ []) h = h
  swap_at-All zero (x ∷ y ∷ rest) h = (h.1.0, (h.0, h.1.1))
  swap_at-All (suc i) (x ∷ y ∷ rest) h = (h.0, swap_at-All i (y ∷ rest) h.1)

  insert_at-All :
      (i : ℕ) (e : String) (xs : List String) → P e → All P xs → All P (insert_at i e xs)
  insert_at-All zero e xs he h = (he, h)
  insert_at-All (suc i) e [] he h = (he, tt)
  insert_at-All (suc i) e (x ∷ xs) he h = (h.0, insert_at-All i e xs he h.1)

  get_or-All : (xs : List String) (i : ℕ) (e : String) → P e → All P xs → P (get_or xs i e)
  get_or-All [] i e he h = he
  get_or-All (x ∷ xs) zero e he h = h.0
  get_or-All (x ∷ xs) (suc i) e he h = get_or-All xs i e he h.1

  pub inject_anomaly-All :
      (d : AnomalyDraw) (events : List String)
      → All P exception_events
      → All P events
      → All P (inject_anomaly d events)
  unfolding inject_anomaly
  inject_anomaly-All d events extra h =
      let strategy : String = choice "truncate" ("reorder" ∷ "inject" ∷ []) d.strategy in
      let injected =
        insert_at-All (randint 1 (max 1 (length events - 1)) d.place)
          (choice "E4" ("E10" ∷ "E14" ∷ []) d.event) events
          (get_or-All exception_events (d.event % 3) "E4" extra.0 extra) h in
      elim (Bool-cases (leb 3 (length events))) [
        | inr few ↦ rw few injected
        | inl many ↦ elim (Bool-cases (strategy =? "truncate")) [
          | inl truncate ↦
              rw (many, truncate) (take-All (randint 2 (length events - 1) d.place) events h)
          | inr other ↦ elim (Bool-cases (strategy =? "reorder")) [
            | inl reorder ↦
                rw (many, other, reorder)
                  (swap_at-All (randint 0 (length events - 2) d.place) events h)
            | inr inject ↦ rw (many, other, inject) injected
          ]
        ]
      ]
