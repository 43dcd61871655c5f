-- ===== src/Evaluation/Counts.antt =====
-- The four counts of scripts/_eval_common.py over the blocks that were scored.
use pipelinex.Prelude.{
  ◌+◌, ◌≡◌, refl, sym, ◌∙◌, ap, String, Bool, true, false, not, List, [], ◌∷◌, arith, inl, inr,
}
use pipelinex.Prelude.Tests.{if◌then◌else◌}
use pipelinex.Prelude.Lists.{length, keep_if, All, All-weaken}
use pipelinex.Prelude.Equality.{◌=?◌, string_eq, =?-cases, =?-self}
use pipelinex.Evaluation.{has, without, confusion}

-- No member twice.
abbrev pub NoRepeat : List String → Type 0
NoRepeat [] = Unit
NoRepeat (x ∷ xs) = (has xs x ≡ false) × NoRepeat xs

-- Each member of the second list stands in the first.
abbrev pub Within : List String → List String → Type 0
Within universe xs = All (λ x. has universe x ≡ true) xs

keep_if-split :
    (p : String → Bool) (xs : List String)
    → length (keep_if p xs) + length (keep_if (λ x. not (p x)) xs) ≡ length xs
keep_if-split p [] = refl
keep_if-split p (x ∷ xs) = ground (arith, keep_if-split p xs)

keep_if_same :
    (p q : String → Bool) (xs : List String) → All (λ x. p x ≡ q x) xs → keep_if p xs ≡ keep_if q xs
keep_if_same p q [] h = refl
keep_if_same p q (x ∷ xs) h = ground (arith, h.0, keep_if_same p q xs h.1)

keep_if-All :
    (p : String → Bool) (xs : List String)
    → All (λ x. p x ≡ true) xs
    → length (keep_if p xs) ≡ length xs
keep_if-All p [] h = refl
keep_if-All p (x ∷ xs) h = ground (arith, h.0, keep_if-All p xs h.1)

keep_if_none : (ys : List String) → length (keep_if (has []) ys) ≡ 0
keep_if_none [] = refl
keep_if_none (y ∷ ys) = keep_if_none ys

has-keep_if :
    (p : String → Bool) (xs : List String) (x : String)
    → has (keep_if p xs) x ≡ (if has xs x then p x else false)
has-keep_if p [] x = refl
has-keep_if p (y ∷ xs) x = elim (=?-cases x y) [
  | inl (same, hit) ↦ rw same (ground (arith, has-keep_if p xs y, =?-self y))
  | inr (_, miss) ↦ ground (arith, has-keep_if p xs x, miss)
]

keep_if-NoRepeat : (p : String → Bool) (xs : List String) → NoRepeat xs → NoRepeat (keep_if p xs)
keep_if-NoRepeat p [] h = tt
keep_if-NoRepeat p (x ∷ xs) h = ground (arith, has-keep_if p xs x, keep_if-NoRepeat p xs h.1, h.0)

-- One more member to look for is one more hit where it stands in the list.
count_more :
    (x : String) (xs ys : List String)
    → has xs x ≡ false
    → NoRepeat ys
    → length (keep_if (has (x ∷ xs)) ys)
      ≡ (if has ys x then 1 else 0) + length (keep_if (has xs) ys)
count_more x xs [] h rep = refl
count_more x xs (y ∷ ys) h rep = elim (=?-cases y x) [
  | inl (same, hit) ↦
      let once : has ys x ≡ false = rw (← same) rep.0 in
      let here : has xs y ≡ false = rw same h in
      let found : (x =? y) ≡ true = rw same (=?-self x) in
      ground (arith, count_more x xs ys h rep.1, once, here, found, hit)
  | inr (other, miss) ↦
      let passed : (x =? y) ≡ false =
        ground (arith, string_eq.beq_iff x y, string_eq.beq_iff y x, miss) in
      ground (arith, count_more x xs ys h rep.1, passed, miss)
]

-- A common part is counted from either side.
common_comm :
    (xs ys : List String)
    → NoRepeat xs
    → NoRepeat ys
    → length (keep_if (has ys) xs) ≡ length (keep_if (has xs) ys)
common_comm [] ys hx hy = sym (keep_if_none ys)
common_comm (x ∷ xs) ys hx hy =
    ground (arith, count_more x xs ys hx.0 hy, common_comm xs ys hx.1 hy)

-- The blocks scored are shared out, and so are the anomalies and the alarms.
abbrev pub SharesOut : List String → List String → List String → Type 0
SharesOut predicted anomalies universe =
    let m = confusion predicted anomalies universe in
    (m.tp + m.fp + m.tn + m.fn ≡ length universe)
    × (m.tp + m.fn ≡ length anomalies)
    × (m.tp + m.fp ≡ length predicted)

pub confusion-SharesOut :
    (predicted anomalies universe : List String)
    → NoRepeat predicted
    → NoRepeat anomalies
    → NoRepeat universe
    → Within universe predicted
    → Within universe anomalies
    → SharesOut predicted anomalies universe
confusion-SharesOut p a u np na nu wp wa =
    let rest = without u p in
    let e1 = keep_if-split (has p) u in
    let e2 = common_comm u p nu np in
    let e3 = keep_if-All (has u) p wp in
    let e4 = keep_if-split (has a) rest in
    let e5 = common_comm rest a (keep_if-NoRepeat (λ x. not (has p x)) u nu) na in
    let e6 = ap length (
      keep_if_same (has rest) (λ x. not (has p x)) a
        (All-weaken (λ x. has u x ≡ true) _ a
          (λ x here. has-keep_if (λ y. not (has p y)) u x ∙ rw here refl) wa)) in
    let e7 = keep_if-split (has a) p in
    let e8 = keep_if-split (has p) a in
    let e9 = common_comm a p na np in
    (omega (arith, e1, e2, e3, e4, e5, e6, e7), omega (arith, e8, e9), omega (arith, e7))
