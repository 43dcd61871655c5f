-- ===== src/Prelude/Text.antt =====
-- Texts as sequences of code points, and the steps of a reader: each takes a part off the front of
-- a text, or fails.
use Prim.Native.Nat.{ℕ, zero, suc}
use Prim.Native.Char.{code}
use Prim.Native.String.{String}
use text.Mathlib.TextEquality.{Char-path}
use mathlib.Core.Bool.{Bool, true, false}
use mathlib.Core.Option.{Option, none, some}
use mathlib.Core.Logic.{inl, inr, ◌≢◌}
use mathlib.Core.Path.{◌≡◌, refl, sym, ap}
use native.Mathlib.Omega.{arith}
use pipelinex.Prelude.Tests.{◌==◌, if◌then◌else◌, Bool-cases}

-- Python's `+` on texts, by recursion, so that it computes.
infixr 65 ◌<>◌
abbrev pub ◌<>◌ : String → String → String
String.[] <> t = t
String.◌∷◌ c s <> t = String.◌∷◌ c (s <> t)

pub <>-nil : (s : String) → s <> "" ≡ s
<>-nil String.[] = refl
<>-nil (String.◌∷◌ c s) = ap (String.◌∷◌ c) (<>-nil s)

pub <>_assoc : (s t u : String) → (s <> t) <> u ≡ s <> t <> u
<>_assoc String.[] t u = refl
<>_assoc (String.◌∷◌ c s) t u = ap (String.◌∷◌ c) (<>_assoc s t u)

-- Each code point satisfies a test.
abbrev pub AllChars : (ℕ → Bool) → String → Type 0
AllChars p String.[] = Unit
AllChars p (String.◌∷◌ c s) = (p (code c) ≡ true) × AllChars p s

-- The text does not go on with a code point that satisfies a test.
abbrev pub Stops : (ℕ → Bool) → String → Type 0
Stops p String.[] = Unit
Stops p (String.◌∷◌ c s) = p (code c) ≡ false

abbrev pub size : String → ℕ
size String.[] = 0
size (String.◌∷◌ c s) = suc (size s)

-- The longest part at the front that satisfies a test, and the rest.
abbrev pub span : (ℕ → Bool) → String → String × String
span p String.[] = (String.[], String.[])
span p (String.◌∷◌ c s) =
    let (a, b) = span p s in if p (code c) then (String.◌∷◌ c a, b) else (String.[], String.◌∷◌ c s)

pub span-join : (p : ℕ → Bool) (s : String) → (span p s).0 <> (span p s).1 ≡ s
span-join p String.[] = refl
span-join p (String.◌∷◌ c s) = elim (Bool-cases (p (code c))) [
  | inl yes_c ↦ rw (span, yes_c) (ap (String.◌∷◌ c) (span-join p s))
  | inr no_c ↦ rw (span, no_c) refl
]

pub span-AllChars : (p : ℕ → Bool) (s : String) → AllChars p ((span p s).0)
span-AllChars p String.[] = tt
span-AllChars p (String.◌∷◌ c s) = elim (Bool-cases (p (code c))) [
  | inl yes_c ↦ rw (span, yes_c) (yes_c, span-AllChars p s)
  | inr no_c ↦ rw (span, no_c) tt
]

pub span-Stops : (p : ℕ → Bool) (s : String) → Stops p ((span p s).1)
span-Stops p String.[] = tt
span-Stops p (String.◌∷◌ c s) = elim (Bool-cases (p (code c))) [
  | inl yes_c ↦ rw (span, yes_c) (span-Stops p s)
  | inr no_c ↦ rw (span, no_c) no_c
]

pub span-append :
    (p : ℕ → Bool) (a b : String) → AllChars p a → Stops p b → span p (a <> b) ≡ (a, b)
span-append p String.[] String.[] h stop = refl
span-append p String.[] (String.◌∷◌ c s) h stop = rw (span, stop) refl
span-append p (String.◌∷◌ c a) b h stop = rw (span, h.0, span-append p a b h.1 stop) refl

infixl 1 ◌>>=◌
abbrev pub ◌>>=◌ {ℓ κ} : {A : Type ℓ} {B : Type κ} → Option A → (A → Option B) → Option B
none >>= f = none
some a >>= f = f a

pub bind_inv {ℓ κ} :
    {A : Type ℓ} {B : Type κ} (o : Option A) (f : A → Option B) {b : B}
    → (o >>= f) ≡ some b
    → (a : A) × (o ≡ some a) × (f a ≡ some b)
bind_inv none f h = cc
bind_inv (some a) f h = (a, refl, h)

pub some_inv {ℓ} : {A : Type ℓ} {a b : A} → some a ≡ some b → b ≡ a
some_inv h = cc

-- `\d+`, `\w+` and the like: one code point or more.
abbrev pub not_empty : String × String → Option (String × String)
not_empty (String.[], b) = none
not_empty (String.◌∷◌ c a, b) = some (String.◌∷◌ c a, b)

unfoldable pub many1 : (ℕ → Bool) → String → Option (String × String)
many1 p s = not_empty (span p s)

-- `\d{6}` and the like: so many code points.
unfoldable pub exactly : ℕ → (ℕ → Bool) → String → Option (String × String)
exactly zero p s = some (String.[], s)
exactly (suc n) p String.[] = none
exactly (suc n) p (String.◌∷◌ c s) =
    let rest = exactly n p s >>= (λ (a, b). some (String.◌∷◌ c a, b)) in
    if p (code c) then rest else none

-- A text that is given.
unfoldable pub expect : String → String → Option String
expect String.[] s = some s
expect (String.◌∷◌ d t) String.[] = none
expect (String.◌∷◌ d t) (String.◌∷◌ c s) =
    let rest = expect t s in if code c == code d then rest else none

-- What each step takes off is the front of the text, and any text with such a front goes through.
pub many1_inv :
    (p : ℕ → Bool) (s : String) {a b : String}
    → many1 p s ≡ some (a, b)
    → (s ≡ a <> b) × AllChars p a × (a ≢ "")
unfolding many1
many1_inv p s {a} {b} h = go (span p s) (span-join p s) (span-AllChars p s) h
  where
    go :
        (w : String × String)
        → w.0 <> w.1 ≡ s
        → AllChars p (w.0)
        → not_empty w ≡ some (a, b)
        → (s ≡ a <> b) × AllChars p a × (a ≢ "")
    go (String.[], v) whole all e = cc
    go (String.◌∷◌ c u, v) whole all e =
        let same : (a ≡ String.◌∷◌ c u) × (b ≡ v) = (cc, cc) in
        rw (same.0, same.1) (sym whole, all, λ nothing. cc)

pub many1-append :
    (p : ℕ → Bool) (a b : String)
    → AllChars p a
    → a ≢ ""
    → Stops p b
    → many1 p (a <> b) ≡ some (a, b)
unfolding many1
many1-append p String.[] b h some_a stop = absurd (some_a refl)
many1-append p (String.◌∷◌ c a) b h some_a stop = rw (span-append p (String.◌∷◌ c a) b h stop) refl

pub exactly_inv :
    (n : ℕ) (p : ℕ → Bool) (s : String) {a b : String}
    → exactly n p s ≡ some (a, b)
    → (s ≡ a <> b) × AllChars p a × (size a ≡ n)
unfolding exactly
exactly_inv zero p s {a} {b} h =
    let same : (a ≡ "") × (b ≡ s) = (cc, cc) in rw (same.0, same.1) (refl, tt, refl)
exactly_inv (suc n) p String.[] h = cc
exactly_inv (suc n) p (String.◌∷◌ c s) {a} {b} h = elim (Bool-cases (p (code c))) [
  | inr no_c ↦ absurd (ground (arith, h, no_c))
  | inl yes_c ↦
      let taken : (exactly n p s >>= (λ (u, v). some (String.◌∷◌ c u, v))) ≡ some (a, b) =
        rw (yes_c, if◌then◌else◌) at h in
      let (rest, found, made) = bind_inv (exactly n p s) _ taken in
      let inner = exactly_inv n p s {a = rest.0} {b = rest.1} found in
      let same : (a ≡ String.◌∷◌ c (rest.0)) × (b ≡ rest.1) = (cc, cc) in
      rw (same.0, same.1) (ap (String.◌∷◌ c) (inner.0), (yes_c, inner.1), omega (arith, inner.2))
]

pub exactly-append :
    (n : ℕ) (p : ℕ → Bool) (a b : String)
    → AllChars p a
    → size a ≡ n
    → exactly n p (a <> b) ≡ some (a, b)
unfolding exactly
exactly-append zero p String.[] b h len = refl
exactly-append zero p (String.◌∷◌ c a) b h len = absurd (omega arith)
exactly-append (suc n) p String.[] b h len = absurd (omega arith)
exactly-append (suc n) p (String.◌∷◌ c a) b h len =
    rw (h.0, exactly-append n p a b h.1 (omega arith)) refl

pub expect_inv : (t s : String) {b : String} → expect t s ≡ some b → s ≡ t <> b
unfolding expect
expect_inv String.[] s h = cc
expect_inv (String.◌∷◌ d t) String.[] h = cc
expect_inv (String.◌∷◌ d t) (String.◌∷◌ c s) {b} h = elim (Bool-cases (code c == code d)) [
  | inr other ↦ absurd (ground (arith, h, other))
  | inl hit ↦
      let rest : expect t s ≡ some b = rw (hit, if◌then◌else◌) at h in
      let same : c ≡ d = Char-path c d (ground (arith, hit)) in
      rw same (ap (String.◌∷◌ d) (expect_inv t s rest))
]

pub expect-append : (t b : String) → expect t (t <> b) ≡ some b
unfolding expect
expect-append String.[] b = refl
expect-append (String.◌∷◌ d t) b = ground (arith, expect-append t b)
