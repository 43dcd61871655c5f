-- ===== src/Report/Markers.antt =====
-- Where a marker is found in a text that is put together. A marker is a text that begins with the
-- character < and holds no other.
use Prim.Native.Char.{Char, code}
use pipelinex.Prelude.{
  ℕ, String, Bool, not, Option, none, some, ◌≡◌, refl, sym, ap, arith, inl, inr, ◌∙◌, true, false,
}
use pipelinex.Prelude.Tests.{◌==◌, if◌then◌else◌, Bool-cases, Option-cases}
use pipelinex.Prelude.Text.{◌<>◌, <>-nil, <>_assoc, AllChars, expect, expect_inv, expect-append}
use pipelinex.Report.{split_once, put_before}

-- A character other than the given one.
abbrev pub differs : Char → ℕ → Bool
differs d c = not (c == code d)

abbrev pub IsPlain : String → Type 0
IsPlain s = AllChars (differs "<") s

pub AllChars-append :
    (p : ℕ → Bool) (s t : String) → AllChars p s → AllChars p t → AllChars p (s <> t)
AllChars-append p String.[] t hs ht = ht
AllChars-append p (String.◌∷◌ c s) t hs ht = (hs.0, AllChars-append p s t hs.1 ht)

-- A text does not reach over a character that it does not hold.
expect_stops :
    (d : Char) (m u w : String)
    → AllChars (differs d) m
    → expect m u ≡ none
    → expect m (u <> String.◌∷◌ d w) ≡ none
unfolding expect
expect_stops d String.[] u w h missed = cc
expect_stops d (String.◌∷◌ e m) String.[] w h missed = ground (arith, h.0)
expect_stops d (String.◌∷◌ e m) (String.◌∷◌ c u) w h missed = elim (Bool-cases (code c == code e)) [
  | inr other ↦ rw other refl
  | inl hit ↦ rw hit (expect_stops d m u w h.1 (ground (arith, missed, hit)))
]

-- What is found at the front of a text is found with more behind it.
expect_more :
    (m s t : String) {r : String} → expect m s ≡ some r → expect m (s <> t) ≡ some (r <> t)
expect_more m s t {r} h = rw (expect_inv m s h, <>_assoc m r t) (expect-append m (r <> t))

abbrev pub behind : String → Option (String × String) → Option (String × String)
behind u none = none
behind u (some (before, after)) = some (u <> before, after)

behind_nil : (found : Option (String × String)) → found ≡ behind "" found
behind_nil none = refl
behind_nil (some (a, b)) = refl

pub behind_cons :
    (c : Char) (u : String) (found : Option (String × String))
    → put_before c (behind u found) ≡ behind (String.◌∷◌ c u) found
behind_cons c u none = refl
behind_cons c u (some (a, b)) = refl

put_before-none :
    (c : Char) (found : Option (String × String)) → put_before c found ≡ none → found ≡ none
put_before-none c none h = refl
put_before-none c (some (a, b)) h = cc

some_pair :
    {a b c d : String}
    → ◌≡◌ {A = Option (String × String)} (some (a, b)) (some (c, d))
    → (c ≡ a) × (d ≡ b)
some_pair h = (cc, cc)

put_before_inv :
    (c : Char) (found : Option (String × String)) {a b : String}
    → put_before c found ≡ some (a, b)
    → (a' : String) × (a ≡ String.◌∷◌ c a') × (found ≡ some (a', b))
put_before_inv c none h = cc
put_before_inv c (some (a', b')) h = (a', cc, cc)

-- `<` and a text without it.
abbrev pub mark : String → String
mark m = String.◌∷◌ "<" m

module _ (m : String) where
  pub split_once-front : (s : String) → split_once (mark m) (mark m <> s) ≡ some ("", s)
  split_once-front s = rw (split_once, expect-append (mark m) s) refl

  expect_cases :
      (c : Char) (s : String)
      → expect (mark m) (String.◌∷◌ c s) ≡ (if code c == 60 then expect m s else none)
  unfolding expect
  expect_cases c s = refl

  -- No occurrence before a character that the marker's rest does not hold: none over it.
  pub split_once-stops :
      (d : Char) (u w : String)
      → AllChars (differs d) m
      → split_once (mark m) u ≡ none
      → split_once (mark m) (u <> String.◌∷◌ d w) ≡ behind u (split_once (mark m) (String.◌∷◌ d w))
  split_once-stops d String.[] w free h = behind_nil (split_once (mark m) (String.◌∷◌ d w))
  split_once-stops d (String.◌∷◌ c u) w free h =
      elim (Option-cases (expect (mark m) (String.◌∷◌ c u))) [
        | inr (rest, here) ↦ absurd (ground (arith, h, here))
        | inl missed ↦
            let later : split_once (mark m) u ≡ none =
              put_before-none c (split_once (mark m) u) (rw (split_once, missed) at h) in
            let missed' : expect (mark m) (String.◌∷◌ c (u <> String.◌∷◌ d w)) ≡ none = ground (
              arith,
              expect_cases c u,
              expect_cases c (u <> String.◌∷◌ d w),
              expect_stops d m u w free,
            ) in
            rw (split_once, missed', split_once-stops d u w free later)
              (behind_cons c u (split_once (mark m) (String.◌∷◌ d w)))
      ]

  -- A text without < is passed over.
  pub split_once-IsPlain :
      (u w : String) → IsPlain u → split_once (mark m) (u <> w) ≡ behind u (split_once (mark m) w)
  split_once-IsPlain String.[] w plain = behind_nil (split_once (mark m) w)
  split_once-IsPlain (String.◌∷◌ c u) w plain =
      let missed : expect (mark m) (String.◌∷◌ c (u <> w)) ≡ none =
        ground (arith, expect_cases c (u <> w), plain.0) in
      rw (split_once, missed, split_once-IsPlain u w plain.1)
        (behind_cons c u (split_once (mark m) w))

  pub split_once_nil : split_once (mark m) "" ≡ none
  unfolding expect
  split_once_nil = refl

  missed_before :
      (c : Char) (a b : String)
      → expect (mark m) (String.◌∷◌ c (a <> b)) ≡ none
      → expect (mark m) (String.◌∷◌ c a) ≡ none
  missed_before c a b missed = elim (Option-cases (expect (mark m) (String.◌∷◌ c a))) [
    | inl none_here ↦ none_here
    | inr (rest, here) ↦ absurd (cc (missed, expect_more (mark m) (String.◌∷◌ c a) b here))
  ]

  -- Where the marker is not in a text, it is not in its front.
  pub split_once_prefix :
      (u v : String) → split_once (mark m) (u <> v) ≡ none → split_once (mark m) u ≡ none
  split_once_prefix String.[] v h = split_once_nil
  split_once_prefix (String.◌∷◌ c u) v h =
      elim (Option-cases (expect (mark m) (String.◌∷◌ c (u <> v)))) [
        | inr (rest, here) ↦ absurd (ground (arith, h, here))
        | inl missed ↦
            let later =
              put_before-none c (split_once (mark m) (u <> v)) (rw (split_once, missed) at h) in
            rw (split_once, missed_before c u v missed, split_once_prefix u v later) refl
      ]

  -- A text without < holds no marker.
  pub split_once_plain : (u : String) → IsPlain u → split_once (mark m) u ≡ none
  split_once_plain u plain =
      sym (ap (split_once (mark m)) (<>-nil u))
      ∙ split_once-IsPlain u "" plain
      ∙ ap (behind u) split_once_nil

  -- What is found splits the text, and it is the first.
  pub split_once_inv :
      (t : String) {a b : String}
      → split_once (mark m) t ≡ some (a, b)
      → (t ≡ a <> mark m <> b) × (split_once (mark m) a ≡ none)
  split_once_inv String.[] {a} {b} h = absurd (cc (h, split_once_nil))
  split_once_inv (String.◌∷◌ c t) {a} {b} h =
      elim (Option-cases (expect (mark m) (String.◌∷◌ c t))) [
        | inr (rest, here) ↦
            let found : some ("", rest) ≡ some (a, b) = rw (split_once, here) at h in
            let (first, second) : (a ≡ "") × (b ≡ rest) = (some_pair found) in
            rw (first, second) (expect_inv (mark m) (String.◌∷◌ c t) here, split_once_nil)
        | inl missed ↦
            let found : put_before c (split_once (mark m) t) ≡ some (a, b) =
              rw (split_once, missed) at h in
            let (a', more, later) = put_before_inv c (split_once (mark m) t) found in
            let (whole, first) = split_once_inv t later in
            let whole' : String.◌∷◌ c t ≡ String.◌∷◌ c (a' <> mark m <> b) =
              ap (String.◌∷◌ c) whole in
            let missed' = missed_before c a' (mark m <> b) (rw (← whole) missed) in
            rw more (whole', rw (split_once, missed', first) refl)
      ]

-- A test for the texts of the source.
abbrev pub all_chars : (ℕ → Bool) → String → Bool
all_chars p String.[] = true
all_chars p (String.◌∷◌ c s) = if p (code c) then all_chars p s else false

pub all_chars-AllChars : (p : ℕ → Bool) (s : String) → all_chars p s ≡ true → AllChars p s
all_chars-AllChars p String.[] h = tt
all_chars-AllChars p (String.◌∷◌ c s) h = elim (Bool-cases (p (code c))) [
  | inl hit ↦ (hit, all_chars-AllChars p s (ground (arith, h, hit)))
  | inr miss ↦ absurd (ground (arith, h, miss))
]
