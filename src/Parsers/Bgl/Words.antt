-- ===== src/Parsers/Bgl/Words.antt =====
-- Which texts `split(maxsplit=...)` takes apart, and into what.
use pipelinex.Prelude.{sym, ◌≡◌, ◌≢◌, ◌↔◌, refl, String, true, List, [], ◌∷◌, ◌++◌, arith, inl, inr}
use Prim.Native.Char.{code}
use pipelinex.Prelude.Lists.{length}
use pipelinex.Prelude.Text.{
  ◌<>◌, AllChars, Stops, span, span-join, span-AllChars, span-Stops, span-append,
}
use pipelinex.Prelude.Equality.{string_eq, =?-cases, =?-ne}
use pipelinex.Prelude.Tests.{if◌then◌else◌, Bool-cases}
use pipelinex.Parsers.{Python}
use pipelinex.Parsers.Bgl.{is_solid, lstrip, split_max}

module _ (py : Python) where
  -- A text that is given words and then a content, with white space between them.
  abbrev pub Written : List String → String → String → Type 0
  Written [] content s =
      (lead : String) × AllChars py.is_space lead
      × (s ≡ lead <> content)
      × (content ≢ "")
      × Stops py.is_space content
  Written (w ∷ ws) content s =
      (lead : String) × (rest : String) × AllChars py.is_space lead
      × (s ≡ lead <> w <> rest)
      × (w ≢ "")
      × AllChars (is_solid py) w
      × Stops (is_solid py) rest
      × Written ws content rest

  -- A word stops the white space.
  solid-Stops :
      (w rest : String) → w ≢ "" → AllChars (is_solid py) w → Stops py.is_space (w <> rest)
  solid-Stops String.[] rest there solid = absurd (there refl)
  solid-Stops (String.◌∷◌ c w) rest there solid = elim (Bool-cases (py.is_space (code c))) [
    | inl space ↦ ground (arith, solid.0, space)
    | inr no_space ↦ no_space
  ]

  some_word : (t : String) → t ≢ "" → Stops py.is_space t → (span (is_solid py) t).0 ≢ ""
  some_word String.[] there stop = absurd (there refl)
  some_word (String.◌∷◌ c t) there stop =
      let solid : is_solid py (code c) ≡ true = rw (is_solid, stop) refl in
      rw (span, solid) (λ same. cc)

  append_some : (w rest : String) → w ≢ "" → w <> rest ≢ ""
  append_some String.[] rest there = absurd (there refl)
  append_some (String.◌∷◌ c w) rest there = λ same. cc

  lstrip-append :
      (lead t : String)
      → AllChars py.is_space lead
      → Stops py.is_space t
      → lstrip py (lead <> t) ≡ t
  lstrip-append lead t white stop = rw (lstrip, span-append py.is_space lead t white stop) refl

  split_max-Written :
      (ws : List String) (content s : String)
      → Written ws content s
      → split_max py (length ws) s ≡ ws ++ content ∷ []
  unfolding split_max
  split_max-Written [] content s (lead, white, written, there, stop) =
      rw (split_max, written, lstrip-append lead content white stop, =?-ne content "" there) refl
  split_max-Written (w ∷ ws) content s (lead, rest, white, written, there, solid, stop, more) =
      rw
        (
          split_max,
          written,
          lstrip-append lead (w <> rest) white (solid-Stops w rest there solid),
          =?-ne (w <> rest) "" (append_some w rest there),
          span-append (is_solid py) w rest solid stop,
          split_max-Written ws content rest more,
        )
        refl

  Written-split_max :
      (ws : List String) (content s : String)
      → split_max py (length ws) s ≡ ws ++ content ∷ []
      → Written ws content s
  unfolding split_max
  Written-split_max [] content s h =
      let t = lstrip py s in
      elim (=?-cases t "") [
        | inl (empty, hit) ↦
            let none_left : [] ≡ content ∷ [] = rw (split_max, hit, if◌then◌else◌) at h in cc
        | inr (there, miss) ↦
            let same : t ∷ [] ≡ content ∷ [] = rw (split_max, miss, if◌then◌else◌) at h in
            let only : content ≡ t = cc in
            rw only (
              (span py.is_space s).0,
              span-AllChars py.is_space s,
              sym (span-join py.is_space s),
              there,
              span-Stops py.is_space s,
            )
      ]
  Written-split_max (w ∷ ws) content s h =
      let t = lstrip py s in
      let rest = (span (is_solid py) t).1 in
      elim (=?-cases t "") [
        | inl (empty, hit) ↦
            let none_left : [] ≡ (w ∷ ws) ++ content ∷ [] =
              rw (split_max, hit, if◌then◌else◌) at h in
            cc
        | inr (there, miss) ↦
            let taken : (span (is_solid py) t).0 ∷ split_max py (length ws) rest
                ≡ w ∷ (ws ++ content ∷ []) =
              rw (split_max, miss, if◌then◌else◌) at h in
            let first : w ≡ (span (is_solid py) t).0 = cc in
            let others : split_max py (length ws) rest ≡ ws ++ content ∷ [] = cc in
            rw first (
              (span py.is_space s).0,
              rest,
              span-AllChars py.is_space s,
              rw (span-join (is_solid py) t) (sym (span-join py.is_space s)),
              some_word t there (span-Stops py.is_space s),
              span-AllChars (is_solid py) t,
              span-Stops (is_solid py) t,
              Written-split_max ws content rest others,
            )
      ]

  -- `split(maxsplit=n)` yields n words and a content exactly when the text is written so.
  pub split_max_iff :
      (ws : List String) (content s : String)
      → (split_max py (length ws) s ≡ ws ++ content ∷ []) ↔ Written ws content s
  split_max_iff ws content s =
      (λ h. Written-split_max ws content s h, λ h. split_max-Written ws content s h)
