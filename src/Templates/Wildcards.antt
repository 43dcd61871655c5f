-- ===== src/Templates/Wildcards.antt =====
-- What a compiled template matches: the parts of the template, with any text for each wildcard.
use pipelinex.Prelude.{ap, ◌≡◌, ◌↔◌, inl, inr, refl, String, Bool, true, List, [], ◌∷◌, some, arith}
use Prim.Native.Char.{Char}
use pipelinex.Prelude.Tests.{Bool-cases, Option-cases}
use pipelinex.Prelude.Text.{◌<>◌, expect, expect_inv, expect-append}
use pipelinex.Templates.{is_wildcard, search_part, match_rest, match_pattern}

-- A text that goes on with any text and a part, again and again, and then ends in any way.
abbrev pub Fills : List String → String → Type 0
Fills [] s = Unit
Fills (part ∷ parts) s =
    (gap : String) × (rest : String) × (s ≡ gap <> part <> rest) × Fills parts rest

-- A text that begins with the first part, and has any text for each wildcard.
abbrev pub Covers : List String → String → Type 0
Covers [] s = Unit
Covers (part ∷ parts) s = (rest : String) × (s ≡ part <> rest) × Fills parts rest

-- The parts with a wildcard between two of them.
abbrev pub Spells : List String → String → Type 0
Spells [] t = ⊥
Spells (part ∷ []) t = t ≡ part
Spells (part ∷ q ∷ parts) t =
    (a : Char) × (b : Char) × (c : Char) × (rest : String) × (is_wildcard a b c ≡ true)
    × (t ≡ part <> String.◌∷◌ a (String.◌∷◌ b (String.◌∷◌ c rest)))
    × Spells (q ∷ parts) rest

module _ (next : String → Bool) (part : String) where
  abbrev Found : String → Type 0
  Found s = (gap : String) × (rest : String) × (s ≡ gap <> part <> rest) × (next rest ≡ true)

  -- A place further on is a place.
  later-Found : (c : Char) (s : String) → Found s → Found (String.◌∷◌ c s)
  later-Found c s (gap, rest, e, ok) = (String.◌∷◌ c gap, rest, ap (String.◌∷◌ c) e, ok)

  here-Found : (s rest : String) → expect part s ≡ some rest → next rest ≡ true → Found s
  here-Found s rest taken ok = ("", rest, expect_inv part s taken, ok)

  search_part-Found : (s : String) → search_part next part s ≡ true → Found s
  search_part-Found String.[] h = elim (Option-cases (expect part "")) [
    | inl nothing ↦ absurd (ground (arith, h, nothing))
    | inr (rest, taken) ↦ here-Found "" rest taken (ground (arith, h, taken))
  ]
  search_part-Found (String.◌∷◌ c s) h = elim (Option-cases (expect part (String.◌∷◌ c s))) [
    | inl nothing ↦ later-Found c s (search_part-Found s (ground (arith, h, nothing)))
    | inr (rest, taken) ↦ elim (Bool-cases (next rest)) [
      | inl ok ↦ here-Found (String.◌∷◌ c s) rest taken ok
      | inr not_ok ↦ later-Found c s (search_part-Found s (ground (arith, h, taken, not_ok)))
    ]
  ]

  search_part-append :
      (gap rest : String) → next rest ≡ true → search_part next part (gap <> part <> rest) ≡ true
  search_part-append String.[] rest ok = front (part <> rest) (expect-append part rest)
    where
      front : (s : String) → expect part s ≡ some rest → search_part next part s ≡ true
      front String.[] taken = ground (arith, taken, ok)
      front (String.◌∷◌ c s) taken = ground (arith, taken, ok)
  search_part-append (String.◌∷◌ c gap) rest ok = ground (arith, search_part-append gap rest ok)

match_rest_iff : (parts : List String) (s : String) → (match_rest parts s ≡ true) ↔ Fills parts s
unfolding match_rest
match_rest_iff [] s = (λ h. tt, λ h. refl)
match_rest_iff (part ∷ parts) s = (
  λ h.
      let (gap, rest, e, ok) = search_part-Found (match_rest parts) part s h in
      (gap, rest, e, (match_rest_iff parts rest).0 ok),
  λ (gap, rest, e, fills).
      rw e
        (search_part-append (match_rest parts) part gap rest ((match_rest_iff parts rest).1 fills)),
)

pub match_pattern_iff :
    (parts : List String) (s : String) → (match_pattern parts s ≡ true) ↔ Covers parts s
unfolding match_pattern
match_pattern_iff [] s = (λ h. tt, λ h. refl)
match_pattern_iff (part ∷ parts) s = (
  λ h. elim (Option-cases (expect part s)) [
    | inl nothing ↦ absurd (ground (arith, h, nothing))
    | inr (rest, taken) ↦
        let ok : match_rest parts rest ≡ true = ground (arith, h, taken) in
        (rest, expect_inv part s taken, (match_rest_iff parts rest).0 ok)
  ],
  λ (rest, e, fills).
      rw (e, match_pattern, expect-append part rest) ((match_rest_iff parts rest).1 fills),
)
