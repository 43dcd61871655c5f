-- ===== src/Parsers/Bgl/Reads.antt =====
-- Which lines the BGL parser reads, and as what.
use pipelinex.Prelude.{
  ℕ, zero, suc, ◌≤◌, ◌↔◌, ◌≡◌, ◌⊎◌, refl, String, List, [], ◌∷◌, ◌++◌, some, arith,
}
use pipelinex.Prelude.Text.{bind_inv, some_inv, span}
use pipelinex.Prelude.Lists.{length}
use pipelinex.Exceptions.{ErrorKind}
use pipelinex.Models.{Value, LogRecord}
use pipelinex.Prelude.Dict.{lookup}
use pipelinex.Prelude.Equality.{string_eq}
use pipelinex.Stages.Parsing.{Parsed}
use pipelinex.Parsers.{Python, uncons}
use pipelinex.Parsers.Bgl.{BglLine, ten_fields, split_max, of_fields, parse, is_solid, lstrip}
use pipelinex.Parsers.Bgl.Words.{Written, split_max_iff}

length-nil : (xs : List String) → length xs ≤ 0 → xs ≡ []
length-nil [] h = refl
length-nil (x ∷ xs) h = absurd (omega arith)

-- The nine fields in front of the content.
abbrev pub front : String → String → BglLine → List String
front epoch date_simple l =
    l.label ∷ epoch ∷ date_simple ∷ l.node ∷ l.time_str ∷ l.node_repeat ∷ l.log_type ∷ l.component
    ∷ l.level ∷ []

ten_fields-front :
    (epoch date_simple : String) (l : BglLine)
    → ten_fields (front epoch date_simple l ++ l.content ∷ []) ≡ some l
unfolding ten_fields
ten_fields-front epoch date_simple l = refl

uncons_inv :
    (xs : List String) {x : String} {rest : List String}
    → uncons xs ≡ some (x, rest)
    → xs ≡ x ∷ rest
uncons_inv [] h = cc
uncons_inv (y ∷ ys) h = let same = h in cc

-- The fields, each in front of the rest that it leaves.
front_chain :
    (epoch date_simple : String) (l : BglLine) (more : List String)
    {parts r1 r2 r3 r4 r5 r6 r7 r8 r9 : List String}
    → parts ≡ l.label ∷ r1
    → r1 ≡ epoch ∷ r2
    → r2 ≡ date_simple ∷ r3
    → r3 ≡ l.node ∷ r4
    → r4 ≡ l.time_str ∷ r5
    → r5 ≡ l.node_repeat ∷ r6
    → r6 ≡ l.log_type ∷ r7
    → r7 ≡ l.component ∷ r8
    → r8 ≡ l.level ∷ r9
    → r9 ≡ l.content ∷ more
    → parts ≡ front epoch date_simple l ++ l.content ∷ more
front_chain epoch date_simple l more e0 e1 e2 e3 e4 e5 e6 e7 e8 e9 =
    rw (e0, e1, e2, e3, e4, e5, e6, e7, e8, e9) refl

ten_fields_inv :
    (parts : List String) (l : BglLine)
    → ten_fields parts ≡ some l
    → (epoch : String) × (date_simple : String) × (more : List String) × (parts
        ≡ front epoch date_simple l ++ l.content ∷ more)
unfolding ten_fields
ten_fields_inv parts l h0 =
    let ((label, r1), e0, h1) = bind_inv _ _ h0 in
    let ((epoch, r2), e1, h2) = bind_inv _ _ h1 in
    let ((date_simple, r3), e2, h3) = bind_inv _ _ h2 in
    let ((node, r4), e3, h4) = bind_inv _ _ h3 in
    let ((time_str, r5), e4, h5) = bind_inv _ _ h4 in
    let ((node_repeat, r6), e5, h6) = bind_inv _ _ h5 in
    let ((log_type, r7), e6, h7) = bind_inv _ _ h6 in
    let ((component, r8), e7, h8) = bind_inv _ _ h7 in
    let ((level, r9), e8, h9) = bind_inv _ _ h8 in
    let ((content, more), e9, made) = bind_inv _ _ h9 in
    let same : l ≡ record {
      label = label;
      node = node;
      time_str = time_str;
      node_repeat = node_repeat;
      log_type = log_type;
      component = component;
      level = level;
      content = content;
    } =
      some_inv made in
    rw same (
      epoch,
      date_simple,
      more,
      front_chain epoch date_simple _ more (uncons_inv _ e0) (uncons_inv _ e1) (uncons_inv _ e2)
          (uncons_inv _ e3) (uncons_inv _ e4) (uncons_inv _ e5) (uncons_inv _ e6) (uncons_inv _ e7)
          (uncons_inv _ e8) (uncons_inv _ e9),
    )

module _ (py : Python) where
  length-split_max-le : (n : ℕ) (s : String) → length (split_max py n s) ≤ suc n
  unfolding split_max
  length-split_max-le zero s = ground arith
  length-split_max-le (suc n) s =
      ground (arith, length-split_max-le n ((span (is_solid py) (lstrip py s)).1))

  -- A line of BGL: nine words and a content.
  abbrev pub IsBglText : String → BglLine → Type 0
  IsBglText raw l =
      (epoch : String) × (date_simple : String) × Written py (front epoch date_simple l) l.content
        raw

  pub ten_fields-split_max_iff :
      (raw : String) (l : BglLine) → (ten_fields (split_max py 9 raw) ≡ some l) ↔ IsBglText raw l
  ten_fields-split_max_iff raw l = (
    λ h.
        let (epoch, date_simple, more, whole) = ten_fields_inv _ l h in
        let bound = length-split_max-le 9 raw in
        let short : length (front epoch date_simple l ++ l.content ∷ more) ≤ 10 =
          rw whole at bound in
        let no_more : more ≡ [] = length-nil more (omega (arith, short)) in
        let exact : split_max py 9 raw ≡ front epoch date_simple l ++ l.content ∷ [] =
          rw no_more at whole in
        (epoch, date_simple, (split_max_iff py (front epoch date_simple l) l.content raw).0 exact),
    λ (epoch, date_simple, written).
        rw ((split_max_iff py (front epoch date_simple l) l.content raw).1 written)
          (ten_fields-front epoch date_simple l),
  )

  -- What `parse` does with a text: nine words and a content become a record that carries its label,
  -- or the time is refused; any other text is refused with a parser error.
  abbrev pub Reads : (F : Type 0) → ℕ → String → Type 0
  Reads F uid raw =
      ((l : BglLine) × IsBglText raw l
        × (parse {F = F} py uid raw ≡ of_fields py uid raw l)
        × ((r : LogRecord F)
            → of_fields py uid raw l ≡ Parsed.parses r
            → lookup "bgl_label" r.enrichment ≡ some (Value.text l.label)))
      ⊎ (((l : BglLine) → ¬ IsBglText raw l)
          × (parse {F = F} py uid raw ≡ Parsed.rejects ErrorKind.parser_error))
