-- ===== src/Parsers/Hdfs/Lines.antt =====
-- Which lines src/pipelinex/stages/parsing/hdfs_parser.py reads, and as what.
use pipelinex.Prelude.{sym, ℕ, ◌≡◌, ◌≢◌, ◌⊎◌, ◌↔◌, refl, String, true, none, some, arith, inl, inr}
use pipelinex.Prelude.Text.{
  ◌<>◌, AllChars, Stops, size, span, bind_inv, many1_inv, many1-append, exactly_inv, exactly-append,
  expect_inv, expect-append, span-join, span-AllChars, span-append, <>_assoc,
}
use pipelinex.Prelude.Equality.{string_eq}
use pipelinex.Prelude.Tests.{if◌then◌else◌, Bool-cases, Option-cases}
use pipelinex.Parsers.{Python, IsPython, is_name, is_inline}
use pipelinex.Parsers.Hdfs.{Line, at_end, match_line, can_parse, parse}
use pipelinex.Parsers.Hdfs.Fields.{BecomesRecord, of_line-BecomesRecord}
use pipelinex.Stages.Parsing.{Parsed}
use pipelinex.Exceptions.{ErrorKind}

-- `_reconstruct_raw` in hdfs_structured_csv_parser.py writes a line so.
abbrev pub line_text : Line → String
line_text l =
    l.date <> " " <> l.time <> " " <> l.pid <> " " <> l.level <> " " <> l.component <> ": "
    <> l.content

line_text-append :
    (l : Line) (tail : String)
    → line_text l <> tail
      ≡ l.date <> " " <> l.time <> " " <> l.pid <> " " <> l.level <> " " <> l.component <> ": "
        <> l.content <> tail
line_text-append l tail = simp <>_assoc

pub record IsLine (py : Python) (l : Line) : Type 0 where
  pub date_digits : AllChars py.is_digit l.date
  pub date_six : size l.date ≡ 6
  pub time_digits : AllChars py.is_digit l.time
  pub time_six : size l.time ≡ 6
  pub pid_digits : AllChars py.is_digit l.pid
  pub some_pid : l.pid ≢ ""
  pub level_word : AllChars py.is_word l.level
  pub some_level : l.level ≢ ""
  pub component_name : AllChars (is_name py) l.component
  pub some_component : l.component ≢ ""
  pub one_line : AllChars is_inline l.content

tail_Stops : {tail : String} → (tail ≡ "") ⊎ (tail ≡ "\n") → Stops is_inline tail
tail_Stops (inl none_left) = rw none_left tt
tail_Stops (inr feed) = rw feed refl

tail_ends : {tail : String} → (tail ≡ "") ⊎ (tail ≡ "\n") → at_end tail ≡ true
tail_ends (inl none_left) = rw none_left refl
tail_ends (inr feed) = rw feed refl

module _ (py : Python) (laws : IsPython py) where
  -- Each line so written is read as its parts, also with a line feed at its end.
  pub match_line-line_text :
      (l : Line) (tail : String)
      → IsLine py l
      → (tail ≡ "") ⊎ (tail ≡ "\n")
      → match_line py (line_text l <> tail) ≡ some l
  unfolding match_line
  match_line-line_text l tail h ends =
      let s10 = l.content <> tail in
      let s8 = l.component <> ": " <> s10 in
      let s6 = l.level <> " " <> s8 in
      let s4 = l.pid <> " " <> s6 in
      let s2 = l.time <> " " <> s4 in
      rw
        (
          line_text-append l tail,
          exactly-append 6 py.is_digit l.date (" " <> s2) h.date_digits h.date_six,
          expect-append " " s2,
          exactly-append 6 py.is_digit l.time (" " <> s4) h.time_digits h.time_six,
          expect-append " " s4,
          many1-append py.is_digit l.pid (" " <> s6) h.pid_digits h.some_pid laws.no_digit_space,
          expect-append " " s6,
          many1-append py.is_word l.level (" " <> s8) h.level_word h.some_level laws.no_word_space,
          expect-append " " s8,
          many1-append (is_name py) l.component (": " <> s10) h.component_name h.some_component
              (rw laws.no_word_colon refl),
          expect-append ": " s10,
          span-append is_inline l.content tail h.one_line (tail_Stops ends),
          tail_ends ends,
        )
        refl

at_end_inv : (s : String) → at_end s ≡ true → (s ≡ "") ⊎ (s ≡ "\n")
at_end_inv s h = ground (arith, string_eq.beq_iff s "", string_eq.beq_iff s "\n")

-- A text that is a line, and what may follow it.
abbrev pub IsLineText : Python → String → Line → Type 0
IsLineText py raw l =
    IsLine py l × ((tail : String) × ((tail ≡ "") ⊎ (tail ≡ "\n")) × (raw ≡ line_text l <> tail))

-- The parts of a line, each in front of the rest that it leaves.
line_text_chain :
    (l : Line) (tail : String) {raw s1 s2 s3 s4 s5 s6 s7 s8 s9 s10 : String}
    → raw ≡ l.date <> s1
    → s1 ≡ " " <> s2
    → s2 ≡ l.time <> s3
    → s3 ≡ " " <> s4
    → s4 ≡ l.pid <> s5
    → s5 ≡ " " <> s6
    → s6 ≡ l.level <> s7
    → s7 ≡ " " <> s8
    → s8 ≡ l.component <> s9
    → s9 ≡ ": " <> s10
    → l.content <> tail ≡ s10
    → raw ≡ line_text l <> tail
line_text_chain l tail e0 e1 e2 e3 e4 e5 e6 e7 e8 e9 e10 =
    rw (line_text-append l tail, e0, e1, e2, e3, e4, e5, e6, e7, e8, e9, sym e10) refl

module _ (py : Python) where
  -- The last step: the content and the end.
  content_inv :
      (date time pid level component s : String) (l : Line)
      → (if at_end ((span is_inline s).1)
          then some (record {
            date = date;
            time = time;
            pid = pid;
            level = level;
            component = component;
            content = (span is_inline s).0;
          })
          else none)
        ≡ some l
      → (l ≡ record {
        date = date;
        time = time;
        pid = pid;
        level = level;
        component = component;
        content = (span is_inline s).0;
      })
        × (at_end ((span is_inline s).1) ≡ true)
  content_inv date time pid level component s l h =
      elim (Bool-cases (at_end ((span is_inline s).1))) [
        | inl ends ↦ (cc (rw (ends, if◌then◌else◌) at h), ends)
        | inr more ↦ absurd (ground (arith, h, more))
      ]

  match_line_inv : (raw : String) (l : Line) → match_line py raw ≡ some l → IsLineText py raw l
  unfolding match_line
  match_line_inv raw l h0 =
      let ((date, s1), e0, h1) = bind_inv _ _ h0 in
      let (s2, e1, h2) = bind_inv _ _ h1 in
      let ((time, s3), e2, h3) = bind_inv _ _ h2 in
      let (s4, e3, h4) = bind_inv _ _ h3 in
      let ((pid, s5), e4, h5) = bind_inv _ _ h4 in
      let (s6, e5, h6) = bind_inv _ _ h5 in
      let ((level, s7), e6, h7) = bind_inv _ _ h6 in
      let (s8, e7, h8) = bind_inv _ _ h7 in
      let ((component, s9), e8, h9) = bind_inv _ _ h8 in
      let (s10, e9, h10) = bind_inv _ _ h9 in
      let (same, ends) = content_inv date time pid level component s10 l h10 in
      let i0 = exactly_inv 6 py.is_digit raw e0 in
      let i1 = expect_inv " " s1 e1 in
      let i2 = exactly_inv 6 py.is_digit s2 e2 in
      let i3 = expect_inv " " s3 e3 in
      let i4 = many1_inv py.is_digit s4 e4 in
      let i5 = expect_inv " " s5 e5 in
      let i6 = many1_inv py.is_word s6 e6 in
      let i7 = expect_inv " " s7 e7 in
      let i8 = many1_inv (is_name py) s8 e8 in
      let i9 = expect_inv ": " s9 e9 in
      rw same (
        record {
          date_digits = i0.1;
          date_six = i0.2;
          time_digits = i2.1;
          time_six = i2.2;
          pid_digits = i4.1;
          some_pid = i4.2;
          level_word = i6.1;
          some_level = i6.2;
          component_name = i8.1;
          some_component = i8.2;
          one_line = span-AllChars is_inline s10;
        },
        (
          (span is_inline s10).1,
          at_end_inv _ ends,
          line_text_chain _ _ i0.0 i1 i2.0 i3 i4.0 i5 i6.0 i7 i8.0 i9 (span-join is_inline s10),
        ),
      )

module _ (py : Python) (laws : IsPython py) where
  -- The regular expression matches a text, with given groups, exactly when the text is written from
  -- the groups in the format of the line, possibly with a line feed at the end. The classes of digits
  -- and words hold no space, and that of words no colon.
  pub match_line_iff :
      (raw : String) (l : Line) → (match_line py raw ≡ some l) ↔ IsLineText py raw l
  match_line_iff raw l = (
    λ h. match_line_inv py raw l h,
    λ (is_line, (tail, ends, written)).
        rw written (match_line-line_text py laws l tail is_line ends),
  )

  can_parse-line_text : (raw : String) (l : Line) → IsLineText py raw l → can_parse py raw ≡ true
  unfolding can_parse
  can_parse-line_text raw l (h, (tail, ends, written)) =
      let s6 = l.level <> " " <> l.component <> ": " <> l.content <> tail in
      let s4 = l.pid <> " " <> s6 in
      let s2 = l.time <> " " <> s4 in
      rw
        (
          written,
          can_parse,
          line_text-append l tail,
          exactly-append 6 py.is_digit l.date (" " <> s2) h.date_digits h.date_six,
          expect-append " " s2,
          exactly-append 6 py.is_digit l.time (" " <> s4) h.time_digits h.time_six,
          expect-append " " s4,
          many1-append py.is_digit l.pid (" " <> s6) h.pid_digits h.some_pid laws.no_digit_space,
          expect-append " " s6,
        )
        refl

  missed : {raw : String} {l : Line} → match_line py raw ≡ none → ¬ IsLineText py raw l
  missed {raw} {l} nothing is_line = let found = (match_line_iff raw l).1 is_line in cc

  -- What `parse` does with a text: one that is a line passes `can_parse` and becomes a record of
  -- its parts, or is refused for its time; any other is refused.
  abbrev pub Reads : (F : Type 0) → ℕ → String → Type 0
  Reads F uid raw =
      ((l : Line) × IsLineText py raw l
        × (can_parse py raw ≡ true)
        × BecomesRecord {F = F} py uid raw l (parse {F = F} py uid raw))
      ⊎ (((l : Line) → ¬ IsLineText py raw l)
          × (parse {F = F} py uid raw ≡ Parsed.rejects ErrorKind.parser_error))

  -- A text that is a line passes `can_parse`. It is refused with a parser error if its time cannot be
  -- read, or else becomes the record with the instant, the component as source, the content as
  -- message, the severity of its level, the pid, the level and the text in the raw payload, and in
  -- the enrichment exactly the block found in the content and a warning for an unknown level. Any
  -- other text is refused with a parser error. The classes hold no separator.
  pub parse-Reads : (F : Type 0) (uid : ℕ) (raw : String) → Reads F uid raw
  unfolding parse
  parse-Reads F uid raw = elim (Option-cases (match_line py raw)) [
    | inl nothing ↦ inr (λ l is_line. absurd (missed nothing is_line), rw (parse, nothing) refl)
    | inr (l, found) ↦
        let is_line = match_line_inv py raw l found in
        inl (
          l,
          is_line,
          can_parse-line_text raw l is_line,
          rw (parse, found) (of_line-BecomesRecord {F = F} py uid raw l),
        )
  ]
