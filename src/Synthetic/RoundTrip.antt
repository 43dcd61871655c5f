-- ===== src/Synthetic/RoundTrip.antt =====
-- What the HDFS parser makes of a line of scripts/generate_synthetic_logs.py.
use pipelinex.Prelude.{
  ℕ, ◌+◌, ◌%◌, ◌^◌, String, Bool, true, Option, none, some, ◌≡◌, ◌≢◌, refl, sym, ap, ◌∙◌, arith,
  inl, inr,
}
use pipelinex.Prelude.Tests.{if◌then◌else◌, ◌==◌, Bool-cases}
use pipelinex.Prelude.Dict.{lookup, All-lookup}
use pipelinex.Prelude.Equality.{◌=?◌, string_eq}
use pipelinex.Prelude.Int.{ℤ, sub_ℕ}
use pipelinex.Prelude.Text.{◌<>◌, <>-nil, AllChars}
use pipelinex.Models.{Severity, Value, LogRecord, add_enrichment}
use pipelinex.Stages.Parsing.{Parsed}
use pipelinex.Parsers.{Python, is_name, search_block, level_map, add_block, add_warning}
use pipelinex.Parsers.Hdfs.{Line, match_line, of_line, parse, plain_record}
use pipelinex.Parsers.Hdfs.Lines.{line_text, IsLine, match_line-line_text}
use pipelinex.Report.Markers.{all_chars, all_chars-AllChars}
use pipelinex.Synthetic.{hdfs_templates, LineDraw, Emitted, randint}
use pipelinex.Synthetic.Format.{
  Texts, format, field_text, random_block_id, component_of, line_instant, format_hdfs_line,
}
use pipelinex.Synthetic.Blocks.{AreTexts, is_letter}
use pipelinex.Synthetic.Lines.{content, Found, OneLine, templates-Found, templates_inline}

-- The letters, and the two marks of a component's name.
abbrev is_part : ℕ → Bool
is_part c = if is_letter c then true else if c == b'$' then true else c == b'.'

AllChars-weaken :
    (p q : ℕ → Bool) (s : String)
    → ((c : ℕ) → p c ≡ true → q c ≡ true)
    → AllChars p s
    → AllChars q s
AllChars-weaken p q String.[] h all = tt
AllChars-weaken p q (String.◌∷◌ c s) h all = (h _ all.0, AllChars-weaken p q s h all.1)

-- A line that matches, whose instant is read, in which a block is found and whose level is known.
parse_found :
    {F : Type 0} (py : Python) (uid : ℕ) (raw : String) (l : Line) (ts : ℕ) (group : String)
    {severity : Severity}
    → match_line py raw ≡ some l
    → py.strptime "%y%m%d%H%M%S" (l.date <> l.time) ≡ some ts
    → search_block py l.content ≡ some group
    → lookup l.level level_map ≡ some severity
    → parse {F = F} py uid raw
      ≡ Parsed.parses
          (add_enrichment (plain_record py uid raw l ts) "block_id" (Value.text ("blk_" <> group)))
unfolding parse of_line
parse_found py uid raw l ts group matched reads found level =
    rw (parse, matched, of_line, reads, add_block, found, add_warning, level) refl

module _ {py : Python} {t : Texts} (ok : AreTexts py t) where
  part_name : (c : ℕ) → is_part c ≡ true → is_name py c ≡ true
  part_name c h = elim (Bool-cases (is_letter c)) [
    | inl letter ↦ rw (is_name, ok.letters c letter) refl
    | inr other ↦ ground (arith, h, other)
  ]

  named : (s : String) → all_chars is_part s ≡ true → AllChars (is_name py) s
  named s h = AllChars-weaken is_part (is_name py) s part_name (all_chars-AllChars is_part s h)

  abbrev IsName : String → Type 0
  IsName s = AllChars (is_name py) s × (s ≢ "")

  component_of-IsName : (event : String) → IsName (component_of event)
  component_of-IsName event =
      let system : IsName "dfs.FSNamesystem" = (named "dfs.FSNamesystem" refl, λ e. cc) in
      let responder : IsName "dfs.DataNode$PacketResponder" =
        (named "dfs.DataNode$PacketResponder" refl, λ e. cc) in
      elim (Bool-cases (event =? "E22")) [
        | inl e22 ↦ rw (component_of, e22) system
        | inr n22 ↦ elim (Bool-cases (event =? "E26")) [
          | inl e26 ↦ rw (component_of, n22, e26) system
          | inr n26 ↦ elim (Bool-cases (event =? "E5")) [
            | inl e5 ↦ rw (component_of, n22, n26, e5) system
            | inr n5 ↦ elim (Bool-cases (event =? "E4")) [
              | inl e4 ↦ rw (component_of, n22, n26, n5, e4) system
              | inr n4 ↦ rw (component_of, n22, n26, n5, n4) responder
            ]
          ]
        ]
      ]

  module _ (z : ℤ) (ts pid : ℕ) (event : String) (d : LineDraw) (template : String) where
    abbrev line_of : Line
    line_of = record {
      date = t.strftime "%y%m%d" ts;
      time = t.strftime "%H%M%S" ts;
      pid = t.str_ℕ pid;
      level = "INFO";
      component = component_of event;
      content = content ok z d template;
    }

    line_of-IsLine : OneLine ok z d template → IsLine py line_of
    line_of-IsLine one_line = record {
      date_digits = ok.date_digits ts;
      date_six = ok.date_six ts;
      time_digits = ok.time_digits ts;
      time_six = ok.time_six ts;
      pid_digits = ok.digits pid;
      some_pid = ok.some_digit pid;
      level_word =
          AllChars-weaken is_letter py.is_word "INFO" ok.letters
            (all_chars-AllChars is_letter "INFO" refl);
      some_level = λ e. cc;
      component_name = (component_of-IsName event).0;
      some_component = (component_of-IsName event).1;
      one_line = one_line;
    }

    parse_line :
        {F : Type 0} (uid : ℕ)
        → Found ok z d template
        → OneLine ok z d template
        → py.strptime "%y%m%d%H%M%S" (line_of.date <> line_of.time) ≡ some ts
        → parse {F = F} py uid (line_text line_of)
          ≡ Parsed.parses (
              add_enrichment
                (plain_record py uid (line_text line_of) line_of ts)
                "block_id"
                (Value.text ("blk_" <> t.str_int z)))
    parse_line uid found one_line reads =
        let matched : match_line py (line_text line_of) ≡ some line_of =
          ap (match_line py) (sym (<>-nil (line_text line_of)))
          ∙ match_line-line_text py ok.classes line_of "" (line_of-IsLine one_line) (inl refl) in
        parse_found py uid (line_text line_of) line_of ts (t.str_int z) matched reads found refl

-- A line that the parser reads as the record of what was emitted: its instant, the component and
-- the template of its event, its number and its block.
pub record IsRead (F : Type 0) (py : Python) (t : Texts) (uid : ℕ) (e : Emitted)
    (written : Option String) : Type 0 where
  pub line : String
  pub template : String
  pub read : LogRecord F
  pub is_line : written ≡ some line
  pub of_event : lookup e.event hdfs_templates ≡ some template
  pub parsed : parse py uid line ≡ Parsed.parses read
  pub at_instant : read.timestamp ≡ some (line_instant e.drawn)
  pub from_component : read.source ≡ component_of e.event
  pub with_content : read.message ≡ format (field_text t e.blk e.drawn) none template
  pub informs : read.severity ≡ Severity.info
  pub of_pid : lookup "pid" read.raw_payload ≡ some (Value.text (t.str_ℕ e.pid))
  pub of_block : lookup "block_id" read.enrichment ≡ some (Value.text e.blk)

module _ {F : Type 0} {py : Python} {t : Texts} (ok : AreTexts py t) where
  -- Each line that is written for an event of the table is read back.
  pub format_hdfs_line-IsRead :
      (uid n : ℕ) (e : Emitted) {template : String}
      → lookup e.event hdfs_templates ≡ some template
      → e.blk ≡ random_block_id t n
      → IsRead F py t uid e (format_hdfs_line t (line_instant e.drawn) e.pid e.event e.blk e.drawn)
  unfolding add_enrichment
  format_hdfs_line-IsRead uid n e {template} known same =
      let d = e.drawn in
      let z = sub_ℕ (n % (2 ^ 63 + 1)) (2 ^ 62) in
      let ts = line_instant d in
      let l = line_of ok z ts e.pid e.event d template in
      let found =
        All-lookup (λ (row : String × String). Found ok z d row.1) e.event hdfs_templates
          (templates-Found ok z d) known in
      let one_line =
        All-lookup (λ (row : String × String). OneLine ok z d row.1) e.event hdfs_templates
          (templates_inline ok z d) known in
      let reads =
        ok.reads_back (1704067200 + randint 0 2592000 d.seconds) (omega arith) (omega arith) in
      record {
        line = line_text l;
        template = template;
        read =
            add_enrichment (plain_record py uid (line_text l) l ts) "block_id"
              (Value.text ("blk_" <> t.str_int z));
        is_line = rw (format_hdfs_line, known, same) refl;
        of_event = known;
        parsed = parse_line ok z ts e.pid e.event d template uid found one_line reads;
        at_instant = refl;
        from_component = refl;
        with_content = rw same refl;
        informs = refl;
        of_pid = refl;
        of_block = rw same refl;
      }
