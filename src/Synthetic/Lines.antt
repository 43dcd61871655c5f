-- ===== src/Synthetic/Lines.antt =====
-- The lines of scripts/generate_synthetic_logs.py: the block that is found in each template.
use Prim.Native.Char.{code}
use pipelinex.Prelude.{
  ℕ, suc, String, true, List, [], ◌∷◌, none, some, ◌≡◌, refl, ap, ◌∙◌, arith, inl, inr,
}
use pipelinex.Prelude.Tests.{◌==◌, Bool-cases}
use pipelinex.Prelude.Lists.{All}
use pipelinex.Prelude.Equality.{string_eq}
use pipelinex.Prelude.Int.{ℤ, pos, negsuc}
use pipelinex.Prelude.Text.{◌<>◌, AllChars, expect}
use pipelinex.Parsers.{Python, is_inline, match_block, search_block}
use pipelinex.Report.{join_with}
use pipelinex.Report.Markers.{AllChars-append, all_chars, all_chars-AllChars}
use pipelinex.Synthetic.{hdfs_templates, LineDraw, randint}
use pipelinex.Synthetic.Format.{Texts, format, field_text}
use pipelinex.Synthetic.Blocks.{AreTexts, here, over}

module _ {py : Python} {t : Texts} (ok : AreTexts py t) (z : ℤ) (d : LineDraw) where
  abbrev pub number : String
  number = t.str_int z

  abbrev pub content : String → String
  content template = format (field_text t ("blk_" <> number) d) none template

  abbrev pub Found : String → Type 0
  Found template = search_block py (content template) ≡ some number

  abbrev node : String
  node = t.str_ℕ (randint 0 255 d.node)

  abbrev port : String
  port = t.str_ℕ (randint 40000 60000 d.port)

  abbrev pub OneLine : String → Type 0
  OneLine template = AllChars is_inline (content template)

  glued :
      (parts : List String)
      → All (AllChars is_inline) parts
      → AllChars is_inline (join_with "" parts)
  glued [] all = tt
  glued (x ∷ []) all = all.0
  glued (x ∷ y ∷ rest) all =
      AllChars-append is_inline x (join_with "" (y ∷ rest)) all.0 (glued (y ∷ rest) all.1)

  inline : (s : String) → all_chars is_inline s ≡ true → AllChars is_inline s
  inline s h = all_chars-AllChars is_inline s h

  digits_one_line : (s : String) → AllChars py.is_digit s → AllChars is_inline s
  digits_one_line String.[] h = tt
  digits_one_line (String.◌∷◌ c s) h = elim (Bool-cases (code c == 10)) [
    | inr other ↦ (rw (is_inline, other) refl, digits_one_line s h.1)
    | inl feed ↦
        let same : code c ≡ 10 = ground (arith, feed) in
        absurd (ground (arith, h.0, ap py.is_digit same, ok.no_digit_feed))
  ]

  digits_inline : (n : ℕ) → AllChars is_inline (t.str_ℕ n)
  digits_inline n = digits_one_line (t.str_ℕ n) (ok.digits n)

  signed_inline : (w : ℤ) → AllChars is_inline (t.str_int w)
  signed_inline (pos n) = rw (ok.str_pos n) (digits_inline n)
  signed_inline (negsuc n) = rw (ok.str_negsuc n) (refl, digits_inline (suc n))

  number_inline : AllChars is_inline number
  number_inline = signed_inline z

  abbrev node2 : String
  node2 = t.str_ℕ (randint 0 255 d.node2)

  abbrev port2 : String
  port2 = t.str_ℕ (randint 40000 60000 d.port2)

  abbrev seq : String
  seq = t.str_ℕ (randint 1 100000 d.seq)

  abbrev idx : String
  idx = t.str_ℕ (randint 0 3 d.idx)

  e5-Found :
      Found
        "BLOCK* ask 10.250.{node}.{port}:50010 to replicate blk_{blk} to datanode(s) 10.250.{node2}.{port2}:50010"
  unfolding search_block match_block expect
  e5-Found =
      over ok node
        ("." <> port <> ":50010 to replicate blk_" <> number <> " to datanode(s) 10.250." <> node2
          <> "." <> port2 <> ":50010" <> "")
        (ok.digits (randint 0 255 d.node))
      ∙ over ok port
          (":50010 to replicate blk_" <> number <> " to datanode(s) 10.250." <> node2 <> "."
            <> port2 <> ":50010" <> "")
          (ok.digits (randint 40000 60000 d.port))
      ∙ here ok z (" to datanode(s) 10.250." <> node2 <> "." <> port2 <> ":50010" <> "")
          ok.classes.no_digit_space

  inline_e5 :
      OneLine
        "BLOCK* ask 10.250.{node}.{port}:50010 to replicate blk_{blk} to datanode(s) 10.250.{node2}.{port2}:50010"
  inline_e5 =
      glued
        ("BLOCK* ask 10.250." ∷ node ∷ "." ∷ port ∷ ":50010 to replicate blk_" ∷ number
          ∷ " to datanode(s) 10.250." ∷ node2 ∷ "." ∷ port2 ∷ ":50010" ∷ "" ∷ [])
        (
          inline "BLOCK* ask 10.250." refl,
          (
            digits_inline (randint 0 255 d.node),
            (
              inline "." refl,
              (
                digits_inline (randint 40000 60000 d.port),
                (
                  inline ":50010 to replicate blk_" refl,
                  (
                    number_inline,
                    (
                      inline " to datanode(s) 10.250." refl,
                      (
                        digits_inline (randint 0 255 d.node2),
                        (
                          inline "." refl,
                          (
                            digits_inline (randint 40000 60000 d.port2),
                            (inline ":50010" refl, (tt, tt)),
                          ),
                        ),
                      ),
                    ),
                  ),
                ),
              ),
            ),
          ),
        )

  e11-Found : Found "Received block blk_{blk} of size 67108864 from /10.251.{node}.{port}"
  unfolding search_block match_block expect
  e11-Found =
      here ok z (" of size 67108864 from /10.251." <> node <> "." <> port <> "")
        ok.classes.no_digit_space

  inline_e11 : OneLine "Received block blk_{blk} of size 67108864 from /10.251.{node}.{port}"
  inline_e11 =
      glued
        ("Received block blk_" ∷ number ∷ " of size 67108864 from /10.251." ∷ node ∷ "." ∷ port ∷ ""
          ∷ [])
        (
          inline "Received block blk_" refl,
          (
            number_inline,
            (
              inline " of size 67108864 from /10.251." refl,
              (
                digits_inline (randint 0 255 d.node),
                (inline "." refl, (digits_inline (randint 40000 60000 d.port), (tt, tt))),
              ),
            ),
          ),
        )

  e22-Found : Found "BLOCK* NameSystem.allocateBlock: /user/root/data/part-{seq}. blk_{blk}"
  unfolding search_block match_block expect
  e22-Found =
      over ok seq (". blk_" <> number <> "") (ok.digits (randint 1 100000 d.seq))
      ∙ here ok z ("") tt

  inline_e22 : OneLine "BLOCK* NameSystem.allocateBlock: /user/root/data/part-{seq}. blk_{blk}"
  inline_e22 =
      glued
        ("BLOCK* NameSystem.allocateBlock: /user/root/data/part-" ∷ seq ∷ ". blk_" ∷ number ∷ ""
          ∷ [])
        (
          inline "BLOCK* NameSystem.allocateBlock: /user/root/data/part-" refl,
          (
            digits_inline (randint 1 100000 d.seq),
            (inline ". blk_" refl, (number_inline, (tt, tt))),
          ),
        )

  e26-Found :
      Found
        "BLOCK* NameSystem.addStoredBlock: blockMap updated: 10.251.{node}.{port}:50010 is added to blk_{blk} size 67108864"
  unfolding search_block match_block expect
  e26-Found =
      over ok node ("." <> port <> ":50010 is added to blk_" <> number <> " size 67108864" <> "")
        (ok.digits (randint 0 255 d.node))
      ∙ over ok port (":50010 is added to blk_" <> number <> " size 67108864" <> "")
          (ok.digits (randint 40000 60000 d.port))
      ∙ here ok z (" size 67108864" <> "") ok.classes.no_digit_space

  inline_e26 :
      OneLine
        "BLOCK* NameSystem.addStoredBlock: blockMap updated: 10.251.{node}.{port}:50010 is added to blk_{blk} size 67108864"
  inline_e26 =
      glued
        ("BLOCK* NameSystem.addStoredBlock: blockMap updated: 10.251." ∷ node ∷ "." ∷ port
          ∷ ":50010 is added to blk_" ∷ number ∷ " size 67108864" ∷ "" ∷ [])
        (
          inline "BLOCK* NameSystem.addStoredBlock: blockMap updated: 10.251." refl,
          (
            digits_inline (randint 0 255 d.node),
            (
              inline "." refl,
              (
                digits_inline (randint 40000 60000 d.port),
                (
                  inline ":50010 is added to blk_" refl,
                  (number_inline, (inline " size 67108864" refl, (tt, tt))),
                ),
              ),
            ),
          ),
        )

  e9-Found : Found "Deleting block blk_{blk} file /tmp/blk_{blk}"
  unfolding search_block match_block expect
  e9-Found = here ok z (" file /tmp/blk_" <> number <> "") ok.classes.no_digit_space

  inline_e9 : OneLine "Deleting block blk_{blk} file /tmp/blk_{blk}"
  inline_e9 = glued ("Deleting block blk_" ∷ number ∷ " file /tmp/blk_" ∷ number ∷ "" ∷ []) (
    inline "Deleting block blk_" refl,
    (number_inline, (inline " file /tmp/blk_" refl, (number_inline, (tt, tt)))),
  )

  e21-Found : Found "Deleting block blk_{blk} file /var/cache/hadoop/blk_{blk}"
  unfolding search_block match_block expect
  e21-Found = here ok z (" file /var/cache/hadoop/blk_" <> number <> "") ok.classes.no_digit_space

  inline_e21 : OneLine "Deleting block blk_{blk} file /var/cache/hadoop/blk_{blk}"
  inline_e21 =
      glued ("Deleting block blk_" ∷ number ∷ " file /var/cache/hadoop/blk_" ∷ number ∷ "" ∷ []) (
        inline "Deleting block blk_" refl,
        (number_inline, (inline " file /var/cache/hadoop/blk_" refl, (number_inline, (tt, tt)))),
      )

  e4-Found : Found "BLOCK* ask 10.250.{node}.{port}:50010 to delete blk_{blk}"
  unfolding search_block match_block expect
  e4-Found =
      over ok node ("." <> port <> ":50010 to delete blk_" <> number <> "")
        (ok.digits (randint 0 255 d.node))
      ∙ over ok port (":50010 to delete blk_" <> number <> "")
          (ok.digits (randint 40000 60000 d.port))
      ∙ here ok z ("") tt

  inline_e4 : OneLine "BLOCK* ask 10.250.{node}.{port}:50010 to delete blk_{blk}"
  inline_e4 =
      glued ("BLOCK* ask 10.250." ∷ node ∷ "." ∷ port ∷ ":50010 to delete blk_" ∷ number ∷ "" ∷ [])
        (
          inline "BLOCK* ask 10.250." refl,
          (
            digits_inline (randint 0 255 d.node),
            (
              inline "." refl,
              (
                digits_inline (randint 40000 60000 d.port),
                (inline ":50010 to delete blk_" refl, (number_inline, (tt, tt))),
              ),
            ),
          ),
        )

  e10-Found : Found "PacketResponder {idx} for block blk_{blk} terminating"
  unfolding search_block match_block expect
  e10-Found =
      over ok idx (" for block blk_" <> number <> " terminating" <> "")
        (ok.digits (randint 0 3 d.idx))
      ∙ here ok z (" terminating" <> "") ok.classes.no_digit_space

  inline_e10 : OneLine "PacketResponder {idx} for block blk_{blk} terminating"
  inline_e10 =
      glued ("PacketResponder " ∷ idx ∷ " for block blk_" ∷ number ∷ " terminating" ∷ "" ∷ []) (
        inline "PacketResponder " refl,
        (
          digits_inline (randint 0 3 d.idx),
          (inline " for block blk_" refl, (number_inline, (inline " terminating" refl, (tt, tt)))),
        ),
      )

  e14-Found : Found "Exception while reading from block blk_{blk}: connection reset"
  unfolding search_block match_block expect
  e14-Found = here ok z (": connection reset" <> "") ok.no_digit_colon

  inline_e14 : OneLine "Exception while reading from block blk_{blk}: connection reset"
  inline_e14 =
      glued ("Exception while reading from block blk_" ∷ number ∷ ": connection reset" ∷ "" ∷ []) (
        inline "Exception while reading from block blk_" refl,
        (number_inline, (inline ": connection reset" refl, (tt, tt))),
      )

  -- Each template of the table names the block, on one line.
  pub templates-Found : All (λ (row : String × String). Found (row.1)) hdfs_templates
  templates-Found = (
    e5-Found,
    (
      e11-Found,
      (e22-Found, (e26-Found, (e9-Found, (e21-Found, (e4-Found, (e10-Found, (e14-Found, tt))))))),
    ),
  )

  pub templates_inline : All (λ (row : String × String). OneLine (row.1)) hdfs_templates
  templates_inline = (
    inline_e5,
    (
      inline_e11,
      (
        inline_e22,
        (inline_e26, (inline_e9, (inline_e21, (inline_e4, (inline_e10, (inline_e14, tt)))))),
      ),
    ),
  )
