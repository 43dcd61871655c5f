-- ===== src/Report/Runs.antt =====
-- The scripts that write BENCHMARKS.md, run again and again.
use pipelinex.Prelude.{
  ℕ, zero, suc, String, true, List, [], ◌∷◌, Option, some, ◌≡◌, refl, ap, ◌∙◌, map,
}
use pipelinex.Prelude.Text.{◌<>◌, expect}
use pipelinex.Prelude.Lists.{length, All, replicate}
use pipelinex.Prelude.Dict.{Dict, lookup}
use pipelinex.Prelude.Equality.{string_eq}
use pipelinex.Floats.{Floats}
use pipelinex.Evaluation.{precision, recall, f1}
use pipelinex.Report.{Cell, Formats, join_with, str_cell, table_line, format_table, update_section}
use pipelinex.Report.Blocks.{
  hdfs_begin, hdfs_end, section, HdfsReport, hdfs_row, hdfs_headers, hdfs_body, update_hdfs,
  run_each,
}
use pipelinex.Report.Markers.{
  differs, IsPlain, AllChars-append, all_chars-AllChars, mark, all_chars,
}
use pipelinex.Report.Update.{
  AreMarkers, IsTidy, outside, outside_free, update_section_tidy, section-IsTidy,
}

abbrev pub last_of : {X : Type 0} → X → List X → X
last_of x [] = x
last_of x (y ∷ more) = last_of y more

-- So many line feeds before a text.
abbrev pub feeds : ℕ → String → String
feeds zero v = v
feeds (suc n) v = feeds n ("\n" <> v)

module _ {F X : Type 0} (fmt : Formats F) {b e : String} (m : AreMarkers b e) (body : X → String)
    (plain : (x : X) → IsPlain (body x)) where
  abbrev write : X → Option String → String
  write x = update_section fmt (mark b) (mark e) (section (mark b) (mark e) (body x))

  run_each_tidy :
      (x : X) (more : List X) (file : Option String) (t : IsTidy b e file)
      → run_each write x more file
        ≡ (outside fmt t).0
          <> section (mark b) (mark e) (body (last_of x more))
          <> feeds (length more) (outside fmt t).1
  run_each_tidy x [] file t = update_section_tidy fmt m (body x) file t
  run_each_tidy x (y ∷ more) file t =
      let (u, v) = outside fmt t in
      let (free_b, free_e) = outside_free fmt m t in
      let (t', same) = section-IsTidy fmt m (body x) u v (plain x) free_b free_e in
      let ends : String × String → String = λ p.
        p.0 <> section (mark b) (mark e) (body (last_of y more)) <> feeds (length more) (p.1) in
      let now = some (u <> section (mark b) (mark e) (body x) <> v) in
      rw (update_section_tidy fmt m (body x) file t) (run_each_tidy y more now t' ∙ ap ends same)

-- The texts that Python makes of numbers hold no <.
pub record ArePlain {F : Type 0} (fmt : Formats F) : Type 0 where
  pub int_plain : (n : ℕ) → IsPlain (fmt.str_int n)
  pub float_plain : (x : F) → IsPlain (fmt.str_float x)
  pub fixed_plain : (x : F) → IsPlain (fmt.fixed4 x)

abbrev plain_text : (s : String) → all_chars (differs "<") s ≡ true → IsPlain s
plain_text s h = all_chars-AllChars (differs "<") s h

append-IsPlain : (s t : String) → IsPlain s → IsPlain t → IsPlain (s <> t)
append-IsPlain s t hs ht = AllChars-append (differs "<") s t hs ht

join_with-IsPlain :
    (sep : String) (parts : List String)
    → IsPlain sep
    → All IsPlain parts
    → IsPlain (join_with sep parts)
join_with-IsPlain sep [] h all = tt
join_with-IsPlain sep (x ∷ []) h all = all.0
join_with-IsPlain sep (x ∷ y ∷ rest) h all =
    append-IsPlain x (sep <> join_with sep (y ∷ rest)) all.0
      (append-IsPlain sep (join_with sep (y ∷ rest)) h (join_with-IsPlain sep (y ∷ rest) h all.1))

-- A line of a table whose cells hold no <.
table_line-IsPlain :
    {F : Type 0} (fmt : Formats F) (headers : List String) (row : Dict String Cell)
    → All IsPlain (map (λ h. str_cell fmt (lookup h row)) headers)
    → IsPlain (table_line fmt headers row)
table_line-IsPlain fmt headers row all =
    let cells = map (λ h. str_cell fmt (lookup h row)) headers in
    append-IsPlain "| " (join_with " | " cells <> " |") (plain_text "| " refl) (
      append-IsPlain (join_with " | " cells) " |"
        (join_with-IsPlain " | " cells (plain_text " | " refl) all) (plain_text " |" refl))

module _ (o : Floats) {fmt : Formats o.Carrier} (plain : ArePlain fmt) where
  hdfs_table-IsPlain :
      (report : HdfsReport o.Carrier)
      → IsPlain (format_table fmt (hdfs_row o fmt report ∷ []) hdfs_headers)
  hdfs_table-IsPlain report =
      let row = hdfs_row o fmt report in
      let m = report.matrix in
      let shares = plain.fixed_plain in
      let cells : All IsPlain (map (λ h. str_cell fmt (lookup h row)) hdfs_headers) = (
        plain_text "sequence_ngram" refl,
        (
          plain.int_plain report.blocks_scored,
          (
            plain.int_plain m.tp,
            (
              plain.int_plain m.fp,
              (
                plain.int_plain m.fn,
                (
                  shares (fmt.round4 (precision o m)),
                  (shares (fmt.round4 (recall o m)), (shares (fmt.round4 (f1 o m)), tt)),
                ),
              ),
            ),
          ),
        ),
      ) in
      let titles : String = "| " <> join_with " | " hdfs_headers <> " |" in
      let rule : String = "|" <> join_with "|" (replicate 8 "---") <> "|" in
      join_with-IsPlain "\n" (titles ∷ rule ∷ table_line fmt hdfs_headers row ∷ [])
        (plain_text "\n" refl)
        (
          plain_text titles refl,
          (plain_text rule refl, (table_line-IsPlain fmt hdfs_headers row cells, tt)),
        )

  hdfs_body-IsPlain : (report : HdfsReport o.Carrier) → IsPlain (hdfs_body o fmt report)
  unfolding hdfs_body
  hdfs_body-IsPlain report =
      let title : String = "## HDFS_v1 — Sequence-anomaly detection (n-gram)\n\n" in
      join_with-IsPlain ""
        (title
          ∷ format_table fmt (hdfs_row o fmt report ∷ []) hdfs_headers
          ∷ "\n\n_threshold = "
          ∷ fmt.str_float report.threshold
          ∷ ", n = "
          ∷ fmt.str_int report.n
          ∷ "_\n"
          ∷ [])
        tt
        (
          plain_text title refl,
          (
            hdfs_table-IsPlain report,
            (
              plain_text "\n\n_threshold = " refl,
              (
                plain.float_plain report.threshold,
                (plain_text ", n = " refl, (plain.int_plain report.n, (plain_text "_\n" refl, tt))),
              ),
            ),
          ),
        )

hdfs_markers : AreMarkers "!-- BEGIN: hdfs-sequence -->" "!-- END: hdfs-sequence -->"
unfolding expect
hdfs_markers = record {
  begin_plain = plain_text "!-- BEGIN: hdfs-sequence -->" refl;
  end_plain = plain_text "!-- END: hdfs-sequence -->" refl;
  begin_line = all_chars-AllChars (differs "\n") "!-- BEGIN: hdfs-sequence -->" refl;
  end_line = all_chars-AllChars (differs "\n") "!-- END: hdfs-sequence -->" refl;
  apart = λ x. refl;
}

-- Every run of the script leaves its last report between what stood before the section and after
-- it, with one more line feed after the section for each run but the first, where the file is
-- missing, holds neither marker, or has its section's end after its beginning, and where the texts
-- of numbers hold no <.
pub run_each-update_hdfs :
    (o : Floats) (fmt : Formats o.Carrier) (report : HdfsReport o.Carrier)
    (more : List (HdfsReport o.Carrier)) (file : Option String)
    → ArePlain fmt
    → (t : IsTidy "!-- BEGIN: hdfs-sequence -->" "!-- END: hdfs-sequence -->" file)
    → run_each (update_hdfs o fmt) report more file
      ≡ (outside fmt t).0
        <> section hdfs_begin hdfs_end (hdfs_body o fmt (last_of report more))
        <> feeds (length more) (outside fmt t).1
unfolding update_hdfs
run_each-update_hdfs o fmt report more file plain t =
    run_each_tidy fmt hdfs_markers (hdfs_body o fmt) (hdfs_body-IsPlain o plain) report more file t
