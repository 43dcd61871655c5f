-- ===== src/Report/Tests.antt =====
-- Runs of the report writer on a file that it has written before, and on one that it cannot.
use pipelinex.Prelude.{ℕ, String, [], ◌∷◌, none, some, ◌≡◌, refl, inl, inr}
use pipelinex.Prelude.Tests.{◌==◌, if◌then◌else◌, Bool-cases}
use pipelinex.Prelude.Text.{◌<>◌, expect}
use pipelinex.Prelude.Int.{ℤ, pos}
use pipelinex.Detectors.Tests.{hundredths}
use pipelinex.Report.{Formats}
use pipelinex.Report.Blocks.{
  hdfs_begin, hdfs_end, section, HdfsReport, hdfs_body, update_hdfs, run_each,
}
use pipelinex.Report.Markers.{differs, IsPlain, all_chars-AllChars}
use pipelinex.Report.Update.{IsTidy, sectioned}
use pipelinex.Report.Runs.{ArePlain, run_each-update_hdfs}

-- One digit.
abbrev digit : ℕ → String
digit n = if n == 2 then "2" else "7"

digit-IsPlain : (n : ℕ) → IsPlain (digit n)
digit-IsPlain n = elim (Bool-cases (n == 2)) [
  | inl two ↦ rw two (refl, tt)
  | inr other ↦ rw other (refl, tt)
]

abbrev short : Formats ℤ
short = record {
  str_int = digit;
  str_float = λ x. "0.0";
  fixed4 = λ x. "0.5000";
  round4 = λ x. x;
  is_space = λ c. c == 10;
}

short-ArePlain : ArePlain short
short-ArePlain = record {
  int_plain = digit-IsPlain;
  float_plain = λ x. all_chars-AllChars (differs "<") "0.0" refl;
  fixed_plain = λ x. all_chars-AllChars (differs "<") "0.5000" refl;
}

abbrev report : ℕ → HdfsReport ℤ
report scored = record {
  n = 2;
  threshold = pos 0;
  blocks_scored = scored;
  matrix = record { tp = 7; fp = 2; tn = 7; fn = 7 };
}

abbrev old_file : String
old_file = "# Notes\n<!-- BEGIN: hdfs-sequence -->\nold\n<!-- END: hdfs-sequence -->\nmore <b>\n"

old_file-IsTidy : IsTidy "!-- BEGIN: hdfs-sequence -->" "!-- END: hdfs-sequence -->" (some old_file)
unfolding expect
old_file-IsTidy =
    sectioned {before = "# Notes\n"} {rest = "\nold\n<!-- END: hdfs-sequence -->\nmore <b>\n"}
      {inside = "\nold\n"} {after = "\nmore <b>\n"} refl refl refl

-- The file after two runs: the old section is gone, and the text around it is there.
run_each-update_hdfs_example :
    run_each (update_hdfs hundredths short) (report 7) (report 2 ∷ []) (some old_file)
    ≡ "# Notes\n"
      <> section hdfs_begin hdfs_end (hdfs_body hundredths short (report 2))
      <> "\n\nmore <b>\n"
unfolding hdfs_body old_file-IsTidy
run_each-update_hdfs_example =
    run_each-update_hdfs hundredths short (report 7) (report 2 ∷ []) (some old_file) short-ArePlain
      old_file-IsTidy

-- The section as it is written.
written :
    update_hdfs hundredths short (report 2) none
    ≡ "# PipelineX Benchmarks\n\n<!-- BEGIN: hdfs-sequence -->\n## HDFS_v1 — Sequence-anomaly detection (n-gram)\n\n| detector | blocks_scored | TP | FP | FN | precision | recall | F1 |\n|---|---|---|---|---|---|---|---|\n| sequence_ngram | 2 | 7 | 2 | 7 | 0.5000 | 0.5000 | 0.5000 |\n\n_threshold = 0.0, n = 2_\n<!-- END: hdfs-sequence -->\n"
unfolding update_hdfs hdfs_body
written = refl
