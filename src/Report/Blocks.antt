-- ===== src/Report/Blocks.antt =====
-- The sections that scripts/evaluate_hdfs_sequence.py and scripts/evaluate_bgl_point.py render.
use pipelinex.Prelude.{ℕ, String, List, [], ◌∷◌, Option, some}
use pipelinex.Prelude.Text.{◌<>◌}
use pipelinex.Prelude.Dict.{Dict}
use pipelinex.Floats.{Floats}
use pipelinex.Evaluation.{ConfusionMatrix, precision, recall, f1}
use pipelinex.Report.{Cell, Formats, format_table, update_section}

abbrev pub hdfs_begin : String
hdfs_begin = "<!-- BEGIN: hdfs-sequence -->"

abbrev pub hdfs_end : String
hdfs_end = "<!-- END: hdfs-sequence -->"

abbrev pub bgl_begin : String
bgl_begin = "<!-- BEGIN: bgl-point -->"

abbrev pub bgl_end : String
bgl_end = "<!-- END: bgl-point -->"

-- A section: its markers, each at the start of a line, and what stands between them.
abbrev pub section : String → String → String → String
section begin_marker end_marker body = begin_marker <> "\n" <> body <> end_marker <> "\n"

abbrev pub hdfs_headers : List String
hdfs_headers =
    "detector" ∷ "blocks_scored" ∷ "TP" ∷ "FP" ∷ "FN" ∷ "precision" ∷ "recall" ∷ "F1" ∷ []

abbrev pub bgl_headers : List String
bgl_headers = "detector" ∷ "windows" ∷ "TP" ∷ "FP" ∷ "FN" ∷ "precision" ∷ "recall" ∷ "F1" ∷ []

-- What the HDFS evaluation reports.
pub record HdfsReport (F : Type 0) : Type 0 where
  pub n : ℕ
  pub threshold : F
  pub blocks_scored : ℕ
  pub matrix : ConfusionMatrix

module _ (o : Floats) (fmt : Formats o.Carrier) where
  -- The shares that `as_dict` reports.
  abbrev pub as_dict : ConfusionMatrix → o.Carrier × o.Carrier × o.Carrier
  as_dict m = (fmt.round4 (precision o m), fmt.round4 (recall o m), fmt.round4 (f1 o m))

  abbrev pub hdfs_row : HdfsReport o.Carrier → Dict String Cell
  hdfs_row report =
      let m = report.matrix in
      let (p, r, f) = as_dict m in
      ("detector", Cell.text "sequence_ngram")
      ∷ ("blocks_scored", Cell.count report.blocks_scored)
      ∷ ("TP", Cell.count m.tp)
      ∷ ("FP", Cell.count m.fp)
      ∷ ("FN", Cell.count m.fn)
      ∷ ("precision", Cell.text (fmt.fixed4 p))
      ∷ ("recall", Cell.text (fmt.fixed4 r))
      ∷ ("F1", Cell.text (fmt.fixed4 f))
      ∷ []

  unfoldable pub hdfs_body : HdfsReport o.Carrier → String
  hdfs_body report =
      "## HDFS_v1 — Sequence-anomaly detection (n-gram)\n\n"
      <> format_table fmt (hdfs_row report ∷ []) hdfs_headers
      <> "\n\n_threshold = "
      <> fmt.str_float report.threshold
      <> ", n = "
      <> fmt.str_int report.n
      <> "_\n"

  unfoldable pub update_hdfs : HdfsReport o.Carrier → Option String → String
  update_hdfs report =
      update_section fmt hdfs_begin hdfs_end (section hdfs_begin hdfs_end (hdfs_body report))

  -- One detector's row of the BGL table.
  abbrev pub bgl_row : String → ℕ → ConfusionMatrix → Dict String Cell
  bgl_row name windows m =
      ("detector", Cell.text name)
      ∷ ("windows", Cell.count windows)
      ∷ ("TP", Cell.count m.tp)
      ∷ ("FP", Cell.count m.fp)
      ∷ ("FN", Cell.count m.fn)
      ∷ ("precision", Cell.text (fmt.fixed4 (precision o m)))
      ∷ ("recall", Cell.text (fmt.fixed4 (recall o m)))
      ∷ ("F1", Cell.text (fmt.fixed4 (f1 o m)))
      ∷ []

  unfoldable pub bgl_body : List (Dict String Cell) → ℕ → String
  bgl_body rows window_seconds =
      "## BGL — Point-anomaly detection (Z-Score, IQR, CUSUM)\n\n"
      <> format_table fmt rows bgl_headers
      <> "\n\n_window = "
      <> fmt.str_int window_seconds
      <> " seconds; metric = events per window_\n"

  unfoldable pub update_bgl : List (Dict String Cell) → ℕ → Option String → String
  update_bgl rows window_seconds =
      update_section fmt bgl_begin bgl_end
        (section bgl_begin bgl_end (bgl_body rows window_seconds))

-- A script run again and again on its file.
abbrev pub run_each :
    {X : Type 0} → (X → Option String → String) → X → List X → Option String → String
run_each write x [] file = write x file
run_each write x (y ∷ more) file = run_each write y more (some (write x file))
