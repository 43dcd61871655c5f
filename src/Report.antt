-- ===== src/Report.antt =====
-- The section of BENCHMARKS.md that each evaluation script writes: `_update_benchmarks_md` of
-- scripts/evaluate_hdfs_sequence.py and of scripts/evaluate_bgl_point.py, and `format_table` of
-- scripts/_eval_common.py. The texts that Python makes of numbers are arguments.
pub mod Markers
pub mod Blocks
pub mod Update
pub mod Runs
mod Tests
use pipelinex.Prelude.{ℕ, String, Bool, List, [], ◌∷◌, Option, none, some, map}
use Prim.Native.Char.{Char, code}
use pipelinex.Prelude.Tests.{if◌then◌else◌}
use pipelinex.Prelude.Lists.{length, replicate}
use pipelinex.Prelude.Dict.{Dict, lookup}
use pipelinex.Prelude.Equality.{◌=?◌, string_eq}
use pipelinex.Prelude.Text.{◌<>◌, ◌>>=◌, expect}

-- What was split, with one more character before it.
abbrev pub put_before : Char → Option (String × String) → Option (String × String)
put_before c none = none
put_before c (some (before, after)) = some (String.◌∷◌ c before, after)

-- `text.split(marker, 1)`, where the marker is in the text.
abbrev pub split_once : String → String → Option (String × String)
split_once marker String.[] = expect marker "" >>= (λ rest. some ("", rest))
split_once marker (String.◌∷◌ c s) = elim (expect marker (String.◌∷◌ c s)) [
  | some rest ↦ some ("", rest)
  | none ↦ put_before c (split_once marker s)
]

-- `sep.join(parts)`
abbrev pub join_with : String → List String → String
join_with sep [] = ""
join_with sep (x ∷ []) = x
join_with sep (x ∷ y ∷ rest) = x <> sep <> join_with sep (y ∷ rest)

-- What a cell of a table holds.
pub data Cell : Type 0 where
  text : String → Cell
  count : ℕ → Cell

pub record Formats (F : Type 0) : Type 0 where
  pub str_int : ℕ → String
  pub str_float : F → String
  -- `f"{x:.4f}"`
  pub fixed4 : F → String
  pub round4 : F → F
  pub is_space : ℕ → Bool

-- `text.rstrip()`
abbrev pub rstrip : (ℕ → Bool) → String → String
rstrip is_space String.[] = ""
rstrip is_space (String.◌∷◌ c s) =
    let rest = rstrip is_space s in
    if rest =? "" then if is_space (code c) then "" else String.◌∷◌ c "" else String.◌∷◌ c rest

module _ {F : Type 0} (fmt : Formats F) where
  -- `str(row.get(h, ""))`
  abbrev pub str_cell : Option Cell → String
  str_cell none = ""
  str_cell (some (Cell.text s)) = s
  str_cell (some (Cell.count n)) = fmt.str_int n

  abbrev pub table_line : List String → Dict String Cell → String
  table_line headers row =
      "| " <> join_with " | " (map (λ h. str_cell (lookup h row)) headers) <> " |"

  abbrev pub format_table : List (Dict String Cell) → List String → String
  format_table rows headers = join_with "\n" (
      ("| " <> join_with " | " headers <> " |")
      ∷ ("|" <> join_with "|" (replicate (length headers) "---") <> "|")
      ∷ map (table_line headers) rows)

  -- The file after a write: `none` where there is no file.
  abbrev pub update_section : String → String → String → Option String → String
  update_section begin_marker end_marker block none = "# PipelineX Benchmarks\n\n" <> block
  update_section begin_marker end_marker block (some file) =
      let appended = rstrip fmt.is_space file <> "\n\n" <> block in
      elim (split_once begin_marker file) [
        | none ↦ appended
        | some (before, _) ↦ elim (split_once end_marker file) [
          | none ↦ appended
          | some (_, after) ↦ before <> block <> after
        ]
      ]
