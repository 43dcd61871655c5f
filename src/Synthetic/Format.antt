-- ===== src/Synthetic/Format.antt =====
-- The texts of scripts/generate_synthetic_logs.py: identifiers, templates, lines and streams.
use Prim.Native.Char.{code}
use pipelinex.Prelude.{
  ℕ, zero, suc, ◌+◌, ◌*◌, ◌%◌, ◌^◌, String, Bool, false, List, [], ◌∷◌, Option, none, some, map,
}
use pipelinex.Prelude.Tests.{if◌then◌else◌, leb, ◌==◌}
use pipelinex.Prelude.Lists.{length, replicate}
use pipelinex.Prelude.Dict.{lookup}
use pipelinex.Prelude.Equality.{◌=?◌, string_eq}
use pipelinex.Prelude.Int.{ℤ, sub_ℕ}
use pipelinex.Prelude.Text.{◌<>◌}
use pipelinex.Synthetic.{
  normal_lifecycle, hdfs_templates, randint, AnomalyDraw, inject_anomaly, LineDraw, Emitted,
  interleave,
}

-- What Python makes of numbers and instants: `str`, and `strftime` with its format.
pub record Texts : Type 0 where
  pub str_int : ℤ → String
  pub str_ℕ : ℕ → String
  pub strftime : String → ℕ → String

-- `template.format(...)`, character by character: outside a field, or in one whose name is read so
-- far. `fields` gives the text of a field.
abbrev pub next_mode : Option String → ℕ → String → Option String
next_mode none c s = if c == b'{' then some "" else none
next_mode (some name) c s = if c == b'}' then none else some (name <> s)

abbrev pub field_or_char : (String → String) → Option String → ℕ → String → String
field_or_char fields none c s = if c == b'{' then "" else s
field_or_char fields (some name) c s = if c == b'}' then fields name else ""

abbrev pub format : (String → String) → Option String → String → String
format fields mode String.[] = ""
format fields mode (String.◌∷◌ c s) =
    field_or_char fields mode (code c) (String.◌∷◌ c "")
    <> format fields (next_mode mode (code c) (String.◌∷◌ c "")) s

-- `blk[4:]`
abbrev pub drop_text : ℕ → String → String
drop_text zero s = s
drop_text (suc n) String.[] = ""
drop_text (suc n) (String.◌∷◌ c s) = drop_text n s

abbrev pub component_of : String → String
component_of event =
    if event =? "E22"
    then "dfs.FSNamesystem"
    else if event =? "E26"
    then "dfs.FSNamesystem"
    else if event =? "E5"
    then "dfs.FSNamesystem"
    else if event =? "E4"
    then "dfs.FSNamesystem"
    else "dfs.DataNode$PacketResponder"

-- `base_ts + timedelta(seconds=...)`, in microseconds from 1970; 2024 begins 1704067200 seconds
-- after it.
abbrev pub line_instant : LineDraw → ℕ
line_instant d = (1704067200 + randint 0 2592000 d.seconds) * 1000000

-- What is drawn for a block: its identifier, and an anomaly where chance has it.
pub record BlockDraw : Type 0 where
  pub id : ℕ
  pub anomaly : Option AnomalyDraw

abbrev pub events_of_block : Option AnomalyDraw → List String
events_of_block none = normal_lifecycle
events_of_block (some d) = inject_anomaly d normal_lifecycle

module _ (t : Texts) where
  -- `_random_block_id`
  abbrev pub random_block_id : ℕ → String
  random_block_id n = "blk_" <> t.str_int (sub_ℕ (n % (2 ^ 63 + 1)) (2 ^ 62))

  -- The keyword arguments of `template.format`.
  abbrev pub field_text : String → LineDraw → String → String
  field_text blk d name =
      if name =? "node"
      then t.str_ℕ (randint 0 255 d.node)
      else if name =? "node2"
      then t.str_ℕ (randint 0 255 d.node2)
      else if name =? "port"
      then t.str_ℕ (randint 40000 60000 d.port)
      else if name =? "port2"
      then t.str_ℕ (randint 40000 60000 d.port2)
      else if name =? "blk"
      then drop_text 4 blk
      else if name =? "seq"
      then t.str_ℕ (randint 1 100000 d.seq)
      else t.str_ℕ (randint 0 3 d.idx)

  -- `_format_hdfs_line`; none stands for the KeyError of an event without template.
  abbrev pub format_hdfs_line : ℕ → ℕ → String → String → LineDraw → Option String
  format_hdfs_line ts pid event blk d = elim (lookup event hdfs_templates) [
    | none ↦ none
    | some template ↦
        let content = format (field_text blk d) none template in
        some (
          t.strftime "%y%m%d" ts
          <> " "
          <> t.strftime "%H%M%S" ts
          <> " "
          <> t.str_ℕ pid
          <> " "
          <> "INFO"
          <> " "
          <> component_of event
          <> ": "
          <> content)
  ]

  abbrev pub block_sequence : BlockDraw → List (String × String)
  block_sequence b = map (λ e. (e, random_block_id b.id)) (events_of_block b.anomaly)

  -- `_hdfs_stream`, up to the number of lines that are drawn for.
  unfoldable pub hdfs_stream : List BlockDraw → List LineDraw → List (Option String)
  hdfs_stream blocks draws =
      map
        (λ (line : Emitted).
          format_hdfs_line (line_instant line.drawn) line.pid line.event line.blk line.drawn)
        (interleave (map block_sequence blocks) (replicate (length blocks) 0) 100 draws)

-- `_write_stream`: the lines of a stream that are written, with a line feed each. The clock is
-- read once before each line, where a duration is given.
abbrev pub is_reached : Option ℕ → ℕ → Bool
is_reached none i = false
is_reached (some total) i = leb total i

unfoldable pub write_stream : Option ℕ → Option ℕ → ℕ → List (String × ℕ) → List String
write_stream total deadline i [] = []
write_stream total deadline i ((line, now) ∷ stream) =
    let rest = (line <> "\n") ∷ write_stream total deadline (suc i) stream in
    if is_reached total i then [] else if is_reached deadline now then [] else rest

-- The checks of `_parse_args` on `--total` and `--duration`: `none` is the error. A duration of
-- zero sets no deadline.
unfoldable pub checked_total : Option ℕ → Option ℕ → Option (Option ℕ × Option ℕ)
checked_total none none = some (some 100000, none)
checked_total (some total) (some duration) = none
checked_total total duration = some (total, duration)
