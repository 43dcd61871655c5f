-- ===== src/Sources/Written.antt =====
-- What the sources of src/pipelinex/core/sources.py make of a text that was written line by line.
use pipelinex.Prelude.{ℕ, String, Bool, true, false, List, [], ◌∷◌}
use Prim.Native.Char.{Char}
use pipelinex.Prelude.Tests.{if◌then◌else◌, ◌==◌}
use pipelinex.Prelude.Text.{◌<>◌}
use pipelinex.Prelude.Equality.{◌=?◌, string_eq}
use pipelinex.Sources.{Emission}

-- Neither a line feed nor a carriage return.
abbrev pub no_break : ℕ → Bool
no_break c = if c == 10 then false else if c == 13 then false else true

abbrev pub is_text : String → Bool
is_text s = if s =? "" then false else true

-- The three ways to end a line.
pub data Ending : Type 0 where
  line_feed carriage_return both : Ending

abbrev pub ending : Ending → String
ending Ending.line_feed = "\n"
ending Ending.carriage_return = "\r"
ending Ending.both = "\r\n"

-- `write(line + ending)` for each line.
abbrev pub written : Ending → List String → String
written e [] = ""
written e (line ∷ lines) = line <> ending e <> written e lines

-- What stands behind the last line feed is a line, if there is anything.
abbrev pub last_line : String → List String
last_line String.[] = []
last_line (String.◌∷◌ c s) = String.◌∷◌ c s ∷ []

-- The lines that are yielded, each behind a pause if the source is throttled.
abbrev pub paced : Bool → List String → List Emission
paced throttled [] = []
paced throttled (line ∷ lines) =
    if throttled
    then Emission.sleeps ∷ Emission.yields line ∷ paced throttled lines
    else Emission.yields line ∷ paced throttled lines
