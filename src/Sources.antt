-- ===== src/Sources.antt =====
-- The log sources of src/pipelinex/core/sources.py. A source's run is the list of what it does, in
-- order. The decoder, gzip and the operating system are left out: a file is what reading it yields.
pub mod Written
mod Tests
use pipelinex.Prelude.{String, Bool, false, List, [], ◌∷◌}
use Prim.Native.Char.{code}
use pipelinex.Prelude.Tests.{if◌then◌else◌, ◌==◌}
use pipelinex.Prelude.Text.{◌<>◌}
use pipelinex.Prelude.Equality.{◌=?◌, string_eq}
use pipelinex.Exceptions.{ErrorKind, Result}
use pipelinex.Training.{rstrip_feed}

-- Universal newlines: a handle in text mode reads a carriage return, alone or before a line feed,
-- as a line feed.
abbrev pub starts_with_feed : String → Bool
starts_with_feed String.[] = false
starts_with_feed (String.◌∷◌ c s) = code c == 10

abbrev pub rest_of : String → String
rest_of String.[] = ""
rest_of (String.◌∷◌ c s) = s

abbrev pub universal : String → String
universal String.[] = ""
universal (String.◌∷◌ c s) =
    let rest = universal s in
    if code c == 13
    then "\n" <> (if starts_with_feed s then rest_of rest else rest)
    else String.◌∷◌ c rest

-- A text split behind each line feed.
abbrev pub split_feeds : String → List String
split_feeds String.[] = []
split_feeds (String.◌∷◌ c s) =
    let rest = split_feeds s in
    if code c == 10
    then "\n" ∷ rest
    else elim rest [ [] ↦ String.◌∷◌ c "" ∷ [] | line ∷ lines ↦ String.◌∷◌ c line ∷ lines ]

-- The lines of a text as a handle of Python's yields them: each with a line feed, if it has an end.
abbrev pub raw_lines : String → List String
raw_lines s = split_feeds (universal s)

-- How reading ends: an exception may be raised where a handle is opened, or between two lines.
pub data ReadEnd : Type 0 where
  finished os_error : ReadEnd
  fails : ErrorKind → ReadEnd

pub data Emission : Type 0 where
  sleeps : Emission
  yields : String → Emission

-- `FileLogSource`; the flag `throttled` is `delay > 0`.
abbrev pub file_source : {A : Type 0} → Bool → A → Result A
file_source path_exists source =
    if path_exists then Result.returns source else Result.raises ErrorKind.source_error

unfoldable pub iter_lines : Bool → List String → List Emission
iter_lines throttled [] = []
iter_lines throttled (raw ∷ raws) =
    let rest = iter_lines throttled raws in
    let line = rstrip_feed raw in
    if line =? ""
    then rest
    else if throttled
    then Emission.sleeps ∷ Emission.yields line ∷ rest
    else Emission.yields line ∷ rest

abbrev pub stream_end : ReadEnd → Result Unit
stream_end ReadEnd.finished = Result.returns tt
stream_end ReadEnd.os_error = Result.raises ErrorKind.source_error
stream_end (ReadEnd.fails kind) = Result.raises kind

unfoldable pub file_stream : Bool → List String → ReadEnd → List Emission × Result Unit
file_stream throttled raws ended = (iter_lines throttled raws, stream_end ended)

-- `StdinLogSource`: `readline` yields the empty text at the end, and at no other place.
unfoldable pub stdin_stream : List String → List String
stdin_stream [] = []
stdin_stream (raw ∷ raws) =
    let rest = stdin_stream raws in if raw =? "" then [] else rstrip_feed raw ∷ rest

-- `IterableLogSource`
abbrev pub iterable_stream : List String → List String
iterable_stream lines = lines
