-- ===== src/Sources/Tests.antt =====
-- The sources' theorem on a text with an empty line and no line feed at its end.
use pipelinex.Prelude.{◌≡◌, String, true, List, [], ◌∷◌, refl}
use pipelinex.Exceptions.{ErrorKind, Result}
use pipelinex.Sources.{raw_lines, ReadEnd, stream_end, Emission, iter_lines}

abbrev log : List String
log = "a" ∷ "" ∷ "bc" ∷ []

raws : raw_lines "a\r\n\rbc\nd" ≡ "a\n" ∷ "\n" ∷ "bc\n" ∷ "d" ∷ []
raws = refl

paused :
    iter_lines true ("a\n" ∷ "\n" ∷ "b" ∷ [])
    ≡ Emission.sleeps ∷ Emission.yields "a" ∷ Emission.sleeps ∷ Emission.yields "b" ∷ []
unfolding iter_lines
paused = refl

unreadable : stream_end ReadEnd.os_error ≡ Result.raises ErrorKind.source_error
unreadable = refl
