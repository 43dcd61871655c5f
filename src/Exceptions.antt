-- ===== src/Exceptions.antt =====
-- The exception classes of src/pipelinex/core/exceptions.py, as a tree. `other` is any exception
-- that is no `PipelineXError`. Messages are left out: no code branches on them.
use pipelinex.Prelude.{◌≡◌, refl, Bool, true, false}

pub data ErrorKind : Type 0 where
  pipelinex_error configuration_error stage_error transient_stage_error : ErrorKind
  fatal_stage_error parser_error validation_error repository_error source_error other : ErrorKind

-- `isinstance(e, StageError)`
abbrev pub is_stage_error : ErrorKind → Bool
is_stage_error ErrorKind.stage_error = true
is_stage_error ErrorKind.transient_stage_error = true
is_stage_error ErrorKind.fatal_stage_error = true
is_stage_error ErrorKind.parser_error = true
is_stage_error ErrorKind.validation_error = true
is_stage_error _ = false

abbrev pub is_transient : ErrorKind → Bool
is_transient ErrorKind.transient_stage_error = true
is_transient _ = false

abbrev pub is_parser_error : ErrorKind → Bool
is_parser_error ErrorKind.parser_error = true
is_parser_error _ = false

abbrev pub is_repository_error : ErrorKind → Bool
is_repository_error ErrorKind.repository_error = true
is_repository_error _ = false

-- What a call yields, or the exception that it raises.
pub data Result (A : Type 0) : Type 0 where
  returns : A → Result A
  raises : ErrorKind → Result A

-- One call after another, where the first returns.
abbrev pub and_then : {A B : Type 0} → Result A → (A → Result B) → Result B
and_then (Result.returns a) next = next a
and_then (Result.raises kind) next = Result.raises kind

pub and_then_inv :
    {A B : Type 0} (x : Result A) (next : A → Result B) {b : B}
    → and_then x next ≡ Result.returns b
    → (a : A) × (x ≡ Result.returns a) × (next a ≡ Result.returns b)
and_then_inv (Result.returns a) next h = (a, refl, h)
and_then_inv (Result.raises kind) next h = cc

pub returns_inv : {A : Type 0} {a b : A} → Result.returns a ≡ Result.returns b → b ≡ a
returns_inv h = cc
