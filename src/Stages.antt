-- ===== src/Stages.antt =====
-- The stage interface of src/pipelinex/core/interfaces.py, as state passing, and the stages that
-- are built on it. A stage keeps its state, and what it writes to, in `S`.
pub mod Retry
pub mod Timing
pub mod Logging
pub mod Validation
pub mod Parsing
mod Tests
use pipelinex.Prelude.{Bool, true, false, Option, none, some}
use pipelinex.Exceptions.{ErrorKind}
use pipelinex.Models.{LogRecord}

-- A record comes back, or an exception is raised and the argument may have been changed in place.
pub data Outcome (F : Type 0) : Type 0 where
  returned : LogRecord F → Outcome F
  raised : ErrorKind → LogRecord F → Outcome F

abbrev pub Stage : Type 0 → Type 0 → Type 0
Stage S F = S → LogRecord F → S × Outcome F
