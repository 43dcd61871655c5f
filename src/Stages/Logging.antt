-- ===== src/Stages/Logging.antt =====
-- `LoggingDecorator` of src/pipelinex/stages/decorators/logging.py. A message is what its arguments
-- are; the state is the log and that of the inner stage.
use pipelinex.Prelude.{ap, ◌∙◌, ◌≡◌, refl, ℕ, String, List, [], ◌∷◌, ◌++◌, append_assoc, append-nil}
use pipelinex.Exceptions.{ErrorKind}
use pipelinex.Models.{Severity, LogRecord}
use pipelinex.Stages.{Outcome, Stage}

-- The name of the inner stage stands in each message.
pub data Message : Type 0 where
  enters : String → ℕ → Severity → String → Message
  raises : String → ℕ → ErrorKind → Message
  exits : String → ℕ → Message

-- The id is that of the argument as the inner stage left it where it raises.
abbrev pub farewell : {F : Type 0} → String → Outcome F → Message
farewell name (Outcome.returned result) = Message.exits name result.id
farewell name (Outcome.raised kind r) = Message.raises name r.id kind

module _ {S F : Type 0} (inner : Stage S F) (inner_name : String) where
  unfoldable pub process : List Message × S → LogRecord F → (List Message × S) × Outcome F
  process (log, s) r =
      let entered = log ++ Message.enters inner_name r.id r.severity r.source ∷ [] in
      let (s', outcome) = inner s r in ((entered ++ farewell inner_name outcome ∷ [], s'), outcome)

  abbrev pub run : List Message × S → List (LogRecord F) → (List Message × S) × List (Outcome F)
  run state [] = (state, [])
  run state (r ∷ rs) =
      let step = process state r in let rest = run step.0 rs in (rest.0, step.1 ∷ rest.1)

  -- The same calls of the inner stage, and what is logged of them.
  abbrev pub run_inner : S → List (LogRecord F) → S × List (Outcome F)
  run_inner s [] = (s, [])
  run_inner s (r ∷ rs) =
      let step = inner s r in let rest = run_inner step.0 rs in (rest.0, step.1 ∷ rest.1)

  abbrev pub messages : List (LogRecord F) → List (Outcome F) → List Message
  messages [] outcomes = []
  messages (r ∷ rs) [] = []
  messages (r ∷ rs) (outcome ∷ outcomes) =
      Message.enters inner_name r.id r.severity r.source
      ∷ farewell inner_name outcome
      ∷ messages rs outcomes

  -- The decorator changes neither the outcomes nor the state of the inner stage; each call logs its
  -- start and how it ended, in the order of the calls.
  run_transparent :
      (log : List Message) (s : S) (rs : List (LogRecord F))
      → run (log, s) rs
        ≡ ((log ++ messages rs ((run_inner s rs).1), (run_inner s rs).0), (run_inner s rs).1)
  unfolding process
  run_transparent log s [] = rw append-nil refl
  run_transparent log s (r ∷ rs) =
      ap (λ rest. (rest.0, (inner s r).1 ∷ rest.1))
        (run_transparent ((process (log, s) r).0.0) ((inner s r).0) rs)
      ∙ rw (append_assoc, append_assoc) refl
