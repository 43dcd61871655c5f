-- ===== src/Synthetic/Numbered.antt =====
-- What `_hdfs_stream` of scripts/generate_synthetic_logs.py draws and counts for each line.
use pipelinex.Prelude.{ℕ, ◌+◌, String, List, [], ◌∷◌, ◌≡◌, refl, inl, inr}
use pipelinex.Prelude.Lists.{set}
use pipelinex.Synthetic.{LineDraw, active_from, Emitted, interleave}
use pipelinex.Synthetic.Cursors.{List-cases}
use pipelinex.Synthetic.Interleaving.{emit_next-IsStep, interleave_stop, interleave_step}

-- The lines take the draws in order, and their numbers are counted up.
abbrev pub IsNumbered : ℕ → List LineDraw → List Emitted → Type 0
IsNumbered pid draws [] = Unit
IsNumbered pid [] (line ∷ lines) = ⊥
IsNumbered pid (d ∷ draws) (line ∷ lines) =
    (line.drawn ≡ d) × (line.pid ≡ pid) × IsNumbered (pid + 1) draws lines

pub interleave-IsNumbered :
    (sequences : List (List (String × String))) (draws : List LineDraw) (cursors : List ℕ) (pid : ℕ)
    → IsNumbered pid draws (interleave sequences cursors pid draws)
unfolding interleave
interleave-IsNumbered sequences [] cursors pid = tt
interleave-IsNumbered sequences (d ∷ draws) cursors pid =
    elim (List-cases (active_from 0 sequences cursors)) [
      | inl done ↦ rw (interleave_stop sequences d draws cursors pid done) tt
      | inr (i, active, on) ↦
          let step = emit_next-IsStep sequences cursors pid d i active on in
          let cursors' = set cursors step.idx (step.cursor + 1) in
          rw (interleave_step sequences d draws cursors pid step.steps)
            (refl, refl, interleave-IsNumbered sequences draws cursors' (pid + 1))
    ]
