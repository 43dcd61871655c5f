-- ===== src/Synthetic/Interleaving.antt =====
-- The order in which `_hdfs_stream` of scripts/generate_synthetic_logs.py yields the events.
use pipelinex.Prelude.{
  ℕ, zero, suc, ◌+◌, ◌%◌, ◌≤◌, ◌<◌, String, List, [], ◌∷◌, Option, some, ◌≡◌, ◌≢◌, refl, sym, ap,
  ◌∙◌, arith, inl, inr,
}
use pipelinex.Prelude.Tests.{if◌then◌else◌, ◌==◌, Bool-cases}
use pipelinex.Prelude.Lists.{
  length, drop, get_elem?, get_or, set, length-set, replicate, length-replicate, total, All,
}
use pipelinex.Synthetic.{choice, LineDraw, active_from, Emitted, emit_at, emit_next, interleave}
use pipelinex.Synthetic.Cursors.{
  List-cases, get_elem?-lt, get_or-get_elem?, drop_next, choice_member, active_from-IsActive,
  left-set, none_active, set_self, set_other, left,
}

-- The events of one sequence, in the order in which they are yielded.
abbrev pub of_index : ℕ → List Emitted → List (String × String)
of_index i [] = []
of_index i (line ∷ lines) =
    if line.index == i then (line.event, line.blk) ∷ of_index i lines else of_index i lines

abbrev no_draw : LineDraw
no_draw = record {
  pick = 0;
  seconds = 0;
  node = 0;
  node2 = 0;
  port = 0;
  port2 = 0;
  seq = 0;
  idx = 0;
}

-- A line is yielded while a sequence is active.
pub record IsStep (sequences : List (List (String × String))) (cursors : List ℕ) (pid : ℕ)
    (d : LineDraw) : Type 0 where
  pub idx : ℕ
  pub cursor : ℕ
  pub sequence : List (String × String)
  pub event : String
  pub blk : String
  pub has_sequence : get_elem? sequences idx ≡ some sequence
  pub has_cursor : get_elem? cursors idx ≡ some cursor
  pub unfinished : cursor < length sequence
  pub has_event : ◌≡◌ {A = Option (String × String)} (get_elem? sequence cursor) (some (event, blk))
  pub steps :
      emit_next sequences cursors pid d (active_from 0 sequences cursors)
      ≡ some (
        record { index = idx; event = event; blk = blk; pid = pid; drawn = d },
        set cursors idx (cursor + 1),
      )

module _ (sequences : List (List (String × String))) where
  emit_at-eq :
      (cursors : List ℕ) (pid : ℕ) (d : LineDraw) (idx cursor : ℕ) (q : List (String × String))
      (e : String × String)
      → get_elem? sequences idx ≡ some q
      → get_elem? cursors idx ≡ some cursor
      → get_elem? q cursor ≡ some e
      → emit_at sequences cursors pid d idx
        ≡ some (
          record { index = idx; event = e.0; blk = e.1; pid = pid; drawn = d },
          set cursors idx (cursor + 1),
        )
  emit_at-eq cursors pid d idx cursor q e has_q has_c there =
      let line : Emitted = record { index = idx; event = e.0; blk = e.1; pid = pid; drawn = d } in
      let after : ℕ → Option (Emitted × List ℕ) = λ n. some (line, set cursors idx (n + 1)) in
      rw
        (
          emit_at,
          get_or-get_elem? cursors idx 0 has_c,
          get_or-get_elem? sequences idx [] has_q,
          there,
        )
        (ap after (get_or-get_elem? cursors idx 0 has_c))

  pub interleave_step :
      (d : LineDraw) (draws : List LineDraw) (cursors : List ℕ) (pid : ℕ) {line : Emitted}
      {cursors' : List ℕ}
      → emit_next sequences cursors pid d (active_from 0 sequences cursors) ≡ some (line, cursors')
      → interleave sequences cursors pid (d ∷ draws)
        ≡ line ∷ interleave sequences cursors' (pid + 1) draws
  unfolding interleave
  interleave_step d draws cursors pid h = rw (interleave, h) refl

  pub interleave_stop :
      (d : LineDraw) (draws : List LineDraw) (cursors : List ℕ) (pid : ℕ)
      → active_from 0 sequences cursors ≡ []
      → interleave sequences cursors pid (d ∷ draws) ≡ []
  unfolding interleave
  interleave_stop d draws cursors pid h = rw (interleave, h, emit_next) refl

  -- One event, and then those that are left of each sequence.
  one_more :
      (cursors : List ℕ) (idx cursor : ℕ) (q : List (String × String)) (line : Emitted)
      (rest : List Emitted) (j : ℕ)
      → line.index ≡ idx
      → get_elem? sequences idx ≡ some q
      → get_elem? cursors idx ≡ some cursor
      → get_elem? q cursor ≡ some (line.event, line.blk)
      → of_index j rest ≡ drop (get_or (set cursors idx (cursor + 1)) j 0) (get_or sequences j [])
      → of_index j (line ∷ rest) ≡ drop (get_or cursors j 0) (get_or sequences j [])
  one_more cursors idx cursor q line rest j same has_q has_c there ih =
      elim (Bool-cases (line.index == j)) [
        | inr miss ↦
            let other : idx ≢ j = λ e. absurd (ground (arith, miss, same, e)) in
            rw (of_index, miss, ← set_other cursors idx j (cursor + 1) 0 other) ih
        | inl hit ↦
            let here : j ≡ idx = ground (arith, hit, same) in
            let moved : get_or (set cursors idx (cursor + 1)) j 0 ≡ suc cursor =
              rw here (set_self cursors idx (cursor + 1) 0 has_c ∙ omega arith) in
            let at_q : get_or sequences j [] ≡ q =
              rw here (get_or-get_elem? sequences idx [] has_q) in
            let at_c : get_or cursors j 0 ≡ cursor =
              rw here (get_or-get_elem? cursors idx 0 has_c) in
            let ih' : of_index j rest ≡ drop (suc cursor) q = rw (moved, at_q) at ih in
            rw (of_index, hit, at_q, at_c, ih') (sym (drop_next q cursor there))
      ]

  pub emit_next-IsStep :
      (cursors : List ℕ) (pid : ℕ) (d : LineDraw) (i : ℕ) (active : List ℕ)
      → active_from 0 sequences cursors ≡ i ∷ active
      → IsStep sequences cursors pid d
  emit_next-IsStep cursors pid d i active on =
      let idx = choice i active d.pick in
      let chosen : get_elem? (active_from 0 sequences cursors) (d.pick % length (i ∷ active))
          ≡ some idx =
        rw on (choice_member i active d.pick) in
      let (i', same, a) =
        active_from-IsActive 0 sequences cursors (d.pick % length (i ∷ active)) chosen in
      let place : i' ≡ idx = omega (arith, same) in
      let has_q : get_elem? sequences idx ≡ some a.sequence = rw (← place) a.has_sequence in
      let has_c : get_elem? cursors idx ≡ some a.cursor = rw (← place) a.has_cursor in
      let e = get_or a.sequence a.cursor ("", "") in
      let there = get_elem?-lt a.sequence a.cursor ("", "") a.unfinished in
      let made = emit_at-eq cursors pid d idx a.cursor a.sequence e has_q has_c there in
      record {
        idx = idx;
        cursor = a.cursor;
        sequence = a.sequence;
        event = e.0;
        blk = e.1;
        has_sequence = has_q;
        has_cursor = has_c;
        unfinished = a.unfinished;
        has_event = there;
        steps = rw (on, emit_next) made;
      }

  interleave_complete :
      (draws : List LineDraw) (cursors : List ℕ) (pid : ℕ)
      → length cursors ≡ length sequences
      → left sequences cursors ≤ length draws
      → (length (interleave sequences cursors pid draws) ≡ left sequences cursors)
        × ((i : ℕ)
            → of_index i (interleave sequences cursors pid draws)
              ≡ drop (get_or cursors i 0) (get_or sequences i []))
  unfolding interleave
  interleave_complete [] cursors pid same enough =
      elim (List-cases (active_from 0 sequences cursors)) [
        | inl done ↦
            let (nothing, over) = none_active 0 sequences cursors same done in
            (omega (arith, nothing), λ i. sym (over i))
        | inr (i, active, on) ↦
            let d = no_draw in
            let step = emit_next-IsStep cursors pid d i active on in
            absurd (
              omega (
                arith,
                left-set sequences cursors step.idx step.sequence step.cursor step.has_sequence
                    step.has_cursor step.unfinished,
              ))
      ]
  interleave_complete (d ∷ draws) cursors pid same enough =
      elim (List-cases (active_from 0 sequences cursors)) [
        | inl done ↦
            let (nothing, over) = none_active 0 sequences cursors same done in
            rw (interleave_stop d draws cursors pid done)
              (omega (arith, nothing), λ i. sym (over i))
        | inr (i, active, on) ↦
            let step = emit_next-IsStep cursors pid d i active on in
            let cursors' = set cursors step.idx (step.cursor + 1) in
            let fewer =
              left-set sequences cursors step.idx step.sequence step.cursor step.has_sequence
                step.has_cursor step.unfinished in
            let (count, rest) =
              interleave_complete draws cursors' (pid + 1)
                (length-set cursors step.idx (step.cursor + 1) ∙ same) (omega (arith, fewer)) in
            let line : Emitted = record {
              index = step.idx;
              event = step.event;
              blk = step.blk;
              pid = pid;
              drawn = d;
            } in
            rw (interleave_step d draws cursors pid step.steps) (
              omega (arith, count, fewer),
              λ j.
                  one_more cursors step.idx step.cursor step.sequence line
                    (interleave sequences cursors' (pid + 1) draws) j refl step.has_sequence
                    step.has_cursor step.has_event (rest j),
            )
      ]

-- What holds of every event of the sequences holds of every line.
All-get_elem? {κ} :
    {A : Type 0} (P : A → Type κ) (xs : List A) (i : ℕ) {x : A}
    → All P xs
    → get_elem? xs i ≡ some x
    → P x
All-get_elem? P [] i h found = cc
All-get_elem? P (y ∷ xs) zero {x} h found = let same : y ≡ x = cc in rw (← same) h.0
All-get_elem? P (y ∷ xs) (suc i) h found = All-get_elem? P xs i h.1 found

pub interleave-All :
    (P : String × String → Type 0) (sequences : List (List (String × String)))
    (draws : List LineDraw) (cursors : List ℕ) (pid : ℕ)
    → All (All P) sequences
    → All (λ (line : Emitted). P (line.event, line.blk)) (interleave sequences cursors pid draws)
unfolding interleave
interleave-All P sequences [] cursors pid h = tt
interleave-All P sequences (d ∷ draws) cursors pid h =
    elim (List-cases (active_from 0 sequences cursors)) [
      | inl done ↦ rw (interleave_stop sequences d draws cursors pid done) tt
      | inr (i, active, on) ↦
          let step = emit_next-IsStep sequences cursors pid d i active on in
          let cursors' = set cursors step.idx (step.cursor + 1) in
          let own = All-get_elem? (All P) sequences step.idx h step.has_sequence in
          rw (interleave_step sequences d draws cursors pid step.steps) (
            All-get_elem? P step.sequence step.cursor own step.has_event,
            interleave-All P sequences draws cursors' (pid + 1) h,
          )
    ]

zeros : (n i : ℕ) → ◌≡◌ {A = ℕ} (get_or (replicate n 0) i 0) 0
zeros zero i = refl
zeros (suc n) zero = refl
zeros (suc n) (suc i) = zeros n i

left_all :
    (sequences : List (List (String × String)))
    → left sequences (replicate (length sequences) 0) ≡ total length sequences
left_all [] = refl
left_all (q ∷ sequences) = omega (arith, left_all sequences)

-- With a draw for every event, all events of every sequence are yielded, those of each sequence in
-- its order, and no others.
pub interleave-of_index :
    (sequences : List (List (String × String))) (draws : List LineDraw) (pid : ℕ)
    → total length sequences ≤ length draws
    → let lines = interleave sequences (replicate (length sequences) 0) pid draws in
      (length lines ≡ total length sequences) × ((i : ℕ) → of_index i lines ≡ get_or sequences i [])
interleave-of_index sequences draws pid enough =
    let cursors = replicate (length sequences) 0 in
    let whole = left_all sequences in
    let (count, each) =
      interleave_complete sequences draws cursors pid (length-replicate (length sequences) 0)
        (omega (arith, whole)) in
    (
      count ∙ whole,
      λ i. each i ∙ ap (λ n. drop n (get_or sequences i [])) (zeros (length sequences) i),
    )
