-- ===== src/Synthetic/Stream.antt =====
-- The whole stream of `_hdfs_stream` in scripts/generate_synthetic_logs.py, and what is read of it.
use pipelinex.Prelude.{
  ℕ, suc, ◌≤◌, String, List, [], ◌∷◌, Option, none, some, ◌≡◌, refl, ap, ◌∙◌, map, arith,
}
use pipelinex.Prelude.Lists.{length, All, total, replicate, get_elem?, get_or}
use pipelinex.Prelude.Pairwise.{Pairwise}
use pipelinex.Prelude.Dict.{lookup}
use pipelinex.Prelude.Equality.{string_eq}
use pipelinex.Parsers.{Python}
use pipelinex.Synthetic.{
  normal_lifecycle, hdfs_templates, AnomalyDraw, LineDraw, Emitted, interleave,
}
use pipelinex.Synthetic.Anomalies.{inject_anomaly-All}
use pipelinex.Synthetic.Blocks.{AreTexts}
use pipelinex.Synthetic.Format.{
  Texts, random_block_id, line_instant, format_hdfs_line, BlockDraw, events_of_block,
  block_sequence, hdfs_stream,
}
use pipelinex.Synthetic.Interleaving.{of_index, interleave-of_index, interleave-All}
use pipelinex.Synthetic.Numbered.{IsNumbered, interleave-IsNumbered}
use pipelinex.Synthetic.RoundTrip.{IsRead, format_hdfs_line-IsRead}

-- An event of the table of templates.
abbrev Known : String → Type 0
Known event = (template : String) × (lookup event hdfs_templates ≡ some template)

normal-Known : All Known normal_lifecycle
normal-Known = ((_, refl), ((_, refl), ((_, refl), ((_, refl), ((_, refl), ((_, refl), tt))))))

events-Known : (anomaly : Option AnomalyDraw) → All Known (events_of_block anomaly)
events-Known none = normal-Known
events-Known (some d) =
    inject_anomaly-All Known d normal_lifecycle ((_, refl), ((_, refl), ((_, refl), tt)))
      normal-Known

module _ (t : Texts) where
  -- A block that was drawn.
  abbrev pub IsDrawn : List BlockDraw → String → Type 0
  IsDrawn blocks blk =
      (i : ℕ) × (b : BlockDraw) × (get_elem? blocks i ≡ some b) × (blk ≡ random_block_id t b.id)

  abbrev Placed : List BlockDraw → String × String → Type 0
  Placed blocks e = Known (e.0) × IsDrawn blocks (e.1)

  pair-All :
      (blocks : List BlockDraw) (blk : String) (events : List String)
      → IsDrawn blocks blk
      → All Known events
      → All (Placed blocks) (map (λ e. (e, blk)) events)
  pair-All blocks blk [] drawn h = tt
  pair-All blocks blk (e ∷ events) drawn h = ((h.0, drawn), pair-All blocks blk events drawn h.1)

  sequences-Placed :
      (blocks some_blocks : List BlockDraw)
      → ((i : ℕ) (b : BlockDraw)
          → get_elem? some_blocks i ≡ some b
          → IsDrawn blocks (random_block_id t b.id))
      → All (All (Placed blocks)) (map (block_sequence t) some_blocks)
  sequences-Placed blocks [] h = tt
  sequences-Placed blocks (b ∷ rest) h = (
    pair-All blocks (random_block_id t b.id) (events_of_block b.anomaly) (h 0 b refl)
        (events-Known b.anomaly),
    sequences-Placed blocks rest (λ i c found. h (suc i) c found),
  )

module _ (F : Type 0) {py : Python} {t : Texts} (ok : AreTexts py t) (uid : ℕ)
    (blocks : List BlockDraw) where
  lines-IsRead :
      (lines : List Emitted)
      → All (λ (e : Emitted). Placed t blocks (e.event, e.blk)) lines
      → Pairwise (IsRead F py t uid) lines (
          map
            (λ (e : Emitted). format_hdfs_line t (line_instant e.drawn) e.pid e.event e.blk e.drawn)
            lines)
  lines-IsRead [] h = tt
  lines-IsRead (e ∷ lines) ((known, (i, b, found, same)), rest) =
      (format_hdfs_line-IsRead ok uid b.id e known.1 same, lines-IsRead lines rest)

length-map : {A B : Type 0} (f : A → B) (xs : List A) → length (map f xs) ≡ length xs
length-map f [] = refl
length-map f (x ∷ xs) = ap suc (length-map f xs)

total_sequences :
    (t : Texts) (blocks : List BlockDraw)
    → total length (map (block_sequence t) blocks)
      ≡ total (λ (b : BlockDraw). length (events_of_block b.anomaly)) blocks
total_sequences t [] = refl
total_sequences t (b ∷ blocks) = omega (
  arith,
  length-map {B = String × String} (λ (e : String). (e, random_block_id t b.id))
      (events_of_block b.anomaly),
  total_sequences t blocks,
)

-- What is emitted for the blocks: the events of each block in order and no others, as many as the
-- blocks have, with the draws taken in order and the numbers counted up from 100.
pub record AreEmitted (t : Texts) (blocks : List BlockDraw) (draws : List LineDraw)
    (lines : List Emitted) : Type 0 where
  pub numbered : IsNumbered 100 draws lines
  pub of_block : (i : ℕ) → of_index i lines ≡ get_or (map (block_sequence t) blocks) i []
  pub all_events :
      length lines ≡ total (λ (b : BlockDraw). length (events_of_block b.anomaly)) blocks

-- A generated stream is read back whole: with a draw for every event of every block, its lines
-- stand one by one for what is emitted, all events of each block in order, with the draws in order
-- and the numbers from 100; and the parser reads each line as the record of the emitted event, with
-- the instant drawn, the component and the filled template of the event, the number and the block,
-- under the named behaviour of character classes, texts of numbers and clock formats.
pub hdfs_stream-ReadsBack :
    (F : Type 0) {py : Python} (t : Texts) (uid : ℕ) (blocks : List BlockDraw)
    (draws : List LineDraw)
    → AreTexts py t
    → total (λ (b : BlockDraw). length (events_of_block b.anomaly)) blocks ≤ length draws
    → (lines : List Emitted) × AreEmitted t blocks draws lines
      × Pairwise (IsRead F py t uid) lines (hdfs_stream t blocks draws)
unfolding hdfs_stream
hdfs_stream-ReadsBack F t uid blocks draws ok enough =
    let sequences = map (block_sequence t) blocks in
    let whole = total_sequences t blocks in
    let (count, each) = interleave-of_index sequences draws 100 (omega (arith, whole)) in
    let same : replicate {A = ℕ} (length sequences) 0 ≡ replicate {A = ℕ} (length blocks) 0 =
      ap (λ (n : ℕ). replicate {A = ℕ} n 0) (length-map (block_sequence t) blocks) in
    let cursors = replicate (length blocks) 0 in
    let lines = interleave sequences cursors 100 draws in
    (
      lines,
      record {
        numbered = interleave-IsNumbered sequences draws cursors 100;
        of_block = λ i. rw (← same) (each i);
        all_events = rw (← same) (count ∙ whole);
      },
      lines-IsRead F ok uid blocks lines (
          interleave-All (Placed t blocks) sequences draws cursors 100
            (sequences-Placed t blocks blocks (λ i b found. (i, b, found, refl)))),
    )
