-- ===== src/Synthetic.antt =====
-- scripts/generate_synthetic_logs.py: the lines of HDFS. Random numbers, the texts of numbers and
-- `strftime` are arguments: `randint(a, b)` is a number n of any size brought between a and b.
pub mod Format
pub mod Cursors
pub mod Interleaving
pub mod Numbered
pub mod Anomalies
pub mod Blocks
pub mod Lines
pub mod RoundTrip
pub mod Stream
mod Tests
use Prim.Native.Char.{code}
use pipelinex.Prelude.{
  ℕ, zero, suc, ◌+◌, ◌-◌, ◌*◌, ◌%◌, ◌^◌, String, Bool, true, false, List, [], ◌∷◌, ◌++◌, Option,
  none, some, max, map,
}
use pipelinex.Prelude.Tests.{if◌then◌else◌, ltb, leb, ◌==◌}
use pipelinex.Prelude.Lists.{length, take, drop, get_elem?, get_or, set, replicate}
use pipelinex.Prelude.Dict.{Dict, lookup}
use pipelinex.Prelude.Equality.{◌=?◌, string_eq}
use pipelinex.Prelude.Int.{ℤ, pos, negsuc}
use pipelinex.Prelude.Text.{◌<>◌}

-- `_HDFS_NORMAL_LIFECYCLE`
abbrev pub normal_lifecycle : List String
normal_lifecycle = "E22" ∷ "E5" ∷ "E26" ∷ "E11" ∷ "E9" ∷ "E21" ∷ []

-- `_HDFS_EXCEPTION_EVENTS`
abbrev pub exception_events : List String
exception_events = "E4" ∷ "E10" ∷ "E14" ∷ []

-- `_HDFS_TEMPLATES`
abbrev pub hdfs_templates : Dict String String
hdfs_templates =
    (
      "E5",
      "BLOCK* ask 10.250.{node}.{port}:50010 to replicate blk_{blk} to datanode(s) 10.250.{node2}.{port2}:50010",
    )
    ∷ ("E11", "Received block blk_{blk} of size 67108864 from /10.251.{node}.{port}")
    ∷ ("E22", "BLOCK* NameSystem.allocateBlock: /user/root/data/part-{seq}. blk_{blk}")
    ∷ (
      "E26",
      "BLOCK* NameSystem.addStoredBlock: blockMap updated: 10.251.{node}.{port}:50010 is added to blk_{blk} size 67108864",
    )
    ∷ ("E9", "Deleting block blk_{blk} file /tmp/blk_{blk}")
    ∷ ("E21", "Deleting block blk_{blk} file /var/cache/hadoop/blk_{blk}")
    ∷ ("E4", "BLOCK* ask 10.250.{node}.{port}:50010 to delete blk_{blk}")
    ∷ ("E10", "PacketResponder {idx} for block blk_{blk} terminating")
    ∷ ("E14", "Exception while reading from block blk_{blk}: connection reset")
    ∷ []

-- `rng.randint(low, high)`
abbrev pub randint : ℕ → ℕ → ℕ → ℕ
randint low high n = low + n % (high - low + 1)

-- `rng.choice(xs)` of a list with a first member.
abbrev pub choice {ℓ} : {A : Type ℓ} → A → List A → ℕ → A
choice x xs n = get_or (x ∷ xs) (n % length (x ∷ xs)) x

-- `_inject_hdfs_anomaly`. `events[i], events[i + 1] = events[i + 1], events[i]`
abbrev pub swap_at : ℕ → List String → List String
swap_at i [] = []
swap_at i (x ∷ []) = x ∷ []
swap_at zero (x ∷ y ∷ rest) = y ∷ x ∷ rest
swap_at (suc i) (x ∷ y ∷ rest) = x ∷ swap_at i (y ∷ rest)

-- `events.insert(i, event)`
abbrev pub insert_at : ℕ → String → List String → List String
insert_at zero event events = event ∷ events
insert_at (suc i) event [] = event ∷ []
insert_at (suc i) event (x ∷ events) = x ∷ insert_at i event events

-- The strategy and its two numbers.
pub record AnomalyDraw : Type 0 where
  pub strategy : ℕ
  pub place : ℕ
  pub event : ℕ

unfoldable pub inject_anomaly : AnomalyDraw → List String → List String
inject_anomaly d events =
    let strategy : String = choice "truncate" ("reorder" ∷ "inject" ∷ []) d.strategy in
    let injected =
      insert_at (randint 1 (max 1 (length events - 1)) d.place)
        (choice "E4" ("E10" ∷ "E14" ∷ []) d.event) events in
    if leb 3 (length events)
    then if strategy =? "truncate"
      then take (randint 2 (length events - 1) d.place) events
      else if strategy =? "reorder"
      then swap_at (randint 0 (length events - 2) d.place) events
      else injected
    else injected

-- The numbers drawn for a line.
pub record LineDraw : Type 0 where
  pub pick : ℕ
  pub seconds : ℕ
  pub node : ℕ
  pub node2 : ℕ
  pub port : ℕ
  pub port2 : ℕ
  pub seq : ℕ
  pub idx : ℕ

-- The round-robin of `_hdfs_stream`: which sequences have events left, and what a line is made of.
abbrev pub active_from {ℓ} : {A : Type ℓ} → ℕ → List (List A) → List ℕ → List ℕ
active_from i [] cursors = []
active_from i (q ∷ sequences) [] = []
active_from i (q ∷ sequences) (c ∷ cursors) =
    let rest = active_from (suc i) sequences cursors in if ltb c (length q) then i ∷ rest else rest

pub record Emitted : Type 0 where
  pub index : ℕ
  pub event : String
  pub blk : String
  pub pid : ℕ
  pub drawn : LineDraw

abbrev pub emit_at :
    List (List (String × String)) → List ℕ → ℕ → LineDraw → ℕ → Option (Emitted × List ℕ)
emit_at sequences cursors pid_counter d idx =
    let cursor = get_or cursors idx 0 in
    elim (get_elem? (get_or sequences idx []) cursor) [
      | none ↦ none
      | some (event, blk) ↦ some (
        record { index = idx; event = event; blk = blk; pid = pid_counter; drawn = d },
        set cursors idx (cursor + 1),
      )
    ]

abbrev pub emit_next :
    List (List (String × String)) → List ℕ → ℕ → LineDraw → List ℕ → Option (Emitted × List ℕ)
emit_next sequences cursors pid_counter d [] = none
emit_next sequences cursors pid_counter d (i ∷ active) =
    emit_at sequences cursors pid_counter d (choice i active d.pick)

-- The lines that are asked for, one for each draw, until no sequence has events left.
unfoldable pub interleave :
    List (List (String × String)) → List ℕ → ℕ → List LineDraw → List Emitted
interleave sequences cursors pid_counter [] = []
interleave sequences cursors pid_counter (d ∷ draws) =
    elim (emit_next sequences cursors pid_counter d (active_from 0 sequences cursors)) [
      | none ↦ []
      | some (line, cursors') ↦ line ∷ interleave sequences cursors' (pid_counter + 1) draws
    ]
