-- ===== src/Sessionizer/Sweep.antt =====
-- What the janitor's pass and `stop` come to, with the loops gone: which traces leave the table,
-- in which order, and for which reason.
use pipelinex.Prelude.{
  ℕ, ◌+◌, ◌≡◌, refl, String, false, List, [], ◌∷◌, ◌++◌, Option, none, some, arith, append_assoc,
}
use pipelinex.Prelude.Lists.{length}
use pipelinex.Prelude.Dict.{Dict, lookup, remove, Distinct, lookup-append}
use pipelinex.Prelude.Equality.{string_eq, =?-self}
use pipelinex.Models.{BlockTrace, ClosedReason}
use pipelinex.Sessionizer.{Sessionizer, emit}
use pipelinex.Sessionizer.Traces.{OpenTrace, close_trace}
use pipelinex.Sessionizer.Closing.{
  verdict, to_close, close_all, janitor_pass, keys, flush_keys, stop,
}

-- The traces of a table closed for one reason, oldest first.
abbrev pub closed_as : ℕ → ClosedReason → Dict String OpenTrace → List BlockTrace
closed_as run_id reason [] = []
closed_as run_id reason ((b, t) ∷ d) = close_trace run_id t reason ∷ closed_as run_id reason d

-- The state that `stop` leaves.
abbrev pub stopped : Sessionizer → Sessionizer
stopped s = record s {
  opened = [];
  traces_emitted = s.traces_emitted + length s.opened;
  janitor_running = false;
}

flush_keys_lem :
    (d : Dict String OpenTrace) (s : Sessionizer) (n : ℕ)
    → flush_keys (keys d) (record s { opened = d; traces_emitted = n })
      ≡ some (
        record s { opened = []; traces_emitted = n + length d },
        closed_as s.run_id ClosedReason.shutdown d,
      )
unfolding flush_keys emit
flush_keys_lem [] s n = let e : n + 0 ≡ n = omega arith in rw e
flush_keys_lem ((b, t) ∷ d) s n = ground (arith, string_eq.beq_iff b b, flush_keys_lem d s (n + 1))

-- `stop` never raises. It publishes every open trace, oldest first, as closed by the shutdown,
-- and leaves the table empty and the janitor stopped.
pub stop_lem :
    (s : Sessionizer) → stop s ≡ some (stopped s, closed_as s.run_id ClosedReason.shutdown s.opened)
unfolding stop
stop_lem s = flush_keys_lem s.opened (record s { janitor_running = false }) s.traces_emitted

-- What a pass keeps, and what it publishes.
abbrev pub survivors : ℕ → ℕ → Dict String OpenTrace → Dict String OpenTrace
survivors idle latest [] = []
survivors idle latest ((b, t) ∷ d) = elim (verdict idle latest t) [
  | none ↦ (b, t) ∷ survivors idle latest d
  | some _ ↦ survivors idle latest d
]

abbrev pub swept : ℕ → ℕ → ℕ → Dict String OpenTrace → List BlockTrace
swept run_id idle latest [] = []
swept run_id idle latest ((b, t) ∷ d) = elim (verdict idle latest t) [
  | none ↦ swept run_id idle latest d
  | some reason ↦ close_trace run_id t reason ∷ swept run_id idle latest d
]

remove_middle :
    (b : String) (t : OpenTrace) (front back : Dict String OpenTrace)
    → lookup b front ≡ none
    → remove b (front ++ (b, t) ∷ back) ≡ front ++ back
remove_middle b t [] back h = rw (=?-self b)
remove_middle b t ((k, x) ∷ front) back h = ground (arith, remove_middle b t front back)

-- The keys of the front are not among those of the back.
Distinct-middle :
    (b : String) (t : OpenTrace) (front back : Dict String OpenTrace)
    → Distinct (front ++ (b, t) ∷ back)
    → (lookup b front ≡ none) × Distinct (front ++ back)
Distinct-middle b t [] back h = (refl, h.1)
Distinct-middle b t ((k, x) ∷ front) back h = ground (
  arith,
  string_eq.beq_iff b k,
  string_eq.beq_iff k b,
  lookup-append k front ((b, t) ∷ back),
  lookup-append k front back,
  Distinct-middle b t front back h.1,
)

close_all_lem :
    (idle latest : ℕ) (d front : Dict String OpenTrace) (s : Sessionizer) (n : ℕ)
    → Distinct (front ++ d)
    → close_all (to_close idle latest d) (record s { opened = front ++ d; traces_emitted = n }) ≡ (
      record s {
        opened = front ++ survivors idle latest d;
        traces_emitted = n + length (swept s.run_id idle latest d);
      },
      swept s.run_id idle latest d,
    )
unfolding close_all to_close emit
close_all_lem idle latest [] front s n h = let e : n + 0 ≡ n = omega arith in rw e
close_all_lem idle latest ((b, t) ∷ d) front s n h =
    let (absent, rest) = Distinct-middle b t front d h in
    let shift = append_assoc front ((b, t) ∷ []) in
    ground (
      arith,
      shift d,
      shift (survivors idle latest d),
      close_all_lem idle latest d (front ++ (b, t) ∷ []) s n (rw shift h),
      remove_middle b t front d absent,
      close_all_lem idle latest d front s (n + 1) rest,
    )

abbrev pub after_pass : Option ℕ → Sessionizer → Sessionizer × List BlockTrace
after_pass none s = (s, [])
after_pass (some latest) s =
    let out = swept s.run_id s.idle_window latest s.opened in
    (
      record s {
        opened = survivors s.idle_window latest s.opened;
        traces_emitted = s.traces_emitted + length out;
      },
      out,
    )

janitor_pass_from :
    (d : Dict String OpenTrace) (latest : Option ℕ) (s : Sessionizer)
    → Distinct d
    → let s' = record s { opened = d; latest_log_ts = latest } in
      janitor_pass s' ≡ after_pass latest s'
unfolding janitor_pass
janitor_pass_from [] none s h = refl
janitor_pass_from [] (some l) s h =
    let e : s.traces_emitted + 0 ≡ s.traces_emitted = omega arith in rw e
janitor_pass_from (x ∷ d) none s h = refl
janitor_pass_from (x ∷ d) (some l) s h =
    close_all_lem s.idle_window l (x ∷ d) [] (record s { latest_log_ts = some l }) s.traces_emitted
      h

-- A pass closes exactly the traces that have seen a terminal event, or that have been idle for
-- longer than the window at the latest log time, in the table's order; the others stay as they
-- are. Before any record had a timestamp it does nothing. No block may stand twice in the table.
pub janitor_pass_lem :
    (s : Sessionizer) → Distinct s.opened → janitor_pass s ≡ after_pass s.latest_log_ts s
janitor_pass_lem s h = janitor_pass_from s.opened s.latest_log_ts s h
