-- ===== src/Metrics/Recorded.antt =====
-- What a history of writes leaves in the registry of src/pipelinex/observability/metrics.py.
use pipelinex.Prelude.{
  ap, ◌∙◌, sym, inl, inr, ◌≡◌, refl, String, List, [], ◌∷◌, ◌++◌, arith, append_assoc, append-nil,
}
use pipelinex.Prelude.Tests.{if◌then◌else◌}
use pipelinex.Prelude.Dict.{lookup-insert}
use pipelinex.Prelude.Equality.{◌=?◌, =?-cases, string_eq}
use pipelinex.Prelude.Int.{ℤ, pos, ◌+ℤ◌, eq_of_parts, +ℤ_parts}
use pipelinex.Floats.{Floats, IsOrder, insort}
use pipelinex.Floats.Sorted.{in_order, in_order-append, in_order-in_order}
use pipelinex.Metrics.{
  Registry, init, inc, gauge, timing, count_of, samples_of, at_share, percentile,
}

plus_zero : (a : ℤ) → a +ℤ pos 0 ≡ a
plus_zero a = eq_of_parts _ _ (omega (arith, +ℤ_parts a (pos 0)))

pub zero_plus : (a : ℤ) → pos 0 +ℤ a ≡ a
zero_plus a = eq_of_parts _ _ (omega (arith, +ℤ_parts (pos 0) a))

plus_assoc : (a b c : ℤ) → (a +ℤ b) +ℤ c ≡ a +ℤ (b +ℤ c)
plus_assoc a b c =
    eq_of_parts _ _
      (omega (arith, +ℤ_parts a b, +ℤ_parts b c, +ℤ_parts (a +ℤ b) c, +ℤ_parts a (b +ℤ c)))

module _ (o : Floats) where
  pub data Write : Type 0 where
    incs : String → ℤ → Write
    gauges : String → o.Carrier → Write
    times : String → o.Carrier → Write

  abbrev pub write : Registry o → Write → Registry o
  write s (incs name by) = inc o s name by
  write s (gauges name value) = gauge o s name value
  write s (times name seconds) = timing o s name seconds

  abbrev pub run : Registry o → List Write → Registry o
  run s [] = s
  run s (w ∷ ws) = run (write s w) ws

  -- The values that were recorded under a name, in order of time.
  abbrev pub recorded : String → List Write → List o.Carrier
  recorded name [] = []
  recorded name (times key seconds ∷ ws) =
      if name =? key then seconds ∷ recorded name ws else recorded name ws
  recorded name (_ ∷ ws) = recorded name ws

  -- The sum of the increments under a name.
  abbrev pub counted : String → List Write → ℤ
  counted name [] = pos 0
  counted name (incs key by ∷ ws) = if name =? key then by +ℤ counted name ws else counted name ws
  counted name (_ ∷ ws) = counted name ws

  count_of-inc :
      (s : Registry o) (key name : String) (by : ℤ)
      → count_of o (inc o s key by) name
        ≡ (if name =? key then count_of o s name +ℤ by else count_of o s name)
  unfolding inc
  count_of-inc s key name by =
      let written = lookup-insert key name (count_of o s key +ℤ by) s.counters in
      ground (arith, written, string_eq.beq_iff name key)

  pub run-count_from :
      (name : String) (s : Registry o) (ws : List Write)
      → count_of o (run s ws) name ≡ count_of o s name +ℤ counted name ws
  unfolding gauge timing
  run-count_from name s [] = sym (plus_zero (count_of o s name))
  run-count_from name s (incs key by ∷ ws) =
      let rest = run-count_from name (inc o s key by) ws in
      let one = count_of-inc s key name by in
      let joined = plus_assoc (count_of o s name) by (counted name ws) in
      ground (arith, rest, one, joined)
  run-count_from name s (gauges key value ∷ ws) = run-count_from name (gauge o s key value) ws
  run-count_from name s (times key seconds ∷ ws) = run-count_from name (timing o s key seconds) ws

module _ (o : Floats) (ord : IsOrder o) where
  samples_of-timing :
      (s : Registry o) (key name : String) (x : o.Carrier)
      → samples_of o (timing o s key x) name
        ≡ (if name =? key then insort o x (samples_of o s name) else samples_of o s name)
  unfolding timing
  samples_of-timing s key name x =
      let written = lookup-insert key name (insort o x (samples_of o s key)) s.timers in
      ground (arith, written, string_eq.beq_iff name key)

  run-samples_from :
      (name : String) (s : Registry o) (before : List o.Carrier) (ws : List (Write o))
      → samples_of o s name ≡ in_order o before
      → samples_of o (run o s ws) name ≡ in_order o (before ++ recorded o name ws)
  unfolding gauge inc
  run-samples_from name s before [] h = rw append-nil h
  run-samples_from name s before (incs key by ∷ ws) h =
      run-samples_from name (inc o s key by) before ws h
  run-samples_from name s before (gauges key value ∷ ws) h =
      run-samples_from name (gauge o s key value) before ws h
  run-samples_from name s before (times key x ∷ ws) h = elim (=?-cases name key) [
    | inl (_, hit) ↦
        let now_in : samples_of o (timing o s key x) name ≡ in_order o (before ++ x ∷ []) =
          samples_of-timing s key name x ∙ rw (hit, h) (sym (in_order-append o ord before x)) in
        rw (run, recorded, hit, sym (append_assoc before (x ∷ []) (recorded o name ws)))
          (run-samples_from name (timing o s key x) (before ++ x ∷ []) ws now_in)
    | inr (_, miss) ↦
        rw (run, recorded, miss)
          (run-samples_from name (timing o s key x) before ws
            (samples_of-timing s key name x ∙ rw miss h))
  ]

  insort_some : (x : o.Carrier) (xs : List o.Carrier) → ¬ (insort o x xs ≡ [])
  insort_some x [] h = ground arith
  insort_some x (y ∷ ys) h = ground arith

  percentile-in_order :
      (xs : List o.Carrier) (p : o.Carrier) → percentile o (in_order o xs) p ≡ percentile o xs p
  unfolding percentile
  percentile-in_order [] p = refl
  percentile-in_order (x ∷ xs) p = go (in_order o (x ∷ xs)) refl
    where
      go :
          (ys : List o.Carrier)
          → in_order o (x ∷ xs) ≡ ys
          → percentile o ys p ≡ percentile o (x ∷ xs) p
      go [] h = absurd (insort_some x (in_order o xs) h)
      go (y ∷ ys) h = ap (at_share o p) (ap (in_order o) (sym h) ∙ in_order-in_order o ord (x ∷ xs))

  -- After any history of writes a counter is the sum of its increments, the samples of a timer are
  -- the values recorded under its name in order of size, and each percentile is that of the values
  -- as they were recorded.
  pub run-init_lem :
      (ws : List (Write o)) (name : String)
      → (count_of o (run o (init o) ws) name ≡ counted o name ws)
        × (samples_of o (run o (init o) ws) name ≡ in_order o (recorded o name ws))
        × ((p : o.Carrier)
            → percentile o (samples_of o (run o (init o) ws) name) p
              ≡ percentile o (recorded o name ws) p)
  run-init_lem ws name =
      let samples = run-samples_from name (init o) [] ws refl in
      let count = run-count_from o name (init o) ws in
      (
        count ∙ zero_plus (counted o name ws),
        samples,
        λ p. rw samples (percentile-in_order (recorded o name ws) p),
      )
