-- ===== src/Evaluation/Bgl/Flagged.antt =====
-- The windows that a detector flags in scripts/evaluate_bgl_point.py, and the counts of its row.
use pipelinex.Prelude.{
  ℕ, suc, ◌+◌, String, Bool, true, false, List, [], ◌∷◌, Option, none, some, ◌≡◌, refl, ◌∙◌, arith,
  inl, inr,
}
use pipelinex.Prelude.Tests.{Option-cases}
use pipelinex.Prelude.Lists.{length, keep_if, All, All-weaken}
use pipelinex.Prelude.Dict.{Dict, lookup, Distinct}
use pipelinex.Prelude.Equality.{◌=?◌, nat_eq, string_eq, =?-cases}
use pipelinex.Floats.{Floats}
use pipelinex.Models.{LogRecord, AnomalyEvent}
use pipelinex.Evaluation.{has, add_once}
use pipelinex.Evaluation.Counts.{NoRepeat, confusion-SharesOut}
use pipelinex.Evaluation.Scored.{add_once-NoRepeat, All-add_once}
use pipelinex.Evaluation.Bgl.{
  sorted_keys, rate_of, rate_series, stamps_of, is_labelled, window_record, predict,
  evaluate_windows,
}
use pipelinex.Evaluation.Bgl.Alarms.{
  stands_in, Once, among_self, All-keep_if, keep_if-Once, sorted_keys-Once, has-add_once_eq,
  length-add_once, stamp_eq, has-stamps_of, length-stamps_of, stamps_of-NoRepeat, All-stamps_of,
}

module _ (o : Floats) {S : Type 0}
    (detect : S → LogRecord o.Carrier → S × Option (AnomalyEvent o.Carrier)) where
  -- The windows whose rate the detector answers with an event, in order.
  abbrev put_flagged : Option (AnomalyEvent o.Carrier) → ℕ → List ℕ → List ℕ
  put_flagged none ts rest = rest
  put_flagged (some anomaly) ts rest = ts ∷ rest

  abbrev pub flagged : ℕ → S → List (ℕ × ℕ) → List ℕ
  flagged uid s [] = []
  flagged uid s ((ts, rate) ∷ series) =
      let (s', anomaly) = detect s (window_record o uid ts rate) in
      put_flagged anomaly ts (flagged (suc uid) s' series)

  module _ (bins : Dict ℕ ℕ) where
    flagged-All :
        (P : ℕ → Type 0) (keys : List ℕ) (uid : ℕ) (s : S)
        → All P keys
        → All P (flagged uid s (rate_series bins keys))
    flagged-All P [] uid s h = tt
    flagged-All P (k ∷ keys) uid s h =
        let step = detect s (window_record o uid k (rate_of (lookup k bins))) in
        let rest = flagged-All P keys (suc uid) step.0 h.1 in
        elim (Option-cases step.1) [
          | inl quiet ↦ rw (flagged, quiet) rest
          | inr (anomaly, raised) ↦ rw (flagged, raised) (h.0, rest)
        ]

    stands_in-flagged :
        (x : ℕ) (keys : List ℕ) (uid : ℕ) (s : S)
        → stands_in x keys ≡ false
        → stands_in x (flagged uid s (rate_series bins keys)) ≡ false
    stands_in-flagged x [] uid s h = refl
    stands_in-flagged x (k ∷ keys) uid s h =
        let step = detect s (window_record o uid k (rate_of (lookup k bins))) in
        elim (=?-cases x k) [
          | inl (_, hit) ↦ absurd (ground (arith, h, hit))
          | inr (_, miss) ↦
              let rest = stands_in-flagged x keys (suc uid) step.0 (ground (arith, h, miss)) in
              elim (Option-cases step.1) [
                | inl quiet ↦ rw (flagged, quiet) rest
                | inr (anomaly, raised) ↦ rw (flagged, raised, stands_in, miss) rest
              ]
        ]

    flagged-Once :
        (keys : List ℕ) (uid : ℕ) (s : S) → Once keys → Once (flagged uid s (rate_series bins keys))
    flagged-Once [] uid s h = tt
    flagged-Once (k ∷ keys) uid s h =
        let step = detect s (window_record o uid k (rate_of (lookup k bins))) in
        let rest = flagged-Once keys (suc uid) step.0 h.1 in
        elim (Option-cases step.1) [
          | inl quiet ↦ rw (flagged, quiet) rest
          | inr (anomaly, raised) ↦
              rw (flagged, raised) (stands_in-flagged k keys (suc uid) step.0 h.0, rest)
        ]

  -- The set of flagged windows, put together in order.
  module _ (stamp : ℕ → String) where
    abbrev add_stamps : List ℕ → List String → List String
    add_stamps [] acc = acc
    add_stamps (t ∷ ts) acc = add_stamps ts (add_once (stamp t) acc)

    predict-add_stamps :
        (uid : ℕ) (s : S) (series : List (ℕ × ℕ)) (acc : List String)
        → predict o detect stamp uid s series acc ≡ add_stamps (flagged uid s series) acc
    predict-add_stamps uid s [] acc = refl
    predict-add_stamps uid s ((ts, rate) ∷ series) acc =
        let step = detect s (window_record o uid ts rate) in
        elim (Option-cases step.1) [
          | inl quiet ↦
              rw (predict, flagged, quiet) (predict-add_stamps (suc uid) step.0 series acc)
          | inr (anomaly, raised) ↦
              rw (predict, flagged, raised)
                (predict-add_stamps (suc uid) step.0 series (add_once (stamp ts) acc))
        ]

    add_stamps-NoRepeat :
        (ts : List ℕ) (acc : List String) → NoRepeat acc → NoRepeat (add_stamps ts acc)
    add_stamps-NoRepeat [] acc h = h
    add_stamps-NoRepeat (t ∷ ts) acc h =
        add_stamps-NoRepeat ts (add_once (stamp t) acc) (add_once-NoRepeat (stamp t) acc h)

    add_stamps-All :
        (P : String → Type 0) (ts : List ℕ) (acc : List String)
        → All (λ t. P (stamp t)) ts
        → All P acc
        → All P (add_stamps ts acc)
    add_stamps-All P [] acc h k = k
    add_stamps-All P (t ∷ ts) acc h k =
        add_stamps-All P ts (add_once (stamp t) acc) h.1 (All-add_once P (stamp t) acc h.0 k)

  module _ (stamp : ℕ → String) (injective : (s t : ℕ) → stamp s ≡ stamp t → s ≡ t) where
    nowhere : (ts : List ℕ) → All (λ u. has [] (stamp u) ≡ false) ts
    nowhere [] = tt
    nowhere (t ∷ ts) = (refl, nowhere ts)

    not_yet :
        (t : ℕ) (ts : List ℕ) (acc : List String)
        → stands_in t ts ≡ false
        → All (λ u. has acc (stamp u) ≡ false) ts
        → All (λ u. has (add_once (stamp t) acc) (stamp u) ≡ false) ts
    not_yet t [] acc other h = tt
    not_yet t (u ∷ ts) acc other h = elim (=?-cases t u) [
      | inl (_, hit) ↦ absurd (ground (arith, other, hit))
      | inr (_, miss) ↦
          let miss' : (u =? t) ≡ false =
            ground (arith, nat_eq.beq_iff t u, nat_eq.beq_iff u t, miss) in
          (
            rw (has-add_once_eq (stamp t) (stamp u) acc, stamp_eq stamp injective u t, miss') h.0,
            not_yet t ts acc (ground (arith, other, miss)) h.1,
          )
    ]

    length-add_stamps :
        (ts : List ℕ) (acc : List String)
        → Once ts
        → All (λ u. has acc (stamp u) ≡ false) ts
        → length (add_stamps stamp ts acc) ≡ length ts + length acc
    length-add_stamps [] acc once h = omega arith
    length-add_stamps (t ∷ ts) acc once h = omega (
      arith,
      length-add_stamps ts (add_once (stamp t) acc) once.1 (not_yet t ts acc once.0 h.1),
      length-add_once (stamp t) acc h.0,
    )

    -- The counts add up to the number of windows, the anomalies are the labelled windows and the
    -- alarms the flagged ones.
    pub evaluate_windows-SharesOut :
        (name : String) (s : S) (bins : Dict ℕ ℕ) (labels : Dict ℕ Bool)
        → Distinct bins
        → let keys = sorted_keys bins in
          let row = evaluate_windows o detect stamp name s bins labels in
          let m = row.matrix in
          (row.window_count ≡ length keys)
          × (m.tp + m.fp + m.tn + m.fn ≡ length keys)
          × (m.tp + m.fn ≡ length (keep_if (is_labelled labels) keys))
          × (m.tp + m.fp ≡ length (flagged 0 s (rate_series bins keys)))
    unfolding evaluate_windows
    evaluate_windows-SharesOut name s bins labels once =
        let keys = sorted_keys bins in
        let anomalies = keep_if (is_labelled labels) keys in
        let alarms = flagged 0 s (rate_series bins keys) in
        let universe = stamps_of stamp keys in
        let keys_once = sorted_keys-Once bins once in
        let inside : All (λ t. has universe (stamp t) ≡ true) keys =
          All-weaken (λ t. stands_in t keys ≡ true) _ keys
            (λ t h. has-stamps_of stamp injective t keys ∙ h) (among_self keys) in
        let Stands = λ (x : String). has universe x ≡ true in
        let (total, found, raised) =
          confusion-SharesOut (add_stamps stamp alarms []) (stamps_of stamp anomalies) universe
            (add_stamps-NoRepeat stamp alarms [] tt) (stamps_of-NoRepeat stamp anomalies)
            (stamps_of-NoRepeat stamp keys)
            (add_stamps-All stamp Stands alarms []
              (flagged-All bins (λ t. Stands (stamp t)) keys 0 s inside) tt)
            (All-stamps_of stamp Stands anomalies
              (All-keep_if (λ t. Stands (stamp t)) (is_labelled labels) keys inside)) in
        let windows = length-stamps_of stamp injective keys keys_once in
        let labelled =
          length-stamps_of stamp injective anomalies
            (keep_if-Once (is_labelled labels) keys keys_once) in
        let flags =
          length-add_stamps alarms [] (flagged-Once bins keys 0 s keys_once) (nowhere alarms) in
        rw (predict-add_stamps stamp 0 s (rate_series bins keys) [])
          (refl, total ∙ windows, found ∙ labelled, raised ∙ omega (arith, flags))
