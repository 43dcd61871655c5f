-- ===== src/Detectors/Tests.antt =====
-- Witnesses of the detectors' theorems: floats that are hundredths, and a short stream of records.
use pipelinex.Prelude.{
  ◌↔◌, ℕ, zero, suc, ◌+◌, ◌*◌, ◌/◌, ◌≡◌, refl, String, Bool, true, false, List, [], ◌∷◌, Option,
  none, some, arith, max,
}
use pipelinex.Prelude.Tests.{if◌then◌else◌, ltb, leb, ◌==◌}
use pipelinex.Prelude.Int.{ℤ, pos, negsuc, pos_part, neg_part, sub_ℕ, ◌+ℤ◌, ◌-ℤ◌, eq_of_parts}
use pipelinex.Floats.{Floats, IsOrder}
use pipelinex.Models.{AnomalyEvent, BlockTrace, ClosedReason, Severity, Value, LogRecord}
use pipelinex.Detectors.{last_entries, push}
use pipelinex.Detectors.ZScore
use pipelinex.Detectors.Stage
use pipelinex.Exceptions.{ErrorKind}
use pipelinex.Detectors.Sequence.{SequenceModel, ngrams, detect_trace}
use pipelinex.Detectors.Sequence.Novelty.{HasShares, IsNormal, detect_trace_iff}
use pipelinex.Detectors.Sequence.Json
use pipelinex.Detectors.Iqr
use pipelinex.Detectors.Iqr.Runs
use pipelinex.Detectors.Cusum
use pipelinex.Detectors.Cusum.Sums

abbrev pub size_of : ℤ → ℕ
size_of a = pos_part a + neg_part a

abbrev pub is_negative : ℤ → Bool
is_negative (pos n) = false
is_negative (negsuc n) = true

abbrev pub signed : Bool → ℕ → ℤ
signed negative n = if negative then sub_ℕ 0 n else pos n

abbrev pub differ : Bool → Bool → Bool
differ true b = if b then false else true
differ false b = b

-- The largest root up to the fuel.
abbrev root_up_to : ℕ → ℕ → ℕ
root_up_to zero n = 0
root_up_to (suc fuel) n =
    let rest = root_up_to fuel n in if leb (suc fuel * suc fuel) n then suc fuel else rest

abbrev sum_of : List ℤ → ℤ
sum_of [] = pos 0
sum_of (x ∷ xs) = x +ℤ sum_of xs

abbrev less : ℤ → ℤ → Bool
less a b = ltb (pos_part a + neg_part b) (pos_part b + neg_part a)

abbrev at_most : ℤ → ℤ → Bool
at_most a b = if less b a then false else true

abbrev same : ℤ → ℤ → Bool
same a b = if less a b then false else if less b a then false else true

abbrev product : ℤ → ℤ → ℤ
product a b = signed (differ (is_negative a) (is_negative b)) (size_of a * size_of b / 100)

-- Numbers in hundredths.
abbrev pub hundredths : Floats
hundredths = record {
  Carrier = ℤ;
  zero = pos 0;
  quarter = pos 25;
  three_quarters = pos 75;
  tiny = pos 1;
  of_int = λ z. product z (pos 10000);
  of_ℕ = λ n. pos (n * 100);
  to_ℕ = λ z. size_of z / 100;
  add = ◌+ℤ◌;
  sub = ◌-ℤ◌;
  mul = product;
  div =
      λ a b. signed (differ (is_negative a) (is_negative b)) (size_of a * 100 / max 1 (size_of b));
  square = λ a. product a a;
  sqrt = λ a. pos (root_up_to 1000 (size_of a * 100));
  root = λ a. pos (root_up_to 1000 (size_of a * 100));
  abs = λ a. pos (size_of a);
  total = sum_of;
  lt = less;
  le = at_most;
  eq = same;
}

pub hundredths-IsOrder : IsOrder hundredths
hundredths-IsOrder = record {
  lt_asym = λ a b h. ground arith;
  lt_irrefl = λ a. ground arith;
  le_trans = λ a b c h k. ground arith;
  le_antisym = λ a b h k. eq_of_parts a b (ground arith);
  eq_iff = λ a b. ground (arith, eq_of_parts a b);
  le_iff = λ a b. ground arith;
}

abbrev sample : ℕ → Option ℤ → LogRecord ℤ
sample n value = record {
  id = n;
  pipeline_run_id = none;
  timestamp = none;
  source = "app";
  severity = Severity.info;
  message = "";
  raw_payload = [];
  enrichment = elim value [ none ↦ [] | some x ↦ ("metric", Value.float x) ∷ [] ];
  stage_history = [];
}

abbrev stream : List (ℕ × ℕ × LogRecord ℤ)
stream =
    (1, 10, sample 1 (some (pos 100)))
    ∷ (2, 20, sample 2 (some (pos 300)))
    ∷ (3, 30, sample 3 none)
    ∷ (4, 40, sample 4 (some (pos 200)))
    ∷ (5, 50, sample 5 (some (pos 900)))
    ∷ (6, 60, sample 6 (some (pos 200)))
    ∷ []

abbrev z_config : ℕ → ZScore.Config hundredths
z_config min_samples = record {
  metric_key = "metric";
  threshold = pos 300;
  window_size = 3;
  min_samples = min_samples;
  from_enrichment = true;
}

abbrev count_events : {A : Type 0} → List (Option A) → ℕ
count_events [] = 0
count_events (none ∷ xs) = count_events xs
count_events (some x ∷ xs) = suc (count_events xs)

one_spike : count_events ((ZScore.run hundredths (z_config 2) [] stream).1) ≡ 1
unfolding ZScore.detect ZScore.z_score ZScore.flag push ◌+ℤ◌ ◌-ℤ◌
one_spike = refl

run-init_example : ZScore.run hundredths (z_config 2) [] stream ≡ (
  last_entries 3 (ZScore.metrics hundredths (z_config 2) stream),
  ZScore.answers hundredths (z_config 2) [] stream,
)
run-init_example = ZScore.run-init hundredths (z_config 2) refl stream

abbrev iqr_config : Iqr.Config hundredths
iqr_config = record {
  metric_key = "metric";
  k = pos 150;
  window_size = 3;
  min_samples = 4;
  from_enrichment = true;
}

abbrev before_reset : Iqr.State hundredths
before_reset = record { window = pos 7 ∷ []; sorted = pos 7 ∷ [] }

run-reset_example :
    Iqr.Runs.run hundredths iqr_config (Iqr.reset hundredths before_reset) stream ≡ (
      Iqr.Runs.views hundredths hundredths-IsOrder
          (last_entries 3 (Iqr.Runs.metrics hundredths iqr_config stream)),
      Iqr.Runs.answers hundredths hundredths-IsOrder iqr_config [] stream,
    )
run-reset_example =
    Iqr.Runs.run-reset hundredths hundredths-IsOrder iqr_config refl before_reset stream

abbrev cusum_config : Cusum.Config hundredths
cusum_config = record {
  metric_key = "metric";
  threshold = pos 200;
  slack = pos 50;
  warmup_samples = 2;
  from_enrichment = true;
}

run-IsBounded_example :
    Cusum.Sums.IsBounded hundredths cusum_config
      ((Cusum.run hundredths cusum_config (Cusum.init hundredths) stream).0)
run-IsBounded_example =
    Cusum.Sums.run-IsBounded hundredths hundredths-IsOrder cusum_config refl stream

-- Division that does not round a share down to zero.
abbrev pub shares_kept : Floats
shares_kept = record hundredths {
  div = λ a b. if size_of a == 0 then pos 0 else pos (max 1 (size_of a * 100 / max 1 (size_of b)));
}

pub shares_kept-HasShares : HasShares shares_kept
shares_kept-HasShares = record { share_iff = λ a b. ground arith }

abbrev trained : SequenceModel
trained = record {
  n = pos 2;
  normal_ngrams = ("E1" ∷ "E2" ∷ []) ∷ ("E2" ∷ "E3" ∷ []) ∷ [];
  vocabulary = "E1" ∷ "E2" ∷ "E3" ∷ [];
}

abbrev closed : List String → BlockTrace
closed events = record {
  block_id = "blk_1";
  event_sequence = events;
  record_ids = 4 ∷ [];
  first_timestamp = 0;
  last_timestamp = 9;
  record_count = 3;
  pipeline_run_id = 1;
  closed_reason = ClosedReason.timeout;
}

abbrev pub unordered : List (List String) → List (List String)
unordered gs = gs

known_trace :
    detect_trace shares_kept unordered trained (pos 0) 1 2 3 (closed ("E1" ∷ "E2" ∷ "E3" ∷ []))
    ≡ none
unfolding detect_trace ngrams
known_trace = refl

detect_trace_iff_example :
    (detect_trace shares_kept unordered trained (pos 0) 1 2 3 (closed ("E1" ∷ "E3" ∷ "E2" ∷ []))
      ≡ none)
    ↔ IsNormal trained (closed ("E1" ∷ "E3" ∷ "E2" ∷ []))
detect_trace_iff_example =
    detect_trace_iff shares_kept unordered shares_kept-HasShares trained 1 2 3
      (closed ("E1" ∷ "E3" ∷ "E2" ∷ []))

abbrev text_or_mark : Json.Json → String
text_or_mark (Json.Json.text s) = s
text_or_mark _ = "?"

same_members : Json.IsListing text_or_mark (λ gs. gs)
same_members = record { text_kept = λ s. refl; members_kept = λ g gs. refl }

from_dict-to_dict_example :
    (Json.from_dict text_or_mark (Json.to_dict (λ gs. gs) (λ ss. ss) trained)
      ≡ some (Json.reloaded text_or_mark (λ gs. gs) (λ ss. ss) same_members trained))
    × ((detect_trace shares_kept unordered
            (Json.reloaded text_or_mark (λ gs. gs) (λ ss. ss) same_members trained)
            (pos 0)
            1
            2
            3
            (closed ("E1" ∷ "E3" ∷ []))
          ≡ none)
        ↔ (detect_trace shares_kept unordered trained (pos 0) 1 2 3 (closed ("E1" ∷ "E3" ∷ []))
            ≡ none))
from_dict-to_dict_example =
    Json.from_dict-to_dict text_or_mark (λ gs. gs) (λ ss. ss) same_members shares_kept unordered
      shares_kept-HasShares 1 2 3 trained (closed ("E1" ∷ "E3" ∷ []))

-- A detector that flags every record, and a repository whose second save raises.
abbrev flags_all : ℕ → LogRecord ℤ → ℕ × Option (AnomalyEvent ℤ)
flags_all n r = (
  suc n,
  some (record {
    id = n;
    log_record_id = r.id;
    detector_name = "all";
    severity_score = pos 1;
    detected_at = n;
    metadata = [];
  }),
)

abbrev fails_once : List ℕ → AnomalyEvent ℤ → List ℕ × Option ErrorKind
fails_once stored a =
    (a.log_record_id ∷ stored, if a.id == 1 then some ErrorKind.repository_error else none)

abbrev fresh_stage : Stage.State flags_all fails_once "all"
fresh_stage = record { detector = 0; repository = []; anomaly_count = 0 }

run_stored_example :
    Stage.run flags_all fails_once "all" fresh_stage
      (sample 1 none ∷ sample 2 none ∷ sample 3 none ∷ [])
    ≡ record {
      detector =
          Stage.run_alone flags_all fails_once "all" 0
            (sample 1 none ∷ sample 2 none ∷ sample 3 none ∷ []);
      repository = Stage.save_all flags_all fails_once "all" [] (
          Stage.events flags_all fails_once "all" 0
            (sample 1 none ∷ sample 2 none ∷ sample 3 none ∷ []));
      anomaly_count =
          0
          + Stage.saves flags_all fails_once "all" [] (
              Stage.events flags_all fails_once "all" 0
                (sample 1 none ∷ sample 2 none ∷ sample 3 none ∷ []));
    }
run_stored_example =
    Stage.run_stored flags_all fails_once "all" fresh_stage
      (sample 1 none ∷ sample 2 none ∷ sample 3 none ∷ [])
