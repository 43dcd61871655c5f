-- ===== src/Evaluation/Bgl/Windows.antt =====
-- The windows that scripts/evaluate_bgl_point.py sorts instants into.
use native.Mathlib.Nat.{div-add-mod', mod-lt, mul-div_cancel}
use pipelinex.Prelude.{
  ℕ, ◌+◌, ◌-◌, ◌*◌, ◌/◌, ◌%◌, ◌≤◌, ◌<◌, ◌≡◌, refl, ap, ◌∙◌, arith, inl, inr, true, false,
}
use pipelinex.Prelude.Tests.{leb, leb→le, Bool-cases}
use pipelinex.Evaluation.Bgl.{second_of, minute_of, replace_second, replace_minute, window_start}

-- A count rounded down to a multiple.
abbrev rounded : ℕ → ℕ → ℕ
rounded n k = n / k * k

rounded_bounds : (n k : ℕ) → 0 < k → (rounded n k ≤ n) × (n < rounded n k + k)
rounded_bounds n k h = let e = div-add-mod' n k in let l = mod-lt n h in (omega arith, omega arith)

rounded_twice : (n k : ℕ) → 0 < k → rounded (rounded n k) k ≡ rounded n k
rounded_twice n k h = ap (λ (t : ℕ). t * k) (mul-div_cancel (n / k) h)

-- Within a minute: a number of seconds in place of the seconds.
short_window :
    (w ts : ℕ)
    → leb 60 w ≡ false
    → window_start w ts ≡ ts - ts % 60000000 + rounded (second_of ts) w * 1000000
unfolding window_start
short_window w ts h = rw h refl

-- Within an hour: a number of minutes in place of the minutes.
long_window :
    (w ts : ℕ)
    → leb 60 w ≡ true
    → window_start w ts ≡ ts - ts % 3600000000 + rounded (minute_of ts) (w / 60) * 60000000
unfolding window_start
long_window w ts h = rw h (
    go (rounded (second_of ts) w) (rounded (minute_of ts) (w / 60))
      (omega (arith, rounded_bounds (second_of ts) w (omega (arith, leb→le 60 w h)))))
  where
    go :
        (s q : ℕ)
        → s < 60
        → replace_minute q (replace_second 0 (replace_second s ts))
          ≡ ts - ts % 3600000000 + q * 60000000
    go s q l = omega arith

second_shift :
    (ts q : ℕ)
    → q < 60
    → let start = ts - ts % 60000000 + q * 1000000 in
      (second_of start ≡ q) × (start - start % 60000000 ≡ ts - ts % 60000000)
second_shift ts q h = (omega arith, omega arith)

minute_shift :
    (ts q : ℕ)
    → q < 60
    → let start = ts - ts % 3600000000 + q * 60000000 in
      (minute_of start ≡ q) × (start - start % 3600000000 ≡ ts - ts % 3600000000)
minute_shift ts q h = (omega arith, omega arith)

short_bounds :
    (w ts q : ℕ)
    → q ≤ second_of ts
    → second_of ts < q + w
    → let start = ts - ts % 60000000 + q * 1000000 in (start ≤ ts) × (ts < start + w * 1000000)
short_bounds w ts q below above = (omega arith, omega arith)

long_bounds :
    (w k ts q : ℕ)
    → k * 60 ≤ w
    → q ≤ minute_of ts
    → minute_of ts < q + k
    → let start = ts - ts % 3600000000 + q * 60000000 in (start ≤ ts) × (ts < start + w * 1000000)
long_bounds w k ts q whole below above = (omega arith, omega arith)

-- A record is in the window that starts no later and is no longer than the given number of seconds,
-- and a start is in its own window.
pub window_start_lem :
    (w ts : ℕ)
    → 0 < w
    → (window_start w ts ≤ ts)
      × (ts < window_start w ts + w * 1000000)
      × (window_start w (window_start w ts) ≡ window_start w ts)
window_start_lem w ts h = elim (Bool-cases (leb 60 w)) [
  | inr short ↦
      let q = rounded (second_of ts) w in
      let (below, above) = rounded_bounds (second_of ts) w h in
      let (starts, ends) = short_bounds w ts q below above in
      let (same, base) = second_shift ts q (omega (arith, below)) in
      let again : rounded (second_of (ts - ts % 60000000 + q * 1000000)) w ≡ q =
        ap (λ s. rounded s w) same ∙ rounded_twice (second_of ts) w h in
      rw (short_window w ts short) (
        starts,
        ends,
        short_window w (ts - ts % 60000000 + q * 1000000) short ∙ rw (again, base) refl,
      )
  | inl long ↦
      let k = w / 60 in
      let positive : 0 < k = omega (arith, leb→le 60 w long) in
      let q = rounded (minute_of ts) k in
      let (below, above) = rounded_bounds (minute_of ts) k positive in
      let (starts, ends) = long_bounds w k ts q (omega arith) below above in
      let (same, base) = minute_shift ts q (omega (arith, below)) in
      let again : rounded (minute_of (ts - ts % 3600000000 + q * 60000000)) k ≡ q =
        ap (λ s. rounded s k) same ∙ rounded_twice (minute_of ts) k positive in
      rw (long_window w ts long) (
        starts,
        ends,
        long_window w (ts - ts % 3600000000 + q * 60000000) long ∙ rw (again, base) refl,
      )
]
