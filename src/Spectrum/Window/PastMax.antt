-- ===== src/Spectrum/Window/PastMax.antt =====
-- The incremental search of src/pipeline/spectrum_aggregator.cpp past the last window.
use native.Mathlib.Nat.{mul-le-mul_right}
use sirius_scope.Prelude.{
  ℕ, zero, suc, ◌+◌, ◌-◌, ◌*◌, ◌^◌, ◌≤◌, ◌<◌, ◌≡◌, refl, true, none, some, arith, ℕ_discrete,
  Option-cases, inl, inr, ◌∙◌, le→not-ltb, ne→not-==, ==_iff,
}
use sirius_scope.Spectrum.Window.{
  WindowConfig, WindowState, max_u64, exact_window_for_sample, advance, step_incremental,
  incremental_window_for_sample, window_for_sample, can_use_incremental_window_index, divide_up,
  first_sample_index_for_window,
}
use sirius_scope.Spectrum.Window.Exact.{exact_window-Located, divide_up-le_iff}
use sirius_scope.Spectrum.Window.Incremental.{IsTracking}

module _ (c : WindowConfig) (sample : ℕ) (can : can_use_incremental_window_index c ≡ true)
    (word : sample < 2 ^ 64) (recorded : c.first_sample_index ≤ sample)
    (past : 2 ^ 64 * c.snapshot_period_ns
      ≤ (sample - c.first_sample_index) * c.sample_period_ns) where
  periods : (0 < c.snapshot_period_ns) × (0 < c.sample_period_ns)
  unfolding can_use_incremental_window_index
  periods = (ground arith, ground arith)

  -- The starts of all windows are words, and the sample is behind them.
  has_start :
      (w : ℕ)
      → w ≤ max_u64
      → (start : ℕ) × (first_sample_index_for_window c w ≡ some start) × (start ≤ sample)
  unfolding first_sample_index_for_window
  has_start w le =
      let (snapshot, period) = periods in
      let relative = divide_up (w * c.snapshot_period_ns) c.sample_period_ns in
      let reach : w * c.snapshot_period_ns ≤ (sample - c.first_sample_index) * c.sample_period_ns =
        omega (
          arith,
          past,
          mul-le-mul_right {m = w} {n = 2 ^ 64} c.snapshot_period_ns (omega (arith, le)),
        ) in
      let within : relative ≤ sample - c.first_sample_index =
        (divide_up-le_iff (w * c.snapshot_period_ns) c.sample_period_ns
            (sample - c.first_sample_index) period).1
          reach in
      (
        c.first_sample_index + relative,
        rw
            (
              ne→not-== c.snapshot_period_ns 0 (omega (arith, snapshot)),
              ne→not-== c.sample_period_ns 0 (omega (arith, period)),
              le→not-ltb max_u64 relative (omega (arith, within, word)),
              le→not-ltb (max_u64 - c.first_sample_index) relative (omega (arith, within, word)),
            )
            refl,
        omega (arith, within, recorded),
      )

  no_exact : exact_window_for_sample c sample ≡ none
  no_exact = elim (Option-cases (exact_window_for_sample c sample)) [
    | inl e ↦ e
    | inr (w, e) ↦
        let l = exact_window-Located c sample w e in
        absurd (
          omega (
            arith,
            past,
            l.high,
            mul-le-mul_right {m = w + 1} {n = 2 ^ 64} c.snapshot_period_ns (omega (arith, l.word)),
          ))
  ]

  advance-last :
      (fuel : ℕ) (st : WindowState) (w b : ℕ)
      → b ≤ sample
      → w < max_u64
      → max_u64 ≤ w + fuel
      → (st' : WindowState) × (advance fuel c st sample w b ≡ some (st', some max_u64))
  unfolding advance
  advance-last zero st w b h lt f = absurd (omega (arith, lt, f))
  advance-last (suc fuel) st w b h lt f = elim (ℕ_discrete (w + 1) max_u64) [
    | yes last ↦ (
      record st {
        window_index = some max_u64;
        next_window_start = none;
        last_sample_index = some sample;
      },
      rw
          (
            le→not-ltb sample b h,
            ne→not-== w max_u64 (omega arith),
            (==_iff (w + 1) max_u64).1 last,
            last,
          )
          refl,
    )
    | no more ↦
        let (start, e, behind) = has_start (w + 1 + 1) (omega (arith, lt, more)) in
        let (st', found) =
          advance-last fuel st (w + 1) start behind (omega (arith, lt, more)) (omega (arith, f)) in
        (
          st',
          rw
              (
                le→not-ltb sample b h,
                ne→not-== w max_u64 (omega arith),
                ne→not-== (w + 1) max_u64 more,
                e,
              )
              found,
        )
  ]

  search :
      (st : WindowState) (fuel w b last : ℕ)
      → st.window_index ≡ some w
      → st.next_window_start ≡ some b
      → st.last_sample_index ≡ some last
      → last ≤ sample
      → window_for_sample fuel c st sample ≡ advance fuel c st sample w b
  unfolding window_for_sample incremental_window_for_sample step_incremental
      can_use_incremental_window_index
  search st fuel w b last i n l back = ground arith

-- The two searches for a window disagree on a sample that is past all windows, the time of which is
-- behind the end of the window with the largest 64-bit word as its number. From any state that the
-- incremental search can be in when it knows a window and the start of the next one, if the sample
-- does not go back, `windowForSample` runs through all windows that are left and returns the last
-- one, though the sample is not in it, and `exactWindowForSample` returns none. The sample index is
-- a word, and the incremental mode is in use.
pub window_for_sample-past_max :
    (c : WindowConfig) (st : WindowState) (sample window start last fuel : ℕ)
    → can_use_incremental_window_index c ≡ true
    → sample < 2 ^ 64
    → c.first_sample_index ≤ sample
    → 2 ^ 64 * c.snapshot_period_ns ≤ (sample - c.first_sample_index) * c.sample_period_ns
    → IsTracking c st
    → st.window_index ≡ some window
    → st.next_window_start ≡ some start
    → st.last_sample_index ≡ some last
    → last ≤ sample
    → max_u64 ≤ fuel
    → (exact_window_for_sample c sample ≡ none)
      × ((st' : WindowState) × (window_for_sample fuel c st sample ≡ some (st', some max_u64)))
window_for_sample-past_max c st sample window start last fuel can word above past tracking i n l
      back f =
    let t = tracking window start i n in
    let (b, e, behind) =
      has_start c sample can word above past (window + 1) (omega (arith, t.below_max)) in
    let same : start ≡ b = cc in
    let (st', found) =
      advance-last c sample can word above past fuel st window start (omega (arith, same, behind))
        t.below_max (omega (arith, f)) in
    (
      no_exact c sample can word above past,
      (st', search c sample can word above past st fuel window start last i n l back ∙ found),
    )
