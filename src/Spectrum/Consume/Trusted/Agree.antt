-- ===== src/Spectrum/Consume/Trusted/Agree.antt =====
-- `consumeTrustedBlockLocalFast` of src/pipeline/spectrum_aggregator.cpp does what `consume` does
-- for samples that do not go back.
use sirius_scope.Prelude.{
  ℕ, zero, suc, ◌+◌, ◌≡◌, refl, ap, ◌∙◌, ◌-◌, ◌/◌, Bool, true, false, ◌&&◌, ◌||◌, Option, none,
  some, ltb, leb, if◌then◌else◌, Bool-cases, inl, inr, arith, Option-cases, ◌==◌,
}
use sirius_scope.Prelude.Int.{ℤ, pos, pos_part, neg_part, ◌-ℤ◌, ltb_ℤ, leb_ℤ}
use sirius_scope.Domain.{SignalSample}
use sirius_scope.Spectrum.Window.{
  WindowConfig, WindowState, WindowIndexMode, exact_int128, divisible_sample_period,
  incremental_monotonic, is_divisible, is_incremental, can_use_incremental_window_index, falls_back,
  count_fallback, reset_incremental, restart, step_incremental, prime_incremental, advance,
  window_for_sample, incremental_window_for_sample, first_sample_index_for_window,
  exact_window_for_sample, max_u64,
}
use sirius_scope.Spectrum.Consume.State.{SpectrumAggregatorConfig}
use sirius_scope.Spectrum.Consume.Judge.{
  max_int64, window_fuel, found_window, find_window, invalid, out_of_range, judge_sample,
  judge_window, spectrum_bin_for_frequency, spectrum_bin_of_offset,
}
use sirius_scope.Spectrum.Consume.Trusted.{
  can_use_fast_bin_index, find_trusted_window, trusted_bin, judge_trusted_window, judge_found,
  judge_trusted_sample,
}

-- What a search finds is in the state that it leaves.
abbrev IsKept : Option (WindowState × Option ℕ) → Type 0
IsKept none = Unit
IsKept (some r) = r.0.window_index ≡ r.1

restart-IsKept :
    (c : WindowConfig) (st : WindowState) (sample : ℕ) → IsKept (some (restart c st sample))
unfolding restart prime_incremental reset_incremental
restart-IsKept c st sample = elim (Option-cases (exact_window_for_sample c sample)) [
  | inl e ↦ rw e refl
  | inr (w, e) ↦ rw e refl
]

advance-IsKept :
    (fuel : ℕ) (c : WindowConfig) (st : WindowState) (sample window start : ℕ)
    → IsKept (advance fuel c st sample window start)
unfolding advance
advance-IsKept zero c st sample window start = tt
advance-IsKept (suc fuel) c st sample window start =
    let restarts = restart-IsKept c (count_fallback st) sample in
    elim (Bool-cases (ltb sample start)) [
      | inl a ↦ rw a refl
      | inr a ↦ elim (Bool-cases (window == max_u64)) [
        | inl b ↦ rw (a, b) restarts
        | inr b ↦ elim (Bool-cases (window + 1 == max_u64)) [
          | inl d ↦ rw (a, b, d) refl
          | inr d ↦ elim (Option-cases (first_sample_index_for_window c (window + 1 + 1))) [
            | inl e ↦ rw (a, b, d, e) restarts
            | inr (start', e) ↦
                rw (a, b, d, e) (advance-IsKept fuel c st sample (window + 1) start')
          ]
        ]
      ]
    ]

step-IsKept :
    (fuel : ℕ) (c : WindowConfig) (st : WindowState) (sample : ℕ) (window start : Option ℕ)
    → IsKept (step_incremental fuel c st sample window start)
unfolding step_incremental
step-IsKept fuel c st sample (some w) (some b) = advance-IsKept fuel c st sample w b
step-IsKept fuel c st sample (some w) none = restart-IsKept c st sample
step-IsKept fuel c st sample none b = restart-IsKept c st sample

find-IsKept :
    (c : WindowConfig) (st : WindowState) (sample : ℕ) → IsKept (find_trusted_window c st sample)
unfolding find_trusted_window
find-IsKept c st sample = elim (Bool-cases (falls_back st.last_sample_index sample)) [
  | inl yes' ↦ rw yes' (restart-IsKept c (reset_incremental (count_fallback st)) sample)
  | inr no' ↦ rw no' (step-IsKept window_fuel c st sample st.window_index st.next_window_start)
]

pub both : (a b : Bool) → (a && b) ≡ true → (a ≡ true) × (b ≡ true)
both a b h = (ground arith, ground arith)

pub all_four :
    (a b c d : Bool) → (a && b && c && d) ≡ true → (a ≡ true) × (b ≡ true) × (c ≡ true) × (d ≡ true)
all_four a b c d h = (ground arith, ground arith, ground arith, ground arith)

not_zero : (n : ℕ) → ltb 0 n ≡ true → (n == 0) ≡ false
not_zero n h = ground arith

pub ltb-leb : (x y : ℕ) → ltb x y ≡ true → leb y x ≡ false
ltb-leb x y h = ground arith

incremental_not_divisible : (m : WindowIndexMode) → is_incremental m ≡ true → is_divisible m ≡ false
incremental_not_divisible exact_int128 h = refl
incremental_not_divisible divisible_sample_period h = ground arith
incremental_not_divisible incremental_monotonic h = refl

find_window-trusted :
    (c : WindowConfig) (st : WindowState) (sample : ℕ)
    → can_use_incremental_window_index c ≡ true
    → ltb sample c.first_sample_index ≡ false
    → window_for_sample window_fuel c st sample ≡ find_trusted_window c st sample
unfolding window_for_sample incremental_window_for_sample find_trusted_window
    can_use_incremental_window_index
find_window-trusted c st sample can above =
    let (fast, mode, sample_period, period) =
      all_four c.use_fast_window_index (is_incremental c.window_index_mode)
        (ltb 0 c.sample_period_ns) (ltb 0 c.snapshot_period_ns) can in
    rw
      (
        not_zero c.snapshot_period_ns period,
        not_zero c.sample_period_ns sample_period,
        above,
        fast,
        incremental_not_divisible c.window_index_mode mode,
        mode,
        sample_period,
        period,
      )
      refl

bin-trusted :
    (c : SpectrumAggregatorConfig) (s : SignalSample)
    → can_use_fast_bin_index c ≡ true
    → ltb_ℤ s.absolute_frequency_hz c.source_min_hz ≡ false
    → ltb_ℤ c.source_max_hz s.absolute_frequency_hz ≡ false
    → spectrum_bin_for_frequency c s.absolute_frequency_hz ≡ some (trusted_bin c s)
unfolding spectrum_bin_for_frequency spectrum_bin_of_offset
bin-trusted c s can low high =
    let width = pos_part (c.source_max_hz -ℤ c.source_min_hz) in
    let steps = c.render_bin_count - 1 in
    let fit = leb width (max_int64 / steps) in
    let (can', fits) =
      both
        (c.use_fast_bin_index
          && ltb 1 c.render_bin_count
          && ltb_ℤ c.source_min_hz c.source_max_hz
          && ltb 0 width
          && ltb 0 steps)
        fit can in
    let (can'', multiplier) =
      both
        (c.use_fast_bin_index
          && ltb 1 c.render_bin_count
          && ltb_ℤ c.source_min_hz c.source_max_hz
          && ltb 0 width)
        (ltb 0 steps) can' in
    let (fast, more, range, positive) =
      all_four c.use_fast_bin_index (ltb 1 c.render_bin_count)
        (ltb_ℤ c.source_min_hz c.source_max_hz) (ltb 0 width) can'' in
    let some_bins : (c.render_bin_count == 0) ≡ false = ground arith in
    let more_bins : (c.render_bin_count == 1) ≡ false = ground arith in
    let wide : leb_ℤ c.source_max_hz c.source_min_hz ≡ false =
      ltb-leb (pos_part c.source_min_hz + neg_part c.source_max_hz)
        (pos_part c.source_max_hz + neg_part c.source_min_hz) range in
    rw (some_bins, wide, low, high, more_bins, fast, positive, multiplier, fits) refl

abbrev pub IsPositive : SignalSample → Type 0
IsPositive s = leb_ℤ s.amplitude (pos 0) ≡ false

module _ (c : SpectrumAggregatorConfig) (hz : ℤ) (can : can_use_fast_bin_index c ≡ true) where
  some_bins : (c.render_bin_count == 0) ≡ false
  some_bins =
      let width = pos_part (c.source_max_hz -ℤ c.source_min_hz) in
      let steps = c.render_bin_count - 1 in
      let fit = leb width (max_int64 / steps) in
      let can' =
        (both
          (c.use_fast_bin_index
            && ltb 1 c.render_bin_count
            && ltb_ℤ c.source_min_hz c.source_max_hz
            && ltb 0 width
            && ltb 0 steps)
          fit can).0 in
      let can'' =
        (both
          (c.use_fast_bin_index
            && ltb 1 c.render_bin_count
            && ltb_ℤ c.source_min_hz c.source_max_hz
            && ltb 0 width)
          (ltb 0 steps) can').0 in
      let (fast, more, range, positive) =
        all_four c.use_fast_bin_index (ltb 1 c.render_bin_count)
          (ltb_ℤ c.source_min_hz c.source_max_hz) (ltb 0 width) can'' in
      ground arith

  bin-below :
      leb_ℤ c.source_max_hz c.source_min_hz ≡ false
      → ltb_ℤ hz c.source_min_hz ≡ true
      → spectrum_bin_for_frequency c hz ≡ none
  unfolding spectrum_bin_for_frequency
  bin-below wide low = rw (some_bins, wide, low) refl

  bin-above :
      leb_ℤ c.source_max_hz c.source_min_hz ≡ false
      → ltb_ℤ hz c.source_min_hz ≡ false
      → ltb_ℤ c.source_max_hz hz ≡ true
      → spectrum_bin_for_frequency c hz ≡ none
  unfolding spectrum_bin_for_frequency
  bin-above wide low high = rw (some_bins, wide, low, high) refl

reject_or :
    (b : Bool)
    → (if b then invalid else out_of_range) ≡ (if b || false then invalid else out_of_range)
reject_or true = refl
reject_or false = refl

window-trusted :
    (c : SpectrumAggregatorConfig) (s : SignalSample) (window : Option ℕ)
    → can_use_fast_bin_index c ≡ true
    → leb_ℤ c.source_max_hz c.source_min_hz ≡ false
    → IsPositive s
    → judge_trusted_window c s window ≡ judge_window c s window
window-trusted c s none can wide p = refl
window-trusted c s (some w) can wide p =
    elim (Bool-cases (ltb_ℤ s.absolute_frequency_hz c.source_min_hz)) [
      | inl low ↦
          rw (p, low, bin-below c s.absolute_frequency_hz can wide low, wide)
            (reject_or (leb_ℤ s.absolute_frequency_hz (pos 0)))
      | inr low ↦ elim (Bool-cases (ltb_ℤ c.source_max_hz s.absolute_frequency_hz)) [
        | inl high ↦
            rw (p, low, high, bin-above c s.absolute_frequency_hz can wide low high, wide)
              (reject_or (leb_ℤ s.absolute_frequency_hz (pos 0)))
        | inr high ↦ rw (p, low, high, bin-trusted c s can low high) refl
      ]
    ]

found-trusted :
    (c : SpectrumAggregatorConfig) (st : WindowState) (s : SignalSample)
    (r : Option (WindowState × Option ℕ))
    → can_use_fast_bin_index c ≡ true
    → leb_ℤ c.source_max_hz c.source_min_hz ≡ false
    → IsPositive s
    → IsKept r
    → judge_found c st s r ≡ ((found_window st r).0, judge_window c s (found_window st r).1)
found-trusted c st s none can wide p k = refl
found-trusted c st s (some r) can wide p k =
    ap (λ v. (r.0, v))
      (window-trusted c s r.0.window_index can wide p ∙ ap (λ w. judge_window c s w) k)

window_for_sample-below :
    (c : WindowConfig) (st : WindowState) (sample : ℕ)
    → can_use_incremental_window_index c ≡ true
    → ltb sample c.first_sample_index ≡ true
    → window_for_sample window_fuel c st sample ≡ some (st, none)
unfolding window_for_sample can_use_incremental_window_index
window_for_sample-below c st sample can below =
    let (fast, mode, sample_period, period) =
      all_four c.use_fast_window_index (is_incremental c.window_index_mode)
        (ltb 0 c.sample_period_ns) (ltb 0 c.snapshot_period_ns) can in
    rw (not_zero c.snapshot_period_ns period, not_zero c.sample_period_ns sample_period, below) refl

pub judge-trusted :
    (c : SpectrumAggregatorConfig) (st : WindowState) (s : SignalSample)
    → c.trusted_samples ≡ true
    → can_use_incremental_window_index c.window ≡ true
    → can_use_fast_bin_index c ≡ true
    → leb_ℤ c.source_max_hz c.source_min_hz ≡ false
    → IsPositive s
    → judge_trusted_sample c st s ≡ judge_sample c st s
unfolding judge_trusted_sample judge_sample find_window spectrum_bin_for_frequency
judge-trusted c st s t inc can wide p =
    elim (Bool-cases (ltb s.sample_index c.window.first_sample_index)) [
      | inl below ↦ rw (below, t, window_for_sample-below c.window st s.sample_index inc below) refl
      | inr above ↦
          rw (above, p, t, find_window-trusted c.window st s.sample_index inc above)
            (found-trusted c st s (find_trusted_window c.window st s.sample_index) can wide p
              (find-IsKept c.window st s.sample_index))
    ]
