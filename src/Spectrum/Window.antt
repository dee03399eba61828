-- ===== src/Spectrum/Window.antt =====
-- How `SpectrumAggregator` finds the window of a sample: `prepareDerivedConfig` (its window part),
-- `windowForSample`, `exactWindowForSample`, `firstSampleIndexForWindow`,
-- `incrementalWindowForSample`, `resetIncrementalWindowState` and `primeIncrementalWindowState` of
-- src/pipeline/spectrum_aggregator.cpp. The counter of fallbacks is not bounded by 64 bits here.
pub mod Exact
pub mod Incremental
pub mod PastMax
pub mod Returns
use sirius_scope.Prelude.{
  ℕ, zero, suc, ◌+◌, ◌-◌, ◌*◌, ◌/◌, ◌%◌, ◌^◌, Bool, true, false, not, ◌&&◌, ◌||◌, Option, none,
  some, ltb, leb, ◌==◌, if◌then◌else◌,
}

pub data WindowIndexMode : Type 0 where
  exact_int128 divisible_sample_period incremental_monotonic : WindowIndexMode

-- The fields of `SpectrumAggregatorConfig` and of its time base that the windows depend on.
pub record WindowConfig : Type 0 where
  pub snapshot_period_ns : ℕ
  pub first_sample_index : ℕ
  pub sample_period_ns : ℕ
  pub use_fast_window_index : Bool
  pub window_index_mode : WindowIndexMode

-- `m_incrementalWindowIndex`, `m_incrementalNextWindowStartSampleIndex`,
-- `m_lastWindowSampleIndex` and `m_incrementalWindowFallbacks`.
pub record WindowState : Type 0 where
  pub window_index : Option ℕ
  pub next_window_start : Option ℕ
  pub last_sample_index : Option ℕ
  pub fallbacks : ℕ

abbrev pub max_u64 : ℕ
max_u64 = 2 ^ 64 - 1

abbrev pub is_divisible : WindowIndexMode → Bool
is_divisible exact_int128 = false
is_divisible divisible_sample_period = true
is_divisible incremental_monotonic = false

abbrev pub is_incremental : WindowIndexMode → Bool
is_incremental exact_int128 = false
is_incremental divisible_sample_period = false
is_incremental incremental_monotonic = true

-- `m_samplesPerWindow`; `prepareDerivedConfig` leaves 0 where the division is not exact.
unfoldable pub samples_per_window : WindowConfig → ℕ
samples_per_window c =
    if c.use_fast_window_index
      && ltb 0 c.sample_period_ns
      && ltb 0 c.snapshot_period_ns
      && is_divisible c.window_index_mode
      && c.snapshot_period_ns % c.sample_period_ns == 0
    then c.snapshot_period_ns / c.sample_period_ns
    else 0

-- `m_canUseFastWindowIndex`
unfoldable pub can_use_fast_window_index : WindowConfig → Bool
unfolding samples_per_window
can_use_fast_window_index c = ltb 0 (samples_per_window c)

-- `m_canUseIncrementalWindowIndex`
unfoldable pub can_use_incremental_window_index : WindowConfig → Bool
can_use_incremental_window_index c =
    c.use_fast_window_index
    && is_incremental c.window_index_mode
    && ltb 0 c.sample_period_ns
    && ltb 0 c.snapshot_period_ns

-- The guards that the window functions begin with.
abbrev pub no_window : WindowConfig → ℕ → Bool
no_window c sample =
    c.snapshot_period_ns == 0 || c.sample_period_ns == 0 || ltb sample c.first_sample_index

-- The arithmetic is that of `unsigned __int128`, which cannot overflow on 64-bit factors.
unfoldable pub exact_window_for_sample : WindowConfig → ℕ → Option ℕ
exact_window_for_sample c sample =
    if no_window c sample
    then none
    else let window = (sample - c.first_sample_index) * c.sample_period_ns / c.snapshot_period_ns in
      if ltb max_u64 window then none else some window

-- `relativeSampleIndex`: the quotient, one more if there is a remainder.
unfoldable pub divide_up : ℕ → ℕ → ℕ
divide_up n d = if n % d == 0 then n / d else n / d + 1

unfoldable pub first_sample_index_for_window : WindowConfig → ℕ → Option ℕ
first_sample_index_for_window c window =
    if c.snapshot_period_ns == 0 || c.sample_period_ns == 0
    then none
    else let relative = divide_up (window * c.snapshot_period_ns) c.sample_period_ns in
      if ltb max_u64 relative
      then none
      else if ltb (max_u64 - c.first_sample_index) relative
      then none
      else some (c.first_sample_index + relative)

unfoldable pub reset_incremental : WindowState → WindowState
reset_incremental st = record st {
  window_index = none;
  next_window_start = none;
  last_sample_index = none;
}

unfoldable pub prime_incremental : WindowConfig → WindowState → ℕ → Option ℕ → WindowState
unfolding reset_incremental
prime_incremental c st sample none = reset_incremental st
prime_incremental c st sample (some window) = record st {
  window_index = some window;
  next_window_start =
      if window == max_u64 then none else first_sample_index_for_window c (window + 1);
  last_sample_index = some sample;
}

-- A new start from the exact window: the state that `primeIncrementalWindowState` leaves and the
-- window that is returned.
unfoldable pub restart : WindowConfig → WindowState → ℕ → WindowState × Option ℕ
unfolding prime_incremental
restart c st sample =
    let exact = exact_window_for_sample c sample in (prime_incremental c st sample exact, exact)

abbrev pub count_fallback : WindowState → WindowState
count_fallback st = record st { fallbacks = st.fallbacks + 1 }

-- The `while` loop and the two lines behind it, from the window `window` with the start `start` of
-- the next one. The fuel bounds the rounds; `none` means that it ran out.
unfoldable pub advance :
    ℕ → WindowConfig → WindowState → ℕ → ℕ → ℕ → Option (WindowState × Option ℕ)
advance zero c st sample window start = none
advance (suc fuel) c st sample window start =
    let found = some (
      record st {
        window_index = some window;
        next_window_start = some start;
        last_sample_index = some sample;
      },
      some window,
    ) in
    let overflow = some (restart c (count_fallback st) sample) in
    let last = some (
      record st {
        window_index = some (window + 1);
        next_window_start = none;
        last_sample_index = some sample;
      },
      some (window + 1),
    ) in
    let next : Option (WindowState × Option ℕ) =
      elim (first_sample_index_for_window c (window + 1 + 1)) [
        | none ↦ some (restart c (count_fallback st) sample)
        | some start' ↦ advance fuel c st sample (window + 1) start'
      ] in
    if ltb sample start
    then found
    else if window == max_u64
    then overflow
    else if window + 1 == max_u64
    then last
    else next

-- `m_lastWindowSampleIndex && sampleIndex < *m_lastWindowSampleIndex`
abbrev pub falls_back : Option ℕ → ℕ → Bool
falls_back none sample = false
falls_back (some last) sample = ltb sample last

-- The two optionals decide between a restart and the loop.
unfoldable pub step_incremental :
    ℕ → WindowConfig → WindowState → ℕ → Option ℕ → Option ℕ → Option (WindowState × Option ℕ)
step_incremental fuel c st sample (some window) (some start) = advance fuel c st sample window start
step_incremental fuel c st sample _ _ = some (restart c st sample)

unfoldable pub incremental_window_for_sample :
    ℕ → WindowConfig → WindowState → ℕ → Option (WindowState × Option ℕ)
unfolding reset_incremental
incremental_window_for_sample fuel c st sample =
    if not (can_use_incremental_window_index c)
    then some (st, exact_window_for_sample c sample)
    else if falls_back st.last_sample_index sample
    then some (restart c (reset_incremental (count_fallback st)) sample)
    else step_incremental fuel c st sample st.window_index st.next_window_start

-- The dispatch of `windowForSample`.
unfoldable pub window_for_sample :
    ℕ → WindowConfig → WindowState → ℕ → Option (WindowState × Option ℕ)
window_for_sample fuel c st sample =
    if no_window c sample
    then some (st, none)
    else if not c.use_fast_window_index
    then some (st, exact_window_for_sample c sample)
    else if is_divisible c.window_index_mode
    then (if can_use_fast_window_index c
        then some (st, some ((sample - c.first_sample_index) / samples_per_window c))
        else some (st, exact_window_for_sample c sample))
    else if is_incremental c.window_index_mode
    then incremental_window_for_sample fuel c st sample
    else some (st, exact_window_for_sample c sample)
