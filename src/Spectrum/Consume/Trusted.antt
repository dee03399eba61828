-- ===== src/Spectrum/Consume/Trusted.antt =====
-- `consumeTrustedBlockLocalFast` of src/pipeline/spectrum_aggregator.cpp, and the choice that
-- `consume` makes between it and the other ways. Its loop over the windows is that of
-- `incrementalWindowForSample`, and what it does to a bin and a band is that of
-- `updateLocalBinForSample` and `updateLocalBandSummaryForSample`.
pub mod Agree
pub mod Loop
pub mod Blocks
use sirius_scope.Prelude.{
  ℕ, ◌-◌, ◌*◌, ◌/◌, ◌%◌, ◌^◌, min, Bool, true, not, ◌&&◌, ◌||◌, Option, none, some, List, [], ◌∷◌,
  ltb, leb, if◌then◌else◌,
}
use sirius_scope.Prelude.Int.{pos, pos_part, ◌-ℤ◌, ltb_ℤ, leb_ℤ}
use sirius_scope.Domain.{SignalSample}
use sirius_scope.Spectrum.Window.{
  WindowConfig, WindowState, can_use_incremental_window_index, falls_back, count_fallback,
  reset_incremental, restart, step_incremental,
}
use sirius_scope.Spectrum.Bins.{update_local_bin}
use sirius_scope.Spectrum.Bands.{has_band_slot, update_local_bands}
use sirius_scope.Spectrum.Consume.State.{
  SpectrumAggregatorConfig, LocalAccumulation, SpectrumAggregator,
}
use sirius_scope.Spectrum.Consume.Judge.{
  max_int64, window_fuel, Verdict, invalid, out_of_range, ignored, placed,
}
use sirius_scope.Spectrum.Consume.Snapshot.{close_open_window, open_spectrum_window}
use sirius_scope.Spectrum.Consume.Accumulation.{
  prepare_local_accumulation, merge_local_accumulation,
}
use sirius_scope.Spectrum.Consume.{
  count_invalid, count_out_of_range, count_consumed, enter_local, uses_block_local_fast_path,
  consume_spectrum,
}

-- `m_canUseFastBinIndex`
abbrev pub can_use_fast_bin_index : SpectrumAggregatorConfig → Bool
can_use_fast_bin_index c =
    let range = pos_part (c.source_max_hz -ℤ c.source_min_hz) in
    let multiplier = c.render_bin_count - 1 in
    c.use_fast_bin_index
    && ltb 1 c.render_bin_count
    && ltb_ℤ c.source_min_hz c.source_max_hz
    && ltb 0 range
    && ltb 0 multiplier
    && leb range (max_int64 / multiplier)

-- `usesTrustedBlockLocalFastPath`; the first argument is `enableDetailedTiming`.
unfoldable pub uses_trusted_block_local_fast_path : Bool → SpectrumAggregatorConfig → Bool
uses_trusted_block_local_fast_path detailed_timing c =
    uses_block_local_fast_path c
    && not detailed_timing
    && can_use_incremental_window_index c.window
    && can_use_fast_bin_index c
    && ltb_ℤ c.source_min_hz c.source_max_hz

-- The window of a sample, with the fuel of `windowForSample`.
unfoldable pub find_trusted_window :
    WindowConfig → WindowState → ℕ → Option (WindowState × Option ℕ)
find_trusted_window c st sample =
    if falls_back st.last_sample_index sample
    then some (restart c (reset_incremental (count_fallback st)) sample)
    else step_incremental window_fuel c st sample st.window_index st.next_window_start

abbrev pub trusted_bin : SpectrumAggregatorConfig → SignalSample → ℕ
trusted_bin c s =
    let offset = pos_part (s.absolute_frequency_hz -ℤ c.source_min_hz) in
    let range = pos_part (c.source_max_hz -ℤ c.source_min_hz) in
    let multiplier = c.render_bin_count - 1 in min (offset * multiplier % 2 ^ 64 / range) multiplier

abbrev pub judge_trusted_window : SpectrumAggregatorConfig → SignalSample → Option ℕ → Verdict
judge_trusted_window c s none = invalid
judge_trusted_window c s (some window) =
    if ltb_ℤ s.absolute_frequency_hz c.source_min_hz
      || ltb_ℤ c.source_max_hz s.absolute_frequency_hz
    then (if leb_ℤ s.absolute_frequency_hz (pos 0) then invalid else out_of_range)
    else if ltb_ℤ s.amplitude c.amplitude_floor
    then ignored
    else if has_band_slot c.band_capacity s.band_index
    then placed window (trusted_bin c s)
    else invalid

-- The window is taken from the state that the search leaves.
abbrev pub judge_found :
    SpectrumAggregatorConfig
    → WindowState
    → SignalSample
    → Option (WindowState × Option ℕ)
    → WindowState × Verdict
judge_found c st s none = (st, invalid)
judge_found c st s (some r) = (r.0, judge_trusted_window c s r.0.window_index)

unfoldable pub judge_trusted_sample :
    SpectrumAggregatorConfig → WindowState → SignalSample → WindowState × Verdict
unfolding find_trusted_window
judge_trusted_sample c st s =
    if ltb s.sample_index c.window.first_sample_index || leb_ℤ s.amplitude (pos 0)
    then (st, invalid)
    else judge_found c st s (find_trusted_window c.window st s.sample_index)

-- The last sample index is the one of the sample, and the first is left as it is.
unfoldable pub update_trusted_window_bounds : LocalAccumulation → ℕ → LocalAccumulation
update_trusted_window_bounds l sample =
    if l.has_samples
    then record l { last_sample_index = sample }
    else record l { has_samples = true; first_sample_index = sample; last_sample_index = sample }

abbrev pub accumulate_trusted :
    SpectrumAggregatorConfig → LocalAccumulation → SignalSample → ℕ → LocalAccumulation
accumulate_trusted c l s bin =
    let l' = update_trusted_window_bounds l s.sample_index in
    record l' {
      bins = update_local_bin c.separate_beams l'.bins s bin;
      bands = update_local_bands c.separate_beams l'.bands s;
    }

unfoldable pub place_trusted :
    SpectrumAggregatorConfig → SpectrumAggregator → SignalSample → ℕ → ℕ → SpectrumAggregator
unfolding close_open_window open_spectrum_window merge_local_accumulation
    update_trusted_window_bounds update_local_bin update_local_bands
place_trusted c a s window bin =
    let b = enter_local c a window s.sample_index a.core.open_window in
    record b { local = accumulate_trusted c b.local s bin }

abbrev pub apply_trusted :
    SpectrumAggregatorConfig → SpectrumAggregator → SignalSample → Verdict → SpectrumAggregator
apply_trusted c a s invalid = record a { core = count_invalid a.core }
apply_trusted c a s out_of_range = record a { core = count_out_of_range a.core }
apply_trusted c a s ignored = a
apply_trusted c a s (placed window bin) = place_trusted c a s window bin

unfoldable pub step_trusted :
    SpectrumAggregatorConfig → SpectrumAggregator → SignalSample → SpectrumAggregator
unfolding judge_trusted_sample place_trusted
step_trusted c a s =
    let (st, verdict) = judge_trusted_sample c a.core.window_state s in
    apply_trusted c (record a { core = count_consumed a.core st }) s verdict

unfoldable pub loop_trusted :
    SpectrumAggregatorConfig → SpectrumAggregator → List SignalSample → SpectrumAggregator
loop_trusted c a [] = a
loop_trusted c a (s ∷ ss) = loop_trusted c (step_trusted c a s) ss

-- `consume` with its choice of the way.
unfoldable pub consume_samples :
    Bool → SpectrumAggregatorConfig → SpectrumAggregator → List SignalSample → SpectrumAggregator
unfolding uses_trusted_block_local_fast_path prepare_local_accumulation merge_local_accumulation
    loop_trusted consume_spectrum
consume_samples detailed_timing c a ss =
    if uses_trusted_block_local_fast_path detailed_timing c
    then merge_local_accumulation
        (loop_trusted c (record a { local = prepare_local_accumulation c a.local }) ss)
    else consume_spectrum c a ss
