-- ===== src/Spectrum/Consume/Judge.antt =====
-- What `consume` of src/pipeline/spectrum_aggregator.cpp tests of a sample before it takes it.
use sirius_scope.Prelude.{
  ℕ, ◌-◌, ◌*◌, ◌/◌, ◌%◌, ◌^◌, min, Bool, not, ◌&&◌, ◌||◌, Option, none, some, ltb, leb, ◌==◌,
  if◌then◌else◌,
}
use sirius_scope.Prelude.Int.{ℤ, pos, pos_part, ◌-ℤ◌, ltb_ℤ, leb_ℤ}
use sirius_scope.Domain.{SignalSample}
use sirius_scope.Spectrum.Window.{WindowConfig, WindowState, window_for_sample}
use sirius_scope.Spectrum.Bands.{has_band_slot}
use sirius_scope.Spectrum.Consume.State.{SpectrumAggregatorConfig}

abbrev pub max_int64 : ℕ
max_int64 = 2 ^ 63 - 1

-- The bin of an offset: `m_canUseFastBinIndex` chooses a 64-bit product, which wraps, or a 128-bit one.
unfoldable pub spectrum_bin_of_offset : Bool → ℕ → ℕ → ℕ → ℕ
spectrum_bin_of_offset use_fast offset range multiplier =
    if use_fast && ltb 0 range && ltb 0 multiplier && leb range (max_int64 / multiplier)
    then min (offset * multiplier % 2 ^ 64 / range) multiplier
    else min (if range == 0 then 0 else offset * multiplier / range) multiplier

-- `binForFrequency`; `none` is the source's -1.
unfoldable pub spectrum_bin_for_frequency : SpectrumAggregatorConfig → ℤ → Option ℕ
unfolding spectrum_bin_of_offset
spectrum_bin_for_frequency c hz =
    if c.render_bin_count == 0
      || leb_ℤ c.source_max_hz c.source_min_hz
      || ltb_ℤ hz c.source_min_hz
      || ltb_ℤ c.source_max_hz hz
    then none
    else if c.render_bin_count == 1
    then some 0
    else some (
        spectrum_bin_of_offset c.use_fast_bin_index (pos_part (hz -ℤ c.source_min_hz))
          (pos_part (c.source_max_hz -ℤ c.source_min_hz)) (c.render_bin_count - 1))

-- The tests of `validateAmplitude`, `validateBandIndex`, `validateBeamIndex` and
-- `validateSystemFrequency` with the default capabilities.
unfoldable pub has_valid_untrusted_sample : SignalSample → Bool
has_valid_untrusted_sample s =
    leb_ℤ (pos 1) s.amplitude
    && leb_ℤ s.amplitude (pos 127)
    && has_band_slot 5 s.band_index
    && has_band_slot 2 s.beam_index
    && leb_ℤ (pos 300_000_000) s.absolute_frequency_hz
    && leb_ℤ s.absolute_frequency_hz (pos 18_000_000_000)

abbrev pub found_window : WindowState → Option (WindowState × Option ℕ) → WindowState × Option ℕ
found_window st none = (st, none)
found_window st (some r) = r

-- More rounds than windows before the last one, whose number is the largest 64-bit word.
abbrev pub window_fuel : ℕ
window_fuel = 2 ^ 64

-- `windowForSample`
unfoldable pub find_window : WindowConfig → WindowState → ℕ → WindowState × Option ℕ
find_window c st sample = found_window st (window_for_sample window_fuel c st sample)

-- What becomes of a sample.
pub data Verdict : Type 0 where
  invalid : Verdict
  out_of_range : Verdict
  ignored : Verdict
  placed : ℕ → ℕ → Verdict

abbrev pub judge_bin : SpectrumAggregatorConfig → SignalSample → ℕ → Option ℕ → Verdict
judge_bin c s window none =
    if leb_ℤ s.absolute_frequency_hz (pos 0) || leb_ℤ c.source_max_hz c.source_min_hz
    then invalid
    else out_of_range
judge_bin c s window (some bin) =
    if ltb_ℤ s.amplitude c.amplitude_floor
    then ignored
    else if has_band_slot c.band_capacity s.band_index
    then placed window bin
    else invalid

abbrev pub judge_window : SpectrumAggregatorConfig → SignalSample → Option ℕ → Verdict
judge_window c s none = invalid
judge_window c s (some window) =
    if leb_ℤ s.amplitude (pos 0)
    then invalid
    else judge_bin c s window (spectrum_bin_for_frequency c s.absolute_frequency_hz)

-- The tests of the loop, in their order; the state of the windows moves only past the first.
unfoldable pub judge_sample :
    SpectrumAggregatorConfig → WindowState → SignalSample → WindowState × Verdict
unfolding has_valid_untrusted_sample find_window
judge_sample c st s =
    let (st', window) = find_window c.window st s.sample_index in
    if not c.trusted_samples && not (has_valid_untrusted_sample s)
    then (st, invalid)
    else (st', judge_window c s window)
