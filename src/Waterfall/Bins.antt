-- ===== src/Waterfall/Bins.antt =====
-- Where a sample belongs in a waterfall: `bucketForSample`, `utcNsForBucket`, `binForFrequency` and
-- `clampAmplitude` of src/pipeline/waterfall_aggregator.cpp.
pub mod Fast
pub mod Time
use sirius_scope.Prelude.{
  ℕ, suc, ◌+◌, ◌-◌, ◌*◌, ◌/◌, ◌%◌, ◌^◌, min, max, Bool, true, false, ◌&&◌, ◌||◌, Option, none, some,
  ltb, leb, ◌==◌, if◌then◌else◌,
}
use sirius_scope.Prelude.Int.{ℤ, pos, pos_part, leb_ℤ, ltb_ℤ, ◌+ℤ◌, ◌-ℤ◌}

-- The configuration with its time base.
pub record WaterfallAggregatorConfig : Type 0 where
  pub render_bin_count : ℤ
  pub source_min_hz : ℤ
  pub source_max_hz : ℤ
  pub row_period_ns : ℕ
  pub amplitude_floor : ℤ
  pub recording_start_utc_ns : ℤ
  pub first_sample_index : ℕ
  pub sample_period_ns : ℕ

abbrev pub max_u64 : ℕ
max_u64 = 2 ^ 64 - 1

abbrev pub max_i64 : ℕ
max_i64 = 2 ^ 63 - 1

-- The products are those of `unsigned __int128`, which cannot overflow on 64-bit factors.
unfoldable pub bucket_for_sample : WaterfallAggregatorConfig → ℕ → Option ℕ
bucket_for_sample c sample =
    if c.row_period_ns == 0 || c.sample_period_ns == 0
    then none
    else if ltb sample c.first_sample_index
    then none
    else let bucket = (sample - c.first_sample_index) * c.sample_period_ns / c.row_period_ns in
      if ltb max_u64 bucket then none else some bucket

-- `maxOffset` is what is left from `max(0, recordingStartUtcNs)` to the largest 64-bit integer.
unfoldable pub utc_ns_for_bucket : WaterfallAggregatorConfig → ℕ → ℤ
utc_ns_for_bucket c bucket =
    let row_offset = bucket * c.row_period_ns in
    let max_offset = max_i64 - pos_part c.recording_start_utc_ns in
    if ltb max_offset row_offset then pos max_i64 else c.recording_start_utc_ns +ℤ pos row_offset

-- The bin of an offset by 64-bit products, which wrap, or by 128-bit ones, which do not.
unfoldable pub bin_of_offset : ℕ → ℕ → ℕ → ℕ
bin_of_offset offset range multiplier =
    if ltb 0 range && ltb 0 multiplier && leb range (max_i64 / multiplier)
    then min (offset * multiplier % 2 ^ 64 / range) multiplier
    else min (if range == 0 then 0 else offset * multiplier / range) multiplier

-- `none` is the source's -1.
unfoldable pub bin_for_frequency : WaterfallAggregatorConfig → ℤ → Option ℕ
unfolding bin_of_offset
bin_for_frequency c hz =
    if leb_ℤ c.render_bin_count (pos 0)
      || leb_ℤ c.source_max_hz c.source_min_hz
      || ltb_ℤ hz c.source_min_hz
      || ltb_ℤ c.source_max_hz hz
    then none
    else if pos_part c.render_bin_count == 1
    then some 0
    else some (
        bin_of_offset (pos_part (hz -ℤ c.source_min_hz))
          (pos_part (c.source_max_hz -ℤ c.source_min_hz)) (pos_part c.render_bin_count - 1))

-- The amplitude cut to 0 .. 65535.
unfoldable pub clamp_amplitude : ℤ → ℕ
clamp_amplitude amplitude = min (pos_part amplitude) (2 ^ 16 - 1)
