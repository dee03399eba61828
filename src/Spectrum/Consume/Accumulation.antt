-- ===== src/Spectrum/Consume/Accumulation.antt =====
-- The accumulators of a block in src/pipeline/spectrum_aggregator.cpp, and their merge.
use sirius_scope.Prelude.{
  ℕ, min, max, true, false, Option, none, some, List, [], ◌∷◌, length, set, replicate, ◌==◌,
  if◌then◌else◌,
}
use sirius_scope.Spectrum.Bins.{unused, merge_local_bins}
use sirius_scope.Spectrum.Bands.{unused_band, merge_local_bands}
use sirius_scope.Spectrum.Consume.State.{
  SpectrumAggregatorConfig, OpenWindow, LocalAccumulation, SpectrumAggregator,
}

unfoldable pub update_local_window_bounds : LocalAccumulation → ℕ → LocalAccumulation
update_local_window_bounds l sample =
    if l.has_samples
    then record l {
      first_sample_index = min l.first_sample_index sample;
      last_sample_index = max l.last_sample_index sample;
    }
    else record l { has_samples = true; first_sample_index = sample; last_sample_index = sample }

abbrev pub reset_touched {ℓ} : {B : Type ℓ} → B → List B → List ℕ → List B
reset_touched d locals [] = locals
reset_touched d locals (i ∷ is) = reset_touched d (set locals i d) is

-- `resetLocalAccumulationTouched`
unfoldable pub reset_local_accumulation : LocalAccumulation → LocalAccumulation
reset_local_accumulation l = record {
  bins = record {
    local_bins = reset_touched unused l.bins.local_bins l.bins.touched_bins;
    touched_bins = [];
  };
  bands = record { local = reset_touched unused_band l.bands.local l.bands.touched; touched = [] };
  has_samples = false;
  first_sample_index = 0;
  last_sample_index = 0;
}

-- Buffers of other sizes are made anew.
abbrev pub resize_buffers : SpectrumAggregatorConfig → LocalAccumulation → LocalAccumulation
resize_buffers c l = record l {
  bins = record {
    local_bins =
        if length l.bins.local_bins == c.render_bin_count
        then l.bins.local_bins
        else replicate c.render_bin_count unused;
    touched_bins = l.bins.touched_bins;
  };
  bands = record {
    local =
        if length l.bands.local == c.band_capacity
        then l.bands.local
        else replicate c.band_capacity unused_band;
    touched = l.bands.touched;
  };
}

-- `prepareLocalAccumulationBuffers`
unfoldable pub prepare_local_accumulation :
    SpectrumAggregatorConfig → LocalAccumulation → LocalAccumulation
unfolding reset_local_accumulation
prepare_local_accumulation c l = reset_local_accumulation (resize_buffers c l)

abbrev pub merge_bounds : LocalAccumulation → OpenWindow → OpenWindow
merge_bounds l o =
    if l.has_samples
    then record o {
      first_sample_index = min o.first_sample_index l.first_sample_index;
      last_sample_index = max o.last_sample_index l.last_sample_index;
      has_samples = true;
    }
    else o

abbrev pub merge_into : LocalAccumulation → Option OpenWindow → Option OpenWindow
merge_into l none = none
merge_into l (some o) = some (
    merge_bounds l (record o {
      bins = merge_local_bins l.bins o.bins;
      bands = merge_local_bands l.bands o.bands;
    }))

-- `mergeLocalAccumulationIntoOpenWindow`
unfoldable pub merge_local_accumulation : SpectrumAggregator → SpectrumAggregator
unfolding reset_local_accumulation merge_local_bins merge_local_bands
merge_local_accumulation a = record {
  core = record a.core { open_window = merge_into a.local a.core.open_window };
  local = reset_local_accumulation a.local;
}
