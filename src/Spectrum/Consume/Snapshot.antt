-- ===== src/Spectrum/Consume/Snapshot.antt =====
-- `openWindow` and `closeOpenWindow` of src/pipeline/spectrum_aggregator.cpp. The measured times and
-- the time of a snapshot's making are left out.
use sirius_scope.Prelude.{
  ℕ, ◌+◌, min, max, true, false, Option, none, some, [], ◌∷◌, ◌++◌, replicate, if◌then◌else◌,
}
use sirius_scope.Spectrum.Bins.{empty_bin}
use sirius_scope.Spectrum.Bands.{unused_band, used_summaries}
use sirius_scope.Spectrum.Consume.State.{
  SpectrumAggregatorConfig, OpenWindow, SpectrumSnapshot, SpectrumCore,
}

unfoldable pub open_spectrum_window : SpectrumAggregatorConfig → ℕ → ℕ → OpenWindow
open_spectrum_window c window sample = record {
  window_index = window;
  first_sample_index = sample;
  last_sample_index = sample;
  bins = replicate c.render_bin_count empty_bin;
  bands = replicate c.band_capacity unused_band;
  has_samples = false;
}

abbrev pub snapshot_of : SpectrumCore → OpenWindow → SpectrumSnapshot
snapshot_of x o = record {
  sequence_id = x.next_snapshot_sequence_id;
  first_sample_index = o.first_sample_index;
  last_sample_index = o.last_sample_index;
  bins = o.bins;
  band_summaries = used_summaries o.bands;
  produced_snapshots = x.counters.produced_snapshots + 1;
  invalid_samples = x.counters.invalid_samples;
  out_of_range_samples = x.counters.out_of_range_samples;
}

abbrev pub close_from : SpectrumCore → Option OpenWindow → SpectrumCore
close_from x none = x
close_from x (some o) =
    if o.has_samples
    then record x {
      counters = record x.counters { produced_snapshots = x.counters.produced_snapshots + 1 };
      open_window = none;
      next_snapshot_sequence_id = x.next_snapshot_sequence_id + 1;
      snapshots = x.snapshots ++ snapshot_of x o ∷ [];
    }
    else record x { open_window = none }

-- `closeOpenWindow`, with the snapshot added to the result.
unfoldable pub close_open_window : SpectrumCore → SpectrumCore
unfolding used_summaries
close_open_window x = close_from x x.open_window

unfoldable pub update_open_window_bounds : OpenWindow → ℕ → OpenWindow
update_open_window_bounds o sample = record o {
  first_sample_index = min o.first_sample_index sample;
  last_sample_index = max o.last_sample_index sample;
  has_samples = true;
}
