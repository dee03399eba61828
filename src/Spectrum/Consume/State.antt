-- ===== src/Spectrum/Consume/State.antt =====
-- The state of `SpectrumAggregator`, src/pipeline/spectrum_aggregator.{h,cpp}, and its snapshots in
-- src/pipeline/spectrum_snapshot.h. The counters are not bounded by 64 bits here.
use sirius_scope.Prelude.{ℕ, Bool, false, Option, none, List, []}
use sirius_scope.Prelude.Int.{ℤ}
use sirius_scope.Prelude.Touched.{Slots}
use sirius_scope.Spectrum.Window.{WindowConfig, WindowState}
use sirius_scope.Spectrum.Bins.{SpectrumBin, LocalBins}
use sirius_scope.Spectrum.Bands.{SpectrumBandSummary, BandSlot}

-- A negative number of bins is as none.
pub record SpectrumAggregatorConfig : Type 0 where
  pub window : WindowConfig
  pub render_bin_count : ℕ
  pub source_min_hz : ℤ
  pub source_max_hz : ℤ
  pub amplitude_floor : ℤ
  pub separate_beams : Bool
  pub trusted_samples : Bool
  pub use_fast_bin_index : Bool
  pub band_capacity : ℕ

pub record SpectrumCounters : Type 0 where
  pub consumed_blocks : ℕ
  pub consumed_samples : ℕ
  pub produced_snapshots : ℕ
  pub invalid_samples : ℕ
  pub out_of_range_samples : ℕ

pub record OpenWindow : Type 0 where
  pub window_index : ℕ
  pub first_sample_index : ℕ
  pub last_sample_index : ℕ
  pub bins : List SpectrumBin
  pub bands : List BandSlot
  pub has_samples : Bool

-- The parts of a snapshot that are not copied from the configuration.
pub record SpectrumSnapshot : Type 0 where
  pub sequence_id : ℕ
  pub first_sample_index : ℕ
  pub last_sample_index : ℕ
  pub bins : List SpectrumBin
  pub band_summaries : List SpectrumBandSummary
  pub produced_snapshots : ℕ
  pub invalid_samples : ℕ
  pub out_of_range_samples : ℕ

-- What both ways share of the aggregator, with the snapshots that a call gives.
pub record SpectrumCore : Type 0 where
  pub counters : SpectrumCounters
  pub open_window : Option OpenWindow
  pub next_snapshot_sequence_id : ℕ
  pub window_state : WindowState
  pub snapshots : List SpectrumSnapshot

-- The accumulators of a block.
pub record LocalAccumulation : Type 0 where
  pub bins : LocalBins
  pub bands : Slots BandSlot
  pub has_samples : Bool
  pub first_sample_index : ℕ
  pub last_sample_index : ℕ

pub record SpectrumAggregator : Type 0 where
  pub core : SpectrumCore
  pub local : LocalAccumulation

abbrev pub no_accumulation : LocalAccumulation
no_accumulation = record {
  bins = record { local_bins = []; touched_bins = [] };
  bands = record { local = []; touched = [] };
  has_samples = false;
  first_sample_index = 0;
  last_sample_index = 0;
}

-- What the constructor makes.
abbrev pub new_spectrum_aggregator : SpectrumAggregator
new_spectrum_aggregator = record {
  core = record {
    counters = record {
      consumed_blocks = 0;
      consumed_samples = 0;
      produced_snapshots = 0;
      invalid_samples = 0;
      out_of_range_samples = 0;
    };
    open_window = none;
    next_snapshot_sequence_id = 1;
    window_state = record {
      window_index = none;
      next_window_start = none;
      last_sample_index = none;
      fallbacks = 0;
    };
    snapshots = [];
  };
  local = no_accumulation;
}
