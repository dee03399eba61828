-- ===== src/Spectrum/ConsumeTests.antt =====
-- Runs of the spectrum aggregator's `consume` and `flush`, and instances of their theorems.
use sirius_scope.Prelude.{◌≡◌, refl, ℕ, true, [], ◌∷◌, List, map, false, Option, some, arith}
use sirius_scope.Prelude.Int.{pos, ◌-ℤ◌}
use sirius_scope.Domain.{SignalSample}
use sirius_scope.Spectrum.Window.{
  incremental_monotonic, window_for_sample, incremental_window_for_sample,
  can_use_incremental_window_index, step_incremental, restart, exact_window_for_sample,
  first_sample_index_for_window, divide_up, advance,
}
use sirius_scope.Spectrum.Consume.State.{
  SpectrumAggregatorConfig, SpectrumSnapshot, new_spectrum_aggregator,
}
use sirius_scope.Spectrum.Consume.{step_local, consume_spectrum_blocks, flush_spectrum}
use sirius_scope.Spectrum.Window.{WindowState, max_u64}
use sirius_scope.Spectrum.Window.Returns.{HasNext, window_for_sample-returns}
use sirius_scope.Spectrum.Consume.State.{SpectrumAggregator}
use sirius_scope.Spectrum.Consume.{consume_spectrum}
use sirius_scope.Spectrum.Consume.Trusted.{find_trusted_window, step_trusted, consume_samples}
use sirius_scope.Spectrum.Consume.Trusted.Loop.{consume_samples-consume_spectrum}
use sirius_scope.Spectrum.Consume.Judge.{has_valid_untrusted_sample, spectrum_bin_for_frequency}
use sirius_scope.Spectrum.Consume.Untrusted.{untrusted}
use sirius_scope.Spectrum.Consume.Trusted.Blocks.{consume_blocks, consume_blocks-untrusted}

-- 320 ns samples and windows of 1000 ns, from sample 10 on, and four bins from 1 GHz to 2 GHz.
abbrev config : SpectrumAggregatorConfig
config = record {
  window = record {
    snapshot_period_ns = 1_000;
    first_sample_index = 10;
    sample_period_ns = 320;
    use_fast_window_index = true;
    window_index_mode = incremental_monotonic;
  };
  render_bin_count = 4;
  source_min_hz = pos 1_000_000_000;
  source_max_hz = pos 2_000_000_000;
  amplitude_floor = pos 5;
  separate_beams = true;
  trusted_samples = true;
  use_fast_bin_index = true;
  band_capacity = 2;
}

abbrev sample : ℕ → ℕ → ℕ → SignalSample
sample index hz amplitude = record {
  sample_index = index;
  frequency_offset_hz = pos 0;
  absolute_frequency_hz = pos hz;
  amplitude = pos amplitude;
  band_index = pos 1;
  beam_index = pos 0;
}

abbrev blocks : List (List SignalSample)
blocks =
    (sample 10 1_000_000_000 20 ∷ sample 12 1_500_000_000 30 ∷ sample 11 1_500_000_000 3 ∷ [])
    ∷ (sample 13 2_000_000_000 40 ∷ sample 14 2_500_000_000 50 ∷ sample 15 1_000_000_000 60 ∷ [])
    ∷ []

abbrev places : SpectrumSnapshot → ℕ × ℕ × ℕ
places s = (s.sequence_id, s.first_sample_index, s.last_sample_index)

-- The first window is closed by a sample of the second block, the second one by the flush.
consume_run :
    map places
      (flush_spectrum config
        (consume_spectrum_blocks config new_spectrum_aggregator blocks)).core.snapshots
    ≡ (1, 10, 13) ∷ (2, 15, 15) ∷ []
unfolding flush_spectrum consume_spectrum_blocks step_local window_for_sample
    incremental_window_for_sample can_use_incremental_window_index step_incremental restart
    exact_window_for_sample spectrum_bin_for_frequency first_sample_index_for_window divide_up
    advance
consume_run = refl

-- Samples that go back within a window: in the trusted fast way the last index is smaller.
abbrev back_and_forth : List SignalSample
back_and_forth =
    sample 10 1_000_000_000 20 ∷ sample 12 1_500_000_000 30 ∷ sample 11 1_500_000_000 30 ∷ []

abbrev snapshots_of : SpectrumAggregator → List (ℕ × ℕ × ℕ)
snapshots_of a = map places (flush_spectrum config a).core.snapshots

trusted_run :
    (snapshots_of (consume_samples false config new_spectrum_aggregator back_and_forth)
      ≡ (1, 10, 11) ∷ [])
    × (snapshots_of (consume_samples true config new_spectrum_aggregator back_and_forth)
        ≡ (1, 10, 12) ∷ [])
unfolding flush_spectrum consume_samples step_trusted find_trusted_window step_local
    window_for_sample incremental_window_for_sample can_use_incremental_window_index
    step_incremental restart exact_window_for_sample spectrum_bin_for_frequency
    first_sample_index_for_window divide_up advance ◌-ℤ◌
trusted_run = (refl, refl)

abbrev rising : List SignalSample
rising = sample 10 1_000_000_000 20 ∷ sample 12 1_500_000_000 30 ∷ sample 15 1_500_000_000 30 ∷ []

abbrev rising_blocks : List (List SignalSample)
rising_blocks = rising ∷ (sample 13 2_000_000_000 40 ∷ sample 18 2_500_000_000 50 ∷ []) ∷ []

consume_blocks-untrusted_example :
    ((consume_blocks false config new_spectrum_aggregator rising_blocks).core
      ≡ (consume_blocks false (untrusted config) new_spectrum_aggregator rising_blocks).core)
    × ((flush_spectrum config
          (consume_blocks false config new_spectrum_aggregator rising_blocks)).core
        ≡ (flush_spectrum
            (untrusted config)
            (consume_blocks false (untrusted config) new_spectrum_aggregator rising_blocks)).core)
unfolding has_valid_untrusted_sample
consume_blocks-untrusted_example =
    consume_blocks-untrusted false config rising_blocks refl
      ((refl, (refl, (refl, tt))), ((refl, (refl, tt)), tt))
      (λ _.
        ((omega arith, (omega arith, (omega arith, tt))), ((omega arith, (omega arith, tt)), tt)))

consume_samples-consume_spectrum_example :
    consume_samples false config new_spectrum_aggregator rising
    ≡ consume_spectrum config new_spectrum_aggregator rising
consume_samples-consume_spectrum_example =
    consume_samples-consume_spectrum false config new_spectrum_aggregator rising
      (refl, (refl, (refl, tt))) (omega arith, (omega arith, (omega arith, tt)))

-- The second window of the configuration starts at 14.
abbrev in_first : WindowState
in_first = record {
  window_index = some 0;
  next_window_start = some 14;
  last_sample_index = some 12;
  fallbacks = 0;
}

window_for_sample-returns_example :
    (r : WindowState × Option ℕ) × (window_for_sample max_u64 config.window in_first 900 ≡ some r)
    × HasNext r.0.window_index r.0.next_window_start
window_for_sample-returns_example =
    window_for_sample-returns max_u64 config.window in_first 900 (omega arith) (omega arith)
