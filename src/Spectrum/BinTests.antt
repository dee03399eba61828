-- ===== src/Spectrum/BinTests.antt =====
-- A run of the bins of a block, and an instance of the theorem on their merge.
use sirius_scope.Prelude.{ℕ, zero, suc, ◌≤◌, ◌≡◌, refl, true, List, [], ◌∷◌, get_or, arith}
use sirius_scope.Prelude.Int.{pos}
use sirius_scope.Domain.{SignalSample}
use sirius_scope.Spectrum.Bins.{
  SpectrumBin, empty_bin, max_u16, merge_local_bins, update_bin, raise_bin, increment_bin_hits,
  clamp_bin_amplitude,
}
use sirius_scope.Spectrum.Bins.Local.{
  update_bins, update_local_bins, clean, merge_local_bins-update_local_bins,
}

abbrev sample : ℕ → ℕ → SignalSample
sample amplitude beam = record {
  sample_index = 3;
  band_index = pos 0;
  frequency_offset_hz = pos 0;
  absolute_frequency_hz = pos 1_000;
  amplitude = pos amplitude;
  beam_index = pos beam;
}

-- The second bin has seen as many hits as it can count.
abbrev bins : List SpectrumBin
bins =
    empty_bin ∷ record { beam0_peak = 9; beam1_peak = 0; total_peak = 9; hit_count = max_u16 } ∷ []

abbrev block : List (SignalSample × ℕ)
block = (sample 5 0, 0) ∷ (sample 20 1, 1) ∷ (sample 7 1, 0) ∷ (sample 8 0, 4) ∷ []

bins_run :
    update_bins true bins block
    ≡ record { beam0_peak = 5; beam1_peak = 7; total_peak = 7; hit_count = 2 }
      ∷ record { beam0_peak = 9; beam1_peak = 20; total_peak = 20; hit_count = max_u16 }
      ∷ []
unfolding update_bin raise_bin increment_bin_hits clamp_bin_amplitude
bins_run = refl

bins-fit : (i : ℕ) → (get_or bins i empty_bin).hit_count ≤ max_u16
bins-fit zero = omega arith
bins-fit (suc zero) = omega arith
bins-fit (suc (suc i)) = omega arith

merge_local_bins-update_local_bins_example :
    merge_local_bins (update_local_bins true (clean 2) block) bins ≡ update_bins true bins block
merge_local_bins-update_local_bins_example =
    merge_local_bins-update_local_bins true bins block bins-fit
