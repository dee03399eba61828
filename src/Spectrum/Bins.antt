-- ===== src/Spectrum/Bins.antt =====
-- The bins of a spectrum window in src/pipeline/spectrum_aggregator.cpp: `updateBinForSample`, and
-- `updateLocalBinForSample` with the part of `mergeLocalAccumulationIntoOpenWindow` that merges the
-- bins, for the windows that are accumulated block by block.
pub mod Merge
pub mod Local
use sirius_scope.Prelude.{
  ℕ, ◌+◌, ◌-◌, ◌^◌, min, max, Bool, true, false, not, ◌&&◌, List, [], ◌∷◌, ◌++◌, length, get_or,
  set, ltb, ◌==◌, if◌then◌else◌,
}
use sirius_scope.Prelude.Int.{ℤ, pos, negsuc, pos_part}
use sirius_scope.Domain.{SignalSample, is_beam}

pub record SpectrumBin : Type 0 where
  pub beam0_peak : ℕ
  pub beam1_peak : ℕ
  pub total_peak : ℕ
  pub hit_count : ℕ

-- The accumulator of a bin for one block.
pub record LocalBinAccumulator : Type 0 where
  pub bin : SpectrumBin
  pub used : Bool

-- `m_localBins` and `m_touchedBins`.
pub record LocalBins : Type 0 where
  pub local_bins : List LocalBinAccumulator
  pub touched_bins : List ℕ

abbrev pub empty_bin : SpectrumBin
empty_bin = record { beam0_peak = 0; beam1_peak = 0; total_peak = 0; hit_count = 0 }

abbrev pub unused : LocalBinAccumulator
unused = record { bin = empty_bin; used = false }

abbrev pub max_u16 : ℕ
max_u16 = 2 ^ 16 - 1

unfoldable pub clamp_bin_amplitude : ℤ → ℕ
clamp_bin_amplitude amplitude = min (pos_part amplitude) max_u16

unfoldable pub increment_bin_hits : SpectrumBin → SpectrumBin
increment_bin_hits bin =
    if ltb bin.hit_count max_u16 then record bin { hit_count = bin.hit_count + 1 } else bin

unfoldable pub saturated_add_hit_count : ℕ → ℕ → ℕ
saturated_add_hit_count left right = if ltb (max_u16 - right) left then max_u16 else left + right

-- The lines that both ways share: the peaks of a bin, and its hits. `separate_beams` is that of the
-- configuration.
unfoldable pub raise_bin : Bool → SignalSample → SpectrumBin → SpectrumBin
unfolding increment_bin_hits
raise_bin separate_beams s bin =
    let amplitude = clamp_bin_amplitude s.amplitude in
    let total = record bin { total_peak = max bin.total_peak amplitude } in
    if separate_beams && is_beam 0 s.beam_index
    then increment_bin_hits (record total { beam0_peak = max bin.beam0_peak amplitude })
    else if separate_beams && is_beam 1 s.beam_index
    then increment_bin_hits (record total { beam1_peak = max bin.beam1_peak amplitude })
    else increment_bin_hits total

-- `updateBinForSample` on the bins of the open window.
unfoldable pub update_bin : Bool → List SpectrumBin → SignalSample → ℕ → List SpectrumBin
unfolding raise_bin
update_bin separate_beams bins s i =
    if ltb i (length bins)
    then set bins i (raise_bin separate_beams s (get_or bins i empty_bin))
    else bins

unfoldable pub update_local_bin : Bool → LocalBins → SignalSample → ℕ → LocalBins
unfolding raise_bin
update_local_bin separate_beams l s i =
    let acc = get_or l.local_bins i unused in
    if ltb i (length l.local_bins)
    then record {
      local_bins =
          set l.local_bins i (record { bin = raise_bin separate_beams s acc.bin; used = true });
      touched_bins = if acc.used then l.touched_bins else l.touched_bins ++ i ∷ [];
    }
    else l

unfoldable pub merge_bin : SpectrumBin → SpectrumBin → SpectrumBin
unfolding saturated_add_hit_count
merge_bin dst local = record {
  beam0_peak = max dst.beam0_peak local.beam0_peak;
  beam1_peak = max dst.beam1_peak local.beam1_peak;
  total_peak = max dst.total_peak local.total_peak;
  hit_count = saturated_add_hit_count dst.hit_count local.hit_count;
}

-- One round of the loop over `m_touchedBins`.
unfoldable pub merge_touched_bin :
    List LocalBinAccumulator → List SpectrumBin → ℕ → List SpectrumBin
unfolding merge_bin
merge_touched_bin locals bins i =
    let acc = get_or locals i unused in
    if ltb i (length locals) && ltb i (length bins) && acc.used
    then set bins i (merge_bin (get_or bins i empty_bin) acc.bin)
    else bins

abbrev pub merge_touched_bins :
    List LocalBinAccumulator → List SpectrumBin → List ℕ → List SpectrumBin
merge_touched_bins locals bins [] = bins
merge_touched_bins locals bins (i ∷ is) =
    merge_touched_bins locals (merge_touched_bin locals bins i) is

unfoldable pub merge_local_bins : LocalBins → List SpectrumBin → List SpectrumBin
merge_local_bins l bins = merge_touched_bins l.local_bins bins l.touched_bins
