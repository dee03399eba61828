-- ===== src/Spectrum/Bands.antt =====
-- The summaries of the bands of a spectrum window in src/pipeline/spectrum_aggregator.cpp. A place
-- of `bandSummaryVector` stands with its flag of `bandSummaryUsed`, which has the same length. The
-- number of the samples of a band is not bounded by 64 bits here.
use sirius_scope.Prelude.{
  ℕ, ◌+◌, max, refl, Bool, true, false, ◌&&◌, List, [], ◌∷◌, length, ltb, if◌then◌else◌, arith,
}
use sirius_scope.Prelude.Int.{ℤ, pos, negsuc, pos_part}
use sirius_scope.Prelude.Touched.{Slots, update_at, touch, merge_all, Agrees}
use sirius_scope.Domain.{SignalSample, is_beam}
use sirius_scope.Spectrum.Bins.{clamp_bin_amplitude}

pub record SpectrumBandSummary : Type 0 where
  pub band_index : ℤ
  pub sample_count : ℕ
  pub beam0_peak : ℕ
  pub beam1_peak : ℕ
  pub total_peak : ℕ

-- A place for a band, of the window or of the accumulators of a block.
pub record BandSlot : Type 0 where
  pub summary : SpectrumBandSummary
  pub used : Bool

abbrev pub no_summary : SpectrumBandSummary
no_summary = record {
  band_index = pos 0;
  sample_count = 0;
  beam0_peak = 0;
  beam1_peak = 0;
  total_peak = 0;
}

abbrev pub unused_band : BandSlot
unused_band = record { summary = no_summary; used = false }

-- The lines that all three ways share.
unfoldable pub raise_summary : Bool → SignalSample → SpectrumBandSummary → SpectrumBandSummary
raise_summary separate_beams s summary =
    let amplitude = clamp_bin_amplitude s.amplitude in
    let total = record summary {
      sample_count = summary.sample_count + 1;
      total_peak = max summary.total_peak amplitude;
    } in
    if separate_beams && is_beam 0 s.beam_index
    then record total { beam0_peak = max summary.beam0_peak amplitude }
    else if separate_beams && is_beam 1 s.beam_index
    then record total { beam1_peak = max summary.beam1_peak amplitude }
    else total

-- The summary of a place, which is made where the place is not in use.
abbrev pub summary_in : ℤ → BandSlot → SpectrumBandSummary
summary_in band slot = if slot.used then slot.summary else record no_summary { band_index = band }

unfoldable pub update_band_slot : Bool → SignalSample → BandSlot → BandSlot
unfolding raise_summary
update_band_slot separate_beams s slot = record {
  summary = raise_summary separate_beams s (summary_in s.band_index slot);
  used = true;
}

abbrev pub local_summary_in : ℤ → BandSlot → SpectrumBandSummary
local_summary_in band slot =
    if slot.used then slot.summary else record slot.summary { band_index = band }

unfoldable pub update_local_band_slot : Bool → SignalSample → BandSlot → BandSlot
unfolding raise_summary
update_local_band_slot separate_beams s slot = record {
  summary = raise_summary separate_beams s (local_summary_in s.band_index slot);
  used = true;
}

unfoldable pub merge_summary : SpectrumBandSummary → SpectrumBandSummary → SpectrumBandSummary
merge_summary dst local = record {
  band_index = dst.band_index;
  sample_count = dst.sample_count + local.sample_count;
  beam0_peak = max dst.beam0_peak local.beam0_peak;
  beam1_peak = max dst.beam1_peak local.beam1_peak;
  total_peak = max dst.total_peak local.total_peak;
}

unfoldable pub merge_band_slot : BandSlot → BandSlot → BandSlot
unfolding merge_summary
merge_band_slot dst local = record {
  summary = merge_summary (summary_in local.summary.band_index dst) local.summary;
  used = true;
}

abbrev pub is_band_used : BandSlot → Bool
is_band_used slot = slot.used

-- `hasFixedBandSummarySlot` in fixed storage.
abbrev pub has_band_slot : ℕ → ℤ → Bool
has_band_slot capacity (pos n) = ltb n capacity
has_band_slot capacity (negsuc n) = false

-- `updateBandSummaryForSample` on the fixed places.
unfoldable pub update_bands : Bool → List BandSlot → SignalSample → List BandSlot
unfolding update_band_slot
update_bands separate_beams bands s =
    if has_band_slot (length bands) s.band_index
    then update_at (update_band_slot separate_beams s) unused_band bands (pos_part s.band_index)
    else bands

unfoldable pub update_local_bands : Bool → Slots BandSlot → SignalSample → Slots BandSlot
unfolding update_local_band_slot
update_local_bands separate_beams l s =
    if has_band_slot (length l.local) s.band_index
    then touch is_band_used unused_band unused_band merge_band_slot
        (update_local_band_slot separate_beams s) l (pos_part s.band_index)
    else l

-- The loop over `m_touchedBands`.
unfoldable pub merge_local_bands : Slots BandSlot → List BandSlot → List BandSlot
unfolding merge_band_slot
merge_local_bands l bands =
    merge_all is_band_used unused_band unused_band merge_band_slot l.local bands l.touched

-- The summaries in use, in the order of the bands.
unfoldable pub used_summaries : List BandSlot → List SpectrumBandSummary
used_summaries [] = []
used_summaries (slot ∷ slots) =
    let rest = used_summaries slots in if slot.used then slot.summary ∷ rest else rest

pub band-Agrees :
    (separate_beams : Bool) (s : SignalSample)
    → Agrees is_band_used unused_band unused_band merge_band_slot
        (update_band_slot separate_beams s)
        (update_local_band_slot separate_beams s)
unfolding update_band_slot update_local_band_slot merge_band_slot merge_summary raise_summary
band-Agrees b s = record {
  uses = λ slot. refl;
  used_first = λ a. ground arith;
  used_again = λ a slot u. ground arith;
}
