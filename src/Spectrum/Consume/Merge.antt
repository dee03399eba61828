-- ===== src/Spectrum/Consume/Merge.antt =====
-- The merge of the accumulators of a block in src/pipeline/spectrum_aggregator.cpp into the open
-- window.
use sirius_scope.Prelude.{
  ◌≡◌, refl, ap, ◌∙◌, false, some, List, length, get_or, arith, Bool-cases, inl, inr,
}
use sirius_scope.Prelude.Touched.{IsLinked-merge}
use sirius_scope.Spectrum.Bins.{
  SpectrumBin, LocalBins, LocalBinAccumulator, empty_bin, unused, max_u16, raise_bin,
  increment_bin_hits, clamp_bin_amplitude, update_bin, update_local_bin, merge_local_bins,
}
use sirius_scope.Spectrum.Bins.Local.{clean, update-IsLinked}
use sirius_scope.Spectrum.Bins.Local
use sirius_scope.Spectrum.Bands.{
  BandSlot, unused_band, is_band_used, merge_band_slot, merge_local_bands,
}
use sirius_scope.Spectrum.Consume.State.{SpectrumAggregatorConfig, OpenWindow, LocalAccumulation}
use sirius_scope.Spectrum.Consume.Accumulation.{merge_bounds, merge_into}
use sirius_scope.Spectrum.Consume.Clean.{IsListed}
use sirius_scope.Spectrum.Consume.Link.{IsLinkedWindow, IsSized}

window-ext :
    (x y : OpenWindow)
    → x.window_index ≡ y.window_index
    → x.first_sample_index ≡ y.first_sample_index
    → x.last_sample_index ≡ y.last_sample_index
    → x.bins ≡ y.bins
    → x.bands ≡ y.bands
    → x.has_samples ≡ y.has_samples
    → x ≡ y
window-ext x y e1 e2 e3 e4 e5 e6 = cc

merge-fields :
    (l : LocalAccumulation) (o : OpenWindow) (bins : List SpectrumBin) (bands : List BandSlot)
    → let m = merge_bounds l (record o { bins = bins; bands = bands }) in
      (m.window_index ≡ o.window_index)
      × (m.first_sample_index ≡ (merge_bounds l o).first_sample_index)
      × (m.last_sample_index ≡ (merge_bounds l o).last_sample_index)
      × (m.bins ≡ bins)
      × (m.bands ≡ bands)
      × (m.has_samples ≡ (merge_bounds l o).has_samples)
merge-fields l o bins bands = elim (Bool-cases l.has_samples) [
  | inl yes' ↦ rw (yes') (refl, refl, refl, refl, refl, refl)
  | inr no' ↦ rw (no') (refl, refl, refl, refl, refl, refl)
]

-- The merge makes the one of the other.
pub merge-IsLinkedWindow :
    (c : SpectrumAggregatorConfig) (l : LocalAccumulation) (o d : OpenWindow)
    → IsLinkedWindow c l o d
    → merge_into l (some o) ≡ some d
unfolding merge_local_bands
merge-IsLinkedWindow c l o d h =
    let bins = merge_local_bins l.bins o.bins in
    let bands = merge_local_bands l.bands o.bands in
    let (e1, e2, e3, e4, e5, e6) = merge-fields l o bins bands in
    ap some (
      window-ext (merge_bounds l (record o { bins = bins; bands = bands })) d (e1 ∙ h.index)
        (e2 ∙ h.first) (e3 ∙ h.last)
        (e4 ∙ sirius_scope.Spectrum.Bins.Local.IsLinked-merge o.bins d.bins l.bins h.fits h.bins)
        (e5
          ∙ IsLinked-merge is_band_used unused_band unused_band merge_band_slot o.bands d.bands
              l.bands h.bands)
        (e6 ∙ h.has))

bin-ext : (acc : LocalBinAccumulator) → acc.used ≡ false → acc.bin ≡ empty_bin → acc ≡ unused
bin-ext acc e e' = cc

pub IsLinkedWindow-IsListed :
    (c : SpectrumAggregatorConfig) (l : LocalAccumulation) (o d : OpenWindow)
    → IsLinkedWindow c l o d
    → (length l.bins.local_bins ≡ c.render_bin_count)
      × (length l.bands.local ≡ c.band_capacity)
      × IsListed l
IsLinkedWindow-IsListed c l o d h = (
  h.bins.local_size ∙ h.bin_size,
  h.bands.local_size ∙ h.band_size,
  record {
    bins = λ i z. elim (Bool-cases (get_or l.bins.local_bins i unused).used) [
      | inl yes' ↦ absurd (omega (arith, (h.bins.touched i yes').0, z))
      | inr no' ↦ bin-ext (get_or l.bins.local_bins i unused) no' (h.bins.untouched i no').1
    ];
    bands = λ i z. elim (Bool-cases (get_or l.bands.local i unused_band).used) [
      | inl yes' ↦ absurd (omega (arith, (h.bands.once i yes').0, z))
      | inr no' ↦ (h.bands.fresh i no').1
    ];
  },
)

-- The window after a merge is one that is open between two blocks.
pub IsLinkedWindow-IsSized :
    (c : SpectrumAggregatorConfig) (l : LocalAccumulation) (o d : OpenWindow)
    → IsLinkedWindow c l o d
    → IsSized c d
IsLinkedWindow-IsSized c l o d h = record {
  bin_size = h.bins.direct_size ∙ h.bin_size;
  band_size = h.bands.direct_size ∙ h.band_size;
  fits = h.fits_direct;
}
