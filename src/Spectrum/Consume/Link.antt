-- ===== src/Spectrum/Consume/Link.antt =====
-- A window that is updated sample by sample, and one with the accumulators of a block beside it, in
-- src/pipeline/spectrum_aggregator.cpp.
use sirius_scope.Prelude.{
  ℕ, zero, suc, min, max, ◌≤◌, ◌<◌, ◌≡◌, refl, ap, sym, subst, ◌∙◌, Bool, true, false, Option, none,
  some, List, [], ◌∷◌, length, length-set, length-replicate, get_or, set, replicate,
  get_or-set_self, get_or-set_ne, arith, ℕ_discrete, dec_lt, Bool-cases, inl, inr, if◌then◌else◌,
  if-elim, ltb, lt→ltb, ltb→lt, le→not-ltb,
}
use sirius_scope.Prelude.Int.{ℤ, pos, negsuc, pos_part}
use sirius_scope.Prelude.Touched.{
  Slots, get_or-replicate_self, inside-IsLinked, IsLinked-merge, update_at, touch,
}
use sirius_scope.Prelude.Touched
use sirius_scope.Domain.{SignalSample}
use sirius_scope.Spectrum.Bins.{
  SpectrumBin, LocalBins, LocalBinAccumulator, empty_bin, unused, max_u16, raise_bin,
  increment_bin_hits, clamp_bin_amplitude, update_bin, update_local_bin, merge_local_bins,
}
use sirius_scope.Spectrum.Bins.Local.{clean, update-IsLinked}
use sirius_scope.Spectrum.Bins.Local
use sirius_scope.Spectrum.Bands.{
  BandSlot, unused_band, is_band_used, merge_band_slot, update_band_slot, update_local_band_slot,
  has_band_slot, update_bands, update_local_bands, band-Agrees,
}
use sirius_scope.Spectrum.Consume.State.{SpectrumAggregatorConfig, OpenWindow, LocalAccumulation}
use sirius_scope.Spectrum.Consume.Snapshot.{open_spectrum_window, update_open_window_bounds}
use sirius_scope.Spectrum.Consume.Accumulation.{update_local_window_bounds, merge_bounds}
use sirius_scope.Spectrum.Consume.{accumulate}
use sirius_scope.Spectrum.Consume.Clean.{clean_bands, IsClean}

abbrev BandsLinked : List BandSlot → List BandSlot → Slots BandSlot → Type 0
BandsLinked base direct l =
    sirius_scope.Prelude.Touched.IsLinked is_band_used unused_band unused_band merge_band_slot base
      direct l

abbrev BinsLinked : List SpectrumBin → List SpectrumBin → LocalBins → Type 0
BinsLinked base direct l = sirius_scope.Spectrum.Bins.Local.IsLinked base direct l

abbrev Fits : List SpectrumBin → Type 0
Fits bins = (i : ℕ) → (get_or bins i empty_bin).hit_count ≤ max_u16

-- The window `d` is what the merge of the accumulators makes of `o`.
pub record IsLinkedWindow (c : SpectrumAggregatorConfig) (l : LocalAccumulation) (o d : OpenWindow)
    : Type 0 where
  pub index : o.window_index ≡ d.window_index
  pub bins : BinsLinked o.bins d.bins l.bins
  pub bin_size : length o.bins ≡ c.render_bin_count
  pub fits : Fits o.bins
  pub fits_direct : Fits d.bins
  pub bands : BandsLinked o.bands d.bands l.bands
  pub band_size : length o.bands ≡ c.band_capacity
  pub first : (merge_bounds l o).first_sample_index ≡ d.first_sample_index
  pub last : (merge_bounds l o).last_sample_index ≡ d.last_sample_index
  pub has : (merge_bounds l o).has_samples ≡ d.has_samples

replicate-Fits : (n : ℕ) → Fits (replicate n empty_bin)
replicate-Fits n i = rw (get_or-replicate_self n i empty_bin) (omega arith)

merge-none : (l : LocalAccumulation) (o : OpenWindow) → l.has_samples ≡ false → merge_bounds l o ≡ o
merge-none l o h = rw (h) refl

not-both : true ≡ false → ⊥
not-both e = cc

-- Sizes and hits of a window that is open between two blocks.
pub record IsSized (c : SpectrumAggregatorConfig) (o : OpenWindow) : Type 0 where
  pub bin_size : length o.bins ≡ c.render_bin_count
  pub band_size : length o.bands ≡ c.band_capacity
  pub fits : Fits o.bins

pub clean-IsLinkedWindow :
    (c : SpectrumAggregatorConfig) (l : LocalAccumulation) (o : OpenWindow)
    → IsClean c l
    → IsSized c o
    → IsLinkedWindow c l o o
clean-IsLinkedWindow c l o h s = record {
  index = refl;
  bins =
      subst (BinsLinked o.bins o.bins) (ap clean s.bin_size ∙ sym h.bins)
        (sirius_scope.Spectrum.Bins.Local.clean-IsLinked o.bins s.fits);
  bin_size = s.bin_size;
  fits = s.fits;
  fits_direct = s.fits;
  bands = subst (BandsLinked o.bands o.bands) (ap clean_bands s.band_size ∙ sym h.bands) (
      sirius_scope.Prelude.Touched.clean-IsLinked is_band_used unused_band unused_band
        merge_band_slot o.bands refl);
  band_size = s.band_size;
  first = ap (λ w. w.first_sample_index) (merge-none l o h.empty);
  last = ap (λ w. w.last_sample_index) (merge-none l o h.empty);
  has = ap (λ w. w.has_samples) (merge-none l o h.empty);
}

pub open-IsSized :
    (c : SpectrumAggregatorConfig) (window sample : ℕ)
    → IsSized c (open_spectrum_window c window sample)
unfolding open_spectrum_window
open-IsSized c window sample = record {
  bin_size = length-replicate c.render_bin_count empty_bin;
  band_size = length-replicate c.band_capacity unused_band;
  fits = replicate-Fits c.render_bin_count;
}

-- The bounds after one more sample, merged or direct.
bounds-next :
    (l : LocalAccumulation) (o d : OpenWindow) (sample : ℕ)
    → (merge_bounds l o).first_sample_index ≡ d.first_sample_index
    → (merge_bounds l o).last_sample_index ≡ d.last_sample_index
    → ((merge_bounds (update_local_window_bounds l sample) o).first_sample_index
        ≡ min d.first_sample_index sample)
      × ((merge_bounds (update_local_window_bounds l sample) o).last_sample_index
          ≡ max d.last_sample_index sample)
      × ((merge_bounds (update_local_window_bounds l sample) o).has_samples ≡ true)
unfolding update_local_window_bounds
bounds-next l o d sample e e' = (ground arith, ground arith, ground arith)

raise-fits :
    (b : Bool) (s : SignalSample) (bin : SpectrumBin)
    → bin.hit_count ≤ max_u16
    → (raise_bin b s bin).hit_count ≤ max_u16
unfolding raise_bin increment_bin_hits
raise-fits b s bin h = ground arith

update-Fits :
    (b : Bool) (bins : List SpectrumBin) (s : SignalSample) (i : ℕ)
    → Fits bins
    → Fits (update_bin b bins s i)
unfolding update_bin
update-Fits b bins s i h j =
    if-elim (λ xs. (get_or xs j empty_bin).hit_count ≤ max_u16) (ltb i (length bins)) _ bins
      (λ below. elim (ℕ_discrete i j) [
        | yes e ↦
            subst
              (λ k.
                (get_or (set bins i (raise_bin b s (get_or bins i empty_bin))) k
                  empty_bin).hit_count
                ≤ max_u16)
              e
              (rw
                (get_or-set_self bins i (raise_bin b s (get_or bins i empty_bin)) empty_bin
                  (ltb→lt i (length bins) below))
                (raise-fits b s (get_or bins i empty_bin) (h i)))
        | no ne ↦
            rw (get_or-set_ne bins i j (raise_bin b s (get_or bins i empty_bin)) empty_bin ne) (h j)
      ])
      λ _. h j

-- A band in a place of both lists, or in none.
bands-next :
    (b : Bool) (base direct : List BandSlot) (l : Slots BandSlot) (s : SignalSample) (band : ℤ)
    → s.band_index ≡ band
    → BandsLinked base direct l
    → BandsLinked base
        (if has_band_slot (length direct) band
          then update_at (update_band_slot b s) unused_band direct (pos_part band)
          else direct)
        (if has_band_slot (length l.local) band
          then touch is_band_used unused_band unused_band merge_band_slot
              (update_local_band_slot b s)
              l
              (pos_part band)
          else l)
bands-next b base direct l s (negsuc n) e h = h
bands-next b base direct l s (pos n) e h = elim (dec_lt n (length base)) [
  | yes below ↦
      rw
        (
          lt→ltb n (length direct) (omega (arith, h.direct_size, below)),
          lt→ltb n (length l.local) (omega (arith, h.local_size, below)),
        )
        (inside-IsLinked is_band_used unused_band unused_band merge_band_slot (update_band_slot b s)
          (update_local_band_slot b s) base direct l n (band-Agrees b s) below h)
  | no above ↦
      rw
        (
          le→not-ltb n (length direct) (omega (arith, h.direct_size, above)),
          le→not-ltb n (length l.local) (omega (arith, h.local_size, above)),
        )
        h
]

-- The window `d` after a sample.
abbrev with_sample : SpectrumAggregatorConfig → SignalSample → ℕ → OpenWindow → OpenWindow
with_sample c s bin o =
    let o' = update_open_window_bounds o s.sample_index in
    record o' {
      bins = update_bin c.separate_beams o'.bins s bin;
      bands = update_bands c.separate_beams o'.bands s;
    }

local-fields :
    (l : LocalAccumulation) (sample : ℕ)
    → ((update_local_window_bounds l sample).bins ≡ l.bins)
      × ((update_local_window_bounds l sample).bands ≡ l.bands)
unfolding update_local_window_bounds
local-fields l sample = (
  if-elim (λ (k : LocalAccumulation). k.bins ≡ l.bins) l.has_samples _ _ (λ _. refl) (λ _. refl),
  if-elim (λ (k : LocalAccumulation). k.bands ≡ l.bands) l.has_samples _ _ (λ _. refl) (λ _. refl),
)

pub sample-IsLinkedWindow :
    (c : SpectrumAggregatorConfig) (l : LocalAccumulation) (o d : OpenWindow) (s : SignalSample)
    (bin : ℕ)
    → IsLinkedWindow c l o d
    → IsLinkedWindow c (accumulate c l s bin) o (with_sample c s bin d)
unfolding update_open_window_bounds update_bands update_local_bands
sample-IsLinkedWindow c l o d s bin h =
    let (e, e') = local-fields l s.sample_index in
    let (f, f', has) = bounds-next l o d s.sample_index h.first h.last in
    let l' = update_local_window_bounds l s.sample_index in
    record {
      index = h.index;
      bins =
          update-IsLinked c.separate_beams o.bins d.bins l'.bins s bin
            (subst (BinsLinked o.bins d.bins) (sym e) h.bins);
      bin_size = h.bin_size;
      fits = h.fits;
      fits_direct = update-Fits c.separate_beams d.bins s bin h.fits_direct;
      bands =
          bands-next c.separate_beams o.bands d.bands l'.bands s s.band_index refl
            (subst (BandsLinked o.bands d.bands) (sym e') h.bands);
      band_size = h.band_size;
      first = f;
      last = f';
      has = has;
    }
