-- ===== src/Spectrum/Consume/Clean.antt =====
-- The accumulators of a block after `resetLocalAccumulationTouched` of
-- src/pipeline/spectrum_aggregator.cpp.
use sirius_scope.Prelude.{
  ℕ, zero, suc, ◌≡◌, refl, ap, sym, subst, ◌∙◌, false, List, [], ◌∷◌, length, length-set,
  length-replicate, get_or, set, replicate, get_or-set_ne, arith, ℕ_discrete, Bool-cases, inl, inr,
  ◌==◌, if◌then◌else◌, if-elim, ==_iff,
}
use sirius_scope.Prelude.Counts.{count}
use sirius_scope.Prelude.Touched.{Slots, get_or-ext, get_or-replicate_self}
use sirius_scope.Spectrum.Bins.{unused}
use sirius_scope.Spectrum.Bins.Local.{clean}
use sirius_scope.Spectrum.Bands.{BandSlot, unused_band}
use sirius_scope.Spectrum.Consume.State.{SpectrumAggregatorConfig, LocalAccumulation}
use sirius_scope.Spectrum.Consume.Accumulation.{
  reset_touched, reset_local_accumulation, resize_buffers, prepare_local_accumulation,
}

module _ {B : Type 0} where
  set-default : (xs : List B) (i : ℕ) (d : B) → get_or (set xs i d) i d ≡ d
  set-default [] i d = refl
  set-default (x ∷ xs) zero d = refl
  set-default (x ∷ xs) (suc i) d = set-default xs i d

  reset-length : (d : B) (xs : List B) (is : List ℕ) → length (reset_touched d xs is) ≡ length xs
  reset-length d xs [] = refl
  reset-length d xs (i ∷ is) = reset-length d (set xs i d) is ∙ length-set xs i d

  reset-default :
      (d : B) (xs : List B) (is : List ℕ)
      → ((i : ℕ) → count i is ≡ 0 → get_or xs i d ≡ d)
      → (i : ℕ) → get_or (reset_touched d xs is) i d ≡ d
  reset-default d xs [] h i = h i refl
  reset-default d xs (k ∷ ks) h i =
      reset-default d (set xs k d) ks
        (λ j c. elim (ℕ_discrete k j) [
          | yes e ↦ subst (λ x. get_or (set xs k d) x d ≡ d) e (set-default xs k d)
          | no ne ↦ get_or-set_ne xs k j d d ne ∙ h j (ground (arith, c, ne))
        ])
        i

  -- All that is not listed is clear, so that the reset clears all.
  pub reset_touched-clear :
      (d : B) (xs : List B) (is : List ℕ) (n : ℕ)
      → length xs ≡ n
      → ((i : ℕ) → count i is ≡ 0 → get_or xs i d ≡ d)
      → reset_touched d xs is ≡ replicate n d
  reset_touched-clear d xs is n len h =
      get_or-ext d _ _ (reset-length d xs is ∙ len ∙ sym (length-replicate n d))
        (λ i. reset-default d xs is h i ∙ sym (get_or-replicate_self n i d))

abbrev pub clean_bands : ℕ → Slots BandSlot
clean_bands n = record { local = replicate n unused_band; touched = [] }

-- Accumulators of the right sizes with nothing in them.
pub record IsClean (c : SpectrumAggregatorConfig) (l : LocalAccumulation) : Type 0 where
  pub bins : l.bins ≡ clean c.render_bin_count
  pub bands : l.bands ≡ clean_bands c.band_capacity
  pub empty : l.has_samples ≡ false

-- What is in use is listed.
pub record IsListed (l : LocalAccumulation) : Type 0 where
  pub bins : (i : ℕ) → count i l.bins.touched_bins ≡ 0 → get_or l.bins.local_bins i unused ≡ unused
  pub bands :
      (i : ℕ) → count i l.bands.touched ≡ 0 → get_or l.bands.local i unused_band ≡ unused_band

pub reset-IsClean :
    (c : SpectrumAggregatorConfig) (l : LocalAccumulation)
    → length l.bins.local_bins ≡ c.render_bin_count
    → length l.bands.local ≡ c.band_capacity
    → IsListed l
    → IsClean c (reset_local_accumulation l)
unfolding reset_local_accumulation
reset-IsClean c l e e' h = record {
  bins =
      ap (λ xs. record { local_bins = xs; touched_bins = [] })
        (reset_touched-clear unused l.bins.local_bins l.bins.touched_bins c.render_bin_count e
          h.bins);
  bands =
      ap (λ xs. record { local = xs; touched = [] })
        (reset_touched-clear unused_band l.bands.local l.bands.touched c.band_capacity e' h.bands);
  empty = refl;
}

pub IsClean-IsListed :
    (c : SpectrumAggregatorConfig) (l : LocalAccumulation)
    → IsClean c l
    → (length l.bins.local_bins ≡ c.render_bin_count)
      × (length l.bands.local ≡ c.band_capacity)
      × IsListed l
IsClean-IsListed c l h = (
  ap (λ b. length b.local_bins) h.bins ∙ length-replicate c.render_bin_count unused,
  ap (λ b. length b.local) h.bands ∙ length-replicate c.band_capacity unused_band,
  record {
    bins = λ i z.
        ap (λ b. get_or b.local_bins i unused) h.bins
        ∙ get_or-replicate_self c.render_bin_count i unused;
    bands = λ i z.
        ap (λ b. get_or b.local i unused_band) h.bands
        ∙ get_or-replicate_self c.band_capacity i unused_band;
  },
)

sized :
    {B : Type 0} (d : B) (xs : List B) (n : ℕ)
    → length (if length xs == n then xs else replicate n d) ≡ n
sized d xs n = elim (Bool-cases (length xs == n)) [
  | inl yes' ↦ rw (yes') ((==_iff (length xs) n).0 yes')
  | inr no' ↦ rw (no') (length-replicate n d)
]

listed :
    {B : Type 0} (d : B) (xs : List B) (n i : ℕ)
    → get_or xs i d ≡ d
    → get_or (if length xs == n then xs else replicate n d) i d ≡ d
listed d xs n i h =
    if-elim (λ ys. get_or ys i d ≡ d) (length xs == n) xs (replicate n d) (λ _. h)
      λ _. get_or-replicate_self n i d

pub prepare-IsClean :
    (c : SpectrumAggregatorConfig) (l : LocalAccumulation)
    → IsListed l
    → IsClean c (prepare_local_accumulation c l)
unfolding prepare_local_accumulation
prepare-IsClean c l h =
    reset-IsClean c (resize_buffers c l) (sized unused l.bins.local_bins c.render_bin_count)
      (sized unused_band l.bands.local c.band_capacity)
      (record {
        bins = λ i z. listed unused l.bins.local_bins c.render_bin_count i (h.bins i z);
        bands = λ i z. listed unused_band l.bands.local c.band_capacity i (h.bands i z);
      })
