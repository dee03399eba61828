-- ===== src/Spectrum/Consume/Trusted/Loop.antt =====
-- The loop of `consumeTrustedBlockLocalFast` of src/pipeline/spectrum_aggregator.cpp, and that of
-- `consume` where a block is accumulated apart.
use sirius_scope.Prelude.{
  ℕ, ◌+◌, ◌≤◌, ◌≡◌, refl, ap, ◌∙◌, Bool, true, false, not, ◌&&◌, Option, none, some, List, [], ◌∷◌,
  ltb, All, Bool-cases, inl, inr, arith, ◌==◌,
}
use sirius_scope.Prelude.Int.{pos_part, neg_part, ltb_ℤ, leb_ℤ}
use sirius_scope.Domain.{SignalSample}
use sirius_scope.Spectrum.Window.{can_use_incremental_window_index}
use sirius_scope.Spectrum.Bins.{update_local_bin}
use sirius_scope.Spectrum.Bands.{update_local_bands}
use sirius_scope.Spectrum.Consume.State.{
  OpenWindow, SpectrumAggregatorConfig, LocalAccumulation, SpectrumAggregator,
}
use sirius_scope.Spectrum.Consume.Judge.{
  Verdict, invalid, out_of_range, ignored, placed, judge_sample,
}
use sirius_scope.Spectrum.Consume.Accumulation.{
  prepare_local_accumulation, merge_local_accumulation, update_local_window_bounds,
  reset_local_accumulation,
}
use sirius_scope.Spectrum.Consume.{
  count_consumed, accumulate, enter_local, place_local, apply_local, step_local, loop_local,
  uses_block_local_fast_path, consume_spectrum,
}
use sirius_scope.Spectrum.Consume.Trusted.{
  can_use_fast_bin_index, uses_trusted_block_local_fast_path, update_trusted_window_bounds,
  accumulate_trusted, place_trusted, apply_trusted, step_trusted, loop_trusted, consume_samples,
}
use sirius_scope.Spectrum.Consume.Trusted.Agree.{both, all_four, ltb-leb, IsPositive, judge-trusted}

module _ (l : LocalAccumulation) (n sample : ℕ) where
  bounds-trusted :
      l.first_sample_index ≤ n
      → l.last_sample_index ≤ n
      → n ≤ sample
      → update_trusted_window_bounds l sample ≡ update_local_window_bounds l sample
  unfolding update_trusted_window_bounds update_local_window_bounds
  bounds-trusted p q r = ground arith

  bounds-first :
      l.first_sample_index ≤ n
      → n ≤ sample
      → (update_local_window_bounds l sample).first_sample_index ≤ sample
  unfolding update_local_window_bounds
  bounds-first p r = ground arith

  bounds-last :
      l.last_sample_index ≤ n
      → n ≤ sample
      → (update_local_window_bounds l sample).last_sample_index ≤ sample
  unfolding update_local_window_bounds
  bounds-last p r = ground arith

-- The bounds of the accumulators, of which both are 0 where nothing is accumulated.
abbrev IsWithin : ℕ → LocalAccumulation → Type 0
IsWithin n l = (l.first_sample_index ≤ n) × (l.last_sample_index ≤ n)

enter-IsWithin :
    (c : SpectrumAggregatorConfig) (a : SpectrumAggregator) (window sample n : ℕ)
    (o : Option OpenWindow)
    → IsWithin n a.local
    → IsWithin n (enter_local c a window sample o).local
unfolding merge_local_accumulation reset_local_accumulation
enter-IsWithin c a window sample n none h = h
enter-IsWithin c a window sample n (some o) h = elim (Bool-cases (o.window_index == window)) [
  | inl yes' ↦ rw yes' h
  | inr no' ↦ rw no' (omega arith, omega arith)
]

accumulate-trusted :
    (c : SpectrumAggregatorConfig) (l : LocalAccumulation) (s : SignalSample) (bin n : ℕ)
    → IsWithin n l
    → n ≤ s.sample_index
    → accumulate_trusted c l s bin ≡ accumulate c l s bin
accumulate-trusted c l s bin n (p, q) r =
    ap
      (λ (l' : LocalAccumulation). record l' {
        bins = update_local_bin c.separate_beams l'.bins s bin;
        bands = update_local_bands c.separate_beams l'.bands s;
      })
      (bounds-trusted l n s.sample_index p q r)

apply-trusted :
    (c : SpectrumAggregatorConfig) (a : SpectrumAggregator) (s : SignalSample) (verdict : Verdict)
    (n : ℕ)
    → IsWithin n a.local
    → n ≤ s.sample_index
    → (apply_trusted c a s verdict ≡ apply_local c a s verdict)
      × IsWithin s.sample_index (apply_local c a s verdict).local
unfolding place_trusted place_local
apply-trusted c a s invalid n (p, q) r = (refl, (omega (arith, p), omega (arith, q)))
apply-trusted c a s out_of_range n (p, q) r = (refl, (omega (arith, p), omega (arith, q)))
apply-trusted c a s ignored n (p, q) r = (refl, (omega (arith, p), omega (arith, q)))
apply-trusted c a s (placed window bin) n h r =
    let b = enter_local c a window s.sample_index a.core.open_window in
    let (p, q) = enter-IsWithin c a window s.sample_index n a.core.open_window h in
    (
      ap (λ l. record b { local = l }) (accumulate-trusted c b.local s bin n (p, q) r),
      (bounds-first b.local n s.sample_index p r, bounds-last b.local n s.sample_index q r),
    )

-- The sample indices do not go back, from the given one on.
abbrev pub Rises : ℕ → List SignalSample → Type 0
Rises n [] = Unit
Rises n (s ∷ ss) = (n ≤ s.sample_index) × Rises s.sample_index ss

module _ (c : SpectrumAggregatorConfig) (t : c.trusted_samples ≡ true)
    (inc : can_use_incremental_window_index c.window ≡ true) (can : can_use_fast_bin_index c ≡ true)
    (wide : leb_ℤ c.source_max_hz c.source_min_hz ≡ false) where
  step-trusted :
      (a : SpectrumAggregator) (s : SignalSample) (n : ℕ)
      → IsPositive s
      → IsWithin n a.local
      → n ≤ s.sample_index
      → (step_trusted c a s ≡ step_local c a s) × IsWithin s.sample_index (step_local c a s).local
  unfolding step_trusted step_local
  step-trusted a s n p h r =
      let (st, verdict) = judge_sample c a.core.window_state s in
      let (e, within) =
        apply-trusted c (record a { core = count_consumed a.core st }) s verdict n h r in
      (
        ap (λ j. apply_trusted c (record a { core = count_consumed a.core j.0 }) s j.1)
              (judge-trusted c a.core.window_state s t inc can wide p)
            ∙ e,
        within,
      )

  loop-trusted :
      (a : SpectrumAggregator) (ss : List SignalSample) (n : ℕ)
      → All IsPositive ss
      → IsWithin n a.local
      → Rises n ss
      → loop_trusted c a ss ≡ loop_local c a ss
  unfolding loop_trusted loop_local
  loop-trusted a [] n p h r = refl
  loop-trusted a (s ∷ ss) n (p, ps) h (r, rs) =
      let (e, within) = step-trusted a s n p h r in
      ap (λ b. loop_trusted c b ss) e
      ∙ loop-trusted (step_local c a s) ss s.sample_index ps within rs

prepare-IsWithin :
    (c : SpectrumAggregatorConfig) (l : LocalAccumulation) (n : ℕ)
    → IsWithin n (prepare_local_accumulation c l)
unfolding prepare_local_accumulation reset_local_accumulation
prepare-IsWithin c l n = (omega arith, omega arith)

trusted-samples :
    (c : SpectrumAggregatorConfig) → uses_block_local_fast_path c ≡ true → c.trusted_samples ≡ true
unfolding uses_block_local_fast_path
trusted-samples c h =
    (both c.trusted_samples (ltb 0 c.render_bin_count)
      (both (c.trusted_samples && ltb 0 c.render_bin_count) (ltb 0 c.band_capacity) h).0).0

-- For samples with positive amplitudes whose indices do not go back, `consume` gives the same whether
-- or not it takes the trusted fast path: the aggregator that is left, with its accumulators, its
-- state of the windows, its counters and its snapshots.
pub consume_samples-consume_spectrum :
    (detailed_timing : Bool) (c : SpectrumAggregatorConfig) (a : SpectrumAggregator)
    (ss : List SignalSample)
    → All IsPositive ss
    → Rises 0 ss
    → consume_samples detailed_timing c a ss ≡ consume_spectrum c a ss
unfolding consume_samples consume_spectrum uses_trusted_block_local_fast_path
consume_samples-consume_spectrum d c a ss p r =
    let block = uses_block_local_fast_path c in
    let inc = can_use_incremental_window_index c.window in
    let can = can_use_fast_bin_index c in
    let wide = ltb_ℤ c.source_min_hz c.source_max_hz in
    elim (Bool-cases (block && not d && inc && can && wide)) [
      | inl u ↦
          let (u', wide') = both (block && not d && inc && can) wide u in
          let (block', d', inc', can') = all_four block (not d) inc can u' in
          let narrow =
            ltb-leb (pos_part c.source_min_hz + neg_part c.source_max_hz)
              (pos_part c.source_max_hz + neg_part c.source_min_hz) wide' in
          rw (u, block')
            (ap merge_local_accumulation (
              loop-trusted c (trusted-samples c block') inc' can' narrow
                (record a { local = prepare_local_accumulation c a.local }) ss 0 p
                (prepare-IsWithin c a.local 0) r))
      | inr u ↦ rw u refl
    ]
