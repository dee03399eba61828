-- ===== src/Spectrum/Consume/Trusted/Blocks.antt =====
-- `consume` of blocks in src/pipeline/spectrum_aggregator.cpp, with its choice of the way.
use sirius_scope.Prelude.{
  ℕ, ◌+◌, ◌≡◌, refl, ap, ◌∙◌, Bool, true, false, ◌&&◌, List, [], ◌∷◌, All, leb, arith, Bool-cases,
  inl, inr,
}
use sirius_scope.Prelude.Int.{pos, pos_part, neg_part, leb_ℤ}
use sirius_scope.Domain.{SignalSample}
use sirius_scope.Spectrum.Bands.{has_band_slot}
use sirius_scope.Spectrum.Consume.State.{
  SpectrumAggregatorConfig, SpectrumAggregator, new_spectrum_aggregator,
}
use sirius_scope.Spectrum.Consume.Judge.{has_valid_untrusted_sample}
use sirius_scope.Spectrum.Consume.{
  count_block, consume_spectrum, consume_spectrum_blocks, flush_spectrum,
  uses_block_local_fast_path,
}
use sirius_scope.Spectrum.Consume.Untrusted.{untrusted, Valid}
use sirius_scope.Spectrum.Consume.Blocks.{consume_spectrum_blocks-untrusted}
use sirius_scope.Spectrum.Consume.Trusted.{consume_samples, uses_trusted_block_local_fast_path}
use sirius_scope.Spectrum.Consume.Trusted.Agree.{IsPositive}
use sirius_scope.Spectrum.Consume.Trusted.Loop.{Rises, consume_samples-consume_spectrum}

-- `consume` of a block, and of blocks one after the other.
unfoldable pub consume_block :
    Bool → SpectrumAggregatorConfig → SpectrumAggregator → List SignalSample → SpectrumAggregator
unfolding consume_samples
consume_block detailed_timing c a [] = a
consume_block detailed_timing c a (s ∷ ss) =
    consume_samples detailed_timing c (count_block a) (s ∷ ss)

unfoldable pub consume_blocks :
    Bool
    → SpectrumAggregatorConfig
    → SpectrumAggregator
    → List (List SignalSample)
    → SpectrumAggregator
unfolding consume_block
consume_blocks detailed_timing c a [] = a
consume_blocks detailed_timing c a (b ∷ bs) =
    consume_blocks detailed_timing c (consume_block detailed_timing c a b) bs

first_of_six : (a b c d e f : Bool) → (a && b && c && d && e && f) ≡ true → a ≡ true
first_of_six a b c d e f h = ground arith

Valid-IsPositive : (s : SignalSample) → Valid s → IsPositive s
unfolding has_valid_untrusted_sample
Valid-IsPositive s v =
    let least =
      first_of_six (leb_ℤ (pos 1) s.amplitude) (leb_ℤ s.amplitude (pos 127))
        (has_band_slot 5 s.band_index) (has_band_slot 2 s.beam_index)
        (leb_ℤ (pos 300_000_000) s.absolute_frequency_hz)
        (leb_ℤ s.absolute_frequency_hz (pos 18_000_000_000)) v in
    positive (pos_part s.amplitude) (neg_part s.amplitude) least
  where
    positive : (p n : ℕ) → leb (1 + n) (p + 0) ≡ true → leb (p + 0) (0 + n) ≡ false
    positive p n h = ground arith

All-IsPositive : (ss : List SignalSample) → All Valid ss → All IsPositive ss
All-IsPositive [] v = tt
All-IsPositive (s ∷ ss) (v, vs) = (Valid-IsPositive s v, All-IsPositive ss vs)

-- With detailed timing the trusted way is not taken.
uses-detailed : (c : SpectrumAggregatorConfig) → uses_trusted_block_local_fast_path true c ≡ false
unfolding uses_trusted_block_local_fast_path
uses-detailed c = elim (Bool-cases (uses_block_local_fast_path c)) [
  | inl yes' ↦ rw yes' refl
  | inr no' ↦ rw no' refl
]

samples-same :
    (detailed_timing : Bool) (c : SpectrumAggregatorConfig) (a : SpectrumAggregator)
    (ss : List SignalSample)
    → All Valid ss
    → (detailed_timing ≡ false → Rises 0 ss)
    → consume_samples detailed_timing c a ss ≡ consume_spectrum c a ss
unfolding consume_samples
samples-same false c a ss v r =
    consume_samples-consume_spectrum false c a ss (All-IsPositive ss v) (r refl)
samples-same true c a ss v r = rw (uses-detailed c) refl

blocks-same :
    (detailed_timing : Bool) (c : SpectrumAggregatorConfig) (a : SpectrumAggregator)
    (blocks : List (List SignalSample))
    → All (All Valid) blocks
    → (detailed_timing ≡ false → All (Rises 0) blocks)
    → consume_blocks detailed_timing c a blocks ≡ consume_spectrum_blocks c a blocks
unfolding consume_blocks consume_spectrum_blocks
blocks-same d c a [] v r = refl
blocks-same d c a ([] ∷ bs) (v, vs) r = blocks-same d c a bs vs (λ e. (r e).1)
blocks-same d c a ((s ∷ ss) ∷ bs) (v, vs) r =
    ap (λ b. consume_blocks d c b bs) (samples-same d c (count_block a) (s ∷ ss) v (λ e. (r e).0))
    ∙ blocks-same d c (consume_spectrum c (count_block a) (s ∷ ss)) bs vs (λ e. (r e).1)

-- The same where the samples are to be tested.
uses-untrusted :
    (d : Bool) (c : SpectrumAggregatorConfig)
    → uses_trusted_block_local_fast_path d (untrusted c) ≡ false
unfolding uses_trusted_block_local_fast_path uses_block_local_fast_path
uses-untrusted d c = refl

untrusted-same :
    (d : Bool) (c : SpectrumAggregatorConfig) (a : SpectrumAggregator)
    (blocks : List (List SignalSample))
    → consume_blocks d (untrusted c) a blocks ≡ consume_spectrum_blocks (untrusted c) a blocks
unfolding consume_blocks consume_spectrum_blocks
untrusted-same d c a [] = refl
untrusted-same d c a ([] ∷ bs) = untrusted-same d c a bs
untrusted-same d c a ((s ∷ ss) ∷ bs) =
    rw (uses-untrusted d c)
      (untrusted-same d c (consume_spectrum (untrusted c) (count_block a) (s ∷ ss)) bs)

-- On blocks of samples that pass the tests for untrusted samples, and whose indices do not go back
-- within a block unless times are measured, a new aggregator that trusts its samples, in whichever
-- way it takes them, has the same counters, open window and snapshots as one that tests them and
-- updates the open window sample by sample; and after `flush` they have the same again.
pub consume_blocks-untrusted :
    (detailed_timing : Bool) (c : SpectrumAggregatorConfig) (blocks : List (List SignalSample))
    → c.trusted_samples ≡ true
    → All (All Valid) blocks
    → (detailed_timing ≡ false → All (Rises 0) blocks)
    → let a = consume_blocks detailed_timing c new_spectrum_aggregator blocks in
      let b = consume_blocks detailed_timing (untrusted c) new_spectrum_aggregator blocks in
      (a.core ≡ b.core) × ((flush_spectrum c a).core ≡ (flush_spectrum (untrusted c) b).core)
consume_blocks-untrusted d c blocks t v r =
    rw
      (
        blocks-same d c new_spectrum_aggregator blocks v r,
        untrusted-same d c new_spectrum_aggregator blocks,
      )
      (consume_spectrum_blocks-untrusted c blocks t v)
