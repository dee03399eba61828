-- ===== src/Spectrum/Consume/Blocks.antt =====
-- `consume` of src/pipeline/spectrum_aggregator.cpp over blocks, accumulated apart or not.
use sirius_scope.Prelude.{
  ◌≡◌, refl, ap, sym, subst, ◌∙◌, true, false, Option, none, some, List, [], ◌∷◌, All, Bool-cases,
  inl, inr,
}
use sirius_scope.Domain.{SignalSample}
use sirius_scope.Spectrum.Bins.{merge_local_bins}
use sirius_scope.Spectrum.Bands.{merge_local_bands}
use sirius_scope.Spectrum.Consume.State.{
  SpectrumAggregatorConfig, SpectrumCore, SpectrumAggregator, OpenWindow, LocalAccumulation,
  new_spectrum_aggregator,
}
use sirius_scope.Spectrum.Consume.Snapshot.{close_open_window}
use sirius_scope.Spectrum.Consume.Accumulation.{
  reset_local_accumulation, prepare_local_accumulation, merge_into, merge_local_accumulation,
}
use sirius_scope.Spectrum.Consume.{
  loop_direct, loop_local, uses_block_local_fast_path, consume_spectrum, flush_spectrum,
  count_block, consume_spectrum_block, consume_spectrum_blocks,
}
use sirius_scope.Spectrum.Consume.Clean.{IsClean, IsListed, IsClean-IsListed, prepare-IsClean}
use sirius_scope.Spectrum.Consume.Link.{IsSized, clean-IsLinkedWindow}
use sirius_scope.Spectrum.Consume.Merge.{IsLinkedWindow-IsSized}
use sirius_scope.Spectrum.Consume.Equal.{
  LinkedOpen, Related, with_window, merge-Related, loop-Related,
}
use sirius_scope.Spectrum.Consume.Untrusted.{untrusted, Valid, loop-untrusted}

abbrev SizedOpen : SpectrumAggregatorConfig → Option OpenWindow → Type 0
SizedOpen c none = Unit
SizedOpen c (some o) = IsSized c o

-- There is nothing to merge.
abbrev IsMerged : LocalAccumulation → Type 0
IsMerged l = (l.bins.touched_bins ≡ []) × (l.bands.touched ≡ []) × (l.has_samples ≡ false)

-- Between two blocks: the one way and the other have the same, and the accumulators of the local
-- way list what is in them.
record Even (c : SpectrumAggregatorConfig) (a b : SpectrumAggregator) : Type 0 where
  core : a.core ≡ b.core
  listed : IsListed a.local
  sized : SizedOpen c b.core.open_window
  rest : IsMerged a.local

clean-LinkedOpen :
    (c : SpectrumAggregatorConfig) (l : LocalAccumulation) (o : Option OpenWindow)
    → IsClean c l
    → SizedOpen c o
    → LinkedOpen c l o o
clean-LinkedOpen c l none h s = h
clean-LinkedOpen c l (some o) h s = clean-IsLinkedWindow c l o h s

LinkedOpen-SizedOpen :
    (c : SpectrumAggregatorConfig) (l : LocalAccumulation) (oa ox : Option OpenWindow)
    → LinkedOpen c l oa ox
    → SizedOpen c ox
LinkedOpen-SizedOpen c l none none h = tt
LinkedOpen-SizedOpen c l none (some d) h = absurd h
LinkedOpen-SizedOpen c l (some o) none h = absurd h
LinkedOpen-SizedOpen c l (some o) (some d) h = IsLinkedWindow-IsSized c l o d h

-- A block in the local way and in the direct one.
block-Even :
    (c : SpectrumAggregatorConfig) (a b : SpectrumAggregator) (ss : List SignalSample)
    → Even c a b
    → Even c
        (merge_local_accumulation
          (loop_local c (record a { local = prepare_local_accumulation c a.local }) ss))
        (record b { core = loop_direct c b.core ss })
unfolding merge_local_accumulation reset_local_accumulation
block-Even c a b ss h =
    let start : Related c (record a { local = prepare_local_accumulation c a.local }) b.core =
      record {
        same = ap (λ (x : SpectrumCore). with_window x b.core.open_window) h.core;
        linked =
            subst (λ o. LinkedOpen c (prepare_local_accumulation c a.local) o b.core.open_window)
              (sym (ap (λ (x : SpectrumCore). x.open_window) h.core))
              (clean-LinkedOpen c (prepare_local_accumulation c a.local) b.core.open_window
                (prepare-IsClean c a.local h.listed) h.sized);
      } in
    let end = loop-Related c _ b.core ss start in
    let (merged, clean) = merge-Related c _ _ _ _ refl refl end end.linked in
    record {
      core = merged;
      listed = (IsClean-IsListed c _ clean).2;
      sized = LinkedOpen-SizedOpen c _ _ _ end.linked;
      rest = (refl, refl, refl);
    }

uses-untrusted : (c : SpectrumAggregatorConfig) → uses_block_local_fast_path (untrusted c) ≡ false
unfolding uses_block_local_fast_path
uses-untrusted c = refl

consume-Even :
    (c : SpectrumAggregatorConfig) (a b : SpectrumAggregator) (ss : List SignalSample)
    → uses_block_local_fast_path c ≡ true
    → c.trusted_samples ≡ true
    → All Valid ss
    → Even c a b
    → Even c (consume_spectrum c a ss) (consume_spectrum (untrusted c) b ss)
unfolding consume_spectrum
consume-Even c a b ss u t v h =
    rw (u, uses-untrusted c, loop-untrusted c b.core ss t v) (block-Even c a b ss h)

merge_into-IsMerged :
    (l : LocalAccumulation) (o : Option OpenWindow) → IsMerged l → merge_into l o ≡ o
unfolding merge_local_bins merge_local_bands
merge_into-IsMerged l none h = refl
merge_into-IsMerged l (some o) (bins, bands, rest) = rw (bins, bands, rest) refl

-- A block where nothing is accumulated.
loop-Even :
    (c : SpectrumAggregatorConfig) (a b : SpectrumAggregator) (ss : List SignalSample)
    → uses_block_local_fast_path c ≡ false
    → c.trusted_samples ≡ true
    → All Valid ss
    → a.core ≡ b.core
    → (consume_spectrum c a ss).core ≡ (consume_spectrum (untrusted c) b ss).core
unfolding consume_spectrum
loop-Even c a b ss u t v h = rw (u, uses-untrusted c, loop-untrusted c b.core ss t v, h) refl

count_block-Even :
    (c : SpectrumAggregatorConfig) (a b : SpectrumAggregator)
    → Even c a b
    → Even c (count_block a) (count_block b)
count_block-Even c a b h = record {
  core = ap (λ (x : SpectrumCore). (count_block (record a { core = x })).core) h.core;
  listed = h.listed;
  sized = h.sized;
  rest = h.rest;
}

consume_block-Even :
    (c : SpectrumAggregatorConfig) (a b : SpectrumAggregator) (ss : List SignalSample)
    → uses_block_local_fast_path c ≡ true
    → c.trusted_samples ≡ true
    → All Valid ss
    → Even c a b
    → Even c (consume_spectrum_block c a ss) (consume_spectrum_block (untrusted c) b ss)
unfolding consume_spectrum_block
consume_block-Even c a b [] u t v h = h
consume_block-Even c a b (s ∷ ss) u t v h =
    consume-Even c (count_block a) (count_block b) (s ∷ ss) u t v (count_block-Even c a b h)

consume_block-core :
    (c : SpectrumAggregatorConfig) (a b : SpectrumAggregator) (ss : List SignalSample)
    → uses_block_local_fast_path c ≡ false
    → c.trusted_samples ≡ true
    → All Valid ss
    → a.core ≡ b.core
    → (consume_spectrum_block c a ss).core ≡ (consume_spectrum_block (untrusted c) b ss).core
unfolding consume_spectrum_block
consume_block-core c a b [] u t v h = h
consume_block-core c a b (s ∷ ss) u t v h =
    loop-Even c (count_block a) (count_block b) (s ∷ ss) u t v
      (ap (λ (x : SpectrumCore). (count_block (record a { core = x })).core) h)

consume_blocks-Even :
    (c : SpectrumAggregatorConfig) (a b : SpectrumAggregator) (blocks : List (List SignalSample))
    → uses_block_local_fast_path c ≡ true
    → c.trusted_samples ≡ true
    → All (All Valid) blocks
    → Even c a b
    → Even c (consume_spectrum_blocks c a blocks) (consume_spectrum_blocks (untrusted c) b blocks)
unfolding consume_spectrum_blocks
consume_blocks-Even c a b [] u t v h = h
consume_blocks-Even c a b (ss ∷ blocks) u t (v, vs) h =
    consume_blocks-Even c (consume_spectrum_block c a ss)
      (consume_spectrum_block (untrusted c) b ss) blocks u t vs
      (consume_block-Even c a b ss u t v h)

consume_blocks-core :
    (c : SpectrumAggregatorConfig) (a b : SpectrumAggregator) (blocks : List (List SignalSample))
    → uses_block_local_fast_path c ≡ false
    → c.trusted_samples ≡ true
    → All (All Valid) blocks
    → a.core ≡ b.core
    → (consume_spectrum_blocks c a blocks).core
      ≡ (consume_spectrum_blocks (untrusted c) b blocks).core
unfolding consume_spectrum_blocks
consume_blocks-core c a b [] u t v h = h
consume_blocks-core c a b (ss ∷ blocks) u t (v, vs) h =
    consume_blocks-core c (consume_spectrum_block c a ss)
      (consume_spectrum_block (untrusted c) b ss) blocks u t vs
      (consume_block-core c a b ss u t v h)

flush-Even :
    (c : SpectrumAggregatorConfig) (a b : SpectrumAggregator)
    → uses_block_local_fast_path c ≡ true
    → Even c a b
    → (flush_spectrum c a).core ≡ (flush_spectrum (untrusted c) b).core
unfolding flush_spectrum merge_local_accumulation
flush-Even c a b u h = rw u (
    ap close_open_window
      (ap (with_window a.core) (merge_into-IsMerged a.local a.core.open_window h.rest) ∙ h.core))

flush-core :
    (c : SpectrumAggregatorConfig) (a b : SpectrumAggregator)
    → uses_block_local_fast_path c ≡ false
    → a.core ≡ b.core
    → (flush_spectrum c a).core ≡ (flush_spectrum (untrusted c) b).core
unfolding flush_spectrum
flush-core c a b u h = rw u (ap close_open_window h)

new-Even : (c : SpectrumAggregatorConfig) → Even c new_spectrum_aggregator new_spectrum_aggregator
new-Even c = record {
  core = refl;
  listed = record { bins = λ i z. refl; bands = λ i z. refl };
  sized = tt;
  rest = (refl, refl, refl);
}

-- On blocks of samples that pass the tests for untrusted samples, a new aggregator that trusts them,
-- which accumulates each block apart, has after each block the same counters, open window and
-- snapshots as one that tests them, which updates the open window sample by sample; and after
-- `flush` they have the same again.
pub consume_spectrum_blocks-untrusted :
    (c : SpectrumAggregatorConfig) (blocks : List (List SignalSample))
    → c.trusted_samples ≡ true
    → All (All Valid) blocks
    → let a = consume_spectrum_blocks c new_spectrum_aggregator blocks in
      let b = consume_spectrum_blocks (untrusted c) new_spectrum_aggregator blocks in
      (a.core ≡ b.core) × ((flush_spectrum c a).core ≡ (flush_spectrum (untrusted c) b).core)
consume_spectrum_blocks-untrusted c blocks t v =
    let new = new_spectrum_aggregator in
    elim (Bool-cases (uses_block_local_fast_path c)) [
      | inl u ↦
          let h = consume_blocks-Even c new new blocks u t v (new-Even c) in
          (h.core, flush-Even c _ _ u h)
      | inr u ↦ let h = consume_blocks-core c new new blocks u t v refl in (h, flush-core c _ _ u h)
    ]
