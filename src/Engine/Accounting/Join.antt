-- ===== src/Engine/Accounting/Join.antt =====
-- What the accounting of a block holds for a band and beam, and what its addition to a list of
-- summaries changes, in src/pipeline/processing_engine.cpp.
use sirius_scope.Prelude.{
  ℕ, zero, suc, ◌+◌, max, ◌≡◌, refl, sym, ap, subst, ◌∙◌, true, false, List, [], ◌∷◌, ◌++◌, arith,
  Bool-cases, inl, inr, if-elim, ◌&&◌,
}
use sirius_scope.Prelude.Int.{ℤ, pos}
use sirius_scope.Domain.{SignalSample}
use sirius_scope.Engine.Accounting.{
  BandBeamAggregateSummary, BlockAccountingData, ◌==ℤ◌, has_key, account_sample, account_samples,
  update_aggregates, add_to_cell, add_summary, add_summaries,
}
use sirius_scope.Engine.Accounting.Cells.{
  cells, hits, peak, cell_of, Holds, update-Holds, Holds-eq, differs, ==ℤ_refl, max_ℤ-pos,
}

pub hits-append :
    (band beam : ℤ) (xs ys : List SignalSample)
    → hits band beam (xs ++ ys) ≡ hits band beam xs + hits band beam ys
hits-append band beam [] ys = omega arith
hits-append band beam (x ∷ xs) ys = omega (arith, hits-append band beam xs ys)

pub peak-append :
    (band beam : ℤ) (xs ys : List SignalSample)
    → peak band beam (xs ++ ys) ≡ max (peak band beam xs) (peak band beam ys)
peak-append band beam [] ys = omega arith
peak-append band beam (x ∷ xs) ys = omega (arith, peak-append band beam xs ys)

-- Without a sample of the key the peak is 0.
pub hits-zero :
    (band beam : ℤ) (ss : List SignalSample) → hits band beam ss ≡ 0 → peak band beam ss ≡ 0
hits-zero band beam [] h = refl
hits-zero band beam (s ∷ ss) h = ground (arith, hits-zero band beam ss)

account_sample-update :
    (acc : BlockAccountingData) (s : SignalSample)
    → (account_sample acc s).band_beam_summaries ≡ update_aggregates acc.band_beam_summaries s
unfolding account_sample
account_sample-update acc s = ground arith

pub account_samples-Holds :
    (band beam : ℤ) (n top : ℕ) (acc : BlockAccountingData) (ss : List SignalSample)
    → Holds band beam n top acc.band_beam_summaries
    → Holds band beam
        (n + hits band beam ss)
        (max top (peak band beam ss))
        (account_samples acc ss).band_beam_summaries
unfolding account_samples
account_samples-Holds band beam n top acc [] h =
    Holds-eq band beam acc.band_beam_summaries (omega arith) (omega arith) h
account_samples-Holds band beam n top acc (s ∷ ss) h =
    Holds-eq band beam (account_samples acc (s ∷ ss)).band_beam_summaries (omega arith)
      (omega arith)
      (account_samples-Holds band beam (n + hits band beam (s ∷ []))
        (max top (peak band beam (s ∷ []))) (account_sample acc s) ss
        (subst (Holds band beam (n + hits band beam (s ∷ [])) (max top (peak band beam (s ∷ []))))
          (sym (account_sample-update acc s))
          (update-Holds band beam n top acc.band_beam_summaries s h)))

-- The entries of the key after an addition: to the first of them, or the value itself.
abbrev add_first :
    List BandBeamAggregateSummary → BandBeamAggregateSummary → List BandBeamAggregateSummary
add_first [] value = value ∷ []
add_first (c ∷ cs) value = add_to_cell c value ∷ cs

abbrev pub join :
    List BandBeamAggregateSummary → List BandBeamAggregateSummary → List BandBeamAggregateSummary
join cs [] = cs
join cs (value ∷ values) = join (add_first cs value) values

cell_of-eq :
    (band beam : ℤ) {n n' top top' : ℕ}
    → n ≡ n'
    → top ≡ top'
    → cell_of band beam n top ≡ cell_of band beam n' top'
cell_of-eq band beam e e' = rw (e, e') refl

pub join-cell_of :
    (band beam : ℤ) (n n' top top' : ℕ)
    → (n ≡ 0 → top ≡ 0)
    → (n' ≡ 0 → top' ≡ 0)
    → join (cell_of band beam n top) (cell_of band beam n' top')
      ≡ cell_of band beam (n + n') (max top top')
unfolding add_to_cell
join-cell_of band beam n zero top top' h h' =
    cell_of-eq band beam (omega arith) (omega (arith, h' refl))
join-cell_of band beam zero (suc n') top top' h h' =
    cell_of-eq band beam {n = suc n'} {top = top'} (omega arith) (omega (arith, h refl))
join-cell_of band beam (suc n) (suc n') top top' h h' = rw (max_ℤ-pos top (pos top')) (
    ap
      (λ k.
        record {
          band_index = band;
          beam_index = beam;
          sample_count = k;
          max_amplitude = pos (max top top');
        }
        ∷ [])
      (omega arith)
    ∙ cell_of-eq band beam {n = suc (n + suc n')} {top = max top top'} (omega arith) refl)

add-cells_self :
    (es : List BandBeamAggregateSummary) (value : BandBeamAggregateSummary)
    → cells value.band_index value.beam_index (add_summary es value)
      ≡ add_first (cells value.band_index value.beam_index es) value
unfolding add_summary add_to_cell
add-cells_self [] value = rw (==ℤ_refl value.band_index, ==ℤ_refl value.beam_index) refl
add-cells_self (e ∷ es) value = elim (Bool-cases (has_key value.band_index value.beam_index e)) [
  | inl yes' ↦ rw (yes', yes') refl
  | inr other ↦ rw (other, other) (add-cells_self es value)
]

add-cells_other :
    (band beam : ℤ) (es : List BandBeamAggregateSummary) (value : BandBeamAggregateSummary)
    → has_key band beam value ≡ false
    → cells band beam (add_summary es value) ≡ cells band beam es
unfolding add_summary add_to_cell
add-cells_other band beam [] value h = rw (h) refl
add-cells_other band beam (e ∷ es) value h =
    if-elim (λ es'. cells band beam es' ≡ cells band beam (e ∷ es))
      (has_key value.band_index value.beam_index e) _ _
      (λ same. rw (differs band beam value.band_index value.beam_index e h same) refl)
      λ _. rw (add-cells_other band beam es value h) refl

key-same :
    (band beam : ℤ) (value : BandBeamAggregateSummary)
    → has_key band beam value ≡ true
    → (value.band_index ≡ band) × (value.beam_index ≡ beam)
key-same band beam value h = same value.band_index value.beam_index h
  where
    same : (a b : ℤ) → (a ==ℤ band && b ==ℤ beam) ≡ true → (a ≡ band) × (b ≡ beam)
    same a b h = (ground arith, ground arith)

-- An addition to the list, seen from one key.
pub add-cells :
    (band beam : ℤ) (es values : List BandBeamAggregateSummary)
    → cells band beam (add_summaries es values) ≡ join (cells band beam es) (cells band beam values)
unfolding add_summaries
add-cells band beam es [] = refl
add-cells band beam es (value ∷ values) = elim (Bool-cases (has_key band beam value)) [
  | inl same ↦
      let (e, e') = key-same band beam value same in
      rw (same) (
        add-cells band beam (add_summary es value) values
        ∙ ap (λ cs. join cs (cells band beam values)) (rw (← e, ← e') (add-cells_self es value)))
  | inr other ↦ rw (other) (
      add-cells band beam (add_summary es value) values
      ∙ ap (λ cs. join cs (cells band beam values)) (add-cells_other band beam es value other))
]
