-- ===== src/Engine/Accounting/Cells.antt =====
-- What a list of summaries holds for one band and beam, in
-- src/pipeline/processing_engine.cpp.
use sirius_scope.Prelude.{
  ℕ, zero, suc, ◌+◌, max, ◌≡◌, refl, ap, ◌∙◌, true, false, ◌&&◌, List, [], ◌∷◌, if-elim, arith,
  Bool, Bool-cases, inl, inr, if◌then◌else◌,
}
use sirius_scope.Prelude.Int.{ℤ, pos, pos_part}
use sirius_scope.Domain.{SignalSample}
use sirius_scope.Engine.Accounting.Order.{
  Sorted, AllAfter, before-AllAfter, before-not-key, update-Sorted,
}
use sirius_scope.Engine.Accounting.{
  BandBeamAggregateSummary, ◌==ℤ◌, max_ℤ, key_before, has_key, new_cell, count_in_cell,
  update_aggregates,
}

-- The entries of the key.
abbrev pub cells : ℤ → ℤ → List BandBeamAggregateSummary → List BandBeamAggregateSummary
cells band beam [] = []
cells band beam (e ∷ es) =
    let rest = cells band beam es in if has_key band beam e then e ∷ rest else rest

-- The number of the samples of a band and beam, and the largest amplitude of them, at least 0.
abbrev pub hits : ℤ → ℤ → List SignalSample → ℕ
hits band beam [] = 0
hits band beam (s ∷ ss) =
    (if s.band_index ==ℤ band && s.beam_index ==ℤ beam then 1 else 0) + hits band beam ss

abbrev pub peak : ℤ → ℤ → List SignalSample → ℕ
peak band beam [] = 0
peak band beam (s ∷ ss) =
    max (if s.band_index ==ℤ band && s.beam_index ==ℤ beam then pos_part s.amplitude else 0)
      (peak band beam ss)

-- The one entry of so many samples with that largest amplitude, or none.
abbrev pub cell_of : ℤ → ℤ → ℕ → ℕ → List BandBeamAggregateSummary
cell_of band beam zero top = []
cell_of band beam (suc n) top =
    record { band_index = band; beam_index = beam; sample_count = suc n; max_amplitude = pos top }
    ∷ []

pub max_ℤ-pos : (n : ℕ) (a : ℤ) → max_ℤ (pos n) a ≡ pos (max n (pos_part a))
max_ℤ-pos n a = ground arith

cells-after :
    (band beam : ℤ) (es : List BandBeamAggregateSummary)
    → AllAfter band beam es
    → cells band beam es ≡ []
cells-after band beam [] h = refl
cells-after band beam (e ∷ es) (h, hs) =
    rw (before-not-key band beam e h) (cells-after band beam es hs)

pub ==ℤ_refl : (a : ℤ) → (a ==ℤ a) ≡ true
==ℤ_refl a = ground arith

-- A sample counted in the entry of its key, which is made where there is none.
abbrev bump : SignalSample → List BandBeamAggregateSummary → List BandBeamAggregateSummary
bump s [] = count_in_cell s (new_cell s) ∷ []
bump s (c ∷ cs) = count_in_cell s c ∷ cs

abbrev is_of : ℤ → ℤ → SignalSample → Bool
is_of band beam s = s.band_index ==ℤ band && s.beam_index ==ℤ beam

is_of_self : (s : SignalSample) → is_of s.band_index s.beam_index s ≡ true
is_of_self s = rw (==ℤ_refl s.band_index, ==ℤ_refl s.beam_index) refl

cells-update_self :
    (es : List BandBeamAggregateSummary) (s : SignalSample)
    → Sorted es
    → cells s.band_index s.beam_index (update_aggregates es s)
      ≡ bump s (cells s.band_index s.beam_index es)
unfolding update_aggregates count_in_cell
cells-update_self [] s h = rw (==ℤ_refl s.band_index, ==ℤ_refl s.beam_index) refl
cells-update_self (e ∷ es) s (h, hs) = elim (Bool-cases (has_key s.band_index s.beam_index e)) [
  | inl yes' ↦ rw (yes', yes') refl
  | inr other ↦ elim (Bool-cases (key_before s.band_index s.beam_index e.band_index e.beam_index)) [
    | inl first ↦
        rw
          (
            other,
            first,
            cells-after s.band_index s.beam_index es
                (before-AllAfter s.band_index s.beam_index e.band_index e.beam_index es first h),
            other,
            ==ℤ_refl s.band_index,
            ==ℤ_refl s.beam_index,
          )
          refl
    | inr later ↦ rw (other, later, other) (cells-update_self es s hs)
  ]
]

pub differs :
    (band beam a b : ℤ) (e : BandBeamAggregateSummary)
    → (a ==ℤ band && b ==ℤ beam) ≡ false
    → has_key a b e ≡ true
    → has_key band beam e ≡ false
differs band beam a b e h k = apart e.band_index e.beam_index h k
  where
    apart :
        (x y : ℤ)
        → (a ==ℤ band && b ==ℤ beam) ≡ false
        → (x ==ℤ a && y ==ℤ b) ≡ true
        → (x ==ℤ band && y ==ℤ beam) ≡ false
    apart x y h k = ground arith

cells-update_other :
    (band beam : ℤ) (es : List BandBeamAggregateSummary) (s : SignalSample)
    → is_of band beam s ≡ false
    → cells band beam (update_aggregates es s) ≡ cells band beam es
unfolding update_aggregates count_in_cell
cells-update_other band beam [] s h = rw (h) refl
cells-update_other band beam (e ∷ es) s h =
    if-elim (λ es'. cells band beam es' ≡ cells band beam (e ∷ es))
      (has_key s.band_index s.beam_index e) _ _
      (λ same. rw (differs band beam s.band_index s.beam_index e h same) refl)
      λ _.
        if-elim (λ es'. cells band beam es' ≡ cells band beam (e ∷ es))
          (key_before s.band_index s.beam_index e.band_index e.beam_index) _ _ (λ _. rw (h) refl)
          λ _. rw (cells-update_other band beam es s h) refl

bump-cell_of :
    (s : SignalSample) (n top : ℕ)
    → (n ≡ 0 → top ≡ 0)
    → bump s (cell_of s.band_index s.beam_index n top)
      ≡ cell_of s.band_index s.beam_index (suc n) (max top (pos_part s.amplitude))
unfolding count_in_cell
bump-cell_of s zero top h = rw (max_ℤ-pos 0 s.amplitude, h refl) refl
bump-cell_of s (suc n) top h = rw (max_ℤ-pos top s.amplitude) (
    ap
      (λ k.
        record {
          band_index = s.band_index;
          beam_index = s.beam_index;
          sample_count = k;
          max_amplitude = pos (max top (pos_part s.amplitude));
        }
        ∷ [])
      (omega arith))

-- A list that holds for the key what so many samples give.
pub record Holds (band beam : ℤ) (n top : ℕ) (es : List BandBeamAggregateSummary) : Type 0 where
  pub sorted : Sorted es
  pub entries : cells band beam es ≡ cell_of band beam n top
  pub zeroed : n ≡ 0 → top ≡ 0

is_of-eq :
    (band beam : ℤ) (s : SignalSample)
    → is_of band beam s ≡ true
    → (s.band_index ≡ band) × (s.beam_index ≡ beam)
is_of-eq band beam s h = equal s.band_index s.beam_index h
  where
    equal : (a b : ℤ) → (a ==ℤ band && b ==ℤ beam) ≡ true → (a ≡ band) × (b ≡ beam)
    equal a b h = (ground arith, ground arith)

count-entries :
    (band beam : ℤ) (n top : ℕ) (es : List BandBeamAggregateSummary) (s : SignalSample)
    → is_of band beam s ≡ true
    → Holds band beam n top es
    → cells band beam (update_aggregates es s)
      ≡ cell_of band beam (suc n) (max top (pos_part s.amplitude))
count-entries band beam n top es s same h =
    let (e, e') = is_of-eq band beam s same in
    rw (← e, ← e')
      (cells-update_self es s h.sorted
        ∙ ap (bump s) (rw (e, e') h.entries)
        ∙ bump-cell_of s n top h.zeroed)

pub Holds-eq :
    (band beam : ℤ) (es : List BandBeamAggregateSummary) {n n' top top' : ℕ}
    → n ≡ n'
    → top ≡ top'
    → Holds band beam n top es
    → Holds band beam n' top' es
Holds-eq band beam es e e' h = rw (← e, ← e') h

pub update-Holds :
    (band beam : ℤ) (n top : ℕ) (es : List BandBeamAggregateSummary) (s : SignalSample)
    → Holds band beam n top es
    → Holds band beam
        (n + hits band beam (s ∷ []))
        (max top (peak band beam (s ∷ [])))
        (update_aggregates es s)
update-Holds band beam n top es s h = elim (Bool-cases (is_of band beam s)) [
  | inl same ↦
      Holds-eq band beam (update_aggregates es s) (rw (same) (omega arith))
        (rw (same) (omega arith))
        (record {
          sorted = update-Sorted es s h.sorted;
          entries = count-entries band beam n top es s same h;
          zeroed = λ (z : suc n ≡ 0). absurd (omega arith);
        })
  | inr other ↦
      Holds-eq band beam (update_aggregates es s) (rw (other) (omega arith))
        (rw (other) (omega arith))
        (record {
          sorted = update-Sorted es s h.sorted;
          entries = cells-update_other band beam es s other ∙ h.entries;
          zeroed = h.zeroed;
        })
]
