-- ===== src/Engine/Accounting/Order.antt =====
-- The order of `std::map` on the keys of the summaries in src/pipeline/processing_engine.cpp, and
-- that a new element keeps it.
use sirius_scope.Prelude.{◌≡◌, true, false, ◌&&◌, List, [], ◌∷◌, All, if-elim, arith}
use sirius_scope.Prelude.Int.{ℤ}
use sirius_scope.Domain.{SignalSample}
use sirius_scope.Engine.Accounting.{
  BandBeamAggregateSummary, ◌==ℤ◌, key_before, has_key, count_in_cell, update_aggregates,
}

-- Every entry of a key from the given one on stands after it.
abbrev pub AllAfter : ℤ → ℤ → List BandBeamAggregateSummary → Type 0
AllAfter band beam es = All (λ e. key_before band beam e.band_index e.beam_index ≡ true) es

abbrev pub Sorted : List BandBeamAggregateSummary → Type 0
Sorted [] = Unit
Sorted (e ∷ es) = AllAfter e.band_index e.beam_index es × Sorted es

before_trans :
    (a b a' b' a'' b'' : ℤ)
    → key_before a b a' b' ≡ true
    → key_before a' b' a'' b'' ≡ true
    → key_before a b a'' b'' ≡ true
before_trans a b a' b' a'' b'' h k = ground arith

pub before-AllAfter :
    (a b a' b' : ℤ) (es : List BandBeamAggregateSummary)
    → key_before a b a' b' ≡ true
    → AllAfter a' b' es
    → AllAfter a b es
before-AllAfter a b a' b' [] h k = tt
before-AllAfter a b a' b' (e ∷ es) h (k, ks) =
    (before_trans a b a' b' e.band_index e.beam_index h k, before-AllAfter a b a' b' es h ks)

pub before-not-key :
    (band beam : ℤ) (e : BandBeamAggregateSummary)
    → key_before band beam e.band_index e.beam_index ≡ true
    → has_key band beam e ≡ false
before-not-key band beam e h = ground arith

-- Of two keys that differ one is before the other.
pub before_total :
    (band beam : ℤ) (e : BandBeamAggregateSummary)
    → has_key band beam e ≡ false
    → key_before band beam e.band_index e.beam_index ≡ false
    → key_before e.band_index e.beam_index band beam ≡ true
before_total band beam e h k = total e.band_index e.beam_index h k
  where
    total :
        (a b : ℤ)
        → (a ==ℤ band && b ==ℤ beam) ≡ false
        → key_before band beam a b ≡ false
        → key_before a b band beam ≡ true
    total a b h k = ground arith

update-AllAfter :
    (band beam : ℤ) (es : List BandBeamAggregateSummary) (s : SignalSample)
    → key_before band beam s.band_index s.beam_index ≡ true
    → AllAfter band beam es
    → AllAfter band beam (update_aggregates es s)
unfolding update_aggregates count_in_cell
update-AllAfter band beam [] s h k = (h, tt)
update-AllAfter band beam (e ∷ es) s h (k, ks) =
    let rest = update-AllAfter band beam es s h ks in
    if-elim (AllAfter band beam) (has_key s.band_index s.beam_index e) _ _ (λ _. (k, ks))
      λ _.
        if-elim (AllAfter band beam)
          (key_before s.band_index s.beam_index e.band_index e.beam_index) _ _ (λ _. (h, (k, ks)))
          λ _. (k, rest)

pub update-Sorted :
    (es : List BandBeamAggregateSummary) (s : SignalSample)
    → Sorted es
    → Sorted (update_aggregates es s)
unfolding update_aggregates count_in_cell
update-Sorted [] s h = (tt, tt)
update-Sorted (e ∷ es) s (h, hs) =
    if-elim Sorted (has_key s.band_index s.beam_index e) _ _ (λ _. (h, hs))
      λ other.
        if-elim Sorted (key_before s.band_index s.beam_index e.band_index e.beam_index) _ _
          (λ first. (
            (first, before-AllAfter s.band_index s.beam_index e.band_index e.beam_index es first h),
            (h, hs),
          ))
          λ later. (
            update-AllAfter e.band_index e.beam_index es s
                (before_total s.band_index s.beam_index e other later) h,
            update-Sorted es s hs,
          )
