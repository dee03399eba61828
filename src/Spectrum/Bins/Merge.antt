-- ===== src/Spectrum/Bins/Merge.antt =====
-- One bin: raising it and merging commute; and what the merge of the touched bins leaves in a bin.
use sirius_scope.Prelude.{
  ℕ, ◌≤◌, ◌<◌, ◌≡◌, refl, subst, ◌∙◌, ap, Bool, true, ◌&&◌, List, [], ◌∷◌, length, length-set,
  get_or, get_or-set_self, get_or-set_ne, ℕ_discrete, ltb, lt→ltb, arith, Bool-cases, inl, inr, ◌≢◌,
}
use sirius_scope.Domain.{SignalSample}
use sirius_scope.Spectrum.Bins.{
  SpectrumBin, LocalBinAccumulator, empty_bin, unused, max_u16, increment_bin_hits,
  saturated_add_hit_count, raise_bin, merge_bin, merge_touched_bin, merge_touched_bins,
}
use sirius_scope.Prelude.Counts.{count}

pub raise-merge :
    (b : Bool) (s : SignalSample) (dst local : SpectrumBin)
    → merge_bin dst (raise_bin b s local) ≡ raise_bin b s (merge_bin dst local)
unfolding raise_bin merge_bin increment_bin_hits saturated_add_hit_count
raise-merge b s dst local = ground arith

pub merge-empty : (dst : SpectrumBin) → dst.hit_count ≤ max_u16 → merge_bin dst empty_bin ≡ dst
unfolding merge_bin saturated_add_hit_count
merge-empty dst h = ground arith

module _ (locals : List LocalBinAccumulator) where
  merge_touched-length :
      (bins : List SpectrumBin) (t : ℕ) → length (merge_touched_bin locals bins t) ≡ length bins
  unfolding merge_touched_bin
  merge_touched-length bins t =
      elim (Bool-cases
        (ltb t (length locals) && ltb t (length bins) && (get_or locals t unused).used)) [
          | inl yes' ↦ rw yes' (length-set bins t _)
          | inr no' ↦ rw no' refl
        ]

  merge_touched-other :
      (bins : List SpectrumBin) (t i : ℕ)
      → t ≢ i
      → get_or (merge_touched_bin locals bins t) i empty_bin ≡ get_or bins i empty_bin
  unfolding merge_touched_bin
  merge_touched-other bins t i d =
      elim (Bool-cases
        (ltb t (length locals) && ltb t (length bins) && (get_or locals t unused).used)) [
          | inl yes' ↦ rw yes' (get_or-set_ne bins t i _ empty_bin d)
          | inr no' ↦ rw no' refl
        ]

  merge_touched-same :
      (bins : List SpectrumBin) (t : ℕ)
      → t < length locals
      → t < length bins
      → (get_or locals t unused).used ≡ true
      → get_or (merge_touched_bin locals bins t) t empty_bin
        ≡ merge_bin (get_or bins t empty_bin) (get_or locals t unused).bin
  unfolding merge_touched_bin
  merge_touched-same bins t l b u =
      rw (lt→ltb t (length locals) l, lt→ltb t (length bins) b, u)
        (get_or-set_self bins t _ empty_bin b)

  pub merge_all-length :
      (bins : List SpectrumBin) (ts : List ℕ)
      → length (merge_touched_bins locals bins ts) ≡ length bins
  merge_all-length bins [] = refl
  merge_all-length bins (t ∷ ts) =
      merge_all-length (merge_touched_bin locals bins t) ts ∙ merge_touched-length bins t

  pub merge_all-other :
      (bins : List SpectrumBin) (ts : List ℕ) (i : ℕ)
      → count i ts ≡ 0
      → get_or (merge_touched_bins locals bins ts) i empty_bin ≡ get_or bins i empty_bin
  merge_all-other bins [] i c = refl
  merge_all-other bins (t ∷ ts) i c =
      merge_all-other (merge_touched_bin locals bins t) ts i (ground arith)
      ∙ merge_touched-other bins t i (ground arith)

  pub merge_all-same :
      (bins : List SpectrumBin) (ts : List ℕ) (i : ℕ)
      → count i ts ≡ 1
      → i < length locals
      → i < length bins
      → (get_or locals i unused).used ≡ true
      → get_or (merge_touched_bins locals bins ts) i empty_bin
        ≡ merge_bin (get_or bins i empty_bin) (get_or locals i unused).bin
  merge_all-same bins [] i c l b u = absurd (omega (arith, c))
  merge_all-same bins (t ∷ ts) i c l b u = elim (ℕ_discrete t i) [
    | yes same ↦
        let rest : count t ts ≡ 0 = ground arith in
        subst
          (λ j.
            get_or (merge_touched_bins locals bins (t ∷ ts)) j empty_bin
            ≡ merge_bin (get_or bins j empty_bin) (get_or locals j unused).bin)
          same
          (merge_all-other (merge_touched_bin locals bins t) ts t rest
            ∙ merge_touched-same bins t (ground arith) (ground arith)
                (ap (λ j. (get_or locals j unused).used) same ∙ u))
    | no other ↦
        let rest : count i ts ≡ 1 = ground arith in
        let more = merge_touched-length bins t in
        merge_all-same (merge_touched_bin locals bins t) ts i rest l (omega (arith, more)) u
        ∙ ap (λ x. merge_bin x (get_or locals i unused).bin) (merge_touched-other bins t i other)
  ]
