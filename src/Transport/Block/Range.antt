-- ===== src/Transport/Block/Range.antt =====
-- The range of the sample indices that a block carries.
use sirius_scope.Prelude.{
  ℕ, ◌≤◌, ◌≡◌, refl, true, List, [], ◌∷◌, length, All, arith, ltb, Bool-cases, inl, inr,
}
use sirius_scope.Domain.{SignalSample}
use sirius_scope.Transport.Block.{
  SignalBlockMetadata, SignalBlock, last_index, cover, assign_samples,
}

-- The indices do not fall.
abbrev pub Ascending : ℕ → List SignalSample → Type 0
Ascending lo [] = Unit
Ascending lo (s ∷ ss) = (lo ≤ s.sample_index) × Ascending s.sample_index ss

abbrev pub Within : ℕ → ℕ → SignalSample → Type 0
Within lo hi s = (lo ≤ s.sample_index) × (s.sample_index ≤ hi)

last_index_le :
    (s : SignalSample) (ss : List SignalSample)
    → Ascending s.sample_index ss
    → s.sample_index ≤ last_index s ss
last_index_le s [] a = omega arith
last_index_le s (s' ∷ ss) a = let rest = last_index_le s' ss a.1 in omega (arith, a.0)

Ascending-Within :
    (s : SignalSample) (ss : List SignalSample) (lo hi : ℕ)
    → Ascending s.sample_index ss
    → lo ≤ s.sample_index
    → last_index s ss ≤ hi
    → All (Within lo hi) (s ∷ ss)
Ascending-Within s [] lo hi a l h = ((l, h), _)
Ascending-Within s (s' ∷ ss) lo hi a l h =
    let up = last_index_le s (s' ∷ ss) a in
    ((l, omega arith), Ascending-Within s' ss lo hi a.1 (omega (arith, a.0)) h)

module _ {ℓ} {Angle : Type ℓ} where
  cover_le :
      (m : SignalBlockMetadata Angle) (s : SignalSample) (ss : List SignalSample)
      → ((cover m (s ∷ ss)).first_sample_index ≤ s.sample_index)
        × (last_index s ss ≤ (cover m (s ∷ ss)).last_sample_index)
  unfolding cover
  cover_le m s ss = ground arith

  cover-Within :
      (m : SignalBlockMetadata Angle) (samples : List SignalSample)
      → Ascending 0 samples
      → All
          (Within (cover m samples).first_sample_index (cover m samples).last_sample_index)
          samples
  cover-Within m [] a = _
  cover-Within m (s ∷ ss) a =
      let (first, last) = cover_le m s ss in Ascending-Within s ss _ _ a.1 first last

  -- When `assignSamples` takes samples whose indices do not fall, as those of a data packet do, the
  -- block holds exactly these samples, no more than its maximum, and the index of each lies in the
  -- block's range of indices.
  pub assign_samples-Within :
      (b : SignalBlock Angle) (samples : List SignalSample)
      → Ascending 0 samples
      → (assign_samples b samples).1 ≡ true
      → let b' = (assign_samples b samples).0 in
        (b'.samples ≡ samples)
        × (length b'.samples ≤ b'.max_samples)
        × All (Within b'.metadata.first_sample_index b'.metadata.last_sample_index) b'.samples
  unfolding assign_samples
  assign_samples-Within b samples a e = elim (Bool-cases (ltb b.max_samples (length samples))) [
    | inl big ↦ absurd (ground arith)
    | inr fits ↦ rw fits (refl, ground arith, cover-Within b.metadata samples a)
  ]
