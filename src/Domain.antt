-- ===== src/Domain.antt =====
-- The samples that all parts of the program share: `SignalSample` of src/core/domain_models.h.
use sirius_scope.Prelude.{ℕ, Bool, false, ◌==◌}
use sirius_scope.Prelude.Int.{ℤ, pos, negsuc}

pub record SignalSample : Type 0 where
  pub sample_index : ℕ
  pub band_index : ℤ
  pub frequency_offset_hz : ℤ
  pub absolute_frequency_hz : ℤ
  pub amplitude : ℤ
  pub beam_index : ℤ

-- `beamIndex == n`
abbrev pub is_beam : ℕ → ℤ → Bool
is_beam n (pos m) = m == n
is_beam n (negsuc m) = false
