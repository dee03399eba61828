-- ===== src/Transport/Block.antt =====
-- `SignalBlock` of src/pipeline/signal_block.cpp. The type of an azimuth is a parameter, since the
-- blocks only carry it; a point in time is a number, and 0 is the clock's epoch.
pub mod Range
use sirius_scope.Prelude.{
  ℕ, min, max, Bool, true, false, ◌&&◌, Option, List, [], ◌∷◌, length, ltb, ◌==◌, if◌then◌else◌,
}
use sirius_scope.Domain.{SignalSample}

pub record SignalBlockMetadata {ℓ} (Angle : Type ℓ) : Type ℓ where
  pub sequence_id : ℕ
  pub first_sample_index : ℕ
  pub last_sample_index : ℕ
  pub produced_at : ℕ
  pub antenna_azimuth_deg : Option Angle

pub record SignalBlock {ℓ} (Angle : Type ℓ) : Type ℓ where
  pub metadata : SignalBlockMetadata Angle
  pub max_samples : ℕ
  pub samples : List SignalSample

abbrev pub last_index : SignalSample → List SignalSample → ℕ
last_index s [] = s.sample_index
last_index s (s' ∷ ss) = last_index s' ss

module _ {ℓ} {Angle : Type ℓ} where
  abbrev pub stamp : SignalBlockMetadata Angle → ℕ → SignalBlockMetadata Angle
  stamp m now = record m { produced_at = if m.produced_at == 0 then now else m.produced_at }

  -- `now` is the time that the steady clock tells.
  unfoldable pub reset : SignalBlock Angle → SignalBlockMetadata Angle → ℕ → SignalBlock Angle
  reset b m now = record b { metadata = stamp m now; samples = [] }

  -- The range of the indices after an assignment: that of the samples, or with the one before it.
  unfoldable pub cover : SignalBlockMetadata Angle → List SignalSample → SignalBlockMetadata Angle
  cover m [] = m
  cover m (s ∷ ss) =
      if m.first_sample_index == 0 && m.last_sample_index == 0
      then record m { first_sample_index = s.sample_index; last_sample_index = last_index s ss }
      else record m {
        first_sample_index = min m.first_sample_index s.sample_index;
        last_sample_index = max m.last_sample_index (last_index s ss);
      }

  unfoldable pub assign_samples : SignalBlock Angle → List SignalSample → SignalBlock Angle × Bool
  unfolding cover
  assign_samples b samples =
      if ltb b.max_samples (length samples)
      then (b, false)
      else (record b { metadata = cover b.metadata samples; samples = samples }, true)
