-- ===== src/Transport/Pool.antt =====
-- `SignalBlockPool` of src/pipeline/signal_block_pool.cpp. A block is its place in `m_blocks`, and
-- a handle is such a place; the end of a handle's life is a call of `release`. The free blocks are
-- listed from the back of `m_available`. The counters are not bounded by 64 bits here.
pub mod Holders
pub mod Moves
use sirius_scope.Prelude.{
  ℕ, zero, suc, ◌+◌, ◌-◌, Option, none, some, List, [], ◌∷◌, length, get_or, set, replicate,
}
use sirius_scope.Transport.Block.{SignalBlock, SignalBlockMetadata}
use sirius_scope.Transport.Block

pub record SignalBlockPoolConfig : Type 0 where
  pub block_count : ℕ
  pub max_samples_per_block : ℕ

pub record SignalBlockPool {ℓ} (Angle : Type ℓ) : Type ℓ where
  pub config : SignalBlockPoolConfig
  pub blocks : List (SignalBlock Angle)
  pub available : List ℕ
  pub acquired : ℕ
  pub released : ℕ
  pub exhausted : ℕ

pub record SignalBlockPoolCounters : Type 0 where
  pub acquired : ℕ
  pub released : ℕ
  pub exhausted : ℕ
  pub capacity : ℕ
  pub available : ℕ
  pub in_use : ℕ
  pub max_samples_per_block : ℕ

-- `n - 1`, ..., 0
abbrev pub down_from : ℕ → List ℕ
down_from zero = []
down_from (suc n) = n ∷ down_from n

module _ {ℓ} {Angle : Type ℓ} where
  abbrev pub no_metadata : SignalBlockMetadata Angle
  no_metadata = record {
    sequence_id = 0;
    first_sample_index = 0;
    last_sample_index = 0;
    produced_at = 0;
    antenna_azimuth_deg = none;
  }

  abbrev pub new_block : ℕ → SignalBlock Angle
  new_block max_samples = record { metadata = no_metadata; max_samples = max_samples; samples = [] }

  abbrev pub new_pool : SignalBlockPoolConfig → SignalBlockPool Angle
  new_pool c = record {
    config = c;
    blocks = replicate c.block_count (new_block c.max_samples_per_block);
    available = down_from c.block_count;
    acquired = 0;
    released = 0;
    exhausted = 0;
  }

  abbrev pub block_at : SignalBlockPool Angle → ℕ → SignalBlock Angle
  block_at p id = get_or p.blocks id (new_block p.config.max_samples_per_block)

  abbrev pub write_block : SignalBlockPool Angle → ℕ → SignalBlock Angle → SignalBlockPool Angle
  write_block p id b = record p { blocks = set p.blocks id b }

  -- The rest of `acquire`, by what is free.
  abbrev pub acquire_from : SignalBlockPool Angle → ℕ → List ℕ → SignalBlockPool Angle × Option ℕ
  acquire_from p now [] = (record p { exhausted = p.exhausted + 1 }, none)
  acquire_from p now (id ∷ rest) = (
    record p {
      blocks = set p.blocks id (Block.reset (block_at p id) no_metadata now);
      available = rest;
      acquired = p.acquired + 1;
    },
    some id,
  )

  unfoldable pub acquire : SignalBlockPool Angle → ℕ → SignalBlockPool Angle × Option ℕ
  acquire p now = acquire_from p now p.available

  unfoldable pub release : SignalBlockPool Angle → ℕ → ℕ → SignalBlockPool Angle
  release p now id = record p {
    blocks = set p.blocks id (Block.reset (block_at p id) no_metadata now);
    available = id ∷ p.available;
    released = p.released + 1;
  }

  -- The handles of a container that is cleared, front to back.
  abbrev pub release_all : SignalBlockPool Angle → ℕ → List ℕ → SignalBlockPool Angle
  release_all p now [] = p
  release_all p now (id ∷ ids) = release_all (release p now id) now ids

  unfoldable pub counters : SignalBlockPool Angle → SignalBlockPoolCounters
  counters p = record {
    acquired = p.acquired;
    released = p.released;
    exhausted = p.exhausted;
    capacity = length p.blocks;
    available = length p.available;
    in_use = length p.blocks - length p.available;
    max_samples_per_block = p.config.max_samples_per_block;
  }
