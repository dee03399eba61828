-- ===== src/Transport/Ingest/Branches.antt =====
-- The branches of `ingestSamples`, each with its condition and its result.
use sirius_scope.Prelude.{
  ℕ, ◌+◌, ◌%◌, ◌^◌, ◌≤◌, ◌<◌, ◌≡◌, refl, sym, subst, Bool, true, false, not, some, List, [], ◌∷◌,
  length, arith, ltb, if◌then◌else◌, Bool-cases, inl, inr, le→not-ltb, ltb→lt, not-ltb→le,
}
use sirius_scope.Domain.{SignalSample}
use sirius_scope.Transport.Block.{SignalBlock, SignalBlockMetadata, assign_samples, stamp, cover}
use sirius_scope.Transport.Block
use sirius_scope.Transport.Pool.{SignalBlockPool, acquire, acquire_from, block_at, write_block}
use sirius_scope.Transport.Pool.Holders.{IsAccounted, acquire-IsAccounted}
use sirius_scope.Transport.Ingest.{
  DataIngestPipeline, IngestResult, failure, pool_exhausted, not_running, not_accepting,
  exceeds_capacity, enqueue, fill, ingest_samples, record_dropped_block,
}

passed {ℓ} :
    {X : Type ℓ} (b1 b2 b3 : Bool) (x1 x2 x3 x : X)
    → b1 ≡ true
    → b2 ≡ true
    → b3 ≡ false
    → (if not b1 then x1 else if not b2 then x2 else if b3 then x3 else x) ≡ x
passed b1 b2 b3 x1 x2 x3 x e1 e2 e3 = rw (e1, e2, e3) refl

module _ {ℓ} {Angle : Type ℓ} where
  -- The block that a taken batch of samples makes.
  abbrev pub made_block :
      DataIngestPipeline Angle
      → List SignalSample
      → SignalBlockMetadata Angle
      → ℕ
      → SignalBlock Angle
  made_block st samples metadata now = record {
    metadata = cover (stamp (record metadata { sequence_id = st.next_sequence_id }) now) samples;
    max_samples = st.block_pool.max_samples_per_block;
    samples = samples;
  }

  abbrev pub with_block :
      DataIngestPipeline Angle
      → SignalBlockPool Angle
      → ℕ
      → SignalBlock Angle
      → DataIngestPipeline Angle
  with_block st pool id b = record st {
    pool = write_block pool id b;
    next_sequence_id = (st.next_sequence_id + 1) % 2 ^ 64;
  }

  stamp_idem : (m : SignalBlockMetadata Angle) (now : ℕ) → stamp (stamp m now) now ≡ stamp m now
  stamp_idem m now = ground arith

  assign-made :
      (b : SignalBlock Angle) (m : SignalBlockMetadata Angle) (samples : List SignalSample)
      (size now : ℕ)
      → b.max_samples ≡ size
      → length samples ≤ size
      → assign_samples (Block.reset b (stamp m now) now) samples ≡ (
        record { metadata = cover (stamp m now) samples; max_samples = size; samples = samples },
        true,
      )
  unfolding assign_samples Block.reset
  assign-made b m samples size now e l =
      let fits = le→not-ltb size (length samples) l in rw (e, fits, stamp_idem m now) refl

  -- A block of the pool has room for what passed the check of the size.
  pub fill-some :
      (st : DataIngestPipeline Angle) (samples : List SignalSample)
      (metadata : SignalBlockMetadata Angle) (now id : ℕ) (pool : SignalBlockPool Angle)
      → (block_at pool id).max_samples ≡ st.block_pool.max_samples_per_block
      → length samples ≤ st.block_pool.max_samples_per_block
      → fill st samples metadata now (pool, some id)
        ≡ enqueue
            (with_block st pool id (made_block st samples metadata now))
            id
            (length samples)
            now
  unfolding fill
  fill-some st samples metadata now id pool e l =
      rw
        (assign-made (block_at pool id) (record metadata { sequence_id = st.next_sequence_id })
          samples st.block_pool.max_samples_per_block now e l)
        refl

  -- The branches of `ingestSamples` on a pool whose blocks have the size of the check.
  pub data Branch (st : DataIngestPipeline Angle) (samples : List SignalSample)
      (metadata : SignalBlockMetadata Angle) (now : ℕ) (r : DataIngestPipeline Angle × IngestResult)
      : Type ℓ where
    stopped :
        st.running ≡ false
        → r ≡ (record_dropped_block st (length samples), failure not_running)
        → Branch st samples metadata now r
    paused :
        st.running ≡ true
        → st.accepting ≡ false
        → r ≡ (record_dropped_block st (length samples), failure not_accepting)
        → Branch st samples metadata now r
    too_large :
        st.running ≡ true
        → st.accepting ≡ true
        → st.block_pool.max_samples_per_block < length samples
        → r ≡ (record_dropped_block st (length samples), failure exceeds_capacity)
        → Branch st samples metadata now r
    exhausted :
        st.running ≡ true
        → st.accepting ≡ true
        → length samples ≤ st.block_pool.max_samples_per_block
        → st.pool.available ≡ []
        → r ≡ (
          record_dropped_block
              (record st { pool = (acquire_from st.pool now []).0 })
              (length samples),
          failure pool_exhausted,
        )
        → Branch st samples metadata now r
    filled :
        (id : ℕ) (rest : List ℕ)
        → st.running ≡ true
        → st.accepting ≡ true
        → length samples ≤ st.block_pool.max_samples_per_block
        → st.pool.available ≡ id ∷ rest
        → r
          ≡ enqueue
              (with_block st
                (acquire_from st.pool now (id ∷ rest)).0
                id
                (made_block st samples metadata now))
              id
              (length samples)
              now
        → Branch st samples metadata now r

  acquired-Branch :
      (st : DataIngestPipeline Angle) (samples : List SignalSample)
      (metadata : SignalBlockMetadata Angle) (now : ℕ) (held free : List ℕ)
      → IsAccounted st.block_pool st.pool held
      → st.running ≡ true
      → st.accepting ≡ true
      → length samples ≤ st.block_pool.max_samples_per_block
      → st.pool.available ≡ free
      → Branch st samples metadata now
          (fill st samples metadata now (acquire_from st.pool now free))
  unfolding fill
  acquired-Branch st samples metadata now held [] h r a l e = exhausted r a l e refl
  acquired-Branch st samples metadata now held (id ∷ rest) h r a l e =
      let h' = acquire-IsAccounted st.block_pool st.pool held (id ∷ rest) now e h in
      filled id rest r a l e (
        fill-some st samples metadata now id (acquire_from st.pool now (id ∷ rest)).0 (h'.sizes id)
          l)

  pub ingest_samples-Branch :
      (st : DataIngestPipeline Angle) (samples : List SignalSample)
      (metadata : SignalBlockMetadata Angle) (now : ℕ) (held : List ℕ)
      → IsAccounted st.block_pool st.pool held
      → Branch st samples metadata now (ingest_samples st samples metadata now)
  unfolding ingest_samples acquire
  ingest_samples-Branch st samples metadata now held h =
      elim (Bool-cases st.running)
        as (λ _. Branch st samples metadata now (ingest_samples st samples metadata now)) [
          | inr off ↦ stopped off (rw off refl)
          | inl on ↦
              elim (Bool-cases st.accepting)
                as (λ _. Branch st samples metadata now (ingest_samples st samples metadata now)) [
                  | inr off ↦ paused on off (rw (on, off) refl)
                  | inl open' ↦
                      elim (Bool-cases (ltb st.block_pool.max_samples_per_block (length samples)))
                        as (λ _.
                          Branch st samples metadata now (ingest_samples st samples metadata now)) [
                            | inl big ↦
                                too_large on open' (ltb→lt _ _ big) (rw (on, open', big) refl)
                            | inr fits ↦
                                let same = passed st.running st.accepting _ _ _ _ _ on open' fits in
                                subst (Branch st samples metadata now) (sym same) (
                                  acquired-Branch st samples metadata now held st.pool.available h
                                    on open' (not-ltb→le _ _ fits) refl)
                          ]
                ]
        ]
