-- ===== src/Transport/Ingest/Counting.antt =====
-- What `ingestSamples` of src/pipeline/data_ingest_pipeline.cpp counts.
use sirius_scope.Prelude.{
  ℕ, ◌+◌, ◌≤◌, ◌<◌, ◌≡◌, ◌↔◌, refl, sym, subst, ap, true, List, [], ◌∷◌, ◌++◌, length, arith,
  append-nil, Bool-cases, inl, inr, leb, ◌==◌, ◌||◌, ◌*◌,
}
use sirius_scope.Domain.{SignalSample}
use sirius_scope.Transport.Block.{SignalBlockMetadata}
use sirius_scope.Transport.Pool.{SignalBlockPool, acquire_from}
use sirius_scope.Transport.Pool.Holders.{IsAccounted}
use sirius_scope.Transport.Queue.{try_push}
use sirius_scope.Transport.Ingest.{
  DataIngestPipeline, IngestResult, IngestError, accepted, failure, not_running, not_accepting,
  exceeds_capacity, pool_exhausted, queue_full, enqueue, ingest_samples, record_dropped_block,
  record_input_block,
}
use sirius_scope.Transport.Ingest.Branches.{
  Branch, stopped, paused, too_large, exhausted, filled, ingest_samples-Branch, made_block,
  with_block,
}

-- Whether a call brought its block as far as the queue.
abbrev pub reaches_queue : IngestResult → ℕ
reaches_queue accepted = 1
reaches_queue (failure queue_full) = 1
reaches_queue (failure e) = 0

abbrev pub is_overflow : IngestResult → ℕ
is_overflow accepted = 0
is_overflow (failure queue_full) = 1
is_overflow (failure e) = 0

abbrev pub is_lost : IngestResult → ℕ
is_lost accepted = 0
is_lost (failure e) = 1

module _ {ℓ} {Angle : Type ℓ} where
  -- What a call with `n` samples adds to each counter, by its result.
  pub record Counted (st : DataIngestPipeline Angle) (n : ℕ)
      (r : DataIngestPipeline Angle × IngestResult) : Type 0 where
    pub input_blocks : r.0.metrics.input_blocks ≡ st.metrics.input_blocks + reaches_queue r.1
    pub input_samples : r.0.metrics.input_samples ≡ st.metrics.input_samples + reaches_queue r.1 * n
    pub dropped_blocks : r.0.metrics.dropped_blocks ≡ st.metrics.dropped_blocks + is_lost r.1
    pub dropped_samples : r.0.metrics.dropped_samples ≡ st.metrics.dropped_samples + is_lost r.1 * n
    pub diagnosed_blocks :
        r.0.diagnostics.dropped_blocks ≡ st.diagnostics.dropped_blocks + is_lost r.1
    pub diagnosed_samples :
        r.0.diagnostics.dropped_samples ≡ st.diagnostics.dropped_samples + is_lost r.1 * n
    pub overflows :
        r.0.diagnostics.queue_overflows ≡ st.diagnostics.queue_overflows + is_overflow r.1
    pub added : List ℕ
    pub queued : r.0.queue.queue ≡ st.queue.queue ++ added
    pub added_or_lost : length added + is_lost r.1 ≡ 1

  -- A block reaches the queue where a batch gets one and fits it.
  abbrev pub Reaches : DataIngestPipeline Angle → ℕ → Type 0
  Reaches st n =
      (st.running ≡ true)
      × (st.accepting ≡ true)
      × (n ≤ st.block_pool.max_samples_per_block)
      × (0 < length st.pool.available)

  abbrev pub CountedOnce :
      DataIngestPipeline Angle → ℕ → DataIngestPipeline Angle × IngestResult → Type 0
  CountedOnce st n r = Counted st n r × ((reaches_queue r.1 ≡ 1) ↔ Reaches st n)

  enqueue-Counted :
      (st : DataIngestPipeline Angle) (id n now : ℕ)
      → Counted st n (enqueue st id n now) × (reaches_queue (enqueue st id n now).1 ≡ 1)
  unfolding enqueue try_push record_input_block record_dropped_block
  enqueue-Counted st id n now =
      elim (Bool-cases (
        st.queue.is_shutdown
        || st.queue.capacity == 0
        || leb st.queue.capacity (length st.queue.queue))) [
          | inl full ↦ rw full (
            record {
              input_blocks = refl;
              input_samples = omega arith;
              dropped_blocks = refl;
              dropped_samples = omega arith;
              diagnosed_blocks = refl;
              diagnosed_samples = omega arith;
              overflows = refl;
              added = [];
              queued = sym (append-nil st.queue.queue);
              added_or_lost = refl;
            },
            refl,
          )
          | inr free ↦ rw free (
            record {
              input_blocks = refl;
              input_samples = omega arith;
              dropped_blocks = omega arith;
              dropped_samples = omega arith;
              diagnosed_blocks = omega arith;
              diagnosed_samples = omega arith;
              overflows = omega arith;
              added = id ∷ [];
              queued = refl;
              added_or_lost = refl;
            },
            refl,
          )
        ]

  -- A call that fails before the queue counts its batch as dropped, and nothing else.
  dropped-Counted :
      (st : DataIngestPipeline Angle) (pool : SignalBlockPool Angle) (n : ℕ) (e : IngestError)
      → reaches_queue (failure e) ≡ 0
      → is_overflow (failure e) ≡ 0
      → Counted st n (record_dropped_block (record st { pool = pool }) n, failure e)
  unfolding record_dropped_block
  dropped-Counted st pool n e early no_overflow = record {
    input_blocks = omega (arith, early);
    input_samples = rw early (omega arith);
    dropped_blocks = refl;
    dropped_samples = omega arith;
    diagnosed_blocks = refl;
    diagnosed_samples = omega arith;
    overflows = omega (arith, no_overflow);
    added = [];
    queued = sym (append-nil st.queue.queue);
    added_or_lost = refl;
  }

  Branch-Counted :
      (st : DataIngestPipeline Angle) (samples : List SignalSample)
      (metadata : SignalBlockMetadata Angle) (now : ℕ) (r : DataIngestPipeline Angle × IngestResult)
      → Branch st samples metadata now r
      → Counted st (length samples) r × ((reaches_queue r.1 ≡ 1) ↔ Reaches st (length samples))
  Branch-Counted st samples metadata now r (stopped off e) =
      subst (CountedOnce st (length samples)) (sym e)
        (dropped-Counted st st.pool (length samples) not_running refl refl, ground arith)
  Branch-Counted st samples metadata now r (paused on off e) =
      subst (CountedOnce st (length samples)) (sym e)
        (dropped-Counted st st.pool (length samples) not_accepting refl refl, ground arith)
  Branch-Counted st samples metadata now r (too_large on open' big e) =
      subst (CountedOnce st (length samples)) (sym e)
        (dropped-Counted st st.pool (length samples) exceeds_capacity refl refl, ground arith)
  Branch-Counted st samples metadata now r (exhausted on open' l none' e) =
      let no_block = ap length none' in
      subst (CountedOnce st (length samples)) (sym e)
        (dropped-Counted st _ (length samples) pool_exhausted refl refl, ground arith)
  Branch-Counted st samples metadata now r (filled id rest on open' l free e) =
      let st' =
        with_block st (acquire_from st.pool now (id ∷ rest)).0 id
          (made_block st samples metadata now) in
      let one = ap length free in
      let (counted, reached) = enqueue-Counted st' id (length samples) now in
      subst (CountedOnce st (length samples)) (sym e) (
        record {
          input_blocks = counted.input_blocks;
          input_samples = counted.input_samples;
          dropped_blocks = counted.dropped_blocks;
          dropped_samples = counted.dropped_samples;
          diagnosed_blocks = counted.diagnosed_blocks;
          diagnosed_samples = counted.diagnosed_samples;
          overflows = counted.overflows;
          added = counted.added;
          queued = counted.queued;
          added_or_lost = counted.added_or_lost;
        },
        (λ _. (on, open', l, omega (arith, one)), λ _. reached),
      )

  -- What a call of `ingestSamples` counts. The block and its samples are counted as input exactly
  -- when the pipeline runs and accepts, the batch fits a block and a block is free, also where the
  -- queue then refuses the block; they are counted as dropped, in the metrics and in the
  -- diagnostics, exactly when the call fails; an overflow is counted when the queue refuses the
  -- block. The queue gets one more block behind the others, or the call fails and it is as before.
  pub ingest_samples-CountedOnce :
      (st : DataIngestPipeline Angle) (samples : List SignalSample)
      (metadata : SignalBlockMetadata Angle) (now : ℕ) (held : List ℕ)
      → IsAccounted st.block_pool st.pool held
      → CountedOnce st (length samples) (ingest_samples st samples metadata now)
  ingest_samples-CountedOnce st samples metadata now held h =
      Branch-Counted st samples metadata now _
        (ingest_samples-Branch st samples metadata now held h)
