-- ===== src/Transport/Ingest/Outcome.antt =====
-- The outcomes of `ingestSamples`: when it takes a block, and what it puts into it.
use sirius_scope.Prelude.{
  ℕ, ◌+◌, ◌%◌, ◌^◌, ◌≤◌, ◌<◌, ◌≡◌, ◌↔◌, ◌≢◌, sym, subst, ◌∙◌, ap, true, false, List, [], ◌∷◌, ◌++◌,
  length, arith, get_or-set_self,
}
use sirius_scope.Domain.{SignalSample}
use sirius_scope.Transport.Block.{SignalBlock, SignalBlockMetadata}
use sirius_scope.Transport.Pool.{acquire_from, block_at}
use sirius_scope.Prelude.Counts.{count}
use sirius_scope.Transport.Pool.Holders.{IsAccounted, acquire-IsAccounted, count-below}
use sirius_scope.Transport.Queue.{try_push}
use sirius_scope.Transport.Ingest.{
  DataIngestPipeline, IngestResult, accepted, failure, storage_rejected, enqueue, ingest_samples,
  record_input_block,
}
use sirius_scope.Transport.Ingest.Branches.{
  Branch, stopped, paused, too_large, exhausted, filled, ingest_samples-Branch, made_block,
  with_block,
}

module _ {ℓ} {Angle : Type ℓ} where
  -- The conditions under which a batch of `n` samples is taken.
  pub record IsOpen (st : DataIngestPipeline Angle) (n : ℕ) : Type ℓ where
    pub is_running : st.running ≡ true
    pub is_accepting : st.accepting ≡ true
    pub fits : n ≤ st.block_pool.max_samples_per_block
    pub block_free : 0 < length st.pool.available
    pub queue_open : st.queue.is_shutdown ≡ false
    pub place_free : length st.queue.queue < st.queue.capacity

  enqueue-accepts :
      (st : DataIngestPipeline Angle) (id n now : ℕ)
      → ((enqueue st id n now).1 ≡ accepted)
        ↔ ((st.queue.is_shutdown ≡ false) × (length st.queue.queue < st.queue.capacity))
  unfolding enqueue try_push record_input_block
  enqueue-accepts st id n now = ground arith

  enqueue-stores :
      (st : DataIngestPipeline Angle) (id n now : ℕ)
      → (enqueue st id n now).1 ≢ failure storage_rejected
  unfolding enqueue try_push record_input_block
  enqueue-stores st id n now = ground arith

  Branch-accepts :
      (st : DataIngestPipeline Angle) (samples : List SignalSample)
      (metadata : SignalBlockMetadata Angle) (now : ℕ) (r : DataIngestPipeline Angle × IngestResult)
      → Branch st samples metadata now r
      → ((r.1 ≡ accepted) ↔ IsOpen st (length samples)) × (r.1 ≢ failure storage_rejected)
  Branch-accepts st samples metadata now r (stopped off e) = ground arith
  Branch-accepts st samples metadata now r (paused on off e) = ground arith
  Branch-accepts st samples metadata now r (too_large on open' big e) = ground arith
  Branch-accepts st samples metadata now r (exhausted on open' l none' e) =
      let no_block = ap length none' in ground arith
  Branch-accepts st samples metadata now r (filled id rest on open' l free e) =
      let st' =
        with_block st (acquire_from st.pool now (id ∷ rest)).0 id
          (made_block st samples metadata now) in
      let one = ap length free in
      let accepts = enqueue-accepts st' id (length samples) now in
      let stored = enqueue-stores st' id (length samples) now in ground arith

  -- On a pool that lost no block, `ingestSamples` takes a batch exactly when the pipeline runs and
  -- accepts, the batch fits a block, a block is free, and the queue is open and has a free place;
  -- the failure of the block's storage does not happen.
  pub ingest_samples-accepts :
      (st : DataIngestPipeline Angle) (samples : List SignalSample)
      (metadata : SignalBlockMetadata Angle) (now : ℕ) (held : List ℕ)
      → IsAccounted st.block_pool st.pool held
      → (((ingest_samples st samples metadata now).1 ≡ accepted) ↔ IsOpen st (length samples))
        × ((ingest_samples st samples metadata now).1 ≢ failure storage_rejected)
  ingest_samples-accepts st samples metadata now held h =
      Branch-accepts st samples metadata now _
        (ingest_samples-Branch st samples metadata now held h)

  -- The last queued block is a new one, made of the batch.
  pub record IsQueued (st : DataIngestPipeline Angle) (b : SignalBlock Angle)
      (st' : DataIngestPipeline Angle) : Type ℓ where
    pub id : ℕ
    pub is_last : st'.queue.queue ≡ st.queue.queue ++ id ∷ []
    pub content : block_at st'.pool id ≡ b
    pub was_free : 0 < count id st.pool.available
    pub next_id : st'.next_sequence_id ≡ (st.next_sequence_id + 1) % 2 ^ 64

  enqueue-queues :
      (st : DataIngestPipeline Angle) (id n now : ℕ)
      → (enqueue st id n now).1 ≡ accepted
      → ((enqueue st id n now).0.queue.queue ≡ st.queue.queue ++ id ∷ [])
        × ((enqueue st id n now).0.pool ≡ st.pool)
        × ((enqueue st id n now).0.next_sequence_id ≡ st.next_sequence_id)
  unfolding enqueue try_push record_input_block
  enqueue-queues st id n now e = ground arith

  Branch-IsQueued :
      (st : DataIngestPipeline Angle) (samples : List SignalSample)
      (metadata : SignalBlockMetadata Angle) (now : ℕ) (held : List ℕ)
      (r : DataIngestPipeline Angle × IngestResult)
      → IsAccounted st.block_pool st.pool held
      → Branch st samples metadata now r
      → r.1 ≡ accepted
      → IsQueued st (made_block st samples metadata now) r.0
  Branch-IsQueued st samples metadata now held r h (stopped off e) a = absurd (ground arith)
  Branch-IsQueued st samples metadata now held r h (paused on off e) a = absurd (ground arith)
  Branch-IsQueued st samples metadata now held r h (too_large on open' big e) a =
      absurd (ground arith)
  Branch-IsQueued st samples metadata now held r h (exhausted on open' l none' e) a =
      absurd (ground arith)
  Branch-IsQueued st samples metadata now held r h (filled id rest on open' l free e) a =
      let st' =
        with_block st (acquire_from st.pool now (id ∷ rest)).0 id
          (made_block st samples metadata now) in
      let (last, same, next) =
        enqueue-queues st' id (length samples) now (sym (ap (λ x. x.1) e) ∙ a) in
      let one : 0 < count id st.pool.available = rw free (ground arith) in
      let size =
        (acquire-IsAccounted st.block_pool st.pool held (id ∷ rest) now free h).all_blocks in
      let below = count-below st.block_pool.block_count id (omega (arith, h.one_holder id)) in
      subst (λ x. IsQueued st (made_block st samples metadata now) x.0) (sym e)
        (record {
          id = id;
          is_last = last;
          content =
              ap (λ p. block_at p id) same
              ∙ get_or-set_self (acquire_from st.pool now (id ∷ rest)).0.blocks id _ _
                  (omega (arith, size));
          was_free = one;
          next_id = next;
        })

  -- A batch that is taken is behind the others in the queue, in a block that was free before, with
  -- exactly its samples, the next sequence number and the range of its indices; the clock's time
  -- stands in for a missing one.
  pub ingest_samples-IsQueued :
      (st : DataIngestPipeline Angle) (samples : List SignalSample)
      (metadata : SignalBlockMetadata Angle) (now : ℕ) (held : List ℕ)
      → IsAccounted st.block_pool st.pool held
      → (ingest_samples st samples metadata now).1 ≡ accepted
      → IsQueued st (made_block st samples metadata now) (ingest_samples st samples metadata now).0
  ingest_samples-IsQueued st samples metadata now held h a =
      Branch-IsQueued st samples metadata now held _ h
        (ingest_samples-Branch st samples metadata now held h) a
