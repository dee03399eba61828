-- ===== src/Transport/Ingest/Ownership.antt =====
-- No block is lost or held twice, whatever the pipeline and its engine do.
use sirius_scope.Prelude.{
  ℕ, ◌+◌, ◌≤◌, ◌≡◌, refl, sym, subst, ap, Bool, true, false, ◌||◌, some, List, [], ◌∷◌, ◌++◌,
  length, length-append, arith, leb, ◌==◌, Bool-cases, inl, inr, if-elim,
}
use sirius_scope.Domain.{SignalSample}
use sirius_scope.Transport.Block.{SignalBlockMetadata}
use sirius_scope.Transport.Pool.{
  SignalBlockPoolConfig, SignalBlockPool, acquire_from, release_all, counters,
}
use sirius_scope.Prelude.Counts.{count, count-append}
use sirius_scope.Transport.Pool.Holders.{
  IsAccounted, new_pool-IsAccounted, acquire-IsAccounted, release-IsAccounted,
  release_all-IsAccounted, write_block-IsAccounted, count-down_from,
}
use sirius_scope.Transport.Queue.{
  BlockQueue, try_push, try_pop, pop_from, push_back, count_dropped, shutdown, clear,
}
use sirius_scope.Transport.Queue
use sirius_scope.Transport.Ingest.{
  DataIngestPipeline, IngestResult, new_pipeline, no_metrics, enqueue, start, begin_stop, end_stop,
  set_accepting, clear_queued_blocks, record_dropped_block, record_input_block, Step, ingest_step,
  start_step, begin_stop_step, end_stop_step, accepting_step, clear_step, take_step, done_step,
  Reachable, here, step,
}
use sirius_scope.Transport.Ingest.Branches.{
  Branch, stopped, paused, too_large, exhausted, filled, ingest_samples-Branch, made_block,
  with_block,
}
use sirius_scope.Transport.Pool.Moves.{move-IsAccounted, take-IsAccounted, done-IsAccounted}

module _ {ℓ} {Angle : Type ℓ} where
  -- Every block is free, queued or with the engine; every block that the metrics count as input was
  -- offered to the queue.
  pub record IsSound (st : DataIngestPipeline Angle) : Type ℓ where
    pub accounted : IsAccounted st.block_pool st.pool (st.queue.queue ++ st.processing)
    pub offered : st.metrics.input_blocks ≡ st.queue.pushed_blocks + st.queue.dropped_blocks
    pub bounded : length st.queue.queue ≤ st.queue.capacity

  enqueue-IsSound :
      (st : DataIngestPipeline Angle) (id n now : ℕ)
      → IsAccounted st.block_pool st.pool (id ∷ (st.queue.queue ++ st.processing))
      → st.metrics.input_blocks ≡ st.queue.pushed_blocks + st.queue.dropped_blocks
      → length st.queue.queue ≤ st.queue.capacity
      → IsSound (enqueue st id n now).0
  unfolding enqueue try_push record_input_block record_dropped_block
  enqueue-IsSound st id n now a o b =
      elim (Bool-cases (
        st.queue.is_shutdown
        || st.queue.capacity == 0
        || leb st.queue.capacity (length st.queue.queue))) [
          | inl yes' ↦ rw yes' (record {
            accounted = release-IsAccounted st.block_pool st.pool _ id now a;
            offered = omega (arith, o);
            bounded = b;
          })
          | inr no' ↦ rw no' (record {
            accounted = move-IsAccounted st.block_pool st.pool id st.queue.queue st.processing a;
            offered = omega (arith, o);
            bounded = let one = length-append st.queue.queue (id ∷ []) in ground arith;
          })
        ]

  Branch-IsSound :
      (st : DataIngestPipeline Angle) (samples : List SignalSample)
      (metadata : SignalBlockMetadata Angle) (now : ℕ) (r : DataIngestPipeline Angle × IngestResult)
      → IsSound st
      → Branch st samples metadata now r
      → IsSound r.0
  unfolding record_dropped_block
  Branch-IsSound st samples metadata now r h (stopped off e) =
      subst (λ x. IsSound x.0) (sym e)
        (record { accounted = h.accounted; offered = h.offered; bounded = h.bounded })
  Branch-IsSound st samples metadata now r h (paused on off e) =
      subst (λ x. IsSound x.0) (sym e)
        (record { accounted = h.accounted; offered = h.offered; bounded = h.bounded })
  Branch-IsSound st samples metadata now r h (too_large on open' big e) =
      subst (λ x. IsSound x.0) (sym e)
        (record { accounted = h.accounted; offered = h.offered; bounded = h.bounded })
  Branch-IsSound st samples metadata now r h (exhausted on open' l none' e) =
      subst (λ x. IsSound x.0) (sym e)
        (record {
          accounted = acquire-IsAccounted st.block_pool st.pool _ [] now none' h.accounted;
          offered = h.offered;
          bounded = h.bounded;
        })
  Branch-IsSound st samples metadata now r h (filled id rest on open' l free e) =
      let p = (acquire_from st.pool now (id ∷ rest)).0 in
      let b = made_block st samples metadata now in
      let taken = acquire-IsAccounted st.block_pool st.pool _ (id ∷ rest) now free h.accounted in
      let written = write_block-IsAccounted st.block_pool p _ id b refl taken in
      subst (λ x. IsSound x.0) (sym e)
        (enqueue-IsSound (with_block st p id b) id (length samples) now written h.offered h.bounded)

  release_queue :
      (c : SignalBlockPoolConfig) (p : SignalBlockPool Angle) (q held : List ℕ) (now : ℕ)
      → IsAccounted c p (q ++ held)
      → IsAccounted c (release_all p now q) ([] ++ held)
  release_queue c p q held now h = release_all-IsAccounted c p q held now h

  start-IsSound :
      (st : DataIngestPipeline Angle) (now : ℕ) (started : Bool)
      → IsSound st
      → IsSound (start st now started).0
  unfolding start Queue.reset
  start-IsSound st now started h =
      let emptied =
        release_queue st.block_pool st.pool st.queue.queue st.processing now h.accounted in
      let ready : DataIngestPipeline Angle = record st {
        pool = release_all st.pool now st.queue.queue;
        queue = Queue.reset st.queue;
        metrics = no_metrics;
        accepting = st.accepting_on_start;
      } in
      if-elim (λ (x : DataIngestPipeline Angle × Bool). IsSound x.0) st.running _ _ (λ _. h)
        (λ _.
          if-elim (λ (x : DataIngestPipeline Angle × Bool). IsSound x.0) started
            (record ready { running = true }, true) (ready, false)
            (λ _. record { accounted = emptied; offered = refl; bounded = omega arith })
            (λ _. record { accounted = emptied; offered = refl; bounded = omega arith }))

  clear-IsSound :
      (st : DataIngestPipeline Angle) (now : ℕ) → IsSound st → IsSound (clear_queued_blocks st now)
  unfolding clear_queued_blocks clear
  clear-IsSound st now h = record {
    accounted = release_queue st.block_pool st.pool st.queue.queue st.processing now h.accounted;
    offered = h.offered;
    bounded = omega arith;
  }

  take-IsSound :
      (st : DataIngestPipeline Angle) (id : ℕ) (queue : BlockQueue ℕ) (blocks : List ℕ)
      → st.queue.queue ≡ blocks
      → pop_from st.queue blocks ≡ (queue, some id)
      → IsSound st
      → IsSound (record st { queue = queue; processing = id ∷ st.processing })
  take-IsSound st id queue [] e t h = absurd (ground arith)
  take-IsSound st id queue (b ∷ bs) e t h =
      let q : BlockQueue ℕ = record st.queue {
        queue = bs;
        popped_blocks = st.queue.popped_blocks + 1;
      } in
      let same : (q, b) ≡ (queue, id) = ground arith in
      let a = subst (λ xs. IsAccounted st.block_pool st.pool (xs ++ st.processing)) e h.accounted in
      subst
        (λ (x : BlockQueue ℕ × ℕ).
          IsSound (record st { queue = x.0; processing = x.1 ∷ st.processing }))
        same
        (record {
          accounted = take-IsAccounted st.block_pool st.pool b bs st.processing a;
          offered = h.offered;
          bounded = omega (arith, ap length e, h.bounded);
        })

  Step-IsSound : (st st' : DataIngestPipeline Angle) → Step st st' → IsSound st → IsSound st'
  unfolding begin_stop end_stop set_accepting shutdown try_pop
  Step-IsSound st st' (ingest_step _ samples metadata now) h =
      Branch-IsSound st samples metadata now _ h
        (ingest_samples-Branch st samples metadata now _ h.accounted)
  Step-IsSound st st' (start_step _ now started) h = start-IsSound st now started h
  Step-IsSound st st' (begin_stop_step _) h = record {
    accounted = h.accounted;
    offered = h.offered;
    bounded = h.bounded;
  }
  Step-IsSound st st' (end_stop_step _ now e) h =
      let c = clear-IsSound st now h in
      record { accounted = c.accounted; offered = c.offered; bounded = c.bounded }
  Step-IsSound st st' (accepting_step _ accepting) h = record {
    accounted = h.accounted;
    offered = h.offered;
    bounded = h.bounded;
  }
  Step-IsSound st st' (clear_step _ now) h = clear-IsSound st now h
  Step-IsSound st st' (take_step _ id queue t) h = take-IsSound st id queue st.queue.queue refl t h
  Step-IsSound st st' (done_step _ before after id now e) h =
      let a =
        subst (λ xs. IsAccounted st.block_pool st.pool (st.queue.queue ++ xs)) e h.accounted in
      record {
        accounted = done-IsAccounted st.block_pool st.pool id now st.queue.queue before after a;
        offered = h.offered;
        bounded = h.bounded;
      }

  Reachable-IsSound :
      (st st' : DataIngestPipeline Angle) → Reachable st st' → IsSound st → IsSound st'
  Reachable-IsSound st st' here h = h
  Reachable-IsSound st st' (step st1 _ r s) h =
      Step-IsSound st1 st' s (Reachable-IsSound st st1 r h)

  pub new_pipeline-IsSound :
      (c : SignalBlockPoolConfig) (capacity : ℕ) (accepting_on_start : Bool)
      → IsSound (new_pipeline c capacity accepting_on_start)
  new_pipeline-IsSound c capacity accepting_on_start = record {
    accounted = new_pool-IsAccounted c;
    offered = refl;
    bounded = omega arith;
  }

  -- In whatever order the pipeline is started, stopped, fed and cleared and its engine takes blocks
  -- and lets them go: every block is in one place alone, free, queued or with the engine, and no
  -- block is lost; the blocks in use by the pool's counters are those queued and with the engine;
  -- the queue holds no more than its capacity; and the blocks that the metrics count as input are
  -- those that the queue counts as pushed or dropped.
  pub Reachable-ownership :
      (c : SignalBlockPoolConfig) (capacity : ℕ) (accepting_on_start : Bool)
      (st : DataIngestPipeline Angle)
      → Reachable (new_pipeline c capacity accepting_on_start) st
      → IsSound st
        × ((id : ℕ)
            → count id st.pool.available + count id st.queue.queue + count id st.processing ≤ 1)
        × ((counters st.pool).in_use ≡ length st.queue.queue + length st.processing)
        × ((counters st.pool).in_use + (counters st.pool).released ≡ (counters st.pool).acquired)
  unfolding counters
  Reachable-ownership c capacity accepting_on_start st r =
      let s = Reachable-IsSound _ st r (new_pipeline-IsSound c capacity accepting_on_start) in
      let a = s.accounted in
      let out = length-append st.queue.queue st.processing in
      (
        s,
        λ id. omega (
          arith,
          a.one_holder id,
          count-append id st.queue.queue st.processing,
          count-down_from st.block_pool.block_count id,
        ),
        omega (arith, a.all_blocks, out, a.total),
        omega (arith, a.balance, a.all_blocks, out, a.total),
      )
