-- ===== src/Transport/Ingest.antt =====
-- `DataIngestPipeline` of src/pipeline/data_ingest_pipeline.cpp: `ingestSamples`, `start`, `stop`,
-- `setAccepting`, `clearQueuedBlocks`, with the counters of `PipelineMetrics` and
-- `PipelineDiagnostics` that they change, and the processing engine as the consumer of the queue.
-- One call of `ingestSamples` is one step, and one reading of the clock stands for those of a call.
pub mod Branches
pub mod Outcome
pub mod Counting
pub mod Ownership
use sirius_scope.Prelude.{
  ℕ, ◌+◌, ◌%◌, ◌^◌, ◌≡◌, Bool, true, false, not, Option, none, some, List, [], ◌∷◌, ◌++◌, length,
  ltb, if◌then◌else◌,
}
use sirius_scope.Domain.{SignalSample}
use sirius_scope.Transport.Block.{SignalBlock, SignalBlockMetadata, assign_samples, stamp}
use sirius_scope.Transport.Block
use sirius_scope.Transport.Pool.{
  SignalBlockPoolConfig, SignalBlockPool, acquire, release, release_all, block_at, write_block,
  new_pool,
}
use sirius_scope.Transport.Queue.{BlockQueue, try_push, try_pop, shutdown, clear, new_queue}
use sirius_scope.Transport.Queue

-- The failures of `ingestSamples`, by their messages.
pub data IngestError : Type 0 where
  not_running not_accepting exceeds_capacity pool_exhausted storage_rejected queue_full :
      IngestError

pub data IngestResult : Type 0 where
  accepted : IngestResult
  failure : IngestError → IngestResult

-- `m_inputBlocks`, `m_inputSamples`, `m_droppedBlocks` and `m_droppedSamples` of `PipelineMetrics`.
pub record PipelineMetrics : Type 0 where
  pub input_blocks : ℕ
  pub input_samples : ℕ
  pub dropped_blocks : ℕ
  pub dropped_samples : ℕ

-- The counters of `PipelineDiagnostics` for dropped blocks and full queues.
pub record PipelineDiagnostics : Type 0 where
  pub dropped_blocks : ℕ
  pub dropped_samples : ℕ
  pub queue_overflows : ℕ

pub record DataIngestPipeline {ℓ} (Angle : Type ℓ) : Type ℓ where
  pub block_pool : SignalBlockPoolConfig
  pub accepting_on_start : Bool
  pub running : Bool
  pub accepting : Bool
  pub next_sequence_id : ℕ
  pub pool : SignalBlockPool Angle
  pub queue : BlockQueue ℕ
  pub metrics : PipelineMetrics
  pub diagnostics : PipelineDiagnostics
  -- The blocks that the processing engine has popped and not yet let go.
  pub processing : List ℕ

abbrev pub no_metrics : PipelineMetrics
no_metrics = record { input_blocks = 0; input_samples = 0; dropped_blocks = 0; dropped_samples = 0 }

module _ {ℓ} {Angle : Type ℓ} where
  abbrev pub new_pipeline : SignalBlockPoolConfig → ℕ → Bool → DataIngestPipeline Angle
  new_pipeline pool_config capacity accepting_on_start = record {
    block_pool = pool_config;
    accepting_on_start = accepting_on_start;
    running = false;
    accepting = false;
    next_sequence_id = 1;
    pool = new_pool pool_config;
    queue = new_queue capacity;
    metrics = no_metrics;
    diagnostics = record { dropped_blocks = 0; dropped_samples = 0; queue_overflows = 0 };
    processing = [];
  }

  unfoldable pub record_input_block : DataIngestPipeline Angle → ℕ → DataIngestPipeline Angle
  record_input_block st n = record st {
    metrics = record st.metrics {
      input_blocks = st.metrics.input_blocks + 1;
      input_samples = st.metrics.input_samples + n;
    };
  }

  unfoldable pub record_dropped_block : DataIngestPipeline Angle → ℕ → DataIngestPipeline Angle
  record_dropped_block st n = record st {
    metrics = record st.metrics {
      dropped_blocks = st.metrics.dropped_blocks + 1;
      dropped_samples = st.metrics.dropped_samples + n;
    };
    diagnostics = record st.diagnostics {
      dropped_blocks = st.diagnostics.dropped_blocks + 1;
      dropped_samples = st.diagnostics.dropped_samples + n;
    };
  }

  abbrev pub record_queue_overflow : DataIngestPipeline Angle → DataIngestPipeline Angle
  record_queue_overflow st = record st {
    diagnostics = record st.diagnostics { queue_overflows = st.diagnostics.queue_overflows + 1 };
  }

  -- From `recordInputBlock` on. The handle that the queue does not take ends with the call.
  unfoldable pub enqueue :
      DataIngestPipeline Angle → ℕ → ℕ → ℕ → DataIngestPipeline Angle × IngestResult
  unfolding record_input_block record_dropped_block
  enqueue st id n now =
      let st1 = record_input_block st n in
      let (queue', pushed) = try_push st1.queue (some id) in
      let refused = record st1 { queue = queue'; pool = release st1.pool now id } in
      if pushed
      then (record st1 { queue = queue' }, accepted)
      else (record_queue_overflow (record_dropped_block refused n), failure queue_full)

  -- From the answer of the pool on.
  unfoldable pub fill :
      DataIngestPipeline Angle
      → List SignalSample
      → SignalBlockMetadata Angle
      → ℕ
      → SignalBlockPool Angle × Option ℕ
      → DataIngestPipeline Angle × IngestResult
  unfolding enqueue record_dropped_block
  fill st samples metadata now (pool', none) =
      (record_dropped_block (record st { pool = pool' }) (length samples), failure pool_exhausted)
  fill st samples metadata now (pool', some id) =
      let metadata' = stamp (record metadata { sequence_id = st.next_sequence_id }) now in
      let (block, fits) = assign_samples (Block.reset (block_at pool' id) metadata' now) samples in
      let pool'' = write_block pool' id block in
      let numbered = record st { next_sequence_id = (st.next_sequence_id + 1) % 2 ^ 64 } in
      let rejected = record numbered { pool = release pool'' now id } in
      if fits
      then enqueue (record numbered { pool = pool'' }) id (length block.samples) now
      else (record_dropped_block rejected (length samples), failure storage_rejected)

  unfoldable pub ingest_samples :
      DataIngestPipeline Angle
      → List SignalSample
      → SignalBlockMetadata Angle
      → ℕ
      → DataIngestPipeline Angle × IngestResult
  unfolding fill record_dropped_block
  ingest_samples st samples metadata now =
      let dropped = record_dropped_block st (length samples) in
      if not st.running
      then (dropped, failure not_running)
      else if not st.accepting
      then (dropped, failure not_accepting)
      else if ltb st.block_pool.max_samples_per_block (length samples)
      then (dropped, failure exceeds_capacity)
      else fill st samples metadata now (acquire st.pool now)

  -- `started` is the engine's answer.
  unfoldable pub start : DataIngestPipeline Angle → ℕ → Bool → DataIngestPipeline Angle × Bool
  start st now started =
      let ready = record st {
        pool = release_all st.pool now st.queue.queue;
        queue = Queue.reset st.queue;
        metrics = no_metrics;
        accepting = st.accepting_on_start;
      } in
      if st.running
      then (st, true)
      else if started
      then (record ready { running = true }, true)
      else (ready, false)

  -- `stop` up to `m_engine.stop()`, which joins the threads of the engine.
  unfoldable pub begin_stop : DataIngestPipeline Angle → DataIngestPipeline Angle
  begin_stop st = record st { accepting = false; queue = shutdown st.queue }

  unfoldable pub clear_queued_blocks : DataIngestPipeline Angle → ℕ → DataIngestPipeline Angle
  clear_queued_blocks st now = record st {
    pool = release_all st.pool now st.queue.queue;
    queue = clear st.queue;
  }

  -- The rest of `stop`, when the engine has stopped.
  unfoldable pub end_stop : DataIngestPipeline Angle → ℕ → DataIngestPipeline Angle
  unfolding clear_queued_blocks
  end_stop st now = record (clear_queued_blocks st now) { running = false }

  unfoldable pub set_accepting : DataIngestPipeline Angle → Bool → DataIngestPipeline Angle
  set_accepting st accepting = record st { accepting = accepting }

  -- A step of the program: a call of the pipeline, or what its engine does with the queue. The
  -- engine lets go of any of the blocks that it holds, and holds none when it has stopped.
  pub data Step : DataIngestPipeline Angle → DataIngestPipeline Angle → Type ℓ where
    ingest_step :
        (st : DataIngestPipeline Angle) (samples : List SignalSample)
        (metadata : SignalBlockMetadata Angle) (now : ℕ)
        → Step st (ingest_samples st samples metadata now).0
    start_step :
        (st : DataIngestPipeline Angle) (now : ℕ) (started : Bool)
        → Step st (start st now started).0
    begin_stop_step : (st : DataIngestPipeline Angle) → Step st (begin_stop st)
    end_stop_step :
        (st : DataIngestPipeline Angle) (now : ℕ) → st.processing ≡ [] → Step st (end_stop st now)
    accepting_step :
        (st : DataIngestPipeline Angle) (accepting : Bool) → Step st (set_accepting st accepting)
    clear_step : (st : DataIngestPipeline Angle) (now : ℕ) → Step st (clear_queued_blocks st now)
    take_step :
        (st : DataIngestPipeline Angle) (id : ℕ) (queue : BlockQueue ℕ)
        → try_pop st.queue ≡ (queue, some id)
        → Step st (record st { queue = queue; processing = id ∷ st.processing })
    done_step :
        (st : DataIngestPipeline Angle) (before after : List ℕ) (id now : ℕ)
        → st.processing ≡ before ++ id ∷ after
        → Step st (record st { pool = release st.pool now id; processing = before ++ after })

  pub data Reachable (st : DataIngestPipeline Angle) : DataIngestPipeline Angle → Type ℓ where
    here : Reachable st st
    step : (st1 st2 : DataIngestPipeline Angle) → Reachable st st1 → Step st1 st2 → Reachable st st2
