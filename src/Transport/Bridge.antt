-- ===== src/Transport/Bridge.antt =====
-- `SourceToPipelineBridge` of src/pipeline/source_to_pipeline_bridge.cpp: the queue between the
-- receiver's callback and the worker that feeds the ingest. Each function is one section under the
-- lock; the worker's two sections are `worker_wake` and `worker_ingest`. The counters are not
-- bounded by 64 bits, and latencies and published messages are left out.
pub mod Balance
pub mod Calls
use sirius_scope.Prelude.{
  ℕ, zero, suc, ◌+◌, Bool, true, false, not, ◌&&◌, ◌||◌, Option, none, some, List, [], ◌∷◌, ◌++◌,
  length, leb, if◌then◌else◌,
}
use sirius_scope.Domain.{SignalSample}
use sirius_scope.Transport.Block.{SignalBlockMetadata}
use sirius_scope.Transport.Ingest.{
  DataIngestPipeline, IngestResult, accepted, failure, ingest_samples,
}

pub data RxOverflowPolicy : Type 0 where
  rx_drop_newest rx_drop_oldest : RxOverflowPolicy

pub record SourceToPipelineBridgeConfig : Type 0 where
  pub queue_capacity : ℕ
  pub rx_overflow_policy : RxOverflowPolicy

-- `BcoSampleBlock`: the samples, and of its statistics what becomes the metadata of a block.
pub record BcoSampleBlock {ℓ} (Angle : Type ℓ) : Type ℓ where
  pub samples : List SignalSample
  pub metadata : SignalBlockMetadata Angle

-- `m_metrics` without the depth and the capacity, which `metrics` fills in.
pub record SourceToPipelineBridgeMetrics : Type 0 where
  pub received_blocks : ℕ
  pub received_samples : ℕ
  pub enqueued_blocks : ℕ
  pub enqueued_samples : ℕ
  pub dropped_blocks : ℕ
  pub dropped_samples : ℕ
  pub ingested_blocks : ℕ
  pub ingested_samples : ℕ
  pub rejected_blocks : ℕ
  pub rejected_samples : ℕ

pub record SourceToPipelineBridge {ℓ} (Angle : Type ℓ) : Type ℓ where
  pub config : SourceToPipelineBridgeConfig
  pub queue : List (BcoSampleBlock Angle)
  pub metrics : SourceToPipelineBridgeMetrics
  pub running : Bool
  pub stop_requested : Bool
  pub ingest_in_progress : Bool
  pub overflow_published : Bool
  -- Whether there is a worker thread, `m_worker.joinable()`.
  pub joinable : Bool
  -- The local variable `block` of `workerLoop`, while it holds one.
  pub worker_block : Option (BcoSampleBlock Angle)

abbrev pub no_bridge_metrics : SourceToPipelineBridgeMetrics
no_bridge_metrics = record {
  received_blocks = 0;
  received_samples = 0;
  enqueued_blocks = 0;
  enqueued_samples = 0;
  dropped_blocks = 0;
  dropped_samples = 0;
  ingested_blocks = 0;
  ingested_samples = 0;
  rejected_blocks = 0;
  rejected_samples = 0;
}

abbrev pub is_accepted : IngestResult → Bool
is_accepted accepted = true
is_accepted (failure e) = false

module _ {ℓ} {Angle : Type ℓ} where
  abbrev pub new_bridge : SourceToPipelineBridgeConfig → SourceToPipelineBridge Angle
  new_bridge c = record {
    config = c;
    queue = [];
    metrics = no_bridge_metrics;
    running = false;
    stop_requested = false;
    ingest_in_progress = false;
    overflow_published = false;
    joinable = false;
    worker_block = none;
  }

  abbrev pub count_of : BcoSampleBlock Angle → ℕ
  count_of block = length block.samples

  -- `recordDropLocked`
  unfoldable pub record_drop :
      SourceToPipelineBridgeMetrics → BcoSampleBlock Angle → SourceToPipelineBridgeMetrics
  record_drop m block = record m {
    dropped_blocks = m.dropped_blocks + 1;
    dropped_samples = m.dropped_samples + count_of block;
  }

  abbrev pub record_drops :
      SourceToPipelineBridgeMetrics → List (BcoSampleBlock Angle) → SourceToPipelineBridgeMetrics
  record_drops m [] = m
  record_drops m (block ∷ blocks) = record_drops (record_drop m block) blocks

  -- `push_back` and the two counters behind it.
  abbrev pub enqueue_block :
      SourceToPipelineBridge Angle → BcoSampleBlock Angle → SourceToPipelineBridge Angle
  enqueue_block b block = record b {
    queue = b.queue ++ block ∷ [];
    metrics = record b.metrics {
      enqueued_blocks = b.metrics.enqueued_blocks + 1;
      enqueued_samples = b.metrics.enqueued_samples + count_of block;
    };
  }

  abbrev pub drop_block :
      SourceToPipelineBridge Angle → BcoSampleBlock Angle → SourceToPipelineBridge Angle
  drop_block b block = record b { metrics = record_drop b.metrics block }

  -- A block that meets a full queue, whose blocks are the last argument.
  unfoldable pub overflow_block :
      RxOverflowPolicy
      → SourceToPipelineBridge Angle
      → BcoSampleBlock Angle
      → List (BcoSampleBlock Angle)
      → SourceToPipelineBridge Angle
  unfolding record_drop
  overflow_block rx_drop_newest b block queue = drop_block b block
  overflow_block rx_drop_oldest b block [] = drop_block b block
  overflow_block rx_drop_oldest b block (oldest ∷ rest) =
      enqueue_block (record (drop_block b oldest) { queue = rest }) block

  -- `none` is a null pointer.
  unfoldable pub submit :
      SourceToPipelineBridge Angle → Option (BcoSampleBlock Angle) → SourceToPipelineBridge Angle
  unfolding overflow_block
  submit b none = b
  submit b (some block) =
      let received = record b {
        metrics = record b.metrics {
          received_blocks = b.metrics.received_blocks + 1;
          received_samples = b.metrics.received_samples + count_of block;
        };
      } in
      let overflowing = record received { overflow_published = true } in
      if not b.running || b.stop_requested
      then drop_block received block
      else if leb b.config.queue_capacity (length b.queue)
      then overflow_block b.config.rx_overflow_policy overflowing block b.queue
      else enqueue_block received block

  -- `started` tells whether the thread could be made; the pipeline is there.
  unfoldable pub start_bridge :
      SourceToPipelineBridge Angle → Bool → SourceToPipelineBridge Angle × Bool
  start_bridge b started =
      let ready = record b {
        queue = [];
        metrics = no_bridge_metrics;
        stop_requested = false;
        ingest_in_progress = false;
        overflow_published = false;
        running = true;
      } in
      if b.running
      then (b, true)
      else if started
      then (record ready { joinable = true }, true)
      else (record ready { running = false; stop_requested = true }, false)

  -- `stop` up to the join of the worker.
  unfoldable pub begin_stop_bridge : SourceToPipelineBridge Angle → SourceToPipelineBridge Angle
  begin_stop_bridge b =
      if not b.running && not b.joinable
      then b
      else record b { stop_requested = true; metrics = record_drops b.metrics b.queue; queue = [] }

  -- The rest of `stop`, when the worker has left its loop.
  unfoldable pub end_stop_bridge : SourceToPipelineBridge Angle → SourceToPipelineBridge Angle
  end_stop_bridge b = if not b.running && not b.joinable then b else record b {
    running = false;
    stop_requested = false;
    ingest_in_progress = false;
    joinable = false;
  }

  unfoldable pub clear_bridge : SourceToPipelineBridge Angle → SourceToPipelineBridge Angle
  clear_bridge b = record b { queue = []; metrics = no_bridge_metrics; overflow_published = false }

  -- The worker's first section: it takes a block, or it waits or leaves where there is none.
  abbrev pub take_block :
      SourceToPipelineBridge Angle → List (BcoSampleBlock Angle) → SourceToPipelineBridge Angle
  take_block b [] = b
  take_block b (block ∷ rest) = record b {
    queue = rest;
    ingest_in_progress = true;
    worker_block = some block;
  }

  unfoldable pub worker_wake : SourceToPipelineBridge Angle → SourceToPipelineBridge Angle
  worker_wake b = take_block b b.queue

  -- The worker's second section, for the answer of the ingest to its block.
  unfoldable pub count_ingest :
      SourceToPipelineBridge Angle → BcoSampleBlock Angle → Bool → SourceToPipelineBridge Angle
  count_ingest b block ingested =
      let m = b.metrics in
      let ingested_metrics = record m {
        ingested_blocks = m.ingested_blocks + 1;
        ingested_samples = m.ingested_samples + count_of block;
      } in
      let rejected_metrics = record m {
        rejected_blocks = m.rejected_blocks + 1;
        rejected_samples = m.rejected_samples + count_of block;
      } in
      record b {
        metrics = if ingested then ingested_metrics else rejected_metrics;
        ingest_in_progress = false;
        worker_block = none;
      }

  -- The call of `ingestSamples` with the worker's block, and the section behind it.
  unfoldable pub worker_ingest :
      SourceToPipelineBridge Angle
      → DataIngestPipeline Angle
      → ℕ
      → Option (BcoSampleBlock Angle)
      → SourceToPipelineBridge Angle × DataIngestPipeline Angle
  unfolding count_ingest
  worker_ingest b pipeline now none = (b, pipeline)
  worker_ingest b pipeline now (some block) =
      let (pipeline', result) = ingest_samples pipeline block.samples block.metadata now in
      (count_ingest b block (is_accepted result), pipeline')
