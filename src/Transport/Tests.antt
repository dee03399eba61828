-- ===== src/Transport/Tests.antt =====
-- Runs of the queue and of the ingest, and instances of their theorems.
use sirius_scope.Prelude.{All, arith}
use sirius_scope.Transport.Block.Range.{Within, assign_samples-Within}
use sirius_scope.Transport.Block.{SignalBlock}
use sirius_scope.Prelude.{
  ℕ, suc, ◌+◌, ◌≤◌, ◌≡◌, ◌↔◌, ◌≢◌, refl, true, false, not, ◌&&◌, none, some, List, [], ◌∷◌, length,
  leb, if◌then◌else◌,
}
use sirius_scope.Prelude.Int.{pos}
use sirius_scope.Domain.{SignalSample}
use sirius_scope.Transport.Block.{SignalBlock, SignalBlockMetadata, assign_samples, cover}
use sirius_scope.Transport.Block
use sirius_scope.Transport.Pool.{SignalBlockPoolConfig, no_metadata, counters, acquire}
use sirius_scope.Prelude.Counts.{count}
use sirius_scope.Transport.Pool.Holders.{new_pool-IsAccounted}
use sirius_scope.Transport.Queue.{
  BlockQueue, new_queue, push, try_push, push_back, count_dropped, shutdown,
}
use sirius_scope.Transport.Queue
use sirius_scope.Transport.Queue.Fifo.{
  QueueCall, push_call, try_push_call, pop_call, shutdown_call, clear_call, IsFifo, call_all,
  new_log, new_queue-IsFifo,
}
use sirius_scope.Transport.Queue.Shutdown.{push-try_push, pop_all, shutdown-drains}
use sirius_scope.Transport.Ingest.{
  DataIngestPipeline, accepted, failure, storage_rejected, new_pipeline, ingest_samples, start,
  Reachable, here, step, ingest_step, start_step, fill, enqueue, record_input_block,
}
use sirius_scope.Transport.Ingest.Branches.{made_block}
use sirius_scope.Transport.Ingest.Outcome.{
  IsOpen, IsQueued, ingest_samples-accepts, ingest_samples-IsQueued,
}
use sirius_scope.Transport.Ingest.Counting.{CountedOnce, ingest_samples-CountedOnce}
use sirius_scope.Transport.Ingest.Ownership.{IsSound, Reachable-ownership}

abbrev calls : List (QueueCall ℕ)
calls =
    push_call (some 7)
    ∷ try_push_call (some 8)
    ∷ push_call (some 9)
    ∷ pop_call
    ∷ try_push_call none
    ∷ clear_call
    ∷ shutdown_call
    ∷ push_call (some 5)
    ∷ []

new_queue-IsFifo_example : IsFifo 2 (call_all (new_log 2) calls)
new_queue-IsFifo_example = new_queue-IsFifo 2 calls

-- Two blocks in a queue of two places.
abbrev full_queue : BlockQueue ℕ
full_queue = push_back (push_back (new_queue 2) 7) 8

push-try_push_example : push full_queue (some 9) ≡ (
    if not full_queue.is_shutdown && leb full_queue.capacity (length full_queue.queue)
    then none
    else some (try_push full_queue (some 9)))
push-try_push_example = push-try_push full_queue 9

abbrev half_queue : BlockQueue ℕ
half_queue = push_back (new_queue 2) 7

shutdown-drains_example :
    (push (shutdown full_queue) (some 9) ≡ some (count_dropped (shutdown full_queue), false))
    × (try_push (shutdown full_queue) (some 9) ≡ (count_dropped (shutdown full_queue), false))
    × (pop_all (suc (length full_queue.queue)) (shutdown full_queue)
        ≡ some (
          full_queue.queue,
          record (shutdown full_queue) {
            queue = [];
            popped_blocks = full_queue.popped_blocks + length full_queue.queue;
          },
        ))
shutdown-drains_example = shutdown-drains full_queue 9

abbrev pool_config : SignalBlockPoolConfig
pool_config = record { block_count = 2; max_samples_per_block = 3 }

abbrev sample : ℕ → SignalSample
sample i = record {
  sample_index = i;
  band_index = pos 0;
  frequency_offset_hz = pos 0;
  absolute_frequency_hz = pos 1_000;
  amplitude = pos 5;
  beam_index = pos 1;
}

abbrev samples : List SignalSample
samples = sample 40 ∷ sample 44 ∷ []

-- A pipeline with two blocks and one place in the queue, before and after its start.
abbrev stopped_pipeline : DataIngestPipeline ℕ
stopped_pipeline = new_pipeline pool_config 1 true

abbrev running_pipeline : DataIngestPipeline ℕ
running_pipeline = record stopped_pipeline { running = true; accepting = true }

start_run : start stopped_pipeline 9 true ≡ (running_pipeline, true)
unfolding start Queue.reset
start_run = refl

ingest_run : (ingest_samples running_pipeline samples no_metadata 9).1 ≡ accepted
unfolding ingest_samples fill enqueue acquire Block.reset assign_samples record_input_block try_push
ingest_run = refl

ingest_samples-accepts_example :
    (((ingest_samples running_pipeline samples no_metadata 9).1 ≡ accepted)
      ↔ IsOpen running_pipeline 2)
    × ((ingest_samples running_pipeline samples no_metadata 9).1 ≢ failure storage_rejected)
ingest_samples-accepts_example =
    ingest_samples-accepts running_pipeline samples no_metadata 9 []
      (new_pool-IsAccounted pool_config)

ingest_samples-CountedOnce_example :
    CountedOnce running_pipeline 2 (ingest_samples running_pipeline samples no_metadata 9)
ingest_samples-CountedOnce_example =
    ingest_samples-CountedOnce running_pipeline samples no_metadata 9 []
      (new_pool-IsAccounted pool_config)

ingest_samples-IsQueued_example :
    IsQueued running_pipeline
      (made_block running_pipeline samples no_metadata 9)
      (ingest_samples running_pipeline samples no_metadata 9).0
ingest_samples-IsQueued_example =
    ingest_samples-IsQueued running_pipeline samples no_metadata 9 []
      (new_pool-IsAccounted pool_config) ingest_run

abbrev fed : DataIngestPipeline ℕ
fed = (ingest_samples (start stopped_pipeline 9 true).0 samples no_metadata 9).0

fed-Reachable : Reachable stopped_pipeline fed
fed-Reachable =
    step (start stopped_pipeline 9 true).0 fed
      (step stopped_pipeline (start stopped_pipeline 9 true).0 here
        (start_step stopped_pipeline 9 true))
      (ingest_step (start stopped_pipeline 9 true).0 samples no_metadata 9)

Reachable-ownership_example :
    IsSound fed
    × ((id : ℕ)
        → count id fed.pool.available + count id fed.queue.queue + count id fed.processing ≤ 1)
    × ((counters fed.pool).in_use ≡ length fed.queue.queue + length fed.processing)
    × ((counters fed.pool).in_use + (counters fed.pool).released ≡ (counters fed.pool).acquired)
Reachable-ownership_example = Reachable-ownership pool_config 1 true fed fed-Reachable

abbrev empty_block : SignalBlock ℕ
empty_block = record { metadata = no_metadata; max_samples = 3; samples = [] }

abbrev filled_block : SignalBlock ℕ
filled_block = (assign_samples empty_block samples).0

assign_run : (assign_samples empty_block samples).1 ≡ true
unfolding assign_samples
assign_run = refl

assign_samples-Within_example :
    (filled_block.samples ≡ samples)
    × (length filled_block.samples ≤ filled_block.max_samples)
    × All
        (Within filled_block.metadata.first_sample_index filled_block.metadata.last_sample_index)
        filled_block.samples
assign_samples-Within_example =
    assign_samples-Within empty_block samples (omega arith, (omega arith, _)) assign_run
