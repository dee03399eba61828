-- ===== src/Lib.antt =====
-- A model of the signal path of SiriusScope, a program that receives samples of a direction finder
-- over UDP, moves them in blocks through a bounded queue to a processing engine, and shows
-- waterfall rows, spectra and bearings.
--
-- The parts and how they meet: a UDP packet is decoded to samples (Wire); the bridge queues
-- batches of samples, and its worker hands them to the ingest, where a batch becomes a block of
-- the pool and goes into the bounded queue (Transport), from which the processing engine takes it;
-- the engine hands a block to its stages and keeps the summary (Engine); a stage gives the samples
-- to its aggregator: the waterfall aggregator makes rows of them, which go to the view through a
-- queue of rows (Waterfall), and the spectrum aggregator finds the window of each sample, raises a
-- bin of it and makes a snapshot of each window (Spectrum).
--
-- Domain is `SignalSample` of src/core/domain_models.h.
--
-- Wire is modules/bco-generator/src/protocol.cpp: Wire/Bytes has `put` and `get`, Wire/Header has
-- `writeHeader`, `valid`, `decodeHeader` and `encodeStop`, Wire/Data has `encodeData` and
-- `decodeData`, Wire/Subscribe has `encodeSubscription` and `decodeSubscription`, and
-- Wire/Sequence has `SequenceTracker::accept`. A buffer is a list of bytes; a failed call gives
-- its error.
--
-- Transport is the way to the engine. Transport/Bridge is
-- src/pipeline/source_to_pipeline_bridge.cpp, whose worker calls `ingest_samples`: `submit` is
-- `submit`, `start_bridge`, `clear_bridge` and the two halves of `stop` are the calls of those
-- names, and `worker_wake` and `worker_ingest` are the two sections of `workerLoop`.
-- Transport/Block is src/pipeline/signal_block.cpp, Transport/Pool is
-- src/pipeline/signal_block_pool.cpp (a handle is the place of its block in the pool, and the end
-- of its life is a call of `release`), Transport/Queue is src/pipeline/bounded_block_queue.h (a
-- call is what happens under the lock, and one that would wait gives none), and Transport/Ingest
-- is src/pipeline/data_ingest_pipeline.cpp: `ingest_samples` is `ingestSamples`, `start` is
-- `start`, `begin_stop` and `end_stop` are `stop` before and after the threads of the engine are
-- joined, and `Step` is any of its calls or the engine taking a block or letting one go. One call
-- of the pipeline is one step.
--
-- Engine is src/pipeline/processing_engine.cpp. Engine/Accounting has `makeBlockAccounting` and
-- `recordBlockCompleted`, with the map of a block as a list in the order of its keys.
-- Engine/Stages has `submitFanOutContext` and its helpers, with one definition for each loop of
-- the source and `trimmed` for what a policy leaves of a queue. Engine/FanOut is the parallel
-- mode: `begin_block` is the round of `workerLoop` up to the submission, `complete_skipped` and
-- `process_rejected` are what the worker does after it, `end_block` is the end of the round, and
-- `pop_fan_out_stage_job` and `finish_stage_job` are the round of `stageWorkerLoop`. A context is
-- its place in the list of all of them, so that the queues and the threads share it as the shared
-- pointers do, and a theorem on the threads is on any list of their steps.
--
-- Spectrum/Window is the part of src/pipeline/spectrum_aggregator.cpp that finds the window of a
-- sample: `window_for_sample` is `windowForSample` with its three modes, and `advance` is the loop
-- of `incrementalWindowForSample`. Spectrum/Bins is what that file does with the bins of a window:
-- `update_bin` is `updateBinForSample`, `update_local_bin` is `updateLocalBinForSample`, and
-- `merge_local_bins` is the part of `mergeLocalAccumulationIntoOpenWindow` on the bins.
-- Spectrum/Bands does the same for the summaries of the bands. Spectrum/Consume is `consume` and
-- `flush` on them: its State is the aggregator, Judge are the tests of a sample, Snapshot is
-- `openWindow` and `closeOpenWindow`, and Accumulation is `prepareLocalAccumulationBuffers`,
-- `updateLocalWindowBounds` and `mergeLocalAccumulationIntoOpenWindow`. `loop_direct` is the loop
-- of `consume` where a sample goes into the open window at once, and `loop_local` the one where a
-- block is accumulated first. Spectrum/Consume/Trusted is `consumeTrustedBlockLocalFast`, and its
-- `consume_samples` is `consume` with its choice of the way. Measured times are left out, and the
-- time at which a snapshot is made.
--
-- Waterfall/Bins and Waterfall/Rows are src/pipeline/waterfall_aggregator.cpp:
-- `bucket_for_sample`, `utc_ns_for_bucket` and `bin_for_frequency` are the functions of those
-- names; `consume` and `flush` return the aggregator with their result, and one round of the loop
-- of `consume` is `consume_sample`, which goes through `place_in_bucket`, `place_in_bin`,
-- `enter_bucket` and `add_sample_to_open_row`. Waterfall/RowQueue is
-- src/pipeline/waterfall_row_queue.cpp, through which the engine hands the rows to the view:
-- `push_rows`, `drain`, `reset_rows` and `set_config`.
--
-- Bounds: the fields of a packet and the sums of the sequence tracker are machine words with their
-- wrap-around; sample indices and windows are compared with the largest 64-bit word where the
-- source does so, and its 128-bit products are exact; the 64-bit product of the bin's fast path
-- wraps. Counters that only count calls are not bounded. The loop `advance` takes fuel: more than
-- the number of the window that it looks for is enough, and as many rounds as there are 64-bit
-- words always are.
--
-- Not modelled: floating-point code (azimuths, bearings, the rates and times of the metrics), the
-- Qt models and controllers, sockets, files and logging, the summaries of the spectrum's bands
-- where they are not kept in fixed places, and the bearing and signal parameter aggregators.
-- Threads are modelled by the order of the locked calls.
pub mod Prelude
pub mod Wire
pub mod Domain
pub mod Spectrum
pub mod Transport
pub mod Waterfall
pub mod Engine
