-- ===== src/Transport/BridgeTests.antt =====
-- Runs of the bridge, and an instance of its theorem.
use sirius_scope.Prelude.{ℕ, ◌≡◌, refl, false, true, some, List, [], ◌∷◌}
use sirius_scope.Prelude.Int.{pos}
use sirius_scope.Domain.{SignalSample}
use sirius_scope.Transport.Pool.{no_metadata}
use sirius_scope.Transport.Ingest.{DataIngestPipeline, new_pipeline, ingest_samples}
use sirius_scope.Transport.Bridge.{
  BcoSampleBlock, SourceToPipelineBridgeConfig, rx_drop_oldest, submit, start_bridge, worker_wake,
  worker_ingest, clear_bridge, overflow_block, record_drop, begin_stop_bridge,
}
use sirius_scope.Transport.Bridge.Calls.{
  BridgeCall, submit_call, start_call, clear_call, wake_call, ingest_call, begin_stop_call, IsKept,
  new_ledger, call_bridge_all, new_ledger-IsKept,
}

abbrev sample : SignalSample
sample = record {
  sample_index = 3;
  band_index = pos 0;
  frequency_offset_hz = pos 0;
  absolute_frequency_hz = pos 1_000;
  amplitude = pos 5;
  beam_index = pos 1;
}

abbrev block : BcoSampleBlock ℕ
block = record { samples = sample ∷ sample ∷ []; metadata = no_metadata }

abbrev stopped_pipeline : DataIngestPipeline ℕ
stopped_pipeline = new_pipeline (record { block_count = 2; max_samples_per_block = 3 }) 1 false

abbrev bridge_config : SourceToPipelineBridgeConfig
bridge_config = record { queue_capacity = 1; rx_overflow_policy = rx_drop_oldest }

abbrev calls : List (BridgeCall ℕ)
calls =
    submit_call (some block)
    ∷ start_call true
    ∷ submit_call (some block)
    ∷ submit_call (some block)
    ∷ wake_call
    ∷ clear_call
    ∷ ingest_call 4
    ∷ submit_call (some block)
    ∷ begin_stop_call
    ∷ []

-- The block that the worker held at the clearing is rejected by the pipeline, which is stopped.
calls_run :
    (call_bridge_all
      (new_ledger bridge_config stopped_pipeline)
      calls).bridge.metrics.rejected_blocks
    ≡ 1
unfolding submit start_bridge worker_wake worker_ingest clear_bridge overflow_block record_drop
    ingest_samples begin_stop_bridge
calls_run = refl

new_ledger-IsKept_example :
    IsKept (call_bridge_all (new_ledger bridge_config stopped_pipeline) calls)
new_ledger-IsKept_example = new_ledger-IsKept bridge_config stopped_pipeline calls
