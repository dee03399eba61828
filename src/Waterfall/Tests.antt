-- ===== src/Waterfall/Tests.antt =====
-- Runs of the waterfall's functions, and instances of their theorems.
use sirius_scope.Prelude.{
  ℕ, ◌⊎◌, ◌^◌, ◌≤◌, ◌<◌, ◌≡◌, ◌↔◌, refl, some, List, [], ◌∷◌, length, All, arith,
}
use sirius_scope.Prelude.Int.{pos, negsuc, ◌≤ℤ◌, ◌-ℤ◌}
use sirius_scope.Domain.{SignalSample}
use sirius_scope.Waterfall.Bins.{
  WaterfallAggregatorConfig, bucket_for_sample, utc_ns_for_bucket, bin_for_frequency, bin_of_offset,
  max_i64,
}
use sirius_scope.Waterfall.Bins.Fast.{Binned, bin_for_frequency_iff, bin_for_frequency-monotone}
use sirius_scope.Waterfall.Bins.Time.{Fits, Stays, utc_ns_for_bucket-saturates}
use sirius_scope.Waterfall.Rows.{
  WaterfallAggregator, new_aggregator, no_result, consume, consume_sample, add_to_row, flush, Work,
}
use sirius_scope.Waterfall.Rows.Counting.{IsCounted, consume-IsCounted}
use sirius_scope.Waterfall.Rows.Flush.{IsFlushed, flush-IsFlushed}
use sirius_scope.Waterfall.Rows.Shape.{IsRow, IsShaped}
use sirius_scope.Waterfall.Rows.Runs.{rows_of_run, rows_of_run-IsRow}
use sirius_scope.Waterfall.Rows.Place.{IsPlaced, consume_sample-IsPlaced}
use sirius_scope.Waterfall.RowQueue.{
  WaterfallRowQueue, WaterfallRowQueueConfig, drop_oldest, set_config, push_rows, no_row_metrics,
}
use sirius_scope.Waterfall.RowQueue.Numbers.{
  push_rows_call, drain_call, IsConsistent, run_row_queue, run_row_queue-IsConsistent,
}
use sirius_scope.Waterfall.RowQueue.Keeps.{rows_of, keep, push_rows-keeps}

-- 11 bins from 1000 Hz to 2000 Hz, samples of 10 ns and rows of 40 ns.
abbrev config : WaterfallAggregatorConfig
config = record {
  render_bin_count = pos 11;
  source_min_hz = pos 1_000;
  source_max_hz = pos 2_000;
  row_period_ns = 40;
  amplitude_floor = pos 3;
  recording_start_utc_ns = negsuc 99;
  first_sample_index = 5;
  sample_period_ns = 10;
}

abbrev sample : ℕ → ℕ → SignalSample
sample i hz = record {
  sample_index = i;
  band_index = pos 0;
  frequency_offset_hz = pos 0;
  absolute_frequency_hz = pos hz;
  amplitude = pos 50;
  beam_index = pos 1;
}

bin_run : bin_for_frequency config (pos 1_234) ≡ some 2
unfolding bin_for_frequency bin_of_offset ◌-ℤ◌
bin_run = refl

bin_run_top : bin_for_frequency config (pos 2_000) ≡ some 10
unfolding bin_for_frequency bin_of_offset ◌-ℤ◌
bin_run_top = refl

bucket_run : bucket_for_sample config 15 ≡ some 2
unfolding bucket_for_sample
bucket_run = refl

bin_for_frequency_iff_example :
    (bin_for_frequency config (pos 1_234) ≡ some 2) ↔ Binned config (pos 1_234) 2
bin_for_frequency_iff_example = bin_for_frequency_iff config (pos 1_234) 2

bin_for_frequency-monotone_example : (2 ≤ 10) × (10 < 11)
bin_for_frequency-monotone_example =
    bin_for_frequency-monotone config (pos 1_234) (pos 2_000) 2 10 (omega arith) bin_run bin_run_top

utc_ns_for_bucket-saturates_example :
    (utc_ns_for_bucket config 2 ≤ℤ utc_ns_for_bucket config (2 ^ 60))
    × (utc_ns_for_bucket config (2 ^ 60) ≤ℤ pos max_i64)
    × (Fits config 2 ⊎ Stays config 2 (2 ^ 60))
utc_ns_for_bucket-saturates_example =
    utc_ns_for_bucket-saturates config 2 (2 ^ 60) (omega arith) (omega arith)

abbrev samples : List SignalSample
samples = sample 6 1_100 ∷ sample 7 1_100 ∷ sample 15 1_234 ∷ sample 16 9_000 ∷ sample 2 1_500 ∷ []

consume_run : length (consume (new_aggregator config) samples).1.rows ≡ 1
unfolding consume consume_sample bucket_for_sample bin_for_frequency add_to_row ◌-ℤ◌
consume_run = refl

consume-IsCounted_example :
    IsCounted (new_aggregator config).counters 5 1 (consume (new_aggregator config) samples)
consume-IsCounted_example = consume-IsCounted (new_aggregator config) samples

abbrev consumed : WaterfallAggregator
consumed = (consume (new_aggregator config) samples).0

flush-IsFlushed_example : IsFlushed consumed (flush consumed)
flush-IsFlushed_example = flush-IsFlushed consumed

rows_of_run-IsRow_example :
    All (IsRow config) (rows_of_run (new_aggregator config) (samples ∷ [] ∷ samples ∷ []))
rows_of_run-IsRow_example = rows_of_run-IsRow config (samples ∷ [] ∷ samples ∷ [])

abbrev idle : Work
idle = (new_aggregator config, no_result)

idle-IsShaped : IsShaped config idle
idle-IsShaped = record { same_config = refl; open_shape = _; row_shapes = _ }

consume_sample-IsPlaced_example :
    IsPlaced (sample 15 1_234) 2 2 idle (consume_sample idle (sample 15 1_234))
consume_sample-IsPlaced_example =
    consume_sample-IsPlaced config idle (sample 15 1_234) 2 2 idle-IsShaped bucket_run bin_run refl

-- A queue of at most two rows, where a row and the metadata of a batch are numbers.
abbrev queue_config : WaterfallRowQueueConfig
queue_config = record { max_queued_rows = 2; overflow_policy = drop_oldest }

abbrev row_queue : WaterfallRowQueue ℕ ℕ
row_queue = record {
  config = queue_config;
  rows = record { sequence_id = 1; metadata = 0; row = 70 } ∷ [];
  metrics = record no_row_metrics { pushed_rows = 1; latest_row_sequence_id = 1 };
  next_row_sequence_id = 2;
}

run_row_queue-IsConsistent_example : IsConsistent (
    run_row_queue
      (set_config row_queue queue_config)
      (push_rows_call (7 ∷ 8 ∷ 9 ∷ []) 0 ∷ drain_call 1 ∷ []))
run_row_queue-IsConsistent_example =
    run_row_queue-IsConsistent row_queue queue_config
      (push_rows_call (7 ∷ 8 ∷ 9 ∷ []) 0 ∷ drain_call 1 ∷ [])

push_rows-keeps_example :
    rows_of (push_rows row_queue (8 ∷ 9 ∷ []) 0).0 ≡ keep drop_oldest 2 (70 ∷ 8 ∷ 9 ∷ [])
push_rows-keeps_example = push_rows-keeps row_queue (8 ∷ 9 ∷ []) 0 (omega arith)
