-- ===== src/Waterfall/Rows/Runs.antt =====
-- The rows that a run of blocks returns have the shape of the configuration.
use sirius_scope.Prelude.{
  ℕ, ◌+◌, ◌<◌, ◌≡◌, refl, ap, sym, Option, none, some, List, [], ◌∷◌, ◌++◌, All, All-append, arith,
  if-elim, ◌||◌,
}
use sirius_scope.Prelude.Int.{pos, pos_part, leb_ℤ, ltb_ℤ}
use sirius_scope.Domain.{SignalSample}
use sirius_scope.Waterfall.Bins.{WaterfallAggregatorConfig, bucket_for_sample, bin_for_frequency}
use sirius_scope.Waterfall.Bins.Fast.{bin_for_frequency-monotone}
use sirius_scope.Waterfall.Rows.{
  WaterfallAggregator, WaterfallSnapshotRow, OpenRow, Work, tally, one_sample, one_invalid,
  one_out_of_range, new_aggregator, no_result, row_of, enter_bucket, place_in_bin, place_in_bucket,
  consume_sample, consume_all, consume_samples, consume, flush, add_sample_to_open_row, add_to_open,
  WaterfallAggregatorCounters,
}
use sirius_scope.Waterfall.Rows.Shape.{
  IsRow, IsEntered, IsFilled, AllOf, IsShaped, IsReady, enter-IsReady, add_to_row-IsFilled,
  row_of-IsRow, close-IsRow,
}

add_to_open-IsFilled :
    (c : WaterfallAggregatorConfig) (row : Option OpenRow) (s : SignalSample) (bin : ℕ)
    → bin < pos_part c.render_bin_count
    → AllOf (IsEntered c) row
    → AllOf (IsFilled c) (add_to_open row s bin)
add_to_open-IsFilled c none s bin l h = _
add_to_open-IsFilled c (some row) s bin l h = add_to_row-IsFilled c row s bin l h

add-IsShaped :
    (c : WaterfallAggregatorConfig) (w : Work) (s : SignalSample) (bin : ℕ)
    → bin < pos_part c.render_bin_count
    → IsReady c w
    → IsShaped c (add_sample_to_open_row w s bin)
unfolding add_sample_to_open_row
add-IsShaped c w s bin l h = record {
  same_config = h.same_config;
  open_shape = add_to_open-IsFilled c w.0.open_row s bin l h.open_shape;
  row_shapes = h.row_shapes;
}

tally-IsShaped :
    (c : WaterfallAggregatorConfig) (f : WaterfallAggregatorCounters → WaterfallAggregatorCounters)
    (w : Work)
    → IsShaped c w
    → IsShaped c (tally f w)
tally-IsShaped c f w h = record {
  same_config = h.same_config;
  open_shape = h.open_shape;
  row_shapes = h.row_shapes;
}

bin-IsShaped :
    (c : WaterfallAggregatorConfig) (w : Work) (s : SignalSample) (bucket : ℕ) (bin : Option ℕ)
    → bin_for_frequency c s.absolute_frequency_hz ≡ bin
    → IsShaped c w
    → IsShaped c (place_in_bin w s bucket bin)
unfolding place_in_bin
bin-IsShaped c w s bucket none e h =
    if-elim (IsShaped c)
      (leb_ℤ s.absolute_frequency_hz (pos 0)
        || leb_ℤ w.0.config.source_max_hz w.0.config.source_min_hz)
      (tally one_invalid w) (tally one_out_of_range w) (λ _. tally-IsShaped c one_invalid w h)
      (λ _. tally-IsShaped c one_out_of_range w h)
bin-IsShaped c w s bucket (some bin) e h =
    let hz = s.absolute_frequency_hz in
    let below = (bin_for_frequency-monotone c hz hz bin bin (omega arith) e e).1 in
    if-elim (IsShaped c) (ltb_ℤ s.amplitude w.0.config.amplitude_floor) w _ (λ _. h)
      (λ _.
        add-IsShaped c (enter_bucket w s bucket w.0.open_row) s bin below
          (enter-IsReady c w s bucket w.0.open_row refl h))

bucket-IsShaped :
    (c : WaterfallAggregatorConfig) (w : Work) (s : SignalSample) (bucket : Option ℕ)
    → IsShaped c w
    → IsShaped c (place_in_bucket w s bucket)
unfolding place_in_bucket
bucket-IsShaped c w s none h = tally-IsShaped c one_invalid w h
bucket-IsShaped c w s (some bucket) h =
    bin-IsShaped c w s bucket (bin_for_frequency w.0.config s.absolute_frequency_hz)
      (ap (λ x. bin_for_frequency x s.absolute_frequency_hz) (sym h.same_config)) h

consume_all-IsShaped :
    (c : WaterfallAggregatorConfig) (w : Work) (samples : List SignalSample)
    → IsShaped c w
    → IsShaped c (consume_all w samples)
unfolding consume_sample
consume_all-IsShaped c w [] h = h
consume_all-IsShaped c w (s ∷ ss) h = consume_all-IsShaped c (consume_sample w s) ss (
    bucket-IsShaped c (tally one_sample w) s (bucket_for_sample w.0.config s.sample_index)
      (tally-IsShaped c one_sample w h))

-- The aggregator that a call leaves, at the start of the next one.
next_call : (c : WaterfallAggregatorConfig) (w : Work) → IsShaped c w → IsShaped c (w.0, no_result)
next_call c w h = record { same_config = h.same_config; open_shape = h.open_shape; row_shapes = _ }

consume-IsShaped :
    (c : WaterfallAggregatorConfig) (agg : WaterfallAggregator) (samples : List SignalSample)
    → IsShaped c (agg, no_result)
    → IsShaped c (consume agg samples)
unfolding consume consume_samples
consume-IsShaped c agg [] h =
    tally-IsShaped c (λ k. record k { empty_blocks = k.empty_blocks + 1 }) (agg, no_result) h
consume-IsShaped c agg (s ∷ ss) h =
    let counters = record agg.counters { consumed_blocks = agg.counters.consumed_blocks + 1 } in
    let agg' = record agg { counters = counters } in
    let start : IsShaped c (agg', no_result) = record {
      same_config = h.same_config;
      open_shape = h.open_shape;
      row_shapes = _;
    } in
    let rest = consume_all-IsShaped c (agg', no_result) (s ∷ ss) start in
    record {
      same_config = rest.same_config;
      open_shape = rest.open_shape;
      row_shapes = rest.row_shapes;
    }

-- All rows that the blocks of a run give, and that of a flush at its end.
abbrev pub rows_of_run : WaterfallAggregator → List (List SignalSample) → List WaterfallSnapshotRow
rows_of_run agg [] = (flush agg).1.rows
rows_of_run agg (block ∷ blocks) =
    let (agg', result) = consume agg block in result.rows ++ rows_of_run agg' blocks

run-IsRow :
    (c : WaterfallAggregatorConfig) (agg : WaterfallAggregator) (blocks : List (List SignalSample))
    → IsShaped c (agg, no_result)
    → All (IsRow c) (rows_of_run agg blocks)
unfolding flush
run-IsRow c agg [] h =
    close-IsRow c (agg, no_result) (row_of agg.open_row) (row_of-IsRow c agg.open_row h.open_shape)
      _
run-IsRow c agg (block ∷ blocks) h =
    let w = consume-IsShaped c agg block h in
    All-append (IsRow c) (consume agg block).1.rows (rows_of_run (consume agg block).0 blocks)
      w.row_shapes (run-IsRow c (consume agg block).0 blocks (next_call c (consume agg block) w))

-- Whatever blocks a new aggregator consumes, with whatever samples, each row that it returns has a
-- cell for each bin of the configuration, 16-bit numbers in the cells, and a range of sample
-- indices whose ends are in order.
pub rows_of_run-IsRow :
    (c : WaterfallAggregatorConfig) (blocks : List (List SignalSample))
    → All (IsRow c) (rows_of_run (new_aggregator c) blocks)
rows_of_run-IsRow c blocks =
    run-IsRow c (new_aggregator c) blocks
      (record { same_config = refl; open_shape = _; row_shapes = _ })
