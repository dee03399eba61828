-- ===== src/Waterfall/Rows/Counting.antt =====
-- The counters of the aggregator and those of a result tell the same.
use sirius_scope.Prelude.{
  ℕ, ◌+◌, ◌≤◌, ◌≡◌, refl, subst, Option, none, some, List, [], ◌∷◌, length, length-append, arith,
  if-elim, ◌==◌, ◌||◌,
}
use sirius_scope.Prelude.Int.{pos, leb_ℤ, ltb_ℤ}
use sirius_scope.Domain.{SignalSample}
use sirius_scope.Waterfall.Bins.{bucket_for_sample}
use sirius_scope.Waterfall.Rows.{
  WaterfallAggregator, WaterfallAggregatorCounters, OpenRow, WaterfallSnapshotRow, Work, tally,
  one_sample, one_invalid, one_out_of_range, no_result, row_of, close_into_result, enter_bucket,
  place_in_bin, place_in_bucket, consume_sample, consume_all, consume_samples, consume, open_bucket,
  add_sample_to_open_row,
}

-- Each counter of the aggregator is its value before the result and that of the result; a row of
-- the result is a produced row; and of the samples consumed no more are refused.
pub record IsCounted (before : WaterfallAggregatorCounters) (n k : ℕ) (w : Work) : Type 0 where
  pub samples :
      w.0.counters.consumed_samples ≡ before.consumed_samples + w.1.delta_counters.consumed_samples
  pub blocks :
      w.0.counters.consumed_blocks ≡ before.consumed_blocks + w.1.delta_counters.consumed_blocks
  pub empties : w.0.counters.empty_blocks ≡ before.empty_blocks + w.1.delta_counters.empty_blocks
  pub invalid :
      w.0.counters.invalid_frequency_samples
      ≡ before.invalid_frequency_samples + w.1.delta_counters.invalid_frequency_samples
  pub out_of_range :
      w.0.counters.out_of_range_samples
      ≡ before.out_of_range_samples + w.1.delta_counters.out_of_range_samples
  pub produced :
      w.0.counters.produced_rows ≡ before.produced_rows + w.1.delta_counters.produced_rows
  pub rows : length w.1.rows ≡ w.1.delta_counters.produced_rows
  pub one_block : w.1.delta_counters.consumed_blocks + w.1.delta_counters.empty_blocks ≡ k
  pub seen : w.1.delta_counters.consumed_samples ≡ n
  pub refused :
      w.1.delta_counters.invalid_frequency_samples + w.1.delta_counters.out_of_range_samples
      ≤ w.1.delta_counters.consumed_samples

pub close-IsCounted :
    (before : WaterfallAggregatorCounters) (n k : ℕ) (w : Work) (row : Option WaterfallSnapshotRow)
    → IsCounted before n k w
    → IsCounted before n k (close_into_result w row)
unfolding close_into_result
close-IsCounted before n k w none h = record {
  samples = h.samples;
  blocks = h.blocks;
  empties = h.empties;
  invalid = h.invalid;
  out_of_range = h.out_of_range;
  produced = h.produced;
  rows = h.rows;
  one_block = h.one_block;
  seen = h.seen;
  refused = h.refused;
}
close-IsCounted before n k w (some row) h = record {
  samples = h.samples;
  blocks = h.blocks;
  empties = h.empties;
  invalid = h.invalid;
  out_of_range = h.out_of_range;
  produced = omega (arith, h.produced);
  rows = omega (arith, h.rows, length-append w.1.rows (row ∷ []));
  one_block = h.one_block;
  seen = h.seen;
  refused = h.refused;
}

-- The row that is open does not matter to the counters.
reopen-IsCounted :
    (before : WaterfallAggregatorCounters) (n k : ℕ) (w : Work) (open_row : Option OpenRow)
    → IsCounted before n k w
    → IsCounted before n k (record w.0 { open_row = open_row }, w.1)
reopen-IsCounted before n k w open_row h = record {
  samples = h.samples;
  blocks = h.blocks;
  empties = h.empties;
  invalid = h.invalid;
  out_of_range = h.out_of_range;
  produced = h.produced;
  rows = h.rows;
  one_block = h.one_block;
  seen = h.seen;
  refused = h.refused;
}

enter-IsCounted :
    (before : WaterfallAggregatorCounters) (n k : ℕ) (w : Work) (s : SignalSample) (bucket : ℕ)
    (open_row : Option OpenRow)
    → IsCounted before n k w
    → IsCounted before n k (enter_bucket w s bucket open_row)
unfolding enter_bucket open_bucket
enter-IsCounted before n k w s bucket none h = reopen-IsCounted before n k w _ h
enter-IsCounted before n k w s bucket (some row) h =
    if-elim (IsCounted before n k) (row.bucket_index == bucket) w _ (λ _. h)
      (λ _.
        reopen-IsCounted before n k (close_into_result w (row_of (some row))) _
          (close-IsCounted before n k w (row_of (some row)) h))

-- One more sample came in; it may be refused.
record IsTaken (before : WaterfallAggregatorCounters) (n k : ℕ) (w : Work) : Type 0 where
  counted : IsCounted before n k w
  room :
      w.1.delta_counters.invalid_frequency_samples + w.1.delta_counters.out_of_range_samples + 1
      ≤ w.1.delta_counters.consumed_samples

invalid-IsCounted :
    (before : WaterfallAggregatorCounters) (n k : ℕ) (w : Work)
    → IsTaken before n k w
    → IsCounted before n k (tally one_invalid w)
invalid-IsCounted before n k w t =
    let h = t.counted in
    record {
      samples = h.samples;
      blocks = h.blocks;
      empties = h.empties;
      invalid = omega (arith, h.invalid);
      out_of_range = h.out_of_range;
      produced = h.produced;
      rows = h.rows;
      one_block = h.one_block;
      seen = h.seen;
      refused = omega (arith, t.room);
    }

out_of_range-IsCounted :
    (before : WaterfallAggregatorCounters) (n k : ℕ) (w : Work)
    → IsTaken before n k w
    → IsCounted before n k (tally one_out_of_range w)
out_of_range-IsCounted before n k w t =
    let h = t.counted in
    record {
      samples = h.samples;
      blocks = h.blocks;
      empties = h.empties;
      invalid = h.invalid;
      out_of_range = omega (arith, h.out_of_range);
      produced = h.produced;
      rows = h.rows;
      one_block = h.one_block;
      seen = h.seen;
      refused = omega (arith, t.room);
    }

bin-IsCounted :
    (before : WaterfallAggregatorCounters) (n k : ℕ) (w : Work) (s : SignalSample) (bucket : ℕ)
    (bin : Option ℕ)
    → IsTaken before n k w
    → IsCounted before n k (place_in_bin w s bucket bin)
unfolding place_in_bin add_sample_to_open_row
bin-IsCounted before n k w s bucket none t =
    if-elim (IsCounted before n k)
      (leb_ℤ s.absolute_frequency_hz (pos 0)
        || leb_ℤ w.0.config.source_max_hz w.0.config.source_min_hz)
      (tally one_invalid w) (tally one_out_of_range w) (λ _. invalid-IsCounted before n k w t)
      (λ _. out_of_range-IsCounted before n k w t)
bin-IsCounted before n k w s bucket (some bin) t =
    if-elim (IsCounted before n k) (ltb_ℤ s.amplitude w.0.config.amplitude_floor) w _
      (λ _. t.counted)
      (λ _.
        reopen-IsCounted before n k (enter_bucket w s bucket w.0.open_row) _
          (enter-IsCounted before n k w s bucket w.0.open_row t.counted))

sample-IsTaken :
    (before : WaterfallAggregatorCounters) (n k : ℕ) (w : Work)
    → IsCounted before n k w
    → IsTaken before (n + 1) k (tally one_sample w)
sample-IsTaken before n k w h = record {
  counted = record {
    samples = omega (arith, h.samples);
    blocks = h.blocks;
    empties = h.empties;
    invalid = h.invalid;
    out_of_range = h.out_of_range;
    produced = h.produced;
    rows = h.rows;
    one_block = h.one_block;
    seen = omega (arith, h.seen);
    refused = omega (arith, h.refused);
  };
  room = omega (arith, h.refused);
}

bucket-IsCounted :
    (before : WaterfallAggregatorCounters) (n k : ℕ) (w : Work) (s : SignalSample)
    (bucket : Option ℕ)
    → IsTaken before n k w
    → IsCounted before n k (place_in_bucket w s bucket)
unfolding place_in_bucket
bucket-IsCounted before n k w s none t = invalid-IsCounted before n k w t
bucket-IsCounted before n k w s (some bucket) t = bin-IsCounted before n k w s bucket _ t

consume_all-IsCounted :
    (before : WaterfallAggregatorCounters) (n k : ℕ) (w : Work) (samples : List SignalSample)
    → IsCounted before n k w
    → IsCounted before (n + length samples) k (consume_all w samples)
unfolding consume_sample
consume_all-IsCounted before n k w [] h = subst (λ m. IsCounted before m k w) (omega arith) h
consume_all-IsCounted before n k w (s ∷ ss) h =
    let rest = consume_all-IsCounted before (n + 1) k (consume_sample w s) ss (
      bucket-IsCounted before (n + 1) k (tally one_sample w) s
        (bucket_for_sample w.0.config s.sample_index) (sample-IsTaken before n k w h)) in
    subst (λ m. IsCounted before m k (consume_all (consume_sample w s) ss)) (omega arith) rest

pub start-IsCounted : (agg : WaterfallAggregator) → IsCounted agg.counters 0 0 (agg, no_result)
start-IsCounted agg = record {
  samples = omega arith;
  blocks = omega arith;
  empties = omega arith;
  invalid = omega arith;
  out_of_range = omega arith;
  produced = omega arith;
  rows = refl;
  one_block = refl;
  seen = refl;
  refused = omega arith;
}

-- A block's `consume` counts each of its samples once and the block itself once, as consumed or as
-- empty; the counters of the result are what it adds to those of the aggregator; it returns as many
-- rows as it counts; and no more samples are counted as refused than came in.
pub consume-IsCounted :
    (agg : WaterfallAggregator) (samples : List SignalSample)
    → IsCounted agg.counters (length samples) 1 (consume agg samples)
unfolding consume consume_samples
consume-IsCounted agg [] = record {
  samples = omega arith;
  blocks = omega arith;
  empties = omega arith;
  invalid = omega arith;
  out_of_range = omega arith;
  produced = omega arith;
  rows = refl;
  one_block = omega arith;
  seen = refl;
  refused = omega arith;
}
consume-IsCounted agg (s ∷ ss) =
    let counters = record agg.counters { consumed_blocks = agg.counters.consumed_blocks + 1 } in
    let agg' = record agg { counters = counters } in
    let h = consume_all-IsCounted counters 0 0 (agg', no_result) (s ∷ ss) (start-IsCounted agg') in
    record {
      samples = h.samples;
      blocks = omega (arith, h.blocks, h.one_block);
      empties = h.empties;
      invalid = h.invalid;
      out_of_range = h.out_of_range;
      produced = h.produced;
      rows = h.rows;
      one_block = omega (arith, h.one_block);
      seen = omega (arith, h.seen);
      refused = h.refused;
    }
