-- ===== src/Waterfall/Rows.antt =====
-- `WaterfallAggregator` of src/pipeline/waterfall_aggregator.cpp: `consume`, `flush`,
-- `openBucket`, `closeOpenRow`, `addSampleToOpenRow` and `makeSnapshot`. The counters that only
-- count calls are not bounded by 64 bits here.
pub mod Shape
pub mod Runs
pub mod Counting
pub mod Flush
pub mod Place
use sirius_scope.Prelude.{
  ℕ, zero, suc, ◌+◌, ◌-◌, ◌^◌, min, max, Bool, true, false, ◌||◌, Option, none, some, List, [], ◌∷◌,
  ◌++◌, length, get_or, set, replicate, ltb, ◌==◌, if◌then◌else◌,
}
use sirius_scope.Prelude.Int.{ℤ, pos, negsuc, pos_part, leb_ℤ, ltb_ℤ}
use sirius_scope.Domain.{SignalSample, is_beam}
use sirius_scope.Waterfall.Bins.{
  WaterfallAggregatorConfig, bucket_for_sample, utc_ns_for_bucket, bin_for_frequency,
  clamp_amplitude,
}

pub record WaterfallAggregateCell : Type 0 where
  pub beam0_peak : ℕ
  pub beam1_peak : ℕ
  pub hit_count : ℕ

pub record OpenRow : Type 0 where
  pub bucket_index : ℕ
  pub utc_ns : ℤ
  pub first_sample_index : ℕ
  pub last_sample_index : ℕ
  pub cells : List WaterfallAggregateCell
  pub has_samples : Bool

pub record WaterfallSnapshotRow : Type 0 where
  pub utc_ns : ℤ
  pub first_sample_index : ℕ
  pub last_sample_index : ℕ
  pub cells : List WaterfallAggregateCell

pub record WaterfallAggregatorCounters : Type 0 where
  pub consumed_blocks : ℕ
  pub consumed_samples : ℕ
  pub produced_rows : ℕ
  pub produced_snapshots : ℕ
  pub invalid_frequency_samples : ℕ
  pub out_of_range_samples : ℕ
  pub empty_blocks : ℕ

pub record WaterfallAggregator : Type 0 where
  pub config : WaterfallAggregatorConfig
  pub counters : WaterfallAggregatorCounters
  pub open_row : Option OpenRow
  pub next_snapshot_sequence_id : ℕ

-- `WaterfallAggregationResult`
pub record AggregationResult : Type 0 where
  pub rows : List WaterfallSnapshotRow
  pub delta_counters : WaterfallAggregatorCounters

abbrev pub no_counters : WaterfallAggregatorCounters
no_counters = record {
  consumed_blocks = 0;
  consumed_samples = 0;
  produced_rows = 0;
  produced_snapshots = 0;
  invalid_frequency_samples = 0;
  out_of_range_samples = 0;
  empty_blocks = 0;
}

abbrev pub no_result : AggregationResult
no_result = record { rows = []; delta_counters = no_counters }

abbrev pub new_aggregator : WaterfallAggregatorConfig → WaterfallAggregator
new_aggregator c = record {
  config = c;
  counters = no_counters;
  open_row = none;
  next_snapshot_sequence_id = 1;
}

abbrev pub empty_cell : WaterfallAggregateCell
empty_cell = record { beam0_peak = 0; beam1_peak = 0; hit_count = 0 }

-- The aggregator while it works on a result.
abbrev pub Work : Type 0
Work = WaterfallAggregator × AggregationResult

-- Each counter is raised in `m_counters` and in `result.deltaCounters`.
abbrev pub tally : (WaterfallAggregatorCounters → WaterfallAggregatorCounters) → Work → Work
tally f (agg, result) = (
  record agg { counters = f agg.counters },
  record result { delta_counters = f result.delta_counters },
)

abbrev pub one_sample : WaterfallAggregatorCounters → WaterfallAggregatorCounters
one_sample c = record c { consumed_samples = c.consumed_samples + 1 }

abbrev pub one_invalid : WaterfallAggregatorCounters → WaterfallAggregatorCounters
one_invalid c = record c { invalid_frequency_samples = c.invalid_frequency_samples + 1 }

abbrev pub one_out_of_range : WaterfallAggregatorCounters → WaterfallAggregatorCounters
one_out_of_range c = record c { out_of_range_samples = c.out_of_range_samples + 1 }

abbrev pub one_row : WaterfallAggregatorCounters → WaterfallAggregatorCounters
one_row c = record c { produced_rows = c.produced_rows + 1 }

unfoldable pub increment_hit_count : WaterfallAggregateCell → WaterfallAggregateCell
increment_hit_count cell =
    if ltb cell.hit_count (2 ^ 16 - 1) then record cell { hit_count = cell.hit_count + 1 } else cell

unfoldable pub update_cell : SignalSample → WaterfallAggregateCell → WaterfallAggregateCell
unfolding increment_hit_count
update_cell s cell =
    let amplitude = clamp_amplitude s.amplitude in
    if is_beam 0 s.beam_index
    then increment_hit_count (record cell { beam0_peak = max cell.beam0_peak amplitude })
    else if is_beam 1 s.beam_index
    then increment_hit_count (record cell { beam1_peak = max cell.beam1_peak amplitude })
    else cell

unfoldable pub open_bucket : WaterfallAggregator → ℕ → ℕ → WaterfallAggregator
open_bucket agg bucket sample = record agg {
  open_row = some (record {
    bucket_index = bucket;
    utc_ns = utc_ns_for_bucket agg.config bucket;
    first_sample_index = sample;
    last_sample_index = sample;
    cells = replicate (pos_part agg.config.render_bin_count) empty_cell;
    has_samples = false;
  });
}

-- What `closeOpenRow` returns of the row that is open.
abbrev pub row_of : Option OpenRow → Option WaterfallSnapshotRow
row_of none = none
row_of (some row) =
    if row.has_samples
    then some (record {
      utc_ns = row.utc_ns;
      first_sample_index = row.first_sample_index;
      last_sample_index = row.last_sample_index;
      cells = row.cells;
    })
    else none

-- Closes the open row, and adds it to the result and its counters.
unfoldable pub close_into_result : Work → Option WaterfallSnapshotRow → Work
close_into_result (agg, result) none = (record agg { open_row = none }, result)
close_into_result (agg, result) (some row) =
    tally one_row (record agg { open_row = none }, record result { rows = result.rows ++ row ∷ [] })

unfoldable pub add_to_row : OpenRow → SignalSample → ℕ → OpenRow
unfolding update_cell
add_to_row row s bin =
    if ltb bin (length row.cells)
    then record row {
      first_sample_index = min row.first_sample_index s.sample_index;
      last_sample_index = max row.last_sample_index s.sample_index;
      has_samples = true;
      cells = set row.cells bin (update_cell s (get_or row.cells bin empty_cell));
    }
    else row

abbrev pub add_to_open : Option OpenRow → SignalSample → ℕ → Option OpenRow
add_to_open none s bin = none
add_to_open (some row) s bin = some (add_to_row row s bin)

unfoldable pub add_sample_to_open_row : Work → SignalSample → ℕ → Work
add_sample_to_open_row (agg, result) s bin =
    (record agg { open_row = add_to_open agg.open_row s bin }, result)

-- Opens a row where none is open, or where the open one is of another bucket, which is closed.
unfoldable pub enter_bucket : Work → SignalSample → ℕ → Option OpenRow → Work
unfolding open_bucket close_into_result
enter_bucket (agg, result) s bucket none = (open_bucket agg bucket s.sample_index, result)
enter_bucket (agg, result) s bucket (some row) =
    let (agg', result') = close_into_result (agg, result) (row_of (some row)) in
    if row.bucket_index == bucket
    then (agg, result)
    else (open_bucket agg' bucket s.sample_index, result')

unfoldable pub place_in_bin : Work → SignalSample → ℕ → Option ℕ → Work
unfolding enter_bucket add_sample_to_open_row
place_in_bin w s bucket none =
    if leb_ℤ s.absolute_frequency_hz (pos 0)
      || leb_ℤ w.0.config.source_max_hz w.0.config.source_min_hz
    then tally one_invalid w
    else tally one_out_of_range w
place_in_bin w s bucket (some bin) =
    if ltb_ℤ s.amplitude w.0.config.amplitude_floor
    then w
    else add_sample_to_open_row (enter_bucket w s bucket w.0.open_row) s bin

unfoldable pub place_in_bucket : Work → SignalSample → Option ℕ → Work
unfolding place_in_bin
place_in_bucket w s none = tally one_invalid w
place_in_bucket w s (some bucket) =
    place_in_bin w s bucket (bin_for_frequency w.0.config s.absolute_frequency_hz)

unfoldable pub consume_sample : Work → SignalSample → Work
unfolding place_in_bucket
consume_sample w s =
    place_in_bucket (tally one_sample w) s (bucket_for_sample w.0.config s.sample_index)

-- The loop over the samples.
abbrev pub consume_all : Work → List SignalSample → Work
consume_all w [] = w
consume_all w (s ∷ ss) = consume_all (consume_sample w s) ss

unfoldable pub consume_samples : WaterfallAggregator → List SignalSample → Work
consume_samples agg samples = consume_all (agg, no_result) samples

-- `consume` of a block, which is empty or not.
unfoldable pub consume : WaterfallAggregator → List SignalSample → Work
unfolding consume_samples
consume agg [] = tally (λ c. record c { empty_blocks = c.empty_blocks + 1 }) (agg, no_result)
consume agg (s ∷ ss) =
    let block_counted = record agg.counters {
      consumed_blocks = agg.counters.consumed_blocks + 1;
    } in
    let (agg', result) = consume_samples (record agg { counters = block_counted }) (s ∷ ss) in
    (agg', record result { delta_counters = record result.delta_counters { consumed_blocks = 1 } })

unfoldable pub flush : WaterfallAggregator → Work
unfolding close_into_result
flush agg = close_into_result (agg, no_result) (row_of agg.open_row)

pub record WaterfallSnapshot : Type 0 where
  pub sequence_id : ℕ
  pub created_at_utc_ns : ℤ
  pub source_min_hz : ℤ
  pub source_max_hz : ℤ
  pub render_bin_count : ℤ
  pub row_period_ns : ℕ
  pub rows : List WaterfallSnapshotRow
  pub counters : WaterfallAggregatorCounters

-- `now` is what `currentUtcNs` tells. The snapshot's counters are those five that it has.
unfoldable pub make_snapshot :
    WaterfallAggregator
    → List WaterfallSnapshotRow
    → ℤ
    → WaterfallAggregator × Option WaterfallSnapshot
make_snapshot agg [] now = (agg, none)
make_snapshot agg (row ∷ rows) now =
    let counted = record agg.counters {
      produced_snapshots = agg.counters.produced_snapshots + 1;
    } in
    (
      record agg {
        counters = counted;
        next_snapshot_sequence_id = agg.next_snapshot_sequence_id + 1;
      },
      some (record {
        sequence_id = agg.next_snapshot_sequence_id;
        created_at_utc_ns = now;
        source_min_hz = agg.config.source_min_hz;
        source_max_hz = agg.config.source_max_hz;
        render_bin_count = agg.config.render_bin_count;
        row_period_ns = agg.config.row_period_ns;
        rows = row ∷ rows;
        counters = record counted { consumed_blocks = 0; consumed_samples = 0 };
      }),
    )
