-- ===== src/Waterfall/Rows/Flush.antt =====
-- `flush` of `WaterfallAggregator`, src/pipeline/waterfall_aggregator.cpp.
use sirius_scope.Prelude.{
  ◌≡◌, ◌⊎◌, refl, true, false, Option, none, some, List, [], ◌∷◌, Bool-cases, inl, inr,
}
use sirius_scope.Waterfall.Rows.{
  WaterfallAggregator, OpenRow, WaterfallSnapshotRow, Work, no_result, row_of, close_into_result,
  flush,
}
use sirius_scope.Waterfall.Rows.Counting.{IsCounted, start-IsCounted, close-IsCounted}

-- The rows that are to be returned for the row that is open.
abbrev pub Returned : Option OpenRow → List WaterfallSnapshotRow → Type 0
Returned none rows = rows ≡ []
Returned (some row) rows =
    ((row.has_samples ≡ true)
      × (rows
          ≡ record {
            utc_ns = row.utc_ns;
            first_sample_index = row.first_sample_index;
            last_sample_index = row.last_sample_index;
            cells = row.cells;
          }
            ∷ []))
    ⊎ ((row.has_samples ≡ false) × (rows ≡ []))

pub record IsFlushed (agg : WaterfallAggregator) (w : Work) : Type 0 where
  pub returned : Returned agg.open_row w.1.rows
  pub closed : w.0.open_row ≡ none
  pub counted : IsCounted agg.counters 0 0 w
  pub same_config : w.0.config ≡ agg.config
  pub same_sequence_id : w.0.next_snapshot_sequence_id ≡ agg.next_snapshot_sequence_id
  pub idle : flush w.0 ≡ (w.0, no_result)

close-Returned :
    (agg : WaterfallAggregator) (open_row : Option OpenRow)
    → Returned open_row (close_into_result (agg, no_result) (row_of open_row)).1.rows
unfolding close_into_result
close-Returned agg none = refl
close-Returned agg (some row) = elim (Bool-cases row.has_samples) [
  | inl full ↦ rw full (inl (refl, refl))
  | inr bare ↦ rw bare (inr (refl, refl))
]

close-closed :
    (agg : WaterfallAggregator) (row : Option WaterfallSnapshotRow)
    → let w = close_into_result (agg, no_result) row in
      (w.0.open_row ≡ none)
      × (w.0.config ≡ agg.config)
      × (w.0.next_snapshot_sequence_id ≡ agg.next_snapshot_sequence_id)
unfolding close_into_result
close-closed agg none = (refl, refl, refl)
close-closed agg (some row) = (refl, refl, refl)

closed-idle : (agg : WaterfallAggregator) → agg.open_row ≡ none → flush agg ≡ (agg, no_result)
unfolding flush close_into_result
closed-idle agg e = rw e refl

-- `flush` returns the open row, with its time, its sample indices and its cells, if it has samples,
-- and no row if it has none or no row is open. It closes the row, so that a second flush returns
-- nothing and changes nothing; it counts the rows that it returns as produced, and no sample and no
-- block; and the configuration and the number of the next snapshot stay.
pub flush-IsFlushed : (agg : WaterfallAggregator) → IsFlushed agg (flush agg)
unfolding flush
flush-IsFlushed agg =
    let (closed, config, sequence) = close-closed agg (row_of agg.open_row) in
    record {
      returned = close-Returned agg agg.open_row;
      closed = closed;
      counted =
          close-IsCounted agg.counters 0 0 (agg, no_result) (row_of agg.open_row)
            (start-IsCounted agg);
      same_config = config;
      same_sequence_id = sequence;
      idle = closed-idle (close_into_result (agg, no_result) (row_of agg.open_row)).0 closed;
    }
