-- ===== src/Waterfall/Rows/Shape.antt =====
-- The shape of a row, and what opening, raising and closing a row do to it.
use sirius_scope.Prelude.{
  ℕ, ◌^◌, ◌≤◌, ◌<◌, ◌≡◌, refl, sym, ◌∙◌, subst, true, Option, none, some, List, [], ◌∷◌, length,
  length-set, length-replicate, All, All-set, All-get_or, All-replicate, All-append, arith, if-elim,
  ltb, ◌==◌,
}
use sirius_scope.Prelude.Int.{pos_part}
use sirius_scope.Domain.{SignalSample}
use sirius_scope.Waterfall.Bins.{WaterfallAggregatorConfig, utc_ns_for_bucket, clamp_amplitude}
use sirius_scope.Waterfall.Rows.{
  WaterfallAggregator, WaterfallAggregateCell, WaterfallSnapshotRow, OpenRow, Work, empty_cell,
  row_of, close_into_result, enter_bucket, open_bucket, add_to_row, update_cell,
  increment_hit_count,
}

-- The cell's numbers are 16-bit words.
abbrev pub Fits16 : WaterfallAggregateCell → Type 0
Fits16 cell = (cell.beam0_peak < 2 ^ 16) × (cell.beam1_peak < 2 ^ 16) × (cell.hit_count < 2 ^ 16)

-- A row has a cell for each bin and a range of sample indices.
pub record IsRow (c : WaterfallAggregatorConfig) (row : WaterfallSnapshotRow) : Type 0 where
  pub width : length row.cells ≡ pos_part c.render_bin_count
  pub words : All Fits16 row.cells
  pub ordered : row.first_sample_index ≤ row.last_sample_index

-- The row that is open is one of its bucket; `IsFilled` where it has samples.
pub record IsEntered (c : WaterfallAggregatorConfig) (row : OpenRow) : Type 0 where
  pub width : length row.cells ≡ pos_part c.render_bin_count
  pub words : All Fits16 row.cells
  pub ordered : row.first_sample_index ≤ row.last_sample_index
  pub time : row.utc_ns ≡ utc_ns_for_bucket c row.bucket_index

pub record IsFilled (c : WaterfallAggregatorConfig) (row : OpenRow) : Type 0 where
  pub entered : IsEntered c row
  pub filled : row.has_samples ≡ true

abbrev pub list_of : Option WaterfallSnapshotRow → List WaterfallSnapshotRow
list_of none = []
list_of (some row) = row ∷ []

abbrev pub AllOf : (OpenRow → Type 0) → Option OpenRow → Type 0
AllOf P none = Unit
AllOf P (some row) = P row

-- The open row has samples, and all rows of the result are rows of the configuration.
pub record IsShaped (c : WaterfallAggregatorConfig) (w : Work) : Type 0 where
  pub same_config : w.0.config ≡ c
  pub open_shape : AllOf (IsFilled c) w.0.open_row
  pub row_shapes : All (IsRow c) w.1.rows

update_cell-Fits16 :
    (s : SignalSample) (cell : WaterfallAggregateCell) → Fits16 cell → Fits16 (update_cell s cell)
unfolding update_cell increment_hit_count clamp_amplitude
update_cell-Fits16 s cell h = ground arith

open_bucket-IsEntered :
    (c : WaterfallAggregatorConfig) (agg : WaterfallAggregator) (bucket sample : ℕ)
    → agg.config ≡ c
    → AllOf (IsEntered c) (open_bucket agg bucket sample).open_row
unfolding open_bucket
open_bucket-IsEntered c agg bucket sample e = rw e (record {
  width = length-replicate (pos_part c.render_bin_count) empty_cell;
  words = All-replicate Fits16 (pos_part c.render_bin_count) empty_cell (ground arith);
  ordered = omega arith;
  time = refl;
})

pub add_to_row-IsFilled :
    (c : WaterfallAggregatorConfig) (row : OpenRow) (s : SignalSample) (bin : ℕ)
    → bin < pos_part c.render_bin_count
    → IsEntered c row
    → IsFilled c (add_to_row row s bin)
unfolding add_to_row
add_to_row-IsFilled c row s bin l h =
    if-elim (IsFilled c) (ltb bin (length row.cells)) _ row
      (λ _. record {
        entered = record {
          width = length-set row.cells bin _ ∙ h.width;
          words =
              All-set Fits16 row.cells bin _
                (update_cell-Fits16 s _
                  (All-get_or Fits16 row.cells bin empty_cell (ground arith) h.words))
                h.words;
          ordered = omega (arith, h.ordered);
          time = h.time;
        };
        filled = refl;
      })
      (λ out. absurd (ground (arith, h.width)))

pub row_of-IsRow :
    (c : WaterfallAggregatorConfig) (row : Option OpenRow)
    → AllOf (IsFilled c) row
    → All (IsRow c) (list_of (row_of row))
row_of-IsRow c none h = _
row_of-IsRow c (some row) h =
    let e = h.entered in
    if-elim (λ (o : Option WaterfallSnapshotRow). All (IsRow c) (list_of o)) row.has_samples
      (some (record {
        utc_ns = row.utc_ns;
        first_sample_index = row.first_sample_index;
        last_sample_index = row.last_sample_index;
        cells = row.cells;
      }))
      none (λ _. (record { width = e.width; words = e.words; ordered = e.ordered }, _)) (λ _. _)

pub close-IsRow :
    (c : WaterfallAggregatorConfig) (w : Work) (row : Option WaterfallSnapshotRow)
    → All (IsRow c) (list_of row)
    → All (IsRow c) w.1.rows
    → All (IsRow c) (close_into_result w row).1.rows
unfolding close_into_result
close-IsRow c w none r h = h
close-IsRow c w (some row) r h = All-append (IsRow c) w.1.rows (row ∷ []) h r

close-config :
    (w : Work) (row : Option WaterfallSnapshotRow) → (close_into_result w row).0.config ≡ w.0.config
unfolding close_into_result
close-config w none = refl
close-config w (some row) = refl

-- The row that is open may have no sample yet.
pub record IsReady (c : WaterfallAggregatorConfig) (w : Work) : Type 0 where
  pub same_config : w.0.config ≡ c
  pub open_shape : AllOf (IsEntered c) w.0.open_row
  pub row_shapes : All (IsRow c) w.1.rows

pub enter-IsReady :
    (c : WaterfallAggregatorConfig) (w : Work) (s : SignalSample) (bucket : ℕ)
    (open_row : Option OpenRow)
    → w.0.open_row ≡ open_row
    → IsShaped c w
    → IsReady c (enter_bucket w s bucket open_row)
unfolding enter_bucket
enter-IsReady c w s bucket none e h = record {
  same_config = h.same_config;
  open_shape = open_bucket-IsEntered c w.0 bucket s.sample_index h.same_config;
  row_shapes = h.row_shapes;
}
enter-IsReady c w s bucket (some row) e h =
    let filled = subst (AllOf (IsFilled c)) e h.open_shape in
    let closed = close_into_result w (row_of (some row)) in
    let same = close-config w (row_of (some row)) ∙ h.same_config in
    if-elim (IsReady c) (row.bucket_index == bucket) w
      (open_bucket closed.0 bucket s.sample_index, closed.1)
      (λ _. record {
        same_config = h.same_config;
        open_shape = subst (AllOf (IsEntered c)) (sym e) filled.entered;
        row_shapes = h.row_shapes;
      })
      (λ _. record {
        same_config = same;
        open_shape = open_bucket-IsEntered c closed.0 bucket s.sample_index same;
        row_shapes =
            close-IsRow c w (row_of (some row)) (row_of-IsRow c (some row) filled) h.row_shapes;
      })
