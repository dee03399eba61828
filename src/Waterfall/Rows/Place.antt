-- ===== src/Waterfall/Rows/Place.antt =====
-- Where a sample that is taken goes, and which row it closes.
use sirius_scope.Prelude.{
  ℕ, zero, suc, ◌≤◌, ◌<◌, ◌≡◌, refl, ap, sym, ◌∙◌, subst, Bool, true, false, Option, none, some,
  List, [], ◌++◌, append-nil, length, get_or, replicate, get_or-set_self, arith, Bool-cases, inl,
  inr, ltb, lt→ltb, ◌==◌, if◌then◌else◌,
}
use sirius_scope.Prelude.Int.{pos_part, ltb_ℤ}
use sirius_scope.Domain.{SignalSample}
use sirius_scope.Waterfall.Bins.{WaterfallAggregatorConfig, bucket_for_sample, bin_for_frequency}
use sirius_scope.Waterfall.Bins.Fast.{bin_for_frequency-monotone}
use sirius_scope.Waterfall.Rows.{
  WaterfallAggregateCell, WaterfallSnapshotRow, OpenRow, Work, tally, one_sample, empty_cell,
  row_of, close_into_result, enter_bucket, place_in_bin, place_in_bucket, consume_sample,
  open_bucket, add_sample_to_open_row, add_to_row, update_cell,
}
use sirius_scope.Waterfall.Rows.Shape.{IsShaped, IsEntered, AllOf, list_of, enter-IsReady, IsReady}

-- Whether the open row is that of the bucket.
abbrev pub is_open_for : ℕ → Option OpenRow → Bool
is_open_for bucket none = false
is_open_for bucket (some row) = row.bucket_index == bucket

-- The cell that the sample meets: that of the open row of its bucket, or an empty one.
abbrev pub cell_before : ℕ → ℕ → Option OpenRow → WaterfallAggregateCell
cell_before bucket bin none = empty_cell
cell_before bucket bin (some row) =
    if row.bucket_index == bucket then get_or row.cells bin empty_cell else empty_cell

-- The open row after a sample of the bucket, and the rows of the result.
pub record IsPlaced (s : SignalSample) (bucket bin : ℕ) (before after : Work) : Type 0 where
  pub row : OpenRow
  pub is_open : after.0.open_row ≡ some row
  pub same_bucket : row.bucket_index ≡ bucket
  pub has_samples : row.has_samples ≡ true
  pub covers : (row.first_sample_index ≤ s.sample_index) × (s.sample_index ≤ row.last_sample_index)
  pub cell :
      get_or row.cells bin empty_cell ≡ update_cell s (cell_before bucket bin before.0.open_row)
  pub closed :
      after.1.rows
      ≡ before.1.rows
        ++ (if is_open_for bucket before.0.open_row then [] else list_of (row_of before.0.open_row))

-- What entering a bucket leaves open.
record IsOpenFor (bucket bin : ℕ) (w : Work) (cell : WaterfallAggregateCell)
    (rows : List WaterfallSnapshotRow) : Type 0 where
  row : OpenRow
  is_open : w.0.open_row ≡ some row
  same_bucket : row.bucket_index ≡ bucket
  same_cell : get_or row.cells bin empty_cell ≡ cell
  same_rows : w.1.rows ≡ rows

get_or-empty : (n i : ℕ) → get_or (replicate n empty_cell) i empty_cell ≡ empty_cell
get_or-empty zero i = refl
get_or-empty (suc n) zero = refl
get_or-empty (suc n) (suc i) = get_or-empty n i

close-rows :
    (w : Work) (row : Option WaterfallSnapshotRow)
    → (close_into_result w row).1.rows ≡ w.1.rows ++ list_of row
unfolding close_into_result
close-rows w none = sym (append-nil w.1.rows)
close-rows w (some row) = refl

enter-IsOpenFor :
    (w : Work) (s : SignalSample) (bucket bin : ℕ) (open_row : Option OpenRow)
    → w.0.open_row ≡ open_row
    → IsOpenFor bucket bin
        (enter_bucket w s bucket open_row)
        (cell_before bucket bin open_row)
        (w.1.rows ++ (if is_open_for bucket open_row then [] else list_of (row_of open_row)))
unfolding enter_bucket open_bucket
enter-IsOpenFor w s bucket bin none e = record {
  row = _;
  is_open = refl;
  same_bucket = refl;
  same_cell = get_or-empty (pos_part w.0.config.render_bin_count) bin;
  same_rows = sym (append-nil w.1.rows);
}
enter-IsOpenFor w s bucket bin (some row) e = elim (Bool-cases (row.bucket_index == bucket)) [
  | inl same ↦ rw same (record {
    row = row;
    is_open = e;
    same_bucket = ground arith;
    same_cell = refl;
    same_rows = sym (append-nil w.1.rows);
  })
  | inr other ↦ rw other (record {
    row = _;
    is_open = refl;
    same_bucket = refl;
    same_cell = get_or-empty _ bin;
    same_rows = close-rows w (row_of (some row));
  })
]

add-IsPlaced :
    (c : WaterfallAggregatorConfig) (before w : Work) (s : SignalSample) (bucket bin : ℕ)
    → bin < pos_part c.render_bin_count
    → IsReady c w
    → IsOpenFor bucket bin w (cell_before bucket bin before.0.open_row) (
        before.1.rows
        ++ (if is_open_for bucket before.0.open_row
            then []
            else list_of (row_of before.0.open_row)))
    → IsPlaced s bucket bin before (add_sample_to_open_row w s bin)
unfolding add_sample_to_open_row add_to_row
add-IsPlaced c before w s bucket bin l r o =
    let e = subst (AllOf (IsEntered c)) o.is_open r.open_shape in
    let inside : ltb bin (length o.row.cells) ≡ true =
      lt→ltb bin (length o.row.cells) (omega (arith, e.width)) in
    rw (o.is_open, inside)
      (record {
        row = _;
        is_open = refl;
        same_bucket = o.same_bucket;
        has_samples = refl;
        covers = (omega arith, omega arith);
        cell =
            get_or-set_self o.row.cells bin _ empty_cell (omega (arith, e.width))
            ∙ ap (update_cell s) o.same_cell;
        closed = o.same_rows;
      })

consume_sample-taken :
    (w : Work) (s : SignalSample) (bucket bin : ℕ)
    → bucket_for_sample w.0.config s.sample_index ≡ some bucket
    → bin_for_frequency w.0.config s.absolute_frequency_hz ≡ some bin
    → ltb_ℤ s.amplitude w.0.config.amplitude_floor ≡ false
    → consume_sample w s
      ≡ add_sample_to_open_row (enter_bucket (tally one_sample w) s bucket w.0.open_row) s bin
unfolding consume_sample place_in_bucket place_in_bin
consume_sample-taken w s bucket bin eb ef ea = rw (eb, ef, ea) refl

-- A sample whose time lies in a bucket, whose frequency has a bin and whose amplitude reaches the
-- floor is in the open row, which then is one of its bucket and covers its index, and the cell of
-- its bin is the one before, or an empty one in a new row, raised as `update_cell` tells; the row
-- that was open before is returned exactly where it is one of another bucket. The row that is open
-- has the shape of the configuration.
pub consume_sample-IsPlaced :
    (c : WaterfallAggregatorConfig) (w : Work) (s : SignalSample) (bucket bin : ℕ)
    → IsShaped c w
    → bucket_for_sample c s.sample_index ≡ some bucket
    → bin_for_frequency c s.absolute_frequency_hz ≡ some bin
    → ltb_ℤ s.amplitude c.amplitude_floor ≡ false
    → IsPlaced s bucket bin w (consume_sample w s)
consume_sample-IsPlaced c w s bucket bin h eb ef ea =
    let hz = s.absolute_frequency_hz in
    let w' = tally one_sample w in
    let same =
      consume_sample-taken w s bucket bin
        (ap (λ x. bucket_for_sample x s.sample_index) h.same_config ∙ eb)
        (ap (λ x. bin_for_frequency x hz) h.same_config ∙ ef)
        (ap (λ (x : WaterfallAggregatorConfig). ltb_ℤ s.amplitude x.amplitude_floor) h.same_config
          ∙ ea) in
    let counted : IsShaped c w' = record {
      same_config = h.same_config;
      open_shape = h.open_shape;
      row_shapes = h.row_shapes;
    } in
    subst (IsPlaced s bucket bin w) (sym same) (
      add-IsPlaced c w (enter_bucket w' s bucket w.0.open_row) s bucket bin
        (bin_for_frequency-monotone c hz hz bin bin (omega arith) ef ef).1
        (enter-IsReady c w' s bucket w.0.open_row refl counted)
        (enter-IsOpenFor w' s bucket bin w.0.open_row refl))
