-- ===== src/Waterfall/RowQueue.antt =====
-- `WaterfallRowQueue` of src/pipeline/waterfall_row_queue.cpp: `pushRows`, `drain`, `reset` and
-- `setConfig`. A row and the metadata of its batch are opaque, since the queue only copies them; the
-- counters are not bounded by 64 bits, and the times between rows (floating point) are left out.
pub mod Keeps
pub mod Numbers
use sirius_scope.Prelude.{
  ℕ, zero, suc, ◌+◌, Bool, true, false, List, [], ◌∷◌, ◌++◌, length, take, drop, min, leb, ◌==◌,
  if◌then◌else◌,
}

pub data WaterfallOverflowPolicy : Type 0 where
  drop_oldest drop_newest : WaterfallOverflowPolicy

pub record WaterfallRowQueueConfig : Type 0 where
  pub max_queued_rows : ℕ
  pub overflow_policy : WaterfallOverflowPolicy

pub record WaterfallQueuedRow {ℓ} (Row Metadata : Type ℓ) : Type ℓ where
  pub sequence_id : ℕ
  pub metadata : Metadata
  pub row : Row

-- `m_metrics` without the depth, which is the length of `m_rows`.
pub record WaterfallRowQueueMetrics : Type 0 where
  pub pushed_rows : ℕ
  pub drained_rows : ℕ
  pub dropped_rows : ℕ
  pub latest_row_sequence_id : ℕ

pub record WaterfallRowQueue {ℓ} (Row Metadata : Type ℓ) : Type ℓ where
  pub config : WaterfallRowQueueConfig
  pub rows : List (WaterfallQueuedRow Row Metadata)
  pub metrics : WaterfallRowQueueMetrics
  pub next_row_sequence_id : ℕ

-- The counters of `WaterfallRowQueuePushResult`.
pub record PushResult : Type 0 where
  pub pushed_rows : ℕ
  pub queued_rows : ℕ
  pub dropped_rows : ℕ

abbrev pub no_row_metrics : WaterfallRowQueueMetrics
no_row_metrics = record {
  pushed_rows = 0;
  drained_rows = 0;
  dropped_rows = 0;
  latest_row_sequence_id = 0;
}

module _ {ℓ} {Row Metadata : Type ℓ} where
  unfoldable pub set_config :
      WaterfallRowQueue Row Metadata → WaterfallRowQueueConfig → WaterfallRowQueue Row Metadata
  set_config q c = record {
    config = c;
    rows = [];
    metrics = no_row_metrics;
    next_row_sequence_id = 1;
  }

  unfoldable pub reset_rows : WaterfallRowQueue Row Metadata → WaterfallRowQueue Row Metadata
  unfolding set_config
  reset_rows q = set_config q q.config

  -- `makeQueuedRow` and `push_back`.
  abbrev pub append_row :
      WaterfallRowQueue Row Metadata → Metadata → Row → WaterfallRowQueue Row Metadata
  append_row q metadata row = record q {
    rows =
        q.rows
        ++ record { sequence_id = q.next_row_sequence_id; metadata = metadata; row = row } ∷ [];
    next_row_sequence_id = q.next_row_sequence_id + 1;
    metrics = record q.metrics { latest_row_sequence_id = q.next_row_sequence_id };
  }

  abbrev pub count_dropped_row : WaterfallRowQueue Row Metadata → WaterfallRowQueue Row Metadata
  count_dropped_row q = record q {
    metrics = record q.metrics { dropped_rows = q.metrics.dropped_rows + 1 };
  }

  abbrev pub pop_front_row : WaterfallRowQueue Row Metadata → WaterfallRowQueue Row Metadata
  pop_front_row q = record q { rows = drop 1 q.rows }

  -- A row that meets a full queue.
  abbrev pub overflow_row :
      WaterfallOverflowPolicy
      → WaterfallRowQueue Row Metadata
      → PushResult
      → Metadata
      → Row
      → WaterfallRowQueue Row Metadata × PushResult
  overflow_row drop_oldest q result metadata row = (
    append_row (count_dropped_row (pop_front_row q)) metadata row,
    record result { dropped_rows = result.dropped_rows + 1; queued_rows = result.queued_rows + 1 },
  )
  overflow_row drop_newest q result metadata row =
      (count_dropped_row q, record result { dropped_rows = result.dropped_rows + 1 })

  -- One round of the loop.
  unfoldable pub push_row :
      WaterfallRowQueue Row Metadata
      → PushResult
      → Metadata
      → Row
      → WaterfallRowQueue Row Metadata × PushResult
  push_row q result metadata row =
      let q' = record q {
        metrics = record q.metrics { pushed_rows = q.metrics.pushed_rows + 1 };
      } in
      let result' = record result { pushed_rows = result.pushed_rows + 1 } in
      if q.config.max_queued_rows == 0
      then (count_dropped_row q', record result' { dropped_rows = result'.dropped_rows + 1 })
      else if leb q.config.max_queued_rows (length q.rows)
      then overflow_row q.config.overflow_policy q' result' metadata row
      else (append_row q' metadata row, record result' { queued_rows = result'.queued_rows + 1 })

  abbrev pub push_each :
      WaterfallRowQueue Row Metadata
      → PushResult
      → Metadata
      → List Row
      → WaterfallRowQueue Row Metadata × PushResult
  push_each q result metadata [] = (q, result)
  push_each q result metadata (row ∷ rows) =
      let (q', result') = push_row q result metadata row in push_each q' result' metadata rows

  unfoldable pub push_rows :
      WaterfallRowQueue Row Metadata
      → List Row
      → Metadata
      → WaterfallRowQueue Row Metadata × PushResult
  push_rows q rows metadata =
      push_each q (record { pushed_rows = 0; queued_rows = 0; dropped_rows = 0 }) metadata rows

  unfoldable pub drain :
      WaterfallRowQueue Row Metadata
      → ℕ
      → WaterfallRowQueue Row Metadata × List (WaterfallQueuedRow Row Metadata)
  drain q max_rows =
      let n = min max_rows (length q.rows) in
      (
        record q {
          rows = drop n q.rows;
          metrics = record q.metrics {
            drained_rows = q.metrics.drained_rows + length (take n q.rows);
          };
        },
        take n q.rows,
      )
