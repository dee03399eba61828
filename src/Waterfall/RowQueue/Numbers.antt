-- ===== src/Waterfall/RowQueue/Numbers.antt =====
-- The rows in the queue are numbered without gaps, and each row is accounted for.
use sirius_scope.Prelude.{
  ℕ, zero, suc, ◌+◌, ◌≤◌, ◌<◌, ◌≡◌, refl, sym, subst, List, [], ◌∷◌, ◌++◌, length, length-append,
  length-take, length-drop, drop, min, arith, Bool-cases, inl, inr, leb, ◌==◌,
}
use sirius_scope.Waterfall.RowQueue.{
  WaterfallOverflowPolicy, drop_oldest, drop_newest, WaterfallRowQueueConfig, WaterfallQueuedRow,
  WaterfallRowQueue, PushResult, set_config, reset_rows, overflow_row, push_row, push_each,
  push_rows, drain,
}

-- A call of the queue.
pub data RowQueueCall {ℓ} (Row Metadata : Type ℓ) : Type ℓ where
  push_rows_call : List Row → Metadata → RowQueueCall Row Metadata
  drain_call : ℕ → RowQueueCall Row Metadata
  reset_call : RowQueueCall Row Metadata
  set_config_call : WaterfallRowQueueConfig → RowQueueCall Row Metadata

module _ {ℓ} {Row Metadata : Type ℓ} where
  -- The numbers of the rows are `n`, `n + 1`, ... up to `next`, which is none of them.
  abbrev pub Numbered : ℕ → ℕ → List (WaterfallQueuedRow Row Metadata) → Type 0
  Numbered n next [] = n ≡ next
  Numbered n next (r ∷ rs) = (r.sequence_id ≡ n) × Numbered (n + 1) next rs

  pub record IsConsistent (q : WaterfallRowQueue Row Metadata) : Type ℓ where
    pub first : ℕ
    pub numbered : Numbered first q.next_row_sequence_id q.rows
    pub bounded : length q.rows ≤ q.config.max_queued_rows
    pub balance :
        q.metrics.pushed_rows ≡ q.metrics.drained_rows + q.metrics.dropped_rows + length q.rows
    pub latest : q.metrics.latest_row_sequence_id + 1 ≡ q.next_row_sequence_id

  Numbered-append :
      (n next : ℕ) (rs : List (WaterfallQueuedRow Row Metadata)) (m : Metadata) (row : Row)
      → Numbered n next rs
      → Numbered n (next + 1) (rs ++ record { sequence_id = next; metadata = m; row = row } ∷ [])
  Numbered-append n next [] m row h = (sym h, omega (arith, h))
  Numbered-append n next (r ∷ rs) m row h = (h.0, Numbered-append (n + 1) next rs m row h.1)

  Numbered-drop :
      (k n next : ℕ) (rs : List (WaterfallQueuedRow Row Metadata))
      → k ≤ length rs
      → Numbered n next rs
      → Numbered (n + k) next (drop k rs)
  Numbered-drop zero n next rs l h = subst (λ m. Numbered m next rs) (omega arith) h
  Numbered-drop (suc k) n next [] l h = absurd (omega arith)
  Numbered-drop (suc k) n next (r ∷ rs) l h =
      subst (λ m. Numbered m next (drop k rs)) (omega arith)
        (Numbered-drop k (n + 1) next rs (omega arith) h.1)

  abbrev count_pushed_row : WaterfallRowQueue Row Metadata → WaterfallRowQueue Row Metadata
  count_pushed_row q = record q {
    metrics = record q.metrics { pushed_rows = q.metrics.pushed_rows + 1 };
  }

  overflow-IsConsistent :
      (policy : WaterfallOverflowPolicy) (q : WaterfallRowQueue Row Metadata) (result : PushResult)
      (m : Metadata) (row : Row)
      → 0 < length q.rows
      → IsConsistent q
      → IsConsistent (overflow_row policy (count_pushed_row q) result m row).0
  overflow-IsConsistent drop_newest q result m row l h = record {
    first = h.first;
    numbered = h.numbered;
    bounded = h.bounded;
    balance = omega (arith, h.balance);
    latest = h.latest;
  }
  overflow-IsConsistent drop_oldest q result m row l h =
      let rest = drop 1 q.rows in
      let new = record { sequence_id = q.next_row_sequence_id; metadata = m; row = row } ∷ [] in
      let one = length-append rest new in
      let less = length-drop 1 q.rows in
      record {
        first = h.first + 1;
        numbered =
            Numbered-append (h.first + 1) q.next_row_sequence_id rest m row
              (Numbered-drop 1 h.first q.next_row_sequence_id q.rows l h.numbered);
        bounded = omega (arith, one, less, h.bounded);
        balance = omega (arith, h.balance, one, less);
        latest = refl;
      }

  push_row-IsConsistent :
      (q : WaterfallRowQueue Row Metadata) (result : PushResult) (m : Metadata) (row : Row)
      → IsConsistent q
      → IsConsistent (push_row q result m row).0
  unfolding push_row
  push_row-IsConsistent q result m row h =
      let one =
        length-append q.rows
          (record { sequence_id = q.next_row_sequence_id; metadata = m; row = row } ∷ []) in
      elim (Bool-cases (q.config.max_queued_rows == 0)) [
        | inl none' ↦ rw none' (record {
          first = h.first;
          numbered = h.numbered;
          bounded = h.bounded;
          balance = omega (arith, h.balance);
          latest = h.latest;
        })
        | inr some' ↦ elim (Bool-cases (leb q.config.max_queued_rows (length q.rows))) [
          | inr room ↦
              rw (some', room)
                (record {
                  first = h.first;
                  numbered = Numbered-append h.first q.next_row_sequence_id q.rows m row h.numbered;
                  bounded = ground arith;
                  balance = omega (arith, h.balance, one);
                  latest = refl;
                })
          | inl full ↦
              rw (some', full)
                (overflow-IsConsistent q.config.overflow_policy q _ m row (ground arith) h)
        ]
      ]

  push_each-IsConsistent :
      (q : WaterfallRowQueue Row Metadata) (result : PushResult) (m : Metadata) (rows : List Row)
      → IsConsistent q
      → IsConsistent (push_each q result m rows).0
  push_each-IsConsistent q result m [] h = h
  push_each-IsConsistent q result m (row ∷ rows) h =
      push_each-IsConsistent (push_row q result m row).0 (push_row q result m row).1 m rows
        (push_row-IsConsistent q result m row h)

  drain-IsConsistent :
      (q : WaterfallRowQueue Row Metadata) (max_rows : ℕ)
      → IsConsistent q
      → IsConsistent (drain q max_rows).0
  unfolding drain
  drain-IsConsistent q max_rows h =
      let n = min max_rows (length q.rows) in
      let gone = length-take n q.rows in
      let left = length-drop n q.rows in
      record {
        first = h.first + n;
        numbered = Numbered-drop n h.first q.next_row_sequence_id q.rows (omega arith) h.numbered;
        bounded = omega (arith, left, h.bounded);
        balance = omega (arith, h.balance, gone, left);
        latest = h.latest;
      }

  abbrev pub call_row_queue :
      WaterfallRowQueue Row Metadata → RowQueueCall Row Metadata → WaterfallRowQueue Row Metadata
  call_row_queue q (push_rows_call rows m) = (push_rows q rows m).0
  call_row_queue q (drain_call n) = (drain q n).0
  call_row_queue q reset_call = reset_rows q
  call_row_queue q (set_config_call c) = set_config q c

  abbrev pub run_row_queue :
      WaterfallRowQueue Row Metadata
      → List (RowQueueCall Row Metadata)
      → WaterfallRowQueue Row Metadata
  run_row_queue q [] = q
  run_row_queue q (c ∷ cs) = run_row_queue (call_row_queue q c) cs

  pub set_config-IsConsistent :
      (q : WaterfallRowQueue Row Metadata) (c : WaterfallRowQueueConfig)
      → IsConsistent (set_config q c)
  unfolding set_config
  set_config-IsConsistent q c = record {
    first = 1;
    numbered = refl;
    bounded = omega arith;
    balance = refl;
    latest = refl;
  }

  call-IsConsistent :
      (q : WaterfallRowQueue Row Metadata) (call : RowQueueCall Row Metadata)
      → IsConsistent q
      → IsConsistent (call_row_queue q call)
  unfolding push_rows reset_rows
  call-IsConsistent q (push_rows_call rows m) h = push_each-IsConsistent q _ m rows h
  call-IsConsistent q (drain_call n) h = drain-IsConsistent q n h
  call-IsConsistent q reset_call h = set_config-IsConsistent q q.config
  call-IsConsistent q (set_config_call c) h = set_config-IsConsistent q c

  run-IsConsistent :
      (q : WaterfallRowQueue Row Metadata) (calls : List (RowQueueCall Row Metadata))
      → IsConsistent q
      → IsConsistent (run_row_queue q calls)
  run-IsConsistent q [] h = h
  run-IsConsistent q (c ∷ cs) h = run-IsConsistent (call_row_queue q c) cs (call-IsConsistent q c h)

  -- After a configuration and whatever calls: the rows in the queue are numbered without gaps up to
  -- the latest number given out, there are no more than the maximum, and each row that was pushed
  -- since the last reset is drained, counted as dropped, or still there.
  pub run_row_queue-IsConsistent :
      (q : WaterfallRowQueue Row Metadata) (c : WaterfallRowQueueConfig)
      (calls : List (RowQueueCall Row Metadata))
      → IsConsistent (run_row_queue (set_config q c) calls)
  run_row_queue-IsConsistent q c calls =
      run-IsConsistent (set_config q c) calls (set_config-IsConsistent q c)
