-- ===== src/Transport/Bridge/Balance.antt =====
-- Each block that the bridge receives is accounted for.
use sirius_scope.Prelude.{
  ℕ, ◌+◌, ◌≡◌, refl, ap, Bool, true, false, not, ◌&&◌, ◌||◌, Option, none, some, List, [], ◌∷◌,
  ◌++◌, length, arith, if-elim, leb, length-append,
}
use sirius_scope.Transport.Bridge.{
  SourceToPipelineBridge, SourceToPipelineBridgeMetrics, BcoSampleBlock, RxOverflowPolicy,
  rx_drop_newest, rx_drop_oldest, count_of, record_drop, record_drops, enqueue_block, drop_block,
  overflow_block, submit, begin_stop_bridge, end_stop_bridge, take_block, count_ingest,
}

module _ {ℓ} {Angle : Type ℓ} where
  abbrev pub samples_of : List (BcoSampleBlock Angle) → ℕ
  samples_of [] = 0
  samples_of (block ∷ blocks) = count_of block + samples_of blocks

  abbrev pub blocks_in : Option (BcoSampleBlock Angle) → ℕ
  blocks_in none = 0
  blocks_in (some block) = 1

  abbrev pub samples_in : Option (BcoSampleBlock Angle) → ℕ
  samples_in none = 0
  samples_in (some block) = count_of block

  -- The blocks and samples received are ingested, rejected, dropped, queued or with the worker; but
  -- for `blocks` and `samples`, which the worker held when the metrics were cleared.
  pub record IsBalanced (b : SourceToPipelineBridge Angle) (blocks samples : ℕ) : Type 0 where
    pub block_balance :
        b.metrics.received_blocks + blocks
        ≡ b.metrics.ingested_blocks
          + b.metrics.rejected_blocks
          + b.metrics.dropped_blocks
          + length b.queue
          + blocks_in b.worker_block
    pub sample_balance :
        b.metrics.received_samples + samples
        ≡ b.metrics.ingested_samples
          + b.metrics.rejected_samples
          + b.metrics.dropped_samples
          + samples_of b.queue
          + samples_in b.worker_block

  samples_of-append :
      (xs ys : List (BcoSampleBlock Angle)) → samples_of (xs ++ ys) ≡ samples_of xs + samples_of ys
  samples_of-append [] ys = omega arith
  samples_of-append (x ∷ xs) ys = omega (arith, samples_of-append xs ys)

  -- One block more came in, and is not placed yet.
  record IsOffered (b : SourceToPipelineBridge Angle) (block : BcoSampleBlock Angle)
      (blocks samples : ℕ) : Type 0 where
    block_balance :
        b.metrics.received_blocks + blocks
        ≡ b.metrics.ingested_blocks
          + b.metrics.rejected_blocks
          + b.metrics.dropped_blocks
          + length b.queue
          + blocks_in b.worker_block
          + 1
    sample_balance :
        b.metrics.received_samples + samples
        ≡ b.metrics.ingested_samples
          + b.metrics.rejected_samples
          + b.metrics.dropped_samples
          + samples_of b.queue
          + samples_in b.worker_block
          + count_of block

  drop-IsBalanced :
      (b : SourceToPipelineBridge Angle) (block : BcoSampleBlock Angle) (blocks samples : ℕ)
      → IsOffered b block blocks samples
      → IsBalanced (drop_block b block) blocks samples
  unfolding record_drop
  drop-IsBalanced b block blocks samples h = record {
    block_balance = omega (arith, h.block_balance);
    sample_balance = omega (arith, h.sample_balance);
  }

  enqueue-IsBalanced :
      (b : SourceToPipelineBridge Angle) (block : BcoSampleBlock Angle) (blocks samples : ℕ)
      → IsOffered b block blocks samples
      → IsBalanced (enqueue_block b block) blocks samples
  enqueue-IsBalanced b block blocks samples h = record {
    block_balance = omega (arith, h.block_balance, length-append b.queue (block ∷ []));
    sample_balance = omega (arith, h.sample_balance, samples_of-append b.queue (block ∷ []));
  }

  overflow-IsBalanced :
      (policy : RxOverflowPolicy) (b : SourceToPipelineBridge Angle) (block : BcoSampleBlock Angle)
      (queue : List (BcoSampleBlock Angle)) (blocks samples : ℕ)
      → b.queue ≡ queue
      → IsOffered b block blocks samples
      → IsBalanced (overflow_block policy b block queue) blocks samples
  unfolding overflow_block record_drop
  overflow-IsBalanced rx_drop_newest b block queue blocks samples e h =
      drop-IsBalanced b block blocks samples h
  overflow-IsBalanced rx_drop_oldest b block [] blocks samples e h =
      drop-IsBalanced b block blocks samples h
  overflow-IsBalanced rx_drop_oldest b block (oldest ∷ rest) blocks samples e h =
      enqueue-IsBalanced (record (drop_block b oldest) { queue = rest }) block blocks samples
        (record {
          block_balance = omega (arith, h.block_balance, ap length e);
          sample_balance = omega (arith, h.sample_balance, ap samples_of e);
        })

  pub submit-IsBalanced :
      (b : SourceToPipelineBridge Angle) (block : Option (BcoSampleBlock Angle))
      (blocks samples : ℕ)
      → IsBalanced b blocks samples
      → IsBalanced (submit b block) blocks samples
  unfolding submit
  submit-IsBalanced b none blocks samples h = h
  submit-IsBalanced b (some block) blocks samples h =
      let received : SourceToPipelineBridge Angle = record b {
        metrics = record b.metrics {
          received_blocks = b.metrics.received_blocks + 1;
          received_samples = b.metrics.received_samples + count_of block;
        };
      } in
      let P = λ (x : SourceToPipelineBridge Angle). IsBalanced x blocks samples in
      let offered : IsOffered received block blocks samples = record {
        block_balance = omega (arith, h.block_balance);
        sample_balance = omega (arith, h.sample_balance);
      } in
      if-elim P (not b.running || b.stop_requested) _ _
        (λ _. drop-IsBalanced received block blocks samples offered)
        (λ _.
          if-elim P (leb b.config.queue_capacity (length b.queue)) _ _
            (λ _.
              overflow-IsBalanced b.config.rx_overflow_policy
                (record received { overflow_published = true }) block b.queue blocks samples refl
                (record {
                  block_balance = offered.block_balance;
                  sample_balance = offered.sample_balance;
                }))
            (λ _. enqueue-IsBalanced received block blocks samples offered))

  drops-IsBalanced :
      (b : SourceToPipelineBridge Angle) (queue : List (BcoSampleBlock Angle))
      (m : SourceToPipelineBridgeMetrics) (blocks samples : ℕ)
      → IsBalanced (record b { queue = queue; metrics = m }) blocks samples
      → IsBalanced (record b { queue = []; metrics = record_drops m queue }) blocks samples
  unfolding record_drop
  drops-IsBalanced b [] m blocks samples h = h
  drops-IsBalanced b (block ∷ queue) m blocks samples h =
      drops-IsBalanced b queue (record_drop m block) blocks samples (record {
        block_balance = omega (arith, h.block_balance);
        sample_balance = omega (arith, h.sample_balance);
      })

  pub begin_stop-IsBalanced :
      (b : SourceToPipelineBridge Angle) (blocks samples : ℕ)
      → IsBalanced b blocks samples
      → IsBalanced (begin_stop_bridge b) blocks samples
  unfolding begin_stop_bridge
  begin_stop-IsBalanced b blocks samples h =
      let d = drops-IsBalanced b b.queue b.metrics blocks samples h in
      if-elim (λ (x : SourceToPipelineBridge Angle). IsBalanced x blocks samples)
        (not b.running && not b.joinable) b _ (λ _. h)
        (λ _. record { block_balance = d.block_balance; sample_balance = d.sample_balance })

  pub end_stop-IsBalanced :
      (b : SourceToPipelineBridge Angle) (blocks samples : ℕ)
      → IsBalanced b blocks samples
      → IsBalanced (end_stop_bridge b) blocks samples
  unfolding end_stop_bridge
  end_stop-IsBalanced b blocks samples h =
      if-elim (λ (x : SourceToPipelineBridge Angle). IsBalanced x blocks samples)
        (not b.running && not b.joinable) b _ (λ _. h)
        (λ _. record { block_balance = h.block_balance; sample_balance = h.sample_balance })

  -- With an idle worker only: it holds no block then.
  pub wake-IsBalanced :
      (b : SourceToPipelineBridge Angle) (queue : List (BcoSampleBlock Angle)) (blocks samples : ℕ)
      → b.queue ≡ queue
      → b.worker_block ≡ none
      → IsBalanced b blocks samples
      → IsBalanced (take_block b queue) blocks samples
  wake-IsBalanced b [] blocks samples e w h = h
  wake-IsBalanced b (block ∷ rest) blocks samples e w h = record {
    block_balance = omega (arith, h.block_balance, ap length e, ap blocks_in w);
    sample_balance = omega (arith, h.sample_balance, ap samples_of e, ap samples_in w);
  }

  pub ingest-IsBalanced :
      (b : SourceToPipelineBridge Angle) (block : BcoSampleBlock Angle) (ingested : Bool)
      (blocks samples : ℕ)
      → b.worker_block ≡ some block
      → IsBalanced b blocks samples
      → IsBalanced (count_ingest b block ingested) blocks samples
  unfolding count_ingest
  ingest-IsBalanced b block true blocks samples w h = record {
    block_balance = omega (arith, h.block_balance, ap blocks_in w);
    sample_balance = omega (arith, h.sample_balance, ap samples_in w);
  }
  ingest-IsBalanced b block false blocks samples w h = record {
    block_balance = omega (arith, h.block_balance, ap blocks_in w);
    sample_balance = omega (arith, h.sample_balance, ap samples_in w);
  }
