-- ===== src/Transport/Bridge/Calls.antt =====
-- The bridge with its pipeline through any order of calls and steps of the worker.
use sirius_scope.Prelude.{
  ℕ, ◌≤◌, ◌≡◌, refl, Bool, true, false, Option, none, some, List, [], ◌∷◌, arith, if-elim,
  if◌then◌else◌,
}
use sirius_scope.Transport.Ingest.{DataIngestPipeline, ingest_samples}
use sirius_scope.Transport.Bridge.{
  SourceToPipelineBridge, SourceToPipelineBridgeConfig, BcoSampleBlock, new_bridge, submit,
  start_bridge, begin_stop_bridge, end_stop_bridge, clear_bridge, worker_wake, worker_ingest,
  is_accepted,
}
use sirius_scope.Transport.Bridge.Balance.{
  IsBalanced, blocks_in, samples_in, submit-IsBalanced, begin_stop-IsBalanced, end_stop-IsBalanced,
  wake-IsBalanced, ingest-IsBalanced,
}

-- A call of the bridge, a section of its worker, or anything that changes the pipeline meanwhile.
pub data BridgeCall {ℓ} (Angle : Type ℓ) : Type ℓ where
  submit_call : Option (BcoSampleBlock Angle) → BridgeCall Angle
  start_call : Bool → BridgeCall Angle
  begin_stop_call : BridgeCall Angle
  end_stop_call : BridgeCall Angle
  clear_call : BridgeCall Angle
  wake_call : BridgeCall Angle
  ingest_call : ℕ → BridgeCall Angle
  pipeline_call : DataIngestPipeline Angle → BridgeCall Angle

-- The bridge and the pipeline, with what the worker held when the metrics were cleared last.
pub record Ledger {ℓ} (Angle : Type ℓ) : Type ℓ where
  pub bridge : SourceToPipelineBridge Angle
  pub pipeline : DataIngestPipeline Angle
  pub stale_blocks : ℕ
  pub stale_samples : ℕ

module _ {ℓ} {Angle : Type ℓ} where
  abbrev pub new_ledger : SourceToPipelineBridgeConfig → DataIngestPipeline Angle → Ledger Angle
  new_ledger c pipeline = record {
    bridge = new_bridge c;
    pipeline = pipeline;
    stale_blocks = 0;
    stale_samples = 0;
  }

  -- The metrics start anew with what the worker holds.
  abbrev set_stale : Ledger Angle → SourceToPipelineBridge Angle → Ledger Angle
  set_stale l b = record l {
    bridge = b;
    stale_blocks = blocks_in l.bridge.worker_block;
    stale_samples = samples_in l.bridge.worker_block;
  }

  -- The worker wakes only when it holds no block.
  abbrev wake : Ledger Angle → Option (BcoSampleBlock Angle) → Ledger Angle
  wake l none = record l { bridge = worker_wake l.bridge }
  wake l (some block) = l

  abbrev pub call_bridge : Ledger Angle → BridgeCall Angle → Ledger Angle
  call_bridge l (submit_call block) = record l { bridge = submit l.bridge block }
  call_bridge l (start_call started) =
      if l.bridge.running then l else set_stale l (start_bridge l.bridge started).0
  call_bridge l begin_stop_call = record l { bridge = begin_stop_bridge l.bridge }
  call_bridge l end_stop_call = record l { bridge = end_stop_bridge l.bridge }
  call_bridge l clear_call = set_stale l (clear_bridge l.bridge)
  call_bridge l wake_call = wake l l.bridge.worker_block
  call_bridge l (ingest_call now) =
      let (b, p) = worker_ingest l.bridge l.pipeline now l.bridge.worker_block in
      record l { bridge = b; pipeline = p }
  call_bridge l (pipeline_call p) = record l { pipeline = p }

  abbrev pub call_bridge_all : Ledger Angle → List (BridgeCall Angle) → Ledger Angle
  call_bridge_all l [] = l
  call_bridge_all l (c ∷ cs) = call_bridge_all (call_bridge l c) cs

  pub record IsKept (l : Ledger Angle) : Type 0 where
    pub balanced : IsBalanced l.bridge l.stale_blocks l.stale_samples
    pub one_stale : l.stale_blocks ≤ 1

  wake-IsKept :
      (l : Ledger Angle) (block : Option (BcoSampleBlock Angle))
      → l.bridge.worker_block ≡ block
      → IsKept l
      → IsKept (wake l block)
  unfolding worker_wake
  wake-IsKept l none e h = record {
    balanced = wake-IsBalanced l.bridge l.bridge.queue _ _ refl e h.balanced;
    one_stale = h.one_stale;
  }
  wake-IsKept l (some block) e h = h

  ingest-IsKept :
      (l : Ledger Angle) (now : ℕ) (block : Option (BcoSampleBlock Angle))
      → l.bridge.worker_block ≡ block
      → IsKept l
      → IsBalanced (worker_ingest l.bridge l.pipeline now block).0 l.stale_blocks l.stale_samples
  unfolding worker_ingest
  ingest-IsKept l now none e h = h.balanced
  ingest-IsKept l now (some block) e h =
      ingest-IsBalanced l.bridge block
        (is_accepted (ingest_samples l.pipeline block.samples block.metadata now).1) _ _ e
        h.balanced

  stale_le : (block : Option (BcoSampleBlock Angle)) → blocks_in block ≤ 1
  stale_le none = omega arith
  stale_le (some block) = omega arith

  clear-IsKept : (l : Ledger Angle) → IsKept (set_stale l (clear_bridge l.bridge))
  unfolding clear_bridge
  clear-IsKept l = record {
    balanced = record { block_balance = omega arith; sample_balance = omega arith };
    one_stale = stale_le l.bridge.worker_block;
  }

  start-IsKept :
      (l : Ledger Angle) (started : Bool)
      → l.bridge.running ≡ false
      → IsKept (set_stale l (start_bridge l.bridge started).0)
  unfolding start_bridge
  start-IsKept l true e = rw e (record {
    balanced = record { block_balance = omega arith; sample_balance = omega arith };
    one_stale = stale_le l.bridge.worker_block;
  })
  start-IsKept l false e = rw e (record {
    balanced = record { block_balance = omega arith; sample_balance = omega arith };
    one_stale = stale_le l.bridge.worker_block;
  })

  call-IsKept : (l : Ledger Angle) (c : BridgeCall Angle) → IsKept l → IsKept (call_bridge l c)
  call-IsKept l (submit_call block) h = record {
    balanced = submit-IsBalanced l.bridge block _ _ h.balanced;
    one_stale = h.one_stale;
  }
  call-IsKept l (start_call started) h =
      if-elim IsKept l.bridge.running l _ (λ _. h) (λ e. start-IsKept l started e)
  call-IsKept l begin_stop_call h = record {
    balanced = begin_stop-IsBalanced l.bridge _ _ h.balanced;
    one_stale = h.one_stale;
  }
  call-IsKept l end_stop_call h = record {
    balanced = end_stop-IsBalanced l.bridge _ _ h.balanced;
    one_stale = h.one_stale;
  }
  call-IsKept l clear_call h = clear-IsKept l
  call-IsKept l wake_call h = wake-IsKept l l.bridge.worker_block refl h
  call-IsKept l (ingest_call now) h = record {
    balanced = ingest-IsKept l now l.bridge.worker_block refl h;
    one_stale = h.one_stale;
  }
  call-IsKept l (pipeline_call p) h = record { balanced = h.balanced; one_stale = h.one_stale }

  calls-IsKept :
      (l : Ledger Angle) (cs : List (BridgeCall Angle)) → IsKept l → IsKept (call_bridge_all l cs)
  calls-IsKept l [] h = h
  calls-IsKept l (c ∷ cs) h = calls-IsKept (call_bridge l c) cs (call-IsKept l c h)

  -- However calls and the worker's sections follow each other on a new bridge, whatever the pipeline
  -- answers: the blocks received, and their samples, are those ingested, rejected, dropped, queued
  -- and with the worker; but for at most one block, which the worker held when the metrics were
  -- cleared last and which is counted as ingested or rejected and not as received.
  pub new_ledger-IsKept :
      (c : SourceToPipelineBridgeConfig) (pipeline : DataIngestPipeline Angle)
      (cs : List (BridgeCall Angle))
      → IsKept (call_bridge_all (new_ledger c pipeline) cs)
  new_ledger-IsKept c pipeline cs = calls-IsKept (new_ledger c pipeline) cs (record {
    balanced = record { block_balance = refl; sample_balance = refl };
    one_stale = omega arith;
  })
