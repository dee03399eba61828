-- ===== src/Engine/FanOut/Drained.antt =====
-- Every block that comes to the parallel mode of src/pipeline/processing_engine.cpp is recorded
-- once, whatever the order of the threads' steps.
use sirius_scope.Prelude.{
  ℕ, ◌<◌, ◌≤◌, ◌≡◌, ◌≢◌, refl, ap, sym, subst, ◌∙◌, Bool, true, false, ◌&&◌, some, List, [], ◌∷◌,
  map, length, arith, ◌==◌, if-elim,
}
use sirius_scope.Prelude.Counts.{count}
use sirius_scope.Engine.Stages.{FanOutStage, ProcessingEngineConfig, at}
use sirius_scope.Engine.FanOut.{
  FanOut, FanOutStep, begin_step, skip_step, rejected_step, end_step, pop_step, finish_step,
  stop_step, new_fan_out, begin_block, complete_skipped, process_rejected, end_block,
  pop_fan_out_stage_job, finish_stage_job, stop_fan_out_workers, take_step, take_steps,
}
use sirius_scope.Engine.FanOut.Holders.{finish-Downs}
use sirius_scope.Engine.FanOut.Ledger.{waiting, waiting_blocks, block_at}
use sirius_scope.Engine.FanOut.Balance.{
  holders_of, IsBalanced, new-IsBalanced, skip-IsBalanced, rejected-IsBalanced, end-IsBalanced,
  pop-IsBalanced, finish-IsBalanced,
}
use sirius_scope.Engine.FanOut.Begin.{begin-IsBalanced}
use sirius_scope.Engine.FanOut.{fan_out_drained, is_empty}
use sirius_scope.Engine.FanOut.Live.{one_if_held, live-zero}
use sirius_scope.Engine.Accounting.Summary.{IsSummary, complete_blocks-IsSummary}

drained-zero : (n : ℕ) (a b c d : Bool) → (n == 0 && a && b && c && d) ≡ true → n ≡ 0
drained-zero n a b c d h = ground arith

module _ {ℓ} {Angle : Type ℓ} where
  step-IsBalanced :
      (config : ProcessingEngineConfig) (e : FanOut Angle) (step : FanOutStep Angle)
      → IsBalanced e
      → IsBalanced (take_step config e step)
  unfolding take_step begin_block complete_skipped process_rejected end_block pop_fan_out_stage_job
      finish_stage_job stop_fan_out_workers
  step-IsBalanced config e (begin_step block now) h =
      if-elim IsBalanced e.processing_block e _ (λ _. h)
        λ free.
          let (s, r) = h.idle free in
          begin-IsBalanced config (record e { processing_block = true }) block now s r refl h.ledger
  step-IsBalanced config e skip_step h = skip-IsBalanced e e.skipping refl h
  step-IsBalanced config e rejected_step h = rejected-IsBalanced e e.rejected refl h
  step-IsBalanced config e end_step h =
      if-elim IsBalanced e.processing_block _ e
        (λ _. end-IsBalanced e e.skipping e.rejected refl refl h) λ _. h
  step-IsBalanced config e (pop_step stage) h =
      pop-IsBalanced e stage (at e.stage_jobs stage) (at e.stage_queues stage) refl refl h
  step-IsBalanced config e (finish_step stage) h =
      finish-IsBalanced e stage (at e.stage_jobs stage) refl h
  step-IsBalanced config e stop_step h = record { ledger = h.ledger; idle = h.idle }

  pub take_steps-IsBalanced :
      (config : ProcessingEngineConfig) (e : FanOut Angle) (steps : List (FanOutStep Angle))
      → IsBalanced e
      → IsBalanced (take_steps config e steps)
  unfolding take_steps
  take_steps-IsBalanced config e [] h = h
  take_steps-IsBalanced config e (step ∷ steps) h =
      take_steps-IsBalanced config (take_step config e step) steps (step-IsBalanced config e step h)

  -- After any steps of the threads from the start, each block that came stands once: in the order
  -- in which the summary was made, or with as many queues and workers as its context counts stages,
  -- or with the engine's worker for the sequential way. The blocks in flight are those still held.
  pub run-IsBalanced :
      (config : ProcessingEngineConfig) (steps : List (FanOutStep Angle))
      → IsBalanced (take_steps config new_fan_out steps)
  run-IsBalanced config steps = take_steps-IsBalanced config new_fan_out steps new-IsBalanced

  -- The summary is that of all blocks, each of them once.
  pub record IsComplete (e : FanOut Angle) : Type ℓ where
    pub order : List ℕ
    pub each_once : (c : ℕ) → c < length e.contexts → count c order ≡ 1
    pub no_other : (c : ℕ) → length e.contexts ≤ c → count c order ≡ 0
    pub block_count : e.summary.processed_blocks ≡ length e.contexts
    pub no_worker : (stage : FanOutStage) (c : ℕ) → at e.stage_jobs stage ≢ some c
    pub summary_of : IsSummary (map (block_at e.contexts) order) e.summary

  balanced-IsComplete :
      (e : FanOut Angle)
      → IsBalanced e
      → e.processing_block ≡ false
      → e.in_flight_fan_out_blocks ≡ 0
      → IsComplete e
  balanced-IsComplete e h free none_left =
      let (_, r) = h.idle free in
      let l = h.ledger in
      let (ids, recorded) = l.recorded in
      let unheld : (c : ℕ) → c < length e.contexts → holders_of e c ≡ 0 =
        live-zero (length e.contexts) (holders_of e) (sym l.flying ∙ none_left) in
      record {
        order = ids;
        each_once = λ c p.
            omega (arith, recorded.once c p, ap (λ k. waiting k c) r, ap one_if_held (unheld c p));
        no_other = recorded.no_other;
        block_count = omega (arith, l.blocks, none_left, ap waiting_blocks r);
        no_worker = λ stage c w.
            let downs = finish-Downs e.stage_queues e.stage_jobs e.skipping stage c w in
            absurd (omega (arith, downs.held, unheld c (l.known c (omega (arith, downs.held)))));
        summary_of =
            subst (IsSummary (map (block_at e.contexts) ids)) (sym recorded.made)
              (complete_blocks-IsSummary (map (block_at e.contexts) ids));
      }

  drained-count : (e : FanOut Angle) → fan_out_drained e ≡ true → e.in_flight_fan_out_blocks ≡ 0
  unfolding fan_out_drained
  drained-count e h =
      drained-zero e.in_flight_fan_out_blocks (is_empty e.stage_queues.of_waterfall)
        (is_empty e.stage_queues.of_spectrum) (is_empty e.stage_queues.of_bearing)
        (is_empty e.stage_queues.of_signal_parameter) h

  -- When the engine's worker is at no block and `fanOutDrained` says so, after any steps from the
  -- start, then no stage's worker has a job, and the summary is that of all the blocks that came, in
  -- an order in which each stands once.
  pub fan_out_drained-IsComplete :
      (config : ProcessingEngineConfig) (steps : List (FanOutStep Angle))
      → (take_steps config new_fan_out steps).processing_block ≡ false
      → fan_out_drained (take_steps config new_fan_out steps) ≡ true
      → IsComplete (take_steps config new_fan_out steps)
  fan_out_drained-IsComplete config steps free drained =
      let e = take_steps config new_fan_out steps in
      balanced-IsComplete e (run-IsBalanced config steps) free (drained-count e drained)
