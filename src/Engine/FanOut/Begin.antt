-- ===== src/Engine/FanOut/Begin.antt =====
-- The balance when a block comes, in src/pipeline/processing_engine.cpp.
use sirius_scope.Prelude.{
  ℕ, ◌+◌, ◌*◌, ◌<◌, ◌≡◌, refl, sym, subst, ◌∙◌, Bool, true, false, none, some, [], ◌∷◌, length,
  arith, if◌then◌else◌,
}
use sirius_scope.Transport.Block.{SignalBlock}
use sirius_scope.Engine.Stages.{
  waterfall, spectrum, bearing, signal_parameter, Submission, ProcessingEngineConfig,
  active_fan_out_stages,
}
use sirius_scope.Engine.Stages.Submit.{IsEntered, submit_fan_out_context-all_or_none}
use sirius_scope.Engine.FanOut.{FanOut, make_context, hand_on, process_block_parallel}
use sirius_scope.Engine.FanOut.Holders.{holders, skip_contexts, active_count, holders-entered}
use sirius_scope.Engine.FanOut.Ledger.{waiting, waits, other, IsLedger}
use sirius_scope.Engine.FanOut.Ledger.Add.{Fresh, accepted-IsLedger, rejected-IsLedger}
use sirius_scope.Engine.FanOut.Balance.{holders_of, HasLedger, IsBalanced}

active-count :
    (config : ProcessingEngineConfig)
    → length (active_fan_out_stages config) ≡ active_count config.enable_signal_parameter_stage
unfolding active_fan_out_stages
active-count config = count_of config.enable_signal_parameter_stage
  where
    count_of :
        (b : Bool)
        → length (waterfall ∷ spectrum ∷ bearing ∷ (if b then signal_parameter ∷ [] else []))
          ≡ active_count b
    count_of true = refl
    count_of false = refl

times-one : (g f a w : ℕ) → g ≡ f + a * w → f ≡ 0 → w ≡ 1 → g ≡ a
times-one g f a w e e' e'' = e ∙ rw (e', e'') (omega arith)

times-zero : (g f a w : ℕ) → g ≡ f + a * w → w ≡ 0 → g ≡ f
times-zero g f a w e e' = e ∙ rw (e') (omega arith)

unknown : (a : ℕ) → (0 < a → ⊥) → a ≡ 0
unknown a h = omega (arith, h)

not-both : true ≡ false → ⊥
not-both e = cc

module _ {ℓ} {Angle : Type ℓ} where
  context-positive :
      (config : ProcessingEngineConfig) (block : SignalBlock Angle)
      → ((make_context config block).remaining_stages
          ≡ active_count config.enable_signal_parameter_stage)
        × (0 < (make_context config block).remaining_stages)
  unfolding make_context
  context-positive config block =
      let e = active-count config in (e, positive config.enable_signal_parameter_stage _ e)
    where
      positive : (b : Bool) (n : ℕ) → n ≡ active_count b → 0 < n
      positive true n e = omega (arith, e)
      positive false n e = omega (arith, e)

  context-Fresh :
      (config : ProcessingEngineConfig) (block : SignalBlock Angle)
      → Fresh (make_context config block)
  unfolding make_context
  context-Fresh config block = refl

  -- The two ends of a submission.
  hand-IsBalanced :
      (config : ProcessingEngineConfig) (e : FanOut Angle) (block : SignalBlock Angle) (now : ℕ)
      (s : Submission) (ok : Bool)
      → e.skipping ≡ []
      → e.rejected ≡ none
      → e.processing_block ≡ true
      → HasLedger (holders_of e) e
      → (ok ≡ true
          → IsEntered config config.enable_signal_parameter_stage e.stage_queues
              (record { context = length e.contexts; enqueued_at = now })
              s)
      → (ok ≡ false → s ≡ record { queues = e.stage_queues; skipped = [] })
      → IsBalanced (hand_on config e block s ok)
  hand-IsBalanced config e block now s true sk rj busy h entered unchanged =
      let f = holders e.stage_queues e.stage_jobs [] in
      let g = holders s.queues e.stage_jobs (skip_contexts s.skipped) in
      let n = length e.contexts in
      let ledger : IsLedger f e.contexts e.in_flight_fan_out_blocks e.summary none =
        subst (IsLedger f e.contexts e.in_flight_fan_out_blocks e.summary) rj
          (subst (λ cs. HasLedger (holders e.stage_queues e.stage_jobs cs) e) sk h) in
      let (all, positive) = context-positive config block in
      let grows : (d : ℕ)
          → g d ≡ f d + active_count config.enable_signal_parameter_stage * waiting (some n) d =
        holders-entered config config.enable_signal_parameter_stage e.stage_queues _ s e.stage_jobs
          (entered refl) in
      record {
        ledger = subst (IsLedger g _ _ e.summary) (sym rj) (
            accepted-IsLedger f g e.contexts (make_context config block) e.in_flight_fan_out_blocks
              e.summary (context-Fresh config block) positive
              (times-one _ _ _ _ (grows n)
                  (unknown (f n) (λ q. absurd (omega (arith, ledger.known n q)))) (waits n)
                ∙ sym all)
              (λ d ne. times-zero _ _ _ _ (grows d) (other n d ne)) ledger);
        idle = λ p. absurd (not-both (sym busy ∙ p));
      }
  hand-IsBalanced config e block now s false sk rj busy h entered unchanged =
      subst (λ k. IsBalanced (hand_on config e block k false)) (sym (unchanged refl))
        (record {
          ledger =
              rejected-IsLedger (holders_of e) e.contexts (make_context config block)
                e.in_flight_fan_out_blocks e.summary (context-Fresh config block)
                (subst (IsLedger (holders_of e) e.contexts e.in_flight_fan_out_blocks e.summary) rj
                  h);
          idle = λ p. absurd (not-both (sym busy ∙ p));
        })

  pub begin-IsBalanced :
      (config : ProcessingEngineConfig) (e : FanOut Angle) (block : SignalBlock Angle) (now : ℕ)
      → e.skipping ≡ []
      → e.rejected ≡ none
      → e.processing_block ≡ true
      → HasLedger (holders_of e) e
      → IsBalanced (process_block_parallel config e block now)
  unfolding process_block_parallel
  begin-IsBalanced config e block now s r busy h =
      let (takes, entered, unchanged) =
        submit_fan_out_context-all_or_none config e.stage_queues e.stage_stop_requested
          (record { context = length e.contexts; enqueued_at = now }) in
      hand-IsBalanced config e block now _ _ s r busy h entered unchanged
