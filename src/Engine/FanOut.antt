-- ===== src/Engine/FanOut.antt =====
-- The parallel mode of `ProcessingEngine` of src/pipeline/processing_engine.cpp, with its threads
-- as sequences of steps: the worker takes a block and hands it to the stages, and each stage has a
-- worker of its own. A step is what a thread does under one lock, or between two of them on data of
-- its own. What the aggregators make of a block stands in their modules.
pub mod Live
pub mod Ledger
pub mod Holders
pub mod Balance
pub mod Begin
pub mod Drained
pub mod Drains
pub mod Finish
use sirius_scope.Prelude.{
  ℕ, ◌+◌, ◌-◌, Bool, true, false, ◌&&◌, Option, none, some, List, [], ◌∷◌, ◌++◌, map, length,
  get_or, set, ◌==◌, if◌then◌else◌,
}
use sirius_scope.Transport.Block.{SignalBlock}
use sirius_scope.Transport.Pool.{no_metadata}
use sirius_scope.Engine.Accounting.{
  BlockAccountingData, ProcessingEngineSummary, empty_summary, make_block_accounting,
  record_block_completed,
}
use sirius_scope.Engine.Stages.{
  FanOutStage, ProcessingEngineConfig, StageJob, Submission, PerStage, at, put_at,
  active_fan_out_stages, submit_fan_out_context,
}

-- `remaining_stages` is an `int` that never gets below 0.
pub record FanOutBlockContext {ℓ} (Angle : Type ℓ) : Type ℓ where
  pub block : SignalBlock Angle
  pub accounting : BlockAccountingData
  pub remaining_stages : ℕ

-- The engine's members, then what the threads hold: the job of each stage's worker, and of the
-- engine's worker the skipped jobs that it has still to complete and the block that no stage took.
pub record FanOut {ℓ} (Angle : Type ℓ) : Type ℓ where
  pub contexts : List (FanOutBlockContext Angle)
  pub stage_queues : PerStage (List StageJob)
  pub stage_stop_requested : Bool
  pub in_flight_fan_out_blocks : ℕ
  pub summary : ProcessingEngineSummary
  pub processing_block : Bool
  pub completed_queue_pops : ℕ
  pub stage_jobs : PerStage (Option ℕ)
  pub skipping : List ℕ
  pub rejected : Option ℕ

abbrev pub is_empty : List StageJob → Bool
is_empty [] = true
is_empty (job ∷ jobs) = false

abbrev pub same_for_all {ℓ} : {A : Type ℓ} → A → PerStage A
same_for_all a = record {
  of_waterfall = a;
  of_spectrum = a;
  of_bearing = a;
  of_signal_parameter = a;
}

module _ {ℓ} {Angle : Type ℓ} where
  -- What `start` makes of the engine.
  abbrev pub new_fan_out : FanOut Angle
  new_fan_out = record {
    contexts = [];
    stage_queues = same_for_all [];
    stage_stop_requested = false;
    in_flight_fan_out_blocks = 0;
    summary = empty_summary;
    processing_block = false;
    completed_queue_pops = 0;
    stage_jobs = same_for_all none;
    skipping = [];
    rejected = none;
  }

  abbrev pub no_block : SignalBlock Angle
  no_block = record { metadata = no_metadata; max_samples = 0; samples = [] }

  unfoldable pub make_context :
      ProcessingEngineConfig → SignalBlock Angle → FanOutBlockContext Angle
  make_context config block = record {
    block = block;
    accounting = make_block_accounting block;
    remaining_stages = length (active_fan_out_stages config);
  }

  abbrev pub no_context : FanOutBlockContext Angle
  no_context = record {
    block = no_block;
    accounting = make_block_accounting no_block;
    remaining_stages = 0;
  }

  abbrev pub context_at : List (FanOutBlockContext Angle) → ℕ → FanOutBlockContext Angle
  context_at contexts c = get_or contexts c no_context

  -- `completeFanOutStage`
  unfoldable pub complete_fan_out_stage : FanOut Angle → ℕ → FanOut Angle
  complete_fan_out_stage e c =
      let context = context_at e.contexts c in
      let e' : FanOut Angle = record e {
        contexts =
            set e.contexts c (record context { remaining_stages = context.remaining_stages - 1 });
      } in
      if context.remaining_stages == 1
      then record e' {
        summary = record_block_completed e'.summary context.accounting;
        in_flight_fan_out_blocks = e'.in_flight_fan_out_blocks - 1;
      }
      else e'

  -- The rest of `processBlockParallel`. Skipped jobs are completed after the lock; a block that is
  -- not taken is left to the sequential way, and the count of blocks in flight that it raised goes
  -- down again.
  abbrev pub hand_on :
      ProcessingEngineConfig → FanOut Angle → SignalBlock Angle → Submission → Bool → FanOut Angle
  hand_on config e block s true = record e {
    contexts = e.contexts ++ make_context config block ∷ [];
    stage_queues = s.queues;
    in_flight_fan_out_blocks = e.in_flight_fan_out_blocks + 1;
    skipping = map (λ k. k.job.context) s.skipped;
  }
  hand_on config e block s false = record e {
    contexts = e.contexts ++ make_context config block ∷ [];
    stage_queues = s.queues;
    rejected = some (length e.contexts);
  }

  unfoldable pub process_block_parallel :
      ProcessingEngineConfig → FanOut Angle → SignalBlock Angle → ℕ → FanOut Angle
  unfolding make_context
  process_block_parallel config e block now =
      let (s, ok) =
        submit_fan_out_context config e.stage_queues e.stage_stop_requested
          (record { context = length e.contexts; enqueued_at = now }) in
      hand_on config e block s ok

  -- The worker takes a block from its queue and hands it on.
  unfoldable pub begin_block :
      ProcessingEngineConfig → FanOut Angle → SignalBlock Angle → ℕ → FanOut Angle
  unfolding process_block_parallel
  begin_block config e block now =
      if e.processing_block
      then e
      else process_block_parallel config (record e { processing_block = true }) block now

  abbrev pub skip_from : FanOut Angle → List ℕ → FanOut Angle
  skip_from e [] = e
  skip_from e (c ∷ rest) = complete_fan_out_stage (record e { skipping = rest }) c

  -- The next round of the loop that completes the skipped jobs.
  unfoldable pub complete_skipped : FanOut Angle → FanOut Angle
  unfolding complete_fan_out_stage
  complete_skipped e = skip_from e e.skipping

  abbrev pub record_from : FanOut Angle → Option ℕ → FanOut Angle
  record_from e none = e
  record_from e (some c) = record e {
    summary = record_block_completed e.summary (context_at e.contexts c).accounting;
    rejected = none;
  }

  -- `processBlockSequential` on the block that was not taken.
  unfoldable pub process_rejected : FanOut Angle → FanOut Angle
  process_rejected e = record_from e e.rejected

  abbrev pub end_from : FanOut Angle → List ℕ → Option ℕ → FanOut Angle
  end_from e [] none = record e {
    processing_block = false;
    completed_queue_pops = e.completed_queue_pops + 1;
  }
  end_from e [] (some c) = e
  end_from e (c ∷ rest) r = e

  -- The end of a round of `workerLoop`, which has done all the block needs.
  unfoldable pub end_block : FanOut Angle → FanOut Angle
  end_block e = if e.processing_block then end_from e e.skipping e.rejected else e

  abbrev pub pop_from : FanOut Angle → FanOutStage → Option ℕ → List StageJob → FanOut Angle
  pop_from e stage (some c) jobs = e
  pop_from e stage none [] = e
  pop_from e stage none (job ∷ jobs) = record e {
    stage_queues = put_at e.stage_queues stage jobs;
    stage_jobs = put_at e.stage_jobs stage (some job.context);
  }

  -- `popFanOutStageJob` by the stage's worker when it has no job.
  unfoldable pub pop_fan_out_stage_job : FanOut Angle → FanOutStage → FanOut Angle
  pop_fan_out_stage_job e stage = pop_from e stage (at e.stage_jobs stage) (at e.stage_queues stage)

  abbrev pub finish_from : FanOut Angle → FanOutStage → Option ℕ → FanOut Angle
  finish_from e stage none = e
  finish_from e stage (some c) =
      complete_fan_out_stage (record e { stage_jobs = put_at e.stage_jobs stage none }) c

  -- The worker of the stage has processed its job.
  unfoldable pub finish_stage_job : FanOut Angle → FanOutStage → FanOut Angle
  unfolding complete_fan_out_stage
  finish_stage_job e stage = finish_from e stage (at e.stage_jobs stage)

  unfoldable pub stop_fan_out_workers : FanOut Angle → FanOut Angle
  stop_fan_out_workers e = record e { stage_stop_requested = true }

  unfoldable pub fan_out_drained : FanOut Angle → Bool
  fan_out_drained e =
      e.in_flight_fan_out_blocks == 0
      && is_empty e.stage_queues.of_waterfall
      && is_empty e.stage_queues.of_spectrum
      && is_empty e.stage_queues.of_bearing
      && is_empty e.stage_queues.of_signal_parameter

-- The steps of the threads; one that cannot be taken changes nothing.
pub data FanOutStep {ℓ} (Angle : Type ℓ) : Type ℓ where
  begin_step : SignalBlock Angle → ℕ → FanOutStep Angle
  skip_step : FanOutStep Angle
  rejected_step : FanOutStep Angle
  end_step : FanOutStep Angle
  pop_step : FanOutStage → FanOutStep Angle
  finish_step : FanOutStage → FanOutStep Angle
  stop_step : FanOutStep Angle

module _ {ℓ} {Angle : Type ℓ} where
  unfoldable pub take_step : ProcessingEngineConfig → FanOut Angle → FanOutStep Angle → FanOut Angle
  unfolding begin_block complete_skipped process_rejected end_block pop_fan_out_stage_job
      finish_stage_job stop_fan_out_workers
  take_step config e (begin_step block now) = begin_block config e block now
  take_step config e skip_step = complete_skipped e
  take_step config e rejected_step = process_rejected e
  take_step config e end_step = end_block e
  take_step config e (pop_step stage) = pop_fan_out_stage_job e stage
  take_step config e (finish_step stage) = finish_stage_job e stage
  take_step config e stop_step = stop_fan_out_workers e

  unfoldable pub take_steps :
      ProcessingEngineConfig → FanOut Angle → List (FanOutStep Angle) → FanOut Angle
  unfolding take_step
  take_steps config e [] = e
  take_steps config e (step ∷ steps) = take_steps config (take_step config e step) steps
