-- ===== src/Engine/Stages.antt =====
-- The stages that `ProcessingEngine` of src/pipeline/processing_engine.cpp hands a block to, and
-- their queues: `submitFanOutContext` with its helpers. A context is its place in the list of all
-- contexts. A point in time is a number of nanoseconds. The share of a queue that
-- `maxVisualQueueDepthRatio` allows is a floating-point number; here stands the number of jobs that
-- `floor(capacity * ratio)` makes of it.
pub mod Enter
pub mod Places
pub mod Submit
use sirius_scope.Prelude.{
  ℕ, ◌+◌, max, Bool, true, false, not, ◌&&◌, List, [], ◌∷◌, ◌++◌, length, ltb, leb, ◌==◌,
  if◌then◌else◌,
}
use sirius_scope.Prelude.Int.{ℤ, pos, ◌-ℤ◌, ◌*ℤ◌, ltb_ℤ, leb_ℤ}

pub data FanOutStage : Type 0 where
  waterfall : FanOutStage
  spectrum : FanOutStage
  bearing : FanOutStage
  signal_parameter : FanOutStage

pub data StageOverloadPolicy : Type 0 where
  lossless_required : StageOverloadPolicy
  bounded_latency_drop_oldest : StageOverloadPolicy
  realtime_latest_only : StageOverloadPolicy

pub data StageSkipReason : Type 0 where
  dropped_by_overload_policy : StageSkipReason
  replaced_by_latest : StageSkipReason

pub record StageOverloadConfig : Type 0 where
  pub waterfall : StageOverloadPolicy
  pub spectrum : StageOverloadPolicy
  pub bearing : StageOverloadPolicy
  pub signal_parameter : StageOverloadPolicy
  pub max_visual_queue_wait_ms : ℤ
  pub visual_queue_depth : ℕ

pub record ProcessingEngineConfig : Type 0 where
  pub stage_queue_capacity : ℕ
  pub enable_signal_parameter_stage : Bool
  pub overload_policy : StageOverloadConfig

pub record StageJob : Type 0 where
  pub context : ℕ
  pub enqueued_at : ℕ

pub record SkippedStageJob : Type 0 where
  pub stage : FanOutStage
  pub job : StageJob
  pub reason : StageSkipReason

-- An array with a place for each stage, and `fanOutStageIndex`.
pub record PerStage {ℓ} (A : Type ℓ) : Type ℓ where
  pub of_waterfall : A
  pub of_spectrum : A
  pub of_bearing : A
  pub of_signal_parameter : A

module _ {ℓ} {A : Type ℓ} where
  abbrev pub at : PerStage A → FanOutStage → A
  at xs waterfall = xs.of_waterfall
  at xs spectrum = xs.of_spectrum
  at xs bearing = xs.of_bearing
  at xs signal_parameter = xs.of_signal_parameter

  abbrev pub put_at : PerStage A → FanOutStage → A → PerStage A
  put_at xs waterfall x = record xs { of_waterfall = x }
  put_at xs spectrum x = record xs { of_spectrum = x }
  put_at xs bearing x = record xs { of_bearing = x }
  put_at xs signal_parameter x = record xs { of_signal_parameter = x }

-- `normalizeProcessingConfig`, less the ratio.
unfoldable pub normalize_processing_config : ProcessingEngineConfig → ProcessingEngineConfig
normalize_processing_config config = record config {
  overload_policy = record config.overload_policy {
    signal_parameter = lossless_required;
    max_visual_queue_wait_ms =
        if leb_ℤ config.overload_policy.max_visual_queue_wait_ms (pos 0)
        then pos 1000
        else config.overload_policy.max_visual_queue_wait_ms;
  };
}

unfoldable pub active_fan_out_stages : ProcessingEngineConfig → List FanOutStage
active_fan_out_stages config =
    waterfall
    ∷ spectrum
    ∷ bearing
    ∷ (if config.enable_signal_parameter_stage then signal_parameter ∷ [] else [])

unfoldable pub fan_out_stage_policy : ProcessingEngineConfig → FanOutStage → StageOverloadPolicy
fan_out_stage_policy config waterfall = config.overload_policy.waterfall
fan_out_stage_policy config spectrum = config.overload_policy.spectrum
fan_out_stage_policy config bearing = config.overload_policy.bearing
fan_out_stage_policy config signal_parameter = config.overload_policy.signal_parameter

-- A queue with the jobs that were taken off it.
pub record Trimmed : Type 0 where
  pub queue : List StageJob
  pub skipped : List SkippedStageJob

unfoldable pub replace_pending : FanOutStage → List StageJob → List SkippedStageJob
replace_pending stage [] = []
replace_pending stage (job ∷ jobs) =
    record { stage = stage; job = job; reason = replaced_by_latest } ∷ replace_pending stage jobs

-- Neither full nor over a budget, for the first job of a queue of that size.
abbrev pub within_budgets : ProcessingEngineConfig → ℕ → StageJob → ℕ → Bool
within_budgets config now job size =
    let full = leb config.stage_queue_capacity size in
    let over_depth_budget = leb (max 1 config.overload_policy.visual_queue_depth) size in
    let over_wait_budget =
      ltb_ℤ (config.overload_policy.max_visual_queue_wait_ms *ℤ pos 1_000_000)
        (pos now -ℤ pos job.enqueued_at) in
    not full && not over_depth_budget && not over_wait_budget

abbrev pub skip_oldest : FanOutStage → StageJob → Trimmed → Trimmed
skip_oldest stage job rest = record {
  queue = rest.queue;
  skipped = record { stage = stage; job = job; reason = dropped_by_overload_policy } ∷ rest.skipped;
}

-- The loop of `dropOldestStageJobsLocked`.
unfoldable pub drop_while_over : ProcessingEngineConfig → FanOutStage → ℕ → List StageJob → Trimmed
drop_while_over config stage now [] = record { queue = []; skipped = [] }
drop_while_over config stage now (job ∷ jobs) =
    let rest = drop_while_over config stage now jobs in
    if within_budgets config now job (length (job ∷ jobs))
    then record { queue = job ∷ jobs; skipped = [] }
    else skip_oldest stage job rest

unfoldable pub drop_oldest_stage_jobs :
    ProcessingEngineConfig → FanOutStage → ℕ → List StageJob → Trimmed
unfolding drop_while_over
drop_oldest_stage_jobs config stage now jobs =
    if config.stage_queue_capacity == 0
    then record { queue = jobs; skipped = [] }
    else drop_while_over config stage now jobs

-- What the submission changes: the queues and the jobs to skip.
pub record Submission : Type 0 where
  pub queues : PerStage (List StageJob)
  pub skipped : List SkippedStageJob

abbrev pub push_job : Submission → FanOutStage → Trimmed → StageJob → Submission
push_job s stage t job = record {
  queues = put_at s.queues stage (t.queue ++ job ∷ []);
  skipped = s.skipped ++ t.skipped;
}

-- The case of `submitFanOutStageLocked` by the policy.
unfoldable pub submit_by :
    StageOverloadPolicy
    → ProcessingEngineConfig
    → Submission
    → FanOutStage
    → StageJob
    → Submission × Bool
unfolding replace_pending drop_oldest_stage_jobs
submit_by lossless_required config s stage job =
    if leb config.stage_queue_capacity (length (at s.queues stage))
    then (s, false)
    else (push_job s stage (record { queue = at s.queues stage; skipped = [] }) job, true)
submit_by realtime_latest_only config s stage job = (
  push_job s stage (record { queue = []; skipped = replace_pending stage (at s.queues stage) }) job,
  true,
)
submit_by bounded_latency_drop_oldest config s stage job =
    let t = drop_oldest_stage_jobs config stage job.enqueued_at (at s.queues stage) in
    if leb config.stage_queue_capacity (length t.queue)
    then (
      record { queues = put_at s.queues stage t.queue; skipped = s.skipped ++ t.skipped },
      false,
    )
    else (push_job s stage t job, true)

unfoldable pub submit_fan_out_stage :
    ProcessingEngineConfig → Submission → FanOutStage → StageJob → Submission × Bool
unfolding submit_by fan_out_stage_policy
submit_fan_out_stage config s stage job =
    submit_by (fan_out_stage_policy config stage) config s stage job

-- The second loop: it ends at the first stage that refuses the job.
unfoldable pub submit_stages :
    ProcessingEngineConfig → Submission → List FanOutStage → StageJob → Submission × Bool
unfolding submit_fan_out_stage
submit_stages config s [] job = (s, true)
submit_stages config s (stage ∷ stages) job =
    let (s', ok) = submit_fan_out_stage config s stage job in
    let rest = submit_stages config s' stages job in if ok then rest else (s', false)

abbrev pub is_lossless : StageOverloadPolicy → Bool
is_lossless lossless_required = true
is_lossless bounded_latency_drop_oldest = false
is_lossless realtime_latest_only = false

-- The first loop: whether a stage that must lose no job has no place.
unfoldable pub has_full_stage :
    ProcessingEngineConfig → PerStage (List StageJob) → List FanOutStage → Bool
unfolding fan_out_stage_policy
has_full_stage config queues [] = false
has_full_stage config queues (stage ∷ stages) =
    let rest = has_full_stage config queues stages in
    if is_lossless (fan_out_stage_policy config stage)
      && leb config.stage_queue_capacity (length (at queues stage))
    then true
    else rest

-- `submitFanOutContext` with a context.
unfoldable pub submit_fan_out_context :
    ProcessingEngineConfig → PerStage (List StageJob) → Bool → StageJob → Submission × Bool
unfolding has_full_stage submit_stages active_fan_out_stages
submit_fan_out_context config queues stop_requested job =
    let s : Submission = record { queues = queues; skipped = [] } in
    if stop_requested
    then (s, false)
    else if config.stage_queue_capacity == 0
    then (s, false)
    else if has_full_stage config queues (active_fan_out_stages config)
    then (s, false)
    else submit_stages config s (active_fan_out_stages config) job
