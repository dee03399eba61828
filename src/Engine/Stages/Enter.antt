-- ===== src/Engine/Stages/Enter.antt =====
-- One queue of `ProcessingEngine` at a submission, in src/pipeline/processing_engine.cpp: which jobs
-- it keeps.
use sirius_scope.Prelude.Int.{ℤ, pos, ◌-ℤ◌, ◌*ℤ◌, ltb_ℤ}
use sirius_scope.Prelude.{
  suc, ◌+◌, ◌≤◌, ◌⊎◌, ◌∙◌, inl, inr, sym, subst, max, length-append, true, leb→le, ℕ, ◌<◌, ◌≡◌,
  refl, ap, Bool, false, not, ◌&&◌, List, [], ◌∷◌, ◌++◌, map, length, leb, ◌==◌, All, arith,
  if-elim,
}
use sirius_scope.Prelude.Cuts.{length-map}
use sirius_scope.Engine.Stages.{
  FanOutStage, StageOverloadPolicy, lossless_required, bounded_latency_drop_oldest,
  realtime_latest_only, ProcessingEngineConfig, StageJob, SkippedStageJob,
  dropped_by_overload_policy, replaced_by_latest, Trimmed, Submission, at, push_job,
  replace_pending, drop_while_over, within_budgets, skip_oldest, drop_oldest_stage_jobs, submit_by,
  is_lossless,
}

-- The queue before the new job comes, by the policy.
unfoldable pub trimmed :
    StageOverloadPolicy → ProcessingEngineConfig → FanOutStage → ℕ → List StageJob → Trimmed
trimmed lossless_required config stage now jobs = record { queue = jobs; skipped = [] }
trimmed realtime_latest_only config stage now jobs = record {
  queue = [];
  skipped = replace_pending stage jobs;
}
trimmed bounded_latency_drop_oldest config stage now jobs = drop_while_over config stage now jobs

abbrev pub wait_budget_ns : ProcessingEngineConfig → ℤ
wait_budget_ns config = config.overload_policy.max_visual_queue_wait_ms *ℤ pos 1_000_000

-- The first job of a queue of that size has to go: the queue is full, has as many jobs as the
-- budget of depth or more, or the job has waited for longer than the budget of wait.
abbrev pub IsOver : ProcessingEngineConfig → ℕ → StageJob → ℕ → Type 0
IsOver config now job size =
    (config.stage_queue_capacity ≤ size)
    ⊎ (max 1 config.overload_policy.visual_queue_depth ≤ size)
    ⊎ (ltb_ℤ (wait_budget_ns config) (pos now -ℤ pos job.enqueued_at) ≡ true)

-- It may stay.
abbrev pub IsWithin : ProcessingEngineConfig → ℕ → StageJob → ℕ → Type 0
IsWithin config now job size =
    (size < config.stage_queue_capacity)
    × (size < max 1 config.overload_policy.visual_queue_depth)
    × (ltb_ℤ (wait_budget_ns config) (pos now -ℤ pos job.enqueued_at) ≡ false)

-- Each job that was dropped had to go when it was the first one.
abbrev pub AllOver : ProcessingEngineConfig → ℕ → List SkippedStageJob → List StageJob → Type 0
AllOver config now [] queue = Unit
AllOver config now (k ∷ ks) queue =
    (k.reason ≡ dropped_by_overload_policy)
    × IsOver config now k.job (suc (length ks + length queue))
    × AllOver config now ks queue

-- The first job left, if there is one, may stay.
abbrev pub InBudgets : ProcessingEngineConfig → ℕ → List StageJob → Type 0
InBudgets config now [] = Unit
InBudgets config now (job ∷ jobs) = IsWithin config now job (length (job ∷ jobs))

-- What is left by each policy: all jobs, none, or what is left when the oldest are dropped only as
-- long as the first one has to go.
abbrev pub LeftBy : StageOverloadPolicy → ProcessingEngineConfig → ℕ → Trimmed → Type 0
LeftBy lossless_required config now t = t.skipped ≡ []
LeftBy realtime_latest_only config now t =
    (t.queue ≡ []) × All (λ k. k.reason ≡ replaced_by_latest) t.skipped
LeftBy bounded_latency_drop_oldest config now t =
    AllOver config now t.skipped t.queue × InBudgets config now t.queue

-- What a policy must do: it skips the oldest jobs, each for its stage, as many as the policy says,
-- and a place is free then.
pub record IsTrim (policy : StageOverloadPolicy) (config : ProcessingEngineConfig)
    (stage : FanOutStage) (now : ℕ) (jobs : List StageJob) (t : Trimmed) : Type 0 where
  pub oldest : map (λ k. k.job) t.skipped ++ t.queue ≡ jobs
  pub own : All (λ k. k.stage ≡ stage) t.skipped
  pub free : length t.queue < config.stage_queue_capacity
  pub left_by : LeftBy policy config now t

not-leb→lt : (a b : ℕ) → leb a b ≡ false → b < a
not-leb→lt a b h = ground arith

no_test :
    (a b c : Bool) → (not a && not b && not c) ≡ true → (a ≡ false) × (b ≡ false) × (c ≡ false)
no_test a b c h = (ground arith, ground arith, ground arith)

some_test :
    (a b c : Bool) → (not a && not b && not c) ≡ false → (a ≡ true) ⊎ (b ≡ true) ⊎ (c ≡ true)
some_test true b c h = inl refl
some_test false true c h = inr (inl refl)
some_test false false true h = inr (inr refl)
some_test false false false h = absurd (ground arith)

within_budgets-IsWithin :
    (config : ProcessingEngineConfig) (now : ℕ) (job : StageJob) (size : ℕ)
    → within_budgets config now job size ≡ true
    → IsWithin config now job size
within_budgets-IsWithin config now job size h =
    let (full, depth, wait) =
      no_test (leb config.stage_queue_capacity size)
        (leb (max 1 config.overload_policy.visual_queue_depth) size)
        (ltb_ℤ (wait_budget_ns config) (pos now -ℤ pos job.enqueued_at)) h in
    (
      not-leb→lt config.stage_queue_capacity size full,
      not-leb→lt (max 1 config.overload_policy.visual_queue_depth) size depth,
      wait,
    )

within_budgets-IsOver :
    (config : ProcessingEngineConfig) (now : ℕ) (job : StageJob) (size : ℕ)
    → within_budgets config now job size ≡ false
    → IsOver config now job size
within_budgets-IsOver config now job size h =
    elim (some_test (leb config.stage_queue_capacity size)
      (leb (max 1 config.overload_policy.visual_queue_depth) size)
      (ltb_ℤ (wait_budget_ns config) (pos now -ℤ pos job.enqueued_at)) h) [
        | inl full ↦ inl (leb→le config.stage_queue_capacity size full)
        | inr (inl depth) ↦
            inr (inl (leb→le (max 1 config.overload_policy.visual_queue_depth) size depth))
        | inr (inr wait) ↦ inr (inr wait)
      ]

replace-IsTrim :
    (config : ProcessingEngineConfig) (stage : FanOutStage) (now : ℕ) (jobs : List StageJob)
    → 0 < config.stage_queue_capacity
    → IsTrim realtime_latest_only config stage now jobs
        (record { queue = []; skipped = replace_pending stage jobs })
unfolding replace_pending
replace-IsTrim config stage now [] h = record {
  oldest = refl;
  own = tt;
  free = h;
  left_by = (refl, tt);
}
replace-IsTrim config stage now (job ∷ jobs) h =
    let rest = replace-IsTrim config stage now jobs h in
    record {
      oldest = ap (λ js. job ∷ js) rest.oldest;
      own = (refl, rest.own);
      free = h;
      left_by = (refl, (refl, rest.left_by.1));
    }

drop-IsTrim :
    (config : ProcessingEngineConfig) (stage : FanOutStage) (now : ℕ) (jobs : List StageJob)
    → 0 < config.stage_queue_capacity
    → IsTrim bounded_latency_drop_oldest config stage now jobs
        (drop_while_over config stage now jobs)
unfolding drop_while_over
drop-IsTrim config stage now [] h = record { oldest = refl; own = tt; free = h; left_by = (tt, tt) }
drop-IsTrim config stage now (job ∷ jobs) h =
    let rest = drop-IsTrim config stage now jobs h in
    let t = drop_while_over config stage now jobs in
    if-elim (IsTrim bounded_latency_drop_oldest config stage now (job ∷ jobs))
      (within_budgets config now job (length (job ∷ jobs)))
      (record { queue = job ∷ jobs; skipped = [] }) (skip_oldest stage job t)
      (λ within.
        let stays = within_budgets-IsWithin config now job (length (job ∷ jobs)) within in
        record { oldest = refl; own = tt; free = stays.0; left_by = (tt, stays) })
      λ over.
        let size : length jobs ≡ length t.skipped + length t.queue =
          sym (ap length rest.oldest)
          ∙ length-append (map (λ k. k.job) t.skipped) t.queue
          ∙ ap (λ n. n + length t.queue) (length-map (λ k. k.job) t.skipped) in
        record {
          oldest = ap (λ js. job ∷ js) rest.oldest;
          own = (refl, rest.own);
          free = rest.free;
          left_by = (
            (
              refl,
              subst (λ n. IsOver config now job (suc n)) size
                  (within_budgets-IsOver config now job (length (job ∷ jobs)) over),
              rest.left_by.0,
            ),
            rest.left_by.1,
          );
        }

-- The conditions under which a stage takes a job.
abbrev pub IsOpen : StageOverloadPolicy → ProcessingEngineConfig → List StageJob → Type 0
IsOpen policy config jobs =
    (0 < config.stage_queue_capacity)
    × (is_lossless policy ≡ true → length jobs < config.stage_queue_capacity)

pub trimmed-IsTrim :
    (policy : StageOverloadPolicy) (config : ProcessingEngineConfig) (stage : FanOutStage) (now : ℕ)
    (jobs : List StageJob)
    → IsOpen policy config jobs
    → IsTrim policy config stage now jobs (trimmed policy config stage now jobs)
unfolding trimmed
trimmed-IsTrim lossless_required config stage now jobs (h, k) = record {
  oldest = refl;
  own = tt;
  free = k refl;
  left_by = refl;
}
trimmed-IsTrim realtime_latest_only config stage now jobs (h, k) =
    replace-IsTrim config stage now jobs h
trimmed-IsTrim bounded_latency_drop_oldest config stage now jobs (h, k) =
    drop-IsTrim config stage now jobs h

lt→not-leb : (a b : ℕ) → b < a → leb a b ≡ false
lt→not-leb a b h = ground arith

pub lt→not-== : (a : ℕ) → 0 < a → (a == 0) ≡ false
lt→not-== a h = ground arith

-- Then the submission is the push of the job on what the policy leaves.
pub submit_by-open :
    (policy : StageOverloadPolicy) (config : ProcessingEngineConfig) (s : Submission)
    (stage : FanOutStage) (job : StageJob)
    → IsOpen policy config (at s.queues stage)
    → submit_by policy config s stage job ≡ (
      push_job s stage (trimmed policy config stage job.enqueued_at (at s.queues stage)) job,
      true,
    )
unfolding submit_by trimmed drop_oldest_stage_jobs
submit_by-open lossless_required config s stage job (h, k) =
    rw (lt→not-leb config.stage_queue_capacity (length (at s.queues stage)) (k refl)) refl
submit_by-open realtime_latest_only config s stage job (h, k) = refl
submit_by-open bounded_latency_drop_oldest config s stage job (h, k) =
    let t = drop-IsTrim config stage job.enqueued_at (at s.queues stage) h in
    rw (lt→not-== config.stage_queue_capacity h, lt→not-leb config.stage_queue_capacity _ t.free)
      refl

-- The loop of `dropOldestStageJobsLocked` drops the oldest jobs, in their order and each for its
-- stage, and no more than needed: each had to go when it was the first of the queue, since the
-- queue was full, at its budget of depth, or the job had waited for too long. Then a place is free,
-- and the first job left, if there is one, may stay by all three.
pub drop_oldest_stage_jobs-IsTrim :
    (config : ProcessingEngineConfig) (stage : FanOutStage) (now : ℕ) (jobs : List StageJob)
    → 0 < config.stage_queue_capacity
    → IsTrim bounded_latency_drop_oldest config stage now jobs
        (drop_oldest_stage_jobs config stage now jobs)
unfolding drop_oldest_stage_jobs
drop_oldest_stage_jobs-IsTrim config stage now jobs h =
    rw (lt→not-== config.stage_queue_capacity h) (drop-IsTrim config stage now jobs h)
