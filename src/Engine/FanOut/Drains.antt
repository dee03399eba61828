-- ===== src/Engine/FanOut/Drains.antt =====
-- The work that is left in the parallel mode of src/pipeline/processing_engine.cpp, and that the
-- threads can always do it.
use sirius_scope.Prelude.{
  ℕ, zero, suc, ◌+◌, ◌*◌, ◌<◌, ◌≡◌, refl, ap, ◌∙◌, Bool, true, false, Option, none, some, List, [],
  ◌∷◌, length, arith, ◌==◌, if◌then◌else◌, Bool-cases, inl, inr, All, dec_lt,
}
use sirius_scope.Engine.Stages.{
  FanOutStage, waterfall, spectrum, bearing, signal_parameter, ProcessingEngineConfig, StageJob,
  PerStage, at, put_at,
}
use sirius_scope.Engine.FanOut.{
  FanOut, FanOutStep, begin_step, skip_step, rejected_step, end_step, pop_step, finish_step,
  stop_step, context_at, complete_fan_out_stage, skip_from, complete_skipped, record_from,
  process_rejected, end_from, end_block, pop_from, pop_fan_out_stage_job, finish_from,
  finish_stage_job, take_step, take_steps,
}
use sirius_scope.Engine.FanOut.Holders.{total}

abbrev pub busy : Option ℕ → ℕ
busy none = 0
busy (some c) = 1

-- A job in a queue is to be taken and to be done.
abbrev pub stage_work : PerStage (List StageJob) → PerStage (Option ℕ) → FanOutStage → ℕ
stage_work queues jobs stage = 2 * length (at queues stage) + busy (at jobs stage)

total-pop :
    (queues : PerStage (List StageJob)) (jobs : PerStage (Option ℕ)) (stage : FanOutStage)
    (rest : List StageJob) (c : ℕ)
    → total (stage_work (put_at queues stage rest) (put_at jobs stage (some c)))
        + stage_work queues jobs stage
      ≡ total (stage_work queues jobs) + 2 * length rest + 1
total-pop queues jobs waterfall rest c = omega arith
total-pop queues jobs spectrum rest c = omega arith
total-pop queues jobs bearing rest c = omega arith
total-pop queues jobs signal_parameter rest c = omega arith

total-done :
    (queues : PerStage (List StageJob)) (jobs : PerStage (Option ℕ)) (stage : FanOutStage)
    → total (stage_work queues jobs)
      ≡ total (stage_work queues (put_at jobs stage none)) + busy (at jobs stage)
total-done queues jobs waterfall = omega arith
total-done queues jobs spectrum = omega arith
total-done queues jobs bearing = omega arith
total-done queues jobs signal_parameter = omega arith

-- The stages that still have work, by their share of it.
stage-with-work : (f : FanOutStage → ℕ) → 0 < total f → (stage : FanOutStage) × (0 < f stage)
stage-with-work f h = elim (dec_lt 0 (f waterfall)) [
  | yes p ↦ (waterfall, p)
  | no n ↦ elim (dec_lt 0 (f spectrum)) [
    | yes p ↦ (spectrum, p)
    | no n' ↦ elim (dec_lt 0 (f bearing)) [
      | yes p ↦ (bearing, p)
      | no n'' ↦ (signal_parameter, omega (arith, h, n, n', n''))
    ]
  ]
]

abbrev pub one_if : Bool → ℕ
one_if b = if b then 1 else 0

module _ {ℓ} {Angle : Type ℓ} where
  abbrev pub work : FanOut Angle → ℕ
  work e =
      total (stage_work e.stage_queues e.stage_jobs)
      + length e.skipping
      + busy e.rejected
      + one_if e.processing_block

  -- A step that takes no new block.
  abbrev pub IsInternal : FanOutStep Angle → Type 0
  IsInternal (begin_step block now) = ⊥
  IsInternal skip_step = Unit
  IsInternal rejected_step = Unit
  IsInternal end_step = Unit
  IsInternal (pop_step stage) = Unit
  IsInternal (finish_step stage) = Unit
  IsInternal stop_step = Unit

  complete-work : (e : FanOut Angle) (c : ℕ) → work (complete_fan_out_stage e c) ≡ work e
  unfolding complete_fan_out_stage
  complete-work e c = elim (Bool-cases ((context_at e.contexts c).remaining_stages == 1)) [
    | inl one ↦ rw (one) refl
    | inr more ↦ rw (more) refl
  ]

  -- What a step of less work is.
  pub record Progress (config : ProcessingEngineConfig) (e : FanOut Angle) : Type ℓ where
    pub step : FanOutStep Angle
    pub internal : IsInternal step
    pub less : work (take_step config e step) + 1 ≡ work e

  popped :
      (e : FanOut Angle) (stage : FanOutStage) {held : Option ℕ} {jobs : List StageJob}
      → at e.stage_jobs stage ≡ held
      → at e.stage_queues stage ≡ jobs
      → pop_fan_out_stage_job e stage ≡ pop_from e stage held jobs
  unfolding pop_fan_out_stage_job
  popped e stage {held} {jobs} w q =
      ap (pop_from e stage (at e.stage_jobs stage)) q ∙ ap (λ o. pop_from e stage o jobs) w

  finished :
      (e : FanOut Angle) (stage : FanOutStage) {held : Option ℕ}
      → at e.stage_jobs stage ≡ held
      → finish_stage_job e stage ≡ finish_from e stage held
  unfolding finish_stage_job
  finished e stage w = ap (finish_from e stage) w

  stage-Progress :
      (config : ProcessingEngineConfig) (e : FanOut Angle) (stage : FanOutStage) (held : Option ℕ)
      (jobs : List StageJob)
      → at e.stage_jobs stage ≡ held
      → at e.stage_queues stage ≡ jobs
      → 0 < 2 * length jobs + busy held
      → Progress config e
  unfolding take_step
  stage-Progress config e stage none [] w q h = absurd (omega arith)
  stage-Progress config e stage none (job ∷ rest) w q h = record {
    step = pop_step stage;
    internal = tt;
    less =
        ap (λ x. work x + 1) (popped e stage w q)
        ∙ omega (
          arith,
          total-pop e.stage_queues e.stage_jobs stage rest job.context,
          ap length q,
          ap busy w,
        );
  }
  stage-Progress config e stage (some c) jobs w q h = record {
    step = finish_step stage;
    internal = tt;
    less =
        ap (λ x. work x + 1) (finished e stage w)
        ∙ omega (
          arith,
          complete-work (record e { stage_jobs = put_at e.stage_jobs stage none }) c,
          total-done e.stage_queues e.stage_jobs stage,
          ap busy w,
        );
  }

  skipped :
      (e : FanOut Angle) {skipping : List ℕ}
      → e.skipping ≡ skipping
      → complete_skipped e ≡ skip_from e skipping
  unfolding complete_skipped
  skipped e s = ap (skip_from e) s

  caught_up :
      (e : FanOut Angle) {rejected : Option ℕ}
      → e.rejected ≡ rejected
      → process_rejected e ≡ record_from e rejected
  unfolding process_rejected
  caught_up e r = ap (record_from e) r

  ended :
      (e : FanOut Angle) {skipping : List ℕ} {rejected : Option ℕ}
      → e.skipping ≡ skipping
      → e.rejected ≡ rejected
      → e.processing_block ≡ true
      → end_block e ≡ end_from e skipping rejected
  unfolding end_block
  ended e {skipping} {rejected} s r p =
      ap (λ b. if b then end_from e e.skipping e.rejected else e) p
      ∙ (ap (end_from e e.skipping) r ∙ ap (λ cs. end_from e cs rejected) s)

  -- The engine's worker, when the stages have nothing left.
  worker-Progress :
      (config : ProcessingEngineConfig) (e : FanOut Angle) (skipping : List ℕ) (rejected : Option ℕ)
      (processing : Bool)
      → e.skipping ≡ skipping
      → e.rejected ≡ rejected
      → e.processing_block ≡ processing
      → 0 < length skipping + busy rejected + one_if processing
      → Progress config e
  unfolding take_step
  worker-Progress config e (c ∷ rest) rejected processing s r p h = record {
    step = skip_step;
    internal = tt;
    less =
        ap (λ x. work x + 1) (skipped e s)
        ∙ omega (arith, complete-work (record e { skipping = rest }) c, ap length s);
  }
  worker-Progress config e [] (some c) processing s r p h = record {
    step = rejected_step;
    internal = tt;
    less = ap (λ x. work x + 1) (caught_up e r) ∙ omega (arith, ap busy r);
  }
  worker-Progress config e [] none true s r p h = record {
    step = end_step;
    internal = tt;
    less = ap (λ x. work x + 1) (ended e s r p) ∙ omega (arith, ap one_if p);
  }
  worker-Progress config e [] none false s r p h = absurd (omega (arith, h))

  pub work-Progress :
      (config : ProcessingEngineConfig) (e : FanOut Angle) → 0 < work e → Progress config e
  work-Progress config e h = elim (dec_lt 0 (total (stage_work e.stage_queues e.stage_jobs))) [
    | yes p ↦
        let (stage, q) = stage-with-work (stage_work e.stage_queues e.stage_jobs) p in
        stage-Progress config e stage (at e.stage_jobs stage) (at e.stage_queues stage) refl refl q
    | no n ↦
        worker-Progress config e e.skipping e.rejected e.processing_block refl refl refl
          (omega (arith, h, n))
  ]

  -- Without a new block the threads can always finish: from any state there are steps, no more than
  -- the work that is left, after which none is left.
  pub work-ends :
      (config : ProcessingEngineConfig) (n : ℕ) (e : FanOut Angle)
      → work e ≡ n
      → (steps : List (FanOutStep Angle)) × All IsInternal steps
        × (length steps ≡ n)
        × (work (take_steps config e steps) ≡ 0)
  unfolding take_steps
  work-ends config zero e h = ([], tt, refl, h)
  work-ends config (suc n) e h =
      let p = work-Progress config e (omega (arith, h)) in
      let (steps, internal, len, done) =
        work-ends config n (take_step config e p.step) (omega (arith, p.less, h)) in
      (p.step ∷ steps, (p.internal, internal), ap suc len, done)
