-- ===== src/Engine/Stages/Submit.antt =====
-- A submission in src/pipeline/processing_engine.cpp reaches all active stages or none.
use sirius_scope.Prelude.{
  ℕ, ◌<◌, ◌≡◌, ◌↔◌, ◌⊎◌, refl, ap, sym, ◌∙◌, Bool, true, false, List, [], ◌∷◌, ◌++◌, ◌==◌,
  if◌then◌else◌, arith, append-nil, Bool-cases, inl, inr,
}
use sirius_scope.Engine.Stages.{
  FanOutStage, waterfall, spectrum, bearing, signal_parameter, ProcessingEngineConfig, StageJob,
  Trimmed, Submission, PerStage, at, push_job, fan_out_stage_policy, active_fan_out_stages,
  submit_fan_out_stage, submit_stages, has_full_stage, submit_fan_out_context,
}
use sirius_scope.Engine.Stages.Places.{
  is_active, stage_list, HasPlace, not-full-All, All-not-full, All-stages, stages-All,
}
use sirius_scope.Engine.Stages.Enter.{
  trimmed, IsTrim, IsOpen, trimmed-IsTrim, submit_by-open, lt→not-==,
}

-- The job stands last in the queue of each active stage, behind what the policy of the stage leaves
-- there; the jobs taken off the queues are the ones to skip; and the other queue is as before.
pub record IsEntered (config : ProcessingEngineConfig) (with_parameters : Bool)
    (queues : PerStage (List StageJob)) (job : StageJob) (s : Submission) : Type 0 where
  pub left : PerStage Trimmed
  pub trimmed_by :
      (stage : FanOutStage)
      → is_active with_parameters stage ≡ true
      → IsTrim
          (fan_out_stage_policy config stage)
          config
          stage
          job.enqueued_at
          (at queues stage)
          (at left stage)
        × (at s.queues stage ≡ (at left stage).queue ++ job ∷ [])
  pub inactive :
      (stage : FanOutStage)
      → is_active with_parameters stage ≡ false
      → (at s.queues stage ≡ at queues stage)
        × (at left stage ≡ record { queue = at queues stage; skipped = [] })
  pub skips :
      s.skipped
      ≡ left.of_waterfall.skipped ++ left.of_spectrum.skipped ++ left.of_bearing.skipped
        ++ left.of_signal_parameter.skipped

abbrev AllOpen : ProcessingEngineConfig → PerStage (List StageJob) → Bool → Type 0
AllOpen config queues with_parameters =
    (stage : FanOutStage)
    → is_active with_parameters stage ≡ true
    → IsOpen (fan_out_stage_policy config stage) config (at queues stage)

abbrev left_at :
    ProcessingEngineConfig → PerStage (List StageJob) → StageJob → FanOutStage → Trimmed
left_at config queues job stage =
    trimmed (fan_out_stage_policy config stage) config stage job.enqueued_at (at queues stage)

abbrev enter : ProcessingEngineConfig → StageJob → Submission → FanOutStage → Submission
enter config job s stage = push_job s stage (left_at config s.queues job stage) job

enter-step :
    (config : ProcessingEngineConfig) (s : Submission) (stage : FanOutStage)
    (stages : List FanOutStage) (job : StageJob)
    → IsOpen (fan_out_stage_policy config stage) config (at s.queues stage)
    → submit_stages config s (stage ∷ stages) job
      ≡ submit_stages config (enter config job s stage) stages job
unfolding submit_stages submit_fan_out_stage
enter-step config s stage stages job h =
    rw (submit_by-open (fan_out_stage_policy config stage) config s stage job h) refl

abbrev enter_all : ProcessingEngineConfig → StageJob → PerStage (List StageJob) → Bool → Submission
enter_all config job queues with_parameters =
    let s : Submission = record { queues = queues; skipped = [] } in
    let three =
      enter config job (enter config job (enter config job s waterfall) spectrum) bearing in
    if with_parameters then enter config job three signal_parameter else three

submit-enter :
    (config : ProcessingEngineConfig) (job : StageJob) (queues : PerStage (List StageJob))
    (with_parameters : Bool)
    → AllOpen config queues with_parameters
    → submit_stages config
        (record { queues = queues; skipped = [] })
        (stage_list with_parameters)
        job
      ≡ (enter_all config job queues with_parameters, true)
unfolding submit_stages
submit-enter config job queues true places =
    enter-step config _ waterfall (spectrum ∷ bearing ∷ signal_parameter ∷ []) job
      (places waterfall refl)
    ∙ enter-step config _ spectrum (bearing ∷ signal_parameter ∷ []) job (places spectrum refl)
    ∙ enter-step config _ bearing (signal_parameter ∷ []) job (places bearing refl)
    ∙ enter-step config _ signal_parameter [] job (places signal_parameter refl)
submit-enter config job queues false places =
    enter-step config _ waterfall (spectrum ∷ bearing ∷ []) job (places waterfall refl)
    ∙ enter-step config _ spectrum (bearing ∷ []) job (places spectrum refl)
    ∙ enter-step config _ bearing [] job (places bearing refl)

abbrev left_all :
    ProcessingEngineConfig → StageJob → PerStage (List StageJob) → Bool → PerStage Trimmed
left_all config job queues with_parameters = record {
  of_waterfall = left_at config queues job waterfall;
  of_spectrum = left_at config queues job spectrum;
  of_bearing = left_at config queues job bearing;
  of_signal_parameter =
      if with_parameters
      then left_at config queues job signal_parameter
      else record { queue = at queues signal_parameter; skipped = [] };
}

enter-queue :
    (config : ProcessingEngineConfig) (job : StageJob) (queues : PerStage (List StageJob))
    (with_parameters : Bool) (stage : FanOutStage)
    → is_active with_parameters stage ≡ true
    → (at (enter_all config job queues with_parameters).queues stage
        ≡ (left_at config queues job stage).queue ++ job ∷ [])
      × (at (left_all config job queues with_parameters) stage ≡ left_at config queues job stage)
enter-queue config job queues true waterfall h = (refl, refl)
enter-queue config job queues true spectrum h = (refl, refl)
enter-queue config job queues true bearing h = (refl, refl)
enter-queue config job queues true signal_parameter h = (refl, refl)
enter-queue config job queues false waterfall h = (refl, refl)
enter-queue config job queues false spectrum h = (refl, refl)
enter-queue config job queues false bearing h = (refl, refl)
enter-queue config job queues false signal_parameter h = cc

enter-inactive :
    (config : ProcessingEngineConfig) (job : StageJob) (queues : PerStage (List StageJob))
    (with_parameters : Bool) (stage : FanOutStage)
    → is_active with_parameters stage ≡ false
    → (at (enter_all config job queues with_parameters).queues stage ≡ at queues stage)
      × (at (left_all config job queues with_parameters) stage
          ≡ record { queue = at queues stage; skipped = [] })
enter-inactive config job queues b waterfall h = cc
enter-inactive config job queues b spectrum h = cc
enter-inactive config job queues b bearing h = cc
enter-inactive config job queues true signal_parameter h = cc
enter-inactive config job queues false signal_parameter h = (refl, refl)

enter-skips :
    (config : ProcessingEngineConfig) (job : StageJob) (queues : PerStage (List StageJob))
    (with_parameters : Bool)
    → let left = left_all config job queues with_parameters in
      (enter_all config job queues with_parameters).skipped
      ≡ left.of_waterfall.skipped ++ left.of_spectrum.skipped ++ left.of_bearing.skipped
        ++ left.of_signal_parameter.skipped
enter-skips config job queues true = refl
enter-skips config job queues false = sym (append-nil _)

enter-IsEntered :
    (config : ProcessingEngineConfig) (job : StageJob) (queues : PerStage (List StageJob))
    (with_parameters : Bool)
    → AllOpen config queues with_parameters
    → IsEntered config with_parameters queues job (enter_all config job queues with_parameters)
enter-IsEntered config job queues b places = record {
  left = left_all config job queues b;
  trimmed_by = λ stage active.
      let (e, same) = enter-queue config job queues b stage active in
      rw (same) (
        trimmed-IsTrim (fan_out_stage_policy config stage) config stage job.enqueued_at
            (at queues stage) (places stage active),
        e,
      );
  inactive = λ stage idle. enter-inactive config job queues b stage idle;
  skips = enter-skips config job queues b;
}

-- The conditions under which a context is taken.
abbrev pub Takes : ProcessingEngineConfig → PerStage (List StageJob) → Bool → Type 0
Takes config queues stop_requested =
    (stop_requested ≡ false)
    × (0 < config.stage_queue_capacity)
    × ((stage : FanOutStage)
        → is_active config.enable_signal_parameter_stage stage ≡ true
        → HasPlace config queues stage)

-- The result where the conditions hold, and where they do not.
not-==→lt : (a : ℕ) → (a == 0) ≡ false → 0 < a
not-==→lt a h = ground arith

submit-Takes :
    (config : ProcessingEngineConfig) (queues : PerStage (List StageJob)) (job : StageJob)
    → Takes config queues false
    → submit_fan_out_context config queues false job
      ≡ (enter_all config job queues config.enable_signal_parameter_stage, true)
unfolding submit_fan_out_context active_fan_out_stages
submit-Takes config queues job (_, p, places) =
    let b = config.enable_signal_parameter_stage in
    rw
      (
        lt→not-== config.stage_queue_capacity p,
        All-not-full config queues (stage_list b) (stages-All (HasPlace config queues) b places),
      )
      (submit-enter config job queues b (λ stage active. (p, places stage active)))

submit-taken :
    (config : ProcessingEngineConfig) (queues : PerStage (List StageJob)) (stop_requested : Bool)
    (job : StageJob)
    → Takes config queues stop_requested
    → submit_fan_out_context config queues stop_requested job
      ≡ (enter_all config job queues config.enable_signal_parameter_stage, true)
submit-taken config queues stop job (e, p, places) =
    ap (λ b. submit_fan_out_context config queues b job) e
    ∙ submit-Takes config queues job (refl, p, places)

submit-refuses :
    (config : ProcessingEngineConfig) (queues : PerStage (List StageJob)) (stop_requested : Bool)
    (job : StageJob)
    → (submit_fan_out_context config queues stop_requested job
        ≡ (record { queues = queues; skipped = [] }, false))
      ⊎ Takes config queues stop_requested
unfolding submit_fan_out_context active_fan_out_stages
submit-refuses config queues true job = inl refl
submit-refuses config queues false job =
    let b = config.enable_signal_parameter_stage in
    elim (Bool-cases (config.stage_queue_capacity == 0)) [
      | inl none ↦ rw (none) (inl refl)
      | inr some ↦ elim (Bool-cases (has_full_stage config queues (stage_list b))) [
        | inl full ↦ rw (some, full) (inl refl)
        | inr free ↦ inr (
          refl,
          not-==→lt config.stage_queue_capacity some,
          All-stages (HasPlace config queues) b (not-full-All config queues (stage_list b) free),
        )
      ]
    ]

-- A context is taken exactly if there is no stop, the queues have a capacity, and every active stage
-- that must lose no job has a place. Then it stands last in the queue of every active stage. Before
-- it is left what the policy of the stage leaves: all jobs; or none; or those that remain when the
-- oldest are dropped just as long as the first has to go, by the place that is free and the budgets
-- of depth and wait. The jobs that are not left are the ones to skip. If the context is not taken,
-- nothing changes, though the loop over the stages could end in the middle.
pub submit_fan_out_context-all_or_none :
    (config : ProcessingEngineConfig) (queues : PerStage (List StageJob)) (stop_requested : Bool)
    (job : StageJob)
    → let (s, ok) = submit_fan_out_context config queues stop_requested job in
      ((ok ≡ true) ↔ Takes config queues stop_requested)
      × (ok ≡ true → IsEntered config config.enable_signal_parameter_stage queues job s)
      × (ok ≡ false → s ≡ record { queues = queues; skipped = [] })
submit_fan_out_context-all_or_none config queues stop job =
    elim (submit-refuses config queues stop job) [
      | inl refused ↦
          let shut = λ (takes : Takes config queues stop).
            ap (λ x. x.1) (sym refused ∙ submit-taken config queues stop job takes) in
          rw (refused) ((λ (e : false ≡ true). cc, shut), λ (e : false ≡ true). cc, λ e. refl)
      | inr takes ↦ rw (submit-taken config queues stop job takes) (
        (λ e. takes, λ _. refl),
        λ e.
            enter-IsEntered config job queues config.enable_signal_parameter_stage
              (λ stage active. (takes.1, takes.2 stage active)),
        λ (e : true ≡ false). cc,
      )
    ]
