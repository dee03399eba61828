-- ===== src/Engine/FanOut/Holders.antt =====
-- How often a block is held by the queues and the threads of
-- src/pipeline/processing_engine.cpp, and how the steps change it.
use sirius_scope.Prelude.{
  ℕ, ◌+◌, ◌*◌, ◌≡◌, refl, ap, ◌∙◌, Bool, true, false, Option, none, some, List, [], ◌∷◌, ◌++◌, map,
  arith, Bool-cases, inl, inr, if◌then◌else◌,
}
use sirius_scope.Prelude.Counts.{count, count-append}
use sirius_scope.Prelude.Cuts.{map-append}
use sirius_scope.Engine.Stages.{
  FanOutStage, waterfall, spectrum, bearing, signal_parameter, ProcessingEngineConfig, StageJob,
  SkippedStageJob, Trimmed, Submission, PerStage, at, put_at,
}
use sirius_scope.Engine.Stages.Places.{is_active}
use sirius_scope.Engine.Stages.Submit.{IsEntered}
use sirius_scope.Engine.FanOut.Ledger.{waiting, waits, other}
use sirius_scope.Engine.FanOut.Ledger.Complete.{Downs}

abbrev pub contexts_of : List StageJob → List ℕ
contexts_of jobs = map (λ j. j.context) jobs

-- In the queue of the stage, or with its worker.
abbrev pub held_at : PerStage (List StageJob) → PerStage (Option ℕ) → ℕ → FanOutStage → ℕ
held_at queues jobs c stage = count c (contexts_of (at queues stage)) + waiting (at jobs stage) c

abbrev pub total : (FanOutStage → ℕ) → ℕ
total f = f waterfall + f spectrum + f bearing + f signal_parameter

-- The skipped jobs that are still to be completed hold it too.
abbrev pub holders : PerStage (List StageJob) → PerStage (Option ℕ) → List ℕ → ℕ → ℕ
holders queues jobs skipping c = total (held_at queues jobs c) + count c skipping

pop-count :
    (queue rest : List StageJob) (held : Option ℕ) (job : StageJob) (c : ℕ)
    → queue ≡ job ∷ rest
    → held ≡ none
    → count c (contexts_of queue) + waiting held c
      ≡ count c (contexts_of rest) + waiting (some job.context) c
pop-count queue rest held job c e e' =
    let q = ap (λ js. count c (contexts_of js)) e in
    let w = ap (λ j. waiting j c) e' in omega (arith, q, w)

-- The worker of a stage takes the first job of its queue.
pub holders-pop :
    (queues : PerStage (List StageJob)) (jobs : PerStage (Option ℕ)) (skipping : List ℕ)
    (stage : FanOutStage) (job : StageJob) (rest : List StageJob)
    → at queues stage ≡ job ∷ rest
    → at jobs stage ≡ none
    → (c : ℕ)
    → holders queues jobs skipping c
      ≡ holders (put_at queues stage rest) (put_at jobs stage (some job.context)) skipping c
holders-pop queues jobs skipping waterfall job rest e e' c =
    omega (arith, pop-count _ rest _ job c e e')
holders-pop queues jobs skipping spectrum job rest e e' c =
    omega (arith, pop-count _ rest _ job c e e')
holders-pop queues jobs skipping bearing job rest e e' c =
    omega (arith, pop-count _ rest _ job c e e')
holders-pop queues jobs skipping signal_parameter job rest e e' c =
    omega (arith, pop-count _ rest _ job c e e')

-- The sum when a worker is done with its job.
total-finish :
    (queues : PerStage (List StageJob)) (jobs : PerStage (Option ℕ)) (stage : FanOutStage) (c : ℕ)
    → total (held_at queues jobs c)
      ≡ total (held_at queues (put_at jobs stage none) c) + waiting (at jobs stage) c
total-finish queues jobs waterfall c = omega arith
total-finish queues jobs spectrum c = omega arith
total-finish queues jobs bearing c = omega arith
total-finish queues jobs signal_parameter c = omega arith

Downs-by : (f g : ℕ → ℕ) (c : ℕ) → ((d : ℕ) → f d ≡ g d + waiting (some c) d) → Downs f g c (g c)
Downs-by f g c h = record {
  held = omega (arith, h c, waits c);
  left = refl;
  same = λ d ne. omega (arith, h d, other c d ne);
}

pub finish-Downs :
    (queues : PerStage (List StageJob)) (jobs : PerStage (Option ℕ)) (skipping : List ℕ)
    (stage : FanOutStage) (c : ℕ)
    → at jobs stage ≡ some c
    → Downs
        (holders queues jobs skipping)
        (holders queues (put_at jobs stage none) skipping)
        c
        (holders queues (put_at jobs stage none) skipping c)
finish-Downs queues jobs skipping stage c e =
    Downs-by _ _ c (λ d. omega (arith, total-finish queues jobs stage d, ap (λ j. waiting j d) e))

pub skip-Downs :
    (queues : PerStage (List StageJob)) (jobs : PerStage (Option ℕ)) (c : ℕ) (rest : List ℕ)
    → Downs
        (holders queues jobs (c ∷ rest))
        (holders queues jobs rest)
        c
        (holders queues jobs rest c)
skip-Downs queues jobs c rest = Downs-by _ _ c (λ d. omega arith)

abbrev pub skip_contexts : List SkippedStageJob → List ℕ
skip_contexts skipped = map (λ k. k.job.context) skipped

-- A queue before and after a submission.
skip_contexts-map :
    (skipped : List SkippedStageJob)
    → contexts_of (map (λ k. k.job) skipped) ≡ skip_contexts skipped
skip_contexts-map [] = refl
skip_contexts-map (k ∷ ks) = ap (λ cs. k.job.context ∷ cs) (skip_contexts-map ks)

count-contexts :
    (d : ℕ) (xs ys : List StageJob)
    → count d (contexts_of (xs ++ ys)) ≡ count d (contexts_of xs) + count d (contexts_of ys)
count-contexts d xs ys =
    ap (count d) (map-append (λ j. j.context) xs ys)
    ∙ count-append d (contexts_of xs) (contexts_of ys)

count-skips :
    (d : ℕ) (xs ys : List SkippedStageJob)
    → count d (skip_contexts (xs ++ ys)) ≡ count d (skip_contexts xs) + count d (skip_contexts ys)
count-skips d xs ys =
    ap (count d) (map-append (λ k. k.job.context) xs ys)
    ∙ count-append d (skip_contexts xs) (skip_contexts ys)

queue-entered :
    (jobs : List StageJob) (queue : List StageJob) (t : Trimmed) (job : StageJob) (d : ℕ)
    → map (λ k. k.job) t.skipped ++ t.queue ≡ jobs
    → queue ≡ t.queue ++ job ∷ []
    → count d (contexts_of queue) + count d (skip_contexts t.skipped)
      ≡ count d (contexts_of jobs) + waiting (some job.context) d
queue-entered jobs queue t job d e e' =
    let skips = ap (count d) (skip_contexts-map t.skipped) in
    let before = ap (λ js. count d (contexts_of js)) e in
    let after = ap (λ js. count d (contexts_of js)) e' in
    omega (
      arith,
      skips,
      before,
      after,
      count-contexts d (map (λ k. k.job) t.skipped) t.queue,
      count-contexts d t.queue (job ∷ []),
    )

stage-entered :
    (config : ProcessingEngineConfig) (b : Bool) (queues : PerStage (List StageJob))
    (job : StageJob) (s : Submission) (h : IsEntered config b queues job s) (stage : FanOutStage)
    (d : ℕ)
    → count d (contexts_of (at s.queues stage)) + count d (skip_contexts (at h.left stage).skipped)
      ≡ count d (contexts_of (at queues stage))
        + (if is_active b stage then waiting (some job.context) d else 0)
stage-entered config b queues job s h stage d = elim (Bool-cases (is_active b stage)) [
  | inl active ↦
      let (trim, e) = h.trimmed_by stage active in
      rw (active)
        (queue-entered (at queues stage) (at s.queues stage) (at h.left stage) job d trim.oldest e)
  | inr idle ↦ let (e, e') = h.inactive stage idle in rw (idle, e, e') (omega arith)
]

all-skips :
    (d : ℕ) (x y z w : List SkippedStageJob)
    → count d (skip_contexts (x ++ y ++ z ++ w))
      ≡ count d (skip_contexts x)
        + count d (skip_contexts y)
        + count d (skip_contexts z)
        + count d (skip_contexts w)
all-skips d x y z w =
    omega (arith, count-skips d (x ++ y ++ z) w, count-skips d (x ++ y) z, count-skips d x y)

-- The number of the active stages.
abbrev pub active_count : Bool → ℕ
active_count b = if b then 4 else 3

-- What holds the blocks after a submission: each active stage holds the new one once, and the
-- skipped jobs that left their queues hold theirs.
pub holders-entered :
    (config : ProcessingEngineConfig) (b : Bool) (queues : PerStage (List StageJob))
    (job : StageJob) (s : Submission) (jobs : PerStage (Option ℕ))
    → IsEntered config b queues job s
    → (d : ℕ)
    → holders s.queues jobs (skip_contexts s.skipped) d
      ≡ holders queues jobs [] d + active_count b * waiting (some job.context) d
holders-entered config true queues job s jobs h d =
    let at_stage = λ (stage : FanOutStage). stage-entered config true queues job s h stage d in
    omega (
      arith,
      ap (λ k. count d (skip_contexts k)) h.skips,
      all-skips d h.left.of_waterfall.skipped h.left.of_spectrum.skipped h.left.of_bearing.skipped
          h.left.of_signal_parameter.skipped,
      at_stage waterfall,
      at_stage spectrum,
      at_stage bearing,
      at_stage signal_parameter,
    )
holders-entered config false queues job s jobs h d =
    let at_stage = λ (stage : FanOutStage). stage-entered config false queues job s h stage d in
    omega (
      arith,
      ap (λ k. count d (skip_contexts k)) h.skips,
      all-skips d h.left.of_waterfall.skipped h.left.of_spectrum.skipped h.left.of_bearing.skipped
          h.left.of_signal_parameter.skipped,
      at_stage waterfall,
      at_stage spectrum,
      at_stage bearing,
      at_stage signal_parameter,
    )
