-- ===== src/Engine/FanOut/Finish.antt =====
-- That the parallel mode of src/pipeline/processing_engine.cpp can always finish, and what it has
-- done then.
use sirius_scope.Prelude.{
  ℕ, zero, suc, ◌≤◌, ◌≡◌, refl, ap, ◌∙◌, Bool, true, false, ◌&&◌, Option, none, some, List, [], ◌∷◌,
  ◌++◌, length, arith, ◌==◌, All,
}
use sirius_scope.Prelude.Counts.{count}
use sirius_scope.Engine.Stages.{
  FanOutStage, waterfall, spectrum, bearing, signal_parameter, ProcessingEngineConfig, StageJob,
  PerStage, at,
}
use sirius_scope.Engine.FanOut.{
  FanOut, FanOutStep, new_fan_out, take_step, take_steps, fan_out_drained, is_empty,
}
use sirius_scope.Engine.FanOut.Live.{one_if_held, live}
use sirius_scope.Engine.FanOut.Holders.{contexts_of, held_at}
use sirius_scope.Engine.FanOut.Ledger.{waiting}
use sirius_scope.Engine.FanOut.Balance.{holders_of, IsBalanced}
use sirius_scope.Engine.FanOut.Drained.{IsComplete, run-IsBalanced, fan_out_drained-IsComplete}
use sirius_scope.Engine.FanOut.Drains.{busy, stage_work, one_if, work, IsInternal, work-ends}

count-length : (c : ℕ) (xs : List ℕ) → count c xs ≤ length xs
count-length c [] = omega arith
count-length c (x ∷ xs) = ground (arith, count-length c xs)

length-contexts : (jobs : List StageJob) → length (contexts_of jobs) ≡ length jobs
length-contexts [] = refl
length-contexts (j ∷ js) = ap suc (length-contexts js)

waiting-busy : (o : Option ℕ) (c : ℕ) → waiting o c ≤ busy o
waiting-busy none c = omega arith
waiting-busy (some d) c = ground arith

-- A stage holds no block more often than it has work.
held-work :
    (queues : PerStage (List StageJob)) (jobs : PerStage (Option ℕ)) (stage : FanOutStage) (c : ℕ)
    → held_at queues jobs c stage ≤ stage_work queues jobs stage
held-work queues jobs stage c = omega (
  arith,
  count-length c (contexts_of (at queues stage)),
  length-contexts (at queues stage),
  waiting-busy (at jobs stage) c,
)

live-none : (n : ℕ) (f : ℕ → ℕ) → ((c : ℕ) → f c ≡ 0) → live n f ≡ 0
live-none zero f h = refl
live-none (suc n) f h = omega (arith, ap one_if_held (h n), live-none n f h)

empty-length : (jobs : List StageJob) → length jobs ≡ 0 → is_empty jobs ≡ true
empty-length [] h = refl
empty-length (j ∷ js) h = absurd (omega (arith, h))

all-drained :
    (n : ℕ) (a b c d : Bool)
    → n ≡ 0
    → a ≡ true
    → b ≡ true
    → c ≡ true
    → d ≡ true
    → (n == 0 && a && b && c && d) ≡ true
all-drained n a b c d e ea eb ec ed = rw (e, ea, eb, ec, ed) refl

not-one_if : (b : Bool) → one_if b ≡ 0 → b ≡ false
not-one_if true h = absurd (omega (arith, h))
not-one_if false h = refl

module _ {ℓ} {Angle : Type ℓ} where
  holders-work : (e : FanOut Angle) (c : ℕ) → holders_of e c ≤ work e
  holders-work e c = omega (
    arith,
    held-work e.stage_queues e.stage_jobs waterfall c,
    held-work e.stage_queues e.stage_jobs spectrum c,
    held-work e.stage_queues e.stage_jobs bearing c,
    held-work e.stage_queues e.stage_jobs signal_parameter c,
    count-length c e.skipping,
  )

  no-work-drained :
      (e : FanOut Angle)
      → IsBalanced e
      → work e ≡ 0
      → (e.processing_block ≡ false) × (fan_out_drained e ≡ true)
  unfolding fan_out_drained
  no-work-drained e h none_left = (
    not-one_if e.processing_block (omega (arith, none_left)),
    all-drained e.in_flight_fan_out_blocks _ _ _ _
        (h.ledger.flying
          ∙ live-none (length e.contexts) (holders_of e)
              (λ c. omega (arith, holders-work e c, none_left)))
        (empty-length e.stage_queues.of_waterfall (omega (arith, none_left)))
        (empty-length e.stage_queues.of_spectrum (omega (arith, none_left)))
        (empty-length e.stage_queues.of_bearing (omega (arith, none_left)))
        (empty-length e.stage_queues.of_signal_parameter (omega (arith, none_left))),
  )

  steps-append :
      (config : ProcessingEngineConfig) (e : FanOut Angle) (xs ys : List (FanOutStep Angle))
      → take_steps config e (xs ++ ys) ≡ take_steps config (take_steps config e xs) ys
  unfolding take_steps
  steps-append config e [] ys = refl
  steps-append config e (x ∷ xs) ys = steps-append config (take_step config e x) xs ys

  -- After any steps of the threads from the start there are further steps that take no new block, as
  -- many as the work that is left, after which the engine's worker is at no block, `fanOutDrained`
  -- holds, and the summary is that of all the blocks that came, each of them once.
  pub run-finishes :
      (config : ProcessingEngineConfig) (steps : List (FanOutStep Angle))
      → (more : List (FanOutStep Angle)) × All IsInternal more
        × (length more ≡ work (take_steps config new_fan_out steps))
        × ((take_steps config new_fan_out (steps ++ more)).processing_block ≡ false)
        × (fan_out_drained (take_steps config new_fan_out (steps ++ more)) ≡ true)
        × IsComplete (take_steps config new_fan_out (steps ++ more))
  run-finishes config steps =
      let e = take_steps config new_fan_out steps in
      let (more, internal, len, done) = work-ends config (work e) e refl in
      let gone : work (take_steps config new_fan_out (steps ++ more)) ≡ 0 =
        ap work (steps-append config new_fan_out steps more) ∙ done in
      let (free, drained) =
        no-work-drained (take_steps config new_fan_out (steps ++ more))
          (run-IsBalanced config (steps ++ more)) gone in
      (
        more,
        internal,
        len,
        free,
        drained,
        fan_out_drained-IsComplete config (steps ++ more) free drained,
      )
