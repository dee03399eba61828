-- ===== src/Engine/Stages/Places.antt =====
-- Which stages are active in src/pipeline/processing_engine.cpp, and what the first loop of
-- `submitFanOutContext` tests of them.
use sirius_scope.Prelude.{
  ℕ, ◌<◌, ◌≡◌, refl, ◌&&◌, Bool, true, false, List, [], ◌∷◌, length, leb, if◌then◌else◌, All, arith,
}
use sirius_scope.Engine.Stages.{
  FanOutStage, waterfall, spectrum, bearing, signal_parameter, ProcessingEngineConfig, StageJob,
  PerStage, at, is_lossless, fan_out_stage_policy, has_full_stage,
}

-- Whether the block goes to the stage.
abbrev pub is_active : Bool → FanOutStage → Bool
is_active with_parameters waterfall = true
is_active with_parameters spectrum = true
is_active with_parameters bearing = true
is_active with_parameters signal_parameter = with_parameters

abbrev pub stage_list : Bool → List FanOutStage
stage_list with_parameters =
    waterfall ∷ spectrum ∷ bearing ∷ (if with_parameters then signal_parameter ∷ [] else [])

abbrev pub HasPlace : ProcessingEngineConfig → PerStage (List StageJob) → FanOutStage → Type 0
HasPlace config queues stage =
    is_lossless (fan_out_stage_policy config stage) ≡ true
    → length (at queues stage) < config.stage_queue_capacity

lossless-place : (a : Bool) (n m : ℕ) → (a && leb m n) ≡ false → a ≡ true → n < m
lossless-place a n m h e = ground arith

if-false : (t r : Bool) → (if t then true else r) ≡ false → (t ≡ false) × (r ≡ false)
if-false true r h = cc
if-false false r h = (refl, h)

pub not-full-All :
    (config : ProcessingEngineConfig) (queues : PerStage (List StageJob))
    (stages : List FanOutStage)
    → has_full_stage config queues stages ≡ false
    → All (HasPlace config queues) stages
unfolding has_full_stage
not-full-All config queues [] h = tt
not-full-All config queues (stage ∷ stages) h =
    let (e, rest) = if-false _ (has_full_stage config queues stages) h in
    (
      lossless-place (is_lossless (fan_out_stage_policy config stage)) _ _ e,
      not-full-All config queues stages rest,
    )

full-false : (a : Bool) (n m : ℕ) → (a ≡ true → n < m) → (a && leb m n) ≡ false
full-false true n m h = let p = h refl in ground arith
full-false false n m h = refl

pub All-not-full :
    (config : ProcessingEngineConfig) (queues : PerStage (List StageJob))
    (stages : List FanOutStage)
    → All (HasPlace config queues) stages
    → has_full_stage config queues stages ≡ false
unfolding has_full_stage
All-not-full config queues [] h = refl
All-not-full config queues (stage ∷ stages) (h, hs) =
    rw (full-false (is_lossless (fan_out_stage_policy config stage)) _ _ h)
      (All-not-full config queues stages hs)

pub All-stages :
    (P : FanOutStage → Type 0) (b : Bool)
    → All P (stage_list b)
    → (stage : FanOutStage) → is_active b stage ≡ true
    → P stage
All-stages P b h waterfall active = h.0
All-stages P b h spectrum active = h.1.0
All-stages P b h bearing active = h.1.1.0
All-stages P true h signal_parameter active = h.1.1.1.0
All-stages P false h signal_parameter active = cc

pub stages-All :
    (P : FanOutStage → Type 0) (b : Bool)
    → ((stage : FanOutStage) → is_active b stage ≡ true → P stage)
    → All P (stage_list b)
stages-All P true h =
    (h waterfall refl, (h spectrum refl, (h bearing refl, (h signal_parameter refl, tt))))
stages-All P false h = (h waterfall refl, (h spectrum refl, (h bearing refl, tt)))
