-- ===== src/Engine/FanOut/Balance.antt =====
-- The balance of what is held and what is recorded in src/pipeline/processing_engine.cpp, kept by
-- the steps of the threads that complete a stage, and by the others that take no new block.
use sirius_scope.Prelude.{
  ℕ, zero, suc, ◌≡◌, refl, sym, subst, ◌∙◌, true, false, Option, none, some, List, [], ◌∷◌, map,
  arith, ◌==◌, Bool-cases, inl, inr,
}
use sirius_scope.Engine.Stages.{FanOutStage, StageJob, at, put_at}
use sirius_scope.Engine.FanOut.{
  FanOut, new_fan_out, context_at, complete_fan_out_stage, skip_from, record_from, end_from,
  pop_from, finish_from,
}
use sirius_scope.Engine.Accounting.{empty_summary}
use sirius_scope.Engine.Accounting.Summary.{complete_blocks}
use sirius_scope.Engine.FanOut.Holders.{holders, holders-pop, finish-Downs, skip-Downs}
use sirius_scope.Engine.FanOut.Ledger.{block_at, IsLedger, IsLedger-same}
use sirius_scope.Engine.FanOut.Ledger.Complete.{
  Downs, last-IsLedger, more-IsLedger, waiting-IsLedger,
}

is-one : (a b : ℕ) → a ≡ b → b ≡ 1 → (a == 1) ≡ true
is-one a b e e' = ground arith

not-one : (a b k : ℕ) → a ≡ b → b ≡ suc (suc k) → (a == 1) ≡ false
not-one a b k e e' = ground arith

not-nil : (c : ℕ) (rest : List ℕ) → c ∷ rest ≡ [] → ⊥
not-nil c rest e = cc

not-none : (c : ℕ) → some c ≡ none → ⊥
not-none c e = cc

nothing {ℓ} :
    (Angle : Type ℓ)
    → empty_summary ≡ complete_blocks {Angle = Angle} empty_summary (map (block_at []) [])
unfolding complete_blocks
nothing Angle = refl

module _ {ℓ} {Angle : Type ℓ} where
  abbrev pub holders_of : FanOut Angle → ℕ → ℕ
  holders_of e = holders e.stage_queues e.stage_jobs e.skipping

  abbrev pub HasLedger : (ℕ → ℕ) → FanOut Angle → Type ℓ
  HasLedger f e = IsLedger f e.contexts e.in_flight_fan_out_blocks e.summary e.rejected

  -- The books agree with what is held; a worker that is at no block has nothing left to do.
  pub record IsBalanced (e : FanOut Angle) : Type ℓ where
    pub ledger : HasLedger (holders_of e) e
    pub idle : e.processing_block ≡ false → (e.skipping ≡ []) × (e.rejected ≡ none)

  pub new-IsBalanced : IsBalanced new_fan_out
  new-IsBalanced = record {
    ledger = record {
      remaining = λ c q. absurd (omega (arith, q));
      known = λ c q. absurd (omega (arith, q));
      accounted = λ c q. absurd (omega (arith, q));
      rejected_known = λ c (e : none ≡ some c). cc;
      flying = refl;
      blocks = omega arith;
      recorded = (
        [],
        record {
          made = nothing Angle;
          once = λ c q. absurd (omega (arith, q));
          no_other = λ c q. refl;
        },
      );
    };
    idle = λ _. (refl, refl);
  }

  complete-ledger :
      (e : FanOut Angle) (f g : ℕ → ℕ) (c k : ℕ)
      → Downs f g c k
      → HasLedger f e
      → HasLedger g (complete_fan_out_stage e c)
  unfolding complete_fan_out_stage
  complete-ledger e f g c zero downs h =
      let one =
        is-one (context_at e.contexts c).remaining_stages (f c)
          (h.remaining c (omega (arith, downs.held))) downs.held in
      rw (one)
        (last-IsLedger f g e.contexts e.in_flight_fan_out_blocks e.summary e.rejected c downs h)
  complete-ledger e f g c (suc k) downs h =
      let more =
        not-one (context_at e.contexts c).remaining_stages (f c) k
          (h.remaining c (omega (arith, downs.held))) downs.held in
      rw (more)
        (more-IsLedger f g e.contexts e.in_flight_fan_out_blocks e.summary e.rejected c k downs h)

  -- What else the completion of a stage leaves.
  abbrev Idle : FanOut Angle → Type 0
  Idle e = e.processing_block ≡ false → (e.skipping ≡ []) × (e.rejected ≡ none)

  complete-rest :
      (e : FanOut Angle) (c : ℕ)
      → (holders_of (complete_fan_out_stage e c) ≡ holders_of e)
        × (Idle e → Idle (complete_fan_out_stage e c))
  unfolding complete_fan_out_stage
  complete-rest e c = elim (Bool-cases ((context_at e.contexts c).remaining_stages == 1)) [
    | inl one ↦ rw (one) (refl, λ i. i)
    | inr more ↦ rw (more) (refl, λ i. i)
  ]

  complete-IsBalanced :
      (e : FanOut Angle) (f : ℕ → ℕ) (c : ℕ)
      → Downs f (holders_of e) c (holders_of e c)
      → HasLedger f e
      → Idle e
      → IsBalanced (complete_fan_out_stage e c)
  complete-IsBalanced e f c downs h i =
      let (same, idle) = complete-rest e c in
      record {
        ledger =
            subst (λ g. HasLedger g (complete_fan_out_stage e c)) (sym same)
              (complete-ledger e f (holders_of e) c (holders_of e c) downs h);
        idle = idle i;
      }

  pub skip-IsBalanced :
      (e : FanOut Angle) (skipping : List ℕ)
      → e.skipping ≡ skipping
      → IsBalanced e
      → IsBalanced (skip_from e skipping)
  skip-IsBalanced e [] s h = h
  skip-IsBalanced e (c ∷ rest) s h =
      complete-IsBalanced (record e { skipping = rest })
        (holders e.stage_queues e.stage_jobs (c ∷ rest)) c
        (skip-Downs e.stage_queues e.stage_jobs c rest)
        (subst (λ cs. HasLedger (holders e.stage_queues e.stage_jobs cs) e) s h.ledger)
        (λ p. absurd (not-nil c rest (sym s ∙ (h.idle p).0)))

  pub rejected-IsBalanced :
      (e : FanOut Angle) (rejected : Option ℕ)
      → e.rejected ≡ rejected
      → IsBalanced e
      → IsBalanced (record_from e rejected)
  rejected-IsBalanced e none s h = h
  rejected-IsBalanced e (some c) s h = record {
    ledger = waiting-IsLedger (holders_of e) e.contexts e.in_flight_fan_out_blocks e.summary c (
        subst (IsLedger (holders_of e) e.contexts e.in_flight_fan_out_blocks e.summary) s h.ledger);
    idle = λ p. absurd (not-none c (sym s ∙ (h.idle p).1));
  }

  pub end-IsBalanced :
      (e : FanOut Angle) (skipping : List ℕ) (rejected : Option ℕ)
      → e.skipping ≡ skipping
      → e.rejected ≡ rejected
      → IsBalanced e
      → IsBalanced (end_from e skipping rejected)
  end-IsBalanced e [] none s r h = record { ledger = h.ledger; idle = λ _. (s, r) }
  end-IsBalanced e [] (some c) s r h = h
  end-IsBalanced e (c ∷ rest) rejected s r h = h

  pub pop-IsBalanced :
      (e : FanOut Angle) (stage : FanOutStage) (held : Option ℕ) (jobs : List StageJob)
      → at e.stage_jobs stage ≡ held
      → at e.stage_queues stage ≡ jobs
      → IsBalanced e
      → IsBalanced (pop_from e stage held jobs)
  pop-IsBalanced e stage (some c) jobs w q h = h
  pop-IsBalanced e stage none [] w q h = h
  pop-IsBalanced e stage none (job ∷ jobs) w q h = record {
    ledger =
        IsLedger-same _ _ e.contexts e.in_flight_fan_out_blocks e.summary e.rejected
          (holders-pop e.stage_queues e.stage_jobs e.skipping stage job jobs q w) h.ledger;
    idle = h.idle;
  }

  pub finish-IsBalanced :
      (e : FanOut Angle) (stage : FanOutStage) (held : Option ℕ)
      → at e.stage_jobs stage ≡ held
      → IsBalanced e
      → IsBalanced (finish_from e stage held)
  finish-IsBalanced e stage none w h = h
  finish-IsBalanced e stage (some c) w h =
      complete-IsBalanced (record e { stage_jobs = put_at e.stage_jobs stage none }) (holders_of e)
        c (finish-Downs e.stage_queues e.stage_jobs e.skipping stage c w) h.ledger h.idle
