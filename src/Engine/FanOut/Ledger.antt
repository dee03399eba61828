-- ===== src/Engine/FanOut/Ledger.antt =====
-- The books of the parallel mode of src/pipeline/processing_engine.cpp: which blocks are recorded,
-- and which are still to be, when a block is held so often.
pub mod Complete
pub mod Add
use sirius_scope.Prelude.{
  ℕ, zero, suc, ◌+◌, ◌-◌, ◌≤◌, ◌<◌, ◌≡◌, ◌≢◌, refl, ap, sym, subst, ◌∙◌, true, false, Option, none,
  some, List, [], ◌∷◌, ◌++◌, map, length, length-append, length-set, get_or, set, get_or-set_self,
  get_or-set_ne, arith, ℕ_discrete, dec_lt, ◌==◌, if◌then◌else◌, ne→not-==,
}
use mathlib.Core.Path.{fun_ext}
use sirius_scope.Prelude.Counts.{count, count-append}
use sirius_scope.Prelude.Cuts.{map-append}
use sirius_scope.Transport.Block.{SignalBlock}
use sirius_scope.Engine.Accounting.{
  ProcessingEngineSummary, empty_summary, make_block_accounting, record_block_completed,
}
use sirius_scope.Engine.Accounting.Summary.{complete_blocks, record-fields}
use sirius_scope.Engine.FanOut.{FanOutBlockContext, no_context, context_at}
use sirius_scope.Engine.FanOut.Live.{one_if_held, live, live-same, live-less, live-pos}

-- A block that no stage took and that is not yet processed.
abbrev pub waiting : Option ℕ → ℕ → ℕ
waiting none c = 0
waiting (some d) c = if c == d then 1 else 0

pub waits : (c : ℕ) → waiting (some c) c ≡ 1
waits c = ground arith

pub other : (c d : ℕ) → d ≢ c → waiting (some c) d ≡ 0
other c d ne = ground arith

abbrev pub waiting_blocks : Option ℕ → ℕ
waiting_blocks none = 0
waiting_blocks (some d) = 1

count-head : (c : ℕ) (ids : List ℕ) → count c (c ∷ ids) ≡ suc (count c ids)
count-head c ids = ground arith

map-same {ℓ} :
    {A : Type ℓ} (f g : ℕ → A) (ids : List ℕ)
    → ((c : ℕ) → 0 < count c ids → f c ≡ g c)
    → map f ids ≡ map g ids
map-same f g [] h = refl
map-same f g (c ∷ ids) h =
    let first : f c ≡ g c = h c (omega (arith, count-head c ids)) in
    let rest : map f ids ≡ map g ids = map-same f g ids (λ d p. h d (omega (arith, p))) in
    rw (first, rest) refl

pub get_or-append_left {ℓ} :
    {A : Type ℓ} (xs ys : List A) (i : ℕ) (d : A)
    → i < length xs
    → get_or (xs ++ ys) i d ≡ get_or xs i d
get_or-append_left [] ys i d h = absurd (omega arith)
get_or-append_left (x ∷ xs) ys zero d h = refl
get_or-append_left (x ∷ xs) ys (suc i) d h = get_or-append_left xs ys i d (omega arith)

pub get_or-append_last {ℓ} :
    {A : Type ℓ} (xs : List A) (y d : A) → get_or (xs ++ y ∷ []) (length xs) d ≡ y
get_or-append_last [] y d = refl
get_or-append_last (x ∷ xs) y d = get_or-append_last xs y d

pub length-snoc {ℓ} : {A : Type ℓ} (xs : List A) (y : A) → length (xs ++ y ∷ []) ≡ suc (length xs)
length-snoc [] y = refl
length-snoc (x ∷ xs) y = ap suc (length-snoc xs y)

module _ {ℓ} {Angle : Type ℓ} where
  abbrev pub block_at : List (FanOutBlockContext Angle) → ℕ → SignalBlock Angle
  block_at contexts c = (context_at contexts c).block

  -- The summary is that of the blocks in this order, and each block stands in it, or is held, or
  -- waits, once.
  pub record IsRecorded (f : ℕ → ℕ) (contexts : List (FanOutBlockContext Angle))
      (rejected : Option ℕ) (summary : ProcessingEngineSummary) (ids : List ℕ) : Type ℓ where
    pub made : summary ≡ complete_blocks empty_summary (map (block_at contexts) ids)
    pub once :
        (c : ℕ) → c < length contexts → count c ids + one_if_held (f c) + waiting rejected c ≡ 1
    pub no_other : (c : ℕ) → length contexts ≤ c → count c ids ≡ 0

  pub record IsLedger (f : ℕ → ℕ) (contexts : List (FanOutBlockContext Angle)) (in_flight : ℕ)
      (summary : ProcessingEngineSummary) (rejected : Option ℕ) : Type ℓ where
    pub remaining : (c : ℕ) → 0 < f c → (context_at contexts c).remaining_stages ≡ f c
    pub known : (c : ℕ) → 0 < f c → c < length contexts
    pub accounted :
        (c : ℕ)
        → c < length contexts
        → (context_at contexts c).accounting ≡ make_block_accounting (block_at contexts c)
    pub rejected_known : (c : ℕ) → rejected ≡ some c → c < length contexts
    pub flying : in_flight ≡ live (length contexts) f
    pub blocks : summary.processed_blocks + in_flight + waiting_blocks rejected ≡ length contexts
    pub recorded : (ids : List ℕ) × IsRecorded f contexts rejected summary ids

  -- The same, however the holders change among themselves.
  pub IsLedger-same :
      (f g : ℕ → ℕ) (contexts : List (FanOutBlockContext Angle)) (in_flight : ℕ)
      (summary : ProcessingEngineSummary) (rejected : Option ℕ)
      → ((c : ℕ) → f c ≡ g c)
      → IsLedger f contexts in_flight summary rejected
      → IsLedger g contexts in_flight summary rejected
  IsLedger-same f g contexts in_flight summary rejected same h =
      subst (λ k. IsLedger k contexts in_flight summary rejected) (fun_ext same) h

  complete-append :
      (summary : ProcessingEngineSummary) (xs : List (SignalBlock Angle)) (b : SignalBlock Angle)
      → complete_blocks summary (xs ++ b ∷ [])
        ≡ record_block_completed (complete_blocks summary xs) (make_block_accounting b)
  unfolding complete_blocks
  complete-append summary [] b = refl
  complete-append summary (x ∷ xs) b =
      complete-append (record_block_completed summary (make_block_accounting x)) xs b

  pub made-next :
      (contexts : List (FanOutBlockContext Angle)) (summary : ProcessingEngineSummary)
      (ids : List ℕ) (c : ℕ)
      → (context_at contexts c).accounting ≡ make_block_accounting (block_at contexts c)
      → summary ≡ complete_blocks empty_summary (map (block_at contexts) ids)
      → record_block_completed summary (context_at contexts c).accounting
        ≡ complete_blocks empty_summary (map (block_at contexts) (ids ++ c ∷ []))
  made-next contexts summary ids c e made = rw (map-append (block_at contexts) ids (c ∷ [])) (
      ap (record_block_completed summary) e
      ∙ ap (λ s. record_block_completed s (make_block_accounting (block_at contexts c))) made
      ∙ sym (complete-append empty_summary (map (block_at contexts) ids) (block_at contexts c)))

  -- The summary does not see what else changes of the contexts.
  pub made-same :
      (contexts contexts' : List (FanOutBlockContext Angle)) (summary : ProcessingEngineSummary)
      (ids : List ℕ)
      → ((c : ℕ) → c < length contexts → block_at contexts' c ≡ block_at contexts c)
      → ((c : ℕ) → length contexts ≤ c → count c ids ≡ 0)
      → summary ≡ complete_blocks empty_summary (map (block_at contexts) ids)
      → summary ≡ complete_blocks empty_summary (map (block_at contexts') ids)
  made-same contexts contexts' summary ids same none_else made =
      made
      ∙ ap (complete_blocks empty_summary)
          (sym (map-same (block_at contexts') (block_at contexts) ids (λ c p. same c (below c p))))
    where
      below : (c : ℕ) → 0 < count c ids → c < length contexts
      below c p = elim (dec_lt c (length contexts)) [
        | yes q ↦ q
        | no q ↦ absurd (omega (arith, p, none_else c (omega (arith, q))))
      ]
