-- ===== src/Engine/Accounting/Range.antt =====
-- The range of the indices that `makeBlockAccounting` and `recordBlockCompleted` of
-- src/pipeline/processing_engine.cpp keep.
use sirius_scope.Prelude.{
  ℕ, min, max, ◌≡◌, refl, ap, true, false, List, [], ◌∷◌, ◌++◌, length, arith, ◌<◌,
}
use sirius_scope.Domain.{SignalSample}
use sirius_scope.Engine.Accounting.{
  ProcessingEngineSummary, BlockAccountingData, account_sample, account_samples, record_range,
  record_block_completed,
}

-- The least and the largest index of samples and of the number given.
abbrev pub lowest : ℕ → List SignalSample → ℕ
lowest i [] = i
lowest i (s ∷ ss) = lowest (min i s.sample_index) ss

abbrev pub highest : ℕ → List SignalSample → ℕ
highest i [] = i
highest i (s ∷ ss) = highest (max i s.sample_index) ss

pub lowest-min : (i j : ℕ) (ss : List SignalSample) → lowest (min i j) ss ≡ min i (lowest j ss)
lowest-min i j [] = refl
lowest-min i j (s ∷ ss) =
    rw (← lowest-min i (min j s.sample_index) ss) (ap (λ k. lowest k ss) (omega arith))

pub highest-max : (i j : ℕ) (ss : List SignalSample) → highest (max i j) ss ≡ max i (highest j ss)
highest-max i j [] = refl
highest-max i j (s ∷ ss) =
    rw (← highest-max i (max j s.sample_index) ss) (ap (λ k. highest k ss) (omega arith))

pub lowest-append :
    (i : ℕ) (xs : List SignalSample) (y : SignalSample) (ys : List SignalSample)
    → lowest i (xs ++ y ∷ ys) ≡ min (lowest i xs) (lowest y.sample_index ys)
lowest-append i [] y ys = lowest-min i y.sample_index ys
lowest-append i (x ∷ xs) y ys = lowest-append (min i x.sample_index) xs y ys

pub highest-append :
    (i : ℕ) (xs : List SignalSample) (y : SignalSample) (ys : List SignalSample)
    → highest i (xs ++ y ∷ ys) ≡ max (highest i xs) (highest y.sample_index ys)
highest-append i [] y ys = highest-max i y.sample_index ys
highest-append i (x ∷ xs) y ys = highest-append (max i x.sample_index) xs y ys

-- The range of a list that has a sample.
abbrev pub IsRange : ℕ → ℕ → List SignalSample → Type 0
IsRange first last [] = Unit
IsRange first last (s ∷ ss) =
    (first ≡ lowest s.sample_index ss) × (last ≡ highest s.sample_index ss)

-- The fields of the accounting beside its summaries.
abbrev Fields : BlockAccountingData → ℕ → ℕ → ℕ → Type 0
Fields acc n first last =
    (acc.sample_count ≡ n)
    × (acc.first_sample_index ≡ first)
    × (acc.last_sample_index ≡ last)
    × (acc.has_samples ≡ true)

account_sample-next :
    (acc : BlockAccountingData) (s : SignalSample) (n first last : ℕ)
    → Fields acc n first last
    → Fields (account_sample acc s) n (min first s.sample_index) (max last s.sample_index)
unfolding account_sample
account_sample-next acc s n first last (e, e1, e2, e3) = ground arith

account_samples-next :
    (acc : BlockAccountingData) (ss : List SignalSample) (n first last : ℕ)
    → Fields acc n first last
    → Fields (account_samples acc ss) n (lowest first ss) (highest last ss)
unfolding account_samples
account_samples-next acc [] n first last h = h
account_samples-next acc (s ∷ ss) n first last h =
    account_samples-next (account_sample acc s) ss n (min first s.sample_index)
      (max last s.sample_index) (account_sample-next acc s n first last h)

account_sample-first :
    (acc : BlockAccountingData) (s : SignalSample)
    → acc.has_samples ≡ false
    → Fields (account_sample acc s) acc.sample_count s.sample_index s.sample_index
unfolding account_sample
account_sample-first acc s h = ground arith

pub make-IsRange :
    (acc : BlockAccountingData) (ss : List SignalSample)
    → acc.has_samples ≡ false
    → IsRange
        (account_samples acc ss).first_sample_index
        (account_samples acc ss).last_sample_index
        ss
      × ((account_samples acc ss).sample_count ≡ acc.sample_count)
      × (0 < length ss → (account_samples acc ss).has_samples ≡ true)
unfolding account_samples
make-IsRange acc [] h = (tt, refl, λ h. absurd (omega arith))
make-IsRange acc (s ∷ ss) h =
    let (n, first, last, has) =
      account_samples-next (account_sample acc s) ss acc.sample_count s.sample_index s.sample_index
        (account_sample-first acc s h) in
    ((first, last), n, λ _. has)

-- A block with samples: the range becomes that of the block if it is the first, and else covers it.
pub record-range :
    (summary : ProcessingEngineSummary) (acc : BlockAccountingData)
    → acc.has_samples ≡ true
    → let summary' = record_block_completed summary acc in
      (summary.processed_blocks ≡ 0
        → (summary'.first_sample_index ≡ acc.first_sample_index)
          × (summary'.last_sample_index ≡ acc.last_sample_index))
      × (0 < summary.processed_blocks
          → (summary'.first_sample_index ≡ min summary.first_sample_index acc.first_sample_index)
            × (summary'.last_sample_index ≡ max summary.last_sample_index acc.last_sample_index))
unfolding record_block_completed record_range
record-range summary acc h = (λ z. ground arith, λ p. ground arith)
