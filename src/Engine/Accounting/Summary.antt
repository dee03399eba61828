-- ===== src/Engine/Accounting/Summary.antt =====
-- What the summary of `ProcessingEngine` holds after any blocks, in
-- src/pipeline/processing_engine.cpp.
use sirius_scope.Prelude.{
  ℕ, ◌+◌, min, max, ◌≡◌, refl, sym, ap, subst, ◌∙◌, true, List, [], ◌∷◌, ◌++◌, length,
  length-append, All, arith, append_assoc, append-nil, ◌<◌,
}
use sirius_scope.Prelude.Int.{ℤ}
use sirius_scope.Domain.{SignalSample}
use sirius_scope.Transport.Block.{SignalBlock}
use sirius_scope.Engine.Accounting.{
  ProcessingEngineSummary, BlockAccountingData, empty_summary, make_block_accounting, record_range,
  add_summaries, record_block_completed,
}
use sirius_scope.Engine.Accounting.Cells.{cells, hits, peak, cell_of, Holds-eq}
use sirius_scope.Engine.Accounting.Join.{
  hits-append, peak-append, hits-zero, account_samples-Holds, join-cell_of, add-cells,
}
use sirius_scope.Engine.Accounting.Range.{
  IsRange, lowest-append, highest-append, make-IsRange, record-range,
}

pub record-fields :
    (summary : ProcessingEngineSummary) (acc : BlockAccountingData)
    → ((record_block_completed summary acc).processed_blocks ≡ summary.processed_blocks + 1)
      × ((record_block_completed summary acc).processed_samples
          ≡ summary.processed_samples + acc.sample_count)
      × ((record_block_completed summary acc).band_beam_summaries
          ≡ add_summaries summary.band_beam_summaries acc.band_beam_summaries)
unfolding record_block_completed record_range
record-fields summary acc = (ground arith, ground arith, ground arith)

IsRange-append :
    (first last first' last' : ℕ) (xs ys : List SignalSample)
    → IsRange first last xs
    → IsRange first' last' ys
    → 0 < length xs
    → 0 < length ys
    → IsRange (min first first') (max last last') (xs ++ ys)
IsRange-append first last first' last' [] ys h h' p p' = absurd (omega arith)
IsRange-append first last first' last' (x ∷ xs) [] h h' p p' = absurd (omega arith)
IsRange-append first last first' last' (x ∷ xs) (y ∷ ys) (e, e') (f, f') p p' = (
  rw (e, f) (sym (lowest-append x.sample_index xs y ys)),
  rw (e', f') (sym (highest-append x.sample_index xs y ys)),
)

module _ {ℓ} {Angle : Type ℓ} where
  -- The blocks one after the other.
  unfoldable pub complete_blocks :
      ProcessingEngineSummary → List (SignalBlock Angle) → ProcessingEngineSummary
  complete_blocks summary [] = summary
  complete_blocks summary (block ∷ blocks) =
      complete_blocks (record_block_completed summary (make_block_accounting block)) blocks

  abbrev pub all_samples : List (SignalBlock Angle) → List SignalSample
  all_samples [] = []
  all_samples (block ∷ blocks) = block.samples ++ all_samples blocks

  abbrev pub NonEmpty : SignalBlock Angle → Type 0
  NonEmpty block = 0 < length block.samples

  -- The summary of such blocks: their number, their samples, one entry for each band and beam with
  -- a sample, and the range of the indices if no block is empty.
  pub record IsSummary (blocks : List (SignalBlock Angle)) (summary : ProcessingEngineSummary)
      : Type ℓ where
    pub block_count : summary.processed_blocks ≡ length blocks
    pub sample_count : summary.processed_samples ≡ length (all_samples blocks)
    pub entries :
        (band beam : ℤ)
        → cells band beam summary.band_beam_summaries
          ≡ cell_of band beam
              (hits band beam (all_samples blocks))
              (peak band beam (all_samples blocks))
    pub range :
        All NonEmpty blocks
        → IsRange summary.first_sample_index summary.last_sample_index (all_samples blocks)

  pub empty-IsSummary : IsSummary [] empty_summary
  empty-IsSummary = record {
    block_count = refl;
    sample_count = refl;
    entries = λ band beam. refl;
    range = λ _. tt;
  }

  all_samples-append :
      (xs : List (SignalBlock Angle)) (b : SignalBlock Angle)
      → all_samples (xs ++ b ∷ []) ≡ all_samples xs ++ b.samples
  all_samples-append [] b = append-nil b.samples
  all_samples-append (x ∷ xs) b =
      rw (all_samples-append xs b) (sym (append_assoc x.samples (all_samples xs) b.samples))

  All-NonEmpty :
      (xs ys : List (SignalBlock Angle))
      → All NonEmpty (xs ++ ys)
      → All NonEmpty xs × All NonEmpty ys
  All-NonEmpty [] ys h = (tt, h)
  All-NonEmpty (x ∷ xs) ys (p, h) = let (hx, hy) = All-NonEmpty xs ys h in ((p, hx), hy)

  block-IsRange :
      (b : SignalBlock Angle)
      → let acc = make_block_accounting b in
        IsRange acc.first_sample_index acc.last_sample_index b.samples
        × (acc.sample_count ≡ length b.samples)
        × (NonEmpty b → acc.has_samples ≡ true)
  unfolding make_block_accounting
  block-IsRange b = make-IsRange _ b.samples refl

  -- The range after a block, where no block is empty.
  IsRange-step :
      (blocks : List (SignalBlock Angle)) (summary : ProcessingEngineSummary)
      (b : SignalBlock Angle)
      → IsSummary blocks summary
      → All NonEmpty blocks
      → NonEmpty b
      → IsRange
          (record_block_completed summary (make_block_accounting b)).first_sample_index
          (record_block_completed summary (make_block_accounting b)).last_sample_index
          (all_samples blocks ++ b.samples)
  IsRange-step [] summary b h hs p =
      let (r, _, has) = block-IsRange b in
      let (first, _) = record-range summary (make_block_accounting b) (has p) in
      let (e, e') = first h.block_count in rw (e, e') r
  IsRange-step (x ∷ blocks) summary b h (q, hs) p =
      let (r, _, has) = block-IsRange b in
      let (_, next) = record-range summary (make_block_accounting b) (has p) in
      let (e, e') = next (omega (arith, h.block_count)) in
      rw (e, e')
        (IsRange-append _ _ _ _ (all_samples (x ∷ blocks)) b.samples (h.range (q, hs)) r
          (omega (arith, length-append x.samples (all_samples blocks))) p)

  block-entries :
      (band beam : ℤ) (b : SignalBlock Angle)
      → cells band beam (make_block_accounting b).band_beam_summaries
        ≡ cell_of band beam (hits band beam b.samples) (peak band beam b.samples)
  unfolding make_block_accounting
  block-entries band beam b =
      (Holds-eq band beam (make_block_accounting b).band_beam_summaries (omega arith) (omega arith)
        (account_samples-Holds band beam 0 0 _ b.samples
          (record { sorted = tt; entries = refl; zeroed = λ z. z }))).entries

  record-IsSummary :
      (blocks : List (SignalBlock Angle)) (summary : ProcessingEngineSummary)
      (b : SignalBlock Angle)
      → IsSummary blocks summary
      → IsSummary (blocks ++ b ∷ []) (record_block_completed summary (make_block_accounting b))
  record-IsSummary blocks summary b h = record {
    block_count =
        (record-fields summary (make_block_accounting b)).0
        ∙ rw (length-append blocks (b ∷ []), h.block_count) refl;
    sample_count =
        let (_, e, _) = block-IsRange b in
        (record-fields summary (make_block_accounting b)).1
        ∙ rw
            (
              all_samples-append blocks b,
              length-append (all_samples blocks) b.samples,
              h.sample_count,
              e,
            )
            refl;
    entries = λ band beam.
        let s = all_samples blocks in
        ap (cells band beam) (record-fields summary (make_block_accounting b)).2
        ∙ add-cells band beam summary.band_beam_summaries
            (make_block_accounting b).band_beam_summaries
        ∙ rw
            (
              h.entries band beam,
              block-entries band beam b,
              all_samples-append blocks b,
              hits-append band beam s b.samples,
              peak-append band beam s b.samples,
            )
            (join-cell_of band beam _ _ _ _ (hits-zero band beam s)
              (hits-zero band beam b.samples));
    range = λ ne.
        let (hs, (p, _)) = All-NonEmpty blocks (b ∷ []) ne in
        rw (all_samples-append blocks b) (IsRange-step blocks summary b h hs p);
  }

  complete-IsSummary :
      (before blocks : List (SignalBlock Angle)) (summary : ProcessingEngineSummary)
      → IsSummary before summary
      → IsSummary (before ++ blocks) (complete_blocks summary blocks)
  unfolding complete_blocks
  complete-IsSummary before [] summary h = rw (append-nil before) h
  complete-IsSummary before (b ∷ blocks) summary h =
      subst (λ bs. IsSummary bs (complete_blocks summary (b ∷ blocks)))
        (append_assoc before (b ∷ []) blocks)
        (complete-IsSummary (before ++ b ∷ []) blocks
          (record_block_completed summary (make_block_accounting b))
          (record-IsSummary before summary b h))

  -- The summary after any blocks has their number, the number of their samples, and for each band and
  -- beam with a sample one entry, with the number of its samples and the largest amplitude of them, at
  -- least 0; and the range of the indices is exact if no block is empty.
  pub complete_blocks-IsSummary :
      (blocks : List (SignalBlock Angle)) → IsSummary blocks (complete_blocks empty_summary blocks)
  complete_blocks-IsSummary blocks = complete-IsSummary [] blocks empty_summary empty-IsSummary
