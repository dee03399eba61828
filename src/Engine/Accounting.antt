-- ===== src/Engine/Accounting.antt =====
-- What `ProcessingEngine` of src/pipeline/processing_engine.cpp counts of the blocks:
-- `makeBlockAccounting` for one block and `recordBlockCompleted` for the summary. The counters are
-- not bounded by 64 bits here, and the ages and latencies, which only go to the metrics, are left
-- out.
pub mod Order
pub mod Cells
pub mod Join
pub mod Range
pub mod Summary
use sirius_scope.Prelude.{
  ℕ, ◌+◌, min, max, Bool, true, false, ◌&&◌, ◌||◌, List, [], ◌∷◌, length, ◌==◌, if◌then◌else◌,
}
use sirius_scope.Prelude.Int.{ℤ, pos, pos_part, neg_part, ltb_ℤ}
use sirius_scope.Domain.{SignalSample}
use sirius_scope.Transport.Block.{SignalBlock}

pub record BandBeamAggregateSummary : Type 0 where
  pub band_index : ℤ
  pub beam_index : ℤ
  pub sample_count : ℕ
  pub max_amplitude : ℤ

pub record ProcessingEngineSummary : Type 0 where
  pub processed_blocks : ℕ
  pub processed_samples : ℕ
  pub first_sample_index : ℕ
  pub last_sample_index : ℕ
  pub band_beam_summaries : List BandBeamAggregateSummary

pub record BlockAccountingData : Type 0 where
  pub sample_count : ℕ
  pub first_sample_index : ℕ
  pub last_sample_index : ℕ
  pub has_samples : Bool
  pub band_beam_summaries : List BandBeamAggregateSummary

infix 50 ◌==ℤ◌
abbrev pub ◌==ℤ◌ : ℤ → ℤ → Bool
a ==ℤ b = pos_part a == pos_part b && neg_part a == neg_part b

-- `std::max`
abbrev pub max_ℤ : ℤ → ℤ → ℤ
max_ℤ a b = if ltb_ℤ a b then b else a

-- The order of `std::map<std::pair<int, int>, ...>` on its keys.
abbrev pub key_before : ℤ → ℤ → ℤ → ℤ → Bool
key_before band beam band' beam' = ltb_ℤ band band' || (band ==ℤ band' && ltb_ℤ beam beam')

abbrev pub has_key : ℤ → ℤ → BandBeamAggregateSummary → Bool
has_key band beam e = e.band_index ==ℤ band && e.beam_index ==ℤ beam

-- The element that `aggregates[key]` makes, with the key that the loop writes into it.
abbrev pub new_cell : SignalSample → BandBeamAggregateSummary
new_cell s = record {
  band_index = s.band_index;
  beam_index = s.beam_index;
  sample_count = 0;
  max_amplitude = pos 0;
}

unfoldable pub count_in_cell : SignalSample → BandBeamAggregateSummary → BandBeamAggregateSummary
count_in_cell s e = record e {
  sample_count = e.sample_count + 1;
  max_amplitude = max_ℤ e.max_amplitude s.amplitude;
}

-- `aggregates[{band, beam}]` and what the loop does to it, on the elements in the map's order.
unfoldable pub update_aggregates :
    List BandBeamAggregateSummary → SignalSample → List BandBeamAggregateSummary
update_aggregates [] s = count_in_cell s (new_cell s) ∷ []
update_aggregates (e ∷ es) s =
    let rest = update_aggregates es s in
    if has_key s.band_index s.beam_index e
    then count_in_cell s e ∷ es
    else if key_before s.band_index s.beam_index e.band_index e.beam_index
    then count_in_cell s (new_cell s) ∷ e ∷ es
    else e ∷ rest

-- One round of the loop over the samples; the map is kept with the rest here.
unfoldable pub account_sample : BlockAccountingData → SignalSample → BlockAccountingData
account_sample acc s =
    let indexed : BlockAccountingData =
      if acc.has_samples
      then record acc {
        first_sample_index = min acc.first_sample_index s.sample_index;
        last_sample_index = max acc.last_sample_index s.sample_index;
      }
      else record acc {
        first_sample_index = s.sample_index;
        last_sample_index = s.sample_index;
        has_samples = true;
      } in
    record indexed { band_beam_summaries = update_aggregates indexed.band_beam_summaries s }

unfoldable pub account_samples : BlockAccountingData → List SignalSample → BlockAccountingData
account_samples acc [] = acc
account_samples acc (s ∷ ss) = account_samples (account_sample acc s) ss

unfoldable pub make_block_accounting {ℓ} :
    {Angle : Type ℓ} → SignalBlock Angle → BlockAccountingData
make_block_accounting block =
    account_samples
      (record {
        sample_count = length block.samples;
        first_sample_index = block.metadata.first_sample_index;
        last_sample_index = block.metadata.last_sample_index;
        has_samples = false;
        band_beam_summaries = [];
      })
      block.samples

-- What `start` makes of the summary.
abbrev pub empty_summary : ProcessingEngineSummary
empty_summary = record {
  processed_blocks = 0;
  processed_samples = 0;
  first_sample_index = 0;
  last_sample_index = 0;
  band_beam_summaries = [];
}

unfoldable pub add_to_cell :
    BandBeamAggregateSummary → BandBeamAggregateSummary → BandBeamAggregateSummary
add_to_cell found value = record found {
  sample_count = found.sample_count + value.sample_count;
  max_amplitude = max_ℤ found.max_amplitude value.max_amplitude;
}

-- The first element of the key is added to, and without one the value comes last.
unfoldable pub add_summary :
    List BandBeamAggregateSummary → BandBeamAggregateSummary → List BandBeamAggregateSummary
add_summary [] value = value ∷ []
add_summary (e ∷ es) value =
    let rest = add_summary es value in
    if has_key value.band_index value.beam_index e then add_to_cell e value ∷ es else e ∷ rest

unfoldable pub add_summaries :
    List BandBeamAggregateSummary → List BandBeamAggregateSummary → List BandBeamAggregateSummary
add_summaries es [] = es
add_summaries es (value ∷ values) = add_summaries (add_summary es value) values

-- The range of the indices, where `blocks` counts the block that is recorded.
unfoldable pub record_range :
    ProcessingEngineSummary → BlockAccountingData → ProcessingEngineSummary
record_range summary acc =
    if acc.has_samples || acc.sample_count == 0
    then if summary.processed_blocks == 1
      then record summary {
        first_sample_index = acc.first_sample_index;
        last_sample_index = acc.last_sample_index;
      }
      else record summary {
        first_sample_index = min summary.first_sample_index acc.first_sample_index;
        last_sample_index = max summary.last_sample_index acc.last_sample_index;
      }
    else summary

unfoldable pub record_block_completed :
    ProcessingEngineSummary → BlockAccountingData → ProcessingEngineSummary
unfolding record_range
record_block_completed summary acc =
    let ranged =
      record_range
        (record summary {
          processed_blocks = summary.processed_blocks + 1;
          processed_samples = summary.processed_samples + acc.sample_count;
        })
        acc in
    record ranged {
      band_beam_summaries = add_summaries ranged.band_beam_summaries acc.band_beam_summaries;
    }
