-- ===== src/Spectrum/Consume.antt =====
-- `consume` and `flush` of src/pipeline/spectrum_aggregator.cpp, in the general way that updates the
-- open window sample by sample, and in the way that accumulates a block apart and merges it. The
-- summaries of the bands stand in fixed places. Its choice of `consumeTrustedBlockLocalFast` and that
-- way are in the child module Trusted.
pub mod State
pub mod Judge
pub mod Snapshot
pub mod Accumulation
pub mod Clean
pub mod Link
pub mod Merge
pub mod Equal
pub mod Untrusted
pub mod Blocks
pub mod Trusted
use sirius_scope.Prelude.{
  ℕ, ◌+◌, max, Bool, ◌&&◌, Option, none, some, List, [], ◌∷◌, ltb, ◌==◌, if◌then◌else◌,
}
use sirius_scope.Domain.{SignalSample}
use sirius_scope.Spectrum.Window.{WindowState}
use sirius_scope.Spectrum.Bins.{update_bin, update_local_bin}
use sirius_scope.Spectrum.Bands.{update_bands, update_local_bands}
use sirius_scope.Spectrum.Consume.State.{
  SpectrumAggregatorConfig, OpenWindow, SpectrumCore, LocalAccumulation, SpectrumAggregator,
  new_spectrum_aggregator,
}
use sirius_scope.Spectrum.Consume.Judge.{
  Verdict, judge_sample, invalid, out_of_range, ignored, placed,
}
use sirius_scope.Spectrum.Consume.Snapshot.{
  open_spectrum_window, close_open_window, update_open_window_bounds,
}
use sirius_scope.Spectrum.Consume.Accumulation.{
  update_local_window_bounds, reset_local_accumulation, prepare_local_accumulation,
  merge_local_accumulation,
}

abbrev pub count_invalid : SpectrumCore → SpectrumCore
count_invalid x = record x {
  counters = record x.counters { invalid_samples = x.counters.invalid_samples + 1 };
}

abbrev pub count_out_of_range : SpectrumCore → SpectrumCore
count_out_of_range x = record x {
  counters = record x.counters { out_of_range_samples = x.counters.out_of_range_samples + 1 };
}

abbrev pub count_consumed : SpectrumCore → WindowState → SpectrumCore
count_consumed x st = record x {
  counters = record x.counters { consumed_samples = x.counters.consumed_samples + 1 };
  window_state = st;
}

-- `openWindow`, where no window is open or after its close.
abbrev pub start_window : SpectrumAggregatorConfig → ℕ → ℕ → SpectrumCore → SpectrumCore
start_window c window sample x = record x {
  open_window = some (open_spectrum_window c window sample);
}

abbrev pub put_sample :
    SpectrumAggregatorConfig → SignalSample → ℕ → Option OpenWindow → Option OpenWindow
put_sample c s bin none = none
put_sample c s bin (some o) =
    let o' = update_open_window_bounds o s.sample_index in
    some (record o' {
      bins = update_bin c.separate_beams o'.bins s bin;
      bands = update_bands c.separate_beams o'.bands s;
    })

-- The window that a sample goes into: the open one, or a new one.
abbrev pub enter_direct :
    SpectrumAggregatorConfig → SpectrumCore → ℕ → ℕ → Option OpenWindow → SpectrumCore
enter_direct c x window sample none = start_window c window sample x
enter_direct c x window sample (some o) =
    if o.window_index == window then x else start_window c window sample (close_open_window x)

unfoldable pub place_direct :
    SpectrumAggregatorConfig → SpectrumCore → SignalSample → ℕ → ℕ → SpectrumCore
unfolding close_open_window open_spectrum_window update_open_window_bounds update_bin update_bands
place_direct c x s window bin =
    let y = enter_direct c x window s.sample_index x.open_window in
    record y { open_window = put_sample c s bin y.open_window }

abbrev pub accumulate :
    SpectrumAggregatorConfig → LocalAccumulation → SignalSample → ℕ → LocalAccumulation
accumulate c l s bin =
    let l' = update_local_window_bounds l s.sample_index in
    record l' {
      bins = update_local_bin c.separate_beams l'.bins s bin;
      bands = update_local_bands c.separate_beams l'.bands s;
    }

-- The same where the block is accumulated apart, which is merged before a window closes.
abbrev pub enter_local :
    SpectrumAggregatorConfig → SpectrumAggregator → ℕ → ℕ → Option OpenWindow → SpectrumAggregator
enter_local c a window sample none = record a { core = start_window c window sample a.core }
enter_local c a window sample (some o) =
    let m = merge_local_accumulation a in
    if o.window_index == window
    then a
    else record m { core = start_window c window sample (close_open_window m.core) }

unfoldable pub place_local :
    SpectrumAggregatorConfig → SpectrumAggregator → SignalSample → ℕ → ℕ → SpectrumAggregator
unfolding close_open_window open_spectrum_window merge_local_accumulation update_local_window_bounds
    update_local_bin update_local_bands
place_local c a s window bin =
    let b = enter_local c a window s.sample_index a.core.open_window in
    record b { local = accumulate c b.local s bin }

abbrev pub apply_direct :
    SpectrumAggregatorConfig → SpectrumCore → SignalSample → Verdict → SpectrumCore
apply_direct c x s invalid = count_invalid x
apply_direct c x s out_of_range = count_out_of_range x
apply_direct c x s ignored = x
apply_direct c x s (placed window bin) = place_direct c x s window bin

abbrev pub apply_local :
    SpectrumAggregatorConfig → SpectrumAggregator → SignalSample → Verdict → SpectrumAggregator
apply_local c a s invalid = record a { core = count_invalid a.core }
apply_local c a s out_of_range = record a { core = count_out_of_range a.core }
apply_local c a s ignored = a
apply_local c a s (placed window bin) = place_local c a s window bin

-- One round of the loop of `consume`, in the general way and in the local one.
unfoldable pub step_direct : SpectrumAggregatorConfig → SpectrumCore → SignalSample → SpectrumCore
unfolding judge_sample place_direct
step_direct c x s =
    let (st, verdict) = judge_sample c x.window_state s in
    apply_direct c (count_consumed x st) s verdict

unfoldable pub step_local :
    SpectrumAggregatorConfig → SpectrumAggregator → SignalSample → SpectrumAggregator
unfolding judge_sample place_local
step_local c a s =
    let (st, verdict) = judge_sample c a.core.window_state s in
    apply_local c (record a { core = count_consumed a.core st }) s verdict

unfoldable pub loop_direct :
    SpectrumAggregatorConfig → SpectrumCore → List SignalSample → SpectrumCore
loop_direct c x [] = x
loop_direct c x (s ∷ ss) = loop_direct c (step_direct c x s) ss

unfoldable pub loop_local :
    SpectrumAggregatorConfig → SpectrumAggregator → List SignalSample → SpectrumAggregator
loop_local c a [] = a
loop_local c a (s ∷ ss) = loop_local c (step_local c a s) ss

-- `usesBlockLocalFastPath` in fixed storage.
unfoldable pub uses_block_local_fast_path : SpectrumAggregatorConfig → Bool
uses_block_local_fast_path c =
    c.trusted_samples && ltb 0 c.render_bin_count && ltb 0 c.band_capacity

-- `consume` of samples.
unfoldable pub consume_spectrum :
    SpectrumAggregatorConfig → SpectrumAggregator → List SignalSample → SpectrumAggregator
unfolding uses_block_local_fast_path prepare_local_accumulation merge_local_accumulation loop_direct
    loop_local
consume_spectrum c a ss =
    if uses_block_local_fast_path c
    then merge_local_accumulation
        (loop_local c (record a { local = prepare_local_accumulation c a.local }) ss)
    else record a { core = loop_direct c a.core ss }

-- `flush`
unfoldable pub flush_spectrum : SpectrumAggregatorConfig → SpectrumAggregator → SpectrumAggregator
unfolding uses_block_local_fast_path merge_local_accumulation close_open_window
flush_spectrum c a =
    if uses_block_local_fast_path c
    then (let m = merge_local_accumulation a in record m { core = close_open_window m.core })
    else record a { core = close_open_window a.core }

-- `normalizeConfig`; the default capabilities have five bands.
unfoldable pub normalize_spectrum_config : SpectrumAggregatorConfig → SpectrumAggregatorConfig
normalize_spectrum_config c = record c {
  render_bin_count = max 1 c.render_bin_count;
  band_capacity = if c.band_capacity == 0 then 5 else c.band_capacity;
}

-- `reset`
unfoldable pub reset_spectrum : SpectrumAggregator → SpectrumAggregator
unfolding reset_local_accumulation
reset_spectrum a = record {
  core = new_spectrum_aggregator.core;
  local = reset_local_accumulation a.local;
}

-- `setConfig`, with the configuration that it leaves.
unfoldable pub set_spectrum_config :
    SpectrumAggregatorConfig → SpectrumAggregator → SpectrumAggregatorConfig × SpectrumAggregator
unfolding normalize_spectrum_config reset_spectrum
set_spectrum_config c a = (normalize_spectrum_config c, reset_spectrum a)

abbrev pub count_block : SpectrumAggregator → SpectrumAggregator
count_block a = record a {
  core = record a.core {
    counters = record a.core.counters { consumed_blocks = a.core.counters.consumed_blocks + 1 };
  };
}

-- `consume` of a block, and of blocks one after the other.
unfoldable pub consume_spectrum_block :
    SpectrumAggregatorConfig → SpectrumAggregator → List SignalSample → SpectrumAggregator
unfolding consume_spectrum
consume_spectrum_block c a [] = a
consume_spectrum_block c a (s ∷ ss) = consume_spectrum c (count_block a) (s ∷ ss)

unfoldable pub consume_spectrum_blocks :
    SpectrumAggregatorConfig → SpectrumAggregator → List (List SignalSample) → SpectrumAggregator
unfolding consume_spectrum_block
consume_spectrum_blocks c a [] = a
consume_spectrum_blocks c a (b ∷ bs) = consume_spectrum_blocks c (consume_spectrum_block c a b) bs
