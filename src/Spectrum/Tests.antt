-- ===== src/Spectrum/Tests.antt =====
-- Runs of the spectrum aggregator's functions, and instances of its theorems.
use sirius_scope.Prelude.{◌-◌, ◌*◌, ◌^◌, ◌≤◌, ◌≡◌, ◌↔◌, refl, subst, true, none, some, arith}
use sirius_scope.Spectrum.Window.{
  WindowConfig, WindowState, incremental_monotonic, max_u64, exact_window_for_sample,
  first_sample_index_for_window, window_for_sample, divide_up, can_use_incremental_window_index,
  incremental_window_for_sample, step_incremental, restart, prime_incremental,
}
use sirius_scope.Spectrum.Window.Exact.{exact_window_iff, first_sample_index_iff, Located}
use sirius_scope.Spectrum.Window.Incremental.{
  Tracked, IsTracking, none-IsTracking, window_for_sample-exact,
}
use sirius_scope.Spectrum.Window.PastMax.{window_for_sample-past_max}

-- 320 ns samples and windows of 1000 ns, from sample 10 on.
abbrev config : WindowConfig
config = record {
  snapshot_period_ns = 1_000;
  first_sample_index = 10;
  sample_period_ns = 320;
  use_fast_window_index = true;
  window_index_mode = incremental_monotonic;
}

abbrev new_state : WindowState
new_state = record {
  window_index = none;
  next_window_start = none;
  last_sample_index = none;
  fallbacks = 0;
}

exact_run : exact_window_for_sample config 17 ≡ some 2
unfolding exact_window_for_sample
exact_run = refl

start_run : first_sample_index_for_window config 2 ≡ some 17
unfolding first_sample_index_for_window divide_up
start_run = refl

exact_window_iff_example : (exact_window_for_sample config 17 ≡ some 2) ↔ Located config 17 2
exact_window_iff_example = exact_window_iff config 17 2

first_sample_index_iff_example : (17 ≤ 18) ↔ (2 * 1_000 ≤ (18 - 10) * 320)
first_sample_index_iff_example = first_sample_index_iff config 2 17 18 start_run (omega arith)

window_for_sample-exact_example :
    (st' : WindowState) × (window_for_sample 5 config new_state 17
      ≡ some (st', exact_window_for_sample config 17))
    × IsTracking config st'
window_for_sample-exact_example =
    window_for_sample-exact config new_state 17 2 5 (none-IsTracking config new_state refl)
      (omega arith) (omega arith) exact_run

-- Windows of 1 ns and samples of 2^64 - 2 ns.
abbrev coarse : WindowConfig
coarse = record {
  snapshot_period_ns = 1;
  first_sample_index = 0;
  sample_period_ns = 2 ^ 64 - 2;
  use_fast_window_index = true;
  window_index_mode = incremental_monotonic;
}

abbrev last_but_one : WindowState
last_but_one = record {
  window_index = some (max_u64 - 1);
  next_window_start = some 2;
  last_sample_index = some 1;
  fallbacks = 0;
}

-- The state is the one that sample 1 leaves.
last_but_one_reached :
    window_for_sample 5 coarse new_state 1 ≡ some (last_but_one, some (max_u64 - 1))
unfolding window_for_sample incremental_window_for_sample step_incremental restart prime_incremental
    exact_window_for_sample first_sample_index_for_window divide_up can_use_incremental_window_index
last_but_one_reached = refl

last_but_one-Tracked : Tracked coarse last_but_one (max_u64 - 1) 2
unfolding first_sample_index_for_window divide_up
last_but_one-Tracked = record {
  below_max = omega arith;
  next_start = refl;
  last = 1;
  last_lem = refl;
  last_in = record {
    snapshot_pos = omega arith;
    sample_pos = omega arith;
    recorded = omega arith;
    low = omega arith;
    high = omega arith;
    word = omega arith;
  };
}

last_but_one-IsTracking : IsTracking coarse last_but_one
last_but_one-IsTracking window start i n =
    let same_window : max_u64 - 1 ≡ window = cc in
    let same_start : 2 ≡ start = cc in
    subst (λ k. Tracked coarse last_but_one k start) same_window
      (subst (λ k. Tracked coarse last_but_one (max_u64 - 1) k) same_start last_but_one-Tracked)

window_for_sample-past_max_example :
    (exact_window_for_sample coarse 2 ≡ none)
    × ((st' : WindowState) × (window_for_sample max_u64 coarse last_but_one 2
          ≡ some (st', some max_u64)))
unfolding can_use_incremental_window_index
window_for_sample-past_max_example =
    window_for_sample-past_max coarse last_but_one 2 (max_u64 - 1) 2 1 max_u64 refl (omega arith)
      (omega arith) (omega arith) last_but_one-IsTracking refl refl refl (omega arith) (omega arith)
