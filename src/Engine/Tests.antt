-- ===== src/Engine/Tests.antt =====
-- Runs of the engine, and instances of its theorems.
use sirius_scope.Prelude.{
  ℕ, ◌≡◌, ◌↔◌, refl, true, false, none, List, [], ◌∷◌, ◌++◌, length, All, arith,
}
use sirius_scope.Prelude.Int.{pos, negsuc, ◌*ℤ◌, ◌-ℤ◌}
use sirius_scope.Domain.{SignalSample}
use sirius_scope.Transport.Block.{SignalBlock}
use sirius_scope.Engine.Accounting.{
  empty_summary, update_aggregates, account_sample, account_samples, make_block_accounting,
  count_in_cell, add_to_cell, add_summary, add_summaries, record_range, record_block_completed,
}
use sirius_scope.Engine.Accounting.Summary.{IsSummary, complete_blocks, complete_blocks-IsSummary}
use sirius_scope.Engine.Stages.{
  waterfall, spectrum, bearing, signal_parameter, lossless_required, bounded_latency_drop_oldest,
  realtime_latest_only, ProcessingEngineConfig, StageJob, PerStage, submit_fan_out_context,
  has_full_stage, submit_stages, submit_fan_out_stage, submit_by, replace_pending,
  active_fan_out_stages, fan_out_stage_policy, drop_oldest_stage_jobs, drop_while_over,
}
use sirius_scope.Engine.Stages.Enter.{IsTrim, drop_oldest_stage_jobs-IsTrim}
use sirius_scope.Engine.Stages.Submit.{Takes, IsEntered, submit_fan_out_context-all_or_none}
use sirius_scope.Engine.FanOut.{
  FanOutStep, begin_step, skip_step, end_step, pop_step, finish_step, new_fan_out, take_steps,
  fan_out_drained, take_step, begin_block, process_block_parallel, make_context,
  complete_fan_out_stage, complete_skipped, process_rejected, end_block, pop_fan_out_stage_job,
  finish_stage_job,
}
use sirius_scope.Engine.FanOut.Balance.{IsBalanced}
use sirius_scope.Engine.FanOut.Drained.{run-IsBalanced, IsComplete, fan_out_drained-IsComplete}
use sirius_scope.Engine.FanOut.Drains.{work, IsInternal}
use sirius_scope.Engine.FanOut.Finish.{run-finishes}

abbrev sample_of : ℕ → ℕ → ℕ → ℕ → SignalSample
sample_of index band beam amplitude = record {
  sample_index = index;
  band_index = pos band;
  frequency_offset_hz = negsuc 99;
  absolute_frequency_hz = pos 1_000_000;
  amplitude = pos amplitude;
  beam_index = pos beam;
}

abbrev block_of : List SignalSample → SignalBlock ℕ
block_of samples = record {
  metadata = record {
    sequence_id = 1;
    first_sample_index = 0;
    last_sample_index = 0;
    produced_at = 5;
    antenna_azimuth_deg = none;
  };
  max_samples = 8;
  samples = samples;
}

abbrev first_block : SignalBlock ℕ
first_block = block_of (sample_of 10 1 0 40 ∷ sample_of 11 0 1 90 ∷ sample_of 12 1 0 70 ∷ [])

abbrev second_block : SignalBlock ℕ
second_block = block_of (sample_of 7 0 1 20 ∷ sample_of 13 2 0 5 ∷ [])

both_blocks : complete_blocks empty_summary (first_block ∷ second_block ∷ []) ≡ record {
  processed_blocks = 2;
  processed_samples = 5;
  first_sample_index = 7;
  last_sample_index = 13;
  band_beam_summaries =
      record { band_index = pos 0; beam_index = pos 1; sample_count = 2; max_amplitude = pos 90 }
      ∷ record { band_index = pos 1; beam_index = pos 0; sample_count = 2; max_amplitude = pos 70 }
      ∷ record { band_index = pos 2; beam_index = pos 0; sample_count = 1; max_amplitude = pos 5 }
      ∷ [];
}
unfolding complete_blocks make_block_accounting record_block_completed record_range account_samples
    account_sample update_aggregates count_in_cell add_summaries add_summary add_to_cell
both_blocks = refl

complete_blocks-IsSummary_example :
    IsSummary
      (first_block ∷ second_block ∷ [])
      (complete_blocks empty_summary (first_block ∷ second_block ∷ []))
complete_blocks-IsSummary_example = complete_blocks-IsSummary (first_block ∷ second_block ∷ [])

abbrev config : ProcessingEngineConfig
config = record {
  stage_queue_capacity = 2;
  enable_signal_parameter_stage = true;
  overload_policy = record {
    waterfall = bounded_latency_drop_oldest;
    spectrum = realtime_latest_only;
    bearing = lossless_required;
    signal_parameter = lossless_required;
    max_visual_queue_wait_ms = pos 1;
    visual_queue_depth = 2;
  };
}

abbrev job_of : ℕ → ℕ → StageJob
job_of context now = record { context = context; enqueued_at = now }

-- The first job waited too long, and then the second is within the budgets.
abbrev waiting_jobs : List StageJob
waiting_jobs = job_of 0 0 ∷ job_of 1 2_000_000 ∷ []

drop_oldest_stage_jobs-IsTrim_example :
    IsTrim bounded_latency_drop_oldest config waterfall 2_500_000 waiting_jobs
      (drop_oldest_stage_jobs config waterfall 2_500_000 waiting_jobs)
drop_oldest_stage_jobs-IsTrim_example =
    drop_oldest_stage_jobs-IsTrim config waterfall 2_500_000 waiting_jobs (omega arith)

one_left :
    (drop_oldest_stage_jobs config waterfall 2_500_000 waiting_jobs).queue ≡ job_of 1 2_000_000 ∷ []
unfolding drop_oldest_stage_jobs drop_while_over ◌*ℤ◌ ◌-ℤ◌
one_left = refl

abbrev queues : PerStage (List StageJob)
queues = record {
  of_waterfall = waiting_jobs;
  of_spectrum = job_of 1 2_000_000 ∷ [];
  of_bearing = job_of 1 2_000_000 ∷ [];
  of_signal_parameter = [];
}

submit_fan_out_context-all_or_none_example :
    let (s, ok) = submit_fan_out_context config queues false (job_of 2 2_500_000) in
    ((ok ≡ true) ↔ Takes config queues false)
    × (ok ≡ true → IsEntered config true queues (job_of 2 2_500_000) s)
    × (ok ≡ false → s ≡ record { queues = queues; skipped = [] })
submit_fan_out_context-all_or_none_example =
    submit_fan_out_context-all_or_none config queues false (job_of 2 2_500_000)

-- The second block replaces the first in the queues of the waterfall and of the spectrum.
abbrev run : List (FanOutStep ℕ)
run =
    begin_step first_block 0
    ∷ end_step
    ∷ pop_step bearing
    ∷ begin_step second_block 9_000_000
    ∷ skip_step
    ∷ finish_step bearing
    ∷ skip_step
    ∷ end_step
    ∷ []

abbrev rest : List (FanOutStep ℕ)
rest =
    pop_step waterfall
    ∷ pop_step spectrum
    ∷ finish_step spectrum
    ∷ finish_step waterfall
    ∷ pop_step signal_parameter
    ∷ finish_step signal_parameter
    ∷ pop_step signal_parameter
    ∷ finish_step signal_parameter
    ∷ pop_step bearing
    ∷ finish_step bearing
    ∷ []

run-IsBalanced_example : IsBalanced (take_steps config new_fan_out run)
run-IsBalanced_example = run-IsBalanced config run

run_free : (take_steps config new_fan_out (run ++ rest)).processing_block ≡ false
unfolding take_steps take_step begin_block process_block_parallel make_context
    complete_fan_out_stage complete_skipped process_rejected end_block pop_fan_out_stage_job
    finish_stage_job submit_fan_out_context has_full_stage submit_stages submit_fan_out_stage
    submit_by replace_pending active_fan_out_stages fan_out_stage_policy drop_oldest_stage_jobs
    drop_while_over ◌*ℤ◌ ◌-ℤ◌ fan_out_drained
run_free = refl

run_drained : fan_out_drained (take_steps config new_fan_out (run ++ rest)) ≡ true
unfolding take_steps take_step begin_block process_block_parallel make_context
    complete_fan_out_stage complete_skipped process_rejected end_block pop_fan_out_stage_job
    finish_stage_job submit_fan_out_context has_full_stage submit_stages submit_fan_out_stage
    submit_by replace_pending active_fan_out_stages fan_out_stage_policy drop_oldest_stage_jobs
    drop_while_over ◌*ℤ◌ ◌-ℤ◌ fan_out_drained
run_drained = refl

fan_out_drained-IsComplete_example : IsComplete (take_steps config new_fan_out (run ++ rest))
fan_out_drained-IsComplete_example =
    fan_out_drained-IsComplete config (run ++ rest) run_free run_drained

run-finishes_example :
    (more : List (FanOutStep ℕ)) × All IsInternal more
    × (length more ≡ work (take_steps config new_fan_out run))
    × ((take_steps config new_fan_out (run ++ more)).processing_block ≡ false)
    × (fan_out_drained (take_steps config new_fan_out (run ++ more)) ≡ true)
    × IsComplete (take_steps config new_fan_out (run ++ more))
run-finishes_example = run-finishes config run
