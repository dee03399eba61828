-- ===== src/Spectrum/Consume/Untrusted.antt =====
-- The loop of `consume` of src/pipeline/spectrum_aggregator.cpp on samples that pass the tests.
use sirius_scope.Prelude.{
  ◌≡◌, refl, ap, sym, ◌∙◌, Bool, true, false, not, ◌&&◌, List, [], ◌∷◌, All, if◌then◌else◌,
}
use sirius_scope.Domain.{SignalSample}
use sirius_scope.Spectrum.Window.{WindowState}
use sirius_scope.Spectrum.Consume.State.{SpectrumAggregatorConfig, SpectrumCore}
use sirius_scope.Spectrum.Consume.Judge.{
  Verdict, invalid, has_valid_untrusted_sample, find_window, judge_window, judge_sample,
  spectrum_bin_for_frequency,
}
use sirius_scope.Spectrum.Consume.Snapshot.{open_spectrum_window}
use sirius_scope.Spectrum.Consume.{
  count_consumed, place_direct, apply_direct, step_direct, loop_direct,
}

-- The same configuration for samples that are to be tested.
abbrev pub untrusted : SpectrumAggregatorConfig → SpectrumAggregatorConfig
untrusted c = record c { trusted_samples = false }

judge-untrusted :
    (c : SpectrumAggregatorConfig) (st : WindowState) (s : SignalSample)
    → c.trusted_samples ≡ true
    → has_valid_untrusted_sample s ≡ true
    → judge_sample (untrusted c) st s ≡ judge_sample c st s
unfolding judge_sample spectrum_bin_for_frequency
judge-untrusted c st s t v =
    let r = find_window c.window st s.sample_index in
    let by : Bool → Bool → WindowState × Verdict =
      λ t v. if not t && not v then (st, invalid) else (r.0, judge_window c s r.1) in
    ap (by false) v ∙ ap (λ b. by b (has_valid_untrusted_sample s)) (sym t)

step-untrusted :
    (c : SpectrumAggregatorConfig) (x : SpectrumCore) (s : SignalSample)
    → c.trusted_samples ≡ true
    → has_valid_untrusted_sample s ≡ true
    → step_direct (untrusted c) x s ≡ step_direct c x s
unfolding step_direct place_direct open_spectrum_window
step-untrusted c x s t v =
    ap (λ r. apply_direct c (count_consumed x r.0) s r.1) (judge-untrusted c x.window_state s t v)

abbrev pub Valid : SignalSample → Type 0
Valid s = has_valid_untrusted_sample s ≡ true

pub loop-untrusted :
    (c : SpectrumAggregatorConfig) (x : SpectrumCore) (ss : List SignalSample)
    → c.trusted_samples ≡ true
    → All Valid ss
    → loop_direct (untrusted c) x ss ≡ loop_direct c x ss
unfolding loop_direct
loop-untrusted c x [] t v = refl
loop-untrusted c x (s ∷ ss) t (v, vs) =
    ap (λ y. loop_direct (untrusted c) y ss) (step-untrusted c x s t v)
    ∙ loop-untrusted c (step_direct c x s) ss t vs
