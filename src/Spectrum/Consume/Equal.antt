-- ===== src/Spectrum/Consume/Equal.antt =====
-- The two ways of `consume` in src/pipeline/spectrum_aggregator.cpp give the same.
use sirius_scope.Prelude.{
  ℕ, ◌≡◌, refl, ap, sym, subst, ◌∙◌, Option, none, some, List, [], ◌∷◌, Bool-cases, inl, inr, ◌==◌,
}
use sirius_scope.Domain.{SignalSample}
use sirius_scope.Spectrum.Window.{WindowState}
use sirius_scope.Spectrum.Consume.State.{
  SpectrumAggregatorConfig, SpectrumCore, SpectrumAggregator, OpenWindow, LocalAccumulation,
}
use sirius_scope.Spectrum.Consume.Judge.{
  Verdict, invalid, out_of_range, ignored, placed, judge_sample,
}
use sirius_scope.Spectrum.Consume.Snapshot.{open_spectrum_window, close_open_window}
use sirius_scope.Spectrum.Consume.Accumulation.{merge_into, merge_local_accumulation}
use sirius_scope.Spectrum.Consume.{
  count_consumed, count_invalid, count_out_of_range, start_window, put_sample, enter_direct,
  place_direct, accumulate, enter_local, place_local, apply_direct, apply_local, step_direct,
  step_local, loop_direct, loop_local,
}
use sirius_scope.Spectrum.Consume.Clean.{IsClean, IsClean-IsListed, reset-IsClean}
use sirius_scope.Spectrum.Consume.Link.{
  IsLinkedWindow, clean-IsLinkedWindow, open-IsSized, sample-IsLinkedWindow,
}
use sirius_scope.Spectrum.Consume.Merge.{merge-IsLinkedWindow, IsLinkedWindow-IsListed}

abbrev pub LinkedOpen :
    SpectrumAggregatorConfig → LocalAccumulation → Option OpenWindow → Option OpenWindow → Type 0
LinkedOpen c l none none = IsClean c l
LinkedOpen c l none (some d) = ⊥
LinkedOpen c l (some o) none = ⊥
LinkedOpen c l (some o) (some d) = IsLinkedWindow c l o d

-- The aggregator with the accumulators of a block, and the one that is updated directly.
pub record Related (c : SpectrumAggregatorConfig) (a : SpectrumAggregator) (x : SpectrumCore)
    : Type 0 where
  pub same : record a.core { open_window = x.open_window } ≡ x
  pub linked : LinkedOpen c a.local a.core.open_window x.open_window

abbrev pub with_window : SpectrumCore → Option OpenWindow → SpectrumCore
with_window x w = record x { open_window = w }

-- The merge makes the one of the other, and clears the accumulators.
pub merge-Related :
    (c : SpectrumAggregatorConfig) (a : SpectrumAggregator) (x : SpectrumCore)
    (oa ox : Option OpenWindow)
    → a.core.open_window ≡ oa
    → x.open_window ≡ ox
    → Related c a x
    → LinkedOpen c a.local oa ox
    → ((merge_local_accumulation a).core ≡ x) × IsClean c (merge_local_accumulation a).local
unfolding merge_local_accumulation
merge-Related c a x none none ea ex h l =
    let (size, size', listed) = IsClean-IsListed c a.local l in
    (
      ap (λ w. record a.core { open_window = merge_into a.local w }) ea
          ∙ ap (λ w. record a.core { open_window = w }) (sym ex)
          ∙ h.same,
      reset-IsClean c a.local size size' listed,
    )
merge-Related c a x none (some d) ea ex h l = absurd l
merge-Related c a x (some o) none ea ex h l = absurd l
merge-Related c a x (some o) (some d) ea ex h l =
    let (size, size', listed) = IsLinkedWindow-IsListed c a.local o d l in
    (
      ap (λ w. record a.core { open_window = merge_into a.local w }) ea
          ∙ ap (λ w. record a.core { open_window = w })
              (merge-IsLinkedWindow c a.local o d l ∙ sym ex)
          ∙ h.same,
      reset-IsClean c a.local size size' listed,
    )

enter-Related :
    (c : SpectrumAggregatorConfig) (a : SpectrumAggregator) (x : SpectrumCore) (window sample : ℕ)
    (oa ox : Option OpenWindow)
    → a.core.open_window ≡ oa
    → x.open_window ≡ ox
    → Related c a x
    → LinkedOpen c a.local oa ox
    → Related c (enter_local c a window sample oa) (enter_direct c x window sample ox)
      × ((d : OpenWindow) × ((enter_direct c x window sample ox).open_window ≡ some d))
enter-Related c a x window sample none none ea ex h l =
    let w = open_spectrum_window c window sample in
    (
      record {
        same = ap (start_window c window sample) h.same;
        linked = clean-IsLinkedWindow c a.local w l (open-IsSized c window sample);
      },
      (w, refl),
    )
enter-Related c a x window sample none (some d) ea ex h l = absurd l
enter-Related c a x window sample (some o) none ea ex h l = absurd l
enter-Related c a x window sample (some o) (some d) ea ex h l =
    let e = ap (λ k. k == window) l.index in
    let w = open_spectrum_window c window sample in
    elim (Bool-cases (d.window_index == window)) [
      | inl yes' ↦ rw (e ∙ yes', yes') (h, (d, ex))
      | inr no' ↦
          let (merged, clean) = merge-Related c a x (some o) (some d) ea ex h l in
          rw (e ∙ no', no')
            (
              record {
                same = ap (λ y. start_window c window sample (close_open_window y)) merged;
                linked =
                    clean-IsLinkedWindow c (merge_local_accumulation a).local w clean
                      (open-IsSized c window sample);
              },
              (w, refl),
            )
    ]

put-Related :
    (c : SpectrumAggregatorConfig) (b : SpectrumAggregator) (y : SpectrumCore) (s : SignalSample)
    (bin : ℕ) (ob : Option OpenWindow) (d : OpenWindow)
    → b.core.open_window ≡ ob
    → y.open_window ≡ some d
    → Related c b y
    → LinkedOpen c b.local ob (some d)
    → Related c
        (record b { local = accumulate c b.local s bin })
        (record y { open_window = put_sample c s bin y.open_window })
put-Related c b y s bin none d eb ey h l = absurd l
put-Related c b y s bin (some o) d eb ey h l = record {
  same = ap (λ (z : SpectrumCore). with_window z (put_sample c s bin y.open_window)) h.same;
  linked =
      subst (λ w. LinkedOpen c (accumulate c b.local s bin) w (put_sample c s bin y.open_window))
        (sym eb)
        (subst (λ w. LinkedOpen c (accumulate c b.local s bin) (some o) (put_sample c s bin w))
          (sym ey) (sample-IsLinkedWindow c b.local o d s bin l));
}

place-Related :
    (c : SpectrumAggregatorConfig) (a : SpectrumAggregator) (x : SpectrumCore) (s : SignalSample)
    (window bin : ℕ)
    → Related c a x
    → Related c (place_local c a s window bin) (place_direct c x s window bin)
unfolding place_local place_direct
place-Related c a x s window bin h =
    let (entered, (d, e)) =
      enter-Related c a x window s.sample_index a.core.open_window x.open_window refl refl h
        h.linked in
    put-Related c _ _ s bin _ d refl e entered (subst (LinkedOpen c _ _) e entered.linked)

apply-Related :
    (c : SpectrumAggregatorConfig) (a : SpectrumAggregator) (x : SpectrumCore) (st : WindowState)
    (s : SignalSample) (verdict : Verdict)
    → Related c a x
    → Related c
        (apply_local c (record a { core = count_consumed a.core st }) s verdict)
        (apply_direct c (count_consumed x st) s verdict)
apply-Related c a x st s verdict h =
    let counted : Related c (record a { core = count_consumed a.core st }) (count_consumed x st) =
      record { same = ap (λ y. count_consumed y st) h.same; linked = h.linked } in
    apply c (record a { core = count_consumed a.core st }) (count_consumed x st) s verdict counted
  where
    apply :
        (c : SpectrumAggregatorConfig) (a : SpectrumAggregator) (x : SpectrumCore)
        (s : SignalSample) (verdict : Verdict)
        → Related c a x
        → Related c (apply_local c a s verdict) (apply_direct c x s verdict)
    apply c a x s invalid h = record { same = ap count_invalid h.same; linked = h.linked }
    apply c a x s out_of_range h = record { same = ap count_out_of_range h.same; linked = h.linked }
    apply c a x s ignored h = h
    apply c a x s (placed window bin) h = place-Related c a x s window bin h

step-Related :
    (c : SpectrumAggregatorConfig) (a : SpectrumAggregator) (x : SpectrumCore) (s : SignalSample)
    → Related c a x
    → Related c (step_local c a s) (step_direct c x s)
unfolding step_local step_direct
step-Related c a x s h =
    let e : a.core.window_state ≡ x.window_state = ap (λ y. y.window_state) h.same in
    subst
      (λ st.
        Related c
          (apply_local c (record a { core = count_consumed a.core (judge_sample c st s).0 }) s
            (judge_sample c st s).1)
          (step_direct c x s))
      (sym e)
      (apply-Related c a x (judge_sample c x.window_state s).0 s (judge_sample c x.window_state s).1
        h)

pub loop-Related :
    (c : SpectrumAggregatorConfig) (a : SpectrumAggregator) (x : SpectrumCore)
    (ss : List SignalSample)
    → Related c a x
    → Related c (loop_local c a ss) (loop_direct c x ss)
unfolding loop_local loop_direct
loop-Related c a x [] h = h
loop-Related c a x (s ∷ ss) h =
    loop-Related c (step_local c a s) (step_direct c x s) ss (step-Related c a x s h)
