-- ===== src/Spectrum/Window/Returns.antt =====
-- The search of `windowForSample` in src/pipeline/spectrum_aggregator.cpp ends.
use sirius_scope.Prelude.{
  ℕ, zero, suc, ◌+◌, ◌-◌, ◌/◌, ◌<◌, ◌≤◌, ◌≡◌, refl, Bool, true, false, Option, none, some, arith,
  Bool-cases, Option-cases, inl, inr, ◌==◌, ltb, not, if◌then◌else◌,
}
use sirius_scope.Spectrum.Window.{
  WindowConfig, WindowState, max_u64, no_window, falls_back, count_fallback, reset_incremental,
  prime_incremental, restart, step_incremental, advance, incremental_window_for_sample,
  window_for_sample, can_use_incremental_window_index, can_use_fast_window_index,
  exact_window_for_sample, first_sample_index_for_window, is_divisible, is_incremental,
  samples_per_window,
}

-- Where the start of the next window is known, there is a next window.
abbrev pub HasNext : Option ℕ → Option ℕ → Type 0
HasNext (some window) (some start) = window < max_u64
HasNext (some window) none = Unit
HasNext none start = Unit

abbrev Returns : Option (WindowState × Option ℕ) → Type 0
Returns none = ⊥
Returns (some r) = HasNext r.0.window_index r.0.next_window_start

exact-bound :
    (c : WindowConfig) (sample window : ℕ)
    → exact_window_for_sample c sample ≡ some window
    → window ≤ max_u64
unfolding exact_window_for_sample
exact-bound c sample window e = ground arith

next-HasNext :
    (c : WindowConfig) (w : ℕ)
    → w ≤ max_u64
    → HasNext (some w) (if w == max_u64 then none else first_sample_index_for_window c (w + 1))
next-HasNext c w b = elim (Bool-cases (w == max_u64)) [
  | inl last ↦ rw last tt
  | inr more ↦ elim (Option-cases (first_sample_index_for_window c (w + 1))) [
    | inl e ↦ rw (more, e) tt
    | inr (start, e) ↦ rw (more, e) (ground arith)
  ]
]

restart-Returns :
    (c : WindowConfig) (st : WindowState) (sample : ℕ) → Returns (some (restart c st sample))
unfolding restart prime_incremental reset_incremental
restart-Returns c st sample = elim (Option-cases (exact_window_for_sample c sample)) [
  | inl e ↦ rw e tt
  | inr (w, e) ↦ rw e (next-HasNext c w (exact-bound c sample w e))
]

advance-Returns :
    (fuel : ℕ) (c : WindowConfig) (st : WindowState) (sample window start : ℕ)
    → window < max_u64
    → max_u64 ≤ window + fuel
    → Returns (advance fuel c st sample window start)
unfolding advance
advance-Returns zero c st sample window start w f = absurd (omega (arith, w, f))
advance-Returns (suc fuel) c st sample window start w f =
    let restarts = restart-Returns c (count_fallback st) sample in
    elim (Bool-cases (ltb sample start)) [
      | inl a ↦ rw a w
      | inr a ↦ elim (Bool-cases (window == max_u64)) [
        | inl b ↦ rw (a, b) restarts
        | inr b ↦ elim (Bool-cases (window + 1 == max_u64)) [
          | inl d ↦ rw (a, b, d) tt
          | inr d ↦ elim (Option-cases (first_sample_index_for_window c (window + 1 + 1))) [
            | inl e ↦ rw (a, b, d, e) restarts
            | inr (start', e) ↦
                let below : window + 1 < max_u64 = ground arith in
                let enough : max_u64 ≤ window + 1 + fuel = omega (arith, f) in
                rw (a, b, d, e) (advance-Returns fuel c st sample (window + 1) start' below enough)
          ]
        ]
      ]
    ]

step-Returns :
    (fuel : ℕ) (c : WindowConfig) (st : WindowState) (sample : ℕ) (window start : Option ℕ)
    → max_u64 ≤ fuel
    → HasNext window start
    → Returns (step_incremental fuel c st sample window start)
unfolding step_incremental
step-Returns fuel c st sample (some w) (some b) f h =
    advance-Returns fuel c st sample w b h (omega (arith, f))
step-Returns fuel c st sample (some w) none f h = restart-Returns c st sample
step-Returns fuel c st sample none b f h = restart-Returns c st sample

incremental-Returns :
    (fuel : ℕ) (c : WindowConfig) (st : WindowState) (sample : ℕ)
    → max_u64 ≤ fuel
    → HasNext st.window_index st.next_window_start
    → Returns (incremental_window_for_sample fuel c st sample)
unfolding incremental_window_for_sample
incremental-Returns fuel c st sample f h = elim (Bool-cases (can_use_incremental_window_index c)) [
  | inr no' ↦ rw no' h
  | inl yes' ↦ elim (Bool-cases (falls_back st.last_sample_index sample)) [
    | inl back ↦ rw (yes', back) (restart-Returns c (reset_incremental (count_fallback st)) sample)
    | inr on ↦
        rw (yes', on) (step-Returns fuel c st sample st.window_index st.next_window_start f h)
  ]
]

if-Returns :
    (b : Bool) (x y : Option (WindowState × Option ℕ))
    → Returns x
    → Returns y
    → Returns (if b then x else y)
if-Returns true x y p q = p
if-Returns false x y p q = q

window-Returns :
    (fuel : ℕ) (c : WindowConfig) (st : WindowState) (sample : ℕ)
    → max_u64 ≤ fuel
    → HasNext st.window_index st.next_window_start
    → Returns (window_for_sample fuel c st sample)
unfolding window_for_sample
window-Returns fuel c st sample f h =
    let found = incremental-Returns fuel c st sample f h in
    if-Returns (no_window c sample) (some (st, none)) _ h (
      if-Returns (not c.use_fast_window_index) (some (st, exact_window_for_sample c sample)) _ h (
        if-Returns (is_divisible c.window_index_mode) _ _
          (if-Returns (can_use_fast_window_index c)
            (some (st, some ((sample - c.first_sample_index) / samples_per_window c)))
            (some (st, exact_window_for_sample c sample)) h h)
          (if-Returns (is_incremental c.window_index_mode)
            (incremental_window_for_sample fuel c st sample)
            (some (st, exact_window_for_sample c sample)) found h)))

result-Returns :
    (r : Option (WindowState × Option ℕ))
    → Returns r
    → (q : WindowState × Option ℕ) × (r ≡ some q) × HasNext q.0.window_index q.0.next_window_start
result-Returns none h = absurd h
result-Returns (some q) h = (q, refl, h)

-- From a state in which the start of a next window is known only where there is a next window,
-- `windowForSample` returns and leaves such a state: as many rounds as the number of the last window
-- are enough, whatever the sample and the mode.
pub window_for_sample-returns :
    (fuel : ℕ) (c : WindowConfig) (st : WindowState) (sample : ℕ)
    → max_u64 ≤ fuel
    → HasNext st.window_index st.next_window_start
    → (r : WindowState × Option ℕ) × (window_for_sample fuel c st sample ≡ some r)
      × HasNext r.0.window_index r.0.next_window_start
window_for_sample-returns fuel c st sample f h =
    result-Returns (window_for_sample fuel c st sample) (window-Returns fuel c st sample f h)
