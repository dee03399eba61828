-- ===== src/Spectrum/Window/Exact.antt =====
-- The exact window of a sample, the first sample of a window, and the fast division.
use native.Mathlib.Nat.{
  div-add-mod', div-eq_of_lt-le, mod-lt, mul-le-mul_right, mul-pos, mul-div-mul_right, div-le_self,
}
use native.Mathlib.Decide.{dec_le}
use sirius_scope.Prelude.{
  ℕ, ◌+◌, ◌-◌, ◌*◌, ◌/◌, ◌%◌, ◌^◌, ◌≤◌, ◌<◌, ◌≡◌, ◌↔◌, ap, true, false, some, arith, ℕ_discrete,
  ne→not-==, le→not-ltb, ◌≢◌, ◌∙◌, sym, subst,
}
use sirius_scope.Prelude.Division.{quotient-bounds}
use sirius_scope.Spectrum.Window.{
  WindowConfig, max_u64, no_window, exact_window_for_sample, divide_up,
  first_sample_index_for_window, samples_per_window, can_use_fast_window_index,
}

div-mul-le : (n d k : ℕ) → n / d ≤ k → n / d * d ≤ k * d
div-mul-le n d k h = mul-le-mul_right d h

div-le_of_le-mul : (n d k : ℕ) → 0 < d → n ≤ k * d → n / d ≤ k
div-le_of_le-mul n d k pos h = elim (dec_le (n / d) k) [
  | yes le ↦ le
  | no gt ↦
      let above : (k + 1) * d ≤ n / d * d =
        mul-le-mul_right d (let lt : k + 1 ≤ n / d = omega arith in lt) in
      absurd (omega (arith, div-add-mod' n d))
]

div-lt_of_le-mul : (n d k : ℕ) → 0 < d → n % d ≢ 0 → n ≤ k * d → n / d + 1 ≤ k
div-lt_of_le-mul n d k pos rest h = elim (ℕ_discrete (n / d) k) [
  | yes same ↦ absurd (omega (arith, div-add-mod' n d, ap (λ q. q * d) same))
  | no other ↦ omega (arith, div-le_of_le-mul n d k pos h)
]

-- `divide_up n d` is the least number whose product with `d` reaches `n`.
pub divide_up-le_iff : (n d k : ℕ) → 0 < d → (divide_up n d ≤ k) ↔ (n ≤ k * d)
unfolding divide_up
divide_up-le_iff n d k pos = elim (ℕ_discrete (n % d) 0) [
  | yes whole ↦ rw whole (
    (λ (h : n / d ≤ k). omega (arith, div-add-mod' n d, div-mul-le n d k h)),
    (λ h. div-le_of_le-mul n d k pos h),
  )
  | no rest ↦ rw (ne→not-== (n % d) 0 rest) (
    (λ (h : n / d + 1 ≤ k).
        omega
          (arith, div-add-mod' n d, mod-lt n pos, mul-le-mul_right {m = n / d + 1} {n = k} d h)),
    (λ h. div-lt_of_le-mul n d k pos rest h),
  )
]

-- The sample is not before the recording, and its time since then lies in the window.
pub record Located (c : WindowConfig) (sample window : ℕ) : Type 0 where
  pub snapshot_pos : 0 < c.snapshot_period_ns
  pub sample_pos : 0 < c.sample_period_ns
  pub recorded : c.first_sample_index ≤ sample
  pub low : window * c.snapshot_period_ns ≤ (sample - c.first_sample_index) * c.sample_period_ns
  pub high :
      (sample - c.first_sample_index) * c.sample_period_ns < (window + 1) * c.snapshot_period_ns
  pub word : window ≤ max_u64

pub guards-pass :
    (c : WindowConfig) (sample : ℕ)
    → 0 < c.snapshot_period_ns
    → 0 < c.sample_period_ns
    → c.first_sample_index ≤ sample
    → no_window c sample ≡ false
guards-pass c sample p q r = ground arith

pub exact_window-Located :
    (c : WindowConfig) (sample window : ℕ)
    → exact_window_for_sample c sample ≡ some window
    → Located c sample window
unfolding exact_window_for_sample
exact_window-Located c sample window e =
    let snapshot_pos : 0 < c.snapshot_period_ns = ground arith in
    let sample_pos : 0 < c.sample_period_ns = ground arith in
    let recorded : c.first_sample_index ≤ sample = ground arith in
    let n = (sample - c.first_sample_index) * c.sample_period_ns in
    let quotient : n / c.snapshot_period_ns ≡ window = ground arith in
    let (low, high) = quotient-bounds n c.snapshot_period_ns window snapshot_pos quotient in
    (record {
      snapshot_pos = snapshot_pos;
      sample_pos = sample_pos;
      recorded = recorded;
      low = low;
      high = high;
      word = ground arith;
    })

Located-quotient :
    (c : WindowConfig) (sample window : ℕ)
    → Located c sample window
    → (sample - c.first_sample_index) * c.sample_period_ns / c.snapshot_period_ns ≡ window
Located-quotient c sample window l = div-eq_of_lt-le c.snapshot_period_ns l.low l.high

pub Located-exact_window :
    (c : WindowConfig) (sample window : ℕ)
    → Located c sample window
    → exact_window_for_sample c sample ≡ some window
unfolding exact_window_for_sample
Located-exact_window c sample window l = rw (
  guards-pass c sample l.snapshot_pos l.sample_pos l.recorded,
  Located-quotient c sample window l,
  le→not-ltb max_u64 window l.word,
)

-- `exactWindowForSample` returns a window exactly when the time of the sample since the start of
-- the recording lies in it: not before its start and before its end, both periods positive, the
-- sample not before the first one, and the number of the window a 64-bit word.
pub exact_window_iff :
    (c : WindowConfig) (sample window : ℕ)
    → (exact_window_for_sample c sample ≡ some window) ↔ Located c sample window
exact_window_iff c sample window =
    (exact_window-Located c sample window, Located-exact_window c sample window)

-- From the sample that `firstSampleIndexForWindow` returns on, and no earlier, samples lie at or
-- after the start of the window.
pub first_sample_index_iff :
    (c : WindowConfig) (window start sample : ℕ)
    → first_sample_index_for_window c window ≡ some start
    → c.first_sample_index ≤ sample
    → (start ≤ sample)
      ↔ (window * c.snapshot_period_ns ≤ (sample - c.first_sample_index) * c.sample_period_ns)
unfolding first_sample_index_for_window
first_sample_index_iff c window start sample e above =
    let pos : 0 < c.sample_period_ns = ground arith in
    let n = window * c.snapshot_period_ns in
    let sum : c.first_sample_index + divide_up n c.sample_period_ns ≡ start = ground arith in
    let least = divide_up-le_iff n c.sample_period_ns (sample - c.first_sample_index) pos in
    ((λ h. least.0 (omega arith)), (λ h. omega (arith, least.1 h)))

-- Where `m_canUseFastWindowIndex` holds, the sample period divides the snapshot period.
fast-divides :
    (c : WindowConfig)
    → can_use_fast_window_index c ≡ true
    → (0 < samples_per_window c)
      × (0 < c.sample_period_ns)
      × (c.snapshot_period_ns ≡ samples_per_window c * c.sample_period_ns)
unfolding can_use_fast_window_index
fast-divides c can = ground (arith, div-add-mod' c.snapshot_period_ns c.sample_period_ns)

pub fast_window :
    (c : WindowConfig) (sample : ℕ)
    → can_use_fast_window_index c ≡ true
    → sample < 2 ^ 64
    → c.first_sample_index ≤ sample
    → exact_window_for_sample c sample
      ≡ some ((sample - c.first_sample_index) / samples_per_window c)
unfolding exact_window_for_sample
fast_window c sample can word above =
    let (q_pos, p_pos, product) = fast-divides c can in
    let rel = sample - c.first_sample_index in
    let q = samples_per_window c in
    let same : rel * c.sample_period_ns / c.snapshot_period_ns ≡ rel / q =
      ap (λ d. rel * c.sample_period_ns / d) product ∙ mul-div-mul_right rel q p_pos in
    let snapshot_pos : 0 < c.snapshot_period_ns =
      subst (λ d. 0 < d) (sym product) (mul-pos q_pos p_pos) in
    rw (
      guards-pass c sample snapshot_pos p_pos above,
      same,
      le→not-ltb max_u64 (rel / q) (omega (arith, div-le_self rel q)),
    )
