-- ===== src/Spectrum/Window/Incremental.antt =====
-- The incremental search gives the exact window, whatever samples came before.
use native.Mathlib.Nat.{mul-le-mul_right}
use native.Mathlib.Decide.{dec_le}
use sirius_scope.Prelude.{
  ℕ, zero, suc, ◌+◌, ◌-◌, ◌*◌, ◌^◌, ◌≤◌, ◌<◌, ◌≡◌, refl, sym, ap, subst, ℕ_discrete, ==_iff, inl,
  inr, true, false, Option, none, some, ltb, arith, Bool-cases, Option-cases, ltb→lt, not-ltb→le,
  ne→not-==, lt→ltb,
}
use sirius_scope.Spectrum.Window.{
  WindowConfig, WindowState, WindowIndexMode, exact_int128, divisible_sample_period,
  incremental_monotonic, max_u64, exact_window_for_sample, first_sample_index_for_window,
  reset_incremental, prime_incremental, restart, count_fallback, advance, falls_back,
  step_incremental, incremental_window_for_sample, window_for_sample, no_window,
  can_use_incremental_window_index, can_use_fast_window_index,
}
use sirius_scope.Spectrum.Window.Exact.{
  Located, exact_window-Located, Located-exact_window, first_sample_index_iff, fast_window,
  guards-pass,
}

-- What the state remembers is true: the last sample lies in the remembered window, and the
-- remembered start is that of the next window.
pub record Tracked (c : WindowConfig) (st : WindowState) (window start : ℕ) : Type 0 where
  pub below_max : window < max_u64
  pub next_start : first_sample_index_for_window c (window + 1) ≡ some start
  pub last : ℕ
  pub last_lem : st.last_sample_index ≡ some last
  pub last_in : Located c last window

abbrev pub IsTracking : WindowConfig → WindowState → Type 0
IsTracking c st =
    (window start : ℕ)
    → st.window_index ≡ some window
    → st.next_window_start ≡ some start
    → Tracked c st window start

-- Windows are in the order of their samples.
Located-mono : (c : WindowConfig) (s t v w : ℕ) → Located c s v → Located c t w → s ≤ t → v ≤ w
Located-mono c s t v w l m h = elim (dec_le v w) [
  | yes le ↦ le
  | no gt ↦
      let p : (w + 1) * c.snapshot_period_ns ≤ v * c.snapshot_period_ns =
        mul-le-mul_right c.snapshot_period_ns (let le : w + 1 ≤ v = omega arith in le) in
      let q : (s - c.first_sample_index) * c.sample_period_ns
          ≤ (t - c.first_sample_index) * c.sample_period_ns =
        mul-le-mul_right c.sample_period_ns
          (let le : s - c.first_sample_index ≤ t - c.first_sample_index = omega arith in le) in
      absurd (omega (arith, l.low, m.high))
]

some-eq : {A : Type 0} {a b : A} → some a ≡ some b → a ≡ b
some-eq h = cc

-- It is enough to know it of the window and the start that the state remembers.
Tracked-IsTracking :
    (c : WindowConfig) (st : WindowState) (w b : ℕ)
    → st.window_index ≡ some w
    → st.next_window_start ≡ some b
    → Tracked c st w b
    → IsTracking c st
Tracked-IsTracking c st w b i n t window start i' n' =
    let same_window : w ≡ window = cc in
    let same_start : b ≡ start = cc in
    subst (λ k. Tracked c st k start) same_window (subst (λ k. Tracked c st w k) same_start t)

-- Nothing is remembered where the start of the next window is not known.
pub none-IsTracking :
    (c : WindowConfig) (st : WindowState) → st.next_window_start ≡ none → IsTracking c st
none-IsTracking c st e window start i n = cc

module _ (c : WindowConfig) (sample v : ℕ) (l : Located c sample v) where
  exact : exact_window_for_sample c sample ≡ some v
  exact = Located-exact_window c sample v l

  prime-IsTracking : (st : WindowState) → IsTracking c (prime_incremental c st sample (some v))
  unfolding prime_incremental
  prime-IsTracking st = elim (ℕ_discrete v max_u64) [
    | yes last ↦ none-IsTracking c (prime_incremental c st sample (some v)) (rw last refl)
    | no more ↦ elim (Option-cases (first_sample_index_for_window c (v + 1))) [
      | inl e ↦
          none-IsTracking c (prime_incremental c st sample (some v))
            (rw (ne→not-== v max_u64 more) e)
      | inr (b, e) ↦
          Tracked-IsTracking c (prime_incremental c st sample (some v)) v b refl
            (rw (ne→not-== v max_u64 more) e)
            record {
              below_max = omega (arith, l.word);
              next_start = e;
              last = sample;
              last_lem = refl;
              last_in = l;
            }
    ]
  ]

  -- The start of the next window tells on which side of it the sample lies.
  before-next : (w b : ℕ) → first_sample_index_for_window c (w + 1) ≡ some b → sample < b → v ≤ w
  before-next w b e h = elim (dec_le v w) [
    | yes le ↦ le
    | no gt ↦
        let p : (w + 1) * c.snapshot_period_ns ≤ v * c.snapshot_period_ns =
          mul-le-mul_right c.snapshot_period_ns (let le : w + 1 ≤ v = omega arith in le) in
        absurd (
          omega (
            arith,
            l.low,
            (first_sample_index_iff c (w + 1) b sample e l.recorded).1 (omega (arith, l.low)),
          ))
  ]

  after-next : (w b : ℕ) → first_sample_index_for_window c (w + 1) ≡ some b → b ≤ sample → w + 1 ≤ v
  after-next w b e h = elim (dec_le (w + 1) v) [
    | yes le ↦ le
    | no gt ↦
        let p : (v + 1) * c.snapshot_period_ns ≤ (w + 1) * c.snapshot_period_ns =
          mul-le-mul_right c.snapshot_period_ns (let le : v + 1 ≤ w + 1 = omega arith in le) in
        absurd (omega (arith, l.high, (first_sample_index_iff c (w + 1) b sample e l.recorded).0 h))
  ]

  -- What a search returns.
  abbrev Finds : Option (WindowState × Option ℕ) → Type 0
  Finds r = (st' : WindowState) × (r ≡ some (st', some v)) × IsTracking c st'

  restart-Finds : (st : WindowState) → Finds (some (restart c st sample))
  unfolding restart
  restart-Finds st = rw exact (prime_incremental c st sample (some v), refl, prime-IsTracking st)

  -- The sample lies before the start of the next window.
  found-Finds :
      (fuel : ℕ) (st : WindowState) (w b : ℕ)
      → w ≤ v
      → w < max_u64
      → first_sample_index_for_window c (w + 1) ≡ some b
      → sample < b
      → Finds (advance (suc fuel) c st sample w b)
  unfolding advance
  found-Finds fuel st w b le lt e h =
      let same : v ≡ w = omega (arith, before-next w b e h) in
      let st' = record st {
        window_index = some w;
        next_window_start = some b;
        last_sample_index = some sample;
      } in
      rw (lt→ltb sample b h) (
        st',
        ap (λ k. some (st', some k)) (sym same),
        Tracked-IsTracking c st' w b refl refl record {
          below_max = lt;
          next_start = e;
          last = sample;
          last_lem = refl;
          last_in = subst (Located c sample) same l;
        },
      )

  -- The loop goes on: its last round, or a round that leaves the rest to `rest`.
  further-Finds :
      (fuel : ℕ) (st : WindowState) (w b : ℕ)
      → w + 1 ≤ v
      → w < max_u64
      → ltb sample b ≡ false
      → ((start : ℕ)
          → first_sample_index_for_window c (w + 1 + 1) ≡ some start
          → w + 1 < max_u64
          → Finds (advance fuel c st sample (w + 1) start))
      → Finds (advance (suc fuel) c st sample w b)
  unfolding advance
  further-Finds fuel st w b le lt after rest = elim (ℕ_discrete (w + 1) max_u64) [
    | yes last ↦
        let st' = record st {
          window_index = some (w + 1);
          next_window_start = none;
          last_sample_index = some sample;
        } in
        rw (after, ne→not-== w max_u64 (omega arith), (==_iff (w + 1) max_u64).1 last)
          (
            st',
            ap (λ k. some (st', some k)) (let same : w + 1 ≡ v = omega (arith, l.word) in same),
            none-IsTracking c st' refl,
          )
    | no more ↦
        rw (after, ne→not-== w max_u64 (omega arith), ne→not-== (w + 1) max_u64 more)
          (elim (Option-cases (first_sample_index_for_window c (w + 1 + 1))) [
            | inl e ↦ rw e (restart-Finds (count_fallback st))
            | inr (start, e) ↦ rw e (rest start e (omega arith))
          ])
  ]

  advance-Finds :
      (fuel : ℕ) (st : WindowState) (w b : ℕ)
      → w ≤ v
      → w < max_u64
      → first_sample_index_for_window c (w + 1) ≡ some b
      → v < w + fuel
      → Finds (advance fuel c st sample w b)
  advance-Finds zero st w b le lt e enough = absurd (omega arith)
  advance-Finds (suc fuel) st w b le lt e enough = elim (Bool-cases (ltb sample b)) [
    | inl before ↦ found-Finds fuel st w b le lt e (ltb→lt sample b before)
    | inr after ↦
        let le' = after-next w b e (not-ltb→le sample b after) in
        further-Finds fuel st w b le' lt after
          (λ start e' lt'. advance-Finds fuel st (w + 1) start le' lt' e' (omega arith))
  ]

  -- From a state that remembers the truth.
  module _ (st : WindowState) (tracking : IsTracking c st) (fuel : ℕ) (enough : v < fuel) where
    search-Finds :
        falls_back st.last_sample_index sample ≡ false
        → (i n : Option ℕ) → st.window_index ≡ i
        → st.next_window_start ≡ n
        → Finds (step_incremental fuel c st sample i n)
    unfolding step_incremental
    search-Finds forward (some w) (some b) i n =
        let t = tracking w b i n in
        let ahead : t.last ≤ sample =
          not-ltb→le sample t.last (subst (λ o. falls_back o sample ≡ false) t.last_lem forward) in
        advance-Finds fuel st w b (Located-mono c t.last sample w v t.last_in l ahead) t.below_max
          t.next_start (omega arith)
    search-Finds forward (some w) none i n = restart-Finds st
    search-Finds forward none _ i n = restart-Finds st

    incremental-Finds :
        can_use_incremental_window_index c ≡ true
        → Finds (incremental_window_for_sample fuel c st sample)
    unfolding incremental_window_for_sample
    incremental-Finds can = elim (Bool-cases (falls_back st.last_sample_index sample)) [
      | inl back ↦ rw (can, back) (restart-Finds (reset_incremental (count_fallback st)))
      | inr forward ↦
          rw (can, forward) (search-Finds forward st.window_index st.next_window_start refl refl)
    ]

    same-Finds : Finds (some (st, some v))
    same-Finds = (st, refl, tracking)

    incremental-can :
        c.window_index_mode ≡ incremental_monotonic
        → c.use_fast_window_index ≡ true
        → can_use_incremental_window_index c ≡ true
    unfolding can_use_incremental_window_index
    incremental-can m fast = rw (fast, m, lt→ltb 0 _ l.sample_pos, lt→ltb 0 _ l.snapshot_pos)

    passes : no_window c sample ≡ false
    passes = guards-pass c sample l.snapshot_pos l.sample_pos l.recorded

    -- The modes that do not search leave the state alone.
    direct-Finds :
        window_for_sample fuel c st sample ≡ some (st, some v)
        → Finds (window_for_sample fuel c st sample)
    direct-Finds e = rw e same-Finds

    mode-Finds :
        (m : WindowIndexMode)
        → c.window_index_mode ≡ m
        → c.use_fast_window_index ≡ true
        → sample < 2 ^ 64
        → Finds (window_for_sample fuel c st sample)
    unfolding window_for_sample
    mode-Finds exact_int128 m fast word = direct-Finds (ground (arith, exact, passes))
    mode-Finds divisible_sample_period m fast word =
        elim (Bool-cases (can_use_fast_window_index c)) [
          | inl can ↦
              direct-Finds (ground (arith, exact, passes, fast_window c sample can word l.recorded))
          | inr cannot ↦ direct-Finds (ground (arith, exact, passes))
        ]
    mode-Finds incremental_monotonic m fast word =
        let dispatch : window_for_sample fuel c st sample
            ≡ incremental_window_for_sample fuel c st sample =
          ground (arith, passes) in
        rw dispatch (incremental-Finds (incremental-can m fast))

    window-Finds : sample < 2 ^ 64 → Finds (window_for_sample fuel c st sample)
    unfolding window_for_sample
    window-Finds word = elim (Bool-cases c.use_fast_window_index) [
      | inl fast ↦ mode-Finds c.window_index_mode refl fast word
      | inr slow ↦ direct-Finds (ground (arith, exact, passes))
    ]

-- In each mode `windowForSample` returns the window that `exactWindowForSample` returns, where
-- there is one, and its loop ends: more fuel than the number of the window is enough. What it
-- remembers stays true, so this holds for samples in any order.
pub window_for_sample-exact :
    (c : WindowConfig) (st : WindowState) (sample window fuel : ℕ)
    → IsTracking c st
    → sample < 2 ^ 64
    → window < fuel
    → exact_window_for_sample c sample ≡ some window
    → (st' : WindowState) × (window_for_sample fuel c st sample
        ≡ some (st', exact_window_for_sample c sample))
      × IsTracking c st'
window_for_sample-exact c st sample window fuel tracking word enough e = rw e (
    window-Finds c sample window (exact_window-Located c sample window e) st tracking fuel enough
      word)
