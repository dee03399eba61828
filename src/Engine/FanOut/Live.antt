-- ===== src/Engine/FanOut/Live.antt =====
-- How many blocks some stage has still to process, in src/pipeline/processing_engine.cpp, from how
-- often each is held.
use sirius_scope.Prelude.{
  ℕ, zero, suc, ◌+◌, ◌<◌, ◌≡◌, ◌≢◌, refl, ap, sym, subst, ◌∙◌, arith, ℕ_discrete,
}

abbrev pub one_if_held : ℕ → ℕ
one_if_held zero = 0
one_if_held (suc k) = 1

-- The number of those below the bound that are held.
abbrev pub live : ℕ → (ℕ → ℕ) → ℕ
live zero f = 0
live (suc n) f = one_if_held (f n) + live n f

pub held-one : (k : ℕ) → 0 < k → one_if_held k ≡ 1
held-one zero h = absurd (omega arith)
held-one (suc k) h = refl

held-zero : (k : ℕ) → one_if_held k ≡ 0 → k ≡ 0
held-zero zero h = refl
held-zero (suc k) h = absurd (omega arith)

pub live-same :
    (n : ℕ) (f g : ℕ → ℕ)
    → ((c : ℕ) → c < n → one_if_held (f c) ≡ one_if_held (g c))
    → live n f ≡ live n g
live-same zero f g h = refl
live-same (suc n) f g h =
    omega (arith, h n (omega arith), live-same n f g (λ c p. h c (omega arith)))

-- One of them is no longer held.
pub live-less :
    (n c : ℕ) (f g : ℕ → ℕ)
    → c < n
    → one_if_held (f c) ≡ 1
    → g c ≡ 0
    → ((d : ℕ) → d ≢ c → g d ≡ f d)
    → live n f ≡ live n g + 1
live-less zero c f g h p q same = absurd (omega arith)
live-less (suc n) c f g h p q same = elim (ℕ_discrete n c) [
  | yes e ↦
      let now : one_if_held (f n) ≡ 1 = ap (λ d. one_if_held (f d)) e ∙ p in
      let later : one_if_held (g n) ≡ 0 = ap one_if_held (ap g e ∙ q) in
      let others : live n f ≡ live n g =
        live-same n f g
          (λ d r. ap one_if_held (sym (same d (λ x. absurd (omega (arith, x, e)))))) in
      omega (arith, now, later, others)
  | no ne ↦
      omega (arith, live-less n c f g (omega (arith, ne)) p q same, ap one_if_held (same n ne))
]

pub live-zero : (n : ℕ) (f : ℕ → ℕ) → live n f ≡ 0 → (c : ℕ) → c < n → f c ≡ 0
live-zero zero f h c p = absurd (omega arith)
live-zero (suc n) f h c p = elim (ℕ_discrete n c) [
  | yes e ↦ subst (λ d. f d ≡ 0) e (held-zero (f n) (omega arith))
  | no ne ↦ live-zero n f (omega arith) c (omega (arith, ne))
]

pub live-pos : (n : ℕ) (f : ℕ → ℕ) (c : ℕ) → c < n → 0 < f c → 0 < live n f
live-pos zero f c p q = absurd (omega arith)
live-pos (suc n) f c p q = elim (ℕ_discrete n c) [
  | yes e ↦ omega (arith, held-one (f n) (subst (λ d. 0 < f d) (sym e) q))
  | no ne ↦ omega (arith, live-pos n f c (omega (arith, ne)) q)
]
