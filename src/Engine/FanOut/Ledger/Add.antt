-- ===== src/Engine/FanOut/Ledger/Add.antt =====
-- The books when a block comes, taken by the stages or not, in
-- src/pipeline/processing_engine.cpp.
use sirius_scope.Prelude.{
  ℕ, ◌+◌, ◌<◌, ◌≡◌, ◌≢◌, ap, sym, subst, ◌∙◌, none, some, List, [], ◌∷◌, ◌++◌, length, arith,
  ℕ_discrete,
}
use sirius_scope.Prelude.Counts.{count}
use sirius_scope.Engine.Accounting.{ProcessingEngineSummary, make_block_accounting}
use sirius_scope.Engine.FanOut.{FanOutBlockContext, no_context, context_at}
use sirius_scope.Engine.FanOut.Live.{one_if_held, live, live-same, held-one}
use sirius_scope.Engine.FanOut.Ledger.{
  waiting, waits, other, IsLedger, made-same, get_or-append_left, get_or-append_last, length-snoc,
}

module _ {ℓ} {Angle : Type ℓ} where
  at-old :
      (contexts : List (FanOutBlockContext Angle)) (x : FanOutBlockContext Angle) (c : ℕ)
      → c < length contexts
      → context_at (contexts ++ x ∷ []) c ≡ context_at contexts c
  at-old contexts x c p = get_or-append_left contexts (x ∷ []) c no_context p

  at-new :
      (contexts : List (FanOutBlockContext Angle)) (x : FanOutBlockContext Angle)
      → context_at (contexts ++ x ∷ []) (length contexts) ≡ x
  at-new contexts x = get_or-append_last contexts x no_context

  -- What holds of every context old and new.
  at-all :
      (P : ℕ → FanOutBlockContext Angle → Type 0) (contexts : List (FanOutBlockContext Angle))
      (x : FanOutBlockContext Angle)
      → ((c : ℕ) → c < length contexts → P c (context_at contexts c))
      → P (length contexts) x
      → (c : ℕ) → c < length (contexts ++ x ∷ [])
      → P c (context_at (contexts ++ x ∷ []) c)
  at-all P contexts x old new c q = elim (ℕ_discrete c (length contexts)) [
    | yes e ↦
        subst (λ d. P d (context_at (contexts ++ x ∷ []) d)) (sym e)
          (subst (P (length contexts)) (sym (at-new contexts x)) new)
    | no ne ↦
        let p : c < length contexts = omega (arith, ne, length-snoc contexts x) in
        subst (P c) (sym (at-old contexts x c p)) (old c p)
  ]

  -- What the new context is.
  abbrev pub Fresh : FanOutBlockContext Angle → Type 0
  Fresh x = x.accounting ≡ make_block_accounting x.block

  add-accounted :
      (contexts : List (FanOutBlockContext Angle)) (x : FanOutBlockContext Angle)
      → ((c : ℕ) → c < length contexts → Fresh (context_at contexts c))
      → Fresh x
      → (c : ℕ) → c < length (contexts ++ x ∷ [])
      → Fresh (context_at (contexts ++ x ∷ []) c)
  add-accounted contexts x old new = at-all (λ c k. Fresh k) contexts x old new

  -- The new block is held, by as many stages as its context counts.
  pub accepted-IsLedger :
      (f g : ℕ → ℕ) (contexts : List (FanOutBlockContext Angle)) (x : FanOutBlockContext Angle)
      (in_flight : ℕ) (summary : ProcessingEngineSummary)
      → Fresh x
      → 0 < x.remaining_stages
      → g (length contexts) ≡ x.remaining_stages
      → ((d : ℕ) → d ≢ length contexts → g d ≡ f d)
      → IsLedger f contexts in_flight summary none
      → IsLedger g (contexts ++ x ∷ []) (in_flight + 1) summary none
  accepted-IsLedger f g contexts x in_flight summary fresh positive new same h =
      let len = length-snoc contexts x in
      let (ids, recorded) = h.recorded in
      let held : one_if_held (g (length contexts)) ≡ 1 =
        held-one (g (length contexts)) (omega (arith, new, positive)) in
      let old : live (length contexts) g ≡ live (length contexts) f =
        live-same (length contexts) g f
          (λ d q. ap one_if_held (same d (λ e. absurd (omega (arith, e, q))))) in
      record {
        remaining = λ d q. elim (ℕ_discrete d (length contexts)) [
          | yes e ↦
              subst (λ d. (context_at (contexts ++ x ∷ []) d).remaining_stages ≡ g d) (sym e)
                (ap (λ k. k.remaining_stages) (at-new contexts x) ∙ sym new)
          | no ne ↦
              let p : 0 < f d = omega (arith, same d ne, q) in
              ap (λ k. k.remaining_stages) (at-old contexts x d (h.known d p))
              ∙ h.remaining d p
              ∙ sym (same d ne)
        ];
        known = λ d q. elim (ℕ_discrete d (length contexts)) [
          | yes e ↦ omega (arith, e, len)
          | no ne ↦ omega (arith, h.known d (omega (arith, same d ne, q)), len)
        ];
        accounted = add-accounted contexts x h.accounted fresh;
        rejected_known = λ d (e : none ≡ some d). cc;
        flying = rw (len) (omega (arith, held, old, h.flying));
        blocks = omega (arith, len, h.blocks);
        recorded = (
          ids,
          record {
            made =
                made-same contexts (contexts ++ x ∷ []) summary ids
                  (λ d q. ap (λ k. k.block) (at-old contexts x d q)) recorded.no_other
                  recorded.made;
            once = λ d q. elim (ℕ_discrete d (length contexts)) [
              | yes e ↦
                  subst (λ d. count d ids + one_if_held (g d) + 0 ≡ 1) (sym e)
                    (omega (arith, held, recorded.no_other (length contexts) (omega arith)))
              | no ne ↦
                  omega
                    (arith, ap one_if_held (same d ne), recorded.once d (omega (arith, ne, len)))
            ];
            no_other = λ d q. recorded.no_other d (omega (arith, len));
          },
        );
      }

  -- The new block waits, and no stage holds it.
  pub rejected-IsLedger :
      (f : ℕ → ℕ) (contexts : List (FanOutBlockContext Angle)) (x : FanOutBlockContext Angle)
      (in_flight : ℕ) (summary : ProcessingEngineSummary)
      → Fresh x
      → IsLedger f contexts in_flight summary none
      → IsLedger f (contexts ++ x ∷ []) in_flight summary (some (length contexts))
  rejected-IsLedger f contexts x in_flight summary fresh h =
      let len = length-snoc contexts x in
      let n = length contexts in
      let (ids, recorded) = h.recorded in
      let free : f n ≡ 0 = not-known n (λ q. absurd (omega (arith, h.known n q))) in
      record {
        remaining = λ d q.
            ap (λ k. k.remaining_stages) (at-old contexts x d (h.known d q)) ∙ h.remaining d q;
        known = λ d q. omega (arith, h.known d q, len);
        accounted = add-accounted contexts x h.accounted fresh;
        rejected_known = λ d e. omega (arith, some-inj e, len);
        flying = rw (len) (omega (arith, ap one_if_held free, h.flying));
        blocks = omega (arith, len, h.blocks);
        recorded = (
          ids,
          record {
            made =
                made-same contexts (contexts ++ x ∷ []) summary ids
                  (λ d q. ap (λ k. k.block) (at-old contexts x d q)) recorded.no_other
                  recorded.made;
            once = λ d q. elim (ℕ_discrete d n) [
              | yes e ↦
                  subst (λ d. count d ids + one_if_held (f d) + waiting (some n) d ≡ 1) (sym e)
                    (omega (arith, ap one_if_held free, waits n, recorded.no_other n (omega arith)))
              | no ne ↦ omega (arith, other n d ne, recorded.once d (omega (arith, ne, len)))
            ];
            no_other = λ d q. recorded.no_other d (omega (arith, len));
          },
        );
      }
    where
      not-known : (d : ℕ) → (0 < f d → ⊥) → f d ≡ 0
      not-known d q = omega (arith, q)

      some-inj : {a b : ℕ} → some a ≡ some b → a ≡ b
      some-inj e = ground arith
