-- ===== src/Engine/FanOut/Ledger/Complete.antt =====
-- The books when a stage is done with a block, or when the sequential way is, in
-- src/pipeline/processing_engine.cpp.
use sirius_scope.Prelude.{
  ℕ, suc, ◌+◌, ◌-◌, ◌≤◌, ◌<◌, ◌≡◌, ◌≢◌, refl, ap, sym, subst, ◌∙◌, Option, none, some, List, [],
  ◌∷◌, ◌++◌, length, length-set, set, get_or-set_self, get_or-set_ne, arith, ℕ_discrete,
}
use sirius_scope.Prelude.Counts.{count, count-append}
use sirius_scope.Engine.Accounting.{
  ProcessingEngineSummary, make_block_accounting, record_block_completed,
}
use sirius_scope.Engine.Accounting.Summary.{record-fields}
use sirius_scope.Engine.FanOut.{FanOutBlockContext, no_context, context_at}
use sirius_scope.Engine.FanOut.Live.{one_if_held, live, live-same, live-less}
use sirius_scope.Engine.FanOut.Ledger.{
  waiting, waits, other, block_at, IsRecorded, IsLedger, made-next, made-same,
}

-- A number counted once more.
count-one : (c d : ℕ) (ids : List ℕ) → c ≢ d → count d (ids ++ c ∷ []) ≡ count d ids
count-one c d ids ne = omega (arith, count-append d ids (c ∷ []), ne→not-one c d ne)
  where
    ne→not-one : (c d : ℕ) → c ≢ d → count d (c ∷ []) ≡ 0
    ne→not-one c d ne = ground arith

count_self : (c : ℕ) (ids : List ℕ) → count c (ids ++ c ∷ []) ≡ count c ids + 1
count_self c ids = omega (arith, count-append c ids (c ∷ []), one c)
  where
    one : (c : ℕ) → count c (c ∷ []) ≡ 1
    one c = ground arith

-- A block is held once less.
pub record Downs (f g : ℕ → ℕ) (c k : ℕ) : Type 0 where
  pub held : f c ≡ suc k
  pub left : g c ≡ k
  pub same : (d : ℕ) → d ≢ c → g d ≡ f d

lower : (f g : ℕ → ℕ) (c k d : ℕ) → Downs f g c k → g d ≤ f d
lower f g c k d h = elim (ℕ_discrete d c) [
  | yes e ↦ subst (λ x. g x ≤ f x) (sym e) (omega (arith, h.held, h.left))
  | no ne ↦ omega (arith, h.same d ne)
]

still-held :
    (f g : ℕ → ℕ) (c k : ℕ) → Downs f g c (suc k) → (d : ℕ) → one_if_held (g d) ≡ one_if_held (f d)
still-held f g c k h d = elim (ℕ_discrete c d) [
  | yes e ↦
      subst (λ x. one_if_held (g x) ≡ one_if_held (f x)) e
        (ap one_if_held h.left ∙ sym (ap one_if_held h.held))
  | no ne ↦ ap one_if_held (h.same d (λ z. ne (sym z)))
]

module _ {ℓ} {Angle : Type ℓ} where
  -- A context with one stage less.
  abbrev pub count_down : List (FanOutBlockContext Angle) → ℕ → List (FanOutBlockContext Angle)
  count_down contexts c =
      let context = context_at contexts c in
      set contexts c (record context { remaining_stages = context.remaining_stages - 1 })

  down_self :
      (contexts : List (FanOutBlockContext Angle)) (c : ℕ)
      → c < length contexts
      → context_at (count_down contexts c) c ≡ record (context_at contexts c) {
        remaining_stages = (context_at contexts c).remaining_stages - 1;
      }
  down_self contexts c p = get_or-set_self contexts c _ no_context p

  down-other :
      (contexts : List (FanOutBlockContext Angle)) (c d : ℕ)
      → c ≢ d
      → context_at (count_down contexts c) d ≡ context_at contexts d
  down-other contexts c d ne = get_or-set_ne contexts c d _ no_context ne

  down-fields :
      (contexts : List (FanOutBlockContext Angle)) (c d : ℕ)
      → c < length contexts
      → (block_at (count_down contexts c) d ≡ block_at contexts d)
        × ((context_at (count_down contexts c) d).accounting ≡ (context_at contexts d).accounting)
  down-fields contexts c d p = elim (ℕ_discrete c d) [
    | yes e ↦
        subst
          (λ x.
            (block_at (count_down contexts c) x ≡ block_at contexts x)
            × ((context_at (count_down contexts c) x).accounting
                ≡ (context_at contexts x).accounting))
          e
          (
            ap (λ k. k.block) (down_self contexts c p),
            ap (λ k. k.accounting) (down_self contexts c p),
          )
    | no ne ↦ (
      ap (λ k. k.block) (down-other contexts c d ne),
      ap (λ k. k.accounting) (down-other contexts c d ne),
    )
  ]

  down-remaining :
      (contexts : List (FanOutBlockContext Angle)) (f g : ℕ → ℕ) (c k : ℕ)
      → c < length contexts
      → f c ≡ suc k
      → g c ≡ k
      → ((d : ℕ) → d ≢ c → g d ≡ f d)
      → ((d : ℕ) → 0 < f d → (context_at contexts d).remaining_stages ≡ f d)
      → (d : ℕ) → 0 < g d
      → (context_at (count_down contexts c) d).remaining_stages ≡ g d
  down-remaining contexts f g c k p e e' same h d q = elim (ℕ_discrete c d) [
    | yes x ↦
        subst (λ x. (context_at (count_down contexts c) x).remaining_stages ≡ g x) x
          (ap (λ k. k.remaining_stages) (down_self contexts c p)
            ∙ omega (arith, h c (omega arith), e, e'))
    | no ne ↦
        ap (λ k. k.remaining_stages) (down-other contexts c d ne)
        ∙ omega (arith, h d (omega (arith, same d (λ z. ne (sym z)), q)), same d (λ z. ne (sym z)))
  ]

  down-accounted :
      (contexts : List (FanOutBlockContext Angle)) (c : ℕ)
      → c < length contexts
      → ((d : ℕ)
          → d < length contexts
          → (context_at contexts d).accounting ≡ make_block_accounting (block_at contexts d))
      → (d : ℕ) → d < length (count_down contexts c)
      → (context_at (count_down contexts c) d).accounting
        ≡ make_block_accounting (block_at (count_down contexts c) d)
  down-accounted contexts c p h d q =
      let (e, e') = down-fields contexts c d p in
      e' ∙ h d (omega (arith, length-set contexts c _)) ∙ ap make_block_accounting (sym e)

  -- The order of the blocks after one more, which stands in it for the first time.
  IsRecorded-next :
      (f g : ℕ → ℕ) (contexts contexts' : List (FanOutBlockContext Angle))
      (rejected rejected' : Option ℕ) (summary : ProcessingEngineSummary) (ids : List ℕ) (c : ℕ)
      → c < length contexts
      → length contexts' ≡ length contexts
      → ((d : ℕ) → d < length contexts → block_at contexts' d ≡ block_at contexts d)
      → (context_at contexts c).accounting ≡ make_block_accounting (block_at contexts c)
      → one_if_held (f c) + waiting rejected c ≡ 1
      → one_if_held (g c) + waiting rejected' c ≡ 0
      → ((d : ℕ) → d ≢ c → (g d ≡ f d) × (waiting rejected' d ≡ waiting rejected d))
      → IsRecorded f contexts rejected summary ids
      → IsRecorded g contexts' rejected'
          (record_block_completed summary (context_at contexts c).accounting)
          (ids ++ c ∷ [])
  IsRecorded-next f g contexts contexts' rejected rejected' summary ids c p len blocks acc was is
        same h =
      record {
        made =
            made-same contexts contexts'
              (record_block_completed summary (context_at contexts c).accounting) (ids ++ c ∷ [])
              blocks beyond (made-next contexts summary ids c acc h.made);
        once = λ d q. elim (ℕ_discrete c d) [
          | yes e ↦
              subst (λ x. count x (ids ++ c ∷ []) + one_if_held (g x) + waiting rejected' x ≡ 1) e
                (omega (arith, count_self c ids, h.once c p))
          | no ne ↦
              let (e, e') = same d (λ z. ne (sym z)) in
              omega
                (arith, count-one c d ids ne, h.once d (omega (arith, len)), ap one_if_held e, e')
        ];
        no_other = λ d q. beyond d (omega (arith, len));
      }
    where
      beyond : (d : ℕ) → length contexts ≤ d → count d (ids ++ c ∷ []) ≡ 0
      beyond d q = omega (arith, count-one c d ids (λ e. absurd (omega (arith, e))), h.no_other d q)

  -- The last stage is done with the block.
  pub last-IsLedger :
      (f g : ℕ → ℕ) (contexts : List (FanOutBlockContext Angle)) (in_flight : ℕ)
      (summary : ProcessingEngineSummary) (rejected : Option ℕ) (c : ℕ)
      → Downs f g c 0
      → IsLedger f contexts in_flight summary rejected
      → IsLedger g
          (count_down contexts c)
          (in_flight - 1)
          (record_block_completed summary (context_at contexts c).accounting)
          rejected
  last-IsLedger f g contexts in_flight summary rejected c downs h =
      let p : c < length contexts = h.known c (omega (arith, downs.held)) in
      let len : length (count_down contexts c) ≡ length contexts = length-set contexts c _ in
      let held : one_if_held (f c) ≡ 1 = ap one_if_held downs.held in
      let less : live (length contexts) f ≡ live (length contexts) g + 1 =
        live-less (length contexts) c f g p held downs.left downs.same in
      let (ids, recorded) = h.recorded in
      record {
        remaining = down-remaining contexts f g c 0 p downs.held downs.left downs.same h.remaining;
        known = λ d q. rw (len) (h.known d (omega (arith, lower f g c 0 d downs)));
        accounted = down-accounted contexts c p h.accounted;
        rejected_known = λ d e. rw (len) (h.rejected_known d e);
        flying = rw (len) (omega (arith, h.flying, less));
        blocks = rw (len) (
            omega (
              arith,
              h.blocks,
              h.flying,
              less,
              (record-fields summary (context_at contexts c).accounting).0,
            ));
        recorded = (
          ids ++ c ∷ [],
          IsRecorded-next f g contexts (count_down contexts c) rejected rejected summary ids c p len
              (λ d q. (down-fields contexts c d p).0) (h.accounted c p)
              (omega (arith, held, recorded.once c p))
              (omega (arith, ap one_if_held downs.left, held, recorded.once c p))
              (λ d ne. (downs.same d ne, refl)) recorded,
        );
      }

  -- A stage is done with the block, and another is not.
  pub more-IsLedger :
      (f g : ℕ → ℕ) (contexts : List (FanOutBlockContext Angle)) (in_flight : ℕ)
      (summary : ProcessingEngineSummary) (rejected : Option ℕ) (c k : ℕ)
      → Downs f g c (suc k)
      → IsLedger f contexts in_flight summary rejected
      → IsLedger g (count_down contexts c) in_flight summary rejected
  more-IsLedger f g contexts in_flight summary rejected c k downs h =
      let p : c < length contexts = h.known c (omega (arith, downs.held)) in
      let len : length (count_down contexts c) ≡ length contexts = length-set contexts c _ in
      let held : (d : ℕ) → one_if_held (g d) ≡ one_if_held (f d) = still-held f g c k downs in
      let (ids, recorded) = h.recorded in
      record {
        remaining =
            down-remaining contexts f g c (suc k) p downs.held downs.left downs.same h.remaining;
        known = λ d q. rw (len) (h.known d (omega (arith, lower f g c (suc k) d downs)));
        accounted = down-accounted contexts c p h.accounted;
        rejected_known = λ d e. rw (len) (h.rejected_known d e);
        flying = rw (len) (h.flying ∙ live-same (length contexts) f g (λ d q. sym (held d)));
        blocks = rw (len) h.blocks;
        recorded = (
          ids,
          record {
            made =
                made-same contexts (count_down contexts c) summary ids
                  (λ d q. (down-fields contexts c d p).0) recorded.no_other recorded.made;
            once = λ d q. omega (arith, held d, recorded.once d (omega (arith, len)));
            no_other = λ d q. recorded.no_other d (omega (arith, len));
          },
        );
      }

  -- The sequential way is done with the block that waits.
  pub waiting-IsLedger :
      (f : ℕ → ℕ) (contexts : List (FanOutBlockContext Angle)) (in_flight : ℕ)
      (summary : ProcessingEngineSummary) (c : ℕ)
      → IsLedger f contexts in_flight summary (some c)
      → IsLedger f contexts in_flight
          (record_block_completed summary (context_at contexts c).accounting)
          none
  waiting-IsLedger f contexts in_flight summary c h =
      let p : c < length contexts = h.rejected_known c refl in
      let (ids, recorded) = h.recorded in
      record {
        remaining = h.remaining;
        known = h.known;
        accounted = h.accounted;
        rejected_known = λ d (e : none ≡ some d). cc;
        flying = h.flying;
        blocks =
            omega (arith, h.blocks, (record-fields summary (context_at contexts c).accounting).0);
        recorded = (
          ids ++ c ∷ [],
          IsRecorded-next f f contexts contexts (some c) none summary ids c p refl (λ d q. refl)
              (h.accounted c p) (omega (arith, waits c, recorded.once c p))
              (omega (arith, waits c, recorded.once c p)) (λ d ne. (refl, sym (other c d ne)))
              recorded,
        );
      }
