-- ===== src/Prelude/Touched.antt =====
-- Places that are accumulated apart, with a list of those in use, and then merged into a list: the
-- merge gives what the same changes give in the list itself.
use Prim.Native.Nat.{ℕ, zero, suc, ◌<◌}
use mathlib.Core.Path.{◌≡◌, refl, sym, ap, subst, ◌∙◌}
use mathlib.Core.Logic.{◌≢◌, inl, inr}
use mathlib.Core.Bool.{Bool, true, false, ◌&&◌}
use mathlib.Core.List.{List, [], ◌∷◌, ◌++◌}
use native.Mathlib.Omega.{arith}
use native.Mathlib.Decide.{ℕ_discrete}
use sirius_scope.Prelude.Tests.{ltb, if◌then◌else◌, Bool-cases, lt→ltb}
use sirius_scope.Prelude.Lists.{
  length, length-set, length-replicate, get_or, set, replicate, get_or-set_self, get_or-set_ne,
}
use sirius_scope.Prelude.Counts.{count, count-append}

-- The accumulators and the places in use, in the order of their first use.
pub record Slots (B : Type 0) : Type 0 where
  pub local : List B
  pub touched : List ℕ

module _ {A : Type 0} where
  -- A change of one element; out of bounds nothing changes.
  abbrev pub update_at : (A → A) → A → List A → ℕ → List A
  update_at f d xs i = if ltb i (length xs) then set xs i (f (get_or xs i d)) else xs

  -- Lists of one length with the same elements.
  pub get_or-ext :
      (d : A) (xs ys : List A)
      → length xs ≡ length ys
      → ((i : ℕ) → get_or xs i d ≡ get_or ys i d)
      → xs ≡ ys
  get_or-ext d [] [] l e = refl
  get_or-ext d [] (y ∷ ys) l e = absurd (omega (arith, l))
  get_or-ext d (x ∷ xs) [] l e = absurd (omega (arith, l))
  get_or-ext d (x ∷ xs) (y ∷ ys) l e =
      let tail = get_or-ext d xs ys (omega (arith, l)) (λ i. e (suc i)) in
      ap (λ z. z ∷ xs) (e zero) ∙ ap (◌∷◌ y) tail

  pub get_or-replicate_self : (n i : ℕ) (d : A) → get_or (replicate n d) i d ≡ d
  get_or-replicate_self zero i d = refl
  get_or-replicate_self (suc n) zero d = refl
  get_or-replicate_self (suc n) (suc i) d = get_or-replicate_self n i d

-- `is_used` tells whether an accumulator is in use, `dB` is one that is not, and `dA` stands for a
-- place out of bounds.
module _ {A B : Type 0} (is_used : B → Bool) (dA : A) (dB : B) (combine : A → B → A) where
  abbrev pub touch : (B → B) → Slots B → ℕ → Slots B
  touch g l i =
      if ltb i (length l.local)
      then record {
        local = set l.local i (g (get_or l.local i dB));
        touched = if is_used (get_or l.local i dB) then l.touched else l.touched ++ i ∷ [];
      }
      else l

  abbrev pub merge_at : List B → List A → ℕ → List A
  merge_at locals xs i =
      if ltb i (length locals) && ltb i (length xs) && is_used (get_or locals i dB)
      then set xs i (combine (get_or xs i dA) (get_or locals i dB))
      else xs

  abbrev pub merge_all : List B → List A → List ℕ → List A
  merge_all locals xs [] = xs
  merge_all locals xs (i ∷ is) = merge_all locals (merge_at locals xs i) is

  -- What a place becomes by the merge.
  abbrev pub merged : A → B → A
  merged a b = if is_used b then combine a b else a

  pub record IsLinked (base direct : List A) (l : Slots B) : Type 0 where
    pub local_size : length l.local ≡ length base
    pub direct_size : length direct ≡ length base
    pub once :
        (i : ℕ) → is_used (get_or l.local i dB) ≡ true → (count i l.touched ≡ 1) × (i < length base)
    pub fresh :
        (i : ℕ)
        → is_used (get_or l.local i dB) ≡ false
        → (count i l.touched ≡ 0) × (get_or l.local i dB ≡ dB)
    pub linked : (i : ℕ) → get_or direct i dA ≡ merged (get_or base i dA) (get_or l.local i dB)

  -- Nothing accumulated yet.
  pub clean-IsLinked :
      (base : List A)
      → is_used dB ≡ false
      → IsLinked base base (record { local = replicate (length base) dB; touched = [] })
  clean-IsLinked base unused = record {
    local_size = length-replicate (length base) dB;
    direct_size = refl;
    once = λ i u.
        absurd (not-both (sym u ∙ ap is_used (get_or-replicate_self (length base) i dB) ∙ unused));
    fresh = λ i u. (refl, get_or-replicate_self (length base) i dB);
    linked = λ i. sym (
        ap (merged (get_or base i dA)) (get_or-replicate_self (length base) i dB)
        ∙ ap (λ u. if u then combine (get_or base i dA) dB else get_or base i dA) unused);
  }
    where
      not-both : true ≡ false → ⊥
      not-both e = cc

  -- One more change at one place, apart and in the list.
  touched_self :
      (base direct : List A) (l : Slots B) (i : ℕ)
      → IsLinked base direct l
      → count i (if is_used (get_or l.local i dB) then l.touched else l.touched ++ i ∷ []) ≡ 1
  touched_self base direct l i h = elim (Bool-cases (is_used (get_or l.local i dB))) [
    | inl yes' ↦ rw (yes') (h.once i yes').0
    | inr no' ↦
        let none_yet = (h.fresh i no').0 in
        rw (no') (ground (arith, none_yet, count-append i l.touched (i ∷ [])))
  ]

  touched-other :
      (l : Slots B) (i j : ℕ)
      → i ≢ j
      → count j (if is_used (get_or l.local i dB) then l.touched else l.touched ++ i ∷ [])
        ≡ count j l.touched
  touched-other l i j ne = elim (Bool-cases (is_used (get_or l.local i dB))) [
    | inl yes' ↦ rw (yes') refl
    | inr no' ↦ rw (no') (ground (arith, count-append j l.touched (i ∷ [])))
  ]

  -- A change `f` of a place and a change `g` of its accumulator that mean the same.
  pub record Agrees (f : A → A) (g : B → B) : Type 0 where
    pub uses : (b : B) → is_used (g b) ≡ true
    pub used_first : (a : A) → combine a (g dB) ≡ f a
    pub used_again : (a : A) (b : B) → is_used b ≡ true → combine a (g b) ≡ f (combine a b)

  Agrees-merged :
      (f : A → A) (g : B → B) (a : A) (b : B)
      → Agrees f g
      → (is_used b ≡ false → b ≡ dB)
      → merged a (g b) ≡ f (merged a b)
  Agrees-merged f g a b law fresh = elim (Bool-cases (is_used b)) [
    | inl yes' ↦ rw (law.uses b, yes') (law.used_again a b yes')
    | inr no' ↦ rw (law.uses b, no') (ap (λ x. combine a (g x)) (fresh no') ∙ law.used_first a)
  ]

  pub inside-IsLinked :
      (f : A → A) (g : B → B) (base direct : List A) (l : Slots B) (i : ℕ)
      → Agrees f g
      → i < length base
      → IsLinked base direct l
      → IsLinked base (set direct i (f (get_or direct i dA))) (record {
        local = set l.local i (g (get_or l.local i dB));
        touched = if is_used (get_or l.local i dB) then l.touched else l.touched ++ i ∷ [];
      })
  inside-IsLinked f g base direct l i law below h =
      let acc = get_or l.local i dB in
      let hit : get_or (set l.local i (g acc)) i dB ≡ g acc =
        get_or-set_self l.local i (g acc) dB (omega (arith, h.local_size, below)) in
      let miss = λ (j : ℕ) (ne : i ≢ j). get_or-set_ne l.local i j (g acc) dB ne in
      record {
        local_size = length-set l.local i _ ∙ h.local_size;
        direct_size = length-set direct i _ ∙ h.direct_size;
        once = λ j u. elim (ℕ_discrete i j) [
          | yes e ↦
              subst
                (λ k.
                  (count k (if is_used acc then l.touched else l.touched ++ i ∷ []) ≡ 1)
                  × (k < length base))
                e (touched_self base direct l i h, below)
          | no ne ↦
              let (one, inside) = h.once j (sym (ap is_used (miss j ne)) ∙ u) in
              (touched-other l i j ne ∙ one, inside)
        ];
        fresh = λ j u. elim (ℕ_discrete i j) [
          | yes e ↦
              let v =
                subst (λ k. is_used (get_or (set l.local i (g acc)) k dB) ≡ false) (sym e) u in
              absurd (not-both (sym (law.uses acc) ∙ sym (ap is_used hit) ∙ v))
          | no ne ↦
              let (none_yet, empty) = h.fresh j (sym (ap is_used (miss j ne)) ∙ u) in
              (touched-other l i j ne ∙ none_yet, miss j ne ∙ empty)
        ];
        linked = λ j. elim (ℕ_discrete i j) [
          | yes e ↦
              subst
                (λ k.
                  get_or (set direct i (f (get_or direct i dA))) k dA
                  ≡ merged (get_or base k dA) (get_or (set l.local i (g acc)) k dB))
                e
                (get_or-set_self direct i _ dA (omega (arith, h.direct_size, below))
                  ∙ ap f (h.linked i)
                  ∙ sym (Agrees-merged f g (get_or base i dA) acc law (λ u. (h.fresh i u).1))
                  ∙ ap (merged (get_or base i dA)) (sym hit))
          | no ne ↦
              get_or-set_ne direct i j _ dA ne
              ∙ h.linked j
              ∙ ap (merged (get_or base j dA)) (sym (miss j ne))
        ];
      }
    where
      not-both : true ≡ false → ⊥
      not-both e = cc

  merge-length : (locals : List B) (xs : List A) (i : ℕ) → length (merge_at locals xs i) ≡ length xs
  merge-length locals xs i =
      elim (Bool-cases
        (ltb i (length locals) && ltb i (length xs) && is_used (get_or locals i dB))) [
          | inl yes' ↦ rw (yes') (length-set xs i _)
          | inr no' ↦ rw (no') refl
        ]

  merge-other :
      (locals : List B) (xs : List A) (i j : ℕ)
      → i ≢ j
      → get_or (merge_at locals xs i) j dA ≡ get_or xs j dA
  merge-other locals xs i j ne =
      elim (Bool-cases
        (ltb i (length locals) && ltb i (length xs) && is_used (get_or locals i dB))) [
          | inl yes' ↦ rw (yes') (get_or-set_ne xs i j _ dA ne)
          | inr no' ↦ rw (no') refl
        ]

  all-length :
      (locals : List B) (xs : List A) (is : List ℕ) → length (merge_all locals xs is) ≡ length xs
  all-length locals xs [] = refl
  all-length locals xs (i ∷ is) =
      all-length locals (merge_at locals xs i) is ∙ merge-length locals xs i

  all-other :
      (locals : List B) (xs : List A) (is : List ℕ) (j : ℕ)
      → count j is ≡ 0
      → get_or (merge_all locals xs is) j dA ≡ get_or xs j dA
  all-other locals xs [] j c = refl
  all-other locals xs (i ∷ is) j c =
      all-other locals (merge_at locals xs i) is j (ground arith)
      ∙ merge-other locals xs i j (ground arith)

  all-same :
      (locals : List B) (xs : List A) (is : List ℕ) (j : ℕ)
      → count j is ≡ 1
      → j < length locals
      → j < length xs
      → is_used (get_or locals j dB) ≡ true
      → get_or (merge_all locals xs is) j dA ≡ combine (get_or xs j dA) (get_or locals j dB)
  all-same locals xs [] j c p q u = absurd (omega (arith, c))
  all-same locals xs (i ∷ is) j c p q u = elim (ℕ_discrete i j) [
    | yes e ↦
        let rest : count j is ≡ 0 = ground arith in
        all-other locals (merge_at locals xs i) is j rest
        ∙ subst
            (λ k.
              get_or (merge_at locals xs k) j dA ≡ combine (get_or xs j dA) (get_or locals j dB))
            (sym e)
            (rw (lt→ltb j (length locals) p, lt→ltb j (length xs) q, u)
              (get_or-set_self xs j _ dA q))
    | no ne ↦
        let rest : count j is ≡ 1 = ground arith in
        all-same locals (merge_at locals xs i) is j rest p
          (omega (arith, merge-length locals xs i, q)) u
        ∙ ap (λ a. combine a (get_or locals j dB)) (merge-other locals xs i j ne)
  ]

  -- The merge of the places in use gives the list that was changed directly.
  pub IsLinked-merge :
      (base direct : List A) (l : Slots B)
      → IsLinked base direct l
      → merge_all l.local base l.touched ≡ direct
  IsLinked-merge base direct l h =
      get_or-ext dA _ direct (all-length l.local base l.touched ∙ sym h.direct_size) (λ i.
        elim (Bool-cases (is_used (get_or l.local i dB))) [
          | inl yes' ↦
              let (one, inside) = h.once i yes' in
              all-same l.local base l.touched i one (omega (arith, h.local_size, inside)) inside
                yes'
              ∙ sym (
                  h.linked i
                  ∙ ap
                      (λ u.
                        if u
                        then combine (get_or base i dA) (get_or l.local i dB)
                        else get_or base i dA)
                      yes')
          | inr no' ↦
              let (none_yet, empty) = h.fresh i no' in
              all-other l.local base l.touched i none_yet
              ∙ sym (
                  h.linked i
                  ∙ ap
                      (λ u.
                        if u
                        then combine (get_or base i dA) (get_or l.local i dB)
                        else get_or base i dA)
                      no')
        ])
