-- ===== src/Spectrum/Bins/Local.antt =====
-- Accumulating a block by itself and merging it gives what updating the window's bins gives.
use sirius_scope.Prelude.{
  ℕ, zero, suc, ◌≤◌, ◌<◌, ◌≡◌, ◌≢◌, refl, sym, subst, ◌∙◌, ap, Bool, true, false, List, [], ◌∷◌,
  ◌++◌, length, length-set, length-replicate, get_or, set, replicate, get_or-set_self,
  get_or-set_ne, ℕ_discrete, dec_lt, lt→ltb, le→not-ltb, if◌then◌else◌, arith, Bool-cases, inl, inr,
}
use sirius_scope.Prelude.Counts.{count, count-append}
use sirius_scope.Domain.{SignalSample}
use sirius_scope.Spectrum.Bins.{
  SpectrumBin, LocalBinAccumulator, LocalBins, empty_bin, unused, max_u16, raise_bin, update_bin,
  update_local_bin, merge_bin, merge_local_bins,
}
use sirius_scope.Spectrum.Bins.Merge.{
  raise-merge, merge-empty, merge_all-length, merge_all-other, merge_all-same,
}

-- The samples of a block with their bins, into the bins of the window.
abbrev pub update_bins : Bool → List SpectrumBin → List (SignalSample × ℕ) → List SpectrumBin
update_bins b bins [] = bins
update_bins b bins (x ∷ xs) = update_bins b (update_bin b bins x.0 x.1) xs

-- The same samples into the accumulators of a block.
abbrev pub update_local_bins : Bool → LocalBins → List (SignalSample × ℕ) → LocalBins
update_local_bins b l [] = l
update_local_bins b l (x ∷ xs) = update_local_bins b (update_local_bin b l x.0 x.1) xs

-- What `prepareLocalAccumulationBuffers` leaves for `n` bins.
abbrev pub clean : ℕ → LocalBins
clean n = record { local_bins = replicate n unused; touched_bins = [] }

-- Each bin of the window is the merge of the one before the block and the block's accumulator, and
-- the touched bins are those in use, each once.
pub record IsLinked (base direct : List SpectrumBin) (l : LocalBins) : Type 0 where
  pub local_size : length l.local_bins ≡ length base
  pub direct_size : length direct ≡ length base
  pub touched :
      (i : ℕ)
      → (get_or l.local_bins i unused).used ≡ true
      → (count i l.touched_bins ≡ 1) × (i < length base)
  pub untouched :
      (i : ℕ)
      → (get_or l.local_bins i unused).used ≡ false
      → (count i l.touched_bins ≡ 0) × ((get_or l.local_bins i unused).bin ≡ empty_bin)
  pub linked :
      (i : ℕ)
      → get_or direct i empty_bin
        ≡ merge_bin (get_or base i empty_bin) (get_or l.local_bins i unused).bin

get_or-clean : (n i : ℕ) → get_or (replicate n unused) i unused ≡ unused
get_or-clean zero i = refl
get_or-clean (suc n) zero = refl
get_or-clean (suc n) (suc i) = get_or-clean n i

pub clean-IsLinked :
    (base : List SpectrumBin)
    → ((i : ℕ) → (get_or base i empty_bin).hit_count ≤ max_u16)
    → IsLinked base base (clean (length base))
clean-IsLinked base fits = record {
  local_size = length-replicate (length base) unused;
  direct_size = refl;
  touched = λ i u. absurd (ground (arith, get_or-clean (length base) i));
  untouched = λ i u. (refl, ap (λ (a : LocalBinAccumulator). a.bin) (get_or-clean (length base) i));
  linked = λ i.
      sym (merge-empty (get_or base i empty_bin) (fits i))
      ∙ ap (λ (a : LocalBinAccumulator). merge_bin (get_or base i empty_bin) a.bin)
          (sym (get_or-clean (length base) i));
}

-- The accumulator of a bin after one more sample.
abbrev raised : Bool → SignalSample → LocalBinAccumulator → LocalBinAccumulator
raised b s acc = record { bin = raise_bin b s acc.bin; used = true }

abbrev retouched : LocalBins → ℕ → List ℕ
retouched l i =
    if (get_or l.local_bins i unused).used then l.touched_bins else l.touched_bins ++ i ∷ []

retouched-same :
    (base direct : List SpectrumBin) (l : LocalBins) (i : ℕ)
    → IsLinked base direct l
    → count i (retouched l i) ≡ 1
retouched-same base direct l i h = elim (Bool-cases (get_or l.local_bins i unused).used) [
  | inl yes' ↦ rw yes' (h.touched i yes').0
  | inr no' ↦
      let none_yet = (h.untouched i no').0 in
      rw no' (ground (arith, none_yet, count-append i l.touched_bins (i ∷ [])))
]

retouched-other :
    (l : LocalBins) (i j : ℕ) → i ≢ j → count j (retouched l i) ≡ count j l.touched_bins
retouched-other l i j d = elim (Bool-cases (get_or l.local_bins i unused).used) [
  | inl yes' ↦ rw yes' refl
  | inr no' ↦ rw no' (ground (arith, count-append j l.touched_bins (i ∷ [])))
]

inside-IsLinked :
    (b : Bool) (base direct : List SpectrumBin) (l : LocalBins) (s : SignalSample) (i : ℕ)
    → i < length base
    → IsLinked base direct l
    → IsLinked base (set direct i (raise_bin b s (get_or direct i empty_bin))) (record {
      local_bins = set l.local_bins i (raised b s (get_or l.local_bins i unused));
      touched_bins = retouched l i;
    })
inside-IsLinked b base direct l s i below h =
    let acc = get_or l.local_bins i unused in
    let locals = set l.local_bins i (raised b s acc) in
    let hit =
      get_or-set_self l.local_bins i (raised b s acc) unused (omega (arith, h.local_size)) in
    let miss = λ (j : ℕ) (d : i ≢ j). get_or-set_ne l.local_bins i j (raised b s acc) unused d in
    let is_used = λ (a : LocalBinAccumulator). a.used in
    let merged = λ (k : ℕ) (a : LocalBinAccumulator). merge_bin (get_or base k empty_bin) a.bin in
    record {
      local_size = length-set l.local_bins i _ ∙ h.local_size;
      direct_size = length-set direct i _ ∙ h.direct_size;
      touched = λ j u. elim (ℕ_discrete i j) [
        | yes e ↦
            subst (λ k. (count k (retouched l i) ≡ 1) × (k < length base)) e
              (retouched-same base direct l i h, below)
        | no d ↦
            let (one, inside) = h.touched j (ap is_used (sym (miss j d)) ∙ u) in
            (retouched-other l i j d ∙ one, inside)
      ];
      untouched = λ j u. elim (ℕ_discrete i j) [
        | yes e ↦
            let v = subst (λ k. (get_or locals k unused).used ≡ false) (sym e) u in
            absurd (ground (arith, ap is_used hit, v))
        | no d ↦
            let (zero', bin) = h.untouched j (ap is_used (sym (miss j d)) ∙ u) in
            (
              retouched-other l i j d ∙ zero',
              ap (λ (a : LocalBinAccumulator). a.bin) (miss j d) ∙ bin,
            )
      ];
      linked = λ j. elim (ℕ_discrete i j) [
        | yes e ↦
            subst
              (λ k.
                get_or (set direct i (raise_bin b s (get_or direct i empty_bin))) k empty_bin
                ≡ merged k (get_or locals k unused))
              e
              (get_or-set_self direct i _ empty_bin (omega (arith, h.direct_size))
                ∙ ap (raise_bin b s) (h.linked i)
                ∙ sym (raise-merge b s (get_or base i empty_bin) acc.bin)
                ∙ ap (merged i) (sym hit))
        | no d ↦
            get_or-set_ne direct i j _ empty_bin d ∙ h.linked j ∙ ap (merged j) (sym (miss j d))
      ];
    }

pub update-IsLinked :
    (b : Bool) (base direct : List SpectrumBin) (l : LocalBins) (s : SignalSample) (i : ℕ)
    → IsLinked base direct l
    → IsLinked base (update_bin b direct s i) (update_local_bin b l s i)
unfolding update_bin update_local_bin
update-IsLinked b base direct l s i h = elim (dec_lt i (length base)) [
  | yes below ↦
      rw
        (
          lt→ltb i (length direct) (omega (arith, h.direct_size)),
          lt→ltb i (length l.local_bins) (omega (arith, h.local_size)),
        )
        (inside-IsLinked b base direct l s i below h)
  | no above ↦
      rw
        (
          le→not-ltb i (length direct) (omega (arith, h.direct_size)),
          le→not-ltb i (length l.local_bins) (omega (arith, h.local_size)),
        )
        h
]

update_all-IsLinked :
    (b : Bool) (base direct : List SpectrumBin) (l : LocalBins) (xs : List (SignalSample × ℕ))
    → IsLinked base direct l
    → IsLinked base (update_bins b direct xs) (update_local_bins b l xs)
update_all-IsLinked b base direct l [] h = h
update_all-IsLinked b base direct l (x ∷ xs) h =
    update_all-IsLinked b base (update_bin b direct x.0 x.1) (update_local_bin b l x.0 x.1) xs
      (update-IsLinked b base direct l x.0 x.1 h)

-- Lists of one length with the same elements.
get_or-ext :
    (xs ys : List SpectrumBin)
    → length xs ≡ length ys
    → ((i : ℕ) → get_or xs i empty_bin ≡ get_or ys i empty_bin)
    → xs ≡ ys
get_or-ext [] [] l e = refl
get_or-ext [] (y ∷ ys) l e = absurd (omega (arith, l))
get_or-ext (x ∷ xs) [] l e = absurd (omega (arith, l))
get_or-ext (x ∷ xs) (y ∷ ys) l e =
    let tail = get_or-ext xs ys (omega (arith, l)) (λ i. e (suc i)) in
    ap (λ z. z ∷ xs) (e zero) ∙ ap (◌∷◌ y) tail

pub IsLinked-merge :
    (base direct : List SpectrumBin) (l : LocalBins)
    → ((i : ℕ) → (get_or base i empty_bin).hit_count ≤ max_u16)
    → IsLinked base direct l
    → merge_local_bins l base ≡ direct
unfolding merge_local_bins
IsLinked-merge base direct l fits h =
    get_or-ext _ direct (merge_all-length l.local_bins base l.touched_bins ∙ sym h.direct_size)
      (λ i. elim (Bool-cases (get_or l.local_bins i unused).used) [
        | inl yes' ↦
            let (one, inside) = h.touched i yes' in
            merge_all-same l.local_bins base l.touched_bins i one (omega (arith, h.local_size))
              inside yes'
            ∙ sym (h.linked i)
        | inr no' ↦
            let (none_yet, bin) = h.untouched i no' in
            merge_all-other l.local_bins base l.touched_bins i none_yet
            ∙ sym (merge-empty (get_or base i empty_bin) (fits i))
            ∙ ap (merge_bin (get_or base i empty_bin)) (sym bin)
            ∙ sym (h.linked i)
      ])

-- For any samples of a block with their bins, in range or not: accumulating them in clean buffers
-- of the window's size and merging these into the window gives the bins, peaks and hits, that
-- updating the window's bins sample by sample gives. The hits of the window's bins fit 16 bits.
pub merge_local_bins-update_local_bins :
    (separate_beams : Bool) (bins : List SpectrumBin) (xs : List (SignalSample × ℕ))
    → ((i : ℕ) → (get_or bins i empty_bin).hit_count ≤ max_u16)
    → merge_local_bins (update_local_bins separate_beams (clean (length bins)) xs) bins
      ≡ update_bins separate_beams bins xs
merge_local_bins-update_local_bins b bins xs fits =
    IsLinked-merge bins (update_bins b bins xs) (update_local_bins b (clean (length bins)) xs) fits
      (update_all-IsLinked b bins bins (clean (length bins)) xs (clean-IsLinked bins fits))
