-- ===== src/Wire/Data/Layout.antt =====
-- Where the samples of a data packet stand in the buffer.
use native.Mathlib.Decide.{dec_le}
use sirius_scope.Prelude.{
  ℕ, ◌+◌, ◌^◌, ◌<◌, ◌≡◌, ◌∙◌, refl, sym, subst, inl, inr, false, List, [], ◌∷◌, ◌++◌, map, length,
  arith, All,
}
use sirius_scope.Prelude.Int.{pos}
use sirius_scope.Wire.{ok, bad_record, reject-eq-ok, Sample, to_u32, to_u64, from_u32}
use sirius_scope.Wire.Bytes.{Buffer, get, Field, puts}
use sirius_scope.Wire.Bytes.Laws.{Apart, puts-append}
use sirius_scope.Wire.Bytes.Fields.{Within, Within-append, Holds, Holds-append}
use sirius_scope.Wire.Data.{
  sample_at, sample_fields, unfit, refused, write_samples, read_sample, read_samples,
}

-- All fields that the loop of `encodeData` writes from sample `i` on.
abbrev pub all_fields : ℕ → List Sample → List Field
all_fields i [] = []
all_fields i (s ∷ ss) = sample_fields (sample_at i) s ++ all_fields (i + 1) ss

-- Every sample passes the test of `encodeData`.
abbrev pub Fit : ℕ → List Sample → Type 0
Fit previous [] = Unit
Fit previous (s ∷ ss) = (unfit previous s ≡ false) × Fit s.sample_index ss

-- A loop that does not fail has written these fields, and its samples passed the test.
pub write_samples-puts :
    (out : Buffer) (i previous : ℕ) (ss : List Sample) {out' : Buffer}
    → write_samples out i previous ss ≡ ok out'
    → (out' ≡ puts out (all_fields i ss)) × Fit previous ss
unfolding write_samples puts
write_samples-puts out i previous [] e = ground arith
write_samples-puts out i previous (s ∷ ss) e =
    let out2 = puts out (sample_fields (sample_at i) s) in
    let (good, step) =
      reject-eq-ok (unfit previous s) bad_record (write_samples out2 (i + 1) s.sample_index ss) e in
    let rest = write_samples-puts out2 (i + 1) s.sample_index ss step in
    (
      rest.0 ∙ sym (puts-append out (sample_fields (sample_at i) s) (all_fields (i + 1) ss)),
      (good, rest.1),
    )

sample_fields-Within :
    (i previous : ℕ) (s : Sample)
    → unfit previous s ≡ false
    → s.sample_index < 2 ^ 64
    → Within (sample_at i) (sample_at (i + 1)) (sample_fields (sample_at i) s)
unfolding sample_fields unfit to_u32 to_u64
sample_fields-Within i previous s f w = ground arith

pub all_fields-Within :
    (i previous : ℕ) (ss : List Sample)
    → Fit previous ss
    → All (λ s. s.sample_index < 2 ^ 64) ss
    → Within (sample_at i) (sample_at (i + length ss)) (all_fields i ss)
all_fields-Within i previous [] f w = omega arith
all_fields-Within i previous (s ∷ ss) f w =
    Within-append (sample_at i) (sample_at (i + 1)) (sample_at (i + length (s ∷ ss)))
      (sample_fields (sample_at i) s) (all_fields (i + 1) ss)
      (sample_fields-Within i previous s f.0 w.0)
      (subst (λ k. Within (sample_at (i + 1)) (sample_at k) (all_fields (i + 1) ss)) (omega arith)
        (all_fields-Within (i + 1) s.sample_index ss f.1 w.1))

-- No field of a sample covers the last byte of a record.
pub all_fields-padding :
    (j i : ℕ) (ss : List Sample) → All (Apart (sample_at j + 15) 1) (all_fields i ss)
unfolding sample_fields
all_fields-padding j i [] = tt
all_fields-padding j i (s ∷ ss) = elim (dec_le i j) [
  | yes h ↦ (
    inr (omega arith),
    (
      inr (omega arith),
      (
        inr (omega arith),
        (inr (omega arith), (inr (omega arith), all_fields-padding j (i + 1) ss)),
      ),
    ),
  )
  | no h ↦ (
    inl (omega arith),
    (
      inl (omega arith),
      (
        inl (omega arith),
        (inl (omega arith), (inl (omega arith), all_fields-padding j (i + 1) ss)),
      ),
    ),
  )
]

-- Every record has a zero last byte.
abbrev pub Padded : Buffer → ℕ → List Sample → Type 0
Padded input i [] = Unit
Padded input i (s ∷ ss) = (get input (sample_at i + 15) 1 ≡ 0) × Padded input (i + 1) ss

-- What the decoder gives for a sample: the absolute frequency is not in the packet.
abbrev pub without_frequency : Sample → Sample
without_frequency s = record s { absolute_frequency_hz = pos 0 }

read_sample-fields :
    (input : Buffer) (i previous : ℕ) (s : Sample)
    → unfit previous s ≡ false
    → Holds input (sample_fields (sample_at i) s)
    → read_sample input (sample_at i) ≡ without_frequency s
unfolding sample_fields read_sample unfit from_u32 to_u32 to_u64
read_sample-fields input i previous s f h = ground arith

refused-unfit :
    (previous : ℕ) (s : Sample)
    → unfit previous s ≡ false
    → refused previous (without_frequency s) 0 ≡ false
unfolding refused unfit
refused-unfit previous s f = ground arith

-- The loop of `decodeData` reads the samples back that the loop of `encodeData` wrote.
pub read_samples-fields :
    (input : Buffer) (i previous : ℕ) (ss : List Sample)
    → Fit previous ss
    → Holds input (all_fields i ss)
    → Padded input i ss
    → read_samples input i previous (length ss) ≡ ok (map without_frequency ss)
unfolding read_samples
read_samples-fields input i previous [] f h p = refl
read_samples-fields input i previous (s ∷ ss) f h p =
    let (mine, others) =
      Holds-append input (sample_fields (sample_at i) s) (all_fields (i + 1) ss) h in
    rw (
      read_sample-fields input i previous s f.0 mine,
      p.0,
      refused-unfit previous s f.0,
      read_samples-fields input (i + 1) s.sample_index ss f.1 others p.1,
    )
