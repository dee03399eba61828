-- ===== src/Wire/Subscribe/Layout.antt =====
-- Where the bands of a subscription packet stand in the buffer.
use sirius_scope.Prelude.{
  ℕ, ◌+◌, ◌^◌, ◌<◌, ◌≡◌, ◌∙◌, refl, sym, subst, ◌⊎◌, Bool, false, not, ◌||◌, List, [], ◌∷◌, ◌++◌,
  length, arith, All,
}
use sirius_scope.Wire.{ok, bad_record, reject-eq-ok, BandSettings}
use sirius_scope.Wire.Bytes.{Buffer, get, Field, puts}
use sirius_scope.Wire.Bytes.Laws.{Apart, puts-append}
use sirius_scope.Wire.Bytes.Fields.{Within, Within-append, Holds, Holds-append}
use sirius_scope.Wire.Subscribe.{
  band_at, band_fields, valid_band, already_seen, mark_seen, write_bands, read_band, refused_band,
  read_bands,
}

abbrev pub unfit_band : ℕ → BandSettings → Bool
unfit_band seen b = not (valid_band b) || already_seen seen b.band

-- Every band passes the test of `encodeSubscription`.
abbrev pub FitBands : ℕ → List BandSettings → Type 0
FitBands seen [] = Unit
FitBands seen (b ∷ bs) = (unfit_band seen b ≡ false) × FitBands (mark_seen seen b.band) bs

-- All fields that the loop of `encodeSubscription` writes from band `i` on.
abbrev pub all_band_fields : ℕ → List BandSettings → List Field
all_band_fields i [] = []
all_band_fields i (b ∷ bs) = band_fields (band_at i) b ++ all_band_fields (i + 1) bs

-- The values that the machine types of the settings can hold.
pub record BandInWidth (b : BandSettings) : Type 0 where
  pub period_width : b.pulse_period_ns < 2 ^ 64
  pub pulse_width : b.pulse_width_ns < 2 ^ 64

pub write_bands-puts :
    (out : Buffer) (i seen : ℕ) (bs : List BandSettings) {out' : Buffer}
    → write_bands out i seen bs ≡ ok out'
    → (out' ≡ puts out (all_band_fields i bs)) × FitBands seen bs
unfolding write_bands puts
write_bands-puts out i seen [] e = ground arith
write_bands-puts out i seen (b ∷ bs) e =
    let out2 = puts out (band_fields (band_at i) b) in
    let (good, step) =
      reject-eq-ok (unfit_band seen b) bad_record
        (write_bands out2 (i + 1) (mark_seen seen b.band) bs) e in
    let rest = write_bands-puts out2 (i + 1) (mark_seen seen b.band) bs step in
    (
      rest.0 ∙ sym (puts-append out (band_fields (band_at i) b) (all_band_fields (i + 1) bs)),
      (good, rest.1),
    )

band_fields-Within :
    (i seen : ℕ) (b : BandSettings)
    → unfit_band seen b ≡ false
    → BandInWidth b
    → Within (band_at i) (band_at (i + 1)) (band_fields (band_at i) b)
unfolding band_fields valid_band
band_fields-Within i seen b f w = ground arith

pub all_band_fields-Within :
    (i seen : ℕ) (bs : List BandSettings)
    → FitBands seen bs
    → All BandInWidth bs
    → Within (band_at i) (band_at (i + length bs)) (all_band_fields i bs)
all_band_fields-Within i seen [] f w = omega arith
all_band_fields-Within i seen (b ∷ bs) f w =
    Within-append (band_at i) (band_at (i + 1)) (band_at (i + length (b ∷ bs)))
      (band_fields (band_at i) b) (all_band_fields (i + 1) bs) (band_fields-Within i seen b f.0 w.0)
      (subst (λ k. Within (band_at (i + 1)) (band_at k) (all_band_fields (i + 1) bs)) (omega arith)
        (all_band_fields-Within (i + 1) (mark_seen seen b.band) bs f.1 w.1))

-- The reserved bytes 3 and 32 to 39 of a record.
abbrev Gap : ℕ → ℕ → Type 0
Gap offset width = ((offset ≡ 3) × (width ≡ 1)) ⊎ ((offset ≡ 32) × (width ≡ 8))

-- No field of a band covers a reserved byte.
pub all_band_fields-Gap :
    (j i offset width : ℕ) (bs : List BandSettings)
    → Gap offset width
    → All (Apart (band_at j + offset) width) (all_band_fields i bs)
unfolding band_fields
all_band_fields-Gap j i offset width [] g = tt
all_band_fields-Gap j i offset width (b ∷ bs) g =
    let rest = all_band_fields-Gap j (i + 1) offset width bs g in
    (
      ground arith,
      (
        ground arith,
        (ground arith, (ground arith, (ground arith, (ground arith, (ground arith, rest))))),
      ),
    )

-- The reserved bytes of every record are zero.
abbrev pub PaddedBands : Buffer → ℕ → List BandSettings → Type 0
PaddedBands input i [] = Unit
PaddedBands input i (b ∷ bs) =
    (get input (band_at i + 3) 1 ≡ 0)
    × (get input (band_at i + 32) 8 ≡ 0)
    × PaddedBands input (i + 1) bs

read_band-fields :
    (input : Buffer) (i : ℕ) (b : BandSettings)
    → Holds input (band_fields (band_at i) b)
    → read_band input (band_at i) ≡ b
unfolding band_fields read_band
read_band-fields input i b h = ground arith

refused_band-fields :
    (input : Buffer) (i seen : ℕ) (b : BandSettings)
    → unfit_band seen b ≡ false
    → Holds input (band_fields (band_at i) b)
    → get input (band_at i + 3) 1 ≡ 0
    → get input (band_at i + 32) 8 ≡ 0
    → refused_band input (band_at i) seen b ≡ false
unfolding band_fields refused_band
refused_band-fields input i seen b f h p q = ground arith

-- The loop of `decodeSubscription` reads the bands back.
pub read_bands-fields :
    (input : Buffer) (i seen : ℕ) (bs : List BandSettings)
    → FitBands seen bs
    → Holds input (all_band_fields i bs)
    → PaddedBands input i bs
    → read_bands input i seen (length bs) ≡ ok bs
unfolding read_bands
read_bands-fields input i seen [] f h p = refl
read_bands-fields input i seen (b ∷ bs) f h p =
    let (mine, others) =
      Holds-append input (band_fields (band_at i) b) (all_band_fields (i + 1) bs) h in
    rw (
      read_band-fields input i b mine,
      refused_band-fields input i seen b f.0 mine p.0 p.1,
      read_bands-fields input (i + 1) (mark_seen seen b.band) bs f.1 others p.2,
    )
