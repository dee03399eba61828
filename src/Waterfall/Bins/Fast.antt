-- ===== src/Waterfall/Bins/Fast.antt =====
-- The bin of a frequency: the fast path by 64-bit products is exact, and bins follow frequencies.
use native.Mathlib.Nat.{
  div-eq_of_lt-le, mul-le-mul_right, div-le_of_le-mul, le-div_iff_mul-le, mod-eq_of_lt, zero-div,
  mul-zero,
}
use sirius_scope.Prelude.{
  ℕ, ◌+◌, ◌-◌, ◌*◌, ◌/◌, ◌^◌, ◌≤◌, ◌<◌, ◌≡◌, ◌↔◌, refl, sym, ◌∙◌, ap, Bool, true, false, ◌&&◌, ◌||◌,
  none, some, arith, ltb, leb, ◌==◌, Bool-cases, inl, inr, if-elim, dec_lt,
}
use sirius_scope.Prelude.Int.{ℤ, pos, pos_part, ◌-ℤ◌, ◌≤ℤ◌, leb_ℤ, ltb_ℤ}
use sirius_scope.Prelude.Division.{quotient-bounds}
use sirius_scope.Waterfall.Bins.{
  WaterfallAggregatorConfig, max_i64, bin_of_offset, bin_for_frequency,
}

bin_le : (offset range multiplier : ℕ) → offset ≤ range → offset * multiplier / range ≤ multiplier
bin_le offset range multiplier l =
    div-le_of_le-mul range (mul-le-mul_right {m = offset} {n = range} multiplier l)

bin_of_offset-exact :
    (offset range multiplier : ℕ)
    → offset ≤ range
    → 0 < range
    → bin_of_offset offset range multiplier ≡ offset * multiplier / range
unfolding bin_of_offset
bin_of_offset-exact offset range multiplier l r =
    let le = bin_le offset range multiplier l in
    elim (Bool-cases (ltb 0 range && ltb 0 multiplier && leb range (max_i64 / multiplier))) [
      | inl fast ↦
          let fits = le-div_iff_mul-le {k = multiplier} {x = range} {y = max_i64} (ground arith) in
          let small : offset * multiplier < 2 ^ 64 = omega (
            arith,
            fits.0 (ground arith),
            mul-le-mul_right {m = offset} {n = range} multiplier l,
          ) in
          rw (fast, mod-eq_of_lt small) (omega arith)
      | inr slow ↦ rw slow (ground arith)
    ]

-- The whole bins from the lower end of the source's range to the frequency, where one bin is the
-- range over the number of bins less one.
pub record Binned (c : WaterfallAggregatorConfig) (hz : ℤ) (bin : ℕ) : Type 0 where
  pub bins : 0 < pos_part c.render_bin_count
  pub not_below : c.source_min_hz ≤ℤ hz
  pub not_above : hz ≤ℤ c.source_max_hz
  pub proper : 0 < pos_part (c.source_max_hz -ℤ c.source_min_hz)
  pub low :
      bin * pos_part (c.source_max_hz -ℤ c.source_min_hz)
      ≤ pos_part (hz -ℤ c.source_min_hz) * (pos_part c.render_bin_count - 1)
  pub high :
      pos_part (hz -ℤ c.source_min_hz) * (pos_part c.render_bin_count - 1)
      < (bin + 1) * pos_part (c.source_max_hz -ℤ c.source_min_hz)

-- The guard of `binForFrequency`.
abbrev outside : WaterfallAggregatorConfig → ℤ → Bool
outside c hz =
    leb_ℤ c.render_bin_count (pos 0)
    || leb_ℤ c.source_max_hz c.source_min_hz
    || ltb_ℤ hz c.source_min_hz
    || ltb_ℤ c.source_max_hz hz

abbrev range_of : WaterfallAggregatorConfig → ℕ
range_of c = pos_part (c.source_max_hz -ℤ c.source_min_hz)

abbrev offset_of : WaterfallAggregatorConfig → ℤ → ℕ
offset_of c hz = pos_part (hz -ℤ c.source_min_hz)

record Inside (c : WaterfallAggregatorConfig) (hz : ℤ) : Type 0 where
  bins : 0 < pos_part c.render_bin_count
  not_below : c.source_min_hz ≤ℤ hz
  not_above : hz ≤ℤ c.source_max_hz
  proper : 0 < range_of c
  offset_le : offset_of c hz ≤ range_of c

outside-Inside : (c : WaterfallAggregatorConfig) (hz : ℤ) → outside c hz ≡ false → Inside c hz
unfolding ◌-ℤ◌
outside-Inside c hz e = record {
  bins = ground arith;
  not_below = ground arith;
  not_above = ground arith;
  proper = ground arith;
  offset_le = ground arith;
}

single : (o n r : ℕ) → (n == 1) ≡ true → o * (n - 1) / r ≡ 0
single o n r e =
    let none_less : n - 1 ≡ 0 = ground arith in rw (none_less, mul-zero o, zero-div r) refl

mul-lt_cancel : (a b r : ℕ) → a * r < b * r → a < b
mul-lt_cancel a b r h = elim (dec_lt a b) [
  | yes l ↦ l
  | no ge ↦ let le = mul-le-mul_right {m = b} {n = a} r (omega arith) in absurd (omega arith)
]

offset_of_le :
    (c : WaterfallAggregatorConfig) (hz hz' : ℤ)
    → hz ≤ℤ hz'
    → c.source_min_hz ≤ℤ hz
    → offset_of c hz ≤ offset_of c hz'
unfolding ◌-ℤ◌
offset_of_le c hz hz' l b = ground arith

bin-quotient :
    (c : WaterfallAggregatorConfig) (hz : ℤ)
    → outside c hz ≡ false
    → bin_for_frequency c hz
      ≡ some (offset_of c hz * (pos_part c.render_bin_count - 1) / range_of c)
unfolding bin_for_frequency
bin-quotient c hz e =
    let i = outside-Inside c hz e in
    rw
      (
        e,
        bin_of_offset-exact (offset_of c hz) (range_of c) (pos_part c.render_bin_count - 1)
            i.offset_le i.proper,
      )
      (if-elim (λ x. x ≡ some (offset_of c hz * (pos_part c.render_bin_count - 1) / range_of c))
        (pos_part c.render_bin_count == 1) (some 0) _
        (λ one.
          ap some (sym (single (offset_of c hz) (pos_part c.render_bin_count) (range_of c) one)))
        (λ _. refl))

bin-outside :
    (c : WaterfallAggregatorConfig) (hz : ℤ) → outside c hz ≡ true → bin_for_frequency c hz ≡ none
unfolding bin_for_frequency
bin-outside c hz e = rw e refl

Binned-inside :
    (c : WaterfallAggregatorConfig) (hz : ℤ) (bin : ℕ) → Binned c hz bin → outside c hz ≡ false
unfolding ◌-ℤ◌
Binned-inside c hz bin b =
    let bins = b.bins in
    let below = b.not_below in let above = b.not_above in let proper = b.proper in ground arith

-- `binForFrequency` gives a bin exactly when there are bins and the frequency lies in the range of
-- the source, which is not empty; and the bin is the number of whole bins from the lower end to the
-- frequency, where one bin is the range over the number of bins less one. So the path by 64-bit
-- products agrees with the one by 128-bit products.
pub bin_for_frequency_iff :
    (c : WaterfallAggregatorConfig) (hz : ℤ) (bin : ℕ)
    → (bin_for_frequency c hz ≡ some bin) ↔ Binned c hz bin
bin_for_frequency_iff c hz bin = (to, from)
  where
    to : bin_for_frequency c hz ≡ some bin → Binned c hz bin
    to e = elim (Bool-cases (outside c hz)) [
      | inl out ↦ absurd (ground (arith, bin-outside c hz out))
      | inr in' ↦
          let i = outside-Inside c hz in' in
          let q : offset_of c hz * (pos_part c.render_bin_count - 1) / range_of c ≡ bin =
            ground (arith, bin-quotient c hz in') in
          let (low, high) =
            quotient-bounds (offset_of c hz * (pos_part c.render_bin_count - 1)) (range_of c) bin
              i.proper q in
          record {
            bins = i.bins;
            not_below = i.not_below;
            not_above = i.not_above;
            proper = i.proper;
            low = low;
            high = high;
          }
    ]

    from : Binned c hz bin → bin_for_frequency c hz ≡ some bin
    from b =
        bin-quotient c hz (Binned-inside c hz bin b)
        ∙ ap some (div-eq_of_lt-le (range_of c) b.low b.high)

-- A bin is one of the row's, and a higher frequency has no lower bin.
pub bin_for_frequency-monotone :
    (c : WaterfallAggregatorConfig) (hz hz' : ℤ) (bin bin' : ℕ)
    → hz ≤ℤ hz'
    → bin_for_frequency c hz ≡ some bin
    → bin_for_frequency c hz' ≡ some bin'
    → (bin ≤ bin') × (bin' < pos_part c.render_bin_count)
bin_for_frequency-monotone c hz hz' bin bin' l e e' =
    let b = (bin_for_frequency_iff c hz bin).0 e in
    let b' = (bin_for_frequency_iff c hz' bin').0 e' in
    let i = outside-Inside c hz' (Binned-inside c hz' bin' b') in
    let m = pos_part c.render_bin_count - 1 in
    let up : offset_of c hz ≤ offset_of c hz' = offset_of_le c hz hz' l b.not_below in
    let up' = mul-le-mul_right {m = offset_of c hz} {n = offset_of c hz'} m up in
    let top = mul-le-mul_right {m = offset_of c hz'} {n = range_of c} m i.offset_le in
    let one = mul-lt_cancel bin (bin' + 1) (range_of c) (omega (arith, b.low, b'.high)) in
    let two = mul-lt_cancel bin' (m + 1) (range_of c) (omega (arith, b'.low, i.proper)) in
    (omega (arith, one), omega (arith, two, i.bins))
