-- ===== src/Waterfall/Bins/Time.antt =====
-- The time of a row stays in 64 bits and follows the buckets.
use native.Mathlib.Decide.{dec_le}
use native.Mathlib.Nat.{mul-le-mul_right}
use sirius_scope.Prelude.{
  ℕ, ◌+◌, ◌-◌, ◌*◌, ◌≤◌, ◌<◌, ◌≡◌, ◌⊎◌, inl, inr, refl, arith, lt→ltb, le→not-ltb,
}
use sirius_scope.Prelude.Int.{pos, pos_part, ◌+ℤ◌, ◌≤ℤ◌}
use sirius_scope.Waterfall.Bins.{WaterfallAggregatorConfig, max_i64, utc_ns_for_bucket}

abbrev pub Fits : WaterfallAggregatorConfig → ℕ → Type 0
Fits c bucket =
    (pos_part c.recording_start_utc_ns + bucket * c.row_period_ns ≤ max_i64)
    × (utc_ns_for_bucket c bucket ≡ c.recording_start_utc_ns +ℤ pos (bucket * c.row_period_ns))

abbrev pub Stays : WaterfallAggregatorConfig → ℕ → ℕ → Type 0
Stays c bucket bucket' =
    (max_i64 < pos_part c.recording_start_utc_ns + bucket * c.row_period_ns)
    × (utc_ns_for_bucket c bucket ≡ pos max_i64)
    × (utc_ns_for_bucket c bucket' ≡ pos max_i64)

too_late :
    (c : WaterfallAggregatorConfig) (bucket : ℕ)
    → pos_part c.recording_start_utc_ns ≤ max_i64
    → max_i64 < pos_part c.recording_start_utc_ns + bucket * c.row_period_ns
    → utc_ns_for_bucket c bucket ≡ pos max_i64
unfolding utc_ns_for_bucket
too_late c bucket s h =
    rw
      (lt→ltb (max_i64 - pos_part c.recording_start_utc_ns) (bucket * c.row_period_ns)
        (omega (arith, s, h)))
      refl

in_time :
    (c : WaterfallAggregatorConfig) (bucket : ℕ)
    → pos_part c.recording_start_utc_ns + bucket * c.row_period_ns ≤ max_i64
    → utc_ns_for_bucket c bucket ≡ c.recording_start_utc_ns +ℤ pos (bucket * c.row_period_ns)
unfolding utc_ns_for_bucket
in_time c bucket h =
    rw
      (le→not-ltb (max_i64 - pos_part c.recording_start_utc_ns) (bucket * c.row_period_ns)
        (omega (arith, h)))
      refl

decide_fit :
    (c : WaterfallAggregatorConfig) (bucket bucket' : ℕ)
    → pos_part c.recording_start_utc_ns ≤ max_i64
    → bucket * c.row_period_ns ≤ bucket' * c.row_period_ns
    → Fits c bucket ⊎ Stays c bucket bucket'
decide_fit c bucket bucket' s m =
    elim (dec_le (pos_part c.recording_start_utc_ns + bucket * c.row_period_ns) max_i64) [
      | yes h ↦ inl (h, in_time c bucket h)
      | no h ↦
          inr (
            omega arith,
            too_late c bucket s (omega arith),
            too_late c bucket' s (omega (arith, m)),
          )
    ]

-- The time of a row follows the buckets and stays in 64 bits: a later bucket has no earlier time,
-- and none passes the largest 64-bit integer. Either the offset of the row fits a 64-bit integer
-- when it is added to the start of the recording (to 0 where the start is negative), and the time
-- is the start and the offset; or it does not fit, and then this bucket and all later ones have the
-- largest 64-bit integer as their time. The start of the recording is a 64-bit integer.
pub utc_ns_for_bucket-saturates :
    (c : WaterfallAggregatorConfig) (bucket bucket' : ℕ)
    → pos_part c.recording_start_utc_ns ≤ max_i64
    → bucket ≤ bucket'
    → (utc_ns_for_bucket c bucket ≤ℤ utc_ns_for_bucket c bucket')
      × (utc_ns_for_bucket c bucket' ≤ℤ pos max_i64)
      × (Fits c bucket ⊎ Stays c bucket bucket')
unfolding utc_ns_for_bucket ◌+ℤ◌
utc_ns_for_bucket-saturates c bucket bucket' s l =
    let m = mul-le-mul_right {m = bucket} {n = bucket'} c.row_period_ns l in
    (ground arith, ground arith, decide_fit c bucket bucket' s m)
