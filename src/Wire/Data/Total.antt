-- ===== src/Wire/Data/Total.antt =====
-- When `encodeData` of modules/bco-generator/src/protocol.cpp succeeds, and what its packet is.
use sirius_scope.Prelude.{
  le→not-ltb, ne→not-==, ℕ, ◌+◌, ◌*◌, ◌^◌, ◌-◌, ◌≤◌, ◌<◌, ◌≡◌, ◌≢◌, refl, true, List, [], ◌∷◌,
  length, All,
}
use sirius_scope.Prelude.Int.{pos, negsuc, ◌≤ℤ◌}
use sirius_scope.Wire.{PacketHeader, Sample, ok, header_bytes, sample_bytes, max_samples}
use sirius_scope.Wire.Bytes.{Buffer, puts}
use sirius_scope.Wire.Bytes.Laws.{puts-append}
use sirius_scope.Wire.Header.{valid, write_header}
use sirius_scope.Wire.Header.Packet.{packet, packet_size}
use sirius_scope.Wire.Data.{sample_at, sample_fields, write_samples, encode_data}
use sirius_scope.Wire.Data.Layout.{Fit, all_fields}
use sirius_scope.Wire.Data.RoundTrip.{data_header}
use sirius_scope.Wire.Data.Accepted.{InRange, InOrder}

-- The header fields that `valid` tests.
pub record IsValidHeader (h : PacketHeader) : Type 0 where
  pub stream : h.stream ≢ 0
  pub sample_period : 0 < h.sample_period_ns
  pub revision : h.revision ≢ 0
  pub start : h.start_utc_ns ≤ 2 ^ 63 - 1
  pub azimuth_lo : negsuc 0 ≤ℤ h.azimuth_milli_deg
  pub azimuth_hi : h.azimuth_milli_deg ≤ℤ pos 359_999
  pub sequence : h.sequence ≢ 2 ^ 64 - 1

-- A packet can be made of these.
pub record IsEncodable (h : PacketHeader) (ss : List Sample) (out : Buffer) : Type 0 where
  pub few : length ss ≤ max_samples
  pub producer : h.producer ≢ 0
  pub header : IsValidHeader h
  pub room : header_bytes + length ss * sample_bytes ≤ length out
  pub in_order : InOrder h.first_sample_index ss
  pub in_range : All InRange ss

write_samples-Fit :
    (out : Buffer) (i previous : ℕ) (ss : List Sample)
    → Fit previous ss
    → write_samples out i previous ss ≡ ok (puts out (all_fields i ss))
unfolding write_samples puts
write_samples-Fit out i previous [] f = refl
write_samples-Fit out i previous (s ∷ ss) f =
    rw (f.0, puts-append out (sample_fields (sample_at i) s) (all_fields (i + 1) ss))
      (write_samples-Fit (puts out (sample_fields (sample_at i) s)) (i + 1) s.sample_index ss f.1)

pub encode_data-total :
    (h : PacketHeader) (ss : List Sample) (out : Buffer)
    → length ss ≤ max_samples
    → h.producer ≢ 0
    → valid (data_header h ss) ≡ true
    → packet_size (data_header h ss) sample_bytes ≤ length out
    → Fit h.first_sample_index ss
    → encode_data h ss out
      ≡ ok (
        packet (data_header h ss) (all_fields 0 ss) out,
        packet_size (data_header h ss) sample_bytes,
      )
unfolding encode_data write_header
encode_data-total h ss out few prod v room fit = rw (
  le→not-ltb max_samples (length ss) few,
  ne→not-== h.producer 0 prod,
  le→not-ltb (length out) (packet_size (data_header h ss) sample_bytes) room,
  v,
  write_samples-Fit _ 0 h.first_sample_index ss fit,
)
