-- ===== src/Wire/Header/RoundTrip.antt =====
-- What `decodeHeader` reads from the fields that `writeHeader` writes.
use sirius_scope.Prelude.{ℕ, ◌≡◌, ◌≤◌, ◌<◌, ◌^◌, true, false, refl, arith, length, le→not-ltb}
use sirius_scope.Wire.{
  ok, PacketHeader, to_u32, from_u32, header_bytes, max_datagram_bytes, InWidth, Kind, data_packet,
  subscribe, stop, code_of,
}
use sirius_scope.Wire.Bytes.{Buffer, get}
use sirius_scope.Wire.Bytes.Fields.{Holds, Within}
use sirius_scope.Wire.Header.{
  valid, header_fields, malformed, read_header, decode_header, record_bytes, kind_of,
}

from_u32-to_u32 :
    (h : PacketHeader)
    → valid h ≡ true
    → from_u32 (to_u32 h.azimuth_milli_deg) ≡ h.azimuth_milli_deg
unfolding from_u32 to_u32 valid
from_u32-to_u32 h v = ground arith

to_u32-lt : (h : PacketHeader) → valid h ≡ true → to_u32 h.azimuth_milli_deg < 2 ^ 32
unfolding to_u32 valid
to_u32-lt h v = ground arith

code_of-lt : (k : Kind) → code_of k < 256
code_of-lt data_packet = omega arith
code_of-lt subscribe = omega arith
code_of-lt stop = omega arith

kind_of-code_of : (k : Kind) → kind_of (code_of k) ≡ ok k
kind_of-code_of data_packet = refl
kind_of-code_of subscribe = refl
kind_of-code_of stop = refl

pub header_fields-Within :
    (h : PacketHeader) (size : ℕ)
    → InWidth h
    → valid h ≡ true
    → size < 2 ^ 16
    → Within 0 header_bytes (header_fields h size)
unfolding header_fields
header_fields-Within h size w v small = omega (arith, to_u32-lt h v, code_of-lt h.kind)

module _ (h : PacketHeader) (input : Buffer) (v : valid h ≡ true)
    (f : Holds input (header_fields h (record_bytes h.kind))) where
  read_header-fields : read_header input h.kind ≡ h
  unfolding header_fields read_header
  read_header-fields = ground (arith, from_u32-to_u32 h v)

  -- A buffer that holds the fields of a well-formed header decodes to that header.
  pub decode_header-fields :
      malformed h (record_bytes h.kind) (length input) ≡ false
      → header_bytes ≤ length input
      → length input ≤ max_datagram_bytes
      → get input 68 4 ≡ 0
      → get input 72 8 ≡ 0
      → decode_header input ≡ ok h
  unfolding header_fields decode_header
  decode_header-fields m lo hi r s =
      let size = f.1.1.1.1.1.1.1.1.1.1.1.1.1.0 in
      rw (
        le→not-ltb (length input) header_bytes lo,
        le→not-ltb max_datagram_bytes (length input) hi,
        f.0,
        f.1.0,
        f.1.1.1.0,
        r,
        s,
        f.1.1.0,
        kind_of-code_of h.kind,
        read_header-fields,
        size,
        m,
      )
