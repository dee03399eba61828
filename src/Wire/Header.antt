-- ===== src/Wire/Header.antt =====
-- The packet header: `valid`, `writeHeader`, `decodeHeader` and `encodeStop` of
-- modules/bco-generator/src/protocol.cpp.
pub mod RoundTrip
pub mod Packet
use sirius_scope.Prelude.{
  ℕ, ◌+◌, ◌-◌, ◌*◌, ◌^◌, Bool, true, false, not, ◌&&◌, ◌||◌, List, [], ◌∷◌, ◌++◌, length, replicate,
  drop, ltb, leb, ◌==◌, if◌then◌else◌,
}
use sirius_scope.Prelude.Int.{ℤ, pos, negsuc, pos_part, neg_part, ltb_ℤ, leb_ℤ}
use sirius_scope.Wire.{
  Kind, data_packet, subscribe, stop, code_of, bad_size, bad_magic, bad_version, bad_header,
  no_capacity, Result, ok, err, ◌>>=◌, ◌>>◌, reject, PacketHeader, to_u32, from_u32, header_bytes,
  max_datagram_bytes, sample_bytes, band_bytes, max_samples, max_bands,
}
use sirius_scope.Wire.Bytes.{Buffer, get, Field, puts}

unfoldable pub valid : PacketHeader → Bool
valid h =
    not (h.stream == 0)
    && ltb 0 h.sample_period_ns
    && not (h.revision == 0)
    && leb h.start_utc_ns (2 ^ 63 - 1)
    && leb_ℤ (negsuc 0) h.azimuth_milli_deg
    && ltb_ℤ h.azimuth_milli_deg (pos 360_000)
    && not (h.sequence == 2 ^ 64 - 1)

-- A short way to write one call of `put`.
abbrev pub field : ℕ → ℕ → ℕ → Field
field at value width = record { at = at; value = value; width = width }

-- The `put` calls of `writeHeader`, in their order.
unfoldable pub header_fields : PacketHeader → ℕ → List Field
header_fields h record_size =
    field 0 0x5342434f 4
    ∷ field 4 1 1
    ∷ field 5 (code_of h.kind) 1
    ∷ field 6 header_bytes 2
    ∷ field 8 h.stream 8
    ∷ field 16 h.sequence 8
    ∷ field 24 h.producer 8
    ∷ field 32 h.first_sample_index 8
    ∷ field 40 h.sample_period_ns 8
    ∷ field 48 h.start_utc_ns 8
    ∷ field 56 h.revision 4
    ∷ field 60 (to_u32 h.azimuth_milli_deg) 4
    ∷ field 64 h.count 2
    ∷ field 66 record_size 2
    ∷ []

-- `std::fill(out.begin(), out.begin() + size, std::byte{0})`
unfoldable pub clear_first : ℕ → Buffer → Buffer
clear_first size out = replicate size 0 ++ drop size out

-- The buffer and the number of bytes of the packet.
unfoldable pub write_header : PacketHeader → Buffer → ℕ → Result (Buffer × ℕ)
write_header h out record_size = do
  let size : ℕ = header_bytes + h.count * record_size
  reject (ltb (length out) size) no_capacity
  reject (not (valid h)) bad_header
  ok (puts (clear_first size out) (header_fields h record_size), size)

unfoldable pub encode_stop : PacketHeader → Buffer → Result (Buffer × ℕ)
encode_stop h out = write_header (record h { kind = stop; count = 0; producer = 0 }) out 0

-- `static_cast<Kind>(kind)`, for the codes that `decodeHeader` lets through.
abbrev pub kind_of : ℕ → Result Kind
kind_of code =
    if code == 1
    then ok data_packet
    else if code == 2
    then ok subscribe
    else if code == 3
    then ok stop
    else err bad_header

-- The size of a record, and the largest number of records, by the kind of packet.
abbrev pub record_bytes : Kind → ℕ
record_bytes data_packet = sample_bytes
record_bytes subscribe = band_bytes
record_bytes stop = 0

abbrev pub max_records : Kind → ℕ
max_records data_packet = max_samples
max_records subscribe = max_bands
max_records stop = 0

abbrev pub is_data : Kind → Bool
is_data data_packet = true
is_data subscribe = false
is_data stop = false

abbrev pub is_subscribe : Kind → Bool
is_subscribe data_packet = false
is_subscribe subscribe = true
is_subscribe stop = false

-- The last condition of `decodeHeader`; `record_size` is the field read at 66.
unfoldable pub malformed : PacketHeader → ℕ → ℕ → Bool
malformed h record_size packet_size =
    not (valid h)
    || ltb (max_records h.kind) h.count
    || (is_subscribe h.kind && h.count == 0)
    || not (record_size == record_bytes h.kind)
    || not (packet_size == header_bytes + record_bytes h.kind * h.count)
    || (is_data h.kind && h.producer == 0)
    || (not (is_data h.kind) && not (h.producer == 0))

-- The fields of a header of the given kind.
unfoldable pub read_header : Buffer → Kind → PacketHeader
read_header input kind = record {
  kind = kind;
  stream = get input 8 8;
  sequence = get input 16 8;
  producer = get input 24 8;
  first_sample_index = get input 32 8;
  sample_period_ns = get input 40 8;
  start_utc_ns = get input 48 8;
  revision = get input 56 4;
  azimuth_milli_deg = from_u32 (get input 60 4);
  count = get input 64 2;
}

unfoldable pub decode_header : Buffer → Result PacketHeader
decode_header input = do
  reject (ltb (length input) header_bytes || ltb max_datagram_bytes (length input)) bad_size
  reject (not (get input 0 4 == 0x5342434f)) bad_magic
  reject (not (get input 4 1 == 1)) bad_version
  reject
      (not (get input 6 2 == header_bytes)
        || not (get input 68 4 == 0)
        || not (get input 72 8 == 0))
      bad_header
  kind ← kind_of (get input 5 1)
  let h = read_header input kind
  reject (malformed h (get input 66 2) (length input)) bad_header
  ok h
