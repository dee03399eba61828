-- ===== src/Wire/Data/RoundTrip.antt =====
-- A data packet that was encoded decodes to its header and its samples.
use sirius_scope.Prelude.{
  ℕ, ◌+◌, ◌^◌, ◌≤◌, ◌<◌, ◌≡◌, ◌≢◌, ◌∙◌, ap, subst, true, false, List, [], ◌∷◌, map, length, take,
  arith, All, ltb, not-ltb→le, le→not-ltb, ◌==◌,
}
use sirius_scope.Wire.{
  data_packet, bad_size, bad_header, ok, reject-eq-ok, >>=-eq-ok, PacketHeader, InWidth, Sample,
  header_bytes, sample_bytes, max_samples,
}
use sirius_scope.Wire.Bytes.{Buffer, puts, get}
use sirius_scope.Wire.Bytes.Fields.{Within, Within-below}
use sirius_scope.Wire.Header.{valid, header_fields, write_header, malformed, decode_header}
use sirius_scope.Wire.Header.RoundTrip.{header_fields-Within}
use sirius_scope.Wire.Header.Packet.{
  packet, packet_size, write_header-eq-ok, packet-decode_header, packet-records, packet-zero,
}
use sirius_scope.Wire.Data.{sample_at, write_samples, encode_data, read_samples, decode_data}
use sirius_scope.Wire.Data.Layout.{
  all_fields, Fit, write_samples-puts, all_fields-Within, all_fields-padding, Padded,
  without_frequency, read_samples-fields,
}

-- The header that `encodeData` writes.
abbrev pub data_header : PacketHeader → List Sample → PacketHeader
data_header h ss = record h { kind = data_packet; count = length ss }

-- What a successful call of `encodeData` has done.
pub record Encoded (h : PacketHeader) (ss : List Sample) (out packet' : Buffer) (n : ℕ)
    : Type 0 where
  pub few : length ss ≤ max_samples
  pub producer : h.producer ≢ 0
  pub valid_header : valid (data_header h ss) ≡ true
  pub fit : Fit h.first_sample_index ss
  pub room : packet_size (data_header h ss) sample_bytes ≤ length out
  pub size_lem : n ≡ packet_size (data_header h ss) sample_bytes
  pub bytes : packet' ≡ packet (data_header h ss) (all_fields 0 ss) out

pub encode_data-Encoded :
    (h : PacketHeader) (ss : List Sample) (out : Buffer) {r : Buffer × ℕ}
    → encode_data h ss out ≡ ok r
    → Encoded h ss out r.0 r.1
unfolding encode_data
encode_data-Encoded h ss out {r} e =
    let (few, e1) = reject-eq-ok (ltb max_samples (length ss)) bad_size _ e in
    let (prod, e2) = reject-eq-ok (h.producer == 0) bad_header _ e1 in
    let (w, written, e3) = >>=-eq-ok (write_header (data_header h ss) out sample_bytes) _ e2 in
    let (o, samples, e4) = >>=-eq-ok (write_samples w.0 0 h.first_sample_index ss) _ e3 in
    let header = write_header-eq-ok (data_header h ss) out sample_bytes written in
    let records = write_samples-puts w.0 0 h.first_sample_index ss samples in
    record {
      few = not-ltb→le max_samples (length ss) few;
      producer = ground arith;
      valid_header = header.1;
      fit = records.1;
      room = header.0;
      size_lem = ground arith;
      bytes =
          (let same : r.0 ≡ o = ground arith in same)
          ∙ records.0
          ∙ ap (λ b. puts b (all_fields 0 ss)) header.2;
    }

-- The last byte of each record is zero.
Padded-packet :
    (ss : List Sample) (input : Buffer) (i n : ℕ)
    → ((j : ℕ) → j < n → get input (sample_at j + 15) 1 ≡ 0)
    → i + length ss ≤ n
    → Padded input i ss
Padded-packet [] input i n zero_at le = tt
Padded-packet (s ∷ ss) input i n zero_at le =
    (zero_at i (omega arith), Padded-packet ss input (i + 1) n zero_at (omega arith))

module _ (h : PacketHeader) (ss : List Sample) (out : Buffer) (widths : InWidth h)
    (words : All (λ s. s.sample_index < 2 ^ 64) ss) {packet' : Buffer} {n : ℕ}
    (enc : Encoded h ss out packet' n) where
  open enc use {few, producer, valid_header, fit, room}

  abbrev h' : PacketHeader
  h' = data_header h ss

  abbrev bytes_sent : Buffer
  bytes_sent = take (packet_size h' sample_bytes) (packet h' (all_fields 0 ss) out)

  not_malformed : malformed h' sample_bytes (packet_size h' sample_bytes) ≡ false
  unfolding malformed
  not_malformed = ground arith

  header-InWidth : InWidth h'
  header-InWidth = omega arith

  records-Within : Within header_bytes (packet_size h' sample_bytes) (all_fields 0 ss)
  records-Within =
      subst (λ k. Within header_bytes k (all_fields 0 ss)) (omega arith)
        (all_fields-Within 0 h.first_sample_index ss fit words)

  decode_header-sent : decode_header bytes_sent ≡ ok h'
  decode_header-sent =
      packet-decode_header h' (all_fields 0 ss) out header-InWidth valid_header room records-Within
        not_malformed (omega arith)

  padding-sent : (j : ℕ) → j < length ss → get bytes_sent (sample_at j + 15) 1 ≡ 0
  padding-sent j lt =
      packet-zero h' (all_fields 0 ss) out header-InWidth valid_header room records-Within
        (sample_at j + 15) 1 (omega arith)
        (Within-below 0 header_bytes (header_fields h' sample_bytes) (sample_at j + 15) 1
          (header_fields-Within h' sample_bytes header-InWidth valid_header (omega arith))
          (omega arith))
        (all_fields-padding j 0 ss)

  read_samples-sent :
      read_samples bytes_sent 0 h.first_sample_index (length ss) ≡ ok (map without_frequency ss)
  read_samples-sent =
      read_samples-fields bytes_sent 0 h.first_sample_index ss fit
        (packet-records h' (all_fields 0 ss) out header-InWidth valid_header room records-Within)
        (Padded-packet ss bytes_sent 0 (length ss) padding-sent (omega arith))

  decode_data-sent :
      (capacity : ℕ)
      → length ss ≤ capacity
      → decode_data bytes_sent capacity ≡ ok (h', map without_frequency ss)
  unfolding decode_data
  decode_data-sent capacity le =
      rw (decode_header-sent, le→not-ltb capacity (length ss) le, read_samples-sent)

-- A packet that `encodeData` wrote, cut to the size that it returns, decodes to the same header
-- (with the kind and the count that `encodeData` sets) and the same samples in the same order, but
-- for the absolute frequency, which the packet does not carry. The header and the sample indices
-- are machine words and the output span has room for the samples.
pub decode_data-encode_data :
    (h : PacketHeader) (ss : List Sample) (out : Buffer) (capacity : ℕ) {r : Buffer × ℕ}
    → InWidth h
    → All (λ s. s.sample_index < 2 ^ 64) ss
    → length ss ≤ capacity
    → encode_data h ss out ≡ ok r
    → decode_data (take r.1 r.0) capacity ≡ ok (data_header h ss, map without_frequency ss)
decode_data-encode_data h ss out capacity {r} widths words le e =
    let enc = encode_data-Encoded h ss out e in
    rw (enc.bytes, enc.size_lem) (decode_data-sent h ss out widths words enc capacity le)
