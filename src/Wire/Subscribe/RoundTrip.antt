-- ===== src/Wire/Subscribe/RoundTrip.antt =====
-- A subscription that was encoded decodes to its header and its bands; so does a stop packet.
use sirius_scope.Prelude.{
  ℕ, ◌+◌, ◌≤◌, ◌<◌, ◌≡◌, ◌≢◌, ◌∙◌, refl, ap, subst, inl, inr, true, false, List, [], ◌∷◌, length,
  take, arith, All, ltb, ◌==◌, ◌||◌, length-take,
}
use sirius_scope.Wire.{
  subscribe, stop, bad_size, ok, reject-eq-ok, >>=-eq-ok, PacketHeader, InWidth, Subscription,
  BandSettings, header_bytes, band_bytes, max_bands,
}
use sirius_scope.Wire.Bytes.{Buffer, puts, get}
use sirius_scope.Wire.Bytes.Laws.{Apart}
use sirius_scope.Wire.Bytes.Fields.{Within, Within-below}
use sirius_scope.Wire.Header.{
  valid, header_fields, write_header, malformed, decode_header, encode_stop,
}
use sirius_scope.Wire.Header.RoundTrip.{header_fields-Within}
use sirius_scope.Wire.Header.Packet.{
  packet, packet_size, write_header-eq-ok, packet-decode_header, packet-records, packet-zero,
}
use sirius_scope.Wire.Subscribe.{
  band_at, write_bands, encode_subscription, read_bands, decode_subscription,
}
use sirius_scope.Wire.Subscribe.Layout.{
  all_band_fields, BandInWidth, FitBands, write_bands-puts, all_band_fields-Within,
  all_band_fields-Gap, PaddedBands, read_bands-fields,
}

-- The header that `encodeSubscription` writes, and the bands of its loop.
abbrev pub subscribe_header : PacketHeader → PacketHeader
subscribe_header h = record h { kind = subscribe; producer = 0 }

abbrev pub sent_bands : Subscription → List BandSettings
sent_bands r = take r.header.count r.bands

-- What a successful call of `encodeSubscription` has done.
record Encoded (r : Subscription) (out packet' : Buffer) (n : ℕ) : Type 0 where
  some_bands : r.header.count ≢ 0
  few : r.header.count ≤ max_bands
  valid_header : valid (subscribe_header r.header) ≡ true
  fit : FitBands 0 (sent_bands r)
  room : packet_size (subscribe_header r.header) band_bytes ≤ length out
  size_lem : n ≡ packet_size (subscribe_header r.header) band_bytes
  bytes : packet' ≡ packet (subscribe_header r.header) (all_band_fields 0 (sent_bands r)) out

encode_subscription-Encoded :
    (r : Subscription) (out : Buffer) {p : Buffer × ℕ}
    → encode_subscription r out ≡ ok p
    → Encoded r out p.0 p.1
unfolding encode_subscription
encode_subscription-Encoded r out {p} e =
    let h = subscribe_header r.header in
    let (count, e1) =
      reject-eq-ok (r.header.count == 0 || ltb max_bands r.header.count) bad_size _ e in
    let (w, written, e2) = >>=-eq-ok (write_header h out band_bytes) _ e1 in
    let (o, bands, e3) = >>=-eq-ok (write_bands w.0 0 0 (sent_bands r)) _ e2 in
    let header = write_header-eq-ok h out band_bytes written in
    let records = write_bands-puts w.0 0 0 (sent_bands r) bands in
    record {
      some_bands = ground arith;
      few = ground arith;
      valid_header = header.1;
      fit = records.1;
      room = header.0;
      size_lem = ground arith;
      bytes =
          (let same : p.0 ≡ o = ground arith in same)
          ∙ records.0
          ∙ ap (λ b. puts b (all_band_fields 0 (sent_bands r))) header.2;
    }

PaddedBands-packet :
    (bs : List BandSettings) (input : Buffer) (i n : ℕ)
    → ((j : ℕ) → j < n → (get input (band_at j + 3) 1 ≡ 0) × (get input (band_at j + 32) 8 ≡ 0))
    → i + length bs ≤ n
    → PaddedBands input i bs
PaddedBands-packet [] input i n zero_at le = tt
PaddedBands-packet (b ∷ bs) input i n zero_at le =
    let here = zero_at i (omega arith) in
    (here.0, here.1, PaddedBands-packet bs input (i + 1) n zero_at (omega arith))

module _ (r : Subscription) (out : Buffer) (widths : InWidth r.header)
    (array : length r.bands ≡ max_bands) (words : All BandInWidth (sent_bands r)) {packet' : Buffer}
    {n : ℕ} (enc : Encoded r out packet' n) where
  open enc use {some_bands, few, valid_header, fit, room}

  abbrev h' : PacketHeader
  h' = subscribe_header r.header

  abbrev bs : List BandSettings
  bs = sent_bands r

  abbrev bytes_sent : Buffer
  bytes_sent = take (packet_size h' band_bytes) (packet h' (all_band_fields 0 bs) out)

  not_malformed : malformed h' band_bytes (packet_size h' band_bytes) ≡ false
  unfolding malformed
  not_malformed = ground arith

  length-sent : length bs ≡ r.header.count
  length-sent = omega (arith, length-take r.header.count r.bands)

  header-InWidth : InWidth h'
  header-InWidth = omega arith

  records-Within : Within header_bytes (packet_size h' band_bytes) (all_band_fields 0 bs)
  records-Within =
      subst (λ k. Within header_bytes k (all_band_fields 0 bs)) (omega (arith, length-sent))
        (all_band_fields-Within 0 0 bs fit words)

  decode_header-sent : decode_header bytes_sent ≡ ok h'
  decode_header-sent =
      packet-decode_header h' (all_band_fields 0 bs) out header-InWidth valid_header room
        records-Within not_malformed (omega arith)

  module _ (j : ℕ) (lt : j < r.header.count) where
    header-Apart :
        (offset width : ℕ) → All (Apart (band_at j + offset) width) (header_fields h' band_bytes)
    header-Apart offset width =
        Within-below 0 header_bytes (header_fields h' band_bytes) (band_at j + offset) width
          (header_fields-Within h' band_bytes header-InWidth valid_header (omega arith))
          (omega arith)

    gap-sent : (get bytes_sent (band_at j + 3) 1 ≡ 0) × (get bytes_sent (band_at j + 32) 8 ≡ 0)
    gap-sent = (
      packet-zero h' (all_band_fields 0 bs) out header-InWidth valid_header room records-Within
          (band_at j + 3) 1 (omega arith) (header-Apart 3 1)
          (all_band_fields-Gap j 0 3 1 bs (inl (refl, refl))),
      packet-zero h' (all_band_fields 0 bs) out header-InWidth valid_header room records-Within
          (band_at j + 32) 8 (omega arith) (header-Apart 32 8)
          (all_band_fields-Gap j 0 32 8 bs (inr (refl, refl))),
    )

  read_bands-sent : read_bands bytes_sent 0 0 r.header.count ≡ ok bs
  read_bands-sent =
      subst (λ k. read_bands bytes_sent 0 0 k ≡ ok bs) length-sent
        (read_bands-fields bytes_sent 0 0 bs fit
          (packet-records h' (all_band_fields 0 bs) out header-InWidth valid_header room
            records-Within)
          (PaddedBands-packet bs bytes_sent 0 r.header.count gap-sent (omega (arith, length-sent))))

  decode_subscription-sent :
      decode_subscription bytes_sent ≡ ok (record { header = h'; bands = bs })
  unfolding decode_subscription
  decode_subscription-sent = rw (decode_header-sent, read_bands-sent)

-- A subscription packet that `encodeSubscription` wrote, cut to the size that it returns, decodes
-- to the same header (with the kind set and the producer 0) and the same first `count` bands in
-- order. The fields are machine words and the array of bands has its eight places.
pub decode_subscription-encode_subscription :
    (r : Subscription) (out : Buffer) {p : Buffer × ℕ}
    → InWidth r.header
    → length r.bands ≡ max_bands
    → All BandInWidth (sent_bands r)
    → encode_subscription r out ≡ ok p
    → decode_subscription (take p.1 p.0)
      ≡ ok (record { header = subscribe_header r.header; bands = sent_bands r })
decode_subscription-encode_subscription r out {p} widths array words e =
    let enc = encode_subscription-Encoded r out e in
    rw (enc.bytes, enc.size_lem) (decode_subscription-sent r out widths array words enc)

abbrev pub stop_header : PacketHeader → PacketHeader
stop_header h = record h { kind = stop; count = 0; producer = 0 }

decode_header-stop :
    (h : PacketHeader) (out : Buffer)
    → InWidth h
    → valid (stop_header h) ≡ true
    → header_bytes ≤ length out
    → decode_header (take header_bytes (packet (stop_header h) [] out)) ≡ ok (stop_header h)
unfolding malformed
decode_header-stop h out widths v room =
    packet-decode_header (stop_header h) [] out (omega arith) v room (omega arith) (rw v refl)
      (omega arith)

-- A stop packet that `encodeStop` wrote, cut to the size that it returns, is 80 bytes and decodes
-- to its header with the kind set and the count and the producer 0. The fields are machine words.
pub decode_header-encode_stop :
    (h : PacketHeader) (out : Buffer) {p : Buffer × ℕ}
    → InWidth h
    → encode_stop h out ≡ ok p
    → (p.1 ≡ header_bytes)
      × (decode_header (take p.1 p.0) ≡ ok (record h { kind = stop; count = 0; producer = 0 }))
unfolding encode_stop puts
decode_header-encode_stop h out {p} widths e =
    let (room, v, bytes, size) = write_header-eq-ok (stop_header h) out 0 e in
    (size, rw (size, bytes) (decode_header-stop h out widths v room))
