-- ===== src/Wire/Header/Packet.antt =====
-- A whole packet: the header that `writeHeader` writes, the fields of its records behind it, and
-- what `decodeHeader` makes of the bytes.
use sirius_scope.Prelude.{
  ℕ, ◌+◌, ◌*◌, ◌^◌, ◌≤◌, ◌<◌, ◌≡◌, ◌∙◌, true, false, List, ◌++◌, length, take, drop, replicate,
  arith, All, length-append, length-replicate, length-take, length-drop, get_or-replicate,
}
use sirius_scope.Wire.{
  Kind, data_packet, subscribe, stop, ok, PacketHeader, InWidth, header_bytes, max_datagram_bytes,
}
use sirius_scope.Wire.Bytes.{Buffer, get, Field, puts}
use sirius_scope.Wire.Bytes.Laws.{
  Apart, get-puts-Apart, get-take, get-zeros, length-puts, puts-append,
}
use sirius_scope.Wire.Bytes.Fields.{
  Within, Within-le, Within-append, Holds-append, Within-above, Holds, puts-Holds, Holds-take,
}
use sirius_scope.Wire.Header.{
  valid, header_fields, clear_first, write_header, malformed, decode_header, record_bytes,
}
use sirius_scope.Wire.Header.RoundTrip.{header_fields-Within, decode_header-fields}

length-clear_first :
    (size : ℕ) (out : Buffer) → size ≤ length out → length (clear_first size out) ≡ length out
unfolding clear_first
length-clear_first size out h =
    length-append (replicate size 0) (drop size out)
    ∙ omega (arith, length-replicate {A = ℕ} size 0, length-drop size out)

get-clear_first :
    (size : ℕ) (out : Buffer) (at width : ℕ)
    → at + width ≤ size
    → get (clear_first size out) at width ≡ 0
unfolding clear_first
get-clear_first size out at width h =
    get-zeros (replicate size 0 ++ drop size out) at width
      (λ d lt. get_or-replicate size 0 0 (drop size out) (at + d) (omega arith))

abbrev pub packet_size : PacketHeader → ℕ → ℕ
packet_size h record_size = header_bytes + h.count * record_size

-- When `writeHeader` succeeds, the header is valid, the packet fits, and the fields are written
-- over cleared bytes.
pub write_header-eq-ok :
    (h : PacketHeader) (out : Buffer) (record_size : ℕ) {r : Buffer × ℕ}
    → write_header h out record_size ≡ ok r
    → (packet_size h record_size ≤ length out)
      × (valid h ≡ true)
      × (r.0 ≡ puts (clear_first (packet_size h record_size) out) (header_fields h record_size))
      × (r.1 ≡ packet_size h record_size)
unfolding write_header
write_header-eq-ok h out record_size e = ground (arith)

-- A packet whose records stand behind the header, before it is cut to its size.
abbrev pub packet : PacketHeader → List Field → Buffer → Buffer
packet h fs out =
    puts
      (puts (clear_first (packet_size h (record_bytes h.kind)) out)
        (header_fields h (record_bytes h.kind)))
      fs

record_bytes-lt : (k : Kind) → record_bytes k < 2 ^ 16
record_bytes-lt data_packet = omega arith
record_bytes-lt subscribe = omega arith
record_bytes-lt stop = omega arith

module _ (h : PacketHeader) (fs : List Field) (out : Buffer) (widths : InWidth h)
    (v : valid h ≡ true) (room : packet_size h (record_bytes h.kind) ≤ length out)
    (within : Within header_bytes (packet_size h (record_bytes h.kind)) fs) where
  abbrev size : ℕ
  size = packet_size h (record_bytes h.kind)

  abbrev fields : List Field
  fields = header_fields h (record_bytes h.kind) ++ fs

  fields-Within : Within 0 size fields
  fields-Within =
      Within-append 0 header_bytes size (header_fields h (record_bytes h.kind)) fs
        (header_fields-Within h (record_bytes h.kind) widths v (record_bytes-lt h.kind)) within

  fields-Holds : Holds (take size (packet h fs out)) fields
  fields-Holds =
      rw (← puts-append (clear_first size out) (header_fields h (record_bytes h.kind)) fs) (
        Holds-take 0 size size fields _ fields-Within (omega arith) (
          puts-Holds 0 size fields (clear_first size out) fields-Within
            (omega (arith, length-clear_first size out room))))

  pub length-packet : length (take size (packet h fs out)) ≡ size
  length-packet = omega (
    arith,
    length-take size (packet h fs out),
    length-puts (puts (clear_first size out) (header_fields h (record_bytes h.kind))) fs,
    length-puts (clear_first size out) (header_fields h (record_bytes h.kind)),
    length-clear_first size out room,
  )

  -- The fields of the records read as they were written.
  pub packet-records : Holds (take size (packet h fs out)) fs
  packet-records = (Holds-append _ (header_fields h (record_bytes h.kind)) fs fields-Holds).1

  -- What neither the header nor a record covers is zero.
  pub packet-zero :
      (at width : ℕ)
      → at + width ≤ size
      → All (Apart at width) (header_fields h (record_bytes h.kind))
      → All (Apart at width) fs
      → get (take size (packet h fs out)) at width ≡ 0
  packet-zero at width inside a b =
      get-take size (packet h fs out) at width inside
      ∙ get-puts-Apart _ at width fs b
      ∙ get-puts-Apart _ at width (header_fields h (record_bytes h.kind)) a
      ∙ get-clear_first size out at width inside

  reserved :
      (at width : ℕ)
      → 68 ≤ at
      → at + width ≤ header_bytes
      → get (take size (packet h fs out)) at width ≡ 0
  unfolding header_fields
  reserved at width lo hi =
      packet-zero at width (omega (arith, Within-le header_bytes size fs within)) (omega arith)
        (Within-above header_bytes size fs at width within hi)

  pub packet-decode_header :
      malformed h (record_bytes h.kind) size ≡ false
      → size ≤ max_datagram_bytes
      → decode_header (take size (packet h fs out)) ≡ ok h
  packet-decode_header m small =
      decode_header-fields h (take size (packet h fs out)) v
        (Holds-append _ (header_fields h (record_bytes h.kind)) fs fields-Holds).0
        (rw length-packet m) (omega (arith, length-packet, Within-le header_bytes size fs within))
        (omega (arith, length-packet)) (reserved 68 4 (omega arith) (omega arith))
        (reserved 72 8 (omega arith) (omega arith))
