-- ===== src/Wire/Data/Accepted.antt =====
-- What the receiver may rely on when `decodeData` of modules/bco-generator/src/protocol.cpp accepts
-- a packet.
use sirius_scope.Prelude.{
  ℕ, zero, suc, ◌+◌, ◌*◌, ◌≤◌, ◌≡◌, ◌≢◌, refl, ap, subst, true, false, not, List, [], ◌∷◌, length,
  arith, All, ltb, not-ltb→le, not-false,
}
use sirius_scope.Prelude.Int.{pos, negsuc, ◌≤ℤ◌}
use sirius_scope.Wire.{
  data_packet, bad_size, bad_magic, bad_version, bad_header, bad_record, no_capacity, ok,
  reject-eq-ok, ok-injective, >>=-eq-ok, PacketHeader, Sample, header_bytes, sample_bytes,
  max_samples,
}
use sirius_scope.Wire.Bytes.{Buffer, get}
use sirius_scope.Wire.Header.{valid, malformed, read_header, decode_header, is_data, kind_of}
use sirius_scope.Wire.Data.{sample_at, read_sample, refused, read_samples, decode_data}

-- The ranges that the protocol gives to the fields of a sample.
pub record InRange (s : Sample) : Type 0 where
  pub band_lo : pos 0 ≤ℤ s.band_index
  pub band_hi : s.band_index ≤ℤ pos 7
  pub beam_lo : pos 0 ≤ℤ s.beam_index
  pub beam_hi : s.beam_index ≤ℤ pos 7
  pub amplitude_lo : pos 1 ≤ℤ s.amplitude
  pub amplitude_hi : s.amplitude ≤ℤ pos 127
  pub offset_lo : negsuc 249_999_999 ≤ℤ s.frequency_offset_hz
  pub offset_hi : s.frequency_offset_hz ≤ℤ pos 250_000_000

-- The indices do not fall along the list, and start at `lo` or above.
abbrev pub InOrder : ℕ → List Sample → Type 0
InOrder lo [] = Unit
InOrder lo (s ∷ ss) = (lo ≤ s.sample_index) × InOrder s.sample_index ss

read_sample-InRange :
    (input : Buffer) (at previous padding : ℕ)
    → refused previous (read_sample input at) padding ≡ false
    → InRange (read_sample input at) × (previous ≤ (read_sample input at).sample_index)
unfolding read_sample refused
read_sample-InRange input at previous padding e = ground arith

-- What the loop of `decodeData` has read.
abbrev Good : ℕ → ℕ → List Sample → Type 0
Good previous rounds ss = (length ss ≡ rounds) × InOrder previous ss × All InRange ss

read_samples-Good :
    (input : Buffer) (i previous rounds : ℕ) {ss : List Sample}
    → read_samples input i previous rounds ≡ ok ss
    → Good previous rounds ss
unfolding read_samples
read_samples-Good input i previous zero e =
    subst (Good previous zero) (ok-injective e) (refl, tt, tt)
read_samples-Good input i previous (suc rounds) e =
    let s = read_sample input (sample_at i) in
    let padding = get input (sample_at i + 15) 1 in
    let (passed, e1) = reject-eq-ok (refused previous s padding) bad_record _ e in
    let (rest, e2, e3) = >>=-eq-ok (read_samples input (i + 1) s.sample_index rounds) _ e1 in
    let (range, above) = read_sample-InRange input (sample_at i) previous padding passed in
    let good = read_samples-Good input (i + 1) s.sample_index rounds e2 in
    subst (Good previous (suc rounds)) (ok-injective e3)
      (ap suc good.0, (above, good.1), (range, good.2))

-- A header that `decodeHeader` accepts passed its last test, at the record size of the packet.
decode_header-accepted :
    (input : Buffer) {h : PacketHeader}
    → decode_header input ≡ ok h
    → malformed h (get input 66 2) (length input) ≡ false
unfolding decode_header
decode_header-accepted input {h} e =
    let (e1, f1) = reject-eq-ok _ bad_size _ e in
    let (e2, f2) = reject-eq-ok _ bad_magic _ f1 in
    let (e3, f3) = reject-eq-ok _ bad_version _ f2 in
    let (e4, f4) = reject-eq-ok _ bad_header _ f3 in
    let (k, e5, f5) = >>=-eq-ok (kind_of (get input 5 1)) _ f4 in
    let (e6, f6) =
      reject-eq-ok (malformed (read_header input k) (get input 66 2) (length input)) bad_header _
        f5 in
    subst (λ h. malformed h (get input 66 2) (length input) ≡ false) (ok-injective f6) e6

-- A data packet that was accepted.
pub record Accepted (input : Buffer) (capacity : ℕ) (h : PacketHeader) (ss : List Sample)
    : Type 0 where
  pub kind_lem : h.kind ≡ data_packet
  pub valid_header : valid h ≡ true
  pub producer : h.producer ≢ 0
  pub count_lem : length ss ≡ h.count
  pub count_le : h.count ≤ max_samples
  pub room : h.count ≤ capacity
  pub size_lem : length input ≡ header_bytes + sample_bytes * h.count
  pub in_order : InOrder h.first_sample_index ss
  pub in_range : All InRange ss

data-passed :
    (h : PacketHeader) (size packet_len : ℕ)
    → is_data h.kind ≡ true
    → malformed h size packet_len ≡ false
    → (h.kind ≡ data_packet)
      × (valid h ≡ true)
      × (h.producer ≢ 0)
      × (h.count ≤ max_samples)
      × (packet_len ≡ header_bytes + sample_bytes * h.count)
unfolding malformed
data-passed h size packet_len k m = ground arith

-- When `decodeData` accepts a packet, its header is valid, of the data kind and names a producer;
-- the packet has the size that its count tells, which is at most 87 and at most the capacity; there
-- are so many samples, each in the ranges of the protocol, and their indices start at the header's
-- first sample index or above and never fall.
pub decode_data-Accepted :
    (input : Buffer) (capacity : ℕ) (h : PacketHeader) (ss : List Sample)
    → decode_data input capacity ≡ ok (h, ss)
    → Accepted input capacity h ss
unfolding decode_data
decode_data-Accepted input capacity h ss e =
    let (h', e1, f1) = >>=-eq-ok (decode_header input) _ e in
    let (e2, f2) = reject-eq-ok (not (is_data h'.kind)) bad_header _ f1 in
    let (e3, f3) = reject-eq-ok (ltb capacity h'.count) no_capacity _ f2 in
    let (ss', e4, f4) = >>=-eq-ok (read_samples input 0 h'.first_sample_index h'.count) _ f3 in
    let good = read_samples-Good input 0 h'.first_sample_index h'.count e4 in
    let (kind, v, producer, few, size) =
      data-passed h' (get input 66 2) (length input) (not-false (is_data h'.kind) e2)
        (decode_header-accepted input e1) in
    subst (λ (r : PacketHeader × List Sample). Accepted input capacity r.0 r.1) (ok-injective f4)
      record {
        kind_lem = kind;
        valid_header = v;
        producer = producer;
        count_lem = good.0;
        count_le = few;
        room = not-ltb→le capacity h'.count e3;
        size_lem = size;
        in_order = good.1;
        in_range = good.2;
      }
