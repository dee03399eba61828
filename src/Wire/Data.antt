-- ===== src/Wire/Data.antt =====
-- Data packets: `encodeData` and `decodeData` of modules/bco-generator/src/protocol.cpp. The output
-- span of the decoder is its capacity; the samples that it writes there are the result.
pub mod Layout
pub mod RoundTrip
pub mod Accepted
pub mod Total
use sirius_scope.Prelude.{
  ℕ, zero, suc, ◌+◌, ◌*◌, Bool, not, ◌&&◌, ◌||◌, List, [], ◌∷◌, length, ltb, ◌==◌,
}
use sirius_scope.Prelude.Int.{pos, negsuc, ltb_ℤ, leb_ℤ}
use sirius_scope.Wire.{
  data_packet, bad_size, bad_header, bad_record, no_capacity, Result, ok, ◌>>=◌, ◌>>◌, reject,
  PacketHeader, Sample, to_u32, from_u32, to_u64, header_bytes, sample_bytes, max_samples,
}
use sirius_scope.Wire.Bytes.{Buffer, get, Field, puts}
use sirius_scope.Wire.Header.{field, write_header, decode_header, is_data}

-- `headerBytes + i * sampleBytes`
abbrev pub sample_at : ℕ → ℕ
sample_at i = header_bytes + i * sample_bytes

-- The `put` calls for one sample.
unfoldable pub sample_fields : ℕ → Sample → List Field
sample_fields at s =
    field at s.sample_index 8
    ∷ field (at + 8) (to_u32 s.frequency_offset_hz) 4
    ∷ field (at + 12) (to_u64 s.band_index) 1
    ∷ field (at + 13) (to_u64 s.beam_index) 1
    ∷ field (at + 14) (to_u64 s.amplitude) 1
    ∷ []

-- The condition under which `encodeData` refuses a sample.
unfoldable pub unfit : ℕ → Sample → Bool
unfit previous s =
    ltb s.sample_index previous
    || ltb_ℤ s.band_index (pos 0)
    || leb_ℤ (pos 8) s.band_index
    || ltb_ℤ s.beam_index (pos 0)
    || leb_ℤ (pos 8) s.beam_index
    || ltb_ℤ s.amplitude (pos 1)
    || ltb_ℤ (pos 127) s.amplitude
    || ltb_ℤ s.frequency_offset_hz (negsuc 249_999_999)
    || ltb_ℤ (pos 250_000_000) s.frequency_offset_hz

-- The loop of `encodeData` from sample `i` on.
unfoldable pub write_samples : Buffer → ℕ → ℕ → List Sample → Result Buffer
write_samples out i previous [] = ok out
write_samples out i previous (s ∷ ss) =
    reject (unfit previous s) bad_record
    >> write_samples (puts out (sample_fields (sample_at i) s)) (i + 1) s.sample_index ss

-- The buffer and the number of bytes of the packet.
unfoldable pub encode_data : PacketHeader → List Sample → Buffer → Result (Buffer × ℕ)
encode_data h samples out = do
  reject (ltb max_samples (length samples)) bad_size
  reject (h.producer == 0) bad_header
  let h' = record h { kind = data_packet; count = length samples }
  result ← write_header h' out sample_bytes
  out' ← write_samples result.0 0 h'.first_sample_index samples
  ok (out', result.1)

-- `Sample s; s.sampleIndex = get(…); …`: the absolute frequency keeps its initial 0.
unfoldable pub read_sample : Buffer → ℕ → Sample
read_sample input at = record {
  sample_index = get input at 8;
  band_index = pos (get input (at + 12) 1);
  frequency_offset_hz = from_u32 (get input (at + 8) 4);
  absolute_frequency_hz = pos 0;
  amplitude = pos (get input (at + 14) 1);
  beam_index = pos (get input (at + 13) 1);
}

-- The condition under which `decodeData` refuses a record; `padding` is its last byte.
unfoldable pub refused : ℕ → Sample → ℕ → Bool
refused previous s padding =
    ltb s.sample_index previous
    || leb_ℤ (pos 8) s.band_index
    || leb_ℤ (pos 8) s.beam_index
    || ltb_ℤ s.amplitude (pos 1)
    || ltb_ℤ (pos 127) s.amplitude
    || ltb_ℤ s.frequency_offset_hz (negsuc 249_999_999)
    || ltb_ℤ (pos 250_000_000) s.frequency_offset_hz
    || not (padding == 0)

-- The loop of `decodeData` from record `i` on, with `rounds` records left.
unfoldable pub read_samples : Buffer → ℕ → ℕ → ℕ → Result (List Sample)
read_samples input i previous zero = ok []
read_samples input i previous (suc rounds) = do
  let s = read_sample input (sample_at i)
  reject (refused previous s (get input (sample_at i + 15) 1)) bad_record
  rest ← read_samples input (i + 1) s.sample_index rounds
  ok (s ∷ rest)

unfoldable pub decode_data : Buffer → ℕ → Result (PacketHeader × List Sample)
decode_data input capacity = do
  h ← decode_header input
  reject (not (is_data h.kind)) bad_header
  reject (ltb capacity h.count) no_capacity
  samples ← read_samples input 0 h.first_sample_index h.count
  ok (h, samples)
