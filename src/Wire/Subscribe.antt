-- ===== src/Wire/Subscribe.antt =====
-- Subscription packets: `validBand`, `encodeSubscription` and `decodeSubscription` of
-- modules/bco-generator/src/protocol.cpp. The loops go over the first `count` bands; the decoder's
-- result holds those, the rest of its array stays as it was.
pub mod Layout
pub mod RoundTrip
use Prim.Native.Nat.{bit_and, bit_or}
use sirius_scope.Prelude.{
  ℕ, zero, suc, ◌+◌, ◌-◌, ◌*◌, ◌/◌, ◌^◌, Bool, true, false, not, ◌&&◌, ◌||◌, List, [], ◌∷◌, take,
  ltb, leb, ◌==◌, if◌then◌else◌,
}
use sirius_scope.Wire.{
  Kind, data_packet, subscribe, stop, bad_size, bad_header, bad_record, Result, ok, ◌>>=◌, ◌>>◌,
  reject, PacketHeader, BandSettings, Subscription, header_bytes, band_bytes, max_bands,
}
use sirius_scope.Wire.Bytes.{Buffer, get, Field, puts}
use sirius_scope.Wire.Header.{field, write_header, decode_header, is_subscribe}

unfoldable pub valid_band : BandSettings → Bool
valid_band b =
    ltb b.band max_bands
    && ltb 0 b.width_hz
    && leb b.width_hz 500_000_000
    && leb (300_000_000 + b.width_hz / 2) b.center_hz
    && leb b.center_hz (18_000_000_000 - b.width_hz / 2)
    && (not b.pulsed
        || (ltb 0 b.pulse_width_ns
            && ltb b.pulse_width_ns b.pulse_period_ns
            && leb b.pulse_period_ns 60_000_000_000))

-- `seen & (1U << b.band)` and `seen | 1U << b.band`
unfoldable pub already_seen : ℕ → ℕ → Bool
already_seen seen band = not (bit_and seen (2 ^ band) == 0)

unfoldable pub mark_seen : ℕ → ℕ → ℕ
mark_seen seen band = bit_or seen (2 ^ band)

-- `headerBytes + i * bandBytes`
abbrev pub band_at : ℕ → ℕ
band_at i = header_bytes + i * band_bytes

abbrev pub bit : Bool → ℕ
bit b = if b then 1 else 0

unfoldable pub band_fields : ℕ → BandSettings → List Field
band_fields at b =
    field at b.band 1
    ∷ field (at + 1) (bit b.enabled) 1
    ∷ field (at + 2) (bit b.pulsed) 1
    ∷ field (at + 4) b.width_hz 4
    ∷ field (at + 8) b.center_hz 8
    ∷ field (at + 16) b.pulse_period_ns 8
    ∷ field (at + 24) b.pulse_width_ns 8
    ∷ []

-- The loop of `encodeSubscription` from band `i` on.
unfoldable pub write_bands : Buffer → ℕ → ℕ → List BandSettings → Result Buffer
write_bands out i seen [] = ok out
write_bands out i seen (b ∷ bs) =
    reject (not (valid_band b) || already_seen seen b.band) bad_record
    >> write_bands (puts out (band_fields (band_at i) b)) (i + 1) (mark_seen seen b.band) bs

unfoldable pub encode_subscription : Subscription → Buffer → Result (Buffer × ℕ)
encode_subscription r out = do
  reject (r.header.count == 0 || ltb max_bands r.header.count) bad_size
  let h = record r.header { kind = subscribe; producer = 0 }
  result ← write_header h out band_bytes
  out' ← write_bands result.0 0 0 (take h.count r.bands)
  ok (out', result.1)

unfoldable pub read_band : Buffer → ℕ → BandSettings
read_band input at = record {
  band = get input at 1;
  enabled = not (get input (at + 1) 1 == 0);
  pulsed = not (get input (at + 2) 1 == 0);
  width_hz = get input (at + 4) 4;
  center_hz = get input (at + 8) 8;
  pulse_period_ns = get input (at + 16) 8;
  pulse_width_ns = get input (at + 24) 8;
}

-- The condition under which `decodeSubscription` refuses the record at `at`, read as `b`.
unfoldable pub refused_band : Buffer → ℕ → ℕ → BandSettings → Bool
refused_band input at seen b =
    not (valid_band b)
    || already_seen seen b.band
    || ltb 1 (get input (at + 1) 1)
    || ltb 1 (get input (at + 2) 1)
    || not (get input (at + 3) 1 == 0)
    || not (get input (at + 32) 8 == 0)

-- The loop of `decodeSubscription` from record `i` on, with `rounds` records left.
unfoldable pub read_bands : Buffer → ℕ → ℕ → ℕ → Result (List BandSettings)
read_bands input i seen zero = ok []
read_bands input i seen (suc rounds) = do
  let b = read_band input (band_at i)
  reject (refused_band input (band_at i) seen b) bad_record
  rest ← read_bands input (i + 1) (mark_seen seen b.band) rounds
  ok (b ∷ rest)

unfoldable pub decode_subscription : Buffer → Result Subscription
decode_subscription input = do
  h ← decode_header input
  reject (not (is_subscribe h.kind)) bad_header
  bands ← read_bands input 0 0 h.count
  ok (record { header = h; bands = bands })
