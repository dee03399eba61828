-- ===== src/Wire/Tests.antt =====
-- Runs of the wire format at concrete packets, and instances of its theorems.
use sirius_scope.Prelude.{
  ℕ, ◌+◌, ◌^◌, ◌≤◌, ◌≡◌, ◌≢◌, ◌↔◌, ◌⊎◌, ◌-◌, refl, true, false, List, [], ◌∷◌, length, take,
  replicate, arith, map,
}
use sirius_scope.Prelude.Int.{pos, negsuc}
use sirius_scope.Wire.{
  data_packet, stop, ok, PacketHeader, Sample, BandSettings, Subscription, InWidth,
}
use sirius_scope.Wire.Bytes.{Buffer, byte_of, put, put_rounds, puts}
use sirius_scope.Wire.Header.{valid, write_header, encode_stop, decode_header}
use sirius_scope.Wire.Header.Packet.{packet}
use sirius_scope.Wire.Data.{unfit, encode_data, decode_data}
use sirius_scope.Wire.Data.Layout.{all_fields, without_frequency}
use sirius_scope.Wire.Data.RoundTrip.{data_header, decode_data-encode_data}
use sirius_scope.Wire.Data.Accepted.{decode_data-Accepted, Accepted}
use sirius_scope.Wire.Data.Total.{encode_data-total}
use sirius_scope.Wire.Subscribe.{
  valid_band, already_seen, band_fields, write_bands, encode_subscription, decode_subscription,
}
use sirius_scope.Wire.Subscribe.Layout.{all_band_fields}
use sirius_scope.Wire.Subscribe.RoundTrip.{
  subscribe_header, stop_header, sent_bands, decode_subscription-encode_subscription,
  decode_header-encode_stop,
}
use sirius_scope.Wire.Sequence.{fresh, accept, accept_all, accept_all-account, Rising, accept_iff}

abbrev header : PacketHeader
header = record {
  kind = data_packet;
  stream = 7;
  sequence = 41;
  producer = 9;
  first_sample_index = 100;
  sample_period_ns = 320;
  start_utc_ns = 5_000;
  revision = 3;
  azimuth_milli_deg = negsuc 0;
  count = 2;
}

abbrev samples : List Sample
samples =
    record {
      sample_index = 100;
      band_index = pos 1;
      frequency_offset_hz = negsuc 4;
      absolute_frequency_hz = pos 77;
      amplitude = pos 12;
      beam_index = pos 0;
    }
    ∷ record {
      sample_index = 300;
      band_index = pos 7;
      frequency_offset_hz = pos 250_000_000;
      absolute_frequency_hz = pos 78;
      amplitude = pos 127;
      beam_index = pos 1;
    }
    ∷ []

abbrev buffer : Buffer
buffer = replicate 120 255

put_big_endian : put (0 ∷ 0 ∷ 0 ∷ 0 ∷ []) 1 0x1234 2 ≡ 0 ∷ 0x12 ∷ 0x34 ∷ 0 ∷ []
unfolding put put_rounds byte_of
put_big_endian = refl

header-InWidth : InWidth header
header-InWidth = omega arith

encoded :
    encode_data header samples buffer
    ≡ ok (packet (data_header header samples) (all_fields 0 samples) buffer, 112)
unfolding valid unfit
encoded =
    encode_data-total header samples buffer (omega arith) (omega arith) refl (omega arith)
      (refl, (refl, tt))

decode_data-encode_data_example :
    decode_data (take 112 (packet (data_header header samples) (all_fields 0 samples) buffer)) 4
    ≡ ok (header, map without_frequency samples)
decode_data-encode_data_example =
    decode_data-encode_data header samples buffer 4 header-InWidth (omega arith) (omega arith)
      encoded

decode_data-Accepted_example :
    Accepted
      (take 112 (packet (data_header header samples) (all_fields 0 samples) buffer))
      4
      header
      (map without_frequency samples)
decode_data-Accepted_example =
    decode_data-Accepted
      (take 112 (packet (data_header header samples) (all_fields 0 samples) buffer)) 4 header
      (map without_frequency samples) decode_data-encode_data_example

abbrev band : BandSettings
band = record {
  band = 2;
  enabled = true;
  pulsed = true;
  width_hz = 500_000_000;
  center_hz = 3_000_000_000;
  pulse_period_ns = 2_000;
  pulse_width_ns = 1_000;
}

abbrev request : Subscription
request = record {
  header = record header { count = 1 };
  bands = band ∷ band ∷ band ∷ band ∷ band ∷ band ∷ band ∷ band ∷ [];
}

abbrev request_packet : Buffer
request_packet =
    packet (subscribe_header request.header) (all_band_fields 0 (sent_bands request)) buffer

request_encoded : encode_subscription request buffer ≡ ok (request_packet, 120)
unfolding encode_subscription write_header write_bands valid valid_band already_seen band_fields
request_encoded = refl

decode_subscription-encode_subscription_example :
    decode_subscription (take 120 request_packet)
    ≡ ok (record { header = subscribe_header request.header; bands = band ∷ [] })
decode_subscription-encode_subscription_example =
    decode_subscription-encode_subscription request buffer (omega arith) refl (omega arith)
      request_encoded

stop_packet : encode_stop header buffer ≡ ok (packet (stop_header header) [] buffer, 80)
unfolding encode_stop write_header valid puts
stop_packet = refl

decode_header-encode_stop_example :
    (◌≡◌ {A = ℕ} 80 80)
    × (decode_header (take 80 (packet (stop_header header) [] buffer))
        ≡ ok (record header { kind = stop; count = 0; producer = 0 }))
decode_header-encode_stop_example =
    decode_header-encode_stop header buffer header-InWidth stop_packet

-- 3 is the first, 3 and 1 come late, 4 is missing, and 5 arrives.
abbrev arrivals : List ℕ
arrivals = 3 ∷ 3 ∷ 1 ∷ 5 ∷ []

accept_all_run :
    accept_all fresh arrivals
    ≡ (record { initialized = true; next = 6; missing = 4; late = 2 }, 3 ∷ 5 ∷ [])
unfolding accept_all accept
accept_all_run = refl

accept_all-account_example :
    let (t, passed) = accept_all fresh arrivals in
    Rising 0 t.next passed × (t.missing + length passed ≡ t.next) × (t.late + length passed + 0 ≡ 4)
accept_all-account_example = accept_all-account arrivals (omega arith) (omega arith)

accept_iff_example :
    (((accept fresh 3).1 ≡ true)
      ↔ ((3 ≢ 2 ^ 64 - 1) × ((fresh.initialized ≡ false) ⊎ (fresh.next ≤ 3))))
    × (((accept fresh 3).1 ≡ false)
        → (accept fresh 3).0 ≡ record fresh { late = (accept fresh 3).0.late })
accept_iff_example = accept_iff fresh 3
