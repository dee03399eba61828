-- ===== src/Wire.antt =====
-- The UDP wire format of the BCO generator: modules/bco-generator/include/bco_generator/protocol.h
-- and modules/bco-generator/src/protocol.cpp. Here are the types and the limits of the format.
pub mod Bytes
pub mod Header
pub mod Data
pub mod Subscribe
pub mod Sequence
mod Tests
use sirius_scope.Prelude.{
  ℕ, ◌-◌, ◌%◌, ◌^◌, ◌<◌, ◌≡◌, refl, Bool, true, false, List, ltb, if◌then◌else◌,
}
use sirius_scope.Prelude.Int.{ℤ, pos, negsuc}

abbrev pub header_bytes : ℕ
header_bytes = 80

abbrev pub sample_bytes : ℕ
sample_bytes = 16

abbrev pub max_datagram_bytes : ℕ
max_datagram_bytes = 1472

-- `(maxDatagramBytes - headerBytes) / sampleBytes`
abbrev pub max_samples : ℕ
max_samples = 87

abbrev pub max_bands : ℕ
max_bands = 8

abbrev pub band_bytes : ℕ
band_bytes = 40

pub data Kind : Type 0 where
  data_packet subscribe stop : Kind

-- `enum class Kind : std::uint8_t`
abbrev pub code_of : Kind → ℕ
code_of data_packet = 1
code_of subscribe = 2
code_of stop = 3

-- `Error::None` is the constructor `ok` of `Result`.
pub data Error : Type 0 where
  bad_size bad_magic bad_version bad_header bad_record no_capacity : Error

pub data Result {ℓ} (V : Type ℓ) : Type ℓ where
  err : Error → Result V
  ok : V → Result V

-- `if (!result) return result;`
infixl 5 ◌>>◌ ◌>>=◌
abbrev pub ◌>>=◌ {κ ℓ} : {V : Type κ} {W : Type ℓ} → Result V → (V → Result W) → Result W
err e >>= next = err e
ok v >>= next = next v

abbrev pub ◌>>◌ {ℓ} : {W : Type ℓ} → Result (Unit {0}) → Result W → Result W
err e >> next = err e
ok v >> next = next

-- `if (test) return {error};`
abbrev pub reject : Bool → Error → Result (Unit {0})
reject test e = if test then err e else ok tt

-- What a chain of steps that succeeds says of its first step.
pub reject-eq-ok {ℓ} :
    {W : Type ℓ} (test : Bool) (e : Error) (next : Result W) {w : W}
    → (reject test e >> next) ≡ ok w
    → (test ≡ false) × (next ≡ ok w)
reject-eq-ok false e next h = (refl, h)
reject-eq-ok true e next h = cc

pub ok-injective {ℓ} : {V : Type ℓ} {v w : V} → ok v ≡ ok w → v ≡ w
ok-injective h = cc

pub >>=-eq-ok {κ ℓ} :
    {V : Type κ} {W : Type ℓ} (r : Result V) (next : V → Result W) {w : W}
    → (r >>= next) ≡ ok w
    → (v : V) × (r ≡ ok v) × (next v ≡ ok w)
>>=-eq-ok (err e) next h = cc
>>=-eq-ok (ok v) next h = (v, refl, h)

pub record PacketHeader : Type 0 where
  pub kind : Kind
  pub stream : ℕ
  pub sequence : ℕ
  pub producer : ℕ
  pub first_sample_index : ℕ
  pub sample_period_ns : ℕ
  pub start_utc_ns : ℕ
  pub revision : ℕ
  pub azimuth_milli_deg : ℤ
  pub count : ℕ

-- `bco_generator::Sample`
pub record Sample : Type 0 where
  pub sample_index : ℕ
  pub band_index : ℤ
  pub frequency_offset_hz : ℤ
  pub absolute_frequency_hz : ℤ
  pub amplitude : ℤ
  pub beam_index : ℤ

pub record BandSettings : Type 0 where
  pub band : ℕ
  pub enabled : Bool
  pub pulsed : Bool
  pub width_hz : ℕ
  pub center_hz : ℕ
  pub pulse_period_ns : ℕ
  pub pulse_width_ns : ℕ

pub record Subscription : Type 0 where
  pub header : PacketHeader
  pub bands : List BandSettings

-- `std::bit_cast<std::uint32_t>(std::int32_t(x))`, and the way back.
unfoldable pub to_u32 : ℤ → ℕ
to_u32 (pos n) = n % 2 ^ 32
to_u32 (negsuc n) = 2 ^ 32 - 1 - n % 2 ^ 32

unfoldable pub from_u32 : ℕ → ℤ
from_u32 w = if ltb w (2 ^ 31) then pos w else negsuc (2 ^ 32 - w - 1)

-- An `int` as the `std::uint64_t` that `put` takes.
unfoldable pub to_u64 : ℤ → ℕ
to_u64 (pos n) = n % 2 ^ 64
to_u64 (negsuc n) = 2 ^ 64 - 1 - n % 2 ^ 64

-- The values that the machine types of the fields can hold.
pub record InWidth (h : PacketHeader) : Type 0 where
  pub stream_width : h.stream < 2 ^ 64
  pub sequence_width : h.sequence < 2 ^ 64
  pub producer_width : h.producer < 2 ^ 64
  pub first_width : h.first_sample_index < 2 ^ 64
  pub period_width : h.sample_period_ns < 2 ^ 64
  pub start_width : h.start_utc_ns < 2 ^ 64
  pub revision_width : h.revision < 2 ^ 32
  pub count_width : h.count < 2 ^ 16
