-- ===== src/Wire/Bytes.antt =====
-- The big-endian accessors `put` and `get` of modules/bco-generator/src/protocol.cpp. A buffer is
-- the list of its bytes. A run of `put` calls is the list of the fields that it writes.
pub mod Laws
pub mod Fields
use sirius_scope.Prelude.{ℕ, zero, suc, ◌+◌, ◌-◌, ◌*◌, ◌/◌, ◌%◌, ◌^◌, List, [], ◌∷◌, set, get_or}

abbrev pub Buffer : Type 0
Buffer = List ℕ

-- `std::byte((value >> (i * 8)) & 255)`
unfoldable pub byte_of : ℕ → ℕ → ℕ
byte_of value i = value / 2 ^ (8 * i) % 256

-- `out[at + bytes - 1 - i] = …`
abbrev pub put_byte : Buffer → ℕ → ℕ → ℕ → ℕ → Buffer
put_byte out at value bytes i = set out (at + bytes - 1 - i) (byte_of value i)

-- The loop of `put` with `rounds` rounds left, from round `i` on.
unfoldable pub put_rounds : Buffer → ℕ → ℕ → ℕ → ℕ → ℕ → Buffer
put_rounds out at value bytes i zero = out
put_rounds out at value bytes i (suc rounds) =
    put_rounds (put_byte out at value bytes i) at value bytes (i + 1) rounds

unfoldable pub put : Buffer → ℕ → ℕ → ℕ → Buffer
put out at value bytes = put_rounds out at value bytes 0 bytes

-- The loop of `get`. The shifted result is a 64-bit word whose low byte is free, so that `|` adds.
unfoldable pub get_rounds : Buffer → ℕ → ℕ → ℕ → ℕ
get_rounds input at zero result = result
get_rounds input at (suc rounds) result =
    get_rounds input (at + 1) rounds (result * 256 % 2 ^ 64 + get_or input at 0)

unfoldable pub get : Buffer → ℕ → ℕ → ℕ
get input at bytes = get_rounds input at bytes 0

-- One call `put(out, at, value, width)`.
pub record Field : Type 0 where
  pub at : ℕ
  pub value : ℕ
  pub width : ℕ

-- The calls in the order of the list.
unfoldable pub puts : Buffer → List Field → Buffer
puts out [] = out
puts out (f ∷ fs) = puts (put out f.at f.value f.width) fs
