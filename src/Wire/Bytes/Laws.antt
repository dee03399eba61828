-- ===== src/Wire/Bytes/Laws.antt =====
-- What `get` reads after calls of `put`: the value at the field written, and the old bytes elsewhere.
use native.Mathlib.Nat.{div-div-eq-div-mul, div-eq_of_lt, div-le_self}
use native.Mathlib.Numerals.{towards_suc}
use sirius_scope.Prelude.{
  ℕ, zero, suc, ◌+◌, ◌-◌, ◌*◌, ◌/◌, ◌%◌, ◌^◌, ◌≤◌, ◌<◌, ◌≡◌, ◌⊎◌, inr, refl, ap, ◌∙◌, List, [], ◌∷◌,
  length, get_or, take, All, ◌++◌, sym, arith, ℕ_discrete, subst, length-set, get_or-set_self,
  get_or-set_ne, get_or-take,
}
use sirius_scope.Wire.Bytes.{
  Buffer, byte_of, put_byte, put_rounds, put, get_rounds, get, Field, puts,
}

length-put_rounds :
    (out : Buffer) (at value bytes i rounds : ℕ)
    → length (put_rounds out at value bytes i rounds) ≡ length out
unfolding put_rounds
length-put_rounds out at value bytes i zero = refl
length-put_rounds out at value bytes i (suc rounds) =
    length-put_rounds (put_byte out at value bytes i) at value bytes (i + 1) rounds
    ∙ length-set out (at + bytes - 1 - i) (byte_of value i)

pub length-put : (out : Buffer) (at value bytes : ℕ) → length (put out at value bytes) ≡ length out
unfolding put
length-put out at value bytes = length-put_rounds out at value bytes 0 bytes

pub length-puts : (out : Buffer) (fs : List Field) → length (puts out fs) ≡ length out
unfolding puts
length-puts out [] = refl
length-puts out (f ∷ fs) =
    length-puts (put out f.at f.value f.width) fs ∙ length-put out f.at f.value f.width

-- A `put` writes no byte outside of its field.
put_rounds_outside :
    (out : Buffer) (at value bytes i rounds p : ℕ)
    → i + rounds ≡ bytes
    → (p < at) ⊎ (at + rounds ≤ p)
    → get_or (put_rounds out at value bytes i rounds) p 0 ≡ get_or out p 0
unfolding put_rounds
put_rounds_outside out at value bytes i zero p e h = refl
put_rounds_outside out at value bytes i (suc rounds) p e h =
    put_rounds_outside (put_byte out at value bytes i) at value bytes (i + 1) rounds p (omega arith)
      (ground arith)
    ∙ get_or-set_ne out (at + bytes - 1 - i) p (byte_of value i) 0 (omega arith)

-- Byte `d` of the field is the byte of the value with weight `bytes - 1 - d`.
put_rounds_inside :
    (out : Buffer) (at value bytes i rounds d : ℕ)
    → i + rounds ≡ bytes
    → at + bytes ≤ length out
    → d < rounds
    → get_or (put_rounds out at value bytes i rounds) (at + d) 0 ≡ byte_of value (bytes - 1 - d)
unfolding put_rounds
put_rounds_inside out at value bytes i zero d e fit h = absurd (omega arith)
put_rounds_inside out at value bytes i (suc rounds) d e fit h = elim (ℕ_discrete d rounds) [
  | yes last ↦
      put_rounds_outside (put_byte out at value bytes i) at value bytes (i + 1) rounds (at + d)
        (omega arith) (inr (omega arith))
      ∙ subst (λ p. get_or (put_byte out at value bytes i) p 0 ≡ byte_of value (bytes - 1 - d))
          (let here : at + bytes - 1 - i ≡ at + d = omega arith in here)
          (get_or-set_self out (at + bytes - 1 - i) (byte_of value i) 0 (omega arith)
            ∙ ap (byte_of value) (omega arith))
  | no other ↦
      put_rounds_inside (put_byte out at value bytes i) at value bytes (i + 1) rounds d
        (omega arith) (omega (arith, length-set out (at + bytes - 1 - i) (byte_of value i)))
        (omega arith)
]

-- Two buffers that agree on a field read alike there.
get_rounds-agree :
    (a b : Buffer) (at rounds result : ℕ)
    → ((d : ℕ) → d < rounds → get_or a (at + d) 0 ≡ get_or b (at + d) 0)
    → get_rounds a at rounds result ≡ get_rounds b at rounds result
unfolding get_rounds
get_rounds-agree a b at zero result h = refl
get_rounds-agree a b at (suc rounds) result h =
    ap (λ x. get_rounds a (at + 1) rounds (result * 256 % 2 ^ 64 + x))
      (let here : get_or a at 0 ≡ get_or b at 0 =
          subst (λ p. get_or a p 0 ≡ get_or b p 0) (omega arith) (h 0 (omega arith)) in
        here)
    ∙ get_rounds-agree a b (at + 1) rounds (result * 256 % 2 ^ 64 + get_or b at 0)
        (λ d lt. subst (λ p. get_or a p 0 ≡ get_or b p 0) (omega arith) (h (d + 1) (omega arith)))

pow-byte : (k : ℕ) → 2 ^ (k + 8) ≡ 2 ^ k * 256
pow-byte k = simp towards_suc (omega arith)

-- What was read so far is the value without its last `rounds` bytes.
byte-step :
    (value rounds : ℕ)
    → value < 2 ^ 64
    → value / 2 ^ (8 * suc rounds) * 256 % 2 ^ 64 + byte_of value rounds ≡ value / 2 ^ (8 * rounds)
unfolding byte_of
byte-step value rounds lt = omega (
  arith,
  ap (λ k. value / k)
      (ap (λ k. 2 ^ k) (let e : 8 * suc rounds ≡ 8 * rounds + 8 = omega arith in e)
        ∙ pow-byte (8 * rounds)),
  div-div-eq-div-mul value (2 ^ (8 * rounds)) 256,
  div-le_self value (2 ^ (8 * rounds)),
)

get_rounds-bytes :
    (input : Buffer) (at value rounds : ℕ)
    → value < 2 ^ 64
    → ((d : ℕ) → d < rounds → get_or input (at + d) 0 ≡ byte_of value (rounds - 1 - d))
    → get_rounds input at rounds (value / 2 ^ (8 * rounds)) ≡ value
unfolding get_rounds
get_rounds-bytes input at value zero lt h = omega arith
get_rounds-bytes input at value (suc rounds) lt h =
    ap (λ x. get_rounds input (at + 1) rounds x)
      (ap (λ x. value / 2 ^ (8 * suc rounds) * 256 % 2 ^ 64 + x)
          (subst (λ p. get_or input p 0 ≡ byte_of value (suc rounds - 1 - 0)) (omega arith)
              (h 0 (omega arith))
            ∙ ap (byte_of value) (omega arith))
        ∙ byte-step value rounds lt)
    ∙ get_rounds-bytes input (at + 1) value rounds lt (λ d below.
      subst (λ p. get_or input p 0 ≡ byte_of value (rounds - 1 - d)) (omega arith)
        (h (d + 1) (omega arith) ∙ ap (byte_of value) (omega arith)))

-- `get` reads back what `put` wrote.
pub get-put_self :
    (out : Buffer) (at value bytes : ℕ)
    → at + bytes ≤ length out
    → value < 2 ^ (8 * bytes)
    → value < 2 ^ 64
    → get (put out at value bytes) at bytes ≡ value
unfolding get put
get-put_self out at value bytes fit small word =
    ap (get_rounds (put out at value bytes) at bytes) (sym (div-eq_of_lt small))
    ∙ get_rounds-bytes (put out at value bytes) at value bytes word
        (λ d lt. put_rounds_inside out at value bytes 0 bytes d (omega arith) fit lt)

-- The field of `width` bytes from `at` on and the field `f` have no byte in common.
abbrev pub Apart : ℕ → ℕ → Field → Type 0
Apart at width f = (at + width ≤ f.at) ⊎ (f.at + f.width ≤ at)

get-put-Apart :
    (out : Buffer) (at width : ℕ) (f : Field)
    → Apart at width f
    → get (put out f.at f.value f.width) at width ≡ get out at width
unfolding get put
get-put-Apart out at width f h =
    get_rounds-agree (put out f.at f.value f.width) out at width 0 (λ d lt.
      put_rounds_outside out f.at f.value f.width 0 f.width (at + d) (omega arith) (ground arith))

pub get-puts-Apart :
    (out : Buffer) (at width : ℕ) (fs : List Field)
    → All (Apart at width) fs
    → get (puts out fs) at width ≡ get out at width
unfolding puts
get-puts-Apart out at width [] h = refl
get-puts-Apart out at width (f ∷ fs) h =
    get-puts-Apart (put out f.at f.value f.width) at width fs h.1 ∙ get-put-Apart out at width f h.0

pub get-take :
    (n : ℕ) (input : Buffer) (at width : ℕ)
    → at + width ≤ n
    → get (take n input) at width ≡ get input at width
unfolding get
get-take n input at width h =
    get_rounds-agree (take n input) input at width 0
      (λ d lt. get_or-take n input (at + d) 0 (omega arith))

pub puts-append : (out : Buffer) (fs gs : List Field) → puts out (fs ++ gs) ≡ puts (puts out fs) gs
unfolding puts
puts-append out [] gs = refl
puts-append out (f ∷ fs) gs = puts-append (put out f.at f.value f.width) fs gs

zeros :
    (input : Buffer) (at rounds : ℕ)
    → ((d : ℕ) → d < rounds → get_or input (at + d) 0 ≡ 0)
    → get_rounds input at rounds 0 ≡ 0
unfolding get_rounds
zeros input at zero h = refl
zeros input at (suc rounds) h =
    ap (get_rounds input (at + 1) rounds) (
      let first : get_or input at 0 ≡ 0 =
        subst (λ p. get_or input p 0 ≡ 0) (omega arith) (h 0 (omega arith)) in
      let next : 0 * 256 % 2 ^ 64 + get_or input at 0 ≡ 0 = omega arith in next)
    ∙ zeros input (at + 1) rounds
        (λ d lt. subst (λ p. get_or input p 0 ≡ 0) (omega arith) (h (d + 1) (omega arith)))

-- A field of zero bytes reads as zero.
pub get-zeros :
    (input : Buffer) (at width : ℕ)
    → ((d : ℕ) → d < width → get_or input (at + d) 0 ≡ 0)
    → get input at width ≡ 0
unfolding get
get-zeros input at width h = zeros input at width h
