-- ===== src/Hex/RoundTrip.antt =====
-- The writers of src/common/hex_conversion.h read back by the parsers of src/common/hex_conversion.cpp.
use lightstep_tracer_cpp.Base.{
  ℕ, zero, suc, ◌+◌, ◌*◌, ◌/◌, ◌%◌, ◌^◌, ◌≤◌, ◌<◌, false, some, List, [], ◌∷◌, ◌++◌, ◌≡◌, refl, sym,
  ap, ◌∙◌, arith, length, All, take, drop, take-length-append, drop-length-append, append-nil,
  bit_and,
}
use lightstep_tracer_cpp.Base.Bits.{bit_and_byte}
use lightstep_tracer_cpp.Expected.{ok, of_option, invalid_argument}
use lightstep_tracer_cpp.Hex.{
  hex_to_uint_impl, is_space, hex_char, skip_leading_spaces, skip_trailing_spaces,
  cons_unless_space, remove_surrounding_whitespace, hex_to_uint64, write_hex_bytes, uint64_to_hex,
  uint8_to_hex, normalized_hex_to_uint8, normalized_hex_to_uint64, normalized_hex_to_uint128,
  Uint128Out,
}
use lightstep_tracer_cpp.Hex.Tables.{hex_char-IsDigit}
use lightstep_tracer_cpp.Hex.Value.{
  IsAscii, hex_value_from, hex_value, value_digit, hex_to_uint_impl-hex_value_from,
  hex_to_uint64-by_loops64, by_loops64, length-skip_zeros,
}
use native.Mathlib.Nat.{pow-suc}
use mathlib.Core.Path.{subst}

abbrev pub IsHexChar : ℕ → Type 0
IsHexChar c = (c < 128) × (is_space c ≡ false)

record Written (n x : ℕ) (rest out : List ℕ) : Type 0 where
  size : length out ≡ 2 * n + length rest
  chars : All IsHexChar rest → All IsHexChar out
  value : x < 256 ^ n → hex_value_from 0 out ≡ hex_value_from x rest

byte_of : (x : ℕ) → bit_and x 0xff < 256
byte_of x = omega (arith, bit_and_byte x)

byte_value :
    (a b : ℕ) (rest : List ℕ)
    → b < 256
    → hex_value_from a (hex_char (b * 2) ∷ hex_char (b * 2 + 1) ∷ rest)
      ≡ hex_value_from (a * 256 + b) rest
byte_value a b rest h =
    let (high, low) = hex_char-IsDigit b h in
    value_digit a _ (b / 16) _ high.value
    ∙ value_digit (a * 16 + b / 16) _ (b % 16) rest low.value
    ∙ ap (λ (k : ℕ). hex_value_from k rest) (omega arith)

write_hex_bytes-Written : (n x : ℕ) (rest : List ℕ) → Written n x rest (write_hex_bytes n x rest)
unfolding write_hex_bytes
write_hex_bytes-Written zero x rest = record {
  size = omega arith;
  chars = λ h. h;
  value = λ h. ap (λ (k : ℕ). hex_value_from k rest) (omega arith);
}
write_hex_bytes-Written (suc n) x rest =
    let b = bit_and x 0xff in
    let (high, low) = hex_char-IsDigit b (byte_of x) in
    let more =
      write_hex_bytes-Written n (x / 2 ^ 8) (hex_char (b * 2) ∷ hex_char (b * 2 + 1) ∷ rest) in
    record {
      size = omega (arith, more.size);
      chars = λ h. more.chars ((high.ascii, high.no_space), ((low.ascii, low.no_space), h));
      value = λ h.
          more.value (omega (arith, pow-suc 256 n))
          ∙ byte_value (x / 2 ^ 8) b rest (byte_of x)
          ∙ ap (λ (k : ℕ). hex_value_from k rest) (omega (arith, bit_and_byte x));
    }

pub All-IsAscii : (s : List ℕ) → All IsHexChar s → All IsAscii s
All-IsAscii [] h = tt
All-IsAscii (c ∷ s) h = (h.0.0, All-IsAscii s h.1)

-- What is written of a number of `n` bytes: 2 * n hex characters, whose value is the number.
pub written_chars : (n x : ℕ) → All IsHexChar (write_hex_bytes n x [])
written_chars n x = (write_hex_bytes-Written n x []).chars tt

pub length-write_hex_bytes : (n x : ℕ) → length (write_hex_bytes n x []) ≡ 2 * n
length-write_hex_bytes n x = omega (arith, (write_hex_bytes-Written n x []).size)

pub written_value : (n x : ℕ) → x < 256 ^ n → hex_value (write_hex_bytes n x []) ≡ some x
unfolding hex_value hex_value_from
written_value n x h = (write_hex_bytes-Written n x []).value h

no_leading : (s : List ℕ) → All IsHexChar s → skip_leading_spaces s ≡ s
unfolding skip_leading_spaces
no_leading [] h = refl
no_leading (c ∷ s) h = rw h.0.1

no_trailing : (s : List ℕ) → All IsHexChar s → skip_trailing_spaces s ≡ s
unfolding skip_trailing_spaces
no_trailing [] h = refl
no_trailing (c ∷ s) h = rw (no_trailing s h.1) (kept c s h.0.1)
  where
    kept : (c : ℕ) (s : List ℕ) → is_space c ≡ false → cons_unless_space c s ≡ c ∷ s
    kept c [] e = rw e
    kept c (d ∷ s) e = refl

pub trimmed_same : (s : List ℕ) → All IsHexChar s → remove_surrounding_whitespace s ≡ s
unfolding remove_surrounding_whitespace
trimmed_same s h = rw (no_leading s h) (no_trailing s h)

-- `HexToUint64` reads back every 64-bit number that `Uint64ToHex` wrote.
pub hex_to_uint64-uint64_to_hex : (x : ℕ) → x < 2 ^ 64 → hex_to_uint64 (uint64_to_hex x) ≡ ok x
unfolding uint64_to_hex by_loops64
hex_to_uint64-uint64_to_hex x h =
    let s = write_hex_bytes 8 x [] in
    hex_to_uint64-by_loops64 s (All-IsAscii s (written_chars 8 x))
    ∙ ground (
      arith,
      trimmed_same s (written_chars 8 x),
      length-write_hex_bytes 8 x,
      length-skip_zeros s,
      written_value 8 x,
    )

-- `hex_to_uint_impl` on what was written of a number of `n` bytes, for a type of at least as many.
pub impl_written :
    (w n x : ℕ)
    → (0 + 1) * 16 ^ (2 * n) ≤ 2 ^ w
    → x < 256 ^ n
    → hex_to_uint_impl w 0 (write_hex_bytes n x []) ≡ ok x
unfolding hex_value
impl_written w n x room h =
    hex_to_uint_impl-hex_value_from w 0 _ (All-IsAscii _ (written_chars n x))
      (rw (length-write_hex_bytes n x) room)
    ∙ ap (of_option invalid_argument) (written_value n x h)

-- `NormalizedHexToUint64` reads back what `Uint64ToHex` wrote.
pub normalized_hex_to_uint64-uint64_to_hex :
    (x : ℕ) → x < 2 ^ 64 → normalized_hex_to_uint64 (uint64_to_hex x) ≡ ok x
unfolding normalized_hex_to_uint64 uint64_to_hex
normalized_hex_to_uint64-uint64_to_hex x h = impl_written 64 8 x (omega arith) (omega arith)

uint8_written : (x : ℕ) → x < 256 → uint8_to_hex x ≡ write_hex_bytes 1 x []
unfolding uint8_to_hex write_hex_bytes
uint8_written x h =
    ap (λ (b : ℕ). hex_char (b * 2) ∷ hex_char (b * 2 + 1) ∷ []) (omega (arith, bit_and_byte x))

-- `NormalizedHexToUint8` reads back what `Uint8ToHex` wrote.
pub normalized_hex_to_uint8-uint8_to_hex :
    (x : ℕ) → x < 2 ^ 8 → normalized_hex_to_uint8 (uint8_to_hex x) ≡ ok x
unfolding normalized_hex_to_uint8
normalized_hex_to_uint8-uint8_to_hex x h =
    rw (uint8_written x (omega arith)) (impl_written 8 1 x (omega arith) (omega arith))

pub length-uint64_to_hex : (x : ℕ) → length (uint64_to_hex x) ≡ 16
unfolding uint64_to_hex
length-uint64_to_hex x = length-write_hex_bytes 8 x

pub length-uint8_to_hex : (x : ℕ) → length (uint8_to_hex x) ≡ 2
unfolding uint8_to_hex
length-uint8_to_hex x = refl

pub take_first : (n : ℕ) (a b : List ℕ) → length a ≡ n → take n (a ++ b) ≡ a
take_first n a b e = subst (λ k. take k (a ++ b) ≡ a) e (take-length-append a b)

pub drop_first : (n : ℕ) (a b : List ℕ) → length a ≡ n → drop n (a ++ b) ≡ b
drop_first n a b e = subst (λ k. drop k (a ++ b) ≡ b) e (drop-length-append a b)

take_whole : (n : ℕ) (a : List ℕ) → length a ≡ n → take n a ≡ a
take_whole n a e = ap (take n) (sym (append-nil a)) ∙ take_first n a [] e

abbrev both_halves : ℕ → ℕ → Uint128Out
both_halves high low = record { result = ok tt; x_high = high; x_low = low }

-- `NormalizedHexToUint128` reads back two halves written one after the other.
pub normalized_hex_to_uint128-append :
    (high low x_high x_low : ℕ)
    → high < 2 ^ 64
    → low < 2 ^ 64
    → normalized_hex_to_uint128 (uint64_to_hex high ++ uint64_to_hex low) x_high x_low
      ≡ both_halves high low
unfolding normalized_hex_to_uint128 uint64_to_hex
normalized_hex_to_uint128-append high low x_high x_low hh hl =
    let a = write_hex_bytes 8 high [] in
    let b = write_hex_bytes 8 low [] in
    rw (
      take_first 16 a b (length-write_hex_bytes 8 high),
      drop_first 16 a b (length-write_hex_bytes 8 high),
      take_whole 16 b (length-write_hex_bytes 8 low),
      impl_written 64 8 high (omega arith) hh,
      impl_written 64 8 low (omega arith) hl,
    )
