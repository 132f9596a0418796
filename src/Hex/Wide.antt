-- ===== src/Hex/Wide.antt =====
-- 128-bit numbers: `HexSerializer::Uint128ToHex` of src/common/hex_conversion.h read back by
-- `HexToUint128` of src/common/hex_conversion.cpp.
use lightstep_tracer_cpp.Base.{
  ℕ, ◌+◌, ◌-◌, ◌^◌, ◌≤◌, ◌<◌, some, List, [], ◌∷◌, ◌++◌, ◌≡◌, ◌≢◌, refl, ap, ◌∙◌, arith, ◌==◌,
  length, length-append, All, Bool-cases, inl, inr, take, drop, take-length-append,
  drop-length-append,
}
use lightstep_tracer_cpp.Expected.{ok, of_option, invalid_argument}
use lightstep_tracer_cpp.Hex.{
  hex_to_uint_impl, remove_surrounding_whitespace, skip_zeros, hex_to_uint128, write_hex_bytes,
  uint64_to_hex, uint128_to_hex, Uint128Out,
}
use lightstep_tracer_cpp.Hex.Value.{
  hex_value_from, hex_value, length-skip_zeros, impl_value64, hex_value-skip_zeros,
}
use lightstep_tracer_cpp.Hex.RoundTrip.{
  IsHexChar, written_chars, length-write_hex_bytes, written_value, trimmed_same, All-IsAscii,
  impl_written,
}
use native.Mathlib.Decide.{ℕ_discrete}

All-append : (a b : List ℕ) → All IsHexChar a → All IsHexChar b → All IsHexChar (a ++ b)
All-append [] b h k = k
All-append (x ∷ a) b h k = (h.0, All-append a b h.1 k)

skip_zeros-append : (a b : List ℕ) → skip_zeros a ≢ [] → skip_zeros (a ++ b) ≡ skip_zeros a ++ b
unfolding skip_zeros
skip_zeros-append [] b h = absurd (h refl)
skip_zeros-append (c ∷ a) b h = elim (Bool-cases (c == b'0')) [
  | inl e ↦ rw e (skip_zeros-append a b (λ p. h (rw (e) p)))
  | inr e ↦ rw e
]

-- The significant digits of a written 64-bit number: none only for 0, at most sixteen, and their
-- value is the number.
record Significant (x : ℕ) (s : List ℕ) : Type 0 where
  short : length s ≤ 16
  value : hex_to_uint_impl 64 0 s ≡ ok x
  none_for_zero : length s ≡ 0 → x ≡ 0

written-Significant : (x : ℕ) → x < 2 ^ 64 → Significant x (skip_zeros (write_hex_bytes 8 x []))
written-Significant x h = record {
  short = short;
  value =
      impl_value64 s (All-IsAscii s (written_chars 8 x)) short
      ∙ ap (of_option invalid_argument) (written_value 8 x h);
  none_for_zero = λ e. zero_value (skip_zeros s) e (hex_value-skip_zeros s ∙ written_value 8 x h);
}
  where
    s : List ℕ
    s = write_hex_bytes 8 x []

    short : length (skip_zeros s) ≤ 16
    short = omega (arith, length-skip_zeros s, length-write_hex_bytes 8 x)

    zero_value : (t : List ℕ) → length t ≡ 0 → hex_value t ≡ some x → x ≡ 0
    zero_value [] e p = unfold hex_value hex_value_from in ground arith
    zero_value (c ∷ t) e p = absurd (omega arith)

abbrev both_halves : ℕ → ℕ → Uint128Out
both_halves high low = record { result = ok tt; x_high = high; x_low = low }

low_only :
    (low x_high x_low : ℕ)
    → low < 2 ^ 64
    → hex_to_uint128 (write_hex_bytes 8 low []) x_high x_low ≡ both_halves 0 low
unfolding hex_to_uint128
low_only low x_high x_low h =
    let s = write_hex_bytes 8 low [] in
    let d = written-Significant low h in
    ground (
      arith,
      trimmed_same s (written_chars 8 low),
      length-write_hex_bytes 8 low,
      d.short,
      d.value,
      d.none_for_zero,
    )

take_part : (a b : List ℕ) → take (length a + 16 - 16) (a ++ b) ≡ a
take_part a b = ap (λ (k : ℕ). take k (a ++ b)) (omega arith) ∙ take-length-append a b

drop_part : (a b : List ℕ) → drop (length a + 16 - 16) (a ++ b) ≡ b
drop_part a b = ap (λ (k : ℕ). drop k (a ++ b)) (omega arith) ∙ drop-length-append a b

-- The code after trimming, on a first part without leading zeros and sixteen more digits.
split_wide :
    (a b : List ℕ) (high low x_high x_low : ℕ)
    → length a ≢ 0
    → length a ≤ 16
    → length b ≡ 16
    → hex_to_uint_impl 64 0 a ≡ ok high
    → hex_to_uint_impl 64 0 b ≡ ok low
    → (s : List ℕ) → remove_surrounding_whitespace s ≡ s
    → length s ≢ 0
    → skip_zeros s ≡ a ++ b
    → hex_to_uint128 s x_high x_low ≡ both_halves high low
unfolding hex_to_uint128
split_wide a b high low x_high x_low ne short lb ea eb s same ns e =
    rw (same, e, length-append a b, lb) (ground (arith, take_part a b, drop_part a b))

wide :
    (high low x_high x_low : ℕ)
    → high < 2 ^ 64
    → low < 2 ^ 64
    → high ≢ 0
    → hex_to_uint128 (write_hex_bytes 8 high [] ++ write_hex_bytes 8 low []) x_high x_low
      ≡ both_halves high low
wide high low x_high x_low hh hl ne =
    let a = write_hex_bytes 8 high [] in
    let b = write_hex_bytes 8 low [] in
    let d = written-Significant high hh in
    split_wide (skip_zeros a) b high low x_high x_low (λ p. ne (d.none_for_zero p)) d.short
      (length-write_hex_bytes 8 low) d.value (impl_written 64 8 low (omega arith) hl) (a ++ b)
      (trimmed_same (a ++ b) (All-append a b (written_chars 8 high) (written_chars 8 low)))
      (omega (arith, length-append a b, length-write_hex_bytes 8 low))
      (skip_zeros-append a b (λ p. ne (d.none_for_zero (ap length p))))

-- `HexToUint128` reads back every 128-bit number that `Uint128ToHex` wrote, the short form for a high
-- half of 0 included, whatever stood in the output parameters.
pub hex_to_uint128-uint128_to_hex :
    (high low x_high x_low : ℕ)
    → high < 2 ^ 64
    → low < 2 ^ 64
    → hex_to_uint128 (uint128_to_hex high low) x_high x_low ≡ both_halves high low
unfolding uint128_to_hex uint64_to_hex
hex_to_uint128-uint128_to_hex high low x_high x_low hh hl = elim (ℕ_discrete high 0) [
  | yes e ↦ ground (arith, low_only low x_high x_low hl)
  | no ne ↦ ground (arith, wide high low x_high x_low hh hl ne)
]
