-- ===== src/Tests/Hex.antt =====
-- Runs of the hex and decimal conversions, and their theorems at concrete inputs.
use lightstep_tracer_cpp.Base.{ℕ, ◌≡◌, refl, arith, List, [], ◌∷◌, codes}
use lightstep_tracer_cpp.Expected.{ok, err, undefined, value_too_large}
use lightstep_tracer_cpp.Hex.{
  hex_to_uint_impl, hex_table_at, hex_entry, is_space, remove_surrounding_whitespace, skip_zeros,
  hex_to_uint64, hex_to_uint128, uint64_to_hex, uint8_to_hex, uint128_to_hex,
  normalized_hex_to_uint8, normalized_hex_to_uint64,
}
use lightstep_tracer_cpp.Hex.Value.{hex_to_uint64-reference64, reference64}
use lightstep_tracer_cpp.Hex.RoundTrip.{
  hex_to_uint64-uint64_to_hex, normalized_hex_to_uint64-uint64_to_hex,
  normalized_hex_to_uint8-uint8_to_hex,
}
use lightstep_tracer_cpp.Hex.Wide.{hex_to_uint128-uint128_to_hex}
use lightstep_tracer_cpp.Decimal.{print_uint64}

padded : hex_to_uint64 (codes " 00fF ") ≡ ok 255
unfolding hex_to_uint64 hex_to_uint_impl hex_table_at hex_entry is_space
    remove_surrounding_whitespace skip_zeros
padded = refl

seventeen : hex_to_uint64 (codes "10000000000000000") ≡ err value_too_large
unfolding hex_to_uint64 is_space remove_surrounding_whitespace skip_zeros
seventeen = refl

-- A byte above 127 is a negative index into the table.
beyond_table : hex_to_uint64 (0xc3 ∷ []) ≡ undefined
unfolding hex_to_uint64 hex_to_uint_impl hex_table_at is_space remove_surrounding_whitespace
    skip_zeros
beyond_table = refl

print_zero : print_uint64 0 ≡ codes "0"
unfolding print_uint64
print_zero = refl

abbrev sample : List ℕ
sample = codes " 0x1"

hex_to_uint64-reference64_example : hex_to_uint64 sample ≡ reference64 sample
hex_to_uint64-reference64_example = hex_to_uint64-reference64 sample (omega arith)

hex_to_uint64-uint64_to_hex_example : hex_to_uint64 (uint64_to_hex 0xabc) ≡ ok 0xabc
hex_to_uint64-uint64_to_hex_example = hex_to_uint64-uint64_to_hex 0xabc (omega arith)

hex_to_uint128-uint128_to_hex_example :
    hex_to_uint128 (uint128_to_hex 7 9) 0 0 ≡ record { result = ok tt; x_high = 7; x_low = 9 }
hex_to_uint128-uint128_to_hex_example =
    hex_to_uint128-uint128_to_hex 7 9 0 0 (omega arith) (omega arith)

normalized_hex_to_uint64-uint64_to_hex_example :
    normalized_hex_to_uint64 (uint64_to_hex 0xabc) ≡ ok 0xabc
normalized_hex_to_uint64-uint64_to_hex_example =
    normalized_hex_to_uint64-uint64_to_hex 0xabc (omega arith)

normalized_hex_to_uint8-uint8_to_hex_example : normalized_hex_to_uint8 (uint8_to_hex 0xab) ≡ ok 0xab
normalized_hex_to_uint8-uint8_to_hex_example =
    normalized_hex_to_uint8-uint8_to_hex 0xab (omega arith)
