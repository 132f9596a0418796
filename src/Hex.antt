-- ===== src/Hex.antt =====
-- src/common/hex_conversion.h and src/common/hex_conversion.cpp: 8-, 32-, 64- and 128-bit numbers
-- written in hex and read back. A `char` is the number of its byte. Plain `char` is signed, so a byte
-- of 128 or more indexes `HexTable` out of range. `std::isspace` is that of the C locale.
use lightstep_tracer_cpp.Base.{
  ℕ, zero, suc, ◌+◌, ◌-◌, ◌*◌, ◌/◌, ◌%◌, ◌^◌, bit_and, bit_or, Bool, ◌&&◌, ◌||◌, Option, none, some,
  List, [], ◌∷◌, ◌++◌, ltb, leb, ◌==◌, if◌then◌else◌, length, get_elem?, get_or, take, drop,
  replicate, codes,
}
use lightstep_tracer_cpp.Expected.{
  Expected, Error, ok, err, undefined, invalid_argument, value_too_large,
}
pub mod Tables
pub mod Trim
pub mod Value
pub mod RoundTrip
pub mod Wide

abbrev pub num_64bit_hex_digits : ℕ
num_64bit_hex_digits = 16

abbrev pub num_128bit_hex_digits : ℕ
num_128bit_hex_digits = 2 * num_64bit_hex_digits

abbrev pub num_32bit_hex_digits : ℕ
num_32bit_hex_digits = 8

abbrev pub num_8bit_hex_digits : ℕ
num_8bit_hex_digits = 2

abbrev pub nil : ℕ
nil = 255

unfoldable pub hex_table : List ℕ
hex_table =
    replicate 48 nil
    ++ ((0 ∷ 1 ∷ 2 ∷ 3 ∷ 4 ∷ 5 ∷ 6 ∷ 7 ∷ 8 ∷ 9 ∷ [])
        ++ (replicate 7 nil
            ++ ((10 ∷ 11 ∷ 12 ∷ 13 ∷ 14 ∷ 15 ∷ [])
                ++ (replicate 26 nil
                    ++ ((10 ∷ 11 ∷ 12 ∷ 13 ∷ 14 ∷ 15 ∷ []) ++ replicate 153 nil)))))

unfoldable pub hex_entry : ℕ → Option ℕ
unfolding hex_table
hex_entry i = get_elem? hex_table i

-- `HexTable[*i]`: `*i` is a signed char, so the bytes from 128 on are negative indices.
unfoldable pub hex_table_at : ℕ → Option ℕ
hex_table_at c = if ltb c 128 then hex_entry c else none

-- The loop over `[i, last)`, for an unsigned type of `w` bits.
unfoldable pub hex_to_uint_impl : ℕ → ℕ → List ℕ → Expected ℕ
hex_to_uint_impl w result [] = ok result
hex_to_uint_impl w result (c ∷ s) = elim (hex_table_at c) [
  | none ↦ undefined
  | some value ↦
      let rest = hex_to_uint_impl w (bit_or (result * 16) value % 2 ^ w) s in
      if value == nil then err invalid_argument else rest
]

unfoldable pub is_space : ℕ → Bool
is_space c = c == 32 || (leb 9 c && leb c 13)

unfoldable pub skip_leading_spaces : List ℕ → List ℕ
skip_leading_spaces [] = []
skip_leading_spaces (c ∷ s) = let rest = skip_leading_spaces s in if is_space c then rest else c ∷ s

abbrev cons_unless_space : ℕ → List ℕ → List ℕ
cons_unless_space c [] = if is_space c then [] else c ∷ []
cons_unless_space c (d ∷ s) = c ∷ d ∷ s

unfoldable pub skip_trailing_spaces : List ℕ → List ℕ
skip_trailing_spaces [] = []
skip_trailing_spaces (c ∷ s) = cons_unless_space c (skip_trailing_spaces s)

unfoldable pub remove_surrounding_whitespace : List ℕ → List ℕ
unfolding skip_leading_spaces skip_trailing_spaces
remove_surrounding_whitespace s = skip_trailing_spaces (skip_leading_spaces s)

-- `while (i != last && *i == '0') ++i;`
unfoldable pub skip_zeros : List ℕ → List ℕ
skip_zeros [] = []
skip_zeros (c ∷ s) = let rest = skip_zeros s in if c == b'0' then rest else c ∷ s

unfoldable pub hex_to_uint64 : List ℕ → Expected ℕ
hex_to_uint64 s =
    let trimmed = remove_surrounding_whitespace s in
    let digits = skip_zeros trimmed in
    let len = length digits in
    if ltb num_64bit_hex_digits len
    then err value_too_large
    else if len == 0
    then if length trimmed == 0 then err invalid_argument else ok 0
    else hex_to_uint_impl 64 0 digits

-- What a function with `x_high` and `x_low` as output parameters leaves behind.
pub record Uint128Out : Type 0 where
  pub result : Expected (Unit {0})
  pub x_high : ℕ
  pub x_low : ℕ

abbrev fail128 : Error → ℕ → ℕ → Uint128Out
fail128 e x_high x_low = record { result = err e; x_high = x_high; x_low = x_low }

-- The second parse of a 128-bit number, `x_high` already written.
abbrev pub finish_low : ℕ → ℕ → Expected ℕ → Uint128Out
finish_low x_high x_low (ok x) = record { result = ok tt; x_high = x_high; x_low = x }
finish_low x_high x_low (err e) = record { result = err e; x_high = x_high; x_low = x_low }
finish_low x_high x_low undefined = record { result = undefined; x_high = x_high; x_low = x_low }

-- The parse of the high half, then that of the low half `low`.
abbrev pub high_then_low : ℕ → ℕ → Expected ℕ → List ℕ → Uint128Out
high_then_low x_high x_low (ok x) low = finish_low x x_low (hex_to_uint_impl 64 0 low)
high_then_low x_high x_low (err e) low = record { result = err e; x_high = x_high; x_low = x_low }
high_then_low x_high x_low undefined low = record {
  result = undefined;
  x_high = x_high;
  x_low = x_low;
}

unfoldable pub hex_to_uint128 : List ℕ → ℕ → ℕ → Uint128Out
hex_to_uint128 s x_high x_low =
    let trimmed = remove_surrounding_whitespace s in
    let digits = skip_zeros trimmed in
    let len = length digits in
    if ltb (2 * num_64bit_hex_digits) len
    then fail128 value_too_large x_high x_low
    else if len == 0
    then if length trimmed == 0
      then fail128 invalid_argument x_high x_low
      else record { result = ok tt; x_high = 0; x_low = 0 }
    else if leb len num_64bit_hex_digits
    then finish_low 0 x_low (hex_to_uint_impl 64 0 digits)
    else let boundary = len - num_64bit_hex_digits in
      high_then_low x_high x_low (hex_to_uint_impl 64 0 (take boundary digits))
        (drop boundary digits)

unfoldable pub normalized_hex_to_uint8 : List ℕ → Expected ℕ
normalized_hex_to_uint8 s = hex_to_uint_impl 8 0 s

unfoldable pub normalized_hex_to_uint64 : List ℕ → Expected ℕ
normalized_hex_to_uint64 s = hex_to_uint_impl 64 0 s

unfoldable pub normalized_hex_to_uint128 : List ℕ → ℕ → ℕ → Uint128Out
normalized_hex_to_uint128 s x_high x_low =
    high_then_low x_high x_low (hex_to_uint_impl 64 0 (take num_64bit_hex_digits s))
      (take num_64bit_hex_digits (drop num_64bit_hex_digits s))

unfoldable pub hex_digit_lookup_table : List ℕ
hex_digit_lookup_table =
    codes "000102030405060708090a0b0c0d0e0f"
    ++ (codes "101112131415161718191a1b1c1d1e1f"
        ++ (codes "202122232425262728292a2b2c2d2e2f"
            ++ (codes "303132333435363738393a3b3c3d3e3f"
                ++ (codes "404142434445464748494a4b4c4d4e4f"
                    ++ (codes "505152535455565758595a5b5c5d5e5f"
                        ++ (codes "606162636465666768696a6b6c6d6e6f"
                            ++ (codes "707172737475767778797a7b7c7d7e7f"
                                ++ (codes "808182838485868788898a8b8c8d8e8f"
                                    ++ (codes "909192939495969798999a9b9c9d9e9f"
                                        ++ (codes "a0a1a2a3a4a5a6a7a8a9aaabacadaeaf"
                                            ++ (codes "b0b1b2b3b4b5b6b7b8b9babbbcbdbebf"
                                                ++ (codes "c0c1c2c3c4c5c6c7c8c9cacbcccdcecf"
                                                    ++ (codes "d0d1d2d3d4d5d6d7d8d9dadbdcdddedf"
                                                        ++ (codes "e0e1e2e3e4e5e6e7e8e9eaebecedeeef"
                                                            ++ codes
                                                            "f0f1f2f3f4f5f6f7f8f9fafbfcfdfeff"))))))))))))))

-- One entry of the table; index 512 is the terminator.
unfoldable pub hex_char : ℕ → ℕ
unfolding hex_digit_lookup_table
hex_char i = get_or hex_digit_lookup_table i 0

-- The body of the loops `for (int i = n; i-- > 0;)`: the last `n` bytes of `x`, written from the
-- end of the output to its start; `written` is what stands behind them.
unfoldable pub write_hex_bytes : ℕ → ℕ → List ℕ → List ℕ
write_hex_bytes zero x written = written
write_hex_bytes (suc i) x written =
    let lookup_index = bit_and x 0xff * 2 in
    write_hex_bytes i (x / 2 ^ 8) (hex_char lookup_index ∷ hex_char (lookup_index + 1) ∷ written)

unfoldable pub uint64_to_hex : ℕ → List ℕ
uint64_to_hex x = write_hex_bytes 8 x []

unfoldable pub uint32_to_hex : ℕ → List ℕ
uint32_to_hex x = write_hex_bytes 4 x []

unfoldable pub uint8_to_hex : ℕ → List ℕ
uint8_to_hex x =
    let lookup_index = x * 2 in hex_char lookup_index ∷ hex_char (lookup_index + 1) ∷ []

-- `HexSerializer::Uint128ToHex`: a number whose high half is 0 takes sixteen digits.
unfoldable pub uint128_to_hex : ℕ → ℕ → List ℕ
uint128_to_hex x_high x_low =
    if x_high == 0 then uint64_to_hex x_low else uint64_to_hex x_high ++ uint64_to_hex x_low
