-- ===== src/Hex/Value.antt =====
-- The number that a string of hex digits denotes, and the parsers of src/common/hex_conversion.cpp
-- against it.
use lightstep_tracer_cpp.Base.{
  ℕ, zero, suc, ◌+◌, ◌*◌, ◌^◌, ◌≤◌, ◌<◌, true, Option, none, some, List, [], ◌∷◌, ◌≡◌, refl, sym,
  ap, ◌∙◌, arith, ltb, ◌==◌, if◌then◌else◌, length, All, Bool-cases, Option-cases, inl, inr,
}
use lightstep_tracer_cpp.Base.Bits.{bit_or_nibble}
use lightstep_tracer_cpp.Expected.{Expected, err, invalid_argument, value_too_large, of_option}
use lightstep_tracer_cpp.Hex.{
  hex_to_uint_impl, cons_unless_space, skip_leading_spaces, skip_trailing_spaces,
  remove_surrounding_whitespace, skip_zeros, hex_to_uint64,
}
use lightstep_tracer_cpp.Hex.Trim.{
  trim, significant, remove_surrounding_whitespace-trim, length-skip_zeros_lem,
}
use lightstep_tracer_cpp.Hex.Tables.{digit_value, digit_value-lt, hex_table_at_ascii}
use native.Mathlib.Nat.{pow-le-pow_right, pow-suc, mod-eq_of_lt}

abbrev pub IsAscii : ℕ → Type 0
IsAscii c = c < 128

-- Positional value in base 16, unbounded, continuing from `acc`; `none` if some character is no digit.
unfoldable pub hex_value_from : ℕ → List ℕ → Option ℕ
hex_value_from acc [] = some acc
hex_value_from acc (c ∷ s) = elim (digit_value c) [
  | none ↦ none
  | some v ↦ hex_value_from (acc * 16 + v) s
]

unfoldable pub hex_value : List ℕ → Option ℕ
unfolding hex_value_from
hex_value s = hex_value_from 0 s

step_digit :
    (w acc c v : ℕ) (s : List ℕ)
    → c < 128
    → digit_value c ≡ some v
    → acc * 16 + v < 2 ^ w
    → hex_to_uint_impl w acc (c ∷ s) ≡ hex_to_uint_impl w (acc * 16 + v) s
unfolding hex_to_uint_impl
step_digit w acc c v s ha hv fits =
    ground (arith, hex_table_at_ascii c, digit_value-lt c v, bit_or_nibble acc v, mod-eq_of_lt fits)

step_bad :
    (w acc c : ℕ) (s : List ℕ)
    → c < 128
    → digit_value c ≡ none
    → hex_to_uint_impl w acc (c ∷ s) ≡ err invalid_argument
unfolding hex_to_uint_impl
step_bad w acc c s ha hv = ground (arith, hex_table_at_ascii c)

one-le-pow : (n : ℕ) → 1 ≤ 16 ^ n
one-le-pow zero = omega arith
one-le-pow (suc n) = omega (arith, one-le-pow n, pow-suc 16 n)

-- After one more digit the digits still to come have room.
room_step : (acc v t w : ℕ) → v < 16 → 1 ≤ t → (acc + 1) * (16 * t) ≤ w → (acc * 16 + v + 1) * t ≤ w
room_step acc v t w hv ht h =
    omega (arith, le_mul (acc * 16 + v + 1) (acc * 16 + 16) t (omega arith))
  where
    le_mul : (a b t : ℕ) → a ≤ b → a * t ≤ b * t
    le_mul a b t p = grind arith

room_now : (a t w : ℕ) → 1 ≤ t → (a + 1) * t ≤ w → a < w
room_now a t w ht h = grind arith

pub value_digit :
    (acc c v : ℕ) (s : List ℕ)
    → digit_value c ≡ some v
    → hex_value_from acc (c ∷ s) ≡ hex_value_from (acc * 16 + v) s
unfolding hex_value_from
value_digit acc c v s e = ground arith

value_bad : (acc c : ℕ) (s : List ℕ) → digit_value c ≡ none → hex_value_from acc (c ∷ s) ≡ none
unfolding hex_value_from
value_bad acc c s e = ground arith

-- The parser loop computes the positional value as long as that fits its type.
pub hex_to_uint_impl-hex_value_from :
    (w acc : ℕ) (s : List ℕ)
    → All IsAscii s
    → (acc + 1) * 16 ^ length s ≤ 2 ^ w
    → hex_to_uint_impl w acc s ≡ of_option invalid_argument (hex_value_from acc s)
hex_to_uint_impl-hex_value_from w acc [] h room = unfold hex_to_uint_impl hex_value_from in refl
hex_to_uint_impl-hex_value_from w acc (c ∷ s) (hc, hs) room = elim (Option-cases (digit_value c)) [
  | inl bad ↦ rw (value_bad acc c s bad) (step_bad w acc c s hc bad)
  | inr (v, e) ↦
      let next =
        room_step acc v (16 ^ length s) (2 ^ w) (digit_value-lt c v e) (one-le-pow (length s)) (
          omega (
            arith,
            pow-suc 16 (length s),
            ap (λ (t : ℕ). (acc + 1) * t) (pow-suc 16 (length s)),
          )) in
      rw (value_digit acc c v s e) (
        step_digit w acc c v s hc e (room_now _ (16 ^ length s) _ (one-le-pow (length s)) next)
        ∙ hex_to_uint_impl-hex_value_from w (acc * 16 + v) s hs next)
]

-- Skipping zeros does not change the value.
pub hex_value-skip_zeros : (s : List ℕ) → hex_value (skip_zeros s) ≡ hex_value s
unfolding hex_value skip_zeros
hex_value-skip_zeros [] = refl
hex_value-skip_zeros (c ∷ s) = elim (Bool-cases (c == b'0')) [
  | inl e ↦ rw e (hex_value-skip_zeros s ∙ sym (value_digit 0 c 0 s (zero_digit c e)))
  | inr e ↦ rw e
]
  where
    zero_digit : (c : ℕ) → (c == b'0') ≡ true → digit_value c ≡ some 0
    zero_digit c e = unfold digit_value in ground arith

pub All-skip_zeros : (s : List ℕ) → All IsAscii s → All IsAscii (skip_zeros s)
unfolding skip_zeros
All-skip_zeros [] h = tt
All-skip_zeros (c ∷ s) h = ground (arith, All-skip_zeros s h.1)

All-skip_leading : (s : List ℕ) → All IsAscii s → All IsAscii (skip_leading_spaces s)
unfolding skip_leading_spaces
All-skip_leading [] h = tt
All-skip_leading (c ∷ s) h = ground (arith, All-skip_leading s h.1)

All-cons_unless_space :
    (c : ℕ) (s : List ℕ) → IsAscii c → All IsAscii s → All IsAscii (cons_unless_space c s)
All-cons_unless_space c [] hc h = ground arith
All-cons_unless_space c (d ∷ s) hc h = (hc, h)

All-skip_trailing : (s : List ℕ) → All IsAscii s → All IsAscii (skip_trailing_spaces s)
unfolding skip_trailing_spaces
All-skip_trailing [] h = tt
All-skip_trailing (c ∷ s) h = All-cons_unless_space c _ h.0 (All-skip_trailing s h.1)

All-trimmed : (s : List ℕ) → All IsAscii s → All IsAscii (remove_surrounding_whitespace s)
unfolding remove_surrounding_whitespace
All-trimmed s h = All-skip_trailing _ (All-skip_leading s h)

-- The reference: trim, refuse the empty string, refuse more than sixteen significant digits, and
-- read the rest as a number.
unfoldable pub reference64 : List ℕ → Expected ℕ
unfolding trim significant
reference64 s =
    let trimmed = trim s in
    if length trimmed == 0
    then err invalid_argument
    else if ltb 16 (significant trimmed)
    then err value_too_large
    else of_option invalid_argument (hex_value trimmed)

-- The same with the loops of the parser.
unfoldable pub by_loops64 : List ℕ → Expected ℕ
by_loops64 s =
    let trimmed = remove_surrounding_whitespace s in
    if length trimmed == 0
    then err invalid_argument
    else if ltb 16 (length (skip_zeros trimmed))
    then err value_too_large
    else of_option invalid_argument (hex_value trimmed)

by_loops64-reference64 : (s : List ℕ) → by_loops64 s ≡ reference64 s
unfolding by_loops64 reference64
by_loops64-reference64 s =
    rw (remove_surrounding_whitespace-trim s, length-skip_zeros_lem (trim s)) refl

room64 : (n : ℕ) → n ≤ 16 → (0 + 1) * 16 ^ n ≤ 2 ^ 64
room64 n h = omega (arith, pow-le-pow_right {n = 16} (omega arith) h)

pub nil_of_length {ℓ} : {A : Type ℓ} (xs : List A) → length xs ≡ 0 → xs ≡ []
nil_of_length [] h = refl
nil_of_length (x ∷ xs) h = absurd (omega arith)

value_of_zeros : (t : List ℕ) → length (skip_zeros t) ≡ 0 → hex_value t ≡ some 0
value_of_zeros t e =
    sym (hex_value-skip_zeros t) ∙ rw (nil_of_length (skip_zeros t) e) (unfold hex_value in refl)

-- Reading at most sixteen significant digits cannot overflow.
pub impl_value64 :
    (t : List ℕ)
    → All IsAscii t
    → length (skip_zeros t) ≤ 16
    → hex_to_uint_impl 64 0 (skip_zeros t) ≡ of_option invalid_argument (hex_value t)
unfolding hex_value
impl_value64 t h short =
    hex_to_uint_impl-hex_value_from 64 0 (skip_zeros t) (All-skip_zeros t h) (room64 _ short)
    ∙ ap (of_option invalid_argument) (hex_value-skip_zeros t)

pub length-skip_zeros : (t : List ℕ) → length (skip_zeros t) ≤ length t
unfolding skip_zeros
length-skip_zeros [] = omega arith
length-skip_zeros (c ∷ t) = ground (arith, length-skip_zeros t)

pub hex_to_uint64-by_loops64 : (s : List ℕ) → All IsAscii s → hex_to_uint64 s ≡ by_loops64 s
unfolding hex_to_uint64 by_loops64
hex_to_uint64-by_loops64 s h =
    let t = remove_surrounding_whitespace s in
    ground (arith, impl_value64 t (All-trimmed s h), value_of_zeros t, length-skip_zeros t)

-- On every ASCII string `HexToUint64` agrees with the reference, errors included.
pub hex_to_uint64-reference64 : (s : List ℕ) → All IsAscii s → hex_to_uint64 s ≡ reference64 s
hex_to_uint64-reference64 s h = hex_to_uint64-by_loops64 s h ∙ by_loops64-reference64 s
