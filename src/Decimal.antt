-- ===== src/Decimal.antt =====
-- The parts of the C library that the code prints and reads decimal numbers with: `%llu` of printf,
-- `std::isdigit`, and the value that `strtoull` gives to a run of digits.
use lightstep_tracer_cpp.Base.{
  ℕ, zero, suc, ◌+◌, ◌-◌, ◌*◌, ◌/◌, ◌%◌, ◌^◌, ◌≤◌, ◌<◌, ◌≡◌, refl, ap, ◌∙◌, Bool, true, false, ◌&&◌,
  List, [], ◌∷◌, ◌++◌, leb, ltb, ◌==◌, if◌then◌else◌, length, All, Bool-cases, inl, inr, arith,
}
use native.Mathlib.Nat.{pow-suc}

unfoldable pub is_digit : ℕ → Bool
is_digit c = leb b'0' c && leb c b'9'

-- The digits of `n` in front of `out`, at most `fuel` of them.
unfoldable pub print_digits : ℕ → ℕ → List ℕ → List ℕ
print_digits zero n out = out
print_digits (suc fuel) n out =
    let shown = (b'0' + n % 10) ∷ out in
    let more = print_digits fuel (n / 10) shown in if n / 10 == 0 then shown else more

-- `%llu`: twenty digits are enough for every uint64_t.
unfoldable pub print_uint64 : ℕ → List ℕ
unfolding print_digits
print_uint64 n = print_digits 20 n []

unfoldable pub decimal_from : ℕ → List ℕ → ℕ
decimal_from acc [] = acc
decimal_from acc (c ∷ s) = decimal_from (acc * 10 + (c - b'0')) s

-- `strtoull` on a string of digits: its value and whether errno is set to ERANGE.
unfoldable pub strtoull : List ℕ → ℕ × Bool
strtoull s = let v = decimal_from 0 s in if ltb v (2 ^ 64) then (v, false) else (2 ^ 64 - 1, true)

-- The leading digits of a text, `room` of them at most.
unfoldable pub leading_digits : ℕ → List ℕ → List ℕ
leading_digits zero s = []
leading_digits (suc room) [] = []
leading_digits (suc room) (c ∷ s) =
    let more = c ∷ leading_digits room s in if is_digit c then more else []

record Printed (fuel n : ℕ) (out s : List ℕ) : Type 0 where
  value : n < 10 ^ fuel → decimal_from 0 s ≡ decimal_from n out
  size : length s ≤ fuel + length out
  chars : All (λ c. is_digit c ≡ true) out → All (λ c. is_digit c ≡ true) s

digit_char : (n : ℕ) → is_digit (b'0' + n % 10) ≡ true
unfolding is_digit
digit_char n = ground arith

decimal_step :
    (n : ℕ) (out : List ℕ) → decimal_from (n / 10) ((b'0' + n % 10) ∷ out) ≡ decimal_from n out
unfolding decimal_from
decimal_step n out = ap (λ (k : ℕ). decimal_from k out) (omega arith)

print_last :
    (fuel n : ℕ) (out : List ℕ)
    → (n / 10 == 0) ≡ true
    → Printed (suc fuel) n out ((b'0' + n % 10) ∷ out)
unfolding decimal_from
print_last fuel n out e = record {
  value = λ h. ap (λ (k : ℕ). decimal_from k out) (ground arith);
  size = omega arith;
  chars = λ h. (digit_char n, h);
}

print_more :
    (fuel n : ℕ) (out s : List ℕ)
    → Printed fuel (n / 10) ((b'0' + n % 10) ∷ out) s
    → Printed (suc fuel) n out s
print_more fuel n out s p = record {
  value = λ h. p.value (omega (arith, pow-suc 10 fuel)) ∙ decimal_step n out;
  size = omega (arith, p.size);
  chars = λ h. p.chars (digit_char n, h);
}

print_digits-Printed : (fuel n : ℕ) (out : List ℕ) → Printed fuel n out (print_digits fuel n out)
unfolding print_digits
print_digits-Printed zero n out = record {
  value = λ h. ap (λ (k : ℕ). decimal_from k out) (omega arith);
  size = omega arith;
  chars = λ h. h;
}
print_digits-Printed (suc fuel) n out = elim (Bool-cases (n / 10 == 0)) [
  | inl e ↦ rw e (print_last fuel n out e)
  | inr e ↦
      rw e (print_more fuel n out _ (print_digits-Printed fuel (n / 10) ((b'0' + n % 10) ∷ out)))
]

pub decimal_from-print_uint64 : (n : ℕ) → n < 2 ^ 64 → decimal_from 0 (print_uint64 n) ≡ n
unfolding print_uint64 decimal_from
decimal_from-print_uint64 n h = (print_digits-Printed 20 n []).value (omega arith)

pub length-print_uint64 : (n : ℕ) → length (print_uint64 n) ≤ 20
unfolding print_uint64
length-print_uint64 n = omega (arith, (print_digits-Printed 20 n []).size)

pub print_uint64_digits : (n : ℕ) → All (λ c. is_digit c ≡ true) (print_uint64 n)
unfolding print_uint64
print_uint64_digits n = (print_digits-Printed 20 n []).chars tt

-- `strtoull` reads back every printed uint64_t, with no range error.
pub strtoull-print_uint64 : (n : ℕ) → n < 2 ^ 64 → strtoull (print_uint64 n) ≡ (n, false)
unfolding strtoull
strtoull-print_uint64 n h = ground (arith, decimal_from-print_uint64 n)

-- A run of digits in front of another character is taken whole, if there is room for it.
pub leading_digits-append :
    (room : ℕ) (s : List ℕ) (c : ℕ) (rest : List ℕ)
    → All (λ d. is_digit d ≡ true) s
    → length s ≤ room
    → is_digit c ≡ false
    → leading_digits room (s ++ (c ∷ rest)) ≡ s
unfolding leading_digits
leading_digits-append zero [] c rest h fits hc = refl
leading_digits-append (suc room) [] c rest h fits hc = rw hc
leading_digits-append zero (d ∷ s) c rest h fits hc = absurd (omega arith)
leading_digits-append (suc room) (d ∷ s) c rest h fits hc =
    rw h.0 (ap (λ (r : List ℕ). d ∷ r) (leading_digits-append room s c rest h.1 (omega arith) hc))
