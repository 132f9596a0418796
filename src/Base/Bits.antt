-- ===== src/Base/Bits.antt =====
-- Facts about `bit_and` and `bit_or` at variables, each by one induction on the count of digits
-- that the native operations recurse on, and properties of small numbers by evaluation.
use Prim.Native.Nat.{
  ℕ, zero, suc, ◌+◌, ◌*◌, ◌/◌, ◌%◌, ◌≤◌, ◌<◌, min, max, digits, bit_and, bit_or, bit_and-bitwise,
  bit_or-bitwise,
}
use mathlib.Core.Path.{◌≡◌, refl}
use mathlib.Core.Bool.{Bool, true, ◌&&◌}
use native.Mathlib.Omega.{arith}

-- `p` holds of every number below the bound.
unfoldable pub is_below : (ℕ → Bool) → ℕ → Bool
is_below p zero = true
is_below p (suc bound) = is_below p bound && p bound

pub is_below_sound : (p : ℕ → Bool) (bound x : ℕ) → is_below p bound ≡ true → x < bound → p x ≡ true
unfolding is_below
is_below_sound p zero x every small = absurd (omega arith)
is_below_sound p (suc bound) x every small = ground (arith, is_below_sound p bound x)

-- The lowest `k` binary digits.
abbrev low_digits : ℕ → ℕ → ℕ
low_digits zero a = 0
low_digits (suc k) a = low_digits k (a / 2) * 2 + a % 2

-- A number without its lowest `k` binary digits.
abbrev high_digits : ℕ → ℕ → ℕ
high_digits zero a = a
high_digits (suc k) a = high_digits k (a / 2)

-- The number has `k` digits, all of them 1.
abbrev AreOnes : ℕ → ℕ → Type 0
AreOnes zero b = b ≡ 0
AreOnes (suc k) b = (b % 2 ≡ 1) × AreOnes k (b / 2)

low_digits-zero : (k : ℕ) → low_digits k 0 ≡ 0
low_digits-zero zero = omega arith
low_digits-zero (suc k) = omega (arith, low_digits-zero k)

digits-ones :
    (fuel k a b : ℕ) → a ≤ fuel → AreOnes k b → digits (λ b. zero) min fuel a b ≡ low_digits k a
digits-ones zero k zero b enough mask = omega (arith, low_digits-zero k)
digits-ones zero k (suc a) b enough mask = absurd (omega arith)
digits-ones (suc fuel) k zero b enough mask = omega (arith, low_digits-zero k)
digits-ones (suc fuel) zero (suc a) b enough mask =
    omega (arith, digits-ones fuel 0 (suc a / 2) (b / 2) (omega arith) (omega arith))
digits-ones (suc fuel) (suc k) (suc a) b enough (odd, mask) =
    omega (arith, digits-ones fuel k (suc a / 2) (b / 2) (omega arith) mask)

digits-disjoint :
    (fuel k a b : ℕ)
    → a ≤ fuel
    → low_digits k a ≡ 0
    → high_digits k b ≡ 0
    → digits (λ b. b) max fuel a b ≡ a + b
digits-disjoint zero k zero b enough low high = omega arith
digits-disjoint zero k (suc a) b enough low high = absurd (omega arith)
digits-disjoint (suc fuel) k zero b enough low high = omega arith
digits-disjoint (suc fuel) zero (suc a) b enough low high =
    omega (arith, digits-disjoint fuel zero (suc a / 2) (b / 2) (omega arith) low (omega arith))
digits-disjoint (suc fuel) (suc k) (suc a) b enough low high =
    omega (arith, digits-disjoint fuel k (suc a / 2) (b / 2) (omega arith) (omega arith) high)

-- `(r << 4) | v` for a nibble `v`.
pub bit_or_nibble : (r v : ℕ) → v < 16 → bit_or (r * 16) v ≡ r * 16 + v
bit_or_nibble r v small = omega (
  arith,
  bit_or-bitwise (r * 16) v,
  digits-disjoint (r * 16) 4 (r * 16) v (omega arith) (omega arith) (omega arith),
)

byte_mask : AreOnes 8 0xff
byte_mask = (refl, (refl, (refl, (refl, (refl, (refl, (refl, (refl, refl))))))))

-- `a & 0xFF`
pub bit_and_byte : (a : ℕ) → bit_and a 0xff ≡ a % 256
bit_and_byte a =
    omega (arith, bit_and-bitwise a 0xff, digits-ones a 8 a 0xff (omega arith) byte_mask)

-- `(r << 3) | v` for a field number and a wire type.
pub bit_or_octet : (r v : ℕ) → v < 8 → bit_or (r * 8) v ≡ r * 8 + v
bit_or_octet r v small = omega (
  arith,
  bit_or-bitwise (r * 8) v,
  digits-disjoint (r * 8) 3 (r * 8) v (omega arith) (omega arith) (omega arith),
)

-- A number whose `k`-th binary digit has been set.
abbrev set_digit : ℕ → ℕ → ℕ
set_digit zero a = a / 2 * 2 + 1
set_digit (suc k) a = set_digit k (a / 2) * 2 + a % 2

-- The number is `2 ^ k`.
abbrev IsDigit : ℕ → ℕ → Type 0
IsDigit zero b = b ≡ 1
IsDigit (suc k) b = (b % 2 ≡ 0) × IsDigit k (b / 2)

set_digit-zero : (k b : ℕ) → IsDigit k b → set_digit k 0 ≡ b
set_digit-zero zero b mask = omega (arith, mask)
set_digit-zero (suc k) b (even, mask) = omega (arith, set_digit-zero k (b / 2) mask)

digits-set :
    (fuel k a b : ℕ) → a ≤ fuel → IsDigit k b → digits (λ b. b) max fuel a b ≡ set_digit k a
digits-set zero k zero b enough mask = omega (arith, set_digit-zero k b mask)
digits-set zero k (suc a) b enough mask = absurd (omega arith)
digits-set (suc fuel) k zero b enough mask = omega (arith, set_digit-zero k b mask)
digits-set (suc fuel) zero (suc a) b enough mask =
    omega (arith, digits-disjoint fuel zero (suc a / 2) (b / 2) (omega arith) refl (omega arith))
digits-set (suc fuel) (suc k) (suc a) b enough (even, mask) =
    omega (arith, digits-set fuel k (suc a / 2) (b / 2) (omega arith) mask)

byte_top : IsDigit 7 0x80
byte_top = (refl, (refl, (refl, (refl, (refl, (refl, (refl, refl)))))))

-- `static_cast<uint8>(x | 0x80)`
pub bit_or_top : (a : ℕ) → bit_or a 0x80 % 256 ≡ a % 128 + 128
bit_or_top a = omega (arith, bit_or-bitwise a 0x80, digits-set a 7 a 0x80 (omega arith) byte_top)
