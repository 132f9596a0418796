-- ===== src/Hex/Tables.antt =====
-- What the two tables of src/common/hex_conversion.cpp hold, checked entry by entry.
use lightstep_tracer_cpp.Base.{
  ℕ, ◌+◌, ◌-◌, ◌*◌, ◌/◌, ◌%◌, ◌<◌, Bool, true, false, ◌&&◌, not, Option, none, some, ◌≡◌, refl,
  arith, ltb, leb, ◌==◌, if◌then◌else◌,
}
use lightstep_tracer_cpp.Base.Bits.{is_below, is_below_sound}
use lightstep_tracer_cpp.Hex.{nil, hex_entry, hex_table_at, hex_char, is_space}

-- The value of a hex digit in either case.
unfoldable pub digit_value : ℕ → Option ℕ
digit_value c =
    if leb b'0' c && leb c b'9'
    then some (c - b'0')
    else if leb b'a' c && leb c b'f'
    then some (c - b'a' + 10)
    else if leb b'A' c && leb c b'F'
    then some (c - b'A' + 10)
    else none

pub digit_value-lt : (c v : ℕ) → digit_value c ≡ some v → v < 16
unfolding digit_value
digit_value-lt c v h = ground arith

abbrev pub or_nil : Option ℕ → ℕ
or_nil none = nil
or_nil (some v) = v

abbrev holds : Option ℕ → ℕ → Bool
holds none v = false
holds (some u) v = u == v

holds→eq : (o : Option ℕ) (v : ℕ) → holds o v ≡ true → o ≡ some v
holds→eq none v h = ground arith
holds→eq (some u) v h = ground arith

entry_correct : ℕ → Bool
entry_correct c = holds (hex_entry c) (or_nil (digit_value c))

entries_correct : is_below entry_correct 256 ≡ true
unfolding is_below entry_correct hex_entry digit_value
entries_correct = refl

hex_entry-digit_value : (c : ℕ) → c < 256 → hex_entry c ≡ some (or_nil (digit_value c))
unfolding entry_correct
hex_entry-digit_value c h = holds→eq _ _ (is_below_sound entry_correct 256 c entries_correct h)

-- Reading the table at an ASCII character gives the digit's value, or Nil.
pub hex_table_at_ascii : (c : ℕ) → c < 128 → hex_table_at c ≡ some (or_nil (digit_value c))
unfolding hex_table_at
hex_table_at_ascii c h = ground (arith, hex_entry-digit_value c)

-- The character `c` is an ASCII hex digit of value `d`, and no space.
pub record IsDigit (c d : ℕ) : Type 0 where
  pub ascii : c < 128
  pub value : digit_value c ≡ some d
  pub no_space : is_space c ≡ false

is_digit : ℕ → ℕ → Bool
is_digit c d = ltb c 128 && (holds (digit_value c) d && not (is_space c))

is_digit→IsDigit : (c d : ℕ) → is_digit c d ≡ true → IsDigit c d
unfolding is_digit
is_digit→IsDigit c d h = record {
  ascii = ground arith;
  value = holds→eq _ _ (ground arith);
  no_space = ground arith;
}

pair_correct : ℕ → Bool
pair_correct b = is_digit (hex_char (b * 2)) (b / 16) && is_digit (hex_char (b * 2 + 1)) (b % 16)

&&_parts : (a b : Bool) → (a && b) ≡ true → (a ≡ true) × (b ≡ true)
&&_parts a b h = ground arith

pairs_correct : is_below pair_correct 256 ≡ true
unfolding is_below pair_correct is_digit hex_char digit_value is_space
pairs_correct = refl

pair_of :
    (b : ℕ)
    → b < 256
    → (is_digit (hex_char (b * 2)) (b / 16) && is_digit (hex_char (b * 2 + 1)) (b % 16)) ≡ true
unfolding pair_correct
pair_of b h = is_below_sound pair_correct 256 b pairs_correct h

-- The two characters of a byte are its high and its low hex digit.
pub hex_char-IsDigit :
    (b : ℕ)
    → b < 256
    → IsDigit (hex_char (b * 2)) (b / 16) × IsDigit (hex_char (b * 2 + 1)) (b % 16)
hex_char-IsDigit b h =
    let (high, low) = &&_parts _ _ (pair_of b h) in
    (is_digit→IsDigit _ _ high, is_digit→IsDigit _ _ low)
