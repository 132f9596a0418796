-- ===== src/Serialization/Sizes.antt =====
-- How long the varints of the wire format are.
use lightstep_tracer_cpp.Base.{
  ℕ, zero, suc, ◌+◌, ◌*◌, ◌/◌, ◌%◌, ◌^◌, ◌≤◌, ◌<◌, List, [], ◌∷◌, length, ltb, if_elim,
  length-append, arith,
}
use lightstep_tracer_cpp.Serialization.Wire.{base128, groups, encode_field, varint_field}

-- A number in so many groups at most.
abbrev IsShort : ℕ → ℕ → Type 0
IsShort zero x = x < 128
IsShort (suc k) x = IsShort k (x / 128)

length-groups : (fuel k x : ℕ) → IsShort k x → length (groups fuel x) ≤ suc k
unfolding groups
length-groups zero k x h = omega arith
length-groups (suc fuel) zero x h =
    if_elim (λ (s : List ℕ). length s ≤ 1) (ltb x 128) (x ∷ [])
      ((x % 128 + 128) ∷ groups fuel (x / 128)) (λ _. omega arith) (λ e. absurd (ground arith))
length-groups (suc fuel) (suc k) x h =
    if_elim (λ (s : List ℕ). length s ≤ suc (suc k)) (ltb x 128) (x ∷ [])
      ((x % 128 + 128) ∷ groups fuel (x / 128)) (λ _. omega arith)
      (λ _. omega (arith, length-groups fuel k (x / 128) h))

-- A varint of 32 bits has five bytes at most, one of 64 bits ten.
pub length-base128 : (x : ℕ) → x < 2 ^ 32 → length (base128 x) ≤ 5
length-base128 x h = length-groups 10 4 x (omega arith)

pub length-base128_long : (x : ℕ) → x < 2 ^ 64 → length (base128 x) ≤ 10
length-base128_long x h = length-groups 10 9 x (omega arith)

pub length-varint_field :
    (n x : ℕ) → n < 16 → x < 2 ^ 64 → length (encode_field (varint_field n x)) ≤ 15
length-varint_field n x hn hx = omega (
  arith,
  length-append (base128 (n * 8 + 0)) (base128 x),
  length-base128 (n * 8 + 0) (omega arith),
  length-base128_long x hx,
)
