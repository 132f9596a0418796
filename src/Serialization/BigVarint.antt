-- ===== src/Serialization/BigVarint.antt =====
-- `WriteBigVarint64` of src/common/direct_coded_output_stream.h against the varint of the wire format.
use lightstep_tracer_cpp.Base.{
  ℕ, zero, suc, ◌+◌, ◌/◌, ◌%◌, ◌^◌, ◌≤◌, ◌<◌, ◌≡◌, refl, ap, sym, ◌∙◌, List, [], ◌∷◌, ◌++◌, ltb,
  leb, if_elim, bit_or, arith,
}
use lightstep_tracer_cpp.Base.Bits.{bit_or_top}
use lightstep_tracer_cpp.Serialization.{CodedOutput, do_iterations, last_bytes, write_big_varint64}
use lightstep_tracer_cpp.Serialization.Wire.{groups, base128, IsProtobuf}

-- Each of `k` groups has another one behind it.
abbrev IsLong : ℕ → ℕ → Type 0
IsLong zero x = zero ≤ x
IsLong (suc k) x = (128 ≤ x) × IsLong k (x / 128)

abbrev behind : ℕ → ℕ → ℕ
behind zero x = x
behind (suc k) x = behind k (x / 128)

-- The fuel for `k` groups in front.
abbrev further : ℕ → ℕ → ℕ
further zero fuel = fuel
further (suc k) fuel = suc (further k fuel)

do_iterations-behind : (k x : ℕ) → (do_iterations k x).1 ≡ behind k x
unfolding do_iterations
do_iterations-behind zero x = refl
do_iterations-behind (suc k) x = do_iterations-behind k (x / 128)

groups-more : (fuel x : ℕ) → 128 ≤ x → groups (suc fuel) x ≡ (x % 128 + 128) ∷ groups fuel (x / 128)
unfolding groups
groups-more fuel x h =
    if_elim (λ s. s ≡ (x % 128 + 128) ∷ groups fuel (x / 128)) (ltb x 128) (x ∷ [])
      ((x % 128 + 128) ∷ groups fuel (x / 128)) (λ e. absurd (ground arith)) (λ _. refl)

groups-last : (fuel x : ℕ) → x < 128 → groups (suc fuel) x ≡ x ∷ []
unfolding groups
groups-last fuel x h =
    if_elim (λ s. s ≡ x ∷ []) (ltb x 128) (x ∷ []) ((x % 128 + 128) ∷ groups fuel (x / 128))
      (λ _. refl) (λ e. absurd (ground arith))

groups-do_iterations :
    (k fuel x : ℕ)
    → IsLong k x
    → groups (further k fuel) x ≡ (do_iterations k x).0 ++ groups fuel (do_iterations k x).1
unfolding do_iterations
groups-do_iterations zero fuel x h = refl
groups-do_iterations (suc k) fuel x (more, h) =
    rw (← groups-more (further k fuel) x more, ← bit_or_top x) at
      (ap (λ (bs : List ℕ). (x % 128 + 128) ∷ bs) (groups-do_iterations k fuel (x / 128) h))

byte_lem : (x : ℕ) → x < 256 → x ≡ x % 256
byte_lem x h = omega arith

groups-last_bytes : (x : ℕ) → x < 256 → groups 2 x ≡ last_bytes x
unfolding last_bytes
groups-last_bytes x small =
    if_elim (λ s. groups 2 x ≡ s) (leb 0x80 x) (bit_or x 0x80 % 256 ∷ x / 128 % 256 ∷ [])
      (x % 256 ∷ [])
      (λ e.
        groups-more 1 x (ground arith)
        ∙ (ap (λ (b : ℕ). b ∷ groups 1 (x / 128)) (sym (bit_or_top x))
            ∙ ap (λ (bs : List ℕ). (bit_or x 0x80 % 256) ∷ bs)
                (groups-last 0 (x / 128) (omega arith)
                  ∙ ap (λ (y : ℕ). y ∷ []) (byte_lem (x / 128) (omega arith)))))
      (λ e. groups-last 1 x (ground arith) ∙ ap (λ (y : ℕ). y ∷ []) (byte_lem x small))

IsLong-large : (x : ℕ) → 2 ^ 56 ≤ x → IsLong 8 x
IsLong-large x h = (
  omega arith,
  (
    omega arith,
    (
      omega arith,
      (omega arith, (omega arith, (omega arith, (omega arith, (omega arith, omega arith))))),
    ),
  ),
)

behind-small : (x : ℕ) → x < 2 ^ 64 → behind 8 x < 256
behind-small x h = omega arith

big_bytes :
    (x : ℕ)
    → 2 ^ 56 ≤ x
    → x < 2 ^ 64
    → (do_iterations 8 x).0 ++ last_bytes (do_iterations 8 x).1 ≡ base128 x
big_bytes x large small = sym (
    groups-do_iterations 8 2 x (IsLong-large x large)
    ∙ ap (λ (bs : List ℕ). (do_iterations 8 x).0 ++ bs)
        (groups-last_bytes (do_iterations 8 x).1
          (rw (do_iterations-behind 8 x) (behind-small x small))))

-- On every 64-bit number WriteBigVarint64, which writes eight bytes without a test where the number has
-- more than 56 bits, writes the varint of the wire format, if protobuf's own WriteVarint64 does.
pub write_big_varint64-base128 :
    (P : CodedOutput) → IsProtobuf P → (x : ℕ) → x < 2 ^ 64 → write_big_varint64 P x ≡ base128 x
unfolding write_big_varint64
write_big_varint64-base128 P H x small =
    if_elim (λ s. s ≡ base128 x) (ltb x (2 ^ 56)) (P.write_varint64 x)
      ((do_iterations 8 x).0 ++ last_bytes (do_iterations 8 x).1)
      (λ _. H.write_varint64_lem x small) (λ e. big_bytes x (ground arith) small)
