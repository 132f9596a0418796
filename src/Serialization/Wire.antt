-- ===== src/Serialization/Wire.antt =====
-- The documented wire format of protobuf, which the code of src/common/serialization.h and what it calls
-- of protobuf agree on.
use lightstep_tracer_cpp.Base.{
  ℕ, zero, suc, ◌+◌, ◌*◌, ◌/◌, ◌%◌, ◌^◌, ◌<◌, ◌≡◌, List, [], ◌∷◌, ◌++◌, some, ltb, if◌then◌else◌,
  length,
}
use lightstep_tracer_cpp.Serialization.{CodedOutput}

-- A number in groups of seven bits, the lowest first; all but the last have the top bit set.
unfoldable pub groups : ℕ → ℕ → List ℕ
groups zero x = []
groups (suc fuel) x =
    let more = groups fuel (x / 128) in if ltb x 128 then x ∷ [] else (x % 128 + 128) ∷ more

-- Ten groups are enough for every uint64_t.
abbrev pub base128 : ℕ → List ℕ
base128 x = groups 10 x

pub data Field : Type 0 where
  varint_field : ℕ → ℕ → Field
  fixed64_field : ℕ → List ℕ → Field
  bytes_field : ℕ → List ℕ → Field

abbrev pub encode_field : Field → List ℕ
encode_field (varint_field n x) = base128 (n * 8 + 0) ++ base128 x
encode_field (fixed64_field n bs) = base128 (n * 8 + 1) ++ bs
encode_field (bytes_field n bs) = base128 (n * 8 + 2) ++ (base128 (length bs) ++ bs)

unfoldable pub encode : List Field → List ℕ
encode [] = []
encode (f ∷ fs) = encode_field f ++ encode fs

-- What protobuf promises of the functions that are called.
pub record IsProtobuf (P : CodedOutput) : Type 0 where
  pub write_varint32_lem : (x : ℕ) → x < 2 ^ 32 → P.write_varint32 x ≡ base128 x
  pub write_varint64_lem : (x : ℕ) → x < 2 ^ 64 → P.write_varint64 x ≡ base128 x
  pub varint_size32_lem : (x : ℕ) → x < 2 ^ 32 → P.varint_size32 x ≡ length (base128 x)
  pub varint_size64_lem : (x : ℕ) → x < 2 ^ 64 → P.varint_size64 x ≡ length (base128 x)
  pub static_varint_size32_lem :
      (x : ℕ) → x < 2 ^ 32 → P.static_varint_size32 x ≡ length (base128 x)
  pub get_direct_buffer_lem :
      (out : List ℕ) (n : ℕ) (old : List ℕ) → P.get_direct_buffer out n ≡ some old → length old ≡ n
