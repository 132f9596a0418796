-- ===== src/Serialization/Writers.antt =====
-- What the writers of src/common/serialization.h append to a stream, whatever buffers it hands out.
use lightstep_tracer_cpp.Base.{
  ℕ, ◌+◌, ◌*◌, ◌%◌, ◌^◌, ◌<◌, ◌≡◌, refl, ap, sym, ◌∙◌, List, ◌++◌, length, length-append,
  append_assoc, arith,
}
use lightstep_tracer_cpp.Base.Bits.{bit_or_octet}
use lightstep_tracer_cpp.Serialization.{
  CodedOutput, OutputStream, Kind, coded, direct, WireType, fixed64, length_delimited, wire_number,
  static_serialization_key, static_key_serialization_size, compute_varint64_size,
  compute_varint32_size, compute_length_delimited_size, put, write_tag, write_key_length,
  write_varint64_field, write_varint32_field, write_fixed64, write_big_varint,
  write_length_delimited_field, write_string, big_varint64, write_timestamp_impl, write_timestamp,
  compute_timestamp_size,
}
use lightstep_tracer_cpp.Serialization.Wire.{
  base128, encode_field, IsProtobuf, varint_field, fixed64_field, bytes_field,
}
use lightstep_tracer_cpp.Serialization.BigVarint.{write_big_varint64-base128}
pub mod Appending
pub use lightstep_tracer_cpp.Serialization.Writers.Appending.{
  directly-Writes, Writes, Writes-nothing, Writes-then,
}

abbrev pub IsField : ℕ → Type 0
IsField n = n < 2 ^ 29

pub wire_key :
    (n : ℕ) (w : WireType) → IsField n → static_serialization_key n w ≡ n * 8 + wire_number w
wire_key n w h = omega (arith, bit_or_octet n (wire_number w) (small w), small w)
  where
    small : (w : WireType) → wire_number w < 8
    small WireType.varint = omega arith
    small fixed64 = omega arith
    small length_delimited = omega arith

module _ (P : CodedOutput) (H : IsProtobuf P) where
  pub key_size :
      (n : ℕ) (w : WireType)
      → IsField n
      → static_key_serialization_size P n w ≡ length (base128 (n * 8 + wire_number w))
  key_size n w h =
      H.static_varint_size32_lem (static_serialization_key n w) (omega arith)
      ∙ ap (λ (k : ℕ). length (base128 k)) (wire_key n w h)

  write_tag-Writes :
      (n : ℕ) (w : WireType)
      → IsField n
      → Writes (write_tag P (static_serialization_key n w)) (base128 (n * 8 + wire_number w))
  write_tag-Writes n w h s =
      ap (λ (bs : List ℕ). put bs s)
        (H.write_varint32_lem (static_serialization_key n w) (omega arith)
          ∙ ap base128 (wire_key n w h))

  -- A key, and what is put behind it.
  keyed-Writes :
      (n : ℕ) (w : WireType) (bs cs : List ℕ)
      → IsField n
      → bs ≡ cs
      → Writes
          (λ s. put bs (write_tag P (static_serialization_key n w) s))
          (base128 (n * 8 + wire_number w) ++ cs)
  keyed-Writes n w bs cs h e =
      Writes-then (write_tag P (static_serialization_key n w)) (put bs)
        (base128 (n * 8 + wire_number w)) cs (write_tag-Writes n w h)
        (λ s. ap (λ (x : List ℕ). put x s) e)

  pub write_key_length-Writes :
      (n len : ℕ)
      → IsField n
      → len < 2 ^ 32
      → Writes (write_key_length P n len) (base128 (n * 8 + 2) ++ base128 len)
  write_key_length-Writes n len h small =
      keyed-Writes n length_delimited _ (base128 len) h
        (H.write_varint32_lem (len % 2 ^ 32) (omega arith) ∙ ap base128 (the_length len small))
    where
      the_length : (len : ℕ) → len < 2 ^ 32 → len % 2 ^ 32 ≡ len
      the_length len h = omega arith

  pub write_varint64_field-Writes :
      (n x : ℕ)
      → IsField n
      → x < 2 ^ 64
      → Writes (write_varint64_field P n x) (encode_field (varint_field n x))
  write_varint64_field-Writes n x h small =
      keyed-Writes n WireType.varint _ (base128 x) h (H.write_varint64_lem x small)

  pub write_varint32_field-Writes :
      (n x : ℕ)
      → IsField n
      → x < 2 ^ 32
      → Writes (write_varint32_field P n x) (encode_field (varint_field n x))
  write_varint32_field-Writes n x h small =
      keyed-Writes n WireType.varint _ (base128 x) h (H.write_varint32_lem x small)

  pub write_fixed64-Writes :
      (n : ℕ) (bs : List ℕ)
      → IsField n
      → Writes (write_fixed64 P n bs) (encode_field (fixed64_field n bs))
  write_fixed64-Writes n bs h = keyed-Writes n fixed64 bs bs h refl

  pub write_big_varint-Writes :
      (n x : ℕ)
      → IsField n
      → x < 2 ^ 64
      → Writes (write_big_varint P n x) (encode_field (varint_field n x))
  write_big_varint-Writes n x h small s =
      keyed-Writes n WireType.varint _ (base128 x) h (by_kind s.kind) s
    where
      by_kind : (k : Kind) → big_varint64 P k x ≡ base128 x
      by_kind coded = H.write_varint64_lem x small
      by_kind direct = write_big_varint64-base128 P H x small

  pub compute_varint64_size_lem :
      (n x : ℕ)
      → IsField n
      → x < 2 ^ 64
      → compute_varint64_size P n x ≡ length (encode_field (varint_field n x))
  compute_varint64_size_lem n x h small = omega (
    arith,
    key_size n WireType.varint h,
    H.varint_size64_lem x small,
    length-append (base128 (n * 8 + 0)) (base128 x),
  )

  pub compute_varint32_size_lem :
      (n x : ℕ)
      → IsField n
      → x < 2 ^ 32
      → compute_varint32_size P n x ≡ length (encode_field (varint_field n x))
  compute_varint32_size_lem n x h small = omega (
    arith,
    key_size n WireType.varint h,
    H.varint_size32_lem x small,
    length-append (base128 (n * 8 + 0)) (base128 x),
  )

  pub compute_length_delimited_size_lem :
      (n : ℕ) (bs : List ℕ)
      → IsField n
      → length bs < 2 ^ 64
      → compute_length_delimited_size P n (length bs) ≡ length (encode_field (bytes_field n bs))
  compute_length_delimited_size_lem n bs h small = omega (
    arith,
    key_size n length_delimited h,
    H.varint_size64_lem (length bs) small,
    length-append (base128 (n * 8 + 2)) (base128 (length bs) ++ bs),
    length-append (base128 (length bs)) bs,
  )

  pub write_length_delimited_field-Writes :
      (n : ℕ) (w : OutputStream → OutputStream) (bs : List ℕ)
      → IsField n
      → length bs < 2 ^ 32
      → Writes w bs
      → Writes (write_length_delimited_field P n (length bs) w) (encode_field (bytes_field n bs))
  unfolding write_length_delimited_field
  write_length_delimited_field-Writes n w bs h small k s =
      directly-Writes P H s.kind (compute_length_delimited_size P n (length bs))
        (λ t. w (write_key_length P n (length bs) t)) (encode_field (bytes_field n bs)) s
        (rw (append_assoc (base128 (n * 8 + 2)) (base128 (length bs)) bs) at (
          Writes-then (write_key_length P n (length bs)) w
            (base128 (n * 8 + 2) ++ base128 (length bs)) bs
            (write_key_length-Writes n (length bs) h small) k))
        (sym (compute_length_delimited_size_lem n bs h (omega arith)))

  pub write_string-Writes :
      (n : ℕ) (str : List ℕ)
      → IsField n
      → length str < 2 ^ 32
      → Writes (write_string P n str) (encode_field (bytes_field n str))
  unfolding write_string
  write_string-Writes n str h small =
      write_length_delimited_field-Writes n (put str) str h small (λ s. refl)

  write_timestamp_impl-Writes :
      (seconds nanos : ℕ)
      → seconds < 2 ^ 64
      → nanos < 2 ^ 32
      → Writes
          (write_timestamp_impl P seconds nanos)
          (encode_field (varint_field 1 seconds) ++ encode_field (varint_field 2 nanos))
  write_timestamp_impl-Writes seconds nanos hs hn =
      Writes-then (write_varint64_field P 1 seconds) (write_varint32_field P 2 nanos)
        (encode_field (varint_field 1 seconds)) (encode_field (varint_field 2 nanos))
        (write_varint64_field-Writes 1 seconds (omega arith) hs)
        (write_varint32_field-Writes 2 nanos (omega arith) hn)

  pub compute_timestamp_size_lem :
      (seconds nanos : ℕ)
      → seconds < 2 ^ 64
      → nanos < 2 ^ 32
      → compute_timestamp_size P seconds nanos
        ≡ length (encode_field (varint_field 1 seconds) ++ encode_field (varint_field 2 nanos))
  compute_timestamp_size_lem seconds nanos hs hn = omega (
    arith,
    compute_varint64_size_lem 1 seconds (omega arith) hs,
    compute_varint32_size_lem 2 nanos (omega arith) hn,
    length-append (encode_field (varint_field 1 seconds)) (encode_field (varint_field 2 nanos)),
  )

  pub write_timestamp-Writes :
      (n seconds nanos : ℕ)
      → IsField n
      → seconds < 2 ^ 64
      → nanos < 2 ^ 32
      → length (encode_field (varint_field 1 seconds) ++ encode_field (varint_field 2 nanos))
        < 2 ^ 32
      → Writes (write_timestamp P n (compute_timestamp_size P seconds nanos) seconds nanos) (
          encode_field (
            bytes_field n
              (encode_field (varint_field 1 seconds) ++ encode_field (varint_field 2 nanos))))
  unfolding write_timestamp
  write_timestamp-Writes n seconds nanos h hs hn small =
      rw (compute_timestamp_size_lem seconds nanos hs hn) (
        write_length_delimited_field-Writes n (write_timestamp_impl P seconds nanos)
          (encode_field (varint_field 1 seconds) ++ encode_field (varint_field 2 nanos)) h small
          (write_timestamp_impl-Writes seconds nanos hs hn))
