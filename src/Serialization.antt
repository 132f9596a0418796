-- ===== src/Serialization.antt =====
-- src/common/serialization.h and src/common/direct_coded_output_stream.h: how fields are written in the
-- wire format of protobuf, into a CodedOutputStream or directly into memory. A stream is the bytes that
-- it has written; the functions of protobuf that are called are the fields of `CodedOutput`.
use lightstep_tracer_cpp.Base.{
  ℕ, zero, suc, ◌+◌, ◌*◌, ◌/◌, ◌%◌, ◌^◌, Bool, false, ◌||◌, List, [], ◌∷◌, ◌++◌, Option, none, some,
  ltb, leb, if◌then◌else◌, length, drop, bit_or,
}
pub mod BigVarint
pub mod Wire
pub mod Writers
pub mod KeyValue
pub mod Framing
pub mod Sizes
pub mod Span

pub data WireType : Type 0 where
  varint fixed64 length_delimited : WireType

-- The value of the enumerator.
abbrev pub wire_number : WireType → ℕ
wire_number WireType.varint = 0
wire_number fixed64 = 1
wire_number length_delimited = 2

-- `StaticSerializationKey`
abbrev pub static_serialization_key : ℕ → WireType → ℕ
static_serialization_key field w = bit_or (field * 8) (wire_number w) % 2 ^ 32

-- A CodedOutputStream, or a DirectCodedOutputStream on a buffer.
pub data Kind : Type 0 where
  coded direct : Kind

-- `overrun`: more has been written into a buffer than it holds.
pub record OutputStream : Type 0 where
  pub kind : Kind
  pub output : List ℕ
  pub overrun : Bool

abbrev pub put : List ℕ → OutputStream → OutputStream
put bs s = record s { output = s.output ++ bs }

abbrev pub direct_stream : OutputStream
direct_stream = record { kind = direct; output = []; overrun = false }

-- The static functions of CodedOutputStream, and GetDirectBufferForNBytesAndAdvance: of what has been
-- written and a size, the old contents of the buffer or none for a null pointer.
pub record CodedOutput : Type 0 where
  pub write_varint32 : ℕ → List ℕ
  pub write_varint64 : ℕ → List ℕ
  pub varint_size32 : ℕ → ℕ
  pub varint_size64 : ℕ → ℕ
  pub static_varint_size32 : ℕ → ℕ
  pub get_direct_buffer : List ℕ → ℕ → Option (List ℕ)

-- `DO_ITERATION`, so many times.
unfoldable pub do_iterations : ℕ → ℕ → List ℕ × ℕ
do_iterations zero x = ([], x)
do_iterations (suc k) x = let (bs, y) = do_iterations k (x / 128) in (bit_or x 0x80 % 256 ∷ bs, y)

-- What follows the eight unrolled iterations.
unfoldable pub last_bytes : ℕ → List ℕ
last_bytes x = if leb 0x80 x then bit_or x 0x80 % 256 ∷ x / 128 % 256 ∷ [] else x % 256 ∷ []

-- The stream that wrote into a buffer has left `s`: the buffer is a part of its output.
abbrev pub fill : List ℕ → OutputStream → OutputStream → OutputStream
fill old d s = record s {
  output = s.output ++ (d.output ++ drop (length d.output) old);
  overrun = s.overrun || d.overrun || ltb (length old) (length d.output);
}

module _ (P : CodedOutput) where
  abbrev pub static_key_serialization_size : ℕ → WireType → ℕ
  static_key_serialization_size field w = P.static_varint_size32 (static_serialization_key field w)

  -- `ComputeVarintSerializationSize` for 64 and for 32 bits.
  abbrev pub compute_varint64_size : ℕ → ℕ → ℕ
  compute_varint64_size field x =
      static_key_serialization_size field WireType.varint + P.varint_size64 x

  abbrev pub compute_varint32_size : ℕ → ℕ → ℕ
  compute_varint32_size field x =
      static_key_serialization_size field WireType.varint + P.varint_size32 x

  abbrev pub compute_length_delimited_header_size : ℕ → ℕ → ℕ
  compute_length_delimited_header_size field n =
      static_key_serialization_size field length_delimited + P.varint_size64 n

  abbrev pub compute_length_delimited_size : ℕ → ℕ → ℕ
  compute_length_delimited_size field n =
      static_key_serialization_size field length_delimited + P.varint_size64 n + n

  unfoldable pub write_big_varint64 : ℕ → List ℕ
  unfolding do_iterations last_bytes
  write_big_varint64 x =
      if ltb x (2 ^ 56)
      then P.write_varint64 x
      else (do_iterations 8 x).0 ++ last_bytes (do_iterations 8 x).1

  abbrev pub write_tag : ℕ → OutputStream → OutputStream
  write_tag key = put (P.write_varint32 key)

  abbrev pub write_key_length : ℕ → ℕ → OutputStream → OutputStream
  write_key_length field n s =
      put (P.write_varint32 (n % 2 ^ 32))
        (write_tag (static_serialization_key field length_delimited) s)

  abbrev pub write_fixed64 : ℕ → List ℕ → OutputStream → OutputStream
  write_fixed64 field bytes s = put bytes (write_tag (static_serialization_key field fixed64) s)

  abbrev pub write_varint64_field : ℕ → ℕ → OutputStream → OutputStream
  write_varint64_field field x s =
      put (P.write_varint64 x) (write_tag (static_serialization_key field WireType.varint) s)

  abbrev pub write_varint32_field : ℕ → ℕ → OutputStream → OutputStream
  write_varint32_field field x s =
      put (P.write_varint32 x) (write_tag (static_serialization_key field WireType.varint) s)

  -- The overload of `WriteBigVarint64` for the stream.
  abbrev pub big_varint64 : Kind → ℕ → List ℕ
  big_varint64 coded x = P.write_varint64 x
  big_varint64 direct x = write_big_varint64 x

  abbrev pub write_big_varint : ℕ → ℕ → OutputStream → OutputStream
  write_big_varint field x s =
      let t = write_tag (static_serialization_key field WireType.varint) s in
      put (big_varint64 t.kind x) t

  -- A writer of so many bytes on a CodedOutputStream: into the direct buffer if there is one.
  abbrev pub buffered :
      (OutputStream → OutputStream) → Option (List ℕ) → OutputStream → OutputStream
  buffered w none s = w s
  buffered w (some old) s = fill old (w direct_stream) s

  -- The overload for the stream.
  abbrev pub directly : Kind → ℕ → (OutputStream → OutputStream) → OutputStream → OutputStream
  directly coded n w s = buffered w (P.get_direct_buffer s.output n) s
  directly direct n w s = w s

  unfoldable pub write_length_delimited_field :
      ℕ → ℕ → (OutputStream → OutputStream) → OutputStream → OutputStream
  write_length_delimited_field field n serializer s =
      directly s.kind (compute_length_delimited_size field n)
        (λ t. serializer (write_key_length field n t)) s

  unfoldable pub write_string : ℕ → List ℕ → OutputStream → OutputStream
  unfolding write_length_delimited_field
  write_string field str = write_length_delimited_field field (length str) (put str)

  abbrev pub compute_timestamp_size : ℕ → ℕ → ℕ
  compute_timestamp_size seconds nanos =
      compute_varint64_size 1 seconds + compute_varint32_size 2 nanos

  abbrev pub write_timestamp_impl : ℕ → ℕ → OutputStream → OutputStream
  write_timestamp_impl seconds nanos s =
      write_varint32_field 2 nanos (write_varint64_field 1 seconds s)

  unfoldable pub write_timestamp : ℕ → ℕ → ℕ → ℕ → OutputStream → OutputStream
  unfolding write_length_delimited_field
  write_timestamp field n seconds nanos =
      write_length_delimited_field field n (write_timestamp_impl seconds nanos)
