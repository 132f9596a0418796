-- ===== src/Tests/Serialization.antt =====
-- Runs of the writers of protobuf fields, on streams with and without direct buffers.
use lightstep_tracer_cpp.Base.{
  ℕ, ◌<◌, ◌^◌, ◌≡◌, refl, Bool, true, false, List, [], ◌∷◌, ◌++◌, Option, none, some, codes, length,
  replicate, if◌then◌else◌, length-replicate, ltb, if◌then◌else◌, arith,
}
use lightstep_tracer_cpp.Decimal.{print_uint64}
use lightstep_tracer_cpp.Value.Json.Reader.{read_string, plain}
use lightstep_tracer_cpp.Value.Json.{escaped, has_coded, read-to_json, to_json-after_text}
use lightstep_tracer_cpp.Serialization.KeyValue.Output.{key_value_fields}
use lightstep_tracer_cpp.Value.{
  Doubles, string_value, uint64_value, values_value, more_values, no_values, to_json, print_hex,
}
use lightstep_tracer_cpp.Serialization.{CodedOutput, OutputStream, coded, put, write_big_varint64}
use lightstep_tracer_cpp.Serialization.Wire.{
  base128, groups, encode, encode_field, IsProtobuf, bytes_field,
}
use lightstep_tracer_cpp.Serialization.BigVarint.{write_big_varint64-base128}
use lightstep_tracer_cpp.Serialization.Span.{
  KeyValue, follows_from, write_span_context, write_span_reference, write_log,
}
use lightstep_tracer_cpp.Serialization.Span.Context.{
  FitsItem, context_fields, baggage_fields, entry_fields, write_span_context-encode,
}
use lightstep_tracer_cpp.Serialization.Span.Parts.{timestamp_fields}
use lightstep_tracer_cpp.Serialization.Span.Log.{FitsKeyValue, log_message, write_log-encode}

abbrev buffer_if : Bool → ℕ → Option (List ℕ)
buffer_if true n = some (replicate n 7)
buffer_if false n = none

-- Protobuf, with a buffer for every request below 100 bytes.
abbrev sample_buffer : List ℕ → ℕ → Option (List ℕ)
sample_buffer out n = buffer_if (ltb n 100) n

abbrev pub sample_protobuf : CodedOutput
sample_protobuf = record {
  write_varint32 = base128;
  write_varint64 = base128;
  varint_size32 = λ x. length (base128 x);
  varint_size64 = λ x. length (base128 x);
  static_varint_size32 = λ x. length (base128 x);
  get_direct_buffer = sample_buffer;
}

buffer_if-length : (n : ℕ) (old : List ℕ) (b : Bool) → buffer_if b n ≡ some old → length old ≡ n
buffer_if-length n old true e = rw (replicated e) at (length-replicate {A = ℕ} n 7)
  where
    replicated : some (replicate n 7) ≡ some old → replicate n 7 ≡ old
    replicated e = cc
buffer_if-length n old false e = absurd (no_buffer e)
  where
    no_buffer : none ≡ some old → ⊥
    no_buffer e = cc

sample_buffer_lem :
    (out : List ℕ) (n : ℕ) (old : List ℕ) → sample_buffer out n ≡ some old → length old ≡ n
sample_buffer_lem out n old e = buffer_if-length n old (ltb n 100) e

pub sample_protobuf_lem : IsProtobuf sample_protobuf
sample_protobuf_lem = record {
  write_varint32_lem = λ x h. refl;
  write_varint64_lem = λ x h. refl;
  varint_size32_lem = λ x h. refl;
  varint_size64_lem = λ x h. refl;
  static_varint_size32_lem = λ x h. refl;
  get_direct_buffer_lem = sample_buffer_lem;
}

abbrev no_output : OutputStream
no_output = record { kind = coded; output = 1 ∷ []; overrun = false }

write_big_varint64-base128_example :
    write_big_varint64 sample_protobuf 0xfedcba9876543210 ≡ base128 0xfedcba9876543210
write_big_varint64-base128_example =
    write_big_varint64-base128 sample_protobuf sample_protobuf_lem 0xfedcba9876543210 (omega arith)

-- A reference, as its bytes, with the buffers that the stream hands out.
reference_bytes :
    (write_span_reference sample_protobuf follows_from 5 6 no_output).output
    ≡ 1 ∷ 26 ∷ 8 ∷ 8 ∷ 1 ∷ 18 ∷ 4 ∷ 8 ∷ 5 ∷ 16 ∷ 6 ∷ []
unfolding write_span_reference groups write_big_varint64
reference_bytes = refl

sample_item : FitsItem (codes "user", codes "42")
unfolding entry_fields encode groups
sample_item = record { key = omega arith; value = omega arith; entry = omega arith }

sample_context_small :
    length (encode (context_fields (2 ^ 63) 6 ((codes "user", codes "42") ∷ []))) < 2 ^ 32
unfolding context_fields baggage_fields entry_fields encode groups
sample_context_small = omega arith

write_span_context-encode_example :
    write_span_context sample_protobuf (2 ^ 63) 6 ((codes "user", codes "42") ∷ []) no_output
    ≡ put
        (encode_field
          (bytes_field 1 (encode (context_fields (2 ^ 63) 6 ((codes "user", codes "42") ∷ [])))))
        no_output
write_span_context-encode_example =
    write_span_context-encode sample_protobuf sample_protobuf_lem (2 ^ 63) 6
      ((codes "user", codes "42") ∷ []) (omega arith) (omega arith) (sample_item, tt)
      sample_context_small no_output

abbrev sample_doubles : Doubles
sample_doubles = record {
  is_nan = λ x. false;
  is_inf = λ x. false;
  signbit = λ x. false;
  print_double = λ x. codes "0.5";
}

abbrev sample_fields : List KeyValue
sample_fields =
    (codes "a", values_value (more_values (uint64_value 1) no_values))
    ∷ (codes "b", uint64_value 300)
    ∷ (codes "c", values_value no_values)
    ∷ []

sample_json :
    (to_json sample_doubles (values_value (more_values (uint64_value 1) no_values)) ≡ codes "[1]")
    × (to_json sample_doubles (values_value no_values) ≡ codes "[]")
unfolding to_json
sample_json = (refl, refl)

sample_field_1 :
    FitsKeyValue sample_doubles (codes "a", values_value (more_values (uint64_value 1) no_values))
unfolding to_json key_value_fields encode groups
sample_field_1 = record { key = omega arith; value = omega arith; message = omega arith }

sample_field_2 : FitsKeyValue sample_doubles (codes "b", uint64_value 300)
unfolding key_value_fields encode groups
sample_field_2 = record { key = omega arith; value = omega arith; message = omega arith }

sample_field_3 : FitsKeyValue sample_doubles (codes "c", values_value no_values)
unfolding to_json key_value_fields encode groups
sample_field_3 = record { key = omega arith; value = omega arith; message = omega arith }

sample_log_small : length (encode (log_message sample_doubles 1500000000 sample_fields)) < 2 ^ 32
unfolding log_message timestamp_fields to_json key_value_fields encode groups
sample_log_small = omega arith

write_log-encode_example :
    write_log sample_doubles sample_protobuf 1500000000 sample_fields no_output
    ≡ put
        (encode_field
          (bytes_field 7 (encode (log_message sample_doubles 1500000000 sample_fields))))
        no_output
write_log-encode_example =
    write_log-encode sample_doubles sample_protobuf sample_protobuf_lem 1500000000 sample_fields
      (omega arith) (sample_field_1, (sample_field_2, (sample_field_3, tt))) sample_log_small
      no_output

-- What follows the quote is the text `say "hi"`, a line feed, and the quote at the end.
read-to_json_example :
    (t : List ℕ) × (to_json sample_doubles (string_value (codes "say \"hi\"" ++ (10 ∷ 1 ∷ [])))
      ≡ b'"' ∷ t)
    × (read_string plain t ≡ some (codes "say \"hi\"" ++ (10 ∷ 1 ∷ []), []))
read-to_json_example = read-to_json sample_doubles (codes "say \"hi\"" ++ (10 ∷ 1 ∷ []))

to_json-after_text_example :
    to_json sample_doubles
      (values_value (more_values (string_value (1 ∷ [])) (more_values (uint64_value 17) no_values)))
    ≡ codes "[\""
      ++ (escaped (1 ∷ [])
          ++ (codes "\","
              ++ ((if has_coded (1 ∷ []) then print_hex 17 else print_uint64 17) ++ codes "]")))
to_json-after_text_example = to_json-after_text sample_doubles (1 ∷ []) 17

-- The number 17 behind a control character.
hex_number :
    to_json sample_doubles
      (values_value (more_values (string_value (1 ∷ [])) (more_values (uint64_value 17) no_values)))
    ≡ codes "[\"\\u0001\",11]"
unfolding to_json
hex_number = refl
