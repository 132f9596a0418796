-- ===== src/Serialization/KeyValue/Output.antt =====
-- What the visitors of src/common/serialization.cpp compute and write, against the fields of the message.
use lightstep_tracer_cpp.Base.{
  ℕ, ◌+◌, ◌*◌, ◌^◌, ◌<◌, ◌≡◌, ap, ◌∙◌, Bool, true, false, List, [], ◌∷◌, ◌++◌, Option, some,
  get_elem?, length, length-append, append-nil, append_assoc, arith,
}
use lightstep_tracer_cpp.Value.{
  Value, bool_value, double_value, int64_value, uint64_value, string_value, null_value,
  c_string_value, values_value, dictionary_value, Doubles, to_json,
}
use lightstep_tracer_cpp.Serialization.{
  CodedOutput, OutputStream, fixed64, write_key_length, write_string,
}
use lightstep_tracer_cpp.Serialization.Wire.{
  Field, base128, encode, encode_field, IsProtobuf, varint_field, fixed64_field, bytes_field,
}
use lightstep_tracer_cpp.Serialization.Writers.{
  Writes, Writes-then, write_key_length-Writes, write_varint64_field-Writes,
  write_varint32_field-Writes, write_fixed64-Writes, write_string-Writes, key_size,
  compute_varint64_size_lem, compute_varint32_size_lem, compute_length_delimited_size_lem,
}
use lightstep_tracer_cpp.Serialization.KeyValue.{
  JsonState, bool_number, json_size, value_size, compute_key_value_size, write_json_value,
  write_json_at, write_value, write_key_value_impl, write_key_value,
}

bool_number-small : (b : Bool) → bool_number b < 2 ^ 32
bool_number-small true = omega arith
bool_number-small false = omega arith

module _ (D : Doubles) where
  -- The field of the `value` oneof of collector::KeyValue.
  abbrev pub value_field : Value → Field
  value_field (bool_value b) = varint_field 5 (bool_number b)
  value_field (double_value x) = fixed64_field 4 x
  value_field (int64_value n) = varint_field 3 n
  value_field (uint64_value n) = varint_field 3 n
  value_field (string_value s) = bytes_field 2 s
  value_field null_value = varint_field 5 0
  value_field (c_string_value s) = bytes_field 2 s
  value_field (values_value vs) = bytes_field 6 (to_json D (values_value vs))
  value_field (dictionary_value d) = bytes_field 6 (to_json D (dictionary_value d))

  -- The numbers have 64 bits, and the texts fit an `uint32_t`.
  abbrev pub Fits : Value → Type 0
  Fits (bool_value b) = 0 < 1
  Fits (double_value x) = length x ≡ 8
  Fits (int64_value n) = n < 2 ^ 64
  Fits (uint64_value n) = n < 2 ^ 64
  Fits (string_value s) = length s < 2 ^ 32
  Fits null_value = 0 < 1
  Fits (c_string_value s) = length s < 2 ^ 32
  Fits (values_value vs) = length (to_json D (values_value vs)) < 2 ^ 32
  Fits (dictionary_value d) = length (to_json D (dictionary_value d)) < 2 ^ 32

  -- The JSON that a value adds to the array.
  abbrev pub own_json : Value → List (List ℕ)
  own_json (values_value vs) = to_json D (values_value vs) ∷ []
  own_json (dictionary_value d) = to_json D (dictionary_value d) ∷ []
  own_json v = []

  -- The array has the JSON of the value, if it needs one, at the counter.
  abbrev pub IsReady : Value → List (List ℕ) → ℕ → Type 0
  IsReady (values_value vs) jsons k = get_elem? jsons k ≡ some (to_json D (values_value vs))
  IsReady (dictionary_value d) jsons k = get_elem? jsons k ≡ some (to_json D (dictionary_value d))
  IsReady v jsons k = 0 < 1

  unfoldable pub key_value_fields : List ℕ → Value → List Field
  key_value_fields key v = bytes_field 1 key ∷ value_field v ∷ []

module _ (D : Doubles) (P : CodedOutput) (H : IsProtobuf P) where
  pub value_size_lem :
      (v : Value) (t : JsonState)
      → Fits D v
      → (value_size D P v t).0 ≡ length (encode_field (value_field D v))
  unfolding value_size json_size
  value_size_lem (bool_value b) t h =
      compute_varint32_size_lem P H 5 (bool_number b) (omega arith) (bool_number-small b)
  value_size_lem (double_value x) t h =
      omega (arith, key_size P H 4 fixed64 (omega arith), length-append (base128 33) x)
  value_size_lem (int64_value n) t h = compute_varint64_size_lem P H 3 n (omega arith) h
  value_size_lem (uint64_value n) t h = compute_varint64_size_lem P H 3 n (omega arith) h
  value_size_lem (string_value s) t h =
      compute_length_delimited_size_lem P H 2 s (omega arith) (omega arith)
  value_size_lem null_value t h = compute_varint32_size_lem P H 5 0 (omega arith) (omega arith)
  value_size_lem (c_string_value s) t h =
      compute_length_delimited_size_lem P H 2 s (omega arith) (omega arith)
  value_size_lem (values_value vs) t h =
      compute_length_delimited_size_lem P H 6 (to_json D (values_value vs)) (omega arith)
        (omega arith)
  value_size_lem (dictionary_value d) t h =
      compute_length_delimited_size_lem P H 6 (to_json D (dictionary_value d)) (omega arith)
        (omega arith)

  write_json_at-Writes :
      (json : List ℕ) (jsons : List (List ℕ)) (k : ℕ)
      → length json < 2 ^ 32
      → get_elem? jsons k ≡ some json
      → Writes (λ s. (write_json_at P jsons k s).0) (encode_field (bytes_field 6 json))
  unfolding write_json_at
  write_json_at-Writes json jsons k h e s =
      ap (λ (o : Option (List ℕ)). write_json_value P o s) e
      ∙ write_string-Writes P H 6 json (omega arith) h s

  pub write_value-counter :
      (v : Value) (jsons : List (List ℕ)) (k : ℕ) (s : OutputStream)
      → (write_value P v jsons k s).1 ≡ k + length (own_json D v)
  unfolding write_value write_json_at
  write_value-counter (bool_value b) jsons k s = omega arith
  write_value-counter (double_value x) jsons k s = omega arith
  write_value-counter (int64_value n) jsons k s = omega arith
  write_value-counter (uint64_value n) jsons k s = omega arith
  write_value-counter (string_value x) jsons k s = omega arith
  write_value-counter null_value jsons k s = omega arith
  write_value-counter (c_string_value x) jsons k s = omega arith
  write_value-counter (values_value vs) jsons k s = omega arith
  write_value-counter (dictionary_value d) jsons k s = omega arith

  pub write_value-Writes :
      (v : Value) (jsons : List (List ℕ)) (k : ℕ)
      → Fits D v
      → IsReady D v jsons k
      → Writes (λ s. (write_value P v jsons k s).0) (encode_field (value_field D v))
  unfolding write_value
  write_value-Writes (bool_value b) jsons k h r =
      write_varint32_field-Writes P H 5 (bool_number b) (omega arith) (bool_number-small b)
  write_value-Writes (double_value x) jsons k h r = write_fixed64-Writes P H 4 x (omega arith)
  write_value-Writes (int64_value n) jsons k h r =
      write_varint64_field-Writes P H 3 n (omega arith) h
  write_value-Writes (uint64_value n) jsons k h r =
      write_varint64_field-Writes P H 3 n (omega arith) h
  write_value-Writes (string_value x) jsons k h r = write_string-Writes P H 2 x (omega arith) h
  write_value-Writes null_value jsons k h r =
      write_varint32_field-Writes P H 5 0 (omega arith) (omega arith)
  write_value-Writes (c_string_value x) jsons k h r = write_string-Writes P H 2 x (omega arith) h
  write_value-Writes (values_value vs) jsons k h r =
      write_json_at-Writes (to_json D (values_value vs)) jsons k h r
  write_value-Writes (dictionary_value d) jsons k h r =
      write_json_at-Writes (to_json D (dictionary_value d)) jsons k h r

  encode-key_value :
      (key : List ℕ) (v : Value)
      → encode (key_value_fields D key v)
        ≡ encode_field (bytes_field 1 key) ++ encode_field (value_field D v)
  unfolding encode key_value_fields
  encode-key_value key v =
      ap (λ (bs : List ℕ). encode_field (bytes_field 1 key) ++ bs)
        (append-nil (encode_field (value_field D v)))

  pub compute_key_value_size_lem :
      (key : List ℕ) (v : Value) (t : JsonState)
      → length key < 2 ^ 32
      → Fits D v
      → (compute_key_value_size D P key v t).0 ≡ length (encode (key_value_fields D key v))
  unfolding compute_key_value_size
  compute_key_value_size_lem key v t hk hv = rw (encode-key_value key v) (
      omega (
        arith,
        compute_length_delimited_size_lem P H 1 key (omega arith) (omega arith),
        value_size_lem v t hv,
        length-append (encode_field (bytes_field 1 key)) (encode_field (value_field D v)),
      ))

  pub write_key_value_impl-Writes :
      (key : List ℕ) (v : Value) (jsons : List (List ℕ)) (k : ℕ)
      → length key < 2 ^ 32
      → Fits D v
      → IsReady D v jsons k
      → Writes (λ s. (write_key_value_impl P key v jsons k s).0) (encode (key_value_fields D key v))
  unfolding write_key_value_impl
  write_key_value_impl-Writes key v jsons k hk hv r = rw (encode-key_value key v) (
      Writes-then (write_string P 1 key) (λ s. (write_value P v jsons k s).0)
        (encode_field (bytes_field 1 key)) (encode_field (value_field D v))
        (write_string-Writes P H 1 key (omega arith) hk) (write_value-Writes v jsons k hv r))

  -- The message of a key and a value, as a field.
  pub write_key_value-Writes :
      (n : ℕ) (key : List ℕ) (v : Value) (jsons : List (List ℕ)) (k : ℕ)
      → n < 2 ^ 29
      → length key < 2 ^ 32
      → Fits D v
      → IsReady D v jsons k
      → length (encode (key_value_fields D key v)) < 2 ^ 32
      → Writes
          (λ s.
            (write_key_value P n (length (encode (key_value_fields D key v))) key v jsons k s).0)
          (encode_field (bytes_field n (encode (key_value_fields D key v))))
  unfolding write_key_value
  write_key_value-Writes n key v jsons k hn hk hv r small =
      rw (append_assoc (base128 (n * 8 + 2)) (base128 (length body)) body) at (
        Writes-then (write_key_length P n (length body))
          (λ s. (write_key_value_impl P key v jsons k s).0)
          (base128 (n * 8 + 2) ++ base128 (length body)) body
          (write_key_length-Writes P H n (length body) hn small)
          (write_key_value_impl-Writes key v jsons k hk hv r))
    where
      body : List ℕ
      body = encode (key_value_fields D key v)
