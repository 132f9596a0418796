-- ===== src/Serialization/KeyValue.antt =====
-- The serialization of a key with its value, src/common/serialization.cpp. The JSON of a value is made
-- when sizes are computed and is looked up by a counter when the value is written.
use lightstep_tracer_cpp.Base.{
  ℕ, ◌+◌, Bool, true, false, List, [], ◌∷◌, Option, none, some, get_elem?, length, if◌then◌else◌,
}
use lightstep_tracer_cpp.Value.{
  Value, bool_value, double_value, int64_value, uint64_value, string_value, null_value,
  c_string_value, values_value, dictionary_value, Doubles, to_json,
}
use lightstep_tracer_cpp.Serialization.{
  CodedOutput, OutputStream, fixed64, static_key_serialization_size, compute_varint64_size,
  compute_varint32_size, compute_length_delimited_size, write_key_length, write_varint64_field,
  write_varint32_field, write_fixed64, write_string,
}
pub mod Output

-- `json` and `json_counter`
pub record JsonState : Type 0 where
  pub json : List ℕ
  pub json_counter : ℕ

abbrev pub bool_number : Bool → ℕ
bool_number b = if b then 1 else 0

module _ (D : Doubles) (P : CodedOutput) where
  -- `do_json` of the visitor of sizes
  unfoldable pub json_size : Value → JsonState → ℕ × JsonState
  unfolding to_json
  json_size v t =
      let json = to_json D v in
      (
        compute_length_delimited_size P 6 (length json),
        record { json = json; json_counter = t.json_counter + 1 },
      )

  -- `SerializationSizeValueVisitor`
  unfoldable pub value_size : Value → JsonState → ℕ × JsonState
  unfolding json_size
  value_size (bool_value b) t = (compute_varint32_size P 5 (bool_number b), t)
  value_size (double_value x) t = (static_key_serialization_size P 4 fixed64 + 8, t)
  value_size (int64_value n) t = (compute_varint64_size P 3 n, t)
  value_size (uint64_value n) t = (compute_varint64_size P 3 n, t)
  value_size (string_value s) t = (compute_length_delimited_size P 2 (length s), t)
  value_size null_value t = (compute_varint32_size P 5 (bool_number false), t)
  value_size (c_string_value s) t = (compute_length_delimited_size P 2 (length s), t)
  value_size (values_value vs) t = json_size (values_value vs) t
  value_size (dictionary_value d) t = json_size (dictionary_value d) t

  unfoldable pub compute_key_value_size : List ℕ → Value → JsonState → ℕ × JsonState
  unfolding value_size
  compute_key_value_size key v t =
      let (n, t') = value_size v t in (compute_length_delimited_size P 1 (length key) + n, t')

module _ (P : CodedOutput) where
  -- A string of the array; behind its end, what is written is no string.
  abbrev pub write_json_value : Option (List ℕ) → OutputStream → OutputStream
  write_json_value none s = record s { overrun = true }
  write_json_value (some json) s = write_string P 6 json s

  -- `do_json` of the visitor that writes
  unfoldable pub write_json_at : List (List ℕ) → ℕ → OutputStream → OutputStream × ℕ
  unfolding write_string
  write_json_at jsons k s = (write_json_value (get_elem? jsons k) s, k + 1)

  -- `SerializationValueVisitor`
  unfoldable pub write_value : Value → List (List ℕ) → ℕ → OutputStream → OutputStream × ℕ
  unfolding write_string write_json_at
  write_value (bool_value b) jsons k s = (write_varint32_field P 5 (bool_number b) s, k)
  write_value (double_value x) jsons k s = (write_fixed64 P 4 x s, k)
  write_value (int64_value n) jsons k s = (write_varint64_field P 3 n s, k)
  write_value (uint64_value n) jsons k s = (write_varint64_field P 3 n s, k)
  write_value (string_value x) jsons k s = (write_string P 2 x s, k)
  write_value null_value jsons k s = (write_varint32_field P 5 (bool_number false) s, k)
  write_value (c_string_value x) jsons k s = (write_string P 2 x s, k)
  write_value (values_value vs) jsons k s = write_json_at jsons k s
  write_value (dictionary_value d) jsons k s = write_json_at jsons k s

  unfoldable pub write_key_value_impl :
      List ℕ → Value → List (List ℕ) → ℕ → OutputStream → OutputStream × ℕ
  unfolding write_string write_value
  write_key_value_impl key v jsons k s = write_value v jsons k (write_string P 1 key s)

  unfoldable pub write_key_value :
      ℕ → ℕ → List ℕ → Value → List (List ℕ) → ℕ → OutputStream → OutputStream × ℕ
  unfolding write_key_value_impl
  write_key_value field n key v jsons k s =
      write_key_value_impl key v jsons k (write_key_length P field n s)

module _ (D : Doubles) (P : CodedOutput) where
  -- The overload that computes the size itself.
  unfoldable pub write_one_key_value : ℕ → List ℕ → Value → OutputStream → OutputStream
  unfolding compute_key_value_size write_key_value
  write_one_key_value field key v s =
      let (n, t) = compute_key_value_size D P key v (record { json = []; json_counter = 0 }) in
      (write_key_value P field n key v (t.json ∷ []) 0 s).0
