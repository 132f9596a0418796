-- ===== src/Serialization/Span/Log/Sizing.antt =====
-- The first loop of `WriteLogImpl` of src/tracer/serialization.cpp: the sizes of the fields, and the JSON of
-- the values that need it.
use lightstep_tracer_cpp.Base.{
  ℕ, ◌+◌, ◌^◌, ◌<◌, ◌≡◌, ap, sym, ◌∙◌, Bool, true, false, List, [], ◌∷◌, ◌++◌, map, All, length,
  ltb, if◌then◌else◌, length-append, append-nil, append_assoc, arith,
}
use lightstep_tracer_cpp.Value.{
  Value, bool_value, double_value, int64_value, uint64_value, string_value, null_value,
  c_string_value, values_value, dictionary_value, Doubles, to_json,
}
use lightstep_tracer_cpp.Serialization.{CodedOutput, compute_length_delimited_size}
use lightstep_tracer_cpp.Serialization.Wire.{Field, encode, encode_field, IsProtobuf, bytes_field}
use lightstep_tracer_cpp.Serialization.Writers.{compute_length_delimited_size_lem}
use lightstep_tracer_cpp.Serialization.KeyValue.{
  JsonState, json_size, value_size, compute_key_value_size,
}
use lightstep_tracer_cpp.Serialization.KeyValue.Output.{
  Fits, own_json, key_value_fields, compute_key_value_size_lem,
}
use lightstep_tracer_cpp.Serialization.Span.{KeyValue, LogSizes, add_json, log_sizes}
use lightstep_tracer_cpp.Serialization.Span.Parts.{timestamp_fields}

add_json-same :
    (jsons : List (List ℕ)) (t : JsonState)
    → t.json_counter ≡ length jsons
    → add_json jsons t ≡ jsons ++ []
add_json-same jsons t e =
    ap (λ (b : Bool). if b then jsons ++ (t.json ∷ []) else jsons)
      (the_test (length jsons) t.json_counter e)
    ∙ sym (append-nil jsons)
  where
    the_test : (n k : ℕ) → k ≡ n → ltb n k ≡ false
    the_test n k e = ground arith

add_json-new :
    (jsons : List (List ℕ)) (json : List ℕ) (k : ℕ)
    → k ≡ length jsons
    → add_json jsons (record { json = json; json_counter = k + 1 }) ≡ jsons ++ (json ∷ [])
add_json-new jsons json k e =
    ap (λ (b : Bool). if b then jsons ++ (json ∷ []) else jsons) (the_test (length jsons) k e)
  where
    the_test : (n k : ℕ) → k ≡ n → ltb n (k + 1) ≡ true
    the_test n k e = ground arith

module _ (D : Doubles) where
  abbrev pub body : KeyValue → List ℕ
  body f = encode (key_value_fields D f.0 f.1)

  -- The fields of a log record, as messages.
  unfoldable pub log_fields : List KeyValue → List Field
  log_fields [] = []
  log_fields (f ∷ fs) = bytes_field 2 (body f) ∷ log_fields fs

  abbrev pub own_jsons : List KeyValue → List (List ℕ)
  own_jsons [] = []
  own_jsons (f ∷ fs) = own_json D f.1 ++ own_jsons fs

  -- The record of a log with this time and these fields, as a message.
  unfoldable pub log_message : ℕ → List KeyValue → List Field
  unfolding log_fields
  log_message t fields = bytes_field 1 (encode (timestamp_fields t)) ∷ log_fields fields

  -- The texts of a key and its value, and their message, fit an `uint32_t`.
  pub record FitsKeyValue (f : KeyValue) : Type 0 where
    pub key : length f.0 < 2 ^ 32
    pub value : Fits D f.1
    pub message : length (body f) < 2 ^ 32

module _ (D : Doubles) (P : CodedOutput) (H : IsProtobuf P) where
  added_json :
      (v : Value) (jsons : List (List ℕ)) (t : JsonState)
      → t.json_counter ≡ length jsons
      → add_json jsons (value_size D P v t).1 ≡ jsons ++ own_json D v
  unfolding value_size json_size
  added_json (bool_value b) jsons t e = add_json-same jsons t e
  added_json (double_value x) jsons t e = add_json-same jsons t e
  added_json (int64_value n) jsons t e = add_json-same jsons t e
  added_json (uint64_value n) jsons t e = add_json-same jsons t e
  added_json (string_value x) jsons t e = add_json-same jsons t e
  added_json null_value jsons t e = add_json-same jsons t e
  added_json (c_string_value x) jsons t e = add_json-same jsons t e
  added_json (values_value vs) jsons t e =
      add_json-new jsons (to_json D (values_value vs)) t.json_counter e
  added_json (dictionary_value d) jsons t e =
      add_json-new jsons (to_json D (dictionary_value d)) t.json_counter e

  value_size-counter :
      (v : Value) (t : JsonState)
      → (value_size D P v t).1.json_counter ≡ t.json_counter + length (own_json D v)
  unfolding value_size json_size
  value_size-counter (bool_value b) t = omega arith
  value_size-counter (double_value x) t = omega arith
  value_size-counter (int64_value n) t = omega arith
  value_size-counter (uint64_value n) t = omega arith
  value_size-counter (string_value x) t = omega arith
  value_size-counter null_value t = omega arith
  value_size-counter (c_string_value x) t = omega arith
  value_size-counter (values_value vs) t = omega arith
  value_size-counter (dictionary_value d) t = omega arith

  -- What the first loop adds to its variables.
  pub record Sized (fields : List KeyValue) (a b : LogSizes) : Type 0 where
    pub jsons : b.json_values ≡ a.json_values ++ own_jsons D fields
    pub sizes : b.field_sizes ≡ a.field_sizes ++ map (λ f. length (body D f)) fields
    pub total : b.serialization_size ≡ a.serialization_size + length (encode (log_fields D fields))

  pub log_sizes-Sized :
      (fields : List KeyValue) (a : LogSizes)
      → All (FitsKeyValue D) fields
      → a.state.json_counter ≡ length a.json_values
      → Sized fields a (log_sizes D P fields a)
  unfolding log_sizes log_fields encode compute_key_value_size
  log_sizes-Sized [] a h e = record {
    jsons = sym (append-nil a.json_values);
    sizes = sym (append-nil a.field_sizes);
    total = omega arith;
  }
  log_sizes-Sized (f ∷ fields) a (h, hs) e =
      let n = (compute_key_value_size D P f.0 f.1 a.state).0 in
      let t = (compute_key_value_size D P f.0 f.1 a.state).1 in
      let next : LogSizes = record {
        state = t;
        json_values = add_json a.json_values t;
        field_sizes = a.field_sizes ++ (n ∷ []);
        serialization_size = a.serialization_size + compute_length_delimited_size P 2 n;
      } in
      let size : n ≡ length (body D f) =
        compute_key_value_size_lem D P H f.0 f.1 a.state h.key h.value in
      let jsons = added_json f.1 a.json_values a.state e in
      let rest = log_sizes-Sized fields next hs (
        value_size-counter f.1 a.state
        ∙ (omega (arith, e, length-append a.json_values (own_json D f.1), ap length jsons))) in
      record {
        jsons =
            rest.jsons
            ∙ (ap (λ (js : List (List ℕ)). js ++ own_jsons D fields) jsons
                ∙ append_assoc a.json_values (own_json D f.1) (own_jsons D fields));
        sizes =
            rest.sizes
            ∙ (ap (λ (k : ℕ). (a.field_sizes ++ (k ∷ [])) ++ map (λ g. length (body D g)) fields)
                  size
                ∙ append_assoc a.field_sizes (length (body D f) ∷ [])
                    (map (λ g. length (body D g)) fields));
        total = omega (
          arith,
          rest.total,
          ap (compute_length_delimited_size P 2) size,
          compute_length_delimited_size_lem P H 2 (body D f) (omega arith)
              (omega (arith, h.message)),
          length-append (encode_field (bytes_field 2 (body D f))) (encode (log_fields D fields)),
        );
      }
