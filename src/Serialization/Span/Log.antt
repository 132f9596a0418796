-- ===== src/Serialization/Span/Log.antt =====
-- `WriteLogImpl` of src/tracer/serialization.cpp: the sizes and the JSON that its first loop leaves are
-- those that its second loop needs.
use lightstep_tracer_cpp.Base.{
  ℕ, ◌+◌, ◌^◌, ◌<◌, ◌≡◌, refl, ap, sym, ◌∙◌, List, [], ◌∷◌, ◌++◌, some, get_elem?, get_or, map, All,
  length, length-append, append_assoc, arith,
}
use lightstep_tracer_cpp.Value.{
  Value, bool_value, double_value, int64_value, uint64_value, string_value, null_value,
  c_string_value, values_value, dictionary_value, Doubles, to_json,
}
use lightstep_tracer_cpp.Serialization.{
  CodedOutput, OutputStream, compute_length_delimited_size, compute_timestamp_size, write_timestamp,
}
use lightstep_tracer_cpp.Serialization.Wire.{encode, encode_field, IsProtobuf, bytes_field}
use lightstep_tracer_cpp.Serialization.Writers.{Writes, Writes-nothing, Writes-then}
use lightstep_tracer_cpp.Serialization.KeyValue.{write_key_value, write_key_value_impl}
use lightstep_tracer_cpp.Serialization.KeyValue.Output.{
  IsReady, own_json, write_key_value-Writes, write_value-counter,
}
use lightstep_tracer_cpp.Serialization.Span.{
  KeyValue, LogSizes, log_sizes, write_log_fields, write_log, timestamp_seconds, timestamp_nanos,
}
use lightstep_tracer_cpp.Serialization.Span.Context.{message-Writes}
use lightstep_tracer_cpp.Serialization.Span.Parts.{
  timestamp_fields, timestamp-Writes, timestamp_size,
}
pub mod Sizing
use lightstep_tracer_cpp.Serialization.Span.Log.Sizing.{own_jsons, Sized, log_sizes-Sized}
pub use lightstep_tracer_cpp.Serialization.Span.Log.Sizing.{body, FitsKeyValue}
unfoldable pub use lightstep_tracer_cpp.Serialization.Span.Log.Sizing.{log_fields, log_message}

get_or-behind : (pre xs : List ℕ) (x d : ℕ) → get_or (pre ++ (x ∷ xs)) (length pre) d ≡ x
get_or-behind [] xs x d = refl
get_or-behind (p ∷ pre) xs x d = get_or-behind pre xs x d

get_elem?-behind :
    (pre xs : List (List ℕ)) (x : List ℕ) → get_elem? (pre ++ (x ∷ xs)) (length pre) ≡ some x
get_elem?-behind [] xs x = refl
get_elem?-behind (p ∷ pre) xs x = get_elem?-behind pre xs x

module _ (D : Doubles) (P : CodedOutput) (H : IsProtobuf P) where
  is_ready :
      (v : Value) (before behind : List (List ℕ))
      → IsReady D v (before ++ (own_json D v ++ behind)) (length before)
  is_ready (bool_value b) before behind = omega arith
  is_ready (double_value x) before behind = omega arith
  is_ready (int64_value n) before behind = omega arith
  is_ready (uint64_value n) before behind = omega arith
  is_ready (string_value x) before behind = omega arith
  is_ready null_value before behind = omega arith
  is_ready (c_string_value x) before behind = omega arith
  is_ready (values_value vs) before behind =
      get_elem?-behind before behind (to_json D (values_value vs))
  is_ready (dictionary_value d) before behind =
      get_elem?-behind before behind (to_json D (dictionary_value d))

  -- One round of the second loop: the field, and the counter for the next one.
  one_field :
      (f : KeyValue) (sizes_before sizes : List ℕ) (before behind : List (List ℕ))
      → FitsKeyValue D f
      → Writes
          (λ s.
            (write_key_value P 2
              (get_or (sizes_before ++ (length (body D f) ∷ sizes)) (length sizes_before) 0)
              f.0
              f.1
              (before ++ (own_json D f.1 ++ behind))
              (length before)
              s).0)
          (encode_field (bytes_field 2 (body D f)))
  one_field f sizes_before sizes before behind h =
      rw (get_or-behind sizes_before sizes (length (body D f)) 0) (
        write_key_value-Writes D P H 2 f.0 f.1 (before ++ (own_json D f.1 ++ behind))
          (length before) (omega arith) h.key h.value (is_ready f.1 before behind) h.message)

  write_key_value-counter :
      (n : ℕ) (f : KeyValue) (jsons : List (List ℕ)) (k : ℕ) (s : OutputStream)
      → (write_key_value P 2 n f.0 f.1 jsons k s).1 ≡ k + length (own_json D f.1)
  unfolding write_key_value write_key_value_impl
  write_key_value-counter n f jsons k s = write_value-counter D P H f.1 jsons k _

  write_log_fields-Writes :
      (fields : List KeyValue) (sizes_before sizes : List ℕ) (before jsons : List (List ℕ))
      (i k : ℕ)
      → All (FitsKeyValue D) fields
      → sizes ≡ sizes_before ++ map (λ f. length (body D f)) fields
      → jsons ≡ before ++ own_jsons D fields
      → i ≡ length sizes_before
      → k ≡ length before
      → Writes (write_log_fields D P fields sizes jsons i k) (encode (log_fields D fields))
  unfolding write_log_fields log_fields encode
  write_log_fields-Writes [] sizes_before sizes before jsons i k h es ej ei ek s = Writes-nothing s
  write_log_fields-Writes (f ∷ fields) sizes_before sizes before jsons i k (h, hs) es ej ei ek s =
      ap
        (λ (c : ℕ).
          write_log_fields D P fields sizes jsons (i + 1) c
            (write_key_value P 2 (get_or sizes i 0) f.0 f.1 jsons k s).0)
        (write_key_value-counter (get_or sizes i 0) f jsons k s)
      ∙ Writes-then (λ t. (write_key_value P 2 (get_or sizes i 0) f.0 f.1 jsons k t).0)
          (write_log_fields D P fields sizes jsons (i + 1) (k + length (own_json D f.1)))
          (encode_field (bytes_field 2 (body D f))) (encode (log_fields D fields))
          (rw (es, ej, ei, ek)
            (one_field f sizes_before (map (λ g. length (body D g)) fields) before
              (own_jsons D fields) h))
          (write_log_fields-Writes fields (sizes_before ++ (length (body D f) ∷ [])) sizes
            (before ++ own_json D f.1) jsons (i + 1) (k + length (own_json D f.1)) hs
            (es
              ∙ sym (
                  append_assoc sizes_before (length (body D f) ∷ [])
                    (map (λ g. length (body D g)) fields)))
            (ej ∙ sym (append_assoc before (own_json D f.1) (own_jsons D fields)))
            (omega (arith, ei, length-append sizes_before (length (body D f) ∷ [])))
            (omega (arith, ek, length-append before (own_json D f.1))))
          s

  -- If the time has 64 bits and every key, value and message fits an uint32_t: WriteLog appends the wire
  -- format of the log record, as field 7, with each size of its first loop in its place and each JSON of
  -- its first loop at the value that it was made for, whatever buffers the stream hands out.
  pub write_log-encode :
      (t : ℕ) (fields : List KeyValue)
      → t < 2 ^ 64
      → All (FitsKeyValue D) fields
      → length (encode (log_message D t fields)) < 2 ^ 32
      → Writes
          (write_log D P t fields)
          (encode_field (bytes_field 7 (encode (log_message D t fields))))
  unfolding write_log log_message encode
  write_log-encode t fields ht h small =
      message-Writes P H 7 (log_sizes D P fields start).serialization_size
        (λ s.
          write_log_fields D P fields (log_sizes D P fields start).field_sizes
            (log_sizes D P fields start).json_values 0 0
            (write_timestamp P 1 time_size (timestamp_seconds t) (timestamp_nanos t) s))
        (encode (log_message D t fields)) (omega arith) small
        (omega (
          arith,
          sized.total,
          timestamp_size P H 1 t (omega arith) ht,
          length-append (encode_field (bytes_field 1 (encode (timestamp_fields t))))
              (encode (log_fields D fields)),
        ))
        (Writes-then (write_timestamp P 1 time_size (timestamp_seconds t) (timestamp_nanos t))
          (write_log_fields D P fields (log_sizes D P fields start).field_sizes
            (log_sizes D P fields start).json_values 0 0)
          (encode_field (bytes_field 1 (encode (timestamp_fields t))))
          (encode (log_fields D fields)) (timestamp-Writes P H 1 t (omega arith) ht)
          (write_log_fields-Writes fields [] (log_sizes D P fields start).field_sizes []
            (log_sizes D P fields start).json_values 0 0 h sized.sizes sized.jsons refl refl))
    where
      time_size : ℕ
      time_size = compute_timestamp_size P (timestamp_seconds t) (timestamp_nanos t)

      start : LogSizes
      start = record {
        state = record { json = []; json_counter = 0 };
        json_values = [];
        field_sizes = [];
        serialization_size = compute_length_delimited_size P 1 time_size;
      }

      sized : Sized D P H fields start (log_sizes D P fields start)
      sized = log_sizes-Sized D P H fields start h refl
