-- ===== src/Serialization/Span.antt =====
-- The parts of a span as src/tracer/serialization.cpp writes them. A timestamp is its nanoseconds since
-- the epoch as 64 bits, a duration its microseconds.
use lightstep_tracer_cpp.Base.{
  ℕ, ◌+◌, ◌/◌, ◌%◌, List, [], ◌∷◌, ◌++◌, ltb, if◌then◌else◌, length, get_or,
}
use lightstep_tracer_cpp.Value.{Value, Doubles}
use lightstep_tracer_cpp.Serialization.{
  CodedOutput, OutputStream, compute_varint64_size, compute_varint32_size,
  compute_length_delimited_size, compute_timestamp_size, write_key_length, write_varint64_field,
  write_varint32_field, write_big_varint, write_length_delimited_field, write_string,
  write_timestamp, directly,
}
use lightstep_tracer_cpp.Serialization.KeyValue.{
  JsonState, compute_key_value_size, write_key_value, write_one_key_value,
}
pub mod Context
pub mod Log
pub mod Parts

abbrev pub Item : Type 0
Item = List ℕ × List ℕ

-- A tag or a field of a log record.
abbrev pub KeyValue : Type 0
KeyValue = List ℕ × Value

pub data ReferenceType : Type 0 where
  child_of follows_from : ReferenceType

abbrev pub relationship : ReferenceType → ℕ
relationship child_of = 0
relationship follows_from = 1

-- `ProtobufFormatTimestamp`
abbrev pub timestamp_seconds : ℕ → ℕ
timestamp_seconds t = t / 1000000000

abbrev pub timestamp_nanos : ℕ → ℕ
timestamp_nanos t = t % 1000000000

module _ (P : CodedOutput) where
  abbrev pub baggage_item_size : Item → ℕ
  baggage_item_size item =
      compute_length_delimited_size P 1 (length item.0)
      + compute_length_delimited_size P 2 (length item.1)

  -- The loop over the baggage, from `result` on.
  unfoldable pub add_baggage_sizes : List Item → ℕ → ℕ
  add_baggage_sizes [] result = result
  add_baggage_sizes (item ∷ items) result =
      add_baggage_sizes items (result + compute_length_delimited_size P 3 (baggage_item_size item))

  unfoldable pub compute_span_context_size : ℕ → ℕ → List Item → ℕ
  unfolding add_baggage_sizes
  compute_span_context_size trace_id span_id baggage =
      add_baggage_sizes baggage
        (compute_varint64_size P 1 trace_id + compute_varint64_size P 2 span_id)

  unfoldable pub write_baggage : List Item → OutputStream → OutputStream
  unfolding write_string
  write_baggage [] s = s
  write_baggage (item ∷ items) s = write_baggage items (
      write_string P 2 item.1
        (write_string P 1 item.0 (write_key_length P 3 (baggage_item_size item) s)))

  unfoldable pub write_span_context_impl : ℕ → ℕ → List Item → OutputStream → OutputStream
  unfolding write_baggage
  write_span_context_impl trace_id span_id baggage s =
      write_baggage baggage (write_big_varint P 2 span_id (write_big_varint P 1 trace_id s))

  unfoldable pub write_span_context_of_size :
      ℕ → ℕ → ℕ → ℕ → List Item → OutputStream → OutputStream
  unfolding write_length_delimited_field write_span_context_impl
  write_span_context_of_size field n trace_id span_id baggage =
      write_length_delimited_field P field n (write_span_context_impl trace_id span_id baggage)

  unfoldable pub write_span_context : ℕ → ℕ → List Item → OutputStream → OutputStream
  unfolding write_span_context_of_size compute_span_context_size
  write_span_context trace_id span_id baggage =
      write_span_context_of_size 1 (compute_span_context_size trace_id span_id baggage) trace_id
        span_id baggage

  unfoldable pub write_operation_name : List ℕ → OutputStream → OutputStream
  unfolding write_string
  write_operation_name = write_string P 2

  -- `WriteTimestamp` of a time.
  unfoldable pub write_start_timestamp : ℕ → OutputStream → OutputStream
  unfolding write_timestamp
  write_start_timestamp t =
      write_timestamp P 4 (compute_timestamp_size P (timestamp_seconds t) (timestamp_nanos t))
        (timestamp_seconds t) (timestamp_nanos t)

  unfoldable pub write_span_reference : ReferenceType → ℕ → ℕ → OutputStream → OutputStream
  unfolding compute_span_context_size write_span_context_of_size
  write_span_reference reference_type trace_id span_id s =
      let context_size = compute_span_context_size trace_id span_id [] in
      let n =
        compute_varint32_size P 1 (relationship reference_type)
        + compute_length_delimited_size P 2 context_size in
      write_span_context_of_size 2 context_size trace_id span_id []
        (write_varint32_field P 1 (relationship reference_type) (write_key_length P 3 n s))

  unfoldable pub write_duration : ℕ → OutputStream → OutputStream
  write_duration elapse s =
      directly P s.kind (compute_varint64_size P 5 elapse) (write_varint64_field P 5 elapse) s

-- The variables of the first loop of `WriteLogImpl`.
pub record LogSizes : Type 0 where
  pub state : JsonState
  pub json_values : List (List ℕ)
  pub field_sizes : List ℕ
  pub serialization_size : ℕ

abbrev pub add_json : List (List ℕ) → JsonState → List (List ℕ)
add_json jsons t = if ltb (length jsons) t.json_counter then jsons ++ (t.json ∷ []) else jsons

module _ (D : Doubles) (P : CodedOutput) where
  unfoldable pub write_tag_field : List ℕ → Value → OutputStream → OutputStream
  unfolding write_one_key_value
  write_tag_field = write_one_key_value D P 6

  unfoldable pub log_sizes : List KeyValue → LogSizes → LogSizes
  unfolding compute_key_value_size
  log_sizes [] a = a
  log_sizes (f ∷ fields) a =
      let (n, t) = compute_key_value_size D P f.0 f.1 a.state in
      log_sizes fields (record {
        state = t;
        json_values = add_json a.json_values t;
        field_sizes = a.field_sizes ++ (n ∷ []);
        serialization_size = a.serialization_size + compute_length_delimited_size P 2 n;
      })

  -- The second loop, with `field_index` and `json_counter`.
  unfoldable pub write_log_fields :
      List KeyValue → List ℕ → List (List ℕ) → ℕ → ℕ → OutputStream → OutputStream
  unfolding write_key_value
  write_log_fields [] sizes jsons i k s = s
  write_log_fields (f ∷ fields) sizes jsons i k s =
      let (s', k') = write_key_value P 2 (get_or sizes i 0) f.0 f.1 jsons k s in
      write_log_fields fields sizes jsons (i + 1) k' s'

  unfoldable pub write_log : ℕ → List KeyValue → OutputStream → OutputStream
  unfolding log_sizes write_log_fields write_timestamp
  write_log t fields s =
      let time_size = compute_timestamp_size P (timestamp_seconds t) (timestamp_nanos t) in
      let a = log_sizes fields (record {
        state = record { json = []; json_counter = 0 };
        json_values = [];
        field_sizes = [];
        serialization_size = compute_length_delimited_size P 1 time_size;
      }) in
      write_log_fields fields a.field_sizes a.json_values 0 0 (
        write_timestamp P 1 time_size (timestamp_seconds t) (timestamp_nanos t)
          (write_key_length P 7 a.serialization_size s))
