-- ===== src/Serialization/Span/Context.antt =====
-- What src/tracer/serialization.cpp writes of a span, log records apart, against the fields of the
-- message collector::Span.
use lightstep_tracer_cpp.Base.{
  ℕ, ◌+◌, ◌*◌, ◌^◌, ◌<◌, ◌≡◌, ap, List, [], ◌∷◌, ◌++◌, All, length, length-append, append-nil,
  append_assoc, arith,
}
use lightstep_tracer_cpp.Serialization.{
  CodedOutput, OutputStream, compute_varint64_size, compute_length_delimited_size, write_key_length,
  write_big_varint, write_string,
}
use lightstep_tracer_cpp.Serialization.Wire.{
  Field, base128, encode, encode_field, IsProtobuf, varint_field, bytes_field,
}
use lightstep_tracer_cpp.Serialization.Writers.{
  Writes, Writes-nothing, Writes-then, write_key_length-Writes, write_big_varint-Writes,
  write_string-Writes, compute_varint64_size_lem, write_length_delimited_field-Writes,
  compute_length_delimited_size_lem,
}
use lightstep_tracer_cpp.Serialization.Span.{
  Item, baggage_item_size, add_baggage_sizes, compute_span_context_size, write_baggage,
  write_span_context_impl, write_span_context_of_size, write_span_context,
}

pub encode-two : (f g : Field) → encode (f ∷ g ∷ []) ≡ encode_field f ++ encode_field g
unfolding encode
encode-two f g = ap (λ (bs : List ℕ). encode_field f ++ bs) (append-nil (encode_field g))

-- An entry of the map of baggage, as a message.
unfoldable pub entry_fields : Item → List Field
entry_fields item = bytes_field 1 item.0 ∷ bytes_field 2 item.1 ∷ []

unfoldable pub baggage_fields : List Item → List Field
baggage_fields [] = []
baggage_fields (item ∷ items) = bytes_field 3 (encode (entry_fields item)) ∷ baggage_fields items

unfoldable pub context_fields : ℕ → ℕ → List Item → List Field
context_fields trace_id span_id baggage =
    varint_field 1 trace_id ∷ varint_field 2 span_id ∷ baggage_fields baggage

-- The texts of an entry, and the entry, fit an `uint32_t`.
pub record FitsItem (item : Item) : Type 0 where
  pub key : length item.0 < 2 ^ 32
  pub value : length item.1 < 2 ^ 32
  pub entry : length (encode (entry_fields item)) < 2 ^ 32

module _ (P : CodedOutput) (H : IsProtobuf P) where
  -- A message whose fields one writer appends behind its key and its length.
  pub message-Writes :
      (n len : ℕ) (w : OutputStream → OutputStream) (bs : List ℕ)
      → n < 2 ^ 29
      → length bs < 2 ^ 32
      → len ≡ length bs
      → Writes w bs
      → Writes (λ s. w (write_key_length P n len s)) (encode_field (bytes_field n bs))
  message-Writes n len w bs hn small e h =
      rw (append_assoc (base128 (n * 8 + 2)) (base128 (length bs)) bs) at (
        Writes-then (write_key_length P n len) w (base128 (n * 8 + 2) ++ base128 (length bs)) bs
          (rw e (write_key_length-Writes P H n (length bs) hn small)) h)

  baggage_item_size_lem :
      (item : Item) → FitsItem item → baggage_item_size P item ≡ length (encode (entry_fields item))
  unfolding entry_fields
  baggage_item_size_lem item h = rw (encode-two (bytes_field 1 item.0) (bytes_field 2 item.1)) (
      omega (
        arith,
        compute_length_delimited_size_lem P H 1 item.0 (omega arith) (omega (arith, h.key)),
        compute_length_delimited_size_lem P H 2 item.1 (omega arith) (omega (arith, h.value)),
        length-append (encode_field (bytes_field 1 item.0)) (encode_field (bytes_field 2 item.1)),
      ))

  add_baggage_sizes_lem :
      (items : List Item) (result : ℕ)
      → All FitsItem items
      → add_baggage_sizes P items result ≡ result + length (encode (baggage_fields items))
  unfolding add_baggage_sizes encode baggage_fields
  add_baggage_sizes_lem [] result h = omega arith
  add_baggage_sizes_lem (item ∷ items) result (h, hs) = omega (
    arith,
    add_baggage_sizes_lem items
        (result + compute_length_delimited_size P 3 (baggage_item_size P item)) hs,
    ap (compute_length_delimited_size P 3) (baggage_item_size_lem item h),
    compute_length_delimited_size_lem P H 3 (encode (entry_fields item)) (omega arith)
        (omega (arith, h.entry)),
    length-append (encode_field (bytes_field 3 (encode (entry_fields item))))
        (encode (baggage_fields items)),
  )

  write_entry-Writes :
      (item : Item)
      → FitsItem item
      → Writes
          (λ s. write_string P 2 item.1 (write_string P 1 item.0 s))
          (encode (entry_fields item))
  unfolding entry_fields
  write_entry-Writes item h = rw (encode-two (bytes_field 1 item.0) (bytes_field 2 item.1)) (
      Writes-then (write_string P 1 item.0) (write_string P 2 item.1)
        (encode_field (bytes_field 1 item.0)) (encode_field (bytes_field 2 item.1))
        (write_string-Writes P H 1 item.0 (omega arith) h.key)
        (write_string-Writes P H 2 item.1 (omega arith) h.value))

  pub write_baggage-Writes :
      (items : List Item)
      → All FitsItem items
      → Writes (write_baggage P items) (encode (baggage_fields items))
  unfolding write_baggage encode baggage_fields
  write_baggage-Writes [] h = Writes-nothing
  write_baggage-Writes (item ∷ items) (h, hs) =
      Writes-then
        (λ s.
          write_string P 2 item.1
            (write_string P 1 item.0 (write_key_length P 3 (baggage_item_size P item) s)))
        (write_baggage P items) (encode_field (bytes_field 3 (encode (entry_fields item))))
        (encode (baggage_fields items))
        (message-Writes 3 (baggage_item_size P item)
          (λ s. write_string P 2 item.1 (write_string P 1 item.0 s)) (encode (entry_fields item))
          (omega arith) h.entry (baggage_item_size_lem item h) (write_entry-Writes item h))
        (write_baggage-Writes items hs)

  pub compute_span_context_size_lem :
      (trace_id span_id : ℕ) (baggage : List Item)
      → trace_id < 2 ^ 64
      → span_id < 2 ^ 64
      → All FitsItem baggage
      → compute_span_context_size P trace_id span_id baggage
        ≡ length (encode (context_fields trace_id span_id baggage))
  unfolding compute_span_context_size context_fields encode
  compute_span_context_size_lem trace_id span_id baggage ht hs hb = omega (
    arith,
    add_baggage_sizes_lem baggage
        (compute_varint64_size P 1 trace_id + compute_varint64_size P 2 span_id) hb,
    compute_varint64_size_lem P H 1 trace_id (omega arith) ht,
    compute_varint64_size_lem P H 2 span_id (omega arith) hs,
    length-append (encode_field (varint_field 1 trace_id))
        (encode_field (varint_field 2 span_id) ++ encode (baggage_fields baggage)),
    length-append (encode_field (varint_field 2 span_id)) (encode (baggage_fields baggage)),
  )

  write_span_context_impl-Writes :
      (trace_id span_id : ℕ) (baggage : List Item)
      → trace_id < 2 ^ 64
      → span_id < 2 ^ 64
      → All FitsItem baggage
      → Writes
          (write_span_context_impl P trace_id span_id baggage)
          (encode (context_fields trace_id span_id baggage))
  unfolding write_span_context_impl context_fields encode
  write_span_context_impl-Writes trace_id span_id baggage ht hs hb =
      Writes-then (write_big_varint P 1 trace_id)
        (λ s. write_baggage P baggage (write_big_varint P 2 span_id s))
        (encode_field (varint_field 1 trace_id))
        (encode_field (varint_field 2 span_id) ++ encode (baggage_fields baggage))
        (write_big_varint-Writes P H 1 trace_id (omega arith) ht)
        (Writes-then (write_big_varint P 2 span_id) (write_baggage P baggage)
          (encode_field (varint_field 2 span_id)) (encode (baggage_fields baggage))
          (write_big_varint-Writes P H 2 span_id (omega arith) hs)
          (write_baggage-Writes baggage hb))

  pub write_span_context_of_size-Writes :
      (n trace_id span_id : ℕ) (baggage : List Item)
      → n < 2 ^ 29
      → trace_id < 2 ^ 64
      → span_id < 2 ^ 64
      → All FitsItem baggage
      → length (encode (context_fields trace_id span_id baggage)) < 2 ^ 32
      → Writes
          (write_span_context_of_size P n
            (compute_span_context_size P trace_id span_id baggage)
            trace_id
            span_id
            baggage)
          (encode_field (bytes_field n (encode (context_fields trace_id span_id baggage))))
  unfolding write_span_context_of_size
  write_span_context_of_size-Writes n trace_id span_id baggage hn ht hs hb small =
      rw (compute_span_context_size_lem trace_id span_id baggage ht hs hb) (
        write_length_delimited_field-Writes P H n
          (write_span_context_impl P trace_id span_id baggage)
          (encode (context_fields trace_id span_id baggage)) hn small
          (write_span_context_impl-Writes trace_id span_id baggage ht hs hb))

  -- If the ids have 64 bits and the texts, the entries and the context fit an uint32_t: WriteSpanContext
  -- appends the wire format of the context's message, as field 1 and with the right lengths, whatever
  -- buffers the stream hands out, and overruns none of them.
  pub write_span_context-encode :
      (trace_id span_id : ℕ) (baggage : List Item)
      → trace_id < 2 ^ 64
      → span_id < 2 ^ 64
      → All FitsItem baggage
      → length (encode (context_fields trace_id span_id baggage)) < 2 ^ 32
      → Writes
          (write_span_context P trace_id span_id baggage)
          (encode_field (bytes_field 1 (encode (context_fields trace_id span_id baggage))))
  unfolding write_span_context
  write_span_context-encode trace_id span_id baggage ht hs hb small =
      write_span_context_of_size-Writes 1 trace_id span_id baggage (omega arith) ht hs hb small
