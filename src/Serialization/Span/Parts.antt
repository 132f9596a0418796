-- ===== src/Serialization/Span/Parts.antt =====
-- The references, the times and the duration of a span in src/tracer/serialization.cpp.
use lightstep_tracer_cpp.Base.{
  ℕ, ◌+◌, ◌^◌, ◌≤◌, ◌<◌, ◌≡◌, ap, sym, ◌∙◌, List, [], ◌∷◌, ◌++◌, length, length-append, arith,
}
use lightstep_tracer_cpp.Serialization.{
  CodedOutput, compute_length_delimited_size, write_varint64_field, write_varint32_field,
  compute_varint32_size, compute_varint64_size, compute_timestamp_size, write_timestamp,
}
use lightstep_tracer_cpp.Serialization.Wire.{
  Field, base128, encode, encode_field, IsProtobuf, varint_field, bytes_field,
}
use lightstep_tracer_cpp.Serialization.Writers.{
  Writes, Writes-then, write_varint64_field-Writes, write_varint32_field-Writes, directly-Writes,
  compute_varint64_size_lem, compute_varint32_size_lem, compute_length_delimited_size_lem,
  write_timestamp-Writes, compute_timestamp_size_lem,
}
use lightstep_tracer_cpp.Serialization.Sizes.{length-varint_field, length-base128}
use lightstep_tracer_cpp.Serialization.Span.{
  ReferenceType, child_of, follows_from, relationship, compute_span_context_size,
  write_span_context_of_size, write_span_reference, write_duration, write_start_timestamp,
  timestamp_seconds, timestamp_nanos,
}
use lightstep_tracer_cpp.Serialization.Span.Context.{
  encode-two, context_fields, baggage_fields, message-Writes, compute_span_context_size_lem,
  write_span_context_of_size-Writes,
}

unfoldable pub timestamp_fields : ℕ → List Field
timestamp_fields t = varint_field 1 (timestamp_seconds t) ∷ varint_field 2 (timestamp_nanos t) ∷ []

pub encode-timestamp :
    (t : ℕ)
    → encode (timestamp_fields t)
      ≡ encode_field (varint_field 1 (timestamp_seconds t))
        ++ encode_field (varint_field 2 (timestamp_nanos t))
unfolding timestamp_fields
encode-timestamp t =
    encode-two (varint_field 1 (timestamp_seconds t)) (varint_field 2 (timestamp_nanos t))

pub length-timestamp : (t : ℕ) → t < 2 ^ 64 → length (encode (timestamp_fields t)) ≤ 30
length-timestamp t h = rw (encode-timestamp t) (
    omega (
      arith,
      length-append (encode_field (varint_field 1 (timestamp_seconds t)))
          (encode_field (varint_field 2 (timestamp_nanos t))),
      length-varint_field 1 (timestamp_seconds t) (omega arith) (omega arith),
      length-varint_field 2 (timestamp_nanos t) (omega arith) (omega arith),
    ))

length-context :
    (trace_id span_id : ℕ)
    → trace_id < 2 ^ 64
    → span_id < 2 ^ 64
    → length (encode (context_fields trace_id span_id [])) ≤ 30
unfolding context_fields baggage_fields
length-context trace_id span_id ht hs =
    rw (encode-two (varint_field 1 trace_id) (varint_field 2 span_id)) (
      omega (
        arith,
        length-append (encode_field (varint_field 1 trace_id))
            (encode_field (varint_field 2 span_id)),
        length-varint_field 1 trace_id (omega arith) ht,
        length-varint_field 2 span_id (omega arith) hs,
      ))

unfoldable pub reference_fields : ReferenceType → ℕ → ℕ → List Field
reference_fields r trace_id span_id =
    varint_field 1 (relationship r)
    ∷ bytes_field 2 (encode (context_fields trace_id span_id []))
    ∷ []

relationship-small : (r : ReferenceType) → relationship r < 2 ^ 32
relationship-small child_of = omega arith
relationship-small follows_from = omega arith

length-reference :
    (r : ReferenceType) (trace_id span_id : ℕ)
    → trace_id < 2 ^ 64
    → span_id < 2 ^ 64
    → length (encode (reference_fields r trace_id span_id)) ≤ 55
unfolding reference_fields
length-reference r trace_id span_id ht hs =
    let ctx = encode (context_fields trace_id span_id []) in
    rw (encode-two (varint_field 1 (relationship r)) (bytes_field 2 ctx)) (
      omega (
        arith,
        length-append (encode_field (varint_field 1 (relationship r)))
            (encode_field (bytes_field 2 ctx)),
        length-varint_field 1 (relationship r) (omega arith) (omega (arith, relationship-small r)),
        length-append (base128 18) (base128 (length ctx) ++ ctx),
        length-append (base128 (length ctx)) ctx,
        length-context trace_id span_id ht hs,
        length-base128 18 (omega arith),
        length-base128 (length ctx) (omega (arith, length-context trace_id span_id ht hs)),
      ))

module _ (P : CodedOutput) (H : IsProtobuf P) where
  pub timestamp-Writes :
      (n t : ℕ)
      → n < 2 ^ 29
      → t < 2 ^ 64
      → Writes
          (write_timestamp P n
            (compute_timestamp_size P (timestamp_seconds t) (timestamp_nanos t))
            (timestamp_seconds t)
            (timestamp_nanos t))
          (encode_field (bytes_field n (encode (timestamp_fields t))))
  timestamp-Writes n t hn h = rw (encode-timestamp t) (
      write_timestamp-Writes P H n (timestamp_seconds t) (timestamp_nanos t) hn (omega arith)
        (omega arith) (rw (encode-timestamp t) at (small (length-timestamp t h))))
    where
      small :
          length (encode (timestamp_fields t)) ≤ 30 → length (encode (timestamp_fields t)) < 2 ^ 32
      small e = omega arith

  pub timestamp_size :
      (n t : ℕ)
      → n < 2 ^ 29
      → t < 2 ^ 64
      → compute_length_delimited_size P n
          (compute_timestamp_size P (timestamp_seconds t) (timestamp_nanos t))
        ≡ length (encode_field (bytes_field n (encode (timestamp_fields t))))
  timestamp_size n t hn h =
      ap (compute_length_delimited_size P n) (
        compute_timestamp_size_lem P H (timestamp_seconds t) (timestamp_nanos t) (omega arith)
          (omega arith)
        ∙ ap length (sym (encode-timestamp t)))
      ∙ compute_length_delimited_size_lem P H n (encode (timestamp_fields t)) hn
          (omega (arith, length-timestamp t h))

  write_start_timestamp-Writes :
      (t : ℕ)
      → t < 2 ^ 64
      → Writes
          (write_start_timestamp P t)
          (encode_field (bytes_field 4 (encode (timestamp_fields t))))
  unfolding write_start_timestamp
  write_start_timestamp-Writes t h = timestamp-Writes 4 t (omega arith) h

  write_duration-Writes :
      (elapse : ℕ)
      → elapse < 2 ^ 64
      → Writes (write_duration P elapse) (encode_field (varint_field 5 elapse))
  unfolding write_duration
  write_duration-Writes elapse h s =
      directly-Writes P H s.kind (compute_varint64_size P 5 elapse)
        (write_varint64_field P 5 elapse) (encode_field (varint_field 5 elapse)) s
        (write_varint64_field-Writes P H 5 elapse (omega arith) h)
        (sym (compute_varint64_size_lem P H 5 elapse (omega arith) h))

  reference_size :
      (r : ReferenceType) (trace_id span_id : ℕ)
      → trace_id < 2 ^ 64
      → span_id < 2 ^ 64
      → compute_varint32_size P 1 (relationship r)
          + compute_length_delimited_size P 2 (compute_span_context_size P trace_id span_id [])
        ≡ length (encode (reference_fields r trace_id span_id))
  unfolding reference_fields
  reference_size r trace_id span_id ht hs =
      let ctx = encode (context_fields trace_id span_id []) in
      rw (encode-two (varint_field 1 (relationship r)) (bytes_field 2 ctx)) (
        omega (
          arith,
          length-append (encode_field (varint_field 1 (relationship r)))
              (encode_field (bytes_field 2 ctx)),
          compute_varint32_size_lem P H 1 (relationship r) (omega arith) (relationship-small r),
          ap (compute_length_delimited_size P 2)
              (compute_span_context_size_lem P H trace_id span_id [] ht hs tt),
          compute_length_delimited_size_lem P H 2 ctx (omega arith)
              (omega (arith, length-context trace_id span_id ht hs)),
        ))

  reference_body-Writes :
      (r : ReferenceType) (trace_id span_id : ℕ)
      → trace_id < 2 ^ 64
      → span_id < 2 ^ 64
      → Writes
          (λ s.
            write_span_context_of_size P 2
              (compute_span_context_size P trace_id span_id [])
              trace_id
              span_id
              []
              (write_varint32_field P 1 (relationship r) s))
          (encode (reference_fields r trace_id span_id))
  unfolding reference_fields
  reference_body-Writes r trace_id span_id ht hs =
      let ctx = encode (context_fields trace_id span_id []) in
      rw (encode-two (varint_field 1 (relationship r)) (bytes_field 2 ctx)) (
        Writes-then (write_varint32_field P 1 (relationship r))
          (write_span_context_of_size P 2 (compute_span_context_size P trace_id span_id []) trace_id
            span_id [])
          (encode_field (varint_field 1 (relationship r))) (encode_field (bytes_field 2 ctx))
          (write_varint32_field-Writes P H 1 (relationship r) (omega arith) (relationship-small r))
          (write_span_context_of_size-Writes P H 2 trace_id span_id [] (omega arith) ht hs tt
            (omega (arith, length-context trace_id span_id ht hs))))

  -- For ids of 64 bits: WriteSpanReference appends field 3 with the message of the relationship and the
  -- context without baggage, whatever buffers the stream hands out.
  pub write_span_reference-encode :
      (r : ReferenceType) (trace_id span_id : ℕ)
      → trace_id < 2 ^ 64
      → span_id < 2 ^ 64
      → Writes
          (write_span_reference P r trace_id span_id)
          (encode_field (bytes_field 3 (encode (reference_fields r trace_id span_id))))
  unfolding write_span_reference
  write_span_reference-encode r trace_id span_id ht hs =
      message-Writes P H 3
        (compute_varint32_size P 1 (relationship r)
          + compute_length_delimited_size P 2 (compute_span_context_size P trace_id span_id []))
        (λ s.
          write_span_context_of_size P 2 (compute_span_context_size P trace_id span_id []) trace_id
            span_id [] (write_varint32_field P 1 (relationship r) s))
        (encode (reference_fields r trace_id span_id)) (omega arith)
        (omega (arith, length-reference r trace_id span_id ht hs))
        (reference_size r trace_id span_id ht hs) (reference_body-Writes r trace_id span_id ht hs)
