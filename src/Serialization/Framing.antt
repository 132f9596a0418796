-- ===== src/Serialization/Framing.antt =====
-- src/common/report_request_framing.h and .cpp, src/common/chunked_http_framing.h and .cpp: headers that
-- are written at the end of a buffer whose size was reserved before the body was known.
use lightstep_tracer_cpp.Base.{
  ℕ, ◌+◌, ◌-◌, ◌^◌, ◌≤◌, ◌<◌, ◌≡◌, refl, ap, sym, ◌∙◌, List, [], ◌∷◌, ◌++◌, length, take, drop,
  length-append, length-take_exact, drop-length-append, take-length-append, drop-beyond, append-nil,
  append_assoc, arith,
}
use lightstep_tracer_cpp.Hex.{uint32_to_hex}
use lightstep_tracer_cpp.Serialization.{
  CodedOutput, OutputStream, length_delimited, static_key_serialization_size,
  compute_length_delimited_header_size, direct_stream, write_key_length,
}
use lightstep_tracer_cpp.Serialization.Wire.{base128, groups, encode_field, IsProtobuf, bytes_field}
use lightstep_tracer_cpp.Serialization.Sizes.{length-base128}
use lightstep_tracer_cpp.Serialization.Writers.{write_key_length-Writes, key_size}

-- The buffer with `bs` written from `offset` on; what is written past its end is kept.
abbrev pub write_at : ℕ → List ℕ → List ℕ → List ℕ
write_at offset bs buffer = take offset buffer ++ (bs ++ drop (offset + length bs) buffer)

-- `ReportRequestSpansField`
abbrev pub report_request_spans_field : ℕ
report_request_spans_field = 3

module _ (P : CodedOutput) where
  abbrev pub report_request_spans_max_header_size : ℕ
  report_request_spans_max_header_size =
      static_key_serialization_size P report_request_spans_field length_delimited
      + P.static_varint_size32 (2 ^ 32 - 1)

  -- The size of the header and the buffer, of the buffer and the size of the body.
  unfoldable pub write_report_request_spans_header : List ℕ → ℕ → ℕ × List ℕ
  write_report_request_spans_header buffer body_size =
      let n = compute_length_delimited_header_size P report_request_spans_field body_size in
      (
        n,
        write_at (length buffer - n)
            (write_key_length P report_request_spans_field body_size direct_stream).output buffer,
      )

abbrev pub chunked_http_max_header_size : ℕ
chunked_http_max_header_size = 10

unfoldable pub write_http_chunk_header : List ℕ → ℕ → ℕ × List ℕ
unfolding uint32_to_hex
write_http_chunk_header buffer chunk_size = (
  chunked_http_max_header_size,
  write_at (length buffer - chunked_http_max_header_size)
      (uint32_to_hex chunk_size ++ (13 ∷ 10 ∷ [])) buffer,
)

module _ (buffer bs : List ℕ) (fits : length bs ≤ length buffer) where
  -- What is written up to the end of a buffer stands at its end, and nothing else of it changes.
  pub write_at_end :
      write_at (length buffer - length bs) bs buffer ≡ take (length buffer - length bs) buffer ++ bs
  write_at_end =
      ap (λ (r : List ℕ). take (length buffer - length bs) buffer ++ (bs ++ r))
        (drop-beyond (length buffer - length bs + length bs) buffer (omega arith))
      ∙ ap (λ (r : List ℕ). take (length buffer - length bs) buffer ++ r) (append-nil bs)

  pub length-write_at_end : length (take (length buffer - length bs) buffer ++ bs) ≡ length buffer
  length-write_at_end = omega (
    arith,
    length-append (take (length buffer - length bs) buffer) bs,
    length-take_exact (length buffer - length bs) buffer (omega arith),
  )

  pub drop-write_at_end :
      drop (length buffer - length bs) (take (length buffer - length bs) buffer ++ bs) ≡ bs
  drop-write_at_end =
      rw (length-take_exact (length buffer - length bs) buffer (omega arith)) at
        (drop-length-append (take (length buffer - length bs) buffer) bs)

  pub take-write_at_end :
      take (length buffer - length bs) (take (length buffer - length bs) buffer ++ bs)
      ≡ take (length buffer - length bs) buffer
  take-write_at_end =
      ap (λ (n : ℕ). take n (take (length buffer - length bs) buffer ++ bs))
        (sym (length-take_exact (length buffer - length bs) buffer (omega arith)))
      ∙ take-length-append (take (length buffer - length bs) buffer) bs

-- What a writer of headers, at the end of a buffer, has made of the buffer for a body.
pub record IsFramed (buffer body : List ℕ) (r : ℕ × List ℕ) : Type 0 where
  pub fits : r.0 ≤ length buffer
  pub same_size : length r.1 ≡ length buffer
  pub before : take (length buffer - r.0) r.1 ≡ take (length buffer - r.0) buffer
  pub message : drop (length buffer - r.0) r.1 ++ body ≡ encode_field (bytes_field 3 body)

pub length-largest : length (base128 (2 ^ 32 - 1)) ≡ 5
unfolding groups
length-largest = refl

module _ (P : CodedOutput) (H : IsProtobuf P) where
  -- The header of a body of this many bytes.
  abbrev pub spans_header : ℕ → List ℕ
  spans_header n = base128 26 ++ base128 n

  header_size :
      (n : ℕ)
      → n < 2 ^ 32
      → compute_length_delimited_header_size P report_request_spans_field n
        ≡ length (spans_header n)
  header_size n h = omega (
    arith,
    key_size P H report_request_spans_field length_delimited (omega arith),
    H.varint_size64_lem n (omega arith),
    length-append (base128 26) (base128 n),
  )

  pub max_header_size : report_request_spans_max_header_size P ≡ length (base128 26) + 5
  max_header_size = omega (
    arith,
    key_size P H report_request_spans_field length_delimited (omega arith),
    H.static_varint_size32_lem (2 ^ 32 - 1) (omega arith),
    length-largest,
  )

  header_bytes :
      (n : ℕ)
      → n < 2 ^ 32
      → (write_key_length P report_request_spans_field n direct_stream).output ≡ spans_header n
  header_bytes n h =
      ap (λ (s : OutputStream). s.output)
        (write_key_length-Writes P H 3 n (omega arith) h direct_stream)

  framed :
      (buffer body : List ℕ)
      → length (spans_header (length body)) ≤ length buffer
      → IsFramed buffer body (
        length (spans_header (length body)),
        write_at
            (length buffer - length (spans_header (length body)))
            (spans_header (length body))
            buffer,
      )
  framed buffer body fits = rw (write_at_end buffer (spans_header (length body)) fits) (record {
    fits = fits;
    same_size = length-write_at_end buffer (spans_header (length body)) fits;
    before = take-write_at_end buffer (spans_header (length body)) fits;
    message =
        ap (λ (h : List ℕ). h ++ body) (drop-write_at_end buffer (spans_header (length body)) fits)
        ∙ append_assoc (base128 26) (base128 (length body)) body;
  })

  -- In a buffer that holds the largest header, the header of a body of less than 2 ^ 32 bytes stands at
  -- the end, what is in front of it does not change, and the header with the body behind it is the wire
  -- format of a span of a report.
  pub write_report_request_spans_header-IsFramed :
      (buffer body : List ℕ)
      → report_request_spans_max_header_size P ≤ length buffer
      → length body < 2 ^ 32
      → IsFramed buffer body (write_report_request_spans_header P buffer (length body))
  unfolding write_report_request_spans_header
  write_report_request_spans_header-IsFramed buffer body room small =
      rw (header_size (length body) small, header_bytes (length body) small)
        (framed buffer body (
          omega (
            arith,
            max_header_size,
            length-append (base128 26) (base128 (length body)),
            length-base128 (length body) small,
          )))
