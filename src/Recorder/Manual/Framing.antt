-- ===== src/Recorder/Manual/Framing.antt =====
-- The frame that src/recorder/manual_recorder.cpp puts round a span: the reserved space in the first
-- block of its stream, and the bytes that the stream has once it is recorded.
use lightstep_tracer_cpp.Base.{
  ℕ, ◌-◌, ◌%◌, ◌^◌, ◌≤◌, ◌<◌, ◌≡◌, refl, ap, sym, ◌∙◌, List, [], ◌++◌, length, take, drop, arith,
  length-append, length-drop, drop-append_inside, length-take_exact,
}
use lightstep_tracer_cpp.Stream.{concat}
use lightstep_tracer_cpp.Stream.Chained.{
  ChainedStream, Block, Space, block_size, initial, byte_count, close_output, segment_seek,
}
use lightstep_tracer_cpp.Stream.Chained.Writing.{store, write, state}
use lightstep_tracer_cpp.Stream.Chained.Rounds.{Written}
use lightstep_tracer_cpp.Stream.Chained.RoundTrip.{write-Written}
use lightstep_tracer_cpp.Stream.Chained.Reading.{IsOpen, contents}
use lightstep_tracer_cpp.Stream.Chained.FirstBlock.{store_first, skipped, first_bytes}
use lightstep_tracer_cpp.Serialization.{CodedOutput}
use lightstep_tracer_cpp.Serialization.Wire.{IsProtobuf, base128, groups, encode_field, bytes_field}
use lightstep_tracer_cpp.Serialization.Framing.{
  report_request_spans_max_header_size, write_report_request_spans_header, IsFramed,
  write_report_request_spans_header-IsFramed, length-largest, max_header_size,
}
use lightstep_tracer_cpp.Recorder.Manual.{reserve_header_space, frame_span, bytes_of}

-- What is left to read of a framed span.
pub record IsSent (s : ChainedStream) (body : List ℕ) : Type 0 where
  pub is_open : IsOpen s
  pub bytes : concat (contents s) ≡ encode_field (bytes_field 3 body)

first_byte : length (base128 26) ≡ 1
unfolding groups
first_byte = refl

module _ (P : CodedOutput) (H : IsProtobuf P) where
  abbrev max : ℕ
  max = report_request_spans_max_header_size P

  -- The space at the start of a new stream.
  reserved :
      (head : Block)
      → max ≤ block_size
      → reserve_header_space P (initial head) ≡ (
        record { block = 0; offset = 0; count = max },
        state 0 [] (record { size = max; bytes = head.bytes }) max max,
      )
  unfolding reserve_header_space initial
  reserved head h =
      ap
        (λ (n : ℕ). (
          record { block = 0; offset = 0; count = max },
          state 0 [] (record { size = n; bytes = head.bytes }) n n,
        ))
        (all_but h)
    where
      all_but : max ≤ block_size → block_size - (block_size - max) ≡ max
      all_but h = omega arith

  reserved-Written :
      (head : Block)
      → max ≤ block_size
      → length head.bytes ≡ block_size
      → Written (reserve_header_space P (initial head)).1 (take max head.bytes)
  unfolding concat
  reserved-Written head h block =
      rw (ap (λ (r : Space × ChainedStream). r.1) (reserved head h)) (record {
        full = [];
        last = record { size = max; bytes = head.bytes };
        pos = max;
        is_state =
            ap (state 0 [] (record { size = max; bytes = head.bytes }) max)
              (sym (length-take_exact max head.bytes (omega (arith, block))));
        room = h;
        block = block;
        bytes = refl;
        size = λ n. refl;
        all_full = tt;
      })

  -- The header of a framed span is not empty.
  header_some : (buffer body : List ℕ) (r : ℕ × List ℕ) → IsFramed buffer body r → 0 < r.0
  header_some buffer body r f = omega (
    arith,
    f.fits,
    f.same_size,
    ap length f.message,
    length-append (drop (length buffer - r.0) r.1) body,
    length-drop (length buffer - r.0) r.1,
    length-append (base128 26) (base128 (length body) ++ body),
    length-append (base128 (length body)) body,
    first_byte,
  )

  framed-IsSent :
      (s : ChainedStream) (garbage buffer body : List ℕ) (r : ℕ × List ℕ)
      → Written s (garbage ++ body)
      → length garbage ≡ max
      → length buffer ≡ max
      → 0 < max
      → max ≤ block_size
      → IsFramed buffer body r
      → IsSent
          (segment_seek 0
            (max - r.0)
            (close_output (store (record { block = 0; offset = 0; count = max }) r.1 s)))
          body
  framed-IsSent s garbage buffer body r w hg hb some fits f =
      let w' =
        store_first r.1 garbage body (omega (arith, f.same_size, hg, hb)) s max
          (omega (arith, f.same_size, hb)) (omega (arith, f.same_size, hb)) w in
      let some_bytes : 0 < r.0 = header_some buffer body r f in
      let rest =
        skipped (store (record { block = 0; offset = 0; count = max }) r.1 s) (r.1 ++ body)
          (max - r.0) w' (omega (arith, f.same_size, hb, length-append r.1 body)) (omega arith) in
      record {
        is_open = rest.0;
        bytes =
            rest.1
            ∙ (drop-append_inside (max - r.0) r.1 body (omega (arith, f.same_size, hb))
                ∙ (ap (λ (n : ℕ). drop (n - r.0) r.1 ++ body) (sym hb) ∙ f.message));
      }

  frame_span-size :
      (header : Space) (s : ChainedStream) (n : ℕ)
      → (byte_count s - header.count) % 2 ^ 32 ≡ n
      → let r = write_report_request_spans_header P (bytes_of P header s) n in
        frame_span P header s
        ≡ segment_seek 0 (header.count - r.0) (close_output (store header r.1 s))
  unfolding frame_span
  frame_span-size header s n e =
      ap
        (λ (k : ℕ).
          let r = write_report_request_spans_header P (bytes_of P header s) k in
          segment_seek 0 (header.count - r.0) (close_output (store header r.1 s)))
        e

  body_size :
      (s : ChainedStream) (garbage body : List ℕ)
      → Written s (garbage ++ body)
      → length garbage ≡ max
      → length body < 2 ^ 32
      → (byte_count s - max) % 2 ^ 32 ≡ length body
  unfolding byte_count
  body_size s garbage body w hg small = omega (
    arith,
    ap (λ (t : ChainedStream). t.num_bytes_written) w.is_state,
    hg,
    length-append garbage body,
  )

  some_room : 0 < max
  some_room = omega (arith, H.static_varint_size32_lem (2 ^ 32 - 1) (omega arith), length-largest)

  frame-IsSent :
      (s : ChainedStream) (garbage body : List ℕ)
      → Written s (garbage ++ body)
      → length garbage ≡ max
      → length body < 2 ^ 32
      → max ≤ block_size
      → IsSent (frame_span P (record { block = 0; offset = 0; count = max }) s) body
  frame-IsSent s garbage body w hg small fits =
      let header : Space = record { block = 0; offset = 0; count = max } in
      let room : length (bytes_of P header s) ≡ max =
        length-take_exact max _ (omega (arith, first_bytes s (garbage ++ body) w)) in
      rw (frame_span-size header s (length body) (body_size s garbage body w hg small)) (
        framed-IsSent s garbage (bytes_of P header s) body
          (write_report_request_spans_header P (bytes_of P header s) (length body)) w hg room
          some_room fits
          (write_report_request_spans_header-IsFramed P H (bytes_of P header s) body
            (omega (arith, room)) small))

  -- The stream of a span whose body the client writes behind the reserved space: once it is framed, what
  -- is left to read of it is the wire format of the span in a report, whatever stood in its first block,
  -- if the body has less than 2 ^ 32 bytes.
  pub frame_span-IsSent :
      (head : Block) (body : List ℕ)
      → length head.bytes ≡ block_size
      → length body < 2 ^ 32
      → let (header, s) = reserve_header_space P (initial head) in
        IsSent (frame_span P header (write (length body) body s)) body
  frame_span-IsSent head body block small =
      let fits : max ≤ block_size = omega (arith, max_header_size P H, first_byte) in
      let w =
        write-Written (length body) body (reserve_header_space P (initial head)).1
          (take max head.bytes) (omega arith) (reserved-Written head fits block) in
      rw (ap (λ (r : Space × ChainedStream). r.0) (reserved head fits)) (
        frame-IsSent (write (length body) body (reserve_header_space P (initial head)).1)
          (take max head.bytes) body w (length-take_exact max head.bytes (omega (arith, block)))
          small fits)
