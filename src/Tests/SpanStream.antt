-- ===== src/Tests/SpanStream.antt =====
-- A seek of the span stream into the middle of a span.
use lightstep_tracer_cpp.Base.{
  ℕ, ◌<◌, ◌≡◌, refl, true, List, [], ◌∷◌, none, codes, length, All, get_or, arith,
}
use lightstep_tracer_cpp.Stream.Chained.{ChainedStream, segment_num_fragments, segment_seek}
use lightstep_tracer_cpp.Stream.Chained.Reading.{IsOpen, reading, contents}
use lightstep_tracer_cpp.Stream.Composed
use lightstep_tracer_cpp.Recorder.SpanStream.{SpanStream, allotted, seek}
use lightstep_tracer_cpp.Recorder.SpanStream.Cut.{all, spans}
use lightstep_tracer_cpp.Recorder.SpanStream.Seek.{IsSought, seek-IsSought}

-- A closed stream of one block.
abbrev closed_span : List ℕ → ChainedStream
closed_span bytes = record {
  output_closed = true;
  num_blocks = 1;
  num_bytes_written = length bytes;
  current_block_position = length bytes;
  current_block = 0;
  fragment_index = 0;
  fragment_position = 0;
  blocks = record { size = length bytes; bytes = bytes } ∷ [];
}

abbrev two_spans : SpanStream
two_spans = record {
  span_buffer = closed_span (codes "first") ∷ closed_span (codes "second") ∷ [];
  metrics = record {
    observer = record { flushes = 0; sent = 0; dropped = 0 };
    num_dropped_spans = 0;
  };
  allotment = 2;
  remnant = none;
}

-- The first span is sent, and of the second what is behind `sec`.
remnant_bytes : all (spans (seek 1 3 two_spans).remnant) ≡ codes "ond" ∷ []
unfolding seek contents Composed.contents segment_num_fragments segment_seek
remnant_bytes = refl

two_spans-IsOpen : All IsOpen (allotted two_spans)
two_spans-IsOpen = (
  reading (record {
    closed = refl;
    written = λ e. omega arith;
    count = refl;
    place = refl;
    index = omega arith;
    position = omega arith;
  }),
  (
    reading (record {
      closed = refl;
      written = λ e. omega arith;
      count = refl;
      place = refl;
      index = omega arith;
      position = omega arith;
    }),
    tt,
  ),
)

two_spans-inside :
    (1 < length (all (allotted two_spans))) × (3 < length (get_or (all (allotted two_spans)) 1 []))
unfolding Composed.contents contents
two_spans-inside = (omega arith, omega arith)

seek-IsSought_example : IsSought two_spans 1 3 (seek 1 3 two_spans)
seek-IsSought_example =
    seek-IsSought two_spans 1 3 two_spans-IsOpen two_spans-inside.0 two_spans-inside.1
