-- ===== src/Recorder/SpanStream.antt =====
-- src/recorder/stream_recorder/span_stream.h and .cpp: the spans of the buffer as one stream of
-- fragments. What is written of a span at whose middle the stream is left is its remnant. The buffer is
-- the queue that src/common/circular_buffer.h implements, and the allotment as many of its first spans.
use lightstep_tracer_cpp.Base.{
  ℕ, ◌+◌, ◌-◌, Bool, true, ◌&&◌, List, [], ◌∷◌, Option, none, some, leb, ◌==◌, if◌then◌else◌,
  length, take, drop,
}
use lightstep_tracer_cpp.Stream.{Fragment, if_go_on}
use lightstep_tracer_cpp.Stream.Chained.{
  ChainedStream, segment_num_fragments, segment_for_each_fragment, segment_seek,
}
use lightstep_tracer_cpp.Recorder.Metrics.{MetricsTracker, on_spans_sent}
pub mod Cut
pub mod Seek

pub record SpanStream : Type 0 where
  pub span_buffer : List ChainedStream
  pub metrics : MetricsTracker
  pub allotment : ℕ
  pub remnant : Option ChainedStream

unfoldable pub allot : SpanStream → SpanStream
allot s = record s { allotment = length s.span_buffer }

abbrev pub allotted : SpanStream → List ChainedStream
allotted s = take s.allotment s.span_buffer

unfoldable pub consume_remnant : SpanStream → Option ChainedStream × SpanStream
consume_remnant s = (s.remnant, record s { remnant = none })

unfoldable pub count_fragments : List ChainedStream → ℕ → ℕ
unfolding segment_num_fragments
count_fragments [] result = result
count_fragments (span ∷ spans) result = count_fragments spans (result + segment_num_fragments span)

unfoldable pub num_fragments : SpanStream → ℕ
unfolding count_fragments
num_fragments s = count_fragments (allotted s) 0

unfoldable pub for_each_of :
    {A : Type 0} → (Fragment → A → Bool × A) → List ChainedStream → A → Bool × A
unfolding segment_for_each_fragment
for_each_of f [] a = (true, a)
for_each_of f (span ∷ spans) a = if_go_on (segment_for_each_fragment f span a) (for_each_of f spans)

unfoldable pub for_each_fragment :
    {A : Type 0} → (Fragment → A → Bool × A) → SpanStream → A → Bool × A
unfolding for_each_of
for_each_fragment f s a = for_each_of f (allotted s) a

unfoldable pub clear : SpanStream → SpanStream
clear s = record {
  span_buffer = drop s.allotment s.span_buffer;
  metrics = on_spans_sent s.allotment s.metrics;
  allotment = 0;
  remnant = none;
}

-- The first loop of `Seek`: `span_count` and `full_span_count`.
unfoldable pub count_spans : List ChainedStream → ℕ → ℕ → ℕ → ℕ → ℕ × ℕ
count_spans [] i p span_count full_span_count = (span_count, full_span_count)
count_spans (span ∷ spans) i p span_count full_span_count =
    let rest =
      count_spans spans (i - segment_num_fragments span) p (span_count + 1) full_span_count in
    if leb (segment_num_fragments span) i
    then rest
    else if i == 0 && p == 0
    then (span_count, span_count)
    else (span_count + 1, span_count)

-- The callback of `Consume`, on the spans that are consumed.
unfoldable pub take_remnant :
    List ChainedStream → ℕ → ℕ → Option ChainedStream → Option ChainedStream
take_remnant [] i p remnant = remnant
take_remnant (span ∷ spans) i p remnant =
    let behind = take_remnant spans (i - segment_num_fragments span) p remnant in
    let inside = take_remnant spans i p (some (segment_seek i p span)) in
    if leb (segment_num_fragments span) i then behind else inside

unfoldable pub seek : ℕ → ℕ → SpanStream → SpanStream
unfolding count_spans take_remnant
seek i p s =
    let (span_count, full_span_count) = count_spans (allotted s) i p 0 0 in
    record {
      span_buffer = drop span_count s.span_buffer;
      metrics = on_spans_sent full_span_count s.metrics;
      allotment = 0;
      remnant = take_remnant (take span_count s.span_buffer) i p none;
    }
