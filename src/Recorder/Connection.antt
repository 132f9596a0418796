-- ===== src/Recorder/Connection.antt =====
-- src/recorder/stream_recorder/connection_stream.h and .cpp: what is sent over one connection to a
-- satellite, the header with the metrics, then spans, then the end of the chunks. The stream of spans is
-- shared by the connections. The bytes of the metrics message are a parameter.
use lightstep_tracer_cpp.Base.{
  ℕ, zero, suc, ◌+◌, ◌-◌, ◌/◌, ◌%◌, Bool, true, false, List, [], ◌∷◌, ◌++◌, Option, none, some,
  codes, ltb, ◌==◌, if◌then◌else◌, length,
}
use lightstep_tracer_cpp.Stream.{Fragment, empty}
use lightstep_tracer_cpp.Stream.Array.{FragmentArray, of_fragments, fragment_array}
use lightstep_tracer_cpp.Stream.Chained.{ChainedStream, segment_num_fragments}
use lightstep_tracer_cpp.Stream.VectorWrite.{Result, thrown, returned}
use lightstep_tracer_cpp.Recorder.Metrics.{
  MetricsTracker, on_spans_dropped, on_spans_sent, consume_dropped_spans, unconsume_dropped_spans,
}
use lightstep_tracer_cpp.Recorder.SpanStream.{SpanStream, allot, consume_remnant}
pub mod Drops

abbrev pub terminal_fragment : Fragment
terminal_fragment = codes "0\r\n\r\n"

abbrev pub end_of_line_fragment : Fragment
end_of_line_fragment = codes "\r\n"

abbrev pub http_request_common_fragment : Fragment
http_request_common_fragment =
    codes "POST /api/v2/reports HTTP/1.1\r\n"
    ++ (codes "Connection:close\r\n"
        ++ (codes "Content-Type:application/octet-stream\r\n"
            ++ codes "Transfer-Encoding:chunked\r\n"))

-- `snprintf` with "%llX"; 16 digits are enough for 64 bits.
unfoldable pub print_upper_hex : ℕ → ℕ → List ℕ → List ℕ
print_upper_hex zero n out = out
print_upper_hex (suc fuel) n out =
    let d = n % 16 in
    let shown = (if ltb d 10 then b'0' + d else b'A' + (d - 10)) ∷ out in
    let more = print_upper_hex fuel (n / 16) shown in if n / 16 == 0 then shown else more

unfoldable pub write_chunk_header : ℕ → Fragment
unfolding print_upper_hex
write_chunk_header chunk_size = print_upper_hex 16 chunk_size [] ++ codes "\r\n"

pub record ConnectionStream : Type 0 where
  pub host_header_fragment : Fragment
  pub header_common_fragment : Fragment
  pub num_dropped_spans : ℕ
  pub header_stream : FragmentArray
  pub terminal_stream : FragmentArray
  pub span_remnant : Option ChainedStream
  pub shutting_down : Bool

-- The streams that a writer is called with; the last is that of the spans, or the end of the chunks.
pub record Streams (L : Type 0) : Type 0 where
  pub header : FragmentArray
  pub remnant : Option ChainedStream
  pub last : L

-- What a call of the writer returns, and the streams as it leaves them: no remnant where it got none.
pub record Writer : Type 0 where
  pub with_spans : Streams SpanStream → Result × Streams SpanStream
  pub with_terminal : Streams FragmentArray → Result × Streams FragmentArray

abbrev pub is_empty : Option ChainedStream → Bool
is_empty none = true
is_empty (some span) = segment_num_fragments span == 0

module _ (metrics_fragment : ℕ → Fragment) where
  unfoldable pub initialize_stream : ConnectionStream → SpanStream → ConnectionStream × SpanStream
  unfolding write_chunk_header of_fragments
  initialize_stream c s =
      let (dropped, metrics) = consume_dropped_spans s.metrics in
      let fragment = metrics_fragment dropped in
      (
        record c {
          shutting_down = false;
          terminal_stream = of_fragments (terminal_fragment ∷ []);
          num_dropped_spans = dropped;
          header_stream = of_fragments (
              http_request_common_fragment
              ∷ c.host_header_fragment
              ∷ end_of_line_fragment
              ∷ write_chunk_header (length c.header_common_fragment + length fragment)
              ∷ c.header_common_fragment
              ∷ fragment
              ∷ end_of_line_fragment
              ∷ []);
        },
        record s { metrics = metrics },
      )

  unfoldable pub new_connection_stream :
      Fragment → Fragment → SpanStream → ConnectionStream × SpanStream
  unfolding initialize_stream of_fragments
  new_connection_stream host_header_fragment header_common_fragment s =
      initialize_stream
        (record {
          host_header_fragment = host_header_fragment;
          header_common_fragment = header_common_fragment;
          num_dropped_spans = 0;
          header_stream = of_fragments [];
          terminal_stream = of_fragments [];
          span_remnant = none;
          shutting_down = false;
        })
        s

  -- What `Reset` counts before it starts again.
  unfoldable pub give_back : ConnectionStream → MetricsTracker → MetricsTracker
  unfolding empty
  give_back c m =
      let m' : MetricsTracker =
        if empty fragment_array c.header_stream
        then m
        else unconsume_dropped_spans c.num_dropped_spans m in
      if is_empty c.span_remnant then m' else on_spans_dropped 1 m'

  unfoldable pub reset : ConnectionStream → SpanStream → ConnectionStream × SpanStream
  unfolding give_back initialize_stream
  reset c s =
      initialize_stream (record c { span_remnant = none })
        (record s { metrics = give_back c s.metrics })

unfoldable pub shutdown : ConnectionStream → ConnectionStream
shutdown c = record c { shutting_down = true }

abbrev pub take_header : ConnectionStream → FragmentArray → Option ChainedStream → ConnectionStream
take_header c header remnant = record c { header_stream = header; span_remnant = remnant }

-- `FlushShutdown`, from the remnant that there was and what the writer leaves.
abbrev pub flushed_terminal :
    ConnectionStream
    → SpanStream
    → Option ChainedStream
    → Result × Streams FragmentArray
    → Result × ConnectionStream × SpanStream
flushed_terminal c s remnant (thrown, left) =
    (thrown, record (take_header c left.header left.remnant) { terminal_stream = left.last }, s)
flushed_terminal c s none (returned all, left) =
    (returned all, record (take_header c left.header none) { terminal_stream = left.last }, s)
flushed_terminal c s (some span) (returned all, left) =
    if is_empty left.remnant
    then (
      returned all,
      record (take_header c left.header none) { terminal_stream = left.last },
      record s { metrics = on_spans_sent 1 s.metrics },
    )
    else (
      returned all,
      record (take_header c left.header left.remnant) { terminal_stream = left.last },
      s,
    )

-- `Flush` while the session goes on, likewise.
abbrev pub flushed_spans :
    ConnectionStream
    → Option ChainedStream
    → Result × Streams SpanStream
    → Result × ConnectionStream × SpanStream
flushed_spans c remnant (thrown, left) = (thrown, take_header c left.header left.remnant, left.last)
flushed_spans c none (returned all, left) =
    let (remnant, s) = consume_remnant left.last in
    (returned all, take_header c left.header remnant, s)
flushed_spans c (some span) (returned all, left) =
    let (remnant, s) =
      consume_remnant (record (left.last) { metrics = on_spans_sent 1 left.last.metrics }) in
    if is_empty left.remnant
    then (returned all, take_header c left.header remnant, s)
    else (returned all, take_header c left.header left.remnant, left.last)

module _ (writer : Writer) where
  unfoldable pub flush_shutdown :
      ConnectionStream → SpanStream → Result × ConnectionStream × SpanStream
  flush_shutdown c s = flushed_terminal c s c.span_remnant (
      writer.with_terminal
        (record { header = c.header_stream; remnant = c.span_remnant; last = c.terminal_stream }))

  unfoldable pub flush : ConnectionStream → SpanStream → Result × ConnectionStream × SpanStream
  unfolding flush_shutdown
  flush c s =
      if c.shutting_down
      then flush_shutdown c s
      else flushed_spans c c.span_remnant (
          writer.with_spans
            (record { header = c.header_stream; remnant = c.span_remnant; last = allot s }))

abbrev pub completed : ConnectionStream → Bool
completed c = empty fragment_array c.terminal_stream

abbrev pub first_chunk_position : ConnectionStream → ℕ
first_chunk_position c =
    length http_request_common_fragment
    + length c.host_header_fragment
    + length end_of_line_fragment
