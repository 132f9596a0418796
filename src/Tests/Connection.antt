-- ===== src/Tests/Connection.antt =====
-- A connection that carries the count of three dropped spans to a satellite.
use lightstep_tracer_cpp.Base.{ℕ, ◌≡◌, refl, true, [], ◌∷◌, none, codes}
use lightstep_tracer_cpp.Stream.{Fragment}
use lightstep_tracer_cpp.Stream.Array
use lightstep_tracer_cpp.Stream.VectorWrite.{returned}
use lightstep_tracer_cpp.Recorder.SpanStream
use lightstep_tracer_cpp.Recorder.SpanStream.{SpanStream}
use lightstep_tracer_cpp.Recorder.Connection.{
  Writer, new_connection_stream, flush, write_chunk_header,
}
use lightstep_tracer_cpp.Recorder.Connection.Drops.{World}

chunk_header : write_chunk_header 300 ≡ codes "12C\r\n"
unfolding write_chunk_header
chunk_header = refl

-- A socket that takes everything.
abbrev write_everything : Writer
write_everything = record {
  with_spans = λ st. (
    returned true,
    record { header = Array.clear st.header; remnant = none; last = SpanStream.clear st.last },
  );
  with_terminal = λ st. (
    returned true,
    record { header = Array.clear st.header; remnant = none; last = Array.clear st.last },
  );
}

abbrev metrics_bytes : ℕ → Fragment
metrics_bytes n = n ∷ []

abbrev no_connections : World
no_connections = record {
  connections = [];
  span_stream = record {
    span_buffer = [];
    metrics = record {
      observer = record { flushes = 0; sent = 0; dropped = 0 };
      num_dropped_spans = 0;
    };
    allotment = 0;
    remnant = none;
  };
  reported = 0;
}

abbrev three_dropped : World
three_dropped = record no_connections {
  span_stream = record (no_connections.span_stream) {
    metrics = record {
      observer = record { flushes = 0; sent = 0; dropped = 3 };
      num_dropped_spans = 3;
    };
  };
}

abbrev host : Fragment
host = codes "Host:a\r\n"

abbrev connected : World
connected =
    let (c, s) = new_connection_stream metrics_bytes host [] three_dropped.span_stream in
    record three_dropped { connections = c ∷ []; span_stream = s }

abbrev flushed : World
flushed =
    let (c, s) = new_connection_stream metrics_bytes host [] three_dropped.span_stream in
    let (result, c', s') = flush write_everything c s in
    record { connections = c' ∷ []; span_stream = s'; reported = 0 }
