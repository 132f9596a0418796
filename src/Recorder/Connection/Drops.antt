-- ===== src/Recorder/Connection/Drops.antt =====
-- What becomes of the counts of dropped spans in src/recorder/stream_recorder/connection_stream.cpp.
use lightstep_tracer_cpp.Base.{ℕ, ◌+◌, ◌≡◌, List, [], ◌∷◌, ◌++◌, if◌then◌else◌}
use lightstep_tracer_cpp.Stream.{Fragment, empty}
use lightstep_tracer_cpp.Stream.Array.{fragment_array}
use lightstep_tracer_cpp.Stream.VectorWrite.{Result}
use lightstep_tracer_cpp.Recorder.Metrics.{MetricsTracker, on_spans_dropped}
use lightstep_tracer_cpp.Recorder.SpanStream.{SpanStream}
use lightstep_tracer_cpp.Recorder.Connection.{
  ConnectionStream, Streams, Writer, new_connection_stream, reset, shutdown, flush,
}

-- The connections, the stream of spans that they share, and, for the proofs, the drops in the headers that
-- were written to their ends.
pub record World : Type 0 where
  pub connections : List ConnectionStream
  pub span_stream : SpanStream
  pub reported : ℕ

-- A writer counts no drops.
pub record KeepsDrops (m m' : MetricsTracker) : Type 0 where
  pub total : m'.observer.dropped ≡ m.observer.dropped
  pub unreported : m'.num_dropped_spans ≡ m.num_dropped_spans

pub record IsWriter (w : Writer) : Type 0 where
  pub spans :
      (st : Streams SpanStream) → KeepsDrops st.last.metrics (w.with_spans st).1.last.metrics

-- The drops in a header that has been written to its end.
abbrev pub reported_by : ConnectionStream → ℕ
reported_by c = if empty fragment_array c.header_stream then c.num_dropped_spans else 0

abbrev pub in_headers : List ConnectionStream → ℕ
in_headers [] = 0
in_headers (c ∷ cs) = c.num_dropped_spans + in_headers cs

-- The recorder drops spans; connections are made, flushed, shut down and reset, in any order.
module _ (metrics_fragment : ℕ → Fragment) where
  pub data Step : World → World → Type 0 where
    drop_spans :
        (n : ℕ) (w : World)
        → Step w (record w {
          span_stream = record (w.span_stream) {
            metrics = on_spans_dropped n w.span_stream.metrics;
          };
        })
    connect :
        (host common : Fragment) (w : World)
        → Step w (
            let (c, s) = new_connection_stream metrics_fragment host common w.span_stream in
            record w { connections = c ∷ w.connections; span_stream = s })
    flush_one :
        (writer : Writer) (before after : List ConnectionStream) (c : ConnectionStream)
        (s : SpanStream) (n : ℕ)
        → IsWriter writer
        → Step
            (record { connections = before ++ (c ∷ after); span_stream = s; reported = n })
            (let (result, c', s') = flush writer c s in
              record { connections = before ++ (c' ∷ after); span_stream = s'; reported = n })
    shutdown_one :
        (before after : List ConnectionStream) (c : ConnectionStream) (s : SpanStream) (n : ℕ)
        → Step
            (record { connections = before ++ (c ∷ after); span_stream = s; reported = n })
            (record { connections = before ++ (shutdown c ∷ after); span_stream = s; reported = n })
    reset_one :
        (before after : List ConnectionStream) (c : ConnectionStream) (s : SpanStream) (n : ℕ)
        → Step
            (record { connections = before ++ (c ∷ after); span_stream = s; reported = n })
            (let (c', s') = reset metrics_fragment c s in
              record {
                connections = before ++ (c' ∷ after);
                span_stream = s';
                reported = n + reported_by c;
              })

  pub data Reach : World → World → Type 0 where
    start : (w : World) → Reach w w
    more : {u v w : World} → Reach u v → Step v w → Reach u w

-- Every drop that the observer was told of is still to be put into a header, in the header of a
-- connection, or in a header that was written to its end before the connection was reset.
abbrev pub HasBooks : World → Type 0
HasBooks w =
    w.span_stream.metrics.observer.dropped
    ≡ w.span_stream.metrics.num_dropped_spans + in_headers w.connections + w.reported

-- A flush leaves the counts of drops alone.
record KeepsCounts (c : ConnectionStream) (s : SpanStream)
    (r : Result × ConnectionStream × SpanStream) : Type 0 where
  header : r.1.num_dropped_spans ≡ c.num_dropped_spans
  metrics : KeepsDrops s.metrics r.2.metrics
