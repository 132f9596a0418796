-- ===== src/Recorder/ReportRequest.antt =====
-- src/recorder/serialization/report_request.h and .cpp: the request that the recorders send, a header,
-- the metrics message if spans were dropped, and the chain of serialized spans. The header and the
-- metrics message are made by protobuf: their bytes are parameters.
use lightstep_tracer_cpp.Base.{
  ℕ, ◌+◌, Bool, true, List, [], ◌∷◌, ◌++◌, ◌==◌, if◌then◌else◌, length, Option, none, some,
}
use lightstep_tracer_cpp.Stream.{Fragment, if_go_on}
use lightstep_tracer_cpp.Stream.Chained.{ChainedStream}
use lightstep_tracer_cpp.Stream.Chained.Reading.{chained_stream, contents}
use lightstep_tracer_cpp.Stream.Composed.{num_fragments, for_each_fragment, append}
use lightstep_tracer_cpp.Stream.Composed
pub mod Counting

-- `EmbeddedMetricsMessage` with its fragment.
pub record Metrics : Type 0 where
  pub dropped : ℕ
  pub fragment : Fragment

pub record ReportRequest : Type 0 where
  pub header : Fragment
  pub metrics : Option Metrics
  pub num_bytes : ℕ
  pub num_spans : ℕ
  pub num_fragments : ℕ
  pub spans : List ChainedStream

-- The constructor; `embed` serializes the metrics message.
unfoldable pub make_request : (ℕ → Fragment) → Fragment → ℕ → ReportRequest
make_request embed header num_dropped_spans =
    let r : ReportRequest = record {
      header = header;
      metrics = none;
      num_bytes = length header;
      num_spans = 0;
      num_fragments = 0;
      spans = [];
    } in
    if num_dropped_spans == 0 then r else record r {
      metrics = some (record { dropped = num_dropped_spans; fragment = embed num_dropped_spans });
      num_bytes = length header + length (embed num_dropped_spans);
    }

-- The callback of `AddSpan`.
abbrev pub count_bytes : Fragment → ℕ → Bool × ℕ
count_bytes x n = (true, n + length x)

-- A span is a chain of one segment; a null pointer to the spans is the empty chain.
unfoldable pub add_span : ReportRequest → ChainedStream → ReportRequest
add_span r span = record r {
  num_spans = r.num_spans + 1;
  num_fragments = r.num_fragments + num_fragments chained_stream (span ∷ []);
  num_bytes = (for_each_fragment chained_stream count_bytes (span ∷ []) r.num_bytes).1;
  spans = append chained_stream r.spans (span ∷ []);
}

abbrev dropped_of : Option Metrics → ℕ
dropped_of none = 0
dropped_of (some m) = m.dropped

unfoldable pub num_dropped_spans : ReportRequest → ℕ
num_dropped_spans r = dropped_of r.metrics

abbrev pub visit_metrics {ℓ} :
    {A : Type ℓ} → (Fragment → A → Bool × A) → Option Metrics → A → Bool × A
visit_metrics f none a = (true, a)
visit_metrics f (some m) a = f m.fragment a

unfoldable pub for_each_request_fragment :
    {A : Type 0} → (Fragment → A → Bool × A) → ReportRequest → A → Bool × A
for_each_request_fragment f r a =
    if_go_on (if_go_on (f r.header a) (visit_metrics f r.metrics))
      (for_each_fragment chained_stream f r.spans)

unfoldable pub add_spans : ReportRequest → List ChainedStream → ReportRequest
add_spans r [] = r
add_spans r (s ∷ ss) = add_spans (add_span r s) ss

-- The fragments of a request, in the order in which they are sent.
abbrev pub metrics_fragments : Option Metrics → List Fragment
metrics_fragments none = []
metrics_fragments (some m) = m.fragment ∷ []

unfoldable pub request_fragments : ReportRequest → List Fragment
request_fragments r =
    (r.header ∷ []) ++ (metrics_fragments r.metrics ++ Composed.contents chained_stream r.spans)
