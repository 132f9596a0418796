-- ===== src/Recorder/Manual.antt =====
-- src/recorder/manual_recorder.h and .cpp: the recorder that hands reports to a transporter of the
-- user's and has no thread of its own. Any threads call it: what they do between two atomic operations
-- is a step. The buffer of spans is the queue that src/common/circular_buffer.h implements; the bytes of
-- the header and of the metrics message are parameters.
use lightstep_tracer_cpp.Base.{
  ℕ, ◌+◌, ◌-◌, ◌%◌, ◌^◌, ◌≤◌, ◌≡◌, Bool, true, false, ◌&&◌, List, [], ◌∷◌, ◌++◌, Option, none, some,
  ltb, ◌==◌, if◌then◌else◌, length, take, drop, get_or,
}
use lightstep_tracer_cpp.Stream.{Fragment}
use lightstep_tracer_cpp.Stream.Chained.{
  ChainedStream, Space, no_block, next, back_up, byte_count, close_output, segment_seek,
}
use lightstep_tracer_cpp.Stream.Chained.Writing.{store}
use lightstep_tracer_cpp.Serialization.{CodedOutput}
use lightstep_tracer_cpp.Serialization.Framing.{
  report_request_spans_max_header_size, write_report_request_spans_header,
}
use lightstep_tracer_cpp.Recorder.ReportRequest.{
  ReportRequest, make_request, add_spans, num_dropped_spans,
}
use lightstep_tracer_cpp.Recorder.Metrics.{
  MetricsTracker, on_spans_dropped, on_spans_sent, on_flush, consume_dropped_spans,
  unconsume_dropped_spans,
}
pub mod Framing
pub mod Books

module _ (P : CodedOutput) where
  -- `ReserveHeaderSpace`: what is left of the space that `Next` gives is given back.
  unfoldable pub reserve_header_space : ChainedStream → Space × ChainedStream
  unfolding next back_up
  reserve_header_space s =
      let max = report_request_spans_max_header_size P in
      let (space, s') = next s in (record space { count = max }, back_up (space.count - max) s')

  -- The bytes of a space.
  abbrev pub bytes_of : Space → ChainedStream → List ℕ
  bytes_of space s =
      take space.count (drop space.offset (get_or s.blocks space.block no_block).bytes)

  -- What `RecordSpan` does with the stream before it is added: the header is written, and the space in
  -- front of it is skipped.
  unfoldable pub frame_span : Space → ChainedStream → ChainedStream
  unfolding byte_count write_report_request_spans_header store close_output segment_seek
  frame_span header span =
      let (header_size, bytes) =
        write_report_request_spans_header P (bytes_of header span)
          ((byte_count span - header.count) % 2 ^ 32) in
      segment_seek 0 (header.count - header_size) (close_output (store header bytes span))

pub record ManualRecorder : Type 0 where
  pub report_request_header : Fragment
  pub max_buffered_spans : ℕ
  pub span_buffer : List ChainedStream
  pub metrics : MetricsTracker

unfoldable pub initial : Fragment → ℕ → ManualRecorder
initial header max = record {
  report_request_header = header;
  max_buffered_spans = max;
  span_buffer = [];
  metrics = record {
    observer = record { flushes = 0; sent = 0; dropped = 0 };
    num_dropped_spans = 0;
  };
}

-- `span_buffer_.Add`
unfoldable pub add_to_buffer : ChainedStream → ManualRecorder → Bool × ManualRecorder
add_to_buffer span s =
    if ltb (length s.span_buffer) s.max_buffered_spans
    then (true, record s { span_buffer = s.span_buffer ++ (span ∷ []) })
    else (false, s)

-- What `RecordSpan` does behind `OnSpanBufferFull`.
unfoldable pub add_again : ChainedStream → ManualRecorder → ManualRecorder
unfolding add_to_buffer
add_again span s =
    let (was_added, s') = add_to_buffer span s in
    if was_added then s' else record s' { metrics = on_spans_dropped 1 s'.metrics }

-- The section of `FlushWithTimeout` under the lock, with what `ConsumeDroppedSpans` has returned and
-- the size that it has read; nothing is sent if both are 0.
unfoldable pub take_spans :
    (ℕ → Fragment) → ℕ → ℕ → ManualRecorder → Option ReportRequest × ManualRecorder
unfolding add_spans make_request
take_spans embed dropped num_spans s = if num_spans == 0 && dropped == 0 then (none, s) else (
  some (
      add_spans (make_request embed s.report_request_header dropped)
        (take num_spans s.span_buffer)),
  record s { span_buffer = drop num_spans s.span_buffer },
)

unfoldable pub on_success : ReportRequest → ManualRecorder → ManualRecorder
on_success r s = record s { metrics = on_spans_sent r.num_spans s.metrics }

unfoldable pub on_failure : ReportRequest → ManualRecorder → ManualRecorder
unfolding num_dropped_spans
on_failure r s = record s {
  metrics = unconsume_dropped_spans (num_dropped_spans r) (on_spans_dropped r.num_spans s.metrics);
}

unfoldable pub on_forked_child : ManualRecorder → ManualRecorder
on_forked_child s = record s { metrics = (consume_dropped_spans s.metrics).1; span_buffer = [] }

-- A recorder in use: spans that the buffer has refused once, the counts that calls of `FlushWithTimeout`
-- have consumed, their requests, and those that the transporter has taken; and for the proofs what has
-- been recorded, what reports that succeeded have carried, and what `OnForkedChild` has cleared.
pub record Run : Type 0 where
  pub recorder : ManualRecorder
  pub refused : List ChainedStream
  pub consumed : List ℕ
  pub requests : List ReportRequest
  pub in_flight : List ReportRequest
  pub returning : ℕ
  pub recorded : ℕ
  pub delivered : ℕ
  pub delivered_drops : ℕ
  pub cleared : ℕ
  pub cleared_drops : ℕ

abbrev pub with_request : Option ReportRequest → List ReportRequest → List ReportRequest
with_request none rs = rs
with_request (some r) rs = r ∷ rs

-- The first `Add` of `RecordSpan`.
unfoldable pub record_first : ChainedStream → Run → Run
unfolding add_to_buffer
record_first span u =
    let (was_added, s) = add_to_buffer span u.recorder in
    record u {
      recorder = s;
      refused = if was_added then u.refused else span ∷ u.refused;
      recorded = u.recorded + 1;
    }

module _ (embed : ℕ → Fragment) where
  pub data Step : Run → Run → Type 0 where
    record_step : (u : Run) (span : ChainedStream) → Step u (record_first span u)
    again_step :
        (u : Run) (before after : List ChainedStream) (span : ChainedStream)
        → u.refused ≡ before ++ (span ∷ after)
        → Step u (record u { recorder = add_again span u.recorder; refused = before ++ after })
    consume_step :
        (u : Run)
        → Step u (record u {
          recorder = record (u.recorder) { metrics = (consume_dropped_spans u.recorder.metrics).1 };
          consumed = (consume_dropped_spans u.recorder.metrics).0 ∷ u.consumed;
        })
    take_step :
        (u : Run) (before after : List ℕ) (dropped num_spans : ℕ)
        → u.consumed ≡ before ++ (dropped ∷ after)
        → num_spans ≤ length u.recorder.span_buffer
        → Step u (record u {
          recorder = (take_spans embed dropped num_spans u.recorder).1;
          consumed = before ++ after;
          requests = with_request (take_spans embed dropped num_spans u.recorder).0 u.requests;
        })
    send_step :
        (u : Run) (before after : List ReportRequest) (r : ReportRequest)
        → u.requests ≡ before ++ (r ∷ after)
        → Step u (record u {
          requests = before ++ after;
          in_flight = r ∷ u.in_flight;
          returning = u.returning + 1;
        })
    return_step :
        (u : Run) (k : ℕ)
        → u.returning ≡ k + 1
        → Step u (record u {
          recorder = record (u.recorder) { metrics = on_flush u.recorder.metrics };
          returning = k;
        })
    -- `OnForkedChild`; calls and reports that are under way keep what they have taken.
    fork_step :
        (u : Run)
        → Step u (record u {
          recorder = on_forked_child u.recorder;
          cleared = u.cleared + length u.recorder.span_buffer;
          cleared_drops = u.cleared_drops + u.recorder.metrics.num_dropped_spans;
        })
    success_step :
        (u : Run) (before after : List ReportRequest) (r : ReportRequest)
        → u.in_flight ≡ before ++ (r ∷ after)
        → Step u (record u {
          recorder = on_success r u.recorder;
          in_flight = before ++ after;
          delivered = u.delivered + r.num_spans;
          delivered_drops = u.delivered_drops + num_dropped_spans r;
        })
    failure_step :
        (u : Run) (before after : List ReportRequest) (r : ReportRequest)
        → u.in_flight ≡ before ++ (r ∷ after)
        → Step u (record u { recorder = on_failure r u.recorder; in_flight = before ++ after })

  pub data Reach (u : Run) : Run → Type 0 where
    here : Reach u u
    step : {v w : Run} → Reach u v → Step v w → Reach u w

unfoldable pub fresh : Fragment → ℕ → Run
unfolding initial
fresh header max = record {
  recorder = initial header max;
  refused = [];
  consumed = [];
  requests = [];
  in_flight = [];
  returning = 0;
  recorded = 0;
  delivered = 0;
  delivered_drops = 0;
  cleared = 0;
  cleared_drops = 0;
}
