-- ===== src/Tests/Recorder.antt =====
-- Runs of the recorders and of the requests that they send, and their theorems at concrete inputs.
use lightstep_tracer_cpp.Base.{
  ℕ, ◌≡◌, refl, ◌+◌, ◌<◌, true, false, arith, List, [], ◌∷◌, length, replicate, length-replicate,
  ap,
}
use lightstep_tracer_cpp.Stream.{concat, Fragment}
use lightstep_tracer_cpp.Stream.Chained.{
  ChainedStream, Block, initial as new_stream, close_output, block_size,
}
use lightstep_tracer_cpp.Stream.Chained.Writing.{write_pieces}
use lightstep_tracer_cpp.Stream.Chained.Reading.{IsOpen}
use lightstep_tracer_cpp.Stream.Chained.RoundTrip.{contents-write}
use lightstep_tracer_cpp.Recorder.LegacyManual.{
  LegacyManualRecorder, record_span, initial, on_failure, num_pending_spans, Run, fresh, next, here,
  record_step, failure_step, flush_one, is_report_in_progress,
}
use lightstep_tracer_cpp.Recorder.LegacyManual.Conservation.{IsBalanced, Reach-IsBalanced}
use lightstep_tracer_cpp.Recorder.LegacyManual.Stuck.{
  flush_call, record_call, perform_all, stuck_after_throw,
}
use lightstep_tracer_cpp.Recorder.ReportRequest.{
  ReportRequest, make_request, add_spans, num_dropped_spans,
}
use lightstep_tracer_cpp.Recorder.ReportRequest.Counting.{Counted, make_request-add_spans}

-- A recorder that may hold two spans: two are recorded, which sends a report, a third is recorded, the
-- report fails, and a flush sends the third.
abbrev recording : LegacyManualRecorder ℕ
recording = record_span 2 false 12 (record_span 2 false 11 initial)

after_failure :
    let s = on_failure (record_span 2 false 13 recording) in
    (s.dropped_spans ≡ 2) × (num_pending_spans s ≡ 1) × (s.observer.dropped ≡ 2)
unfolding record_span initial on_failure
after_failure = (refl, refl, refl)

-- The run of the two spans and of the failure.
abbrev new_run : Run ℕ
new_run = fresh

abbrev one_recorded : Run ℕ
one_recorded = record new_run {
  recorder = record_span 2 false 11 new_run.recorder;
  recorded = new_run.recorded + 1;
}

abbrev two_recorded : Run ℕ
two_recorded = record one_recorded {
  recorder = record_span 2 false 12 one_recorded.recorder;
  recorded = one_recorded.recorded + 1;
}

two_recorded-busy : is_report_in_progress two_recorded.recorder ≡ true
unfolding record_span fresh
two_recorded-busy = refl

abbrev report_failed : Run ℕ
report_failed = record two_recorded { recorder = on_failure two_recorded.recorder }

Reach-IsBalanced_example : IsBalanced report_failed
Reach-IsBalanced_example = Reach-IsBalanced report_failed (
    next (next (next here (record_step new_run 2 11)) (record_step one_recorded 2 12))
      (failure_step two_recorded two_recorded-busy))

abbrev one_pending : LegacyManualRecorder ℕ
one_pending = record_span 2 false 11 initial

one_pending-idle : one_pending.encoding_seqno ≡ one_pending.flushed_seqno + 1
unfolding record_span initial
one_pending-idle = refl

one_pending-pending : 0 < num_pending_spans one_pending
unfolding record_span initial
one_pending-pending = omega arith

stuck_after_throw_example :
    let s = (flush_one true one_pending).1 in
    let later = perform_all (flush_call false ∷ record_call 2 false 12 ∷ []) s in
    (s.dropped_spans ≡ num_pending_spans one_pending)
    × (is_report_in_progress later ≡ true)
    × (later.observer.sent ≡ one_pending.observer.sent + num_pending_spans one_pending)
stuck_after_throw_example =
    stuck_after_throw one_pending (flush_call false ∷ record_call 2 false 12 ∷ []) one_pending-idle
      one_pending-pending

abbrev unset_block : Block
unset_block = record { size = 0; bytes = replicate block_size 0 }

abbrev span_bytes : List ℕ
span_bytes = 8 ∷ 9 ∷ 10 ∷ []

abbrev span : ChainedStream
span = close_output (write_pieces (span_bytes ∷ []) (new_stream unset_block))

span-IsOpen : IsOpen span
unfolding concat
span-IsOpen =
    (contents-write unset_block (span_bytes ∷ []) (length-replicate {A = ℕ} block_size 0)
      (λ e. omega (arith, ap length e)) (omega arith)).0

abbrev embed : ℕ → Fragment
embed n = 50 ∷ n ∷ []

abbrev request : ReportRequest
request = add_spans (make_request embed (1 ∷ 2 ∷ []) 3) (span ∷ [])

make_request-add_spans_example :
    Counted request × (request.num_spans ≡ 1) × (num_dropped_spans request ≡ 3)
make_request-add_spans_example =
    make_request-add_spans embed (1 ∷ 2 ∷ []) 3 (span ∷ []) (span-IsOpen, tt)
