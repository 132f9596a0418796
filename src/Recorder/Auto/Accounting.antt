-- ===== src/Recorder/Auto/Accounting.antt =====
-- The books of the recorder of src/recorder/auto_recorder.cpp, in every interleaving of the writer with
-- the threads that record.
use lightstep_tracer_cpp.Base.{
  ℕ, ◌+◌, ◌≡◌, refl, ap, true, false, ◌||◌, [], leb, ◌==◌, length, arith, if_elim,
}
use lightstep_tracer_cpp.Recorder.LegacyManual.{build_span, set_pending_client_dropped_spans, sum}
use lightstep_tracer_cpp.Recorder.LegacyManual.Accounting.{
  length-build_span, counts-build_span, not_fresh, sum-append_none, none_carried,
}
use lightstep_tracer_cpp.Recorder.Auto.{
  AutoRecorder, Writer, between, sending, pending_spans, record_span, make_writer_exit, begin_flush,
  end_flush, wait_for_next_write, Run, Step, record_step, wait_step, begin_step, exit_step,
  success_step, failure_step,
}

module _ {T : Type 0} where
  -- What the writer's local variables, the sequence numbers and the report in flight say.
  pub data Phase (s : AutoRecorder T) : Writer → Type 0 where
    idle :
        s.encoding_seqno ≡ s.flushed_seqno + 1
        → length s.inflight.spans ≡ 0
        → s.inflight.counts ≡ []
        → Phase s between
    flying :
        (d p : ℕ)
        → s.encoding_seqno ≡ s.flushed_seqno + 2
        → length s.inflight.spans ≡ p
        → sum s.inflight.counts ≡ d
        → Phase s (sending d p)

  pub record Balanced (s : AutoRecorder T) (recorded delivered drops : ℕ) : Type 0 where
    pub spans :
        recorded ≡ delivered + pending_spans s + length s.inflight.spans + s.observer.dropped
    pub dropped : s.observer.dropped ≡ s.dropped_spans + sum s.inflight.counts + drops
    pub no_counts : s.builder.pending.counts ≡ []
    pub fresh_report : s.builder.reset_next ≡ true → length s.builder.pending.spans ≡ 0
    pub phase : Phase s s.writer

  abbrev pub IsBalanced : Run T → Type 0
  IsBalanced r = Balanced r.recorder r.recorded r.delivered r.delivered_drops

  pub at_rest :
      (s : AutoRecorder T) (w : Writer)
      → w ≡ between
      → Phase s w
      → (s.encoding_seqno ≡ s.flushed_seqno + 1)
        × (length s.inflight.spans ≡ 0)
        × (s.inflight.counts ≡ [])
  at_rest s between e (idle a b c) = (a, b, c)
  at_rest s (sending d p) e (flying _ _ a b c) = ground arith

  pub in_flight :
      (s : AutoRecorder T) (w : Writer) (d p : ℕ)
      → w ≡ sending d p
      → Phase s w
      → (s.encoding_seqno ≡ s.flushed_seqno + 2)
        × (length s.inflight.spans ≡ p)
        × (sum s.inflight.counts ≡ d)
  in_flight s between d p e (idle a b c) = ground arith
  in_flight s (sending d' p') d p e (flying _ _ a b c) = ground arith

  module _ (recorded delivered drops : ℕ) where
    record_span-Balanced :
        (x : T) (s : AutoRecorder T)
        → Balanced s recorded delivered drops
        → Balanced (record_span x s) (recorded + 1) delivered drops
    unfolding record_span
    record_span-Balanced x s b =
        if_elim (λ (r : AutoRecorder T). Balanced r (recorded + 1) delivered drops)
          (leb s.max_buffered_spans_snapshot (pending_spans s) || s.write_exit) _ _
          (λ full. record {
            spans = omega (arith, b.spans);
            dropped = omega (arith, b.dropped);
            no_counts = b.no_counts;
            fresh_report = b.fresh_report;
            phase = keep_dropped s.writer b.phase;
          })
          (λ room. record {
            spans = omega (arith, b.spans, length-build_span x s.builder b.fresh_report);
            dropped = b.dropped;
            no_counts = counts-build_span x s.builder b.no_counts;
            fresh_report = λ e. absurd (not_fresh x s.builder e);
            phase = keep_built s.writer b.phase;
          })
      where
        keep_dropped :
            (w : Writer)
            → Phase s w
            → Phase
                (record s {
                  dropped_spans = s.dropped_spans + 1;
                  observer = record (s.observer) { dropped = s.observer.dropped + 1 };
                })
                w
        keep_dropped _ (idle a c e) = idle a c e
        keep_dropped _ (flying d p a c e) = flying d p a c e

        keep_built :
            (w : Writer) → Phase s w → Phase (record s { builder = build_span x s.builder }) w
        keep_built _ (idle a c e) = idle a c e
        keep_built _ (flying d p a c e) = flying d p a c e

    wait-Balanced :
        (max : ℕ) (s : AutoRecorder T)
        → Balanced s recorded delivered drops
        → Balanced (wait_for_next_write max s).1 recorded delivered drops
    unfolding wait_for_next_write
    wait-Balanced max s b = record {
      spans = b.spans;
      dropped = b.dropped;
      no_counts = b.no_counts;
      fresh_report = b.fresh_report;
      phase = keep s.writer b.phase;
    }
      where
        keep : (w : Writer) → Phase s w → Phase (record s { max_buffered_spans_snapshot = max }) w
        keep _ (idle a c e) = idle a c e
        keep _ (flying d p a c e) = flying d p a c e

    exit-Balanced :
        (s : AutoRecorder T)
        → Balanced s recorded delivered drops
        → Balanced (make_writer_exit s) recorded delivered drops
    unfolding make_writer_exit
    exit-Balanced s b = record {
      spans = b.spans;
      dropped = b.dropped;
      no_counts = b.no_counts;
      fresh_report = b.fresh_report;
      phase = keep s.writer b.phase;
    }
      where
        keep : (w : Writer) → Phase s w → Phase (record s { write_exit = true }) w
        keep _ (idle a c e) = idle a c e
        keep _ (flying d p a c e) = flying d p a c e

    begin-Balanced :
        (s : AutoRecorder T)
        → Balanced s recorded delivered drops
        → s.writer ≡ between
        → Balanced (begin_flush s) recorded delivered drops
    unfolding begin_flush set_pending_client_dropped_spans
    begin-Balanced s b rest =
        let (e, a, c) = at_rest s s.writer rest b.phase in
        let carried = sum-append_none s.builder.pending.counts s.dropped_spans b.no_counts in
        if_elim (λ (r : AutoRecorder T). Balanced r recorded delivered drops) (pending_spans s == 0)
          _ _
          (λ nothing. record {
            spans = b.spans;
            dropped = b.dropped;
            no_counts = b.no_counts;
            fresh_report = b.fresh_report;
            phase = keep s.writer b.phase;
          })
          (λ something. record {
            spans = omega (arith, b.spans, a);
            dropped = omega (arith, b.dropped, carried, ap sum c, none_carried);
            no_counts = c;
            fresh_report = λ r. a;
            phase = flying _ _ (omega (arith, e)) refl carried;
          })
      where
        keep :
            (w : Writer)
            → Phase s w
            → Phase
                (record s { observer = record (s.observer) { flushes = s.observer.flushes + 1 } })
                w
        keep _ (idle a c e) = idle a c e
        keep _ (flying d p a c e) = flying d p a c e

    success-Balanced :
        (d p : ℕ) (s : AutoRecorder T)
        → Balanced s recorded delivered drops
        → s.writer ≡ sending d p
        → Balanced
            (end_flush true d p s)
            recorded
            (delivered + length s.inflight.spans)
            (drops + sum s.inflight.counts)
    unfolding end_flush
    success-Balanced d p s b busy =
        let (e, a, c) = in_flight s s.writer d p busy b.phase in
        record {
          spans = omega (arith, b.spans);
          dropped = omega (arith, b.dropped, none_carried);
          no_counts = b.no_counts;
          fresh_report = b.fresh_report;
          phase = idle (omega (arith, e)) refl refl;
        }

    failure-Balanced :
        (d p : ℕ) (s : AutoRecorder T)
        → Balanced s recorded delivered drops
        → s.writer ≡ sending d p
        → Balanced (end_flush false d p s) recorded delivered drops
    unfolding end_flush
    failure-Balanced d p s b busy =
        let (e, a, c) = in_flight s s.writer d p busy b.phase in
        record {
          spans = omega (arith, b.spans, a);
          dropped = omega (arith, b.dropped, a, c, none_carried);
          no_counts = b.no_counts;
          fresh_report = b.fresh_report;
          phase = idle (omega (arith, e)) refl refl;
        }

  pub Step-IsBalanced : (u v : Run T) → IsBalanced u → Step u v → IsBalanced v
  Step-IsBalanced u _ b (record_step _ x) =
      record_span-Balanced u.recorded u.delivered u.delivered_drops x u.recorder b
  Step-IsBalanced u _ b (wait_step _ max rest) =
      wait-Balanced u.recorded u.delivered u.delivered_drops max u.recorder b
  Step-IsBalanced u _ b (begin_step _ rest) =
      begin-Balanced u.recorded u.delivered u.delivered_drops u.recorder b rest
  Step-IsBalanced u _ b (exit_step _) =
      exit-Balanced u.recorded u.delivered u.delivered_drops u.recorder b
  Step-IsBalanced u _ b (success_step _ d p busy) =
      success-Balanced u.recorded u.delivered u.delivered_drops d p u.recorder b busy
  Step-IsBalanced u _ b (failure_step _ d p busy) =
      failure-Balanced u.recorded u.delivered u.delivered_drops d p u.recorder b busy
