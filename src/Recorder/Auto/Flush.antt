-- ===== src/Recorder/Auto/Flush.antt =====
-- What the return value of a flush of the recorder of src/recorder/auto_recorder.cpp says about the
-- spans that were recorded before it.
use lightstep_tracer_cpp.Base.{
  ℕ, ◌+◌, ◌≤◌, ◌≡◌, refl, ap, true, ◌==◌, length, arith, Option, none, some, Bool-cases, inl, inr,
  ◌⊎◌,
}
use lightstep_tracer_cpp.Recorder.LegacyManual.{set_pending_client_dropped_spans}
use lightstep_tracer_cpp.Recorder.LegacyManual.Accounting.{none_carried}
use lightstep_tracer_cpp.Recorder.Auto.{
  AutoRecorder, Writer, between, pending_spans, make_recorder, record_span, make_writer_exit,
  begin_flush, end_flush, wait_for_next_write, flush_wait_seq, flush_result, Run, Step, record_step,
  wait_step, begin_step, exit_step, success_step, failure_step, Reach, here, next, fresh,
}
use lightstep_tracer_cpp.Recorder.Auto.Accounting.{
  Phase, idle, flying, IsBalanced, Step-IsBalanced, at_rest, in_flight,
}

module _ {T : Type 0} where
  fresh-IsBalanced : (max : ℕ) → IsBalanced (fresh {T = T} max)
  unfolding fresh make_recorder
  fresh-IsBalanced max = record {
    spans = refl;
    dropped = omega (arith, none_carried);
    no_counts = refl;
    fresh_report = λ e. refl;
    phase = idle refl refl refl;
  }

  -- In every interleaving: each span that was recorded is pending, in flight, delivered, or dropped,
  -- once; and each drop that the observer was told of is still to be reported, in flight, or delivered.
  pub Reach-fresh-IsBalanced : (max : ℕ) (r : Run T) → Reach (fresh max) r → IsBalanced r
  Reach-fresh-IsBalanced max _ here = fresh-IsBalanced max
  Reach-fresh-IsBalanced max r (next {u} path step) =
      Step-IsBalanced u r (Reach-fresh-IsBalanced max u path) step

  -- How many spans are settled: delivered, or counted as dropped.
  abbrev pub settled : Run T → ℕ
  settled r = r.delivered + r.recorder.observer.dropped

  -- What has become of the first `count` spans when the sequence number to wait for is `seq`.
  record Progress (count seq : ℕ) (r : Run T) : Type 0 where
    came : count ≤ r.recorded
    handed :
        seq + 1 ≤ r.recorder.encoding_seqno → count ≤ settled r + length r.recorder.inflight.spans
    finished : seq ≤ r.recorder.flushed_seqno → count ≤ settled r

  -- Recording does not touch what is being sent.
  record_span-kept :
      (x : T) (s : AutoRecorder T)
      → ((record_span x s).encoding_seqno ≡ s.encoding_seqno)
        × ((record_span x s).flushed_seqno ≡ s.flushed_seqno)
        × ((record_span x s).inflight.spans ≡ s.inflight.spans)
        × (s.observer.dropped ≤ (record_span x s).observer.dropped)
  unfolding record_span
  record_span-kept x s = (ground arith, ground arith, ground arith, ground arith)

  -- Either nothing is handed over, or all pending spans are.
  begin_flush-moved :
      (s : AutoRecorder T)
      → ((begin_flush s).flushed_seqno ≡ s.flushed_seqno)
        × ((begin_flush s).observer.dropped ≡ s.observer.dropped)
        × ((((begin_flush s).encoding_seqno ≡ s.encoding_seqno)
              × (length (begin_flush s).inflight.spans ≡ length s.inflight.spans))
            ⊎ (length (begin_flush s).inflight.spans ≡ pending_spans s))
  unfolding begin_flush set_pending_client_dropped_spans
  begin_flush-moved s = elim (Bool-cases (pending_spans s == 0)) [
    | inl nothing ↦ rw nothing (refl, refl, inl (refl, refl))
    | inr something ↦ rw something (refl, refl, inr refl)
  ]

  module _ (count seq : ℕ) where
    record_span-Progress :
        (u : Run T) (x : T)
        → Progress count seq u
        → Progress count seq
            (record u { recorder = record_span x u.recorder; recorded = u.recorded + 1 })
    record_span-Progress u x q =
        let (e, f, a, d) = record_span-kept x u.recorder in
        record {
          came = omega (arith, q.came);
          handed = λ h. omega (arith, q.handed (omega (arith, e)), ap length a, d);
          finished = λ h. omega (arith, q.finished (omega (arith, f)), d);
        }

    begin-Progress :
        (u : Run T)
        → IsBalanced u
        → u.recorder.writer ≡ between
        → Progress count seq u
        → Progress count seq (record u { recorder = begin_flush u.recorder })
    begin-Progress u b rest q =
        let (e, a, c) = at_rest u.recorder u.recorder.writer rest b.phase in
        let (f, d, moved) = begin_flush-moved u.recorder in
        record {
          came = q.came;
          handed = λ h. elim moved [
            | inl (same, inflight) ↦ omega (arith, q.handed (omega (arith, same)), inflight, d)
            | inr inflight ↦ omega (arith, q.came, b.spans, a, inflight, d)
          ];
          finished = λ h. omega (arith, q.finished (omega (arith, f)), d);
        }

    Step-Progress :
        (u v : Run T) → IsBalanced u → Progress count seq u → Step u v → Progress count seq v
    unfolding wait_for_next_write make_writer_exit end_flush
    Step-Progress u _ b q (record_step _ x) = record_span-Progress u x q
    Step-Progress u _ b q (wait_step _ max rest) = record {
      came = q.came;
      handed = q.handed;
      finished = q.finished;
    }
    Step-Progress u _ b q (begin_step _ rest) = begin-Progress u b rest q
    Step-Progress u _ b q (exit_step _) = record {
      came = q.came;
      handed = q.handed;
      finished = q.finished;
    }
    Step-Progress u _ b q (success_step _ d p busy) =
        let (e, a, c) = in_flight u.recorder u.recorder.writer d p busy b.phase in
        record {
          came = q.came;
          handed = λ h. omega (arith, q.handed (omega arith));
          finished = λ h. omega (arith, q.handed (omega (arith, e)));
        }
    Step-Progress u _ b q (failure_step _ d p busy) =
        let (e, a, c) = in_flight u.recorder u.recorder.writer d p busy b.phase in
        record {
          came = q.came;
          handed = λ h. omega (arith, q.handed (omega arith), a);
          finished = λ h. omega (arith, q.handed (omega (arith, e)), a);
        }

    Reach-Progress :
        (u v : Run T)
        → IsBalanced u
        → Progress count seq u
        → Reach u v
        → IsBalanced v × Progress count seq v
    Reach-Progress u _ b q here = (b, q)
    Reach-Progress u v b q (next {u = w} path step) =
        let (b', q') = Reach-Progress u w b q path in
        (Step-IsBalanced w v b' step, Step-Progress w v b' q' step)

  -- The sequence numbers tell whether a report is in flight.
  seqnos :
      (u : Run T)
      → IsBalanced u
      → ((u.recorder.encoding_seqno ≡ u.recorder.flushed_seqno + 1)
          × (length u.recorder.inflight.spans ≡ 0))
        ⊎ (u.recorder.encoding_seqno ≡ u.recorder.flushed_seqno + 2)
  seqnos u b = by_phase u.recorder.writer b.phase
    where
      by_phase :
          (w : Writer)
          → Phase u.recorder w
          → ((u.recorder.encoding_seqno ≡ u.recorder.flushed_seqno + 1)
              × (length u.recorder.inflight.spans ≡ 0))
            ⊎ (u.recorder.encoding_seqno ≡ u.recorder.flushed_seqno + 2)
      by_phase _ (idle e a c) = inl (e, a)
      by_phase _ (flying d p e a c) = inr e

  -- When a flush starts to wait, all that was recorded is in the report it waits for or before it.
  start-Progress :
      (u : Run T) (seq : ℕ)
      → IsBalanced u
      → flush_wait_seq u.recorder ≡ some seq
      → Progress u.recorded seq u
  unfolding flush_wait_seq
  start-Progress u seq b wait = record {
    came = omega arith;
    handed = λ h. ground (arith, b.spans, seqnos u b);
    finished = λ h. ground (arith, b.spans, seqnos u b);
  }

  nothing_to_do :
      (u : Run T) → IsBalanced u → flush_wait_seq u.recorder ≡ none → u.recorded ≤ settled u
  unfolding flush_wait_seq
  nothing_to_do u b wait = ground (arith, b.spans, seqnos u b)

  flush-settled :
      (w : Option ℕ) (u v : Run T)
      → flush_wait_seq u.recorder ≡ w
      → IsBalanced u
      → Reach u v
      → flush_result w v.recorder ≡ true
      → u.recorded ≤ settled v
  unfolding flush_result
  flush-settled none u v wait b path done =
      let settled_now = nothing_to_do u b wait in
      (Reach-Progress u.recorded 0 u v b
          (record {
            came = omega arith;
            handed = λ h. omega (arith, settled_now);
            finished = λ h. settled_now;
          })
          path).1.finished
        (omega arith)
  flush-settled (some seq) u v wait b path done =
      (Reach-Progress u.recorded seq u v b (start-Progress u seq b wait) path).1.finished
        (ground arith)

  -- If `FlushWithTimeout`, called in a reachable state, returns true when its wait ends in a later
  -- state, then at least as many spans are delivered or counted as dropped there as had been recorded
  -- at the call.
  pub flush_result_lem :
      (max : ℕ) (u v : Run T)
      → Reach (fresh max) u
      → Reach u v
      → flush_result (flush_wait_seq u.recorder) v.recorder ≡ true
      → u.recorded ≤ settled v
  flush_result_lem max u v before path done =
      flush-settled _ u v refl (Reach-fresh-IsBalanced max u before) path done
