-- ===== src/Recorder/Auto.antt =====
-- src/recorder/auto_recorder.h and .cpp: the recorder with a writer thread. Each section under the lock
-- is one step; between the two sections of `FlushOne` the writer sends, and other threads go on. What
-- `WaitFor` and `WaitUntil` do is any interleaving of the steps.
use lightstep_tracer_cpp.Base.{
  ℕ, ◌+◌, ◌-◌, ◌≡◌, Bool, true, false, not, ◌&&◌, ◌||◌, leb, ◌==◌, if◌then◌else◌, length, Option,
  none, some,
}
use lightstep_tracer_cpp.Recorder.LegacyManual.{
  Report, ReportBuilder, Observer, no_report, build_span, set_pending_client_dropped_spans,
  on_spans_dropped, sum,
}
pub mod Flush
pub mod Accounting

-- Where the writer thread stands: between two flushes, or sending, with its local variables.
pub data Writer : Type 0 where
  between : Writer
  sending : ℕ → ℕ → Writer

pub record AutoRecorder (T : Type 0) : Type 0 where
  pub write_exit : Bool
  pub builder : ReportBuilder T
  pub inflight : Report T
  pub max_buffered_spans_snapshot : ℕ
  pub flushed_seqno : ℕ
  pub encoding_seqno : ℕ
  pub dropped_spans : ℕ
  pub observer : Observer
  pub writer : Writer

module _ {T : Type 0} where
  abbrev pub pending_spans : AutoRecorder T → ℕ
  pending_spans s = length s.builder.pending.spans

  -- The constructor, for a buffer of `max` spans.
  unfoldable pub make_recorder : ℕ → AutoRecorder T
  make_recorder max = record {
    write_exit = false;
    builder = record { reset_next = true; pending = no_report };
    inflight = no_report;
    max_buffered_spans_snapshot = max;
    flushed_seqno = 0;
    encoding_seqno = 1;
    dropped_spans = 0;
    observer = record { flushes = 0; sent = 0; dropped = 0 };
    writer = between;
  }

  unfoldable pub record_span : T → AutoRecorder T → AutoRecorder T
  unfolding build_span
  record_span x s =
      if leb s.max_buffered_spans_snapshot (pending_spans s) || s.write_exit
      then record s {
        dropped_spans = s.dropped_spans + 1;
        observer = on_spans_dropped 1 s.observer;
      }
      else record s { builder = build_span x s.builder }

  unfoldable pub make_writer_exit : AutoRecorder T → AutoRecorder T
  make_writer_exit s = record s { write_exit = true }

  -- The first section of `FlushOne`.
  unfoldable pub begin_flush : AutoRecorder T → AutoRecorder T
  unfolding set_pending_client_dropped_spans
  begin_flush s =
      let o : Observer = record (s.observer) { flushes = s.observer.flushes + 1 } in
      if pending_spans s == 0 then record s { observer = o } else record s {
        observer = record o { sent = o.sent + pending_spans s };
        dropped_spans = 0;
        builder = record { reset_next = true; pending = s.inflight };
        inflight = (set_pending_client_dropped_spans s.dropped_spans s.builder).pending;
        encoding_seqno = s.encoding_seqno + 1;
        writer = sending s.dropped_spans (pending_spans s);
      }

  -- The second section, after `WriteReport` has returned `success`.
  unfoldable pub end_flush : Bool → ℕ → ℕ → AutoRecorder T → AutoRecorder T
  end_flush success save_dropped save_pending s =
      let s1 : AutoRecorder T = record s {
        flushed_seqno = s.flushed_seqno + 1;
        inflight = no_report;
        writer = between;
      } in
      if success then s1 else record s1 {
        observer = on_spans_dropped save_pending s.observer;
        dropped_spans = s.dropped_spans + (save_dropped + save_pending);
      }

  -- `WaitForNextWrite` reads the option anew.
  unfoldable pub wait_for_next_write : ℕ → AutoRecorder T → Bool × AutoRecorder T
  wait_for_next_write max s = (not s.write_exit, record s { max_buffered_spans_snapshot = max })

  -- The start of `FlushWithTimeout`: the sequence number to wait for, none if there is nothing to do.
  unfoldable pub flush_wait_seq : AutoRecorder T → Option ℕ
  flush_wait_seq s =
      let has_encoded = not (pending_spans s == 0) in
      if not has_encoded && s.encoding_seqno == 1 + s.flushed_seqno
      then none
      else some (s.encoding_seqno - (if has_encoded then 0 else 1))

  -- What it returns when its wait ends in the state `s`.
  unfoldable pub flush_result : Option ℕ → AutoRecorder T → Bool
  flush_result none s = true
  flush_result (some wait_seq) s = leb wait_seq s.flushed_seqno

-- A recorder in use, with what has been recorded and what reports that succeeded have carried.
pub record Run (T : Type 0) : Type 0 where
  pub recorder : AutoRecorder T
  pub recorded : ℕ
  pub delivered : ℕ
  pub delivered_drops : ℕ

module _ {T : Type 0} where
  pub data Step : Run T → Run T → Type 0 where
    record_step :
        (r : Run T) (x : T)
        → Step r (record r { recorder = record_span x r.recorder; recorded = r.recorded + 1 })
    wait_step :
        (r : Run T) (max : ℕ)
        → r.recorder.writer ≡ between
        → Step r (record r { recorder = (wait_for_next_write max r.recorder).1 })
    begin_step :
        (r : Run T)
        → r.recorder.writer ≡ between
        → Step r (record r { recorder = begin_flush r.recorder })
    exit_step : (r : Run T) → Step r (record r { recorder = make_writer_exit r.recorder })
    success_step :
        (r : Run T) (save_dropped save_pending : ℕ)
        → r.recorder.writer ≡ sending save_dropped save_pending
        → Step r (record r {
          recorder = end_flush true save_dropped save_pending r.recorder;
          delivered = r.delivered + length r.recorder.inflight.spans;
          delivered_drops = r.delivered_drops + sum r.recorder.inflight.counts;
        })
    failure_step :
        (r : Run T) (save_dropped save_pending : ℕ)
        → r.recorder.writer ≡ sending save_dropped save_pending
        → Step r (record r { recorder = end_flush false save_dropped save_pending r.recorder })

  pub data Reach (r : Run T) : Run T → Type 0 where
    here : Reach r r
    next : {u v : Run T} → Reach r u → Step u v → Reach r v

  unfoldable pub fresh : ℕ → Run T
  unfolding make_recorder
  fresh max = record {
    recorder = make_recorder max;
    recorded = 0;
    delivered = 0;
    delivered_drops = 0;
  }
