-- ===== src/Recorder/LegacyManual.antt =====
-- src/recorder/legacy_manual_recorder.h and .cpp with report_builder.h and .cpp: the recorder that sends
-- one report at a time through a transporter that calls back. A report is its spans and the counts of
-- dropped spans that it carries; the preamble never changes. Counters are `size_t` and taken as
-- unbounded. Whether `Send` throws is an argument of the operations that call it.
use lightstep_tracer_cpp.Base.{
  ℕ, ◌+◌, ◌≡◌, Bool, true, false, List, [], ◌∷◌, ◌++◌, ltb, leb, ◌==◌, if◌then◌else◌, length,
}
pub mod Accounting
pub mod Conservation
pub mod Stuck

pub record Report (T : Type 0) : Type 0 where
  pub spans : List T
  pub counts : List ℕ

-- The totals that a `MetricsObserver` has been told.
pub record Observer : Type 0 where
  pub flushes : ℕ
  pub sent : ℕ
  pub dropped : ℕ

abbrev pub on_spans_dropped : ℕ → Observer → Observer
on_spans_dropped n o = record o { dropped = o.dropped + n }

pub record ReportBuilder (T : Type 0) : Type 0 where
  pub reset_next : Bool
  pub pending : Report T

pub record LegacyManualRecorder (T : Type 0) : Type 0 where
  pub disabled : Bool
  pub builder : ReportBuilder T
  pub active_request : Report T
  pub saved_dropped_spans : ℕ
  pub saved_pending_spans : ℕ
  pub flushed_seqno : ℕ
  pub encoding_seqno : ℕ
  pub dropped_spans : ℕ
  pub observer : Observer

module _ {T : Type 0} where
  abbrev pub no_report : Report T
  no_report = record { spans = []; counts = [] }

  unfoldable pub initial : LegacyManualRecorder T
  initial = record {
    disabled = false;
    builder = record { reset_next = true; pending = no_report };
    active_request = no_report;
    saved_dropped_spans = 0;
    saved_pending_spans = 0;
    flushed_seqno = 0;
    encoding_seqno = 1;
    dropped_spans = 0;
    observer = record { flushes = 0; sent = 0; dropped = 0 };
  }

  -- `ReportBuilder::AddSpan`
  unfoldable pub build_span : T → ReportBuilder T → ReportBuilder T
  build_span x b =
      let start = if b.reset_next then no_report else b.pending in
      record {
        reset_next = false;
        pending = record { spans = start.spans ++ (x ∷ []); counts = start.counts };
      }

  abbrev pub num_pending_spans : LegacyManualRecorder T → ℕ
  num_pending_spans s = length s.builder.pending.spans

  unfoldable pub set_pending_client_dropped_spans : ℕ → ReportBuilder T → ReportBuilder T
  set_pending_client_dropped_spans n b = record b {
    pending = record { spans = b.pending.spans; counts = b.pending.counts ++ (n ∷ []) };
  }

  unfoldable pub is_report_in_progress : LegacyManualRecorder T → Bool
  is_report_in_progress s = ltb (1 + s.flushed_seqno) s.encoding_seqno

  -- `dropped_spans_++; OnSpansDropped(1);`
  unfoldable pub drop_span : LegacyManualRecorder T → LegacyManualRecorder T
  drop_span s = record s {
    dropped_spans = s.dropped_spans + 1;
    observer = on_spans_dropped 1 s.observer;
  }

  -- What `FlushOne` does before `Send`; the pending report becomes the active one, and `pending()` has
  -- the next span start a new report.
  unfoldable pub prepare : LegacyManualRecorder T → LegacyManualRecorder T
  unfolding set_pending_client_dropped_spans
  prepare s = record s {
    observer = record (s.observer) { sent = s.observer.sent + s.saved_pending_spans };
    saved_dropped_spans = s.dropped_spans;
    dropped_spans = 0;
    builder = record { reset_next = true; pending = s.active_request };
    active_request = (set_pending_client_dropped_spans s.dropped_spans s.builder).pending;
    encoding_seqno = s.encoding_seqno + 1;
  }

  -- The handler for what `Send` throws.
  unfoldable pub failed_to_flush : LegacyManualRecorder T → LegacyManualRecorder T
  failed_to_flush s = record s {
    observer = on_spans_dropped s.saved_pending_spans s.observer;
    dropped_spans = s.dropped_spans + s.saved_pending_spans;
    active_request = no_report;
  }

  unfoldable pub flush_one : Bool → LegacyManualRecorder T → Bool × LegacyManualRecorder T
  unfolding is_report_in_progress prepare failed_to_flush
  flush_one throws s =
      let s1 : LegacyManualRecorder T = record s {
        observer = record (s.observer) { flushes = s.observer.flushes + 1 };
      } in
      let s2 : LegacyManualRecorder T = record s1 { saved_pending_spans = num_pending_spans s1 } in
      if is_report_in_progress s1
      then (num_pending_spans s1 == 0, s1)
      else if num_pending_spans s1 == 0
      then (true, s2)
      else if throws
      then (false, failed_to_flush (prepare s2))
      else (true, prepare s2)

  unfoldable pub add_and_flush : ℕ → Bool → T → LegacyManualRecorder T → LegacyManualRecorder T
  unfolding build_span flush_one
  add_and_flush max throws x s =
      let s1 : LegacyManualRecorder T = record s { builder = build_span x s.builder } in
      if leb max (num_pending_spans s1) then (flush_one throws s1).1 else s1

  -- `max` is what `max_buffered_spans` is at the call. At most one of the two flushes can reach `Send`.
  unfoldable pub record_span : ℕ → Bool → T → LegacyManualRecorder T → LegacyManualRecorder T
  unfolding drop_span is_report_in_progress flush_one add_and_flush
  record_span max throws x s =
      if s.disabled
      then drop_span s
      else if leb max (num_pending_spans s)
      then if is_report_in_progress s
        then drop_span s
        else add_and_flush max throws x (flush_one throws s).1
      else add_and_flush max throws x s

  unfoldable pub flush_with_timeout : Bool → LegacyManualRecorder T → Bool × LegacyManualRecorder T
  unfolding flush_one
  flush_with_timeout throws s = if s.disabled then (false, s) else flush_one throws s

  -- `disable`: a command of the response says so.
  unfoldable pub on_success : Bool → LegacyManualRecorder T → LegacyManualRecorder T
  on_success disable s = record s {
    flushed_seqno = s.flushed_seqno + 1;
    active_request = no_report;
    disabled = if disable then true else s.disabled;
  }

  unfoldable pub on_failure : LegacyManualRecorder T → LegacyManualRecorder T
  on_failure s = record s {
    flushed_seqno = s.flushed_seqno + 1;
    active_request = no_report;
    observer = on_spans_dropped s.saved_pending_spans s.observer;
    dropped_spans = s.dropped_spans + (s.saved_dropped_spans + s.saved_pending_spans);
  }

-- A recorder in use, with what has been recorded and what reports that succeeded have carried.
pub record Run (T : Type 0) : Type 0 where
  pub recorder : LegacyManualRecorder T
  pub recorded : ℕ
  pub delivered : ℕ
  pub delivered_drops : ℕ

unfoldable pub sum : List ℕ → ℕ
sum [] = 0
sum (n ∷ ns) = n + sum ns

module _ {T : Type 0} where
  -- The calls, of which the transporter calls back for a report in progress only; `Send` may throw if
  -- `t` says so.
  pub data Step (t : Bool) : Run T → Run T → Type 0 where
    record_step :
        (r : Run T) (max : ℕ) (x : T)
        → Step t r
            (record r { recorder = record_span max t x r.recorder; recorded = r.recorded + 1 })
    flush_step :
        (r : Run T) → Step t r (record r { recorder = (flush_with_timeout t r.recorder).1 })
    success_step :
        (r : Run T) (disable : Bool)
        → is_report_in_progress r.recorder ≡ true
        → Step t r (record r {
          recorder = on_success disable r.recorder;
          delivered = r.delivered + length r.recorder.active_request.spans;
          delivered_drops = r.delivered_drops + sum r.recorder.active_request.counts;
        })
    failure_step :
        (r : Run T)
        → is_report_in_progress r.recorder ≡ true
        → Step t r (record r { recorder = on_failure r.recorder })

  pub data Reach (t : Bool) (r : Run T) : Run T → Type 0 where
    here : Reach t r r
    next : {u v : Run T} → Reach t r u → Step t u v → Reach t r v

  unfoldable pub fresh : Run T
  unfolding initial
  fresh = record { recorder = initial; recorded = 0; delivered = 0; delivered_drops = 0 }
