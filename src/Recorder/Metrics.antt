-- ===== src/Recorder/Metrics.antt =====
-- src/recorder/metrics_tracker.h and .cpp: the dropped spans that are still to be reported. The atomic
-- counter is taken as unbounded. The observer is the totals that it has been told.
use lightstep_tracer_cpp.Base.{ℕ, ◌+◌}
use lightstep_tracer_cpp.Recorder.LegacyManual.{Observer}

pub record MetricsTracker : Type 0 where
  pub observer : Observer
  pub num_dropped_spans : ℕ

abbrev pub on_spans_dropped : ℕ → MetricsTracker → MetricsTracker
on_spans_dropped n m = record {
  observer = record (m.observer) { dropped = m.observer.dropped + n };
  num_dropped_spans = m.num_dropped_spans + n;
}

abbrev pub on_spans_sent : ℕ → MetricsTracker → MetricsTracker
on_spans_sent n m = record m { observer = record (m.observer) { sent = m.observer.sent + n } }

abbrev pub on_flush : MetricsTracker → MetricsTracker
on_flush m = record m { observer = record (m.observer) { flushes = m.observer.flushes + 1 } }

abbrev pub consume_dropped_spans : MetricsTracker → ℕ × MetricsTracker
consume_dropped_spans m = (m.num_dropped_spans, record m { num_dropped_spans = 0 })

abbrev pub unconsume_dropped_spans : ℕ → MetricsTracker → MetricsTracker
unconsume_dropped_spans n m = record m { num_dropped_spans = m.num_dropped_spans + n }
