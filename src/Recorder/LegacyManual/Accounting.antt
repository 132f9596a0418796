-- ===== src/Recorder/LegacyManual/Accounting.antt =====
-- The books of the recorder of src/recorder/legacy_manual_recorder.cpp, and what each part of its
-- operations does to them.
use lightstep_tracer_cpp.Base.{
  ℕ, ◌+◌, ◌≡◌, refl, ap, ◌∙◌, true, false, List, [], ◌∷◌, ◌++◌, ◌==◌, length, length-append, arith,
  Bool-cases, inl, inr,
}
use lightstep_tracer_cpp.Recorder.LegacyManual.{
  LegacyManualRecorder, ReportBuilder, num_pending_spans, build_span, is_report_in_progress,
  drop_span, prepare, flush_one, sum, set_pending_client_dropped_spans,
}

pub sum-append_none : (ns : List ℕ) (n : ℕ) → ns ≡ [] → sum (ns ++ (n ∷ [])) ≡ n
unfolding sum
sum-append_none ns n e = ap (λ (ms : List ℕ). sum (ms ++ (n ∷ []))) e ∙ omega arith

pub none_carried : sum [] ≡ 0
unfolding sum
none_carried = refl

module _ {T : Type 0} where
  -- No report is under way, or one that the counters and the saved numbers describe.
  pub data Phase (s : LegacyManualRecorder T) : Type 0 where
    idle :
        s.encoding_seqno ≡ s.flushed_seqno + 1
        → length s.active_request.spans ≡ 0
        → s.active_request.counts ≡ []
        → Phase s
    flying :
        s.encoding_seqno ≡ s.flushed_seqno + 2
        → length s.active_request.spans ≡ s.saved_pending_spans
        → sum s.active_request.counts ≡ s.saved_dropped_spans
        → Phase s

  -- The books of a recorder: `recorded` spans have come in, reports that succeeded have carried
  -- `delivered` of them and the counts `drops`.
  pub record Balanced (s : LegacyManualRecorder T) (recorded delivered drops : ℕ) : Type 0 where
    pub spans :
        recorded
        ≡ delivered + num_pending_spans s + length s.active_request.spans + s.observer.dropped
    pub dropped : s.observer.dropped ≡ s.dropped_spans + sum s.active_request.counts + drops
    pub no_counts : s.builder.pending.counts ≡ []
    pub fresh_report : s.builder.reset_next ≡ true → length s.builder.pending.spans ≡ 0
    pub phase : Phase s

  pub length-build_span :
      (x : T) (b : ReportBuilder T)
      → (b.reset_next ≡ true → length b.pending.spans ≡ 0)
      → length (build_span x b).pending.spans ≡ length b.pending.spans + 1
  unfolding build_span
  length-build_span x b h = elim (Bool-cases b.reset_next) [
    | inl e ↦ rw e (omega (arith, h e))
    | inr e ↦ rw e (length-append b.pending.spans (x ∷ []))
  ]

  pub counts-build_span :
      (x : T) (b : ReportBuilder T) → b.pending.counts ≡ [] → (build_span x b).pending.counts ≡ []
  unfolding build_span
  counts-build_span x b h = elim (Bool-cases b.reset_next) [ inl e ↦ rw e refl | inr e ↦ rw e h ]

  pub not_fresh : (x : T) (b : ReportBuilder T) → (build_span x b).reset_next ≡ true → ⊥
  unfolding build_span
  not_fresh x b e = ground arith

  -- What `FlushOne` writes before it knows whether there is anything to send.
  abbrev flushed : LegacyManualRecorder T → LegacyManualRecorder T
  flushed s = record s { observer = record (s.observer) { flushes = s.observer.flushes + 1 } }

  abbrev saved : LegacyManualRecorder T → LegacyManualRecorder T
  saved s = record (flushed s) { saved_pending_spans = num_pending_spans s }

  in_progress_flushed :
      (s : LegacyManualRecorder T) → is_report_in_progress (flushed s) ≡ is_report_in_progress s
  unfolding is_report_in_progress
  in_progress_flushed s = refl

  module _ (recorded delivered drops : ℕ) where
    pub drop_span-Balanced :
        (s : LegacyManualRecorder T)
        → Balanced s recorded delivered drops
        → Balanced (drop_span s) (recorded + 1) delivered drops
    unfolding drop_span
    drop_span-Balanced s b = record {
      spans = omega (arith, b.spans);
      dropped = omega (arith, b.dropped);
      no_counts = b.no_counts;
      fresh_report = b.fresh_report;
      phase = keep b.phase;
    }
      where
        keep : Phase s → Phase (drop_span s)
        keep (idle e a c) = idle e a c
        keep (flying e a c) = flying e a c

    pub build_span-Balanced :
        (x : T) (s : LegacyManualRecorder T)
        → Balanced s recorded delivered drops
        → Balanced (record s { builder = build_span x s.builder }) (recorded + 1) delivered drops
    build_span-Balanced x s b = record {
      spans = omega (arith, b.spans, length-build_span x s.builder b.fresh_report);
      dropped = b.dropped;
      no_counts = counts-build_span x s.builder b.no_counts;
      fresh_report = λ e. absurd (not_fresh x s.builder e);
      phase = keep b.phase;
    }
      where
        keep : Phase s → Phase (record s { builder = build_span x s.builder })
        keep (idle e a c) = idle e a c
        keep (flying e a c) = flying e a c

    flushed-Balanced :
        (s : LegacyManualRecorder T)
        → Balanced s recorded delivered drops
        → Balanced (flushed s) recorded delivered drops
    flushed-Balanced s b = record {
      spans = b.spans;
      dropped = b.dropped;
      no_counts = b.no_counts;
      fresh_report = b.fresh_report;
      phase = keep b.phase;
    }
      where
        keep : Phase s → Phase (flushed s)
        keep (idle e a c) = idle e a c
        keep (flying e a c) = flying e a c

    saved-Balanced :
        (s : LegacyManualRecorder T)
        → Balanced s recorded delivered drops
        → is_report_in_progress s ≡ false
        → Balanced (saved s) recorded delivered drops
    unfolding is_report_in_progress
    saved-Balanced s b quiet = record {
      spans = b.spans;
      dropped = b.dropped;
      no_counts = b.no_counts;
      fresh_report = b.fresh_report;
      phase = elim b.phase [ idle e a c ↦ idle e a c | flying e a c ↦ absurd (ground arith) ];
    }

    -- A report that is handed over takes the spans and the count of the drops with it.
    prepare-Balanced :
        (s : LegacyManualRecorder T)
        → Balanced s recorded delivered drops
        → is_report_in_progress s ≡ false
        → Balanced (prepare (saved s)) recorded delivered drops
    unfolding prepare is_report_in_progress set_pending_client_dropped_spans
    prepare-Balanced s b quiet =
        let carried = sum-append_none s.builder.pending.counts s.dropped_spans b.no_counts in
        elim b.phase [
          | idle e a c ↦ record {
            spans = omega (arith, b.spans, a);
            dropped = omega (arith, b.dropped, carried, ap sum c, none_carried);
            no_counts = c;
            fresh_report = λ r. a;
            phase = flying (omega (arith, e)) refl carried;
          }
          | flying e a c ↦ absurd (ground arith)
        ]

    pub flush_one-Balanced :
        (s : LegacyManualRecorder T)
        → Balanced s recorded delivered drops
        → Balanced (flush_one false s).1 recorded delivered drops
    unfolding flush_one
    flush_one-Balanced s b = elim (Bool-cases (is_report_in_progress s)) [
      | inl busy ↦ rw (in_progress_flushed s, busy) (flushed-Balanced s b)
      | inr quiet ↦
          rw (in_progress_flushed s, quiet)
            (elim (Bool-cases (num_pending_spans s == 0)) [
              | inl nothing ↦ rw nothing (saved-Balanced s b quiet)
              | inr something ↦ rw something (prepare-Balanced s b quiet)
            ])
    ]
