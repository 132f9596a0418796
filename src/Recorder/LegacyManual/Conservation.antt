-- ===== src/Recorder/LegacyManual/Conservation.antt =====
-- The books of the recorder of src/recorder/legacy_manual_recorder.cpp over sequences of calls.
use lightstep_tracer_cpp.Base.{
  ℕ, ◌+◌, ◌≡◌, refl, Bool, true, false, leb, length, arith, Bool-cases, inl, inr, if_elim,
}
use lightstep_tracer_cpp.Recorder.LegacyManual.{
  LegacyManualRecorder, num_pending_spans, build_span, is_report_in_progress, flush_one,
  add_and_flush, record_span, flush_with_timeout, on_success, on_failure, Run, Step, record_step,
  flush_step, success_step, failure_step, Reach, here, next, fresh, initial, sum,
}
use lightstep_tracer_cpp.Recorder.LegacyManual.Accounting.{
  Balanced, idle, flying, drop_span-Balanced, build_span-Balanced, flush_one-Balanced, none_carried,
}

module _ {T : Type 0} (recorded delivered drops : ℕ) where
  add_and_flush-Balanced :
      (max : ℕ) (x : T) (s : LegacyManualRecorder T)
      → Balanced s recorded delivered drops
      → Balanced (add_and_flush max false x s) (recorded + 1) delivered drops
  unfolding add_and_flush
  add_and_flush-Balanced max x s b =
      let s' : LegacyManualRecorder T = record s { builder = build_span x s.builder } in
      let b' = build_span-Balanced recorded delivered drops x s b in
      elim (Bool-cases (leb max (num_pending_spans s'))) [
        | inl full ↦ rw full (flush_one-Balanced (recorded + 1) delivered drops s' b')
        | inr room ↦ rw room b'
      ]

  record_span-Balanced :
      (max : ℕ) (x : T) (s : LegacyManualRecorder T)
      → Balanced s recorded delivered drops
      → Balanced (record_span max false x s) (recorded + 1) delivered drops
  unfolding record_span
  record_span-Balanced max x s b =
      if_elim Good s.disabled _ _ (λ off. drop_span-Balanced recorded delivered drops s b)
        (λ on.
          if_elim Good (leb max (num_pending_spans s)) _ _
            (λ full.
              if_elim Good (is_report_in_progress s) _ _
                (λ busy. drop_span-Balanced recorded delivered drops s b)
                (λ quiet.
                  add_and_flush-Balanced max x (flush_one false s).1
                    (flush_one-Balanced recorded delivered drops s b)))
            (λ room. add_and_flush-Balanced max x s b))
    where
      Good : LegacyManualRecorder T → Type 0
      Good r = Balanced r (recorded + 1) delivered drops

  flush_with_timeout-Balanced :
      (s : LegacyManualRecorder T)
      → Balanced s recorded delivered drops
      → Balanced (flush_with_timeout false s).1 recorded delivered drops
  unfolding flush_with_timeout
  flush_with_timeout-Balanced s b =
      if_elim (λ (r : Bool × LegacyManualRecorder T). Balanced r.1 recorded delivered drops)
        s.disabled _ _ (λ off. b) (λ on. flush_one-Balanced recorded delivered drops s b)

  on_success-Balanced :
      (disable : Bool) (s : LegacyManualRecorder T)
      → Balanced s recorded delivered drops
      → is_report_in_progress s ≡ true
      → Balanced
          (on_success disable s)
          recorded
          (delivered + length s.active_request.spans)
          (drops + sum s.active_request.counts)
  unfolding on_success is_report_in_progress
  on_success-Balanced disable s b busy = elim b.phase [
    | idle e a c ↦ absurd (ground arith)
    | flying e a c ↦ record {
      spans = omega (arith, b.spans);
      dropped = omega (arith, b.dropped, none_carried);
      no_counts = b.no_counts;
      fresh_report = b.fresh_report;
      phase = idle (omega (arith, e)) refl refl;
    }
  ]

  on_failure-Balanced :
      (s : LegacyManualRecorder T)
      → Balanced s recorded delivered drops
      → is_report_in_progress s ≡ true
      → Balanced (on_failure s) recorded delivered drops
  unfolding on_failure is_report_in_progress
  on_failure-Balanced s b busy = elim b.phase [
    | idle e a c ↦ absurd (ground arith)
    | flying e a c ↦ record {
      spans = omega (arith, b.spans, a);
      dropped = omega (arith, b.dropped, a, c, none_carried);
      no_counts = b.no_counts;
      fresh_report = b.fresh_report;
      phase = idle (omega (arith, e)) refl refl;
    }
  ]

module _ {T : Type 0} where
  -- The books of a run.
  abbrev pub IsBalanced : Run T → Type 0
  IsBalanced r = Balanced r.recorder r.recorded r.delivered r.delivered_drops

  Step-IsBalanced : (u v : Run T) → IsBalanced u → Step false u v → IsBalanced v
  Step-IsBalanced u _ b (record_step _ max x) =
      record_span-Balanced u.recorded u.delivered u.delivered_drops max x u.recorder b
  Step-IsBalanced u _ b (flush_step _) =
      flush_with_timeout-Balanced u.recorded u.delivered u.delivered_drops u.recorder b
  Step-IsBalanced u _ b (success_step _ disable busy) =
      on_success-Balanced u.recorded u.delivered u.delivered_drops disable u.recorder b busy
  Step-IsBalanced u _ b (failure_step _ busy) =
      on_failure-Balanced u.recorded u.delivered u.delivered_drops u.recorder b busy

  fresh-IsBalanced : IsBalanced fresh
  unfolding fresh initial
  fresh-IsBalanced = record {
    spans = refl;
    dropped = omega (arith, none_carried);
    no_counts = refl;
    fresh_report = λ e. refl;
    phase = idle refl refl refl;
  }

  -- If `Send` never throws: in every sequence of calls, each span that was recorded is pending, in the
  -- report under way, delivered, or dropped, once; and each drop that the observer was told of is
  -- still to be reported, in the report under way, or delivered.
  pub Reach-IsBalanced : (r : Run T) → Reach false fresh r → IsBalanced r
  Reach-IsBalanced _ here = fresh-IsBalanced
  Reach-IsBalanced r (next {u} path step) = Step-IsBalanced u r (Reach-IsBalanced u path) step
