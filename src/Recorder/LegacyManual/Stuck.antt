-- ===== src/Recorder/LegacyManual/Stuck.antt =====
-- What becomes of the recorder of src/recorder/legacy_manual_recorder.cpp when `Send` throws.
use lightstep_tracer_cpp.Base.{
  ℕ, ◌+◌, ◌<◌, ◌≡◌, refl, ◌∙◌, Bool, true, false, List, [], ◌∷◌, leb, ltb, ◌==◌, arith, if_elim,
}
use lightstep_tracer_cpp.Recorder.LegacyManual.{
  LegacyManualRecorder, num_pending_spans, build_span, is_report_in_progress, drop_span, prepare,
  failed_to_flush, flush_one, add_and_flush, record_span, flush_with_timeout,
}

not_both : (b : Bool) → b ≡ true → b ≡ false → ⊥
not_both b t f = ground arith

-- A call of the program, with what `max_buffered_spans` is and whether `Send` would throw.
pub data Call (T : Type 0) : Type 0 where
  record_call : ℕ → Bool → T → Call T
  flush_call : Bool → Call T

module _ {T : Type 0} where
  unfoldable pub perform : Call T → LegacyManualRecorder T → LegacyManualRecorder T
  perform (record_call max throws x) s = record_span max throws x s
  perform (flush_call throws) s = (flush_with_timeout throws s).1

  unfoldable pub perform_all : List (Call T) → LegacyManualRecorder T → LegacyManualRecorder T
  perform_all [] s = s
  perform_all (c ∷ cs) s = perform_all cs (perform c s)

  -- Nothing has been sent between the two states, and the report under way is still the same.
  pub record Same (s s' : LegacyManualRecorder T) : Type 0 where
    pub encoding : s'.encoding_seqno ≡ s.encoding_seqno
    pub flushed : s'.flushed_seqno ≡ s.flushed_seqno
    pub sent : s'.observer.sent ≡ s.observer.sent
    pub active : s'.active_request ≡ s.active_request

  Same-refl : (s : LegacyManualRecorder T) → Same s s
  Same-refl s = record { encoding = refl; flushed = refl; sent = refl; active = refl }

  Same-trans : (s t u : LegacyManualRecorder T) → Same s t → Same t u → Same s u
  Same-trans s t u p q = record {
    encoding = q.encoding ∙ p.encoding;
    flushed = q.flushed ∙ p.flushed;
    sent = q.sent ∙ p.sent;
    active = q.active ∙ p.active;
  }

  Same-busy :
      (s s' : LegacyManualRecorder T)
      → Same s s'
      → is_report_in_progress s ≡ true
      → is_report_in_progress s' ≡ true
  unfolding is_report_in_progress
  Same-busy s s' k busy = ground (arith, k.encoding, k.flushed)

  Same-drop_span : (s : LegacyManualRecorder T) → Same s (drop_span s)
  unfolding drop_span
  Same-drop_span s = record { encoding = refl; flushed = refl; sent = refl; active = refl }

  Same-flush_one :
      (throws : Bool) (s : LegacyManualRecorder T)
      → is_report_in_progress s ≡ true
      → Same s (flush_one throws s).1
  unfolding flush_one
  Same-flush_one throws s busy =
      if_elim (λ (r : Bool × LegacyManualRecorder T). Same s r.1) _ _ _
        (λ b. record { encoding = refl; flushed = refl; sent = refl; active = refl })
        (λ quiet. absurd (not_both _ (unfold is_report_in_progress in busy) quiet))

  Same-add_and_flush :
      (max : ℕ) (throws : Bool) (x : T) (s : LegacyManualRecorder T)
      → is_report_in_progress s ≡ true
      → Same s (add_and_flush max throws x s)
  unfolding add_and_flush
  Same-add_and_flush max throws x s busy =
      let s' : LegacyManualRecorder T = record s { builder = build_span x s.builder } in
      let k : Same s s' = record { encoding = refl; flushed = refl; sent = refl; active = refl } in
      if_elim (Same s) (leb max (num_pending_spans s')) _ _
        (λ full. Same-trans s s' _ k (Same-flush_one throws s' (Same-busy s s' k busy))) (λ room. k)

  Same-record_span :
      (max : ℕ) (throws : Bool) (x : T) (s : LegacyManualRecorder T)
      → is_report_in_progress s ≡ true
      → Same s (record_span max throws x s)
  unfolding record_span
  Same-record_span max throws x s busy =
      if_elim (Same s) s.disabled _ _ (λ off. Same-drop_span s)
        (λ on.
          if_elim (Same s) (leb max (num_pending_spans s)) _ _
            (λ full.
              if_elim (Same s) (is_report_in_progress s) _ _ (λ b. Same-drop_span s)
                (λ quiet. absurd (not_both _ busy quiet)))
            (λ room. Same-add_and_flush max throws x s busy))

  Same-perform :
      (c : Call T) (s : LegacyManualRecorder T)
      → is_report_in_progress s ≡ true
      → Same s (perform c s)
  unfolding perform flush_with_timeout
  Same-perform (record_call max throws x) s busy = Same-record_span max throws x s busy
  Same-perform (flush_call throws) s busy =
      if_elim (λ (r : Bool × LegacyManualRecorder T). Same s r.1) s.disabled _ _
        (λ off. Same-refl s) (λ on. Same-flush_one throws s busy)

  Same-perform_all :
      (cs : List (Call T)) (s : LegacyManualRecorder T)
      → is_report_in_progress s ≡ true
      → Same s (perform_all cs s)
  unfolding perform_all
  Same-perform_all [] s busy = Same-refl s
  Same-perform_all (c ∷ cs) s busy =
      let k = Same-perform c s busy in
      Same-trans s (perform c s) _ k
        (Same-perform_all cs (perform c s) (Same-busy s (perform c s) k busy))

  -- What the throwing `FlushOne` leaves.
  thrown :
      (s : LegacyManualRecorder T)
      → s.encoding_seqno ≡ s.flushed_seqno + 1
      → 0 < num_pending_spans s
      → let s' = (flush_one true s).1 in
        (is_report_in_progress s' ≡ true)
        × (s'.observer.sent ≡ s.observer.sent + num_pending_spans s)
        × (s'.observer.dropped ≡ s.observer.dropped + num_pending_spans s)
        × (s'.dropped_spans ≡ num_pending_spans s)
  unfolding flush_one prepare failed_to_flush is_report_in_progress
  thrown s e some = rw (quiet, something) (ground arith, refl, refl, omega arith)
    where
      quiet : ltb (1 + s.flushed_seqno) s.encoding_seqno ≡ false
      quiet = ground arith

      something : (num_pending_spans s == 0) ≡ false
      something = ground arith

  -- Once `Send` has thrown for a report, no call sends another: all later calls leave it under way, and
  -- nothing more is sent. The drops that the report was to carry are gone: `dropped_spans` counts its
  -- own spans only.
  pub stuck_after_throw :
      (s : LegacyManualRecorder T) (cs : List (Call T))
      → s.encoding_seqno ≡ s.flushed_seqno + 1
      → 0 < num_pending_spans s
      → let s' = (flush_one true s).1 in
        (s'.dropped_spans ≡ num_pending_spans s)
        × (is_report_in_progress (perform_all cs s') ≡ true)
        × ((perform_all cs s').observer.sent ≡ s.observer.sent + num_pending_spans s)
  stuck_after_throw s cs e some =
      let (busy, sent, dropped, saved) = thrown s e some in
      let k = Same-perform_all cs (flush_one true s).1 busy in
      (saved, Same-busy _ _ k busy, k.sent ∙ sent)
