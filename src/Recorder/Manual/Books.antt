-- ===== src/Recorder/Manual/Books.antt =====
-- What becomes of the spans and of the counts of dropped spans in src/recorder/manual_recorder.cpp,
-- under any interleaving of the threads that call it.
use lightstep_tracer_cpp.Base.{
  ℕ, ◌+◌, ◌≤◌, ◌≡◌, refl, ap, ◌∙◌, Bool, true, false, ◌&&◌, List, [], ◌∷◌, ◌++◌, Option, none, some,
  ltb, ◌==◌, if◌then◌else◌, if_elim, length, take, drop, length-append, length-drop,
  length-take_exact, arith,
}
use lightstep_tracer_cpp.Stream.{Fragment}
use lightstep_tracer_cpp.Stream.Chained.{ChainedStream}
use lightstep_tracer_cpp.Recorder.LegacyManual.{sum}
use lightstep_tracer_cpp.Recorder.Metrics.{on_spans_dropped}
use lightstep_tracer_cpp.Recorder.ReportRequest.{
  ReportRequest, make_request, add_spans, num_dropped_spans,
}
use lightstep_tracer_cpp.Recorder.ReportRequest.Counting.{add_spans-spans, make_request-spans}
use lightstep_tracer_cpp.Recorder.Manual.{
  ManualRecorder, Run, Step, record_step, again_step, consume_step, take_step, send_step,
  return_step, fork_step, success_step, failure_step, Reach, here, step, initial, fresh,
  add_to_buffer, add_again, take_spans, on_success, on_failure, on_forked_child, record_first,
  with_request,
}

unfoldable pub spans_of : List ReportRequest → ℕ
spans_of [] = 0
spans_of (r ∷ rs) = r.num_spans + spans_of rs

unfoldable pub drops_of : List ReportRequest → ℕ
drops_of [] = 0
drops_of (r ∷ rs) = num_dropped_spans r + drops_of rs

-- The books: where each span is that was recorded, and each drop that the observer was told of.
pub record IsBalanced (u : Run) : Type 0 where
  pub spans :
      u.recorded
      ≡ length u.recorder.span_buffer
        + length u.refused
        + spans_of u.requests
        + spans_of u.in_flight
        + u.delivered
        + u.recorder.metrics.observer.dropped
        + u.cleared
  pub dropped :
      u.recorder.metrics.observer.dropped
      ≡ u.recorder.metrics.num_dropped_spans
        + sum u.consumed
        + drops_of u.requests
        + drops_of u.in_flight
        + u.delivered_drops
        + u.cleared_drops
  pub sent : u.recorder.metrics.observer.sent ≡ u.delivered
  pub bounded : length u.recorder.span_buffer ≤ u.recorder.max_buffered_spans

spans_of-between :
    (before after : List ReportRequest) (r : ReportRequest)
    → spans_of (before ++ (r ∷ after)) ≡ r.num_spans + spans_of (before ++ after)
unfolding spans_of
spans_of-between [] after r = refl
spans_of-between (b ∷ before) after r = omega (arith, spans_of-between before after r)

drops_of-between :
    (before after : List ReportRequest) (r : ReportRequest)
    → drops_of (before ++ (r ∷ after)) ≡ num_dropped_spans r + drops_of (before ++ after)
unfolding drops_of
drops_of-between [] after r = refl
drops_of-between (b ∷ before) after r = omega (arith, drops_of-between before after r)

sum-between :
    (before after : List ℕ) (n : ℕ) → sum (before ++ (n ∷ after)) ≡ n + sum (before ++ after)
unfolding sum
sum-between [] after n = refl
sum-between (b ∷ before) after n = omega (arith, sum-between before after n)

length-between :
    (before after : List ChainedStream) (x : ChainedStream)
    → length (before ++ (x ∷ after)) ≡ 1 + length (before ++ after)
length-between before after x =
    omega (arith, length-append before (x ∷ after), length-append before after)

record_first-IsBalanced :
    (u : Run) (span : ChainedStream) → IsBalanced u → IsBalanced (record_first span u)
unfolding record_first add_to_buffer
record_first-IsBalanced u span b =
    if_elim P (ltb (length s.span_buffer) s.max_buffered_spans)
      (true, record s { span_buffer = s.span_buffer ++ (span ∷ []) }) (false, s)
      (λ room. record {
        spans = omega (arith, b.spans, length-append s.span_buffer (span ∷ []));
        dropped = b.dropped;
        sent = b.sent;
        bounded = ground (arith, length-append s.span_buffer (span ∷ []));
      })
      (λ _. record {
        spans = omega (arith, b.spans);
        dropped = b.dropped;
        sent = b.sent;
        bounded = b.bounded;
      })
  where
    s : ManualRecorder
    s = u.recorder

    P : Bool × ManualRecorder → Type 0
    P r = IsBalanced (record u {
      recorder = r.1;
      refused = if r.0 then u.refused else span ∷ u.refused;
      recorded = u.recorded + 1;
    })

add_again-IsBalanced :
    (u : Run) (before after : List ChainedStream) (span : ChainedStream)
    → IsBalanced u
    → u.refused ≡ before ++ (span ∷ after)
    → IsBalanced (record u { recorder = add_again span u.recorder; refused = before ++ after })
unfolding add_again add_to_buffer
add_again-IsBalanced u before after span b e =
    let held : length u.refused ≡ 1 + length (before ++ after) =
      ap length e ∙ length-between before after span in
    if_elim P (ltb (length s.span_buffer) s.max_buffered_spans)
      (true, record s { span_buffer = s.span_buffer ++ (span ∷ []) }) (false, s)
      (λ room. record {
        spans = omega (arith, b.spans, held, length-append s.span_buffer (span ∷ []));
        dropped = b.dropped;
        sent = b.sent;
        bounded = ground (arith, length-append s.span_buffer (span ∷ []));
      })
      (λ _. record {
        spans = omega (arith, b.spans, held);
        dropped = omega (arith, b.dropped);
        sent = b.sent;
        bounded = b.bounded;
      })
  where
    s : ManualRecorder
    s = u.recorder

    P : Bool × ManualRecorder → Type 0
    P r = IsBalanced (record u {
      recorder = if r.0 then r.1 else record (r.1) { metrics = on_spans_dropped 1 r.1.metrics };
      refused = before ++ after;
    })

take_spans-IsBalanced :
    (embed : ℕ → Fragment) (u : Run) (before after : List ℕ) (dropped num_spans : ℕ)
    → IsBalanced u
    → u.consumed ≡ before ++ (dropped ∷ after)
    → num_spans ≤ length u.recorder.span_buffer
    → IsBalanced (record u {
      recorder = (take_spans embed dropped num_spans u.recorder).1;
      consumed = before ++ after;
      requests = with_request (take_spans embed dropped num_spans u.recorder).0 u.requests;
    })
unfolding take_spans spans_of drops_of
take_spans-IsBalanced embed u before after dropped num_spans b e inside =
    let held : sum u.consumed ≡ dropped + sum (before ++ after) =
      ap sum e ∙ sum-between before after dropped in
    let made = make_request-spans embed s.report_request_header dropped in
    let added = add_spans-spans empty_request (take num_spans s.span_buffer) in
    if_elim P (num_spans == 0 && dropped == 0) (none, s)
      (some request, record s { span_buffer = drop num_spans s.span_buffer })
      (λ nothing. record {
        spans = b.spans;
        dropped = omega (arith, b.dropped, held, no_drops num_spans dropped nothing);
        sent = b.sent;
        bounded = b.bounded;
      })
      (λ _. record {
        spans = omega (
          arith,
          b.spans,
          made.0,
          added.0,
          length-drop num_spans s.span_buffer,
          length-take_exact num_spans s.span_buffer inside,
        );
        dropped = omega (arith, b.dropped, held, made.1, added.1);
        sent = b.sent;
        bounded = omega (arith, b.bounded, length-drop num_spans s.span_buffer);
      })
  where
    s : ManualRecorder
    s = u.recorder

    empty_request : ReportRequest
    empty_request = make_request embed s.report_request_header dropped

    request : ReportRequest
    request = add_spans empty_request (take num_spans s.span_buffer)

    no_drops : (n d : ℕ) → (n == 0 && d == 0) ≡ true → d ≡ 0
    no_drops n d h = ground arith

    P : Option ReportRequest × ManualRecorder → Type 0
    P r = IsBalanced (record u {
      recorder = r.1;
      consumed = before ++ after;
      requests = with_request r.0 u.requests;
    })

module _ (embed : ℕ → Fragment) where
  Step-IsBalanced : (u v : Run) → IsBalanced u → Step embed u v → IsBalanced v
  unfolding spans_of drops_of sum on_success on_failure on_forked_child
  Step-IsBalanced u _ b (record_step _ span) = record_first-IsBalanced u span b
  Step-IsBalanced u _ b (again_step _ before after span e) =
      add_again-IsBalanced u before after span b e
  Step-IsBalanced u _ b (consume_step _) = record {
    spans = b.spans;
    dropped = omega (arith, b.dropped);
    sent = b.sent;
    bounded = b.bounded;
  }
  Step-IsBalanced u _ b (take_step _ before after dropped num_spans e inside) =
      take_spans-IsBalanced embed u before after dropped num_spans b e inside
  Step-IsBalanced u _ b (send_step _ before after r e) = record {
    spans = omega (arith, b.spans, ap spans_of e, spans_of-between before after r);
    dropped = omega (arith, b.dropped, ap drops_of e, drops_of-between before after r);
    sent = b.sent;
    bounded = b.bounded;
  }
  Step-IsBalanced u _ b (return_step _ k e) = record {
    spans = b.spans;
    dropped = b.dropped;
    sent = b.sent;
    bounded = b.bounded;
  }
  Step-IsBalanced u _ b (fork_step _) = record {
    spans = omega (arith, b.spans);
    dropped = omega (arith, b.dropped);
    sent = b.sent;
    bounded = omega arith;
  }
  Step-IsBalanced u _ b (success_step _ before after r e) = record {
    spans = omega (arith, b.spans, ap spans_of e, spans_of-between before after r);
    dropped = omega (arith, b.dropped, ap drops_of e, drops_of-between before after r);
    sent = omega (arith, b.sent);
    bounded = b.bounded;
  }
  Step-IsBalanced u _ b (failure_step _ before after r e) = record {
    spans = omega (arith, b.spans, ap spans_of e, spans_of-between before after r);
    dropped = omega (arith, b.dropped, ap drops_of e, drops_of-between before after r);
    sent = b.sent;
    bounded = b.bounded;
  }

  -- In every interleaving, forks included: each span that was recorded is buffered, held by a call that
  -- the buffer has refused once, in a request, in flight, delivered, dropped, or was cleared in the child
  -- of a fork, once; each drop that the observer was told of is still to be reported, in the hands of a
  -- flush, in a request, in flight, delivered, or was cleared in the child of a fork; the observer was told
  -- of the spans that were delivered as sent; and the buffer is not overfull.
  pub Reach-fresh-Books :
      (header : Fragment) (max : ℕ) (u : Run) → Reach embed (fresh header max) u → IsBalanced u
  unfolding fresh initial spans_of drops_of sum
  Reach-fresh-Books header max u here = record {
    spans = refl;
    dropped = refl;
    sent = refl;
    bounded = omega arith;
  }
  Reach-fresh-Books header max u (step {v = v} p t) =
      Step-IsBalanced v u (Reach-fresh-Books header max v p) t
