-- ===== src/Recorder/ReportRequest/Counting.antt =====
-- The requests of src/recorder/serialization/report_request.cpp: what is sent, and what their counters
-- say of it.
use lightstep_tracer_cpp.Base.{
  ℕ, zero, suc, ◌+◌, ◌≡◌, refl, ap, sym, ◌∙◌, Bool, true, false, List, [], ◌∷◌, ◌++◌, ◌==◌, length,
  length-append, arith, All, Option, none, some, append_assoc, append-nil,
}
use lightstep_tracer_cpp.Stream.{Fragment, visit, concat, if_go_on}
use lightstep_tracer_cpp.Stream.Positions.{
  if_go_on-cong, if_go_on_assoc, visit-append, concat-append,
}
use lightstep_tracer_cpp.Stream.Chained.{ChainedStream}
use lightstep_tracer_cpp.Stream.Chained.Reading.{
  chained_stream, chained_stream-IsLawful, IsOpen, contents,
}
use lightstep_tracer_cpp.Stream.Composed.{
  composed-IsLawful, num_fragments, for_each_fragment, append,
}
use lightstep_tracer_cpp.Stream.Composed
use lightstep_tracer_cpp.Recorder.ReportRequest.{
  ReportRequest, Metrics, make_request, add_span, add_spans, count_bytes, num_dropped_spans,
  visit_metrics, for_each_request_fragment, metrics_fragments, request_fragments,
}

visit-metrics :
    {A : Type 0} (f : Fragment → A → Bool × A) (m : Option Metrics) (a : A)
    → visit_metrics f m a ≡ visit f (metrics_fragments m) a
unfolding visit
visit-metrics f none a = refl
visit-metrics f (some m) a = last_one (f m.fragment a)
  where
    last_one : {A : Type 0} (r : Bool × A) → r ≡ if_go_on r (λ b. (true, b))
    last_one (true, a) = refl
    last_one (false, a) = refl

-- The loop over a request visits its fragments in order, until the callback stops it.
pub for_each_request_fragment-visit :
    (A : Type 0) (f : Fragment → A → Bool × A) (r : ReportRequest) (a : A)
    → All IsOpen r.spans
    → for_each_request_fragment f r a ≡ visit f (request_fragments r) a
unfolding for_each_request_fragment request_fragments
for_each_request_fragment-visit A f r a h =
    sym (if_go_on_assoc (f r.header a) (visit_metrics f r.metrics) chain)
    ∙ if_go_on-cong (f r.header a) _ _ behind_header
    ∙ unfold visit in refl
  where
    chain : A → Bool × A
    chain = for_each_fragment chained_stream f r.spans

    spans_lem : (b : A) → chain b ≡ visit f (Composed.contents chained_stream r.spans) b
    spans_lem b = (composed-IsLawful chained_stream-IsLawful).for_each_lem A f r.spans b h

    behind_header :
        (b : A)
        → if_go_on (visit_metrics f r.metrics b) chain
          ≡ visit f (metrics_fragments r.metrics ++ Composed.contents chained_stream r.spans) b
    behind_header b =
        ap (λ (q : Bool × A). if_go_on q chain) (visit-metrics f r.metrics b)
        ∙ if_go_on-cong (visit f (metrics_fragments r.metrics) b) _ _ spans_lem
        ∙ sym (
            visit-append f (metrics_fragments r.metrics) (Composed.contents chained_stream r.spans)
              b)

visit-count_bytes :
    (xs : List Fragment) (n : ℕ) → (visit count_bytes xs n).1 ≡ n + length (concat xs)
unfolding visit concat
visit-count_bytes [] n = omega arith
visit-count_bytes (x ∷ xs) n =
    omega (arith, visit-count_bytes xs (n + length x), length-append x (concat xs))

-- What the counters of a request say of its fragments.
pub record Counted (r : ReportRequest) : Type 0 where
  pub spans : All IsOpen r.spans
  pub num_spans : r.num_spans ≡ length r.spans
  pub num_bytes : r.num_bytes ≡ length (concat (request_fragments r))
  pub num_fragments :
      length (request_fragments r) ≡ r.num_fragments + 1 + length (metrics_fragments r.metrics)

nonzero : (n : ℕ) → (suc n == 0) ≡ false
nonzero n = ground arith

make_request-Counted :
    (embed : ℕ → Fragment) (header : Fragment) (dropped : ℕ)
    → Counted (make_request embed header dropped)
unfolding make_request request_fragments concat Composed.contents
make_request-Counted embed header zero = record {
  spans = tt;
  num_spans = refl;
  num_bytes = sym (ap length (append-nil header));
  num_fragments = refl;
}
make_request-Counted embed header (suc n) = rw (nonzero n) (record {
  spans = tt;
  num_spans = refl;
  num_bytes = sym (
      length-append header (embed (suc n) ++ [])
      ∙ ap (λ (x : Fragment). length header + length x) (append-nil (embed (suc n))));
  num_fragments = refl;
})

contents-append :
    (ss : List ChainedStream) (s : ChainedStream)
    → Composed.contents chained_stream (ss ++ (s ∷ []))
      ≡ Composed.contents chained_stream ss ++ Composed.contents chained_stream (s ∷ [])
unfolding Composed.contents
contents-append [] s = refl
contents-append (t ∷ ss) s =
    ap (λ (x : List Fragment). contents t ++ x) (contents-append ss s)
    ∙ sym (append_assoc (contents t) _ _)

All-append :
    (ss : List ChainedStream) (s : ChainedStream)
    → All IsOpen ss
    → IsOpen s
    → All IsOpen (ss ++ (s ∷ []))
All-append [] s hs h = (h, tt)
All-append (t ∷ ss) s (h', hs) h = (h', All-append ss s hs h)

module _ (r : ReportRequest) (s : ChainedStream) where
  added :
      request_fragments (add_span r s)
      ≡ request_fragments r ++ Composed.contents chained_stream (s ∷ [])
  unfolding request_fragments add_span append
  added =
      ap (λ (x : List Fragment). r.header ∷ (metrics_fragments r.metrics ++ x))
        (contents-append r.spans s)
      ∙ ap (λ (x : List Fragment). r.header ∷ x)
          (sym (append_assoc (metrics_fragments r.metrics) _ _))

  spans_counted :
      IsOpen s
      → (add_span r s).num_fragments
        ≡ r.num_fragments + length (Composed.contents chained_stream (s ∷ []))
  unfolding add_span
  spans_counted h =
      ap (λ (n : ℕ). r.num_fragments + n)
        ((composed-IsLawful chained_stream-IsLawful).num_fragments_lem (s ∷ []) (h, tt))

  bytes_counted :
      IsOpen s
      → (add_span r s).num_bytes
        ≡ r.num_bytes + length (concat (Composed.contents chained_stream (s ∷ [])))
  unfolding add_span
  bytes_counted h =
      ap (λ (q : Bool × ℕ). q.1)
        ((composed-IsLawful chained_stream-IsLawful).for_each_lem ℕ count_bytes (s ∷ []) r.num_bytes
          (h, tt))
      ∙ visit-count_bytes (Composed.contents chained_stream (s ∷ [])) r.num_bytes

  add_span-Counted : Counted r → IsOpen s → Counted (add_span r s)
  add_span-Counted c h = record {
    spans = unfold add_span in unfold append in All-append r.spans s c.spans h;
    num_spans =
        unfold add_span in
        unfold append in omega (arith, c.num_spans, length-append r.spans (s ∷ []));
    num_bytes = omega (
      arith,
      bytes_counted h,
      c.num_bytes,
      ap (λ (x : List Fragment). length (concat x)) added,
      ap length (concat-append (request_fragments r) (Composed.contents chained_stream (s ∷ []))),
      length-append (concat (request_fragments r))
          (concat (Composed.contents chained_stream (s ∷ []))),
    );
    num_fragments = omega (
      arith,
      spans_counted h,
      c.num_fragments,
      ap length added,
      length-append (request_fragments r) (Composed.contents chained_stream (s ∷ [])),
      ap (λ (m : Option Metrics). length (metrics_fragments m)) same_metrics,
    );
  }
    where
      same_metrics : (add_span r s).metrics ≡ r.metrics
      same_metrics = unfold add_span in refl

add_spans-Counted :
    (r : ReportRequest) (ss : List ChainedStream)
    → Counted r
    → All IsOpen ss
    → Counted (add_spans r ss)
unfolding add_spans
add_spans-Counted r [] c h = c
add_spans-Counted r (s ∷ ss) c (h, hs) =
    add_spans-Counted (add_span r s) ss (add_span-Counted r s c h) hs

pub add_spans-spans :
    (r : ReportRequest) (ss : List ChainedStream)
    → ((add_spans r ss).num_spans ≡ r.num_spans + length ss)
      × (num_dropped_spans (add_spans r ss) ≡ num_dropped_spans r)
unfolding add_spans add_span num_dropped_spans
add_spans-spans r [] = (omega arith, refl)
add_spans-spans r (s ∷ ss) =
    let (spans, dropped) = add_spans-spans (add_span r s) ss in (omega (arith, spans), dropped)

pub make_request-spans :
    (embed : ℕ → Fragment) (header : Fragment) (dropped : ℕ)
    → ((make_request embed header dropped).num_spans ≡ 0)
      × (num_dropped_spans (make_request embed header dropped) ≡ dropped)
unfolding make_request num_dropped_spans
make_request-spans embed header zero = (refl, refl)
make_request-spans embed header (suc n) = rw (nonzero n) (refl, refl)

-- A request that has been made for a number of dropped spans and given some spans counts its bytes and
-- its spans right and knows the dropped spans; `num_fragments` counts the fragments of the spans alone,
-- neither the header nor the metrics message.
pub make_request-add_spans :
    (embed : ℕ → Fragment) (header : Fragment) (dropped : ℕ) (ss : List ChainedStream)
    → All IsOpen ss
    → let r = add_spans (make_request embed header dropped) ss in
      Counted r × (r.num_spans ≡ length ss) × (num_dropped_spans r ≡ dropped)
make_request-add_spans embed header dropped ss h =
    let (no_spans, is_dropped) = make_request-spans embed header dropped in
    let (spans, kept) = add_spans-spans (make_request embed header dropped) ss in
    (
      add_spans-Counted _ ss (make_request-Counted embed header dropped) h,
      omega (arith, no_spans, spans),
      kept ∙ is_dropped,
    )
