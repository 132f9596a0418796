-- ===== src/Propagation/Multiheader/Counting.antt =====
-- How src/tracer/propagation/multiheader_propagator.cpp counts the id headers that it has read.
use lightstep_tracer_cpp.Base.{true, ℕ, ◌≡◌, ap, ◌∙◌, Bool, List, [], ◌∷◌, ◌++◌, if◌then◌else◌, All}
use lightstep_tracer_cpp.Expected.{ok, err, span_context_corrupted}
use lightstep_tracer_cpp.Hex.{uint64_to_hex, uint128_to_hex}
use lightstep_tracer_cpp.Propagation.Carrier.{
  Entry, foreach_key_end, foreach_key_ok, foreach_key_skip,
}
use lightstep_tracer_cpp.Propagation.TraceContext.{
  TraceContext, IsValid, set_trace_flag, sampled_flag_mask,
}
use lightstep_tracer_cpp.Propagation.Multiheader.{
  Propagator, extract_span_context_impl, extract_span_context, judge, exit_state,
}
use lightstep_tracer_cpp.Propagation.Multiheader.RoundTrip.{
  IsForeign, carried_high, foreign_kept, trace_entry,
}

-- The trace id header that the propagator writes for a context.
abbrev pub trace_id_header : Propagator → TraceContext → Entry
trace_id_header p c = (
  p.trace_id_key,
  if p.supports_128bit
      then uint128_to_hex c.trace_id_high c.trace_id_low
      else uint64_to_hex c.trace_id_low,
)

module _ {B : Type 0} (insert_baggage : List ℕ → List ℕ → B → B) (p : Propagator) (cs : Bool) where
  -- A carrier whose only header of the propagator is a trace id holds a corrupted context.
  pub extract_trace_id_only :
      (c out : TraceContext) (b : B) (es : List Entry)
      → IsValid c
      → All (IsForeign p cs) es
      → (extract_span_context insert_baggage p cs (es ++ (trace_id_header p c ∷ [])) (out, b)).0
        ≡ err span_context_corrupted
  unfolding extract_span_context extract_span_context_impl
  extract_trace_id_only c out b es v h =
      ap (λ r. (exit_state insert_baggage out (judge insert_baggage r)).0)
        (foreach_key_skip _ es _ _ (foreign_kept insert_baggage p cs es _ h)
          ∙ foreach_key_ok _ _ [] _ _ (trace_entry insert_baggage p cs c _ v)
          ∙ foreach_key_end _ _)

  -- Headers are counted, not kinds of header: two trace id headers and no span id header pass for a
  -- complete context, with the span id that the output held before.
  pub extract_two_trace_ids :
      (c d out : TraceContext) (b : B) (es : List Entry)
      → IsValid c
      → IsValid d
      → All (IsForeign p cs) es
      → extract_span_context insert_baggage p cs
          (es ++ (trace_id_header p c ∷ trace_id_header p d ∷ []))
          (out, b)
        ≡ (
          ok true,
          record out {
            trace_id_high = carried_high p d;
            trace_id_low = d.trace_id_low;
            trace_flags = set_trace_flag sampled_flag_mask 0 true;
          },
          b,
        )
  unfolding extract_span_context extract_span_context_impl
  extract_two_trace_ids c d out b es v w h =
      ap (λ r. exit_state insert_baggage out (judge insert_baggage r))
        (foreach_key_skip _ es _ _ (foreign_kept insert_baggage p cs es _ h)
          ∙ foreach_key_ok _ _ _ _ _ (trace_entry insert_baggage p cs c _ v)
          ∙ foreach_key_ok _ _ [] _ _ (trace_entry insert_baggage p cs d _ w)
          ∙ foreach_key_end _ _)
