-- ===== src/Tests/Propagation.antt =====
-- The theorems on propagation at concrete contexts and carriers.
use lightstep_tracer_cpp.Base.{
  ℕ, ◌≡◌, refl, arith, true, false, List, [], ◌∷◌, ◌++◌, ◌<◌, codes, All, length,
}
use lightstep_tracer_cpp.Expected.{ok}
use lightstep_tracer_cpp.Propagation.Extraction.{
  Output, extract_span_context_impl, multiheader_extractor, w3c_extractor, extract-w3c_headers,
}
use lightstep_tracer_cpp.Propagation.Carrier.{
  Entry, append_entry, key_compare, has_prefix, iequals, to_lower_char,
}
use lightstep_tracer_cpp.Propagation.TraceContext.{
  TraceContext, IsValid, parse_trace_context, serialize_trace_context, set_trace_flag,
  is_trace_flag_set, sampled_flag_mask,
}
use lightstep_tracer_cpp.Propagation.TraceContext.RoundTrip.{parse_trace_context-serialize}
use lightstep_tracer_cpp.Propagation.CloudTrace.{
  parse_cloud_trace, serialize_cloud_trace, cloud_context_length,
}
use lightstep_tracer_cpp.Propagation.CloudTrace.RoundTrip.{
  parse_cloud_trace-serialize, length-serialize_cloud_trace,
}
use lightstep_tracer_cpp.Propagation.Multiheader
use lightstep_tracer_cpp.Propagation.Multiheader.{lightstep_propagator, b3_propagator}
use lightstep_tracer_cpp.Propagation.Multiheader.RoundTrip.{
  HasDistinctKeys, IsForeign, extract-inject,
}
use lightstep_tracer_cpp.Propagation.Multiheader.RoundTrip
use lightstep_tracer_cpp.Propagation.Multiheader.Counting.{trace_id_header, extract_two_trace_ids}
use lightstep_tracer_cpp.Propagation.W3c
use lightstep_tracer_cpp.Propagation.W3c.{extract_parent-inject}
use lightstep_tracer_cpp.Propagation.Options.{
  PropagationMode, envoy, b3, uniqify_propagation_modes, contains,
}
use lightstep_tracer_cpp.Propagation.Options.Unique.{first_occurrences, IsDistinct, uniqify_lem}

abbrev context : TraceContext
context = record {
  trace_id_high = 0x11;
  trace_id_low = 0x22;
  parent_id = 0x33;
  trace_flags = 1;
  version = 0;
}

abbrev blank : TraceContext
blank = record { trace_id_high = 0; trace_id_low = 0; parent_id = 0; trace_flags = 0; version = 0 }

context-IsValid : IsValid context
context-IsValid = omega arith

-- A baggage map that keeps what is inserted, and a header of another library.
abbrev keep_all : List ℕ → List ℕ → List Entry → List Entry
keep_all k v b = (k, v) ∷ b

abbrev other : List Entry
other = (codes "accept", codes "*/*") ∷ []

parse_trace_context-serialize_example :
    parse_trace_context (serialize_trace_context context ++ codes "-x") blank ≡ (ok tt, context)
parse_trace_context-serialize_example =
    parse_trace_context-serialize context blank (codes "-x") context-IsValid

parse_cloud_trace-serialize_example :
    let (r, c') = parse_cloud_trace (serialize_cloud_trace context) blank in
    (r ≡ ok tt)
    × (c'.trace_id_high ≡ 0x11)
    × (c'.trace_id_low ≡ 0x22)
    × (c'.parent_id ≡ 0x33)
    × (is_trace_flag_set sampled_flag_mask c'.trace_flags ≡ is_trace_flag_set sampled_flag_mask 1)
    × (c'.version ≡ 0)
parse_cloud_trace-serialize_example =
    parse_cloud_trace-serialize context blank context-IsValid (omega arith)

length-serialize_cloud_trace_example : length (serialize_cloud_trace context) < cloud_context_length
length-serialize_cloud_trace_example = length-serialize_cloud_trace context

b3-HasDistinctKeys : HasDistinctKeys b3_propagator false
unfolding key_compare iequals to_lower_char
b3-HasDistinctKeys = record { span_trace = refl; sampled_trace = refl; sampled_span = refl }

other-IsForeign : All (IsForeign b3_propagator false) other
unfolding key_compare iequals has_prefix
other-IsForeign =
    (record { no_trace = refl; no_span = refl; no_sampled = refl; no_baggage = refl }, tt)

extract-inject_example :
    let (r, carrier) = Multiheader.inject_span_context append_entry b3_propagator context other in
    (r ≡ ok tt)
    × (Multiheader.extract_span_context keep_all b3_propagator false carrier (blank, []) ≡ (
      ok true,
      record context {
        trace_flags = set_trace_flag sampled_flag_mask 0 (is_trace_flag_set sampled_flag_mask 1);
      },
      [],
    ))
extract-inject_example =
    extract-inject keep_all b3_propagator false context blank [] other context-IsValid
      b3-HasDistinctKeys other-IsForeign

extract_two_trace_ids_example :
    Multiheader.extract_span_context keep_all b3_propagator false
      (other
        ++ (trace_id_header b3_propagator context ∷ trace_id_header b3_propagator context ∷ []))
      (blank, [])
    ≡ (
      ok true,
      record blank {
        trace_id_high = 0x11;
        trace_id_low = 0x22;
        trace_flags = set_trace_flag sampled_flag_mask 0 true;
      },
      [],
    )
extract_two_trace_ids_example =
    extract_two_trace_ids keep_all b3_propagator false context context blank [] other
      context-IsValid context-IsValid other-IsForeign

abbrev w3c_state : W3c.Extraction (List Entry)
w3c_state = record { context = blank; trace_state = []; parent_header_found = false; baggage = [] }

other-IsForeign_w3c : All (W3c.IsForeign false) other
unfolding key_compare iequals has_prefix
other-IsForeign_w3c = (record { no_parent = refl; no_state = refl; no_baggage = refl }, tt)

extract_parent-inject_example :
    let (r, carrier) = W3c.inject_span_context append_entry context (codes "a=b") other in
    (r ≡ ok tt)
    × (W3c.extract_span_context keep_all false carrier w3c_state ≡ (
      ok true,
      record w3c_state { context = context; trace_state = codes "a=b"; parent_header_found = true },
    ))
extract_parent-inject_example =
    extract_parent-inject keep_all false context (codes "a=b") other w3c_state context-IsValid
      other-IsForeign_w3c

abbrev modes : List PropagationMode
modes = envoy ∷ b3 ∷ envoy ∷ []

uniqify_lem_example :
    (uniqify_propagation_modes modes ≡ first_occurrences modes)
    × IsDistinct (uniqify_propagation_modes modes)
    × (contains (uniqify_propagation_modes modes) b3 ≡ contains modes b3)
uniqify_lem_example = uniqify_lem modes b3

other-IsForeign_lightstep : All (RoundTrip.IsForeign lightstep_propagator false) other
unfolding key_compare iequals has_prefix
other-IsForeign_lightstep =
    (record { no_trace = refl; no_span = refl; no_sampled = refl; no_baggage = refl }, tt)

abbrev output : Output (List Entry)
output = record { context = blank; trace_state = []; baggage = [] }

extract-w3c_headers_example :
    let carrier = other ++ W3c.headers context (codes "a=b") in
    extract_span_context_impl []
      (multiheader_extractor keep_all false carrier lightstep_propagator
        ∷ multiheader_extractor keep_all false carrier b3_propagator
        ∷ w3c_extractor keep_all false carrier
        ∷ [])
      output
    ≡ (ok true, record { context = context; trace_state = codes "a=b"; baggage = [] })
extract-w3c_headers_example =
    extract-w3c_headers keep_all false [] context (codes "a=b") other output context-IsValid
      other-IsForeign_lightstep other-IsForeign other-IsForeign_w3c
