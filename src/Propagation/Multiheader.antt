-- ===== src/Propagation/Multiheader.antt =====
-- src/tracer/propagation/multiheader_propagator.cpp, with the keys of b3_propagator.cpp and
-- lightstep_propagator.cpp: one header for each of the trace id, the span id and the sampled flag.
-- The writer's `Set` and the insertion into the baggage map are parameters.
use lightstep_tracer_cpp.Base.{
  ℕ, ◌+◌, Bool, not, true, false, ◌||◌, List, [], ◌∷◌, ◌==◌, if◌then◌else◌, length, drop, codes,
}
use lightstep_tracer_cpp.Expected.{Expected, ok, err, undefined, span_context_corrupted}
use lightstep_tracer_cpp.Hex.{uint64_to_hex, uint128_to_hex, hex_to_uint64, hex_to_uint128}
use lightstep_tracer_cpp.Propagation.Carrier.{
  Entry, bytes_eq, key_compare, has_prefix, foreach_key, to_lower, then_continue,
}
use lightstep_tracer_cpp.Propagation.TraceContext.{
  TraceContext, set_trace_flag, is_trace_flag_set, sampled_flag_mask,
}
pub mod RoundTrip
pub mod Counting

abbrev pub field_count : ℕ
field_count = 2

pub record Propagator : Type 0 where
  pub trace_id_key : List ℕ
  pub span_id_key : List ℕ
  pub sampled_key : List ℕ
  pub baggage_prefix : List ℕ
  pub supports_128bit : Bool

abbrev pub b3_propagator : Propagator
b3_propagator = record {
  trace_id_key = codes "X-B3-TraceId";
  span_id_key = codes "X-B3-SpanId";
  sampled_key = codes "X-B3-Sampled";
  baggage_prefix = codes "ot-baggage-";
  supports_128bit = true;
}

abbrev pub lightstep_propagator : Propagator
lightstep_propagator = record {
  trace_id_key = codes "ot-tracer-traceid";
  span_id_key = codes "ot-tracer-spanid";
  sampled_key = codes "ot-tracer-sampled";
  baggage_prefix = codes "ot-baggage-";
  supports_128bit = false;
}

-- `carrier.Set` calls one after the other, up to the first that fails.
module _ {W : Type 0} (set_entry : List ℕ → List ℕ → W → Expected (Unit {0}) × W) where
  unfoldable pub set_all : List Entry → W → Expected (Unit {0}) × W
  set_all [] w = (ok tt, w)
  set_all ((k, v) ∷ es) w = then_continue (set_entry k v w) (set_all es)

-- What `InjectSpanContextImpl` sets, in order.
unfoldable pub injected : Propagator → TraceContext → List Entry
injected p c =
    (
      p.trace_id_key,
      if p.supports_128bit
          then uint128_to_hex c.trace_id_high c.trace_id_low
          else uint64_to_hex c.trace_id_low,
    )
    ∷ (p.span_id_key, uint64_to_hex c.parent_id)
    ∷ (
      p.sampled_key,
      if is_trace_flag_set sampled_flag_mask c.trace_flags then codes "1" else codes "0",
    )
    ∷ []

module _ {W : Type 0} (set_entry : List ℕ → List ℕ → W → Expected (Unit {0}) × W) where
  unfoldable pub inject_span_context : Propagator → TraceContext → W → Expected (Unit {0}) × W
  inject_span_context p c w = set_all set_entry (injected p c) w

-- The variables that the callback of `ForeachKey` captures by reference.
pub record Extraction (B : Type 0) : Type 0 where
  pub trace_id_high : ℕ
  pub trace_id_low : ℕ
  pub span_id : ℕ
  pub sampled : Bool
  pub count : ℕ
  pub baggage : B

module _ {B : Type 0} (insert_baggage : List ℕ → List ℕ → B → B) where
  abbrev take_trace_id : List ℕ → Extraction B → Expected (Unit {0}) × Extraction B
  take_trace_id value x =
      let out = hex_to_uint128 value x.trace_id_high x.trace_id_low in
      let x' = record x { trace_id_high = out.x_high; trace_id_low = out.x_low } in
      elim out.result [
        | ok _ ↦ (ok tt, record x' { count = x.count + 1 })
        | err _ ↦ (err span_context_corrupted, x')
        | undefined ↦ (undefined, x')
      ]

  abbrev take_span_id : List ℕ → Extraction B → Expected (Unit {0}) × Extraction B
  take_span_id value x = elim (hex_to_uint64 value) [
    | ok id ↦ (ok tt, record x { span_id = id; count = x.count + 1 })
    | err _ ↦ (err span_context_corrupted, x)
    | undefined ↦ (undefined, x)
  ]

  -- The callback.
  unfoldable pub extract_entry :
      Propagator → Bool → Entry → Extraction B → Expected (Unit {0}) × Extraction B
  extract_entry p cs (key, value) x =
      if key_compare cs key p.trace_id_key
      then take_trace_id value x
      else if key_compare cs key p.span_id_key
      then take_span_id value x
      else if key_compare cs key p.sampled_key
      then (
        ok tt,
        record x { sampled = not (bytes_eq value (codes "false") || bytes_eq value (codes "0")) },
      )
      else if has_prefix cs key p.baggage_prefix
      then (
        ok tt,
        record x {
          baggage = insert_baggage (to_lower (drop (length p.baggage_prefix) key)) value x.baggage;
        },
      )
      else (ok tt, x)

  -- After the loop: both ids, none of them, or a corrupted context.
  abbrev judge : Expected (Unit {0}) × Extraction B → Expected Bool × Extraction B
  judge (ok _, x) = (
    if x.count == 0
        then ok false
        else if x.count == field_count
        then ok true
        else err span_context_corrupted,
    x,
  )
  judge (err e, x) = (err e, x)
  judge (undefined, x) = (undefined, x)

  unfoldable pub extract_span_context_impl :
      Propagator → Bool → List Entry → Extraction B → Expected Bool × Extraction B
  extract_span_context_impl p cs carrier x =
      judge (foreach_key (extract_entry p cs) carrier (record x { sampled = true; count = 0 }))

  -- What the references bound to the output parameters hold at the call.
  abbrev entry_state : TraceContext × B → Extraction B
  entry_state (c, b) = record {
    trace_id_high = c.trace_id_high;
    trace_id_low = c.trace_id_low;
    span_id = c.parent_id;
    sampled = true;
    count = 0;
    baggage = b;
  }

  abbrev ids_written : TraceContext → Extraction B → TraceContext
  ids_written c x = record c {
    trace_id_high = x.trace_id_high;
    trace_id_low = x.trace_id_low;
    parent_id = x.span_id;
  }

  -- The output parameters after the call; the flags are written only where a context was found.
  abbrev exit_state : TraceContext → Expected Bool × Extraction B → Expected Bool × TraceContext × B
  exit_state c (ok true, x) = (
    ok true,
    record (ids_written c x) { trace_flags = set_trace_flag sampled_flag_mask 0 x.sampled },
    x.baggage,
  )
  exit_state c (ok false, x) = (ok false, ids_written c x, x.baggage)
  exit_state c (err e, x) = (err e, ids_written c x, x.baggage)
  exit_state c (undefined, x) = (undefined, ids_written c x, x.baggage)

  unfoldable pub extract_span_context :
      Propagator → Bool → List Entry → TraceContext × B → Expected Bool × TraceContext × B
  extract_span_context p cs carrier (c, b) =
      exit_state c (extract_span_context_impl p cs carrier (entry_state (c, b)))
