-- ===== src/Propagation/W3c.antt =====
-- src/tracer/propagation/trace_context_propagator.cpp: the headers `traceparent` and `tracestate`.
-- The writer's `Set` and the insertion into the baggage map are parameters.
use lightstep_tracer_cpp.Base.{
  ℕ, ◌==◌, arith, ◌≡◌, refl, ap, ◌∙◌, Bool, true, false, List, [], ◌∷◌, ◌++◌, if◌then◌else◌, length,
  drop, codes, All, append-nil, append_assoc,
}
use lightstep_tracer_cpp.Expected.{Expected, ok, err, undefined}
use lightstep_tracer_cpp.Propagation.Carrier.{
  Entry, key_compare, has_prefix, foreach_key, to_lower, foreach_key_end, bytes_eq, iequals,
  append_entry, then_continue, key_compare_self, foreach_key_ok, foreach_key_skip,
}
use lightstep_tracer_cpp.Propagation.TraceContext.{
  TraceContext, IsValid, parse_trace_context, serialize_trace_context,
}
use lightstep_tracer_cpp.Propagation.TraceContext.RoundTrip.{parse_trace_context-serialize}

abbrev pub trace_parent_header_key : List ℕ
trace_parent_header_key = codes "traceparent"

abbrev pub trace_state_header_key : List ℕ
trace_state_header_key = codes "tracestate"

abbrev pub prefix_baggage : List ℕ
prefix_baggage = codes "ot-baggage-"

-- `tracestate` is set only where there is one.
module _ {W : Type 0} (set_entry : List ℕ → List ℕ → W → Expected (Unit {0}) × W) where
  unfoldable pub inject_span_context : TraceContext → List ℕ → W → Expected (Unit {0}) × W
  inject_span_context c trace_state w =
      then_continue (set_entry trace_parent_header_key (serialize_trace_context c) w) (λ w'.
        if length trace_state == 0
        then (ok tt, w')
        else set_entry trace_state_header_key trace_state w')

-- The variables that the callback of `ForeachKey` captures by reference.
pub record Extraction (B : Type 0) : Type 0 where
  pub context : TraceContext
  pub trace_state : List ℕ
  pub parent_header_found : Bool
  pub baggage : B

module _ {B : Type 0} (insert_baggage : List ℕ → List ℕ → B → B) where
  abbrev store_parent :
      Extraction B → Expected (Unit {0}) × TraceContext → Expected (Unit {0}) × Extraction B
  store_parent x (ok _, c) = (ok tt, record x { context = c; parent_header_found = true })
  store_parent x (err e, c) = (err e, record x { context = c })
  store_parent x (undefined, c) = (undefined, record x { context = c })

  -- The callback.
  unfoldable pub extract_entry : Bool → Entry → Extraction B → Expected (Unit {0}) × Extraction B
  extract_entry cs (key, value) x =
      if key_compare cs key trace_parent_header_key
      then store_parent x (parse_trace_context value x.context)
      else if key_compare cs key trace_state_header_key
      then (ok tt, record x { trace_state = value })
      else if has_prefix cs key prefix_baggage
      then (
        ok tt,
        record x {
          baggage = insert_baggage (to_lower (drop (length prefix_baggage) key)) value x.baggage;
        },
      )
      else (ok tt, x)

  abbrev found : Expected (Unit {0}) × Extraction B → Expected Bool × Extraction B
  found (ok _, x) = (ok x.parent_header_found, x)
  found (err e, x) = (err e, x)
  found (undefined, x) = (undefined, x)

  -- The references start at what the output parameters hold.
  unfoldable pub extract_span_context :
      Bool → List Entry → Extraction B → Expected Bool × Extraction B
  extract_span_context cs carrier x =
      found (foreach_key (extract_entry cs) carrier (record x { parent_header_found = false }))

-- An entry that the propagator does not read.
pub record IsForeign (cs : Bool) (e : Entry) : Type 0 where
  pub no_parent : key_compare cs e.0 trace_parent_header_key ≡ false
  pub no_state : key_compare cs e.0 trace_state_header_key ≡ false
  pub no_baggage : has_prefix cs e.0 prefix_baggage ≡ false

-- The headers that are injected for a context with a trace state.
abbrev pub headers : TraceContext → List ℕ → List Entry
headers c trace_state =
    (trace_parent_header_key, serialize_trace_context c)
    ∷ (if length trace_state == 0 then [] else (trace_state_header_key, trace_state) ∷ [])

state_differs : (cs : Bool) → key_compare cs trace_state_header_key trace_parent_header_key ≡ false
unfolding key_compare bytes_eq iequals
state_differs true = refl
state_differs false = refl

module _ {B : Type 0} (insert_baggage : List ℕ → List ℕ → B → B) (cs : Bool) where
  foreign_kept :
      (es : List Entry) (x : Extraction B)
      → All (IsForeign cs) es
      → All (λ e. extract_entry insert_baggage cs e x ≡ (ok tt, x)) es
  unfolding extract_entry
  foreign_kept [] x h = tt
  foreign_kept (e ∷ es) x h =
      (rw (h.0.no_parent, h.0.no_state, h.0.no_baggage), foreign_kept es x h.1)

  parent_entry :
      (c : TraceContext) (x : Extraction B)
      → IsValid c
      → extract_entry insert_baggage cs (trace_parent_header_key, serialize_trace_context c) x
        ≡ (ok tt, record x { context = c; parent_header_found = true })
  unfolding extract_entry
  parent_entry c x v = ground (arith, key_compare_self cs trace_parent_header_key, parsed)
    where
      parsed : parse_trace_context (serialize_trace_context c) x.context ≡ (ok tt, c)
      parsed = rw append-nil at (parse_trace_context-serialize c x.context [] v)

  state_entry :
      (s : List ℕ) (x : Extraction B)
      → extract_entry insert_baggage cs (trace_state_header_key, s) x
        ≡ (ok tt, record x { trace_state = s })
  unfolding extract_entry
  state_entry s x = rw (state_differs cs, key_compare_self cs trace_state_header_key)

  loop_state :
      (s : List ℕ) (x : Extraction B)
      → foreach_key
          (extract_entry insert_baggage cs)
          (if length s == 0 then [] else (trace_state_header_key, s) ∷ [])
          x
        ≡ (ok tt, record x { trace_state = if length s == 0 then x.trace_state else s })
  loop_state [] x = foreach_key_end _ x
  loop_state (t ∷ ts) x =
      rw (if_cons t ts) (foreach_key_ok _ _ [] x _ (state_entry (t ∷ ts) x) ∙ foreach_key_end _ _)
    where
      if_cons : (t : ℕ) (ts : List ℕ) → (length (t ∷ ts) == 0) ≡ false
      if_cons t ts = ground arith

  -- Extracting the injected headers, behind any entries that the propagator does not read, gives the
  -- whole context back, and the trace state if there is one.
  pub extract-headers :
      (c : TraceContext) (s : List ℕ) (es : List Entry) (x : Extraction B)
      → IsValid c
      → All (IsForeign cs) es
      → extract_span_context insert_baggage cs (es ++ headers c s) x ≡ (
        ok true,
        record x {
          context = c;
          trace_state = if length s == 0 then x.trace_state else s;
          parent_header_found = true;
        },
      )
  unfolding extract_span_context
  extract-headers c s es x v h = ap (found insert_baggage) (
      foreach_key_skip _ es _ _ (foreign_kept es _ h)
      ∙ foreach_key_ok _ _ _ _ _ (parent_entry c _ v)
      ∙ loop_state s _)

-- Into a carrier of entries that the propagator does not read, inject a context, and extract it: all
-- of it comes back, and the trace state if there is one.
pub extract_parent-inject :
    {B : Type 0} (insert_baggage : List ℕ → List ℕ → B → B) (cs : Bool) (c : TraceContext)
    (s : List ℕ) (es : List Entry) (x : Extraction B)
    → IsValid c
    → All (IsForeign cs) es
    → let (r, carrier) = inject_span_context append_entry c s es in
      (r ≡ ok tt)
      × (extract_span_context insert_baggage cs carrier x ≡ (
        ok true,
        record x {
          context = c;
          trace_state = if length s == 0 then x.trace_state else s;
          parent_header_found = true;
        },
      ))
extract_parent-inject insert_baggage cs c s es x v h =
    rw (injected_headers c s es) (refl, extract-headers insert_baggage cs c s es x v h)
  where
    injected_headers :
        (c : TraceContext) (s : List ℕ) (es : List Entry)
        → inject_span_context append_entry c s es ≡ (ok tt, es ++ headers c s)
    injected_headers c [] es = unfold inject_span_context in refl
    injected_headers c (t ∷ ts) es =
        unfold inject_span_context in
        ground (
          arith,
          append_assoc es ((trace_parent_header_key, serialize_trace_context c) ∷ [])
              ((trace_state_header_key, t ∷ ts) ∷ []),
        )
