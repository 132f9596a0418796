-- ===== src/Propagation/Extraction.antt =====
-- src/tracer/propagation/propagation.cpp: extraction with one propagator after the other.
use lightstep_tracer_cpp.Base.{
  ℕ, ◌≡◌, refl, ap, ◌∙◌, Bool, true, false, List, [], ◌∷◌, ◌++◌, All, length, ◌==◌, if◌then◌else◌,
  not, ◌&&◌, arith, if_elim,
}
use lightstep_tracer_cpp.Expected.{Expected, ok, err, undefined}
use lightstep_tracer_cpp.Propagation.TraceContext.{TraceContext, IsValid}
use lightstep_tracer_cpp.Propagation.Carrier.{
  Entry, key_compare, bytes_eq, iequals, has_prefix, to_lower_char,
}
use lightstep_tracer_cpp.Propagation.Multiheader.{Propagator, b3_propagator, lightstep_propagator}
use lightstep_tracer_cpp.Propagation.Multiheader
use lightstep_tracer_cpp.Propagation.Multiheader.RoundTrip
use lightstep_tracer_cpp.Propagation.W3c.{
  headers, extract-headers, trace_parent_header_key, trace_state_header_key,
}
use lightstep_tracer_cpp.Propagation.W3c

-- The output parameters.
pub record Output (B : Type 0) : Type 0 where
  pub context : TraceContext
  pub trace_state : List ℕ
  pub baggage : B

-- `ExtractSpanContext` of a propagator on a carrier.
abbrev pub Extractor : Type 0 → Type 0
Extractor B = Output B → Expected Bool × Output B

module _ {B : Type 0} where
  -- The loop goes on only where no context was found.
  abbrev pub unless_not_found : Expected Bool × Output B → Extractor B → Expected Bool × Output B
  unless_not_found (ok true, o) rest = (ok true, o)
  unless_not_found (ok false, o) rest = rest o
  unless_not_found (err e, o) rest = (err e, o)
  unless_not_found (undefined, o) rest = (undefined, o)

  -- `no_baggage` is what `baggage.clear()` leaves.
  unfoldable pub extract_span_context_impl : B → List (Extractor B) → Extractor B
  extract_span_context_impl no_baggage [] o = (ok false, o)
  extract_span_context_impl no_baggage (p ∷ ps) o =
      unless_not_found (p (record o { baggage = no_baggage }))
        (extract_span_context_impl no_baggage ps)

  module _ (insert_baggage : List ℕ → List ℕ → B → B) (cs : Bool) (carrier : List Entry) where
    abbrev pub multiheader_extractor : Propagator → Extractor B
    multiheader_extractor p o =
        let (r, c, b) =
          Multiheader.extract_span_context insert_baggage p cs carrier (o.context, o.baggage) in
        (r, record o { context = c; baggage = b })

    abbrev pub w3c_extractor : Extractor B
    w3c_extractor o =
        let (r, x) = W3c.extract_span_context insert_baggage cs carrier (record {
          context = o.context;
          trace_state = o.trace_state;
          parent_header_found = false;
          baggage = o.baggage;
        }) in
        (r, record { context = x.context; trace_state = x.trace_state; baggage = x.baggage })

All-append : (P : Entry → Type 0) (xs ys : List Entry) → All P xs → All P ys → All P (xs ++ ys)
All-append P [] ys h k = k
All-append P (x ∷ xs) ys (h, hs) k = (h, All-append P xs ys hs k)

-- A test for the keys that a multi-header propagator does not read.
is_foreign_key : Propagator → Bool → List ℕ → Bool
is_foreign_key p cs key =
    not (key_compare cs key p.trace_id_key)
    && (not (key_compare cs key p.span_id_key)
        && (not (key_compare cs key p.sampled_key) && not (has_prefix cs key p.baggage_prefix)))

is_foreign_key-IsForeign :
    (p : Propagator) (cs : Bool) (key value : List ℕ)
    → is_foreign_key p cs key ≡ true
    → RoundTrip.IsForeign p cs (key, value)
unfolding is_foreign_key
is_foreign_key-IsForeign p cs key value h = record {
  no_trace = ground arith;
  no_span = ground arith;
  no_sampled = ground arith;
  no_baggage = ground arith;
}

-- The W3C headers are foreign to the LightStep and the B3 propagator.
w3c_keys :
    (cs : Bool)
    → All
        (λ (p : Propagator).
          (is_foreign_key p cs trace_parent_header_key ≡ true)
          × (is_foreign_key p cs trace_state_header_key ≡ true))
        (lightstep_propagator ∷ b3_propagator ∷ [])
unfolding is_foreign_key key_compare bytes_eq iequals has_prefix to_lower_char
w3c_keys true = ((refl, refl), ((refl, refl), tt))
w3c_keys false = ((refl, refl), ((refl, refl), tt))

headers-IsForeign :
    (p : Propagator) (cs : Bool) (c : TraceContext) (s : List ℕ)
    → is_foreign_key p cs trace_parent_header_key ≡ true
    → is_foreign_key p cs trace_state_header_key ≡ true
    → All (RoundTrip.IsForeign p cs) (headers c s)
headers-IsForeign p cs c s h k = (
  is_foreign_key-IsForeign p cs _ _ h,
  if_elim (All (RoundTrip.IsForeign p cs)) (length s == 0) [] ((trace_state_header_key, s) ∷ [])
      (λ no_state. tt) (λ state. (is_foreign_key-IsForeign p cs _ _ k, tt)),
)

module _ {B : Type 0} (insert_baggage : List ℕ → List ℕ → B → B) (cs : Bool) where
  -- A propagator that finds none of its entries is passed over.
  pass_over :
      (no_baggage : B) (p : Propagator) (carrier : List Entry) (ps : List (Extractor B))
      (o : Output B)
      → All (RoundTrip.IsForeign p cs) carrier
      → extract_span_context_impl no_baggage
          (multiheader_extractor insert_baggage cs carrier p ∷ ps)
          o
        ≡ extract_span_context_impl no_baggage ps (record o { baggage = no_baggage })
  unfolding extract_span_context_impl
  pass_over no_baggage p carrier ps o h =
      ap
        (λ (r : Expected Bool × TraceContext × B).
          let (q, c, b) = r in
          unless_not_found (q, record { context = c; trace_state = o.trace_state; baggage = b })
            (extract_span_context_impl no_baggage ps))
        (RoundTrip.extract_foreign insert_baggage p cs o.context no_baggage carrier h)

  find_parent :
      (no_baggage : B) (c : TraceContext) (s : List ℕ) (es : List Entry) (o : Output B)
      → IsValid c
      → All (W3c.IsForeign cs) es
      → extract_span_context_impl no_baggage
          (w3c_extractor insert_baggage cs (es ++ headers c s) ∷ [])
          o
        ≡ (
          ok true,
          record {
            context = c;
            trace_state = if length s == 0 then o.trace_state else s;
            baggage = no_baggage;
          },
        )
  unfolding extract_span_context_impl
  find_parent no_baggage c s es o v h =
      ap
        (λ (r : Expected Bool × W3c.Extraction B).
          let (q, x) = r in
          unless_not_found
            (q, record { context = x.context; trace_state = x.trace_state; baggage = x.baggage })
            (extract_span_context_impl no_baggage []))
        (extract-headers insert_baggage cs c s es
          (record {
            context = o.context;
            trace_state = o.trace_state;
            parent_header_found = false;
            baggage = no_baggage;
          })
          v h)

  -- The W3C headers, behind entries that none of the three propagators reads, are found by a tracer that
  -- tries the LightStep and the B3 format first, and give the whole context and the trace state.
  pub extract-w3c_headers :
      (no_baggage : B) (c : TraceContext) (s : List ℕ) (es : List Entry) (o : Output B)
      → IsValid c
      → All (RoundTrip.IsForeign lightstep_propagator cs) es
      → All (RoundTrip.IsForeign b3_propagator cs) es
      → All (W3c.IsForeign cs) es
      → let carrier = es ++ headers c s in
        extract_span_context_impl no_baggage
          (multiheader_extractor insert_baggage cs carrier lightstep_propagator
            ∷ multiheader_extractor insert_baggage cs carrier b3_propagator
            ∷ w3c_extractor insert_baggage cs carrier
            ∷ [])
          o
        ≡ (
          ok true,
          record {
            context = c;
            trace_state = if length s == 0 then o.trace_state else s;
            baggage = no_baggage;
          },
        )
  extract-w3c_headers no_baggage c s es o v hl hb hw =
      let (l, (b, _)) = w3c_keys cs in
      pass_over no_baggage lightstep_propagator _ _ o
        (All-append _ es (headers c s) hl (headers-IsForeign _ cs c s l.0 l.1))
      ∙ pass_over no_baggage b3_propagator _ _ _
          (All-append _ es (headers c s) hb (headers-IsForeign _ cs c s b.0 b.1))
      ∙ find_parent no_baggage c s es (record o { baggage = no_baggage }) v hw
