-- ===== src/Propagation/Multiheader/RoundTrip.antt =====
-- What a multi-header propagator injects, extracted again by
-- src/tracer/propagation/multiheader_propagator.cpp.
use lightstep_tracer_cpp.Base.{
  ℕ, ◌+◌, ◌^◌, ◌<◌, ◌≡◌, refl, sym, ap, ◌∙◌, arith, Bool, true, false, List, [], ◌∷◌, ◌++◌,
  if◌then◌else◌, codes, All, Bool-cases, inl, inr, append-nil, append_assoc,
}
use lightstep_tracer_cpp.Expected.{ok}
use lightstep_tracer_cpp.Hex.{uint64_to_hex, uint128_to_hex, hex_to_uint128}
use lightstep_tracer_cpp.Hex.RoundTrip.{hex_to_uint64-uint64_to_hex}
use lightstep_tracer_cpp.Hex.Wide.{hex_to_uint128-uint128_to_hex}
use lightstep_tracer_cpp.Propagation.Carrier.{
  Entry, bytes_eq, key_compare, has_prefix, foreach_key, key_compare_self, foreach_key_ok,
  foreach_key_end, append_entry, foreach_key_skip,
}
use lightstep_tracer_cpp.Propagation.TraceContext.{
  TraceContext, IsValid, set_trace_flag, is_trace_flag_set, sampled_flag_mask,
}
use lightstep_tracer_cpp.Propagation.Multiheader.{
  Propagator, injected, set_all, inject_span_context, Extraction, extract_entry,
  extract_span_context_impl, extract_span_context, judge, exit_state,
}

-- The three keys differ under the comparison in use.
pub record HasDistinctKeys (p : Propagator) (cs : Bool) : Type 0 where
  pub span_trace : key_compare cs p.span_id_key p.trace_id_key ≡ false
  pub sampled_trace : key_compare cs p.sampled_key p.trace_id_key ≡ false
  pub sampled_span : key_compare cs p.sampled_key p.span_id_key ≡ false

-- An entry that is none of the propagator's.
pub record IsForeign (p : Propagator) (cs : Bool) (e : Entry) : Type 0 where
  pub no_trace : key_compare cs e.0 p.trace_id_key ≡ false
  pub no_span : key_compare cs e.0 p.span_id_key ≡ false
  pub no_sampled : key_compare cs e.0 p.sampled_key ≡ false
  pub no_baggage : has_prefix cs e.0 p.baggage_prefix ≡ false

-- The high half of the trace id survives only in a propagator of 128-bit ids.
abbrev pub carried_high : Propagator → TraceContext → ℕ
carried_high p c = if p.supports_128bit then c.trace_id_high else 0

written64 :
    (low a b : ℕ)
    → low < 2 ^ 64
    → hex_to_uint128 (uint64_to_hex low) a b ≡ record { result = ok tt; x_high = 0; x_low = low }
written64 low a b h =
    unfold uint128_to_hex in hex_to_uint128-uint128_to_hex 0 low a b (omega arith) h

trace_id_read :
    (p : Propagator) (c : TraceContext) (a b : ℕ)
    → IsValid c
    → hex_to_uint128
        (if p.supports_128bit
          then uint128_to_hex c.trace_id_high c.trace_id_low
          else uint64_to_hex c.trace_id_low)
        a
        b
      ≡ record { result = ok tt; x_high = carried_high p c; x_low = c.trace_id_low }
trace_id_read p c a b v = elim (Bool-cases p.supports_128bit) [
  | inl e ↦ rw e (hex_to_uint128-uint128_to_hex c.trace_id_high c.trace_id_low a b v.high v.low)
  | inr e ↦ rw e (written64 c.trace_id_low a b v.low)
]

module _ {B : Type 0} (insert_baggage : List ℕ → List ℕ → B → B) (p : Propagator) (cs : Bool) where
  pub foreign_kept :
      (es : List Entry) (x : Extraction B)
      → All (IsForeign p cs) es
      → All (λ e. extract_entry insert_baggage p cs e x ≡ (ok tt, x)) es
  unfolding extract_entry
  foreign_kept [] x h = tt
  foreign_kept (e ∷ es) x h =
      (rw (h.0.no_trace, h.0.no_span, h.0.no_sampled, h.0.no_baggage), foreign_kept es x h.1)

  pub trace_entry :
      (c : TraceContext) (x : Extraction B)
      → IsValid c
      → extract_entry insert_baggage p cs
          (
            p.trace_id_key,
            if p.supports_128bit
                then uint128_to_hex c.trace_id_high c.trace_id_low
                else uint64_to_hex c.trace_id_low,
          )
          x
        ≡ (
          ok tt,
          record x {
            trace_id_high = carried_high p c;
            trace_id_low = c.trace_id_low;
            count = x.count + 1;
          },
        )
  unfolding extract_entry
  trace_entry c x v = ground (
    arith,
    key_compare_self cs p.trace_id_key,
    trace_id_read p c x.trace_id_high x.trace_id_low v,
  )

  pub span_entry :
      (c : TraceContext) (x : Extraction B)
      → IsValid c
      → HasDistinctKeys p cs
      → extract_entry insert_baggage p cs (p.span_id_key, uint64_to_hex c.parent_id) x
        ≡ (ok tt, record x { span_id = c.parent_id; count = x.count + 1 })
  unfolding extract_entry
  span_entry c x v d = ground (
    arith,
    d.span_trace,
    key_compare_self cs p.span_id_key,
    hex_to_uint64-uint64_to_hex c.parent_id v.parent,
  )

  sampled_entry :
      (b : Bool) (x : Extraction B)
      → HasDistinctKeys p cs
      → extract_entry insert_baggage p cs (p.sampled_key, if b then codes "1" else codes "0") x
        ≡ (ok tt, record x { sampled = b })
  unfolding extract_entry bytes_eq
  sampled_entry b x d = elim (Bool-cases b) [
    | inl e ↦ rw (e, d.sampled_trace, d.sampled_span, key_compare_self cs p.sampled_key)
    | inr e ↦ rw (e, d.sampled_trace, d.sampled_span, key_compare_self cs p.sampled_key)
  ]

  -- The loop over what was injected, behind entries that are not the propagator's.
  loop_injected :
      (c : TraceContext) (es : List Entry) (x : Extraction B)
      → IsValid c
      → HasDistinctKeys p cs
      → All (IsForeign p cs) es
      → foreach_key (extract_entry insert_baggage p cs) (es ++ injected p c) x ≡ (
        ok tt,
        record x {
          trace_id_high = carried_high p c;
          trace_id_low = c.trace_id_low;
          span_id = c.parent_id;
          sampled = is_trace_flag_set sampled_flag_mask c.trace_flags;
          count = x.count + 1 + 1;
        },
      )
  unfolding injected
  loop_injected c es x v d h =
      foreach_key_skip _ es (injected p c) x (foreign_kept es x h)
      ∙ foreach_key_ok _ _ _ x _ (trace_entry c x v)
      ∙ foreach_key_ok _ _ _ _ _ (span_entry c _ v d)
      ∙ foreach_key_ok _ _ _ _ _
          (sampled_entry (is_trace_flag_set sampled_flag_mask c.trace_flags) _ d)
      ∙ foreach_key_end _ _

  -- Extracting what was injected, behind any entries that are not the propagator's, finds the
  -- context: the low half of the trace id, its high half if the propagator carries 128 bits and 0
  -- otherwise, the span id, and as flags the sampled bit alone. The baggage and the version stay.
  pub extract-injected :
      (c out : TraceContext) (b : B) (es : List Entry)
      → IsValid c
      → HasDistinctKeys p cs
      → All (IsForeign p cs) es
      → extract_span_context insert_baggage p cs (es ++ injected p c) (out, b) ≡ (
        ok true,
        record out {
          trace_id_high = carried_high p c;
          trace_id_low = c.trace_id_low;
          parent_id = c.parent_id;
          trace_flags =
              set_trace_flag sampled_flag_mask 0
                (is_trace_flag_set sampled_flag_mask c.trace_flags);
        },
        b,
      )
  unfolding extract_span_context extract_span_context_impl
  extract-injected c out b es v d h =
      ap (λ r. exit_state insert_baggage out (judge insert_baggage r)) (loop_injected c es _ v d h)

  -- A carrier with none of the propagator's entries has no context, and changes nothing.
  pub extract_foreign :
      (out : TraceContext) (b : B) (es : List Entry)
      → All (IsForeign p cs) es
      → extract_span_context insert_baggage p cs es (out, b) ≡ (ok false, out, b)
  unfolding extract_span_context extract_span_context_impl
  extract_foreign out b es h =
      ap (λ r. exit_state insert_baggage out (judge insert_baggage r)) (loop_foreign es _ h)
    where
      loop_foreign :
          (es : List Entry) (x : Extraction B)
          → All (IsForeign p cs) es
          → foreach_key (extract_entry insert_baggage p cs) es x ≡ (ok tt, x)
      loop_foreign es x h =
          ap (λ l. foreach_key (extract_entry insert_baggage p cs) l x) (sym (append-nil es))
          ∙ foreach_key_skip _ es [] x (foreign_kept es x h)
          ∙ foreach_key_end _ _

set_all-append_entry : (es w : List Entry) → set_all append_entry es w ≡ (ok tt, w ++ es)
unfolding set_all
set_all-append_entry [] w = ap (λ l. (ok tt, l)) (sym (append-nil w))
set_all-append_entry ((k, v) ∷ es) w =
    set_all-append_entry es (w ++ ((k, v) ∷ []))
    ∙ ap (λ l. (ok tt, l)) (append_assoc w ((k, v) ∷ []) es)

-- Into a carrier of entries that the propagator does not read, inject a context, and extract it: the
-- low half of the trace id comes back, its high half if the propagator carries 128 bits and 0
-- otherwise, the span id, and as flags the sampled bit alone. The baggage and the version stay.
pub extract-inject :
    {B : Type 0} (insert_baggage : List ℕ → List ℕ → B → B) (p : Propagator) (cs : Bool)
    (c out : TraceContext) (b : B) (es : List Entry)
    → IsValid c
    → HasDistinctKeys p cs
    → All (IsForeign p cs) es
    → let (r, carrier) = inject_span_context append_entry p c es in
      (r ≡ ok tt)
      × (extract_span_context insert_baggage p cs carrier (out, b) ≡ (
        ok true,
        record out {
          trace_id_high = carried_high p c;
          trace_id_low = c.trace_id_low;
          parent_id = c.parent_id;
          trace_flags =
              set_trace_flag sampled_flag_mask 0
                (is_trace_flag_set sampled_flag_mask c.trace_flags);
        },
        b,
      ))
unfolding inject_span_context
extract-inject insert_baggage p cs c out b es v d h =
    rw (set_all-append_entry (injected p c) es)
      (refl, extract-injected insert_baggage p cs c out b es v d h)
