-- ===== src/Propagation/TraceContext/RoundTrip.antt =====
-- A serialized trace context read back by src/tracer/propagation/trace_context.cpp.
use lightstep_tracer_cpp.Base.{
  ℕ, ◌≡◌, refl, false, arith, List, ◌++◌, ltb, length, get_or, take, drop,
}
use lightstep_tracer_cpp.Expected.{ok}
use lightstep_tracer_cpp.Hex.{write_hex_bytes, uint8_to_hex, uint64_to_hex}
use lightstep_tracer_cpp.Hex.RoundTrip.{
  normalized_hex_to_uint8-uint8_to_hex, normalized_hex_to_uint64-uint64_to_hex,
  normalized_hex_to_uint128-append,
}
use lightstep_tracer_cpp.Propagation.TraceContext.{
  TraceContext, IsValid, parse_trace_context, serialize_trace_context, trace_context_length,
}

-- The views that the parser takes of a serialized context, whatever follows it.
record Views (c : TraceContext) (s : List ℕ) : Type 0 where
  version : take 2 s ≡ uint8_to_hex c.version
  dash1 : get_or s 2 0 ≡ b'-'
  trace_id : take 32 (drop 3 s) ≡ uint64_to_hex c.trace_id_high ++ uint64_to_hex c.trace_id_low
  dash2 : get_or s 35 0 ≡ b'-'
  parent_id : take 16 (drop 36 s) ≡ uint64_to_hex c.parent_id
  dash3 : get_or s 52 0 ≡ b'-'
  trace_flags : take 2 (drop 53 s) ≡ uint8_to_hex c.trace_flags
  long : ltb (length s) trace_context_length ≡ false

serialize-Views : (c : TraceContext) (rest : List ℕ) → Views c (serialize_trace_context c ++ rest)
unfolding serialize_trace_context uint64_to_hex uint8_to_hex write_hex_bytes
serialize-Views c rest = record {
  version = refl;
  dash1 = refl;
  trace_id = refl;
  dash2 = refl;
  parent_id = refl;
  dash3 = refl;
  trace_flags = refl;
  long = ground arith;
}

parse-Views :
    (c out : TraceContext) (s : List ℕ)
    → IsValid c
    → Views c s
    → parse_trace_context s out ≡ (ok tt, c)
unfolding parse_trace_context
parse-Views c out s v w =
    rw
      (
        w.long,
        w.version,
        normalized_hex_to_uint8-uint8_to_hex c.version v.vers,
        w.dash1,
        w.trace_id,
        normalized_hex_to_uint128-append c.trace_id_high c.trace_id_low _ _ v.high v.low,
        w.dash2,
        w.parent_id,
        normalized_hex_to_uint64-uint64_to_hex c.parent_id v.parent,
        w.dash3,
        w.trace_flags,
        normalized_hex_to_uint8-uint8_to_hex c.trace_flags v.flags,
      )
      refl

-- Parsing a serialized trace context, whatever follows it, gives back all five fields, whatever the
-- output parameter held before.
pub parse_trace_context-serialize :
    (c out : TraceContext) (rest : List ℕ)
    → IsValid c
    → parse_trace_context (serialize_trace_context c ++ rest) out ≡ (ok tt, c)
parse_trace_context-serialize c out rest v = parse-Views c out _ v (serialize-Views c rest)
