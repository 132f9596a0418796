-- ===== src/Propagation/CloudTrace/RoundTrip.antt =====
-- A serialized `x-cloud-trace-context` header read back, and its length against the buffer.
use lightstep_tracer_cpp.Base.{
  ℕ, ◌^◌, ◌≤◌, ◌<◌, ◌≡◌, refl, arith, Bool, not, true, false, List, [], ◌∷◌, ◌++◌, ltb,
  if◌then◌else◌, length, length-append, take, drop, drop-length-append, ◌&&◌,
}
use lightstep_tracer_cpp.Base.Bits.{is_below, is_below_sound}
use lightstep_tracer_cpp.Decimal.{
  print_uint64, is_digit, strtoull-print_uint64, length-print_uint64, print_uint64_digits,
  leading_digits-append,
}
use lightstep_tracer_cpp.Expected.{ok}
use lightstep_tracer_cpp.Hex.{uint64_to_hex, write_hex_bytes}
use lightstep_tracer_cpp.Hex.RoundTrip.{normalized_hex_to_uint128-append, length-uint64_to_hex}
use lightstep_tracer_cpp.Propagation.Carrier.{bytes_eq}
use lightstep_tracer_cpp.Propagation.TraceContext.{
  TraceContext, IsValid, set_trace_flag, is_trace_flag_set, sampled_flag_mask,
}
use lightstep_tracer_cpp.Propagation.CloudTrace.{
  parse_options, parse_span, parse_cloud_trace, serialize_cloud_trace, cloud_context_length,
}

-- The sampled bit after `SetTraceFlag`, for every value of the flags.
flag_kept : ℕ → Bool
flag_kept f =
    is_trace_flag_set 1 (set_trace_flag 1 f true)
    && not (is_trace_flag_set 1 (set_trace_flag 1 (set_trace_flag 1 f true) false))

flags_kept : is_below flag_kept 256 ≡ true
unfolding is_below flag_kept is_trace_flag_set set_trace_flag
flags_kept = refl

flag_set :
    (f : ℕ)
    → f < 256
    → (is_trace_flag_set 1 (set_trace_flag 1 f true) ≡ true)
      × (is_trace_flag_set 1 (set_trace_flag 1 (set_trace_flag 1 f true) false) ≡ false)
flag_set f h = parts _ _ (unfold flag_kept in is_below_sound flag_kept 256 f flags_kept h)
  where
    parts : (a b : Bool) → (a && not b) ≡ true → (a ≡ true) × (b ≡ false)
    parts a b e = ground arith

abbrev flag_char : TraceContext → ℕ
flag_char c = if is_trace_flag_set sampled_flag_mask c.trace_flags then b'1' else b'0'

abbrev options : TraceContext → List ℕ
options c = b';' ∷ b'o' ∷ b'=' ∷ flag_char c ∷ []

options_read :
    (c out : TraceContext)
    → parse_options (options c) out ≡ (
      ok tt,
      if is_trace_flag_set 1 c.trace_flags
          then out
          else record out { trace_flags = set_trace_flag 1 out.trace_flags false },
    )
unfolding parse_options bytes_eq
options_read c out = ground arith

span_read :
    (c out : TraceContext)
    → IsValid c
    → parse_span (b'/' ∷ (print_uint64 c.parent_id ++ options c)) out
      ≡ parse_options (options c) (record out { parent_id = c.parent_id })
unfolding parse_span
span_read c out v =
    rw
      (
        leading_digits-append 20 (print_uint64 c.parent_id) b';' (b'o' ∷ b'=' ∷ flag_char c ∷ [])
            (print_uint64_digits c.parent_id) (length-print_uint64 c.parent_id)
            (unfold is_digit in refl),
        strtoull-print_uint64 c.parent_id v.parent,
        drop-length-append (print_uint64 c.parent_id) (options c),
      )
      refl

-- The output after a successful read of what `c` was written as.
abbrev read_into : TraceContext → TraceContext → TraceContext
read_into c out =
    let on = set_trace_flag 1 out.trace_flags true in
    record out {
      trace_id_high = c.trace_id_high;
      trace_id_low = c.trace_id_low;
      parent_id = c.parent_id;
      trace_flags = if is_trace_flag_set 1 c.trace_flags then on else set_trace_flag 1 on false;
    }

abbrev tail_of : TraceContext → List ℕ
tail_of c = b'/' ∷ (print_uint64 c.parent_id ++ options c)

record Views (c : TraceContext) (s : List ℕ) : Type 0 where
  trace_id : take 32 s ≡ uint64_to_hex c.trace_id_high ++ uint64_to_hex c.trace_id_low
  behind : drop 32 s ≡ tail_of c
  long : ltb (length s) 32 ≡ false

serialize-Views : (c : TraceContext) → Views c (serialize_cloud_trace c)
unfolding serialize_cloud_trace uint64_to_hex write_hex_bytes
serialize-Views c = record { trace_id = refl; behind = refl; long = ground arith }

tail_long : (c : TraceContext) → ltb (length (tail_of c)) 2 ≡ false
tail_long c = ground (arith, length-append (print_uint64 c.parent_id) (options c))

parse-Views :
    (c out : TraceContext) (s : List ℕ)
    → IsValid c
    → Views c s
    → parse_cloud_trace s out ≡ (ok tt, read_into c out)
unfolding parse_cloud_trace
parse-Views c out s v w =
    rw
      (
        w.long,
        w.trace_id,
        normalized_hex_to_uint128-append c.trace_id_high c.trace_id_low _ _ v.high v.low,
        w.behind,
        tail_long c,
        span_read c _ v,
        options_read c _,
      )
      (ground arith)

-- Parsing a serialized context gives back both halves of the trace id, the span id and the sampled
-- flag, and leaves the version of the output parameter alone.
pub parse_cloud_trace-serialize :
    (c out : TraceContext)
    → IsValid c
    → out.trace_flags < 2 ^ 8
    → let (r, c') = parse_cloud_trace (serialize_cloud_trace c) out in
      (r ≡ ok tt)
      × (c'.trace_id_high ≡ c.trace_id_high)
      × (c'.trace_id_low ≡ c.trace_id_low)
      × (c'.parent_id ≡ c.parent_id)
      × (is_trace_flag_set sampled_flag_mask c'.trace_flags
          ≡ is_trace_flag_set sampled_flag_mask c.trace_flags)
      × (c'.version ≡ out.version)
parse_cloud_trace-serialize c out v h =
    rw (parse-Views c out _ v (serialize-Views c))
      (refl, refl, refl, refl, ground (arith, flag_set out.trace_flags h), refl)

-- What `SerializeCloudTrace` prints and its terminator fit the buffer of the caller.
pub length-serialize_cloud_trace :
    (c : TraceContext) → length (serialize_cloud_trace c) < cloud_context_length
unfolding serialize_cloud_trace
length-serialize_cloud_trace c = omega (arith, sizes c)
  where
    sizes : (c : TraceContext) → length (serialize_cloud_trace c) ≤ 57
    sizes c =
        let low = uint64_to_hex c.trace_id_low in
        rw (length-append, length-append)
          (omega (
            arith,
            length-uint64_to_hex c.trace_id_high,
            length-uint64_to_hex c.trace_id_low,
            length-append (print_uint64 c.parent_id) (options c),
            length-print_uint64 c.parent_id,
          ))
