-- ===== src/Propagation/CloudTrace.antt =====
-- src/tracer/propagation/cloud_trace_propagator.cpp: the `x-cloud-trace-context` format, a trace id in
-- hex with an optional span id in decimal and an optional sampling option.
use lightstep_tracer_cpp.Base.{
  ℕ, ◌+◌, Bool, not, true, false, List, [], ◌∷◌, ◌++◌, ltb, ◌==◌, if◌then◌else◌, length, get_or,
  take, drop, codes,
}
use lightstep_tracer_cpp.Decimal.{print_uint64, strtoull, leading_digits}
use lightstep_tracer_cpp.Expected.{invalid_argument, result_out_of_range}
use lightstep_tracer_cpp.Hex.{num_128bit_hex_digits, uint64_to_hex}
use lightstep_tracer_cpp.Propagation.Carrier.{bytes_eq}
use lightstep_tracer_cpp.Propagation.TraceContext.{
  ◌>>=◌, ◌>>◌, TraceContext, Parse, modify, fail_if, parse_trace_id, set_trace_flag,
  is_trace_flag_set, sampled_flag_mask,
}
pub mod RoundTrip

abbrev pub num_64bit_decimal_digits : ℕ
num_64bit_decimal_digits = 20

abbrev pub cloud_context_length : ℕ
cloud_context_length = 58

abbrev pub set_sampled : Bool → Parse (Unit {0})
set_sampled b =
    modify (λ c. record c { trace_flags = set_trace_flag sampled_flag_mask c.trace_flags b })

-- `;o=` and its value, from where the span id has ended.
unfoldable pub parse_options : List ℕ → Parse (Unit {0})
parse_options s = do
  fail_if (not (bytes_eq (take 3 s) (codes ";o="))) invalid_argument
  if get_or s 3 0 == b'0' then set_sampled false else modify (λ c. c)

-- `/` and the span id, from where the trace id has ended. The id is written before its range is tested.
unfoldable pub parse_span : List ℕ → Parse (Unit {0})
parse_span s = do
  fail_if (not (get_or s 0 0 == b'/')) invalid_argument
  let digits = leading_digits num_64bit_decimal_digits (drop 1 s)
  let value = strtoull digits
  let rest = drop (length digits) (drop 1 s)
  modify (λ c. record c { parent_id = value.0 })
  fail_if value.1 result_out_of_range
  if ltb (length rest) 4 then modify (λ c. c) else parse_options rest

unfoldable pub parse_cloud_trace : List ℕ → Parse (Unit {0})
parse_cloud_trace s = do
  fail_if (ltb (length s) num_128bit_hex_digits) invalid_argument
  set_sampled true
  parse_trace_id (take num_128bit_hex_digits s)
  let rest = drop num_128bit_hex_digits s
  if ltb (length rest) 2 then modify (λ c. c) else parse_span rest

-- `snprintf` into the rest of the buffer; with at most 57 characters nothing is cut off.
unfoldable pub serialize_cloud_trace : TraceContext → List ℕ
serialize_cloud_trace c =
    let sampled = if is_trace_flag_set sampled_flag_mask c.trace_flags then b'1' else b'0' in
    uint64_to_hex c.trace_id_high
    ++ (uint64_to_hex c.trace_id_low
        ++ (b'/' ∷ (print_uint64 c.parent_id ++ (codes ";o=" ++ (sampled ∷ [])))))
