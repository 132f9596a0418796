-- ===== src/Propagation/TraceContext.antt =====
-- src/tracer/propagation/trace_context.h and trace_context.cpp: the W3C `traceparent` format. The
-- parser fills its output parameter field by field, also where it fails later on, so it is state
-- passing over a `TraceContext`.
use lightstep_tracer_cpp.Base.{
  ℕ, ◌+◌, ◌-◌, ◌^◌, ◌<◌, Bool, not, List, ◌∷◌, ◌++◌, ltb, ◌==◌, if◌then◌else◌, length, get_or, take,
  drop, bit_and, bit_or,
}
use lightstep_tracer_cpp.Expected.{Expected, Error, ok, err, undefined, invalid_argument}
use lightstep_tracer_cpp.Hex.{
  num_8bit_hex_digits, num_64bit_hex_digits, num_128bit_hex_digits, normalized_hex_to_uint8,
  normalized_hex_to_uint64, normalized_hex_to_uint128, uint8_to_hex, uint64_to_hex,
}
pub mod RoundTrip

abbrev pub trace_context_length : ℕ
trace_context_length = 55

abbrev pub sampled_flag_mask : ℕ
sampled_flag_mask = 1

pub record TraceContext : Type 0 where
  pub trace_id_high : ℕ
  pub trace_id_low : ℕ
  pub parent_id : ℕ
  pub trace_flags : ℕ
  pub version : ℕ

-- The fields are a uint64_t, a uint64_t, a uint64_t, a uint8_t and a uint8_t.
pub record IsValid (c : TraceContext) : Type 0 where
  pub high : c.trace_id_high < 2 ^ 64
  pub low : c.trace_id_low < 2 ^ 64
  pub parent : c.parent_id < 2 ^ 64
  pub flags : c.trace_flags < 2 ^ 8
  pub vers : c.version < 2 ^ 8

unfoldable pub is_trace_flag_set : ℕ → ℕ → Bool
is_trace_flag_set mask flags = not (bit_and flags mask == 0)

-- `flags & ~Mask`, for a mask below 256.
unfoldable pub set_trace_flag : ℕ → ℕ → Bool → ℕ
set_trace_flag mask flags value = if value then bit_or flags mask else bit_and flags (255 - mask)

-- A step of a parser that writes its output parameter as it goes.
abbrev pub Parse : Type 0 → Type 0
Parse A = TraceContext → Expected A × TraceContext

abbrev pub after {ℓ} :
    {A : Type 0} {B : Type ℓ}
    → Expected A
    → TraceContext
    → (A → TraceContext → Expected B × TraceContext)
    → Expected B × TraceContext
after (ok a) c f = f a c
after (err e) c f = (err e, c)
after undefined c f = (undefined, c)

infixl 5 ◌>>=◌ ◌>>◌
abbrev pub ◌>>=◌ : {A B : Type 0} → Parse A → (A → Parse B) → Parse B
◌>>=◌ m f c = let (r, c') = m c in after r c' f

abbrev pub ◌>>◌ : {B : Type 0} → Parse (Unit {0}) → Parse B → Parse B
m >> k = m >>= λ _. k

abbrev pub lift : {A : Type 0} → Expected A → Parse A
lift r c = (r, c)

abbrev pub modify : (TraceContext → TraceContext) → Parse (Unit {0})
modify f c = (ok tt, f c)

-- Fails where the condition holds.
abbrev pub fail_if : Bool → Error → Parse (Unit {0})
fail_if b e c = (if b then err e else ok tt, c)

abbrev pub parse_trace_id : List ℕ → Parse (Unit {0})
parse_trace_id view c =
    let out = normalized_hex_to_uint128 view c.trace_id_high c.trace_id_low in
    (out.result, record c { trace_id_high = out.x_high; trace_id_low = out.x_low })

-- `if (s[offset] != '-') return invalid_argument;`
abbrev pub expect_dash : List ℕ → ℕ → Parse (Unit {0})
expect_dash s offset = fail_if (not (get_or s offset 0 == b'-')) invalid_argument

-- The offsets are those that the code has added up when it reads: 0, 2, 3, 35, 36, 52, 53.
unfoldable pub parse_trace_context : List ℕ → Parse (Unit {0})
parse_trace_context s = do
  fail_if (ltb (length s) trace_context_length) invalid_argument
  version ← lift (normalized_hex_to_uint8 (take num_8bit_hex_digits s))
  modify (λ c. record c { version = version })
  expect_dash s 2
  parse_trace_id (take num_128bit_hex_digits (drop 3 s))
  expect_dash s 35
  parent_id ← lift (normalized_hex_to_uint64 (take num_64bit_hex_digits (drop 36 s)))
  modify (λ c. record c { parent_id = parent_id })
  expect_dash s 52
  trace_flags ← lift (normalized_hex_to_uint8 (take num_8bit_hex_digits (drop 53 s)))
  modify (λ c. record c { trace_flags = trace_flags })

-- The characters that are written from `s` on, in the order of their offsets.
unfoldable pub serialize_trace_context : TraceContext → List ℕ
serialize_trace_context c =
    uint8_to_hex c.version
    ++ (b'-'
        ∷ (uint64_to_hex c.trace_id_high
            ++ (uint64_to_hex c.trace_id_low
                ++ (b'-' ∷ (uint64_to_hex c.parent_id ++ (b'-' ∷ uint8_to_hex c.trace_flags))))))
