-- ===== src/Recorder/StatusLine.antt =====
-- src/recorder/stream_recorder/status_line_parser.h and .cpp: the first line of an HTTP response, which
-- comes in pieces. `reason_` is a view of `line_`; here it is its bytes.
use lightstep_tracer_cpp.Base.{
  ℕ, ◌+◌, ◌-◌, ◌%◌, ◌^◌, Bool, true, false, not, List, [], ◌∷◌, ◌++◌, ltb, ◌==◌, if◌then◌else◌,
  drop,
}
use lightstep_tracer_cpp.Hex.{skip_leading_spaces}
use lightstep_tracer_cpp.Decimal.{is_digit, decimal_from}
pub mod Pieces

pub record StatusLineParser : Type 0 where
  pub line : List ℕ
  pub complete : Bool
  pub status_code : ℕ
  pub reason : List ℕ

-- Whether the call throws, and the parser that it leaves.
abbrev pub Parsed : Type 0
Parsed = Bool × StatusLineParser

-- `std::find`: the text in front of the first `c`, and the text from it on.
unfoldable pub before : ℕ → List ℕ → List ℕ
before c [] = []
before c (x ∷ s) = let rest = before c s in if x == c then [] else x ∷ rest

unfoldable pub from : ℕ → List ℕ → List ℕ
from c [] = []
from c (x ∷ s) = let rest = from c s in if x == c then x ∷ s else rest

abbrev pub is_empty : List ℕ → Bool
is_empty [] = true
is_empty (x ∷ s) = false

unfoldable pub all_digits : List ℕ → List ℕ
unfolding is_digit
all_digits [] = []
all_digits (c ∷ s) = let rest = c ∷ all_digits s in if is_digit c then rest else []

-- `strtol` of a 64-bit long: its value, or the nearest value in range, as 64 bits.
abbrev pub signed_value : Bool → ℕ → ℕ
signed_value false n = if ltb n (2 ^ 63) then n else 2 ^ 63 - 1
signed_value true n = if ltb (2 ^ 63) n then 2 ^ 63 else (2 ^ 64 - n) % 2 ^ 64

unfoldable pub signed_digits : List ℕ → ℕ
unfolding all_digits decimal_from
signed_digits [] = 0
signed_digits (c ∷ s) =
    if c == b'-'
    then signed_value true (decimal_from 0 (all_digits s))
    else if c == b'+'
    then signed_value false (decimal_from 0 (all_digits s))
    else signed_value false (decimal_from 0 (all_digits (c ∷ s)))

unfoldable pub strtol : List ℕ → ℕ
unfolding skip_leading_spaces signed_digits
strtol s = signed_digits (skip_leading_spaces s)

unfoldable pub reset : StatusLineParser → StatusLineParser
reset p = record p { line = []; complete = false }

-- The conversion to `int` keeps the low 32 bits.
unfoldable pub parse_fields : StatusLineParser → Parsed
unfolding from strtol reset
parse_fields p =
    let code = from b' ' p.line in
    let behind = from b' ' (drop 1 code) in
    if is_empty code
    then (true, reset p)
    else if is_empty behind
    then (true, reset p)
    else (false, record p { status_code = strtol code % 2 ^ 32; reason = drop 1 behind })

-- A piece is appended up to the carriage return that ends the line.
unfoldable pub append_piece : List ℕ → StatusLineParser → StatusLineParser
unfolding before from
append_piece s p = record p { line = p.line ++ before 13 s; complete = not (is_empty (from 13 s)) }

unfoldable pub parse_if_complete : StatusLineParser → Parsed
unfolding parse_fields
parse_if_complete p = if p.complete then parse_fields p else (false, p)

unfoldable pub parse : List ℕ → StatusLineParser → Parsed
unfolding append_piece parse_if_complete
parse s p = if p.complete then (false, p) else parse_if_complete (append_piece s p)

-- The pieces in turn, until a call throws.
unfoldable pub parse_all : List (List ℕ) → StatusLineParser → Parsed
unfolding parse
parse_all [] p = (false, p)
parse_all (s ∷ ss) p =
    let (throws, p') = parse s p in
    let rest = parse_all ss p' in if throws then (true, p') else rest
