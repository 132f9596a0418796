-- ===== src/Tests/StatusLine.antt =====
-- The status line parser on a response that comes in three pieces.
use lightstep_tracer_cpp.Base.{ℕ, ◌≡◌, refl, true, false, List, [], ◌∷◌, codes}
use lightstep_tracer_cpp.Hex.{is_space}
use lightstep_tracer_cpp.Stream.{concat}
use lightstep_tracer_cpp.Recorder.StatusLine.{StatusLineParser, parse, parse_all}
use lightstep_tracer_cpp.Recorder.StatusLine.Pieces.{parse_all-concat}

abbrev new_parser : StatusLineParser
new_parser = record { line = []; complete = false; status_code = 0; reason = [] }

abbrev response_pieces : List (List ℕ)
response_pieces = codes "HTTP/1.1 4" ∷ codes "04 Not Fo" ∷ codes "und\r\nDate:" ∷ []

three_pieces : parse_all response_pieces new_parser ≡ (
  false,
  record {
    line = codes "HTTP/1.1 404 Not Found";
    complete = true;
    status_code = 404;
    reason = codes "Not Found";
  },
)
unfolding parse_all is_space
three_pieces = refl

-- A line without a reason throws, and the parser is empty again.
no_reason : parse (codes "HTTP/1.1 404\r\n") new_parser ≡ (true, new_parser)
unfolding parse
no_reason = refl

parse_all-concat_example :
    parse_all response_pieces new_parser ≡ parse (concat response_pieces) new_parser
parse_all-concat_example = parse_all-concat response_pieces new_parser
