-- ===== src/Recorder/SpanStream/Seek.antt =====
-- `Seek` of src/recorder/stream_recorder/span_stream.cpp loses no byte and no span.
use lightstep_tracer_cpp.Base.{
  ℕ, zero, suc, ◌+◌, ◌≤◌, ◌<◌, ◌≡◌, refl, ap, sym, ◌∙◌, List, [], ◌∷◌, ◌++◌, Option, none, length,
  take, drop, get_or, All, length-append, length-drop, take-drop, drop-append_inside, append_assoc,
  arith,
}
use lightstep_tracer_cpp.Stream.{Fragment, from_position}
use lightstep_tracer_cpp.Stream.Positions.{from-append_inside}
use lightstep_tracer_cpp.Stream.Chained.{ChainedStream}
use lightstep_tracer_cpp.Stream.Chained.Reading.{chained_stream, IsOpen}
use lightstep_tracer_cpp.Stream.Composed.{contents}
use lightstep_tracer_cpp.Recorder.SpanStream.{SpanStream, allotted, count_spans, take_remnant, seek}
use lightstep_tracer_cpp.Recorder.SpanStream.Cut.{Cut, cut, spans, all}

-- What `Seek` has made of a stream: its remnant and the buffer hold what is left, and each span that was
-- in the buffer is sent, the remnant, or still there.
pub record IsSought (s : SpanStream) (i p : ℕ) (s' : SpanStream) : Type 0 where
  pub fragments :
      all (spans s'.remnant) ++ all s'.span_buffer ≡ from_position i p (all s.span_buffer)
  pub books :
      s.metrics.observer.sent + length s.span_buffer
      ≡ s'.metrics.observer.sent + length (spans s'.remnant) + length s'.span_buffer
  pub is_open : All IsOpen (spans s'.remnant)
  pub unallotted : s'.allotment ≡ 0

take-append_inside :
    (k : ℕ) (xs ys : List ChainedStream) → k ≤ length xs → take k (xs ++ ys) ≡ take k xs
take-append_inside zero xs ys h = refl
take-append_inside (suc k) [] ys h = absurd (omega arith)
take-append_inside (suc k) (x ∷ xs) ys h =
    ap (λ (r : List ChainedStream). x ∷ r) (take-append_inside k xs ys (omega arith))

all-append : (xs ys : List ChainedStream) → all (xs ++ ys) ≡ all xs ++ all ys
unfolding contents
all-append [] ys = refl
all-append (x ∷ xs) ys =
    ap (λ (r : List Fragment). chained_stream.contents x ++ r) (all-append xs ys)
    ∙ sym (append_assoc (chained_stream.contents x) (all xs) (all ys))

-- With the buffer split into the allotment and what has been added since.
sought :
    (s : SpanStream) (later : List ChainedStream) (i p : ℕ)
    → s.span_buffer ≡ allotted s ++ later
    → i < length (all (allotted s))
    → Cut (allotted s) i p
    → IsSought s i p (seek i p s)
unfolding seek
sought s later i p split in_range c = record {
  fragments =
      ap (λ (r : Option ChainedStream). all (spans r) ++ all (drop n s.span_buffer)) remnant
      ∙ (ap (λ (b : List ChainedStream). all (spans rest) ++ all b) dropped
          ∙ (ap (λ (xs : List Fragment). all (spans rest) ++ xs)
                (all-append (drop c.k (allotted s)) later)
              ∙ (sym (append_assoc (all (spans rest)) (all (drop c.k (allotted s))) (all later))
                  ∙ (ap (λ (xs : List Fragment). xs ++ all later) c.fragments
                      ∙ (sym (from-append_inside i p (all (allotted s)) (all later) in_range)
                          ∙ ap (from_position i p)
                              (sym (all-append (allotted s) later) ∙ ap all (sym split)))))));
  books = omega (
    arith,
    c.books,
    c.few,
    full,
    ap (λ (r : Option ChainedStream). length (spans r)) remnant,
    ap length dropped,
    ap length split,
    length-append (allotted s) later,
    length-append (drop c.k (allotted s)) later,
    length-drop c.k (allotted s),
  );
  is_open = rw remnant c.is_open;
  unallotted = refl;
}
  where
    n : ℕ
    n = (count_spans (allotted s) i p 0 0).0

    count : n ≡ c.k
    count = omega (arith, ap (λ (r : ℕ × ℕ). r.0) (c.count 0 0))

    full : (count_spans (allotted s) i p 0 0).1 ≡ c.full
    full = omega (arith, ap (λ (r : ℕ × ℕ). r.1) (c.count 0 0))

    rest : Option ChainedStream
    rest = take_remnant (take c.k (allotted s)) i p none

    taken : take n s.span_buffer ≡ take c.k (allotted s)
    taken =
        ap (λ (m : ℕ). take m s.span_buffer) count
        ∙ (ap (take c.k) split ∙ take-append_inside c.k (allotted s) later c.few)

    dropped : drop n s.span_buffer ≡ drop c.k (allotted s) ++ later
    dropped =
        ap (λ (m : ℕ). drop m s.span_buffer) count
        ∙ (ap (drop c.k) split ∙ drop-append_inside c.k (allotted s) later c.few)

    remnant : take_remnant (take n s.span_buffer) i p none ≡ rest
    remnant = ap (λ (ss : List ChainedStream). take_remnant ss i p none) taken

-- If the spans of the allotment are open and the place is inside them: what Seek leaves, the remnant and
-- the buffer, is the stream of all the spans from that place on; each span of the buffer is counted as
-- sent, is the remnant, or is still in the buffer; and the remnant is open.
pub seek-IsSought :
    (s : SpanStream) (i p : ℕ)
    → All IsOpen (allotted s)
    → i < length (all (allotted s))
    → p < length (get_or (all (allotted s)) i [])
    → IsSought s i p (seek i p s)
seek-IsSought s i p h in_range short =
    sought s (drop s.allotment s.span_buffer) i p (take-drop s.allotment s.span_buffer) in_range
      (cut (allotted s) i p h in_range short)
