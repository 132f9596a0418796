-- ===== src/Recorder/SpanStream/Cut.antt =====
-- Where `Seek` of src/recorder/stream_recorder/span_stream.cpp cuts the spans.
use lightstep_tracer_cpp.Base.{
  ℕ, suc, ◌+◌, ◌-◌, ◌≤◌, ◌<◌, ◌≡◌, refl, ap, sym, ◌∙◌, true, false, ◌&&◌, List, [], ◌∷◌, ◌++◌,
  Option, none, some, leb, ◌==◌, length, take, drop, get_or, All, length-append, append-nil,
  Bool-cases, le_or_lt, inl, inr, arith,
}
use lightstep_tracer_cpp.Stream.{Fragment, from_position}
use lightstep_tracer_cpp.Stream.Positions.{
  from-append_inside, from-append_behind, get_or-append_inside, get_or-append_behind,
}
use lightstep_tracer_cpp.Stream.Chained.{ChainedStream, segment_num_fragments}
use lightstep_tracer_cpp.Stream.Chained.Reading
use lightstep_tracer_cpp.Stream.Chained.Reading.{chained_stream, chained_stream-IsLawful, IsOpen}
use lightstep_tracer_cpp.Stream.Composed.{contents}
use lightstep_tracer_cpp.Recorder.SpanStream.{count_spans, take_remnant}

abbrev pub spans : Option ChainedStream → List ChainedStream
spans none = []
spans (some span) = span ∷ []

-- The fragments of some spans, and of the remnant and the spans behind it.
abbrev pub all : List ChainedStream → List Fragment
all = contents chained_stream

abbrev pair : ℕ → ℕ → ℕ × ℕ
pair a b = (a, b)

pair_cong : {a b c d : ℕ} → a ≡ c → b ≡ d → pair a b ≡ pair c d
pair_cong {a} {b} {c} {d} e f = rw (e, f) refl

from_start : (xs : List Fragment) → xs ≡ from_position 0 0 xs
from_start [] = refl
from_start (x ∷ xs) = refl

-- What the loops of `Seek` do: `k` spans are consumed, `full` of them to their ends.
pub record Cut (ss : List ChainedStream) (i p : ℕ) : Type 0 where
  pub k : ℕ
  pub full : ℕ
  pub count : (c f : ℕ) → count_spans ss i p c f ≡ (c + k, c + full)
  pub few : k ≤ length ss
  pub fragments :
      all (spans (take_remnant (take k ss) i p none)) ++ all (drop k ss)
      ≡ from_position i p (all ss)
  pub books : k ≡ full + length (spans (take_remnant (take k ss) i p none))
  pub is_open : All IsOpen (spans (take_remnant (take k ss) i p none))

module _ (span : ChainedStream) (ss : List ChainedStream) (i p : ℕ) (h : IsOpen span) where
  num_lem : segment_num_fragments span ≡ length (Reading.contents span)
  num_lem = chained_stream-IsLawful.num_fragments_lem span h

  Cut-behind :
      segment_num_fragments span ≤ i
      → Cut ss (i - segment_num_fragments span) p
      → Cut (span ∷ ss) i p
  unfolding count_spans take_remnant contents
  Cut-behind passed rest =
      let e : leb (segment_num_fragments span) i ≡ true = ground arith in
      record {
        k = suc rest.k;
        full = suc rest.full;
        count = λ c f. rw e (rest.count (c + 1) f ∙ pair_cong (omega arith) (omega arith));
        few = omega (arith, rest.few);
        fragments = rw e (
            rest.fragments
            ∙ sym (
                from-append_behind i p (Reading.contents span) (all ss) (omega (arith, num_lem))
                ∙ ap (λ (n : ℕ). from_position (i - n) p (all ss)) (sym num_lem)));
        books = rw e (omega (arith, rest.books));
        is_open = rw e rest.is_open;
      }

  -- At the start of a span nothing of it is consumed.
  Cut-before : i < segment_num_fragments span → (i == 0 && p == 0) ≡ true → Cut (span ∷ ss) i p
  unfolding count_spans take_remnant contents
  Cut-before inside start =
      let e : leb (segment_num_fragments span) i ≡ false = ground arith in
      let zeros = both_zero i p start in
      record {
        k = 0;
        full = 0;
        count = λ c f. rw (e, start) (pair_cong (omega arith) (omega arith));
        few = omega arith;
        fragments = rw (zeros.0, zeros.1) (from_start (all (span ∷ ss)));
        books = refl;
        is_open = tt;
      }
    where
      both_zero : (n d : ℕ) → (n == 0 && d == 0) ≡ true → (n ≡ 0) × (d ≡ 0)
      both_zero n d h = ground arith

  -- Inside a span, the span is consumed, and its rest is the remnant.
  Cut-inside :
      i < segment_num_fragments span
      → (i == 0 && p == 0) ≡ false
      → p < length (get_or (Reading.contents span) i [])
      → Cut (span ∷ ss) i p
  unfolding count_spans take_remnant contents
  Cut-inside inside start short =
      let e : leb (segment_num_fragments span) i ≡ false = ground arith in
      record {
        k = 1;
        full = 0;
        count = λ c f. rw (e, start) (pair_cong (omega arith) (omega arith));
        few = omega arith;
        fragments = rw e (
            ap (λ (xs : List Fragment). (xs ++ []) ++ all ss)
              (chained_stream-IsLawful.seek_lem i p span h inside short)
            ∙ (ap (λ (xs : List Fragment). xs ++ all ss)
                  (append-nil (from_position i p (Reading.contents span)))
                ∙ sym (
                    from-append_inside i p (Reading.contents span) (all ss)
                      (omega (arith, num_lem)))));
        books = rw e refl;
        is_open = rw e (chained_stream-IsLawful.IsOpen-seek i p span h inside short, tt);
      }

pub cut :
    (ss : List ChainedStream) (i p : ℕ)
    → All IsOpen ss
    → i < length (all ss)
    → p < length (get_or (all ss) i [])
    → Cut ss i p
unfolding contents
cut [] i p h in_range short = absurd (omega arith)
cut (span ∷ ss) i p (h, hs) in_range short = elim (le_or_lt (segment_num_fragments span) i) [
  | inl passed ↦ Cut-behind span ss i p h passed (
      cut ss (i - segment_num_fragments span) p hs
        (omega (arith, num, passed, length-append (Reading.contents span) (all ss)))
        (omega (
          arith,
          short,
          ap length (get_or-append_behind i (Reading.contents span) (all ss) (omega (arith, num))),
          ap (λ (n : ℕ). length (get_or (all ss) (i - n) [])) num,
        )))
  | inr inside ↦ elim (Bool-cases (i == 0 && p == 0)) [
    | inl start ↦ Cut-before span ss i p h inside start
    | inr start ↦ Cut-inside span ss i p h inside start (
        omega (
          arith,
          short,
          ap length (get_or-append_inside i (Reading.contents span) (all ss) (omega (arith, num))),
        ))
  ]
]
  where
    num : segment_num_fragments span ≡ length (Reading.contents span)
    num = num_lem span ss i p h
