-- ===== src/Stream/Chained/Reading.antt =====
-- The chained stream of src/common/chained_stream.cpp, closed, as a lawful stream of fragments.
use lightstep_tracer_cpp.Base.{
  ℕ, zero, suc, ◌+◌, ◌≤◌, ◌<◌, ◌≡◌, ◌≢◌, refl, ap, sym, ◌∙◌, Bool, true, List, [], ◌∷◌, ◌==◌,
  if◌then◌else◌, length, get_or, drop, map, arith,
}
use lightstep_tracer_cpp.Stream.{Fragment, FragmentInputStream, IsLawful, visit, from_position}
use lightstep_tracer_cpp.Stream.Cursor.{
  from_cursor, length-from_cursor, visit-from_cursor, move_inside, move_on, length-first,
  length-later,
}
use lightstep_tracer_cpp.Stream.Chained.{
  ChainedStream, Block, no_block, block_bytes, segment_num_fragments, segment_for_each_fragment,
  segment_clear, segment_seek,
}

-- The blocks of a closed stream as fragments.
abbrev pub all_fragments : ChainedStream → List Fragment
all_fragments s = map block_bytes s.blocks

-- A closed stream that something has been written to, at a place in it.
pub record IsReading (s : ChainedStream) : Type 0 where
  pub closed : s.output_closed ≡ true
  pub written : s.num_bytes_written ≢ 0
  pub count : s.num_blocks ≡ length (all_fragments s)
  pub place : s.current_block ≡ s.fragment_index
  pub index : s.fragment_index < length (all_fragments s)
  pub position : s.fragment_position ≤ length (get_or (all_fragments s) s.fragment_index [])

-- A closed stream that has been cleared.
pub record IsCleared (s : ChainedStream) : Type 0 where
  pub closed : s.output_closed ≡ true
  pub written : s.num_bytes_written ≡ 0
  pub count : s.num_blocks ≡ 0

pub data IsOpen (s : ChainedStream) : Type 0 where
  reading : IsReading s → IsOpen s
  cleared : IsCleared s → IsOpen s

unfoldable pub contents : ChainedStream → List Fragment
contents s =
    if s.num_blocks == 0
    then []
    else from_cursor (all_fragments s) s.fragment_index s.fragment_position

abbrev pub chained_stream : FragmentInputStream ChainedStream
chained_stream = record {
  num_fragments = segment_num_fragments;
  for_each_fragment = segment_for_each_fragment;
  clear = segment_clear;
  seek = segment_seek;
  IsOpen = IsOpen;
  contents = contents;
}

length-map : (bs : List Block) → length (map block_bytes bs) ≡ length bs
length-map [] = refl
length-map (b ∷ bs) = ap suc (length-map bs)

get_or-map :
    (bs : List Block) (i : ℕ)
    → get_or (map block_bytes bs) i [] ≡ block_bytes (get_or bs i no_block)
get_or-map [] i = refl
get_or-map (b ∷ bs) zero = refl
get_or-map (b ∷ bs) (suc i) = get_or-map bs i

drop-map : (i : ℕ) (bs : List Block) → map block_bytes (drop i bs) ≡ drop i (map block_bytes bs)
drop-map zero bs = refl
drop-map (suc i) [] = refl
drop-map (suc i) (b ∷ bs) = drop-map i bs

contents-reading :
    (s : ChainedStream)
    → IsReading s
    → contents s ≡ from_cursor (all_fragments s) s.fragment_index s.fragment_position
unfolding contents
contents-reading s h = ground arith

contents-cleared : (s : ChainedStream) → s.num_blocks ≡ 0 → contents s ≡ []
unfolding contents
contents-cleared s h = rw h refl

num_fragments-contents :
    (s : ChainedStream) → IsOpen s → segment_num_fragments s ≡ length (contents s)
unfolding segment_num_fragments
num_fragments-contents s (reading h) =
    rw (contents-reading s h)
      (ground (arith, length-from_cursor (all_fragments s) s.fragment_index s.fragment_position))
num_fragments-contents s (cleared h) = rw (contents-cleared s h.count) (ground (arith, h.written))

for_each-visit :
    (A : Type 0) (f : Fragment → A → Bool × A) (s : ChainedStream) (a : A)
    → IsOpen s
    → segment_for_each_fragment f s a ≡ visit f (contents s) a
unfolding segment_for_each_fragment
for_each-visit A f s a (reading h) = rw (contents-reading s h) (
    rw
      (
        h.place,
        sym (get_or-map s.blocks s.fragment_index),
        drop-map (s.fragment_index + 1) s.blocks,
      )
      (ground
        (arith, visit-from_cursor f (all_fragments s) s.fragment_index s.fragment_position a)))
for_each-visit A f s a (cleared h) =
    rw (contents-cleared s h.count) (unfold visit in ground (arith, h.count))

contents-seek :
    (i p : ℕ) (s : ChainedStream)
    → IsReading s
    → contents (segment_seek i p s)
      ≡ from_position i p (from_cursor (all_fragments s) s.fragment_index s.fragment_position)
unfolding segment_seek contents
contents-seek zero p s h =
    ground (arith, move_inside p (all_fragments s) s.fragment_index s.fragment_position)
contents-seek (suc i) p s h =
    ground (arith, move_on i p (all_fragments s) s.fragment_index s.fragment_position)

IsReading-seek :
    (i p : ℕ) (s : ChainedStream)
    → IsReading s
    → i < segment_num_fragments s
    → p < length (get_or (from_cursor (all_fragments s) s.fragment_index s.fragment_position) i [])
    → IsReading (segment_seek i p s)
unfolding segment_seek segment_num_fragments
IsReading-seek zero p s h in_range inside = record {
  closed = h.closed;
  written = h.written;
  count = h.count;
  place = h.place;
  index = h.index;
  position = omega (arith, length-first (all_fragments s) s.fragment_index s.fragment_position);
}
IsReading-seek (suc i) p s h in_range inside = record {
  closed = h.closed;
  written = h.written;
  count = h.count;
  place = omega (arith, h.place);
  index = ground (arith, h.written, h.count);
  position = omega (arith, length-later i (all_fragments s) s.fragment_index s.fragment_position);
}

nothing_left : (i : ℕ) (s : ChainedStream) → IsCleared s → i < segment_num_fragments s → ⊥
unfolding segment_num_fragments
nothing_left i s h in_range = ground (arith, h.written)

seek_lem :
    (i p : ℕ) (s : ChainedStream)
    → IsOpen s
    → i < segment_num_fragments s
    → p < length (get_or (contents s) i [])
    → contents (segment_seek i p s) ≡ from_position i p (contents s)
seek_lem i p s (reading h) in_range inside =
    contents-seek i p s h ∙ sym (ap (from_position i p) (contents-reading s h))
seek_lem i p s (cleared h) in_range inside = absurd (nothing_left i s h in_range)

IsOpen-seek :
    (i p : ℕ) (s : ChainedStream)
    → IsOpen s
    → i < segment_num_fragments s
    → p < length (get_or (contents s) i [])
    → IsOpen (segment_seek i p s)
IsOpen-seek i p s (reading h) in_range inside =
    reading (IsReading-seek i p s h in_range (rw (contents-reading s h) at inside))
IsOpen-seek i p s (cleared h) in_range inside = absurd (nothing_left i s h in_range)

closed_of : (s : ChainedStream) → IsOpen s → s.output_closed ≡ true
closed_of s (reading h) = h.closed
closed_of s (cleared h) = h.closed

IsOpen-clear : (s : ChainedStream) → IsOpen s → IsOpen (segment_clear s)
unfolding segment_clear
IsOpen-clear s h = cleared (record { closed = closed_of s h; written = refl; count = refl })

contents-clear : (s : ChainedStream) → contents (segment_clear s) ≡ []
contents-clear s = contents-cleared (segment_clear s) (unfold segment_clear in refl)

-- A closed chained stream that something was written to keeps the laws of the interface: the count, the
-- loop, Clear and Seek agree on the fragments that are left.
pub chained_stream-IsLawful : IsLawful chained_stream
chained_stream-IsLawful = record {
  num_fragments_lem = num_fragments-contents;
  for_each_lem = for_each-visit;
  clear_lem = λ s h. contents-clear s;
  IsOpen-clear = IsOpen-clear;
  seek_lem = seek_lem;
  IsOpen-seek = IsOpen-seek;
}
