-- ===== src/Stream/Array.antt =====
-- src/common/fragment_array_input_stream.h and .cpp: a stream over an array of fragments, with the
-- index of the current fragment and the position inside it.
use lightstep_tracer_cpp.Base.{
  ℕ, zero, suc, ◌+◌, ◌-◌, ◌≤◌, ◌<◌, ◌≡◌, refl, Bool, true, List, [], ◌∷◌, ◌++◌, leb, if◌then◌else◌,
  length, get_or, drop, arith,
}
use lightstep_tracer_cpp.Stream.Cursor.{
  from_cursor, length-from_cursor, visit-from_cursor, move_inside, move_on, length-first,
  length-later,
}
use lightstep_tracer_cpp.Stream.{
  Fragment, FragmentInputStream, IsLawful, visit, from_position, if_go_on,
}

pub record FragmentArray : Type 0 where
  pub fragments : List Fragment
  pub fragment_index : ℕ
  pub position : ℕ

unfoldable pub of_fragments : List Fragment → FragmentArray
of_fragments xs = record { fragments = xs; fragment_index = 0; position = 0 }

unfoldable pub add : Fragment → FragmentArray → FragmentArray
add x s = record s { fragments = s.fragments ++ (x ∷ []) }

unfoldable pub num_fragments : FragmentArray → ℕ
num_fragments s = length s.fragments - s.fragment_index

unfoldable pub for_each_fragment :
    {A : Type 0} → (Fragment → A → Bool × A) → FragmentArray → A → Bool × A
for_each_fragment f s a =
    if leb (length s.fragments) s.fragment_index
    then (true, a)
    else if_go_on (f (drop s.position (get_or s.fragments s.fragment_index [])) a)
        (visit f (drop (s.fragment_index + 1) s.fragments))

unfoldable pub clear : FragmentArray → FragmentArray
clear s = record { fragments = []; fragment_index = 0; position = 0 }

unfoldable pub seek : ℕ → ℕ → FragmentArray → FragmentArray
seek zero position s = record s { position = s.position + position }
seek (suc i) position s = record s {
  fragment_index = s.fragment_index + suc i;
  position = position;
}

-- What the assertions of `Seek` ask for, or a stream at its start.
pub record IsOpen (s : FragmentArray) : Type 0 where
  pub index : s.fragment_index ≤ length s.fragments
  pub position : s.position ≤ length (get_or s.fragments s.fragment_index [])

abbrev pub contents : FragmentArray → List Fragment
contents s = from_cursor s.fragments s.fragment_index s.position

abbrev pub fragment_array : FragmentInputStream FragmentArray
fragment_array = record {
  num_fragments = num_fragments;
  for_each_fragment = for_each_fragment;
  clear = clear;
  seek = seek;
  IsOpen = IsOpen;
  contents = contents;
}

length-contents : (s : FragmentArray) → num_fragments s ≡ length (contents s)
unfolding num_fragments
length-contents s = length-from_cursor s.fragments s.fragment_index s.position

for_each-visit :
    (A : Type 0) (f : Fragment → A → Bool × A) (s : FragmentArray) (a : A)
    → for_each_fragment f s a ≡ visit f (contents s) a
unfolding for_each_fragment
for_each-visit A f s a = visit-from_cursor f s.fragments s.fragment_index s.position a

contents-seek :
    (i p : ℕ) (s : FragmentArray) → contents (seek i p s) ≡ from_position i p (contents s)
unfolding seek
contents-seek zero p s = move_inside p s.fragments s.fragment_index s.position
contents-seek (suc i) p s = move_on i p s.fragments s.fragment_index s.position

IsOpen-seek :
    (i p : ℕ) (s : FragmentArray)
    → IsOpen s
    → i < num_fragments s
    → p < length (get_or (contents s) i [])
    → IsOpen (seek i p s)
unfolding seek num_fragments
IsOpen-seek zero p s h in_range inside = record {
  index = h.index;
  position = omega (arith, length-first s.fragments s.fragment_index s.position);
}
IsOpen-seek (suc i) p s h in_range inside = record {
  index = omega arith;
  position = omega (arith, length-later i s.fragments s.fragment_index s.position);
}

-- A stream over an array of fragments keeps the laws of the interface.
pub fragment_array-IsLawful : IsLawful fragment_array
fragment_array-IsLawful = record {
  num_fragments_lem = λ s h. length-contents s;
  for_each_lem = λ A f s a h. for_each-visit A f s a;
  clear_lem = λ s h. unfold clear in refl;
  IsOpen-clear = λ s h. unfold clear in record { index = omega arith; position = omega arith };
  seek_lem = λ i p s h in_range inside. contents-seek i p s;
  IsOpen-seek = IsOpen-seek;
}
