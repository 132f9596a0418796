-- ===== src/Stream/Composed.antt =====
-- src/common/composable_fragment_input_stream.h and .cpp: a chain of segments that is a stream itself.
-- The chain that `next_` links is the list of its segments; `Append` puts a chain at its end.
use lightstep_tracer_cpp.Base.{
  ℕ, ◌+◌, ◌-◌, ◌≤◌, ◌<◌, ◌≡◌, refl, ap, sym, ◌∙◌, Bool, true, List, [], ◌∷◌, ◌++◌, ltb,
  if◌then◌else◌, length, get_or, length-append, arith, All, Bool-cases, inl, inr,
}
use lightstep_tracer_cpp.Stream.Positions.{
  if_go_on-cong, visit-append, get_or-append_inside, get_or-append_behind, from-append_inside,
  from-append_behind,
}
use lightstep_tracer_cpp.Stream.{
  Fragment, FragmentInputStream, IsLawful, visit, from_position, if_go_on,
}

module _ {S : Type 0} (F : FragmentInputStream S) where
  -- The chain of the appended stream goes behind the last segment.
  unfoldable pub append : List S → List S → List S
  append ss ts = ss ++ ts

  unfoldable pub num_fragments : List S → ℕ
  num_fragments [] = 0
  num_fragments (s ∷ ss) = F.num_fragments s + num_fragments ss

  unfoldable pub for_each_fragment :
      {A : Type 0} → (Fragment → A → Bool × A) → List S → A → Bool × A
  for_each_fragment f [] a = (true, a)
  for_each_fragment f (s ∷ ss) a = if_go_on (F.for_each_fragment f s a) (for_each_fragment f ss)

  unfoldable pub clear : List S → List S
  clear [] = []
  clear (s ∷ ss) = F.clear s ∷ clear ss

  unfoldable pub seek : ℕ → ℕ → List S → List S
  seek fragment_index position [] = []
  seek fragment_index position (s ∷ ss) =
      let n = F.num_fragments s in
      let behind = seek (fragment_index - n) position ss in
      if ltb fragment_index n then F.seek fragment_index position s ∷ ss else F.clear s ∷ behind

  unfoldable pub contents : List S → List Fragment
  contents [] = []
  contents (s ∷ ss) = F.contents s ++ contents ss

module _ {S : Type 0} (F : FragmentInputStream S) where
  abbrev pub composed : FragmentInputStream (List S)
  composed = record {
    num_fragments = num_fragments F;
    for_each_fragment = for_each_fragment F;
    clear = clear F;
    seek = seek F;
    IsOpen = All F.IsOpen;
    contents = contents F;
  }

module _ {S : Type 0} {F : FragmentInputStream S} (laws : IsLawful F) where
  num_fragments-contents :
      (ss : List S) → All F.IsOpen ss → num_fragments F ss ≡ length (contents F ss)
  unfolding num_fragments contents
  num_fragments-contents [] h = refl
  num_fragments-contents (s ∷ ss) (h, hs) = omega (
    arith,
    laws.num_fragments_lem s h,
    num_fragments-contents ss hs,
    length-append (F.contents s) (contents F ss),
  )

  for_each-visit :
      (A : Type 0) (f : Fragment → A → Bool × A) (ss : List S) (a : A)
      → All F.IsOpen ss
      → for_each_fragment F f ss a ≡ visit f (contents F ss) a
  unfolding for_each_fragment contents
  for_each-visit A f [] a h = unfold visit in refl
  for_each-visit A f (s ∷ ss) a (h, hs) =
      ap (λ r. if_go_on r (for_each_fragment F f ss)) (laws.for_each_lem A f s a h)
      ∙ if_go_on-cong (visit f (F.contents s) a) _ _ (λ b. for_each-visit A f ss b hs)
      ∙ sym (visit-append f (F.contents s) (contents F ss) a)

  contents-clear : (ss : List S) → All F.IsOpen ss → contents F (clear F ss) ≡ []
  unfolding contents clear
  contents-clear [] h = refl
  contents-clear (s ∷ ss) (h, hs) =
      ap (λ (x : List Fragment). x ++ contents F (clear F ss)) (laws.clear_lem s h)
      ∙ contents-clear ss hs

  IsOpen-clear : (ss : List S) → All F.IsOpen ss → All F.IsOpen (clear F ss)
  unfolding clear
  IsOpen-clear [] h = tt
  IsOpen-clear (s ∷ ss) (h, hs) = (laws.IsOpen-clear s h, IsOpen-clear ss hs)

  -- What a seek promises.
  abbrev Sought : ℕ → ℕ → List S → List S → Type 0
  Sought i p ss ss' = (contents F ss' ≡ from_position i p (contents F ss)) × All F.IsOpen ss'

  module _ (i p : ℕ) (s : S) (ss : List S) (h : F.IsOpen s) (hs : All F.IsOpen ss) where
    seek_here :
        i < F.num_fragments s
        → p < length (get_or (F.contents s ++ contents F ss) i [])
        → Sought i p (s ∷ ss) (F.seek i p s ∷ ss)
    unfolding contents
    seek_here in_range inside = (
      ap (λ (x : List Fragment). x ++ contents F ss) (laws.seek_lem i p s h in_range inside')
          ∙ sym (from-append_inside i p (F.contents s) (contents F ss) in_contents),
      (laws.IsOpen-seek i p s h in_range inside', hs),
    )
      where
        in_contents : i < length (F.contents s)
        in_contents = omega (arith, laws.num_fragments_lem s h)

        inside' : p < length (get_or (F.contents s) i [])
        inside' =
            omega
              (arith, ap length (get_or-append_inside i (F.contents s) (contents F ss) in_contents))

    seek_behind :
        (ss' : List S)
        → F.num_fragments s ≤ i
        → Sought (i - F.num_fragments s) p ss ss'
        → Sought i p (s ∷ ss) (F.clear s ∷ ss')
    unfolding contents
    seek_behind ss' beyond (e, open') = (
      ap (λ (x : List Fragment). x ++ contents F ss') (laws.clear_lem s h)
          ∙ e
          ∙ ap (λ (k : ℕ). from_position (i - k) p (contents F ss)) (laws.num_fragments_lem s h)
          ∙ sym (
              from-append_behind i p (F.contents s) (contents F ss)
                (omega (arith, laws.num_fragments_lem s h))),
      (laws.IsOpen-clear s h, open'),
    )

    inside_behind :
        F.num_fragments s ≤ i
        → p < length (get_or (F.contents s ++ contents F ss) i [])
        → p < length (get_or (contents F ss) (i - F.num_fragments s) [])
    inside_behind beyond inside = omega (
      arith,
      ap length (
          get_or-append_behind i (F.contents s) (contents F ss)
            (omega (arith, laws.num_fragments_lem s h))),
      ap (λ (k : ℕ). length (get_or (contents F ss) (i - k) [])) (laws.num_fragments_lem s h),
    )

  -- A seek goes to the segment that holds the fragment, and clears those before it.
  seek-Sought :
      (i p : ℕ) (ss : List S)
      → All F.IsOpen ss
      → i < num_fragments F ss
      → p < length (get_or (contents F ss) i [])
      → Sought i p ss (seek F i p ss)
  unfolding seek contents num_fragments
  seek-Sought i p [] h in_range inside = absurd (omega arith)
  seek-Sought i p (s ∷ ss) (h, hs) in_range inside = elim (Bool-cases (ltb i (F.num_fragments s))) [
    | inl here ↦ rw here (seek_here i p s ss h hs (ground arith) inside)
    | inr behind ↦
        let beyond : F.num_fragments s ≤ i = ground arith in
        rw behind (
          seek_behind i p s ss h hs _ beyond (
            seek-Sought (i - F.num_fragments s) p ss hs (omega arith)
              (inside_behind i p s ss h hs beyond inside)))
  ]

  -- A chain of lawful segments is a lawful stream.
  pub composed-IsLawful : IsLawful (composed F)
  composed-IsLawful = record {
    num_fragments_lem = num_fragments-contents;
    for_each_lem = for_each-visit;
    clear_lem = contents-clear;
    IsOpen-clear = IsOpen-clear;
    seek_lem = λ i p ss h in_range inside. (seek-Sought i p ss h in_range inside).0;
    IsOpen-seek = λ i p ss h in_range inside. (seek-Sought i p ss h in_range inside).1;
  }
