-- ===== src/Stream/Consume.antt =====
-- What `Consume` of src/common/fragment_input_stream.cpp does to streams that keep the laws.
use lightstep_tracer_cpp.Base.{
  ℕ, suc, ◌+◌, ◌-◌, ◌≤◌, ◌<◌, ◌≡◌, refl, ap, sym, ◌∙◌, Bool, true, false, List, [], ◌∷◌, ◌++◌, ltb,
  leb, length, get_or, drop, length-append, drop-nil, drop-append_inside, drop-append_behind, arith,
  All, Bool-cases, inl, inr,
}
use lightstep_tracer_cpp.Stream.{
  Fragment, FragmentInputStream, IsLawful, visit, concat, from_position, consume, consume_fragment,
  seek_or_clear,
}

-- What the callback does to the fragments of one stream.
pub record Stopped (xs : List Fragment) (n i n' i' : ℕ) : Type 0 where
  pub skipped : ℕ
  pub index : i' ≡ i + skipped
  pub few : n < length (concat xs)
  pub inside : skipped < length xs
  pub position : n' < length (get_or xs skipped [])
  pub rest : concat (from_position skipped n' xs) ≡ drop n (concat xs)

pub record Passed (xs : List Fragment) (n n' : ℕ) : Type 0 where
  pub enough : length (concat xs) ≤ n
  pub left : n' ≡ n - length (concat xs)

abbrev Outcome : List Fragment → ℕ → ℕ → Bool × (ℕ × ℕ) → Type 0
Outcome xs n i (false, (n', i')) = Stopped xs n i n' i'
Outcome xs n i (true, (n', i')) = Passed xs n n'

module _ (x : Fragment) (xs : List Fragment) (n i : ℕ) where
  stop_here : n < length x → Outcome (x ∷ xs) n i (false, (n, i))
  unfolding concat
  stop_here h = record {
    skipped = 0;
    index = omega arith;
    few = omega (arith, length-append x (concat xs));
    inside = omega arith;
    position = h;
    rest = sym (drop-append_inside n x (concat xs) (omega arith));
  }

  pass_on :
      (r : Bool × (ℕ × ℕ))
      → length x ≤ n
      → Outcome xs (n - length x) (i + 1) r
      → Outcome (x ∷ xs) n i r
  unfolding concat
  pass_on (false, (n', i')) h o = record {
    skipped = suc o.skipped;
    index = omega (arith, o.index);
    few = omega (arith, o.few, length-append x (concat xs));
    inside = omega (arith, o.inside);
    position = o.position;
    rest = o.rest ∙ sym (drop-append_behind n x (concat xs) h);
  }
  pass_on (true, (n', i')) h o = record {
    enough = omega (arith, o.enough, length-append x (concat xs));
    left = omega (arith, o.left, length-append x (concat xs));
  }

visit-consume_fragment :
    (xs : List Fragment) (n i : ℕ) → Outcome xs n i (visit consume_fragment xs (n, i))
unfolding visit consume_fragment concat
visit-consume_fragment [] n i = record { enough = omega arith; left = omega arith }
visit-consume_fragment (x ∷ xs) n i = elim (Bool-cases (ltb n (length x))) [
  | inl small ↦ rw small (stop_here x xs n i (ground arith))
  | inr large ↦
      rw large
        (pass_on x xs n i _ (ground arith) (visit-consume_fragment xs (n - length x) (i + 1)))
]

module _ {S : Type 0} (F : FragmentInputStream S) where
  -- The bytes that the streams still have, in order.
  unfoldable pub bytes : List S → List ℕ
  bytes [] = []
  bytes (s ∷ ss) = concat (F.contents s) ++ bytes ss

  -- `Consume` of `n` bytes has returned `r` and left `ss'`.
  pub record HasConsumed (ss : List S) (n : ℕ) (r : Bool) (ss' : List S) : Type 0 where
    pub all : r ≡ leb (length (bytes ss)) n
    pub rest : bytes ss' ≡ drop n (bytes ss)
    pub opened : All F.IsOpen ss'
    pub streams : length ss' ≡ length ss

  module _ (laws : IsLawful F) (s : S) (ss : List S) (n : ℕ) (is_open : F.IsOpen s) where
    stopped :
        (n' i' : ℕ)
        → All F.IsOpen ss
        → Stopped (F.contents s) n 0 n' i'
        → HasConsumed (s ∷ ss) n false (F.seek i' n' s ∷ ss)
    unfolding bytes
    stopped n' i' opens o = record {
      all = ground (arith, o.few, length-append (concat (F.contents s)) (bytes ss));
      rest =
          ap (λ (b : List ℕ). b ++ bytes ss)
            (ap concat (laws.seek_lem i' n' s is_open in_range in_fragment)
              ∙ ap (λ (k : ℕ). concat (from_position k n' (F.contents s))) at
              ∙ o.rest)
          ∙ sym (drop-append_inside n (concat (F.contents s)) (bytes ss) (omega (arith, o.few)));
      opened = (laws.IsOpen-seek i' n' s is_open in_range in_fragment, opens);
      streams = refl;
    }
      where
        at : i' ≡ o.skipped
        at = omega (arith, o.index)

        in_range : i' < F.num_fragments s
        in_range = omega (arith, at, o.inside, laws.num_fragments_lem s is_open)

        in_fragment : n' < length (get_or (F.contents s) i' [])
        in_fragment = rw at o.position

    passed :
        (n' : ℕ) (r : Bool) (ss' : List S)
        → Passed (F.contents s) n n'
        → HasConsumed ss n' r ss'
        → HasConsumed (s ∷ ss) n r (F.clear s ∷ ss')
    unfolding bytes concat
    passed n' r ss' o h = record {
      all =
          h.all
          ∙ ground (arith, o.left, o.enough, length-append (concat (F.contents s)) (bytes ss));
      rest =
          ap (λ (x : List Fragment). concat x ++ bytes ss') (laws.clear_lem s is_open)
          ∙ h.rest
          ∙ ap (λ (k : ℕ). drop k (bytes ss)) o.left
          ∙ sym (drop-append_behind n (concat (F.contents s)) (bytes ss) o.enough);
      opened = (laws.IsOpen-clear s is_open, h.opened);
      streams = ap suc h.streams;
    }

  finish :
      (laws : IsLawful F) (s : S) (ss : List S) (n : ℕ) (r : Bool × (ℕ × ℕ))
      (behind : ℕ → Bool × List S)
      → F.IsOpen s
      → All F.IsOpen ss
      → Outcome (F.contents s) n 0 r
      → ((m : ℕ) → HasConsumed ss m (behind m).0 (behind m).1)
      → let (all, ss') = seek_or_clear F s ss r behind in HasConsumed (s ∷ ss) n all ss'
  finish laws s ss n (false, (n', i')) behind is_open opens o h =
      stopped laws s ss n is_open n' i' opens o
  finish laws s ss n (true, (n', i')) behind is_open opens o h =
      passed laws s ss n is_open n' _ _ o (h n')

  -- `Consume` of `n` bytes takes exactly the first `n` bytes off the streams, through the seeks that
  -- the interface allows, and returns whether that was all of them.
  pub consume_lem :
      (laws : IsLawful F) (ss : List S) (n : ℕ)
      → All F.IsOpen ss
      → let (all, ss') = consume F ss n in HasConsumed ss n all ss'
  unfolding consume bytes
  consume_lem laws [] n opens = record {
    all = ground arith;
    rest = sym (drop-nil n);
    opened = tt;
    streams = refl;
  }
  consume_lem laws (s ∷ ss) n (is_open, opens) =
      finish laws s ss n _ (consume F ss) is_open opens
        (rw (laws.for_each_lem _ consume_fragment s (n, 0) is_open)
          (visit-consume_fragment (F.contents s) n 0))
        (λ m. consume_lem laws ss m opens)
