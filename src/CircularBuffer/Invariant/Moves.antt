-- ===== src/CircularBuffer/Invariant/Moves.antt =====
-- Putting an element into a slot and taking it out again (`SwapIfNull` and `Swap` in `Add` of
-- src/common/circular_buffer.h) keep the invariant.
use lightstep_tracer_cpp.Base.{
  ℕ, ◌+◌, ◌-◌, ◌%◌, ◌≤◌, ◌<◌, ◌≡◌, sym, ◌∙◌, arith, Option, none, some, List, get_elem?,
}
use lightstep_tracer_cpp.CircularBuffer.{Shared, exchange, Pc, start, swapped, undo, set_producer}
use lightstep_tracer_cpp.CircularBuffer.Invariant.{
  Held, Core, Local, owns, Free, Threads, at_producer, at_slot,
}
use mathlib.Core.Path.{subst}
use lightstep_tracer_cpp.CircularBuffer.Invariant.Positions.{get_elem?-lt}

module _ {T : Type 0} (s : Shared T) (cleared : ℕ) (history taken : List T)
    (c : Core s cleared history taken) where
  stored-Held : (p : ℕ) → cleared ≤ p → p < s.head → Held (s.slots (p % s.capacity))
  stored-Held p lo hi =
      let (x, e) = get_elem?-lt history p (omega (arith, c.count)) in (x, c.stored p lo hi ∙ e)

  -- An empty slot belongs to no position that is still to be emptied.
  pub Free-of_null : (k : ℕ) → s.slots k ≡ none → Free s cleared k
  Free-of_null k e p lo hi q = let (x, h) = stored-Held p lo hi in absurd_null (rw q at h)
    where
      absurd_null : {x : T} → s.slots k ≡ some x → ⊥
      absurd_null h = cc

  -- `SwapIfNull` succeeds on the slot `k`.
  pub grab-Core :
      (k : ℕ) (o : Option T) → Free s cleared k → Core (exchange k o s) cleared history taken
  unfolding exchange
  grab-Core k o free = record {
    positive = c.positive;
    cleared_le = c.cleared_le;
    tail_le = c.tail_le;
    room = c.room;
    span = c.span;
    count = c.count;
    stored = λ p lo hi.
        at_slot (λ o'. o' ≡ get_elem? history p) k (p % s.capacity) o s
          (λ e. absurd (free p lo hi e)) (λ _. c.stored p lo hi);
    prefix = c.prefix;
  }

  pub grab-Threads :
      (ps : ℕ → Pc T) (i t h : ℕ) (o : Option T)
      → Threads s cleared ps
      → Held o
      → s.slots (h % s.capacity) ≡ none
      → t ≤ s.tail
      → h < t + (s.capacity - 1)
      → Threads (exchange (h % s.capacity) o s) cleared (set_producer i (swapped t h) ps)
  unfolding exchange
  grab-Threads ps i t h o th ho null ht hh = record {
    locals = λ j. at_producer (Local s) i j _ ps (λ _. (ht, hh)) (λ _. th.locals j);
    held = λ j k'.
        at_producer (λ q. owns s.capacity q ≡ some k' → Held ((exchange k o s).slots k')) i j _ ps
          (λ _ e. at_slot Held k k' o s (λ _. ho) (λ ne. absurd (ne (ground arith))))
          (λ _ e. at_slot Held k k' o s (λ _. ho) (λ _. th.held j k' e));
    free = λ j k'.
        at_producer (λ q. owns s.capacity q ≡ some k' → Free s cleared k') i j _ ps
          (λ _ e. subst (Free s cleared) (some_injective e) (Free-of_null k null))
          (λ _. th.free j k');
    disjoint = λ j j' k'.
        at_producer
          (λ q.
            owns s.capacity q ≡ some k'
            → owns s.capacity (set_producer i (swapped t h) ps j') ≡ some k'
            → j ≡ j')
          i j _ ps
          (λ ji e.
            at_producer (λ q. owns s.capacity q ≡ some k' → j ≡ j') i j' _ ps
              (λ ji' _. ji ∙ sym ji') (λ _ e'. absurd (nobody j' k' e' (some_injective e))))
          (λ _ e.
            at_producer (λ q. owns s.capacity q ≡ some k' → j ≡ j') i j' _ ps
              (λ _ e'. absurd (nobody j k' e (some_injective e')))
              (λ _ e'. th.disjoint j j' k' e e'));
  }
    where
      k : ℕ
      k = h % s.capacity

      some_injective : {a b : ℕ} → some a ≡ some b → a ≡ b
      some_injective e = cc

      nobody : (j k' : ℕ) → owns s.capacity (ps j) ≡ some k' → k ≡ k' → ⊥
      nobody j k' e q = let (x, hx) = th.held j k' e in cc

  -- `Swap` takes the element of thread `i` out of its slot again.
  pub undo-Threads :
      (ps : ℕ → Pc T) (i h : ℕ)
      → Threads s cleared ps
      → ps i ≡ undo h
      → Threads
          (exchange (h % s.capacity) none s)
          cleared
          (set_producer i (start (s.slots (h % s.capacity))) ps)
  unfolding exchange
  undo-Threads ps i h th e = record {
    locals = λ j. at_producer (Local s) i j _ ps (λ _. th.held i k mine) (λ _. th.locals j);
    held = λ j k'.
        at_producer (λ q. owns s.capacity q ≡ some k' → Held ((exchange k none s).slots k')) i j _
          ps (λ _ o. cc)
          (λ ne o.
            at_slot Held k k' none s (λ same. absurd (ne (th.disjoint j i k' o (mine ∙ rw same))))
              (λ _. th.held j k' o));
    free = λ j k'.
        at_producer (λ q. owns s.capacity q ≡ some k' → Free s cleared k') i j _ ps (λ _ o. cc)
          (λ _. th.free j k');
    disjoint = λ j j' k'.
        at_producer
          (λ q.
            owns s.capacity q ≡ some k'
            → owns s.capacity (set_producer i (start (s.slots k)) ps j') ≡ some k'
            → j ≡ j')
          i j _ ps (λ _ o. cc)
          (λ _ o.
            at_producer (λ q. owns s.capacity q ≡ some k' → j ≡ j') i j' _ ps (λ _ o'. cc)
              (λ _ o'. th.disjoint j j' k' o o'));
  }
    where
      k : ℕ
      k = h % s.capacity

      mine : owns s.capacity (ps i) ≡ some k
      mine = rw e

  pub undo-Core :
      (ps : ℕ → Pc T) (i h : ℕ)
      → Threads s cleared ps
      → ps i ≡ undo h
      → Core (exchange (h % s.capacity) none s) cleared history taken
  undo-Core ps i h th e = grab-Core (h % s.capacity) none (th.free i _ (rw e))
