-- ===== src/CircularBuffer/Invariant/Publish.antt =====
-- Advancing `head_` in `Add` of src/common/circular_buffer.h keeps the invariant.
use lightstep_tracer_cpp.Base.{
  ℕ, ◌+◌, ◌-◌, ◌%◌, ◌≤◌, ◌<◌, ◌≡◌, ◌≢◌, sym, ◌∙◌, arith, some, List, [], ◌∷◌, ◌++◌, length-append,
  get_elem?,
}
use lightstep_tracer_cpp.CircularBuffer.{Shared, Pc, swapped, added, set_producer, to_list}
use lightstep_tracer_cpp.CircularBuffer.Invariant.{
  Held, Core, Local, owns, Free, Threads, at_producer,
}
use native.Mathlib.Decide.{dec_lt}
use native.Mathlib.Nat.{add-mod_right}
use lightstep_tracer_cpp.CircularBuffer.Invariant.Positions.{
  get_elem?-append_left, get_elem?-append_last, take-append_left,
}

module _ {T : Type 0} (s : Shared T) (cleared : ℕ) (history taken : List T)
    (c : Core s cleared history taken) where
  -- The compare-exchange on `head_` succeeds for thread `i`.
  module _ (ps : ℕ → Pc T) (i t h : ℕ) (th : Threads s cleared ps) (at_cas : ps i ≡ swapped t h)
      (fresh : s.head ≡ h) where
    mine : owns s.capacity (ps i) ≡ some (h % s.capacity)
    mine = rw at_cas

    abbrev pub grown : List T
    grown = history ++ to_list (s.slots (h % s.capacity))

    grown_lem : (x : T) × (s.slots (h % s.capacity) ≡ some x) × (grown ≡ history ++ (x ∷ []))
    grown_lem = let (x, e) = th.held i _ mine in (x, e, rw e)

    span_now : h + 1 ≤ cleared + s.capacity
    span_now = elim (dec_lt h (cleared + s.capacity)) [
      | yes p ↦ omega arith
      | no n ↦ absurd (
          th.free i _ mine cleared (omega arith) (omega (arith, c.span, c.positive, fresh))
            (turn (omega (arith, c.span, fresh))))
    ]
      where
        turn : h ≡ cleared + s.capacity → cleared % s.capacity ≡ h % s.capacity
        turn e = rw e (sym (add-mod_right cleared s.capacity))

    stored_now : (p : ℕ) → cleared ≤ p → p < h + 1 → s.slots (p % s.capacity) ≡ get_elem? grown p
    stored_now p lo hi =
        let (x, e, g) = grown_lem in
        rw g (elim (dec_lt p h) [
          | yes q ↦
              c.stored p lo (omega arith)
              ∙ sym (get_elem?-append_left history (x ∷ []) p (omega (arith, c.count)))
          | no q ↦ last p x (omega arith) e
        ])
      where
        last :
            (p : ℕ) (x : T)
            → p ≡ h
            → s.slots (h % s.capacity) ≡ some x
            → s.slots (p % s.capacity) ≡ get_elem? (history ++ (x ∷ [])) p
        last p x q e = rw (q, e, ← fresh, ← c.count) (sym (get_elem?-append_last history x))

    pub publish-Core : Core (record s { head = h + 1 }) cleared grown taken
    publish-Core = record {
      positive = c.positive;
      cleared_le = c.cleared_le;
      tail_le = omega (arith, c.tail_le, fresh);
      room = room_now (rw at_cas at (th.locals i));
      span = span_now;
      count =
          let (x, e, g) = grown_lem in
          rw g (omega (arith, length-append history (x ∷ []), c.count, fresh));
      stored = stored_now;
      prefix =
          c.prefix
          ∙ sym (
              take-append_left cleared history _ (omega (arith, c.count, c.cleared_le, c.tail_le)));
    }
      where
        room_now : (t ≤ s.tail) × (h < t + (s.capacity - 1)) → h + 1 ≤ s.tail + (s.capacity - 1)
        room_now l = omega arith

    others-Free :
        (j k : ℕ)
        → j ≢ i
        → owns s.capacity (ps j) ≡ some k
        → Free (record s { head = h + 1 }) cleared k
    others-Free j k ne e p lo hi = elim (dec_lt p h) [
      | yes q ↦ th.free j k e p lo (omega arith)
      | no q ↦ λ r. ne (th.disjoint j i k e (owner (omega arith) r))
    ]
      where
        owner : p ≡ h → p % s.capacity ≡ k → owns s.capacity (ps i) ≡ some k
        owner q r = mine ∙ rw (← q, r)

    pub publish-Threads : Threads (record s { head = h + 1 }) cleared (set_producer i added ps)
    publish-Threads = record {
      locals = λ j. at_producer (Local s) i j _ ps (λ _. tt) (λ _. th.locals j);
      held = λ j k.
          at_producer (λ q. owns s.capacity q ≡ some k → Held (s.slots k)) i j _ ps (λ _ e. cc)
            (λ _. th.held j k);
      free = λ j k.
          at_producer (λ q. owns s.capacity q ≡ some k → Free (record s { head = h + 1 }) cleared k)
            i j _ ps (λ _ e. cc) (λ ne. others-Free j k ne);
      disjoint = λ j j' k.
          at_producer
            (λ q.
              owns s.capacity q ≡ some k
              → owns s.capacity (set_producer i added ps j') ≡ some k
              → j ≡ j')
            i j _ ps (λ _ e. cc)
            (λ _ e.
              at_producer (λ q. owns s.capacity q ≡ some k → j ≡ j') i j' _ ps (λ _ e'. cc)
                (λ _ e'. th.disjoint j j' k e e'));
    }
