-- ===== src/CircularBuffer/Invariant/Consume.antt =====
-- `Consume` of src/common/circular_buffer.h keeps the invariant: the advance of `tail_`, and each slot
-- that the callback empties.
use lightstep_tracer_cpp.Base.{
  ℕ, ◌+◌, ◌-◌, ◌%◌, ◌≤◌, ◌<◌, ◌≡◌, sym, ap, arith, none, List, [], ◌∷◌, ◌++◌, get_elem?, take,
}
use lightstep_tracer_cpp.CircularBuffer.{
  Shared, exchange, Pc, start, have_tail, have_head, swapped, undo, added, full, to_list,
}
use lightstep_tracer_cpp.CircularBuffer.Invariant.{Held, Core, Local, Threads, at_slot}
use native.Mathlib.Numerals.{add-one}
use lightstep_tracer_cpp.CircularBuffer.Invariant.Positions.{get_elem?-lt, take-suc, mod_differs}

module _ {T : Type 0} (s : Shared T) (cleared : ℕ) (history taken : List T)
    (c : Core s cleared history taken) where
  -- The consumer advances `tail_`.
  pub consume-Core :
      (n : ℕ) → n ≤ s.head - s.tail → Core (record s { tail = s.tail + n }) cleared history taken
  consume-Core n h = record {
    positive = c.positive;
    cleared_le = omega (arith, c.cleared_le);
    tail_le = omega (arith, c.tail_le);
    room = omega (arith, c.room);
    span = c.span;
    count = c.count;
    stored = c.stored;
    prefix = c.prefix;
  }

  Local-later : (pc : Pc T) (n : ℕ) → Local s pc → Local (record s { tail = s.tail + n }) pc
  Local-later (start o) n l = l
  Local-later (have_tail o t) n l = (l.0, omega (arith, l.1))
  Local-later (have_head o t h) n l = (l.0, omega (arith, l.1), l.2)
  Local-later (swapped t h) n l = (omega (arith, l.0), l.1)
  Local-later (undo h) n l = l
  Local-later added n l = l
  Local-later (full o) n l = l

  pub consume-Threads :
      (ps : ℕ → Pc T) (n : ℕ)
      → Threads s cleared ps
      → Threads (record s { tail = s.tail + n }) cleared ps
  consume-Threads ps n th = record {
    locals = λ j. Local-later (ps j) n (th.locals j);
    held = th.held;
    free = th.free;
    disjoint = th.disjoint;
  }

  -- The consumer's callback empties the slot of position `cleared`.
  pub clear-Core :
      cleared < s.tail
      → Core
          (exchange (cleared % s.capacity) none s)
          (cleared + 1)
          history
          (taken ++ to_list (s.slots (cleared % s.capacity)))
  unfolding exchange
  clear-Core lt = record {
    positive = c.positive;
    cleared_le = omega arith;
    tail_le = c.tail_le;
    room = c.room;
    span = omega (arith, c.span);
    count = c.count;
    stored = λ p lo hi.
        at_slot (λ o. o ≡ get_elem? history p) (cleared % s.capacity) (p % s.capacity) none s
          (λ e.
            absurd
              (mod_differs cleared p s.capacity c.positive (omega arith) (omega (arith, c.span)) e))
          (λ _. c.stored p (omega arith) hi);
    prefix = taken_now;
  }
    where
      taken_now : taken ++ to_list (s.slots (cleared % s.capacity)) ≡ take (cleared + 1) history
      taken_now =
          let (x, e) = get_elem?-lt history cleared (omega (arith, c.count, c.tail_le)) in
          rw
            (
              c.stored cleared (omega arith) (omega (arith, c.tail_le)),
              e,
              add-one,
              take-suc cleared history x e,
            )
            (ap (λ l. l ++ (x ∷ [])) c.prefix)

  pub clear-Threads :
      (ps : ℕ → Pc T)
      → cleared < s.tail
      → Threads s cleared ps
      → Threads (exchange (cleared % s.capacity) none s) (cleared + 1) ps
  unfolding exchange
  clear-Threads ps lt th = record {
    locals = th.locals;
    held = λ j k e.
        at_slot Held (cleared % s.capacity) k none s
          (λ same.
            absurd (th.free j k e cleared (omega arith) (omega (arith, c.tail_le)) (sym same)))
          (λ _. th.held j k e);
    free = λ j k e p lo hi. th.free j k e p (omega arith) hi;
    disjoint = th.disjoint;
  }
