-- ===== src/CircularBuffer/Safety.antt =====
-- What holds of the buffer of src/common/circular_buffer.h in every state that any interleaving of
-- producers and the consumer reaches.
use lightstep_tracer_cpp.Base.{
  ℕ, ◌+◌, ◌-◌, ◌%◌, ◌≤◌, ◌<◌, ◌≡◌, ◌≢◌, refl, ◌∙◌, arith, Bool, true, not, ◌&&◌, Option, none, some,
  List, [], ◌++◌, append-nil, ◌==◌, leb, length, get_elem?, take, inl, inr, Bool-cases,
}
use lightstep_tracer_cpp.CircularBuffer.{
  Shared, exchange, Pc, start, have_tail, have_head, swapped, undo, added, full, set_producer,
  to_list, is_null, add_step, published, World, produce, begin_consume, clear_one, Step, call,
  produce_step, consume, clear, Reach, here, next, initial,
}
use lightstep_tracer_cpp.CircularBuffer.Invariant.{Held, Core, Local, owns, Threads, quiet, keep}
use lightstep_tracer_cpp.CircularBuffer.Invariant.Moves.{
  Free-of_null, grab-Core, grab-Threads, undo-Core, undo-Threads,
}
use lightstep_tracer_cpp.CircularBuffer.Invariant.Publish.{publish-Core, publish-Threads}
use lightstep_tracer_cpp.CircularBuffer.Invariant.Consume.{
  consume-Core, consume-Threads, clear-Core, clear-Threads,
}

module _ {T : Type 0} where
  pub record Parts (s : Shared T) (ps : ℕ → Pc T) (cleared : ℕ) (history taken : List T)
      : Type 0 where
    pub core : Core s cleared history taken
    pub threads : Threads s cleared ps

  abbrev pub IsValid : World T → Type 0
  IsValid w = Parts w.shared w.producers w.cleared w.history w.taken

  module _ (s : Shared T) (ps : ℕ → Pc T) (cleared : ℕ) (history taken : List T)
      (v : Parts s ps cleared history taken) (i : ℕ) where
    -- A thread that moves on without touching shared state.
    move :
        (pc : Pc T)
        → Local s pc
        → owns s.capacity pc ≡ none
        → Parts s (set_producer i pc ps) cleared (history ++ []) taken
    move pc l o = record {
      core = rw append-nil (v.core);
      threads = quiet s cleared ps i pc v.threads l o;
    }

    at_head :
        (spurious : Bool) (o : Option T) (t h : ℕ)
        → Local s (have_head o t h)
        → let (s', pc') = add_step spurious s (have_head o t h) in
          Parts s' (set_producer i pc' ps) cleared (history ++ []) taken
    unfolding add_step
    at_head spurious o t h l = elim (Bool-cases (leb (s.capacity - 1) (h - t))) [
      | inl e ↦ rw e (move (full o) l.0 refl)
      | inr e ↦ elim (Bool-cases (not spurious && is_null (s.slots (h % s.capacity)))) [
        | inl f ↦ rw (e, f) (grabbed (null_of (s.slots (h % s.capacity)) spurious f) (ground arith))
        | inr f ↦ rw (e, f) (move (start o) l.0 refl)
      ]
    ]
      where
        null_of : (q : Option T) (sp : Bool) → (not sp && is_null q) ≡ true → q ≡ none
        null_of none sp e = refl
        null_of (some x) sp e = ground arith

        grabbed :
            s.slots (h % s.capacity) ≡ none
            → h < t + (s.capacity - 1)
            → Parts
                (exchange (h % s.capacity) o s)
                (set_producer i (swapped t h) ps)
                cleared
                (history ++ [])
                taken
        grabbed null lt = record {
          core = rw append-nil (
              grab-Core s cleared history taken v.core (h % s.capacity) o
                (Free-of_null s cleared history taken v.core _ null));
          threads =
              grab-Threads s cleared history taken v.core ps i t h o v.threads l.0 null (l.1) lt;
        }

    at_cas :
        (spurious : Bool) (t h : ℕ)
        → ps i ≡ swapped t h
        → let (s', pc') = add_step spurious s (swapped t h) in
          Parts s' (set_producer i pc' ps) cleared (history ++ published s (swapped t h) pc') taken
    unfolding add_step
    at_cas spurious t h e = elim (Bool-cases (not spurious && s.head == h)) [
      | inl f ↦ rw f (won (ground arith))
      | inr f ↦ rw f lost
    ]
      where
        won :
            s.head ≡ h
            → Parts
                (record s { head = h + 1 })
                (set_producer i added ps)
                cleared
                (history ++ to_list (s.slots (h % s.capacity)))
                taken
        won g = record {
          core = publish-Core s cleared history taken v.core ps i t h v.threads e g;
          threads = publish-Threads s cleared history taken v.core ps i t h v.threads e g;
        }

        lost : Parts s (set_producer i (undo h) ps) cleared (history ++ []) taken
        lost = record {
          core = rw append-nil (v.core);
          threads = keep s cleared ps i (undo h) v.threads tt (rw e);
        }

    -- Any access of thread `i`, wherever its call of `Add` stands.
    produce-Parts :
        (spurious : Bool) (pc : Pc T)
        → ps i ≡ pc
        → let (s', pc') = add_step spurious s pc in
          Parts s' (set_producer i pc' ps) cleared (history ++ published s pc pc') taken
    produce-Parts spurious (start o) e =
        unfold add_step in
        move (have_tail o s.tail) (rw e at (v.threads.locals i), omega arith) refl
    produce-Parts spurious (have_tail o t) e =
        let l = rw e at (v.threads.locals i) in
        unfold add_step in
        move (have_head o t s.head) (l.0, l.1, omega (arith, l.1, v.core.tail_le)) refl
    produce-Parts spurious (have_head o t h) e =
        at_head spurious o t h (rw e at (v.threads.locals i))
    produce-Parts spurious (swapped t h) e = at_cas spurious t h e
    produce-Parts spurious (undo h) e =
        unfold add_step in
        record {
          core = rw append-nil (undo-Core s cleared history taken v.core ps i h v.threads e);
          threads = undo-Threads s cleared history taken v.core ps i h v.threads e;
        }
    produce-Parts spurious added e = unfold add_step in move added tt refl
    produce-Parts spurious (full o) e =
        unfold add_step in move (full o) (rw e at (v.threads.locals i)) refl

  -- Every step of every thread keeps the invariant.
  pub Step-IsValid : {v w : World T} → Step v w → IsValid v → IsValid w
  Step-IsValid (call w i x _) v = record {
    core = v.core;
    threads = quiet _ _ _ i (start (some x)) v.threads (x, refl) refl;
  }
  Step-IsValid (produce_step w spurious i) v =
      unfold produce in produce-Parts _ _ _ _ _ v i spurious (w.producers i) refl
  Step-IsValid (consume w n e h) v =
      unfold begin_consume in
      record {
        core = consume-Core _ _ _ _ v.core n h;
        threads = consume-Threads _ _ _ _ v.core _ n v.threads;
      }
  Step-IsValid (clear w h) v =
      unfold clear_one in
      record {
        core = clear-Core _ _ _ _ v.core h;
        threads = clear-Threads _ _ _ _ v.core _ h v.threads;
      }

  -- A new buffer satisfies the invariant.
  pub initial-IsValid : (n : ℕ) → IsValid (initial n)
  unfolding initial
  initial-IsValid n = record {
    core = record {
      positive = omega arith;
      cleared_le = omega arith;
      tail_le = omega arith;
      room = omega arith;
      span = omega arith;
      count = refl;
      stored = λ p lo hi. absurd (omega arith);
      prefix = refl;
    };
    threads = record {
      locals = λ i. tt;
      held = λ i k e. cc;
      free = λ i k e. cc;
      disjoint = λ i j k e. cc;
    };
  }

  pub Reach-IsValid : {v w : World T} → Reach v w → IsValid v → IsValid w
  Reach-IsValid here v = v
  Reach-IsValid (next r st) v = Step-IsValid st (Reach-IsValid r v)

  capacity-add_step :
      (spurious : Bool) (s : Shared T) (pc : Pc T)
      → (add_step spurious s pc).0.capacity ≡ s.capacity
  unfolding add_step
  capacity-add_step spurious s (have_head o t h) = ground arith
  capacity-add_step spurious s (swapped t h) = ground arith
  capacity-add_step spurious s pc = refl

  capacity-Step : {v w : World T} → Step v w → w.shared.capacity ≡ v.shared.capacity
  unfolding begin_consume clear_one produce
  capacity-Step (call w i x _) = refl
  capacity-Step (produce_step w spurious i) = capacity-add_step spurious w.shared (w.producers i)
  capacity-Step (consume w n e h) = refl
  capacity-Step (clear w h) = refl

  capacity-Reach : {v w : World T} → Reach v w → w.shared.capacity ≡ v.shared.capacity
  capacity-Reach here = refl
  capacity-Reach (next r st) = capacity-Step st ∙ capacity-Reach r

  -- From a new buffer of size `n`, under every interleaving of producers and the consumer: what the
  -- consumer has got is, in order and without a gap, what was added first, as many elements were added
  -- as `head_` counts, and there are never more than `n` between `tail_` and `head_`.
  pub Reach-fifo :
      (n : ℕ) {w : World T}
      → Reach (initial n) w
      → (w.taken ≡ take w.cleared w.history)
        × (length w.history ≡ w.shared.head)
        × (w.cleared ≤ w.shared.tail)
        × (w.shared.tail ≤ w.shared.head)
        × (w.shared.head ≤ w.shared.tail + n)
  unfolding initial
  Reach-fifo n r =
      let v = Reach-IsValid r (initial-IsValid n) in
      (
        v.core.prefix,
        v.core.count,
        v.core.cleared_le,
        v.core.tail_le,
        omega (arith, v.core.room, capacity-Reach r),
      )

  -- Each element that was added and that the consumer has not got yet stands in the slot of its
  -- position.
  pub Reach-stored :
      (n p : ℕ) {w : World T}
      → Reach (initial n) w
      → w.cleared ≤ p
      → p < w.shared.head
      → w.shared.slots (p % w.shared.capacity) ≡ get_elem? w.history p
  Reach-stored n p r lo hi = (Reach-IsValid r (initial-IsValid n)).core.stored p lo hi

  -- Between its two compare-exchanges a call of `Add` owns its slot alone: the slot holds an element,
  -- and no other call has put one there.
  pub Reach-exclusive :
      (n i j k : ℕ) {w : World T}
      → Reach (initial n) w
      → owns w.shared.capacity (w.producers i) ≡ some k
      → owns w.shared.capacity (w.producers j) ≡ some k
      → (i ≡ j) × Held (w.shared.slots k)
  Reach-exclusive n i j k r e f =
      let v = Reach-IsValid r (initial-IsValid n) in
      (v.threads.disjoint i j k e f, v.threads.held i k e)

  -- The consumer reads no slot that a call of `Add` has filled and not published.
  pub Reach-unread :
      (n i k p : ℕ) {w : World T}
      → Reach (initial n) w
      → owns w.shared.capacity (w.producers i) ≡ some k
      → w.cleared ≤ p
      → p < w.shared.head
      → p % w.shared.capacity ≢ k
  Reach-unread n i k p r e lo hi = (Reach-IsValid r (initial-IsValid n)).threads.free i k e p lo hi
