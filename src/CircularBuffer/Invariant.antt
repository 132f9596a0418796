-- ===== src/CircularBuffer/Invariant.antt =====
-- The invariant of the buffer of src/common/circular_buffer.h under every interleaving.
use lightstep_tracer_cpp.Base.{
  ℕ, ◌+◌, ◌-◌, ◌%◌, ◌≤◌, ◌<◌, ◌≡◌, ◌≢◌, sym, ◌∙◌, arith, false, Option, none, some, List, ==_iff,
  ◌==◌, length, get_elem?, take,
}
use lightstep_tracer_cpp.CircularBuffer.{
  Shared, exchange, Pc, start, have_tail, have_head, swapped, undo, added, full, set_producer,
}
use native.Mathlib.Decide.{ℕ_discrete}
pub mod Positions
pub mod Moves
pub mod Publish
pub mod Consume

module _ {T : Type 0} where
  abbrev pub Held : Option T → Type 0
  Held o = (x : T) × (o ≡ some x)

  -- The counters, and the positions that the consumer has not emptied yet: each holds what was added
  -- there, and what the consumer has got is all that was added before them.
  pub record Core (s : Shared T) (cleared : ℕ) (history taken : List T) : Type 0 where
    pub positive : 0 < s.capacity
    pub cleared_le : cleared ≤ s.tail
    pub tail_le : s.tail ≤ s.head
    pub room : s.head ≤ s.tail + (s.capacity - 1)
    pub span : s.head ≤ cleared + s.capacity
    pub count : length history ≡ s.head
    pub stored : (p : ℕ) → cleared ≤ p → p < s.head → s.slots (p % s.capacity) ≡ get_elem? history p
    pub prefix : taken ≡ take cleared history

  -- What a thread knows from the counters that it has read, and the element that it still owns.
  abbrev pub Local : Shared T → Pc T → Type 0
  Local s (start o) = Held o
  Local s (have_tail o t) = Held o × (t ≤ s.tail)
  Local s (have_head o t h) = Held o × (t ≤ s.tail) × (t ≤ h)
  Local s (swapped t h) = (t ≤ s.tail) × (h < t + (s.capacity - 1))
  Local s (undo h) = Unit
  Local s added = Unit
  Local s (full o) = Held o

  -- The slot that a thread has put its element into without having published it.
  abbrev pub owns : ℕ → Pc T → Option ℕ
  owns modulus (swapped t h) = some (h % modulus)
  owns modulus (undo h) = some (h % modulus)
  owns modulus _ = none

  -- No position that is still to be emptied uses the slot.
  abbrev pub Free : Shared T → ℕ → ℕ → Type 0
  Free s cleared k = (p : ℕ) → cleared ≤ p → p < s.head → p % s.capacity ≢ k

  pub record Threads (s : Shared T) (cleared : ℕ) (ps : ℕ → Pc T) : Type 0 where
    pub locals : (i : ℕ) → Local s (ps i)
    pub held : (i k : ℕ) → owns s.capacity (ps i) ≡ some k → Held (s.slots k)
    pub free : (i k : ℕ) → owns s.capacity (ps i) ≡ some k → Free s cleared k
    pub disjoint :
        (i j k : ℕ) → owns s.capacity (ps i) ≡ some k → owns s.capacity (ps j) ≡ some k → i ≡ j

  pub at_producer {ℓ} :
      (P : Pc T → Type ℓ) (i j : ℕ) (pc : Pc T) (ps : ℕ → Pc T)
      → (j ≡ i → P pc)
      → (j ≢ i → P (ps j))
      → P (set_producer i pc ps j)
  at_producer P i j pc ps same other = elim (ℕ_discrete j i) [
    | yes e ↦ rw ((==_iff j i).1 e) (same e)
    | no ne ↦ rw (differs ne) (other ne)
  ]
    where
      differs : j ≢ i → (j == i) ≡ false
      differs ne = ground arith

  pub at_slot {ℓ} :
      (P : Option T → Type ℓ) (i j : ℕ) (o : Option T) (s : Shared T)
      → (j ≡ i → P o)
      → (j ≢ i → P (s.slots j))
      → P ((exchange i o s).slots j)
  unfolding exchange
  at_slot P i j o s same other = elim (ℕ_discrete j i) [
    | yes e ↦ rw ((==_iff j i).1 e) (same e)
    | no ne ↦ rw (differs ne) (other ne)
  ]
    where
      differs : j ≢ i → (j == i) ≡ false
      differs ne = ground arith

  -- A step that touches no shared state and no slot of its own.
  pub quiet :
      (s : Shared T) (cleared : ℕ) (ps : ℕ → Pc T) (i : ℕ) (pc : Pc T)
      → Threads s cleared ps
      → Local s pc
      → owns s.capacity pc ≡ none
      → Threads s cleared (set_producer i pc ps)
  quiet s cleared ps i pc t l e = record {
    locals = λ j. at_producer (Local s) i j pc ps (λ _. l) (λ _. t.locals j);
    held = λ j k.
        at_producer (λ q. owns s.capacity q ≡ some k → Held (s.slots k)) i j pc ps (λ _ o. cc)
          (λ _. t.held j k);
    free = λ j k.
        at_producer (λ q. owns s.capacity q ≡ some k → Free s cleared k) i j pc ps (λ _ o. cc)
          (λ _. t.free j k);
    disjoint = λ j j' k.
        at_producer
          (λ q.
            owns s.capacity q ≡ some k
            → owns s.capacity (set_producer i pc ps j') ≡ some k
            → j ≡ j')
          i j pc ps (λ _ o. cc)
          (λ _.
            at_producer (λ q. owns s.capacity (ps j) ≡ some k → owns s.capacity q ≡ some k → j ≡ j')
              i j' pc ps (λ _ o o'. cc) (λ _. t.disjoint j j' k));
  }

  -- A step after which the thread owns what it owned before.
  pub keep :
      (s : Shared T) (cleared : ℕ) (ps : ℕ → Pc T) (i : ℕ) (pc : Pc T)
      → Threads s cleared ps
      → Local s pc
      → owns s.capacity pc ≡ owns s.capacity (ps i)
      → Threads s cleared (set_producer i pc ps)
  keep s cleared ps i pc t l e = record {
    locals = λ j. at_producer (Local s) i j pc ps (λ _. l) (λ _. t.locals j);
    held = λ j k.
        at_producer (λ q. owns s.capacity q ≡ some k → Held (s.slots k)) i j pc ps
          (λ _ o. t.held i k (sym e ∙ o)) (λ _. t.held j k);
    free = λ j k.
        at_producer (λ q. owns s.capacity q ≡ some k → Free s cleared k) i j pc ps
          (λ _ o. t.free i k (sym e ∙ o)) (λ _. t.free j k);
    disjoint = λ j j' k.
        at_producer
          (λ q.
            owns s.capacity q ≡ some k
            → owns s.capacity (set_producer i pc ps j') ≡ some k
            → j ≡ j')
          i j pc ps
          (λ ji o.
            at_producer (λ q. owns s.capacity q ≡ some k → j ≡ j') i j' pc ps
              (λ ji' _. ji ∙ sym ji') (λ _ o'. ji ∙ t.disjoint i j' k (sym e ∙ o) o'))
          (λ _ o.
            at_producer (λ q. owns s.capacity q ≡ some k → j ≡ j') i j' pc ps
              (λ ji' o'. t.disjoint j i k o (sym e ∙ o') ∙ sym ji')
              (λ _ o'. t.disjoint j j' k o o'));
  }
