-- ===== src/CircularBuffer/Ownership/Places.antt =====
-- Where the element of a call of `Add` of src/common/circular_buffer.h can be, and whose the pointer in a
-- slot can be.
use lightstep_tracer_cpp.Base.{
  ℕ, zero, suc, ◌⊎◌, ◌%◌, ◌≤◌, ◌<◌, ◌≡◌, ◌≢◌, refl, ap, ◌∙◌, Option, some, List, [], ◌∷◌, ◌++◌,
  get_elem?,
}
use lightstep_tracer_cpp.CircularBuffer.{
  Shared, exchange, Pc, start, have_tail, have_head, swapped, undo, added, full,
}
use lightstep_tracer_cpp.CircularBuffer.Invariant.{owns, at_slot}

module _ {T : Type 0} where
  -- Where the element `e` of a call is that stands at a program counter: with the call, in its slot, or,
  -- once it has been added, in the history.
  abbrev pub IsAt : Shared T → List T → Option T → Pc T → Type 0
  IsAt s history e (start o) = o ≡ e
  IsAt s history e (have_tail o t) = o ≡ e
  IsAt s history e (have_head o t h) = o ≡ e
  IsAt s history e (swapped t h) = s.slots (h % s.capacity) ≡ e
  IsAt s history e (undo h) = s.slots (h % s.capacity) ≡ e
  IsAt s history e added = (x : T) → e ≡ some x → (p : ℕ) × (get_elem? history p ≡ some x)
  IsAt s history e (full o) = o ≡ e

  -- The slot belongs to a call of `Add`, or to a position that the consumer has not emptied.
  abbrev pub HasOwner : Shared T → (ℕ → Pc T) → ℕ → ℕ → Type 0
  HasOwner s ps cleared k =
      ((i : ℕ) × (owns s.capacity (ps i) ≡ some k))
      ⊎ ((p : ℕ) × (cleared ≤ p) × (p < s.head) × (p % s.capacity ≡ k))

  pub record Owners (s : Shared T) (ps : ℕ → Pc T) (cleared : ℕ) (history : List T)
      (e : ℕ → Option T) : Type 0 where
    pub places : (j : ℕ) → IsAt s history (e j) (ps j)
    pub owners : (k : ℕ) (x : T) → s.slots k ≡ some x → HasOwner s ps cleared k

  get_elem?-append_some :
      (xs ys : List T) (p : ℕ) (x : T) → get_elem? xs p ≡ some x → get_elem? (xs ++ ys) p ≡ some x
  get_elem?-append_some [] ys p x e = absurd (cc)
  get_elem?-append_some (y ∷ xs) ys zero x e = e
  get_elem?-append_some (y ∷ xs) ys (suc p) x e = get_elem?-append_some xs ys p x e

  -- A call whose slot is left alone.
  pub IsAt-later :
      (s s' : Shared T) (history more : List T) (e : Option T) (pc : Pc T)
      → s'.capacity ≡ s.capacity
      → ((k : ℕ) → owns s.capacity pc ≡ some k → s'.slots k ≡ s.slots k)
      → IsAt s history e pc
      → IsAt s' (history ++ more) e pc
  IsAt-later s s' history more e (start o) c f l = l
  IsAt-later s s' history more e (have_tail o t) c f l = l
  IsAt-later s s' history more e (have_head o t h) c f l = l
  IsAt-later s s' history more e (swapped t h) c f l =
      ap (λ (m : ℕ). s'.slots (h % m)) c ∙ (f (h % s.capacity) refl ∙ l)
  IsAt-later s s' history more e (undo h) c f l =
      ap (λ (m : ℕ). s'.slots (h % m)) c ∙ (f (h % s.capacity) refl ∙ l)
  IsAt-later s s' history more e added c f l =
      λ x q. let (p, h) = l x q in (p, get_elem?-append_some history more p x h)
  IsAt-later s s' history more e (full o) c f l = l

  pub exchange-other :
      (i k : ℕ) (o : Option T) (s : Shared T) → k ≢ i → (exchange i o s).slots k ≡ s.slots k
  exchange-other i k o s ne =
      at_slot (λ q. q ≡ s.slots k) i k o s (λ same. absurd (ne same)) (λ _. refl)

  pub exchange-same : (i : ℕ) (o : Option T) (s : Shared T) → (exchange i o s).slots i ≡ o
  exchange-same i o s = at_slot (λ q. q ≡ o) i i o s (λ _. refl) (λ ne. absurd (ne refl))
