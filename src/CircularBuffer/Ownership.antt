-- ===== src/CircularBuffer/Ownership.antt =====
-- Where the element of each call of `Add` of src/common/circular_buffer.h is, and whose the pointer in each
-- slot is.
use lightstep_tracer_cpp.Base.{
  ℕ, ◌+◌, ◌-◌, ◌%◌, ◌≤◌, ◌<◌, ◌≡◌, ◌≢◌, refl, ap, sym, ◌∙◌, arith, Bool, true, false, ◌==◌, Option,
  none, some, List, [], if◌then◌else◌, inl, inr, ==_iff, append-nil,
}
use mathlib.Core.Path.{subst}
use native.Mathlib.Decide.{ℕ_discrete}
use lightstep_tracer_cpp.CircularBuffer.{
  finished, Shared, exchange, Pc, start, have_tail, have_head, swapped, undo, added, full,
  set_producer, World, produce, begin_consume, clear_one, call, produce_step, consume, clear, Reach,
  here, next, initial,
}
use lightstep_tracer_cpp.CircularBuffer.Invariant.{owns, at_producer, at_slot}
use lightstep_tracer_cpp.CircularBuffer.Safety.{IsValid, Reach-IsValid, initial-IsValid}
use lightstep_tracer_cpp.CircularBuffer.Ownership.Places.{
  IsAt, HasOwner, Owners, IsAt-later, exchange-other,
}
use lightstep_tracer_cpp.CircularBuffer.Ownership.Calls.{produce-Owners}
pub mod Places
pub mod Calls

module _ {T : Type 0} where
  -- The element of the last call of `Add` of each thread.
  unfoldable pub last_call : {s w : World T} → Reach s w → ℕ → Option T
  last_call here j = none
  last_call (next r (call w i x _)) j =
      let before = last_call r j in if j == i then some x else before
  last_call (next r (produce_step w spurious i)) j = last_call r j
  last_call (next r (consume w n e h)) j = last_call r j
  last_call (next r (clear w h)) j = last_call r j

  abbrev pub HasOwners : World T → (ℕ → Option T) → Type 0
  HasOwners w e = Owners w.shared w.producers w.cleared w.history e

  abbrev called_with : ℕ → T → (ℕ → Option T) → ℕ → Option T
  called_with i x e j = if j == i then some x else e j

  call-HasOwners :
      (w : World T) (i : ℕ) (x : T) (e : ℕ → Option T)
      → finished (w.producers i) ≡ true
      → HasOwners w e
      → HasOwners
          (record w { producers = set_producer i (start (some x)) w.producers })
          (called_with i x e)
  call-HasOwners w i x e f h = record {
    places = λ j. elim (ℕ_discrete j i) [
      | yes same ↦ rw ((==_iff j i).1 same) refl
      | no ne ↦ rw (differs j ne) (h.places j)
    ];
    owners = λ k y q. elim (h.owners k y q) [
      | inl (j, o) ↦ inl (
        j,
        at_producer (λ p. owns w.shared.capacity p ≡ some k) i j (start (some x)) w.producers
            (λ same. absurd (nothing k (w.producers i) f (rw same at o))) (λ _. o),
      )
      | inr p ↦ inr p
    ];
  }
    where
      differs : (j : ℕ) → j ≢ i → (j == i) ≡ false
      differs j ne = ground arith

      nothing : (k : ℕ) (pc : Pc T) → finished pc ≡ true → owns w.shared.capacity pc ≡ some k → ⊥
      nothing k (start o) f q = cc
      nothing k (have_tail o t) f q = cc
      nothing k (have_head o t h) f q = cc
      nothing k (swapped t h) f q = cc
      nothing k (undo h) f q = cc
      nothing k added f q = cc
      nothing k (full o) f q = cc

  IsAt-kept :
      (s s' : Shared T) (history : List T) (e : Option T) (pc : Pc T)
      → s'.capacity ≡ s.capacity
      → ((k : ℕ) → owns s.capacity pc ≡ some k → s'.slots k ≡ s.slots k)
      → IsAt s history e pc
      → IsAt s' history e pc
  IsAt-kept s s' history e pc c f l =
      subst (λ (xs : List T). IsAt s' xs e pc) (append-nil history)
        (IsAt-later s s' history [] e pc c f l)

  consume-HasOwners :
      (w : World T) (n : ℕ) (e : ℕ → Option T) → HasOwners w e → HasOwners (begin_consume n w) e
  unfolding begin_consume
  consume-HasOwners w n e h = record {
    places = λ j.
        IsAt-kept w.shared (record (w.shared) { tail = w.shared.tail + n }) w.history (e j)
          (w.producers j) refl (λ k q. refl) (h.places j);
    owners = h.owners;
  }

  clear-HasOwners :
      (w : World T) (e : ℕ → Option T)
      → w.cleared < w.shared.tail
      → IsValid w
      → HasOwners w e
      → HasOwners (clear_one w) e
  unfolding clear_one exchange
  clear-HasOwners w e lt v h = record {
    places = λ j.
        IsAt-kept w.shared (exchange k none w.shared) w.history (e j) (w.producers j) refl
          (λ k' q. exchange-other k k' none w.shared (λ same.
            v.threads.free j k' q w.cleared (omega arith) (omega (arith, v.core.tail_le))
              (sym same)))
          (h.places j);
    owners = λ k' x.
        at_slot
          (λ q. q ≡ some x → HasOwner (exchange k none w.shared) w.producers (w.cleared + 1) k') k
          k' none w.shared (λ _ q. absurd (cc))
          (λ ne q. elim (h.owners k' x q) [
            | inl o ↦ inl o
            | inr (p, lo, hi, m) ↦ elim (ℕ_discrete w.cleared p) [
              | yes same ↦ absurd (ne (sym m ∙ ap (λ (a : ℕ). a % w.shared.capacity) (sym same)))
              | no later ↦ inr (p, after w.cleared p lo later, hi, m)
            ]
          ]);
  }
    where
      k : ℕ
      k = w.cleared % w.shared.capacity

      after : (c p : ℕ) → c ≤ p → c ≢ p → c + 1 ≤ p
      after c p lo later = ground arith

  produce-HasOwners :
      (w : World T) (spurious : Bool) (i : ℕ) (e : ℕ → Option T)
      → IsValid w
      → HasOwners w e
      → HasOwners (produce spurious i w) e
  unfolding produce
  produce-HasOwners w spurious i e v h =
      produce-Owners w.shared w.producers w.cleared w.history w.taken e v h i spurious
        (w.producers i) refl (h.places i)

  initial-HasOwners : (n : ℕ) → HasOwners (initial n) (λ j. none)
  unfolding initial
  initial-HasOwners n = record { places = λ j x q. absurd (cc); owners = λ k x q. absurd (cc) }

  -- In every reachable state. The element of the last call of Add of each thread, the very one that it was
  -- called with, is with the call until it is put into a slot and again after it has been taken out of it or
  -- the buffer was full; it is in the slot of the call while it has been put there and not published; and it
  -- is among the elements that were added once the call has returned true. And every pointer in a slot is
  -- that of a call that has put it there and not published it, or of a position that the consumer has not
  -- emptied.
  pub Reach-HasOwners : (n : ℕ) {w : World T} (r : Reach (initial n) w) → HasOwners w (last_call r)
  unfolding last_call
  Reach-HasOwners n here = initial-HasOwners n
  Reach-HasOwners n (next r (call w i x f)) =
      call-HasOwners w i x (last_call r) f (Reach-HasOwners n r)
  Reach-HasOwners n (next r (produce_step w spurious i)) =
      produce-HasOwners w spurious i (last_call r) (Reach-IsValid r (initial-IsValid n))
        (Reach-HasOwners n r)
  Reach-HasOwners n (next r (consume w k q h)) =
      consume-HasOwners w k (last_call r) (Reach-HasOwners n r)
  Reach-HasOwners n (next r (clear w h)) =
      clear-HasOwners w (last_call r) h (Reach-IsValid r (initial-IsValid n)) (Reach-HasOwners n r)
