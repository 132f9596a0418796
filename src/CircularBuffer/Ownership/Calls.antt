-- ===== src/CircularBuffer/Ownership/Calls.antt =====
-- A step of a call of `Add` of src/common/circular_buffer.h keeps track of its element and of the owners of
-- the slots.
use lightstep_tracer_cpp.Base.{
  ℕ, ◌+◌, ◌-◌, ◌%◌, ◌≤◌, ◌≡◌, ◌≢◌, refl, ap, sym, ◌∙◌, arith, Bool, true, not, ◌&&◌, ◌==◌, leb,
  Option, none, some, List, [], ◌++◌, length, get_elem?, inl, inr, Bool-cases,
}
use mathlib.Core.Path.{subst}
use native.Mathlib.Decide.{ℕ_discrete}
use lightstep_tracer_cpp.CircularBuffer.{
  Shared, exchange, Pc, start, have_tail, have_head, swapped, undo, added, full, set_producer,
  to_list, is_null, add_step, published,
}
use lightstep_tracer_cpp.CircularBuffer.Invariant.{owns, at_producer, at_slot}
use lightstep_tracer_cpp.CircularBuffer.Invariant.Positions.{get_elem?-append_last}
use lightstep_tracer_cpp.CircularBuffer.Safety.{Parts}
use lightstep_tracer_cpp.CircularBuffer.Ownership.Places.{
  IsAt, HasOwner, Owners, IsAt-later, exchange-other, exchange-same,
}

module _ {T : Type 0} where
  module _ (s : Shared T) (ps : ℕ → Pc T) (cleared : ℕ) (history taken : List T) (e : ℕ → Option T)
      (v : Parts s ps cleared history taken) (w : Owners s ps cleared history e) (i : ℕ) where
    -- The owner of a slot when thread `i` has gone on.
    still :
        (s' : Shared T) (pc : Pc T) (k : ℕ) (x : T)
        → s'.capacity ≡ s.capacity
        → s.head ≤ s'.head
        → s.slots k ≡ some x
        → (owns s.capacity (ps i) ≡ some k → HasOwner s' (set_producer i pc ps) cleared k)
        → HasOwner s' (set_producer i pc ps) cleared k
    still s' pc k x c h q mine = elim (w.owners k x q) [
      | inl (j, o) ↦ elim (ℕ_discrete j i) [
        | yes same ↦ mine (rw same at o)
        | no ne ↦ inl (
          j,
          at_producer (λ p. owns s'.capacity p ≡ some k) i j pc ps (λ same. absurd (ne same))
              (λ _. rw c o),
        )
      ]
      | inr (p, lo, hi, m) ↦ inr (p, lo, omega arith, rw c m)
    ]

    -- All calls but that of thread `i`.
    places_now :
        (s' : Shared T) (more : List T) (pc : Pc T)
        → s'.capacity ≡ s.capacity
        → ((j k : ℕ) → j ≢ i → owns s.capacity (ps j) ≡ some k → s'.slots k ≡ s.slots k)
        → IsAt s' (history ++ more) (e i) pc
        → (j : ℕ) → IsAt s' (history ++ more) (e j) (set_producer i pc ps j)
    places_now s' more pc c f l j =
        at_producer (IsAt s' (history ++ more) (e j)) i j pc ps
          (λ same. subst (λ (k : ℕ). IsAt s' (history ++ more) (e k) pc) (sym same) l)
          (λ ne. IsAt-later s s' history more (e j) (ps j) c (λ k. f j k ne) (w.places j))

    -- A thread that goes on without touching shared state, and owns the slots that it owned.
    alone :
        (pc : Pc T)
        → owns s.capacity pc ≡ owns s.capacity (ps i)
        → IsAt s (history ++ []) (e i) pc
        → Owners s (set_producer i pc ps) cleared (history ++ []) e
    alone pc o l = record {
      places = places_now s [] pc refl (λ j k ne q. refl) l;
      owners = λ k x q. still s pc k x refl (omega arith) q (λ mine. inl (
        i,
        at_producer (λ p. owns s.capacity p ≡ some k) i i pc ps (λ _. o ∙ mine)
            (λ ne. absurd (ne refl)),
      ));
    }

    grab-Owners :
        (t h : ℕ) (o : Option T)
        → owns s.capacity (ps i) ≡ none
        → s.slots (h % s.capacity) ≡ none
        → o ≡ e i
        → Owners
            (exchange (h % s.capacity) o s)
            (set_producer i (swapped t h) ps)
            cleared
            (history ++ [])
            e
    unfolding exchange
    grab-Owners t h o nothing null l = record {
      places =
          places_now (exchange k o s) [] (swapped t h) refl
            (λ j k' ne q. exchange-other k k' o s (λ same. absurd (not_null j k' q same)))
            (exchange-same k o s ∙ l);
      owners = λ k' x.
          at_slot
            (λ q.
              q ≡ some x → HasOwner (exchange k o s) (set_producer i (swapped t h) ps) cleared k')
            k k' o s
            (λ same _. inl (
              i,
              at_producer (λ p. owns s.capacity p ≡ some k') i i (swapped t h) ps
                  (λ _. ap some (sym same)) (λ ne. absurd (ne refl)),
            ))
            (λ _ q.
              still (exchange k o s) (swapped t h) k' x refl (omega arith) q (λ mine. absurd (cc)));
    }
      where
        k : ℕ
        k = h % s.capacity

        not_null : (j k' : ℕ) → owns s.capacity (ps j) ≡ some k' → k' ≡ k → ⊥
        not_null j k' q same = let (x, held) = v.threads.held j k' q in cc

    undo-Owners :
        (h : ℕ)
        → ps i ≡ undo h
        → s.slots (h % s.capacity) ≡ e i
        → Owners
            (exchange (h % s.capacity) none s)
            (set_producer i (start (s.slots (h % s.capacity))) ps)
            cleared
            (history ++ [])
            e
    unfolding exchange
    undo-Owners h at l = record {
      places =
          places_now (exchange k none s) [] (start (s.slots k)) refl
            (λ j k' ne q.
              exchange-other k k' none s
                (λ same. ne (v.threads.disjoint j i k' q (mine ∙ ap some (sym same)))))
            l;
      owners = λ k' x.
          at_slot
            (λ q.
              q ≡ some x
              → HasOwner (exchange k none s) (set_producer i (start (s.slots k)) ps) cleared k')
            k k' none s (λ _ q. absurd (cc))
            (λ ne q.
              still (exchange k none s) (start (s.slots k)) k' x refl (omega arith) q
                (λ own. absurd (ne (some_injective (sym own ∙ mine)))));
    }
      where
        k : ℕ
        k = h % s.capacity

        some_injective : {a b : ℕ} → some a ≡ some b → a ≡ b
        some_injective e = cc

        mine : owns s.capacity (ps i) ≡ some k
        mine = rw at

    publish-Owners :
        (t h : ℕ)
        → ps i ≡ swapped t h
        → s.head ≡ h
        → s.slots (h % s.capacity) ≡ e i
        → Owners
            (record s { head = h + 1 })
            (set_producer i added ps)
            cleared
            (history ++ to_list (s.slots (h % s.capacity)))
            e
    publish-Owners t h at fresh l = record {
      places =
          places_now (record s { head = h + 1 }) (to_list (s.slots k)) added refl
            (λ j k' ne q. refl) (λ x q. (length history, last x (l ∙ q)));
      owners = λ k' x q.
          still (record s { head = h + 1 }) added k' x refl (omega arith) q
            (λ own.
              inr (h, omega (arith, v.core.cleared_le, v.core.tail_le), omega arith, ours k' own));
    }
      where
        k : ℕ
        k = h % s.capacity

        last :
            (x : T)
            → s.slots k ≡ some x
            → get_elem? (history ++ to_list (s.slots k)) (length history) ≡ some x
        last x q = rw q (get_elem?-append_last history x)

        mine : owns s.capacity (ps i) ≡ some k
        mine = rw at

        some_injective : {a b : ℕ} → some a ≡ some b → a ≡ b
        some_injective e = cc

        ours : (k' : ℕ) → owns s.capacity (ps i) ≡ some k' → h % s.capacity ≡ k'
        ours k' own = some_injective (sym mine ∙ own)

    at_head-Owners :
        (spurious : Bool) (o : Option T) (t h : ℕ)
        → ps i ≡ have_head o t h
        → o ≡ e i
        → let (s', pc') = add_step spurious s (have_head o t h) in
          Owners s' (set_producer i pc' ps) cleared (history ++ []) e
    unfolding add_step
    at_head-Owners spurious o t h at l = elim (Bool-cases (leb (s.capacity - 1) (h - t))) [
      | inl a ↦ rw a (alone (full o) nothing l)
      | inr a ↦ elim (Bool-cases (not spurious && is_null (s.slots (h % s.capacity)))) [
        | inl b ↦ rw (a, b) (grab-Owners t h o (sym nothing) (null_of _ spurious b) l)
        | inr b ↦ rw (a, b) (alone (start o) nothing l)
      ]
    ]
      where
        nothing : none ≡ owns s.capacity (ps i)
        nothing = rw at refl

        null_of : (q : Option T) (sp : Bool) → (not sp && is_null q) ≡ true → q ≡ none
        null_of none sp b = refl
        null_of (some x) sp b = ground arith

    at_cas-Owners :
        (spurious : Bool) (t h : ℕ)
        → ps i ≡ swapped t h
        → s.slots (h % s.capacity) ≡ e i
        → let (s', pc') = add_step spurious s (swapped t h) in
          Owners s' (set_producer i pc' ps) cleared (history ++ published s (swapped t h) pc') e
    unfolding add_step
    at_cas-Owners spurious t h at l = elim (Bool-cases (not spurious && s.head == h)) [
      | inl b ↦ rw b (publish-Owners t h at (ground arith) l)
      | inr b ↦ rw b (alone (undo h) (rw at refl) l)
    ]

    pub produce-Owners :
        (spurious : Bool) (pc : Pc T)
        → ps i ≡ pc
        → IsAt s history (e i) pc
        → let (s', pc') = add_step spurious s pc in
          Owners s' (set_producer i pc' ps) cleared (history ++ published s pc pc') e
    produce-Owners spurious (start o) at l =
        unfold add_step in alone (have_tail o s.tail) (rw at refl) l
    produce-Owners spurious (have_tail o t) at l =
        unfold add_step in alone (have_head o t s.head) (rw at refl) l
    produce-Owners spurious (have_head o t h) at l = at_head-Owners spurious o t h at l
    produce-Owners spurious (swapped t h) at l = at_cas-Owners spurious t h at l
    produce-Owners spurious (undo h) at l = unfold add_step in undo-Owners h at l
    produce-Owners spurious added at l =
        unfold add_step in
        alone added (rw at refl) (IsAt-later s s history [] (e i) added refl (λ k q. refl) l)
    produce-Owners spurious (full o) at l = unfold add_step in alone (full o) (rw at refl) l
