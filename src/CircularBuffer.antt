-- ===== src/CircularBuffer.antt =====
-- src/common/circular_buffer.h, circular_buffer_range.h and atomic_unique_ptr.h: the lock-free buffer
-- between the threads that finish spans and the one that sends them. A slot is an `AtomicUniquePtr`;
-- a pointer into the array is its index. The counters are `int64_t` and grow by one for each element,
-- so they are plain numbers here. Memory orders are not modelled: steps are sequentially consistent.
use lightstep_tracer_cpp.Base.{
  ℕ, zero, suc, ◌+◌, ◌-◌, ◌%◌, ◌≤◌, ◌<◌, ◌≡◌, Bool, true, false, not, ◌&&◌, Option, none, some,
  List, [], ◌∷◌, ◌++◌, ltb, leb, ◌==◌, if◌then◌else◌,
}
pub mod Invariant
pub mod Safety
pub mod Ownership
pub mod Peek

-- The atomics of the buffer.
pub record Shared (T : Type 0) : Type 0 where
  pub slots : ℕ → Option T
  pub capacity : ℕ
  pub head : ℕ
  pub tail : ℕ

-- `first1 .. last1`, then `first2 .. last2`; null pointers are 0.
pub record Range : Type 0 where
  pub first1 : ℕ
  pub last1 : ℕ
  pub first2 : ℕ
  pub last2 : ℕ

abbrev pub null_range : Range
null_range = record { first1 = 0; last1 = 0; first2 = 0; last2 = 0 }

unfoldable pub range_size : Range → ℕ
range_size r = (r.last1 - r.first1) + (r.last2 - r.first2)

unfoldable pub range_empty : Range → Bool
range_empty r = r.first1 == r.last1

unfoldable pub range_take : ℕ → Range → Range
range_take n r =
    let size1 = r.last1 - r.first1 in
    if leb n size1
    then record { first1 = r.first1; last1 = r.first1 + n; first2 = 0; last2 = 0 }
    else record r { last2 = r.first2 + (n - size1) }

-- `for (iter = first; iter != last; ++iter)`, for `first <= last`.
unfoldable pub interval : ℕ → ℕ → List ℕ
interval first zero = []
interval first (suc count) = first ∷ interval (first + 1) count

-- The slots that `ForEach` visits, as long as the callback goes on.
unfoldable pub range_slots : Range → List ℕ
unfolding interval
range_slots r = interval r.first1 (r.last1 - r.first1) ++ interval r.first2 (r.last2 - r.first2)

-- `ForEach`: whether the callback has gone on for every element, and the state that it leaves.
unfoldable pub visit {ℓ} : {S : Type ℓ} → (ℕ → S → Bool × S) → List ℕ → S → Bool × S
visit f [] s = (true, s)
visit f (i ∷ is) s =
    let (go_on, s') = f i s in elim go_on [ true ↦ visit f is s' | false ↦ (false, s') ]

unfoldable pub for_each {ℓ} : {S : Type ℓ} → (ℕ → S → Bool × S) → Range → S → Bool × S
unfolding visit range_slots
for_each f r s = visit f (range_slots r) s

module _ {T : Type 0} where
  unfoldable pub peek : Shared T → Range
  peek s =
      let tail_index = s.tail % s.capacity in
      let head_index = s.head % s.capacity in
      if head_index == tail_index
      then null_range
      else if ltb tail_index head_index
      then record { first1 = tail_index; last1 = head_index; first2 = 0; last2 = 0 }
      else record { first1 = tail_index; last1 = s.capacity; first2 = 0; last2 = head_index }

  unfoldable pub size : Shared T → ℕ
  size s = s.head - s.tail

  unfoldable pub max_size : Shared T → ℕ
  max_size s = s.capacity - 1

  unfoldable pub empty : Shared T → Bool
  empty s = s.head == s.tail

  -- One slot set to a new pointer: the atomic exchange.
  unfoldable pub exchange : ℕ → Option T → Shared T → Shared T
  exchange i o s = record s { slots = λ j. if j == i then o else s.slots j }

  abbrev pub is_null : Option T → Bool
  is_null none = true
  is_null (some x) = false

-- Where a call of `Add` stands. `o` is the caller's `unique_ptr`.
pub data Pc (T : Type 0) : Type 0 where
  start : Option T → Pc T
  have_tail : Option T → ℕ → Pc T
  have_head : Option T → ℕ → ℕ → Pc T
  swapped : ℕ → ℕ → Pc T
  undo : ℕ → Pc T
  added : Pc T
  full : Option T → Pc T

module _ {T : Type 0} where
  -- The next atomic access of a call of `Add`. A weak compare-exchange may fail for no reason:
  -- `spurious` says so.
  unfoldable pub add_step : Bool → Shared T → Pc T → Shared T × Pc T
  unfolding exchange
  add_step spurious s (start o) = (s, have_tail o s.tail)
  add_step spurious s (have_tail o t) = (s, have_head o t s.head)
  add_step spurious s (have_head o t h) =
      if leb (s.capacity - 1) (h - t)
      then (s, full o)
      else if not spurious && is_null (s.slots (h % s.capacity))
      then (exchange (h % s.capacity) o s, swapped t h)
      else (s, start o)
  add_step spurious s (swapped t h) =
      if not spurious && s.head == h then (record s { head = h + 1 }, added) else (s, undo h)
  add_step spurious s (undo h) =
      (exchange (h % s.capacity) none s, start (s.slots (h % s.capacity)))
  add_step spurious s added = (s, added)
  add_step spurious s (full o) = (s, full o)

-- The producers, and the consumer: it has advanced `tail` and holds the slots from `cleared` on to
-- its callback, which empties them one by one. `history` is what `Add` has put in, in the order of
-- the positions, and `taken` what the callback has got.
pub record World (T : Type 0) : Type 0 where
  pub shared : Shared T
  pub producers : ℕ → Pc T
  pub cleared : ℕ
  pub history : List T
  pub taken : List T

module _ {T : Type 0} where
  abbrev pub to_list : Option T → List T
  to_list none = []
  to_list (some x) = x ∷ []

  -- What a step of `Add` makes visible to the consumer.
  abbrev pub published : Shared T → Pc T → Pc T → List T
  published s (swapped t h) added = to_list (s.slots (h % s.capacity))
  published s _ _ = []

  abbrev pub set_producer : ℕ → Pc T → (ℕ → Pc T) → ℕ → Pc T
  set_producer i pc ps j = if j == i then pc else ps j

  unfoldable pub produce : Bool → ℕ → World T → World T
  produce spurious i w =
      let (s', pc') = add_step spurious w.shared (w.producers i) in
      record w {
        shared = s';
        producers = set_producer i pc' w.producers;
        history = w.history ++ published w.shared (w.producers i) pc';
      }

  -- `tail_ += n`
  unfoldable pub begin_consume : ℕ → World T → World T
  begin_consume n w = record w { shared = record (w.shared) { tail = w.shared.tail + n } }

  -- The callback swaps the next pointer of its range for null.
  unfoldable pub clear_one : World T → World T
  unfolding exchange
  clear_one w =
      let i = w.cleared % w.shared.capacity in
      record w {
        shared = exchange i none w.shared;
        cleared = w.cleared + 1;
        taken = w.taken ++ to_list (w.shared.slots i);
      }

  abbrev pub finished : Pc T → Bool
  finished added = true
  finished (full o) = true
  finished _ = false

  -- Any thread may go on next.
  pub data Step : World T → World T → Type 0 where
    call :
        (w : World T) (i : ℕ) (x : T)
        → finished (w.producers i) ≡ true
        → Step w (record w { producers = set_producer i (start (some x)) w.producers })
    produce_step : (w : World T) (spurious : Bool) (i : ℕ) → Step w (produce spurious i w)
    consume :
        (w : World T) (n : ℕ)
        → w.cleared ≡ w.shared.tail
        → n ≤ w.shared.head - w.shared.tail
        → Step w (begin_consume n w)
    clear : (w : World T) → w.cleared < w.shared.tail → Step w (clear_one w)

  pub data Reach (s : World T) : World T → Type 0 where
    here : Reach s s
    next : {v w : World T} → Reach s v → Step v w → Reach s w

  -- A new buffer for `n` elements, with no call under way.
  unfoldable pub initial : ℕ → World T
  initial n = record {
    shared = record { slots = λ i. none; capacity = n + 1; head = 0; tail = 0 };
    producers = λ i. added;
    cleared = 0;
    history = [];
    taken = [];
  }
