-- ===== src/CircularBuffer/Peek.antt =====
-- `Peek` of src/common/circular_buffer.h and `Take` of circular_buffer_range.h: which slots a range
-- visits, wherever the buffer wraps round.
use lightstep_tracer_cpp.Base.{
  ℕ, zero, suc, ◌+◌, ◌-◌, ◌%◌, ◌≤◌, ◌<◌, ◌≡◌, refl, sym, ap, ◌∙◌, arith, List, [], ◌∷◌, ◌++◌,
  append-nil, ◌==◌, ltb, leb, if◌then◌else◌, length, length-append, take, inl, inr, Bool-cases,
}
use lightstep_tracer_cpp.CircularBuffer.{
  Shared, Range, range_size, range_take, interval, range_slots, peek, size,
}
use lightstep_tracer_cpp.CircularBuffer.Invariant.{Core}
use lightstep_tracer_cpp.CircularBuffer.Invariant.Positions.{take-append_left}
use mathlib.Core.Path.{ap₂}
use native.Mathlib.Decide.{dec_lt}
use native.Mathlib.Nat.{mod-eq-sub-mod, mod-eq_of_lt, mod-add-mod, mod-lt, zero-add, add-zero}

-- The slots of `n` positions from `p` on, going round at `cap`.
unfoldable pub turning : ℕ → ℕ → ℕ → List ℕ
turning m p zero = []
turning m p (suc n) = p % m ∷ turning m (p + 1) n

turning-append : (m p a b : ℕ) → turning m p (a + b) ≡ turning m p a ++ turning m (p + a) b
unfolding turning
turning-append m p zero b = rw (zero-add, add-zero)
turning-append m p (suc a) b = rw (suc_add a b) (
    ap (λ l. p % m ∷ l)
      (turning-append m (p + 1) a b
        ∙ ap (λ (k : ℕ). turning m (p + 1) a ++ turning m k b) (omega arith)))
  where
    suc_add : (a b : ℕ) → suc a + b ≡ suc (a + b)
    suc_add a b = omega arith

-- Position `t + d` in terms of the slot of `t`.
wrap_lt : (m t d : ℕ) → t % m + d < m → (t + d) % m ≡ t % m + d
wrap_lt m t d h = sym (mod-add-mod t m d) ∙ mod-eq_of_lt h

wrap_ge : (m t d : ℕ) → 0 < m → m ≤ t % m + d → d < m → (t + d) % m ≡ t % m + d - m
wrap_ge m t d hm h hd =
    sym (mod-add-mod t m d) ∙ mod-eq-sub-mod h ∙ mod-eq_of_lt (omega (arith, mod-lt t hm))

-- Up to the end of the array the slots are consecutive.
turning-interval : (m p n : ℕ) → p % m + n ≤ m → turning m p n ≡ interval (p % m) n
unfolding turning interval
turning-interval m p zero h = refl
turning-interval m p (suc zero) h = refl
turning-interval m p (suc (suc n)) h =
    let next = wrap_lt m p 1 (omega arith) in
    ap (λ l. p % m ∷ l)
      (turning-interval m (p + 1) (suc n) (omega (arith, next))
        ∙ ap (λ (k : ℕ). interval k (suc n)) next)

take-interval : (a n k : ℕ) → n ≤ k → take n (interval a k) ≡ interval a n
unfolding interval
take-interval a zero k h = refl
take-interval a (suc n) zero h = absurd (omega arith)
take-interval a (suc n) (suc k) h = ap (λ l. a ∷ l) (take-interval (a + 1) n k (omega arith))

length-interval : (a n : ℕ) → length (interval a n) ≡ n
unfolding interval
length-interval a zero = refl
length-interval a (suc n) = ap suc (length-interval (a + 1) n)

length-turning : (m p n : ℕ) → length (turning m p n) ≡ n
unfolding turning
length-turning m p zero = refl
length-turning m p (suc n) = ap suc (length-turning m (p + 1) n)

take-turning : (m p n k : ℕ) → n ≤ k → take n (turning m p k) ≡ turning m p n
unfolding turning
take-turning m p zero k h = refl
take-turning m p (suc n) zero h = absurd (omega arith)
take-turning m p (suc n) (suc k) h = ap (λ l. p % m ∷ l) (take-turning m (p + 1) n k (omega arith))

take-append_right :
    (xs ys : List ℕ) (n : ℕ) → length xs ≤ n → take n (xs ++ ys) ≡ xs ++ take (n - length xs) ys
take-append_right [] ys n h = ap (λ (k : ℕ). take k ys) (omega arith)
take-append_right (x ∷ xs) ys zero h = absurd (omega arith)
take-append_right (x ∷ xs) ys (suc n) h =
    ap (λ l. x ∷ l)
      (take-append_right xs ys n (omega arith) ∙ ap (λ (k : ℕ). xs ++ take k ys) (omega arith))

-- Taking from a range visits the first slots of the range.
pub range_slots-range_take :
    (r : Range) (n : ℕ) → n ≤ range_size r → range_slots (range_take n r) ≡ take n (range_slots r)
unfolding range_take range_size range_slots interval
range_slots-range_take r n h = elim (Bool-cases (leb n (r.last1 - r.first1))) [
  | inl e ↦ rw e (short (ground arith))
  | inr e ↦ rw e (long (ground arith))
]
  where
    a : List ℕ
    a = interval r.first1 (r.last1 - r.first1)

    b : List ℕ
    b = interval r.first2 (r.last2 - r.first2)

    short :
        n ≤ r.last1 - r.first1 → interval r.first1 (r.first1 + n - r.first1) ++ [] ≡ take n (a ++ b)
    short le =
        append-nil _
        ∙ ap (interval r.first1) (omega arith)
        ∙ sym (
            take-append_left n a b (omega (arith, length-interval r.first1 (r.last1 - r.first1)))
            ∙ take-interval r.first1 n _ le)

    long :
        r.last1 - r.first1 < n
        → a ++ interval r.first2 (r.first2 + (n - (r.last1 - r.first1)) - r.first2)
          ≡ take n (a ++ b)
    long lt =
        ap (λ (k : ℕ). a ++ interval r.first2 k) (omega arith)
        ∙ sym (
            take-append_right a b n (omega (arith, length-interval r.first1 (r.last1 - r.first1)))
            ∙ ap (λ (k : ℕ). a ++ take (n - k) b) (length-interval r.first1 (r.last1 - r.first1))
            ∙ ap (λ l. a ++ l) (take-interval r.first2 _ _ (omega arith)))

-- Past the end of the array the slots go on from the start.
turning_split :
    (m t d : ℕ)
    → 0 < m
    → d < m
    → m ≤ t % m + d
    → turning m t d ≡ interval (t % m) (m - t % m) ++ interval 0 (t % m + d - m)
turning_split m t d hm hd h =
    ap (turning m t) (omega (arith, mod-lt t hm))
    ∙ turning-append m t first rest
    ∙ ap₂ ◌++◌ (turning-interval m t first (omega (arith, mod-lt t hm))) second
  where
    first : ℕ
    first = m - t % m

    rest : ℕ
    rest = t % m + d - m

    at_start : (t + first) % m ≡ 0
    at_start =
        wrap_ge m t first hm (omega (arith, mod-lt t hm)) (omega arith) ∙ omega (arith, mod-lt t hm)

    second : turning m (t + first) rest ≡ interval 0 rest
    second =
        turning-interval m (t + first) rest (omega (arith, at_start, mod-lt t hm))
        ∙ ap (λ (k : ℕ). interval k rest) at_start

-- The slots of the range that `Peek` builds from the two indices.
abbrev peek_slots : ℕ → ℕ → ℕ → List ℕ
peek_slots m ti hi =
    if hi == ti
    then []
    else if ltb ti hi
    then interval ti (hi - ti)
    else interval ti (m - ti) ++ interval 0 hi

peek_slots-turning :
    (m t d : ℕ) → 0 < m → d < m → peek_slots m (t % m) ((t + d) % m) ≡ turning m t d
peek_slots-turning m t d hm hd = elim (dec_lt (t % m + d) m) [
  | yes lt ↦ ground (
    arith,
    wrap_lt m t d lt,
    turning-interval m t d (omega arith),
    ap (interval (t % m)) (same_size lt),
    none_left d,
  )
  | no ge ↦ ground (
    arith,
    wrap_ge m t d hm (omega arith) hd,
    turning_split m t d hm hd (omega arith),
    mod-lt t hm,
  )
]
  where
    same_size : t % m + d < m → (t + d) % m - t % m ≡ d
    same_size lt = omega (arith, wrap_lt m t d lt)

    none_left : (k : ℕ) → k ≡ 0 → turning m t k ≡ []
    none_left k e = rw e (unfold turning in refl)

module _ {T : Type 0} (s : Shared T) {cleared : ℕ} {history taken : List T}
    (c : Core s cleared history taken) where
  distance : s.tail + (s.head - s.tail) ≡ s.head
  distance = omega (arith, c.tail_le)

  -- `Peek` visits the slots of the positions from `tail_` up to `head_`, in order.
  pub range_slots-peek : range_slots (peek s) ≡ turning s.capacity s.tail (s.head - s.tail)
  range_slots-peek =
      to_slots
      ∙ ap (λ (k : ℕ). peek_slots s.capacity (s.tail % s.capacity) (k % s.capacity)) (sym distance)
      ∙ peek_slots-turning s.capacity s.tail (s.head - s.tail) c.positive
          (omega (arith, c.room, c.positive))
    where
      to_slots :
          range_slots (peek s) ≡ peek_slots s.capacity (s.tail % s.capacity) (s.head % s.capacity)
      to_slots =
          unfold range_slots peek interval in
          ground (
            arith,
            append-nil (interval (s.tail % s.capacity) (s.head % s.capacity - s.tail % s.capacity)),
          )

  range_size-peek : range_size (peek s) ≡ size s
  range_size-peek =
      size_is_length (peek s)
      ∙ ap length range_slots-peek
      ∙ length-turning s.capacity s.tail (s.head - s.tail)
      ∙ unfold size in refl
    where
      size_is_length : (r : Range) → range_size r ≡ length (range_slots r)
      size_is_length r =
          unfold range_size range_slots interval in
          omega (
            arith,
            length-append (interval r.first1 (r.last1 - r.first1))
                (interval r.first2 (r.last2 - r.first2)),
            length-interval r.first1 (r.last1 - r.first1),
            length-interval r.first2 (r.last2 - r.first2),
          )

  -- The range that `Consume` hands to its callback: as long as there are that many elements, it has
  -- `n` of them, and visits the slots of the `n` oldest positions in order, round the end of the array.
  pub consume_range :
      (n : ℕ)
      → n ≤ size s
      → (range_size (peek s) ≡ size s)
        × (range_slots (range_take n (peek s)) ≡ turning s.capacity s.tail n)
  consume_range n h = (range_size-peek, slots)
    where
      fits : n ≤ s.head - s.tail
      fits = unfold size in h

      slots : range_slots (range_take n (peek s)) ≡ turning s.capacity s.tail n
      slots =
          range_slots-range_take (peek s) n (rw range_size-peek h)
          ∙ ap (take n) range_slots-peek
          ∙ take-turning s.capacity s.tail n (s.head - s.tail) fits
