-- ===== src/RandomTraverser/Order.antt =====
-- In which order the traversal of src/common/random_traverser.cpp calls back.
use lightstep_tracer_cpp.Base.{
  ℕ, zero, suc, ◌+◌, ◌-◌, ◌≤◌, ◌<◌, ◌≡◌, refl, ap, sym, ◌∙◌, Bool, true, false, List, [], ◌∷◌,
  get_or, set, length, drop, drop-beyond, get_or-set_ne, if◌then◌else◌, length-set, arith,
}
use mathlib.Core.Path.{subst}
use mathlib.Core.List.{Perm}
use mathlib.Core.List.Perm
use lightstep_tracer_cpp.RandomTraverser.{
  RandomTraverser, swap, for_each_from, for_each_indexes, for_each_index,
}

-- What the distributions that the loop makes give: a number from `i` on and below `n`.
abbrev pub IsInRange : (ℕ → ℕ) → ℕ → Type 0
IsInRange draw n = (i : ℕ) → suc i < n → (i ≤ draw i) × (draw i < n)

-- A plain loop over a list, that the callback can break off.
unfoldable pub in_order {ℓ} : {A : Type ℓ} → (ℕ → A → Bool × A) → List ℕ → A → Bool × A
in_order callback [] a = (true, a)
in_order callback (x ∷ xs) a =
    let (goes_on, a') = callback x a in
    let rest = in_order callback xs a' in if goes_on then rest else (false, a')

get-first-Perm :
    (x : ℕ) (xs : List ℕ) (j : ℕ) → j < length xs → Perm (get_or xs j 0 ∷ set xs j x) (x ∷ xs)
get-first-Perm x [] j h = absurd (omega arith)
get-first-Perm x (y ∷ xs) zero h = Perm.swap x y xs
get-first-Perm x (y ∷ xs) (suc j) h =
    Perm.trans (Perm.swap y (get_or xs j 0) (set xs j x))
      (Perm.trans (Perm.cons y (get-first-Perm x xs j (omega arith))) (Perm.swap x y xs))

swap-Perm : (xs : List ℕ) (i j : ℕ) → i ≤ j → j < length xs → Perm (swap xs i j) xs
swap-Perm [] i j h l = absurd (omega arith)
swap-Perm (x ∷ xs) zero zero h l = Perm.rfl
swap-Perm (x ∷ xs) zero (suc j) h l = get-first-Perm x xs j (omega arith)
swap-Perm (x ∷ xs) (suc i) zero h l = absurd (omega arith)
swap-Perm (x ∷ xs) (suc i) (suc j) h l = Perm.cons x (swap-Perm xs i j (omega arith) (omega arith))

swap-kept : (xs : List ℕ) (i j k : ℕ) → i ≤ j → k < i → get_or (swap xs i j) k 0 ≡ get_or xs k 0
swap-kept xs i j k h l =
    get_or-set_ne (set xs i (get_or xs j 0)) j k (get_or xs i 0) 0 (omega arith)
    ∙ get_or-set_ne xs i k (get_or xs j 0) 0 (omega arith)

length-swap : (xs : List ℕ) (i j : ℕ) → length (swap xs i j) ≡ length xs
length-swap xs i j =
    length-set (set xs i (get_or xs j 0)) j (get_or xs i 0) ∙ length-set xs i (get_or xs j 0)

drop-get : (xs : List ℕ) (i : ℕ) → i < length xs → drop i xs ≡ get_or xs i 0 ∷ drop (suc i) xs
drop-get [] i h = absurd (omega arith)
drop-get (x ∷ xs) zero h = refl
drop-get (x ∷ xs) (suc i) h = drop-get xs i (omega arith)

drop-last : (xs : List ℕ) (i : ℕ) → i + 1 ≡ length xs → drop i xs ≡ get_or xs i 0 ∷ []
drop-last xs i h =
    drop-get xs i (omega arith)
    ∙ ap (λ (r : List ℕ). get_or xs i 0 ∷ r) (drop-beyond (suc i) xs (omega arith))

module _ {ℓ} {A : Type ℓ} (callback : ℕ → A → Bool × A) where
  -- What a traversal of `xs` from `i` on leaves: the list has been rearranged from `i` on, and the calls
  -- were those of a plain loop over it.
  pub record IsTraversed (i : ℕ) (xs : List ℕ) (a : A) (r : Bool × A × List ℕ) : Type ℓ where
    pub outcome : (r.0, r.1) ≡ in_order callback (drop i r.2) a
    pub rearranged : Perm r.2 xs
    pub size : length r.2 ≡ length xs
    pub kept : (k : ℕ) → k < i → get_or r.2 k 0 ≡ get_or xs k 0

  in_order-call :
      (x : ℕ) (xs : List ℕ) (a : A) (q : Bool × A)
      → callback x a ≡ q
      → in_order callback (x ∷ xs) a ≡ (if q.0 then in_order callback xs q.1 else (false, q.1))
  unfolding in_order
  in_order-call x xs a q e =
      ap (λ (q : Bool × A). if q.0 then in_order callback xs q.1 else (false, q.1)) e

  if_last : (q : Bool × A) → (if q.0 then in_order callback [] q.1 else (false, q.1)) ≡ (q.0, q.1)
  unfolding in_order
  if_last (true, a) = refl
  if_last (false, a) = refl

  last_call :
      (i : ℕ) (xs : List ℕ) (a : A) (q : Bool × A)
      → i + 1 ≡ length xs
      → callback (get_or xs i 0) a ≡ q
      → IsTraversed i xs a (q.0, q.1, xs)
  last_call i xs a q n e = record {
    outcome = sym (
        ap (λ (r : List ℕ). in_order callback r a) (drop-last xs i n)
        ∙ (in_order-call (get_or xs i 0) [] a q e ∙ if_last q));
    rearranged = Perm.rfl;
    size = refl;
    kept = λ k h. refl;
  }

  one_call :
      (i : ℕ) (xs : List ℕ) (a : A) (q : Bool × A) (rest : Bool × A × List ℕ)
      → i < length xs
      → callback (get_or xs i 0) a ≡ q
      → IsTraversed (suc i) xs q.1 rest
      → IsTraversed i xs a (if q.0 then rest else (false, q.1, xs))
  one_call i xs a (true, a') rest n e t = record {
    outcome =
        t.outcome
        ∙ sym (
            ap (λ (r : List ℕ). in_order callback r a) (drop-get rest.2 i (omega (arith, t.size)))
            ∙ in_order-call (get_or rest.2 i 0) (drop (suc i) rest.2) a (true, a')
                (ap (λ (x : ℕ). callback x a) (t.kept i (omega arith)) ∙ e));
    rearranged = t.rearranged;
    size = t.size;
    kept = λ k h. t.kept k (omega arith);
  }
  one_call i xs a (false, a') rest n e t = record {
    outcome = sym (
        ap (λ (r : List ℕ). in_order callback r a) (drop-get xs i n)
        ∙ in_order-call (get_or xs i 0) (drop (suc i) xs) a (false, a') e);
    rearranged = Perm.rfl;
    size = refl;
    kept = λ k h. refl;
  }

  behind_swap :
      (i j : ℕ) (xs : List ℕ) (a : A) (r : Bool × A × List ℕ)
      → i ≤ j
      → j < length xs
      → IsTraversed i (swap xs i j) a r
      → IsTraversed i xs a r
  behind_swap i j xs a r h l t = record {
    outcome = t.outcome;
    rearranged = Perm.trans t.rearranged (swap-Perm xs i j h l);
    size = t.size ∙ length-swap xs i j;
    kept = λ k m. t.kept k m ∙ swap-kept xs i j k h m;
  }

  module _ (draw : ℕ → ℕ) where
    for_each_from-IsTraversed :
        (steps i : ℕ) (xs : List ℕ) (a : A)
        → i + suc steps ≡ length xs
        → IsInRange draw (length xs)
        → IsTraversed i xs a (for_each_from callback draw steps i xs a)
    unfolding for_each_from
    for_each_from-IsTraversed zero i xs a n h =
        last_call i xs a (callback (get_or xs (length xs - 1) 0) a) n
          (ap (λ (k : ℕ). callback (get_or xs k 0) a) (omega arith))
    for_each_from-IsTraversed (suc steps) i xs a n h =
        let (low, high) = h i (omega arith) in
        behind_swap i (draw i) xs a _ low high (
          one_call i (swap xs i (draw i)) a (callback (get_or (swap xs i (draw i)) i 0) a) _
            (omega (arith, length-swap xs i (draw i))) refl
            (for_each_from-IsTraversed steps (suc i) (swap xs i (draw i)) _
              (omega (arith, length-swap xs i (draw i)))
              (subst (IsInRange draw) (sym (length-swap xs i (draw i))) h)))

    indexes_lem :
        (xs : List ℕ) (a : A)
        → IsInRange draw (length xs)
        → let (finished, a', indexes) = for_each_indexes callback draw xs a in
          ((finished, a') ≡ in_order callback indexes a) × Perm indexes xs
    unfolding for_each_indexes in_order
    indexes_lem [] a h = (refl, Perm.rfl)
    indexes_lem (x ∷ xs) a h =
        let t = for_each_from-IsTraversed (length xs) 0 (x ∷ xs) a (omega arith) h in
        (t.outcome, t.rearranged)

    -- If the numbers drawn are in their ranges: the traversal calls back as a plain loop over a
    -- rearrangement of the indexes does, breaks off where the callback asks for it, and leaves the
    -- traverser with that rearrangement.
    pub for_each_index-in_order :
        (t : RandomTraverser) (a : A)
        → IsInRange draw (length t.indexes)
        → let (finished, a', t') = for_each_index callback draw t a in
          ((finished, a') ≡ in_order callback t'.indexes a) × Perm t'.indexes t.indexes
    unfolding for_each_index for_each_indexes
    for_each_index-in_order t a h = indexes_lem t.indexes a h
