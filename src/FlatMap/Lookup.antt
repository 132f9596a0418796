-- ===== src/FlatMap/Lookup.antt =====
-- The order of the map of src/common/flat_map.h, and lookups after an insertion.
use lightstep_tracer_cpp.Base.{
  suc, Bool, true, false, List, [], ◌∷◌, if◌then◌else◌, Option, none, some, get_elem?, ◌≡◌, refl,
  ap, ◌∙◌, sym, All, Bool-cases, inl, inr, arith,
}
use lightstep_tracer_cpp.FlatMap.{
  KeyOrder, IsTotal, lower_bound, assign_or_insert, insert_or_assign, find,
}

both : (q : Bool) → q ≡ true → q ≡ false → ⊥
both q t f = ground arith

-- What a strict total order refuses.
module _ {K : Type 0} {O : KeyOrder K} (laws : IsTotal O) where
  not_less_self : (a b : K) → a ≡ b → O.less a b ≡ true → ⊥
  not_less_self a b e l = both (O.less a a) (ap (λ (x : K). O.less a x) e ∙ l) (laws.irreflexive a)

  less-differ : (a b : K) → O.less a b ≡ true → O.same a b ≡ false
  less-differ a b l = elim (Bool-cases (O.same a b)) [
    | inl s ↦ absurd (not_less_self a b (laws.same_eq a b s) l)
    | inr d ↦ d
  ]

  less-differ_back : (a b : K) → O.less a b ≡ true → O.same b a ≡ false
  less-differ_back a b l = elim (Bool-cases (O.same b a)) [
    | inl s ↦ absurd (not_less_self a b (sym (laws.same_eq b a s)) l)
    | inr d ↦ d
  ]

  less-not_less : (a b : K) → O.less a b ≡ true → O.less b a ≡ false
  less-not_less a b l = elim (Bool-cases (O.less b a)) [
    | inl r ↦ absurd (both (O.less a a) (laws.transitive a b a l r) (laws.irreflexive a))
    | inr d ↦ d
  ]

module _ {K V : Type 0} (O : KeyOrder K) where
  -- The keys increase.
  abbrev pub IsSorted : List (K × V) → Type 0
  IsSorted [] = Unit {0}
  IsSorted (e ∷ m) = All (λ (x : K × V). O.less e.0 x.0 ≡ true) m × IsSorted m

  -- How the operations go on from a pair at the front.
  insert-behind :
      (key : K) (v : V) (e : K × V) (m : List (K × V))
      → O.less e.0 key ≡ true
      → insert_or_assign O key v (e ∷ m) ≡ e ∷ insert_or_assign O key v m
  unfolding insert_or_assign lower_bound
  insert-behind key v e m h = rw h (moved (get_elem? m (lower_bound O key m)))
    where
      moved :
          (o : Option (K × V))
          → assign_or_insert O (suc (lower_bound O key m)) o key v (e ∷ m)
            ≡ e ∷ assign_or_insert O (lower_bound O key m) o key v m
      moved none = refl
      moved (some x) = ground arith

  insert-here :
      (key : K) (v : V) (e : K × V) (m : List (K × V))
      → O.less e.0 key ≡ false
      → insert_or_assign O key v (e ∷ m)
        ≡ (if O.same e.0 key then (e.0, v) ∷ m else (key, v) ∷ e ∷ m)
  unfolding insert_or_assign lower_bound
  insert-here key v e m h = rw h refl

  find-behind :
      (key : K) (e : K × V) (m : List (K × V))
      → O.less e.0 key ≡ true
      → find O key (e ∷ m) ≡ find O key m
  unfolding find lower_bound
  find-behind key e m h = rw h refl

  find-here :
      (key : K) (e : K × V) (m : List (K × V))
      → O.less e.0 key ≡ false
      → find O key (e ∷ m) ≡ (if O.same e.0 key then some e.1 else none)
  unfolding find lower_bound
  find-here key e m h = rw h refl

  module _ (laws : IsTotal O) where
    All-insert :
        (a key : K) (v : V) (m : List (K × V))
        → O.less a key ≡ true
        → All (λ (x : K × V). O.less a x.0 ≡ true) m
        → All (λ (x : K × V). O.less a x.0 ≡ true) (insert_or_assign O key v m)
    All-insert a key v [] h hs = unfold insert_or_assign in unfold lower_bound in (h, tt)
    All-insert a key v (e ∷ m) h (he, hs) = elim (Bool-cases (O.less e.0 key)) [
      | inl l ↦ rw (insert-behind key v e m l) (he, All-insert a key v m h hs)
      | inr g ↦ rw (insert-here key v e m g) (elim (Bool-cases (O.same e.0 key)) [
        | inl s ↦ rw s (he, hs)
        | inr d ↦ rw d (h, (he, hs))
      ])
    ]

    All-below :
        (a b : K) (m : List (K × V))
        → O.less a b ≡ true
        → All (λ (x : K × V). O.less b x.0 ≡ true) m
        → All (λ (x : K × V). O.less a x.0 ≡ true) m
    All-below a b [] h hs = tt
    All-below a b (e ∷ m) h (he, hs) = (laws.transitive a b e.0 h he, All-below a b m h hs)

    IsSorted-insert :
        (key : K) (v : V) (m : List (K × V)) → IsSorted m → IsSorted (insert_or_assign O key v m)
    IsSorted-insert key v [] h = unfold insert_or_assign in unfold lower_bound in (tt, tt)
    IsSorted-insert key v (e ∷ m) (he, hs) = elim (Bool-cases (O.less e.0 key)) [
      | inl l ↦
          rw (insert-behind key v e m l) (All-insert e.0 key v m l he, IsSorted-insert key v m hs)
      | inr g ↦ rw (insert-here key v e m g) (elim (Bool-cases (O.same e.0 key)) [
        | inl s ↦ rw s (he, hs)
        | inr d ↦
            let below = laws.total e.0 key g d in
            rw d ((below, All-below key e.0 m below he), (he, hs))
      ])
    ]

    -- A key below the first one is not there.
    find-below :
        (key : K) (e : K × V) (m : List (K × V)) → O.less key e.0 ≡ true → find O key (e ∷ m) ≡ none
    find-below key e m l =
        find-here key e m (less-not_less laws key e.0 l) ∙ rw (less-differ_back laws key e.0 l) refl

    -- What is found after an insertion.
    Found : K → K → V → List (K × V) → Type 0
    Found key k v m =
        find O k (insert_or_assign O key v m) ≡ (if O.same key k then some v else find O k m)

    Found-nil : (key k : K) (v : V) → Found key k v []
    unfolding Found insert_or_assign find lower_bound
    Found-nil key k v = elim (Bool-cases (O.less key k)) [
      | inl l ↦ rw (l, less-differ laws key k l) refl
      | inr g ↦ rw g refl
    ]

    -- The pair at the front is below the key.
    Found-behind :
        (key k : K) (v : V) (e : K × V) (m : List (K × V))
        → O.less e.0 key ≡ true
        → Found key k v m
        → Found key k v (e ∷ m)
    unfolding Found
    Found-behind key k v e m l ih =
        rw (insert-behind key v e m l) (elim (Bool-cases (O.less e.0 k)) [
          | inl l' ↦
              find-behind k e _ l'
              ∙ ih
              ∙ ap (λ (o : Option V). if O.same key k then some v else o)
                  (sym (find-behind k e m l'))
          | inr g ↦ find-here k e _ g ∙ ap (λ (o : Option V). o) (sym (find-here k e m g)) ∙ other g
        ])
      where
        other :
            O.less e.0 k ≡ false
            → find O k (e ∷ m) ≡ (if O.same key k then some v else find O k (e ∷ m))
        other g = elim (Bool-cases (O.same key k)) [
          | inl s ↦ absurd (
              both (O.less e.0 k) (ap (λ (x : K). O.less e.0 x) (sym (laws.same_eq key k s)) ∙ l) g)
          | inr d ↦ rw d refl
        ]

    -- The pair at the front has the key.
    Found-replaced :
        (key k : K) (v : V) (e : K × V) (m : List (K × V))
        → O.less e.0 key ≡ false
        → O.same e.0 key ≡ true
        → Found key k v (e ∷ m)
    unfolding Found
    Found-replaced key k v e m g s =
        rw (insert-here key v e m g, s)
          (elim (Bool-cases (O.less e.0 k)) [
            | inl l ↦
                find-behind k (e.0, v) m l
                ∙ sym (find-behind k e m l)
                ∙ rw (same_key ∙ less-differ laws e.0 k l) refl
            | inr g' ↦ find-here k (e.0, v) m g' ∙ rw (same_key, find-here k e m g') here_too
          ])
      where
        same_key : O.same key k ≡ O.same e.0 k
        same_key = ap (λ (x : K). O.same x k) (sym (laws.same_eq e.0 key s))

        here_too :
            (if O.same e.0 k then some v else none)
            ≡ (if O.same e.0 k then some v else if O.same e.0 k then some e.1 else none)
        here_too = ground arith

    -- The key goes before the pair at the front.
    Found-inserted :
        (key k : K) (v : V) (e : K × V) (m : List (K × V))
        → O.less e.0 key ≡ false
        → O.same e.0 key ≡ false
        → Found key k v (e ∷ m)
    unfolding Found
    Found-inserted key k v e m g d =
        rw (insert-here key v e m g, d)
          (elim (Bool-cases (O.less key k)) [
            | inl l ↦ find-behind k (key, v) (e ∷ m) l ∙ rw (less-differ laws key k l) refl
            | inr g' ↦ find-here k (key, v) (e ∷ m) g' ∙ elim (Bool-cases (O.same key k)) [
              | inl s ↦ rw s refl
              | inr d' ↦ rw d' (
                  sym (
                    find-below k e m (
                      laws.transitive k key e.0 (laws.total key k g' d') (laws.total e.0 key g d))))
            ]
          ])

    find-insert : (key k : K) (v : V) (m : List (K × V)) → Found key k v m
    find-insert key k v [] = Found-nil key k v
    find-insert key k v (e ∷ m) = elim (Bool-cases (O.less e.0 key)) [
      | inl l ↦ Found-behind key k v e m l (find-insert key k v m)
      | inr g ↦ elim (Bool-cases (O.same e.0 key)) [
        | inl s ↦ Found-replaced key k v e m g s
        | inr d ↦ Found-inserted key k v e m g d
      ]
    ]

    -- Inserting keeps the keys sorted, and afterwards the map finds the new value at the key and what
    -- it found before at every other one.
    pub insert_or_assign_lem :
        (key k : K) (v : V) (m : List (K × V))
        → IsSorted m
        → IsSorted (insert_or_assign O key v m)
          × (find O k (insert_or_assign O key v m) ≡ (if O.same key k then some v else find O k m))
    unfolding Found
    insert_or_assign_lem key k v m h = (IsSorted-insert key v m h, find-insert key k v m)
