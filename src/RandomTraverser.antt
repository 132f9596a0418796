-- ===== src/RandomTraverser.antt =====
-- src/common/random_traverser.h and .cpp: indexes in random order. `draw i` is what the distribution over
-- [i, n - 1] gives.
use lightstep_tracer_cpp.Base.{
  ℕ, zero, suc, ◌-◌, Bool, true, false, List, [], ◌∷◌, get_or, set, length, if◌then◌else◌,
}
pub mod Order

pub record RandomTraverser : Type 0 where
  pub indexes : List ℕ

-- `std::iota`: `n` numbers from `i` on.
unfoldable pub iota : ℕ → ℕ → List ℕ
iota zero i = []
iota (suc n) i = i ∷ iota n (suc i)

abbrev pub new_random_traverser : ℕ → RandomTraverser
new_random_traverser n = record { indexes = iota n 0 }

-- `std::swap` of two elements.
abbrev pub swap : List ℕ → ℕ → ℕ → List ℕ
swap xs i j = set (set xs i (get_or xs j 0)) j (get_or xs i 0)

module _ {ℓ} {A : Type ℓ} (callback : ℕ → A → Bool × A) (draw : ℕ → ℕ) where
  -- The loop from `i` on, which has `steps` rounds left; then the last index.
  unfoldable pub for_each_from : ℕ → ℕ → List ℕ → A → Bool × A × List ℕ
  for_each_from zero i indexes a =
      let (goes_on, a') = callback (get_or indexes (length indexes - 1) 0) a in
      (goes_on, a', indexes)
  for_each_from (suc steps) i indexes a =
      let swapped = swap indexes i (draw i) in
      let (goes_on, a') = callback (get_or swapped i 0) a in
      let rest = for_each_from steps (suc i) swapped a' in
      if goes_on then rest else (false, a', swapped)

  unfoldable pub for_each_indexes : List ℕ → A → Bool × A × List ℕ
  unfolding for_each_from
  for_each_indexes [] a = (true, a, [])
  for_each_indexes (x ∷ xs) a = for_each_from (length xs) 0 (x ∷ xs) a

  -- Whether the callback never broke off, what it left, and the traverser.
  unfoldable pub for_each_index : RandomTraverser → A → Bool × A × RandomTraverser
  unfolding for_each_indexes
  for_each_index t a =
      let (finished, a', indexes) = for_each_indexes t.indexes a in
      (finished, a', record { indexes = indexes })
