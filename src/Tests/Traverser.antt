-- ===== src/Tests/Traverser.antt =====
-- A traversal of four indexes that the callback breaks off at the index 0.
use lightstep_tracer_cpp.Base.{
  ℕ, suc, ◌<◌, ◌≡◌, refl, Bool, false, not, List, [], ◌∷◌, ◌==◌, length, arith,
}
use mathlib.Core.List.{Perm}
use lightstep_tracer_cpp.RandomTraverser.{iota, new_random_traverser, for_each_index}
use lightstep_tracer_cpp.RandomTraverser.Order.{IsInRange, in_order, for_each_index-in_order}

abbrev until_zero : ℕ → List ℕ → Bool × List ℕ
until_zero i seen = (not (i == 0), i ∷ seen)

abbrev always_last : ℕ → ℕ
always_last i = 3

broken_off :
    for_each_index until_zero always_last (new_random_traverser 4) []
    ≡ (false, 0 ∷ 3 ∷ [], record { indexes = 3 ∷ 0 ∷ 2 ∷ 1 ∷ [] })
unfolding for_each_index iota
broken_off = refl

always_last-IsInRange : IsInRange always_last (length (new_random_traverser 4).indexes)
unfolding iota
always_last-IsInRange i h = let below : suc i < 4 = h in (omega arith, omega arith)

for_each_index-in_order_example :
    let (finished, seen, t) = for_each_index until_zero always_last (new_random_traverser 4) [] in
    ((finished, seen) ≡ in_order until_zero t.indexes [])
    × Perm t.indexes (new_random_traverser 4).indexes
for_each_index-in_order_example =
    for_each_index-in_order until_zero always_last (new_random_traverser 4) [] always_last-IsInRange
