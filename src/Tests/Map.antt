-- ===== src/Tests/Map.antt =====
-- The flat map at concrete inputs.
use lightstep_tracer_cpp.Base.{ℕ, ◌≡◌, refl, arith, List, [], ◌∷◌, ltb, ◌==◌, ==_iff}
use lightstep_tracer_cpp.FlatMap.{KeyOrder, IsTotal, insert_or_assign, find, lower_bound}
use lightstep_tracer_cpp.FlatMap.Lookup.{IsSorted, insert_or_assign_lem}

abbrev by_number : KeyOrder ℕ
by_number = record { less = ltb; same = ◌==◌ }

by_number-IsTotal : IsTotal by_number
by_number-IsTotal = record {
  same_eq = λ a b h. (==_iff a b).0 h;
  same_self = λ a. (==_iff a a).1 refl;
  irreflexive = λ a. ground arith;
  transitive = λ a b c l r. ground arith;
  total = λ a b l s. ground arith;
}

abbrev two_entries : List (ℕ × ℕ)
two_entries = (2, 20) ∷ (4, 40) ∷ []

inserted_between : insert_or_assign by_number 3 30 two_entries ≡ (2, 20) ∷ (3, 30) ∷ (4, 40) ∷ []
unfolding insert_or_assign lower_bound
inserted_between = refl

two_entries-IsSorted : IsSorted by_number two_entries
two_entries-IsSorted = ((refl, tt), (tt, tt))

insert_or_assign_lem_example :
    IsSorted by_number (insert_or_assign by_number 3 30 two_entries)
    × (find by_number 4 (insert_or_assign by_number 3 30 two_entries)
        ≡ find by_number 4 two_entries)
insert_or_assign_lem_example =
    insert_or_assign_lem by_number by_number-IsTotal 3 4 30 two_entries two_entries-IsSorted
