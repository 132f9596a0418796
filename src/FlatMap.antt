-- ===== src/FlatMap.antt =====
-- src/common/flat_map.h: a map as a vector of pairs in the order of their keys. The order and the
-- equality of the keys are parameters; `std::lower_bound` on a range that the order partitions is the
-- index of the first pair whose key is not less.
use lightstep_tracer_cpp.Base.{
  ℕ, zero, suc, Bool, true, false, List, [], ◌∷◌, if◌then◌else◌, Option, none, some, get_elem?, set,
  ◌≡◌,
}
pub mod Lookup

-- `Comp{}` and `==` on the keys.
pub record KeyOrder (K : Type 0) : Type 0 where
  pub less : K → K → Bool
  pub same : K → K → Bool

-- What the map relies on: a strict total order.
pub record IsTotal {K : Type 0} (O : KeyOrder K) : Type 0 where
  pub same_eq : (a b : K) → O.same a b ≡ true → a ≡ b
  pub same_self : (a : K) → O.same a a ≡ true
  pub irreflexive : (a : K) → O.less a a ≡ false
  pub transitive : (a b c : K) → O.less a b ≡ true → O.less b c ≡ true → O.less a c ≡ true
  pub total : (a b : K) → O.less a b ≡ false → O.same a b ≡ false → O.less b a ≡ true

module _ {K V : Type 0} where
  abbrev pub insert_at : ℕ → K × V → List (K × V) → List (K × V)
  insert_at zero e m = e ∷ m
  insert_at (suc i) e [] = e ∷ []
  insert_at (suc i) e (x ∷ m) = x ∷ insert_at i e m

  module _ (O : KeyOrder K) where
    unfoldable pub lower_bound : K → List (K × V) → ℕ
    lower_bound key [] = 0
    lower_bound key (e ∷ m) =
        let behind = lower_bound key m in if O.less e.0 key then suc behind else 0

    abbrev pub assign_or_insert : ℕ → Option (K × V) → K → V → List (K × V) → List (K × V)
    assign_or_insert i none key value m = insert_at i (key, value) m
    assign_or_insert i (some e) key value m =
        if O.same e.0 key then set m i (e.0, value) else insert_at i (key, value) m

    unfoldable pub insert_or_assign : K → V → List (K × V) → List (K × V)
    unfolding lower_bound
    insert_or_assign key value m =
        let i = lower_bound key m in assign_or_insert i (get_elem? m i) key value m

    abbrev pub found : K → Option (K × V) → Option V
    found key none = none
    found key (some e) = if O.same e.0 key then some e.1 else none

    unfoldable pub find : K → List (K × V) → Option V
    unfolding lower_bound
    find key m = found key (get_elem? m (lower_bound key m))
