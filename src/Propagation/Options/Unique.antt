-- ===== src/Propagation/Options/Unique.antt =====
-- `UniqifyPropagationModes` and the mode lists of src/tracer/propagation/propagation_options.cpp.
use lightstep_tracer_cpp.Base.{
  ◌≡◌, refl, ap, ◌∙◌, arith, true, false, not, ◌||◌, ◌&&◌, List, [], ◌∷◌, if◌then◌else◌, Bool-cases,
  inl, inr,
}
use lightstep_tracer_cpp.Propagation.Options.{
  PropagationMode, lightstep, envoy, mode_eq, contains, uniqify_from, uniqify_propagation_modes,
  extract_modes, set_inject_extract_propagation_modes,
}

mode_eq_refl : (m : PropagationMode) → mode_eq m m ≡ true
unfolding mode_eq
mode_eq_refl m = ground arith

mode_eq→eq : (m n : PropagationMode) → mode_eq m n ≡ true → m ≡ n
unfolding mode_eq
mode_eq→eq m n h = ground arith

-- The modes of a list that are not among the given ones, in order.
unfoldable pub remove : List PropagationMode → List PropagationMode → List PropagationMode
remove values [] = []
remove values (n ∷ ns) = let rest = remove values ns in if contains values n then rest else n ∷ rest

-- Each mode where it stands first: the specification of uniqifying.
unfoldable pub first_occurrences : List PropagationMode → List PropagationMode
first_occurrences [] = []
first_occurrences (m ∷ ms) = m ∷ remove (m ∷ []) (first_occurrences ms)

-- No mode stands twice.
abbrev pub IsDistinct : List PropagationMode → Type 0
IsDistinct [] = Unit {0}
IsDistinct (m ∷ ms) = (contains ms m ≡ false) × IsDistinct ms

remove_both :
    (values : List PropagationMode) (m : PropagationMode) (ns : List PropagationMode)
    → remove values (remove (m ∷ []) ns) ≡ remove (m ∷ values) ns
unfolding remove contains
remove_both values m [] = refl
remove_both values m (n ∷ ns) = ground (arith, remove_both values m ns)

remove_seen :
    (values : List PropagationMode) (m : PropagationMode) (ns : List PropagationMode)
    → contains values m ≡ true
    → remove (m ∷ values) ns ≡ remove values ns
unfolding remove contains
remove_seen values m [] h = refl
remove_seen values m (n ∷ ns) h = ground (arith, remove_seen values m ns h, mode_eq→eq n m)

uniqify_from-remove :
    (values ms : List PropagationMode)
    → uniqify_from values ms ≡ remove values (first_occurrences ms)
unfolding uniqify_from first_occurrences remove contains
uniqify_from-remove values [] = refl
uniqify_from-remove values (m ∷ ms) = elim (Bool-cases (contains values m)) [
  | inl seen ↦ ground (
    arith,
    uniqify_from-remove values ms,
    remove_both values m (first_occurrences ms),
    remove_seen values m (first_occurrences ms) seen,
  )
  | inr fresh ↦
      ground
        (arith, uniqify_from-remove (m ∷ values) ms, remove_both values m (first_occurrences ms))
]

remove_none : (ns : List PropagationMode) → remove [] ns ≡ ns
unfolding remove contains
remove_none [] = refl
remove_none (n ∷ ns) = ap (λ r. n ∷ r) (remove_none ns)

contains-remove :
    (values ns : List PropagationMode) (m : PropagationMode)
    → contains (remove values ns) m ≡ (not (contains values m) && contains ns m)
unfolding contains remove
contains-remove values [] m = ground arith
contains-remove values (n ∷ ns) m = ground (arith, contains-remove values ns m, mode_eq→eq m n)

contains-first :
    (ms : List PropagationMode) (m : PropagationMode)
    → contains (first_occurrences ms) m ≡ contains ms m
unfolding first_occurrences contains
contains-first [] m = refl
contains-first (n ∷ ns) m =
    ground (arith, contains-remove (n ∷ []) (first_occurrences ns) m, contains-first ns m)

remove-IsDistinct :
    (values ns : List PropagationMode) → IsDistinct ns → IsDistinct (remove values ns)
unfolding remove
remove-IsDistinct values [] h = tt
remove-IsDistinct values (n ∷ ns) h =
    ground (arith, remove-IsDistinct values ns h.1, contains-remove values ns n)

first-IsDistinct : (ms : List PropagationMode) → IsDistinct (first_occurrences ms)
unfolding first_occurrences
first-IsDistinct [] = tt
first-IsDistinct (m ∷ ms) = (
  self m (first_occurrences ms),
  remove-IsDistinct (m ∷ []) (first_occurrences ms) (first-IsDistinct ms),
)
  where
    self :
        (m : PropagationMode) (ns : List PropagationMode) → contains (remove (m ∷ []) ns) m ≡ false
    self m ns = unfold contains in ground (arith, contains-remove (m ∷ []) ns m, mode_eq_refl m)

-- Uniqifying keeps each mode where it first stands: the result is the list of first occurrences, it
-- holds no mode twice, and it holds exactly the modes that were given.
pub uniqify_lem :
    (ms : List PropagationMode) (m : PropagationMode)
    → (uniqify_propagation_modes ms ≡ first_occurrences ms)
      × IsDistinct (uniqify_propagation_modes ms)
      × (contains (uniqify_propagation_modes ms) m ≡ contains ms m)
unfolding uniqify_propagation_modes
uniqify_lem ms m =
    rw (uniqify_from-remove [] ms, remove_none (first_occurrences ms))
      (refl, first-IsDistinct ms, contains-first ms m)

contains-extract_modes :
    (ms : List PropagationMode) (m : PropagationMode)
    → contains (extract_modes ms) m ≡ (contains ms m || (contains ms envoy && mode_eq m lightstep))
unfolding contains extract_modes mode_eq
contains-extract_modes [] m = ground arith
contains-extract_modes (envoy ∷ ms) m = ground (arith, contains-extract_modes ms m)
contains-extract_modes (n ∷ ms) m = ground (arith, contains-extract_modes ms m)

-- The modes to inject are those given; the modes to extract are those given, and LightStep's where
-- Envoy's is given. Neither list holds a mode twice.
pub set_inject_extract_lem :
    (ms : List PropagationMode) (m : PropagationMode)
    → let (inject, extract) = set_inject_extract_propagation_modes ms in
      IsDistinct inject
      × IsDistinct extract
      × (contains inject m ≡ contains ms m)
      × (contains extract m ≡ (contains ms m || (contains ms envoy && mode_eq m lightstep)))
unfolding set_inject_extract_propagation_modes
set_inject_extract_lem ms m =
    let (_, di, ci) = uniqify_lem ms m in
    let (_, de, ce) = uniqify_lem (extract_modes ms) m in
    (di, de, ci, ce ∙ contains-extract_modes ms m)
