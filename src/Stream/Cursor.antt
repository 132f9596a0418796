-- ===== src/Stream/Cursor.antt =====
-- A place in a sequence of fragments: the index of the current one and the position inside it. What
-- stands behind it, and how it moves.
use lightstep_tracer_cpp.Base.{
  ℕ, zero, suc, ◌+◌, ◌-◌, ◌≤◌, ◌<◌, ◌≡◌, refl, ap, sym, ◌∙◌, Bool, true, List, [], ◌∷◌, leb,
  if◌then◌else◌, length, get_or, drop, length-drop, drop-beyond, drop-drop, drop-get_or,
  get_or-drop, le_or_lt, arith, ◌⊎◌, inl, inr,
}
use lightstep_tracer_cpp.Stream.{Fragment, visit, from_position, if_go_on}

-- The fragments from there on.
abbrev pub from_cursor : List Fragment → ℕ → ℕ → List Fragment
from_cursor xs i p = from_position 0 p (drop i xs)

suc_one : (n : ℕ) → suc n ≡ n + 1
suc_one n = omega arith

-- The cursor stands behind all fragments, or in one.
pub current :
    (xs : List Fragment) (i p : ℕ)
    → ((length xs ≤ i) × (from_cursor xs i p ≡ []))
      ⊎ ((i < length xs) × (from_cursor xs i p ≡ drop p (get_or xs i []) ∷ drop (i + 1) xs))
current xs i p = elim (le_or_lt (length xs) i) [
  | inl h ↦ inl (h, ap (from_position 0 p) (drop-beyond i xs h))
  | inr h ↦ inr (
    h,
    ap (from_position 0 p)
        (drop-get_or i xs [] h ∙ ap (λ (j : ℕ). get_or xs i [] ∷ drop j xs) (suc_one i)),
  )
]

pub length-from_cursor :
    (xs : List Fragment) (i p : ℕ) → length xs - i ≡ length (from_cursor xs i p)
length-from_cursor xs i p = elim (current xs i p) [
  | inl (h, e) ↦ rw e (omega arith)
  | inr (h, e) ↦ rw e (omega (arith, length-drop (i + 1) xs))
]

-- The loop over the current fragment and those behind it.
pub visit-from_cursor :
    {A : Type 0} (f : Fragment → A → Bool × A) (xs : List Fragment) (i p : ℕ) (a : A)
    → (if leb (length xs) i
        then (true, a)
        else if_go_on (f (drop p (get_or xs i [])) a) (visit f (drop (i + 1) xs)))
      ≡ visit f (from_cursor xs i p) a
unfolding visit
visit-from_cursor f xs i p a = elim (current xs i p) [
  | inl (h, e) ↦ rw e (ground arith)
  | inr (h, e) ↦ rw e (ground arith)
]

from_position-zero :
    (p q : ℕ) (xs : List Fragment)
    → from_position 0 p (from_position 0 q xs) ≡ from_position 0 (q + p) xs
from_position-zero p q [] = refl
from_position-zero p q (x ∷ xs) = ap (λ (y : Fragment). y ∷ xs) (drop-drop q p (q + p) x refl)

from_position-suc :
    (i p q : ℕ) (xs : List Fragment)
    → from_position (suc i) p (from_position 0 q xs) ≡ from_position (suc i) p xs
from_position-suc i p q [] = refl
from_position-suc i p q (x ∷ xs) = refl

from_position-drop :
    (i p : ℕ) (xs : List Fragment) → from_position i p xs ≡ from_position 0 p (drop i xs)
from_position-drop zero p xs = refl
from_position-drop (suc i) p [] = refl
from_position-drop (suc i) p (x ∷ xs) = from_position-drop i p xs

-- A move inside the current fragment.
pub move_inside :
    (q : ℕ) (xs : List Fragment) (i p : ℕ)
    → from_cursor xs i (p + q) ≡ from_position 0 q (from_cursor xs i p)
move_inside q xs i p = sym (from_position-zero q p _)

-- A move to a later fragment.
pub move_on :
    (k q : ℕ) (xs : List Fragment) (i p : ℕ)
    → from_cursor xs (i + suc k) q ≡ from_position (suc k) q (from_cursor xs i p)
move_on k q xs i p =
    ap (from_position 0 q) (sym (drop-drop i (suc k) _ xs refl))
    ∙ sym (from_position-drop (suc k) q (drop i xs))
    ∙ sym (from_position-suc k q p (drop i xs))

first-from_position :
    (p : ℕ) (xs : List Fragment)
    → length (get_or (from_position 0 p xs) 0 []) ≡ length (get_or xs 0 []) - p
first-from_position p [] = omega arith
first-from_position p (x ∷ xs) = length-drop p x

later-from_position :
    (k p : ℕ) (xs : List Fragment) → get_or (from_position 0 p xs) (suc k) [] ≡ get_or xs (suc k) []
later-from_position k p [] = refl
later-from_position k p (x ∷ xs) = refl

-- How long the fragments from the cursor on are.
pub length-first :
    (xs : List Fragment) (i p : ℕ)
    → length (get_or (from_cursor xs i p) 0 []) ≡ length (get_or xs i []) - p
length-first xs i p =
    omega
      (arith, first-from_position p (drop i xs), ap length (get_or-drop i 0 i xs [] (omega arith)))

pub length-later :
    (k : ℕ) (xs : List Fragment) (i p : ℕ)
    → length (get_or (from_cursor xs i p) (suc k) []) ≡ length (get_or xs (i + suc k) [])
length-later k xs i p =
    ap length (later-from_position k p (drop i xs) ∙ get_or-drop i (suc k) _ xs [] refl)
