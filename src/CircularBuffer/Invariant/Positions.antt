-- ===== src/CircularBuffer/Invariant/Positions.antt =====
-- Lists by position, and positions by slot: the facts on which the invariant of the buffer rests.
use lightstep_tracer_cpp.Base.{
  ℕ, zero, suc, ◌+◌, ◌*◌, ◌/◌, ◌%◌, ◌≤◌, ◌<◌, ◌≡◌, ◌≢◌, refl, ap, arith, some, List, [], ◌∷◌, ◌++◌,
  length, get_elem?, take,
}
use native.Mathlib.Decide.{dec_lt}
use native.Mathlib.Nat.{div-add-mod}

pub get_elem?-lt {ℓ} :
    {A : Type ℓ} (xs : List A) (p : ℕ) → p < length xs → (x : A) × (get_elem? xs p ≡ some x)
get_elem?-lt [] p h = absurd (omega arith)
get_elem?-lt (x ∷ xs) zero h = (x, refl)
get_elem?-lt (x ∷ xs) (suc p) h = get_elem?-lt xs p (omega arith)

pub get_elem?-append_left {ℓ} :
    {A : Type ℓ} (xs ys : List A) (p : ℕ) → p < length xs → get_elem? (xs ++ ys) p ≡ get_elem? xs p
get_elem?-append_left [] ys p h = absurd (omega arith)
get_elem?-append_left (x ∷ xs) ys zero h = refl
get_elem?-append_left (x ∷ xs) ys (suc p) h = get_elem?-append_left xs ys p (omega arith)

pub get_elem?-append_last {ℓ} :
    {A : Type ℓ} (xs : List A) (x : A) → get_elem? (xs ++ (x ∷ [])) (length xs) ≡ some x
get_elem?-append_last [] x = refl
get_elem?-append_last (y ∷ xs) x = get_elem?-append_last xs x

pub take-append_left {ℓ} :
    {A : Type ℓ} (n : ℕ) (xs ys : List A) → n ≤ length xs → take n (xs ++ ys) ≡ take n xs
take-append_left zero xs ys h = refl
take-append_left (suc n) [] ys h = absurd (omega arith)
take-append_left (suc n) (x ∷ xs) ys h = ap (λ r. x ∷ r) (take-append_left n xs ys (omega arith))

pub take-suc {ℓ} :
    {A : Type ℓ} (n : ℕ) (xs : List A) (x : A)
    → get_elem? xs n ≡ some x
    → take (suc n) xs ≡ take n xs ++ (x ∷ [])
take-suc zero [] x e = cc
take-suc zero (y ∷ xs) x e = cc
take-suc (suc n) [] x e = cc
take-suc (suc n) (y ∷ xs) x e = ap (λ r. y ∷ r) (take-suc n xs x e)

pub mul_mono : (a b c : ℕ) → a ≤ b → a * c ≤ b * c
mul_mono a b c h = grind arith

-- Two positions less than one turn apart use different slots.
pub mod_differs :
    (p q modulus : ℕ) → 0 < modulus → p < q → q < p + modulus → q % modulus ≢ p % modulus
mod_differs p q modulus hc lo hi e = elim (dec_lt (p / modulus) (q / modulus)) [
  | yes a ↦ omega (
    arith,
    mul_mono (p / modulus + 1) (q / modulus) modulus (omega arith),
    div-add-mod p modulus,
    div-add-mod q modulus,
  )
  | no b ↦ omega (
    arith,
    mul_mono (q / modulus) (p / modulus) modulus (omega arith),
    div-add-mod p modulus,
    div-add-mod q modulus,
  )
]
