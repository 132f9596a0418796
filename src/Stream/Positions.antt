-- ===== src/Stream/Positions.antt =====
-- Loops and positions in a sequence of fragments that is put together from two.
use lightstep_tracer_cpp.Base.{
  ℕ, zero, suc, ◌-◌, ◌≤◌, ◌<◌, ◌≡◌, refl, ap, sym, append_assoc, ◌∙◌, Bool, true, false, List, [],
  ◌∷◌, ◌++◌, length, get_or, arith,
}
use lightstep_tracer_cpp.Stream.{Fragment, concat, visit, from_position, if_go_on}

pub if_go_on-cong :
    {A : Type 0} (r : Bool × A) (k l : A → Bool × A)
    → ((a : A) → k a ≡ l a)
    → if_go_on r k ≡ if_go_on r l
if_go_on-cong (true, a) k l h = h a
if_go_on-cong (false, a) k l h = refl

pub if_go_on_assoc :
    {A : Type 0} (r : Bool × A) (k l : A → Bool × A)
    → if_go_on r (λ a. if_go_on (k a) l) ≡ if_go_on (if_go_on r k) l
if_go_on_assoc (true, a) k l = refl
if_go_on_assoc (false, a) k l = refl

pub visit-append :
    {A : Type 0} (f : Fragment → A → Bool × A) (xs ys : List Fragment) (a : A)
    → visit f (xs ++ ys) a ≡ if_go_on (visit f xs a) (visit f ys)
unfolding visit
visit-append f [] ys a = refl
visit-append f (x ∷ xs) ys a =
    if_go_on-cong (f x a) _ _ (visit-append f xs ys)
    ∙ if_go_on_assoc (f x a) (visit f xs) (visit f ys)

pub get_or-append_inside :
    (i : ℕ) (xs ys : List Fragment) → i < length xs → get_or (xs ++ ys) i [] ≡ get_or xs i []
get_or-append_inside i [] ys h = absurd (omega arith)
get_or-append_inside zero (x ∷ xs) ys h = refl
get_or-append_inside (suc i) (x ∷ xs) ys h = get_or-append_inside i xs ys (omega arith)

pub get_or-append_behind :
    (i : ℕ) (xs ys : List Fragment)
    → length xs ≤ i
    → get_or (xs ++ ys) i [] ≡ get_or ys (i - length xs) []
get_or-append_behind i [] ys h = ap (λ (j : ℕ). get_or ys j []) (omega arith)
get_or-append_behind zero (x ∷ xs) ys h = absurd (omega arith)
get_or-append_behind (suc i) (x ∷ xs) ys h =
    get_or-append_behind i xs ys (omega arith) ∙ ap (λ (j : ℕ). get_or ys j []) (omega arith)

pub from-append_inside :
    (i p : ℕ) (xs ys : List Fragment)
    → i < length xs
    → from_position i p (xs ++ ys) ≡ from_position i p xs ++ ys
from-append_inside i p [] ys h = absurd (omega arith)
from-append_inside zero p (x ∷ xs) ys h = refl
from-append_inside (suc i) p (x ∷ xs) ys h = from-append_inside i p xs ys (omega arith)

pub from-append_behind :
    (i p : ℕ) (xs ys : List Fragment)
    → length xs ≤ i
    → from_position i p (xs ++ ys) ≡ from_position (i - length xs) p ys
from-append_behind i p [] ys h = ap (λ (j : ℕ). from_position j p ys) (omega arith)
from-append_behind zero p (x ∷ xs) ys h = absurd (omega arith)
from-append_behind (suc i) p (x ∷ xs) ys h =
    from-append_behind i p xs ys (omega arith) ∙ ap (λ (j : ℕ). from_position j p ys) (omega arith)

pub concat-append : (xs ys : List Fragment) → concat (xs ++ ys) ≡ concat xs ++ concat ys
unfolding concat
concat-append [] ys = refl
concat-append (x ∷ xs) ys =
    ap (λ (r : List ℕ). x ++ r) (concat-append xs ys) ∙ sym (append_assoc x (concat xs) (concat ys))
