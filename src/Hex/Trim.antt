-- ===== src/Hex/Trim.antt =====
-- The text of a header value between its blanks, and its significant digits, said without the loops of
-- src/common/hex_conversion.cpp; and that those loops find them.
use lightstep_tracer_cpp.Base.{
  ℕ, zero, suc, ◌-◌, ◌≤◌, ◌≡◌, refl, ap, ◌∙◌, arith, Bool, true, false, ◌||◌, List, [], ◌∷◌, ◌==◌,
  if◌then◌else◌, length, take, drop,
}
use lightstep_tracer_cpp.Hex.{
  is_space, skip_leading_spaces, cons_unless_space, skip_trailing_spaces,
  remove_surrounding_whitespace, skip_zeros,
}

-- Space, tabulators, line feed, form feed and carriage return.
abbrev pub is_blank : ℕ → Bool
is_blank c = c == b' ' || c == b'\t' || c == b'\n' || c == 11 || c == 12 || c == b'\r'

-- How many characters at the start of a text pass a test.
unfoldable pub leading : (ℕ → Bool) → List ℕ → ℕ
leading test [] = 0
leading test (c ∷ s) = let more = leading test s in if test c then suc more else 0

-- How far the last character that is not blank reaches.
unfoldable pub text_end : List ℕ → ℕ
text_end [] = 0
text_end (c ∷ s) =
    let behind = text_end s in if behind == 0 then if is_blank c then 0 else 1 else suc behind

unfoldable pub trim : List ℕ → List ℕ
unfolding leading text_end
trim s = let t = drop (leading is_blank s) s in take (text_end t) t

-- The number of digits without the leading zeros.
unfoldable pub significant : List ℕ → ℕ
unfolding leading
significant s = length s - leading (λ c. c == b'0') s

is_space-is_blank : (c : ℕ) → is_space c ≡ is_blank c
unfolding is_space
is_space-is_blank c = ground arith

skip_leading_spaces-drop : (s : List ℕ) → skip_leading_spaces s ≡ drop (leading is_blank s) s
unfolding skip_leading_spaces leading
skip_leading_spaces-drop [] = refl
skip_leading_spaces-drop (c ∷ s) =
    ap (λ (b : Bool). if b then skip_leading_spaces s else c ∷ s) (is_space-is_blank c)
    ∙ by_test (is_blank c) (skip_leading_spaces-drop s)
  where
    by_test :
        (b : Bool)
        → skip_leading_spaces s ≡ drop (leading is_blank s) s
        → (if b then skip_leading_spaces s else c ∷ s)
          ≡ drop (if b then suc (leading is_blank s) else 0) (c ∷ s)
    by_test true ih = ih
    by_test false ih = refl

cons_take :
    (c k : ℕ) (s : List ℕ)
    → k ≤ length s
    → cons_unless_space c (take k s)
      ≡ take (if k == 0 then if is_blank c then 0 else 1 else suc k) (c ∷ s)
cons_take c zero s h =
    ap (λ (b : Bool). if b then [] else c ∷ []) (is_space-is_blank c) ∙ by_test (is_blank c)
  where
    by_test : (b : Bool) → (if b then [] else c ∷ []) ≡ take (if b then 0 else 1) (c ∷ s)
    by_test true = refl
    by_test false = refl
cons_take c (suc k) [] h = absurd (omega arith)
cons_take c (suc k) (d ∷ s) h =
    ap (λ (b : Bool). take (if b then if is_blank c then 0 else 1 else suc (suc k)) (c ∷ d ∷ s))
      not_zero
  where
    not_zero : false ≡ (suc k == 0)
    not_zero = ground arith

text_end_le : (s : List ℕ) → text_end s ≤ length s
unfolding text_end
text_end_le [] = omega arith
text_end_le (c ∷ s) = ground (arith, text_end_le s)

skip_trailing_spaces-take : (s : List ℕ) → skip_trailing_spaces s ≡ take (text_end s) s
unfolding skip_trailing_spaces text_end
skip_trailing_spaces-take [] = refl
skip_trailing_spaces-take (c ∷ s) =
    ap (cons_unless_space c) (skip_trailing_spaces-take s)
    ∙ cons_take c (text_end s) s (text_end_le s)

pub remove_surrounding_whitespace-trim : (s : List ℕ) → remove_surrounding_whitespace s ≡ trim s
unfolding remove_surrounding_whitespace trim
remove_surrounding_whitespace-trim s =
    ap skip_trailing_spaces (skip_leading_spaces-drop s)
    ∙ skip_trailing_spaces-take (drop (leading is_blank s) s)

leading_le : (test : ℕ → Bool) (s : List ℕ) → leading test s ≤ length s
unfolding leading
leading_le test [] = omega arith
leading_le test (c ∷ s) = ground (arith, leading_le test s)

pub length-skip_zeros_lem : (s : List ℕ) → length (skip_zeros s) ≡ significant s
unfolding skip_zeros significant leading
length-skip_zeros_lem [] = omega arith
length-skip_zeros_lem (c ∷ s) =
    ground (arith, length-skip_zeros_lem s, leading_le (λ c. c == b'0') s)
