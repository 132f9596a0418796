-- ===== src/Value/Json/Reader.antt =====
-- A reader of JSON strings, and that it reads back each byte that WriteEscapedString of
-- src/common/utility.cpp writes.
use lightstep_tracer_cpp.Base.{
  ℕ, zero, suc, ◌+◌, ◌-◌, ◌*◌, ◌/◌, ◌%◌, ◌<◌, ◌≡◌, refl, ap, ◌∙◌, Bool, true, false, ◌||◌, List, [],
  ◌∷◌, ◌++◌, Option, none, some, ltb, leb, ◌&&◌, ◌==◌, if◌then◌else◌, if_elim, ==_iff, arith,
}
use lightstep_tracer_cpp.Value.{Writer, print_hex_digits, write_unicode, write_escaped_char}

-- A reader of JSON strings, behind the opening quote: what it has seen of an escape.
pub data Reading : Type 0 where
  plain escape : Reading
  unicode : ℕ → ℕ → Reading

abbrev hex_digit : ℕ → Option ℕ
hex_digit c =
    if leb b'0' c && leb c b'9'
    then some (c - b'0')
    else if leb b'a' c && leb c b'f'
    then some (c - b'a' + 10)
    else if leb b'A' c && leb c b'F'
    then some (c - b'A' + 10)
    else none

-- The byte that the letter behind a backslash stands for; JSON has no other letters there but `u`.
abbrev short_escape : ℕ → Option ℕ
short_escape c =
    if c == b'"' || c == b'\\' || c == b'/'
    then some c
    else if c == b'b'
    then some 8
    else if c == b'f'
    then some 12
    else if c == b'n'
    then some 10
    else if c == b'r'
    then some 13
    else if c == b't'
    then some 9
    else none

abbrev pub prepend : ℕ → Option (List ℕ × List ℕ) → Option (List ℕ × List ℕ)
prepend c none = none
prepend c (some (s, rest)) = some (c ∷ s, rest)

abbrev prepend_escape : Option ℕ → Option (List ℕ × List ℕ) → Option (List ℕ × List ℕ)
prepend_escape none r = none
prepend_escape (some c) r = prepend c r

-- A code of four hex digits; codes that are not ASCII are refused.
abbrev prepend_code : ℕ → Option ℕ → Option (List ℕ × List ℕ) → Option (List ℕ × List ℕ)
prepend_code n none r = none
prepend_code n (some d) r = if ltb (n * 16 + d) 128 then prepend (n * 16 + d) r else none

-- The string up to the closing quote, and what follows it. Control characters that are not escaped,
-- unknown escapes and codes that are not four hex digits are refused.
unfoldable pub read_string : Reading → List ℕ → Option (List ℕ × List ℕ)
read_string r [] = none
read_string plain (c ∷ s) =
    let more = prepend c (read_string plain s) in
    let escaped = read_string escape s in
    if c == b'"'
    then some ([], s)
    else if c == b'\\'
    then escaped
    else if ltb c 32
    then none
    else more
read_string escape (c ∷ s) =
    let more = prepend_escape (short_escape c) (read_string plain s) in
    let code = read_string (unicode 3 0) s in if c == b'u' then code else more
read_string (unicode zero n) (c ∷ s) = prepend_code n (hex_digit c) (read_string plain s)
read_string (unicode (suc k) n) (c ∷ s) = elim (hex_digit c) [
  | none ↦ none
  | some d ↦ read_string (unicode k (n * 16 + d)) s
]

-- What is written of one byte.
abbrev pub escaped_char : ℕ → List ℕ
escaped_char c = (write_escaped_char c (record { text = []; hex = false })).text

unicode_digit :
    (c : ℕ)
    → print_hex_digits 1 c []
      ≡ (if ltb (c % 16) 10 then b'0' + c % 16 else b'a' + (c % 16 - 10)) ∷ []
unfolding print_hex_digits
unicode_digit c =
    if_elim (λ s. s ≡ (if ltb (c % 16) 10 then b'0' + c % 16 else b'a' + (c % 16 - 10)) ∷ [])
      (c / 16 == 0) ((if ltb (c % 16) 10 then b'0' + c % 16 else b'a' + (c % 16 - 10)) ∷ [])
      ((if ltb (c % 16) 10 then b'0' + c % 16 else b'a' + (c % 16 - 10)) ∷ []) (λ _. refl)
      (λ _. refl)

-- The two digits of a control character.
high_digit : (c : ℕ) → c < 32 → hex_digit (b'0' + c / 16) ≡ some (c / 16)
high_digit c h = ground arith

low_digit :
    (c : ℕ)
    → hex_digit (if ltb (c % 16) 10 then b'0' + c % 16 else b'a' + (c % 16 - 10)) ≡ some (c % 16)
low_digit c = ground arith

code_number :
    (c : ℕ) (r : Option (List ℕ × List ℕ))
    → c < 32
    → prepend_code (0 * 16 + c / 16) (some (c % 16)) r ≡ prepend c r
code_number c r h =
    ap (λ (n : ℕ). if ltb n 128 then prepend n r else none) number
    ∙ ap (λ (b : Bool). if b then prepend c r else none) ascii
  where
    number : (0 * 16 + c / 16) * 16 + c % 16 ≡ c
    number = omega arith

    ascii : ltb c 128 ≡ true
    ascii = ground arith

read-first_digits :
    (x d n : ℕ) (s : List ℕ)
    → hex_digit x ≡ some d
    → read_string (unicode 1 n) (x ∷ s) ≡ read_string (unicode 0 (n * 16 + d)) s
unfolding read_string
read-first_digits x d n s e =
    ap (λ (o : Option ℕ). elim o [ none ↦ none | some d ↦ read_string (unicode 0 (n * 16 + d)) s ])
      e

read-last_digit :
    (x d n : ℕ) (s : List ℕ)
    → hex_digit x ≡ some d
    → read_string (unicode 0 n) (x ∷ s) ≡ prepend_code n (some d) (read_string plain s)
unfolding read_string
read-last_digit x d n s e = ap (λ (o : Option ℕ). prepend_code n o (read_string plain s)) e

read-unicode :
    (c : ℕ) (s : List ℕ)
    → c < 32
    → read_string plain ((write_unicode c (record { text = []; hex = false })).text ++ s)
      ≡ prepend c (read_string plain s)
unfolding write_unicode read_string
read-unicode c s h =
    ap (λ (d : List ℕ). read_string (unicode 1 0) ((b'0' + c / 16) ∷ (d ++ s))) (unicode_digit c)
    ∙ (read-first_digits (b'0' + c / 16) (c / 16) 0
          ((if ltb (c % 16) 10 then b'0' + c % 16 else b'a' + (c % 16 - 10)) ∷ s) (high_digit c h)
        ∙ (read-last_digit (if ltb (c % 16) 10 then b'0' + c % 16 else b'a' + (c % 16 - 10))
              (c % 16) (0 * 16 + c / 16) s (low_digit c)
            ∙ code_number c (read_string plain s) h))

read-plain :
    (c : ℕ) (s : List ℕ)
    → (c == b'"') ≡ false
    → (c == b'\\') ≡ false
    → ltb c 32 ≡ false
    → read_string plain (c ∷ s) ≡ prepend c (read_string plain s)
unfolding read_string
read-plain c s quote backslash control = ground arith

pub read-escaped_char :
    (c : ℕ) (s : List ℕ) → read_string plain (escaped_char c ++ s) ≡ prepend c (read_string plain s)
unfolding write_escaped_char write_unicode read_string print_hex_digits
read-escaped_char c s =
    if_elim P (c == b'"') _ _ (λ e. rw ((==_iff c b'"').0 e) refl)
      (λ quote.
        if_elim P (c == b'\\') _ _ (λ e. rw ((==_iff c b'\\').0 e) refl)
          (λ backslash.
            if_elim P (c == 8) _ _ (λ e. rw ((==_iff c 8).0 e) refl)
              (λ _.
                if_elim P (c == 10) _ _ (λ e. rw ((==_iff c 10).0 e) refl)
                  (λ _.
                    if_elim P (c == 13) _ _ (λ e. rw ((==_iff c 13).0 e) refl)
                      (λ _.
                        if_elim P (c == 9) _ _ (λ e. rw ((==_iff c 9).0 e) refl)
                          (λ _.
                            if_elim P (ltb c 32) _ _ (λ e. read-unicode c s (ground arith))
                              (λ control. read-plain c s quote backslash control)))))))
  where
    P : Writer → Type 0
    P w = read_string plain (w.text ++ s) ≡ prepend c (read_string plain s)
