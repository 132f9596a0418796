-- ===== src/Value/Json.antt =====
-- What WriteEscapedString and ToJson of src/common/utility.cpp write, and how it is read.
use lightstep_tracer_cpp.Base.{
  ℕ, ◌+◌, ◌-◌, ◌≡◌, refl, ap, sym, ◌∙◌, Bool, true, false, ◌||◌, List, [], ◌∷◌, ◌++◌, some, codes,
  ltb, ◌&&◌, not, ◌==◌, if◌then◌else◌, if_elim, append-nil, append_assoc, arith,
}
use lightstep_tracer_cpp.Decimal.{print_uint64}
use lightstep_tracer_cpp.Value.{
  string_value, uint64_value, values_value, more_values, no_values, Writer, write_text, print_hex,
  write_uint64, write_unicode, write_escaped_char, write_escaped_chars, write_escaped_string,
  Doubles, write_json, to_json,
}
use lightstep_tracer_cpp.Value.Json.Reader.{
  plain, prepend, read_string, escaped_char, read-escaped_char,
}
pub mod Reader

abbrev no_text : Writer
no_text = record { text = []; hex = false }

-- What the writer of a byte does to a stream does not depend on what the stream holds.
record Appends (f : Writer → Writer) : Type 0 where
  texts : (w : Writer) → (f w).text ≡ w.text ++ (f no_text).text
  bases : (w : Writer) → (f w).hex ≡ (w.hex || (f no_text).hex)

Appends-if :
    (b : Bool) (f g : Writer → Writer)
    → Appends f
    → Appends g
    → Appends (λ w. if b then f w else g w)
Appends-if true f g F G = record { texts = F.texts; bases = F.bases }
Appends-if false f g F G = record { texts = G.texts; bases = G.bases }

or_false : (b : Bool) → b ≡ (b || false)
or_false true = refl
or_false false = refl

or_true : (b : Bool) → true ≡ (b || true)
or_true true = refl
or_true false = refl

write_text-Appends : (t : List ℕ) → Appends (write_text t)
write_text-Appends t = record { texts = λ w. refl; bases = λ w. or_false w.hex }

write_unicode-Appends : (c : ℕ) → Appends (write_unicode c)
unfolding write_unicode
write_unicode-Appends c = record { texts = λ w. refl; bases = λ w. or_true w.hex }

write_escaped_char-Appends : (c : ℕ) → Appends (write_escaped_char c)
unfolding write_escaped_char
write_escaped_char-Appends c = Appends-if (c == b'"') _ _ (write_text-Appends _) (
    Appends-if (c == b'\\') _ _ (write_text-Appends _) (
      Appends-if (c == 8) _ _ (write_text-Appends _) (
        Appends-if (c == 10) _ _ (write_text-Appends _) (
          Appends-if (c == 13) _ _ (write_text-Appends _) (
            Appends-if (c == 9) _ _ (write_text-Appends _)
              (Appends-if (ltb c 32) _ _ (write_unicode-Appends c) (write_text-Appends _)))))))

-- What is written of a text.
unfoldable pub escaped : List ℕ → List ℕ
escaped [] = []
escaped (c ∷ s) = escaped_char c ++ escaped s

-- The control characters that have no short escape here, and so are written as a code.
abbrev pub needs_code : ℕ → Bool
needs_code c = ltb c 32 && not (c == 8 || c == 9 || c == 10 || c == 13)

unfoldable pub has_coded : List ℕ → Bool
has_coded [] = false
has_coded (c ∷ s) = needs_code c || has_coded s

hex-needs_code : (c : ℕ) → (write_escaped_char c no_text).hex ≡ needs_code c
unfolding write_escaped_char write_unicode
hex-needs_code c =
    if_elim P (c == b'"') _ _ (λ yes. ground arith)
      (λ quote.
        if_elim P (c == b'\\') _ _ (λ yes. ground arith)
          (λ slash.
            if_elim P (c == 8) _ _ (λ yes. ground arith)
              (λ b8.
                if_elim P (c == 10) _ _ (λ yes. ground arith)
                  (λ b10.
                    if_elim P (c == 13) _ _ (λ yes. ground arith)
                      (λ b13.
                        if_elim P (c == 9) _ _ (λ yes. ground arith)
                          (λ b9.
                            if_elim P (ltb c 32) _ _ (λ yes. ground arith)
                              (λ no. ground arith)))))))
  where
    P : Writer → Type 0
    P w = w.hex ≡ needs_code c

or_assoc : (a b c : Bool) → ((a || b) || c) ≡ (a || (b || c))
or_assoc true b c = refl
or_assoc false b c = refl

write_escaped_chars_lem :
    (s : List ℕ) (w : Writer)
    → ((write_escaped_chars s w).text ≡ w.text ++ escaped s)
      × ((write_escaped_chars s w).hex ≡ (w.hex || has_coded s))
unfolding write_escaped_chars escaped has_coded
write_escaped_chars_lem [] w = (sym (append-nil w.text), or_false w.hex)
write_escaped_chars_lem (c ∷ s) w =
    let one = write_escaped_char-Appends c in
    let rest = write_escaped_chars_lem s (write_escaped_char c w) in
    (
      rest.0
          ∙ (ap (λ (t : List ℕ). t ++ escaped s) (one.texts w)
              ∙ append_assoc w.text (escaped_char c) (escaped s)),
      rest.1
          ∙ (ap (λ (b : Bool). b || has_coded s)
                (one.bases w ∙ ap (λ (b : Bool). w.hex || b) (hex-needs_code c))
              ∙ or_assoc w.hex (needs_code c) (has_coded s)),
    )

-- What WriteEscapedString writes into an empty stream between its quotes is read back, up to the quote
-- that closes it, as the text, whatever bytes the text has and whatever follows.
pub read-escaped :
    (s rest : List ℕ) → read_string plain (escaped s ++ (b'"' ∷ rest)) ≡ some (s, rest)
unfolding escaped read_string
read-escaped [] rest = refl
read-escaped (c ∷ s) rest =
    ap (read_string plain) (append_assoc (escaped_char c) (escaped s) (b'"' ∷ rest))
    ∙ (read-escaped_char c (escaped s ++ (b'"' ∷ rest)) ∙ ap (prepend c) (read-escaped s rest))

quoted_lem :
    (s : List ℕ) (w : Writer)
    → ((write_escaped_string s w).text ≡ w.text ++ (b'"' ∷ (escaped s ++ (b'"' ∷ []))))
      × ((write_escaped_string s w).hex ≡ (w.hex || has_coded s))
unfolding write_escaped_string
quoted_lem s w =
    let inner = write_escaped_chars_lem s (write_text (b'"' ∷ []) w) in
    (
      ap (λ (t : List ℕ). t ++ (b'"' ∷ [])) inner.0
          ∙ (ap (λ (t : List ℕ). t ++ (b'"' ∷ [])) (append_assoc w.text (b'"' ∷ []) (escaped s))
              ∙ append_assoc w.text (b'"' ∷ escaped s) (b'"' ∷ [])),
      inner.1,
    )

abbrev shown : Bool → ℕ → List ℕ
shown b n = if b then print_hex n else print_uint64 n

write_uint64_lem : (n : ℕ) (w : Writer) → (write_uint64 n w).text ≡ w.text ++ shown w.hex n
unfolding write_uint64
write_uint64_lem n w = refl

four_parts :
    (xs ys zs : List ℕ) (a b : ℕ)
    → (((xs ++ (a ∷ [])) ++ (b ∷ [])) ++ ys) ++ zs ≡ xs ++ (a ∷ b ∷ (ys ++ zs))
four_parts xs ys zs a b =
    append_assoc ((xs ++ (a ∷ [])) ++ (b ∷ [])) ys zs
    ∙ (append_assoc (xs ++ (a ∷ [])) (b ∷ []) (ys ++ zs)
        ∙ append_assoc xs (a ∷ []) (b ∷ (ys ++ zs)))

module _ (D : Doubles) where
  -- The JSON of a text is a quote and what a reader of JSON strings reads back as that text, up to the end.
  pub read-to_json :
      (s : List ℕ)
      → (t : List ℕ) × (to_json D (string_value s) ≡ b'"' ∷ t)
        × (read_string plain t ≡ some (s, []))
  unfolding to_json write_json
  read-to_json s = (escaped s ++ (b'"' ∷ []), (quoted_lem s no_text).0, read-escaped s [])

  -- In an array of a text and a number, the number is written in base 16 if the text has a control
  -- character without a short escape, and in base 10 if it has none.
  pub to_json-after_text :
      (s : List ℕ) (n : ℕ)
      → to_json D
          (values_value (more_values (string_value s) (more_values (uint64_value n) no_values)))
        ≡ codes "[\""
          ++ (escaped s
              ++ (codes "\","
                  ++ ((if has_coded s then print_hex n else print_uint64 n) ++ codes "]")))
  unfolding to_json write_json
  to_json-after_text s n =
      let start : Writer = record { text = codes "["; hex = false } in
      let behind = write_escaped_string s start in
      let quoted = quoted_lem s start in
      ap (λ (t : List ℕ). t ++ codes "]") (write_uint64_lem n (write_text (codes ",") behind))
      ∙ (ap (λ (t : List ℕ). ((t ++ codes ",") ++ shown behind.hex n) ++ codes "]") quoted.0
          ∙ (ap
                (λ (b : Bool).
                  (((codes "[" ++ (b'"' ∷ (escaped s ++ (b'"' ∷ [])))) ++ codes ",") ++ shown b n)
                  ++ codes "]")
                quoted.1
              ∙ four_parts (codes "[\"" ++ escaped s) (shown (has_coded s) n) (codes "]") b'"'
                  b','))
