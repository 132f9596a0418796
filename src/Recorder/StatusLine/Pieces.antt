-- ===== src/Recorder/StatusLine/Pieces.antt =====
-- How the first line of a response is cut into pieces makes no difference to the parser of
-- src/recorder/stream_recorder/status_line_parser.cpp.
use lightstep_tracer_cpp.Base.{
  ℕ, ◌≡◌, refl, ap, sym, ◌∙◌, Bool, true, false, not, List, [], ◌∷◌, ◌++◌, ◌==◌, if◌then◌else◌,
  if_elim, drop, append-nil, append_assoc, Bool-cases, inl, inr,
}
use lightstep_tracer_cpp.Stream.{concat}
use lightstep_tracer_cpp.Recorder.StatusLine.{
  StatusLineParser, Parsed, before, from, is_empty, parse_fields, append_piece, parse_if_complete,
  parse, parse_all,
}

-- The first `c` of a text is in its first part, or in its second.
module _ (c : ℕ) where
  find-none :
      (s t : List ℕ)
      → is_empty (from c s) ≡ true
      → (before c (s ++ t) ≡ s ++ before c t) × (from c (s ++ t) ≡ from c t) × (before c s ≡ s)
  unfolding before from
  find-none [] t e = (refl, refl, refl)
  find-none (x ∷ s) t e = by_test (find-none s t) (x == c) e
    where
      by_test :
          (is_empty (from c s) ≡ true
            → (before c (s ++ t) ≡ s ++ before c t)
              × (from c (s ++ t) ≡ from c t)
              × (before c s ≡ s))
          → (b : Bool) → is_empty (if b then x ∷ s else from c s) ≡ true
          → ((if b then [] else x ∷ before c (s ++ t)) ≡ x ∷ (s ++ before c t))
            × ((if b then x ∷ (s ++ t) else from c (s ++ t)) ≡ from c t)
            × ((if b then [] else x ∷ before c s) ≡ x ∷ s)
      by_test ih true e = absurd (cc)
      by_test ih false e =
          let (b, f, w) = ih e in (ap (λ (r : List ℕ). x ∷ r) b, f, ap (λ (r : List ℕ). x ∷ r) w)

  find-some :
      (s t : List ℕ)
      → is_empty (from c s) ≡ false
      → (before c (s ++ t) ≡ before c s) × (is_empty (from c (s ++ t)) ≡ false)
  unfolding before from
  find-some [] t e = absurd (cc)
  find-some (x ∷ s) t e = by_test (find-some s t) (x == c) e
    where
      by_test :
          (is_empty (from c s) ≡ false
            → (before c (s ++ t) ≡ before c s) × (is_empty (from c (s ++ t)) ≡ false))
          → (b : Bool) → is_empty (if b then x ∷ s else from c s) ≡ false
          → ((if b then [] else x ∷ before c (s ++ t)) ≡ (if b then [] else x ∷ before c s))
            × (is_empty (if b then x ∷ (s ++ t) else from c (s ++ t)) ≡ false)
      by_test ih true e = (refl, refl)
      by_test ih false e = let (b, f) = ih e in (ap (λ (r : List ℕ). x ∷ r) b, f)

-- A further piece after a call: it is not looked at if the call throws.
abbrev go_on : Parsed → (StatusLineParser → Parsed) → Parsed
go_on (true, p) k = (true, p)
go_on (false, p) k = k p

parse-complete : (s : List ℕ) (p : StatusLineParser) → p.complete ≡ true → parse s p ≡ (false, p)
unfolding parse
parse-complete s p e = rw e refl

-- Once the fields of a line have been read, nothing more is.
fields-final :
    (p : StatusLineParser) (t : List ℕ)
    → p.complete ≡ true
    → go_on (parse_fields p) (parse t) ≡ parse_fields p
unfolding parse_fields
fields-final p t e =
    if_elim (λ r. go_on r (parse t) ≡ r) (is_empty (from b' ' p.line)) _ _ (λ _. refl)
      (λ _.
        if_elim (λ r. go_on r (parse t) ≡ r) (is_empty (from b' ' (drop 1 (from b' ' p.line)))) _ _
          (λ _. refl) (λ _. parse-complete t _ e))

parse-open :
    (s : List ℕ) (p : StatusLineParser)
    → p.complete ≡ false
    → parse s p ≡ parse_if_complete (append_piece s p)
unfolding parse
parse-open s p e = rw e refl

module _ (s t : List ℕ) (p : StatusLineParser) (e : p.complete ≡ false) where
  abbrev with_line : List ℕ → Bool → StatusLineParser
  with_line line complete = record p { line = line; complete = complete }

  -- Without the end of the line in it, a piece is kept.
  piece-none : is_empty (from 13 s) ≡ true → parse s p ≡ (false, with_line (p.line ++ s) false)
  unfolding parse_if_complete append_piece
  piece-none none =
      parse-open s p e
      ∙ (ap (λ (b : Bool). parse_if_complete (with_line (p.line ++ before 13 s) (not b))) none
          ∙ ap (λ (l : List ℕ). (false, with_line (p.line ++ l) false)) (find-none 13 s t none).2)

  -- With it, the fields are read.
  piece-some :
      is_empty (from 13 s) ≡ false
      → parse s p ≡ parse_fields (with_line (p.line ++ before 13 s) true)
  unfolding parse_if_complete append_piece
  piece-some some =
      parse-open s p e
      ∙ ap (λ (b : Bool). parse_if_complete (with_line (p.line ++ before 13 s) (not b))) some

  both-none :
      is_empty (from 13 s) ≡ true → parse t (with_line (p.line ++ s) false) ≡ parse (s ++ t) p
  unfolding append_piece
  both-none none =
      let (b, f, w) = find-none 13 s t none in
      parse-open t (with_line (p.line ++ s) false) refl
      ∙ (ap (λ (l : List ℕ). parse_if_complete (with_line l (not (is_empty (from 13 t)))))
            (append_assoc p.line s (before 13 t) ∙ ap (λ (l : List ℕ). p.line ++ l) (sym b))
          ∙ (ap
                (λ (l : List ℕ).
                  parse_if_complete (with_line (p.line ++ before 13 (s ++ t)) (not (is_empty l))))
                (sym f)
              ∙ sym (parse-open (s ++ t) p e)))

  both-some :
      is_empty (from 13 s) ≡ false
      → parse (s ++ t) p ≡ parse_fields (with_line (p.line ++ before 13 s) true)
  unfolding parse_if_complete append_piece
  both-some some =
      let (b, f) = find-some 13 s t some in
      parse-open (s ++ t) p e
      ∙ (ap (λ (b : Bool). parse_if_complete (with_line (p.line ++ before 13 (s ++ t)) (not b))) f
          ∙ ap (λ (l : List ℕ). parse_fields (with_line (p.line ++ l) true)) b)

  append-open : go_on (parse s p) (parse t) ≡ parse (s ++ t) p
  append-open = elim (Bool-cases (is_empty (from 13 s))) [
    | inl none ↦ ap (λ (r : Parsed). go_on r (parse t)) (piece-none none) ∙ both-none none
    | inr some ↦
        ap (λ (r : Parsed). go_on r (parse t)) (piece-some some)
        ∙ (fields-final (with_line (p.line ++ before 13 s) true) t refl ∙ sym (both-some some))
  ]

parse-append :
    (s t : List ℕ) (p : StatusLineParser) → go_on (parse s p) (parse t) ≡ parse (s ++ t) p
parse-append s t p = elim (Bool-cases p.complete) [
  | inl e ↦
      ap (λ (r : Parsed). go_on r (parse t)) (parse-complete s p e)
      ∙ (parse-complete t p e ∙ sym (parse-complete (s ++ t) p e))
  | inr e ↦ append-open s t p e
]

open_piece-nothing :
    (p : StatusLineParser) → p.complete ≡ false → parse_if_complete (append_piece [] p) ≡ (false, p)
unfolding parse_if_complete append_piece before from
open_piece-nothing p e =
    ap (λ (l : List ℕ). (false, record p { line = l; complete = false })) (append-nil p.line)
    ∙ ap (λ (b : Bool). (false, record p { complete = b })) (sym e)

parse-nothing : (p : StatusLineParser) → (false, p) ≡ parse [] p
parse-nothing p = elim (Bool-cases p.complete) [
  | inl e ↦ sym (parse-complete [] p e)
  | inr e ↦ sym (parse-open [] p e ∙ open_piece-nothing p e)
]

if_go_on :
    (r : Parsed) (k : StatusLineParser → Parsed) → (if r.0 then (true, r.1) else k r.1) ≡ go_on r k
if_go_on (true, p) k = refl
if_go_on (false, p) k = refl

-- Whatever the pieces of a response are: parsing them in turn, until a call throws, ends as one call with
-- all of the text does, in what it throws and in the parser that it leaves.
pub parse_all-concat :
    (ss : List (List ℕ)) (p : StatusLineParser) → parse_all ss p ≡ parse (concat ss) p
unfolding parse_all concat
parse_all-concat [] p = parse-nothing p
parse_all-concat (s ∷ ss) p =
    ap (λ (r : Parsed). if (parse s p).0 then (true, (parse s p).1) else r)
      (parse_all-concat ss (parse s p).1)
    ∙ (if_go_on (parse s p) (parse (concat ss)) ∙ parse-append s (concat ss) p)
