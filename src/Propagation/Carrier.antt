-- ===== src/Propagation/Carrier.antt =====
-- Carriers: the entries that a reader's `ForeachKey` visits, the comparison of keys (the lambda
-- `iequals` of every propagator), `ToLower` of src/common/utility.cpp, and the writer's `Set`.
use lightstep_tracer_cpp.Base.{
  ℕ, ◌+◌, ◌≡◌, refl, ap, ◌∙◌, arith, Bool, true, false, ◌&&◌, List, [], ◌∷◌, ◌++◌, leb, ltb, ◌==◌,
  if◌then◌else◌, length, take, ◌↔◌, All,
}
use lightstep_tracer_cpp.Expected.{Expected, ok, err, undefined}

abbrev pub Entry : Type 0
Entry = List ℕ × List ℕ

-- `std::equal_to` on views.
unfoldable pub bytes_eq : List ℕ → List ℕ → Bool
bytes_eq [] [] = true
bytes_eq [] (d ∷ t) = false
bytes_eq (c ∷ s) [] = false
bytes_eq (c ∷ s) (d ∷ t) = let rest = bytes_eq s t in if c == d then rest else false

-- `std::tolower` of the C locale.
unfoldable pub to_lower_char : ℕ → ℕ
to_lower_char c = if leb b'A' c && leb c b'Z' then c + 32 else c

unfoldable pub to_lower : List ℕ → List ℕ
to_lower [] = []
to_lower (c ∷ s) = to_lower_char c ∷ to_lower s

unfoldable pub equal_ignoring_case : List ℕ → List ℕ → Bool
equal_ignoring_case [] t = true
equal_ignoring_case (c ∷ s) [] = true
equal_ignoring_case (c ∷ s) (d ∷ t) =
    let rest = equal_ignoring_case s t in if to_lower_char c == to_lower_char d then rest else false

unfoldable pub iequals : List ℕ → List ℕ → Bool
unfolding equal_ignoring_case
iequals lhs rhs = (length lhs == length rhs) && equal_ignoring_case lhs rhs

-- The comparison that an extractor uses.
unfoldable pub key_compare : Bool → List ℕ → List ℕ → Bool
key_compare case_sensitive = if case_sensitive then bytes_eq else iequals

-- `key.length() > prefix.size()` and the key starts with the prefix.
unfoldable pub has_prefix : Bool → List ℕ → List ℕ → Bool
has_prefix case_sensitive key prefix =
    ltb (length prefix) (length key) && key_compare case_sensitive (take (length prefix) key) prefix

-- Goes on after a call that succeeded.
abbrev pub then_continue {ℓ κ} :
    {S : Type ℓ} {R : Type κ} → Expected (Unit {0}) × S → (S → Expected R × S) → Expected R × S
then_continue (ok _, s) k = k s
then_continue (err e, s) k = (err e, s)
then_continue (undefined, s) k = (undefined, s)

-- `ForeachKey`: the entries in order, up to the first on which the callback fails.
unfoldable pub foreach_key {ℓ} :
    {S : Type ℓ} → (Entry → S → Expected (Unit {0}) × S) → List Entry → S → Expected (Unit {0}) × S
foreach_key f [] s = (ok tt, s)
foreach_key f (e ∷ es) s = then_continue (f e s) (foreach_key f es)

pub bytes_eq_iff : (s t : List ℕ) → (bytes_eq s t ≡ true) ↔ (s ≡ t)
unfolding bytes_eq
bytes_eq_iff s t = (sound s t, λ e. rw e (bytes_eq_self t))
  where
    sound : (s t : List ℕ) → bytes_eq s t ≡ true → s ≡ t
    sound [] [] h = refl
    sound [] (d ∷ t) h = ground arith
    sound (c ∷ s) [] h = ground arith
    sound (c ∷ s) (d ∷ t) h = ground (arith, sound s t)

    bytes_eq_self : (s : List ℕ) → bytes_eq s s ≡ true
    bytes_eq_self [] = refl
    bytes_eq_self (c ∷ s) = ground (arith, bytes_eq_self s)

iequals-to_lower :
    (s t : List ℕ) → length s ≡ length t → equal_ignoring_case s t ≡ true → to_lower s ≡ to_lower t
unfolding equal_ignoring_case to_lower
iequals-to_lower [] [] e h = refl
iequals-to_lower [] (d ∷ t) e h = absurd (omega arith)
iequals-to_lower (c ∷ s) [] e h = absurd (omega arith)
iequals-to_lower (c ∷ s) (d ∷ t) e h = ground (arith, iequals-to_lower s t)

to_lower-iequals :
    (s t : List ℕ)
    → to_lower s ≡ to_lower t
    → (length s ≡ length t) × (equal_ignoring_case s t ≡ true)
unfolding equal_ignoring_case to_lower
to_lower-iequals [] [] h = (refl, refl)
to_lower-iequals [] (d ∷ t) h = absurd (cc)
to_lower-iequals (c ∷ s) [] h = absurd (cc)
to_lower-iequals (c ∷ s) (d ∷ t) h = ground (arith, to_lower-iequals s t)

-- Two keys are equal to `iequals` exactly when they are equal in lower case.
pub iequals_iff : (s t : List ℕ) → (iequals s t ≡ true) ↔ (to_lower s ≡ to_lower t)
unfolding iequals
iequals_iff s t =
    (λ h. ground (arith, iequals-to_lower s t), λ e. ground (arith, to_lower-iequals s t e))

-- Every key equals itself under either comparison.
pub key_compare_self : (cs : Bool) (k : List ℕ) → key_compare cs k k ≡ true
unfolding key_compare
key_compare_self true k = (bytes_eq_iff k k).1 refl
key_compare_self false k = (iequals_iff k k).1 refl

module _ {ℓ} {S : Type ℓ} (f : Entry → S → Expected (Unit {0}) × S) where
  -- One entry on which the callback succeeds.
  pub foreach_key_ok :
      (e : Entry) (es : List Entry) (s s' : S)
      → f e s ≡ (ok tt, s')
      → foreach_key f (e ∷ es) s ≡ foreach_key f es s'
  unfolding foreach_key
  foreach_key_ok e es s s' h = ap (λ r. then_continue r (foreach_key f es)) h

  pub foreach_key_end : (s : S) → foreach_key f [] s ≡ (ok tt, s)
  unfolding foreach_key
  foreach_key_end s = refl

  -- Entries that leave the state as it is are passed over.
  pub foreach_key_skip :
      (skipped es : List Entry) (s : S)
      → All (λ e. f e s ≡ (ok tt, s)) skipped
      → foreach_key f (skipped ++ es) s ≡ foreach_key f es s
  foreach_key_skip [] es s h = refl
  foreach_key_skip (e ∷ skipped) es s h =
      foreach_key_ok e (skipped ++ es) s s h.0 ∙ foreach_key_skip skipped es s h.1

-- A carrier that keeps what is set, in the order of the calls, and never fails.
abbrev pub append_entry : List ℕ → List ℕ → List Entry → Expected (Unit {0}) × List Entry
append_entry k v w = (ok tt, w ++ ((k, v) ∷ []))
