-- ===== src/Stream.antt =====
-- src/common/fragment_input_stream.h and .cpp: streams of byte fragments that are written to a socket
-- piece by piece. A fragment is the bytes that its pointer and its size delimit. The virtual interface
-- is a record of operations with the laws that its clients rely on.
use lightstep_tracer_cpp.Base.{
  ℕ, zero, suc, ◌+◌, ◌-◌, ◌<◌, ◌≡◌, Bool, true, false, List, [], ◌∷◌, ◌++◌, ltb, ◌==◌,
  if◌then◌else◌, length, get_or, drop,
}
pub mod Consume
pub mod Array
pub mod Composed
pub mod Chained
pub mod Cursor
pub mod Positions
pub mod VectorWrite

abbrev pub Fragment : Type 0
Fragment = List ℕ

-- What a callback says: whether to go on, and what it has left in the variables it captures.
abbrev pub if_go_on {ℓ} : {A : Type ℓ} → Bool × A → (A → Bool × A) → Bool × A
if_go_on (true, a) k = k a
if_go_on (false, a) k = (false, a)

-- A loop over fragments that its callback can break off.
unfoldable pub visit {ℓ} : {A : Type ℓ} → (Fragment → A → Bool × A) → List Fragment → A → Bool × A
visit f [] a = (true, a)
visit f (x ∷ xs) a = if_go_on (f x a) (visit f xs)

unfoldable pub concat : List Fragment → Fragment
concat [] = []
concat (x ∷ xs) = x ++ concat xs

-- The fragments that are left when a stream is sought to `position` of fragment `index`.
abbrev pub from_position : ℕ → ℕ → List Fragment → List Fragment
from_position index position [] = []
from_position zero position (x ∷ xs) = drop position x ∷ xs
from_position (suc index) position (x ∷ xs) = from_position index position xs

-- `FragmentInputStream`: the virtual functions, and for the proofs the invariant of the stream and the
-- fragments that it still has.
pub record FragmentInputStream (S : Type 0) : Type 1 where
  pub num_fragments : S → ℕ
  pub for_each_fragment : {A : Type 0} → (Fragment → A → Bool × A) → S → A → Bool × A
  pub clear : S → S
  pub seek : ℕ → ℕ → S → S
  pub IsOpen : S → Type 0
  pub contents : S → List Fragment

-- What the documentation of the interface promises, for streams that meet their invariant.
pub record IsLawful {S : Type 0} (F : FragmentInputStream S) : Type 1 where
  pub num_fragments_lem : (s : S) → F.IsOpen s → F.num_fragments s ≡ length (F.contents s)
  pub for_each_lem :
      (A : Type 0) (f : Fragment → A → Bool × A) (s : S) (a : A)
      → F.IsOpen s
      → F.for_each_fragment f s a ≡ visit f (F.contents s) a
  pub clear_lem : (s : S) → F.IsOpen s → F.contents (F.clear s) ≡ []
  pub IsOpen-clear : (s : S) → F.IsOpen s → F.IsOpen (F.clear s)
  pub seek_lem :
      (i p : ℕ) (s : S)
      → F.IsOpen s
      → i < F.num_fragments s
      → p < length (get_or (F.contents s) i [])
      → F.contents (F.seek i p s) ≡ from_position i p (F.contents s)
  pub IsOpen-seek :
      (i p : ℕ) (s : S)
      → F.IsOpen s
      → i < F.num_fragments s
      → p < length (get_or (F.contents s) i [])
      → F.IsOpen (F.seek i p s)

module _ {S : Type 0} (F : FragmentInputStream S) where
  unfoldable pub empty : S → Bool
  empty s = F.num_fragments s == 0

-- The callback of `Consume`, on `n` and `fragment_index`.
unfoldable pub consume_fragment : Fragment → ℕ × ℕ → Bool × (ℕ × ℕ)
consume_fragment x (n, i) =
    if ltb n (length x) then (false, (n, i)) else (true, (n - length x, i + 1))

module _ {S : Type 0} (F : FragmentInputStream S) where
  -- What follows the inner loop: a seek where the callback has stopped it, else the streams behind.
  abbrev pub seek_or_clear : S → List S → Bool × (ℕ × ℕ) → (ℕ → Bool × List S) → Bool × List S
  seek_or_clear s ss (false, (n, i)) behind = (false, F.seek i n s ∷ ss)
  seek_or_clear s ss (true, (n, i)) behind = let (all, ss') = behind n in (all, F.clear s ∷ ss')

  unfoldable pub consume : List S → ℕ → Bool × List S
  consume [] n = (true, [])
  consume (s ∷ ss) n =
      seek_or_clear s ss (F.for_each_fragment consume_fragment s (n, 0)) (consume ss)
