-- ===== src/Serialization/Writers/Appending.antt =====
-- What it means that a writer appends bytes to a stream of src/common/serialization.h, and that it makes no
-- difference whether it writes into a buffer that the stream hands out.
use lightstep_tracer_cpp.Base.{
  ℕ, ◌≡◌, refl, ap, sym, ◌∙◌, Bool, false, ◌||◌, List, [], ◌++◌, Option, none, some, ltb, length,
  drop, drop-beyond, append_assoc, append-nil, arith,
}
use lightstep_tracer_cpp.Serialization.{
  CodedOutput, OutputStream, Kind, coded, direct, put, fill, direct_stream, buffered, directly,
}
use lightstep_tracer_cpp.Serialization.Wire.{IsProtobuf}

-- The writer appends exactly these bytes, to any stream.
abbrev pub Writes : (OutputStream → OutputStream) → List ℕ → Type 0
Writes w bs = (s : OutputStream) → w s ≡ put bs s

pub put-put : (bs cs : List ℕ) (s : OutputStream) → put cs (put bs s) ≡ put (bs ++ cs) s
put-put bs cs s = ap with_output (append_assoc s.output bs cs)
  where
    with_output : List ℕ → OutputStream
    with_output o = record s { output = o }

pub Writes-nothing : Writes (λ s. s) []
Writes-nothing s = sym (ap with_output (append-nil s.output))
  where
    with_output : List ℕ → OutputStream
    with_output o = record s { output = o }

pub Writes-then :
    (w v : OutputStream → OutputStream) (bs cs : List ℕ)
    → Writes w bs
    → Writes v cs
    → Writes (λ s. v (w s)) (bs ++ cs)
Writes-then w v bs cs h k s = ap v (h s) ∙ (k (put bs s) ∙ put-put bs cs s)

fill-put :
    (bs old : List ℕ) (s : OutputStream)
    → length bs ≡ length old
    → fill old (put bs direct_stream) s ≡ put bs s
fill-put bs old s h = ap with_output all_bytes ∙ ap with_overrun no_overrun
  where
    with_output : List ℕ → OutputStream
    with_output o = record s {
      output = s.output ++ o;
      overrun = s.overrun || false || ltb (length old) (length bs);
    }

    with_overrun : Bool → OutputStream
    with_overrun b = record s { output = s.output ++ bs; overrun = b }

    all_bytes : bs ++ drop (length bs) old ≡ bs
    all_bytes =
        ap (λ (r : List ℕ). bs ++ r) (drop-beyond (length bs) old (omega arith)) ∙ append-nil bs

    not_more : ltb (length old) (length bs) ≡ false
    not_more = ground arith

    no_overrun : (s.overrun || false || ltb (length old) (length bs)) ≡ s.overrun
    no_overrun = rw not_more (grind arith)

module _ (P : CodedOutput) (H : IsProtobuf P) where
  buffered-Writes :
      (w : OutputStream → OutputStream) (bs : List ℕ) (s : OutputStream) (o : Option (List ℕ))
      → Writes w bs
      → ((old : List ℕ) → o ≡ some old → length bs ≡ length old)
      → buffered P w o s ≡ put bs s
  buffered-Writes w bs s none h fits = h s
  buffered-Writes w bs s (some old) h fits =
      ap (λ (d : OutputStream). fill old d s) (h direct_stream) ∙ fill-put bs old s (fits old refl)

  -- With or without a buffer, and on either kind of stream.
  pub directly-Writes :
      (k : Kind) (n : ℕ) (w : OutputStream → OutputStream) (bs : List ℕ) (s : OutputStream)
      → Writes w bs
      → length bs ≡ n
      → directly P k n w s ≡ put bs s
  directly-Writes direct n w bs s h len = h s
  directly-Writes coded n w bs s h len =
      buffered-Writes w bs s (P.get_direct_buffer s.output n) h
        (λ old e. len ∙ sym (H.get_direct_buffer_lem s.output n old e))
