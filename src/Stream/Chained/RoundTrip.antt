-- ===== src/Stream/Chained/RoundTrip.antt =====
-- What is written to the chained stream of src/common/chained_stream.cpp, and what is read from it.
use lightstep_tracer_cpp.Base.{
  ℕ, zero, suc, ◌+◌, ◌^◌, ◌<◌, ◌≤◌, ◌≡◌, ◌≢◌, refl, ap, sym, ◌∙◌, List, [], ◌∷◌, ◌++◌, ◌==◌,
  if◌then◌else◌, length, map, arith, length-pos, append_assoc, append-nil,
}
use lightstep_tracer_cpp.Stream.{Fragment, concat, from_position}
use lightstep_tracer_cpp.Stream.Chained.{
  ChainedStream, Block, block_size, block_bytes, initial, close_output, byte_count,
}
use lightstep_tracer_cpp.Stream.Chained.Writing.{write_some, write, write_pieces}
use lightstep_tracer_cpp.Stream.Chained.Rounds.{Written, Round-write_some, all_bytes}
use lightstep_tracer_cpp.Stream.Chained.Reading.{IsReading, IsOpen, contents, reading}

-- With fuel for the bytes, the client writes all of them.
pub write-Written :
    (fuel : ℕ) (bs : List ℕ) (s : ChainedStream) (done : List ℕ)
    → length bs ≤ fuel
    → Written s done
    → Written (write fuel bs s) (done ++ bs)
unfolding write
write-Written zero [] s done h w = rw (append-nil done) w
write-Written zero (b ∷ bs) s done h w = absurd (omega arith)
write-Written (suc fuel) [] s done h w = rw (append-nil done) w
write-Written (suc fuel) (b ∷ bs) s done h w =
    let r = Round-write_some s done (b ∷ bs) w in
    rw (append_assoc done r.new (write_some (b ∷ bs) s).0, sym r.split) at
      (write-Written fuel (write_some (b ∷ bs) s).0 (write_some (b ∷ bs) s).1 (done ++ r.new)
        (omega (arith, r.progress cons≢nil)) r.written)
  where
    cons≢nil : b ∷ bs ≢ []
    cons≢nil e = omega (arith, ap length e)

initial-Written : (head : Block) → length head.bytes ≡ block_size → Written (initial head) []
unfolding initial concat
initial-Written head h = record {
  full = [];
  last = head;
  pos = 0;
  is_state = refl;
  room = omega arith;
  block = h;
  bytes = refl;
  size = λ n. absurd (n refl);
  all_full = tt;
}

length-blocks :
    (bs : List Block) (b : Block) → length (map block_bytes (bs ++ (b ∷ []))) ≡ length bs + 1
length-blocks [] b = omega arith
length-blocks (c ∷ bs) b = omega (arith, length-blocks bs b)

from_start : (k : ℕ) (xs : List Fragment) → (if k + 1 == 0 then [] else from_position 0 0 xs) ≡ xs
from_start k [] = ground arith
from_start k (x ∷ xs) = ground arith

-- The fragments of a closed stream are its blocks.
pub contents-closed :
    (s : ChainedStream) (done : List ℕ)
    → Written s done
    → contents (close_output s) ≡ map block_bytes s.blocks
unfolding close_output contents
contents-closed s done w =
    rw w.is_state (from_start (length w.full) (map block_bytes (w.full ++ (w.last ∷ []))))

-- Closing a stream that something was written to opens it for reading, with exactly those bytes.
pub closed-IsReading :
    (s : ChainedStream) (done : List ℕ)
    → length done ≢ 0
    → Written s done
    → IsReading (close_output s)
      × (concat (contents (close_output s)) ≡ done)
      × (byte_count (close_output s) ≡ length done)
unfolding close_output contents byte_count
closed-IsReading s done n w = rw w.is_state (
  record {
    closed = refl;
    written = n;
    count = sym (length-blocks w.full w.last);
    place = refl;
    index = omega (arith, length-blocks w.full w.last);
    position = omega arith;
  },
  ap concat (from_start (length w.full) (map block_bytes (w.full ++ (w.last ∷ []))))
      ∙ all_bytes s done w n,
  refl,
)

pub write_pieces-Written :
    (pieces : List (List ℕ)) (s : ChainedStream) (done : List ℕ)
    → Written s done
    → Written (write_pieces pieces s) (done ++ concat pieces)
unfolding write_pieces concat
write_pieces-Written [] s done w = rw (append-nil done) w
write_pieces-Written ([] ∷ pieces) s done w =
    let r = Round-write_some s done [] w in
    write_pieces-Written pieces (write_some [] s).1 done
      (rw append-nil at (rw (nothing r.new (write_some [] s).0 r.split) at r.written))
  where
    nothing : (new rest : List ℕ) → [] ≡ new ++ rest → new ≡ []
    nothing [] rest e = refl
    nothing (x ∷ new) rest e = absurd (cc)
write_pieces-Written ((b ∷ bs) ∷ pieces) s done w =
    rw (append_assoc done (b ∷ bs) (concat pieces)) at (
      write_pieces-Written pieces (write (length (b ∷ bs)) (b ∷ bs) s) (done ++ (b ∷ bs))
        (write-Written (length (b ∷ bs)) (b ∷ bs) s done (omega arith) w))

-- A client writes pieces to a new stream, one after the other, each through as many calls of Next as it
-- takes, and gives back by BackUp what a piece leaves of a block, all of it for an empty piece. If there are some bytes, and with a
-- block less than 2 ^ 31, as the counters are ints: once the stream is closed, it is open in the sense of
-- the interface, its fragments hold all of the pieces in their order, and it counts their bytes.
pub contents-write :
    (head : Block) (pieces : List (List ℕ))
    → length head.bytes ≡ block_size
    → concat pieces ≢ []
    → length (concat pieces) + block_size < 2 ^ 31
    → let s = close_output (write_pieces pieces (initial head)) in
      IsOpen s × (concat (contents s) ≡ concat pieces) × (byte_count s ≡ length (concat pieces))
contents-write head pieces h n small =
    let w = write_pieces-Written pieces (initial head) [] (initial-Written head h) in
    let r =
      closed-IsReading _ (concat pieces) (λ e. omega (arith, length-pos (concat pieces) n)) w in
    (reading r.0, r.1, r.2)
