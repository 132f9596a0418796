-- ===== src/Stream/Chained/Writing.antt =====
-- Writing to the chained stream of src/common/chained_stream.cpp the way a client of a
-- `ZeroCopyOutputStream` does: what each round does to its blocks.
use lightstep_tracer_cpp.Base.{
  ℕ, zero, suc, ◌+◌, ◌-◌, ◌≤◌, ◌<◌, ◌≡◌, refl, ap, sym, ◌∙◌, true, false, List, [], ◌∷◌, ◌++◌, ltb,
  length, get_or, take, drop, set, arith, replicate, length-append, length-take, take-all,
}
use lightstep_tracer_cpp.Stream.Chained.{
  ChainedStream, Block, Space, no_block, block_size, next, back_up, set_size,
}

unfoldable pub overwrite : ℕ → List ℕ → List ℕ → List ℕ
overwrite offset new old = take offset old ++ (new ++ drop (offset + length new) old)

-- The client puts bytes into the space that `Next` has given it.
unfoldable pub store : Space → List ℕ → ChainedStream → ChainedStream
unfolding overwrite
store space new s =
    let b = get_or s.blocks space.block no_block in
    record s {
      blocks = set s.blocks space.block (record b { bytes = overwrite space.offset new b.bytes });
    }

-- A client that has been given a space fills it as far as its bytes reach and gives the rest back.
unfoldable pub fill : List ℕ → Space × ChainedStream → List ℕ × ChainedStream
unfolding store back_up
fill bs (space, s) =
    let new = take space.count bs in
    (drop space.count bs, back_up (space.count - length new) (store space new s))

unfoldable pub write_some : List ℕ → ChainedStream → List ℕ × ChainedStream
unfolding fill next
write_some bs s = fill bs (next s)

-- The rounds until all bytes are written; each takes at least one.
unfoldable pub write : ℕ → List ℕ → ChainedStream → ChainedStream
write zero bs s = s
write (suc fuel) [] s = s
write (suc fuel) (b ∷ bs) s = let (rest, s') = write_some (b ∷ bs) s in write fuel rest s'

-- A client that writes one piece after the other: a piece that ends inside a block gives the rest of it
-- back, and the next piece begins there. For an empty piece it asks for a space and gives all of it back.
unfoldable pub write_pieces : List (List ℕ) → ChainedStream → ChainedStream
unfolding write write_some
write_pieces [] s = s
write_pieces ([] ∷ pieces) s = write_pieces pieces (write_some [] s).1
write_pieces ((b ∷ bs) ∷ pieces) s = write_pieces pieces (write (length (b ∷ bs)) (b ∷ bs) s)

-- The state after `n` bytes, `pos` of them in the last block, which is number `k`.
abbrev pub state : ℕ → List Block → Block → ℕ → ℕ → ChainedStream
state k full last pos n = record {
  output_closed = false;
  num_blocks = k + 1;
  num_bytes_written = n;
  current_block_position = pos;
  current_block = k;
  fragment_index = 0;
  fragment_position = 0;
  blocks = full ++ (last ∷ []);
}

set-end :
    (k : ℕ) (full : List Block) (x y : Block)
    → k ≡ length full
    → set (full ++ (x ∷ [])) k y ≡ full ++ (y ∷ [])
set-end zero [] x y h = refl
set-end (suc k) [] x y h = absurd (omega arith)
set-end zero (b ∷ full) x y h = absurd (omega arith)
set-end (suc k) (b ∷ full) x y h = ap (λ (r : List Block). b ∷ r) (set-end k full x y (omega arith))

get_or-end :
    (k : ℕ) (full : List Block) (x : Block)
    → k ≡ length full
    → get_or (full ++ (x ∷ [])) k no_block ≡ x
get_or-end zero [] x h = refl
get_or-end (suc k) [] x h = absurd (omega arith)
get_or-end zero (b ∷ full) x h = absurd (omega arith)
get_or-end (suc k) (b ∷ full) x h = get_or-end k full x (omega arith)

module _ (k : ℕ) (full : List Block) (last : Block) (pos n : ℕ) (at_end : k ≡ length full) where
  next_inside :
      pos < block_size
      → next (state k full last pos n) ≡ (
        record { block = k; offset = pos; count = block_size - pos },
        state k full (record last { size = block_size }) block_size (n + (block_size - pos)),
      )
  unfolding next set_size
  next_inside h = rw (inside, get_or-end k full last at_end, set-end k full last _ at_end) refl
    where
      inside : ltb pos block_size ≡ true
      inside = ground arith

  next_fresh :
      block_size ≤ pos
      → next (state k full last pos n) ≡ (
        record { block = k + 1; offset = 0; count = block_size },
        state
            (k + 1)
            (full ++ (last ∷ []))
            (record { size = block_size; bytes = replicate block_size 0 })
            block_size
            (n + block_size),
      )
  unfolding next
  next_fresh h = rw (outside, take-all (k + 1) (full ++ (last ∷ [])) all) refl
    where
      outside : ltb pos block_size ≡ false
      outside = ground arith

      all : length (full ++ (last ∷ [])) ≤ k + 1
      all = omega (arith, length-append full (last ∷ []))

  store_last :
      (offset count : ℕ) (new : List ℕ)
      → store (record { block = k; offset = offset; count = count }) new (state k full last pos n)
        ≡ state k full (record last { bytes = overwrite offset new last.bytes }) pos n
  unfolding store
  store_last offset count new =
      rw (get_or-end k full last at_end, set-end k full last _ at_end) refl

  back_up_last :
      (count : ℕ)
      → back_up count (state k full last pos n)
        ≡ state k full (record last { size = last.size - count }) (pos - count) (n - count)
  unfolding back_up set_size
  back_up_last count = rw (get_or-end k full last at_end, set-end k full last _ at_end) refl

state-cong :
    (k : ℕ) (full : List Block) (bytes : List ℕ) (size size' pos pos' n n' : ℕ)
    → size ≡ size'
    → pos ≡ pos'
    → n ≡ n'
    → state k full (record { size = size; bytes = bytes }) pos n
      ≡ state k full (record { size = size'; bytes = bytes }) pos' n'
state-cong k full bytes size size' pos pos' n n' e_size e_pos e_n = rw (e_size, e_pos, e_n) refl

-- A space that ends with its block, filled by `bs`.
fill_last :
    (k : ℕ) (full : List Block) (old : List ℕ) (offset n : ℕ) (bs : List ℕ)
    → k ≡ length full
    → offset ≤ block_size
    → let new = take (block_size - offset) bs in
      fill bs (
        record { block = k; offset = offset; count = block_size - offset },
        state k full
            (record { size = block_size; bytes = old })
            block_size
            (n + (block_size - offset)),
      )
      ≡ (
        drop (block_size - offset) bs,
        state k full
            (record { size = offset + length new; bytes = overwrite offset new old })
            (offset + length new)
            (n + length new),
      )
unfolding fill
fill_last k full old offset n bs at_end h =
    let new = take (block_size - offset) bs in
    let count = block_size - offset in
    let short : length new ≤ count = length-take count bs in
    ap (λ (s : ChainedStream). (drop count bs, back_up (count - length new) s))
      (store_last k full (record { size = block_size; bytes = old }) block_size (n + count) at_end
        offset count new)
    ∙ ap (λ (s : ChainedStream). (drop count bs, s))
        (back_up_last k full (record { size = block_size; bytes = overwrite offset new old })
            block_size (n + count) at_end (count - length new)
          ∙ state-cong k full (overwrite offset new old) _ (offset + length new) _
              (offset + length new) _ (n + length new) (omega (arith, short)) (omega (arith, short))
              (omega (arith, short)))

-- A round of the client, in a block that has room and in one that is full.
pub write_some-inside :
    (full : List Block) (last : Block) (pos n : ℕ) (bs : List ℕ)
    → pos < block_size
    → let new = take (block_size - pos) bs in
      write_some bs (state (length full) full last pos n) ≡ (
        drop (block_size - pos) bs,
        state
            (length full)
            full
            (record { size = pos + length new; bytes = overwrite pos new last.bytes })
            (pos + length new)
            (n + length new),
      )
unfolding write_some
write_some-inside full last pos n bs h =
    ap (fill bs) (next_inside (length full) full last pos n refl h)
    ∙ fill_last (length full) full last.bytes pos n bs refl (omega arith)

pub write_some-fresh :
    (full : List Block) (last : Block) (pos n : ℕ) (bs : List ℕ)
    → block_size ≤ pos
    → let new = take block_size bs in
      write_some bs (state (length full) full last pos n) ≡ (
        drop block_size bs,
        state
            (length (full ++ (last ∷ [])))
            (full ++ (last ∷ []))
            (record { size = 0 + length new; bytes = overwrite 0 new (replicate block_size 0) })
            (0 + length new)
            (n + length new),
      )
unfolding write_some
write_some-fresh full last pos n bs h =
    ap (fill bs) (next_fresh (length full) full last pos n refl h)
    ∙ ap
        (λ (k : ℕ). fill bs (
          record { block = k; offset = 0; count = block_size },
          state k (full ++ (last ∷ []))
              (record { size = block_size; bytes = replicate block_size 0 }) block_size
              (n + block_size),
        ))
        (sym (length-append full (last ∷ [])))
    ∙ fill_last (length (full ++ (last ∷ []))) (full ++ (last ∷ [])) (replicate block_size 0) 0 n bs
        refl (omega arith)
