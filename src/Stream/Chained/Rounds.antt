-- ===== src/Stream/Chained/Rounds.antt =====
-- The state of the chained stream of src/common/chained_stream.cpp after each round of a client.
use lightstep_tracer_cpp.Base.{
  ℕ, ◌+◌, ◌-◌, ◌≤◌, ◌<◌, ◌≡◌, ◌≢◌, refl, ap, sym, ◌∙◌, List, [], ◌∷◌, ◌++◌, length, take, drop, map,
  All, arith, replicate, length-append, length-drop, length-take, length-take_exact, take-drop,
  length-replicate, length-pos, take-length-append, append_assoc, append-nil, le_or_lt, inl, inr,
}
use lightstep_tracer_cpp.Stream.Positions.{concat-append}
use lightstep_tracer_cpp.Stream.{Fragment, concat}
use lightstep_tracer_cpp.Stream.Chained.{ChainedStream, Block, block_size, block_bytes}
use lightstep_tracer_cpp.Stream.Chained.Writing.{
  overwrite, write_some, state, write_some-inside, write_some-fresh,
}

abbrev pub IsFull : Block → Type 0
IsFull b = (b.size ≡ block_size) × (length b.bytes ≡ block_size)

All-end : (bs : List Block) (b : Block) → All IsFull bs → IsFull b → All IsFull (bs ++ (b ∷ []))
All-end [] b h one = (one, tt)
All-end (c ∷ bs) b (h, hs) one = (h, All-end bs b hs one)

-- The bytes written so far, and the room behind them in the last block. The size that the block
-- records is right once something has been written.
pub record Written (s : ChainedStream) (done : List ℕ) : Type 0 where
  pub full : List Block
  pub last : Block
  pub pos : ℕ
  pub is_state : s ≡ state (length full) full last pos (length done)
  pub room : pos ≤ block_size
  pub block : length last.bytes ≡ block_size
  pub bytes : concat (map block_bytes full) ++ take pos last.bytes ≡ done
  pub size : length done ≢ 0 → last.size ≡ pos
  pub all_full : All IsFull full

take-overwrite :
    (offset : ℕ) (new old : List ℕ)
    → offset + length new ≤ length old
    → take (offset + length new) (overwrite offset new old) ≡ take offset old ++ new
unfolding overwrite
take-overwrite offset new old h =
    ap (take (offset + length new))
      (sym (append_assoc (take offset old) new (drop (offset + length new) old)))
    ∙ ap (λ (n : ℕ). take n ((take offset old ++ new) ++ drop (offset + length new) old))
        (omega
          (arith, length-append (take offset old) new, length-take_exact offset old (omega arith)))
    ∙ take-length-append (take offset old ++ new) (drop (offset + length new) old)

pub length-overwrite :
    (offset : ℕ) (new old : List ℕ)
    → offset + length new ≤ length old
    → length (overwrite offset new old) ≡ length old
unfolding overwrite
length-overwrite offset new old h = omega (
  arith,
  length-append (take offset old) (new ++ drop (offset + length new) old),
  length-append new (drop (offset + length new) old),
  length-drop (offset + length new) old,
  length-take_exact offset old (omega arith),
)

map-append :
    (bs cs : List Block) → map block_bytes (bs ++ cs) ≡ map block_bytes bs ++ map block_bytes cs
map-append [] cs = refl
map-append (b ∷ bs) cs = ap (λ (r : List Fragment). block_bytes b ∷ r) (map-append bs cs)

-- A round of the client writes some of its bytes.
pub record Round (done bs : List ℕ) (r : List ℕ × ChainedStream) : Type 0 where
  pub new : List ℕ
  pub split : bs ≡ new ++ r.0
  pub written : Written r.1 (done ++ new)
  pub progress : bs ≢ [] → length r.0 < length bs

-- What a round leaves, from a block `old` that has been filled up to `offset`.
Round-from :
    (full : List Block) (old : List ℕ) (offset : ℕ) (done bs : List ℕ)
    → offset < block_size
    → length old ≡ block_size
    → concat (map block_bytes full) ++ take offset old ≡ done
    → All IsFull full
    → let new = take (block_size - offset) bs in
      Round done bs (
        drop (block_size - offset) bs,
        state
            (length full)
            full
            (record { size = offset + length new; bytes = overwrite offset new old })
            (offset + length new)
            (length done + length new),
      )
Round-from full old offset done bs h block bytes all_full =
    let new = take (block_size - offset) bs in
    let short : length new ≤ block_size - offset = length-take (block_size - offset) bs in
    let fits : offset + length new ≤ length old = omega (arith, short) in
    record {
      new = new;
      split = take-drop (block_size - offset) bs;
      written = record {
        full = full;
        last = record { size = offset + length new; bytes = overwrite offset new old };
        pos = offset + length new;
        is_state = rw (length-append done new) refl;
        room = omega (arith, short);
        block = length-overwrite offset new old fits ∙ block;
        bytes =
            ap (λ (r : List ℕ). concat (map block_bytes full) ++ r)
              (take-overwrite offset new old fits)
            ∙ sym (append_assoc (concat (map block_bytes full)) (take offset old) new)
            ∙ ap (λ (r : List ℕ). r ++ new) bytes;
        size = λ n. refl;
        all_full = all_full;
      };
      progress = λ n. omega (arith, length-drop (block_size - offset) bs, length-pos bs n);
    }

-- Once something has been written, the blocks hold exactly what was.
pub all_bytes :
    (s : ChainedStream) (done : List ℕ) (w : Written s done)
    → length done ≢ 0
    → concat (map block_bytes (w.full ++ (w.last ∷ []))) ≡ done
unfolding concat
all_bytes s done w some_done =
    ap concat (map-append w.full (w.last ∷ []))
    ∙ concat-append (map block_bytes w.full) (block_bytes w.last ∷ [])
    ∙ ap (λ (r : List ℕ). concat (map block_bytes w.full) ++ r)
        (append-nil (block_bytes w.last) ∙ ap (λ (n : ℕ). take n w.last.bytes) (w.size some_done))
    ∙ w.bytes

module _ (s : ChainedStream) (done bs : List ℕ) (w : Written s done) where
  Round-inside : w.pos < block_size → Round done bs (write_some bs s)
  Round-inside h =
      rw (w.is_state, write_some-inside w.full w.last w.pos (length done) bs h)
        (Round-from w.full w.last.bytes w.pos done bs h w.block w.bytes w.all_full)

  -- A full block keeps its bytes.
  some_done : block_size ≤ w.pos → length done ≢ 0
  some_done h e = omega (
    arith,
    ap length w.bytes,
    length-append (concat (map block_bytes w.full)) (take w.pos w.last.bytes),
    length-take_exact w.pos w.last.bytes (omega (arith, w.room, w.block)),
    w.room,
    w.block,
  )

  full_block : block_size ≤ w.pos → concat (map block_bytes (w.full ++ (w.last ∷ []))) ≡ done
  full_block h = all_bytes s done w (some_done h)

  last-IsFull : block_size ≤ w.pos → IsFull w.last
  last-IsFull h = (omega (arith, w.size (some_done h), w.room), w.block)

  Round-fresh : block_size ≤ w.pos → Round done bs (write_some bs s)
  Round-fresh h =
      rw (w.is_state, write_some-fresh w.full w.last w.pos (length done) bs h)
        (Round-from (w.full ++ (w.last ∷ [])) (replicate block_size 0) 0 done bs (omega arith)
          (length-replicate {A = ℕ} block_size 0) (append-nil _ ∙ full_block h)
          (All-end w.full w.last w.all_full (last-IsFull h)))

  pub Round-write_some : Round done bs (write_some bs s)
  Round-write_some = elim (le_or_lt block_size w.pos) [
    | inl h ↦ Round-fresh h
    | inr h ↦ Round-inside h
  ]
