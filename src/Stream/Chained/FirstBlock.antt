-- ===== src/Stream/Chained/FirstBlock.antt =====
-- What is stored at the start of the first block of the chained stream of src/common/chained_stream.cpp,
-- after the client has written more.
use lightstep_tracer_cpp.Base.{
  ℕ, zero, suc, ◌-◌, ◌≤◌, ◌<◌, ◌≡◌, ◌≢◌, refl, ap, sym, ◌∙◌, List, [], ◌∷◌, ◌++◌, length, take,
  drop, map, All, get_or, arith, length-append, length-take, length-take_exact, append_assoc,
  drop-append_inside, drop-nil, drop-length-append,
}
use lightstep_tracer_cpp.Stream.{Fragment, concat, from_position}
use lightstep_tracer_cpp.Stream.Chained.Reading.{IsOpen, reading, contents, chained_stream-IsLawful}
use lightstep_tracer_cpp.Stream.Chained.RoundTrip.{closed-IsReading, contents-closed}
use lightstep_tracer_cpp.Stream.Chained.{
  close_output, segment_seek, segment_num_fragments, ChainedStream, Block, block_size, block_bytes,
  no_block,
}
use lightstep_tracer_cpp.Stream.Chained.Writing.{overwrite, store, state}
use lightstep_tracer_cpp.Stream.Chained.Rounds.{Written, IsFull, length-overwrite}

take-append_over :
    (n : ℕ) (xs ys : List ℕ) → length xs ≤ n → take n (xs ++ ys) ≡ xs ++ take (n - length xs) ys
take-append_over n [] ys h = ap (λ (k : ℕ). take k ys) (omega arith)
take-append_over zero (x ∷ xs) ys h = absurd (omega arith)
take-append_over (suc n) (x ∷ xs) ys h =
    ap (λ (r : List ℕ). x ∷ r)
      (take-append_over n xs ys (omega arith) ∙ ap (λ (k : ℕ). xs ++ take k ys) (omega arith))

drop-take : (n k : ℕ) (xs : List ℕ) → k ≤ n → drop k (take n xs) ≡ take (n - k) (drop k xs)
drop-take n zero xs h = ap (λ (m : ℕ). take m xs) (omega arith)
drop-take zero (suc k) xs h = absurd (omega arith)
drop-take (suc n) (suc k) [] h = take-nil (suc n - suc k)
  where
    take-nil : (m : ℕ) → [] ≡ take {A = ℕ} m []
    take-nil zero = refl
    take-nil (suc m) = refl
drop-take (suc n) (suc k) (x ∷ xs) h =
    drop-take n k xs (omega arith) ∙ ap (λ (m : ℕ). take m (drop k xs)) (omega arith)

-- The first `n` bytes of a block whose first bytes are written anew.
take-overwrite_start :
    (n : ℕ) (new old : List ℕ)
    → length new ≤ n
    → take n (overwrite 0 new old) ≡ new ++ drop (length new) (take n old)
unfolding overwrite
take-overwrite_start n new old h =
    ap (λ (k : ℕ). take n (new ++ drop k old)) (omega arith)
    ∙ (take-append_over n new (drop (length new) old) h
        ∙ ap (λ (r : List ℕ). new ++ r) (sym (drop-take n (length new) old h)))

length-full : (b : Block) → IsFull b → length (block_bytes b) ≡ block_size
length-full b h = length-take_exact b.size b.bytes (omega (arith, h.0, h.1)) ∙ h.0

module _ (buffer garbage body : List ℕ) (same : length garbage ≡ length buffer) where
  body_lem : (xs : List ℕ) → xs ≡ garbage ++ body → drop (length buffer) xs ≡ body
  body_lem xs e =
      ap (drop (length buffer)) e
      ∙ (ap (λ (k : ℕ). drop k (garbage ++ body)) (sym same) ∙ drop-length-append garbage body)

  same_length : length (garbage ++ body) ≡ length (buffer ++ body)
  same_length = omega (arith, same, length-append garbage body, length-append buffer body)

  -- If only one block is in use.
  store_only :
      (last : Block) (pos count : ℕ)
      → (0 < length buffer)
      → pos ≤ block_size
      → length last.bytes ≡ block_size
      → take pos last.bytes ≡ garbage ++ body
      → last.size ≡ pos
      → Written
          (store
            (record { block = 0; offset = 0; count = count })
            buffer
            (state 0 [] last pos (length (garbage ++ body))))
          (buffer ++ body)
  unfolding store concat
  store_only last pos count some room block bytes size =
      let fits : length buffer ≤ pos =
        omega
          (arith, same, ap length bytes, length-append garbage body, length-take pos last.bytes) in
      rw same_length (record {
        full = [];
        last = record { size = last.size; bytes = overwrite 0 buffer last.bytes };
        pos = pos;
        is_state = refl;
        room = room;
        block = length-overwrite 0 buffer last.bytes (omega arith) ∙ block;
        bytes =
            take-overwrite_start pos buffer last.bytes fits
            ∙ ap (λ (r : List ℕ). buffer ++ r) (body_lem (take pos last.bytes) bytes);
        size = λ n. size;
        all_full = tt;
      })

  -- If others follow it, it is full.
  store_before :
      (b : Block) (full : List Block) (last : Block) (pos count : ℕ)
      → length buffer ≤ block_size
      → pos ≤ block_size
      → length last.bytes ≡ block_size
      → concat (map block_bytes (b ∷ full)) ++ take pos last.bytes ≡ garbage ++ body
      → last.size ≡ pos
      → All IsFull (b ∷ full)
      → Written
          (store
            (record { block = 0; offset = 0; count = count })
            buffer
            (state (length (b ∷ full)) (b ∷ full) last pos (length (garbage ++ body))))
          (buffer ++ body)
  unfolding store concat
  store_before b full last pos count fits room block bytes size (one, rest) =
      rw same_length (record {
        full = record { size = b.size; bytes = overwrite 0 buffer b.bytes } ∷ full;
        last = last;
        pos = pos;
        is_state = refl;
        room = room;
        block = block;
        bytes =
            ap (λ (r : List ℕ). (r ++ concat (map block_bytes full)) ++ take pos last.bytes)
              (take-overwrite_start b.size buffer b.bytes (omega (arith, one.0)))
            ∙ (append_assoc (buffer ++ drop (length buffer) (block_bytes b))
                  (concat (map block_bytes full)) (take pos last.bytes)
                ∙ (append_assoc buffer (drop (length buffer) (block_bytes b))
                      (concat (map block_bytes full) ++ take pos last.bytes)
                    ∙ ap (λ (r : List ℕ). buffer ++ r)
                        (sym (
                            drop-append_inside (length buffer) (block_bytes b)
                              (concat (map block_bytes full) ++ take pos last.bytes)
                              (omega (arith, length-full b one)))
                          ∙ (ap (drop (length buffer)) (
                                sym (
                                  append_assoc (block_bytes b) (concat (map block_bytes full))
                                    (take pos last.bytes)))
                              ∙ body_lem
                                  (concat (map block_bytes (b ∷ full)) ++ take pos last.bytes)
                                  bytes))));
        size = λ n. size;
        all_full =
            ((one.0, length-overwrite 0 buffer b.bytes (omega (arith, one.1)) ∙ one.1), rest);
      })

  store_blocks :
      (full : List Block) (last : Block) (pos count : ℕ)
      → 0 < length buffer
      → length buffer ≤ block_size
      → pos ≤ block_size
      → length last.bytes ≡ block_size
      → concat (map block_bytes full) ++ take pos last.bytes ≡ garbage ++ body
      → last.size ≡ pos
      → All IsFull full
      → Written
          (store
            (record { block = 0; offset = 0; count = count })
            buffer
            (state (length full) full last pos (length (garbage ++ body))))
          (buffer ++ body)
  unfolding concat
  store_blocks [] last pos count some fits room block bytes size all =
      store_only last pos count some room block bytes size
  store_blocks (b ∷ full) last pos count some fits room block bytes size all =
      store_before b full last pos count fits room block bytes size all

  -- Bytes stored over the first ones of a stream are the first ones of it, and the others stay.
  pub store_first :
      (s : ChainedStream) (count : ℕ)
      → 0 < length buffer
      → length buffer ≤ block_size
      → Written s (garbage ++ body)
      → Written (store (record { block = 0; offset = 0; count = count }) buffer s) (buffer ++ body)
  store_first s count some fits w = rw w.is_state (
      store_blocks w.full w.last w.pos count some fits w.room w.block w.bytes
        (w.size (λ e. omega (arith, same, e, length-append garbage body))) w.all_full)

-- The first fragment holds at least as many of the bytes as fit a block.
first_block :
    (full : List Block) (last : Block) (pos k : ℕ) (done : List ℕ)
    → concat (map block_bytes full) ++ take pos last.bytes ≡ done
    → last.size ≡ pos
    → All IsFull full
    → k ≤ length done
    → k ≤ block_size
    → k ≤ length (get_or (map block_bytes (full ++ (last ∷ []))) 0 [])
unfolding concat
first_block [] last pos k done bytes size all some fits =
    rw (ap (λ (n : ℕ). take n last.bytes) size ∙ bytes) some
first_block (b ∷ full) last pos k done bytes size (one, rest) some fits =
    omega (arith, length-full b one)

first_fragment :
    (s : ChainedStream) (done : List ℕ) (k : ℕ)
    → Written s done
    → length done ≢ 0
    → k ≤ length done
    → k ≤ block_size
    → k ≤ length (get_or (map block_bytes s.blocks) 0 [])
first_fragment s done k w n some fits =
    rw w.is_state (first_block w.full w.last w.pos k done w.bytes (w.size n) w.all_full some fits)

first_bytes_of :
    (full : List Block) (last : Block)
    → length last.bytes ≡ block_size
    → All IsFull full
    → length (get_or (full ++ (last ∷ [])) 0 no_block).bytes ≡ block_size
first_bytes_of [] last h all = h
first_bytes_of (b ∷ full) last h (one, rest) = one.1

pub first_bytes :
    (s : ChainedStream) (done : List ℕ)
    → Written s done
    → length (get_or s.blocks 0 no_block).bytes ≡ block_size
first_bytes s done w = rw w.is_state (first_bytes_of w.full w.last w.block w.all_full)

concat-from_start :
    (p : ℕ) (xs : List Fragment)
    → p ≤ length (get_or xs 0 [])
    → concat (from_position 0 p xs) ≡ drop p (concat xs)
unfolding concat
concat-from_start p [] h = sym (drop-nil p)
concat-from_start p (x ∷ xs) h = sym (drop-append_inside p x (concat xs) h)

-- A closed stream without the first `p` of its bytes, which the first block holds.
pub skipped :
    (s : ChainedStream) (done : List ℕ) (p : ℕ)
    → Written s done
    → p < length done
    → p < block_size
    → IsOpen (segment_seek 0 p (close_output s))
      × (concat (contents (segment_seek 0 p (close_output s))) ≡ drop p done)
skipped s done p w some fits =
    let n : length done ≢ 0 = λ e. omega arith in
    let opened = closed-IsReading s done n w in
    let is_open = reading opened.0 in
    let first : suc p ≤ length (get_or (contents (close_output s)) 0 []) =
      rw (contents-closed s done w)
        (first_fragment s done (suc p) w n (omega arith) (omega arith)) in
    let any = chained_stream-IsLawful.num_fragments_lem (close_output s) is_open in
    let in_range : 0 < segment_num_fragments (close_output s) =
      omega (arith, any, one_of (contents (close_output s)) p first) in
    (
      chained_stream-IsLawful.IsOpen-seek 0 p (close_output s) is_open in_range (omega arith),
      ap concat
            (chained_stream-IsLawful.seek_lem 0 p (close_output s) is_open in_range (omega arith))
          ∙ (concat-from_start p (contents (close_output s)) (omega arith) ∙ ap (drop p) opened.1),
    )
  where
    one_of : (xs : List Fragment) (p : ℕ) → suc p ≤ length (get_or xs 0 []) → 0 < length xs
    one_of [] p h = absurd (omega arith)
    one_of (x ∷ xs) p h = omega arith
