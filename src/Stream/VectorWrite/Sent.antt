-- ===== src/Stream/VectorWrite/Sent.antt =====
-- Whatever the socket takes, src/network/vector_write.cpp loses no byte and writes none twice.
use lightstep_tracer_cpp.Base.{
  ℕ, ◌≡◌, refl, ap, sym, ◌∙◌, Bool, true, false, List, [], ◌∷◌, ◌++◌, ltb, leb, ◌==◌, if◌then◌else◌,
  if_elim, ==_iff, length, drop, All, drop-length-append, append_assoc, arith,
}
use lightstep_tracer_cpp.Stream.{Fragment, FragmentInputStream, IsLawful, concat, consume}
use lightstep_tracer_cpp.Stream.Consume.{bytes, consume_lem}
use lightstep_tracer_cpp.Stream.VectorWrite.{
  Socket, Progress, started, Result, thrown, returned, do_write, do_fragment, write_rest,
  count_fragments, write_streams, batch_size, write_all, write, sent_by,
}
use lightstep_tracer_cpp.Stream.VectorWrite.Batches.{
  IsHonest, Counts, Loop, Loop-end, Split, if_go_on-Loop, take_answer-Counts, visit-Loop,
  nothing_sent,
}

module _ {S : Type 0} (F : FragmentInputStream S) where
  -- What `Write` has made of the streams: the bytes that the socket took, in order and once, and what is
  -- left. It throws after an error, and otherwise returns whether nothing is left.
  pub record IsWritten (ss : List S) (sent : List ℕ) (r : Result × List S) : Type 0 where
    pub order : bytes F ss ≡ sent ++ bytes F r.1
    pub is_open : All F.IsOpen r.1
    pub result : (b : Bool) → r.0 ≡ returned b → b ≡ leb (length (bytes F ss)) (length sent)

module _ (socket : Socket) (honest : IsHonest socket) {S : Type 0} (F : FragmentInputStream S)
    (laws : IsLawful F) where
  write_streams-Loop :
      (max_batch_size : ℕ) (ss : List S) (p : Progress) (done : List ℕ) (c : Counts p done)
      → c.unsent ≡ []
      → All F.IsOpen ss
      → Loop (write_streams socket F max_batch_size ss p) (done ++ bytes F ss)
  unfolding write_streams bytes
  write_streams-Loop max_batch_size [] p done c none h = Loop-end p done c none
  write_streams-Loop max_batch_size (s ∷ ss) p done c none (h, hs) =
      rw (append_assoc done (concat (F.contents s)) (bytes F ss)) at (
        if_go_on-Loop (F.for_each_fragment (do_fragment socket max_batch_size) s p)
          (write_streams socket F max_batch_size ss) (done ++ concat (F.contents s)) (bytes F ss)
          (rw (laws.for_each_lem _ (do_fragment socket max_batch_size) s p h)
            (visit-Loop socket honest max_batch_size (F.contents s) p done c none))
          (λ q d e. write_streams-Loop max_batch_size ss q (done ++ concat (F.contents s)) d e hs))

  rest-Counts : (p : Progress) (done : List ℕ) → Counts p done → Split (write_rest socket p) done
  unfolding write_rest do_write concat
  rest-Counts p done c =
      if_elim (λ q. Split q done) (ltb 0 p.batch_num_bytes) _ _
        (λ _.
          let k = take_answer-Counts socket honest p done (socket p.calls p.batch) refl c in
          record { unsent = k.unsent; split = k.split; sent_bytes = k.sent_bytes })
        (λ _. record {
          unsent = concat p.batch ++ c.unsent;
          split = c.split;
          sent_bytes = c.sent_bytes;
        })

  no_fragments : (ss : List S) → All F.IsOpen ss → count_fragments F ss ≡ 0 → bytes F ss ≡ []
  unfolding count_fragments bytes concat
  no_fragments [] h e = refl
  no_fragments (s ∷ ss) (h, hs) e =
      rw (no_contents (F.contents s) (omega (arith, laws.num_fragments_lem s h)))
        (no_fragments ss hs (omega arith))
    where
      no_contents : (xs : List Fragment) → length xs ≡ 0 → xs ≡ []
      no_contents [] h = refl
      no_contents (x ∷ xs) h = absurd (omega arith)

  either :
      (ss : List S) (sent : List ℕ) (r : Result × List S) (b : Bool)
      → (b ≡ true → IsWritten F ss [] (returned true, ss))
      → (b ≡ false → IsWritten F ss sent r)
      → IsWritten F ss (if b then [] else sent) (if b then (returned true, ss) else r)
  either ss sent r true f g = f refl
  either ss sent r false f g = g refl

  nothing-IsWritten :
      (ss : List S)
      → All F.IsOpen ss
      → count_fragments F ss ≡ 0
      → IsWritten F ss [] (returned true, ss)
  nothing-IsWritten ss h e = record {
    order = refl;
    is_open = h;
    result = λ b r. sym (same b r) ∙ (rw (no_fragments ss h e) refl);
  }
    where
      same : (b : Bool) → returned true ≡ returned b → true ≡ b
      same b r = cc

  same_result :
      (error all b : Bool) → (if error then thrown else returned all) ≡ returned b → all ≡ b
  same_result true all b r = absurd (differ r)
    where
      differ : thrown ≡ returned b → ⊥
      differ r = cc
  same_result false all b r = cc

  consumed-IsWritten :
      (ss : List S) (p : Progress)
      → Split p (bytes F ss)
      → All F.IsOpen ss
      → let (all, ss') = consume F ss p.num_bytes_written in
        IsWritten F ss p.sent (if p.error then thrown else returned all, ss')
  consumed-IsWritten ss p c h =
      let k = consume_lem F laws ss p.num_bytes_written h in
      record {
        order =
            c.split
            ∙ ap (λ (t : List ℕ). p.sent ++ t)
                (sym (
                  k.rest
                  ∙ (ap (λ (t : List ℕ). drop p.num_bytes_written t) c.split
                      ∙ (ap (λ (n : ℕ). drop n (p.sent ++ c.unsent)) c.sent_bytes
                          ∙ drop-length-append p.sent c.unsent))));
        is_open = k.opened;
        result = λ b r.
            sym (same_result p.error _ b r)
            ∙ (k.all ∙ ap (λ (n : ℕ). leb (length (bytes F ss)) n) c.sent_bytes);
      }

  -- On lawful open streams, with a socket that takes at most what it is given: Write leaves exactly the
  -- bytes behind those that the socket took, whatever the batches are and wherever the socket blocks or
  -- fails, and the streams stay open.
  pub write-IsWritten :
      (io_vec_max : ℕ) (ss : List S)
      → All F.IsOpen ss
      → IsWritten F ss (sent_by socket F io_vec_max ss) (write socket F io_vec_max ss)
  unfolding write write_all sent_by
  write-IsWritten io_vec_max ss h =
      let all_streams =
        write_streams-Loop (batch_size io_vec_max (count_fragments F ss)) ss started []
          nothing_sent.0 nothing_sent.1 h in
      either ss _ _ (count_fragments F ss == 0)
        (λ e. nothing-IsWritten ss h ((==_iff (count_fragments F ss) 0).0 e))
        (λ _.
          consumed-IsWritten ss (write_all socket F io_vec_max ss)
            (rest-Counts _ (bytes F ss) all_streams.counts) h)
