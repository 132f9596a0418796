-- ===== src/Stream/VectorWrite.antt =====
-- src/network/vector_write.cpp: the fragments of some streams are written to a socket in batches, and
-- the streams are advanced past what the socket took. What `WriteV` does at its `k`-th call with a batch
-- is a parameter, as is the largest batch that the system allows.
use lightstep_tracer_cpp.Base.{
  ℕ, ◌+◌, Bool, true, false, not, ◌||◌, List, [], ◌∷◌, ◌++◌, ltb, ◌==◌, if◌then◌else◌, length, take,
}
use lightstep_tracer_cpp.Stream.{Fragment, FragmentInputStream, concat, if_go_on, consume}
pub mod Batches
pub mod Sent

-- The return code of `WriteV`, and whether an error is that the call would block.
pub data Answer : Type 0 where
  written : ℕ → Answer
  would_block : Answer
  failed : Answer

abbrev pub Socket : Type 0
Socket = ℕ → List Fragment → Answer

-- The variables of `Write`; `calls` and `sent` are the socket's: the calls so far, and what it took.
pub record Progress : Type 0 where
  pub batch : List Fragment
  pub batch_num_bytes : ℕ
  pub num_bytes_written : ℕ
  pub error : Bool
  pub blocked : Bool
  pub calls : ℕ
  pub sent : List ℕ

abbrev pub started : Progress
started = record {
  batch = [];
  batch_num_bytes = 0;
  num_bytes_written = 0;
  error = false;
  blocked = false;
  calls = 0;
  sent = [];
}

-- What `do_write` does with the answer.
abbrev pub take_answer : Answer → Progress → Progress
take_answer would_block p = record p { blocked = true; calls = p.calls + 1 }
take_answer failed p = record p { error = true; calls = p.calls + 1 }
take_answer (written n) p = record p {
  num_bytes_written = p.num_bytes_written + n;
  blocked = if ltb n p.batch_num_bytes then true else p.blocked;
  calls = p.calls + 1;
  sent = p.sent ++ take n (concat p.batch);
}

-- `Write` throws, or returns.
pub data Result : Type 0 where
  thrown : Result
  returned : Bool → Result

module _ (socket : Socket) where
  unfoldable pub do_write : Progress → Progress
  do_write p = take_answer (socket p.calls p.batch) p

  unfoldable pub do_fragment : ℕ → Fragment → Progress → Bool × Progress
  unfolding do_write
  do_fragment max_batch_size x p =
      let p1 : Progress = record p {
        batch = p.batch ++ (x ∷ []);
        batch_num_bytes = p.batch_num_bytes + length x;
      } in
      let p2 = do_write p1 in
      if length p1.batch == max_batch_size
      then (not (p2.error || p2.blocked), record p2 { batch = []; batch_num_bytes = 0 })
      else (true, p1)

  -- `if (batch_num_bytes > 0) do_write();`
  unfoldable pub write_rest : Progress → Progress
  unfolding do_write
  write_rest p = if ltb 0 p.batch_num_bytes then do_write p else p

-- `std::min`
abbrev pub batch_size : ℕ → ℕ → ℕ
batch_size io_vec_max n = if ltb n io_vec_max then n else io_vec_max

module _ {S : Type 0} (F : FragmentInputStream S) where
  unfoldable pub count_fragments : List S → ℕ
  count_fragments [] = 0
  count_fragments (s ∷ ss) = F.num_fragments s + count_fragments ss

module _ (socket : Socket) {S : Type 0} (F : FragmentInputStream S) where
  -- The loop over the streams, which a callback that returns false breaks off.
  unfoldable pub write_streams : ℕ → List S → Progress → Bool × Progress
  unfolding do_fragment
  write_streams max_batch_size [] p = (true, p)
  write_streams max_batch_size (s ∷ ss) p =
      if_go_on (F.for_each_fragment (do_fragment socket max_batch_size) s p)
        (write_streams max_batch_size ss)

  module _ (io_vec_max : ℕ) where
    -- Where the loop and the last batch have come to.
    unfoldable pub write_all : List S → Progress
    unfolding count_fragments write_streams write_rest
    write_all ss =
        write_rest socket
          (write_streams (batch_size io_vec_max (count_fragments F ss)) ss started).1

    unfoldable pub write : List S → Result × List S
    unfolding count_fragments write_all consume
    write ss =
        if count_fragments F ss == 0
        then (returned true, ss)
        else let p = write_all ss in
          let (all, ss') = consume F ss p.num_bytes_written in
          (if p.error then thrown else returned all, ss')

    -- The bytes that the socket takes of the streams.
    unfoldable pub sent_by : List S → List ℕ
    unfolding count_fragments write_all
    sent_by ss = if count_fragments F ss == 0 then [] else (write_all ss).sent
