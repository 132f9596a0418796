-- ===== src/Tests/Manual.antt =====
-- Runs of the manual recorder.
use lightstep_tracer_cpp.Base.{
  ℕ, ◌+◌, ◌≡◌, refl, [], ◌∷◌, codes, length, replicate, length-replicate, arith,
}
use lightstep_tracer_cpp.Stream.{Fragment}
use lightstep_tracer_cpp.Stream.Chained.{ChainedStream, Block, block_size, initial, no_block}
use lightstep_tracer_cpp.Stream.Chained.Writing.{write}
use lightstep_tracer_cpp.Recorder.Metrics.{consume_dropped_spans}
use lightstep_tracer_cpp.Recorder.Manual.{
  Run, Reach, here, step, record_step, consume_step, take_step, fork_step, on_forked_child, fresh,
  record_first, take_spans, with_request, reserve_header_space, frame_span,
}
use lightstep_tracer_cpp.Recorder.Manual.Framing.{IsSent, frame_span-IsSent}
use lightstep_tracer_cpp.Recorder.Manual.Books.{IsBalanced, Reach-fresh-Books}
use lightstep_tracer_cpp.Tests.Serialization.{sample_protobuf, sample_protobuf_lem}

-- A first block with bytes left over in it.
abbrev used_block : Block
used_block = record { size = 0; bytes = replicate block_size 9 }

used_block-size : length used_block.bytes ≡ block_size
used_block-size = length-replicate {A = ℕ} block_size 9

frame_span-IsSent_example :
    IsSent
      (frame_span sample_protobuf (reserve_header_space sample_protobuf (initial used_block)).0 (
        write
          (length (codes "a span"))
          (codes "a span")
          (reserve_header_space sample_protobuf (initial used_block)).1))
      (codes "a span")
frame_span-IsSent_example =
    frame_span-IsSent sample_protobuf sample_protobuf_lem used_block (codes "a span")
      used_block-size (omega arith)

abbrev sample_embed : ℕ → Fragment
sample_embed n = n ∷ []

abbrev sample_header : Fragment
sample_header = codes "header"

abbrev sample_span : ChainedStream
sample_span = initial no_block

-- A span is recorded.
abbrev one_recorded : Run
one_recorded = record_first sample_span (fresh sample_header 2)

-- A flush consumes the count of dropped spans, and then takes the span.
abbrev one_consumed : Run
one_consumed = record one_recorded {
  recorder = record (one_recorded.recorder) {
    metrics = (consume_dropped_spans one_recorded.recorder.metrics).1;
  };
  consumed = (consume_dropped_spans one_recorded.recorder.metrics).0 ∷ one_recorded.consumed;
}

abbrev one_taken : Run
one_taken = record one_consumed {
  recorder = (take_spans sample_embed 0 1 one_consumed.recorder).1;
  consumed = [];
  requests =
      with_request (take_spans sample_embed 0 1 one_consumed.recorder).0 one_consumed.requests;
}

-- The process forks with a second span in the buffer, and in the child another span is recorded.
abbrev two_recorded : Run
two_recorded = record_first sample_span one_taken

abbrev one_forked : Run
one_forked = record two_recorded {
  recorder = on_forked_child two_recorded.recorder;
  cleared = two_recorded.cleared + length two_recorded.recorder.span_buffer;
  cleared_drops = two_recorded.cleared_drops + two_recorded.recorder.metrics.num_dropped_spans;
}

Reach-one_forked : Reach sample_embed (fresh sample_header 2) (record_first sample_span one_forked)
unfolding fresh record_first take_spans
Reach-one_forked =
    step
      (step
        (step
          (step
            (step (step here (record_step (fresh sample_header 2) sample_span))
              (consume_step one_recorded))
            (take_step one_consumed [] [] 0 1 refl (omega arith)))
          (record_step one_taken sample_span))
        (fork_step two_recorded))
      (record_step one_forked sample_span)

Reach-fresh-Books_example : IsBalanced (record_first sample_span one_forked)
Reach-fresh-Books_example =
    Reach-fresh-Books sample_embed sample_header 2 (record_first sample_span one_forked)
      Reach-one_forked
