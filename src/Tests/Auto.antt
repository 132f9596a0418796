-- ===== src/Tests/Auto.antt =====
-- Runs of the recorder with a writer thread, and its theorems at concrete inputs.
use lightstep_tracer_cpp.Base.{ℕ, ◌+◌, ◌≤◌, ◌≡◌, refl, true, false}
use lightstep_tracer_cpp.Recorder.Auto.{
  between, sending, record_span, begin_flush, end_flush, flush_wait_seq, flush_result, Run,
  record_step, begin_step, failure_step, Reach, here, next, fresh,
}
use lightstep_tracer_cpp.Recorder.Auto.Accounting.{IsBalanced}
use lightstep_tracer_cpp.Recorder.Auto.Flush.{settled, Reach-fresh-IsBalanced, flush_result_lem}

abbrev new_run : Run ℕ
new_run = fresh 2

-- A span is recorded; a flush begins to wait; the writer takes the span, another one is recorded, and
-- the report fails.
abbrev recorded_one : Run ℕ
recorded_one = record new_run {
  recorder = record_span 11 new_run.recorder;
  recorded = new_run.recorded + 1;
}

abbrev begun : Run ℕ
begun = record recorded_one { recorder = begin_flush recorded_one.recorder }

abbrev recorded_two : Run ℕ
recorded_two = record begun {
  recorder = record_span 12 begun.recorder;
  recorded = begun.recorded + 1;
}

abbrev failed : Run ℕ
failed = record recorded_two { recorder = end_flush false 0 1 recorded_two.recorder }

recorded_one-between : recorded_one.recorder.writer ≡ between
unfolding fresh record_span
recorded_one-between = refl

recorded_two-sending : recorded_two.recorder.writer ≡ sending 0 1
unfolding fresh record_span begin_flush
recorded_two-sending = refl

Reach-recorded_one : Reach new_run recorded_one
Reach-recorded_one = next here (record_step new_run 11)

Reach-failed : Reach recorded_one failed
Reach-failed =
    next (next (next here (begin_step recorded_one recorded_one-between)) (record_step begun 12))
      (failure_step recorded_two 0 1 recorded_two-sending)

Reach-fresh-IsBalanced_example : IsBalanced recorded_one
Reach-fresh-IsBalanced_example = Reach-fresh-IsBalanced 2 recorded_one Reach-recorded_one

flush_done : flush_result (flush_wait_seq recorded_one.recorder) failed.recorder ≡ true
unfolding flush_result flush_wait_seq fresh record_span begin_flush end_flush
flush_done = refl

flush_result_lem_example : recorded_one.recorded ≤ settled failed
flush_result_lem_example =
    flush_result_lem 2 recorded_one failed Reach-recorded_one Reach-failed flush_done
