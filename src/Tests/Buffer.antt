-- ===== src/Tests/Buffer.antt =====
-- A run of the circular buffer with one producer, and the theorems in the state that it reaches.
use lightstep_tracer_cpp.Base.{
  ℕ, ◌≡◌, ◌≢◌, refl, arith, false, ◌≤◌, ◌+◌, ◌%◌, some, length, take, get_elem?,
}
use lightstep_tracer_cpp.CircularBuffer.{
  World, Reach, here, next, call, produce_step, initial, produce, add_step, start, set_producer,
  peek, size, range_size, range_take, range_slots,
}
use lightstep_tracer_cpp.CircularBuffer.Invariant.{Held, owns}
use lightstep_tracer_cpp.CircularBuffer.Safety.{
  Reach-fifo, Reach-stored, Reach-exclusive, Reach-unread, Reach-IsValid, initial-IsValid,
}
use lightstep_tracer_cpp.CircularBuffer.Ownership.{last_call, HasOwners, Reach-HasOwners}
use lightstep_tracer_cpp.CircularBuffer.Peek.{consume_range, turning}

-- The states of a call of `Add` of thread 3 on a new buffer for two elements.
abbrev called : World ℕ
called = record (initial 2) { producers = set_producer 3 (start (some 50)) (initial 2).producers }

abbrev grabbed : World ℕ
grabbed = produce false 3 (produce false 3 (produce false 3 called))

abbrev published_once : World ℕ
published_once = produce false 3 grabbed

Reach-grabbed : Reach (initial 2) grabbed
Reach-grabbed =
    next
      (next
        (next (next here (call (initial 2) 3 50 (unfold initial in refl)))
          (produce_step called false 3))
        (produce_step (produce false 3 called) false 3))
      (produce_step (produce false 3 (produce false 3 called)) false 3)

Reach-published : Reach (initial 2) published_once
Reach-published = next Reach-grabbed (produce_step grabbed false 3)

grabbed_owns : owns grabbed.shared.capacity (grabbed.producers 3) ≡ some 0
unfolding produce add_step initial
grabbed_owns = refl

published_head : published_once.shared.head ≡ 1
unfolding produce add_step initial
published_head = refl

Reach-fifo_example :
    (published_once.taken ≡ take published_once.cleared published_once.history)
    × (length published_once.history ≡ published_once.shared.head)
    × (published_once.cleared ≤ published_once.shared.tail)
    × (published_once.shared.tail ≤ published_once.shared.head)
    × (published_once.shared.head ≤ published_once.shared.tail + 2)
Reach-fifo_example = Reach-fifo 2 Reach-published

Reach-stored_example :
    published_once.shared.slots (0 % published_once.shared.capacity)
    ≡ get_elem? published_once.history 0
unfolding produce add_step initial
Reach-stored_example = Reach-stored 2 0 Reach-published (omega arith) (omega arith)

Reach-exclusive_example : ◌≡◌ {A = ℕ} 3 3 × Held (grabbed.shared.slots 0)
Reach-exclusive_example = Reach-exclusive 2 3 3 0 Reach-grabbed grabbed_owns grabbed_owns

-- Thread 4 has filled slot 1 while the element of thread 3 stands in slot 0.
abbrev called_again : World ℕ
called_again = record published_once {
  producers = set_producer 4 (start (some 60)) published_once.producers;
}

abbrev grabbed_again : World ℕ
grabbed_again = produce false 4 (produce false 4 (produce false 4 called_again))

Reach-grabbed_again : Reach (initial 2) grabbed_again
Reach-grabbed_again =
    next
      (next
        (next
          (next Reach-published
            (call published_once 4 60 (unfold initial produce add_step in refl)))
          (produce_step called_again false 4))
        (produce_step (produce false 4 called_again) false 4))
      (produce_step (produce false 4 (produce false 4 called_again)) false 4)

grabbed_again_owns : owns grabbed_again.shared.capacity (grabbed_again.producers 4) ≡ some 1
unfolding produce add_step initial
grabbed_again_owns = refl

Reach-unread_example : 0 % grabbed_again.shared.capacity ≢ 1
unfolding produce add_step initial
Reach-unread_example =
    Reach-unread 2 4 1 0 Reach-grabbed_again grabbed_again_owns (omega arith) (omega arith)

Reach-HasOwners_example : HasOwners grabbed_again (last_call Reach-grabbed_again)
Reach-HasOwners_example = Reach-HasOwners 2 Reach-grabbed_again

consume_range_example :
    (range_size (peek published_once.shared) ≡ size published_once.shared)
    × (range_slots (range_take 1 (peek published_once.shared))
        ≡ turning published_once.shared.capacity published_once.shared.tail 1)
unfolding size produce add_step initial
consume_range_example =
    consume_range published_once.shared (Reach-IsValid Reach-published (initial-IsValid 2)).core 1
      (omega arith)
