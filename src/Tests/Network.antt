-- ===== src/Tests/Network.antt =====
-- Runs of the writes to a socket.
use lightstep_tracer_cpp.Base.{
  ℕ, ◌≤◌, ◌≡◌, refl, true, List, [], ◌∷◌, All, ltb, if◌then◌else◌, length, arith,
}
use lightstep_tracer_cpp.Stream.{concat, visit, consume_fragment}
use lightstep_tracer_cpp.Stream.Array.{
  FragmentArray, fragment_array, of_fragments, num_fragments, for_each_fragment, IsOpen,
  fragment_array-IsLawful,
}
use lightstep_tracer_cpp.Stream.VectorWrite.{written, Socket, returned, write, sent_by}
use lightstep_tracer_cpp.Stream.VectorWrite.Batches.{IsHonest}
use lightstep_tracer_cpp.Stream.VectorWrite.Sent.{IsWritten, write-IsWritten}

abbrev at_most_five : ℕ → ℕ
at_most_five n = if ltb n 5 then n else 5

-- It takes five bytes at a time.
abbrev slow_socket : Socket
slow_socket k batch = written (at_most_five (length (concat batch)))

slow_socket-IsHonest : IsHonest slow_socket
slow_socket-IsHonest k batch n e = few (length (concat batch)) n (taken (length (concat batch)) e)
  where
    taken : (m : ℕ) → written (at_most_five m) ≡ written n → at_most_five m ≡ n
    taken m e = cc

    few : (m n : ℕ) → at_most_five m ≡ n → n ≤ m
    few m n e = ground arith

abbrev three_streams : List FragmentArray
three_streams =
    of_fragments ((1 ∷ 2 ∷ []) ∷ (3 ∷ 4 ∷ []) ∷ []) ∷ of_fragments ((5 ∷ 6 ∷ 7 ∷ []) ∷ []) ∷ []

-- Batches of two fragments, which the socket takes.
all_sent : (write slow_socket fragment_array 2 three_streams).0 ≡ returned true
unfolding write of_fragments num_fragments for_each_fragment visit concat consume_fragment
all_sent = refl

three_streams-IsOpen : All IsOpen three_streams
unfolding of_fragments
three_streams-IsOpen = (
  record { index = omega arith; position = omega arith },
  (record { index = omega arith; position = omega arith }, tt),
)

write-IsWritten_example :
    IsWritten fragment_array three_streams
      (sent_by slow_socket fragment_array 3 three_streams)
      (write slow_socket fragment_array 3 three_streams)
write-IsWritten_example =
    write-IsWritten slow_socket slow_socket-IsHonest fragment_array fragment_array-IsLawful 3
      three_streams three_streams-IsOpen
