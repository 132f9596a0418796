-- ===== src/Tests/Stream.antt =====
-- Runs of the fragment streams, and their theorems at concrete inputs.
use lightstep_tracer_cpp.Base.{
  ℕ, ◌≡◌, refl, arith, ◌≢◌, false, List, [], ◌∷◌, length, replicate, length-replicate, All, ap,
}
use lightstep_tracer_cpp.Stream.{concat, consume, consume_fragment, visit, IsLawful}
use lightstep_tracer_cpp.Stream.Consume.{consume_lem, HasConsumed}
use lightstep_tracer_cpp.Stream.Array.{
  FragmentArray, of_fragments, add, fragment_array, fragment_array-IsLawful, IsOpen, seek, clear,
  for_each_fragment,
}
use lightstep_tracer_cpp.Stream.Composed.{composed, composed-IsLawful}
use lightstep_tracer_cpp.Stream.Chained.{Block, initial, close_output, byte_count, block_size}
use lightstep_tracer_cpp.Stream.Chained.Writing.{write_pieces}
use lightstep_tracer_cpp.Stream.Chained.Reading.{chained_stream, chained_stream-IsLawful, contents}
use lightstep_tracer_cpp.Stream.Chained.Reading
use lightstep_tracer_cpp.Stream.Chained.RoundTrip.{contents-write}

abbrev header : FragmentArray
header = of_fragments ((1 ∷ 2 ∷ []) ∷ (3 ∷ []) ∷ [])

abbrev body : FragmentArray
body = add (6 ∷ 7 ∷ []) (of_fragments ((4 ∷ 5 ∷ []) ∷ []))

abbrev header_and_body : List FragmentArray
header_and_body = header ∷ body ∷ []

four_consumed :
    consume fragment_array header_and_body 4 ≡ (false, clear header ∷ seek 0 1 body ∷ [])
unfolding consume consume_fragment of_fragments add clear seek for_each_fragment visit
four_consumed = refl

header_and_body-IsOpen : All IsOpen header_and_body
unfolding of_fragments add
header_and_body-IsOpen = (
  record { index = omega arith; position = omega arith },
  (record { index = omega arith; position = omega arith }, tt),
)

consume_lem_example :
    let (all, streams) = consume fragment_array header_and_body 4 in
    HasConsumed fragment_array header_and_body 4 all streams
consume_lem_example =
    consume_lem fragment_array fragment_array-IsLawful header_and_body 4 header_and_body-IsOpen

composed-IsLawful_example : IsLawful (composed chained_stream)
composed-IsLawful_example = composed-IsLawful chained_stream-IsLawful

-- The bytes of a stream that has just been made are not set.
abbrev unset : Block
unset = record { size = 77; bytes = replicate block_size 99 }

-- The second piece begins in the block that the first one has not filled.
abbrev text : List (List ℕ)
text = (10 ∷ 20 ∷ []) ∷ [] ∷ (30 ∷ []) ∷ []

text-nonempty : concat text ≢ []
unfolding concat
text-nonempty e = omega (arith, ap length e)

contents-write_example :
    let s = close_output (write_pieces text (initial unset)) in
    Reading.IsOpen s × (concat (contents s) ≡ concat text) × (byte_count s ≡ length (concat text))
unfolding concat
contents-write_example =
    contents-write unset text (length-replicate {A = ℕ} block_size 99) text-nonempty (omega arith)
