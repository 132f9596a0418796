-- ===== src/Stream/Chained.antt =====
-- src/common/chained_stream.h and .cpp: an output stream that chains blocks of 256 bytes as they are
-- written, and that is read as a stream of fragments once it is closed. A pointer to a block is its
-- index in the chain that begins with `head_`; a null pointer is the index behind the last block.
use lightstep_tracer_cpp.Base.{
  ℕ, zero, suc, ◌+◌, ◌-◌, Bool, true, false, List, [], ◌∷◌, ◌++◌, ltb, ◌==◌, if◌then◌else◌, length,
  get_or, take, drop, map, set, replicate,
}
use lightstep_tracer_cpp.Stream.{Fragment, visit, if_go_on}
pub mod FirstBlock
pub mod Reading
pub mod RoundTrip
pub mod Rounds
pub mod Writing

abbrev pub block_size : ℕ
block_size = 256

pub record Block : Type 0 where
  pub size : ℕ
  pub bytes : List ℕ

pub record ChainedStream : Type 0 where
  pub output_closed : Bool
  pub num_blocks : ℕ
  pub num_bytes_written : ℕ
  pub current_block_position : ℕ
  pub current_block : ℕ
  pub fragment_index : ℕ
  pub fragment_position : ℕ
  pub blocks : List Block

abbrev pub no_block : Block
no_block = record { size = 0; bytes = [] }

-- The constructor; it leaves the size and the bytes of `head_` as they are.
unfoldable pub initial : Block → ChainedStream
initial head = record {
  output_closed = false;
  num_blocks = 1;
  num_bytes_written = 0;
  current_block_position = 0;
  current_block = 0;
  fragment_index = 0;
  fragment_position = 0;
  blocks = head ∷ [];
}

unfoldable pub close_output : ChainedStream → ChainedStream
close_output s = record s { output_closed = true; current_block = 0 }

unfoldable pub set_size : ℕ → ℕ → List Block → List Block
set_size i n bs = set bs i (record (get_or bs i no_block) { size = n })

-- What `Next` hands out: the bytes of a block from an offset on.
pub record Space : Type 0 where
  pub block : ℕ
  pub offset : ℕ
  pub count : ℕ

-- `Next`; `new Block{}` is filled with zeros.
unfoldable pub next : ChainedStream → Space × ChainedStream
unfolding set_size
next s =
    if ltb s.current_block_position block_size
    then (
      record {
        block = s.current_block;
        offset = s.current_block_position;
        count = block_size - s.current_block_position;
      },
      record s {
        num_bytes_written = s.num_bytes_written + (block_size - s.current_block_position);
        current_block_position = block_size;
        blocks = set_size s.current_block block_size s.blocks;
      },
    )
    else (
      record { block = s.current_block + 1; offset = 0; count = block_size },
      record s {
        blocks =
            take (s.current_block + 1) s.blocks
            ++ (record { size = block_size; bytes = replicate block_size 0 } ∷ []);
        current_block = s.current_block + 1;
        current_block_position = block_size;
        num_bytes_written = s.num_bytes_written + block_size;
        num_blocks = s.num_blocks + 1;
      },
    )

unfoldable pub back_up : ℕ → ChainedStream → ChainedStream
unfolding set_size
back_up count s = record s {
  num_bytes_written = s.num_bytes_written - count;
  current_block_position = s.current_block_position - count;
  blocks =
      set_size s.current_block ((get_or s.blocks s.current_block no_block).size - count) s.blocks;
}

unfoldable pub byte_count : ChainedStream → ℕ
byte_count s = s.num_bytes_written

unfoldable pub segment_num_fragments : ChainedStream → ℕ
segment_num_fragments s = if s.num_bytes_written == 0 then 0 else s.num_blocks - s.fragment_index

-- The bytes of a block that count.
abbrev pub block_bytes : Block → Fragment
block_bytes b = take b.size b.bytes

unfoldable pub segment_for_each_fragment :
    {A : Type 0} → (Fragment → A → Bool × A) → ChainedStream → A → Bool × A
segment_for_each_fragment f s a =
    if s.num_blocks == 0
    then (true, a)
    else if_go_on
        (f (drop s.fragment_position (block_bytes (get_or s.blocks s.current_block no_block))) a)
        (visit f (map block_bytes (drop (s.current_block + 1) s.blocks)))

unfoldable pub segment_clear : ChainedStream → ChainedStream
segment_clear s = record s {
  num_blocks = 0;
  num_bytes_written = 0;
  fragment_index = 0;
  fragment_position = 0;
  current_block = length s.blocks;
}

unfoldable pub segment_seek : ℕ → ℕ → ChainedStream → ChainedStream
segment_seek zero position s = record s { fragment_position = s.fragment_position + position }
segment_seek (suc i) position s = record s {
  current_block = s.current_block + suc i;
  fragment_index = s.fragment_index + suc i;
  fragment_position = position;
}
