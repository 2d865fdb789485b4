-- ===== src/Piece/Assembler.antt =====
-- internal/piece/assembler.go: one piece, put together from blocks.
pub mod Blocks
use sid_torrent.Prelude.{
  ℕ, zero, suc, ◌+◌, ◌-◌, ◌*◌, ◌/◌, Bool, true, false, not, ◌&&◌, ◌||◌, Option, none, some, List,
  [], ◌∷◌, ltb, leb, ◌==◌, if◌then◌else◌, length, set, get_or, splice, replicate,
}
use sid_torrent.Prelude.Int.{ℤ, pos, negsuc, sub_ℕ, leb_ℤ}

abbrev pub block_size : ℕ
block_size = 16384

-- The mutex is left out: each operation is one step on the state.
pub record PieceAssembler : Type 0 where
  pub piece_index : ℕ
  pub piece_size : ℕ
  pub content : List ℕ
  pub received : List Bool
  pub requested : List Bool
  pub total_blocks : ℕ

unfoldable pub new_assembler : ℕ → ℕ → PieceAssembler
new_assembler piece_index piece_size =
    let total = (piece_size + block_size - 1) / block_size in
    record {
      piece_index = piece_index;
      piece_size = piece_size;
      content = replicate piece_size 0;
      received = replicate total false;
      requested = replicate total false;
      total_blocks = total;
    }

-- The difference is signed, as in the source: past the end of the piece it is not positive.
unfoldable pub block_length : PieceAssembler → ℕ → ℤ
block_length pa block_index =
    let remaining = sub_ℕ pa.piece_size (block_index * block_size) in
    if leb_ℤ remaining (pos block_size) then remaining else pos block_size

pub data BlockError : Type 0 where
  offset_out_of_bounds exceeds_piece_size invalid_block_index : BlockError

-- The new state with the error, if there is one. The bytes are copied before the last check.
unfoldable pub add_block : PieceAssembler → ℤ → List ℕ → PieceAssembler × Option BlockError
add_block pa (negsuc offset) block = (pa, some offset_out_of_bounds)
add_block pa (pos offset) block =
    if leb pa.piece_size offset
    then (pa, some offset_out_of_bounds)
    else if ltb pa.piece_size (offset + length block)
    then (pa, some exceeds_piece_size)
    else let index = offset / block_size in
      let copied = record pa { content = splice pa.content offset block } in
      if leb (length pa.received) index
      then (copied, some invalid_block_index)
      else (record copied { received = set pa.received index true }, none)

unfoldable pub all_true : List Bool → Bool
all_true [] = true
all_true (b ∷ bs) = b && all_true bs

unfoldable pub is_complete : PieceAssembler → Bool
unfolding all_true
is_complete pa = all_true pa.received

-- The first index from `i` on, among `left`, that is neither received nor requested.
unfoldable pub first_missing : List Bool → List Bool → ℕ → ℕ → Option ℕ
first_missing received requested i zero = none
first_missing received requested i (suc left) =
    let rest = first_missing received requested (suc i) left in
    if get_or received i false || get_or requested i false then rest else some i

unfoldable pub request_block : PieceAssembler → Option ℕ → PieceAssembler × Option (ℕ × ℤ)
request_block pa none = (pa, none)
request_block pa (some i) =
    (record pa { requested = set pa.requested i true }, some (i * block_size, block_length pa i))

-- The next block to ask for, as (offset, length), which is marked as requested.
unfoldable pub next_missing_block : PieceAssembler → PieceAssembler × Option (ℕ × ℤ)
unfolding first_missing request_block
next_missing_block pa = request_block pa (first_missing pa.received pa.requested 0 pa.total_blocks)

unfoldable pub reset_block : PieceAssembler → ℕ → PieceAssembler
reset_block pa offset =
    let index = offset / block_size in
    if leb (length pa.requested) index
    then pa
    else record pa { requested = set pa.requested index false }
