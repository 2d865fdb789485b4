-- ===== src/Torrent/Pieces.antt =====
-- internal/torrent/pieces.go: how a torrent's bytes are cut into pieces.
pub mod Layout
use sid_torrent.Prelude.{Bool, Option, none, some, ◌&&◌, if◌then◌else◌}
use sid_torrent.Prelude.Int.{ℤ, pos, negsuc, ◌/ℤ◌, ◌%ℤ◌, ◌+ℤ◌, ◌-ℤ◌, ltb_ℤ, leb_ℤ, eqb_ℤ}

-- The errors of `PieceLengthAt`, in the order of its checks.
pub data LengthError : Type 0 where
  invalid_total invalid_piece_length invalid_index out_of_range : LengthError

pub data LengthResult : Type 0 where
  ok : ℤ → LengthResult
  failed : LengthError → LengthResult

-- The number of pieces. `none` is Go's run-time panic on a division by zero.
unfoldable pub piece_count : ℤ → ℤ → Option ℤ
piece_count length piece_length =
    if eqb_ℤ piece_length (pos 0)
    then none
    else some (
        if eqb_ℤ (length %ℤ piece_length) (pos 0)
        then length /ℤ piece_length
        else length /ℤ piece_length +ℤ pos 1)

unfoldable pub piece_length_at : ℤ → ℤ → ℤ → LengthResult
piece_length_at total standard index =
    if leb_ℤ total (pos 0)
    then failed invalid_total
    else if leb_ℤ standard (pos 0)
    then failed invalid_piece_length
    else if ltb_ℤ index (pos 0)
    then failed invalid_index
    else let full = total /ℤ standard in
      let remainder = total %ℤ standard in
      let count = if ltb_ℤ (pos 0) remainder then full +ℤ pos 1 else full in
      if leb_ℤ count index
      then failed out_of_range
      else if ltb_ℤ (pos 0) remainder && eqb_ℤ index (count -ℤ pos 1)
      then ok remainder
      else ok standard

-- The method of `TorrentFile`, which turns every error into 0.
unfoldable pub length_or_zero : LengthResult → ℤ
length_or_zero (ok n) = n
length_or_zero (failed e) = pos 0

unfoldable pub file_piece_length_at : ℤ → ℤ → ℤ → ℤ
unfolding length_or_zero
file_piece_length_at length piece_length index =
    length_or_zero (piece_length_at length piece_length index)
