-- ===== src/Tests/Layout.antt =====
-- internal/torrent/pieces.go: a torrent of 40 bytes in pieces of 16.
use sid_torrent.Prelude.{◌≡◌, refl, some, arith}
use sid_torrent.Prelude.Int.{pos}
use sid_torrent.Torrent.Pieces.{piece_count, piece_length_at, ok}
use sid_torrent.Torrent.Pieces.Layout.{sum_lengths, sum_lengths-count}

three_pieces : piece_count (pos 40) (pos 16) ≡ some (pos 3)
unfolding piece_count
three_pieces = refl

last_piece : piece_length_at (pos 40) (pos 16) (pos 2) ≡ ok (pos 8)
unfolding piece_length_at
last_piece = refl

sum_lengths-count_example : sum_lengths 40 16 3 ≡ 40
sum_lengths-count_example = sum_lengths-count 40 16 3 (omega arith) (omega arith) three_pieces
