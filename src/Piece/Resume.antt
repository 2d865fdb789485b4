-- ===== src/Piece/Resume.antt =====
-- internal/piece/manager.go: `LoadExistingState`, over the files of the torrent. A fault of a file stands
-- for an error other than an end of file. SHA-1 is a parameter, and so is `max_alloc`, the number of
-- bytes up to which `make` gives a buffer: above it, and for a negative length, it panics.
pub mod Buffer
pub mod Verified
pub mod Found
use sid_torrent.Prelude.{
  ℕ, zero, suc, ◌+◌, ◌*◌, Bool, true, false, Option, none, some, List, if◌then◌else◌, replicate,
  leb,
}
use sid_torrent.Prelude.Int.{ℤ, pos, negsuc, pos_part}
use sid_torrent.Prelude.Bytes.{Bytes}
use sid_torrent.Torrent.Pieces.{file_piece_length_at}
use sid_torrent.Torrent.Parser.{TorrentFile}
use sid_torrent.Storage.{PhysicalFile, StorageError, io_error, unexpected_eof, read_at}
use sid_torrent.Piece.Manager.{PieceManager, mark_complete}
use sid_torrent.Piece.Worker.{verify_piece}

-- The scan is over, well or with an error of a read; or the program panics.
pub data Resumed : Type 0 where
  resumed : PieceManager → Resumed
  unreadable : PieceManager → Resumed
  panics : Resumed

unfoldable pub after_mark : (PieceManager → Resumed) → Option PieceManager → Resumed
after_mark next none = panics
after_mark next (some pm) = next pm

module _ (sha1 : Bytes → Bytes) (tf : TorrentFile) (files : List PhysicalFile) where
  unfoldable pub size_at : ℕ → ℕ
  size_at i = pos_part (file_piece_length_at tf.total_length tf.piece_length (pos i))

  -- The piece as it is read.
  unfoldable pub read_piece : ℕ → Bytes × ℕ × Option StorageError
  unfolding size_at
  read_piece i = read_at files (replicate (size_at i) 0) (i * pos_part tf.piece_length)

  unfoldable pub after_piece :
      (PieceManager → Resumed) → PieceManager → ℕ → Bytes × ℕ × Option StorageError → Resumed
  unfolding after_mark size_at
  after_piece next pm i (bytes, n, some unexpected_eof) = resumed pm
  after_piece next pm i (bytes, n, some io_error) = unreadable pm
  after_piece next pm i (bytes, n, none) =
      if verify_piece sha1 tf i bytes
      then after_mark next (mark_complete pm i (size_at i))
      else next pm

  -- The loop, with the pieces that are left, from `i` on, and the length of the buffer, of which a piece
  -- is read into a slice.
  unfoldable pub resume_from : ℕ → ℕ → ℕ → PieceManager → Resumed
  unfolding after_piece read_piece size_at
  resume_from buffer zero i pm = resumed pm
  resume_from buffer (suc left) i pm =
      let next = resume_from buffer left (i + 1) in
      if leb (size_at i) buffer then after_piece next pm i (read_piece i) else panics

  unfoldable pub scan : ℕ → ℤ → PieceManager → Resumed
  unfolding resume_from
  scan max_alloc (pos n) pm = if leb n max_alloc then resume_from n pm.total_pieces 0 pm else panics
  scan max_alloc (negsuc n) pm = panics

  unfoldable pub load_existing_state : ℕ → PieceManager → Resumed
  unfolding scan
  load_existing_state max_alloc pm = scan max_alloc tf.piece_length pm
