-- ===== src/Piece/Resume/Buffer.antt =====
-- internal/piece/manager.go: the buffer of `LoadExistingState` has room for every piece.
use sid_torrent.Prelude.{ℕ, zero, suc, ◌≤◌, ◌≡◌, refl, true, false, List, arith, leb}
use sid_torrent.Prelude.Int.{ℤ, pos, negsuc, pos_part, leb_ℤ}
use sid_torrent.Prelude.Bytes.{Bytes}
use sid_torrent.Torrent.Parser.{TorrentFile}
use sid_torrent.Torrent.Pieces.{
  LengthResult, ok, failed, length_or_zero, piece_length_at, file_piece_length_at,
}
use sid_torrent.Torrent.Pieces.Layout.{piece_length_at-bounds}
use sid_torrent.Storage.{PhysicalFile}
use sid_torrent.Piece.Manager.{PieceManager}
use sid_torrent.Piece.Resume.{size_at, resume_from, scan}

LengthResult-bound :
    (r : LengthResult) (n : ℕ)
    → ((m : ℤ) → r ≡ ok m → pos_part m ≤ n)
    → pos_part (length_or_zero r) ≤ n
unfolding length_or_zero
LengthResult-bound (ok m) n h = h m refl
LengthResult-bound (failed e) n h = omega arith

no_total :
    (total n i : ℤ)
    → leb_ℤ total (pos 0) ≡ true
    → length_or_zero (piece_length_at total n i) ≡ pos 0
unfolding piece_length_at length_or_zero
no_total total n i h = rw h refl

no_size : (t : ℕ) (i : ℤ) → length_or_zero (piece_length_at (pos (suc t)) (pos 0) i) ≡ pos 0
unfolding piece_length_at length_or_zero
no_size t i =
    let some_bytes : leb_ℤ (pos (suc t)) (pos 0) ≡ false = ground arith in rw some_bytes refl

file_piece_length_at-bound :
    (total : ℤ) (n i : ℕ) → pos_part (file_piece_length_at total (pos n) (pos i)) ≤ n
unfolding file_piece_length_at
file_piece_length_at-bound (negsuc t) n i =
    rw (no_total (negsuc t) (pos n) (pos i) (ground arith)) (omega arith)
file_piece_length_at-bound (pos zero) n i =
    rw (no_total (pos zero) (pos n) (pos i) refl) (omega arith)
file_piece_length_at-bound (pos (suc t)) zero i = rw (no_size t (pos i)) (omega arith)
file_piece_length_at-bound (pos (suc t)) (suc n) i =
    LengthResult-bound (piece_length_at (pos (suc t)) (pos (suc n)) (pos i)) (suc n) (λ m h.
      let (_, small, _, _) =
        piece_length_at-bounds (suc t) (suc n) i (omega arith) (omega arith) h in
      small)

module _ (sha1 : Bytes → Bytes) (tf : TorrentFile) (files : List PhysicalFile) where
  pub size_at-bound : (i n : ℕ) → tf.piece_length ≡ pos n → size_at sha1 tf files i ≤ n
  unfolding size_at
  size_at-bound i n e = rw e (file_piece_length_at-bound tf.total_length n i)

  pub scan-buffer :
      (max_alloc n : ℕ) (pm : PieceManager)
      → tf.piece_length ≡ pos n
      → n ≤ max_alloc
      → scan sha1 tf files max_alloc tf.piece_length pm
        ≡ resume_from sha1 tf files n pm.total_pieces 0 pm
  unfolding scan
  scan-buffer max_alloc n pm e le =
      let enough : leb n max_alloc ≡ true = ground arith in rw e (rw enough refl)
