-- ===== src/Piece/Manager/Start.antt =====
-- internal/piece/manager.go: `NewPieceManager`.
use sid_torrent.Prelude.{ℕ, ◌≡◌, true, none, some, [], ltb, if◌then◌else◌, replicate}
use sid_torrent.Prelude.Int.{ℤ, pos, pos_part}
use sid_torrent.Prelude.Keys.{has, Distinct, lookup}
use sid_torrent.Piece.Assembler.{new_assembler}
use sid_torrent.Piece.Buckets.{bucket, AllDistinct}
use sid_torrent.Piece.Manager.{PieceManager}
use sid_torrent.Torrent.Pieces.{file_piece_length_at}

-- The pieces below `i` have been added.
record Building (length piece_length : ℤ) (total i : ℕ) (pm : PieceManager) : Type 0 where
  totals : pm.total_pieces ≡ total
  rest : (pm.in_progress ≡ []) × (pm.completed ≡ []) × (pm.permanently_failed ≡ [])
  unowned : (pm.availability ≡ replicate total 0) × (pm.availability_sum ≡ 0)
  pending : (j : ℕ) → has j pm.pending ≡ ltb j i
  distinct : Distinct pm.pending
  buckets_distinct : AllDistinct pm.buckets
  bucketed : (c j : ℕ) → has j (bucket c pm.buckets) ≡ true → (c ≡ 0) × (ltb j i ≡ true)
  assembled :
      (j : ℕ)
      → lookup j pm.assemblers ≡ (
          if ltb j i
          then some (new_assembler j (pos_part (file_piece_length_at length piece_length (pos j))))
          else none)
