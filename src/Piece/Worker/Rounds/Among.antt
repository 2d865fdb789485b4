-- ===== src/Piece/Worker/Rounds/Among.antt =====
-- internal/piece/worker.go: a round of a worker, with what other goroutines do in that time.
use sid_torrent.Prelude.{ℕ, ◌≡◌, ◌⊎◌, Option, some}
use sid_torrent.Prelude.Bytes.{Bytes}
use sid_torrent.Torrent.Parser.{TorrentFile}
use sid_torrent.Piece.Manager.{PieceManager}
use sid_torrent.Piece.Manager.Invariant.{IsValid}
use sid_torrent.Piece.Selection.{next_piece}
use sid_torrent.Piece.Worker.{Worker, Round, with_manager, Others, meanwhile}
use sid_torrent.Piece.Worker.Rounds.{IsRoundOf}

-- What others do keeps a valid state valid, with its number of pieces.
pub record AreCareful (o : Others) : Type 0 where
  pub between_valid : (pm : PieceManager) → IsValid pm → IsValid (o.between pm)
  pub between_total :
      (pm : PieceManager) → IsValid pm → (o.between pm).total_pieces ≡ pm.total_pieces
  pub managed_valid : (pm : PieceManager) → IsValid pm → IsValid (o.managed pm)
  pub managed_total :
      (pm : PieceManager) → IsValid pm → (o.managed pm).total_pieces ≡ pm.total_pieces

module _ (sha1 : Bytes → Bytes) (tf : TorrentFile) where
  -- A round among others: `NextPiece` leaves a valid state and completes nothing, and what the round does
  -- after that it does to what the others have made of this state.
  pub record IsRoundAmong (rand : ℕ) (o : Others) (w : Worker) (r : Round) : Type 0 where
    pub taken : PieceManager
    pub answer : Option ℕ
    pub run :
        next_piece w.manager (o.between w.manager) w.client.state.bitfield rand
        ≡ some (taken, answer)
    pub valid : IsValid taken
    pub total : taken.total_pieces ≡ w.manager.total_pieces
    pub completed :
        (taken.completed ≡ w.manager.completed)
        ⊎ (taken.completed ≡ (o.between w.manager).completed)
    pub outcome : IsRoundOf sha1 tf (meanwhile o (with_manager w taken)) r
