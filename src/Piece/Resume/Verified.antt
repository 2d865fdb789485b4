-- ===== src/Piece/Resume/Verified.antt =====
-- internal/piece/manager.go: what `LoadExistingState` takes for completed.
use sid_torrent.Prelude.{
  ℕ, zero, suc, ◌+◌, ◌<◌, ◌≤◌, ◌≡◌, ◌⊎◌, inl, inr, refl, ◌∙◌, true, Bool-cases, Option, none, some,
  List, arith, leb,
}
use sid_torrent.Prelude.Bytes.{Bytes}
use sid_torrent.Prelude.Keys.{has}
use sid_torrent.Torrent.Parser.{TorrentFile}
use sid_torrent.Storage.{PhysicalFile, StorageError, io_error, unexpected_eof}
use sid_torrent.Piece.Manager.{PieceManager, mark_complete}
use sid_torrent.Piece.Manager.Invariant.{IsValid}
use sid_torrent.Piece.Worker.{verify_piece}
use sid_torrent.Piece.Worker.Rounds.Steps.{Completes, mark_complete-Completes}
use sid_torrent.Prelude.Int.{pos}
use sid_torrent.Piece.Resume.Buffer.{size_at-bound, scan-buffer}
use sid_torrent.Piece.Resume.{
  Resumed, resumed, unreadable, panics, after_mark, size_at, read_piece, after_piece, resume_from,
  load_existing_state,
}

module _ (sha1 : Bytes → Bytes) (tf : TorrentFile) (files : List PhysicalFile) where
  -- The state after the scan: a piece is completed only if it was before, or if what is read of it has
  -- the hash of the torrent.
  pub record IsScanned (pm pm' : PieceManager) : Type 0 where
    pub valid : IsValid pm'
    pub same_total : pm'.total_pieces ≡ pm.total_pieces
    pub verified :
        (j : ℕ)
        → has j pm'.completed ≡ true
        → (has j pm.completed ≡ true)
          ⊎ (verify_piece sha1 tf j (read_piece sha1 tf files j).0 ≡ true)

  abbrev pub IsResumed : PieceManager → Resumed → Type 0
  IsResumed pm (resumed pm') = IsScanned pm pm'
  IsResumed pm (unreadable pm') = IsScanned pm pm'
  IsResumed pm panics = ⊥

  IsScanned-trans : (p q r : PieceManager) → IsScanned p q → IsScanned q r → IsScanned p r
  IsScanned-trans p q r s t = record {
    valid = t.valid;
    same_total = t.same_total ∙ s.same_total;
    verified =
        λ j h. elim (t.verified j h) [ inl before ↦ s.verified j before | inr good ↦ inr good ];
  }

  IsResumed-later :
      (pm pm' : PieceManager) (r : Resumed) → IsScanned pm pm' → IsResumed pm' r → IsResumed pm r
  IsResumed-later pm pm' (resumed q) s h = IsScanned-trans pm pm' q s h
  IsResumed-later pm pm' (unreadable q) s h = IsScanned-trans pm pm' q s h
  IsResumed-later pm pm' panics s h = h

  unchanged : (pm : PieceManager) → IsValid pm → IsScanned pm pm
  unchanged pm v = record { valid = v; same_total = refl; verified = λ j h. inl h }

  -- A piece that is read with the right hash is marked.
  after_mark-IsResumed :
      (next : PieceManager → Resumed) (pm : PieceManager) (i : ℕ) (marked : Option PieceManager)
      → verify_piece sha1 tf i (read_piece sha1 tf files i).0 ≡ true
      → Completes pm i marked
      → ((q : PieceManager) → IsValid q → q.total_pieces ≡ pm.total_pieces → IsResumed q (next q))
      → IsResumed pm (after_mark next marked)
  unfolding after_mark
  after_mark-IsResumed next pm i none good c later = c
  after_mark-IsResumed next pm i (some q) good (valid, same, completes) later =
      let one : IsScanned pm q = record {
        valid = valid;
        same_total = same;
        verified = λ j h. elim (completes j h) [
          | inl before ↦ inl before
          | inr here ↦ inr (rw (← here) good)
        ];
      } in
      IsResumed-later pm q (next q) one (later q valid same)

  after_piece-IsResumed :
      (next : PieceManager → Resumed) (pm : PieceManager) (i : ℕ)
      (answer : Bytes × ℕ × Option StorageError)
      → read_piece sha1 tf files i ≡ answer
      → IsValid pm
      → i < pm.total_pieces
      → ((q : PieceManager) → IsValid q → q.total_pieces ≡ pm.total_pieces → IsResumed q (next q))
      → IsResumed pm (after_piece sha1 tf files next pm i answer)
  unfolding after_piece
  after_piece-IsResumed next pm i (bytes, n, some unexpected_eof) e v lt later = unchanged pm v
  after_piece-IsResumed next pm i (bytes, n, some io_error) e v lt later = unchanged pm v
  after_piece-IsResumed next pm i (bytes, n, none) e v lt later =
      elim (Bool-cases (verify_piece sha1 tf i bytes)) [
        | inl good ↦
            let size = size_at sha1 tf files i in
            rw good (
              after_mark-IsResumed next pm i (mark_complete pm i size) (rw e good)
                (mark_complete-Completes pm i size v lt) later)
        | inr bad ↦ rw bad (later pm v refl)
      ]

  resume_from-IsResumed :
      (n left i : ℕ) (pm : PieceManager)
      → tf.piece_length ≡ pos n
      → IsValid pm
      → i + left ≤ pm.total_pieces
      → IsResumed pm (resume_from sha1 tf files n left i pm)
  unfolding resume_from
  resume_from-IsResumed n zero i pm e v h = unchanged pm v
  resume_from-IsResumed n (suc left) i pm e v h =
      let fits : leb (size_at sha1 tf files i) n ≡ true =
        ground (arith, size_at-bound sha1 tf files i n e) in
      rw fits (
        after_piece-IsResumed (resume_from sha1 tf files n left (i + 1)) pm i
          (read_piece sha1 tf files i) refl v (omega arith)
          (λ q w same. resume_from-IsResumed n left (i + 1) q e w (omega (arith, same, h))))

  -- When the piece length is not negative and a buffer of that length can be had, `LoadExistingState` on
  -- a valid state does not panic, and leaves a valid state in which a piece is
  -- completed only if it was before, or if what is on disk for it has the hash of the torrent.
  pub load_existing_state-IsResumed :
      (max_alloc n : ℕ) (pm : PieceManager)
      → tf.piece_length ≡ pos n
      → n ≤ max_alloc
      → IsValid pm
      → IsResumed pm (load_existing_state sha1 tf files max_alloc pm)
  unfolding load_existing_state
  load_existing_state-IsResumed max_alloc n pm e le v =
      rw (scan-buffer sha1 tf files max_alloc n pm e le)
        (resume_from-IsResumed n pm.total_pieces 0 pm e v (omega arith))
