-- ===== src/Piece/Resume/Found.antt =====
-- internal/piece/manager.go: what `LoadExistingState` finds.
use sid_torrent.Prelude.{
  ℕ, zero, suc, ◌+◌, ◌<◌, ◌≤◌, ◌≡◌, inl, inr, refl, ap, true, Bool-cases, Option, Option-cases,
  none, some, List, arith, leb, get_elem?,
}
use sid_torrent.Prelude.Bytes.{Bytes}
use sid_torrent.Prelude.Keys.{has, has-insert}
use native.Mathlib.Decide.{dec_lt}
use sid_torrent.Torrent.Parser.{TorrentFile}
use sid_torrent.Storage.{PhysicalFile, StorageError}
use sid_torrent.Piece.Manager.{PieceManager, mark_complete}
use sid_torrent.Piece.Manager.Invariant.{IsValid, mark_complete-Keeps}
use sid_torrent.Piece.Worker.{verify_piece}
use sid_torrent.Prelude.Int.{pos}
use sid_torrent.Piece.Resume.Buffer.{size_at-bound, scan-buffer}
use sid_torrent.Piece.Resume.{
  Resumed, resumed, after_mark, size_at, read_piece, after_piece, resume_from, load_existing_state,
}

-- Marking a piece completes it, and no completed piece is lost.
mark_complete-adds :
    (pm : PieceManager) (i bytes : ℕ)
    → IsValid pm
    → i < pm.total_pieces
    → (q : PieceManager) × (mark_complete pm i bytes ≡ some q)
      × IsValid q
      × (q.total_pieces ≡ pm.total_pieces)
      × (has i q.completed ≡ true)
      × ((j : ℕ) → has j pm.completed ≡ true → has j q.completed ≡ true)
unfolding mark_complete
mark_complete-adds pm i bytes v lt =
    let keeps = mark_complete-Keeps pm i bytes v lt in
    elim (Bool-cases (has i pm.completed)) [
      | inl old ↦ rw old (_, refl, rw old at keeps, refl, old, λ j h. h)
      | inr new ↦ elim (Option-cases (get_elem? pm.availability i)) [
        | inl e ↦ absurd (rw (new, e) at keeps)
        | inr (c, e) ↦
            rw (new, e)
              (
                _,
                refl,
                rw (new, e) at keeps,
                refl,
                ground (arith, leb, has-insert i i pm.completed),
                λ j h. ground (arith, leb, has-insert j i pm.completed),
              )
      ]
    ]

module _ (sha1 : Bytes → Bytes) (tf : TorrentFile) (files : List PhysicalFile) where
  -- The scan is over and has completed every piece from `i` on that has the right hash, and lost none.
  abbrev pub IsFullScan : ℕ → PieceManager → Resumed → Type 0
  IsFullScan i pm r =
      (q : PieceManager) × (r ≡ resumed q)
      × ((j : ℕ) → has j pm.completed ≡ true → has j q.completed ≡ true)
      × ((j : ℕ)
          → i ≤ j
          → j < pm.total_pieces
          → verify_piece sha1 tf j (read_piece sha1 tf files j).0 ≡ true
          → has j q.completed ≡ true)

  abbrev pub AllRead : ℕ → Type 0
  AllRead total = (i : ℕ) → i < total → (read_piece sha1 tf files i).2 ≡ none

  one_piece :
      (next : PieceManager → Resumed) (pm : PieceManager) (i : ℕ)
      (answer : Bytes × ℕ × Option StorageError)
      → read_piece sha1 tf files i ≡ answer
      → answer.2 ≡ none
      → IsValid pm
      → i < pm.total_pieces
      → ((q : PieceManager)
          → IsValid q
          → q.total_pieces ≡ pm.total_pieces
          → IsFullScan (i + 1) q (next q))
      → IsFullScan i pm (after_piece sha1 tf files next pm i answer)
  unfolding after_piece after_mark
  one_piece next pm i (bytes, n, some f) e none_failed v lt later = cc
  one_piece next pm i (bytes, n, none) e none_failed v lt later =
      elim (Bool-cases (verify_piece sha1 tf i bytes)) [
        | inl good ↦
            let (q, marked, valid, same, here, kept) =
              mark_complete-adds pm i (size_at sha1 tf files i) v lt in
            let (r, run, keeps, finds) = later q valid same in
            (
              r,
              rw (good, marked) run,
              λ j h. keeps j (kept j h),
              λ j le below right. elim (dec_lt i j) [
                | yes after ↦ finds j (omega arith) (rw same below) right
                | no reached ↦
                    let at : i ≡ j = omega (arith, leb, reached) in keeps j (rw (← at) here)
              ],
            )
        | inr bad ↦
            let (r, run, keeps, finds) = later pm v refl in
            (
              r,
              rw bad run,
              keeps,
              λ j le below right. elim (dec_lt i j) [
                | yes after ↦ finds j (omega arith) below right
                | no reached ↦
                    let at : i ≡ j = omega (arith, leb, reached) in
                    let wrong : verify_piece sha1 tf i bytes ≡ true =
                      rw⁻¹ (ap (λ a. a.0) e) (rw at right) in
                    cc
              ],
            )
      ]

  resume_from-IsFullScan :
      (n left i : ℕ) (pm : PieceManager)
      → tf.piece_length ≡ pos n
      → AllRead pm.total_pieces
      → IsValid pm
      → i + left ≡ pm.total_pieces
      → IsFullScan i pm (resume_from sha1 tf files n left i pm)
  unfolding resume_from
  resume_from-IsFullScan n zero i pm e all v h =
      (pm, refl, λ j c. c, λ j le below right. absurd (omega arith))
  resume_from-IsFullScan n (suc left) i pm e all v h =
      let fits : leb (size_at sha1 tf files i) n ≡ true =
        ground (arith, leb, size_at-bound sha1 tf files i n e) in
      rw fits (
        one_piece (resume_from sha1 tf files n left (i + 1)) pm i (read_piece sha1 tf files i) refl
          (all i (omega arith)) v (omega arith)
          (λ q w same.
            resume_from-IsFullScan n left (i + 1) q e (λ k lt. all k (omega (arith, leb, same, lt)))
              w (omega (arith, leb, same, h))))

  -- When the piece length is not negative, a buffer of that length can be had and every piece can be
  -- read, `LoadExistingState` on a valid state ends without an error and has
  -- completed each piece with the hash of the torrent, and lost none that was completed.
  pub load_existing_state-IsFullScan :
      (max_alloc n : ℕ) (pm : PieceManager)
      → tf.piece_length ≡ pos n
      → n ≤ max_alloc
      → AllRead pm.total_pieces
      → IsValid pm
      → IsFullScan 0 pm (load_existing_state sha1 tf files max_alloc pm)
  unfolding load_existing_state
  load_existing_state-IsFullScan max_alloc n pm e le all v =
      rw (scan-buffer sha1 tf files max_alloc n pm e le)
        (resume_from-IsFullScan n pm.total_pieces 0 pm e all v (omega arith))
