-- ===== src/Piece/Manager/Completion.antt =====
-- internal/piece/manager.go: `MarkComplete`, `MarkFailed` and `IsComplete`.
use sid_torrent.Prelude.{
  ℕ, ◌+◌, ◌≤◌, ◌<◌, ◌≡◌, refl, true, false, Bool-cases, inl, inr, Option, none, some, List, [], ◌∷◌,
  arith, subst, lt→ltb, length, get_elem?,
}
use sid_torrent.Prelude.Keys.{
  has, insert, remove, has-insert, has-remove, below, has-below, length-below, Distinct-covers, put,
}
use sid_torrent.Piece.Buckets.{drop_member}
use sid_torrent.Piece.Manager.{
  PieceManager, ◌>>=◌, is_complete, mark_complete, mark_failed, attempts,
}
use sid_torrent.Piece.Manager.Invariant.{IsValid}

-- `IsComplete` is right: in a valid state it says yes only if every piece is completed and none has
-- permanently failed.
pub is_complete_sound :
    (pm : PieceManager)
    → IsValid pm
    → is_complete pm ≡ true
    → ((i : ℕ) → i < pm.total_pieces → has i pm.completed ≡ true) × (pm.permanently_failed ≡ [])
unfolding is_complete
is_complete_sound pm v h = (
  λ i lt.
      Distinct-covers pm.completed (below pm.total_pieces) v.completed_distinct
        (λ j hj. ground (arith, has-below j pm.total_pieces, v.completed_below j hj))
        (ground (arith, length-below pm.total_pieces)) i
        (ground (arith, has-below i pm.total_pieces)),
  ground arith,
)

-- `MarkComplete` does not take the piece out of `Pending`: a pending piece that is marked complete,
-- as `LoadExistingState` does on resume, stays pending.
pub mark_complete-pending :
    (pm : PieceManager) (i bytes : ℕ) {pm' : PieceManager}
    → mark_complete pm i bytes ≡ some pm'
    → (pm'.pending ≡ pm.pending) × (has i pm'.completed ≡ true) × (has i pm'.in_progress ≡ false)
unfolding mark_complete
mark_complete-pending pm i bytes {pm'} h = elim (Bool-cases (has i pm.completed)) [
  | inl old ↦
      let e : record pm { in_progress = remove i pm.in_progress } ≡ pm' = cc (rw old at h) in
      subst
        (λ q. (q.pending ≡ pm.pending) × (has i q.completed ≡ true) × (has i q.in_progress ≡ false))
        e (refl, old, ground (arith, has-remove i i pm.in_progress))
  | inr new ↦ finished (get_elem? pm.availability i) refl (rw new at h)
]
  where
    finished :
        (o : Option ℕ)
        → get_elem? pm.availability i ≡ o
        → (get_elem? pm.availability i >>= λ count. some (record pm {
          in_progress = remove i pm.in_progress;
          completed = insert i pm.completed;
          downloaded = pm.downloaded + bytes;
          buckets = drop_member count i pm.buckets;
        }))
          ≡ some pm'
        → (pm'.pending ≡ pm.pending)
          × (has i pm'.completed ≡ true)
          × (has i pm'.in_progress ≡ false)
    finished none e k = cc (rw e at k)
    finished (some c) e k =
        ground (arith, rw e at k, has-insert i i pm.completed, has-remove i i pm.in_progress)

length-insert_pos : (i : ℕ) (xs : List ℕ) → 0 < length (insert i xs)
unfolding insert
length-insert_pos i [] = omega arith
length-insert_pos i (x ∷ xs) = ground arith

-- A piece that fails once too often is given up for good even when it is completed already, and
-- then the download is never complete.
pub mark_failed-over :
    (pm : PieceManager) (i : ℕ)
    → pm.max_retries ≤ attempts pm i
    → (pm' : PieceManager) × (mark_failed pm i ≡ some (pm', false))
      × (has i pm'.permanently_failed ≡ true)
      × (pm'.completed ≡ pm.completed)
      × (is_complete pm' ≡ false)
unfolding mark_failed is_complete
mark_failed-over pm i h = (
  record pm {
    in_progress = remove i pm.in_progress;
    failed_attempts = put i (attempts pm i + 1) pm.failed_attempts;
    permanently_failed = insert i pm.permanently_failed;
  },
  rw (lt→ltb pm.max_retries (attempts pm i + 1) (omega arith)),
  ground (arith, has-insert i i pm.permanently_failed),
  refl,
  rw (
      lt→ltb 0 (length (insert i pm.permanently_failed))
        (length-insert_pos i pm.permanently_failed)),
)
