-- ===== src/Piece/Manager/Invariant.antt =====
-- internal/piece/manager.go: the invariant of the piece manager's state.
use sid_torrent.Prelude.{
  ℕ, ◌+◌, ◌<◌, ◌≡◌, Bool, true, false, ◌||◌, Bool-cases, inl, inr, Option, none, some, arith, ltb,
  length, get_elem?, get_elem?_within,
}
use sid_torrent.Prelude.Keys.{
  has, insert, remove, has-insert, has-remove, Distinct, insert-Distinct, remove-Distinct, put,
}
use sid_torrent.Piece.Buckets.{
  bucket, add_member, has-add_member, has-drop_member, AllDistinct, add_member-AllDistinct,
  drop_member-AllDistinct,
}
use sid_torrent.Piece.Manager.{
  PieceManager, sum, claim_piece, mark_complete, mark_failed, attempts, return_to_pending,
}

pub record IsValid (pm : PieceManager) : Type 0 where
  pub availability_size : length pm.availability ≡ pm.total_pieces
  pub pending_below : (i : ℕ) → has i pm.pending ≡ true → i < pm.total_pieces
  pub completed_below : (i : ℕ) → has i pm.completed ≡ true → i < pm.total_pieces
  pub pending_distinct : Distinct pm.pending
  pub completed_distinct : Distinct pm.completed
  -- No piece is pending and in progress at once.
  pub apart : (i : ℕ) → has i pm.pending ≡ true → has i pm.in_progress ≡ false
  -- No piece is lost.
  pub tracked :
      (i : ℕ)
      → i < pm.total_pieces
      → (has i pm.pending
          || has i pm.in_progress
          || has i pm.completed
          || has i pm.permanently_failed)
        ≡ true
  pub buckets_distinct : AllDistinct pm.buckets
  -- A piece in a bucket is pending, and the bucket is that of its count.
  pub bucketed :
      (c i : ℕ)
      → has i (bucket c pm.buckets) ≡ true
      → (has i pm.pending ≡ true) × (get_elem? pm.availability i ≡ some c)
  pub sum_exact : pm.availability_sum ≡ sum pm.availability

-- The operation does not panic, and leaves a valid state.
abbrev pub Keeps : Option PieceManager → Type 0
Keeps none = ⊥
Keeps (some pm) = IsValid pm

count_of :
    (pm : PieceManager) (i : ℕ)
    → IsValid pm
    → i < pm.total_pieces
    → (c : ℕ) × (get_elem? pm.availability i ≡ some c)
count_of pm i v h = get_elem?_within pm.availability i (omega (arith, v.availability_size))

pub claim_piece-Keeps :
    (pm : PieceManager) (i : ℕ) → IsValid pm → i < pm.total_pieces → Keeps (claim_piece pm i)
unfolding claim_piece
claim_piece-Keeps pm i v h =
    let (count, e) = count_of pm i v h in
    rw e (record {
      availability_size = v.availability_size;
      pending_below = λ j hj. v.pending_below j (ground (arith, has-remove j i pm.pending));
      completed_below = v.completed_below;
      pending_distinct = remove-Distinct i pm.pending v.pending_distinct;
      completed_distinct = v.completed_distinct;
      apart = λ j hj.
          ground (arith, has-remove j i pm.pending, has-insert j i pm.in_progress, v.apart j, hj);
      tracked = λ j hj.
          ground (arith, has-remove j i pm.pending, has-insert j i pm.in_progress, v.tracked j hj);
      buckets_distinct = drop_member-AllDistinct count i pm.buckets v.buckets_distinct;
      bucketed = λ c j hj. ground (
        arith,
        has-drop_member c j count i pm.buckets,
        v.bucketed c j,
        has-remove j i pm.pending,
        hj,
        e,
      );
      sum_exact = v.sum_exact;
    })

-- `ReturnToPending` of a piece in range does not panic and keeps a valid state valid.
pub return_to_pending-Keeps :
    (pm : PieceManager) (i : ℕ) → IsValid pm → i < pm.total_pieces → Keeps (return_to_pending pm i)
unfolding return_to_pending
return_to_pending-Keeps pm i v h =
    let (count, e) = count_of pm i v h in
    rw e (record {
      availability_size = v.availability_size;
      pending_below = λ j hj. ground (arith, v.pending_below j, has-insert j i pm.pending);
      completed_below = v.completed_below;
      pending_distinct = insert-Distinct i pm.pending v.pending_distinct;
      completed_distinct = v.completed_distinct;
      apart = λ j hj.
          ground (arith, has-insert j i pm.pending, has-remove j i pm.in_progress, v.apart j, hj);
      tracked = λ j hj.
          ground (arith, has-insert j i pm.pending, has-remove j i pm.in_progress, v.tracked j hj);
      buckets_distinct = add_member-AllDistinct count i pm.buckets v.buckets_distinct;
      bucketed = λ c j hj. ground (
        arith,
        has-add_member c j count i pm.buckets,
        v.bucketed c j,
        has-insert j i pm.pending,
        hj,
        e,
      );
      sum_exact = v.sum_exact;
    })

abbrev pub KeepsPair : Option (PieceManager × Bool) → Type 0
KeepsPair none = ⊥
KeepsPair (some (pm, again)) = IsValid pm

-- The state in which the piece has been given up.
given_up :
    (pm : PieceManager) (i n : ℕ)
    → IsValid pm
    → IsValid (record pm {
      in_progress = remove i pm.in_progress;
      failed_attempts = put i n pm.failed_attempts;
      permanently_failed = insert i pm.permanently_failed;
    })
given_up pm i n v = record {
  availability_size = v.availability_size;
  pending_below = v.pending_below;
  completed_below = v.completed_below;
  pending_distinct = v.pending_distinct;
  completed_distinct = v.completed_distinct;
  apart = λ j hj. ground (arith, has-remove j i pm.in_progress, v.apart j, hj);
  tracked = λ j hj.
      ground (
        arith,
        has-insert j i pm.permanently_failed,
        has-remove j i pm.in_progress,
        v.tracked j hj,
      );
  buckets_distinct = v.buckets_distinct;
  bucketed = v.bucketed;
  sum_exact = v.sum_exact;
}

again-Keeps :
    (pm : PieceManager) (i n count : ℕ)
    → IsValid pm
    → get_elem? pm.availability i ≡ some count
    → i < pm.total_pieces
    → IsValid (record pm {
      in_progress = remove i pm.in_progress;
      failed_attempts = put i n pm.failed_attempts;
      pending = insert i pm.pending;
      buckets = add_member count i pm.buckets;
    })
unfolding return_to_pending
again-Keeps pm i n count v e h =
    let r : Keeps (return_to_pending pm i) = return_to_pending-Keeps pm i v h in
    let w : IsValid (record pm {
      in_progress = remove i pm.in_progress;
      pending = insert i pm.pending;
      buckets = add_member count i pm.buckets;
    }) =
      rw e at r in
    record {
      availability_size = w.availability_size;
      pending_below = w.pending_below;
      completed_below = w.completed_below;
      pending_distinct = w.pending_distinct;
      completed_distinct = w.completed_distinct;
      apart = w.apart;
      tracked = w.tracked;
      buckets_distinct = w.buckets_distinct;
      bucketed = w.bucketed;
      sum_exact = w.sum_exact;
    }

-- `MarkFailed` of a piece in range does not panic and keeps a valid state valid.
pub mark_failed-Keeps :
    (pm : PieceManager) (i : ℕ) → IsValid pm → i < pm.total_pieces → KeepsPair (mark_failed pm i)
unfolding mark_failed
mark_failed-Keeps pm i v h =
    let (count, e) = count_of pm i v h in
    elim (Bool-cases (ltb pm.max_retries (attempts pm i + 1))) [
      | inl over ↦ rw over (given_up pm i (attempts pm i + 1) v)
      | inr under ↦ rw (under, e) (again-Keeps pm i (attempts pm i + 1) count v e h)
    ]

-- `MarkComplete` of a piece in range does not panic and keeps a valid state valid.
pub mark_complete-Keeps :
    (pm : PieceManager) (i bytes : ℕ)
    → IsValid pm
    → i < pm.total_pieces
    → Keeps (mark_complete pm i bytes)
unfolding mark_complete
mark_complete-Keeps pm i bytes v h =
    let (count, e) = count_of pm i v h in
    elim (Bool-cases (has i pm.completed)) [
      | inl old ↦ rw old (record {
        availability_size = v.availability_size;
        pending_below = v.pending_below;
        completed_below = v.completed_below;
        pending_distinct = v.pending_distinct;
        completed_distinct = v.completed_distinct;
        apart = λ j hj. ground (arith, has-remove j i pm.in_progress, v.apart j, hj);
        tracked = λ j hj. ground (arith, has-remove j i pm.in_progress, v.tracked j hj, old);
        buckets_distinct = v.buckets_distinct;
        bucketed = v.bucketed;
        sum_exact = v.sum_exact;
      })
      | inr new ↦
          rw (new, e)
            (record {
              availability_size = v.availability_size;
              pending_below = v.pending_below;
              completed_below =
                  λ j hj. ground (arith, v.completed_below j, has-insert j i pm.completed);
              pending_distinct = v.pending_distinct;
              completed_distinct = insert-Distinct i pm.completed v.completed_distinct;
              apart = λ j hj. ground (arith, has-remove j i pm.in_progress, v.apart j, hj);
              tracked = λ j hj. ground (
                arith,
                has-remove j i pm.in_progress,
                has-insert j i pm.completed,
                v.tracked j hj,
              );
              buckets_distinct = drop_member-AllDistinct count i pm.buckets v.buckets_distinct;
              bucketed = λ c j hj.
                  ground (arith, has-drop_member c j count i pm.buckets, v.bucketed c j, hj);
              sum_exact = v.sum_exact;
            })
    ]
