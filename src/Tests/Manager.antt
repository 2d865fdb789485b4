-- ===== src/Tests/Manager.antt =====
-- internal/piece/manager.go: three pieces, of which the first is completed.
use sid_torrent.Prelude.{ℕ, ◌≡◌, ◌⊎◌, inl, inr, refl, true, false, [], ◌∷◌, arith}
use sid_torrent.Prelude.Int.{pos}
use sid_torrent.Prelude.Keys.{has}
use sid_torrent.Piece.Buckets.{bucket, members}
use sid_torrent.Piece.Manager.{PieceManager, sum}
use sid_torrent.Piece.Manager.Invariant.{IsValid}

abbrev pub demo : PieceManager
demo = record {
  total_pieces = 3;
  total_length = pos 40;
  pending = 1 ∷ 2 ∷ [];
  in_progress = [];
  completed = 0 ∷ [];
  failed_attempts = (1, 3) ∷ [];
  permanently_failed = [];
  max_retries = 3;
  downloaded = 16;
  assemblers = [];
  availability = 1 ∷ 2 ∷ 1 ∷ [];
  availability_sum = 4;
  buckets = (2, 1 ∷ []) ∷ (1, 2 ∷ []) ∷ [];
  streaming_mode = false;
  streaming_window_size = 15;
  priority_pieces = 2 ∷ [];
}

in_order :
    (c i : ℕ) → has i (bucket c demo.buckets) ≡ true → ((i ≡ 1) × (c ≡ 2)) ⊎ ((i ≡ 2) × (c ≡ 1))
unfolding members
in_order c i h = ground arith

pub demo-IsValid : IsValid demo
unfolding sum
demo-IsValid = record {
  availability_size = refl;
  pending_below = λ i h. ground arith;
  completed_below = λ i h. ground arith;
  pending_distinct = (refl, (refl, tt));
  completed_distinct = (refl, tt);
  apart = λ i h. refl;
  tracked = λ i h. ground arith;
  buckets_distinct = ((refl, tt), refl, ((refl, tt), refl, tt));
  bucketed = λ c i h. elim (in_order c i h) [
    | inl (p, q) ↦ rw (p, q) (refl, refl)
    | inr (p, q) ↦ rw (p, q) (refl, refl)
  ];
  sum_exact = refl;
}
