-- ===== src/Tests/Choice.antt =====
-- internal/piece/manager.go: the choice of pieces, and what register and failure do, for the state
-- of three pieces.
use sid_torrent.Prelude.{
  ℕ, ◌≡◌, ◌<◌, refl, Bool, true, false, Option, some, List, [], ◌∷◌, arith, zero, suc,
}
use sid_torrent.Prelude.Int.{pos}
use sid_torrent.Prelude.Keys.{has}
use sid_torrent.Piece.Manager.{PieceManager, sum, ensure_buckets_sync, attempts, is_complete}
use sid_torrent.Piece.Buckets.{members}
use sid_torrent.Piece.Manager.Invariant.{IsValid}
use sid_torrent.Piece.Manager.Sync.{IsSynced, OnlyBuckets, ensure_buckets_sync-IsSynced}
use sid_torrent.Piece.Manager.Completion.{is_complete_sound}
use sid_torrent.Piece.Selection.{offers, next_rarest_piece, next_piece}
use sid_torrent.Piece.Selection.Rarest.{RarestOutcome, next_rarest_piece-RarestOutcome}
use sid_torrent.Piece.Selection.Streaming.{PieceOutcome, next_piece-PieceOutcome}
use sid_torrent.Tests.Manager.{demo, demo-IsValid}

abbrev owned : List Bool
owned = false ∷ false ∷ true ∷ []

ensure_buckets_sync-IsSynced_example :
    (pm' : PieceManager) × (ensure_buckets_sync demo ≡ some pm')
    × IsSynced pm'
    × OnlyBuckets demo pm'
ensure_buckets_sync-IsSynced_example = ensure_buckets_sync-IsSynced demo demo-IsValid

next_rarest_piece-RarestOutcome_example :
    (pm' : PieceManager) × (answer : Option ℕ) × (next_rarest_piece demo owned 5
      ≡ some (pm', answer))
    × RarestOutcome demo owned pm' answer
next_rarest_piece-RarestOutcome_example = next_rarest_piece-RarestOutcome demo owned 5 demo-IsValid

next_piece-PieceOutcome_example :
    (pm' : PieceManager) × (answer : Option ℕ) × (next_piece demo demo owned 5 ≡ some (pm', answer))
    × PieceOutcome demo demo owned pm' answer
next_piece-PieceOutcome_example =
    next_piece-PieceOutcome demo demo owned 5 demo-IsValid demo-IsValid (λ i h. ground arith)

only_two : (j : ℕ) → offers owned j ≡ true → j ≡ 2
only_two zero h = cc
only_two (suc zero) h = cc
only_two (suc (suc zero)) h = refl
only_two (suc (suc (suc j))) h = cc

tried_thrice : attempts demo 1 ≡ 3
unfolding attempts
tried_thrice = refl

-- Every piece is completed.
abbrev finished : PieceManager
finished = record {
  total_pieces = 2;
  total_length = pos 20;
  pending = [];
  in_progress = [];
  completed = 1 ∷ 0 ∷ [];
  failed_attempts = [];
  permanently_failed = [];
  max_retries = 3;
  downloaded = 20;
  assemblers = [];
  availability = 0 ∷ 0 ∷ [];
  availability_sum = 0;
  buckets = [];
  streaming_mode = true;
  streaming_window_size = 15;
  priority_pieces = [];
}

finished-IsValid : IsValid finished
unfolding sum members
finished-IsValid = record {
  availability_size = refl;
  pending_below = λ i h. cc;
  completed_below = λ i h. ground arith;
  pending_distinct = tt;
  completed_distinct = (refl, (refl, tt));
  apart = λ i h. refl;
  tracked = λ i h. ground arith;
  buckets_distinct = tt;
  bucketed = λ c i h. cc;
  sum_exact = refl;
}

complete : is_complete finished ≡ true
unfolding is_complete
complete = refl

is_complete_sound_example :
    ((i : ℕ) → i < 2 → has i finished.completed ≡ true) × (finished.permanently_failed ≡ [])
is_complete_sound_example = is_complete_sound finished finished-IsValid complete
