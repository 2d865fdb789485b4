-- ===== src/Piece/Selection.antt =====
-- internal/piece/manager.go: the choice of the next piece to ask a peer for.
-- `rand` stands for the random source: `rand.Intn(n)` is `rand % n`, and every value below `n` is
-- such a remainder. The results are pairs of the new state and the piece; a piece of `none` is the
-- error, which comes with -1.
pub mod Sorted
pub mod Rarest
pub mod Streaming
use sid_torrent.Prelude.{
  ℕ, zero, suc, ◌+◌, ◌%◌, Bool, true, false, not, ◌&&◌, Option, none, some, List, [], ◌∷◌, ltb, leb,
  if◌then◌else◌, length, get_or, get_elem?,
}
use sid_torrent.Prelude.Keys.{has}
use sid_torrent.Piece.Buckets.{Buckets, bucket}
use sid_torrent.Piece.Manager.{PieceManager, ◌>>=◌, claim_piece, ensure_buckets_sync}

-- `idx < len(available) && available[idx]`
abbrev pub offers : List Bool → ℕ → Bool
offers available i = get_or available i false

-- The pieces of a set that the peer offers.
unfoldable pub candidates : List Bool → List ℕ → List ℕ
candidates available [] = []
candidates available (i ∷ is) =
    if offers available i then i ∷ candidates available is else candidates available is

-- `candidates[rand.Intn(len(candidates))]`, if there are any.
unfoldable pub choose : ℕ → List ℕ → Option ℕ
choose rand [] = none
choose rand (i ∷ is) = get_elem? (i ∷ is) (rand % length (i ∷ is))

-- The counts of the buckets that are not empty.
unfoldable pub counts : Buckets → List ℕ
counts [] = []
counts ((c, []) ∷ bs) = counts bs
counts ((c, i ∷ is) ∷ bs) = c ∷ counts bs

-- `sort.Ints`
unfoldable pub insert_sorted : ℕ → List ℕ → List ℕ
insert_sorted n [] = n ∷ []
insert_sorted n (m ∷ ms) = if leb n m then n ∷ m ∷ ms else m ∷ insert_sorted n ms

unfoldable pub sort_ints : List ℕ → List ℕ
unfolding insert_sorted
sort_ints [] = []
sort_ints (n ∷ ns) = insert_sorted n (sort_ints ns)

-- The loop over the sorted counts.
unfoldable pub choose_rarest : List Bool → ℕ → Buckets → List ℕ → Option ℕ
unfolding candidates choose
choose_rarest available rand bs [] = none
choose_rarest available rand bs (c ∷ cs) =
    let rest = choose_rarest available rand bs cs in
    elim (choose rand (candidates available (bucket c bs))) [ none ↦ rest | some i ↦ some i ]

unfoldable pub claim_choice : PieceManager → Option ℕ → Option (PieceManager × Option ℕ)
claim_choice pm none = some (pm, none)
claim_choice pm (some i) = do pm' ← claim_piece pm i; some (pm', some i)

unfoldable pub rarest_of : PieceManager → List Bool → ℕ → Option ℕ
unfolding choose_rarest counts sort_ints
rarest_of pm available rand =
    choose_rarest available rand pm.buckets (sort_ints (counts pm.buckets))

-- `NextRarestPiece`
unfoldable pub next_rarest_piece : PieceManager → List Bool → ℕ → Option (PieceManager × Option ℕ)
unfolding rarest_of claim_choice
next_rarest_piece pm available rand = do
  synced ← ensure_buckets_sync pm
  claim_choice synced (rarest_of synced available rand)

-- The first pending piece of the window from `i` on, as many as `left`, that the peer offers.
unfoldable pub first_in_window : PieceManager → List Bool → ℕ → ℕ → Option ℕ
first_in_window pm available i zero = none
first_in_window pm available i (suc left) =
    let rest = first_in_window pm available (suc i) left in
    if has i pm.pending && offers available i then some i else rest

abbrev smaller : ℕ → ℕ → ℕ
smaller a b = if ltb a b then a else b

unfoldable pub window_size : PieceManager → ℕ
window_size pm = smaller pm.streaming_window_size pm.total_pieces

unfoldable pub or_rarest : PieceManager → List Bool → ℕ → Option ℕ → Option ℕ
unfolding rarest_of
or_rarest pm available rand none = rarest_of pm available rand
or_rarest pm available rand (some i) = some i

-- `NextStreamingPiece`: in order within the window, and then by rarity.
unfoldable pub next_streaming_piece :
    PieceManager → List Bool → ℕ → Option (PieceManager × Option ℕ)
unfolding first_in_window window_size or_rarest claim_choice
next_streaming_piece pm available rand = do
  synced ← ensure_buckets_sync pm
  claim_choice synced
      (or_rarest synced available rand (first_in_window synced available 0 (window_size synced)))

-- `NextRandomPiece`
unfoldable pub next_random_piece : PieceManager → List Bool → ℕ → Option (PieceManager × Option ℕ)
unfolding choose candidates claim_choice
next_random_piece pm available rand =
    claim_choice pm (choose rand (candidates available pm.pending))

-- The loop over `PriorityPieces`, which asks neither whether the piece is pending nor whether it is
-- in progress.
unfoldable pub first_priority : PieceManager → List Bool → List ℕ → Option ℕ
first_priority pm available [] = none
first_priority pm available (i ∷ is) =
    let rest = first_priority pm available is in
    if not (has i pm.completed) && offers available i then some i else rest

unfoldable pub next_by_mode : PieceManager → List Bool → ℕ → Option (PieceManager × Option ℕ)
unfolding next_streaming_piece next_rarest_piece
next_by_mode pm available rand =
    if pm.streaming_mode
    then next_streaming_piece pm available rand
    else next_rarest_piece pm available rand

unfoldable pub claim_or_next :
    PieceManager → PieceManager → List Bool → ℕ → Option ℕ → Option (PieceManager × Option ℕ)
unfolding next_by_mode
claim_or_next pm later available rand none = next_by_mode later available rand
claim_or_next pm later available rand (some i) = do pm' ← claim_piece pm i; some (pm', some i)

-- `NextPiece`, which lets the mutex go before it chooses by the mode: `later` is the state that it finds
-- then, which others may have made out of `pm`.
unfoldable pub next_piece :
    PieceManager → PieceManager → List Bool → ℕ → Option (PieceManager × Option ℕ)
unfolding first_priority claim_or_next
next_piece pm later available rand =
    claim_or_next pm later available rand (first_priority pm available pm.priority_pieces)
