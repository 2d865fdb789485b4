-- ===== src/Piece/Manager.antt =====
-- internal/piece/manager.go: which pieces are pending, in progress, completed or failed.
-- Each operation holds the mutex throughout, so it is one step on the state; `none` is a run-time
-- panic, an index out of the range of `Availability`.
pub mod Invariant
pub mod Availability
pub mod Sync
pub mod Start
pub mod Completion
use sid_torrent.Prelude.{
  ℕ, zero, suc, ◌+◌, ◌-◌, ◌*◌, ◌/◌, ◌%◌, Bool, true, false, not, ◌&&◌, ◌||◌, Option, none, some,
  List, [], ◌∷◌, ltb, leb, ◌==◌, if◌then◌else◌, length, set, get_or, get_elem?, replicate,
}
use sid_torrent.Prelude.Int.{ℤ, pos, negsuc, pos_part, ltb_ℤ}
use sid_torrent.Prelude.Keys.{has, insert, remove, lookup, put}
use sid_torrent.Torrent.Pieces.{piece_count, file_piece_length_at}
use sid_torrent.Piece.Assembler.{PieceAssembler, new_assembler, next_missing_block}
use sid_torrent.Piece.Buckets.{Buckets, add_member, drop_member, move_member, total_in_buckets}

abbrev pub default_max_retries : ℕ
default_max_retries = 3

pub record PieceManager : Type 0 where
  pub total_pieces : ℕ
  pub total_length : ℤ
  pub pending : List ℕ
  pub in_progress : List ℕ
  pub completed : List ℕ
  pub failed_attempts : List (ℕ × ℕ)
  pub permanently_failed : List ℕ
  pub max_retries : ℕ
  pub downloaded : ℕ
  pub assemblers : List (ℕ × PieceAssembler)
  pub availability : List ℕ
  pub availability_sum : ℕ
  pub buckets : Buckets
  pub streaming_mode : Bool
  pub streaming_window_size : ℕ
  pub priority_pieces : List ℕ

infixl 5 ◌>>=◌
abbrev pub ◌>>=◌ {ℓ κ} : {A : Type ℓ} {B : Type κ} → Option A → (A → Option B) → Option B
none >>= f = none
some a >>= f = f a

-- The loop of `NewPieceManager` over the pieces `i`, `i + 1`, … , as many as `left`.
unfoldable pub add_pieces : ℤ → ℤ → ℕ → ℕ → PieceManager → PieceManager
add_pieces length piece_length i zero pm = pm
add_pieces length piece_length i (suc left) pm =
    let size = pos_part (file_piece_length_at length piece_length (pos i)) in
    add_pieces length piece_length (suc i) left (record pm {
      assemblers = put i (new_assembler i size) pm.assemblers;
      pending = insert i pm.pending;
      buckets = add_member 0 i pm.buckets;
    })

unfoldable pub empty_manager : ℤ → ℕ → PieceManager
empty_manager length total = record {
  total_pieces = total;
  total_length = length;
  pending = [];
  in_progress = [];
  completed = [];
  failed_attempts = [];
  permanently_failed = [];
  max_retries = default_max_retries;
  downloaded = 0;
  assemblers = [];
  availability = replicate total 0;
  availability_sum = 0;
  buckets = (0, []) ∷ [];
  streaming_mode = true;
  streaming_window_size = 15;
  priority_pieces = [];
}

-- A negative count makes `make([]int, totalPieces)` panic.
unfoldable pub start_manager : ℤ → ℤ → ℤ → Option PieceManager
unfolding add_pieces empty_manager
start_manager length piece_length (negsuc n) = none
start_manager length piece_length (pos total) =
    some (add_pieces length piece_length 0 total (empty_manager length total))

unfoldable pub new_manager : ℤ → ℤ → Option PieceManager
unfolding start_manager
new_manager length piece_length = do
  total ← piece_count length piece_length
  start_manager length piece_length total

unfoldable pub set_streaming : PieceManager → Bool → ℤ → PieceManager
set_streaming pm enabled window =
    let switched = record pm { streaming_mode = enabled } in
    if ltb_ℤ (pos 0) window
    then record switched { streaming_window_size = pos_part window }
    else switched

unfoldable pub sum : List ℕ → ℕ
sum [] = 0
sum (n ∷ ns) = n + sum ns

-- The loop over `Pending` that fills new buckets.
unfoldable pub fill_buckets : List ℕ → List ℕ → Buckets → Option Buckets
fill_buckets availability [] bs = some bs
fill_buckets availability (i ∷ is) bs = do
  count ← get_elem? availability i
  fill_buckets availability is (add_member count i bs)

unfoldable pub ensure_buckets_sync : PieceManager → Option PieceManager
unfolding fill_buckets sum
ensure_buckets_sync pm =
    let actual = sum pm.availability in
    let rebuilt = do
      bs ← fill_buckets pm.availability pm.pending []
      some (record pm { buckets = bs; availability_sum = actual })
    in if not (total_in_buckets pm.buckets == length pm.pending)
        || not (actual == pm.availability_sum)
      then rebuilt
      else some pm

-- `NextBlock`: a piece without an assembler has no block.
unfoldable pub ask_block : PieceManager → ℕ → Option PieceAssembler → PieceManager × Option (ℕ × ℤ)
ask_block pm i none = (pm, none)
ask_block pm i (some pa) =
    let (pa', answer) = next_missing_block pa in
    (record pm { assemblers = put i pa' pm.assemblers }, answer)

unfoldable pub next_block : PieceManager → ℕ → PieceManager × Option (ℕ × ℤ)
unfolding ask_block
next_block pm i = ask_block pm i (lookup i pm.assemblers)

-- `claimPiece`
unfoldable pub claim_piece : PieceManager → ℕ → Option PieceManager
claim_piece pm i = do
  count ← get_elem? pm.availability i
  some (record pm {
    pending = remove i pm.pending;
    in_progress = insert i pm.in_progress;
    buckets = drop_member count i pm.buckets;
  })

-- One piece that a peer turns out to own, or no longer to offer.
unfoldable pub count_up : PieceManager → ℕ → Option PieceManager
count_up pm i = do
  old ← get_elem? pm.availability i
  let new = old + 1
  some (record pm {
    availability = set pm.availability i new;
    availability_sum = pm.availability_sum + 1;
    buckets = if has i pm.pending then move_member i old new pm.buckets else pm.buckets;
  })

-- The source clamps both differences at 0.
unfoldable pub count_down : PieceManager → ℕ → Option PieceManager
count_down pm i = do
  old ← get_elem? pm.availability i
  let new = old - 1
  some (record pm {
    availability = set pm.availability i new;
    availability_sum = if ltb 0 old then pm.availability_sum - 1 else pm.availability_sum;
    buckets = if has i pm.pending then move_member i old new pm.buckets else pm.buckets;
  })

-- The loops of `RegisterPeerBitfield` and `UnregisterPeerBitfield` from the index `i` on.
unfoldable pub register_from : ℕ → List Bool → PieceManager → Option PieceManager
unfolding count_up
register_from i [] pm = some pm
register_from i (owned ∷ bf) pm = do
  pm' ← if owned && ltb i pm.total_pieces then count_up pm i else some pm
  register_from (suc i) bf pm'

unfoldable pub register_peer_bitfield : PieceManager → List Bool → Option PieceManager
unfolding register_from
register_peer_bitfield pm bf = register_from 0 bf pm

unfoldable pub unregister_from : ℕ → List Bool → PieceManager → Option PieceManager
unfolding count_down
unregister_from i [] pm = some pm
unregister_from i (owned ∷ bf) pm = do
  pm' ← if owned && ltb i pm.total_pieces then count_down pm i else some pm
  unregister_from (suc i) bf pm'

unfoldable pub unregister_peer_bitfield : PieceManager → List Bool → Option PieceManager
unfolding unregister_from
unregister_peer_bitfield pm bf = unregister_from 0 bf pm

unfoldable pub increment_availability : PieceManager → ℤ → Option PieceManager
unfolding count_up
increment_availability pm (negsuc i) = some pm
increment_availability pm (pos i) = if ltb i pm.total_pieces then count_up pm i else some pm

unfoldable pub keep_in_range : ℕ → List ℤ → List ℕ → List ℕ
keep_in_range total [] kept = kept
keep_in_range total (negsuc i ∷ is) kept = keep_in_range total is kept
keep_in_range total (pos i ∷ is) kept =
    keep_in_range total is (if ltb i total then insert i kept else kept)

unfoldable pub set_priority_pieces : PieceManager → List ℤ → PieceManager
unfolding keep_in_range
set_priority_pieces pm indices = record pm {
  priority_pieces = keep_in_range pm.total_pieces indices [];
}

unfoldable pub is_piece_complete : PieceManager → ℕ → Bool
is_piece_complete pm i = has i pm.completed

-- `bytes` is the length of the piece's data.
unfoldable pub mark_complete : PieceManager → ℕ → ℕ → Option PieceManager
mark_complete pm i bytes =
    let released = record pm { in_progress = remove i pm.in_progress } in
    let finished = do
      count ← get_elem? pm.availability i
      some (record released {
        completed = insert i pm.completed;
        downloaded = pm.downloaded + bytes;
        buckets = drop_member count i pm.buckets;
      })
    in if has i pm.completed then some released else finished

unfoldable pub attempts : PieceManager → ℕ → ℕ
attempts pm i = elim (lookup i pm.failed_attempts) [ none ↦ 0 | some n ↦ n ]

-- Back among the pending pieces, and into the bucket of its count.
unfoldable pub make_pending : PieceManager → ℕ → Option PieceManager
make_pending pm i = do
  count ← get_elem? pm.availability i
  some (record pm { pending = insert i pm.pending; buckets = add_member count i pm.buckets })

-- The flag says whether the piece may be tried again.
unfoldable pub mark_failed : PieceManager → ℕ → Option (PieceManager × Bool)
unfolding attempts make_pending
mark_failed pm i =
    let n = attempts pm i + 1 in
    let counted = record pm {
      in_progress = remove i pm.in_progress;
      failed_attempts = put i n pm.failed_attempts;
    } in
    let again = do pm' ← make_pending counted i; some (pm', true)
    in if ltb pm.max_retries n
      then some (record counted { permanently_failed = insert i pm.permanently_failed }, false)
      else again

unfoldable pub return_to_pending : PieceManager → ℕ → Option PieceManager
unfolding make_pending
return_to_pending pm i = make_pending (record pm { in_progress = remove i pm.in_progress }) i

unfoldable pub is_complete : PieceManager → Bool
is_complete pm =
    if ltb 0 (length pm.permanently_failed) then false else length pm.completed == pm.total_pieces

unfoldable pub stats : PieceManager → ℕ × ℕ × ℕ
stats pm = (length pm.pending, length pm.in_progress, length pm.completed)
