-- ===== src/Piece/Assembler/Blocks.antt =====
-- internal/piece/assembler.go: the blocks that an assembler asks for and takes.

pub mod Delivery
mod Agreement
use sid_torrent.Prelude.{
  ℕ, zero, suc, ◌+◌, ◌-◌, ◌*◌, ◌/◌, ◌≤◌, ◌<◌, ◌≡◌, ◌≢◌, refl, ◌↔◌, Bool, true, false, ◌||◌,
  Bool-cases, inl, inr, Option, Option-cases, none, some, List, arith, ltb, leb, ◌==◌,
  if◌then◌else◌, length, set, get_or, splice, replicate, length-splice, length-set,
  length-replicate,
}
use sid_torrent.Prelude.Int.{ℤ, pos, negsuc, pos_part}
use native.Mathlib.Decide.{dec_lt}
use sid_torrent.Piece.Assembler.{
  PieceAssembler, block_size, new_assembler, block_length, BlockError, add_block, is_complete,
  first_missing, request_block, next_missing_block, reset_block,
}

-- The sizes of the arrays fit the piece.
pub record IsValid (pa : PieceAssembler) : Type 0 where
  pub content_size : length pa.content ≡ pa.piece_size
  pub received_size : length pa.received ≡ pa.total_blocks
  pub requested_size : length pa.requested ≡ pa.total_blocks
  pub blocks : pa.total_blocks ≡ (pa.piece_size + block_size - 1) / block_size

pub new_assembler-IsValid : (index size : ℕ) → IsValid (new_assembler index size)
unfolding new_assembler
new_assembler-IsValid index size = record {
  content_size = length-replicate size 0;
  received_size = length-replicate _ false;
  requested_size = length-replicate _ false;
  blocks = refl;
}

-- `AddBlock` keeps the arrays at their sizes.
pub add_block-IsValid :
    (pa : PieceAssembler) (offset : ℤ) (block : List ℕ)
    → IsValid pa
    → IsValid (add_block pa offset block).0
unfolding add_block
add_block-IsValid pa (negsuc o) block v = v
add_block-IsValid pa (pos o) block v =
    ground (arith, length-splice pa.content o block, length-set pa.received (o / block_size) true)

-- `AddBlock` on a valid assembler succeeds exactly for a block that starts in the piece and ends within
-- it.
pub add_block-accepts :
    (pa : PieceAssembler) (offset : ℕ) (block : List ℕ)
    → IsValid pa
    → ((add_block pa (pos offset) block).1 ≡ none)
      ↔ ((offset < pa.piece_size) × (offset + length block ≤ pa.piece_size))
unfolding add_block
add_block-accepts pa o block v = ground arith

-- What `NextMissingBlock` looks for.
abbrev pub IsFree : PieceAssembler → ℕ → Type 0
IsFree pa i = (get_or pa.received i false || get_or pa.requested i false) ≡ false

first_missing-some :
    (rs qs : List Bool) (i left k : ℕ)
    → first_missing rs qs i left ≡ some k
    → (i ≤ k)
      × (k < i + left)
      × ((get_or rs k false || get_or qs k false) ≡ false)
      × ((j : ℕ) → i ≤ j → j < k → (get_or rs j false || get_or qs j false) ≡ true)
unfolding first_missing
first_missing-some rs qs i zero k h = cc
first_missing-some rs qs i (suc left) k h =
    elim (Bool-cases (get_or rs i false || get_or qs i false)) [
      | inl busy ↦
          let (a, b, c, d) = first_missing-some rs qs (suc i) left k (rw busy at h) in
          (omega arith, omega arith, c, λ j lo hi. busy_from busy d j lo hi)
      | inr free ↦
          let e : i ≡ k = cc (rw free at h) in
          (omega arith, omega arith, rw (← e) free, λ j lo hi. absurd (omega arith))
    ]
  where
    busy_from :
        (get_or rs i false || get_or qs i false) ≡ true
        → ((j : ℕ) → suc i ≤ j → j < k → (get_or rs j false || get_or qs j false) ≡ true)
        → (j : ℕ) → i ≤ j
        → j < k
        → (get_or rs j false || get_or qs j false) ≡ true
    busy_from here later j lo hi = elim (dec_lt i j) [
      | yes lt ↦ later j lt hi
      | no ge ↦ let e : i ≡ j = omega arith in rw (← e) here
    ]

-- The block with index `k` is the answer: it was free, each earlier one was not, the range asked
-- for is not empty and lies in the piece, and only its request mark changes.
pub record IsNextBlock (pa : PieceAssembler) (offset : ℕ) (len : ℤ) (k : ℕ) : Type 0 where
  pub at : offset ≡ k * block_size
  pub in_range : k < pa.total_blocks
  pub free : IsFree pa k
  pub first : (j : ℕ) → j < k → (get_or pa.received j false || get_or pa.requested j false) ≡ true
  pub is_length : len ≡ block_length pa k
  pub size : len ≡ pos (pos_part len)
  pub not_empty : 1 ≤ pos_part len
  pub at_most : pos_part len ≤ block_size
  pub within : offset + pos_part len ≤ pa.piece_size
  pub full : offset + block_size ≤ pa.piece_size → pos_part len ≡ block_size
  pub marks : (next_missing_block pa).0 ≡ record pa { requested = set pa.requested k true }

request_block_found :
    (pa : PieceAssembler) (o : Option ℕ) {offset : ℕ} {len : ℤ}
    → (request_block pa o).1 ≡ some (offset, len)
    → (k : ℕ) × (o ≡ some k)
      × (offset ≡ k * block_size)
      × (len ≡ block_length pa k)
      × ((request_block pa o).0 ≡ record pa { requested = set pa.requested k true })
unfolding request_block
request_block_found pa none h = cc
request_block_found pa (some k) h = (k, refl, ground arith, ground arith, refl)

pub block_length_range :
    (pa : PieceAssembler) (k : ℕ)
    → IsValid pa
    → k < pa.total_blocks
    → let len = block_length pa k in
      (len ≡ pos (pos_part len))
      × (1 ≤ pos_part len)
      × (pos_part len ≤ block_size)
      × (k * block_size + pos_part len ≤ pa.piece_size)
      × (k * block_size + block_size ≤ pa.piece_size → pos_part len ≡ block_size)
unfolding block_length
block_length_range pa k v h =
    let size = v.blocks in
    (ground arith, ground arith, ground arith, ground arith, λ fits. ground arith)

-- When `NextMissingBlock` of a valid assembler gives a range, it is that of the first block that
-- is neither received nor requested, as `IsNextBlock` says.
pub next_missing_block_found :
    (pa : PieceAssembler) {offset : ℕ} {len : ℤ}
    → IsValid pa
    → (next_missing_block pa).1 ≡ some (offset, len)
    → (k : ℕ) × IsNextBlock pa offset len k
unfolding next_missing_block
next_missing_block_found pa {offset} {len} v h =
    let (k, found, at, size, marks) =
      request_block_found pa (first_missing pa.received pa.requested 0 pa.total_blocks) h in
    let (_, below, free, first) =
      first_missing-some pa.received pa.requested 0 pa.total_blocks k found in
    let (whole, one, most, inside, full) = block_length_range pa k v (omega arith) in
    (
      k,
      record {
        at = at;
        in_range = omega arith;
        free = free;
        first = λ j hj. first j (omega arith) hj;
        is_length = size;
        size = rw size whole;
        not_empty = rw size one;
        at_most = rw size most;
        within = rw (size, at) inside;
        full = λ fits. rw size (full (rw at at fits));
        marks = marks;
      },
    )

first_missing-none :
    (rs qs : List Bool) (i left j : ℕ)
    → first_missing rs qs i left ≡ none
    → i ≤ j
    → j < i + left
    → (get_or rs j false || get_or qs j false) ≡ true
unfolding first_missing
first_missing-none rs qs i zero j h lo hi = absurd (omega arith)
first_missing-none rs qs i (suc left) j h lo hi =
    elim (Bool-cases (get_or rs i false || get_or qs i false)) [
      | inr free ↦ cc (rw free at h)
      | inl busy ↦ elim (dec_lt i j) [
        | yes lt ↦ first_missing-none rs qs (suc i) left j (rw busy at h) lt (omega arith)
        | no ge ↦ let e : i ≡ j = omega arith in rw (← e) busy
      ]
    ]

pub request_block-none :
    (pa : PieceAssembler) (o : Option ℕ)
    → (request_block pa o).1 ≡ none
    → (o ≡ none) × ((request_block pa o).0 ≡ pa)
unfolding request_block
request_block-none pa none h = (refl, refl)
request_block-none pa (some k) h = cc

-- When it gives none, every block is received or requested already, and nothing changes.
pub next_missing_block-none :
    (pa : PieceAssembler) (j : ℕ)
    → (next_missing_block pa).1 ≡ none
    → j < pa.total_blocks
    → ((get_or pa.received j false || get_or pa.requested j false) ≡ true)
      × ((next_missing_block pa).0 ≡ pa)
unfolding next_missing_block
next_missing_block-none pa j h lt =
    let (none_left, same) = request_block-none pa _ h in
    (
      first_missing-none pa.received pa.requested 0 pa.total_blocks j none_left (omega arith)
          (omega arith),
      same,
    )

request_block-IsValid :
    (pa : PieceAssembler) (o : Option ℕ) → IsValid pa → IsValid (request_block pa o).0
unfolding request_block
request_block-IsValid pa none v = v
request_block-IsValid pa (some k) v = ground (arith, length-set pa.requested k true)

pub next_missing_block-IsValid :
    (pa : PieceAssembler) → IsValid pa → IsValid (next_missing_block pa).0
unfolding next_missing_block
next_missing_block-IsValid pa v = request_block-IsValid pa _ v

pub reset_block-IsValid :
    (pa : PieceAssembler) (offset : ℕ) → IsValid pa → IsValid (reset_block pa offset)
unfolding reset_block
reset_block-IsValid pa offset v =
    ground (arith, length-set pa.requested (offset / block_size) false)
