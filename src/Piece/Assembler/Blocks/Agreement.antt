-- ===== src/Piece/Assembler/Blocks/Agreement.antt =====
-- internal/piece/assembler.go: an assembler that agrees with the piece, and one delivered block.
use sid_torrent.Prelude.{
  ℕ, zero, suc, ◌+◌, ◌-◌, ◌*◌, ◌/◌, ◌≤◌, ◌<◌, ◌≡◌, ◌≢◌, ◌⊎◌, inl, inr, refl, sym, ◌∙◌, ap, Bool,
  true, false, List, [], ◌∷◌, arith, length, set, get_or, get_elem?, splice, slice, length-splice,
  length-slice, get_elem?-splice_before, get_elem?-splice_after, get_elem?-splice_in,
  get_elem?-slice, get_elem?_beyond,
}
use sid_torrent.Prelude.Int.{pos, pos_part}
use native.Mathlib.Decide.{dec_lt}
use sid_torrent.Piece.Assembler.{PieceAssembler, block_size, block_length, add_block, all_true}
use sid_torrent.Piece.Assembler.Blocks.{IsValid, add_block-IsValid, block_length_range}

-- The block `k` of the piece `whole`, handed to `AddBlock` at its place.
unfoldable pub deliver : List ℕ → PieceAssembler → ℕ → PieceAssembler
deliver whole pa k =
    (add_block pa (pos (k * block_size))
      (slice whole (k * block_size) (pos_part (block_length pa k)))).0

unfoldable pub deliver_all : List ℕ → PieceAssembler → List ℕ → PieceAssembler
deliver_all whole pa [] = pa
deliver_all whole pa (k ∷ ks) = deliver_all whole (deliver whole pa k) ks

get_or-set :
    (bs : List Bool) (i j : ℕ)
    → get_or (set bs i true) j false ≡ true
    → i ≢ j
    → get_or bs j false ≡ true
get_or-set [] i j h ne = h
get_or-set (b ∷ bs) zero zero h ne = absurd (ne refl)
get_or-set (b ∷ bs) zero (suc j) h ne = h
get_or-set (b ∷ bs) (suc i) zero h ne = h
get_or-set (b ∷ bs) (suc i) (suc j) h ne = get_or-set bs i j h (λ e. ne (ap suc e))

pub all_true-get :
    (bs : List Bool) (j : ℕ) → all_true bs ≡ true → j < length bs → get_or bs j false ≡ true
unfolding all_true
all_true-get [] j h lt = absurd (omega arith)
all_true-get (b ∷ bs) zero h lt = ground arith
all_true-get (b ∷ bs) (suc j) h lt = all_true-get bs j (ground arith) (omega arith)

-- Where a block is marked as received, the bytes are those of the piece.
pub record Agrees (whole : List ℕ) (pa : PieceAssembler) : Type 0 where
  pub valid : IsValid pa
  pub size : length whole ≡ pa.piece_size
  pub bytes :
      (j : ℕ)
      → get_or pa.received (j / block_size) false ≡ true
      → get_elem? pa.content j ≡ get_elem? whole j

written :
    (whole content : List ℕ) (i n j : ℕ)
    → length content ≡ length whole
    → i + n ≤ length whole
    → i ≤ j
    → j < i + n
    → get_elem? (splice content i (slice whole i n)) j ≡ get_elem? whole j
written whole content i n j e fits lo hi =
    let k = j - i in
    let place : i + k ≡ j = omega arith in
    let long = length-slice whole i n fits in
    rw (← place) (
      get_elem?-splice_in content i (slice whole i n) k (omega arith) (omega arith)
      ∙ get_elem?-slice whole i n k (omega arith))

unwritten :
    (whole content : List ℕ) (i n j : ℕ)
    → length content ≡ length whole
    → i + n ≤ length whole
    → (j < i) ⊎ (i + n ≤ j)
    → get_elem? (splice content i (slice whole i n)) j ≡ get_elem? content j
unwritten whole content i n j e fits (inl before) = get_elem?-splice_before content i _ j before
unwritten whole content i n j e fits (inr after) =
    get_elem?-splice_after content i _ j (omega (arith, length-slice whole i n fits))

accepted :
    (pa : PieceAssembler) (o : ℕ) (block : List ℕ)
    → IsValid pa
    → o < pa.piece_size
    → o + length block ≤ pa.piece_size
    → (add_block pa (pos o) block).0 ≡ record pa {
      content = splice pa.content o block;
      received = set pa.received (o / block_size) true;
    }
unfolding add_block
accepted pa o block v start fits = ground arith

pub deliver-shape :
    (whole : List ℕ) (pa : PieceAssembler) (k : ℕ)
    → IsValid pa
    → length whole ≡ pa.piece_size
    → k < pa.total_blocks
    → deliver whole pa k ≡ record pa {
      content =
          splice pa.content
            (k * block_size)
            (slice whole (k * block_size) (pos_part (block_length pa k)));
      received = set pa.received k true;
    }
unfolding deliver
deliver-shape whole pa k v size lt =
    let (_, one, most, inside, full) = block_length_range pa k v lt in
    let long = length-slice whole (k * block_size) (pos_part (block_length pa k)) (omega arith) in
    let place : k * block_size / block_size ≡ k = omega arith in
    rw (
      accepted pa (k * block_size) (slice whole (k * block_size) (pos_part (block_length pa k))) v
          (omega arith) (omega arith),
      place,
    )

-- A byte outside block `k` is in another block.
other_block :
    (pa : PieceAssembler) (k j : ℕ)
    → IsValid pa
    → k < pa.total_blocks
    → j < pa.piece_size
    → ((k * block_size ≤ j) × (j < k * block_size + pos_part (block_length pa k)))
      ⊎ (((j < k * block_size) ⊎ (k * block_size + pos_part (block_length pa k) ≤ j))
          × (k ≢ j / block_size))
unfolding block_length
other_block pa k j v lt hj = ground arith

deliver-IsValid :
    (whole : List ℕ) (pa : PieceAssembler) (k : ℕ) → IsValid pa → IsValid (deliver whole pa k)
unfolding deliver
deliver-IsValid whole pa k v = add_block-IsValid pa _ _ v

delivered_bytes :
    (whole : List ℕ) (pa : PieceAssembler) (k j : ℕ)
    → Agrees whole pa
    → k < pa.total_blocks
    → get_or (set pa.received k true) (j / block_size) false ≡ true
    → get_elem?
        (splice pa.content
          (k * block_size)
          (slice whole (k * block_size) (pos_part (block_length pa k))))
        j
      ≡ get_elem? whole j
delivered_bytes whole pa k j a lt h =
    let (_, one, most, inside, full) = block_length_range pa k a.valid lt in
    let same : length pa.content ≡ length whole = omega arith in
    elim (dec_lt j pa.piece_size) [
      | no out ↦
          get_elem?_beyond _ j (
            omega (
              arith,
              length-splice pa.content (k * block_size)
                  (slice whole (k * block_size) (pos_part (block_length pa k))),
            ))
          ∙ sym (get_elem?_beyond whole j (omega arith))
      | yes within ↦ elim (other_block pa k j a.valid lt within) [
        | inl (lo, hi) ↦
            written whole pa.content (k * block_size) (pos_part (block_length pa k)) j same
              (omega arith) lo hi
        | inr (apart, other) ↦
            unwritten whole pa.content (k * block_size) (pos_part (block_length pa k)) j same
              (omega arith) apart
            ∙ a.bytes j (get_or-set pa.received k (j / block_size) h other)
      ]
    ]

pub deliver-Agrees :
    (whole : List ℕ) (pa : PieceAssembler) (k : ℕ)
    → Agrees whole pa
    → k < pa.total_blocks
    → Agrees whole (deliver whole pa k)
deliver-Agrees whole pa k a lt =
    let e = deliver-shape whole pa k a.valid a.size lt in
    record {
      valid = deliver-IsValid whole pa k a.valid;
      size = rw e a.size;
      bytes = rw e (λ j h. delivered_bytes whole pa k j a lt h);
    }
