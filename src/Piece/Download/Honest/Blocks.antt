-- ===== src/Piece/Download/Honest/Blocks.antt =====
-- internal/piece/downloader.go: the messages with the blocks of a piece.
use sid_torrent.Prelude.{
  ℕ, ◌+◌, ◌*◌, ◌/◌, ◌%◌, ◌^◌, ◌<◌, ◌≤◌, ◌≡◌, ◌⊎◌, inl, inr, refl, sym, ◌∙◌, ap, subst, Bool, true,
  false, none, some, List, [], ◌∷◌, ◌++◌, arith, length, get_or, slice, set, length-slice,
}
use sid_torrent.Prelude.Int.{pos, pos_part}
use sid_torrent.Prelude.Bytes.{Bytes}
use sid_torrent.Prelude.Words.{put_uint32, get_uint32, get-put_uint32}
use sid_torrent.Peer.Message.{
  Message, got, read_message, serialize, block, parse_piece, parse_payload, msg_piece,
}
use sid_torrent.Peer.Message.Framing.{read_message-serialize}
use sid_torrent.Peer.State.{Client}
use sid_torrent.Piece.Assembler.{PieceAssembler, block_size, new_assembler, block_length, add_block}
use sid_torrent.Piece.Assembler.Blocks.{add_block-accepts, block_length_range}
use sid_torrent.Piece.Assembler.Blocks.Delivery.{
  Agrees, AllBelow, In, deliver, deliver-shape, deliver-Agrees, get_or-set_keeps,
}
use sid_torrent.Piece.Download.{is_outstanding, outstanding, counted_block}
use sid_torrent.Piece.Download.Requests.{IsFilled, is_free, free, tally-receive, get_or-set_self}

-- The bytes of a block.
abbrev pub block_of : Bytes → ℕ → Bytes
block_of whole k =
    slice whole (k * block_size) (pos_part (block_length (new_assembler 0 (length whole)) k))

-- The message that answers the request of a block.
abbrev pub piece_message : ℕ → Bytes → ℕ → Message
piece_message index whole k = record {
  id = msg_piece;
  payload = put_uint32 index ++ (put_uint32 (k * block_size) ++ block_of whole k);
}

-- Such messages, one after another.
abbrev pub pieces_stream : ℕ → Bytes → List ℕ → Bytes → Bytes
pieces_stream index whole [] rest = rest
pieces_stream index whole (k ∷ ks) rest =
    serialize (piece_message index whole k) ++ pieces_stream index whole ks rest

block_length-of :
    (pa : PieceAssembler) (whole : Bytes) (k : ℕ)
    → pa.piece_size ≡ length whole
    → block_length (new_assembler 0 (length whole)) k ≡ block_length pa k
unfolding block_length new_assembler
block_length-of pa whole k e = rw e

-- A block of the piece has a byte, at most as many as a block may have, and lies in the piece.
pub length-block_of :
    (pa : PieceAssembler) (whole : Bytes) (k : ℕ)
    → Agrees whole pa
    → k < pa.total_blocks
    → (1 ≤ length (block_of whole k))
      × (length (block_of whole k) ≤ block_size)
      × (k * block_size + length (block_of whole k) ≤ length whole)
length-block_of pa whole k a lt =
    let (_, one, most, inside, full) = block_length_range pa k a.valid lt in
    let same = block_length-of pa whole k (sym a.size) in
    let long =
      length-slice whole (k * block_size) (pos_part (block_length pa k)) (omega (arith, a.size)) in
    rw (same, long) (one, most, omega (arith, a.size))

parse_payload-block :
    (a b c d e f g h : ℕ) (bytes : Bytes)
    → 1 ≤ length bytes
    → parse_payload (a ∷ b ∷ c ∷ d ∷ e ∷ f ∷ g ∷ h ∷ bytes) ≡ block (get_uint32 e f g h) bytes
unfolding parse_payload
parse_payload-block a b c d e f g h [] one = absurd (omega arith)
parse_payload-block a b c d e f g h (x ∷ xs) one = refl

pub parse_piece-message :
    (index : ℕ) (whole : Bytes) (k : ℕ)
    → k * block_size < 2 ^ 32
    → 1 ≤ length (block_of whole k)
    → parse_piece (some (piece_message index whole k)) ≡ block (k * block_size) (block_of whole k)
unfolding parse_piece put_uint32
parse_piece-message index whole k small one =
    let w = k * block_size in
    parse_payload-block (index / 2 ^ 24 % 256) (index / 2 ^ 16 % 256) (index / 2 ^ 8 % 256)
      (index % 256) (w / 2 ^ 24 % 256) (w / 2 ^ 16 % 256) (w / 2 ^ 8 % 256) (w % 256)
      (block_of whole k) one
    ∙ ap (λ o. block o (block_of whole k)) (get-put_uint32 (k * block_size) small)

pub read_message-piece :
    (index : ℕ) (whole : Bytes) (k : ℕ) (rest : Bytes)
    → length (block_of whole k) ≤ block_size
    → read_message (serialize (piece_message index whole k) ++ rest)
      ≡ got (some (piece_message index whole k)) rest
unfolding put_uint32
read_message-piece index whole k rest h =
    read_message-serialize (piece_message index whole k) rest (omega arith)

-- `AddBlock` takes it.
pub add_block-deliver :
    (pa : PieceAssembler) (whole : Bytes) (k : ℕ)
    → Agrees whole pa
    → k < pa.total_blocks
    → add_block pa (pos (k * block_size)) (block_of whole k) ≡ (deliver whole pa k, none)
unfolding deliver
add_block-deliver pa whole k a lt =
    let same = block_length-of pa whole k (sym a.size) in
    let (one, most, inside) = length-block_of pa whole k a lt in
    let took =
      (add_block-accepts pa (k * block_size) (block_of whole k) a.valid).1
        (omega (arith, a.size), omega (arith, a.size)) in
    let o = k * block_size in
    let bytes : block_of whole k ≡ slice whole o (pos_part (block_length pa k)) =
      ap (λ l. slice whole o (pos_part l)) same in
    ap (add_block pa (pos o)) bytes
    ∙ ap (λ e. (deliver whole pa k, e)) (subst (λ b. (add_block pa (pos o) b).1 ≡ none) bytes took)

-- The download under way: the blocks that came in are right, the pipeline is within its bound, there are
-- writes for all requests, and the blocks that are missing are among those to come.
pub record IsUnderway (max : ℕ) (whole : Bytes) (ks : List ℕ) (c : Client) (pa : PieceAssembler)
    : Type 0 where
  pub agrees : Agrees whole pa
  pub bounded : outstanding pa ≤ max
  pub budget : free pa ≤ c.writes_left
  pub below : AllBelow ks pa.total_blocks
  pub covered : (j : ℕ) → j < pa.total_blocks → (get_or pa.received j false ≡ true) ⊎ In j ks

pub Underway-received :
    (max : ℕ) (whole : Bytes) (k : ℕ) (ks : List ℕ) (c : Client) (pa : PieceAssembler)
    → IsUnderway max whole (k ∷ ks) c pa
    → IsUnderway max whole ks (counted_block c (length (block_of whole k))) (deliver whole pa k)
unfolding outstanding free
Underway-received max whole k ks c pa u =
    let a = u.agrees in
    let (lt, rest) = u.below in
    let e = deliver-shape whole pa k a.valid a.size lt in
    let fewer =
      tally-receive is_outstanding pa.received pa.requested k 0 pa.total_blocks (λ q. done q) in
    let less = tally-receive is_free pa.received pa.requested k 0 pa.total_blocks (λ q. refl) in
    record {
      agrees = deliver-Agrees whole pa k a lt;
      bounded = rw e (omega (arith, fewer, u.bounded));
      budget = rw e (omega (arith, less, u.budget));
      below = rw e rest;
      covered = rw e (λ j hj. mark j hj (u.covered j hj));
    }
  where
    done : (q : Bool) → is_outstanding true q ≡ false
    done true = refl
    done false = refl

    mark :
        (j : ℕ)
        → j < pa.total_blocks
        → (get_or pa.received j false ≡ true) ⊎ ((k ≡ j) ⊎ In j ks)
        → (get_or (set pa.received k true) j false ≡ true) ⊎ In j ks
    mark j hj (inl before) = inl (get_or-set_keeps pa.received k j before)
    mark j hj (inr (inl now)) = inl (
        rw now
          (get_or-set_self pa.received j true false (omega (arith, u.agrees.valid.received_size))))
    mark j hj (inr (inr later)) = inr later

-- Asking for more changes nothing of this.
pub Underway-asked :
    (max : ℕ) (whole : Bytes) (ks : List ℕ) (c c' : Client) (pa pa' : PieceAssembler)
    → IsUnderway max whole ks c pa
    → IsFilled max c pa c' pa'
    → IsUnderway max whole ks c' pa'
Underway-asked max whole ks c c' pa pa' u f =
    let a = u.agrees in
    record {
      agrees = record {
        valid = f.valid;
        size = a.size ∙ sym f.same_size;
        bytes = λ j h. rw f.same_content (a.bytes j (rw f.same_received at h));
      };
      bounded = f.bounded;
      budget = omega (arith, f.spent, u.budget);
      below = rw f.same_blocks u.below;
      covered = λ j h. rw f.same_received (u.covered j (rw f.same_blocks at h));
    }
