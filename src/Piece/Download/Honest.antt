-- ===== src/Piece/Download/Honest.antt =====
-- internal/piece/downloader.go: `DownloadPiece` from a peer that sends the blocks of the true piece.
mod Blocks
use sid_torrent.Prelude.{
  ℕ, zero, suc, ◌+◌, ◌-◌, ◌*◌, ◌/◌, ◌%◌, ◌^◌, ◌<◌, ◌≤◌, ◌≡◌, ◌⊎◌, inl, inr, refl, sym, ◌∙◌, ap,
  subst, Bool, true, false, Bool-cases, none, some, List, [], ◌∷◌, ◌++◌, arith, ◌==◌, length,
  get_or, slice, set, length-slice,
}
use sid_torrent.Prelude.Int.{ℤ, pos, pos_part}
use sid_torrent.Prelude.Bytes.{Bytes}
use sid_torrent.Prelude.Words.{put_uint32, get_uint32, get-put_uint32}
use sid_torrent.Peer.Message.{
  Message, got, read_message, serialize, block, parse_piece, parse_payload, msg_piece, msg_unchoke,
  msg_interested,
}
use sid_torrent.Peer.Message.Framing.{read_message-serialize}
use sid_torrent.Peer.State.{Client, write_message, write_counted, send_interested, plain_message}
use sid_torrent.Piece.Assembler.{
  PieceAssembler, block_size, new_assembler, block_length, add_block, is_complete,
}
use sid_torrent.Piece.Assembler.Blocks.{add_block-accepts, block_length_range}
use sid_torrent.Piece.Assembler.Blocks.Delivery.{
  Agrees, AllBelow, In, deliver, deliver-shape, deliver-Agrees, Agrees-content,
  new_assembler-Agrees, all_true_from, get_or-set_keeps,
}
use sid_torrent.Piece.Download.{
  tally, is_outstanding, outstanding, Queued, queued, write_failed, queue_requests, Download,
  downloaded, counted_block, after_queue, after_piece, after_read, download_rounds, start_download,
  unchoke_read, unchoke_rounds, after_interested, download_piece, max_outstanding, pass_gate,
}
use sid_torrent.Piece.Download.Requests.{
  IsQueued, IsFilled, is_free, free, queue_requests-IsQueued, tally-receive, get_or-set_self,
}
use sid_torrent.Piece.Download.Outcomes.{new_assembler-outstanding}
use sid_torrent.Peer.Startup.{with_choked}
use sid_torrent.Peer.Startup.Outcomes.{read_message-shorter}
pub use sid_torrent.Piece.Download.Honest.Blocks.{pieces_stream}
use sid_torrent.Piece.Download.Honest.Blocks.{
  block_of, piece_message, length-block_of, parse_piece-message, read_message-piece,
  add_block-deliver, IsUnderway, Underway-received, Underway-asked,
}

module _ (again : Client → PieceAssembler → Download) (max : ℕ) (index : ℕ) (whole : Bytes)
    (ks : List ℕ) (rest : Bytes)
    (later : (c : Client) (pa : PieceAssembler)
      → c.input ≡ pieces_stream index whole ks rest
      → IsUnderway max whole ks c pa
      → (c' : Client) × (again c pa ≡ downloaded c' whole)) where
  after_queue-downloaded :
      (c : Client) (pa : PieceAssembler) (q : Queued)
      → c.input ≡ pieces_stream index whole ks rest
      → IsUnderway max whole ks c pa
      → IsQueued max c pa q
      → (c' : Client) × (after_queue again q ≡ downloaded c' whole)
  unfolding after_queue
  after_queue-downloaded c pa (queued c' pa') e u f =
      later c' pa' (f.same_input ∙ e) (Underway-asked max whole ks c c' pa pa' u f)
  after_queue-downloaded c pa (write_failed c') e u (few, same, asked) =
      absurd (omega (arith, u.budget))
  after_queue-downloaded c pa Queued.out_of_fuel e u f = absurd f

  after_piece-downloaded :
      (c : Client) (pa : PieceAssembler) (k : ℕ)
      → c.input ≡ pieces_stream index whole ks rest
      → length whole < 2 ^ 32
      → IsUnderway max whole (k ∷ ks) c pa
      → (c' : Client) × (after_piece again max c pa
            (parse_piece (some (piece_message index whole k)))
          ≡ downloaded c' whole)
  unfolding after_piece
  after_piece-downloaded c pa k e small u =
      let (lt, below) = u.below in
      let (one, most, inside) = length-block_of pa whole k u.agrees lt in
      let aligned : ((k * block_size % block_size) == 0) ≡ true = ground arith in
      let c' = counted_block c (length (block_of whole k)) in
      let pa' = deliver whole pa k in
      let u' = Underway-received max whole k ks c pa u in
      rw (parse_piece-message index whole k (omega arith) one) (
        rw aligned (
          rw (add_block-deliver pa whole k u.agrees lt) (
            after_queue-downloaded c' pa' (queue_requests max c' pa') e u'
              (queue_requests-IsQueued max c' pa' u'.agrees.valid u'.bounded))))

covered_all :
    (max : ℕ) (whole : Bytes) (c : Client) (pa : PieceAssembler)
    → IsUnderway max whole [] c pa
    → is_complete pa ≡ true
unfolding is_complete
covered_all max whole c pa u =
    all_true_from pa.received
      (λ j lt. came j (u.covered j (omega (arith, u.agrees.valid.received_size))))
  where
    came : (j : ℕ) → (get_or pa.received j false ≡ true) ⊎ ⊥ → get_or pa.received j false ≡ true
    came j (inl h) = h
    came j (inr h) = absurd h

download_rounds-downloaded :
    (f max index : ℕ) (whole : Bytes) (ks : List ℕ) (rest : Bytes) (c : Client)
    (pa : PieceAssembler)
    → length whole < 2 ^ 32
    → length c.input < f
    → c.input ≡ pieces_stream index whole ks rest
    → IsUnderway max whole ks c pa
    → (c' : Client) × (download_rounds f max c pa ≡ downloaded c' whole)
unfolding download_rounds after_read
download_rounds-downloaded zero max index whole ks rest c pa small lt e u = absurd (omega arith)
download_rounds-downloaded (suc f) max index whole [] rest c pa small lt e u =
    let done = covered_all max whole c pa u in
    (c, rw (done, download_rounds) (ap (downloaded c) (Agrees-content whole pa u.agrees done)))
download_rounds-downloaded (suc f) max index whole (k ∷ ks) rest c pa small lt e u =
    elim (Bool-cases (is_complete pa)) [
      | inl done ↦ (
        c,
        rw (done, download_rounds) (ap (downloaded c) (Agrees-content whole pa u.agrees done)),
      )
      | inr more ↦
          let again = download_rounds f max in
          let tail = pieces_stream index whole ks rest in
          let (one, most, inside) = length-block_of pa whole k u.agrees u.below.0 in
          let read : read_message c.input ≡ got (some (piece_message index whole k)) tail =
            ap read_message e ∙ read_message-piece index whole k tail most in
          let c1 = record c { input = tail } in
          let u1 : IsUnderway max whole (k ∷ ks) c1 pa = record {
            agrees = u.agrees;
            bounded = u.bounded;
            budget = u.budget;
            below = u.below;
            covered = u.covered;
          } in
          rw (more, download_rounds)
            (subst (λ r. (c' : Client) × (after_read again max c pa r ≡ downloaded c' whole))
              (sym read)
              (after_piece-downloaded again max index whole ks rest
                (λ c2 pa2 e2 u2.
                  download_rounds-downloaded f max index whole ks rest c2 pa2 small
                    (omega (arith, ap length e2, read_message-shorter c.input read)) e2 u2)
                c1 pa k refl small u1))
    ]

tally-le :
    (test : Bool → Bool → Bool) (rs qs : List Bool) (i left : ℕ) → tally test rs qs i left ≤ left
unfolding tally
tally-le test rs qs i zero = omega arith
tally-le test rs qs i (suc left) = ground (arith, tally-le test rs qs (suc i) left)

start_download-downloaded :
    (max index : ℕ) (whole : Bytes) (ks : List ℕ) (rest : Bytes) (c : Client)
    → length whole < 2 ^ 32
    → c.input ≡ pieces_stream index whole ks rest
    → let pa = new_assembler index (length whole) in
      AllBelow ks pa.total_blocks
      → ((j : ℕ) → j < pa.total_blocks → In j ks)
      → pa.total_blocks ≤ c.writes_left
      → (c' : Client) × (start_download max c index (length whole) ≡ downloaded c' whole)
unfolding start_download free
start_download-downloaded max index whole ks rest c small e below all writes =
    let pa = new_assembler index (length whole) in
    let n = length c.input + 1 in
    let none_out = new_assembler-outstanding index (length whole) in
    let u : IsUnderway max whole ks c pa = record {
      agrees = new_assembler-Agrees whole index;
      bounded = omega (arith, none_out);
      budget = omega (arith, tally-le is_free pa.received pa.requested 0 pa.total_blocks);
      below = below;
      covered = λ j h. inr (all j h);
    } in
    after_queue-downloaded (download_rounds n max) max index whole ks rest
      (λ c2 pa2 e2 u2.
        download_rounds-downloaded n max index whole ks rest c2 pa2 small
          (omega (arith, ap length e2, ap length e)) e2 u2)
      c pa (queue_requests max c pa) e u (queue_requests-IsQueued max c pa u.agrees.valid u.bounded)

unchoke_rounds-open :
    (f : ℕ) (done : Client → Download) (c : Client) (stream : Bytes)
    → 0 < f
    → c.input ≡ serialize (plain_message msg_unchoke) ++ stream
    → unchoke_rounds f done c ≡ done (with_choked (record c { input = stream }) false)
unfolding unchoke_rounds unchoke_read
unchoke_rounds-open zero done c stream lt e = absurd (omega arith)
unchoke_rounds-open (suc f) done c stream lt e =
    let read : read_message c.input ≡ got (some (plain_message msg_unchoke)) stream =
      ap read_message e ∙ read_message-serialize (plain_message msg_unchoke) stream (omega arith) in
    ap (unchoke_read (unchoke_rounds f done) done c) read

-- The client after it said that it is interested, and was let through.
abbrev let_through : ℕ → Bytes → Client → Client
let_through w stream c = record c {
  state = record c.state { choked = false };
  input = stream;
  output = c.output ++ serialize (plain_message msg_interested);
  writes_left = w;
}

pass_gate-open :
    (w : ℕ) (done : Client → Download) (c : Client) (stream : Bytes)
    → c.writes_left ≡ suc w
    → c.input ≡ serialize (plain_message msg_unchoke) ++ stream
    → pass_gate true done c ≡ done (let_through w stream c)
unfolding pass_gate send_interested write_message write_counted
pass_gate-open w done c stream writes e =
    let packet = serialize (plain_message msg_interested) in
    let c' = record c { output = c.output ++ packet; writes_left = w } in
    ap (λ n. after_interested done (write_counted n c packet)) writes
    ∙ unchoke_rounds-open (length c.input + 1) done c' stream (omega arith) e

-- A peer lets the client through and then sends the blocks of the piece, in any order and any of them
-- again and again. If each block is among them, the piece has fewer than 2^32 bytes, and more writes
-- succeed than there are blocks, `DownloadPiece` ends with the piece.
pub download_piece-downloaded :
    (queue_size : ℤ) (index : ℕ) (whole : Bytes) (ks : List ℕ) (rest : Bytes) (c : Client)
    → c.state.choked ≡ true
    → c.input ≡ serialize (plain_message msg_unchoke) ++ pieces_stream index whole ks rest
    → length whole < 2 ^ 32
    → AllBelow ks (new_assembler index (length whole)).total_blocks
    → ((j : ℕ) → j < (new_assembler index (length whole)).total_blocks → In j ks)
    → (new_assembler index (length whole)).total_blocks < c.writes_left
    → (c' : Client) × (download_piece queue_size c index (length whole) ≡ downloaded c' whole)
unfolding download_piece
download_piece-downloaded queue_size index whole ks rest c choked e small below all writes =
    let max = max_outstanding queue_size in
    let stream = pieces_stream index whole ks rest in
    let w = c.writes_left - 1 in
    let done = λ (c' : Client). start_download max c' index (length whole) in
    let left : c.writes_left ≡ suc w = omega arith in
    let (c', whole_piece) =
      start_download-downloaded max index whole ks rest (let_through w stream c) small refl below
        all (omega arith) in
    (
      c',
      ap (λ b. pass_gate b done c) choked ∙ (pass_gate-open w done c stream left e ∙ whole_piece),
    )
