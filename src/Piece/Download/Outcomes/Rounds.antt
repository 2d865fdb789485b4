-- ===== src/Piece/Download/Outcomes/Rounds.antt =====
-- internal/piece/downloader.go: how a message changes a download, and how the rounds end.
use sid_torrent.Prelude.{
  ℕ, ◌/◌, ◌%◌, ◌<◌, ◌≤◌, ◌≡◌, refl, ◌∙◌, Bool, true, false, Bool-cases, inl, inr, Option, none,
  some, List, arith, ◌==◌, length,
}
use sid_torrent.Prelude.Int.{pos}
use sid_torrent.Prelude.Bytes.{Bytes}
use sid_torrent.Peer.Message
use sid_torrent.Peer.Message.{
  Message, ReadResult, got, read_message, handle_have, PieceResult, block, parse_piece, msg_choke,
  msg_unchoke, msg_have, msg_piece, msg_extended,
}
use sid_torrent.Peer.State.{served, Client}
use sid_torrent.Peer.Pex
use sid_torrent.Peer.Pex.{Extended, handled, blocked, handle_extended}
use sid_torrent.Peer.Startup.{with_bitfield, with_choked}
use sid_torrent.Peer.Startup.Outcomes.{Keeps, handle_extended-Keeps, length-handle_have}
use sid_torrent.Piece.Assembler.{PieceAssembler, BlockError, block_size, add_block}
use sid_torrent.Piece.Assembler.Blocks.{IsValid, add_block-IsValid}
use sid_torrent.Piece.Download.{
  is_outstanding, outstanding, Queued, queued, write_failed, queue_requests, Download, downloaded,
  connection_lost, rejected, hung, counted_block, after_queue, after_have, after_extended,
  after_add, after_piece, block_message, after_read,
}
use sid_torrent.Piece.Download.Requests.{IsQueued, queue_requests-IsQueued, tally-receive}

-- The piece has its size, and the client's bitfield keeps its own. It hangs only
-- when nobody receives from its channel.
abbrev pub IsEnded : ℕ → ℕ → Client → Download → Type 0
IsEnded total size c (downloaded c' bytes) =
    (length bytes ≡ size) × (length c'.state.bitfield ≡ total)
IsEnded total size c (connection_lost c') = length c'.state.bitfield ≡ total
IsEnded total size c (rejected c') = length c'.state.bitfield ≡ total
IsEnded total size c hung = served c.peer_chan ≡ false
IsEnded total size c Download.out_of_fuel = ⊥

-- The assembler in the loop.
pub record IsLoading (max size : ℕ) (pa : PieceAssembler) : Type 0 where
  pub valid : IsValid pa
  pub bounded : outstanding pa ≤ max
  pub sized : pa.piece_size ≡ size

pub IsEnded-earlier :
    (total size : ℕ) (c c' : Client) (r : Download)
    → (served c'.peer_chan ≡ false → served c.peer_chan ≡ false)
    → IsEnded total size c' r
    → IsEnded total size c r
IsEnded-earlier total size c c' (downloaded d bytes) chan h = h
IsEnded-earlier total size c c' (connection_lost d) chan h = h
IsEnded-earlier total size c c' (rejected d) chan h = h
IsEnded-earlier total size c c' hung chan h = chan h
IsEnded-earlier total size c c' Download.out_of_fuel chan h = h

add_block-IsLoading :
    (max size : ℕ) (pa : PieceAssembler) (offset : ℕ) (bytes : Bytes)
    → IsLoading max size pa
    → IsLoading max size (add_block pa (pos offset) bytes).0
unfolding add_block outstanding
add_block-IsLoading max size pa offset bytes l =
    let k = offset / block_size in
    let fewer =
      tally-receive is_outstanding pa.received pa.requested k 0 pa.total_blocks (λ q. no_more q) in
    record {
      valid = add_block-IsValid pa (pos offset) bytes l.valid;
      bounded = ground (arith, fewer, l.bounded);
      sized = ground (arith, l.sized);
    }
  where
    no_more : (q : Bool) → is_outstanding true q ≡ false
    no_more true = refl
    no_more false = refl

module _ (again : Client → PieceAssembler → Download) (max total size n : ℕ)
    (later : (c : Client) (pa : PieceAssembler)
      → length c.state.bitfield ≡ total
      → length c.input < n
      → IsLoading max size pa
      → IsEnded total size c (again c pa)) where
  pub after_queue-IsEnded :
      (c : Client) (pa : PieceAssembler) (q : Queued)
      → length c.state.bitfield ≡ total
      → length c.input < n
      → pa.piece_size ≡ size
      → IsQueued max c pa q
      → IsEnded total size c (after_queue again q)
  unfolding after_queue
  after_queue-IsEnded c pa (queued c' pa') h lt sized f =
      let load : IsLoading max size pa' = record {
        valid = f.valid;
        bounded = f.bounded;
        sized = f.same_size ∙ sized;
      } in
      IsEnded-earlier total size c c' (again c' pa') (λ k. rw f.same_chan at k)
        (later c' pa' (rw f.same_state h) (rw f.same_input lt) load)
  after_queue-IsEnded c pa (write_failed c') h lt sized (few, same, asked) = rw same h
  after_queue-IsEnded c pa Queued.out_of_fuel h lt sized f = f

  after_have-IsEnded :
      (c : Client) (pa : PieceAssembler) (m : Message) (o : Option (List Bool))
      → length c.state.bitfield ≡ total
      → length c.input < n
      → IsLoading max size pa
      → handle_have c.state.bitfield m ≡ o
      → IsEnded total size c (after_have again c pa o)
  unfolding after_have
  after_have-IsEnded c pa m none h lt l e = h
  after_have-IsEnded c pa m (some bf) h lt l e =
      let c' = with_bitfield c bf in
      IsEnded-earlier total size c c' (again c' pa) (λ k. k)
        (later c' pa (length-handle_have c.state.bitfield m e ∙ h) lt l)

  after_extended-IsEnded :
      (c : Client) (pa : PieceAssembler) (r : Extended)
      → length c.state.bitfield ≡ total
      → length c.input < n
      → IsLoading max size pa
      → Keeps c.state c.peer_chan r
      → IsEnded total size c (after_extended again c pa r)
  unfolding after_extended
  after_extended-IsEnded c pa (handled s chan) h lt l (same, open_still) =
      let c' = record c { state = s; peer_chan = chan } in
      IsEnded-earlier total size c c' (again c' pa) open_still (later c' pa (rw same h) lt l)
  after_extended-IsEnded c pa Pex.refused h lt l k = later c pa h lt l
  after_extended-IsEnded c pa blocked h lt l k = k

  after_add-IsEnded :
      (c : Client) (bytes : ℕ) (p : PieceAssembler × Option BlockError)
      → length c.state.bitfield ≡ total
      → length c.input < n
      → IsLoading max size p.0
      → IsEnded total size c (after_add again max c bytes p)
  unfolding after_add
  after_add-IsEnded c bytes (pa, some e) h lt l = h
  after_add-IsEnded c bytes (pa, none) h lt l =
      let c' = counted_block c bytes in
      IsEnded-earlier total size c c' (after_queue again (queue_requests max c' pa)) (λ k. k)
        (after_queue-IsEnded c' pa (queue_requests max c' pa) h lt l.sized
          (queue_requests-IsQueued max c' pa l.valid l.bounded))

  after_piece-IsEnded :
      (c : Client) (pa : PieceAssembler) (r : PieceResult)
      → length c.state.bitfield ≡ total
      → length c.input < n
      → IsLoading max size pa
      → IsEnded total size c (after_piece again max c pa r)
  unfolding after_piece
  after_piece-IsEnded c pa (Message.refused e) h lt l = h
  after_piece-IsEnded c pa (block offset bytes) h lt l =
      elim (Bool-cases ((offset % block_size) == 0)) [
        | inl aligned ↦ rw aligned (
            after_add-IsEnded c (length bytes) (add_block pa (pos offset) bytes) h lt
              (add_block-IsLoading max size pa offset bytes l))
        | inr off ↦ rw off h
      ]

  block_message-IsEnded :
      (c : Client) (pa : PieceAssembler) (m : Message)
      → length c.state.bitfield ≡ total
      → length c.input < n
      → IsLoading max size pa
      → IsEnded total size c (block_message again max c pa m)
  unfolding block_message
  block_message-IsEnded c pa m h lt l =
      let open_gate = with_choked c false in
      let pipeline =
        after_queue-IsEnded open_gate pa (queue_requests max open_gate pa) h lt l.sized
          (queue_requests-IsQueued max open_gate pa l.valid l.bounded) in
      let refill =
        IsEnded-earlier total size c open_gate (after_queue again (queue_requests max open_gate pa))
          (λ k. k) pipeline in
      let one = after_have-IsEnded c pa m (handle_have c.state.bitfield m) h lt l refl in
      let extension =
        after_extended-IsEnded c pa (handle_extended c.state c.peer_chan m) h lt l
          (handle_extended-Keeps c.state c.peer_chan m) in
      let part = after_piece-IsEnded c pa (parse_piece (some m)) h lt l in
      elim (Bool-cases (m.id == msg_choke)) [
        | inl e ↦ rw e h
        | inr e ↦ rw e (elim (Bool-cases (m.id == msg_unchoke)) [
          | inl e1 ↦ rw e1 refill
          | inr e1 ↦ rw e1 (elim (Bool-cases (m.id == msg_have)) [
            | inl e2 ↦ rw e2 one
            | inr e2 ↦ rw e2 (elim (Bool-cases (m.id == msg_extended)) [
              | inl e3 ↦ rw e3 extension
              | inr e3 ↦ rw e3 (elim (Bool-cases (m.id == msg_piece)) [
                | inl e4 ↦ rw e4 part
                | inr e4 ↦ rw e4 (later c pa h lt l)
              ])
            ])
          ])
        ])
      ]

  pub after_read-IsEnded :
      (c : Client) (pa : PieceAssembler) (r : ReadResult)
      → length c.state.bitfield ≡ total
      → ((m : Option Message) (rest : Bytes) → r ≡ got m rest → length rest < n)
      → IsLoading max size pa
      → IsEnded total size c (after_read again max c pa r)
  unfolding after_read
  after_read-IsEnded c pa (Message.failed e) h lt l = h
  after_read-IsEnded c pa (got none rest) h lt l =
      let c' = record c { input = rest } in
      IsEnded-earlier total size c c' (again c' pa) (λ k. k) (later c' pa h (lt none rest refl) l)
  after_read-IsEnded c pa (got (some m) rest) h lt l =
      let c' = record c { input = rest } in
      IsEnded-earlier total size c c' (block_message again max c' pa m) (λ k. k)
        (block_message-IsEnded c' pa m h (lt (some m) rest refl) l)
