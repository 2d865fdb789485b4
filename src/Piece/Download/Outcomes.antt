-- ===== src/Piece/Download/Outcomes.antt =====
-- internal/piece/downloader.go: how `DownloadPiece` ends, whatever the peer sends.
mod Rounds
use sid_torrent.Prelude.{
  ℕ, zero, suc, ◌+◌, ◌-◌, ◌/◌, ◌%◌, ◌<◌, ◌≤◌, ◌≡◌, refl, ◌∙◌, Bool, true, false, Bool-cases, inl,
  inr, Option, none, some, List, ◌++◌, arith, ◌==◌, length, get_or, replicate,
}
use sid_torrent.Prelude.Int.{ℤ, pos}
use sid_torrent.Prelude.Bytes.{Bytes}
use sid_torrent.Peer.Message
use sid_torrent.Peer.Message.{
  Message, ReadResult, got, read_message, handle_have, PieceResult, block, parse_piece, msg_choke,
  msg_unchoke, msg_have, msg_piece, msg_extended,
}
use sid_torrent.Peer.State.{Client, send_interested, write_message, write_counted}
use sid_torrent.Peer.Pex
use sid_torrent.Peer.Pex.{Extended, handled, blocked, handle_extended}
use sid_torrent.Peer.Startup.{with_bitfield, with_choked}
use sid_torrent.Peer.Startup.Outcomes.{
  Keeps, handle_extended-Keeps, length-handle_have, read_message-shorter,
}
use sid_torrent.Piece.Assembler.{
  PieceAssembler, BlockError, block_size, new_assembler, add_block, is_complete,
}
use sid_torrent.Piece.Assembler.Blocks.{IsValid, add_block-IsValid, new_assembler-IsValid}
use sid_torrent.Piece.Download.{
  is_outstanding, outstanding, Queued, queued, write_failed, queue_requests, Download, downloaded,
  connection_lost, rejected, hung, counted_block, after_queue, after_have, after_extended,
  after_add, after_piece, block_message, after_read, download_rounds, start_download, after_owned,
  unchoke_message, unchoke_read, unchoke_rounds, after_interested, pass_gate, download_piece,
  max_outstanding,
}
use sid_torrent.Piece.Download.Requests.{
  IsQueued, queue_requests-IsQueued, tally-receive, tally-zero,
}
pub use sid_torrent.Piece.Download.Outcomes.Rounds.{IsEnded}
use sid_torrent.Piece.Download.Outcomes.Rounds.{
  IsLoading, IsEnded-earlier, after_queue-IsEnded, after_read-IsEnded,
}

pub download_rounds-IsEnded :
    (f max total size : ℕ) (c : Client) (pa : PieceAssembler)
    → length c.state.bitfield ≡ total
    → length c.input < f
    → IsLoading max size pa
    → IsEnded total size c (download_rounds f max c pa)
unfolding download_rounds
download_rounds-IsEnded zero max total size c pa h lt l = absurd (omega arith)
download_rounds-IsEnded (suc f) max total size c pa h lt l = elim (Bool-cases (is_complete pa)) [
  | inl done ↦ rw (done, download_rounds) (omega (arith, l.valid.content_size, l.sized), h)
  | inr more ↦
      rw (more, download_rounds)
        (after_read-IsEnded (download_rounds f max) max total size f
          (λ c' pa' h' lt' l'. download_rounds-IsEnded f max total size c' pa' h' lt' l') c pa
          (read_message c.input) h (λ m rest e. omega (arith, read_message-shorter c.input e)) l)
]

pub unmarked : (n j : ℕ) → get_or (replicate n false) j false ≡ false
unmarked zero j = refl
unmarked (suc n) zero = refl
unmarked (suc n) (suc j) = unmarked n j

pub new_assembler-outstanding : (index size : ℕ) → outstanding (new_assembler index size) ≡ 0
unfolding outstanding new_assembler
new_assembler-outstanding index size =
    tally-zero is_outstanding _ _ 0 _
      (λ j lo hi. rw (unmarked ((size + block_size - 1) / block_size) j))

pub new_assembler-IsLoading : (max index size : ℕ) → IsLoading max size (new_assembler index size)
new_assembler-IsLoading max index size = record {
  valid = new_assembler-IsValid index size;
  bounded = omega (arith, new_assembler-outstanding index size);
  sized = size_of index size;
}
  where
    size_of : (index size : ℕ) → (new_assembler index size).piece_size ≡ size
    size_of index size = unfold new_assembler in refl

start_download-IsEnded :
    (max index size : ℕ) (c : Client)
    → IsEnded (length c.state.bitfield) size c (start_download max c index size)
unfolding start_download
start_download-IsEnded max index size c =
    let total = length c.state.bitfield in
    let n = length c.input + 1 in
    let pa = new_assembler index size in
    let l = new_assembler-IsLoading max index size in
    after_queue-IsEnded (download_rounds n max) max total size n
      (λ c' pa' h lt l'. download_rounds-IsEnded n max total size c' pa' h lt l') c pa
      (queue_requests max c pa) refl (omega arith) l.sized
      (queue_requests-IsQueued max c pa l.valid l.bounded)

module _ (done : Client → Download) (total size : ℕ)
    (ends : (c : Client) → length c.state.bitfield ≡ total → IsEnded total size c (done c)) where
  unchoke_message-IsEnded :
      (again : Client → Download) (c : Client) (m : Message)
      → length c.state.bitfield ≡ total
      → ((c' : Client)
          → length c'.state.bitfield ≡ total
          → c'.input ≡ c.input
          → IsEnded total size c' (again c'))
      → IsEnded total size c (unchoke_message again done c m)
  unfolding unchoke_message
  unchoke_message-IsEnded again c m h later =
      let free_gate = with_choked c false in
      let shut_gate = with_choked c true in
      let out =
        IsEnded-earlier total size c free_gate (done free_gate) (λ k. k) (ends free_gate h) in
      let on =
        IsEnded-earlier total size c shut_gate (again shut_gate) (λ k. k)
          (later shut_gate h refl) in
      elim (Bool-cases (m.id == msg_unchoke)) [
        | inl e ↦ rw e out
        | inr e ↦ rw e (elim (Bool-cases (m.id == msg_choke)) [
          | inl e1 ↦ rw e1 on
          | inr e1 ↦ rw e1 (elim (Bool-cases (m.id == msg_have)) [
            | inl e2 ↦ rw e2 (owned (handle_have c.state.bitfield m) refl)
            | inr e2 ↦ rw e2 (later c h refl)
          ])
        ])
      ]
    where
      owned :
          (o : Option (List Bool))
          → handle_have c.state.bitfield m ≡ o
          → IsEnded total size c (after_owned again c o)
      owned none e = h
      owned (some bf) e =
          let c' = with_bitfield c bf in
          IsEnded-earlier total size c c' (again c') (λ k. k)
            (later c' (length-handle_have c.state.bitfield m e ∙ h) refl)

  unchoke_read-IsEnded :
      (again : Client → Download) (c : Client) (n : ℕ) (r : ReadResult)
      → length c.state.bitfield ≡ total
      → ((m : Option Message) (rest : Bytes) → r ≡ got m rest → length rest < n)
      → ((c' : Client)
          → length c'.state.bitfield ≡ total
          → length c'.input < n
          → IsEnded total size c' (again c'))
      → IsEnded total size c (unchoke_read again done c r)
  unfolding unchoke_read
  unchoke_read-IsEnded again c n (Message.failed e) h lt later = h
  unchoke_read-IsEnded again c n (got none rest) h lt later =
      let c' = record c { input = rest } in
      IsEnded-earlier total size c c' (again c') (λ k. k) (later c' h (lt none rest refl))
  unchoke_read-IsEnded again c n (got (some m) rest) h lt later =
      let c' = record c { input = rest } in
      IsEnded-earlier total size c c' (unchoke_message again done c' m) (λ k. k)
        (unchoke_message-IsEnded again c' m h
          (λ d k same. later d k (rw same (lt (some m) rest refl))))

  unchoke_rounds-IsEnded :
      (f : ℕ) (c : Client)
      → length c.state.bitfield ≡ total
      → length c.input < f
      → IsEnded total size c (unchoke_rounds f done c)
  unfolding unchoke_rounds
  unchoke_rounds-IsEnded zero c h lt = absurd (omega arith)
  unchoke_rounds-IsEnded (suc f) c h lt =
      unchoke_read-IsEnded (unchoke_rounds f done) c f (read_message c.input) h
        (λ m rest e. omega (arith, read_message-shorter c.input e)) (unchoke_rounds-IsEnded f)

  after_interested-IsEnded :
      (w : ℕ) (c : Client) (packet : Bytes)
      → length c.state.bitfield ≡ total
      → IsEnded total size c (after_interested done (write_counted w c packet))
  unfolding after_interested write_counted
  after_interested-IsEnded zero c packet h = h
  after_interested-IsEnded (suc w) c packet h =
      let c' = record c { output = c.output ++ packet; writes_left = w } in
      IsEnded-earlier total size c c' (unchoke_rounds (length c.input + 1) done c') (λ k. k)
        (unchoke_rounds-IsEnded (length c.input + 1) c' h (omega arith))

  pass_gate-IsEnded :
      (choked : Bool) (c : Client)
      → length c.state.bitfield ≡ total
      → IsEnded total size c (pass_gate choked done c)
  unfolding pass_gate send_interested write_message
  pass_gate-IsEnded true c h = after_interested-IsEnded c.writes_left c _ h
  pass_gate-IsEnded false c h = ends c h

-- On a connection that gives finitely many bytes, any bytes, and then fails, `DownloadPiece` ends,
-- unless it waits for ever on a channel that is nil or from which nobody receives any more. What it
-- gives in success has the size of the piece, and in every case the client's bitfield keeps its size.
pub download_piece-IsEnded :
    (queue_size : ℤ) (c : Client) (index size : ℕ)
    → IsEnded (length c.state.bitfield) size c (download_piece queue_size c index size)
unfolding download_piece
download_piece-IsEnded queue_size c index size =
    let max = max_outstanding queue_size in
    pass_gate-IsEnded (λ c'. start_download max c' index size) (length c.state.bitfield) size
      (λ c' h. rw (← h) (start_download-IsEnded max index size c')) c.state.choked c refl
