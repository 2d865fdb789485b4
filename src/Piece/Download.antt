-- ===== src/Piece/Download.antt =====
-- internal/piece/downloader.go: `DownloadPiece`, with the messages of the peer as the input of the
-- client. The rate limiter only delays, and is left out. The assembler is local, so that what the
-- error paths reset in it is gone with it.
pub mod Requests
pub mod Outcomes
pub mod Honest
use sid_torrent.Prelude.{
  ℕ, zero, suc, ◌+◌, ◌%◌, Bool, true, false, not, ◌&&◌, Option, none, some, List, [], ◌∷◌, leb,
  ◌==◌, if◌then◌else◌, length, get_or,
}
use sid_torrent.Prelude.Int.{ℤ, pos, pos_part, leb_ℤ}
use sid_torrent.Prelude.Bytes.{Bytes}
use sid_torrent.Peer.Message.{
  Message, ReadResult, got, failed, read_message, handle_have, request_message, PieceResult, block,
  refused, parse_piece, msg_choke, msg_unchoke, msg_have, msg_piece, msg_extended,
}
use sid_torrent.Peer.State.{Client, write_message, send_interested}
use sid_torrent.Peer.Pex
use sid_torrent.Peer.Pex.{Extended, handled, blocked, handle_extended}
use sid_torrent.Peer.Startup.{with_bitfield, with_choked}
use sid_torrent.Piece.Assembler.{
  PieceAssembler, BlockError, block_size, new_assembler, add_block, is_complete, next_missing_block,
}

-- `maxOutstanding`
unfoldable pub max_outstanding : ℤ → ℕ
max_outstanding size = if leb_ℤ size (pos 0) then 8 else pos_part size

-- How many of the blocks from `i` on, as many as `left`, have marks for which the test holds.
unfoldable pub tally : (Bool → Bool → Bool) → List Bool → List Bool → ℕ → ℕ → ℕ
tally test received requested i zero = 0
tally test received requested i (suc left) =
    let rest = tally test received requested (suc i) left in
    if test (get_or received i false) (get_or requested i false) then suc rest else rest

abbrev pub is_outstanding : Bool → Bool → Bool
is_outstanding received requested = requested && not received

-- The count at the start of each round of `queueRequests`.
unfoldable pub outstanding : PieceAssembler → ℕ
outstanding pa = tally is_outstanding pa.received pa.requested 0 pa.total_blocks

-- After `queueRequests`, with or without an error of a write.
pub data Queued : Type 0 where
  queued : Client → PieceAssembler → Queued
  write_failed : Client → Queued
  out_of_fuel : Queued

-- The write of a request; `again` is the next round.
unfoldable pub after_write :
    (Client → PieceAssembler → Queued) → PieceAssembler → Client × Bool → Queued
after_write again pa (c, true) = again c pa
after_write again pa (c, false) = write_failed c

unfoldable pub request_next :
    (Client → PieceAssembler → Queued) → Client → PieceAssembler × Option (ℕ × ℤ) → Queued
request_next again c (pa, none) = queued c pa
request_next again c (pa, some (offset, size)) =
    after_write again pa (write_message c (request_message pa.piece_index offset (pos_part size)))

unfoldable pub queue_rounds : ℕ → ℕ → Client → PieceAssembler → Queued
queue_rounds zero max c pa = out_of_fuel
queue_rounds (suc f) max c pa = elim (leb max (outstanding pa)) [
  | true ↦ queued c pa
  | false ↦ request_next (queue_rounds f max) c (next_missing_block pa)
]

-- `queueRequests`: each round but the last makes one more block outstanding.
unfoldable pub queue_requests : ℕ → Client → PieceAssembler → Queued
queue_requests max c pa = queue_rounds (max + 1) max c pa

-- How `DownloadPiece` ends: with the piece, with an error of the connection, with another error, or it
-- waits for ever on a channel.
pub data Download : Type 0 where
  downloaded : Client → Bytes → Download
  connection_lost : Client → Download
  rejected : Client → Download
  hung : Download
  out_of_fuel : Download

abbrev pub counted_total : Client → Client
counted_total c = record c {
  state = record c.state { total_downloads = c.state.total_downloads + 1 };
}

abbrev pub counted_block : Client → ℕ → Client
counted_block c n = record c {
  state = record c.state {
    successful_downloads = c.state.successful_downloads + 1;
    total_downloads = c.state.total_downloads + 1;
    interval_bytes = c.state.interval_bytes + n;
  };
}

abbrev pub Again : Type 0
Again = Client → PieceAssembler → Download

unfoldable pub after_queue : Again → Queued → Download
after_queue again (queued c pa) = again c pa
after_queue again (write_failed c) = connection_lost c
after_queue again Queued.out_of_fuel = out_of_fuel

unfoldable pub after_have : Again → Client → PieceAssembler → Option (List Bool) → Download
after_have again c pa none = rejected c
after_have again c pa (some bf) = again (with_bitfield c bf) pa

unfoldable pub after_extended : Again → Client → PieceAssembler → Extended → Download
after_extended again c pa (handled s chan) = again (record c { state = s; peer_chan = chan }) pa
after_extended again c pa Pex.refused = again c pa
after_extended again c pa blocked = hung

-- After `AddBlock` of a block of `n` bytes.
unfoldable pub after_add : Again → ℕ → Client → ℕ → PieceAssembler × Option BlockError → Download
unfolding after_queue
after_add again max c n (pa, some e) = rejected (counted_total c)
after_add again max c n (pa, none) = after_queue again (queue_requests max (counted_block c n) pa)

unfoldable pub after_piece : Again → ℕ → Client → PieceAssembler → PieceResult → Download
unfolding after_add
after_piece again max c pa (refused e) = rejected (counted_total c)
after_piece again max c pa (block offset bytes) =
    if (offset % block_size) == 0
    then after_add again max c (length bytes) (add_block pa (pos offset) bytes)
    else rejected (counted_total c)

-- The `switch` of `DownloadPiece`.
unfoldable pub block_message : Again → ℕ → Client → PieceAssembler → Message → Download
unfolding after_queue after_have after_extended after_piece
block_message again max c pa m =
    if m.id == msg_choke
    then rejected (counted_total (with_choked c true))
    else if m.id == msg_unchoke
    then after_queue again (queue_requests max (with_choked c false) pa)
    else if m.id == msg_have
    then after_have again c pa (handle_have c.state.bitfield m)
    else if m.id == msg_extended
    then after_extended again c pa (handle_extended c.state c.peer_chan m)
    else if m.id == msg_piece
    then after_piece again max c pa (parse_piece (some m))
    else again c pa

unfoldable pub after_read : Again → ℕ → Client → PieceAssembler → ReadResult → Download
unfolding block_message
after_read again max c pa (failed e) = connection_lost (counted_total (record c { input = [] }))
after_read again max c pa (got none rest) = again (record c { input = rest }) pa
after_read again max c pa (got (some m) rest) =
    block_message again max (record c { input = rest }) pa m

-- The loop of `DownloadPiece`. Each round takes a message from the input.
unfoldable pub download_rounds : ℕ → ℕ → Client → PieceAssembler → Download
download_rounds zero max c pa = out_of_fuel
download_rounds (suc f) max c pa = elim (is_complete pa) [
  | true ↦ downloaded c pa.content
  | false ↦ after_read (download_rounds f max) max c pa (read_message c.input)
]

-- After the wait the pipeline is filled, and the loop starts.
unfoldable pub start_download : ℕ → Client → ℕ → ℕ → Download
unfolding after_queue
start_download max c index size =
    after_queue (download_rounds (length c.input + 1) max)
      (queue_requests max c (new_assembler index size))

unfoldable pub after_owned : (Client → Download) → Client → Option (List Bool) → Download
after_owned again c none = rejected c
after_owned again c (some bf) = again (with_bitfield c bf)

-- `waitForUnchoke`, with what `DownloadPiece` does next.
unfoldable pub unchoke_message :
    (Client → Download) → (Client → Download) → Client → Message → Download
unfolding after_owned
unchoke_message again done c m =
    if m.id == msg_unchoke
    then done (with_choked c false)
    else if m.id == msg_choke
    then again (with_choked c true)
    else if m.id == msg_have
    then after_owned again c (handle_have c.state.bitfield m)
    else again c

unfoldable pub unchoke_read :
    (Client → Download) → (Client → Download) → Client → ReadResult → Download
unfolding unchoke_message
unchoke_read again done c (failed e) = connection_lost (record c { input = [] })
unchoke_read again done c (got none rest) = again (record c { input = rest })
unchoke_read again done c (got (some m) rest) =
    unchoke_message again done (record c { input = rest }) m

unfoldable pub unchoke_rounds : ℕ → (Client → Download) → Client → Download
unchoke_rounds zero done c = out_of_fuel
unchoke_rounds (suc f) done c = unchoke_read (unchoke_rounds f done) done c (read_message c.input)

unfoldable pub after_interested : (Client → Download) → Client × Bool → Download
after_interested done (c, false) = connection_lost c
after_interested done (c, true) = unchoke_rounds (length c.input + 1) done c

-- `if client.State.Choked`
unfoldable pub pass_gate : Bool → (Client → Download) → Client → Download
unfolding after_interested
pass_gate true done c = after_interested done (send_interested c)
pass_gate false done c = done c

-- `DownloadPiece`, with the `PipelineQueueSize` of the configuration.
unfoldable pub download_piece : ℤ → Client → ℕ → ℕ → Download
unfolding pass_gate start_download max_outstanding
download_piece queue_size c index size =
    pass_gate c.state.choked (λ c'. start_download (max_outstanding queue_size) c' index size) c
