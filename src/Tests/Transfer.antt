-- ===== src/Tests/Transfer.antt =====
-- internal/peer and internal/piece: a client, what it reads and writes, and a worker.
use sid_torrent.Prelude.{
  ◌<◌, ◌≡◌, refl, inl, Bool, true, false, none, some, List, [], ◌∷◌, ◌++◌, arith, get_elem?, length,
}
use sid_torrent.Prelude.Int.{pos}
use sid_torrent.Prelude.Bytes.{Bytes, codes}
use sid_torrent.Prelude.Words.{put_uint16}
use sid_torrent.Dht.Compact.{to4}
use sid_torrent.Torrent.Parser.{TorrentFile}
use sid_torrent.Disk.{DiskWriter}
use sid_torrent.Peer.Message.{serialize, handle_have, have_message, msg_unchoke}
use sid_torrent.Peer.Bitfield.Packing.{pack, pack_from}
use sid_torrent.Peer.State.{open_channel, PeerState, Client, plain_message}
use sid_torrent.Peer.Pex.{
  ParsedAddress, handle_extended, handled, blocked, extended_message, handshake_value, pex_value,
  local_pex_extension_id, add4, add6, write4,
}
use sid_torrent.Peer.Pex.RoundTrip.{
  four, six, handle_extended-pex, handle_extended-handshake, handle_extended-blocked,
}
use sid_torrent.Peer.Startup.{ready, read_bitfield, with_bitfield}
use sid_torrent.Peer.Startup.Outcomes.{
  IsStarted, bitfield_message, keep_alives, read_bitfield-IsStarted, read_bitfield-bitfield,
}
use sid_torrent.Tracker.Peers.{TrackerPeer}
use sid_torrent.Piece.Assembler.{new_assembler}
use sid_torrent.Piece.Assembler.Blocks.{new_assembler-IsValid}
use sid_torrent.Piece.Manager.{PieceManager, register_peer_bitfield, unregister_peer_bitfield}
use sid_torrent.Piece.Download.{downloaded, download_piece, outstanding, queue_requests, tally}
use sid_torrent.Piece.Download.Requests.{IsQueued, queue_requests-IsQueued}
use sid_torrent.Piece.Download.Outcomes.{IsEnded, download_piece-IsEnded}
use sid_torrent.Piece.Download.Honest.{pieces_stream, download_piece-downloaded}
use sid_torrent.Piece.Worker.{Worker, Others}
use sid_torrent.Piece.Worker.Leaving.{unregister-have}
use sid_torrent.Tests.Manager.{demo, demo-IsValid}

abbrev pub state : PeerState
state = record {
  choked = true;
  bitfield = true ∷ false ∷ true ∷ [];
  choked_by_us = true;
  interested_in_us = false;
  interval_bytes = 0;
  remote_pex_id = pos 0;
  corrupt_count = 0;
  successful_downloads = 0;
  total_downloads = 0;
}

abbrev near : TrackerPeer
near = record { ip = 1 ∷ 2 ∷ 3 ∷ 4 ∷ []; port = 80 }

abbrev added : List ParsedAddress
added = some near ∷ none ∷ []

short4 : length (add4 added) ≡ 6
unfolding add4 write4 to4 put_uint16
short4 = refl

short6 : length (add6 added) ≡ 0
unfolding add6 to4
short6 = refl

handle_extended-pex_example :
    handle_extended state
      (some (open_channel []))
      (extended_message local_pex_extension_id (pex_value added))
    ≡ handled state (some (open_channel (four added ++ six added)))
handle_extended-pex_example =
    handle_extended-pex state [] added (inl refl, omega arith, tt) (omega (arith, short4))
      (omega (arith, short6))

one_added : 0 < length (four added ++ six added)
unfolding four six to4
one_added = omega arith

handle_extended-blocked_example :
    handle_extended state none (extended_message local_pex_extension_id (pex_value added)) ≡ blocked
handle_extended-blocked_example =
    handle_extended-blocked state added (inl refl, omega arith, tt) (omega (arith, short4))
      (omega (arith, short6)) one_added

handle_extended-handshake_example :
    handle_extended state none (extended_message 0 handshake_value)
    ≡ handled (record state { remote_pex_id = pos local_pex_extension_id }) none
handle_extended-handshake_example = handle_extended-handshake state none

abbrev pub client : Bytes → Client
client input = record {
  state = state;
  peer_chan = some (open_channel []);
  input = input;
  output = [];
  writes_left = 9;
}

abbrev three : List Bool
three = true ∷ false ∷ true ∷ []

one_byte : length (pack three) ≡ 1
unfolding pack pack_from
one_byte = refl

read_bitfield-bitfield_example :
    read_bitfield (client (keep_alives 2 (serialize (bitfield_message three) ++ 7 ∷ []))) 3
    ≡ ready (record (with_bitfield (client []) three) { input = 7 ∷ [] })
read_bitfield-bitfield_example =
    read_bitfield-bitfield 2 (client (keep_alives 2 (serialize (bitfield_message three) ++ 7 ∷ [])))
      three (7 ∷ []) (omega (arith, one_byte)) refl

read_bitfield-IsStarted_example :
    IsStarted 3 (client (0 ∷ 0 ∷ [])) (read_bitfield (client (0 ∷ 0 ∷ [])) 3)
read_bitfield-IsStarted_example = read_bitfield-IsStarted (client (0 ∷ 0 ∷ [])) 3

none_outstanding : outstanding (new_assembler 4 40000) ≡ 0
unfolding outstanding tally new_assembler
none_outstanding = refl

queue_requests-IsQueued_example :
    IsQueued 2
      (client [])
      (new_assembler 4 40000)
      (queue_requests 2 (client []) (new_assembler 4 40000))
queue_requests-IsQueued_example =
    queue_requests-IsQueued 2 (client []) (new_assembler 4 40000) (new_assembler-IsValid 4 40000)
      (omega (arith, none_outstanding))

download_piece-IsEnded_example :
    IsEnded 3 40 (client (0 ∷ 0 ∷ [])) (download_piece (pos 8) (client (0 ∷ 0 ∷ [])) 4 40)
download_piece-IsEnded_example = download_piece-IsEnded (pos 8) (client (0 ∷ 0 ∷ [])) 4 40

abbrev whole : Bytes
whole = 7 ∷ 8 ∷ 9 ∷ []

abbrev served : Client
served = client (serialize (plain_message msg_unchoke) ++ pieces_stream 4 whole (0 ∷ []) (5 ∷ []))

one_block : (new_assembler 4 3).total_blocks ≡ 1
unfolding new_assembler
one_block = refl

download_piece-downloaded_example :
    (c' : Client) × (download_piece (pos 8) served 4 (length whole) ≡ downloaded c' whole)
download_piece-downloaded_example =
    download_piece-downloaded (pos 8) 4 whole (0 ∷ []) (5 ∷ []) served refl refl (omega arith)
      (omega (arith, one_block), tt) (λ j lt. inl (omega (arith, one_block, lt)))
      (omega (arith, one_block))

unregister-have_example :
    (bf' : List Bool) × (joined left : PieceManager) × (handle_have
        (true ∷ false ∷ true ∷ [])
        (have_message 1)
      ≡ some bf')
    × (register_peer_bitfield demo (true ∷ false ∷ true ∷ []) ≡ some joined)
    × (unregister_peer_bitfield joined bf' ≡ some left)
    × (get_elem? left.availability 1 ≡ some 1)
unregister-have_example =
    unregister-have demo (true ∷ false ∷ true ∷ []) 1 2 demo-IsValid (omega arith) (omega arith)
      refl refl

-- In place of SHA-1.
abbrev pub sum_stub : Bytes → Bytes
sum_stub b = b

abbrev pub torrent : TorrentFile
torrent = record {
  announce = [];
  trackers = [];
  name = [];
  total_length = pos 40;
  piece_length = pos 16;
  pieces = [];
  info_hash = [];
  raw_info = [];
  files = [];
  is_multi_file = false;
}

abbrev writer : DiskWriter
writer = record {
  dest = [];
  piece_length = 16;
  queue = [];
  error = none;
  cache = [];
  cache_size = 0;
  max_cache_size = 100;
  closed = false;
}

abbrev worker : Worker
worker = record {
  manager = demo;
  client = client (0 ∷ []);
  address = codes "peer";
  writer = writer;
  metrics = record {
    downloaded = 0;
    uploaded = 0;
    active_peers = 1;
    success_pieces = 0;
    failed_pieces = 0;
    disk_latency_ms = 0;
    disk_writes = 0;
  };
  blacklist = [];
}

-- Others ban a peer while the piece is downloaded.
abbrev others : Others
others = record {
  between = λ pm. pm;
  managed = λ pm. pm;
  written = λ dw. dw;
  counted = λ m. m;
  banned = λ bs. codes "another" ∷ bs;
}
